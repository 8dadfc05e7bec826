-- ===== src/Citations/Documents/Pages.antt =====
-- The identifiers of a page of references occur once, as in the bucket.
use tarkka.Prelude.{
  ℕ, zero, suc, ◌+◌, ◌≡◌, refl, subst, Bool, false, Option, none, some, List, [], ◌∷◌, map,
  contains, NoDup, nat_beq, nat_eq, arith, take, drop, filter, sorted, NoDup-sorted, keys, values,
  All,
}
use tarkka.Citations.Resolution.{BibliographicReference}
use tarkka.Citations.Catalog.{Catalog, list_references, references_of, reference_le, page}
use tarkka.Citations.Documents.Outcomes.{ids_of}

-- A key that occurs once keeps doing so in a part of a list.
module _ {A : Type 0} (key : A → ℕ) where
  pub contains-filter :
      (k : ℕ) (p : A → Bool) (xs : List A)
      → contains k (map key xs) ≡ false
      → contains k (map key (filter p xs)) ≡ false
  contains-filter k p [] h = refl
  contains-filter k p (x ∷ xs) h = ground (arith, contains-filter k p xs)

  pub NoDup-filter :
      (p : A → Bool) (xs : List A) → NoDup (map key xs) → NoDup (map key (filter p xs))
  NoDup-filter p [] h = tt
  NoDup-filter p (x ∷ xs) h = ground (arith, NoDup-filter p xs, contains-filter (key x) p xs)

  pub contains-take :
      (k n : ℕ) (xs : List A)
      → contains k (map key xs) ≡ false
      → contains k (map key (take n xs)) ≡ false
  contains-take k zero xs h = refl
  contains-take k (suc n) [] h = refl
  contains-take k (suc n) (x ∷ xs) h = ground (arith, contains-take k n xs)

  pub NoDup-take : (n : ℕ) (xs : List A) → NoDup (map key xs) → NoDup (map key (take n xs))
  NoDup-take zero xs h = tt
  NoDup-take (suc n) [] h = tt
  NoDup-take (suc n) (x ∷ xs) h = (contains-take (key x) n xs h.0, NoDup-take n xs h.1)

  pub NoDup-drop : (n : ℕ) (xs : List A) → NoDup (map key xs) → NoDup (map key (drop n xs))
  NoDup-drop zero xs h = h
  NoDup-drop (suc n) [] h = tt
  NoDup-drop (suc n) (x ∷ xs) h = NoDup-drop n xs h.1

  pub NoDup-page :
      (offset : ℕ) (limit : Option ℕ) (xs : List A)
      → NoDup (map key xs)
      → NoDup (map key (page offset limit xs))
  NoDup-page offset none xs h = NoDup-drop offset xs h
  NoDup-page offset (some limit) xs h =
      NoDup-drop offset (take (offset + limit) xs) (NoDup-take (offset + limit) xs h)

-- Each reference stands under its identifier, and no identifier occurs twice.
pub record AreKeyed (items : List (ℕ × BibliographicReference)) : Type 0 where
  pub named : All (λ (item : ℕ × BibliographicReference). item.0 ≡ item.1.reference_id) items
  pub distinct : NoDup (keys items)

pub keys-ids_of :
    (items : List (ℕ × BibliographicReference))
    → All (λ (item : ℕ × BibliographicReference). item.0 ≡ item.1.reference_id) items
    → keys items ≡ ids_of (values items)
keys-ids_of [] h = refl
keys-ids_of (item ∷ items) h = λ i. h.0 i ∷ keys-ids_of items h.1 i

pub list_references-NoDup :
    (c : Catalog) (document_id offset : ℕ) (limit : Option ℕ)
    → AreKeyed c.references
    → NoDup (ids_of (list_references c document_id offset limit))
unfolding list_references
list_references-NoDup c document_id offset limit h =
    let id_of = λ (r : BibliographicReference). r.reference_id in
    NoDup-page id_of offset limit (sorted reference_le (references_of c document_id)) (
      NoDup-sorted reference_le id_of (references_of c document_id) (
        NoDup-filter id_of (λ (r : BibliographicReference). nat_beq r.document_id document_id)
          (values c.references) (subst NoDup (keys-ids_of c.references h.named) h.distinct)))
