-- ===== src/Citations/Resolution/Justified.antt =====
-- What resolve_reference returns is what its identifiers find, and it is stored.
use tarkka.Prelude.{
  ℕ, ◌≤◌, ◌≡◌, refl, ap, sym, subst, ◌∙◌, inl, inr, ◌⊎◌, true, false, Option, none, some, List, [],
  ◌∷◌, map, leb, length, nat_beq, nat_eq, list_eq, lookup, lookup-put, lookup-put_ne, false,
  contains, unique, contains-unique, NoDup, NoDup-unique, NoDup-sorted, contains-sorted, sorted,
  all_distinct_iff, ok, arith,
}
use tarkka.Identifiers.{Unicode}
use tarkka.Citations.Resolution.{
  CitationResolutionStatus, unresolved, resolved, ambiguous, rejected, CitationResolution,
  Resolutions, post_init, same_resolution, stored, BibliographicReference, Works, found_works,
  matched_work_ids, by_matches, resolve_reference,
}
use tarkka.Citations.Resolution.Agreement.{Agree, same_resolution-Agree, same_resolution_refl}
use tarkka.Citations.Resolution.Kept.{keep_cases}

map_self : (xs : List ℕ) → map (λ x. x) xs ≡ xs
map_self [] = refl
map_self (x ∷ xs) = ap (λ (ys : List ℕ). x ∷ ys) (map_self xs)

module _ (unicode : Unicode) (works : Works) (reference : BibliographicReference) where
  abbrev found : List ℕ
  found = found_works unicode works reference.identifiers

  abbrev matched : List ℕ
  matched = matched_work_ids unicode works reference

  contains-matched : (v : ℕ) → contains v matched ≡ contains v found
  unfolding matched_work_ids
  contains-matched v =
      let at = contains-sorted leb (λ (x : ℕ). x) v (unique found) in
      ap (contains v) (sym (map_self (sorted leb (unique found))))
      ∙ at
      ∙ ap (contains v) (map_self (unique found))
      ∙ contains-unique v found

  matched-NoDup : NoDup matched
  unfolding matched_work_ids
  matched-NoDup = subst NoDup (map_self (sorted leb (unique found))) (
      NoDup-sorted leb (λ (x : ℕ). x) (unique found)
        (subst NoDup (sym (map_self (unique found))) (NoDup-unique found)))

  -- The constructor accepts the resolution, whatever was found.
  accepted :
      (now : ℕ) (ids : List ℕ)
      → NoDup ids
      → post_init (by_matches unicode works reference now ids)
        ≡ ok (by_matches unicode works reference now ids)
  unfolding post_init
  accepted now [] h = refl
  accepted now (w ∷ []) h = refl
  accepted now (v ∷ w ∷ others) h = rw ((all_distinct_iff (v ∷ w ∷ others)).1 h) (ground arith)

  -- What the fields of a resolution say about the works found.
  abbrev pub IsBacked : CitationResolutionStatus → Option ℕ → List ℕ → Type 0
  IsBacked unresolved work_id candidates =
      (work_id ≡ none) × (candidates ≡ []) × ((v : ℕ) → contains v found ≡ false)
  IsBacked resolved work_id candidates =
      (candidates ≡ [])
      × ((w : ℕ) × (work_id ≡ some w) × ((v : ℕ) → contains v found ≡ nat_beq w v))
  IsBacked ambiguous work_id candidates =
      (work_id ≡ none)
      × NoDup candidates
      × (2 ≤ length candidates)
      × ((v : ℕ) → contains v candidates ≡ contains v found)
  IsBacked rejected work_id candidates = ⊥

  by_matches-IsBacked :
      (now : ℕ) (ids : List ℕ)
      → NoDup ids
      → ((v : ℕ) → contains v ids ≡ contains v found)
      → let r = by_matches unicode works reference now ids in
        IsBacked r.status r.work_id r.candidate_work_ids
  by_matches-IsBacked now [] h same = (refl, refl, λ v. sym (same v))
  by_matches-IsBacked now (w ∷ []) h same = (refl, (w, refl, λ v. sym (same v) ∙ ground arith))
  by_matches-IsBacked now (v ∷ w ∷ others) h same = (refl, h, omega arith, same)

  -- The resolution is for the reference, says what its identifiers find, and is stored.
  pub record IsJustified (r : CitationResolution) (resolutions : Resolutions) : Type 0 where
    pub named : r.reference_id ≡ reference.reference_id
    pub backed : IsBacked r.status r.work_id r.candidate_work_ids
    pub kept : lookup reference.reference_id resolutions ≡ some r

  module _ (resolutions : Resolutions) (now : ℕ) where
    abbrev made : CitationResolution
    made = by_matches unicode works reference now matched

    made_id : made.reference_id ≡ reference.reference_id
    made_id = elim_id matched
      where
        elim_id :
            (ids : List ℕ)
            → (by_matches unicode works reference now ids).reference_id ≡ reference.reference_id
        elim_id [] = refl
        elim_id (w ∷ []) = refl
        elim_id (v ∷ w ∷ others) = refl

    made-IsBacked : IsBacked made.status made.work_id made.candidate_work_ids
    made-IsBacked = by_matches-IsBacked now matched matched-NoDup contains-matched

    IsBacked-Agree :
        (a b : CitationResolution)
        → Agree a b
        → IsBacked b.status b.work_id b.candidate_work_ids
        → IsBacked a.status a.work_id a.candidate_work_ids
    IsBacked-Agree a b (named, status, work, candidates) backed =
        subst (λ (s : CitationResolutionStatus). IsBacked s a.work_id a.candidate_work_ids)
          (sym status)
          (subst (λ (w : Option ℕ). IsBacked b.status w a.candidate_work_ids) (sym work)
            (subst (λ (c : List ℕ). IsBacked b.status b.work_id c) (sym candidates) backed))

    resolve_cases :
        (r : CitationResolution) (saved : Resolutions)
        → resolve_reference unicode works resolutions reference now ≡ ok (r, saved)
        → ((saved ≡ resolutions)
            × (lookup reference.reference_id resolutions ≡ some r)
            × (same_resolution r made ≡ true))
          ⊎ ((saved ≡ stored resolutions made) × (r ≡ made))
    unfolding resolve_reference
    resolve_cases r saved h =
        keep_cases resolutions reference.reference_id made r saved made_id
          (rw (accepted now matched matched-NoDup) at h)

    justified :
        (r : CitationResolution) (saved : Resolutions)
        → resolve_reference unicode works resolutions reference now ≡ ok (r, saved)
        → IsJustified r saved
    justified r saved h = elim (resolve_cases r saved h) [
      | inl (same, there, agrees) ↦
          let agree = same_resolution-Agree r made agrees in
          record {
            named = agree.0 ∙ made_id;
            backed = IsBacked-Agree r made agree made-IsBacked;
            kept = ap (lookup reference.reference_id) same ∙ there;
          }
      | inr (put_there, new) ↦ record {
        named = ap (λ (x : CitationResolution). x.reference_id) new ∙ made_id;
        backed =
            subst (λ (x : CitationResolution). IsBacked x.status x.work_id x.candidate_work_ids)
              (sym new) made-IsBacked;
        kept =
            ap (lookup reference.reference_id) put_there
            ∙ ap (λ (k : ℕ). lookup k (stored resolutions made)) (sym made_id)
            ∙ lookup-put made.reference_id made resolutions
            ∙ ap some (sym new);
      }
    ]

  -- The tests of a resolution against a new one do not look at the time.
  any_time :
      (x : CitationResolution) (now later : ℕ) (ids : List ℕ)
      → same_resolution x (by_matches unicode works reference now ids)
        ≡ same_resolution x (by_matches unicode works reference later ids)
  unfolding same_resolution
  any_time x now later [] = refl
  any_time x now later (w ∷ []) = refl
  any_time x now later (v ∷ w ∷ others) = refl

-- A resolution under another identifier is left alone.
pub resolve_reference-lookup_ne :
    (unicode : Unicode) (works : Works) (resolutions saved : Resolutions)
    (reference : BibliographicReference) (now : ℕ) (r : CitationResolution) (other : ℕ)
    → resolve_reference unicode works resolutions reference now ≡ ok (r, saved)
    → nat_beq reference.reference_id other ≡ false
    → lookup other saved ≡ lookup other resolutions
resolve_reference-lookup_ne unicode works resolutions saved reference now r other h ne =
    elim (resolve_cases unicode works reference resolutions now r saved h) [
      | inl (same, there, e) ↦ ap (lookup other) same
      | inr (put_there, new) ↦
          let new_one = made unicode works reference resolutions now in
          let named = made_id unicode works reference resolutions now in
          ap (lookup other) put_there
          ∙ lookup-put_ne new_one.reference_id other new_one resolutions
              (ap (λ (k : ℕ). nat_beq k other) named ∙ ne)
    ]

-- A resolution that is returned is for the reference and stored under it: RESOLVED to a work if its
-- identifiers find that work and no other, AMBIGUOUS with the works that they find if these are
-- several, and UNRESOLVED if they find none.
pub resolve_reference-IsJustified :
    (unicode : Unicode) (works : Works) (resolutions saved : Resolutions)
    (reference : BibliographicReference) (now : ℕ) (r : CitationResolution)
    → resolve_reference unicode works resolutions reference now ≡ ok (r, saved)
    → IsJustified unicode works reference r saved
resolve_reference-IsJustified unicode works resolutions saved reference now r h =
    justified unicode works reference resolutions now r saved h

-- Resolving a reference again, at any time, returns the same resolution and changes nothing.
pub resolve_reference-twice :
    (unicode : Unicode) (works : Works) (resolutions saved : Resolutions)
    (reference : BibliographicReference) (now later : ℕ) (r : CitationResolution)
    → resolve_reference unicode works resolutions reference now ≡ ok (r, saved)
    → resolve_reference unicode works saved reference later ≡ ok (r, saved)
unfolding resolve_reference
resolve_reference-twice unicode works resolutions saved reference now later r h =
    let ids = matched_work_ids unicode works reference in
    let there = (justified unicode works reference resolutions now r saved h).kept in
    let agrees : same_resolution r (by_matches unicode works reference now ids) ≡ true =
      elim (resolve_cases unicode works reference resolutions now r saved h) [
        | inl (same, found, e) ↦ e
        | inr (put_there, new) ↦
            subst (λ (x : CitationResolution). same_resolution r x ≡ true) new
              (same_resolution_refl r)
      ] in
    rw
      (
        accepted unicode works reference later ids (matched-NoDup unicode works reference),
        there,
        any_time unicode works reference r later now ids,
        agrees,
      )
      refl
