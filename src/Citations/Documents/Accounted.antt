-- ===== src/Citations/Documents/Accounted.antt =====
-- The answers of resolve_document: the page, the citing work, the resolutions and the citations.
use tarkka.Prelude.{
  ℕ, ◌≡◌, refl, ap, sym, subst, ◌∙◌, inl, inr, ◌⊎◌, true, Option, none, some, List, [], ◌∷◌,
  contains, contains-unique, unique, nat_beq, nat_eq, ℤ, pos, negsuc, Result, ok, err, arith,
  Bool-cases,
}
use tarkka.Citations.{WorkRelation}
use tarkka.Identifiers.{Unicode}
use tarkka.Citations.Resolution.{CitationResolution, BibliographicReference, Works, has_none}
use tarkka.Citations.Catalog.{Catalog, count_references, list_references}
use tarkka.Citations.Documents.{
  Links, Clock, CitationResolutionResult, resolution_page, known, inferred_of, linked_if_any,
  counted, linked_to, citing_work_id, resolve_each, resolve_document,
}
use tarkka.Citations.Documents.Kept.{on_lift, returned}
use tarkka.Citations.Documents.Resolved.{resolve_each-Outcome}
use tarkka.Citations.Documents.Outcomes.{Outcome}
use tarkka.Citations.Documents.Pages.{AreKeyed, list_references-NoDup}

unique_none : (xs : List ℕ) → unique xs ≡ [] → xs ≡ []
unfolding unique
unique_none [] h = refl
unique_none (x ∷ xs) h = cc

-- The page that was asked for, which is not negative.
abbrev pub IsAsked : ℤ → Option ℤ → ℕ → Option ℕ → Type 0
IsAsked offset none start size = (offset ≡ pos start) × (size ≡ none)
IsAsked offset (some limit) start size =
    (offset ≡ pos start) × ((n : ℕ) × (limit ≡ pos n) × (size ≡ some n))

resolution_page-IsAsked :
    (offset : ℤ) (limit : Option ℤ) (start : ℕ) (size : Option ℕ)
    → resolution_page offset limit ≡ ok (start, size)
    → IsAsked offset limit start size
unfolding resolution_page
resolution_page-IsAsked (pos m) none start size h = (cc, cc)
resolution_page-IsAsked (pos m) (some (pos n)) start size h = (cc, (n, refl, cc))
resolution_page-IsAsked (pos m) (some (negsuc n)) start size h = cc
resolution_page-IsAsked (negsuc m) none start size h = cc
resolution_page-IsAsked (negsuc m) (some l) start size h = cc

module _ (unicode : Unicode) (works : Works) (links : Links) (clock : Clock) where
  -- The works linked to the document.
  abbrev pub linked : ℕ → List ℕ
  linked document_id = linked_to unicode works links clock links.linked_works document_id

  -- The citing work for a document and the one asked for, if any: that one, if it is stored and
  -- linked, or nothing is linked; else the only one linked, if there is one, which is stored.
  abbrev pub IsChosen : ℕ → Option ℕ → Option ℕ → Type 0
  IsChosen document_id (some explicit) citing =
      (citing ≡ some explicit)
      × (links.has_work explicit ≡ true)
      × ((linked document_id ≡ []) ⊎ (contains explicit (linked document_id) ≡ true))
  IsChosen document_id none none = linked document_id ≡ []
  IsChosen document_id none (some w) =
      (links.has_work w ≡ true) × ((v : ℕ) → contains v (linked document_id) ≡ nat_beq w v)

  known-eq-ok :
      (w : ℕ) (next : Result (Option ℕ)) (citing : Option ℕ)
      → known unicode works links clock w next ≡ ok citing
      → (links.has_work w ≡ true) × (next ≡ ok citing)
  known-eq-ok w next citing h = ground arith

  some_eq : (w : ℕ) (citing : Option ℕ) → ok (some w) ≡ ok citing → citing ≡ some w
  some_eq w citing h = cc

  has_none-eq : (xs : List ℕ) → has_none xs ≡ true → xs ≡ []
  has_none-eq [] h = refl
  has_none-eq (x ∷ xs) h = cc

  inferred-IsChosen :
      (document_id : ℕ) (ids : List ℕ) (citing : Option ℕ)
      → ((v : ℕ) → contains v ids ≡ contains v (linked document_id))
      → (ids ≡ [] → linked document_id ≡ [])
      → inferred_of unicode works links clock ids ≡ ok citing
      → IsChosen document_id none citing
  inferred-IsChosen document_id [] none same empty h = empty refl
  inferred-IsChosen document_id [] (some w) same empty h = cc
  inferred-IsChosen document_id (w ∷ []) citing same empty h =
      let (there, is) = known-eq-ok w (ok (some w)) citing h in
      subst (IsChosen document_id none) (sym (some_eq w citing is))
        (there, λ v. sym (same v) ∙ ground arith)
  inferred-IsChosen document_id (v ∷ w ∷ ids) citing same empty h = cc

  pub citing_work_id-IsChosen :
      (document_id : ℕ) (explicit citing : Option ℕ)
      → citing_work_id unicode works links clock document_id explicit ≡ ok citing
      → IsChosen document_id explicit citing
  unfolding citing_work_id
  citing_work_id-IsChosen document_id none citing h =
      inferred-IsChosen document_id (unique (linked document_id)) citing
        (λ v. contains-unique v (linked document_id)) (unique_none (linked document_id)) h
  citing_work_id-IsChosen document_id (some w) citing h =
      let works_linked = linked document_id in
      let (there, next) =
        known-eq-ok w (linked_if_any unicode works links clock w works_linked) citing h in
      elim (Bool-cases (has_none works_linked)) [
        | inl empty ↦
            (some_eq w citing (rw empty at next), there, inl (has_none-eq works_linked empty))
        | inr more ↦ elim (Bool-cases (contains w works_linked)) [
          | inl one ↦ (some_eq w citing (rw (more, one) at next), there, inr one)
          | inr other ↦ let lost = rw (more, other) at next in cc
        ]
      ]

  counted-eq :
      (document_id : ℕ) (citing : Option ℕ)
      (called : Result (List CitationResolution × List WorkRelation) × Catalog)
      (result : CitationResolutionResult) (last : Catalog)
      → counted unicode works links clock document_id citing called ≡ (ok result, last)
      → (rs : List CitationResolution) × (relations : List WorkRelation) × (called
          ≡ (ok (rs, relations), last))
        × (record {
          resolutions = rs;
          relations = relations;
          citing_work_id = citing;
          total_references = count_references last document_id;
        }
            ≡ result)
  counted-eq document_id citing (err raised, c) result last h = cc
  counted-eq document_id citing (ok (rs, relations), c) result last h =
      let (same, kept) = returned h in
      (
        rs,
        relations,
        ap (λ (x : Catalog). (ok (rs, relations), x)) kept,
        ap
              (λ (x : Catalog). record {
                resolutions = rs;
                relations = relations;
                citing_work_id = citing;
                total_references = count_references x document_id;
              })
              (sym kept)
            ∙ same,
      )

  -- What resolve_document returns for a page of the references of a document.
  pub record IsAccounted (document_id : ℕ) (explicit : Option ℕ) (offset : ℤ) (limit : Option ℤ)
      (result : CitationResolutionResult) (before last : Catalog) : Type 0 where
    pub start : ℕ
    pub size : Option ℕ
    pub asked : IsAsked offset limit start size
    pub chosen : IsChosen document_id explicit result.citing_work_id
    pub total : result.total_references ≡ count_references before document_id
    pub outcome :
        Outcome unicode works result.citing_work_id last
          (list_references before document_id start size)
          result.resolutions
          result.relations

-- If resolve_document returns, on a catalog whose references stand under their identifiers, then the
-- page asked for is not negative, and the citing work is the one asked for, stored and linked if any
-- works are linked, or else the only work linked, or none if none is. The resolutions are those of
-- the page of the document's references, one to one and in order, each as the identifiers of its
-- reference find it and stored in the catalog left behind. The relations are the citations of the
-- works that the resolutions select, by the citing work if there is one, stored there too.
pub resolve_document-IsAccounted :
    (unicode : Unicode) (works : Works) (links : Links) (clock : Clock) (document_id : ℕ)
    (explicit : Option ℕ) (offset : ℤ) (limit : Option ℤ) (result : CitationResolutionResult)
    (c last : Catalog)
    → AreKeyed c.references
    → resolve_document unicode works links clock document_id explicit offset limit c
      ≡ (ok result, last)
    → IsAccounted unicode works links clock document_id explicit offset limit result c last
unfolding resolve_document
resolve_document-IsAccounted unicode works links clock document_id explicit offset limit result c
      last keyed h =
    on_lift (resolution_page offset limit) _ c h λ (start, size) asked h.
      on_lift (citing_work_id unicode works links clock document_id explicit) _ c h
        λ citing chosen h.
          let references = list_references c document_id start size in
          let (rs, relations, called, is) =
            counted-eq unicode works links clock document_id citing
              (resolve_each unicode works links clock citing references 0 c) result last h in
          let (outcome, keeping) =
            resolve_each-Outcome unicode works links clock citing references 0 rs relations c last
              called (list_references-NoDup c document_id start size keyed) in
          subst
            (λ (r : CitationResolutionResult).
              IsAccounted unicode works links clock document_id explicit offset limit r c last)
            is
            record {
              start = start;
              size = size;
              asked = resolution_page-IsAsked offset limit start size asked;
              chosen =
                  citing_work_id-IsChosen unicode works links clock document_id explicit citing
                    chosen;
              total =
                  ap
                    (λ (items : List (ℕ × BibliographicReference)).
                      count_references (record c { references = items }) document_id)
                    keeping.references;
              outcome = outcome;
            }
