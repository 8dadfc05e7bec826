-- ===== src/Citations/Documents/Outcomes.antt =====
-- What the loop of resolve_document returns and leaves behind in the catalog.
use tarkka.Prelude.{ℕ, ◌≡◌, false, Option, some, List, [], ◌∷◌, ◌++◌, map, contains, nat_eq, lookup}
use tarkka.Citations.{WorkRelation, cites}
use tarkka.Identifiers.{Unicode}
use tarkka.Citations.Resolution.{CitationResolution, BibliographicReference, Works}
use tarkka.Citations.Resolution.Justified.{IsJustified}
use tarkka.Citations.Catalog.{Catalog}

-- A relation of the catalog by which a work cites another, found in a reference.
pub record IsCitation (citing cited : ℕ) (reference : BibliographicReference) (last : Catalog)
    (r : WorkRelation) : Type 0 where
  pub from_work : r.subject_work_id ≡ citing
  pub to_work : r.object_work_id ≡ cited
  pub as_cites : r.kind ≡ cites
  pub in_document : r.source_document_id ≡ some reference.document_id
  pub by_reference : r.source_reference_id ≡ some reference.reference_id
  pub stored : lookup r.relation_id last.relations ≡ some r

-- The relations of a reference, of a work to the work that it is resolved to, if there are both.
abbrev pub AreCited :
    Option ℕ → BibliographicReference → Option ℕ → Catalog → List WorkRelation → Type 0
AreCited (some citing) reference (some cited) last rs =
    (r : WorkRelation) × (rs ≡ r ∷ []) × IsCitation citing cited reference last r
AreCited _ reference _ last rs = rs ≡ []

-- References, their resolutions and the citations found, in order, as the last catalog has them.
pub data Outcome (unicode : Unicode) (works : Works) (citing : Option ℕ) (last : Catalog)
    : List BibliographicReference → List CitationResolution → List WorkRelation → Type 0 where
  done : Outcome unicode works citing last [] [] []
  next :
      {reference : BibliographicReference} {references : List BibliographicReference}
      {r : CitationResolution} {rs : List CitationResolution} (cited later : List WorkRelation)
      → IsJustified unicode works reference r last.resolutions
      → AreCited citing reference r.work_id last cited
      → Outcome unicode works citing last references rs later
      → Outcome unicode works citing last (reference ∷ references) (r ∷ rs) (cited ++ later)

abbrev pub ids_of : List BibliographicReference → List ℕ
ids_of references = map (λ (r : BibliographicReference). r.reference_id) references

-- What the rest of the loop keeps of the catalog.
pub record IsKeeping (ids : List ℕ) (before last : Catalog) : Type 0 where
  pub resolutions :
      (id : ℕ) → contains id ids ≡ false → lookup id last.resolutions ≡ lookup id before.resolutions
  pub relations :
      (id : ℕ) (r : WorkRelation)
      → lookup id before.relations ≡ some r
      → lookup id last.relations ≡ some r
  pub references : last.references ≡ before.references
