-- ===== src/Citations/Documents.antt =====
-- CitationResolutionService.resolve_document of application/citation_resolution.py: the references
-- of a document, resolved one after the other, with the relations from the citing work.
pub mod Kept
pub mod Resolved
pub mod Accounted
pub mod Pages
pub mod Outcomes
use tarkka.Prelude.{
  ℕ, suc, Bool, true, false, ◌||◌, Option, none, some, List, [], ◌∷◌, contains, unique, nat_eq,
  if◌then◌else◌, ◌++◌, ℤ, pos, negsuc, Result, ok, err, value_error, require,
}
use tarkka.Citations.{WorkRelation, cites, native, post_init}
use tarkka.Identifiers.{Unicode}
use tarkka.Citations.Resolution.{
  CitationResolution, Resolutions, BibliographicReference, Works, resolve_reference, has_none,
}
use tarkka.Citations.Catalog.{
  Catalog, Action, ◌>>=◌, pure, lift, count_references, list_references, get_or_create_relation,
}

pub record CitationResolutionResult : Type 0 where
  pub resolutions : List CitationResolution
  pub relations : List WorkRelation
  pub citing_work_id : Option ℕ
  pub total_references : ℕ

-- Whether a work is stored, the works that are linked to a document, if there is such a repository,
-- and the uuid5 of a relation, by the citing work, the reference and the cited work.
pub record Links : Type 0 where
  pub has_work : ℕ → Bool
  pub linked_works : Option (ℕ → List ℕ)
  pub relation_id : ℕ → ℕ → ℕ → ℕ

-- The times that the constructors draw in a turn of the loop.
pub record Clock : Type 0 where
  pub resolved_at : ℕ → ℕ
  pub created_at : ℕ → ℕ

-- The page of resolve_document; a page that is returned is not negative
unfoldable pub resolution_page : ℤ → Option ℤ → Result (ℕ × Option ℕ)
resolution_page (pos offset) none = ok (offset, none)
resolution_page (pos offset) (some (pos limit)) = ok (offset, some limit)
resolution_page _ _ = err (value_error "citation resolution offset and limit must be non-negative")

module _ (unicode : Unicode) (works : Works) (links : Links) (clock : Clock) where
  abbrev pub known : ℕ → Result (Option ℕ) → Result (Option ℕ)
  known work_id citing =
      if links.has_work work_id then citing else err (value_error "citing work not found")

  -- Without a citing work: the one that is linked.
  abbrev pub inferred_of : List ℕ → Result (Option ℕ)
  inferred_of [] = ok none
  inferred_of (work_id ∷ []) = known work_id (ok (some work_id))
  inferred_of (first ∷ second ∷ others) =
      err (value_error "document has multiple canonical Work links")

  abbrev pub linked_if_any : ℕ → List ℕ → Result (Option ℕ)
  linked_if_any work_id linked =
      if has_none linked || contains work_id linked
      then ok (some work_id)
      else err (value_error "explicit citing work is not linked to the source document")

  -- The works linked to a document; without a repository none are known
  abbrev pub linked_to : Option (ℕ → List ℕ) → ℕ → List ℕ
  linked_to none document_id = []
  linked_to (some linked) document_id = linked document_id

  -- CitationResolutionService._citing_work_id
  unfoldable pub citing_work_id : ℕ → Option ℕ → Result (Option ℕ)
  unfolding unique
  citing_work_id document_id (some explicit) =
      known explicit (linked_if_any explicit (linked_to links.linked_works document_id))
  citing_work_id document_id none = inferred_of (unique (linked_to links.linked_works document_id))

  abbrev pub resolved_in :
      Catalog → Result (CitationResolution × Resolutions) → Result CitationResolution × Catalog
  resolved_in c (ok (resolution, saved)) = (ok resolution, record c { resolutions = saved })
  resolved_in c (err raised) = (err raised, c)

  -- A call of resolve_reference on the catalog.
  abbrev pub resolve : BibliographicReference → ℕ → Action CitationResolution
  resolve reference now c =
      resolved_in c (resolve_reference unicode works c.resolutions reference now)

  abbrev pub citation : ℕ → BibliographicReference → ℕ → ℕ → WorkRelation
  citation citing reference cited now = record {
    relation_id = links.relation_id citing reference.reference_id cited;
    subject_work_id = citing;
    object_work_id = cited;
    kind = cites;
    basis = native;
    source_observation_id = reference.source_observation_id;
    source_document_id = some reference.document_id;
    source_reference_id = some reference.reference_id;
    created_at = now;
  }

  -- CitationResolutionService._cites_relation
  unfoldable pub cites_relation : ℕ → BibliographicReference → ℕ → ℕ → Action WorkRelation
  unfolding post_init get_or_create_relation
  cites_relation citing reference cited now = do
    relation ← lift (post_init (citation citing reference cited now))
    get_or_create_relation relation

  -- The relations of a turn: none without a citing or a cited work.
  abbrev pub cite : Option ℕ → BibliographicReference → Option ℕ → ℕ → Action (List WorkRelation)
  cite (some citing) reference (some cited) now = do
    relation ← cites_relation citing reference cited now
    pure (relation ∷ [])
  cite _ reference _ now = pure []

  -- The loop over the references, from a turn on.
  unfoldable pub resolve_each :
      Option ℕ
      → List BibliographicReference
      → ℕ
      → Action (List CitationResolution × List WorkRelation)
  unfolding resolve_reference cites_relation
  resolve_each citing [] turn = pure ([], [])
  resolve_each citing (reference ∷ references) turn = do
    resolution ← resolve reference (clock.resolved_at turn)
    cited ← cite citing reference resolution.work_id (clock.created_at turn)
    (resolutions, relations) ← resolve_each citing references (suc turn)
    pure (resolution ∷ resolutions, cited ++ relations)

  abbrev pub counted :
      ℕ
      → Option ℕ
      → Result (List CitationResolution × List WorkRelation) × Catalog
      → Result CitationResolutionResult × Catalog
  counted document_id citing (err raised, last) = (err raised, last)
  counted document_id citing (ok (resolutions, relations), last) = (
    ok record {
      resolutions = resolutions;
      relations = relations;
      citing_work_id = citing;
      total_references = count_references last document_id;
    },
    last,
  )

  abbrev pub resolve_page : ℕ → Option ℕ → ℕ × Option ℕ → Action CitationResolutionResult
  resolve_page document_id citing (offset, limit) c =
      counted document_id citing
        (resolve_each citing (list_references c document_id offset limit) 0 c)

  -- CitationResolutionService.resolve_document
  unfoldable pub resolve_document : ℕ → Option ℕ → ℤ → Option ℤ → Action CitationResolutionResult
  unfolding resolution_page citing_work_id list_references resolve_each
  resolve_document document_id explicit offset limit = do
    asked ← lift (resolution_page offset limit)
    citing ← lift (citing_work_id document_id explicit)
    resolve_page document_id citing asked
