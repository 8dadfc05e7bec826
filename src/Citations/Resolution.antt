-- ===== src/Citations/Resolution.antt =====
-- CitationResolution of domain/citations.py, the resolutions of json_citation_repository.py, and
-- CitationResolutionService.resolve_reference of application/citation_resolution.py.
pub mod Settled
pub mod Kept
pub mod Agreement
pub mod Justified
use tarkka.Prelude.{
  ℕ, suc, ◌≡◌, Bool, true, false, ◌&&◌, ◌||◌, not, Option, none, some, List, [], ◌∷◌, ◌++◌, leb,
  ltb, nat_beq, nat_eq, list_eq, list_beq, ◌==◌, option_beq, option_eq, if◌then◌else◌, length, all,
  unique, all_distinct, sorted, lookup, put, Result, ok, err, runtime_error, ◌>>=◌, ◌>>◌, require,
  Text, codes, strip, is_blank,
}
use tarkka.Traversal.Target.{is_some}
use tarkka.Identifiers.{Unicode, try_normalize_doi, try_normalize_arxiv_id}

pub data CitationResolutionStatus : Type 0 where
  unresolved resolved ambiguous rejected : CitationResolutionStatus

pub record CitationResolution : Type 0 where
  pub resolution_id : ℕ
  pub reference_id : ℕ
  pub status : CitationResolutionStatus
  pub work_id : Option ℕ
  pub candidate_work_ids : List ℕ
  pub resolver : Option Text
  pub source_observation_id : Option ℕ
  pub resolved_at : ℕ

abbrev pub is_resolved : CitationResolutionStatus → Bool
is_resolved resolved = true
is_resolved _ = false

abbrev pub has_none : List ℕ → Bool
has_none [] = true
has_none (x ∷ xs) = false

abbrev pub fits_status : CitationResolutionStatus → Option ℕ → List ℕ → Result (Unit {0})
fits_status resolved work_id candidates =
    require (is_some work_id) "resolved citation must identify a canonical work"
    >> require (has_none candidates) "resolved citation must not retain ambiguous candidates"
fits_status ambiguous work_id candidates =
    require (not (is_some work_id)) "ambiguous citation must not select a canonical work"
    >> require (leb 2 (length candidates)) "ambiguous citation must retain at least two candidates"
fits_status _ work_id candidates =
    require (not (is_some work_id)) "unresolved/rejected citation must not select a canonical work"
    >> require (has_none candidates) "unresolved/rejected citation must not retain candidates"

abbrev is_named : Option Text → Bool
is_named none = true
is_named (some name) = not (is_blank name)

-- CitationResolution.__post_init__
unfoldable pub post_init : CitationResolution → Result CitationResolution
unfolding is_blank all_distinct
post_init r = do
  require (is_named r.resolver) "citation resolver must not be blank"
  require (all_distinct r.candidate_work_ids) "citation resolution candidates must be unique"
  fits_status r.status r.work_id r.candidate_work_ids
  ok r

-- The resolutions by the identifier of their reference.
abbrev pub Resolutions : Type 0
Resolutions = List (ℕ × CitationResolution)

abbrev pub same_status : CitationResolutionStatus → CitationResolutionStatus → Bool
same_status unresolved unresolved = true
same_status resolved resolved = true
same_status ambiguous ambiguous = true
same_status rejected rejected = true
same_status _ _ = false

abbrev pub resolution_tests : CitationResolution → CitationResolution → List Bool
resolution_tests left right =
    nat_beq left.resolution_id right.resolution_id
    ∷ nat_beq left.reference_id right.reference_id
    ∷ same_status left.status right.status
    ∷ option_beq left.work_id right.work_id
    ∷ (left.candidate_work_ids == right.candidate_work_ids)
    ∷ option_beq left.resolver right.resolver
    ∷ option_beq left.source_observation_id right.source_observation_id
    ∷ []

-- _same_resolution
unfoldable pub same_resolution : CitationResolution → CitationResolution → Bool
unfolding option_beq list_beq
same_resolution left right = all (λ test. test) (resolution_tests left right)

-- The payloads are equal: as _same_resolution, with the time
unfoldable pub same_payload : CitationResolution → CitationResolution → Bool
unfolding same_resolution
same_payload left right = nat_beq left.resolved_at right.resolved_at && same_resolution left right

-- _validate_resolution_transition; a CitationConflictError is a RuntimeError
unfoldable pub validate_transition : CitationResolution → CitationResolution → Result (Unit {0})
unfolding option_beq
validate_transition existing incoming =
    if not (is_resolved existing.status)
    then ok tt
    else if not (is_resolved incoming.status)
    then err (runtime_error "resolved citation cannot regress")
    else if not (option_beq incoming.work_id existing.work_id)
    then err (runtime_error "resolved citation cannot change canonical work")
    else ok tt

module _ (resolutions : Resolutions) (r : CitationResolution) where
  abbrev pub stored : Resolutions
  stored = put r.reference_id r resolutions

  abbrev pub save_over : Option CitationResolution → Result Resolutions
  save_over none = ok stored
  save_over (some existing) =
      if same_payload existing r
      then ok resolutions
      else if not (nat_beq existing.resolution_id r.resolution_id)
      then err (runtime_error "conflicting resolution identity")
      else validate_transition existing r >> ok stored

  -- JsonCitationRepository.save_resolution
  unfoldable pub save_resolution : Result Resolutions
  unfolding same_payload validate_transition
  save_resolution = save_over (lookup r.reference_id resolutions)

-- An equal resolution in the catalog is returned, any other is saved over.
module _ (resolutions : Resolutions) where
  abbrev pub save_new : CitationResolution → Result (CitationResolution × Resolutions)
  save_new resolution = save_resolution resolutions resolution >>= λ saved. ok (resolution, saved)

  abbrev pub keep_or_save :
      Option CitationResolution → CitationResolution → Result (CitationResolution × Resolutions)
  keep_or_save none resolution = save_new resolution
  keep_or_save (some existing) resolution =
      if same_resolution existing resolution
      then ok (existing, resolutions)
      else save_new resolution

-- The fields of BibliographicReference that the resolver and its queries read.
pub record BibliographicReference : Type 0 where
  pub reference_id : ℕ
  pub document_id : ℕ
  pub ordinal : ℕ
  pub identifiers : List (Text × Text)
  pub source_observation_id : Option ℕ

-- The works found by an identifier, and uuid5(NAMESPACE_URL, f"tarkka:citation-resolution:{id}").
pub record Works : Type 0 where
  pub find_work_by_identifier : Text → Text → Option ℕ
  pub resolution_id : ℕ → ℕ

module _ (unicode : Unicode) (works : Works) where
  abbrev tagged : Text → Option Text → Option (Text × Text)
  tagged scheme none = none
  tagged scheme (some value) = some (scheme, value)

  -- _normalized_identifier
  unfoldable pub normalized_identifier : Text → Text → Option (Text × Text)
  unfolding try_normalize_doi try_normalize_arxiv_id strip list_beq
  normalized_identifier scheme value =
      let scheme' = unicode.lower (strip scheme) in
      let value' = strip value in
      if scheme' == codes "doi"
      then tagged (codes "doi") (try_normalize_doi unicode value')
      else if scheme' == codes "arxiv"
      then tagged (codes "arxiv") (try_normalize_arxiv_id unicode value')
      else some (scheme', value')

  abbrev found_by : Option (Text × Text) → Option ℕ
  found_by none = none
  found_by (some (scheme, value)) = works.find_work_by_identifier scheme value

  abbrev add : Option ℕ → List ℕ → List ℕ
  add none found = found
  add (some work_id) found = work_id ∷ found

  -- The works found by some of the identifiers.
  unfoldable pub found_works : List (Text × Text) → List ℕ
  unfolding normalized_identifier
  found_works [] = []
  found_works ((scheme, value) ∷ identifiers) =
      add (found_by (normalized_identifier scheme value)) (found_works identifiers)

  -- CitationResolutionService._matched_work_ids
  unfoldable pub matched_work_ids : BibliographicReference → List ℕ
  unfolding found_works sorted unique
  matched_work_ids reference = sorted leb (unique (found_works reference.identifiers))

  abbrev pub resolution_of :
      BibliographicReference → ℕ → CitationResolutionStatus → Option ℕ → List ℕ → CitationResolution
  resolution_of reference now status work_id candidates = record {
    resolution_id = works.resolution_id reference.reference_id;
    reference_id = reference.reference_id;
    status = status;
    work_id = work_id;
    candidate_work_ids = candidates;
    resolver = some (codes "canonical-identifiers-v1");
    source_observation_id = reference.source_observation_id;
    resolved_at = now;
  }

  -- The branches on the number of matches.
  abbrev pub by_matches : BibliographicReference → ℕ → List ℕ → CitationResolution
  by_matches reference now [] = resolution_of reference now unresolved none []
  by_matches reference now (work_id ∷ []) = resolution_of reference now resolved (some work_id) []
  by_matches reference now (first ∷ second ∷ others) =
      resolution_of reference now ambiguous none (first ∷ second ∷ others)

  module _ (resolutions : Resolutions) where
    -- CitationResolutionService.resolve_reference, with the time that the constructor draws
    unfoldable pub resolve_reference :
        BibliographicReference → ℕ → Result (CitationResolution × Resolutions)
    unfolding matched_work_ids save_resolution post_init
    resolve_reference reference now = do
      resolution ← post_init (by_matches reference now (matched_work_ids reference))
      keep_or_save resolutions (lookup reference.reference_id resolutions) resolution
