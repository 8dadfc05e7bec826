-- ===== src/Lineage.antt =====
-- ClaimLineageService of application/claim_lineage.py over its readers. The two caches of a call of
-- inspect are passed on explicitly.
pub mod Model
pub mod Chains
pub mod Sources
pub mod Inspection
pub mod Results
use tarkka.Prelude.{
  ℕ, suc, ◌+◌, Bool, true, false, not, ◌&&◌, ◌||◌, Option, none, some, List, [], ◌∷◌, ◌++◌, leb,
  ltb, nat_beq, nat_eq, list_eq, list_beq, ◌==◌, length, take, drop, find, lookup, put, Result, ok,
  err, value_error, lookup_error, String, ◌>>=◌, ◌>>◌, require, Text, codes, ℤ, pos, negsuc,
  if◌then◌else◌,
}
use tarkka.Lineage.Model.{
  Passage, Section, Figure, Table, Equation, Document, Artifact, ExtractionRun, Evidence,
  FigureEvidence, TableEvidence, EquationEvidence, EvidenceRecord, passage_evidence,
  figure_evidence, table_evidence, equation_evidence, document_of, run_of, EvidenceSource,
  passage_source, figure_source, table_source, equation_source, Claim, ResearchExtraction, claim,
  other_extraction, EvidenceRelation, CitationContext, slice,
}
use tarkka.Lineage.Results.{SourceLineage, EvidenceLineage, ClaimAssessmentLineage, ClaimLineage}

-- The repositories of ports/verification.py and ports/repositories.py, and uuid5(NAMESPACE_URL, _).
pub record Readers : Type 0 where
  pub get_extraction : ℕ → Option ResearchExtraction
  pub get_evidence : ℕ → Option EvidenceRecord
  pub get_run : ℕ → Option ExtractionRun
  pub page_relations : ℕ → ℕ → ℕ → ℕ × List EvidenceRelation
  pub get_document : ℕ → Option Document
  pub get_artifact : ℕ → Option Artifact
  pub citations : Option (ℕ → ℕ → Option CitationContext)
  pub uuid5 : Text → ℕ

-- _validate_page, with its maxima; a page that is returned has numbers that are not negative
unfoldable pub validate_page : ℤ → ℤ → ℕ → ℕ → Result (ℕ × ℕ)
validate_page (negsuc n) limit maximum_offset maximum_limit =
    err (value_error "offset and limit must be non-negative")
validate_page (pos offset) (negsuc n) maximum_offset maximum_limit =
    err (value_error "offset and limit must be non-negative")
validate_page (pos offset) (pos limit) maximum_offset maximum_limit = do
  require (leb offset maximum_offset) "pagination exceeds the configured maximum"
  require (leb limit maximum_limit) "pagination exceeds the configured maximum"
  ok (offset, limit)

-- if value is None: raise error
abbrev pub found {ℓ} : {A : Type ℓ} → Option A → Result A → Result A
found none missing = missing
found (some value) missing = ok value

-- A ClaimLineageMismatchError, which is a ValueError, if the test fails.
abbrev pub agree : Bool → String → Result (Unit {0})
agree test message = require test message

abbrev pub mismatch : {A : Type 0} → String → Result A
mismatch message = err (value_error message)

abbrev pub within : ℕ → Option ℕ → Bool
within end none = true
within end (some count) = leb end count

-- _resolve_evidence_source
unfoldable pub resolve_evidence_source : Document → EvidenceRecord → Result EvidenceSource
unfolding list_beq
resolve_evidence_source document (passage_evidence evidence) = do
  section ←
      found (find (λ (s : Section). nat_beq s.section_id evidence.section_id) document.sections)
        (mismatch "evidence Section is missing from its Document")
  passage ←
      found (find (λ (p : Passage). nat_beq p.passage_id evidence.passage_id) section.passages)
        (mismatch "evidence Passage is missing from its Section")
  agree (leb evidence.passage_char_end (length passage.text))
      "evidence span exceeds its persisted Passage"
  agree (slice evidence.passage_char_start evidence.passage_char_end passage.text == evidence.text)
      "evidence text does not match its persisted Passage span"
  ok (passage_source passage)
resolve_evidence_source document (figure_evidence evidence) = do
  figure ←
      found (find (λ (f : Figure). nat_beq f.figure_id evidence.figure_id) document.figures)
        (mismatch "evidence Figure is missing from its Document")
  ok (figure_source figure)
resolve_evidence_source document (table_evidence evidence) = do
  table ←
      found (find (λ (t : Table). nat_beq t.table_id evidence.table_id) document.tables)
        (mismatch "evidence Table is missing from its Document")
  agree (within evidence.row_end table.row_count) "evidence row range exceeds its persisted Table"
  agree (within evidence.column_end table.column_count)
      "evidence column range exceeds its persisted Table"
  ok (table_source table)
resolve_evidence_source document (equation_evidence evidence) = do
  equation ←
      found (find (λ (q : Equation). nat_beq q.equation_id evidence.equation_id) document.equations)
        (mismatch "evidence Equation is missing from its Document")
  ok (equation_source equation)

-- source_cache and run_cache
pub record Caches : Type 0 where
  pub sources : List (ℕ × SourceLineage)
  pub runs : List (ℕ × ExtractionRun)

-- A call that reads and writes the caches.
abbrev pub Cached : Type 0 → Type 0
Cached A = Caches → Result (A × Caches)

module _ (readers : Readers) where
  -- artifact_id_from_sha256, for the digest of an Artifact, which its constructor has checked
  abbrev pub artifact_id_from_sha256 : Text → ℕ
  artifact_id_from_sha256 sha256 = readers.uuid5 (codes "urn:sha256:" ++ sha256)

  -- What _extraction_run does without a cached run.
  unfoldable pub read_run : ℕ → ℕ → Result ExtractionRun
  read_run run_id document_id = do
    run ← found (readers.get_run run_id) (err (lookup_error "extraction run not found"))
    agree (nat_beq run.run_id run_id) "extraction run lookup returned a different run"
    agree (nat_beq run.document_id document_id) "extraction run belongs to a different Document"
    ok run

  abbrev pub cached_run : ℕ → ℕ → Option ExtractionRun → Cached ExtractionRun
  cached_run run_id document_id none caches = do
    run ← read_run run_id document_id
    ok (run, record caches { runs = put run_id run caches.runs })
  cached_run run_id document_id (some run) caches = do
    agree (nat_beq run.document_id document_id) "extraction run belongs to a different Document"
    ok (run, caches)

  -- ClaimLineageService._extraction_run
  unfoldable pub extraction_run : ℕ → ℕ → Cached ExtractionRun
  unfolding read_run
  extraction_run run_id document_id caches =
      cached_run run_id document_id (lookup run_id caches.runs) caches

  -- What _source_lineage does without a cached lineage.
  unfoldable pub read_source : ℕ → Result SourceLineage
  read_source document_id = do
    document ← found (readers.get_document document_id) (err (lookup_error "document not found"))
    agree (nat_beq document.document_id document_id) "Document lookup returned a different Document"
    artifact ←
        found (readers.get_artifact document.artifact_id) (err (lookup_error "artifact not found"))
    agree (nat_beq artifact.artifact_id document.artifact_id)
        "Document artifact linkage returned a different Artifact"
    agree (nat_beq artifact.artifact_id (artifact_id_from_sha256 artifact.sha256))
        "Artifact ID does not match its canonical SHA-256 identity"
    ok record { document = document; artifact = artifact }

  abbrev pub cached_source : ℕ → Option SourceLineage → Cached SourceLineage
  cached_source document_id none caches = do
    value ← read_source document_id
    ok (value, record caches { sources = put document_id value caches.sources })
  cached_source document_id (some value) caches = ok (value, caches)

  -- ClaimLineageService._source_lineage
  unfoldable pub source_lineage : ℕ → Cached SourceLineage
  unfolding read_source
  source_lineage document_id caches =
      cached_source document_id (lookup document_id caches.sources) caches

  abbrev pub expects : Option ℕ → ℕ → String → Result (Unit {0})
  expects none actual message = ok tt
  expects (some expected) actual message = agree (nat_beq actual expected) message

  -- ClaimLineageService._evidence_lineage, up to the reads that the caches serve
  abbrev pub read_evidence : ℕ → Option ℕ → Option ℕ → Result EvidenceRecord
  read_evidence evidence_id expected_document_id expected_run_id = do
    evidence ← found (readers.get_evidence evidence_id) (err (lookup_error "evidence not found"))
    expects expected_document_id (document_of evidence)
        "Claim extraction evidence belongs to a different Document"
    expects expected_run_id (run_of evidence)
        "Claim extraction evidence belongs to a different extraction run"
    ok evidence

  abbrev pub to_source : EvidenceRecord → ExtractionRun → SourceLineage → Result EvidenceLineage
  to_source evidence run lineage = do
    source ← resolve_evidence_source lineage.document evidence
    ok record { evidence = evidence; run = run; source = source; lineage = lineage }

  -- ClaimLineageService._evidence_lineage
  unfoldable pub evidence_lineage : ℕ → Option ℕ → Option ℕ → Cached EvidenceLineage
  unfolding extraction_run source_lineage resolve_evidence_source
  evidence_lineage evidence_id expected_document_id expected_run_id caches = do
    evidence ← read_evidence evidence_id expected_document_id expected_run_id
    (run, with_run) ← extraction_run (run_of evidence) (document_of evidence) caches
    (lineage, with_source) ← source_lineage (document_of evidence) with_run
    traced ← to_source evidence run lineage
    ok (traced, with_source)

  abbrev pub look_up_context :
      Option (ℕ → ℕ → Option CitationContext) → ℕ → ℕ → Result (Option CitationContext)
  look_up_context none document_id context_id =
      err (lookup_error "citation repository unavailable: not configured")
  look_up_context (some get_context) document_id context_id = do
    context ←
        found (get_context document_id context_id) (err (lookup_error "citation context not found"))
    agree (nat_beq context.context_id context_id)
        "citation context lookup returned a different context"
    agree (nat_beq context.document_id document_id)
        "citation context belongs to a different Document"
    ok (some context)

  -- ClaimLineageService._citation_context
  unfoldable pub citation_context : ℕ → Option ℕ → Result (Option CitationContext)
  citation_context document_id none = ok none
  citation_context document_id (some context_id) =
      look_up_context readers.citations document_id context_id
