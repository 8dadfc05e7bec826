-- ===== src/Lineage/Model.antt =====
-- What application/claim_lineage.py reads: the records of domain/extraction.py, models.py,
-- source_artifacts.py, verification.py and citations.py, with the fields that it looks at.
use tarkka.Prelude.{
  ℕ, ◌-◌, not, Option, List, leb, ltb, nat_beq, length, take, drop, Result, ok, ◌>>◌, require, Text,
  is_blank,
}

pub record Passage : Type 0 where
  pub passage_id : ℕ
  pub document_id : ℕ
  pub section_id : ℕ
  pub text : Text

pub record Section : Type 0 where
  pub section_id : ℕ
  pub passages : List Passage

pub record Figure : Type 0 where
  pub figure_id : ℕ

pub record Table : Type 0 where
  pub table_id : ℕ
  pub row_count : Option ℕ
  pub column_count : Option ℕ

pub record Equation : Type 0 where
  pub equation_id : ℕ

pub record Document : Type 0 where
  pub document_id : ℕ
  pub artifact_id : ℕ
  pub sections : List Section
  pub figures : List Figure
  pub tables : List Table
  pub equations : List Equation

pub record Artifact : Type 0 where
  pub artifact_id : ℕ
  pub sha256 : Text

pub record ExtractionRun : Type 0 where
  pub run_id : ℕ
  pub document_id : ℕ

-- s[start:end], with a start before the end
abbrev pub slice : ℕ → ℕ → Text → Text
slice start end s = take (end - start) (drop start s)

-- The run of the provenance is the only field of it that is read.
pub record Evidence : Type 0 where
  pub evidence_id : ℕ
  pub document_id : ℕ
  pub section_id : ℕ
  pub passage_id : ℕ
  pub passage_char_start : ℕ
  pub passage_char_end : ℕ
  pub text : Text
  pub run_id : ℕ

-- Evidence.__post_init__
unfoldable pub post_init : Evidence → Result Evidence
unfolding is_blank
post_init e = do
  require (ltb e.passage_char_start e.passage_char_end) "invalid evidence passage character range"
  require (nat_beq (e.passage_char_end - e.passage_char_start) (length e.text))
      "evidence character range must match evidence text length"
  require (not (is_blank e.text)) "evidence text must not be blank"
  ok e

abbrev pub of_span : ℕ → Passage → ℕ → ℕ → ℕ → Evidence
of_span evidence_id passage start end run_id = record {
  evidence_id = evidence_id;
  document_id = passage.document_id;
  section_id = passage.section_id;
  passage_id = passage.passage_id;
  passage_char_start = start;
  passage_char_end = end;
  text = slice start end passage.text;
  run_id = run_id;
}

-- Evidence.from_passage
unfoldable pub from_passage : ℕ → Passage → ℕ → ℕ → ℕ → Result Evidence
unfolding post_init
from_passage evidence_id passage start end run_id = do
  require (leb end (length passage.text)) "evidence range must be contained within the passage"
  require (ltb start end) "evidence range must not be empty"
  post_init (of_span evidence_id passage start end run_id)

pub record FigureEvidence : Type 0 where
  pub evidence_id : ℕ
  pub document_id : ℕ
  pub figure_id : ℕ
  pub run_id : ℕ

pub record TableEvidence : Type 0 where
  pub evidence_id : ℕ
  pub document_id : ℕ
  pub table_id : ℕ
  pub row_start : ℕ
  pub row_end : ℕ
  pub column_start : ℕ
  pub column_end : ℕ
  pub run_id : ℕ

pub record EquationEvidence : Type 0 where
  pub evidence_id : ℕ
  pub document_id : ℕ
  pub equation_id : ℕ
  pub run_id : ℕ

pub data EvidenceRecord : Type 0 where
  passage_evidence : Evidence → EvidenceRecord
  figure_evidence : FigureEvidence → EvidenceRecord
  table_evidence : TableEvidence → EvidenceRecord
  equation_evidence : EquationEvidence → EvidenceRecord

abbrev pub document_of : EvidenceRecord → ℕ
document_of (passage_evidence e) = e.document_id
document_of (figure_evidence e) = e.document_id
document_of (table_evidence e) = e.document_id
document_of (equation_evidence e) = e.document_id

abbrev pub run_of : EvidenceRecord → ℕ
run_of (passage_evidence e) = e.run_id
run_of (figure_evidence e) = e.run_id
run_of (table_evidence e) = e.run_id
run_of (equation_evidence e) = e.run_id

pub data EvidenceSource : Type 0 where
  passage_source : Passage → EvidenceSource
  figure_source : Figure → EvidenceSource
  table_source : Table → EvidenceSource
  equation_source : Equation → EvidenceSource

pub record Claim : Type 0 where
  pub extraction_id : ℕ
  pub document_id : ℕ
  pub evidence_ids : List ℕ
  pub run_id : ℕ

-- A claim, or a research extraction of another class.
pub data ResearchExtraction : Type 0 where
  claim : Claim → ResearchExtraction
  other_extraction : ℕ → ResearchExtraction

pub record EvidenceRelation : Type 0 where
  pub relation_id : ℕ
  pub claim_id : ℕ
  pub evidence_id : Option ℕ
  pub citation_context_id : Option ℕ

pub record CitationContext : Type 0 where
  pub context_id : ℕ
  pub document_id : ℕ
