-- ===== src/Lineage/Results.antt =====
-- What ClaimLineageService of application/claim_lineage.py returns.
use tarkka.Prelude.{ℕ, Option, List, nat_eq, list_eq}
use tarkka.Lineage.Model.{
  Document, Artifact, ExtractionRun, EvidenceRecord, EvidenceSource, Claim, EvidenceRelation,
  CitationContext,
}

pub record SourceLineage : Type 0 where
  pub document : Document
  pub artifact : Artifact

pub record EvidenceLineage : Type 0 where
  pub evidence : EvidenceRecord
  pub run : ExtractionRun
  pub source : EvidenceSource
  pub lineage : SourceLineage

pub record ClaimAssessmentLineage : Type 0 where
  pub relation : EvidenceRelation
  pub evidence : Option EvidenceLineage
  pub citation_context : Option CitationContext

pub record ClaimLineage : Type 0 where
  pub claim : Claim
  pub claim_run : ExtractionRun
  pub claim_source : SourceLineage
  pub total_claim_evidence : ℕ
  pub claim_evidence : List EvidenceLineage
  pub total_relations : ℕ
  pub assessments : List ClaimAssessmentLineage
