-- ===== src/Lineage/Inspection.antt =====
-- ClaimLineageService.inspect, and inspect_anew, which asks the readers each time.
pub mod Caching
pub mod Explained
pub mod Answered
pub mod Serving
use tarkka.Prelude.{
  ℕ, Option, none, some, List, [], ◌∷◌, nat_beq, length, take, drop, Result, ok, err, lookup_error,
  ◌>>=◌, ◌>>◌, require, ℤ, pos,
}
use tarkka.Lineage.Model.{
  ExtractionRun, EvidenceRecord, document_of, run_of, Claim, ResearchExtraction, claim,
  other_extraction, EvidenceRelation, CitationContext,
}
use tarkka.Lineage.{
  Readers, validate_page, found, agree, Caches, Cached, read_run, read_source, extraction_run,
  source_lineage, read_evidence, to_source, evidence_lineage, citation_context,
}
use tarkka.Lineage.Results.{SourceLineage, EvidenceLineage, ClaimAssessmentLineage, ClaimLineage}

-- The claim among the extractions.
abbrev pub as_claim : Option ResearchExtraction → Result Claim
as_claim (some (claim subject)) = ok subject
as_claim _ = err (lookup_error "claim not found")

-- MAX_CLAIM_LINEAGE_OFFSET, MAX_CLAIM_EVIDENCE_OFFSET and the page sizes
abbrev pub max_offset : ℕ
max_offset = 10000

abbrev pub max_page_size : ℕ
max_page_size = 100

abbrev pub empty_caches : Caches
empty_caches = record { sources = []; runs = [] }

-- Without caches: what the two cached reads of a claim or its evidence return.
module _ (readers : Readers) where
  unfoldable pub evidence_lineage_anew : ℕ → Option ℕ → Option ℕ → Result EvidenceLineage
  evidence_lineage_anew evidence_id expected_document_id expected_run_id = do
    evidence ← read_evidence readers evidence_id expected_document_id expected_run_id
    run ← read_run readers (run_of evidence) (document_of evidence)
    lineage ← read_source readers (document_of evidence)
    to_source readers evidence run lineage

  -- The generator of claim_evidence.
  unfoldable pub claim_evidence : Claim → List ℕ → Cached (List EvidenceLineage)
  unfolding evidence_lineage
  claim_evidence subject [] caches = ok ([], caches)
  claim_evidence subject (evidence_id ∷ evidence_ids) caches = do
    (traced, next) ←
        evidence_lineage readers evidence_id (some subject.document_id) (some subject.run_id) caches
    (others, after) ← claim_evidence subject evidence_ids next
    ok (traced ∷ others, after)

  unfoldable pub claim_evidence_anew : Claim → List ℕ → Result (List EvidenceLineage)
  unfolding evidence_lineage_anew
  claim_evidence_anew subject [] = ok []
  claim_evidence_anew subject (evidence_id ∷ evidence_ids) = do
    traced ← evidence_lineage_anew evidence_id (some subject.document_id) (some subject.run_id)
    others ← claim_evidence_anew subject evidence_ids
    ok (traced ∷ others)

  abbrev pub relation_evidence : Option ℕ → Cached (Option EvidenceLineage)
  relation_evidence none caches = ok (none, caches)
  relation_evidence (some evidence_id) caches = do
    (traced, next) ← evidence_lineage readers evidence_id none none caches
    ok (some traced, next)

  abbrev pub relation_evidence_anew : Option ℕ → Result (Option EvidenceLineage)
  relation_evidence_anew none = ok none
  relation_evidence_anew (some evidence_id) = do
    traced ← evidence_lineage_anew evidence_id none none
    ok (some traced)

  abbrev pub belongs : Claim → EvidenceRelation → Result (Unit {0})
  belongs subject relation =
      agree (nat_beq relation.claim_id subject.extraction_id)
        "verification relation does not belong to the requested Claim"

  -- The loop over the page of relations.
  unfoldable pub assess : Claim → List EvidenceRelation → Cached (List ClaimAssessmentLineage)
  unfolding evidence_lineage citation_context
  assess subject [] caches = ok ([], caches)
  assess subject (relation ∷ relations) caches = do
    belongs subject relation
    (evidence, next) ← relation_evidence relation.evidence_id caches
    context ← citation_context readers subject.document_id relation.citation_context_id
    (others, after) ← assess subject relations next
    ok (
      record { relation = relation; evidence = evidence; citation_context = context } ∷ others,
      after,
    )

  unfoldable pub assess_anew : Claim → List EvidenceRelation → Result (List ClaimAssessmentLineage)
  unfolding evidence_lineage_anew citation_context
  assess_anew subject [] = ok []
  assess_anew subject (relation ∷ relations) = do
    belongs subject relation
    evidence ← relation_evidence_anew relation.evidence_id
    context ← citation_context readers subject.document_id relation.citation_context_id
    others ← assess_anew subject relations
    ok (record { relation = relation; evidence = evidence; citation_context = context } ∷ others)

  -- After the claim was found, with the pages asked for.
  abbrev pub inspect_claim : Claim → ℕ × ℕ → ℕ × ℕ → Result ClaimLineage
  inspect_claim subject (offset, limit) (evidence_offset, evidence_limit) = do
    (run, with_run) ← extraction_run readers subject.run_id subject.document_id empty_caches
    (source, with_source) ← source_lineage readers subject.document_id with_run
    (evidence, with_evidence) ←
        claim_evidence subject (take evidence_limit (drop evidence_offset subject.evidence_ids))
          with_source
    let (total, page) = readers.page_relations subject.extraction_id offset limit
    (assessments, _) ← assess subject page with_evidence
    ok record {
      claim = subject;
      claim_run = run;
      claim_source = source;
      total_claim_evidence = length subject.evidence_ids;
      claim_evidence = evidence;
      total_relations = total;
      assessments = assessments;
    }

  abbrev pub inspect_claim_anew : Claim → ℕ × ℕ → ℕ × ℕ → Result ClaimLineage
  inspect_claim_anew subject (offset, limit) (evidence_offset, evidence_limit) = do
    run ← read_run readers subject.run_id subject.document_id
    source ← read_source readers subject.document_id
    evidence ←
        claim_evidence_anew subject
          (take evidence_limit (drop evidence_offset subject.evidence_ids))
    let (total, page) = readers.page_relations subject.extraction_id offset limit
    assessments ← assess_anew subject page
    ok record {
      claim = subject;
      claim_run = run;
      claim_source = source;
      total_claim_evidence = length subject.evidence_ids;
      claim_evidence = evidence;
      total_relations = total;
      assessments = assessments;
    }

  -- ClaimLineageService.inspect
  unfoldable pub inspect : ℕ → ℤ → ℤ → ℤ → ℤ → Result ClaimLineage
  unfolding validate_page extraction_run source_lineage claim_evidence assess
  inspect claim_id offset limit evidence_offset evidence_limit = do
    page ← validate_page offset limit max_offset max_page_size
    evidence_page ← validate_page evidence_offset evidence_limit max_offset max_page_size
    subject ← as_claim (readers.get_extraction claim_id)
    inspect_claim subject page evidence_page

  unfoldable pub inspect_anew : ℕ → ℤ → ℤ → ℤ → ℤ → Result ClaimLineage
  unfolding validate_page read_run read_source claim_evidence_anew assess_anew
  inspect_anew claim_id offset limit evidence_offset evidence_limit = do
    page ← validate_page offset limit max_offset max_page_size
    evidence_page ← validate_page evidence_offset evidence_limit max_offset max_page_size
    subject ← as_claim (readers.get_extraction claim_id)
    inspect_claim_anew subject page evidence_page
