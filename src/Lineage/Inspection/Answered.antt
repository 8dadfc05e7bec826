-- ===== src/Lineage/Inspection/Answered.antt =====
-- The answers of inspect: what they say, and how long they are.
use tarkka.Prelude.{
  ℕ, ◌≤◌, ◌≡◌, refl, sym, ap, subst, ◌∙◌, Option, none, some, length, take, drop, length-take_le,
  ok, on_ok, ℤ, arith,
}
use tarkka.Lineage.Model.{Claim, ResearchExtraction, claim, other_extraction}
use tarkka.Lineage.{Readers, validate_page, read_run, read_source}
use tarkka.Lineage.Results.{ClaimLineage}
use tarkka.Lineage.Chains.{ok_injective, read_run-eq-ok, IsAnchored, read_source-IsAnchored}
use tarkka.Lineage.Inspection.{
  claim_evidence_anew, assess_anew, inspect, inspect_anew, inspect_claim_anew, as_claim, max_offset,
  max_page_size,
}
use tarkka.Lineage.Inspection.Caching.{inspect-anew}
use tarkka.Lineage.Inspection.Explained.{
  Pairs, Pairs-length, IsPage, validate_page-IsPage, IsOwn, claim_evidence-IsOwn, IsAssessed,
  assess-IsAssessed,
}

as_claim-eq :
    (found : Option ResearchExtraction) (subject : Claim)
    → as_claim found ≡ ok subject
    → found ≡ some (claim subject)
as_claim-eq none subject h = cc
as_claim-eq (some (other_extraction id)) subject h = cc
as_claim-eq (some (claim c)) subject h = ap (λ (x : Claim). some (claim x)) (ok_injective h)

module _ (readers : Readers) where
  -- The answer for a claim, on the page of relations and the page of evidence asked for.
  pub record IsExplained (page evidence_page : ℕ × ℕ) (answer : ClaimLineage) : Type 0 where
    pub run_found : readers.get_run answer.claim.run_id ≡ some answer.claim_run
    pub run_document : answer.claim_run.document_id ≡ answer.claim.document_id
    pub anchored : IsAnchored readers answer.claim.document_id answer.claim_source
    pub evidence_total : answer.total_claim_evidence ≡ length answer.claim.evidence_ids
    pub evidence :
        Pairs
          (IsOwn readers answer.claim)
          (take evidence_page.1 (drop evidence_page.0 answer.claim.evidence_ids))
          answer.claim_evidence
    pub relations_total :
        answer.total_relations ≡ (readers.page_relations answer.claim.extraction_id page.0 page.1).0
    pub assessed :
        Pairs
          (IsAssessed readers answer.claim)
          (readers.page_relations answer.claim.extraction_id page.0 page.1).1
          answer.assessments

  pub record IsAnswer (claim_id : ℕ) (offset limit evidence_offset evidence_limit : ℤ)
      (answer : ClaimLineage) : Type 0 where
    pub claim_found : readers.get_extraction claim_id ≡ some (claim answer.claim)
    pub page : ℕ × ℕ
    pub evidence_page : ℕ × ℕ
    pub is_page : IsPage offset limit page
    pub is_evidence_page : IsPage evidence_offset evidence_limit evidence_page
    pub explained : IsExplained page evidence_page answer

  inspect_claim-IsExplained :
      (subject : Claim) (page evidence_page : ℕ × ℕ) (answer : ClaimLineage)
      → inspect_claim_anew readers subject page evidence_page ≡ ok answer
      → (subject ≡ answer.claim) × IsExplained page evidence_page answer
  inspect_claim-IsExplained subject page evidence_page answer h =
      let ids = take evidence_page.1 (drop evidence_page.0 subject.evidence_ids) in
      let relations = (readers.page_relations subject.extraction_id page.0 page.1).1 in
      on_ok (read_run readers subject.run_id subject.document_id) _ h λ run ran h.
        on_ok (read_source readers subject.document_id) _ h λ source anchored h.
          on_ok (claim_evidence_anew readers subject ids) _ h λ evidence traced h.
            on_ok (assess_anew readers subject relations) _ h λ assessments assessed h.
              let (run_found, run_named, run_document) =
                read_run-eq-ok readers subject.run_id subject.document_id run ran in
              let is = ok_injective h in
              (
                ap (λ (a : ClaimLineage). a.claim) is,
                subst (IsExplained page evidence_page) is record {
                  run_found = run_found;
                  run_document = run_document;
                  anchored = read_source-IsAnchored readers subject.document_id source anchored;
                  evidence_total = refl;
                  evidence = claim_evidence-IsOwn readers subject ids evidence traced;
                  relations_total = refl;
                  assessed = assess-IsAssessed readers subject relations assessments assessed;
                },
              )

-- A lineage that inspect returns is explained by what the readers hold. The pages asked for are not
-- negative and within the maxima. The claim is the extraction asked for; its run, its document and
-- its artifact are found by their identifiers, and the artifact's identifier is that of its digest.
-- The evidence is the page of the claim's evidence identifiers, one to one and in order, each from
-- the claim's document and run. The assessments are the page of relations, one to one and in order,
-- each of the claim, with the evidence that it names, if any, and a citation context in the claim's
-- document. All evidence is located: a passage has the text of the evidence at the span, and
-- figures, tables and equations are in the document, a table with the rows and columns named.
pub inspect-IsAnswer :
    (readers : Readers) (claim_id : ℕ) (offset limit evidence_offset evidence_limit : ℤ)
    (answer : ClaimLineage)
    → inspect readers claim_id offset limit evidence_offset evidence_limit ≡ ok answer
    → IsAnswer readers claim_id offset limit evidence_offset evidence_limit answer
unfolding inspect_anew
inspect-IsAnswer readers claim_id offset limit evidence_offset evidence_limit answer h =
    on_ok (validate_page offset limit max_offset max_page_size) _
      (sym (inspect-anew readers claim_id offset limit evidence_offset evidence_limit) ∙ h)
      λ page asked h.
        on_ok (validate_page evidence_offset evidence_limit max_offset max_page_size) _ h
          λ evidence_page evidence_asked h.
            on_ok (as_claim (readers.get_extraction claim_id)) _ h λ subject found h.
              let (same, explained) =
                inspect_claim-IsExplained readers subject page evidence_page answer h in
              record {
                claim_found =
                    as_claim-eq (readers.get_extraction claim_id) subject found
                    ∙ ap (λ (c : Claim). some (claim c)) same;
                page = page;
                evidence_page = evidence_page;
                is_page = validate_page-IsPage offset limit page asked;
                is_evidence_page =
                    validate_page-IsPage evidence_offset evidence_limit evidence_page
                      evidence_asked;
                explained = explained;
              }

-- No answer of inspect has more than 100 pieces of evidence, nor, with a repository that returns at
-- most as many relations as it is asked for, more than 100 assessments.
pub inspect-IsBounded :
    (readers : Readers) (claim_id : ℕ) (offset limit evidence_offset evidence_limit : ℤ)
    (answer : ClaimLineage)
    → ((id start size : ℕ) → length (readers.page_relations id start size).1 ≤ size)
    → inspect readers claim_id offset limit evidence_offset evidence_limit ≡ ok answer
    → (length answer.claim_evidence ≤ 100) × (length answer.assessments ≤ 100)
inspect-IsBounded readers claim_id offset limit evidence_offset evidence_limit answer honoured h =
    let a =
      inspect-IsAnswer readers claim_id offset limit evidence_offset evidence_limit answer h in
    let c = answer.claim in
    let ids = drop a.evidence_page.0 c.evidence_ids in
    let relations = (readers.page_relations c.extraction_id a.page.0 a.page.1).1 in
    let evidences =
      Pairs-length (IsOwn readers c) (take a.evidence_page.1 ids) answer.claim_evidence
        a.explained.evidence in
    let assessed =
      Pairs-length (IsAssessed readers c) relations answer.assessments a.explained.assessed in
    let cut = length-take_le a.evidence_page.1 ids in
    let read = honoured c.extraction_id a.page.0 a.page.1 in
    let size = a.is_page.limit_le in
    let evidence_size = a.is_evidence_page.limit_le in (omega arith, omega arith)
