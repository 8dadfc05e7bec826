-- ===== src/Lineage/Inspection/Caching.antt =====
-- The caches of inspect change nothing: each holds what the readers return.
use tarkka.Prelude.{
  ℕ, ◌≡◌, refl, inl, inr, Option, none, some, List, [], ◌∷◌, nat_beq, nat_beq_iff, nat_eq, lookup,
  All-put, Option-cases, Result, ok, err, ◌>>=◌, ◌>>◌, ℤ, take, drop,
}
use tarkka.Lineage.Model.{ExtractionRun, Claim, EvidenceRelation, run_of, document_of}
use tarkka.Lineage.{
  Readers, Caches, read_run, read_source, extraction_run, source_lineage, evidence_lineage,
  read_evidence, to_source, citation_context, validate_page, agree,
}
use tarkka.Lineage.Chains.{lookup-All, read_run-eq-ok}
use tarkka.Lineage.Inspection.{
  evidence_lineage_anew, claim_evidence, claim_evidence_anew, assess, assess_anew, inspect,
  inspect_anew, relation_evidence, relation_evidence_anew, belongs, inspect_claim,
  inspect_claim_anew, as_claim, empty_caches, max_offset, max_page_size,
}
use tarkka.Lineage.Inspection.Serving.{
  AreRead, Serves, Serves-then, Serves-both, Serves-check, Serves-kept, Serves-read,
}

module _ (readers : Readers) where
  -- A run that was read before is read again with the check of its document alone.
  read_again :
      (run_id document_id : ℕ) (run : ExtractionRun)
      → readers.get_run run_id ≡ some run
      → run.run_id ≡ run_id
      → read_run readers run_id document_id ≡ (
          agree
            (nat_beq run.document_id document_id)
            "extraction run belongs to a different Document"
          >> ok run)
  unfolding read_run
  read_again run_id document_id run there same =
      rw (there, (nat_beq_iff run.run_id run_id).1 same) refl

  extraction_run-Serves :
      (run_id document_id : ℕ) (caches : Caches)
      → AreRead readers caches
      → Serves readers
          (extraction_run readers run_id document_id caches)
          (read_run readers run_id document_id)
  unfolding extraction_run
  extraction_run-Serves run_id document_id caches h =
      elim (Option-cases (lookup run_id caches.runs)) [
        | inl new ↦ rw new (
            Serves-read readers (read_run readers run_id document_id) _ λ run e.
              let (read, same, more) = read_run-eq-ok readers run_id document_id run e in
              record {
                runs = All-put _ run_id run caches.runs (read, same) h.runs;
                sources = h.sources;
              })
        | inr (run, there) ↦
            let (read, same) = lookup-All _ run_id run caches.runs there h.runs in
            rw (there, read_again run_id document_id run read same)
              (Serves-check readers (nat_beq run.document_id document_id) _ run caches h)
      ]

  source_lineage-Serves :
      (document_id : ℕ) (caches : Caches)
      → AreRead readers caches
      → Serves readers (source_lineage readers document_id caches) (read_source readers document_id)
  unfolding source_lineage
  source_lineage-Serves document_id caches h =
      elim (Option-cases (lookup document_id caches.sources)) [
        | inl new ↦ rw new (
            Serves-read readers (read_source readers document_id) _ λ source e. record {
              runs = h.runs;
              sources = All-put _ document_id source caches.sources e h.sources;
            })
        | inr (source, there) ↦
            rw there (lookup-All _ document_id source caches.sources there h.sources, h)
      ]

  evidence_lineage-Serves :
      (evidence_id : ℕ) (document_id run_id : Option ℕ) (caches : Caches)
      → AreRead readers caches
      → Serves readers
          (evidence_lineage readers evidence_id document_id run_id caches)
          (evidence_lineage_anew readers evidence_id document_id run_id)
  unfolding evidence_lineage evidence_lineage_anew
  evidence_lineage-Serves evidence_id document_id run_id caches h =
      Serves-both readers (read_evidence readers evidence_id document_id run_id) _ _ λ evidence e.
        Serves-then readers (extraction_run readers (run_of evidence) (document_of evidence) caches)
          (read_run readers (run_of evidence) (document_of evidence)) _ _
          (extraction_run-Serves (run_of evidence) (document_of evidence) caches h)
          λ run with_run kept.
            Serves-then readers (source_lineage readers (document_of evidence) with_run)
              (read_source readers (document_of evidence)) _ _
              (source_lineage-Serves (document_of evidence) with_run kept)
              λ source with_source kept.
                Serves-kept readers (to_source readers evidence run source) with_source kept

  claim_evidence-Serves :
      (subject : Claim) (ids : List ℕ) (caches : Caches)
      → AreRead readers caches
      → Serves readers
          (claim_evidence readers subject ids caches)
          (claim_evidence_anew readers subject ids)
  unfolding claim_evidence claim_evidence_anew
  claim_evidence-Serves subject [] caches h = (refl, h)
  claim_evidence-Serves subject (id ∷ ids) caches h =
      Serves-then readers
        (evidence_lineage readers id (some subject.document_id) (some subject.run_id) caches)
        (evidence_lineage_anew readers id (some subject.document_id) (some subject.run_id)) _ _
        (evidence_lineage-Serves id (some subject.document_id) (some subject.run_id) caches h)
        λ traced next kept.
          Serves-then readers (claim_evidence readers subject ids next)
            (claim_evidence_anew readers subject ids) _ _
            (claim_evidence-Serves subject ids next kept) λ others after kept. (refl, kept)

  relation_evidence-Serves :
      (id : Option ℕ) (caches : Caches)
      → AreRead readers caches
      → Serves readers (relation_evidence readers id caches) (relation_evidence_anew readers id)
  relation_evidence-Serves none caches h = (refl, h)
  relation_evidence-Serves (some id) caches h =
      Serves-then readers (evidence_lineage readers id none none caches)
        (evidence_lineage_anew readers id none none) _ _
        (evidence_lineage-Serves id none none caches h) λ traced next kept. (refl, kept)

  assess-Serves :
      (subject : Claim) (relations : List EvidenceRelation) (caches : Caches)
      → AreRead readers caches
      → Serves readers
          (assess readers subject relations caches)
          (assess_anew readers subject relations)
  unfolding assess assess_anew
  assess-Serves subject [] caches h = (refl, h)
  assess-Serves subject (relation ∷ relations) caches h =
      Serves-both readers (belongs readers subject relation) _ _ λ own e.
        Serves-then readers (relation_evidence readers relation.evidence_id caches)
          (relation_evidence_anew readers relation.evidence_id) _ _
          (relation_evidence-Serves relation.evidence_id caches h)
          λ evidence next kept.
            Serves-both readers
              (citation_context readers subject.document_id relation.citation_context_id) _ _
              λ context e.
                Serves-then readers (assess readers subject relations next)
                  (assess_anew readers subject relations) _ _
                  (assess-Serves subject relations next kept) λ others after kept. (refl, kept)

  same_if_served :
      {A B : Type 0} (m : Result (A × Caches)) (p : Result A) (next : A × Caches → Result B)
      (plain : A → Result B)
      → Serves readers m p
      → ((a : A) (caches : Caches) → AreRead readers caches → next (a, caches) ≡ plain a)
      → (m >>= next) ≡ (p >>= plain)
  same_if_served (err e) p next plain s h = rw s refl
  same_if_served (ok (a, caches)) p next plain s h = rw s.0 (h a caches s.1)

  inspect_claim-anew :
      (subject : Claim) (page evidence_page : ℕ × ℕ)
      → inspect_claim readers subject page evidence_page
        ≡ inspect_claim_anew readers subject page evidence_page
  inspect_claim-anew subject (offset, limit) (evidence_offset, evidence_limit) =
      let ids = take evidence_limit (drop evidence_offset subject.evidence_ids) in
      let relations = (readers.page_relations subject.extraction_id offset limit).1 in
      same_if_served (extraction_run readers subject.run_id subject.document_id empty_caches)
        (read_run readers subject.run_id subject.document_id) _ _
        (extraction_run-Serves subject.run_id subject.document_id empty_caches
          record { runs = tt; sources = tt })
        λ run with_run kept.
          same_if_served (source_lineage readers subject.document_id with_run)
            (read_source readers subject.document_id) _ _
            (source_lineage-Serves subject.document_id with_run kept)
            λ source with_source kept.
              same_if_served (claim_evidence readers subject ids with_source)
                (claim_evidence_anew readers subject ids) _ _
                (claim_evidence-Serves subject ids with_source kept)
                λ evidence with_evidence kept.
                  same_if_served (assess readers subject relations with_evidence)
                    (assess_anew readers subject relations) _ _
                    (assess-Serves subject relations with_evidence kept)
                    λ assessments after kept. refl

same_after :
    {A B : Type 0} (m : Result A) (next plain : A → Result B)
    → ((a : A) → next a ≡ plain a)
    → (m >>= next) ≡ (m >>= plain)
same_after (err e) next plain h = refl
same_after (ok a) next plain h = h a

-- The caches of a call change nothing: with any readers and arguments, inspect returns the lineage
-- or raises the error that it would with each run, document and artifact read anew.
pub inspect-anew :
    (readers : Readers) (claim_id : ℕ) (offset limit evidence_offset evidence_limit : ℤ)
    → inspect readers claim_id offset limit evidence_offset evidence_limit
      ≡ inspect_anew readers claim_id offset limit evidence_offset evidence_limit
unfolding inspect inspect_anew
inspect-anew readers claim_id offset limit evidence_offset evidence_limit =
    same_after (validate_page offset limit max_offset max_page_size) _ _ λ page.
      same_after (validate_page evidence_offset evidence_limit max_offset max_page_size) _ _
        λ evidence_page.
          same_after (as_claim (readers.get_extraction claim_id)) _ _
            λ subject. inspect_claim-anew readers subject page evidence_page
