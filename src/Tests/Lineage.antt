-- ===== src/Tests/Lineage.antt =====
-- A claim with two pieces of evidence, and the assessments of it.
use tarkka.Prelude.{
  ℕ, ◌≤◌, ◌≡◌, refl, false, none, some, List, [], ◌∷◌, length, take, drop, length-take_le, nat_eq,
  is_blank, lookup, Result, ok, err, value_error, lookup_error, codes, pos, negsuc, arith,
}
use tarkka.Lineage.Model.{
  Passage, Section, Document, ExtractionRun, Evidence, TableEvidence, passage_evidence,
  table_evidence, passage_source, slice, from_passage, Claim, claim, other_extraction,
  EvidenceRelation, CitationContext,
}
use tarkka.Lineage.{Readers, resolve_evidence_source}
use tarkka.Lineage.Results.{ClaimLineage}
use tarkka.Lineage.Sources.{from_passage-resolve}
use tarkka.Lineage.Inspection.{inspect, inspect_anew}
use tarkka.Lineage.Inspection.Caching.{inspect-anew}
use tarkka.Lineage.Inspection.Answered.{IsAnswer, inspect-IsAnswer, inspect-IsBounded}

abbrev passage : Passage
passage = record { passage_id = 31; document_id = 1; section_id = 21; text = codes "ice melts" }

abbrev section : Section
section = record { section_id = 21; passages = passage ∷ [] }

abbrev document : Document
document = record {
  document_id = 1;
  artifact_id = 15;
  sections = section ∷ [];
  figures = [];
  tables = record { table_id = 41; row_count = some 5; column_count = none } ∷ [];
  equations = [];
}

abbrev run : ExtractionRun
run = record { run_id = 51; document_id = 1 }

abbrev melting : Evidence
melting = record {
  evidence_id = 61;
  document_id = 1;
  section_id = 21;
  passage_id = 31;
  passage_char_start = 4;
  passage_char_end = 9;
  text = codes "melts";
  run_id = 51;
}

abbrev measured : TableEvidence
measured = record {
  evidence_id = 62;
  document_id = 1;
  table_id = 41;
  row_start = 0;
  row_end = 5;
  column_start = 0;
  column_end = 9;
  run_id = 51;
}

abbrev subject : Claim
subject = record { extraction_id = 71; document_id = 1; evidence_ids = 61 ∷ 62 ∷ []; run_id = 51 }

abbrev context : CitationContext
context = record { context_id = 91; document_id = 1 }

abbrev relations : List EvidenceRelation
relations =
    record { relation_id = 81; claim_id = 71; evidence_id = some 62; citation_context_id = some 91 }
    ∷ record { relation_id = 82; claim_id = 71; evidence_id = none; citation_context_id = none }
    ∷ []

-- Identifiers by the length of what they name: "urn:sha256:" has 11 characters, the digest here 4.
abbrev readers : Readers
readers = record {
  get_extraction = λ id. lookup id ((71, claim subject) ∷ (72, other_extraction 72) ∷ []);
  get_evidence =
      λ id. lookup id ((61, passage_evidence melting) ∷ (62, table_evidence measured) ∷ []);
  get_run = λ id. lookup id ((51, run) ∷ []);
  page_relations = λ id start size. (length relations, take size (drop start relations));
  get_document = λ id. lookup id ((1, document) ∷ []);
  get_artifact = λ id. lookup id ((15, record { artifact_id = 15; sha256 = codes "abcd" }) ∷ []);
  citations = some (λ document_id id. lookup id ((91, context) ∷ []));
  uuid5 = length;
}

abbrev ids_of : Result ClaimLineage → List ℕ
ids_of (ok answer) = length answer.claim_evidence ∷ length answer.assessments ∷ []
ids_of (err raised) = []

inspect_both : ids_of (inspect readers 71 (pos 0) (pos 20) (pos 0) (pos 20)) ≡ 2 ∷ 2 ∷ []
unfolding inspect
inspect_both = refl

inspect_later : ids_of (inspect readers 71 (pos 1) (pos 20) (pos 1) (pos 1)) ≡ 1 ∷ 1 ∷ []
unfolding inspect
inspect_later = refl

inspect_other :
    inspect readers 72 (pos 0) (pos 20) (pos 0) (pos 20) ≡ err (lookup_error "claim not found")
unfolding inspect
inspect_other = refl

inspect_too_many :
    inspect readers 71 (pos 0) (pos 101) (pos 0) (pos 20)
    ≡ err (value_error "pagination exceeds the configured maximum")
unfolding inspect
inspect_too_many = refl

inspect_negative :
    inspect readers 71 (pos 0) (pos 20) (negsuc 0) (pos 20)
    ≡ err (value_error "offset and limit must be non-negative")
unfolding inspect
inspect_negative = refl

abbrev answered :
    (answer : ClaimLineage) × (inspect readers 71 (pos 0) (pos 20) (pos 0) (pos 20) ≡ ok answer)
unfolding inspect
answered = (_, refl)

inspect-anew_example :
    inspect readers 71 (pos 0) (pos 20) (pos 0) (pos 20)
    ≡ inspect_anew readers 71 (pos 0) (pos 20) (pos 0) (pos 20)
inspect-anew_example = inspect-anew readers 71 (pos 0) (pos 20) (pos 0) (pos 20)

inspect-IsAnswer_example : IsAnswer readers 71 (pos 0) (pos 20) (pos 0) (pos 20) answered.0
inspect-IsAnswer_example =
    inspect-IsAnswer readers 71 (pos 0) (pos 20) (pos 0) (pos 20) answered.0 answered.1

inspect-IsBounded_example :
    (length answered.0.claim_evidence ≤ 100) × (length answered.0.assessments ≤ 100)
inspect-IsBounded_example =
    inspect-IsBounded readers 71 (pos 0) (pos 20) (pos 0) (pos 20) answered.0
      (λ id start size. length-take_le size (drop start relations)) answered.1

melts_visible : is_blank (slice 4 9 passage.text) ≡ false
unfolding is_blank
melts_visible = refl

from_passage-resolve_example :
    (e : Evidence) × (from_passage 63 passage 4 9 51 ≡ ok e)
    × (e.text ≡ slice 4 9 passage.text)
    × (resolve_evidence_source document (passage_evidence e) ≡ ok (passage_source passage))
from_passage-resolve_example =
    from_passage-resolve document section passage 63 4 9 51 refl refl (omega arith) (omega arith)
      melts_visible
