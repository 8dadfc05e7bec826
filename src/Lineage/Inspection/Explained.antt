-- ===== src/Lineage/Inspection/Explained.antt =====
-- What inspect returns is what the readers hold, with each evidence in its place in the source.
use tarkka.Prelude.{
  ℕ, suc, ◌≤◌, ◌≡◌, refl, sym, ap, subst, ◌∙◌, Option, none, some, List, [], ◌∷◌, leb, leb→le,
  nat_beq, nat_beq_iff, length, Result, ok, ◌>>◌, String, on_ok, on_require, ℤ, pos, negsuc,
}
use tarkka.Lineage.Model.{
  EvidenceRecord, document_of, run_of, Claim, EvidenceRelation, CitationContext,
}
use tarkka.Lineage.{
  Readers, validate_page, expects, read_run, read_source, read_evidence, citation_context,
  look_up_context, resolve_evidence_source,
}
use tarkka.Lineage.Results.{EvidenceLineage, ClaimAssessmentLineage}
use tarkka.Lineage.Chains.{
  ok_injective, on_found, read_run-eq-ok, IsAnchored, read_source-IsAnchored,
}
use tarkka.Lineage.Sources.{IsLocated, resolve-IsLocated}
use tarkka.Lineage.Inspection.{
  evidence_lineage_anew, claim_evidence_anew, assess_anew, relation_evidence_anew, max_offset,
  max_page_size,
}

-- The entries of two lists correspond one to one, in order.
module _ {A B : Type 0} (P : A → B → Type 0) where
  abbrev pub Pairs : List A → List B → Type 0
  Pairs [] [] = Unit
  Pairs (a ∷ rest) (b ∷ bs) = P a b × Pairs rest bs
  Pairs _ _ = ⊥

  pub Pairs-length : (others : List A) (bs : List B) → Pairs others bs → length others ≡ length bs
  Pairs-length [] [] h = refl
  Pairs-length (a ∷ rest) (b ∷ bs) h = ap suc (Pairs-length rest bs h.1)
  Pairs-length [] (b ∷ bs) h = absurd h
  Pairs-length (a ∷ others) [] h = absurd h

-- A page is returned others it was asked for, within the maxima.
pub record IsPage (offset limit : ℤ) (page : ℕ × ℕ) : Type 0 where
  pub at_offset : offset ≡ pos page.0
  pub of_limit : limit ≡ pos page.1
  pub offset_le : page.0 ≤ 10000
  pub limit_le : page.1 ≤ 100

pub validate_page-IsPage :
    (offset limit : ℤ) (page : ℕ × ℕ)
    → validate_page offset limit max_offset max_page_size ≡ ok page
    → IsPage offset limit page
unfolding validate_page
validate_page-IsPage (negsuc n) limit page h = cc
validate_page-IsPage (pos n) (negsuc m) page h = cc
validate_page-IsPage (pos n) (pos m) page h = on_require (leb n 10000) _ _ h λ offset_fits h.
    on_require (leb m 100) _ _ h λ limit_fits h.
      subst (IsPage (pos n) (pos m)) (ok_injective h) record {
        at_offset = refl;
        of_limit = refl;
        offset_le = leb→le n 10000 offset_fits;
        limit_le = leb→le m 100 limit_fits;
      }

module _ (readers : Readers) where
  -- The evidence with the run that made it, and its place in a document with its artifact.
  pub record IsTraced (e : EvidenceLineage) : Type 0 where
    pub run_found : readers.get_run (run_of e.evidence) ≡ some e.run
    pub run_document : e.run.document_id ≡ document_of e.evidence
    pub anchored : IsAnchored readers (document_of e.evidence) e.lineage
    pub located : IsLocated e.lineage.document e.evidence e.source

  abbrev pub Meets : Option ℕ → ℕ → Type 0
  Meets none actual = Unit
  Meets (some expected) actual = actual ≡ expected

  -- The evidence of an identifier, of the document and the run that are expected of it.
  pub record IsEvidence (id : ℕ) (document_id run_id : Option ℕ) (e : EvidenceLineage)
      : Type 0 where
    pub evidence_found : readers.get_evidence id ≡ some e.evidence
    pub of_document : Meets document_id (document_of e.evidence)
    pub of_run : Meets run_id (run_of e.evidence)
    pub traced : IsTraced e

  on_expects :
      {B G : Type 0} (expected : Option ℕ) (actual : ℕ) (message : String) (next : Result B) {r : B}
      → (expects readers expected actual message >> next) ≡ ok r
      → (Meets expected actual → next ≡ ok r → G)
      → G
  on_expects none actual message next h k = k tt h
  on_expects (some expected) actual message next h k =
      on_require (nat_beq actual expected) message next h
        λ same h. k ((nat_beq_iff actual expected).0 same) h

  evidence_lineage-IsEvidence :
      (id : ℕ) (document_id run_id : Option ℕ) (e : EvidenceLineage)
      → evidence_lineage_anew readers id document_id run_id ≡ ok e
      → IsEvidence id document_id run_id e
  unfolding evidence_lineage_anew
  evidence_lineage-IsEvidence id document_id run_id e h =
      on_ok (read_evidence readers id document_id run_id) _ h λ evidence read h.
        on_ok (read_run readers (run_of evidence) (document_of evidence)) _ h λ run ran h.
          on_ok (read_source readers (document_of evidence)) _ h λ lineage anchored h.
            on_ok (resolve_evidence_source lineage.document evidence) _ h λ source located h.
              let (run_found, run_named, run_document) =
                read_run-eq-ok readers (run_of evidence) (document_of evidence) run ran in
              on_found (readers.get_evidence id) _ _ read λ got there read.
                on_expects document_id (document_of got) _ _ read λ of_document read.
                  on_expects run_id (run_of got) _ _ read λ of_run read.
                    let same = ok_injective read in
                    subst (IsEvidence id document_id run_id) (ok_injective h) record {
                      evidence_found = there ∙ ap some same;
                      of_document =
                          subst (λ (x : EvidenceRecord). Meets document_id (document_of x)) same
                            of_document;
                      of_run = subst (λ (x : EvidenceRecord). Meets run_id (run_of x)) same of_run;
                      traced = record {
                        run_found = run_found;
                        run_document = run_document;
                        anchored =
                            read_source-IsAnchored readers (document_of evidence) lineage anchored;
                        located = resolve-IsLocated lineage.document evidence source located;
                      };
                    }

  module _ (subject : Claim) where
    abbrev pub IsOwn : ℕ → EvidenceLineage → Type 0
    IsOwn id e = IsEvidence id (some subject.document_id) (some subject.run_id) e

    pub claim_evidence-IsOwn :
        (ids : List ℕ) (es : List EvidenceLineage)
        → claim_evidence_anew readers subject ids ≡ ok es
        → Pairs IsOwn ids es
    unfolding claim_evidence_anew
    claim_evidence-IsOwn [] es h = subst (Pairs IsOwn []) (ok_injective h) tt
    claim_evidence-IsOwn (id ∷ ids) es h =
        on_ok (evidence_lineage_anew readers id (some subject.document_id) (some subject.run_id)) _
          h
          λ e traced h. on_ok (claim_evidence_anew readers subject ids) _ h λ others rest h.
            subst (Pairs IsOwn (id ∷ ids)) (ok_injective h) (
              evidence_lineage-IsEvidence id (some subject.document_id) (some subject.run_id) e
                  traced,
              claim_evidence-IsOwn ids others rest,
            )

    abbrev pub HasEvidence : Option ℕ → Option EvidenceLineage → Type 0
    HasEvidence none e = e ≡ none
    HasEvidence (some id) none = ⊥
    HasEvidence (some id) (some e) = IsEvidence id none none e

    abbrev pub HasContext : Option ℕ → Option CitationContext → Type 0
    HasContext none c = c ≡ none
    HasContext (some id) none = ⊥
    HasContext (some id) (some c) = (c.context_id ≡ id) × (c.document_id ≡ subject.document_id)

    -- A relation of the claim, with the evidence and the citation context that it names.
    pub record IsAssessed (relation : EvidenceRelation) (a : ClaimAssessmentLineage) : Type 0 where
      pub of_relation : a.relation ≡ relation
      pub of_claim : relation.claim_id ≡ subject.extraction_id
      pub has_evidence : HasEvidence relation.evidence_id a.evidence
      pub has_context : HasContext relation.citation_context_id a.citation_context

    relation_evidence-HasEvidence :
        (id : Option ℕ) (e : Option EvidenceLineage)
        → relation_evidence_anew readers id ≡ ok e
        → HasEvidence id e
    relation_evidence-HasEvidence none e h = sym (ok_injective h)
    relation_evidence-HasEvidence (some id) e h =
        on_ok (evidence_lineage_anew readers id none none) _ h λ traced read h.
          subst (HasEvidence (some id)) (ok_injective h)
            (evidence_lineage-IsEvidence id none none traced read)

    citation_context-HasContext :
        (id : Option ℕ) (c : Option CitationContext)
        → citation_context readers subject.document_id id ≡ ok c
        → HasContext id c
    unfolding citation_context
    citation_context-HasContext none c h = sym (ok_injective h)
    citation_context-HasContext (some id) c h = from readers.citations h
      where
        from :
            (store : Option (ℕ → ℕ → Option CitationContext))
            → look_up_context readers store subject.document_id id ≡ ok c
            → HasContext (some id) c
        from none h = cc
        from (some get_context) h =
            on_found (get_context subject.document_id id) _ _ h λ got there h.
              on_require (nat_beq got.context_id id) _ _ h λ named h.
                on_require (nat_beq got.document_id subject.document_id) _ _ h λ local h.
                  subst (HasContext (some id)) (ok_injective h) (
                    (nat_beq_iff got.context_id id).0 named,
                    (nat_beq_iff got.document_id subject.document_id).0 local,
                  )

    pub assess-IsAssessed :
        (relations : List EvidenceRelation) (others : List ClaimAssessmentLineage)
        → assess_anew readers subject relations ≡ ok others
        → Pairs IsAssessed relations others
    unfolding assess_anew
    assess-IsAssessed [] others h = subst (Pairs IsAssessed []) (ok_injective h) tt
    assess-IsAssessed (relation ∷ relations) others h =
        on_require (nat_beq relation.claim_id subject.extraction_id) _ _ h λ own h.
          on_ok (relation_evidence_anew readers relation.evidence_id) _ h λ e traced h.
            on_ok (citation_context readers subject.document_id relation.citation_context_id) _ h
              λ context located h. on_ok (assess_anew readers subject relations) _ h λ later rest h.
                subst (Pairs IsAssessed (relation ∷ relations)) (ok_injective h) (
                  record {
                    of_relation = refl;
                    of_claim = (nat_beq_iff relation.claim_id subject.extraction_id).0 own;
                    has_evidence = relation_evidence-HasEvidence relation.evidence_id e traced;
                    has_context =
                        citation_context-HasContext relation.citation_context_id context located;
                  },
                  assess-IsAssessed relations later rest,
                )
