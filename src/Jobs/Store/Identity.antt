-- ===== src/Jobs/Store/Identity.antt =====
-- The identity of a job: its kind, input, configuration, library and workspace.
use tarkka.Prelude.{
  ◌≡◌, sym, ◌∙◌, ◌↔◌, true, tests_hold, tests_hold_of, option_beq_iff, list_beq_iff, nat_eq,
  list_eq, arith,
}
use tarkka.Jobs.{JobKind, ingest, extract, index, compile, ResearchJob}
use tarkka.Jobs.Store.{same_kind, identity_tests, same_identity}

abbrev pub SameWork : ResearchJob → ResearchJob → Type 0
SameWork a b =
    (a.kind ≡ b.kind)
    × (a.input_digest ≡ b.input_digest)
    × (a.configuration_fingerprint ≡ b.configuration_fingerprint)
    × (a.library_id ≡ b.library_id)
    × (a.workspace_id ≡ b.workspace_id)

pub SameWork-sym : (a b : ResearchJob) → SameWork a b → SameWork b a
SameWork-sym a b (p, q, r, s, t) = (sym p, sym q, sym r, sym s, sym t)

pub SameWork-trans : (a b c : ResearchJob) → SameWork a b → SameWork b c → SameWork a c
SameWork-trans a b c (p, q, r, s, t) (p', q', r', s', t') = (p ∙ p', q ∙ q', r ∙ r', s ∙ s', t ∙ t')

same_kind_iff : (k j : JobKind) → (same_kind k j ≡ true) ↔ (k ≡ j)
same_kind_iff ingest ingest = ground arith
same_kind_iff ingest extract = ground arith
same_kind_iff ingest index = ground arith
same_kind_iff ingest compile = ground arith
same_kind_iff extract ingest = ground arith
same_kind_iff extract extract = ground arith
same_kind_iff extract index = ground arith
same_kind_iff extract compile = ground arith
same_kind_iff index ingest = ground arith
same_kind_iff index extract = ground arith
same_kind_iff index index = ground arith
same_kind_iff index compile = ground arith
same_kind_iff compile ingest = ground arith
same_kind_iff compile extract = ground arith
same_kind_iff compile index = ground arith
same_kind_iff compile compile = ground arith

pub same_identity_iff : (a b : ResearchJob) → (same_identity a b ≡ true) ↔ SameWork a b
unfolding same_identity
same_identity_iff a b = (
  λ h.
      let (kind, (digest, (print, (library, (workspace, last))))) =
        tests_hold (identity_tests a b) h in
      (
        (same_kind_iff a.kind b.kind).0 kind,
        (list_beq_iff a.input_digest b.input_digest).0 digest,
        (list_beq_iff a.configuration_fingerprint b.configuration_fingerprint).0 print,
        (option_beq_iff a.library_id b.library_id).0 library,
        (option_beq_iff a.workspace_id b.workspace_id).0 workspace,
      ),
  λ (kind, digest, print, library, workspace). tests_hold_of (identity_tests a b) (
    (same_kind_iff a.kind b.kind).1 kind,
    (
      (list_beq_iff a.input_digest b.input_digest).1 digest,
      (
        (list_beq_iff a.configuration_fingerprint b.configuration_fingerprint).1 print,
        (
          (option_beq_iff a.library_id b.library_id).1 library,
          ((option_beq_iff a.workspace_id b.workspace_id).1 workspace, tt),
        ),
      ),
    ),
  ),
)
