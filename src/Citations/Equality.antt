-- ===== src/Citations/Equality.antt =====
-- Equality of relations and resolutions, as the JSON catalog compares what it stored.
use tarkka.Prelude.{
  ℕ, option_beq, option_beq_iff, option_eq, tests_hold, ◌≡◌, ◌↔◌, Bool, true, false, ◌&&◌, Option,
  arith, Eq, ◌==◌, nat_beq, nat_beq_iff, nat_eq, list_eq, list_beq, list_beq_iff, ap, refl, subst,
  all, All, List, [], ◌∷◌,
}
use tarkka.Citations.{
  WorkRelation, WorkRelationKind, kind_value, ObservationBasis, native, reconstructed, inferred,
}
use tarkka.Citations.Kinds.{kind_value-inj}

unfoldable pub kind_beq : WorkRelationKind → WorkRelationKind → Bool
unfolding list_beq
kind_beq k j = kind_value k == kind_value j

pub kind_beq_iff : (k j : WorkRelationKind) → (kind_beq k j ≡ true) ↔ (k ≡ j)
unfolding kind_beq
kind_beq_iff k j =
    let (to, back) = list_beq_iff (kind_value k) (kind_value j) in
    (λ h. kind_value-inj k j (to h), λ e. back (ap kind_value e))

unfoldable pub basis_beq : ObservationBasis → ObservationBasis → Bool
basis_beq native native = true
basis_beq reconstructed reconstructed = true
basis_beq inferred inferred = true
basis_beq _ _ = false

pub basis_beq_iff : (a b : ObservationBasis) → (basis_beq a b ≡ true) ↔ (a ≡ b)
unfolding basis_beq
basis_beq_iff native native = ground arith
basis_beq_iff native reconstructed = ground arith
basis_beq_iff native inferred = ground arith
basis_beq_iff reconstructed native = ground arith
basis_beq_iff reconstructed reconstructed = ground arith
basis_beq_iff reconstructed inferred = ground arith
basis_beq_iff inferred native = ground arith
basis_beq_iff inferred reconstructed = ground arith
basis_beq_iff inferred inferred = ground arith

-- The tests of the entries of two _relation_identity tuples.
abbrev identity_tests : WorkRelation → WorkRelation → List Bool
identity_tests a b =
    nat_beq a.relation_id b.relation_id
    ∷ nat_beq a.subject_work_id b.subject_work_id
    ∷ nat_beq a.object_work_id b.object_work_id
    ∷ kind_beq a.kind b.kind
    ∷ basis_beq a.basis b.basis
    ∷ option_beq a.source_observation_id b.source_observation_id
    ∷ option_beq a.source_document_id b.source_document_id
    ∷ option_beq a.source_reference_id b.source_reference_id
    ∷ []

-- _relation_identity(a) == _relation_identity(b)
unfoldable pub same_identity : WorkRelation → WorkRelation → Bool
unfolding kind_beq basis_beq option_beq
same_identity a b = all (λ test. test) (identity_tests a b)

-- Relations of one identity differ in the time of their creation alone.
pub record IsSame (a b : WorkRelation) : Type 0 where
  pub relation_id : a.relation_id ≡ b.relation_id
  pub subject_work_id : a.subject_work_id ≡ b.subject_work_id
  pub object_work_id : a.object_work_id ≡ b.object_work_id
  pub kind : a.kind ≡ b.kind
  pub basis : a.basis ≡ b.basis
  pub source_observation_id : a.source_observation_id ≡ b.source_observation_id
  pub source_document_id : a.source_document_id ≡ b.source_document_id
  pub source_reference_id : a.source_reference_id ≡ b.source_reference_id

tests-IsSame : (a b : WorkRelation) → All (λ test. test ≡ true) (identity_tests a b) → IsSame a b
tests-IsSame a b (h1, (h2, (h3, (h4, (h5, (h6, (h7, (h8, last)))))))) = record {
  relation_id = (nat_beq_iff a.relation_id b.relation_id).0 h1;
  subject_work_id = (nat_beq_iff a.subject_work_id b.subject_work_id).0 h2;
  object_work_id = (nat_beq_iff a.object_work_id b.object_work_id).0 h3;
  kind = (kind_beq_iff a.kind b.kind).0 h4;
  basis = (basis_beq_iff a.basis b.basis).0 h5;
  source_observation_id = (option_beq_iff a.source_observation_id b.source_observation_id).0 h6;
  source_document_id = (option_beq_iff a.source_document_id b.source_document_id).0 h7;
  source_reference_id = (option_beq_iff a.source_reference_id b.source_reference_id).0 h8;
}

pub same_identity-IsSame : (a b : WorkRelation) → same_identity a b ≡ true → IsSame a b
unfolding same_identity
same_identity-IsSame a b h = tests-IsSame a b (tests_hold (identity_tests a b) h)

unfoldable pub relation_beq : WorkRelation → WorkRelation → Bool
unfolding same_identity
relation_beq a b = nat_beq a.created_at b.created_at && same_identity a b

pub same_identity_refl : (a : WorkRelation) → same_identity a a ≡ true
unfolding same_identity
same_identity_refl a =
    let n : (k : ℕ) → nat_beq k k ≡ true = λ k. (nat_beq_iff k k).1 refl in
    let o : (x : Option ℕ) → option_beq x x ≡ true = λ x. (option_beq_iff x x).1 refl in
    rw
      (
        n a.relation_id,
        n a.subject_work_id,
        n a.object_work_id,
        (kind_beq_iff a.kind a.kind).1 refl,
        (basis_beq_iff a.basis a.basis).1 refl,
        o a.source_observation_id,
        o a.source_document_id,
        o a.source_reference_id,
      )
      refl

relation-eq_of_tests :
    (a b : WorkRelation)
    → All (λ test. test ≡ true) (nat_beq a.created_at b.created_at ∷ identity_tests a b)
    → a ≡ b
relation-eq_of_tests a b (time, tests) =
    let same = tests-IsSame a b tests in
    let at = (nat_beq_iff a.created_at b.created_at).0 time in
    λ i. record {
      relation_id = same.relation_id i;
      subject_work_id = same.subject_work_id i;
      object_work_id = same.object_work_id i;
      kind = same.kind i;
      basis = same.basis i;
      source_observation_id = same.source_observation_id i;
      source_document_id = same.source_document_id i;
      source_reference_id = same.source_reference_id i;
      created_at = at i;
    }

relation-eq_of_beq : (a b : WorkRelation) → relation_beq a b ≡ true → a ≡ b
unfolding relation_beq same_identity
relation-eq_of_beq a b h =
    relation-eq_of_tests a b (tests_hold (nat_beq a.created_at b.created_at ∷ identity_tests a b) h)

relation_beq_refl : (a : WorkRelation) → relation_beq a a ≡ true
unfolding relation_beq
relation_beq_refl a = rw (same_identity_refl a, (nat_beq_iff a.created_at a.created_at).1 refl) refl

pub relation_beq_iff : (a b : WorkRelation) → (relation_beq a b ≡ true) ↔ (a ≡ b)
relation_beq_iff a b = (
  relation-eq_of_beq a b,
  λ e. subst (λ (c : WorkRelation). relation_beq a c ≡ true) e (relation_beq_refl a),
)

instance abbrev pub relation_eq : Eq WorkRelation
relation_eq = record { same = relation_beq; same_iff = relation_beq_iff }
