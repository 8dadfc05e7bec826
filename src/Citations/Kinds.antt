-- ===== src/Citations/Kinds.antt =====
-- Kinds by their values: `WorkRelationKind(value)`, and the test of a query for allowed kinds.
use tarkka.Prelude.{
  ◌≡◌, refl, ap, ◌↔◌, inl, inr, true, Option, some, List, [], ◌∷◌, find, nat_eq, list_eq, list_beq,
  list_beq_iff, ◌==◌, In, Bool-cases, arith, Text,
}
use tarkka.Citations.{
  WorkRelationKind, cites, is_version_of, is_preprint_of, is_correction_of, is_retraction_of,
  uses_dataset, uses_software, supplements, has_part, related, kind_value,
}
use tarkka.Citations.Relations.{allowed}

abbrev kinds : List WorkRelationKind
kinds =
    cites ∷ is_version_of ∷ is_preprint_of ∷ is_correction_of ∷ is_retraction_of ∷ uses_dataset
    ∷ uses_software ∷ supplements ∷ has_part ∷ related ∷ []

-- WorkRelationKind(value), where a ValueError is `none`
pub kind_of_value : Text → Option WorkRelationKind
unfolding list_beq
kind_of_value value = find (λ (kind : WorkRelationKind). kind_value kind == value) kinds

pub kind_of_value-kind_value :
    (kind : WorkRelationKind) → kind_of_value (kind_value kind) ≡ some kind
unfolding kind_of_value
kind_of_value-kind_value cites = refl
kind_of_value-kind_value is_version_of = refl
kind_of_value-kind_value is_preprint_of = refl
kind_of_value-kind_value is_correction_of = refl
kind_of_value-kind_value is_retraction_of = refl
kind_of_value-kind_value uses_dataset = refl
kind_of_value-kind_value uses_software = refl
kind_of_value-kind_value supplements = refl
kind_of_value-kind_value has_part = refl
kind_of_value-kind_value related = refl

pub kind_value-inj : (k j : WorkRelationKind) → kind_value k ≡ kind_value j → k ≡ j
kind_value-inj k j h =
    cc (kind_of_value-kind_value k, kind_of_value-kind_value j, ap kind_of_value h)

-- A query for some kinds lets through exactly those kinds.
pub allowed_iff :
    (some_kinds : List WorkRelationKind) (kind : WorkRelationKind)
    → (allowed (some some_kinds) kind ≡ true) ↔ In kind some_kinds
unfolding allowed
allowed_iff [] kind = (λ h. absurd (ground arith), λ h. absurd h)
allowed_iff (k ∷ ks) kind =
    let (to, back) = allowed_iff ks kind in
    let same = list_beq_iff (kind_value k) (kind_value kind) in
    elim (Bool-cases (kind_value k == kind_value kind)) [
      | inl here ↦ (λ h. inl (kind_value-inj k kind (same.0 here)), λ h. rw here refl)
      | inr later ↦ (
        λ h. inr (to (rw later at h)),
        λ h. elim h [
          | inl e ↦ rw (same.1 (ap kind_value e)) refl
          | inr more ↦ rw later (back more)
        ],
      )
    ]
