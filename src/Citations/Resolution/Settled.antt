-- ===== src/Citations/Resolution/Settled.antt =====
-- A resolved reference stays resolved to its work.
use tarkka.Prelude.{
  ℕ, ◌≡◌, refl, ap, sym, subst, ◌∙◌, inl, inr, ◌⊎◌, true, some, List, [], ◌∷◌, nat_beq, nat_beq_iff,
  nat_eq, option_beq_iff, lookup, lookup-put, lookup-put_ne, put, Result, ok, err, on_ok, arith,
  Bool-cases, Option-cases,
}
use tarkka.Citations.Resolution.{
  CitationResolution, is_resolved, Resolutions, same_payload, validate_transition, stored,
  save_over, save_resolution,
}

pub record IsSettled (reference_id work_id : ℕ) (resolutions : Resolutions) : Type 0 where
  pub resolution : CitationResolution
  pub found : lookup reference_id resolutions ≡ some resolution
  pub resolved : is_resolved resolution.status ≡ true
  pub chosen : resolution.work_id ≡ some work_id

-- A save that returns leaves the store alone, or stores the resolution after the check of the change.
pub save_cases :
    (resolutions saved : Resolutions) (r : CitationResolution)
    → save_resolution resolutions r ≡ ok saved
    → (saved ≡ resolutions)
      ⊎ ((saved ≡ stored resolutions r)
          × ((existing : CitationResolution)
              → lookup r.reference_id resolutions ≡ some existing
              → validate_transition existing r ≡ ok tt))
unfolding save_resolution
save_cases resolutions saved r h = elim (Option-cases (lookup r.reference_id resolutions)) [
  | inl missing ↦
      let e : ok (stored resolutions r) ≡ ok saved = rw missing at h in
      inr (cc, λ existing there. absurd (ground (arith, missing, there)))
  | inr (existing, there) ↦
      let call : save_over resolutions r (some existing) ≡ ok saved = rw there at h in
      elim (Bool-cases (same_payload existing r)) [
        | inl same ↦ let e : ok resolutions ≡ ok saved = rw same at call in inl (cc)
        | inr changed ↦ elim (Bool-cases (nat_beq existing.resolution_id r.resolution_id)) [
          | inr other ↦ absurd (ground (arith, rw (changed, other) at call))
          | inl named ↦
              on_ok (validate_transition existing r) (λ _. ok (stored resolutions r))
                (rw (changed, named) at call)
                λ done checked last. inr (
                  cc,
                  λ other found.
                      let same : existing ≡ other = cc in
                      subst (λ (k : CitationResolution). validate_transition k r ≡ ok tt) same
                        checked,
                )
        ]
      ]
]

validate_settled :
    (existing r : CitationResolution) (work_id : ℕ)
    → validate_transition existing r ≡ ok tt
    → is_resolved existing.status ≡ true
    → existing.work_id ≡ some work_id
    → (is_resolved r.status ≡ true) × (r.work_id ≡ some work_id)
unfolding validate_transition
validate_settled existing r work_id h was chosen =
    ground (arith, option_beq_iff r.work_id existing.work_id)

pub save-IsSettled :
    (reference_id work_id : ℕ) (resolutions saved : Resolutions) (r : CitationResolution)
    → save_resolution resolutions r ≡ ok saved
    → IsSettled reference_id work_id resolutions
    → IsSettled reference_id work_id saved
save-IsSettled reference_id work_id resolutions saved r h settled =
    elim (save_cases resolutions saved r h) [
      | inl e ↦ subst (IsSettled reference_id work_id) (sym e) settled
      | inr (e, checked) ↦
          subst (IsSettled reference_id work_id) (sym e)
            (elim (Bool-cases (nat_beq r.reference_id reference_id)) [
              | inl here ↦
                  let same = (nat_beq_iff r.reference_id reference_id).0 here in
                  let there = ap (λ (k : ℕ). lookup k resolutions) same ∙ settled.found in
                  let (resolved', chosen') =
                    validate_settled settled.resolution r work_id (checked settled.resolution there)
                      settled.resolved settled.chosen in
                  record {
                    resolution = r;
                    found =
                        ap (λ (k : ℕ). lookup k (put r.reference_id r resolutions)) (sym same)
                        ∙ lookup-put r.reference_id r resolutions;
                    resolved = resolved';
                    chosen = chosen';
                  }
              | inr other ↦ record {
                resolution = settled.resolution;
                found =
                    lookup-put_ne r.reference_id reference_id r resolutions other ∙ settled.found;
                resolved = settled.resolved;
                chosen = settled.chosen;
              }
            ])
    ]

-- The catalog after some saves, where one that raises changes nothing.
abbrev pub saved_or : Resolutions → Result Resolutions → Resolutions
saved_or resolutions (ok saved) = saved
saved_or resolutions (err e) = resolutions

pub save_all : Resolutions → List CitationResolution → Resolutions
save_all resolutions [] = resolutions
save_all resolutions (r ∷ rs) = save_all (saved_or resolutions (save_resolution resolutions r)) rs

Result-split :
    (resolutions : Resolutions) (m : Result Resolutions)
    → ((saved : Resolutions) × (m ≡ ok saved)) ⊎ (saved_or resolutions m ≡ resolutions)
Result-split resolutions (ok saved) = inl (saved, refl)
Result-split resolutions (err e) = inr refl

-- A reference that is resolved to a work stays resolved to that work over any saves of resolutions,
-- whether they return or raise.
pub save_all-IsSettled :
    (reference_id work_id : ℕ) (resolutions : Resolutions) (rs : List CitationResolution)
    → IsSettled reference_id work_id resolutions
    → IsSettled reference_id work_id (save_all resolutions rs)
unfolding save_all
save_all-IsSettled reference_id work_id resolutions [] settled = settled
save_all-IsSettled reference_id work_id resolutions (r ∷ rs) settled =
    save_all-IsSettled reference_id work_id (saved_or resolutions (save_resolution resolutions r))
      rs
      (elim (Result-split resolutions (save_resolution resolutions r)) [
        | inl (saved, e) ↦ rw e (save-IsSettled reference_id work_id resolutions saved r e settled)
        | inr same ↦ subst (IsSettled reference_id work_id) (sym same) settled
      ])
