-- ===== src/Citations/Resolution/Agreement.antt =====
-- Resolutions that the catalog finds equal agree but for the time.
use tarkka.Prelude.{
  ◌≡◌, refl, true, nat_beq_iff, nat_eq, option_beq_iff, list_beq_iff, list_eq, tests_hold,
  tests_hold_of, arith,
}
use tarkka.Citations.Resolution.{
  CitationResolutionStatus, unresolved, resolved, ambiguous, rejected, CitationResolution,
  same_status, resolution_tests, same_resolution,
}

-- Two resolutions that agree but for the time.
abbrev pub Agree : CitationResolution → CitationResolution → Type 0
Agree a b =
    (a.reference_id ≡ b.reference_id)
    × (a.status ≡ b.status)
    × (a.work_id ≡ b.work_id)
    × (a.candidate_work_ids ≡ b.candidate_work_ids)

same_status_lem : (a b : CitationResolutionStatus) → same_status a b ≡ true → a ≡ b
same_status_lem unresolved unresolved h = refl
same_status_lem resolved resolved h = refl
same_status_lem ambiguous ambiguous h = refl
same_status_lem rejected rejected h = refl
same_status_lem unresolved resolved h = absurd (ground arith)
same_status_lem unresolved ambiguous h = absurd (ground arith)
same_status_lem unresolved rejected h = absurd (ground arith)
same_status_lem resolved unresolved h = absurd (ground arith)
same_status_lem resolved ambiguous h = absurd (ground arith)
same_status_lem resolved rejected h = absurd (ground arith)
same_status_lem ambiguous unresolved h = absurd (ground arith)
same_status_lem ambiguous resolved h = absurd (ground arith)
same_status_lem ambiguous rejected h = absurd (ground arith)
same_status_lem rejected unresolved h = absurd (ground arith)
same_status_lem rejected resolved h = absurd (ground arith)
same_status_lem rejected ambiguous h = absurd (ground arith)

pub same_resolution-Agree : (a b : CitationResolution) → same_resolution a b ≡ true → Agree a b
unfolding same_resolution
same_resolution-Agree a b h =
    let (id, (ref, (status, (work, (candidates, more))))) = tests_hold (resolution_tests a b) h in
    (
      (nat_beq_iff a.reference_id b.reference_id).0 ref,
      same_status_lem a.status b.status status,
      (option_beq_iff a.work_id b.work_id).0 work,
      (list_beq_iff a.candidate_work_ids b.candidate_work_ids).0 candidates,
    )

-- Two equal resolutions agree.
same_status_refl : (s : CitationResolutionStatus) → same_status s s ≡ true
same_status_refl unresolved = refl
same_status_refl resolved = refl
same_status_refl ambiguous = refl
same_status_refl rejected = refl

pub same_resolution_refl : (x : CitationResolution) → same_resolution x x ≡ true
unfolding same_resolution
same_resolution_refl x = tests_hold_of (resolution_tests x x) (
  (nat_beq_iff x.resolution_id x.resolution_id).1 refl,
  (
    (nat_beq_iff x.reference_id x.reference_id).1 refl,
    (
      same_status_refl x.status,
      (
        (option_beq_iff x.work_id x.work_id).1 refl,
        (
          (list_beq_iff x.candidate_work_ids x.candidate_work_ids).1 refl,
          (
            (option_beq_iff x.resolver x.resolver).1 refl,
            ((option_beq_iff x.source_observation_id x.source_observation_id).1 refl, tt),
          ),
        ),
      ),
    ),
  ),
)
