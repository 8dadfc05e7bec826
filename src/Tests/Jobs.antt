-- ===== src/Tests/Jobs.antt =====
-- Runs of the job service, and its theorems at concrete inputs: one worker claims a job and records
-- progress, another asks for the same work.
use tarkka.Prelude.{
  ℕ, ◌≢◌, inl, ◌≡◌, refl, true, false, some, none, [], ◌∷◌, nat_eq, list_eq, codes, ok, err,
  runtime_error, is_blank,
}
use tarkka.Jobs.{ResearchJob, JobClaim, ingest, failed}
use tarkka.Jobs.Store.{put_sorted}
use tarkka.Jobs.Store.Sound.{IsSound, is_valid}
use tarkka.Jobs.Service.{new_job, acquire, start, show, checkpoint_from}
use tarkka.Jobs.Calls.{Steps, read_job, here, next, checkpointed, acquired, Steps-IsSound}
use tarkka.Jobs.Exclusive.{acquire-IsExclusive}

abbrev job : ResearchJob
job = new_job ingest (codes "sha") (codes "v1") none (some 4) 7 100

abbrev other : ResearchJob
other = new_job ingest (codes "sha") (codes "v1") none (some 4) 5 200

abbrev claim : JobClaim
claim = record { job = job; acquired = true }

abbrev with_progress : ResearchJob
with_progress = record job { checkpoint = (codes "page", codes "3") ∷ []; updated_at = 150 }

granted : acquire [] job 100 ≡ ok (claim, (7, job) ∷ [])
unfolding acquire
granted = refl

shown : show ((7, job) ∷ []) 7 ≡ ok job
unfolding show is_blank
shown = refl

recorded :
    checkpoint_from ((7, job) ∷ []) job job ((codes "page", codes "3") ∷ []) 150
    ≡ ok (with_progress, (7, with_progress) ∷ [])
unfolding checkpoint_from put_sorted
recorded = refl

other_job : start ((7, job) ∷ []) other 200 ≡ err (runtime_error "research job already in progress")
unfolding start
other_job = refl

after_failure :
    acquire ((7, record job { status = failed }) ∷ []) other 200
    ≡ ok (
      record { job = record job { updated_at = 200 }; acquired = true },
      (7, record job { updated_at = 200 }) ∷ [],
    )
unfolding acquire
after_failure = refl

-- A checkpoint that read a failed job before another worker took the job up writes FAILED over it, and
-- the next claim for the work is granted as well, though no call of `fail` was made in between.
late_checkpoint :
    checkpoint_from ((7, job) ∷ []) (record job { status = failed }) job [] 150
    ≡ ok (
      record job { status = failed; updated_at = 150 },
      (7, record job { status = failed; updated_at = 150 }) ∷ [],
    )
unfolding checkpoint_from put_sorted
late_checkpoint = refl

empty-IsSound : IsSound []
empty-IsSound = record { ordered = tt; entries = tt; one_each = tt }

other_valid : is_valid other ≡ true
unfolding is_blank
other_valid = refl

abbrev recording :
    (may_fail : ℕ → Type 0)
    → Steps may_fail ((7, job) ∷ []) [] ((7, with_progress) ∷ []) (job ∷ job ∷ [])
recording may_fail = next (read_job 7 job shown) (
    next (read_job 7 job shown) (
      next
        (checkpointed job job ((codes "page", codes "3") ∷ []) 150 with_progress (inl refl)
          (inl refl) refl (inl refl) recorded)
        (here _ _)))

acquire-IsExclusive_example :
    (existing : ResearchJob) × (acquire ((7, with_progress) ∷ []) other 200
      ≡ ok (record { job = existing; acquired = false }, (7, with_progress) ∷ []))
    × (existing.job_id ≡ 7)
acquire-IsExclusive_example =
    acquire-IsExclusive [] [] ((7, job) ∷ []) ((7, with_progress) ∷ []) [] (job ∷ job ∷ []) job
      other 100 200 claim empty-IsSound (here [] []) refl refl granted refl
      (recording (λ id. id ≢ 7)) other_valid (refl, refl, refl, refl, refl)

Steps-IsSound_example : IsSound ((7, with_progress) ∷ [])
Steps-IsSound_example =
    Steps-IsSound (λ id. ⊥) (next (acquired job 100 claim refl granted) (recording (λ id. ⊥)))
      empty-IsSound
