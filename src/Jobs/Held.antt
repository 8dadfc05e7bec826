-- ===== src/Jobs/Held.antt =====
-- A job that a worker has claimed stays held through the calls of all workers.
use tarkka.Prelude.{
  ℕ, ◌≡◌, ◌≢◌, refl, ap, sym, subst, ◌∙◌, inl, inr, ◌⊎◌, true, false, none, some, List, [], All,
  In-All, nat_beq, nat_beq_iff, nat_eq, lookup, ok, arith, Bool-cases,
}
use tarkka.Jobs.{ResearchJob, JobClaim, JobStatus, failed, completed, JobCheckpoint, is_failed}
use tarkka.Jobs.Store
use tarkka.Jobs.Store.{put_sorted, retried}
use tarkka.Jobs.Store.Order.{lookup-put_sorted, lookup_of_In}
use tarkka.Jobs.Store.Identity.{SameWork, SameWork-sym, SameWork-trans}
use tarkka.Jobs.Store.Sound.{IsSound, Claimed, created, resumed, refused}
use tarkka.Jobs.Updates.{acquire-Claimed, Claimed-IsSound, updated, IsRead, update_from_ok}
use tarkka.Jobs.Calls.{
  Step-IsKnown, Step, read_job, acquired, completed_job, checkpointed, failed_job, Steps, here,
  next,
}
use tarkka.Jobs.Service.{update_from, complete_from, checkpoint_from, fail_from}

-- A job for the work is in the store under the identifier, and has not failed.
pub record IsHeld (held : ResearchJob) (store : Store.Store) : Type 0 where
  pub sound : IsSound store
  pub job : ResearchJob
  pub stored : lookup held.job_id store ≡ some job
  pub work : SameWork job held
  pub not_failed : is_failed job.status ≡ false

module _ (held : ResearchJob) where
  -- An assignment to another key leaves the job alone.
  pub IsHeld-elsewhere :
      (store : Store.Store) (key : ℕ) (job : ResearchJob)
      → IsHeld held store
      → IsSound (put_sorted key job store)
      → key ≢ held.job_id
      → IsHeld held (put_sorted key job store)
  IsHeld-elsewhere store key job h sound other = record {
    sound = sound;
    job = h.job;
    stored =
        lookup-put_sorted held.job_id key job store
        ∙ ground (arith, nat_beq_iff key held.job_id, h.stored);
    work = h.work;
    not_failed = h.not_failed;
  }

  -- An assignment to its key leaves it held if the new job is for the work and has not failed.
  pub IsHeld-here :
      (store : Store.Store) (key : ℕ) (job : ResearchJob)
      → IsSound (put_sorted key job store)
      → key ≡ held.job_id
      → SameWork job held
      → is_failed job.status ≡ false
      → IsHeld held (put_sorted key job store)
  IsHeld-here store key job sound same work not_failed = record {
    sound = sound;
    job = job;
    stored =
        lookup-put_sorted held.job_id key job store ∙ ground (arith, nat_beq_iff key held.job_id);
    work = work;
    not_failed = not_failed;
  }

  -- A write of a job that was read, with a status other than FAILED or under another identifier.
  update_from-IsHeld :
      (store store' : Store.Store) (current : ResearchJob) (status : JobStatus)
      (progress : JobCheckpoint) (now : ℕ) (made : ResearchJob)
      → IsHeld held store
      → IsRead store current
      → update_from store current status progress now ≡ ok (made, store')
      → (is_failed status ≡ false) ⊎ (current.job_id ≢ held.job_id)
      → IsHeld held store'
  update_from-IsHeld store store' current status progress now made h (job, there, work) call kept =
      let key = current.job_id in
      let (e, sound) =
        update_from_ok store h.sound current (job, there, work) status progress now made store'
          call in
      let sound' = subst IsSound e sound in
      subst (IsHeld held) (sym e) (elim (Bool-cases (nat_beq key held.job_id)) [
        | inl at_key ↦
            let same = (nat_beq_iff key held.job_id).0 at_key in
            let found : some job ≡ some h.job =
              sym there ∙ ap (λ (k : ℕ). lookup k store) same ∙ h.stored in
            let back : h.job ≡ job = cc in
            let work_held : SameWork job held =
              subst (λ (j : ResearchJob). SameWork j held) back h.work in
            elim kept [
              | inl alive ↦
                  IsHeld-here store key (updated current status progress now) sound' same
                    (SameWork-trans current job held (SameWork-sym job current work) work_held)
                    alive
              | inr other ↦ absurd (other same)
            ]
        | inr other ↦
            IsHeld-elsewhere store key (updated current status progress now) h sound'
              (λ same. ground (arith, (nat_beq_iff key held.job_id).1 same))
      ])

  pub Claimed-IsHeld :
      (store : Store.Store) (job : ResearchJob) (now : ℕ) {claim : JobClaim} {store' : Store.Store}
      → IsHeld held store
      → lookup job.job_id store ≡ none
      → IsSound store'
      → Claimed job now store claim store'
      → IsHeld held store'
  Claimed-IsHeld store job now h fresh sound (created none_same) =
      IsHeld-elsewhere store job.job_id job h sound λ same.
        let found : none ≡ some h.job =
          sym fresh ∙ ap (λ (k : ℕ). lookup k store) same ∙ h.stored in
        cc
  Claimed-IsHeld store job now h fresh sound (resumed existing there work was_failed) =
      IsHeld-elsewhere store existing.job_id (retried existing now) h sound λ same.
        let found : some existing ≡ some h.job =
          sym (lookup_of_In existing.job_id existing store h.sound.ordered there)
          ∙ ap (λ (k : ℕ). lookup k store) same
          ∙ h.stored in
        let e : existing ≡ h.job = cc in
        let clash : true ≡ false =
          sym was_failed ∙ ap (λ (j : ResearchJob). is_failed j.status) e ∙ h.not_failed in
        cc
  Claimed-IsHeld store job now h fresh sound (refused existing there work not_failed) = h

  Step-IsHeld :
      {store store' : Store.Store} {reads reads' : List ResearchJob}
      → Step (λ id. id ≢ held.job_id) store reads store' reads'
      → All (IsRead store) reads
      → IsHeld held store
      → IsHeld held store'
  unfolding complete_from checkpoint_from fail_from
  Step-IsHeld (acquired {store} {store'} job now claim fresh call) known h =
      let (valid, claimed) = acquire-Claimed job now store h.sound claim store' call in
      Claimed-IsHeld store job now h fresh (Claimed-IsSound job now store h.sound valid claimed)
        claimed
  Step-IsHeld (read_job job_id job call) known h = h
  Step-IsHeld (completed_job {store} {store'} {reads} current progress now made there call) known
        h =
      update_from-IsHeld store store' current completed progress now made h
        (In-All _ current reads known there) call (inl refl)
  Step-IsHeld
        (checkpointed {store} {store'} {reads} first current progress now made early there same kept
          call)
        known h =
      update_from-IsHeld store store' current first.status progress now made h
        (In-All _ current reads known there) call kept
  Step-IsHeld (failed_job {store} {store'} {reads} current none now made there other call) known h =
      update_from-IsHeld store store' current failed [] now made h
        (In-All _ current reads known there) call (inr other)
  Step-IsHeld
        (failed_job {store} {store'} {reads} current (some progress) now made there other call)
        known h =
      update_from-IsHeld store store' current failed progress now made h
        (In-All _ current reads known there) call (inr other)

  pub Steps-IsHeld :
      {store store' : Store.Store} {reads reads' : List ResearchJob}
      → Steps (λ id. id ≢ held.job_id) store reads store' reads'
      → All (IsRead store) reads
      → IsHeld held store
      → IsHeld held store'
  Steps-IsHeld (here store reads) known h = h
  Steps-IsHeld (next step more) known h =
      let known' =
        Step-IsKnown (λ id. id ≢ held.job_id) step (record { sound = h.sound; each = known }) in
      Steps-IsHeld more known'.each (Step-IsHeld step known h)
