-- ===== src/Jobs/Calls.antt =====
-- The calls of the workers on one job store, in any order, each locked access of the store a step of
-- its own, and that they keep the store sound.
use tarkka.Prelude.{
  ℕ, ◌≡◌, ◌⊎◌, false, Option, none, some, List, [], ◌∷◌, nat_eq, lookup, ok, All, All-mono, In,
  In-All, sym, subst,
}
use tarkka.Jobs.{ResearchJob, JobClaim, JobStatus, failed, completed, JobCheckpoint, is_failed}
use tarkka.Jobs.Store
use tarkka.Jobs.Store.{put_sorted, retried}
use tarkka.Jobs.Store.Sound.{IsSound}
use tarkka.Jobs.Updates.{
  acquire-Claimed, Claimed-IsSound, IsRead, show-IsRead, update_from_ok, update_from-IsRead,
  Claimed-IsRead,
}
use tarkka.Jobs.Service.{show, update_from, complete_from, checkpoint_from, fail_from, acquire}

-- One access of the store by a call that goes on: a claim, a read that gives a job, or a write of a
-- job that was read before, now or long ago. The lists are the jobs that were read so far. FAILED is
-- written only under some identifiers. A new job has an identifier that is not in use, as `uuid4`
-- draws it.
pub data Step (may_fail : ℕ → Type 0)
    : Store.Store → List ResearchJob → Store.Store → List ResearchJob → Type 0 where
  acquired :
      {store store' : Store.Store} {reads : List ResearchJob} (job : ResearchJob) (now : ℕ)
      (claim : JobClaim)
      → lookup job.job_id store ≡ none
      → acquire store job now ≡ ok (claim, store')
      → Step may_fail store reads store' reads
  read_job :
      {store : Store.Store} {reads : List ResearchJob} (job_id : ℕ) (job : ResearchJob)
      → show store job_id ≡ ok job
      → Step may_fail store reads store (job ∷ reads)
  completed_job :
      {store store' : Store.Store} {reads : List ResearchJob} (current : ResearchJob)
      (progress : JobCheckpoint) (now : ℕ) (made : ResearchJob)
      → In current reads
      → complete_from store current progress now ≡ ok (made, store')
      → Step may_fail store reads store' reads
  checkpointed :
      {store store' : Store.Store} {reads : List ResearchJob} (first current : ResearchJob)
      (progress : JobCheckpoint) (now : ℕ) (made : ResearchJob)
      → In first reads
      → In current reads
      → first.job_id ≡ current.job_id
      → (is_failed first.status ≡ false) ⊎ may_fail current.job_id
      → checkpoint_from store first current progress now ≡ ok (made, store')
      → Step may_fail store reads store' reads
  failed_job :
      {store store' : Store.Store} {reads : List ResearchJob} (current : ResearchJob)
      (progress : Option JobCheckpoint) (now : ℕ) (made : ResearchJob)
      → In current reads
      → may_fail current.job_id
      → fail_from store current progress now ≡ ok (made, store')
      → Step may_fail store reads store' reads

pub data Steps (may_fail : ℕ → Type 0)
    : Store.Store → List ResearchJob → Store.Store → List ResearchJob → Type 0 where
  here : (store : Store.Store) (reads : List ResearchJob) → Steps may_fail store reads store reads
  next :
      {s t u : Store.Store} {a b c : List ResearchJob}
      → Step may_fail s a t b
      → Steps may_fail t b u c
      → Steps may_fail s a u c

-- A sound store, and what the calls know of it.
pub record IsKnown (store : Store.Store) (reads : List ResearchJob) : Type 0 where
  pub sound : IsSound store
  pub each : All (IsRead store) reads

update_from-IsKnown :
    (store store' : Store.Store) (reads : List ResearchJob) (current : ResearchJob)
    (status : JobStatus) (progress : JobCheckpoint) (now : ℕ) (made : ResearchJob)
    → IsKnown store reads
    → In current reads
    → update_from store current status progress now ≡ ok (made, store')
    → IsKnown store' reads
update_from-IsKnown store store' reads current status progress now made h there call =
    let read = In-All _ current reads h.each there in
    let (e, sound) =
      update_from_ok store h.sound current read status progress now made store' call in
    record {
      sound = sound;
      each =
          subst (λ (s : Store.Store). All (IsRead s) reads) (sym e)
            (All-mono reads (update_from-IsRead store h.sound current read status progress now)
              h.each);
    }

module _ (may_fail : ℕ → Type 0) where
  pub Step-IsKnown :
      {store store' : Store.Store} {reads reads' : List ResearchJob}
      → Step may_fail store reads store' reads'
      → IsKnown store reads
      → IsKnown store' reads'
  unfolding complete_from checkpoint_from fail_from
  Step-IsKnown (acquired {store} {store'} {reads} job now claim fresh call) h =
      let (valid, claimed) = acquire-Claimed job now store h.sound claim store' call in
      record {
        sound = Claimed-IsSound job now store h.sound valid claimed;
        each = All-mono reads (λ r. Claimed-IsRead job now store h.sound r fresh claimed) h.each;
      }
  Step-IsKnown (read_job {store} {reads} job_id job call) h = record {
    sound = h.sound;
    each = (show-IsRead store job_id job h.sound call, h.each);
  }
  Step-IsKnown (completed_job {store} {store'} {reads} current progress now made there call) h =
      update_from-IsKnown store store' reads current completed progress now made h there call
  Step-IsKnown
        (checkpointed {store} {store'} {reads} first current progress now made early there same kept
          call)
        h =
      update_from-IsKnown store store' reads current first.status progress now made h there call
  Step-IsKnown (failed_job {store} {store'} {reads} current none now made there may call) h =
      update_from-IsKnown store store' reads current failed [] now made h there call
  Step-IsKnown (failed_job {store} {store'} {reads} current (some progress) now made there may call)
        h =
      update_from-IsKnown store store' reads current failed progress now made h there call

  pub Steps-IsKnown :
      {store store' : Store.Store} {reads reads' : List ResearchJob}
      → Steps may_fail store reads store' reads'
      → IsKnown store reads
      → IsKnown store' reads'
  Steps-IsKnown (here store reads) h = h
  Steps-IsKnown (next step more) h = Steps-IsKnown more (Step-IsKnown step h)

  -- From a sound store, the calls of the workers lead to sound stores, however their reads and writes
  -- interleave: every job stands under its identifier and passes the checks of the constructor, and no
  -- two jobs are for the same work.
  pub Steps-IsSound :
      {store store' : Store.Store} {reads : List ResearchJob}
      → Steps may_fail store [] store' reads
      → IsSound store
      → IsSound store'
  Steps-IsSound steps h = (Steps-IsKnown steps (record { sound = h; each = tt })).sound
