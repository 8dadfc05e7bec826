-- ===== src/Jobs/Service.antt =====
-- JobService of application/scale.py over the store of json_job_store.py. A call takes the identifier
-- and the times that it draws.
use tarkka.Prelude.{
  ℕ, ◌&&◌, not, Option, none, some, [], if◌then◌else◌, Result, ok, err, runtime_error, lookup_error,
  ◌>>=◌, Text,
}
use tarkka.Jobs.{
  JobKind, JobStatus, running, completed, failed, is_running, JobCheckpoint, ResearchJob, post_init,
  JobClaim,
}
use tarkka.Jobs.Store
use tarkka.Jobs.Store.{save, get}

-- ResearchJob(job_id=new_id(), ...), before its checks
abbrev pub new_job : JobKind → Text → Text → Option ℕ → Option ℕ → ℕ → ℕ → ResearchJob
new_job kind input_digest fingerprint library_id workspace_id job_id now = record {
  job_id = job_id;
  kind = kind;
  input_digest = input_digest;
  configuration_fingerprint = fingerprint;
  library_id = library_id;
  workspace_id = workspace_id;
  checkpoint = [];
  status = running;
  created_at = now;
  updated_at = now;
}

-- JobService.acquire, of a job as `new_job` builds it
unfoldable pub acquire : Store.Store → ResearchJob → ℕ → Result (JobClaim × Store.Store)
unfolding post_init Store.acquire
acquire store job now = do checked ← post_init job; Store.acquire store checked now

-- JobService.start; JobInProgressError is a RuntimeError
unfoldable pub start : Store.Store → ResearchJob → ℕ → Result (ResearchJob × Store.Store)
unfolding acquire
start store job now = acquire store job now >>= λ (claim, store').
    if not claim.acquired && is_running claim.job.status
    then err (runtime_error "research job already in progress")
    else ok (claim.job, store')

abbrev pub found : Option ResearchJob → Result ResearchJob
found none = err (lookup_error "job not found")
found (some job) = ok job

module _ (store : Store.Store) (job_id : ℕ) where
  -- JobService.show
  unfoldable pub show : Result ResearchJob
  unfolding get
  show = do job ← get store job_id; found job

-- The rest of JobService._update, after the call of `show` that gave `current`; between the two other
-- workers have the store. `replace` checks the job again.
unfoldable pub update_from :
    Store.Store → ResearchJob → JobStatus → JobCheckpoint → ℕ → Result (ResearchJob × Store.Store)
unfolding post_init
update_from store current status progress now = do
  updated ← post_init (record current { status = status; checkpoint = progress; updated_at = now })
  ok (updated, save store updated)

-- JobService.complete, checkpoint and fail, after their calls of `show`. `checkpoint` calls it twice:
-- the status is that of the first answer, and the rest of the job that of the second.
unfoldable pub complete_from :
    Store.Store → ResearchJob → JobCheckpoint → ℕ → Result (ResearchJob × Store.Store)
unfolding update_from
complete_from store current progress now = update_from store current completed progress now

unfoldable pub checkpoint_from :
    Store.Store → ResearchJob → ResearchJob → JobCheckpoint → ℕ → Result (ResearchJob × Store.Store)
unfolding update_from
checkpoint_from store first current progress now =
    update_from store current first.status progress now

unfoldable pub fail_from :
    Store.Store → ResearchJob → Option JobCheckpoint → ℕ → Result (ResearchJob × Store.Store)
unfolding update_from
fail_from store current none now = update_from store current failed [] now
fail_from store current (some progress) now = update_from store current failed progress now
