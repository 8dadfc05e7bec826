-- ===== src/Jobs/Store.antt =====
-- infrastructure/storage/json_job_store.py. A store is the dictionary of its file, in the order of
-- the keys, in which `json.dump(sort_keys=True)` writes them; each call holds the file's lock from
-- its read to its write. The disk is taken to work.
pub mod Order
pub mod Sound
pub mod Identity
use tarkka.Prelude.{
  ℕ, Bool, true, false, ◌&&◌, not, Option, none, some, List, [], ◌∷◌, ltb, nat_beq, nat_eq,
  if◌then◌else◌, all, option_beq, list_eq, list_beq, ◌==◌, Result, ok, err, Error, runtime_error,
  ◌>>=◌, is_blank, lookup,
}
use tarkka.Jobs.{
  JobKind, ingest, extract, index, compile, JobStatus, running, is_failed, ResearchJob, JobClaim,
}

abbrev pub Store : Type 0
Store = List (ℕ × ResearchJob)

-- jobs[key] = job, and the order of the keys in the file
unfoldable pub put_sorted : ℕ → ResearchJob → Store → Store
put_sorted key job [] = (key, job) ∷ []
put_sorted key job (item ∷ items) =
    let rest = put_sorted key job items in
    if nat_beq item.0 key
    then (key, job) ∷ items
    else if ltb item.0 key
    then item ∷ rest
    else (key, job) ∷ item ∷ items

-- _job_from_dict, of what _job_to_dict wrote: the constructor checks the job again, and its
-- ValueError becomes a RuntimeError.
abbrev pub job_from_dict : ResearchJob → Result ResearchJob
job_from_dict job =
    if not (is_blank job.input_digest) && not (is_blank job.configuration_fingerprint)
    then ok job
    else err (runtime_error "invalid job record")

abbrev pub same_kind : JobKind → JobKind → Bool
same_kind ingest ingest = true
same_kind extract extract = true
same_kind index index = true
same_kind compile compile = true
same_kind _ _ = false

abbrev pub identity_tests : ResearchJob → ResearchJob → List Bool
identity_tests left right =
    same_kind left.kind right.kind
    ∷ (left.input_digest == right.input_digest)
    ∷ (left.configuration_fingerprint == right.configuration_fingerprint)
    ∷ option_beq left.library_id right.library_id
    ∷ option_beq left.workspace_id right.workspace_id
    ∷ []

-- _same_identity
unfoldable pub same_identity : ResearchJob → ResearchJob → Bool
unfolding list_beq option_beq
same_identity left right = all (λ test. test) (identity_tests left right)

-- JsonJobStore.save
abbrev pub save : Store → ResearchJob → Store
save store job = put_sorted job.job_id job store

abbrev pub read_job : Option ResearchJob → Result (Option ResearchJob)
read_job none = ok none
read_job (some payload) = do job ← job_from_dict payload; ok (some job)

-- JsonJobStore.get
unfoldable pub get : Store → ℕ → Result (Option ResearchJob)
unfolding is_blank
get store job_id = read_job (lookup job_id store)

-- The failed job, taken up again.
abbrev pub retried : ResearchJob → ℕ → ResearchJob
retried existing now = record existing { status = running; updated_at = now }

module _ (job : ResearchJob) (now : ℕ) (store : Store) where
  abbrev pub claim_new : Result (JobClaim × Store)
  claim_new = ok (record { job = job; acquired = true }, put_sorted job.job_id job store)

  -- What a matching job is claimed as.
  abbrev pub claim_existing : ℕ → ResearchJob → Result (JobClaim × Store)
  claim_existing key existing =
      if is_failed existing.status
      then ok (
        record { job = retried existing now; acquired = true },
        put_sorted key (retried existing now) store,
      )
      else ok (record { job = existing; acquired = false }, store)

  -- The loop over the jobs.
  unfoldable pub acquire_from : Store → Result (JobClaim × Store)
  unfolding same_identity put_sorted
  acquire_from [] = claim_new
  acquire_from (item ∷ items) =
      let rest = acquire_from items in
      job_from_dict item.1 >>= λ existing.
      if same_identity existing job then claim_existing item.0 existing else rest

-- JsonJobStore.acquire; a retried job is checked by the constructor as it was when it was read
unfoldable pub acquire : Store → ResearchJob → ℕ → Result (JobClaim × Store)
unfolding acquire_from
acquire store job now = acquire_from job now store store
