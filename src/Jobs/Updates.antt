-- ===== src/Jobs/Updates.antt =====
-- The calls of the job service as assignments to a sound store.
use tarkka.Prelude.{
  Option, none, nat_beq, nat_beq_iff, Bool-cases, ap, ℕ, ◌≡◌, refl, sym, subst, ◌∙◌, inl, inr, true,
  some, nat_eq, lookup, All-mono, In-All, ok, ◌>>=◌, on_ok, arith, Option-cases,
}
use tarkka.Jobs.{ResearchJob, JobClaim, JobStatus, JobCheckpoint, post_init}
use tarkka.Jobs.Store.{put_sorted, job_from_dict, get, read_job, save, retried}
use tarkka.Jobs.Store
use tarkka.Jobs.Store.Order.{In-of_lookup, lookup_of_In, lookup-put_sorted}
use tarkka.Jobs.Store.Identity.{SameWork, SameWork-sym, SameWork-trans}
use tarkka.Jobs.Store.Sound.{
  is_valid, IsSound, put_sorted-IsSound, Claimed, created, resumed, refused, acquire_total,
}
use tarkka.Jobs.Service.{found, show, update_from, acquire}

pub post_init_iff : (job : ResearchJob) → (is_valid job ≡ true) → post_init job ≡ ok job
unfolding post_init
post_init_iff job h = ground arith

pub post_init-eq_ok :
    (job made : ResearchJob) → post_init job ≡ ok made → (is_valid job ≡ true) × (made ≡ job)
unfolding post_init
post_init-eq_ok job made h = ground arith

-- The job after an update.
abbrev pub updated : ResearchJob → JobStatus → JobCheckpoint → ℕ → ResearchJob
updated job status progress now = record job {
  status = status;
  checkpoint = progress;
  updated_at = now;
}

module _ (store : Store.Store) (sound : IsSound store) (job_id : ℕ) where
  pub show_found : (job : ResearchJob) → show store job_id ≡ ok job → lookup job_id store ≡ some job
  unfolding show get
  show_found job h = elim (Option-cases (lookup job_id store)) [
    | inl missing ↦ absurd (ground (arith, rw (missing, show) at h))
    | inr (k, there) ↦
        let e : (job_from_dict k >>= λ j. ok (some j)) >>= found ≡ ok job = rw there at h in
        let stored = In-All _ (job_id, k) store sound.entries (In-of_lookup job_id k store there) in
        there ∙ ground (arith, stored.1)
  ]

-- A job that was read earlier: the store has a job for the same work under its identifier.
abbrev pub IsRead : Store.Store → ResearchJob → Type 0
IsRead store read = (job : ResearchJob) × (lookup read.job_id store ≡ some job) × SameWork job read

-- What is read now is read.
pub show-IsRead :
    (store : Store.Store) (job_id : ℕ) (job : ResearchJob)
    → IsSound store
    → show store job_id ≡ ok job
    → IsRead store job
show-IsRead store job_id job sound h =
    let there = show_found store sound job_id job h in
    let named =
      (In-All _ (job_id, job) store sound.entries (In-of_lookup job_id job store there)).0 in
    (job, ap (λ (k : ℕ). lookup k store) (sym named) ∙ there, (refl, refl, refl, refl, refl))

-- An assignment keeps what was read if it puts a job for the same work in the place of another.
pub put_sorted-IsRead :
    (store : Store.Store) (key : ℕ) (new read : ResearchJob)
    → ((old : ResearchJob) → lookup key store ≡ some old → SameWork new old)
    → IsRead store read
    → IsRead (put_sorted key new store) read
put_sorted-IsRead store key new read same (job, there, work) =
    elim (Bool-cases (nat_beq key read.job_id)) [
      | inl here ↦
          let at_key : lookup key store ≡ some job =
            ap (λ (k : ℕ). lookup k store) ((nat_beq_iff key read.job_id).0 here) ∙ there in
          (
            new,
            lookup-put_sorted read.job_id key new store ∙ rw here refl,
            SameWork-trans new job read (same job at_key) work,
          )
      | inr other ↦ (job, lookup-put_sorted read.job_id key new store ∙ rw other there, work)
    ]

module _ (store : Store.Store) (sound : IsSound store) (current : ResearchJob)
    (read : IsRead store current) where
  -- A write that returns has assigned the updated job, and the store stays sound.
  pub update_from_ok :
      (status : JobStatus) (progress : JobCheckpoint) (now : ℕ) (made : ResearchJob)
      (store' : Store.Store)
      → update_from store current status progress now ≡ ok (made, store')
      → (store' ≡ put_sorted current.job_id (updated current status progress now) store)
        × IsSound store'
  unfolding update_from
  update_from_ok status progress now made store' h =
      on_ok (post_init (updated current status progress now)) _ h λ checked valid last.
        let (job, there, work) = read in
        let stored = In-of_lookup current.job_id job store there in
        let (fine, same) = post_init-eq_ok (updated current status progress now) checked valid in
        let only = In-All _ (current.job_id, job) store sound.one_each stored in
        let e : store' ≡ put_sorted current.job_id (updated current status progress now) store =
          ground (arith, last, same) in
        (
          e,
          subst IsSound (sym e) (
              put_sorted-IsSound current.job_id (updated current status progress now) store sound
                (refl, fine)
                (All-mono store
                  (λ i only_one alike. only_one (SameWork-trans job current i.1 work alike)) only)),
        )

  -- A write keeps what was read.
  pub update_from-IsRead :
      (status : JobStatus) (progress : JobCheckpoint) (now : ℕ) (other : ResearchJob)
      → IsRead store other
      → IsRead (put_sorted current.job_id (updated current status progress now) store) other
  update_from-IsRead status progress now other =
      put_sorted-IsRead store current.job_id (updated current status progress now) other
        λ old found.
          let (job, there, work) = read in
          let e : some job ≡ some old = sym there ∙ found in
          let same : job ≡ old = cc in
          subst (λ (j : ResearchJob). SameWork current j) same (SameWork-sym job current work)

module _ (job : ResearchJob) (now : ℕ) (store : Store.Store) (sound : IsSound store) where
  -- A claim that returns is one of a checked job, as the store made it.
  pub acquire-Claimed :
      (claim : JobClaim) (store' : Store.Store)
      → acquire store job now ≡ ok (claim, store')
      → (is_valid job ≡ true) × Claimed job now store claim store'
  unfolding acquire
  acquire-Claimed claim store' h = on_ok (post_init job) _ h λ checked made call.
      let (fine, same) = post_init-eq_ok job checked made in
      let (c, s, e, claimed) = acquire_total job now store sound in
      let call' : Store.acquire store job now ≡ ok (claim, store') =
        subst (λ (j : ResearchJob). Store.acquire store j now ≡ ok (claim, store')) same call in
      let both : ok (c, s) ≡ ok (claim, store') = sym e ∙ call' in
      let first : c ≡ claim = cc in
      let second : s ≡ store' = cc in
      (
        fine,
        subst (λ (t : Store.Store). Claimed job now store claim t) second
            (subst (λ (d : JobClaim). Claimed job now store d s) first claimed),
      )

  pub Claimed-IsSound :
      {claim : JobClaim} {store' : Store.Store}
      → is_valid job ≡ true
      → Claimed job now store claim store'
      → IsSound store'
  Claimed-IsSound valid (created none_same) =
      put_sorted-IsSound job.job_id job store sound (refl, valid)
        (All-mono store (λ i differs same. absurd (differs (SameWork-sym job i.1 same))) none_same)
  Claimed-IsSound valid (resumed existing there work was_failed) =
      put_sorted-IsSound existing.job_id (retried existing now) store sound
        (refl, (In-All _ (existing.job_id, existing) store sound.entries there).1)
        (In-All _ (existing.job_id, existing) store sound.one_each there)
  Claimed-IsSound valid (refused existing there work held) = sound

  -- A claim of a job with a new identifier keeps what was read.
  pub Claimed-IsRead :
      {claim : JobClaim} {store' : Store.Store} (read : ResearchJob)
      → lookup job.job_id store ≡ none
      → Claimed job now store claim store'
      → IsRead store read
      → IsRead store' read
  Claimed-IsRead read fresh (created none_same) =
      put_sorted-IsRead store job.job_id job read λ old found.
        let clash : ◌≡◌ {A = Option ResearchJob} none (some old) = sym fresh ∙ found in cc
  Claimed-IsRead read fresh (resumed existing there work was_failed) =
      put_sorted-IsRead store existing.job_id (retried existing now) read λ old found.
        let e : some existing ≡ some old =
          sym (lookup_of_In existing.job_id existing store sound.ordered there) ∙ found in
        let same : existing ≡ old = cc in
        subst (λ (j : ResearchJob). SameWork existing j) same (refl, refl, refl, refl, refl)
  Claimed-IsRead read fresh (refused existing there work held) = λ r. r
