-- ===== src/Jobs/Exclusive.antt =====
-- A claim is exclusive: until FAILED is written for the claimed job, no other claim for the same work
-- succeeds, whatever else the workers do.
use tarkka.Prelude.{
  ℕ, ◌≡◌, ◌≢◌, refl, ap, sym, ◌∙◌, true, false, none, some, List, [], nat_eq, lookup, In, In-All,
  Result, ok, ◌>>=◌,
}
use tarkka.Jobs.{ResearchJob, JobClaim, running, is_failed}
use tarkka.Jobs.Store
use tarkka.Jobs.Store.{put_sorted, retried}
use tarkka.Jobs.Store.Order.{lookup_of_In, In-of_lookup}
use tarkka.Jobs.Store.Identity.{SameWork, SameWork-sym, SameWork-trans}
use tarkka.Jobs.Store.Sound.{is_valid, IsSound, Claimed, created, resumed, refused, acquire_total}
use tarkka.Jobs.Updates.{acquire-Claimed, post_init_iff}
use tarkka.Jobs.Calls.{Steps, acquired, Step-IsKnown, Steps-IsKnown}
use tarkka.Jobs.Service.{acquire}
use tarkka.Jobs.Held.{IsHeld, IsHeld-here, Steps-IsHeld}

module _ (held : ResearchJob) where
  -- While the job is held, a claim for the same work is refused and changes nothing.
  held_refuses :
      (store : Store.Store) (job : ResearchJob) (now : ℕ)
      → IsHeld held store
      → is_valid job ≡ true
      → SameWork job held
      → (acquired_job : ResearchJob) × (acquire store job now
          ≡ ok (record { job = acquired_job; acquired = false }, store))
        × (acquired_job.job_id ≡ held.job_id)
  unfolding acquire
  held_refuses store job now h valid work =
      let (claim, store', e, claimed) = acquire_total job now store h.sound in
      refuse claim store' e claimed
    where
      entry : In (held.job_id, h.job) store
      entry = In-of_lookup held.job_id h.job store h.stored

      one :
          (existing : ResearchJob)
          → In (existing.job_id, existing) store
          → SameWork existing job
          → existing ≡ h.job
      one existing there same =
          let key : existing.job_id ≡ held.job_id =
            In-All _ (held.job_id, h.job) store
              (In-All _ (existing.job_id, existing) store h.sound.one_each there) entry
              (SameWork-trans existing job h.job same
                (SameWork-trans job held h.job work (SameWork-sym h.job held h.work))) in
          let found : some existing ≡ some h.job =
            sym (lookup_of_In existing.job_id existing store h.sound.ordered there)
            ∙ ap (λ (k : ℕ). lookup k store) key
            ∙ h.stored in
          cc

      service :
          {claim : JobClaim} {store' : Store.Store}
          → Store.acquire store job now ≡ ok (claim, store')
          → acquire store job now ≡ ok (claim, store')
      service call =
          ap (λ (m : Result ResearchJob). m >>= λ checked. Store.acquire store checked now)
            (post_init_iff job valid)
          ∙ call

      refuse :
          (claim : JobClaim) (store' : Store.Store)
          → Store.acquire store job now ≡ ok (claim, store')
          → Claimed job now store claim store'
          → (acquired_job : ResearchJob) × (acquire store job now
              ≡ ok (record { job = acquired_job; acquired = false }, store))
            × (acquired_job.job_id ≡ held.job_id)
      refuse _ _ e (created none_same) = absurd (
          In-All _ (held.job_id, h.job) store none_same entry
            (SameWork-trans h.job held job h.work (SameWork-sym job held work)))
      refuse _ _ e (resumed existing there same was_failed) =
          let clash : true ≡ false =
            sym was_failed
            ∙ ap (λ (j : ResearchJob). is_failed j.status) (one existing there same)
            ∙ h.not_failed in
          absurd (cc)
      refuse _ _ e (refused existing there same alive) = (
        existing,
        service e,
        In-All _ (held.job_id, h.job) store
            (In-All _ (existing.job_id, existing) store h.sound.one_each there) entry
            (SameWork-trans existing job h.job same
              (SameWork-trans job held h.job work (SameWork-sym h.job held h.work))),
      )

acquired-IsHeld :
    (store : Store.Store) (job : ResearchJob) (now : ℕ) {claim : JobClaim} {store' : Store.Store}
    → IsSound store'
    → job.status ≡ running
    → Claimed job now store claim store'
    → claim.acquired ≡ true
    → IsHeld claim.job store'
acquired-IsHeld store job now sound new (created none_same) took =
    IsHeld-here job store job.job_id job sound refl (refl, refl, refl, refl, refl)
      (ap is_failed new)
acquired-IsHeld store job now sound new (resumed existing there work was_failed) took =
    IsHeld-here (retried existing now) store existing.job_id (retried existing now) sound refl
      (refl, refl, refl, refl, refl) refl
acquired-IsHeld store job now sound new (refused existing there work alive) took = cc

-- From a sound store, once a claim of a running job with a new identifier is granted, and until some
-- call writes FAILED under that identifier, any claim of a valid job for the same work is refused,
-- names the granted job and leaves the store as it is, whatever the workers read and write before the
-- claim and in between. FAILED is written by `fail`, and by a `checkpoint` whose first read gave a
-- failed job, be it long before the claim.
pub acquire-IsExclusive :
    (start store store' store'' : Store.Store) (reads reads' : List ResearchJob)
    (job other : ResearchJob) (now later : ℕ) (claim : JobClaim)
    → IsSound start
    → Steps (λ id. Unit) start [] store reads
    → lookup job.job_id store ≡ none
    → job.status ≡ running
    → acquire store job now ≡ ok (claim, store')
    → claim.acquired ≡ true
    → Steps (λ id. id ≢ claim.job.job_id) store' reads store'' reads'
    → is_valid other ≡ true
    → SameWork other claim.job
    → (existing : ResearchJob) × (acquire store'' other later
        ≡ ok (record { job = existing; acquired = false }, store''))
      × (existing.job_id ≡ claim.job.job_id)
acquire-IsExclusive start store store' store'' reads reads' job other now later claim sound before
      fresh new call took steps valid work =
    let known = Steps-IsKnown (λ id. Unit) before (record { sound = sound; each = tt }) in
    let known' =
      Step-IsKnown (λ id. Unit) (acquired {reads = reads} job now claim fresh call) known in
    let (fine, claimed) = acquire-Claimed job now store known.sound claim store' call in
    held_refuses claim.job store'' other later
      (Steps-IsHeld claim.job steps known'.each
        (acquired-IsHeld store job now known'.sound new claimed took))
      valid work
