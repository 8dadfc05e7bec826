-- ===== src/Jobs/Store/Sound.antt =====
-- Sound stores: jobs stand under their identifiers, are what the constructor accepts, and no two of
-- them do the same work. What a claim and an assignment do to a sound store.
use tarkka.Prelude.{
  ℕ, ◌≡◌, refl, sym, subst, ◌∙◌, inl, inr, ◌⊎◌, Bool, true, false, ◌&&◌, not, [], ◌∷◌, nat_eq, All,
  In, In-All, All-of_In, ok, is_blank, arith, Bool-cases,
}
use tarkka.Jobs.{ResearchJob, JobClaim, is_failed}
use tarkka.Jobs.Store.{
  Store, put_sorted, same_identity, claim_new, claim_existing, acquire_from, acquire, retried,
}
use tarkka.Jobs.Store.Order.{All-put_sorted, IsOrdered, put_sorted-IsOrdered}
use tarkka.Jobs.Store.Identity.{SameWork, SameWork-sym, same_identity_iff}

abbrev pub is_valid : ResearchJob → Bool
is_valid job = not (is_blank job.input_digest) && not (is_blank job.configuration_fingerprint)

-- The entry stands under the identifier of its job, and passes the checks of the constructor.
abbrev pub IsEntry : ℕ × ResearchJob → Type 0
IsEntry item = (item.0 ≡ item.1.job_id) × (is_valid item.1 ≡ true)

-- Any entry for the same work stands under this key.
abbrev pub IsOnly : ℕ → ResearchJob → Store → Type 0
IsOnly key job store = All (λ (i : ℕ × ResearchJob). SameWork job i.1 → key ≡ i.0) store

pub record IsSound (store : Store) : Type 0 where
  pub ordered : IsOrdered store
  pub entries : All IsEntry store
  pub one_each : All (λ (i : ℕ × ResearchJob). IsOnly i.0 i.1 store) store

-- An assignment keeps a store sound if no other entry does the work.
pub put_sorted-IsSound :
    (key : ℕ) (job : ResearchJob) (store : Store)
    → IsSound store
    → IsEntry (key, job)
    → IsOnly key job store
    → IsSound (put_sorted key job store)
put_sorted-IsSound key job store h entry only = record {
  ordered = put_sorted-IsOrdered key job store h.ordered;
  entries = All-put_sorted IsEntry key job store entry h.entries;
  one_each =
      All-put_sorted (λ (i : ℕ × ResearchJob). IsOnly i.0 i.1 (put_sorted key job store)) key job
        store (All-put_sorted _ key job store (λ same. refl) only)
        (All-of_In _ store λ i there.
          All-put_sorted _ key job store
            (λ same. sym (In-All _ i store only there (SameWork-sym i.1 job same)))
            (In-All _ i store h.one_each there));
}

module _ (job : ResearchJob) (now : ℕ) where
  -- The claim finds the entry for the work, or there is none and it adds the job.
  pub acquire_from_cases :
      (store items : Store)
      → All IsEntry items
      → ((item : ℕ × ResearchJob) × In item items
          × SameWork item.1 job
          × (acquire_from job now store items ≡ claim_existing job now store item.0 item.1))
        ⊎ (All (λ (i : ℕ × ResearchJob). ¬ SameWork i.1 job) items
            × (acquire_from job now store items ≡ claim_new job now store))
  unfolding acquire_from
  acquire_from_cases store [] entries = inr (tt, refl)
  acquire_from_cases store (item ∷ items) entries = elim (Bool-cases (same_identity item.1 job)) [
    | inl same ↦
        inl (item, inl refl, (same_identity_iff item.1 job).0 same, rw (entries.0.1, same) refl)
    | inr other ↦
        let differs : ¬ SameWork item.1 job =
          λ work. ground (arith, (same_identity_iff item.1 job).1 work) in
        elim (acquire_from_cases store items entries.1) [
          | inl (found, there, work, e) ↦ inl (found, inr there, work, rw (entries.0.1, other) e)
          | inr (none_same, e) ↦ inr ((differs, none_same), rw (entries.0.1, other) e)
        ]
  ]

  -- What a claim in a sound store returns.
  pub data Claimed (store : Store) : JobClaim → Store → Type 0 where
    created :
        All (λ (i : ℕ × ResearchJob). ¬ SameWork i.1 job) store
        → Claimed store (record { job = job; acquired = true }) (put_sorted job.job_id job store)
    resumed :
        (existing : ResearchJob)
        → In (existing.job_id, existing) store
        → SameWork existing job
        → is_failed existing.status ≡ true
        → Claimed store
            (record { job = retried existing now; acquired = true })
            (put_sorted existing.job_id (retried existing now) store)
    refused :
        (existing : ResearchJob)
        → In (existing.job_id, existing) store
        → SameWork existing job
        → is_failed existing.status ≡ false
        → Claimed store (record { job = existing; acquired = false }) store

  pub acquire_total :
      (store : Store)
      → IsSound store
      → (claim : JobClaim) × (store' : Store) × (acquire store job now ≡ ok (claim, store'))
        × Claimed store claim store'
  unfolding acquire
  acquire_total store h = elim (acquire_from_cases store store h.entries) [
    | inr (none_same, e) ↦ (_, _, e, created none_same)
    | inl ((key, existing), there, work, e) ↦
        let named = (In-All _ (key, existing) store h.entries there).0 in
        let there' = subst (λ (k : ℕ). In (k, existing) store) named there in
        let e' =
          subst
            (λ (k : ℕ). acquire_from job now store store ≡ claim_existing job now store k existing)
            named e in
        elim (Bool-cases (is_failed existing.status)) [
          | inl failed_before ↦
              (_, _, e' ∙ rw failed_before refl, resumed existing there' work failed_before)
          | inr held ↦ (_, _, e' ∙ rw held refl, refused existing there' work held)
        ]
  ]
