-- ===== src/Jobs/Store/Order.antt =====
-- The dictionary of the job store: lookups after an assignment, and the order of its keys.
use tarkka.Prelude.{
  ℕ, ◌<◌, ◌≡◌, refl, inl, inr, some, [], ◌∷◌, ltb, ltb→lt, nat_beq, nat_beq_iff, nat_eq,
  if◌then◌else◌, lookup, All, All-mono, In, arith, Bool-cases,
}
use tarkka.Jobs.{ResearchJob}
use tarkka.Jobs.Store.{Store, put_sorted}

pub lookup-put_sorted :
    (k key : ℕ) (job : ResearchJob) (store : Store)
    → lookup k (put_sorted key job store) ≡ (if nat_beq key k then some job else lookup k store)
unfolding put_sorted
lookup-put_sorted k key job [] = refl
lookup-put_sorted k key job (item ∷ items) = ground (
  arith,
  lookup-put_sorted k key job items,
  nat_beq_iff item.0 key,
  nat_beq_iff item.0 k,
  nat_beq_iff key k,
)

pub All-put_sorted {κ} :
    (P : ℕ × ResearchJob → Type κ) (key : ℕ) (job : ResearchJob) (store : Store)
    → P (key, job)
    → All P store
    → All P (put_sorted key job store)
unfolding put_sorted
All-put_sorted P key job [] p a = (p, tt)
All-put_sorted P key job (item ∷ items) p a = elim (Bool-cases (nat_beq item.0 key)) [
  | inl here ↦ rw here (p, a.1)
  | inr other ↦ elim (Bool-cases (ltb item.0 key)) [
    | inl before ↦ rw (other, before) (a.0, All-put_sorted P key job items p a.1)
    | inr after ↦ rw (other, after) (p, (a.0, a.1))
  ]
]

-- Strictly ascending keys.
abbrev pub IsOrdered : Store → Type 0
IsOrdered [] = Unit
IsOrdered (item ∷ items) = All (λ (i : ℕ × ResearchJob). item.0 < i.0) items × IsOrdered items

pub put_sorted-IsOrdered :
    (key : ℕ) (job : ResearchJob) (store : Store)
    → IsOrdered store
    → IsOrdered (put_sorted key job store)
unfolding put_sorted
put_sorted-IsOrdered key job [] h = (tt, tt)
put_sorted-IsOrdered key job (item ∷ items) h = elim (Bool-cases (nat_beq item.0 key)) [
  | inl here ↦
      let same = (nat_beq_iff item.0 key).0 here in
      rw here (All-mono items (λ i lt. omega arith) h.0, h.1)
  | inr other ↦ elim (Bool-cases (ltb item.0 key)) [
    | inl before ↦
        rw (other, before)
          (
            All-put_sorted (λ (i : ℕ × ResearchJob). item.0 < i.0) key job items
                (ltb→lt item.0 key before) h.0,
            put_sorted-IsOrdered key job items h.1,
          )
    | inr after ↦
        let lt : key < item.0 = ground (arith, nat_beq_iff item.0 key) in
        rw (other, after) ((lt, All-mono items (λ i more. omega arith) h.0), h)
  ]
]

pub lookup_of_In :
    (key : ℕ) (job : ResearchJob) (store : Store)
    → IsOrdered store
    → In (key, job) store
    → lookup key store ≡ some job
lookup_of_In key job [] h m = absurd m
lookup_of_In key job (item ∷ items) h (inl e) = ground (arith, e, nat_beq_iff item.0 key)
lookup_of_In key job (item ∷ items) h (inr m) =
    let later = above items h.0 m in
    ground (arith, lookup_of_In key job items h.1 m, nat_beq_iff item.0 key)
  where
    above :
        (rest : Store)
        → All (λ (i : ℕ × ResearchJob). item.0 < i.0) rest
        → In (key, job) rest
        → item.0 < key
    above [] a m = absurd m
    above (i ∷ rest) a (inl e) = ground (arith, e, a.0)
    above (i ∷ rest) a (inr m) = above rest a.1 m

pub In-of_lookup :
    (key : ℕ) (job : ResearchJob) (store : Store)
    → lookup key store ≡ some job
    → In (key, job) store
In-of_lookup key job [] h = absurd (ground (arith, h))
In-of_lookup key job (item ∷ items) h = elim (Bool-cases (nat_beq item.0 key)) [
  | inl here ↦
      let same = (nat_beq_iff item.0 key).0 here in
      let e : some item.1 ≡ some job = rw here at h in inl (ground (arith, same, e))
  | inr later ↦ inr (In-of_lookup key job items (rw later at h))
]
