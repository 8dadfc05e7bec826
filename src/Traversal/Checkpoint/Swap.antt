-- ===== src/Traversal/Checkpoint/Swap.antt =====
-- Replacing the target with a given ID: what it does to lookups and to sums over the frontier.
use tarkka.Prelude.{
  ℕ, ◌+◌, ◌≡◌, ◌≢◌, refl, true, false, Option, some, List, [], ◌∷◌, map, arith, Bool-cases, inl,
  inr, nat_beq, nat_beq_iff, find, sum, contains, NoDup, nat_eq,
}
use tarkka.Traversal.Target.{TraversalTarget}
use tarkka.Traversal.Checkpoint.{target_ids, swap_in}

abbrev pub find_id : ℕ → List TraversalTarget → Option TraversalTarget
find_id id ts = find (λ t. nat_beq t.target_id id) ts

pub find_id-eq :
    (id : ℕ) (ts : List TraversalTarget) (t : TraversalTarget)
    → find_id id ts ≡ some t
    → t.target_id ≡ id
find_id-eq id [] t h = ground arith
find_id-eq id (x ∷ xs) t h = ground (arith, find_id-eq id xs t)

pub find_id-contains :
    (id : ℕ) (ts : List TraversalTarget) (t : TraversalTarget)
    → find_id id ts ≡ some t
    → contains id (target_ids ts) ≡ true
find_id-contains id [] t h = ground arith
find_id-contains id (x ∷ xs) t h = ground (arith, find_id-contains id xs t)

module _ (u : TraversalTarget) where
  pub target_ids-swap_in :
      (ts : List TraversalTarget) → target_ids (map (swap_in u) ts) ≡ target_ids ts
  unfolding swap_in
  target_ids-swap_in [] = refl
  target_ids-swap_in (x ∷ xs) = ground (arith, target_ids-swap_in xs)

  pub swap_in-absent :
      (ts : List TraversalTarget)
      → contains u.target_id (target_ids ts) ≡ false
      → map (swap_in u) ts ≡ ts
  unfolding swap_in
  swap_in-absent [] h = refl
  swap_in-absent (x ∷ xs) h = ground (arith, swap_in-absent xs)

  pub swap_in_self :
      (ts : List TraversalTarget)
      → find_id u.target_id ts ≡ some u
      → NoDup (target_ids ts)
      → map (swap_in u) ts ≡ ts
  unfolding swap_in
  swap_in_self [] h d = refl
  swap_in_self (x ∷ xs) h d = elim (Bool-cases (nat_beq x.target_id u.target_id)) [
    | inl here ↦ ground (arith, swap_in-absent xs, nat_beq_iff x.target_id u.target_id)
    | inr later ↦ ground (arith, swap_in_self xs)
  ]

  -- The sum of a counter over the frontier changes by what changes in the replaced target.
  pub sum-swap_in :
      (f : TraversalTarget → ℕ) (ts : List TraversalTarget) (t : TraversalTarget)
      → find_id u.target_id ts ≡ some t
      → NoDup (target_ids ts)
      → sum f (map (swap_in u) ts) + f t ≡ sum f ts + f u
  unfolding swap_in
  sum-swap_in f [] t h d = ground arith
  sum-swap_in f (x ∷ xs) t h d = elim (Bool-cases (nat_beq x.target_id u.target_id)) [
    | inl here ↦ ground (arith, swap_in-absent xs, nat_beq_iff x.target_id u.target_id)
    | inr later ↦ ground (arith, sum-swap_in f xs t)
  ]

  pub find_id-swap_in_self :
      (ts : List TraversalTarget) (t : TraversalTarget)
      → find_id u.target_id ts ≡ some t
      → find_id u.target_id (map (swap_in u) ts) ≡ some u
  unfolding swap_in
  find_id-swap_in_self [] t h = ground arith
  find_id-swap_in_self (x ∷ xs) t h = ground (arith, find_id-swap_in_self xs t)

  pub find_id-swap_in_ne :
      (id : ℕ) (ts : List TraversalTarget)
      → id ≢ u.target_id
      → find_id id (map (swap_in u) ts) ≡ find_id id ts
  unfolding swap_in
  find_id-swap_in_ne id [] h = refl
  find_id-swap_in_ne id (x ∷ xs) h = ground (arith, find_id-swap_in_ne id xs)
