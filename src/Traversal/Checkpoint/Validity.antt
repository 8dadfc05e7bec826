-- ===== src/Traversal/Checkpoint/Validity.antt =====
-- What the constructor of a checkpoint accepts, and what replacing a target does to the frontier.
use tarkka.Prelude.{
  ℕ, ◌≡◌, ap, ◌∙◌, ◌↔◌, Bool, true, Option, some, List, [], ◌∷◌, map, arith, all, All, ok, contains,
  NoDup, all_distinct_iff, nat_eq, list_eq,
}
use tarkka.Traversal.Target.{TraversalTarget}
use tarkka.Traversal.Checkpoint.{
  TraversalCheckpoint, target_ids, known_parents, post_init, target, require_target, swap_in,
  replace_target, or_missing,
}

-- The parents of a target are among the given IDs.
abbrev pub ParentsAmong : List ℕ → TraversalTarget → Type 0
ParentsAmong ids t = All (λ parent. contains parent ids ≡ true) t.parent_target_ids

pub record IsWellFormed (c : TraversalCheckpoint) : Type 0 where
  pub ids_once : NoDup (target_ids c.targets)
  pub uris_once : NoDup (map (λ t. t.uri) c.targets)
  pub parents_exist : All (ParentsAmong (target_ids c.targets)) c.targets

all_iff {ℓ} :
    {A : Type ℓ} (p : A → Bool) (xs : List A) → (all p xs ≡ true) ↔ All (λ x. p x ≡ true) xs
all_iff p [] = ground arith
all_iff p (x ∷ xs) = ground (arith, all_iff p xs)

parents_iff :
    (ids : List ℕ) (ts : List TraversalTarget)
    → (all (known_parents ids) ts ≡ true) ↔ All (ParentsAmong ids) ts
parents_iff ids [] = ground arith
parents_iff ids (t ∷ ts) =
    ground (arith, parents_iff ids ts, all_iff (λ parent. contains parent ids) t.parent_target_ids)

-- The constructor only checks.
pub post_init-eq : (c c' : TraversalCheckpoint) → post_init c ≡ ok c' → c' ≡ c
unfolding post_init
post_init-eq c c' h = ground arith

post_init-IsWellFormed : (c : TraversalCheckpoint) → post_init c ≡ ok c → IsWellFormed c
unfolding post_init
post_init-IsWellFormed c h = record {
  ids_once = (all_distinct_iff (target_ids c.targets)).0 (ground arith);
  uris_once = (all_distinct_iff (map (λ t. t.uri) c.targets)).0 (ground arith);
  parents_exist = (parents_iff (target_ids c.targets) c.targets).0 (ground arith);
}

pub post_init_of_IsWellFormed : (c : TraversalCheckpoint) → IsWellFormed c → post_init c ≡ ok c
unfolding post_init
post_init_of_IsWellFormed c v =
    let ids = (all_distinct_iff (target_ids c.targets)).1 v.ids_once in
    let uris = (all_distinct_iff (map (λ t. t.uri) c.targets)).1 v.uris_once in
    let parents = (parents_iff (target_ids c.targets) c.targets).1 v.parents_exist in
    rw (ids, uris, parents)

-- A checkpoint is accepted exactly when its target IDs and URIs are unique and its parents exist.
pub post_init-IsWellFormed_iff : (c : TraversalCheckpoint) → (post_init c ≡ ok c) ↔ IsWellFormed c
post_init-IsWellFormed_iff c = (post_init-IsWellFormed c, post_init_of_IsWellFormed c)

pub IsWellFormed-of_ok : (c c' : TraversalCheckpoint) → post_init c ≡ ok c' → IsWellFormed c'
IsWellFormed-of_ok c c' h =
    let e = post_init-eq c c' h in rw e (post_init-IsWellFormed c (h ∙ ap ok e))

pub require_target-eq :
    (c : TraversalCheckpoint) (id : ℕ) (t : TraversalTarget)
    → require_target c id ≡ ok t
    → target c id ≡ some t
unfolding require_target
require_target-eq c id t h = go (target c id) h
  where
    go : (o : Option TraversalTarget) → or_missing o ≡ ok t → o ≡ some t
    go o e = ground arith

pub replace_target-eq :
    (c : TraversalCheckpoint) (updated : TraversalTarget) (c' : TraversalCheckpoint)
    → replace_target c updated ≡ ok c'
    → c' ≡ record c { targets = map (swap_in updated) c.targets }
unfolding replace_target
replace_target-eq c updated c' h = post_init-eq _ c' h

pub replace_target-IsWellFormed :
    (c : TraversalCheckpoint) (updated : TraversalTarget) (c' : TraversalCheckpoint)
    → replace_target c updated ≡ ok c'
    → IsWellFormed c'
unfolding replace_target
replace_target-IsWellFormed c updated c' h = IsWellFormed-of_ok _ c' h
