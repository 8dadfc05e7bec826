-- ===== src/Citations/Traversal/Exhaustive.antt =====
-- A traversal that no limit on works or relations stopped has found all that can be reached.
use tarkka.Prelude.{
  ℕ, suc, ◌≤◌, ◌≡◌, refl, inl, inr, ◌↔◌, true, false, Option, none, some, List, [], ◌∷◌, leb,
  contains, nat_eq, arith, All, All-mono, All-sorted_iff, In, In-All, In-of_contains, All-of_In,
  All-In, sorted,
}
use tarkka.Citations.Relations.{Relations, relations_of}
use tarkka.Citations.Traversal.{
  CitationTraversalPolicy, CitationTraversalResult, TraversalLimit, depth, works, relations, Walk,
  seen_relations, has_unseen_relation, result, start, traverse,
}
use tarkka.Citations.Relations.{IsKeyed}
use tarkka.Citations.Traversal.Selection.{LeadsFrom}
use tarkka.Citations.Traversal.Steps.{Steps}
use tarkka.Citations.Traversal.Rounds.{IsComplete}
use tarkka.Citations.Traversal.Frontiers.{IsComplete-Steps}
use tarkka.Citations.Traversal.Progress.{exhausted}
use tarkka.Citations.Traversal.Depths.{reset, IsKept, traverse_rule}
use tarkka.Citations.Traversal.Reached.{IsLinked, Steps-IsInRound, round-IsLayered, start-IsLayered}
use tarkka.Citations.Traversal.Reachability.{root, link}
use tarkka.Citations.Traversal.Reachability.{Reaches, ReachedIn}
use tarkka.Citations.Traversal.Swept.{IsSwept, link_visited, seen_In, Old, Old-Steps}

-- What the result has found, by what stopped the traversal.
abbrev pub HasFound :
    Relations → CitationTraversalPolicy → CitationTraversalResult → Option TraversalLimit → Type 0
HasFound bucket policy r none =
    ((v : ℕ)
      → (contains v r.work_ids ≡ true) ↔ ((n : ℕ) × Reaches bucket policy r.root_work_id n v))
    × ((v : ℕ)
        → contains v r.work_ids ≡ true
        → All (λ q. LeadsFrom policy v q → In q r.relations) (relations_of bucket))
HasFound bucket policy r (some depth) =
    (v : ℕ)
    → (contains v r.work_ids ≡ true) ↔ ReachedIn bucket policy r.root_work_id policy.max_depth v
HasFound bucket policy r (some works) = Unit
HasFound bucket policy r (some relations) = Unit

module _ (bucket : Relations) (policy : CitationTraversalPolicy) (keyed : IsKeyed bucket)
    (root_work_id : ℕ) where
  abbrev IsSwept' : ℕ → List ℕ → Walk → Type 0
  IsSwept' = IsSwept bucket policy keyed root_work_id

  -- After a round, the works visited before it are exhausted.
  before_exhausted :
      (d : ℕ) (frontier : List ℕ) (w u : Walk)
      → IsSwept' d frontier w
      → Steps bucket policy (sorted leb frontier) (reset w) u
      → All (λ v. IsComplete bucket policy v u) (sorted leb frontier)
      → All (λ v. IsComplete bucket policy v u) w.ordered_works
  before_exhausted d frontier w u swept steps done =
      All-mono w.ordered_works
        (λ v way. elim way [
          | inl a ↦ In-All _ v frontier ((All-sorted_iff leb _ frontier).0 done) a
          | inr a ↦ IsComplete-Steps bucket policy (sorted leb frontier) v steps a
        ])
        swept.open_works

  round-all_near :
      (d : ℕ) (frontier : List ℕ) (w u : Walk)
      → IsSwept' d frontier w
      → IsLinked bucket policy root_work_id (suc d) u
      → All (λ v. IsComplete bucket policy v u) w.ordered_works
      → (n v : ℕ) → n ≤ suc d
      → Reaches bucket policy root_work_id n v
      → contains v u.ordered_works ≡ true
  round-all_near d frontier w u swept linked done _ _ le root = linked.rooted
  round-all_near d frontier w u swept linked done _ _ le
        (link {d = m} {u = x} r v reaches stored links) =
      let visited = swept.all_near m x (omega arith) reaches in
      let complete = In-All _ x w.ordered_works done (In-of_contains x w.ordered_works visited) in
      link_visited bucket policy keyed root_work_id (suc d) u r x v linked complete stored links

  round-IsSwept :
      (d : ℕ) (frontier : List ℕ) (w u : Walk)
      → IsSwept' d frontier w
      → Steps bucket policy (sorted leb frontier) (reset w) u
      → All (λ v. IsComplete bucket policy v u) (sorted leb frontier)
      → IsSwept' (suc d) (sorted leb u.next_frontier) u
  round-IsSwept d frontier w u swept steps done =
      let done' = before_exhausted d frontier w u swept steps done in
      let old : Old bucket policy keyed root_work_id w.ordered_works (reset w) =
        All-mono w.ordered_works (λ v a. inl a) (All-In w.ordered_works) in
      let linked =
        (Steps-IsInRound bucket policy root_work_id d frontier w swept.layered steps).0 in
      record {
        layered = round-IsLayered bucket policy root_work_id d frontier w swept.layered steps;
        open_works =
            All-mono u.ordered_works
              (λ v way. elim way [
                | inl a ↦ inr (In-All _ v w.ordered_works done' a)
                | inr a ↦ inl (
                    In-All _ v u.next_frontier
                      ((All-sorted_iff leb _ u.next_frontier).0
                        (All-In (sorted leb u.next_frontier)))
                      (In-of_contains v u.next_frontier a))
              ])
              (Old-Steps bucket policy keyed root_work_id w.ordered_works (sorted leb frontier)
                steps old);
        all_near = round-all_near d frontier w u swept linked done';
      }

  -- Where every visited work is exhausted, walks of any length stay among the visited works.
  closed :
      (d : ℕ) (w : Walk)
      → IsLinked bucket policy root_work_id d w
      → All (λ v. IsComplete bucket policy v w) w.ordered_works
      → (n v : ℕ) → Reaches bucket policy root_work_id n v
      → contains v w.ordered_works ≡ true
  closed d w linked done _ _ root = linked.rooted
  closed d w linked done _ _ (link {d = m} {u = x} r v reaches stored links) =
      let visited = closed d w linked done m x reaches in
      let complete = In-All _ x w.ordered_works done (In-of_contains x w.ordered_works visited) in
      link_visited bucket policy keyed root_work_id d w r x v linked complete stored links

  start-IsSwept : IsSwept' 0 (root_work_id ∷ []) (start bucket policy root_work_id)
  start-IsSwept =
      let layered = start-IsLayered bucket policy root_work_id in
      record { layered = layered; open_works = (inl (inl refl), tt); all_near = near layered.0 }
    where
      near :
          IsLinked bucket policy root_work_id 0 (start bucket policy root_work_id)
          → (n v : ℕ) → n ≤ 0
          → Reaches bucket policy root_work_id n v
          → contains v (root_work_id ∷ []) ≡ true
      near linked _ _ le root = linked.rooted
      near linked _ _ le (link r v reaches stored links) = absurd (omega arith)

  ended-HasFound :
      (d : ℕ) (frontier : List ℕ) (w : Walk)
      → IsSwept' d frontier w
      → has_unseen_relation bucket policy frontier (seen_relations w) ≡ false
      → HasFound bucket policy (result bucket policy root_work_id w d none) none
  ended-HasFound d frontier w swept none_left =
      let linked = swept.layered.0 in
      let at_frontier = exhausted bucket policy keyed frontier w none_left in
      let done : All (λ v. IsComplete bucket policy v w) w.ordered_works =
        All-mono w.ordered_works
          (λ v way. elim way [ inl a ↦ In-All _ v frontier at_frontier a | inr a ↦ a ])
          swept.open_works in
      (
        λ v. (
          λ visited.
              let (n, le, reaches) =
                In-All _ v w.ordered_works linked.reached
                  (In-of_contains v w.ordered_works visited) in
              (n, reaches),
          λ (n, reaches). closed d w linked done n v reaches,
        ),
        λ v visited. All-of_In _ (relations_of bucket) λ q stored leads.
            seen_In bucket policy keyed root_work_id d w q linked stored (
              In-All _ q (relations_of bucket)
                (In-All _ v w.ordered_works done (In-of_contains v w.ordered_works visited)) stored
                leads),
      )

  deep-HasFound :
      (d : ℕ) (frontier : List ℕ) (w : Walk)
      → d ≡ policy.max_depth
      → IsSwept' d frontier w
      → HasFound bucket policy (result bucket policy root_work_id w d (some depth)) (some depth)
  deep-HasFound d frontier w e swept v = (
    λ visited.
        let (n, le, reaches) =
          In-All _ v w.ordered_works swept.layered.0.reached
            (In-of_contains v w.ordered_works visited) in
        (n, omega arith, reaches),
    λ (n, le, reaches). swept.all_near n v (omega arith) reaches,
  )

  kept :
      IsKept bucket policy root_work_id
        (λ d frontier w. IsSwept' d frontier w)
        (λ r. (r.root_work_id ≡ root_work_id) × HasFound bucket policy r r.stopped_by)
  kept = record {
    ended = λ d frontier w le swept none_left. (refl, ended-HasFound d frontier w swept none_left);
    deep = λ d frontier w e swept. (refl, deep-HasFound d frontier w e swept);
    full = λ d frontier w le swept count. (refl, tt);
    cut = λ d frontier w u limit lt swept steps why. elim why [
      | inl (e, le) ↦ rw e (refl, tt)
      | inr (e, count) ↦ rw e (refl, tt)
    ];
    round = λ d frontier w u lt swept steps done. round-IsSwept d frontier w u swept steps done;
  }

  rooted_HasFound :
      (traverse bucket policy root_work_id).root_work_id ≡ root_work_id
      × HasFound bucket policy
          (traverse bucket policy root_work_id)
          (traverse bucket policy root_work_id).stopped_by
  rooted_HasFound =
      traverse_rule bucket policy root_work_id keyed (λ d frontier w. IsSwept' d frontier w) _ kept
        start-IsSwept

-- If nothing stopped a traversal, its works are exactly those that can be reached from the root over
-- stored relations of the policy, and it has all such relations of each of them. If the depth stopped
-- it, its works are exactly those within the maximal depth.
pub traverse-HasFound :
    (bucket : Relations) (policy : CitationTraversalPolicy) (root_work_id : ℕ)
    → IsKeyed bucket
    → HasFound bucket policy
        (traverse bucket policy root_work_id)
        (traverse bucket policy root_work_id).stopped_by
traverse-HasFound bucket policy root_work_id keyed =
    (rooted_HasFound bucket policy keyed root_work_id).1
