-- ===== src/Citations/Traversal/Reached.antt =====
-- Every work of a traversal is reached from the root over stored relations of the policy.
use tarkka.Prelude.{
  ℕ, suc, ◌≤◌, ◌≡◌, ◌∙◌, inl, inr, true, Option, none, some, List, [], ◌∷◌, ◌++◌, leb, nat_beq_iff,
  contains, contains-append, nat_eq, arith, Bool-cases, All, All-mono, All-append, All-sorted_iff,
  In, In-All, In-of_contains, sorted,
}
use tarkka.Citations.{WorkRelation}
use tarkka.Citations.Relations.{Relations, relations_of}
use tarkka.Citations.Traversal.{
  CitationTraversalPolicy, TraversalLimit, depth, works, relations, Walk, follow, result, start,
  traverse,
}
use tarkka.Citations.Relations.{IsKeyed}
use tarkka.Citations.Traversal.Steps.{Step, followed, Steps, Steps_rule}
use tarkka.Citations.Traversal.Depths.{reset, IsKept, traverse_rule}
use tarkka.Citations.Traversal.Reachability.{
  root, link, Links, ReachedIn, ReachedIn-le, Links-of_neighbor, IsBetween, layers, IsReached,
}

module _ (bucket : Relations) (policy : CitationTraversalPolicy) (root_work_id : ℕ) where
  pub record IsLinked (d : ℕ) (w : Walk) : Type 0 where
    pub rooted : contains root_work_id w.ordered_works ≡ true
    pub reached : All (ReachedIn bucket policy root_work_id d) w.ordered_works
    pub between : All (IsBetween bucket policy w.ordered_works) w.ordered_relations
    pub ahead : All (λ v. contains v w.ordered_works ≡ true) w.next_frontier

  -- The works of the frontier are among those visited, and reached within the depth.
  abbrev pub IsNear : ℕ → Walk → ℕ → Type 0
  IsNear d w v = (contains v w.ordered_works ≡ true) × ReachedIn bucket policy root_work_id d v

  grown :
      (w : Walk) (n a : ℕ)
      → contains a w.ordered_works ≡ true
      → contains a (w.ordered_works ++ (n ∷ [])) ≡ true
  grown w n a h = contains-append a w.ordered_works (n ∷ []) ∙ ground arith

  between-grown :
      (w : Walk) (n : ℕ) (r : WorkRelation)
      → IsBetween bucket policy w.ordered_works r
      → IsBetween bucket policy (w.ordered_works ++ (n ∷ [])) r
  between-grown w n r (stored, kind, (from, to)) =
      (stored, kind, (grown w n r.subject_work_id from, grown w n r.object_work_id to))

  IsLinked-follow :
      (d work_id : ℕ) (r : WorkRelation) (n : ℕ) (w : Walk)
      → IsNear d w work_id
      → In r (relations_of bucket)
      → Links policy r work_id n
      → IsLinked (suc d) w
      → IsLinked (suc d) (follow r n w)
  IsLinked-follow d work_id r n w (visited, (m, le, reaches)) stored (kind, way) h =
      elim (Bool-cases (contains n w.ordered_works)) [
        | inl old ↦ rw old (record {
          rooted = h.rooted;
          reached = h.reached;
          between =
              All-append _ w.ordered_relations (r ∷ []) h.between
                ((stored, kind, ends w.ordered_works visited old), tt);
          ahead = h.ahead;
        })
        | inr new ↦
            let added : contains n (w.ordered_works ++ (n ∷ [])) ≡ true =
              contains-append n w.ordered_works (n ∷ []) ∙ ground (arith, nat_beq_iff n n) in
            rw new (record {
              rooted = grown w n root_work_id h.rooted;
              reached =
                  All-append _ w.ordered_works (n ∷ []) h.reached
                    ((suc m, omega arith, link r n reaches stored (kind, way)), tt);
              between =
                  All-append _ w.ordered_relations (r ∷ [])
                    (All-mono w.ordered_relations (between-grown w n) h.between)
                    (
                      (
                        stored,
                        kind,
                        ends (w.ordered_works ++ (n ∷ [])) (grown w n work_id visited) added,
                      ),
                      tt,
                    );
              ahead =
                  All-append _ w.next_frontier (n ∷ [])
                    (All-mono w.next_frontier (grown w n) h.ahead) (added, tt);
            })
      ]
    where
      ends :
          (ws : List ℕ)
          → contains work_id ws ≡ true
          → contains n ws ≡ true
          → (contains r.subject_work_id ws ≡ true) × (contains r.object_work_id ws ≡ true)
      ends ws from to = elim way [
        | inl (asked, here, there) ↦ (rw here from, rw there to)
        | inr (asked, here, there) ↦ (rw there to, rw here from)
      ]

  -- The invariant of the loop over the depths, and that of one round.
  abbrev pub IsLayered : ℕ → List ℕ → Walk → Type 0
  IsLayered d frontier w = IsLinked d w × All (IsNear d w) frontier

  abbrev IsInRound : ℕ → List ℕ → Walk → Type 0
  IsInRound d order w = IsLinked (suc d) w × All (IsNear d w) order

  IsNear-follow :
      (d v : ℕ) (r : WorkRelation) (n : ℕ) (w : Walk) → IsNear d w v → IsNear d (follow r n w) v
  IsNear-follow d v r n w (visited, reached) = elim (Bool-cases (contains n w.ordered_works)) [
    | inl old ↦ rw old (visited, reached)
    | inr new ↦ rw new (grown w n v visited, reached)
  ]

  Step-IsInRound :
      (d : ℕ) (order : List ℕ) {w u : Walk}
      → Step bucket policy order w u
      → IsInRound d order w
      → IsInRound d order u
  Step-IsInRound d order (followed work_id r n w member (stored, leads, new) there room less)
        (linked, near) =
      (
        IsLinked-follow d work_id r n w (In-All _ work_id order near member) stored
            (Links-of_neighbor policy work_id n r leads there) linked,
        All-mono order (λ v h. IsNear-follow d v r n w h) near,
      )

  pub Steps-IsInRound :
      (d : ℕ) (frontier : List ℕ) (w : Walk) {u : Walk}
      → IsLayered d frontier w
      → Steps bucket policy (sorted leb frontier) (reset w) u
      → IsInRound d (sorted leb frontier) u
  Steps-IsInRound d frontier w (linked, near) steps =
      Steps_rule bucket policy (sorted leb frontier) (IsInRound d (sorted leb frontier))
        (λ w u s h. Step-IsInRound d (sorted leb frontier) s h) steps
        (
          record {
            rooted = linked.rooted;
            reached =
                All-mono w.ordered_works
                  (λ v h. ReachedIn-le bucket policy root_work_id d (suc d) v (omega arith) h)
                  linked.reached;
            between = linked.between;
            ahead = tt;
          },
          (All-sorted_iff leb _ frontier).1 near,
        )

  pub round-IsLayered :
      (d : ℕ) (frontier : List ℕ) (w : Walk) {u : Walk}
      → IsLayered d frontier w
      → Steps bucket policy (sorted leb frontier) (reset w) u
      → IsLayered (suc d) (sorted leb u.next_frontier) u
  round-IsLayered d frontier w {u} layered steps =
      let (linked, near) = Steps-IsInRound d frontier w layered steps in
      (
        linked,
        (All-sorted_iff leb _ u.next_frontier).1 (
            All-mono u.next_frontier
              (λ v h.
                (h, In-All _ v u.ordered_works linked.reached (In-of_contains v u.ordered_works h)))
              linked.ahead),
      )

  as_IsReached :
      (w : Walk) (d e : ℕ) (stopped_by : Option TraversalLimit)
      → IsLinked e w
      → e ≤ policy.max_depth
      → e ≤ layers stopped_by d
      → IsReached bucket policy (result bucket policy root_work_id w d stopped_by)
  as_IsReached w d e stopped_by h deep near = record {
    rooted = h.rooted;
    reached =
        All-mono w.ordered_works
          (λ v g. ReachedIn-le bucket policy root_work_id e (layers stopped_by d) v near g)
          h.reached;
    within =
        All-mono w.ordered_works
          (λ v g. ReachedIn-le bucket policy root_work_id e policy.max_depth v deep g) h.reached;
    between = h.between;
  }

  kept : IsKept bucket policy root_work_id IsLayered (IsReached bucket policy)
  kept = record {
    ended = λ d frontier w le (h, near) none_left. as_IsReached w d d none h le (omega arith);
    deep =
        λ d frontier w e (h, near). as_IsReached w d d (some depth) h (omega arith) (omega arith);
    full =
        λ d frontier w le (h, near) count. as_IsReached w d d (some relations) h le (omega arith);
    cut = λ d frontier w u limit lt layered steps why.
        let h = (Steps-IsInRound d frontier w layered steps).0 in
        elim why [
          | inl (e, le) ↦ rw e (as_IsReached u d (suc d) (some works) h (omega arith) (omega arith))
          | inr (e, count) ↦
              rw e (as_IsReached u d (suc d) (some relations) h (omega arith) (omega arith))
        ];
    round = λ d frontier w u lt layered steps done. round-IsLayered d frontier w layered steps;
  }

  pub start-IsLayered : IsLayered 0 (root_work_id ∷ []) (start bucket policy root_work_id)
  start-IsLayered =
      let at_root : ReachedIn bucket policy root_work_id 0 root_work_id = (0, omega arith, root) in
      let rooted : contains root_work_id (root_work_id ∷ []) ≡ true =
        ground (arith, nat_beq_iff root_work_id root_work_id) in
      (
        record { rooted = rooted; reached = (at_root, tt); between = tt; ahead = tt },
        ((rooted, at_root), tt),
      )

-- Every work of a traversal is reached from the root over stored relations of the kinds and in the
-- direction of the policy, within its maximal depth, and within the depth reported, or one further
-- where a limit on works or relations cut the round short. Every relation is stored, of an allowed
-- kind, and between two works of the result.
pub traverse-IsReached :
    (bucket : Relations) (policy : CitationTraversalPolicy) (root_work_id : ℕ)
    → IsKeyed bucket
    → IsReached bucket policy (traverse bucket policy root_work_id)
traverse-IsReached bucket policy root_work_id keyed =
    traverse_rule bucket policy root_work_id keyed (IsLayered bucket policy root_work_id)
      (IsReached bucket policy) (kept bucket policy root_work_id)
      (start-IsLayered bucket policy root_work_id)
