-- ===== src/Citations/Traversal/Progress.antt =====
-- A frontier that the loop went through, or that `_has_unseen_relation` reports as exhausted, has no
-- unseen relation left.
use tarkka.Prelude.{
  ℕ, ◌-◌, ◌<◌, ◌≡◌, refl, subst, inl, inr, ◌⊎◌, true, false, List, [], ◌∷◌, length, nat_eq, arith,
  Bool-cases, All, All-mono, All-In, In, sorted, All-sorted_iff, leb,
}
use tarkka.Citations.{WorkRelation}
use tarkka.Citations.Relations.{Relations, relations_of}
use tarkka.Citations.Traversal.{
  CitationTraversalPolicy, Walk, running, id_of, seen_relations, relations_for, has_unseen_relation,
  is_nil, absorb, is_full, read, expand,
}
use tarkka.Citations.Relations.{IsKeyed}
use tarkka.Citations.Traversal.Exhaustion.{relations_for_all}
use tarkka.Citations.Traversal.Steps.{
  Steps, Steps_rule, IsWithin, Step-IsWithin, read-IsSelected, absorb-read-Steps,
}
use tarkka.Citations.Traversal.Rounds.{Flow-cases, IsComplete, absorb_running}
use tarkka.Citations.Traversal.Frontiers.{IsComplete-Steps, expand-Steps}

module _ (bucket : Relations) (policy : CitationTraversalPolicy) (keyed : IsKeyed bucket) where
  nothing_unseen :
      (work_id : ℕ) (w : Walk)
      → is_nil (relations_for bucket policy work_id 1 (seen_relations w)) ≡ true
      → IsComplete bucket policy work_id w
  nothing_unseen work_id w e =
      let empty = of_nil (relations_for bucket policy work_id 1 (seen_relations w)) e in
      All-mono (relations_of bucket)
        (λ r covered leads. elim (covered leads) [
          | inl old ↦ old
          | inr h ↦ absurd (ground (arith, rw empty at h))
        ])
        (relations_for_all bucket policy keyed work_id 1 (seen_relations w)
          (rw empty (omega arith)))
    where
      of_nil : (rs : List WorkRelation) → is_nil rs ≡ true → rs ≡ []
      of_nil [] h = refl
      of_nil (r ∷ rs) h = cc

  pub exhausted :
      (frontier : List ℕ) (w : Walk)
      → has_unseen_relation bucket policy frontier (seen_relations w) ≡ false
      → All (λ v. IsComplete bucket policy v w) frontier
  unfolding has_unseen_relation
  exhausted [] w e = tt
  exhausted (work_id ∷ frontier) w e =
      (nothing_unseen work_id w (ground arith), exhausted frontier w (ground arith))

  -- A work whose relations were all read, with room to spare, has no unseen relation left.
  absorbed :
      (work_id : ℕ) (w w' : Walk)
      → absorb bucket policy work_id (read bucket policy work_id w) w ≡ running w'
      → length w'.ordered_relations < policy.max_relations
      → IsComplete bucket policy work_id w'
  absorbed work_id w w' e room =
      let found = read bucket policy work_id w in
      let (kept, count) =
        absorb_running bucket policy work_id found w w'
          (All-mono found (λ r s. s.1) (read-IsSelected bucket policy [] work_id w)) e in
      All-mono (relations_of bucket)
        (λ r covered leads. elim (covered leads) [
          | inl old ↦ kept (id_of r) (ground arith)
          | inr new ↦ kept (id_of r) (ground arith)
        ])
        (relations_for_all bucket policy keyed work_id
          (policy.max_relations - length w.ordered_relations) (seen_relations w) (omega arith))

  -- The works of the frontier that the loop has left are exhausted, or the whole frontier is.
  expand_left :
      (frontier asked left : List ℕ) (w w' : Walk)
      → All (λ v. In v frontier) left
      → IsWithin bucket policy frontier w
      → expand bucket policy asked left w ≡ running w'
      → All (λ v. IsComplete bucket policy v w') left
        ⊎ All (λ v. IsComplete bucket policy v w') asked
  unfolding expand
  expand_left frontier asked [] w w' members within e = inl tt
  expand_left frontier asked (work_id ∷ rest) w w' members within e =
      elim (Flow-cases (absorb bucket policy work_id (read bucket policy work_id w) w)) [
        | inr (w1, l, e1) ↦ absurd (ground (arith, rw (e1, expand) at e))
        | inl (w1, e1) ↦
            let first : Steps bucket policy frontier w w1 =
              rw e1 at (absorb-read-Steps bucket policy frontier work_id w members.0 within) in
            let within1 =
              Steps_rule bucket policy frontier (IsWithin bucket policy frontier)
                (Step-IsWithin bucket policy frontier) first within in
            elim (Bool-cases (is_full bucket policy w1)) [
              | inr more ↦
                  let e2 = rw (e1, more, expand) at e in
                  let room : length w1.ordered_relations < policy.max_relations =
                    ground (arith, within1) in
                  let later : Steps bucket policy frontier w1 w' =
                    rw e2 at
                      (expand-Steps bucket policy frontier asked rest w1 members.1 within1) in
                  elim (expand_left frontier asked rest w1 w' members.1 within1 e2) [
                    | inl done ↦ inl (
                      IsComplete-Steps bucket policy frontier work_id later
                          (absorbed work_id w w1 e1 room),
                      done,
                    )
                    | inr all_done ↦ inr all_done
                  ]
              | inl full ↦
                  elim (Bool-cases (has_unseen_relation bucket policy asked (seen_relations w1))) [
                    | inl unseen ↦ absurd (ground (arith, rw (e1, full, unseen, expand) at e))
                    | inr none_left ↦
                        let e2 : running w1 ≡ running w' = rw (e1, full, none_left, expand) at e in
                        let same : w1 ≡ w' = cc in
                        inr (
                          subst (λ (u : Walk). All (λ v. IsComplete bucket policy v u) asked) same
                            (exhausted asked w1 none_left))
                  ]
            ]
      ]

  pub expand_running :
      (asked : List ℕ) (w w' : Walk)
      → IsWithin bucket policy (sorted leb asked) w
      → expand bucket policy asked (sorted leb asked) w ≡ running w'
      → All (λ v. IsComplete bucket policy v w') (sorted leb asked)
  expand_running asked w w' within e =
      elim (expand_left (sorted leb asked) asked (sorted leb asked) w w' (All-In _) within e) [
        | inl done ↦ done
        | inr done ↦ (All-sorted_iff leb _ asked).1 done
      ]
