-- ===== src/Citations/Traversal/Frontiers.antt =====
-- The loop over the sorted frontier: it takes steps; where it goes through, no work of the frontier
-- has an unseen relation left; where it returns, the limit that it names is met.
use tarkka.Prelude.{
  ℕ, ◌≤◌, ◌≡◌, subst, ◌∙◌, inl, inr, ◌⊎◌, true, List, [], ◌∷◌, length, nat_beq_iff, contains,
  nat_eq, arith, Bool-cases, All, All-mono, In,
}
use tarkka.Citations.Relations.{Relations, relations_of}
use tarkka.Citations.Traversal.{
  CitationTraversalPolicy, TraversalLimit, works, relations, Walk, stopped, id_of, seen_relations,
  has_unseen_relation, absorb, is_full, read, expand,
}
use tarkka.Citations.Traversal.Steps.{
  walk_of, contains-follow, Step, followed, Steps, here, Steps-append, Steps_rule, IsWithin,
  Step-IsWithin, absorb-read-Steps,
}
use tarkka.Citations.Traversal.Rounds.{Flow-cases, IsComplete, absorb_stopped}

module _ (bucket : Relations) (policy : CitationTraversalPolicy) where
  pub seen-Steps :
      (frontier : List ℕ) (a : ℕ) {w u : Walk}
      → Steps bucket policy frontier w u
      → contains a (seen_relations w) ≡ true
      → contains a (seen_relations u) ≡ true
  seen-Steps frontier a steps =
      Steps_rule bucket policy frontier (λ u. contains a (seen_relations u) ≡ true)
        (λ w u s h. kept s h) steps
    where
      kept :
          {w u : Walk}
          → Step bucket policy frontier w u
          → contains a (seen_relations w) ≡ true
          → contains a (seen_relations u) ≡ true
      kept (followed work_id r n w member selected there room less) h =
          contains-follow a r n w ∙ ground arith

  pub IsComplete-Steps :
      (frontier : List ℕ) (work_id : ℕ) {w u : Walk}
      → Steps bucket policy frontier w u
      → IsComplete bucket policy work_id w
      → IsComplete bucket policy work_id u
  IsComplete-Steps frontier work_id steps complete =
      All-mono (relations_of bucket) (λ r h leads. seen-Steps frontier (id_of r) steps (h leads))
        complete

  pub expand-Steps :
      (frontier asked left : List ℕ) (w : Walk)
      → All (λ v. In v frontier) left
      → IsWithin bucket policy frontier w
      → Steps bucket policy frontier w (walk_of (expand bucket policy asked left w))
  unfolding expand
  expand-Steps frontier asked [] w members within = here w
  expand-Steps frontier asked (work_id ∷ rest) w members within =
      let first = absorb-read-Steps bucket policy frontier work_id w members.0 within in
      elim (Flow-cases (absorb bucket policy work_id (read bucket policy work_id w) w)) [
        | inr (w1, limit, e) ↦ rw (e, expand, walk_of) (rw e at first)
        | inl (w1, e) ↦
            let first' : Steps bucket policy frontier w w1 = rw e at first in
            elim (Bool-cases (is_full bucket policy w1)) [
              | inr more ↦
                  rw (e, more, expand, walk_of)
                    (Steps-append bucket policy frontier first' (
                      expand-Steps frontier asked rest w1 members.1 (
                        Steps_rule bucket policy frontier (IsWithin bucket policy frontier)
                          (Step-IsWithin bucket policy frontier) first' within)))
              | inl full ↦
                  elim (Bool-cases (has_unseen_relation bucket policy asked (seen_relations w1))) [
                    | inl unseen ↦ rw (e, full, unseen, expand, walk_of) first'
                    | inr none_left ↦ rw (e, full, none_left, expand, walk_of) first'
                  ]
            ]
      ]

  pub expand_stopped :
      (frontier left : List ℕ) (w w' : Walk) (limit : TraversalLimit)
      → expand bucket policy frontier left w ≡ stopped w' limit
      → ((limit ≡ works) × (policy.max_works ≤ length w'.ordered_works))
        ⊎ ((limit ≡ relations)
            × (length w'.ordered_relations ≡ policy.max_relations)
            × (has_unseen_relation bucket policy frontier (seen_relations w') ≡ true))
  unfolding expand
  expand_stopped frontier [] w w' limit e = absurd (ground (arith, e))
  expand_stopped frontier (work_id ∷ rest) w w' limit e =
      elim (Flow-cases (absorb bucket policy work_id (read bucket policy work_id w) w)) [
        | inr (w1, l, e1) ↦ inl (
            absorb_stopped bucket policy work_id (read bucket policy work_id w) w w' limit
              (e1 ∙ rw (e1, expand) at e))
        | inl (w1, e1) ↦ elim (Bool-cases (is_full bucket policy w1)) [
          | inr more ↦ expand_stopped frontier rest w1 w' limit (rw (e1, more, expand) at e)
          | inl full ↦
              elim (Bool-cases (has_unseen_relation bucket policy frontier (seen_relations w1))) [
                | inl unseen ↦
                    let e2 : stopped w1 relations ≡ stopped w' limit =
                      rw (e1, full, unseen, expand) at e in
                    let same : w1 ≡ w' = cc in
                    inr (
                      cc,
                      subst (λ (u : Walk). length u.ordered_relations ≡ policy.max_relations) same
                          ((nat_beq_iff _ _).0 full),
                      subst
                          (λ (u : Walk).
                            has_unseen_relation bucket policy frontier (seen_relations u) ≡ true)
                          same unseen,
                    )
                | inr none_left ↦ absurd (ground (arith, rw (e1, full, none_left, expand) at e))
              ]
        ]
      ]
