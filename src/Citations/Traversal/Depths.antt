-- ===== src/Citations/Traversal/Depths.antt =====
-- The rule of the loop over the depths: what every round keeps holds of the result.
use tarkka.Prelude.{
  ℕ, zero, suc, ◌+◌, ◌≤◌, ◌<◌, ◌≡◌, refl, inl, inr, ◌⊎◌, false, none, some, List, [], ◌∷◌, length,
  leb, nat_beq_iff, arith, Bool-cases, All, sorted,
}
use tarkka.Citations.Relations.{Relations}
use tarkka.Citations.Traversal.{
  CitationTraversalPolicy, CitationTraversalResult, TraversalLimit, depth, works, relations, Walk,
  seen_relations, has_unseen_relation, is_full, expand, result, descend, start, traverse,
}
use tarkka.Citations.Relations.{IsKeyed}
use tarkka.Citations.Traversal.Steps.{Steps, Steps_rule, IsWithin, Step-IsWithin}
use tarkka.Citations.Traversal.Rounds.{Flow-cases, IsComplete}
use tarkka.Citations.Traversal.Frontiers.{expand-Steps, expand_stopped}
use tarkka.Citations.Traversal.Progress.{expand_running}
use tarkka.Prelude.{All-In}

pub List-cases {ℓ} :
    {A : Type ℓ} (xs : List A) → (xs ≡ []) ⊎ ((x : A) × (ys : List A) × (xs ≡ x ∷ ys))
List-cases [] = inl refl
List-cases (x ∷ xs) = inr (x, xs, refl)

abbrev pub reset : Walk → Walk
reset w = record w { next_frontier = [] }

module _ (bucket : Relations) (policy : CitationTraversalPolicy) (root_work_id : ℕ) where
  -- What has to be shown of the rounds, for an invariant `P` at the head of the loop and a claim `Q`
  -- about the result.
  pub record IsKept (P : ℕ → List ℕ → Walk → Type 0) (Q : CitationTraversalResult → Type 0)
      : Type 0 where
    pub ended :
        (d : ℕ) (frontier : List ℕ) (w : Walk)
        → d ≤ policy.max_depth
        → P d frontier w
        → has_unseen_relation bucket policy frontier (seen_relations w) ≡ false
        → Q (result bucket policy root_work_id w d none)
    pub deep :
        (d : ℕ) (frontier : List ℕ) (w : Walk)
        → d ≡ policy.max_depth
        → P d frontier w
        → Q (result bucket policy root_work_id w d (some depth))
    pub full :
        (d : ℕ) (frontier : List ℕ) (w : Walk)
        → d ≤ policy.max_depth
        → P d frontier w
        → length w.ordered_relations ≡ policy.max_relations
        → Q (result bucket policy root_work_id w d (some relations))
    pub cut :
        (d : ℕ) (frontier : List ℕ) (w u : Walk) (limit : TraversalLimit)
        → d < policy.max_depth
        → P d frontier w
        → Steps bucket policy (sorted leb frontier) (reset w) u
        → ((limit ≡ works) × (policy.max_works ≤ length u.ordered_works))
          ⊎ ((limit ≡ relations) × (length u.ordered_relations ≡ policy.max_relations))
        → Q (result bucket policy root_work_id u d (some limit))
    pub round :
        (d : ℕ) (frontier : List ℕ) (w u : Walk)
        → d < policy.max_depth
        → P d frontier w
        → Steps bucket policy (sorted leb frontier) (reset w) u
        → All (λ v. IsComplete bucket policy v u) (sorted leb frontier)
        → P (suc d) (sorted leb u.next_frontier) u

  module _ (keyed : IsKeyed bucket) (P : ℕ → List ℕ → Walk → Type 0)
      (Q : CitationTraversalResult → Type 0) (kept : IsKept P Q) where
    descend_rule :
        (left d : ℕ) (frontier : List ℕ) (w : Walk)
        → left + d ≡ policy.max_depth
        → length w.ordered_relations ≤ policy.max_relations
        → P d frontier w
        → Q (descend bucket policy root_work_id left d frontier w)
    unfolding descend
    descend_rule zero d frontier w e within p =
        elim (Bool-cases (has_unseen_relation bucket policy frontier (seen_relations w))) [
          | inl more ↦ rw more (kept.deep d frontier w (omega arith) p)
          | inr none_left ↦ rw none_left (kept.ended d frontier w (omega arith) p none_left)
        ]
    descend_rule (suc left) d frontier w e within p = elim (Bool-cases (is_full bucket policy w)) [
      | inl full ↦
          elim (Bool-cases (has_unseen_relation bucket policy frontier (seen_relations w))) [
            | inl more ↦
                rw (full, more, descend)
                  (kept.full d frontier w (omega arith) p ((nat_beq_iff _ _).0 full))
            | inr none_left ↦
                rw (full, none_left, descend) (kept.ended d frontier w (omega arith) p none_left)
          ]
      | inr room ↦
          let order = sorted leb frontier in
          let steps =
            expand-Steps bucket policy order frontier order (reset w) (All-In order) within in
          elim (Flow-cases (expand bucket policy frontier order (reset w))) [
            | inr (u, limit, stop) ↦
                let steps' : Steps bucket policy order (reset w) u = rw stop at steps in
                rw (room, stop, descend)
                  (kept.cut d frontier w u limit (omega arith) p steps'
                    (elim (expand_stopped bucket policy frontier order (reset w) u limit stop) [
                      | inl h ↦ inl h
                      | inr (h, count, more) ↦ inr (h, count)
                    ]))
            | inl (u, go) ↦
                let steps' : Steps bucket policy order (reset w) u = rw go at steps in
                let done = expand_running bucket policy keyed frontier (reset w) u within go in
                let p' = kept.round d frontier w u (omega arith) p steps' done in
                let within' =
                  Steps_rule bucket policy order (IsWithin bucket policy order)
                    (Step-IsWithin bucket policy order) steps' within in
                elim (List-cases (sorted leb u.next_frontier)) [
                  | inl empty ↦
                      rw (room, go, empty, descend)
                        (kept.ended (suc d) [] u (omega arith) (rw empty at p') refl)
                  | inr (v, vs, some_left) ↦
                      rw (room, go, some_left, descend)
                        (descend_rule left (suc d) (v ∷ vs) u (omega arith) within'
                          (rw some_left at p'))
                ]
          ]
    ]

    pub traverse_rule :
        P 0 (root_work_id ∷ []) (start bucket policy root_work_id)
        → Q (traverse bucket policy root_work_id)
    unfolding traverse
    traverse_rule p =
        descend_rule policy.max_depth 0 (root_work_id ∷ []) _ (omega arith) (omega arith) p
