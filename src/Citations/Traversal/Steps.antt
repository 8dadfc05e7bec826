-- ===== src/Citations/Traversal/Steps.antt =====
-- The loops over one frontier as sequences of steps: each follows one unseen relation from a work of
-- the frontier.
use tarkka.Prelude.{
  ℕ, suc, ◌+◌, ◌-◌, ◌≤◌, ◌<◌, ◌≡◌, refl, ap, ◌∙◌, inl, inr, false, ◌&&◌, ◌||◌, not, some, List, [],
  ◌∷◌, ◌++◌, map, length, leb, nat_beq, nat_beq_iff, contains, contains-append, nat_eq, arith,
  Bool-cases, Option-cases, All, In, NoDup, length-append,
}
use tarkka.Citations.{WorkRelation}
use tarkka.Citations.Relations.{Relations}
use tarkka.Citations.Traversal.{
  CitationTraversalPolicy, Walk, Flow, running, stopped, id_of, seen_relations, neighbor, follow,
  absorb, read,
}
use tarkka.Citations.Traversal.Selection.{
  IsSelected, relations_for-IsSelected, length-relations_for-le, NoDup-relations_for,
}

abbrev pub walk_of : Flow → Walk
walk_of (running w) = w
walk_of (stopped w limit) = w

pub map-append : (rs qs : List WorkRelation) → map id_of (rs ++ qs) ≡ map id_of rs ++ map id_of qs
map-append [] qs = refl
map-append (r ∷ rs) qs = ap (λ (ks : List ℕ). r.relation_id ∷ ks) (map-append rs qs)

-- Following adds the identifier of the relation, and nothing else, to those seen.
pub contains-follow :
    (a : ℕ) (r : WorkRelation) (n : ℕ) (w : Walk)
    → contains a (seen_relations (follow r n w))
      ≡ (contains a (seen_relations w) || nat_beq r.relation_id a)
contains-follow a r n w = elim (Bool-cases (contains n w.ordered_works)) [
  | inl old ↦
      rw (old, map-append w.ordered_relations (r ∷ []))
        (ground (arith, contains-append a (seen_relations w) (r.relation_id ∷ [])))
  | inr new ↦
      rw (new, map-append w.ordered_relations (r ∷ []))
        (ground (arith, contains-append a (seen_relations w) (r.relation_id ∷ [])))
]

pub length-follow :
    (r : WorkRelation) (n : ℕ) (w : Walk)
    → length (follow r n w).ordered_relations ≡ suc (length w.ordered_relations)
length-follow r n w = ground (arith, length-append w.ordered_relations (r ∷ []))

differ :
    (a : ℕ) (rs : List WorkRelation)
    → contains a (map id_of rs) ≡ false
    → All (λ q. nat_beq a (id_of q) ≡ false) rs
differ a [] h = tt
differ a (r ∷ rs) h = (
  ground (arith, nat_beq_iff a r.relation_id, nat_beq_iff r.relation_id a),
  differ a rs (ground arith),
)

module _ (bucket : Relations) (policy : CitationTraversalPolicy) (frontier : List ℕ) where
  pub data Step : Walk → Walk → Type 0 where
    followed :
        (work_id : ℕ) (r : WorkRelation) (n : ℕ) (w : Walk)
        → In work_id frontier
        → IsSelected bucket policy work_id (seen_relations w) r
        → neighbor work_id r ≡ some n
        → (not (contains n w.ordered_works) && leb policy.max_works (length w.ordered_works))
          ≡ false
        → length w.ordered_relations < policy.max_relations
        → Step w (follow r n w)

  pub data Steps : Walk → Walk → Type 0 where
    here : (w : Walk) → Steps w w
    next : {w u v : Walk} → Step w u → Steps u v → Steps w v

  pub Steps-append : {w u v : Walk} → Steps w u → Steps u v → Steps w v
  Steps-append (here w) later = later
  Steps-append (next s more) later = next s (Steps-append more later)

  -- What a step keeps, steps keep.
  pub Steps_rule {ℓ} :
      (P : Walk → Type ℓ)
      → ((w u : Walk) → Step w u → P w → P u)
      → {w u : Walk} → Steps w u
      → P w
      → P u
  Steps_rule P keep (here w) p = p
  Steps_rule P keep (next {w} {u} s more) p = Steps_rule P keep more (keep w u s p)

  abbrev pub IsWithin : Walk → Type 0
  IsWithin w = length w.ordered_relations ≤ policy.max_relations

  pub Step-IsWithin : (w u : Walk) → Step w u → IsWithin w → IsWithin u
  Step-IsWithin _ _ (followed work_id r n w member selected there room less) h =
      omega (arith, length-follow r n w)

  absorb-Steps :
      (work_id : ℕ) (rs : List WorkRelation) (w : Walk)
      → In work_id frontier
      → All (IsSelected bucket policy work_id (seen_relations w)) rs
      → NoDup (map id_of rs)
      → length rs + length w.ordered_relations ≤ policy.max_relations
      → Steps w (walk_of (absorb bucket policy work_id rs w))
  unfolding absorb
  absorb-Steps work_id [] w member selected distinct room = here w
  absorb-Steps work_id (r ∷ rs) w member selected distinct room =
      elim (Option-cases (neighbor work_id r)) [
        | inl nowhere ↦
            rw (nowhere, walk_of, absorb)
              (absorb-Steps work_id rs w member selected.1 distinct.1 (omega arith))
        | inr (n, there) ↦
            elim (Bool-cases
              (not (contains n w.ordered_works) && leb policy.max_works (length w.ordered_works))) [
                | inl full ↦ rw (there, full, walk_of, absorb) (here w)
                | inr free ↦
                    rw (there, free, walk_of, absorb)
                      (next (followed work_id r n w member selected.0 there free (omega arith)) (
                        absorb-Steps work_id rs (follow r n w) member
                          (still r n w rs (differ r.relation_id rs distinct.0) selected.1)
                          distinct.1 (omega (arith, length-follow r n w))))
              ]
      ]
    where
      still :
          (r : WorkRelation) (n : ℕ) (w : Walk) (rs : List WorkRelation)
          → All (λ q. nat_beq r.relation_id (id_of q) ≡ false) rs
          → All (IsSelected bucket policy work_id (seen_relations w)) rs
          → All (IsSelected bucket policy work_id (seen_relations (follow r n w))) rs
      still r n w [] d a = tt
      still r n w (q ∷ qs) d a = (
        (a.0.0, a.0.1, contains-follow q.relation_id r n w ∙ ground (arith, a.0.2, d.0)),
        still r n w qs d.1 a.1,
      )

  pub read-IsSelected :
      (work_id : ℕ) (w : Walk)
      → All (IsSelected bucket policy work_id (seen_relations w)) (read bucket policy work_id w)
  read-IsSelected work_id w = relations_for-IsSelected bucket policy work_id _ (seen_relations w)

  pub absorb-read-Steps :
      (work_id : ℕ) (w : Walk)
      → In work_id frontier
      → IsWithin w
      → Steps w (walk_of (absorb bucket policy work_id (read bucket policy work_id w) w))
  absorb-read-Steps work_id w member within =
      absorb-Steps work_id (read bucket policy work_id w) w member (read-IsSelected work_id w)
        (NoDup-relations_for bucket policy work_id _ (seen_relations w))
        (omega (
          arith,
          length-relations_for-le bucket policy work_id
              (policy.max_relations - length w.ordered_relations) (seen_relations w),
        ))
