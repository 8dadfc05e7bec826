-- ===== src/Citations/Traversal/Bounded.antt =====
-- The limits of a traversal.
use tarkka.Prelude.{
  ℕ, ◌≤◌, ◌≡◌, refl, inl, inr, ◌⊎◌, false, Option, none, some, List, [], ◌∷◌, ◌++◌, map, length,
  leb, nat_beq_iff, contains, contains-append, nat_eq, arith, Bool-cases, NoDup, sorted,
  length-append,
}
use tarkka.Citations.Relations.{Relations}
use tarkka.Citations.Traversal.{
  CitationTraversalPolicy, CitationTraversalResult, TraversalLimit, depth, works, relations, Walk,
  id_of, seen_relations, result, traverse,
}
use tarkka.Citations.Relations.{IsKeyed}
use tarkka.Citations.Traversal.Steps.{map-append, Step, followed, Steps, Steps_rule}
use tarkka.Citations.Traversal.Depths.{reset, IsKept, traverse_rule}

NoDup-snoc : (a : ℕ) (xs : List ℕ) → NoDup xs → contains a xs ≡ false → NoDup (xs ++ (a ∷ []))
NoDup-snoc a [] h fresh = (refl, tt)
NoDup-snoc a (x ∷ xs) h fresh = (
  ground (arith, contains-append x xs (a ∷ []), nat_beq_iff a x, nat_beq_iff x a),
  NoDup-snoc a xs h.1 (ground arith),
)

-- What stopped the traversal, if anything, is a limit that is met.
abbrev pub IsMet :
    CitationTraversalPolicy → CitationTraversalResult → Option TraversalLimit → Type 0
IsMet policy r none = Unit
IsMet policy r (some depth) = r.max_depth_reached ≡ policy.max_depth
IsMet policy r (some works) = length r.work_ids ≡ policy.max_works
IsMet policy r (some relations) = length r.relations ≡ policy.max_relations

pub record IsBounded (policy : CitationTraversalPolicy) (r : CitationTraversalResult) : Type 0 where
  pub works_once : NoDup r.work_ids
  pub works_le : length r.work_ids ≤ policy.max_works
  pub relations_once : NoDup (map id_of r.relations)
  pub relations_le : length r.relations ≤ policy.max_relations
  pub depth_le : r.max_depth_reached ≤ policy.max_depth
  pub limit_met : IsMet policy r r.stopped_by

module _ (bucket : Relations) (policy : CitationTraversalPolicy) where
  record IsSized (w : Walk) : Type 0 where
    works_once : NoDup w.ordered_works
    works_le : length w.ordered_works ≤ policy.max_works
    relations_once : NoDup (seen_relations w)
    relations_le : length w.ordered_relations ≤ policy.max_relations

  Step-IsSized :
      (frontier : List ℕ) {w u : Walk} → Step bucket policy frontier w u → IsSized w → IsSized u
  Step-IsSized frontier (followed work_id r n w member selected there room less) h =
      elim (Bool-cases (contains n w.ordered_works)) [
        | inl old ↦ rw old (record {
          works_once = h.works_once;
          works_le = h.works_le;
          relations_once = once;
          relations_le = omega (arith, length-append w.ordered_relations (r ∷ []));
        })
        | inr new ↦ rw new (record {
          works_once = NoDup-snoc n w.ordered_works h.works_once new;
          works_le = ground (arith, length-append w.ordered_works (n ∷ []));
          relations_once = once;
          relations_le = omega (arith, length-append w.ordered_relations (r ∷ []));
        })
      ]
    where
      once : NoDup (map id_of (w.ordered_relations ++ (r ∷ [])))
      once =
          rw (map-append w.ordered_relations (r ∷ []))
            (NoDup-snoc r.relation_id (seen_relations w) h.relations_once selected.2)

  Steps-IsSized :
      (frontier : List ℕ) {w u : Walk} → Steps bucket policy frontier w u → IsSized w → IsSized u
  Steps-IsSized frontier steps h =
      Steps_rule bucket policy frontier IsSized (λ w u s g. Step-IsSized frontier s g) steps h

  module _ (root_work_id : ℕ) where
    as_IsBounded :
        (w : Walk) (d : ℕ) (stopped_by : Option TraversalLimit)
        → IsSized w
        → d ≤ policy.max_depth
        → IsMet policy (result bucket policy root_work_id w d stopped_by) stopped_by
        → IsBounded policy (result bucket policy root_work_id w d stopped_by)
    as_IsBounded w d stopped_by h le met = record {
      works_once = h.works_once;
      works_le = h.works_le;
      relations_once = h.relations_once;
      relations_le = h.relations_le;
      depth_le = le;
      limit_met = met;
    }

    kept : IsKept bucket policy root_work_id (λ d frontier w. IsSized w) (IsBounded policy)
    kept = record {
      ended = λ d frontier w le h none_left. as_IsBounded w d none h le tt;
      deep = λ d frontier w e h. as_IsBounded w d (some depth) h (omega arith) e;
      full = λ d frontier w le h count. as_IsBounded w d (some relations) h le count;
      cut = λ d frontier w u limit lt h steps why.
          let h' = Steps-IsSized (sorted leb frontier) {w = reset w} steps (record {
            works_once = h.works_once;
            works_le = h.works_le;
            relations_once = h.relations_once;
            relations_le = h.relations_le;
          }) in
          as_IsBounded u d (some limit) h' (omega arith) (met d u limit h' why);
      round = λ d frontier w u lt h steps done.
          Steps-IsSized (sorted leb frontier) {w = reset w} steps (record {
            works_once = h.works_once;
            works_le = h.works_le;
            relations_once = h.relations_once;
            relations_le = h.relations_le;
          });
    }
      where
        met :
            (d : ℕ) (u : Walk) (limit : TraversalLimit)
            → IsSized u
            → ((limit ≡ works) × (policy.max_works ≤ length u.ordered_works))
              ⊎ ((limit ≡ relations) × (length u.ordered_relations ≡ policy.max_relations))
            → IsMet policy (result bucket policy root_work_id u d (some limit)) (some limit)
        met d u works g (inl (e, le)) = omega (arith, g.works_le)
        met d u works g (inr (e, count)) = absurd (ground (arith, e))
        met d u relations g (inl (e, le)) = absurd (ground (arith, e))
        met d u relations g (inr (e, count)) = count
        met d u depth g (inl (e, le)) = absurd (ground (arith, e))
        met d u depth g (inr (e, count)) = absurd (ground (arith, e))

-- A traversal returns each work and each relation once, no more of them than the policy allows, from
-- no deeper than it allows; a limit that it reports is met.
pub traverse-IsBounded :
    (bucket : Relations) (policy : CitationTraversalPolicy) (root_work_id : ℕ)
    → IsKeyed bucket
    → 1 ≤ policy.max_works
    → IsBounded policy (traverse bucket policy root_work_id)
traverse-IsBounded bucket policy root_work_id keyed some_work =
    traverse_rule bucket policy root_work_id keyed (λ d frontier w. IsSized bucket policy w)
      (IsBounded policy) (kept bucket policy root_work_id)
      (record {
        works_once = (refl, tt);
        works_le = some_work;
        relations_once = tt;
        relations_le = omega arith;
      })
