-- ===== src/Citations/Traversal/Reachability.antt =====
-- Which works can be reached from the root, and over which relations.
use tarkka.Prelude.{
  ℕ, zero, suc, ◌≤◌, ◌≡◌, inl, inr, ◌⊎◌, true, Option, none, some, List, nat_beq_iff, contains,
  nat_eq, arith, All, In,
}
use tarkka.Citations.{WorkRelation}
use tarkka.Citations.Relations.{Relations, subject, object, relations_of}
use tarkka.Citations.Traversal.{
  CitationTraversalPolicy, CitationTraversalResult, TraversalLimit, depth, works, relations,
  neighbor, follows,
}
use tarkka.Citations.Traversal.Selection.{LeadsFrom}

-- The relation links one work to another, in a direction and of a kind that the policy follows.
abbrev pub Links : CitationTraversalPolicy → WorkRelation → ℕ → ℕ → Type 0
Links policy r u v =
    In r.kind policy.relation_kinds
    × (((follows policy.direction subject ≡ true)
          × (r.subject_work_id ≡ u)
          × (r.object_work_id ≡ v))
        ⊎ ((follows policy.direction object ≡ true)
            × (r.object_work_id ≡ u)
            × (r.subject_work_id ≡ v)))

module _ (bucket : Relations) (policy : CitationTraversalPolicy) where
  -- The works at the end of a walk of some length from the root.
  pub data Reaches (root_work_id : ℕ) : ℕ → ℕ → Type 0 where
    root : Reaches root_work_id zero root_work_id
    link :
        {d u : ℕ} (r : WorkRelation) (v : ℕ)
        → Reaches root_work_id d u
        → In r (relations_of bucket)
        → Links policy r u v
        → Reaches root_work_id (suc d) v

  abbrev pub ReachedIn : ℕ → ℕ → ℕ → Type 0
  ReachedIn root_work_id d v = (n : ℕ) × (n ≤ d) × Reaches root_work_id n v

  pub ReachedIn-le :
      (root_work_id d e v : ℕ) → d ≤ e → ReachedIn root_work_id d v → ReachedIn root_work_id e v
  ReachedIn-le root_work_id d e v le (n, n_le, reaches) = (n, omega arith, reaches)

pub Links-of_neighbor :
    (policy : CitationTraversalPolicy) (u v : ℕ) (r : WorkRelation)
    → LeadsFrom policy u r
    → neighbor u r ≡ some v
    → Links policy r u v
unfolding neighbor
Links-of_neighbor policy u v r (kind, inl (asked, here)) there =
    (kind, inl (asked, here, ground (arith, nat_beq_iff r.subject_work_id u)))
Links-of_neighbor policy u v r (kind, inr (asked, here)) there = (
  kind,
  inr (
    asked,
    here,
    ground (arith, nat_beq_iff r.subject_work_id u, nat_beq_iff r.object_work_id u),
  ),
)

-- A relation of the result is stored, of a kind that the policy follows, and between two of its works.
abbrev pub IsBetween : Relations → CitationTraversalPolicy → List ℕ → WorkRelation → Type 0
IsBetween bucket policy work_ids r =
    In r (relations_of bucket)
    × In r.kind policy.relation_kinds
    × ((contains r.subject_work_id work_ids ≡ true) × (contains r.object_work_id work_ids ≡ true))

-- The depth of the works in a result: a round that a limit cuts short has gone one further than the
-- depth reported.
abbrev pub layers : Option TraversalLimit → ℕ → ℕ
layers none d = d
layers (some depth) d = d
layers (some works) d = suc d
layers (some relations) d = suc d

pub record IsReached (bucket : Relations) (policy : CitationTraversalPolicy)
    (r : CitationTraversalResult) : Type 0 where
  pub rooted : contains r.root_work_id r.work_ids ≡ true
  pub reached :
      All
        (ReachedIn bucket policy r.root_work_id (layers r.stopped_by r.max_depth_reached))
        r.work_ids
  pub within : All (ReachedIn bucket policy r.root_work_id policy.max_depth) r.work_ids
  pub between : All (IsBetween bucket policy r.work_ids) r.relations
