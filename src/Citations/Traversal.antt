-- ===== src/Citations/Traversal.antt =====
-- application/citation_traversal.py over the relations of the JSON catalog. The sets `visited` and
-- `seen_relations` hold what `ordered_works` and the identifiers of `ordered_relations` hold: the
-- code adds to both together, and so the model keeps the ordered lists only.
pub mod Steps
pub mod Swept
pub mod Exhaustive
pub mod Reached
pub mod Bounded
pub mod Depths
pub mod Progress
pub mod Frontiers
pub mod Rounds
pub mod Selection
pub mod Exhaustion
pub mod Reachability
use tarkka.Prelude.{
  ℕ, zero, suc, ◌-◌, Bool, true, false, ◌&&◌, ◌||◌, not, Option, none, some, List, [], ◌∷◌, ◌++◌,
  map, length, take, nat_beq, leb, ltb, contains, nat_eq, list_eq, put, sorted, if◌then◌else◌, ℤ,
  pos, negsuc, Result, ok, err, value_error, ◌>>=◌, ◌>>◌, require, require_non_negative_int,
}
use tarkka.Citations.{WorkRelationKind, cites, WorkRelation}
use tarkka.Citations.Relations.{
  Relations, Field, subject, object, relation_le, relations_matching, relations_of,
}

pub data TraversalDirection : Type 0 where
  outbound inbound both : TraversalDirection

pub data TraversalLimit : Type 0 where
  depth works relations : TraversalLimit

pub record CitationTraversalPolicy : Type 0 where
  pub max_depth : ℕ
  pub max_works : ℕ
  pub max_relations : ℕ
  pub direction : TraversalDirection
  pub relation_kinds : List WorkRelationKind

abbrev pub has_kinds : List WorkRelationKind → Bool
has_kinds [] = false
has_kinds (kind ∷ kinds) = true

-- CitationTraversalPolicy.__post_init__
unfoldable pub post_init :
    ℤ → ℤ → ℤ → TraversalDirection → List WorkRelationKind → Result CitationTraversalPolicy
post_init max_depth max_works max_relations direction kinds = do
  depths ← require_non_negative_int max_depth "citation traversal max_depth must be non-negative"
  most_works ←
      require_non_negative_int max_works "citation traversal max_works must be at least one"
  require (leb 1 most_works) "citation traversal max_works must be at least one"
  most_relations ←
      require_non_negative_int max_relations "citation traversal max_relations must be non-negative"
  require (has_kinds kinds) "citation traversal must allow at least one relation kind"
  ok (record {
    max_depth = depths;
    max_works = most_works;
    max_relations = most_relations;
    direction = direction;
    relation_kinds = kinds;
  })

pub record CitationTraversalResult : Type 0 where
  pub root_work_id : ℕ
  pub work_ids : List ℕ
  pub relations : List WorkRelation
  pub max_depth_reached : ℕ
  pub stopped_by : Option TraversalLimit

-- The variables of `traverse` that the inner loops change.
pub record Walk : Type 0 where
  pub ordered_works : List ℕ
  pub ordered_relations : List WorkRelation
  pub next_frontier : List ℕ

-- A loop that went through, or a return from it.
pub data Flow : Type 0 where
  running : Walk → Flow
  stopped : Walk → TraversalLimit → Flow

abbrev pub id_of : WorkRelation → ℕ
id_of r = r.relation_id

abbrev pub seen_relations : Walk → List ℕ
seen_relations w = map id_of w.ordered_relations

-- _neighbor
unfoldable pub neighbor : ℕ → WorkRelation → Option ℕ
neighbor work_id r =
    if nat_beq r.subject_work_id work_id
    then some r.object_work_id
    else if nat_beq r.object_work_id work_id
    then some r.subject_work_id
    else none

-- direction in {OUTBOUND, BOTH}, and direction in {INBOUND, BOTH}
abbrev pub follows : TraversalDirection → Field → Bool
follows outbound subject = true
follows inbound object = true
follows both field = true
follows _ _ = false

-- for relation in found: relations[relation.relation_id] = relation
unfoldable pub collect : List WorkRelation → Relations → Relations
collect [] by_id = by_id
collect (r ∷ rs) by_id = collect rs (put r.relation_id r by_id)

abbrev pub is_nil {ℓ} : {A : Type ℓ} → List A → Bool
is_nil [] = true
is_nil (x ∷ xs) = false

-- The relation and its other end, added to the walk.
abbrev pub follow : WorkRelation → ℕ → Walk → Walk
follow r n w =
    if contains n w.ordered_works
    then record w { ordered_relations = w.ordered_relations ++ (r ∷ []) }
    else record {
      ordered_works = w.ordered_works ++ (n ∷ []);
      ordered_relations = w.ordered_relations ++ (r ∷ []);
      next_frontier = w.next_frontier ++ (n ∷ []);
    }

module _ (bucket : Relations) (policy : CitationTraversalPolicy) where
  -- The relations of one side, if the direction asks for it.
  abbrev pub side : Field → ℕ → ℕ → List ℕ → List WorkRelation
  side field work_id limit exclude_ids =
      let found =
        relations_matching bucket field work_id (some policy.relation_kinds) exclude_ids
          (some limit) in
      if follows policy.direction field then found else []

  -- CitationTraversalService._relations_for
  unfoldable pub relations_for : ℕ → ℕ → List ℕ → List WorkRelation
  unfolding relations_matching collect sorted relation_le
  relations_for work_id limit exclude_ids =
      let by_id =
        collect (side object work_id limit exclude_ids)
          (collect (side subject work_id limit exclude_ids) []) in
      take limit (sorted relation_le (relations_of by_id))

  -- CitationTraversalService._has_unseen_relation
  unfoldable pub has_unseen_relation : List ℕ → List ℕ → Bool
  unfolding relations_for
  has_unseen_relation [] seen = false
  has_unseen_relation (work_id ∷ frontier) seen =
      not (is_nil (relations_for work_id 1 seen)) || has_unseen_relation frontier seen

  -- The loop over the relations of one work.
  unfoldable pub absorb : ℕ → List WorkRelation → Walk → Flow
  unfolding neighbor
  absorb work_id [] w = running w
  absorb work_id (r ∷ rs) w = elim (neighbor work_id r) [
    | none ↦ absorb work_id rs w
    | some n ↦
        elim (not (contains n w.ordered_works) && leb policy.max_works (length w.ordered_works)) [
          | true ↦ stopped w works
          | false ↦ absorb work_id rs (follow r n w)
        ]
  ]

  abbrev pub is_full : Walk → Bool
  is_full w = nat_beq (length w.ordered_relations) policy.max_relations

  -- What is read of a work: as many unseen relations as the budget leaves.
  abbrev pub read : ℕ → Walk → List WorkRelation
  read work_id w =
      relations_for work_id (policy.max_relations - length w.ordered_relations) (seen_relations w)

  -- The loop over the sorted frontier.
  unfoldable pub expand : List ℕ → List ℕ → Walk → Flow
  unfolding absorb has_unseen_relation
  expand frontier [] w = running w
  expand frontier (work_id ∷ rest) w = elim (absorb work_id (read work_id w) w) [
    | stopped w' limit ↦ stopped w' limit
    | running w' ↦ elim (is_full w') [
      | true ↦ elim (has_unseen_relation frontier (seen_relations w')) [
        | true ↦ stopped w' relations
        | false ↦ running w'
      ]
      | false ↦ expand frontier rest w'
    ]
  ]

  module _ (root_work_id : ℕ) where
    -- _result
    abbrev pub result : Walk → ℕ → Option TraversalLimit → CitationTraversalResult
    result w reached_depth stopped_by = record {
      root_work_id = root_work_id;
      work_ids = w.ordered_works;
      relations = w.ordered_relations;
      max_depth_reached = reached_depth;
      stopped_by = stopped_by;
    }

    abbrev pub limit_if : TraversalLimit → Bool → Option TraversalLimit
    limit_if limit true = some limit
    limit_if limit false = none

    abbrev pub unseen : List ℕ → Walk → Bool
    unseen frontier w = has_unseen_relation frontier (seen_relations w)

    -- The loop over the depths, by the rounds that are left.
    unfoldable pub descend : ℕ → ℕ → List ℕ → Walk → CitationTraversalResult
    unfolding expand sorted
    descend zero reached_depth frontier w =
        result w reached_depth (limit_if depth (unseen frontier w))
    descend (suc left) reached_depth frontier w = elim (is_full w) [
      | true ↦ result w reached_depth (limit_if relations (unseen frontier w))
      | false ↦ elim (expand frontier (sorted leb frontier) (record w { next_frontier = [] })) [
        | stopped w' limit ↦ result w' reached_depth (some limit)
        | running w' ↦ elim (sorted leb w'.next_frontier) [
          | [] ↦ result w' (suc reached_depth) none
          | next ∷ others ↦ descend left (suc reached_depth) (next ∷ others) w'
        ]
      ]
    ]

    abbrev pub start : Walk
    start = record { ordered_works = root_work_id ∷ []; ordered_relations = []; next_frontier = [] }

    -- CitationTraversalService.traverse. The code tests a depth of 0 before the loop, with the same
    -- outcome as the loop's `else`.
    unfoldable pub traverse : CitationTraversalResult
    unfolding descend
    traverse = descend policy.max_depth 0 (root_work_id ∷ []) start
