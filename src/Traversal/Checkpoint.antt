-- ===== src/Traversal/Checkpoint.antt =====
-- TraversalCheckpoint of domain/traversal.py, its constructor and its lookups.
pub mod Validity
pub mod Swap
use tarkka.Prelude.{
  ℕ, Bool, true, false, Option, none, some, List, [], ◌∷◌, ◌++◌, map, if◌then◌else◌, nat_beq, all,
  find, Result, ok, err, value_error, ◌>>=◌, ◌>>◌, require, contains, all_distinct, nat_eq, list_eq,
}
use tarkka.Acquisition.Budget.{AcquisitionBudgetState}
use tarkka.Traversal.Target.{TraversalTarget}

pub record TraversalCheckpoint : Type 0 where
  pub checkpoint_id : ℕ
  pub targets : List TraversalTarget
  pub budget : AcquisitionBudgetState

abbrev pub target_ids : List TraversalTarget → List ℕ
target_ids targets = map (λ t. t.target_id) targets

abbrev pub known_parents : List ℕ → TraversalTarget → Bool
known_parents ids t = all (λ parent. contains parent ids) t.parent_target_ids

-- TraversalCheckpoint.__post_init__
unfoldable pub post_init : TraversalCheckpoint → Result TraversalCheckpoint
post_init c = do
  require (all_distinct (target_ids c.targets)) "traversal checkpoint target IDs must be unique"
  require (all_distinct (map (λ t. t.uri) c.targets))
      "traversal checkpoint target URIs must be unique"
  require (all (known_parents (target_ids c.targets)) c.targets)
      "traversal checkpoint parent targets must exist"
  ok c

-- TraversalCheckpoint._target
unfoldable pub target : TraversalCheckpoint → ℕ → Option TraversalTarget
target c target_id = find (λ t. nat_beq t.target_id target_id) c.targets

abbrev pub or_missing : Option TraversalTarget → Result TraversalTarget
or_missing none = err (value_error "traversal target does not exist in the checkpoint")
or_missing (some t) = ok t

-- TraversalCheckpoint._require_target
unfoldable pub require_target : TraversalCheckpoint → ℕ → Result TraversalTarget
unfolding target
require_target c target_id = or_missing (target c target_id)

unfoldable pub swap_in : TraversalTarget → TraversalTarget → TraversalTarget
swap_in updated t = if nat_beq t.target_id updated.target_id then updated else t

-- TraversalCheckpoint._replace_target
unfoldable pub replace_target : TraversalCheckpoint → TraversalTarget → Result TraversalCheckpoint
unfolding post_init
replace_target c updated = post_init (record c { targets = map (swap_in updated) c.targets })
