-- ===== src/Wallet/Store.antt =====
-- ContextWalletRecord of application/context_wallet.py and the JsonContextWalletStore that keeps it.
-- A store is the content of its file, `none` before the file exists; each call holds the file's lock
-- from its read to its write, so that calls follow one another. The disk is taken to work.
pub mod Ledger
pub mod Recorded
pub mod Retry
use tarkka.Prelude.{
  ℕ, ◌+◌, ◌-◌, Bool, true, false, not, Option, none, some, List, [], ◌∷◌, leb, ltb, if◌then◌else◌,
  ℤ, require_non_negative_int, Result, ok, err, Error, value_error, runtime_error, key_error,
  wallet_exhausted, ◌>>=◌, ◌>>◌, require, nat_eq, list_eq, lookup, put, Text, String,
}
use tarkka.Traversal.Target.{is_some}

pub record ContextWalletOperation : Type 0 where
  pub estimated_tokens : ℕ
  pub consumed_tokens : ℕ
  pub completed_at : ℕ

pub record ContextWalletRecord : Type 0 where
  pub wallet_id : ℕ
  pub max_tokens : ℕ
  pub consumed_tokens : ℕ
  pub created_at : ℕ
  pub updated_at : ℕ
  pub operations : List (Text × ContextWalletOperation)

abbrev pub Store : Type 0
Store = Option (List (ℕ × ContextWalletRecord))

-- ContextWalletRecord.__post_init__
unfoldable pub post_init : ContextWalletRecord → Result ContextWalletRecord
post_init r = do
  require (leb r.consumed_tokens r.max_tokens)
      "wallet consumed_tokens must be within its configured limit"
  ok r

-- ContextWalletRecord.remaining_tokens
abbrev pub remaining_tokens : ContextWalletRecord → ℕ
remaining_tokens r = r.max_tokens - r.consumed_tokens

-- `_record_from_dict`, of what `_record_to_dict` wrote: the constructor checks the record again, and
-- its ValueError becomes a RuntimeError.
abbrev pub record_from_dict : ContextWalletRecord → Result ContextWalletRecord
record_from_dict r =
    if leb r.consumed_tokens r.max_tokens
    then ok r
    else err (runtime_error "invalid context wallet record")

abbrev pub wallets_of : Store → List (ℕ × ContextWalletRecord)
wallets_of none = []
wallets_of (some wallets) = wallets

-- JsonContextWalletStore.create
unfoldable pub create : Store → ContextWalletRecord → Result Store
create store r =
    if is_some (lookup r.wallet_id (wallets_of store))
    then err (runtime_error "context wallet identifier collision")
    else ok (some (put r.wallet_id r (wallets_of store)))

abbrev pub read_wallet : Option ContextWalletRecord → Result (Option ContextWalletRecord)
read_wallet none = ok none
read_wallet (some r) = do r' ← record_from_dict r; ok (some r')

-- JsonContextWalletStore.get
unfoldable pub get : Store → ℕ → Result (Option ContextWalletRecord)
get none wallet_id = ok none
get (some wallets) wallet_id = read_wallet (lookup wallet_id wallets)

-- The record after a success of `estimated` tokens.
abbrev pub spent : ContextWalletRecord → Text → ℕ → ℕ → ContextWalletRecord
spent current operation_key estimated completed_at = record current {
  consumed_tokens = current.consumed_tokens + estimated;
  updated_at = completed_at;
  operations =
      put operation_key
        (record {
          estimated_tokens = estimated;
          consumed_tokens = current.consumed_tokens + estimated;
          completed_at = completed_at;
        })
        current.operations;
}

module _ (wallet_id : ℕ) (operation_key : Text) (estimated completed_at : ℕ) where
  -- A new operation: spend, or refuse.
  unfoldable pub commit_new :
      List (ℕ × ContextWalletRecord) → ContextWalletRecord → Result (ContextWalletRecord × Store)
  unfolding post_init
  commit_new wallets current =
      if ltb (remaining_tokens current) estimated
      then err (wallet_exhausted estimated current.max_tokens (remaining_tokens current))
      else do
        updated ← post_init (spent current operation_key estimated completed_at)
        ok (updated, some (put wallet_id updated wallets))

  -- A retry of an operation returns the record as it is.
  abbrev pub commit_operation :
      List (ℕ × ContextWalletRecord)
      → ContextWalletRecord
      → Option ContextWalletOperation
      → Result (ContextWalletRecord × Store)
  commit_operation wallets current (some prior) = ok (current, some wallets)
  commit_operation wallets current none = commit_new wallets current

  abbrev pub commit_wallet :
      List (ℕ × ContextWalletRecord)
      → Option ContextWalletRecord
      → Result (ContextWalletRecord × Store)
  commit_wallet wallets none = err key_error
  commit_wallet wallets (some payload) = do
    current ← record_from_dict payload
    commit_operation wallets current (lookup operation_key current.operations)

  -- JsonContextWalletStore.commit_success
  unfoldable pub commit_success : Store → Result (ContextWalletRecord × Store)
  commit_success none = err key_error
  commit_success (some wallets) = commit_wallet wallets (lookup wallet_id wallets)
