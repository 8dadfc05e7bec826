-- ===== src/Wallet/Service.antt =====
-- ContextWalletService of application/context_wallet.py.
pub mod Preview
pub mod Later
use tarkka.Prelude.{
  ℕ, ◌+◌, ◌-◌, Bool, true, false, not, Option, none, some, List, [], ◌∷◌, leb, ltb, if◌then◌else◌,
  any, length, drop, ℤ, require_non_negative_int, Result, ok, err, Error, value_error,
  runtime_error, key_error, lookup_error, wallet_exhausted, ◌>>=◌, ◌>>◌, require, nat_eq, list_eq,
  lookup, Text, codes, is_blank, starts_with,
}
use tarkka.Robots.Canonical.{is_surrogate}
use tarkka.Wallet.Store
use tarkka.Wallet.Store.{
  ContextWalletOperation, ContextWalletRecord, Store, remaining_tokens, post_init, get, create,
  commit_success,
}

-- UUID(text), where a ValueError is `none`, and the hexadecimal SHA-256 digest of a text's UTF-8.
pub record Codecs : Type 0 where
  pub parse_uuid : Text → Option ℕ
  pub sha256 : Text → Text

pub record ContextWalletBalance : Type 0 where
  pub wallet_id : ℕ
  pub max_tokens : ℕ
  pub consumed_tokens : ℕ
  pub remaining_tokens : ℕ

abbrev or_invalid : Option ℕ → Result ℕ
or_invalid none = err (value_error "wallet_handle must be a context_wallet:UUID handle")
or_invalid (some id) = ok id

-- parse_context_wallet_handle
unfoldable pub parse_context_wallet_handle : Codecs → Text → Result ℕ
unfolding starts_with
parse_context_wallet_handle io raw = do
  require (starts_with (codes "context_wallet:") raw)
      "wallet_handle must be a context_wallet:UUID handle"
  or_invalid (io.parse_uuid (drop 15 raw))

-- _operation_key
unfoldable pub operation_key_of : Codecs → Option Text → Result Text
unfolding is_blank is_surrogate
operation_key_of io none =
    err (value_error "operation_key must be a non-blank string when wallet_handle is supplied")
operation_key_of io (some raw) = do
  require (not (is_blank raw))
      "operation_key must be a non-blank string when wallet_handle is supplied"
  require (leb (length raw) 256) "operation_key must not exceed 256 characters"
  require (not (any is_surrogate raw)) "surrogates not allowed"
  ok (io.sha256 raw)

-- _balance
abbrev pub balance : ContextWalletRecord → ContextWalletBalance
balance r = record {
  wallet_id = r.wallet_id;
  max_tokens = r.max_tokens;
  consumed_tokens = r.consumed_tokens;
  remaining_tokens = remaining_tokens r;
}

-- The balance right after an operation.
abbrev pub balance_after : ContextWalletRecord → ContextWalletOperation → ContextWalletBalance
balance_after r operation = record {
  wallet_id = r.wallet_id;
  max_tokens = r.max_tokens;
  consumed_tokens = operation.consumed_tokens;
  remaining_tokens = r.max_tokens - operation.consumed_tokens;
}

abbrev pub operation_balance :
    ContextWalletRecord → Option ContextWalletOperation → Result ContextWalletBalance
operation_balance r none = err key_error
operation_balance r (some operation) = ok (balance_after r operation)

-- The errors of the store, as the service raises them.
abbrev pub wrapped : Error → Error
wrapped key_error = lookup_error "context wallet not found"
wrapped (runtime_error message) = runtime_error "unable to commit context wallet spend"
wrapped e = e

abbrev pub commit_errors :
    Result (ContextWalletRecord × Store) → Result (ContextWalletRecord × Store)
commit_errors (ok committed) = ok committed
commit_errors (err e) = err (wrapped e)

abbrev pub read_errors : Result (Option ContextWalletRecord) → Result ContextWalletRecord
read_errors (ok none) = err (lookup_error "context wallet not found")
read_errors (ok (some r)) = ok r
read_errors (err e) = err (runtime_error "unable to read context wallet")

module _ (io : Codecs) (store : Store) where
  -- ContextWalletService.create, with the identifier and the time that it draws
  unfoldable pub create_wallet : ℤ → ℕ → ℕ → Result (ContextWalletBalance × Store)
  unfolding create
  create_wallet max_tokens wallet_id now = do
    limit ← require_non_negative_int max_tokens "wallet max_tokens must be non-negative"
    let r : ContextWalletRecord = record {
      wallet_id = wallet_id;
      max_tokens = limit;
      consumed_tokens = 0;
      created_at = now;
      updated_at = now;
      operations = [];
    }
    store' ← create store r
    ok (balance r, store')

  -- ContextWalletService._record
  unfoldable pub record_of : Text → Result ContextWalletRecord
  record_of wallet_handle = do
    wallet_id ← parse_context_wallet_handle io wallet_handle
    read_errors (get store wallet_id)

  -- ContextWalletService.get
  unfoldable pub get_balance : Text → Result ContextWalletBalance
  get_balance wallet_handle = do r ← record_of wallet_handle; ok (balance r)

  -- ContextWalletService.spend_success
  unfoldable pub spend_success : Text → Option Text → ℤ → ℕ → Result (ContextWalletBalance × Store)
  spend_success wallet_handle operation_key estimated_tokens now = do
    wallet_id ← parse_context_wallet_handle io wallet_handle
    key ← operation_key_of io operation_key
    estimated ← require_non_negative_int estimated_tokens "estimated_tokens must be non-negative"
    committed ← commit_errors (commit_success wallet_id key estimated now store)
    result ← operation_balance committed.0 (lookup key committed.0.operations)
    ok (result, committed.1)

  abbrev pub preview_operation :
      ContextWalletRecord → ℕ → Option ContextWalletOperation → Result ContextWalletBalance
  preview_operation r estimated (some prior) = ok (balance_after r prior)
  preview_operation r estimated none =
      if ltb (remaining_tokens r) estimated
      then err (wallet_exhausted estimated r.max_tokens (remaining_tokens r))
      else ok (record {
        wallet_id = r.wallet_id;
        max_tokens = r.max_tokens;
        consumed_tokens = r.consumed_tokens + estimated;
        remaining_tokens = remaining_tokens r - estimated;
      })

  -- ContextWalletService.preview_success
  unfoldable pub preview_success : Text → Option Text → ℤ → Result ContextWalletBalance
  preview_success wallet_handle operation_key estimated_tokens = do
    key ← operation_key_of io operation_key
    estimated ← require_non_negative_int estimated_tokens "estimated_tokens must be non-negative"
    r ← record_of wallet_handle
    preview_operation r estimated (lookup key r.operations)
