-- ===== src/Wallet/Service/Preview.antt =====
-- A preview tells what a spend would return.
use tarkka.Prelude.{
  ℕ, ◌+◌, ◌-◌, ◌≤◌, ◌≡◌, refl, true, Option, none, some, List, arith, Bool-cases, inl, inr, leb,
  ltb, leb→le, ℤ, pos, negsuc, Result-cases, Error, require_non_negative_int, Result, ok, err,
  ◌>>=◌, nat_eq, list_eq, lookup, put, lookup-put, Text,
}
use tarkka.Wallet.Store.{
  ContextWalletOperation, ContextWalletRecord, Store, remaining_tokens, spent, post_init, get,
  read_wallet, commit_new, commit_operation, commit_wallet, commit_success,
}
use tarkka.Wallet.Service.{
  Codecs, ContextWalletBalance, parse_context_wallet_handle, operation_key_of, operation_balance,
  commit_errors, read_errors, record_of, spend_success, preview_operation, preview_success,
}

-- Two calls return the same balance, or neither returns.
abbrev pub IsAgreement :
    Result ContextWalletBalance → Result (ContextWalletBalance × Store) → Type 0
IsAgreement preview spend =
    ((b : ContextWalletBalance) → preview ≡ ok b → (store : Store) × (spend ≡ ok (b, store)))
    × ((b : ContextWalletBalance) (store : Store) → spend ≡ ok (b, store) → preview ≡ ok b)

module _ (id : ℕ) (key : Text) (estimated now : ℕ) where
  -- The end of `spend_success`, for what the store answered.
  abbrev finish : Result (ContextWalletRecord × Store) → Result (ContextWalletBalance × Store)
  finish answer = do
    committed ← commit_errors answer
    result ← operation_balance committed.0 (lookup key committed.0.operations)
    ok (result, committed.1)

  new-IsAgreement :
      (io : Codecs) (store : Store) (r : ContextWalletRecord)
      (wallets : List (ℕ × ContextWalletRecord))
      → r.consumed_tokens ≤ r.max_tokens
      → IsAgreement
          (preview_operation io store r estimated none)
          (finish (commit_new id key estimated now wallets r))
  unfolding commit_new post_init
  new-IsAgreement io store r wallets within =
      elim (Bool-cases (ltb (remaining_tokens r) estimated)) [
        | inl much ↦ rw much (λ b h. cc, λ b s h. cc)
        | inr fits ↦
            let operation : ContextWalletOperation = record {
              estimated_tokens = estimated;
              consumed_tokens = r.consumed_tokens + estimated;
              completed_at = now;
            } in
            let checked : leb (r.consumed_tokens + estimated) r.max_tokens ≡ true = ground arith in
            let same : remaining_tokens r - estimated
                ≡ r.max_tokens - (r.consumed_tokens + estimated) =
              omega arith in
            let stored = some (put id (spent r key estimated now) wallets) in
            rw (fits, checked, lookup-put key operation r.operations, same)
              (λ b h. (stored, cc), λ b s h. cc)
      ]

  operation-IsAgreement :
      (io : Codecs) (store : Store) (r : ContextWalletRecord)
      (wallets : List (ℕ × ContextWalletRecord)) (prior : Option ContextWalletOperation)
      → r.consumed_tokens ≤ r.max_tokens
      → lookup key r.operations ≡ prior
      → IsAgreement
          (preview_operation io store r estimated prior)
          (finish (commit_operation id key estimated now wallets r prior))
  operation-IsAgreement io store r wallets none within e = new-IsAgreement io store r wallets within
  operation-IsAgreement io store r wallets (some prior) within e =
      rw e (λ b h. (some wallets, cc), λ b s h. cc)

  -- What `preview_success` does with the record that it reads.
  abbrev look : Codecs → Store → Result ContextWalletRecord → Result ContextWalletBalance
  look io store answer = do
    r ← answer
    preview_operation io store r estimated (lookup key r.operations)

  wallet-IsAgreement :
      (io : Codecs) (store : Store) (wallets : List (ℕ × ContextWalletRecord))
      (payload : Option ContextWalletRecord)
      → IsAgreement
          (look io store (read_errors (read_wallet payload)))
          (finish (commit_wallet id key estimated now wallets payload))
  wallet-IsAgreement io store wallets none = (λ b h. cc, λ b s h. cc)
  wallet-IsAgreement io store wallets (some r) =
      elim (Bool-cases (leb r.consumed_tokens r.max_tokens)) [
        | inl within ↦ rw within (
            operation-IsAgreement io store r wallets (lookup key r.operations) (leb→le _ _ within)
              refl)
        | inr broken ↦ rw broken (λ b h. cc, λ b s h. cc)
      ]

  store-IsAgreement :
      (io : Codecs) (store : Store)
      → IsAgreement
          (look io store (read_errors (get store id)))
          (finish (commit_success id key estimated now store))
  unfolding get commit_success
  store-IsAgreement io none = (λ b h. cc, λ b s h. cc)
  store-IsAgreement io (some wallets) =
      wallet-IsAgreement io (some wallets) wallets (lookup id wallets)

estimated-IsAgreement :
    (io : Codecs) (store : Store) (id : ℕ) (key : Text) (now : ℕ) (estimated_tokens : ℤ)
    → IsAgreement
        (require_non_negative_int estimated_tokens "estimated_tokens must be non-negative"
          >>= λ estimated. look id key estimated now io store (read_errors (get store id)))
        (require_non_negative_int estimated_tokens "estimated_tokens must be non-negative"
          >>= λ estimated. finish id key estimated now (commit_success id key estimated now store))
estimated-IsAgreement io store id key now (pos n) = store-IsAgreement id key n now io store
estimated-IsAgreement io store id key now (negsuc n) = (λ b h. cc, λ b s h. cc)

unparsed-IsAgreement :
    (e : Error) (estimated_tokens : ℤ)
    → IsAgreement
        (require_non_negative_int estimated_tokens "estimated_tokens must be non-negative"
          >>= λ estimated. err e)
        (err e)
unparsed-IsAgreement e (pos n) = (λ b h. cc, λ b s h. cc)
unparsed-IsAgreement e (negsuc n) = (λ b h. cc, λ b s h. cc)

-- A preview returns a balance exactly when the spend of the same operation would, and then the same
-- one: what the preview shows is what the spend charges, and a preview refuses what a spend refuses.
pub preview_success-IsAgreement :
    (io : Codecs) (store : Store) (wallet_handle : Text) (operation_key : Option Text)
    (estimated_tokens : ℤ) (now : ℕ)
    → IsAgreement
        (preview_success io store wallet_handle operation_key estimated_tokens)
        (spend_success io store wallet_handle operation_key estimated_tokens now)
unfolding preview_success spend_success record_of
preview_success-IsAgreement io store wallet_handle operation_key estimated_tokens now =
    elim (Result-cases (operation_key_of io operation_key)) [
      | inr (e, refused) ↦ elim (Result-cases (parse_context_wallet_handle io wallet_handle)) [
        | inl (id, parsed) ↦ rw (parsed, refused) (λ b h. cc, λ b s h. cc)
        | inr (e', unparsed) ↦ rw (unparsed, refused) (λ b h. cc, λ b s h. cc)
      ]
      | inl (key, accepted) ↦ elim (Result-cases (parse_context_wallet_handle io wallet_handle)) [
        | inl (id, parsed) ↦
            rw (parsed, accepted) (estimated-IsAgreement io store id key now estimated_tokens)
        | inr (e, unparsed) ↦ rw (unparsed, accepted) (unparsed-IsAgreement e estimated_tokens)
      ]
    ]
