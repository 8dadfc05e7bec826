-- ===== src/Wallet/Service/Later.antt =====
-- A retry of an operation, however much later: the calls of ContextWalletService in application/
-- context_wallet.py that change the store keep what an operation has recorded.
use tarkka.Prelude.{
  ℕ, ◌≡◌, refl, sym, ap, subst, ◌∙◌, Option, some, List, [], ◌∷◌, arith, ℤ, pos,
  require_non_negative_int, Result, ok, err, on_ok, nat_eq, list_eq, lookup, Text,
}
use tarkka.Wallet.Store.{
  ContextWalletOperation, ContextWalletRecord, Store, wallets_of, create, commit_success,
}
use tarkka.Wallet.Store.Ledger.{
  IsLedger, IsBalanced, commit_success-IsCommitted, commit_success-IsLedger,
}
use tarkka.Wallet.Store.Retry.{commit_known, IsCommitted-operation}
use tarkka.Wallet.Service.{
  Codecs, ContextWalletBalance, parse_context_wallet_handle, operation_key_of, operation_balance,
  commit_errors, create_wallet, spend_success,
}
use tarkka.Wallet.Store.Recorded.{
  IsRecorded, IsRecorded-create, IsRecorded-IsCommitted, create-IsLedger,
}

-- The calls that change the store.
pub data Call : Type 0 where
  creates : ℤ → ℕ → ℕ → Call
  spends : Text → Option Text → ℤ → ℕ → Call

-- A call that raises leaves the store as it was.
abbrev pub kept_on_error : Result (ContextWalletBalance × Store) → Store → Store
kept_on_error (ok result) store = result.1
kept_on_error (err e) store = store

abbrev pub call_of : Codecs → Call → Store → Result (ContextWalletBalance × Store)
call_of io (creates max_tokens wallet_id now) store =
    create_wallet io store max_tokens wallet_id now
call_of io (spends wallet_handle operation_key estimated_tokens now) store =
    spend_success io store wallet_handle operation_key estimated_tokens now

unfoldable pub run : Codecs → List Call → Store → Store
run io [] store = store
run io (call ∷ calls) store = run io calls (kept_on_error (call_of io call store) store)

committed-of_ok :
    (answer : Result (ContextWalletRecord × Store)) {done : ContextWalletRecord × Store}
    → commit_errors answer ≡ ok done
    → answer ≡ ok (done.0, done.1)
committed-of_ok (ok done) h = cc
committed-of_ok (err e) h = cc

-- A spend that returns has committed an operation, whose balance it returns.
record IsSpend (io : Codecs) (store : Store) (wallet_handle : Text) (operation_key : Option Text)
    (estimated_tokens : ℤ) (now : ℕ) (b : ContextWalletBalance) (store' : Store) : Type 0 where
  pub id : ℕ
  pub key : Text
  pub estimated : ℕ
  pub entry : ContextWalletRecord
  pub parsed : parse_context_wallet_handle io wallet_handle ≡ ok id
  pub accepted : operation_key_of io operation_key ≡ ok key
  pub commit : commit_success id key estimated now store ≡ ok (entry, store')
  pub balance : operation_balance entry (lookup key entry.operations) ≡ ok b

spend_success-IsSpend :
    (io : Codecs) (store : Store) (wallet_handle : Text) (operation_key : Option Text)
    (estimated_tokens : ℤ) (now : ℕ) {b : ContextWalletBalance} {store' : Store}
    → spend_success io store wallet_handle operation_key estimated_tokens now ≡ ok (b, store')
    → IsSpend io store wallet_handle operation_key estimated_tokens now b store'
unfolding spend_success
spend_success-IsSpend io store wallet_handle operation_key estimated_tokens now {b} {store'} h =
    on_ok (parse_context_wallet_handle io wallet_handle) _ h λ id parsed h1.
      on_ok (operation_key_of io operation_key) _ h1 λ key accepted h2.
        on_ok (require_non_negative_int estimated_tokens _) _ h2 λ estimated given h3.
          on_ok (commit_errors (commit_success id key estimated now store)) _ h3 λ done e h4.
            on_ok (operation_balance done.0 (lookup key done.0.operations)) _ h4 λ result e' h5.
              let first = committed-of_ok (commit_success id key estimated now store) e in
              let same : done.1 ≡ store' = cc in
              let same_b : result ≡ b = cc in
              record {
                id = id;
                key = key;
                estimated = estimated;
                entry = done.0;
                parsed = parsed;
                accepted = accepted;
                commit = first ∙ ap (λ (s : Store). ok (done.0, s)) same;
                balance = e' ∙ ap ok same_b;
              }

same_balance :
    (first last : ContextWalletRecord) (operation : ContextWalletOperation)
    → first.max_tokens ≡ last.max_tokens
    → first.wallet_id ≡ last.wallet_id
    → operation_balance last (some operation) ≡ operation_balance first (some operation)
same_balance first last operation limit name = cc

module _ (io : Codecs) (id : ℕ) (key : Text) (operation : ContextWalletOperation)
    (limit name : ℕ) where
  -- What a call keeps.
  abbrev IsSafe : Store → Type 0
  IsSafe store = IsLedger store × IsRecorded id key operation limit name store

  call-IsSafe :
      (call : Call) (store : Store) (b : ContextWalletBalance) (store' : Store)
      → call_of io call store ≡ ok (b, store')
      → IsSafe store
      → IsSafe store'
  unfolding create_wallet
  call-IsSafe (creates max_tokens wallet_id now) store b store' h safe =
      on_ok (require_non_negative_int max_tokens _) _ h λ tokens given h1.
        let new : ContextWalletRecord = record {
          wallet_id = wallet_id;
          max_tokens = tokens;
          consumed_tokens = 0;
          created_at = now;
          updated_at = now;
          operations = [];
        } in
        on_ok (create store new) _ h1 λ created e h2.
          let same : created ≡ store' = cc in
          let balanced : IsBalanced new = record { within = omega arith; accounted = refl } in
          subst IsSafe same (
            create-IsLedger store created new e balanced safe.0,
            IsRecorded-create id key operation limit name store created new e safe.1,
          )
  call-IsSafe (spends wallet_handle operation_key estimated_tokens now) store b store' h safe =
      let spend =
        spend_success-IsSpend io store wallet_handle operation_key estimated_tokens now {b = b}
          {store' = store'} h in
      (
        (commit_success-IsLedger spend.id spend.key spend.estimated now store {r = spend.entry}
            {store' = store'} safe.0 spend.commit).0,
        IsRecorded-IsCommitted id key operation limit name
            (commit_success-IsCommitted spend.id spend.key spend.estimated now store
              {r = spend.entry} {store' = store'} spend.commit)
            safe.1,
      )

  run-IsSafe : (calls : List Call) (store : Store) → IsSafe store → IsSafe (run io calls store)
  unfolding run
  run-IsSafe [] store safe = safe
  run-IsSafe (call ∷ calls) store safe = run-IsSafe calls _ (next (call_of io call store) refl)
    where
      next :
          (answer : Result (ContextWalletBalance × Store))
          → call_of io call store ≡ answer
          → IsSafe (kept_on_error answer store)
      next (ok (b, store')) e = call-IsSafe call store b store' e safe
      next (err e) _ = safe

-- A spend that is repeated with its operation key, whatever other spends and creations of wallets come
-- in between, whatever it is now said to cost and whenever, returns the balance of the first one and
-- leaves the store as it is.
pub spend_success-retried :
    (io : Codecs) (store : Store) (wallet_handle : Text) (operation_key : Option Text)
    (estimated again : ℕ) (now later : ℕ) (calls : List Call) {b : ContextWalletBalance}
    {store' : Store}
    → IsLedger store
    → spend_success io store wallet_handle operation_key (pos estimated) now ≡ ok (b, store')
    → spend_success io (run io calls store') wallet_handle operation_key (pos again) later
      ≡ ok (b, run io calls store')
unfolding spend_success
spend_success-retried io store wallet_handle operation_key estimated again now later calls {b}
      {store'} ledger h =
    let spend =
      spend_success-IsSpend io store wallet_handle operation_key (pos estimated) now {b = b}
        {store' = store'} h in
    let done =
      commit_success-IsLedger spend.id spend.key spend.estimated now store {r = spend.entry}
        {store' = store'} ledger spend.commit in
    let (operation, wallets, known, stored) = IsCommitted-operation (
      commit_success-IsCommitted spend.id spend.key spend.estimated now store {r = spend.entry}
        {store' = store'} spend.commit) in
    let limit = spend.entry.max_tokens in
    let name = spend.entry.wallet_id in
    let (ledger', r) = run-IsSafe io spend.id spend.key operation limit name calls store' (
      done.0,
      record {
        wallets = wallets;
        entry = spend.entry;
        stored = stored;
        found = ap (λ (s : Store). lookup spend.id (wallets_of s)) (sym stored) ∙ done.1;
        known = known;
        limited = refl;
        named = refl;
      },
    ) in
    let held : lookup spend.id (wallets_of (run io calls store')) ≡ some r.entry =
      ap (λ (s : Store). lookup spend.id (wallets_of s)) r.stored ∙ r.found in
    let within = (ledger' spend.id r.entry held).within in
    let second : commit_success spend.id spend.key again later (run io calls store')
        ≡ ok (r.entry, run io calls store') =
      subst (λ (s : Store). commit_success spend.id spend.key again later s ≡ ok (r.entry, s))
        (sym r.stored)
        (commit_known spend.id spend.key again later r.wallets r.entry operation r.found within
          r.known) in
    let balanced : operation_balance r.entry (lookup spend.key r.entry.operations) ≡ ok b =
      ap (operation_balance r.entry) r.known
      ∙ same_balance spend.entry r.entry operation (sym r.limited) (sym r.named)
      ∙ ap (operation_balance spend.entry) (sym known)
      ∙ spend.balance in
    rw (spend.parsed, spend.accepted, second, balanced) refl
