-- ===== src/Wallet/Store/Ledger.antt =====
-- The record of a wallet is the sum of its operations, within its limit.
use tarkka.Prelude.{
  ℕ, ◌+◌, ◌≤◌, ◌≡◌, refl, sym, ◌∙◌, Option, none, some, List, arith, leb→le, Bool-cases, inl, inr,
  leb, ltb, sum, ok, on_ok, on_require, nat_eq, list_eq, ◌==◌, lookup, put, lookup-put,
  lookup-put_ne, sum-put, Text, nat_beq_iff,
}
use tarkka.Wallet.Store.{
  ContextWalletOperation, ContextWalletRecord, Store, wallets_of, post_init, remaining_tokens,
  spent, commit_new, commit_operation, commit_wallet, commit_success,
}

abbrev pub total : List (Text × ContextWalletOperation) → ℕ
total = sum (λ (item : Text × ContextWalletOperation). item.1.estimated_tokens)

-- What the operations cost is what the wallet has consumed, and that is within its limit.
pub record IsBalanced (r : ContextWalletRecord) : Type 0 where
  pub within : r.consumed_tokens ≤ r.max_tokens
  pub accounted : r.consumed_tokens ≡ total r.operations

abbrev pub IsLedger : Store → Type 0
IsLedger store =
    (id : ℕ) (r : ContextWalletRecord) → lookup id (wallets_of store) ≡ some r → IsBalanced r

pub put-IsLedger :
    (id : ℕ) (r : ContextWalletRecord) (wallets : List (ℕ × ContextWalletRecord))
    → IsBalanced r
    → IsLedger (some wallets)
    → IsLedger (some (put id r wallets))
put-IsLedger id r wallets b ledger other found e = elim (Bool-cases (id == other)) [
  | inl same ↦
      let e' = (nat_beq_iff id other).0 same in
      let e'' = lookup-put id r wallets in
      let e3 = rw e' at e'' in let e4 : found ≡ r = cc in rw e4 b
  | inr ne ↦ ledger other found (sym (lookup-put_ne id other r wallets ne) ∙ e)
]

spent-IsBalanced :
    (current : ContextWalletRecord) (key : Text) (estimated completed_at : ℕ)
    → IsBalanced current
    → lookup key current.operations ≡ none
    → current.consumed_tokens + estimated ≤ current.max_tokens
    → IsBalanced (spent current key estimated completed_at)
spent-IsBalanced current key estimated completed_at b new fits = record {
  within = fits;
  accounted =
      let total_after =
        sum-put (λ (item : Text × ContextWalletOperation). item.1.estimated_tokens) key
          (record {
            estimated_tokens = estimated;
            consumed_tokens = current.consumed_tokens + estimated;
            completed_at = completed_at;
          })
          current.operations new in
      omega (arith, total_after, b.accounted);
}

module _ (id : ℕ) (key : Text) (estimated completed_at : ℕ) where
  -- What a commit that returns did: nothing for a known operation, or one spend within the limit.
  pub record IsSpent (current : ContextWalletRecord) (wallets : List (ℕ × ContextWalletRecord))
      (r : ContextWalletRecord) (store : Store) : Type 0 where
    pub new : lookup key current.operations ≡ none
    pub fits : current.consumed_tokens + estimated ≤ current.max_tokens
    pub updated : r ≡ spent current key estimated completed_at
    pub stored : store ≡ some (put id r wallets)

  pub data IsCommitted : Store → ContextWalletRecord → Store → Type 0 where
    retried :
        {wallets : List (ℕ × ContextWalletRecord)} {r : ContextWalletRecord}
        → lookup id wallets ≡ some r
        → (prior : ContextWalletOperation) → lookup key r.operations ≡ some prior
        → IsCommitted (some wallets) r (some wallets)
    committed :
        {wallets : List (ℕ × ContextWalletRecord)} {r current : ContextWalletRecord} {store : Store}
        → lookup id wallets ≡ some current
        → current.consumed_tokens ≤ current.max_tokens
        → IsSpent current wallets r store
        → IsCommitted (some wallets) r store

  commit_new-IsSpent :
      (current : ContextWalletRecord) (wallets : List (ℕ × ContextWalletRecord))
      {r : ContextWalletRecord} {store : Store}
      → current.consumed_tokens ≤ current.max_tokens
      → lookup key current.operations ≡ none
      → commit_new id key estimated completed_at wallets current ≡ ok (r, store)
      → IsSpent current wallets r store
  unfolding commit_new post_init
  commit_new-IsSpent current wallets {r} {store} within new h =
      elim (Bool-cases (ltb (remaining_tokens current) estimated)) [
        | inl much ↦ absurd (ground arith)
        | inr fits ↦
            on_ok {B = ContextWalletRecord × Store}
              (post_init (spent current key estimated completed_at))
              (λ updated. ok (updated, some (put id updated wallets))) {r = (r, store)}
              (ground arith)
              λ updated e h1.
                on_require (leb (current.consumed_tokens + estimated) current.max_tokens) _ _ e
                  λ t e1. record { new = new; fits = ground arith; updated = cc; stored = cc }
      ]

  commit_operation-IsCommitted :
      (current : ContextWalletRecord) (wallets : List (ℕ × ContextWalletRecord))
      (prior : Option ContextWalletOperation) {r : ContextWalletRecord} {store : Store}
      → lookup id wallets ≡ some current
      → current.consumed_tokens ≤ current.max_tokens
      → lookup key current.operations ≡ prior
      → commit_operation id key estimated completed_at wallets current prior ≡ ok (r, store)
      → IsCommitted (some wallets) r store
  commit_operation-IsCommitted current wallets none found within new h =
      committed found within (commit_new-IsSpent current wallets within new h)
  commit_operation-IsCommitted current wallets (some prior) {r} {store} found within known h =
      let e : r ≡ current = cc in
      let e' : store ≡ some wallets = cc in rw (e, e') (retried found prior known)

  commit_wallet-IsCommitted :
      (wallets : List (ℕ × ContextWalletRecord)) (payload : Option ContextWalletRecord)
      {r : ContextWalletRecord} {store : Store}
      → lookup id wallets ≡ payload
      → commit_wallet id key estimated completed_at wallets payload ≡ ok (r, store)
      → IsCommitted (some wallets) r store
  commit_wallet-IsCommitted wallets none found h = cc
  commit_wallet-IsCommitted wallets (some current) {r} {store} found h =
      elim (Bool-cases (leb current.consumed_tokens current.max_tokens)) [
        | inl within ↦
            commit_operation-IsCommitted current wallets (lookup key current.operations) {r = r}
              {store = store} found (leb→le _ _ within) refl (ground arith)
        | inr broken ↦ absurd (ground arith)
      ]

  pub commit_success-IsCommitted :
      (store : Store) {r : ContextWalletRecord} {store' : Store}
      → commit_success id key estimated completed_at store ≡ ok (r, store')
      → IsCommitted store r store'
  unfolding commit_success
  commit_success-IsCommitted none h = cc
  commit_success-IsCommitted (some wallets) h =
      commit_wallet-IsCommitted wallets (lookup id wallets) refl h

  pub IsCommitted-lookup :
      {store : Store} {r : ContextWalletRecord} {store' : Store}
      → IsCommitted store r store'
      → lookup id (wallets_of store') ≡ some r
  IsCommitted-lookup (retried found prior known) = found
  IsCommitted-lookup (committed {wallets} {r} found within s) =
      rw s.stored (lookup-put id r wallets)

  IsCommitted-IsLedger :
      {store : Store} {r : ContextWalletRecord} {store' : Store}
      → IsLedger store
      → IsCommitted store r store'
      → IsLedger store'
  IsCommitted-IsLedger ledger (retried found prior known) = ledger
  IsCommitted-IsLedger ledger (committed {wallets} {r} {current} found within s) =
      let b = ledger id current found in
      let b' = spent-IsBalanced current key estimated completed_at b s.new s.fits in
      rw (s.stored, s.updated)
        (put-IsLedger id (spent current key estimated completed_at) wallets b' ledger)

  -- A commit that returns keeps the ledger: every wallet has consumed exactly what its operations
  -- cost, and no more than its limit. The record that it returns is the stored one.
  pub commit_success-IsLedger :
      (store : Store) {r : ContextWalletRecord} {store' : Store}
      → IsLedger store
      → commit_success id key estimated completed_at store ≡ ok (r, store')
      → IsLedger store' × (lookup id (wallets_of store') ≡ some r) × IsBalanced r
  commit_success-IsLedger store {r} {store'} ledger h =
      let c = commit_success-IsCommitted store h in
      let ledger' = IsCommitted-IsLedger ledger c in
      let found = IsCommitted-lookup c in (ledger', found, ledger' id r found)
