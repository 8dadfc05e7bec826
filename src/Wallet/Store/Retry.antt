-- ===== src/Wallet/Store/Retry.antt =====
-- A success that is committed again changes nothing.
use tarkka.Prelude.{
  ℕ, ◌+◌, ◌≤◌, ◌≡◌, refl, sym, ◌∙◌, ap, true, some, List, arith, leb, ok, nat_eq, list_eq, lookup,
  lookup-put, Text,
}
use tarkka.Wallet.Store.{
  ContextWalletOperation, ContextWalletRecord, Store, wallets_of, commit_success,
}
use tarkka.Wallet.Store.Ledger.{
  IsLedger, IsCommitted, retried, committed, commit_success-IsCommitted, commit_success-IsLedger,
}

le→leb : (a b : ℕ) → a ≤ b → leb a b ≡ true
le→leb a b h = ground arith

pub commit_known :
    (id : ℕ) (key : Text) (estimated completed_at : ℕ) (wallets : List (ℕ × ContextWalletRecord))
    (r : ContextWalletRecord) (prior : ContextWalletOperation)
    → lookup id wallets ≡ some r
    → r.consumed_tokens ≤ r.max_tokens
    → lookup key r.operations ≡ some prior
    → commit_success id key estimated completed_at (some wallets) ≡ ok (r, some wallets)
unfolding commit_success
commit_known id key estimated completed_at wallets r prior found within known =
    rw (found, le→leb r.consumed_tokens r.max_tokens within, known) refl

pub IsCommitted-operation :
    {id : ℕ} {key : Text} {estimated completed_at : ℕ} {store store' : Store}
    {r : ContextWalletRecord}
    → IsCommitted id key estimated completed_at store r store'
    → (prior : ContextWalletOperation) × (wallets : List (ℕ × ContextWalletRecord)) × (lookup key
          r.operations
        ≡ some prior)
      × (store' ≡ some wallets)
IsCommitted-operation (retried {wallets} found prior known) = (prior, wallets, known, refl)
IsCommitted-operation {id} {key} {estimated} {completed_at}
      (committed {wallets} {r} {current} found within s) =
    let operation : ContextWalletOperation = record {
      estimated_tokens = estimated;
      consumed_tokens = current.consumed_tokens + estimated;
      completed_at = completed_at;
    } in
    (operation, _, rw s.updated (lookup-put key operation current.operations), s.stored)

-- Committing an operation again, whatever it is now said to cost and whenever, returns the record of
-- the first commit and leaves the store as that commit left it.
pub commit_success-twice :
    (id : ℕ) (key : Text) (estimated completed_at again later : ℕ) (store : Store)
    {r : ContextWalletRecord} {store' : Store}
    → IsLedger store
    → commit_success id key estimated completed_at store ≡ ok (r, store')
    → commit_success id key again later store' ≡ ok (r, store')
commit_success-twice id key estimated completed_at again later store {r} {store'} ledger h =
    let (ledger', found, balanced) =
      commit_success-IsLedger id key estimated completed_at store ledger h in
    let (prior, wallets, known, stored) =
      IsCommitted-operation (commit_success-IsCommitted id key estimated completed_at store h) in
    let found' : lookup id wallets ≡ some r =
      ap (λ s. lookup id (wallets_of s)) (sym stored) ∙ found in
    rw stored (commit_known id key again later wallets r prior found' balanced.within known)
