-- ===== src/Tests/Wallet.antt =====
-- Runs of the wallet store and service, and their theorems at concrete inputs.
use tarkka.Prelude.{
  ◌≡◌, refl, some, List, [], ◌∷◌, arith, pos, ok, err, wallet_exhausted, nat_eq, list_eq, lookup,
  Text, codes, length, list_beq, Bool-cases, nat_beq, inl, inr,
}
use tarkka.Wallet.Store.{
  ContextWalletRecord, Store, wallets_of, spent, commit_success, commit_new, create,
}
use tarkka.Wallet.Store.Ledger.{IsLedger, IsBalanced, commit_success-IsLedger}
use tarkka.Wallet.Store.Retry.{commit_success-twice}
use tarkka.Wallet.Service.{
  Codecs, ContextWalletBalance, spend_success, preview_success, parse_context_wallet_handle,
  operation_key_of, create_wallet,
}
use tarkka.Wallet.Service.Preview.{IsAgreement, preview_success-IsAgreement}
use tarkka.Wallet.Service.Later
use tarkka.Wallet.Service.Later.{spend_success-retried}

abbrev io : Codecs
io = record { parse_uuid = λ text. some (length text); sha256 = λ text. text }

abbrev fresh : ContextWalletRecord
fresh = record {
  wallet_id = 3;
  max_tokens = 100;
  consumed_tokens = 0;
  created_at = 1;
  updated_at = 1;
  operations = [];
}

abbrev store : Store
store = some ((3, fresh) ∷ [])

abbrev key : Text
key = codes "read"

abbrev after_read : ContextWalletRecord
after_read = spent fresh key 40 9

abbrev handle : Text
handle = codes "context_wallet:abc"

abbrev read_balance : ContextWalletBalance
read_balance = record {
  wallet_id = 3;
  max_tokens = 100;
  consumed_tokens = 40;
  remaining_tokens = 60;
}

model : Unit {0}
unfolding commit_success spend_success preview_success commit_new parse_context_wallet_handle
    operation_key_of list_beq
model = tt

commit_runs : commit_success 3 key 40 9 store ≡ ok (after_read, some ((3, after_read) ∷ []))
unfolding model
commit_runs = refl

exhausted_runs : commit_success 3 key 101 9 store ≡ err (wallet_exhausted 101 100 100)
unfolding model
exhausted_runs = refl

spend_runs :
    spend_success io store handle (some key) (pos 40) 9
    ≡ ok (read_balance, some ((3, after_read) ∷ []))
unfolding model
spend_runs = refl

store-IsLedger : IsLedger store
store-IsLedger id r e = elim (Bool-cases (nat_beq 3 id)) [
  | inl same ↦
      let e' : some r ≡ some fresh = ground arith in
      let e'' : r ≡ fresh = cc in rw e'' (record { within = omega arith; accounted = refl })
  | inr other ↦ absurd (ground arith)
]

commit_success-IsLedger_example :
    IsLedger (some ((3, after_read) ∷ []))
    × (lookup 3 (wallets_of (some ((3, after_read) ∷ []))) ≡ some after_read)
    × IsBalanced after_read
commit_success-IsLedger_example =
    commit_success-IsLedger 3 key 40 9 store {r = after_read} {store' = some ((3, after_read) ∷ [])}
      store-IsLedger commit_runs

commit_success-twice_example :
    commit_success 3 key 70 12 (some ((3, after_read) ∷ []))
    ≡ ok (after_read, some ((3, after_read) ∷ []))
commit_success-twice_example =
    commit_success-twice 3 key 40 9 70 12 store {r = after_read}
      {store' = some ((3, after_read) ∷ [])} store-IsLedger commit_runs

preview_success-IsAgreement_example :
    IsAgreement
      (preview_success io store handle (some key) (pos 40))
      (spend_success io store handle (some key) (pos 40) 9)
preview_success-IsAgreement_example =
    preview_success-IsAgreement io store handle (some key) (pos 40) 9

-- Another wallet, another operation and one that costs too much.
abbrev between : List Later.Call
between =
    Later.creates (pos 50) 8 10
    ∷ Later.spends handle (some (codes "write")) (pos 30) 11
    ∷ Later.spends handle (some (codes "index")) (pos 90) 11
    ∷ []

abbrev later_store : Store
later_store = Later.run io between (some ((3, after_read) ∷ []))

later_runs :
    later_store
    ≡ some (
        (3, spent after_read (codes "write") 30 11)
        ∷ (8, record fresh { wallet_id = 8; max_tokens = 50; created_at = 10; updated_at = 10 })
        ∷ [])
unfolding model Later.run create_wallet create
later_runs = refl

spend_success-retried_example :
    spend_success io later_store handle (some key) (pos 70) 12 ≡ ok (read_balance, later_store)
spend_success-retried_example =
    spend_success-retried io store handle (some key) 40 70 9 12 between {b = read_balance}
      {store' = some ((3, after_read) ∷ [])} store-IsLedger spend_runs
