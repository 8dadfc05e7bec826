-- ===== src/Wallet/Store/Recorded.antt =====
-- What an operation has recorded stays in the store when wallets are created and other operations are
-- committed.
use tarkka.Prelude.{
  ℕ, ◌≡◌, refl, sym, ap, subst, ◌∙◌, false, Option, none, some, List, arith, Bool-cases, inl, inr,
  ok, nat_eq, list_eq, nat_beq_iff, list_beq_iff, lookup, put, lookup-put_ne, lookup-put, Text,
  ◌==◌,
}
use tarkka.Wallet.Store.{ContextWalletOperation, ContextWalletRecord, Store, wallets_of, create}
use tarkka.Wallet.Store.Ledger.{IsLedger, IsBalanced, IsCommitted, retried, committed, put-IsLedger}

-- The wallet has this operation under the key, and this limit and identifier.
pub record IsRecorded (id : ℕ) (key : Text) (operation : ContextWalletOperation) (limit name : ℕ)
    (store : Store) : Type 0 where
  pub wallets : List (ℕ × ContextWalletRecord)
  pub entry : ContextWalletRecord
  pub stored : store ≡ some wallets
  pub found : lookup id wallets ≡ some entry
  pub known : lookup key entry.operations ≡ some operation
  pub limited : entry.max_tokens ≡ limit
  pub named : entry.wallet_id ≡ name

some_not_none : {A : Type 0} {a : A} {o : Option A} → o ≡ some a → o ≡ none → ⊥
some_not_none h h' = cc

module _ (id : ℕ) (key : Text) (operation : ContextWalletOperation) (limit name : ℕ) where
  -- Another wallet is put into the store.
  IsRecorded-put_ne :
      (other : ℕ) (r : ContextWalletRecord) (wallets : List (ℕ × ContextWalletRecord))
      → (other == id) ≡ false
      → IsRecorded id key operation limit name (some wallets)
      → IsRecorded id key operation limit name (some (put other r wallets))
  IsRecorded-put_ne other r wallets ne h =
      let same : h.wallets ≡ wallets = let e : some wallets ≡ some h.wallets = h.stored in cc in
      record {
        wallets = put other r wallets;
        entry = h.entry;
        stored = refl;
        found =
            lookup-put_ne other id r wallets ne
            ∙ ap (λ (w : List (ℕ × ContextWalletRecord)). lookup id w) (sym same)
            ∙ h.found;
        known = h.known;
        limited = h.limited;
        named = h.named;
      }

  pub IsRecorded-create :
      (store store' : Store) (r : ContextWalletRecord)
      → create store r ≡ ok store'
      → IsRecorded id key operation limit name store
      → IsRecorded id key operation limit name store'
  unfolding create
  IsRecorded-create none store' r h rec = absurd (let e = rec.stored in cc)
  IsRecorded-create (some wallets) store' r h rec = elim (Bool-cases (r.wallet_id == id)) [
    | inl same ↦
        let same_wallets : rec.wallets ≡ wallets =
          let e : some wallets ≡ some rec.wallets = rec.stored in cc in
        let held : lookup r.wallet_id wallets ≡ some rec.entry =
          ap (λ (k : ℕ). lookup k wallets) ((nat_beq_iff r.wallet_id id).0 same)
          ∙ ap (λ (w : List (ℕ × ContextWalletRecord)). lookup id w) (sym same_wallets)
          ∙ rec.found in
        absurd (ground (arith, held))
    | inr ne ↦
        let e : store' ≡ some (put r.wallet_id r wallets) = ground arith in
        subst (IsRecorded id key operation limit name) (sym e)
          (IsRecorded-put_ne r.wallet_id r wallets ne rec)
  ]

  pub IsRecorded-IsCommitted :
      {other : ℕ} {other_key : Text} {estimated now : ℕ} {store store' : Store}
      {r : ContextWalletRecord}
      → IsCommitted other other_key estimated now store r store'
      → IsRecorded id key operation limit name store
      → IsRecorded id key operation limit name store'
  IsRecorded-IsCommitted (retried found prior known) h = h
  IsRecorded-IsCommitted {other} {other_key} {estimated} {now}
        (committed {wallets} {r} {current} found within s) h =
      let same_wallets : h.wallets ≡ wallets =
        let e : some wallets ≡ some h.wallets = h.stored in cc in
      subst (IsRecorded id key operation limit name) (sym s.stored)
        (elim (Bool-cases (other == id)) [
          | inr ne ↦ IsRecorded-put_ne other r wallets ne h
          | inl same ↦
              let e : other ≡ id = (nat_beq_iff other id).0 same in
              let both : some current ≡ some h.entry =
                sym found
                ∙ ap (λ (k : ℕ). lookup k wallets) e
                ∙ ap (λ (w : List (ℕ × ContextWalletRecord)). lookup id w) (sym same_wallets)
                ∙ h.found in
              let here : h.entry ≡ current = cc in
              let known : lookup key current.operations ≡ some operation =
                ap (λ (c : ContextWalletRecord). lookup key c.operations) (sym here) ∙ h.known in
              let differs : (other_key == key) ≡ false = elim (Bool-cases (other_key == key)) [
                | inl alike ↦ absurd (
                    some_not_none
                      (ap (λ (k : Text). lookup k current.operations)
                          ((list_beq_iff other_key key).0 alike)
                        ∙ known)
                      s.new)
                | inr apart ↦ apart
              ] in
              record {
                wallets = put other r wallets;
                entry = r;
                stored = refl;
                found =
                    ap (λ (k : ℕ). lookup k (put other r wallets)) (sym e)
                    ∙ lookup-put other r wallets;
                known =
                    ap (λ (c : ContextWalletRecord). lookup key c.operations) s.updated
                    ∙ lookup-put_ne other_key key _ current.operations differs
                    ∙ known;
                limited =
                    ap (λ (c : ContextWalletRecord). c.max_tokens) (s.updated)
                    ∙ ap (λ (c : ContextWalletRecord). c.max_tokens) (sym here)
                    ∙ h.limited;
                named =
                    ap (λ (c : ContextWalletRecord). c.wallet_id) (s.updated)
                    ∙ ap (λ (c : ContextWalletRecord). c.wallet_id) (sym here)
                    ∙ h.named;
              }
        ])

pub create-IsLedger :
    (store store' : Store) (r : ContextWalletRecord)
    → create store r ≡ ok store'
    → IsBalanced r
    → IsLedger store
    → IsLedger store'
unfolding create
create-IsLedger store store' r h balanced ledger =
    let e : store' ≡ some (put r.wallet_id r (wallets_of store)) = ground arith in
    subst IsLedger (sym e) (put-IsLedger r.wallet_id r (wallets_of store) balanced ledger)
