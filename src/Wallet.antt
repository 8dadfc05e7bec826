-- ===== src/Wallet.antt =====
-- The cumulative token wallets: the store in infrastructure/storage/json_context_wallet_store.py and
-- the service in application/context_wallet.py.
pub mod Store
pub mod Service
