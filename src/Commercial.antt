-- ===== src/Commercial.antt =====
-- services/commercial-service: wallets and locked assets.
pub mod Wallet
