-- ===== src/Lighter.antt =====
-- services/exchanges/lighter: what the Lighter exchange's client keeps and computes by itself.
pub mod Nonce
pub mod OrderIndex
pub mod Reconciler
