-- ===== src/Kamino.antt =====
-- packages/solana/src/kamino: the accounts of the lending market that the guard reads.
pub mod Bytes
pub mod Reserve
pub mod Obligation
pub mod Market
pub mod Caps
pub mod Rates
mod Examples
