-- ===== src/Compile.antt =====
-- packages/solana/src/transactions: a transaction in the first format that fits.
pub mod Sizes
pub mod First
pub mod Fitting
mod Examples
pub mod Budget
pub mod Refused
