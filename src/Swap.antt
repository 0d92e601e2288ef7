-- ===== src/Swap.antt =====
-- packages/solana/src/swap and packages/solana/src/jupiter/route.ts: the routers that fill a swap.
pub mod Route
pub mod Sandbox
pub mod Jupiter
