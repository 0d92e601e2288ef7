-- ===== src/Keeper.antt =====
-- apps/keeper/src: the bot that looks at every open position and proposes what the guard does.
pub mod Decide
pub mod Shorten
pub mod Runs
pub mod Loop
pub mod Chain
pub mod Instructions
pub mod Subject
pub mod Inputs
pub mod Guard
pub mod Watch
mod Examples
