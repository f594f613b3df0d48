-- ===== src/Program.antt =====
-- The on-chain program: programs/floor-program/src.
pub mod Errors
pub mod Checked
pub mod State
pub mod Host
pub mod Accounts
pub mod Utils
pub mod Pool
pub mod RoundStart
pub mod ForcedClose
pub mod FullClose
pub mod Allocations
pub mod RoundAccounts
pub mod Instructions
pub mod Dispatch
pub mod Invariant
pub mod Examples
