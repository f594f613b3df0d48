-- ===== src/Program/Instructions.antt =====
-- The instruction handlers: programs/floor-program/src/instructions.
pub mod SellWaln
pub mod Initialize
pub mod AatNft
pub mod CloseRound
pub mod ClaimWaln
pub mod DepositUsdc
pub mod Deposits
pub mod Volumes
pub mod WithdrawUsdc
pub mod Withdrawals
pub mod Admin
pub mod RemoveInvestor
pub mod Authority
