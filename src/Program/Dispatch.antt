-- ===== src/Program/Dispatch.antt =====
-- lib.rs: the instructions, and the handler that each is passed on to.
pub mod Guards
use solana_floor_program.Base.{ℕ, Bool, List}
use solana_floor_program.Base.Int.{ℤ}
use solana_floor_program.Program.Errors.{Result}
use solana_floor_program.Program.State.{Pubkey}
use solana_floor_program.Program.Host.{Host}
use solana_floor_program.Program.Accounts.{Chain}
use solana_floor_program.Program.Instructions.Admin
use solana_floor_program.Program.Instructions.Authority
use solana_floor_program.Program.Instructions.AatNft
use solana_floor_program.Program.Instructions.DepositUsdc.{DepositUsdc, deposit_usdc}
use solana_floor_program.Program.Instructions.WithdrawUsdc.{WithdrawUsdc, withdraw_usdc}
use solana_floor_program.Program.Instructions.RemoveInvestor.{
  RemoveInvestorFromPool, remove_investor_from_pool,
}
use solana_floor_program.Program.Instructions.SellWaln.{SellWaln, sell_waln}
use solana_floor_program.Program.Instructions.CloseRound
use solana_floor_program.Program.Instructions.ClaimWaln.{ClaimWaln, claim_waln}

-- An instruction with its accounts and arguments. `initialize` stands apart: it makes the accounts
-- that all others work on.
pub data Call : Type 0 where
  set_floor_price set_round_size : (admin : Pubkey) → ℕ → Call
  set_lock_period set_usdc_withdraw_lock : (admin : Pubkey) → ℤ → Call
  set_investor_usdc_unlock : (admin investor : Pubkey) → ℤ → Call
  set_sell_paused set_frozen : (admin : Pubkey) → Bool → Call
  cancel_round : (admin : Pubkey) → Call
  remove_investor : RemoveInvestorFromPool → Call
  close_round : (admin : Pubkey) → List Pubkey → Call
  fund_treasury withdraw_treasury : (admin : Pubkey) → ℕ → Call
  deposit : DepositUsdc → ℕ → Call
  withdraw : WithdrawUsdc → ℕ → Call
  sell : SellWaln → ℕ → Call
  claim : ClaimWaln → ℕ → Call
  mint_aat update_aat : (admin investor account : Pubkey) → ℕ → Call
  transfer_authority : (admin new_admin : Pubkey) → Call
  accept_authority : (pending_admin : Pubkey) → Call
  close_round_record : (admin : Pubkey) → ℕ → Call

unfoldable pub dispatch : (h : Host) → Call → Chain h → Result (Chain h)
dispatch h (set_floor_price admin n) c = Admin.set_floor_price h admin n c
dispatch h (set_round_size admin n) c = Admin.set_round_size h admin n c
dispatch h (set_lock_period admin n) c = Admin.set_lock_period h admin n c
dispatch h (set_usdc_withdraw_lock admin n) c = Admin.set_usdc_withdraw_lock h admin n c
dispatch h (set_investor_usdc_unlock admin investor n) c =
    Admin.set_investor_usdc_unlock h admin investor n c
dispatch h (set_sell_paused admin b) c = Admin.set_sell_paused h admin b c
dispatch h (set_frozen admin b) c = Admin.set_frozen h admin b c
dispatch h (cancel_round admin) c = Admin.cancel_round h admin c
dispatch h (remove_investor a) c = remove_investor_from_pool h a c
dispatch h (close_round admin remaining) c = CloseRound.close_round h admin remaining c
dispatch h (fund_treasury admin n) c = Admin.fund_treasury h admin n c
dispatch h (withdraw_treasury admin n) c = Admin.withdraw_treasury h admin n c
dispatch h (deposit a n) c = deposit_usdc h a n c
dispatch h (withdraw a n) c = withdraw_usdc h a n c
dispatch h (sell a n) c = sell_waln h a n c
dispatch h (claim a n) c = claim_waln h a n c
dispatch h (mint_aat admin investor account n) c = AatNft.mint_aat_nft h admin investor account n c
dispatch h (update_aat admin investor mint n) c = AatNft.update_aat_volume h admin investor mint n c
dispatch h (transfer_authority admin new_admin) c = Authority.transfer_authority h admin new_admin c
dispatch h (accept_authority pending_admin) c = Authority.accept_authority h pending_admin c
dispatch h (close_round_record admin n) c = CloseRound.close_round_record h admin n c
