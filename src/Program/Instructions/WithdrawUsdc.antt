-- ===== src/Program/Instructions/WithdrawUsdc.antt =====
-- instructions/withdraw_usdc.rs
use solana_floor_program.Base.{ℕ, [], ◌∷◌, ◌==◌, ltb, leb, if◌then◌else◌}
use solana_floor_program.Base.Int.{ℤ, leb_ℤ}
use solana_floor_program.Program.Errors.{
  Result, ok, ◌>>=◌, ◌>>◌, check, require, contract_frozen, zero_amount, invalid_mint, usdc_locked,
  insufficient_funds,
}
use solana_floor_program.Program.Checked.{sub, u64_max}
use solana_floor_program.Program.State.{Pubkey, InvestorRecord}
use solana_floor_program.Program.Host.{Host, transfer_checked, text, byte}
use solana_floor_program.Program.Accounts.{
  Chain, state_key, usdc_vault_key, load_mint, load_token_account,
}
use solana_floor_program.Program.Pool.{find_investor, modify_investor}

pub record WithdrawUsdc : Type 0 where
  pub investor : Pubkey
  pub usdc_mint : Pubkey
  pub investor_usdc_account : Pubkey
  pub usdc_vault : Pubkey
  pub usdc_token_program : Pubkey

-- `u64::MAX` stands for all that is on deposit.
abbrev pub withdraw_amount : ℕ → InvestorRecord → ℕ
withdraw_amount amount r = if amount == u64_max then r.usdc_deposited else amount

-- The record's side of a withdrawal.
unfoldable pub withdraw_record : ℕ → ℤ → InvestorRecord → Result InvestorRecord
withdraw_record amount now r = do
  require (leb_ℤ r.usdc_unlock_ts now) usdc_locked
  require (ltb 0 (withdraw_amount amount r)) zero_amount
  require (leb (withdraw_amount amount r) r.usdc_deposited) insufficient_funds
  deposited ← sub r.usdc_deposited (withdraw_amount amount r)
  ok (record r { usdc_deposited = deposited })

module _ (h : Host) where
  open h use {unix_timestamp, invoke_signed}

  unfoldable pub check_withdraw_accounts : WithdrawUsdc → Chain h → Result ℕ
  check_withdraw_accounts a c = do
    mint ← load_mint h c.world a.usdc_mint
    own ←
        load_token_account h c.world a.investor_usdc_account a.usdc_mint a.investor
          a.usdc_token_program
    check (a.usdc_vault == usdc_vault_key h)
    vault ← load_token_account h c.world a.usdc_vault a.usdc_mint (state_key h) a.usdc_token_program
    ok mint.decimals

  unfoldable pub withdraw_usdc : WithdrawUsdc → ℕ → Chain h → Result (Chain h)
  withdraw_usdc a amount c = do
    decimals ← check_withdraw_accounts a c
    require (c.state.frozen == 0) contract_frozen
    require (a.usdc_mint == c.state.usdc_mint) invalid_mint
    r ← find_investor a.investor c.pool.investors
    rs ←
        modify_investor a.investor (withdraw_record amount (unix_timestamp c.world))
          c.pool.investors
    w ←
        invoke_signed
          (transfer_checked a.usdc_token_program a.usdc_vault a.usdc_mint a.investor_usdc_account
            (state_key h) [] (withdraw_amount amount r) decimals)
          ((text "contract_state" ∷ byte c.state.bump ∷ []) ∷ []) c.world
    total ← sub c.state.total_usdc_in_lobby (withdraw_amount amount r)
    ok (record c {
      state = record c.state { total_usdc_in_lobby = total };
      pool = record c.pool { investors = rs };
      world = w;
    })
