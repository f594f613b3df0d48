-- ===== src/Program/Instructions/RemoveInvestor.antt =====
-- instructions/admin.rs: `remove_investor_from_pool`.
use solana_floor_program.Base.{ℕ, ◌&&◌, [], ◌∷◌, ◌==◌, ltb, if◌then◌else◌}
use solana_floor_program.Program.Errors.{
  Result, ok, ◌>>=◌, ◌>>◌, check, require, ok_or, invalid_mint, invalid_investor,
  investor_not_inactive,
}
use solana_floor_program.Program.Checked.{sub}
use solana_floor_program.Program.State.{Pubkey}
use solana_floor_program.Program.Host.{Host, transfer_checked, text, byte}
use solana_floor_program.Program.Accounts.{
  Chain, state_key, usdc_vault_key, load_mint, load_token_account, require_admin,
}
use solana_floor_program.Program.Pool.{find_investor, position, swap_remove}

pub record RemoveInvestorFromPool : Type 0 where
  pub admin : Pubkey
  pub investor : Pubkey
  pub usdc_mint : Pubkey
  pub investor_usdc_account : Pubkey
  pub usdc_vault : Pubkey
  pub usdc_token_program : Pubkey

module _ (h : Host) where
  open h use {invoke_signed}

  unfoldable pub check_removal_accounts : RemoveInvestorFromPool → Chain h → Result ℕ
  check_removal_accounts a c = do
    require_admin h a.admin c
    mint ← load_mint h c.world a.usdc_mint
    own ←
        load_token_account h c.world a.investor_usdc_account a.usdc_mint a.investor
          a.usdc_token_program
    check (a.usdc_vault == usdc_vault_key h)
    vault ← load_token_account h c.world a.usdc_vault a.usdc_mint (state_key h) a.usdc_token_program
    ok mint.decimals

  -- The refund, if there is anything to give back.
  unfoldable pub refund_investor : RemoveInvestorFromPool → ℕ → ℕ → Chain h → Result (Chain h)
  refund_investor a decimals refund c =
      if ltb 0 refund
      then (do
        w ←
            invoke_signed
              (transfer_checked a.usdc_token_program a.usdc_vault a.usdc_mint
                a.investor_usdc_account (state_key h) [] refund decimals)
              ((text "contract_state" ∷ byte c.state.bump ∷ []) ∷ []) c.world
        total ← sub c.state.total_usdc_in_lobby refund
        ok (record c { state = record c.state { total_usdc_in_lobby = total }; world = w }))
      else ok c

  unfoldable pub remove_investor_from_pool : RemoveInvestorFromPool → Chain h → Result (Chain h)
  remove_investor_from_pool a c = do
    decimals ← check_removal_accounts a c
    require (a.usdc_mint == c.state.usdc_mint) invalid_mint
    r ← find_investor a.investor c.pool.investors
    require (r.aat_volume == 0 && r.usdc_locked_current_round == 0) investor_not_inactive
    c' ← refund_investor a decimals r.usdc_deposited c
    idx ← ok_or (position a.investor c'.pool.investors) invalid_investor
    rs ← swap_remove idx c'.pool.investors
    ok (record c' { pool = record c'.pool { investors = rs } })
