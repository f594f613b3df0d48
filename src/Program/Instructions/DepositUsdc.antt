-- ===== src/Program/Instructions/DepositUsdc.antt =====
-- instructions/deposit_usdc.rs
use solana_floor_program.Base.{ℕ, List, [], ◌∷◌, ◌++◌, ◌||◌, ◌==◌, ltb, if◌then◌else◌, length}
use solana_floor_program.Base.Int.{ℤ, pos, ltb_ℤ, max_ℤ}
use solana_floor_program.Program.Errors.{
  Result, ok, ◌>>=◌, ◌>>◌, check, require, contract_frozen, zero_amount, invalid_mint,
  zero_aat_allocation, no_aat_nft, investor_pool_full,
}
use solana_floor_program.Program.Checked.{add_u64, add_i64}
use solana_floor_program.Program.State.{Pubkey, InvestorRecord, max_investors}
use solana_floor_program.Program.Host.{Host, transfer_checked}
use solana_floor_program.Program.Accounts.{
  Chain, state_key, usdc_vault_key, load_mint, load_token_account,
}
use solana_floor_program.Program.Utils.{verify_aat_nft_and_get_allocation}
use solana_floor_program.Program.Pool.{has_investor, modify_investor, new_record}

-- The accounts that the caller passes; those at fixed addresses are looked up.
pub record DepositUsdc : Type 0 where
  pub investor : Pubkey
  pub usdc_mint : Pubkey
  pub investor_usdc_account : Pubkey
  pub usdc_vault : Pubkey
  pub aat_nft : Pubkey
  pub investor_aat_account : Pubkey
  pub usdc_token_program : Pubkey

-- The record's side of a deposit.
unfoldable pub deposit_record : ℕ → ℕ → ℤ → ℤ → InvestorRecord → Result InvestorRecord
deposit_record usdc_amount aat_vol lock_seconds now r = do
  deposited ← add_u64 r.usdc_deposited usdc_amount
  let r' = record r { aat_volume = aat_vol; usdc_deposited = deposited }
  if ltb_ℤ (pos 0) lock_seconds
      then (do
        new_unlock_ts ← add_i64 now lock_seconds
        ok (record r' { usdc_unlock_ts = max_ℤ r'.usdc_unlock_ts new_unlock_ts }))
      else ok r'

-- The pool with a record for the investor, taken into use if there was none.
abbrev pub with_investor : Pubkey → List InvestorRecord → List InvestorRecord
with_investor investor rs =
    if has_investor investor rs then rs else rs ++ (new_record investor ∷ [])

module _ (h : Host) where
  open h use {token_2022_id, associated_address, unix_timestamp, invoke_signed}

  -- The account constraints, with the decimals of the mint and the amount of the AAT account.
  unfoldable pub check_deposit_accounts : DepositUsdc → Chain h → Result (ℕ × ℕ)
  check_deposit_accounts a c = do
    mint ← load_mint h c.world a.usdc_mint
    own ←
        load_token_account h c.world a.investor_usdc_account a.usdc_mint a.investor
          a.usdc_token_program
    check (a.usdc_vault == usdc_vault_key h)
    vault ← load_token_account h c.world a.usdc_vault a.usdc_mint (state_key h) a.usdc_token_program
    check (a.investor_aat_account == associated_address a.investor a.aat_nft token_2022_id)
    aat ← load_token_account h c.world a.investor_aat_account a.aat_nft a.investor token_2022_id
    ok (mint.decimals, aat.amount)

  unfoldable pub deposit_usdc : DepositUsdc → ℕ → Chain h → Result (Chain h)
  deposit_usdc a usdc_amount c = do
    passed ← check_deposit_accounts a c
    require (c.state.frozen == 0) contract_frozen
    require (ltb 0 usdc_amount) zero_amount
    require (a.usdc_mint == c.state.usdc_mint) invalid_mint
    aat_vol ← verify_aat_nft_and_get_allocation h c.world a.aat_nft a.investor
    require (ltb 0 aat_vol) zero_aat_allocation
    require (passed.1 == 1) no_aat_nft
    require
        (ltb (length c.pool.investors) max_investors || has_investor a.investor c.pool.investors)
        investor_pool_full
    w ←
        invoke_signed
          (transfer_checked a.usdc_token_program a.investor_usdc_account a.usdc_mint a.usdc_vault
            a.investor [] usdc_amount passed.0)
          [] c.world
    rs ←
        modify_investor a.investor
          (deposit_record usdc_amount aat_vol c.state.usdc_withdraw_lock_seconds (unix_timestamp w))
          (with_investor a.investor c.pool.investors)
    total ← add_u64 c.state.total_usdc_in_lobby usdc_amount
    ok (record c {
      state = record c.state { total_usdc_in_lobby = total };
      pool = record c.pool { investors = rs };
      world = w;
    })
