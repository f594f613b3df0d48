-- ===== src/Program/Instructions/SellWaln.antt =====
-- instructions/sell_waln.rs: the sale, and the part of it that concerns a running round.
pub mod Pricing
pub mod Quotes
pub mod Finish
pub mod Restarts
use solana_floor_program.Base.{
  ℕ, ◌+◌, Bool, List, [], ◌∷◌, ◌++◌, Option, none, some, ◌==◌, ltb, leb, if◌then◌else◌, length,
  take, drop,
}
use solana_floor_program.Program.Errors.{
  Result, ok, err, ◌>>=◌, ◌>>◌, check, panic, require, zero_amount, invalid_mint,
}
use solana_floor_program.Program.Checked.{add_u64, to_u64, pow10}
use solana_floor_program.Program.State.{Pubkey, ProgramState, InvestorRecord}
use solana_floor_program.Program.RoundStart.{execute_round_start}
use solana_floor_program.Program.ForcedClose.{mul_div}
use solana_floor_program.Program.Host.{Host, Instruction, transfer_checked, text, byte}
use solana_floor_program.Program.Accounts.{
  Chain, state_key, usdc_vault_key, waln_vault_key, load_mint, load_token_account,
}
use solana_floor_program.Program.Utils.{get_hook_program_id, validate_hook_accounts}
use Pricing.{Quote, quote_sale}
use Finish.{finish_round}

pub record SellWaln : Type 0 where
  pub seller : Pubkey
  pub waln_mint : Pubkey
  pub usdc_mint : Pubkey
  pub seller_waln_account : Pubkey
  pub seller_usdc_account : Pubkey
  pub waln_vault : Pubkey
  pub usdc_vault : Pubkey
  pub waln_token_program : Pubkey
  pub usdc_token_program : Pubkey
  pub remaining_accounts : List Pubkey

-- The records, and the USDC newly locked, if the sale starts a round.
unfoldable pub start_if_needed : Quote → ℕ → List InvestorRecord → Result (List InvestorRecord × ℕ)
start_if_needed q waln_decimals rs =
    if q.need_round_start
    then (do
      started ← execute_round_start rs q.snapshot_size q.snapshot_price waln_decimals
      ok (started.0, started.2))
    else ok (rs, 0)

-- The USDC that the seller gets.
unfoldable pub usdc_for : ℕ → ℕ → ℕ → Result ℕ
usdc_for waln_amount floor_price waln_decimals = do
  waln_scale ← pow10 waln_decimals
  out ← mul_div waln_amount floor_price waln_scale
  usdc_out ← to_u64 out
  require (ltb 0 usdc_out) zero_amount
  ok usdc_out

-- The round's state once the sale has been paid.
unfoldable pub count_sale : Quote → ℕ → ℕ → ProgramState → Result ProgramState
count_sale q usdc_locked_new usdc_out s = do
  let s' =
      if q.need_round_start
      then record s {
        current_round_floor_price = q.snapshot_price;
        current_round_size_waln = q.snapshot_size;
        current_round_lock_period = s.lock_period_seconds;
        current_round_usdc_spent = 0;
        total_usdc_locked_for_round = usdc_locked_new;
        round_started = 1;
      }
      else s
  spent ← add_u64 s'.current_round_usdc_spent usdc_out
  sold ← add_u64 s'.current_round_waln q.waln_amount
  ok (record s' { current_round_usdc_spent = spent; current_round_waln = sold })

module _ (h : Host) where
  open h use {World, token_2022_id, invoke_signed}

  -- The account constraints, with the decimals of the two mints.
  unfoldable pub check_sell_accounts : SellWaln → Chain h → Result (ℕ × ℕ)
  check_sell_accounts a c = do
    waln ← load_mint h c.world a.waln_mint
    usdc ← load_mint h c.world a.usdc_mint
    check (a.waln_token_program == token_2022_id)
    own_waln ←
        load_token_account h c.world a.seller_waln_account a.waln_mint a.seller a.waln_token_program
    own_usdc ←
        load_token_account h c.world a.seller_usdc_account a.usdc_mint a.seller a.usdc_token_program
    check (a.waln_vault == waln_vault_key h)
    waln_vault ←
        load_token_account h c.world a.waln_vault a.waln_mint (state_key h) a.waln_token_program
    check (a.usdc_vault == usdc_vault_key h)
    usdc_vault ←
        load_token_account h c.world a.usdc_vault a.usdc_mint (state_key h) a.usdc_token_program
    ok (waln.decimals, usdc.decimals)

  -- How many of the remaining accounts belong to the transfer hook: `remaining[..8]` panics if there
  -- are fewer.
  unfoldable pub hook_offset : SellWaln → Chain h → Result ℕ
  hook_offset a c = elim (get_hook_program_id h c.world a.waln_mint) [
    | none ↦ ok 0
    | some hook_program ↦ if ltb (length a.remaining_accounts) 8 then err panic else (do
      validate_hook_accounts h c.world (take 8 a.remaining_accounts) a.waln_mint a.seller
          hook_program
      ok 8)
  ]

  -- The wALN comes in and the USDC goes out.
  unfoldable pub exchange :
      SellWaln
      → Chain h
      → (offset waln_amount waln_decimals usdc_out usdc_decimals : ℕ) → Result World
  exchange a c offset waln_amount waln_decimals usdc_out usdc_decimals = do
    w ←
        invoke_signed
          (transfer_checked a.waln_token_program a.seller_waln_account a.waln_mint a.waln_vault
            a.seller (take offset a.remaining_accounts) waln_amount waln_decimals)
          [] c.world
    invoke_signed
        (transfer_checked a.usdc_token_program a.usdc_vault a.usdc_mint a.seller_usdc_account
          (state_key h) [] usdc_out usdc_decimals)
        ((text "contract_state" ∷ byte c.state.bump ∷ []) ∷ []) w

  unfoldable pub sell_waln : SellWaln → ℕ → Chain h → Result (Chain h)
  sell_waln a max_waln_amount c = do
    decimals ← check_sell_accounts a c
    q ← quote_sale a.waln_mint a.usdc_mint decimals.0 max_waln_amount c.state
    started ← start_if_needed q decimals.0 c.pool.investors
    usdc_out ← usdc_for q.waln_amount q.floor_price decimals.0
    offset ← hook_offset a c
    w ← exchange a c offset q.waln_amount decimals.0 usdc_out decimals.1
    s ← count_sale q started.1 usdc_out c.state
    let c' = record c { state = s; pool = record c.pool { investors = started.0 }; world = w }
    if leb q.round_size s.current_round_waln
        then finish_round h (drop offset a.remaining_accounts) q decimals.0 c.state c'
        else ok c'
