-- ===== src/Program/Instructions/SellWaln/Pricing.antt =====
-- instructions/sell_waln.rs: the checks before a sale, and the amount that is sold.
use solana_floor_program.Base.{ℕ, min, Bool, ◌||◌, ◌==◌, ltb, leb, if◌then◌else◌}
use solana_floor_program.Program.Errors.{
  Result, ok, ◌>>=◌, ◌>>◌, require, contract_frozen, sell_paused, zero_amount, invalid_mint,
  sell_leaves_unpayable_dust, sell_amount_too_small,
}
use solana_floor_program.Program.Checked.{sub, pow10}
use solana_floor_program.Program.State.{Pubkey, ProgramState, min_sell_waln}
use solana_floor_program.Program.ForcedClose.{mul_div}

-- What the checks hand on: the amount, and the price and size of the round that it goes into.
pub record Quote : Type 0 where
  pub need_round_start : Bool
  pub snapshot_price : ℕ
  pub snapshot_size : ℕ
  pub floor_price : ℕ
  pub round_size : ℕ
  pub waln_amount : ℕ

abbrev pub effective : Bool → ℕ → ℕ → ℕ
effective need snapshot current = if need then snapshot else current

-- What is left of the round must be worth a unit of USDC.
unfoldable pub require_payable_rest : ℕ → ℕ → ℕ → Result (Unit {0})
require_payable_rest rest floor_price waln_decimals =
    if ltb 0 rest
    then (do
      waln_scale ← pow10 waln_decimals
      usdc ← mul_div rest floor_price waln_scale
      require (ltb 0 usdc) sell_leaves_unpayable_dust)
    else ok tt

unfoldable pub quote_sale : Pubkey → Pubkey → ℕ → ℕ → ProgramState → Result Quote
quote_sale waln_mint usdc_mint waln_decimals max_waln_amount s = do
  require (s.frozen == 0) contract_frozen
  require (s.sell_paused == 0) sell_paused
  require (ltb 0 max_waln_amount) zero_amount
  require (waln_mint == s.waln_mint) invalid_mint
  require (usdc_mint == s.usdc_mint) invalid_mint
  let need = s.round_started == 0
  let price = effective need s.floor_price_usdc s.current_round_floor_price
  let size = effective need s.round_size_waln s.current_round_size_waln
  let sold = effective need 0 s.current_round_waln
  remaining ← sub size sold
  let waln_amount = min max_waln_amount remaining
  require (ltb 0 waln_amount) zero_amount
  rest ← sub remaining waln_amount
  require_payable_rest rest price waln_decimals
  if sold == 0
      then require (leb min_sell_waln waln_amount || waln_amount == remaining) sell_amount_too_small
      else ok tt
  ok (record {
    need_round_start = need;
    snapshot_price = s.floor_price_usdc;
    snapshot_size = s.round_size_waln;
    floor_price = price;
    round_size = size;
    waln_amount = waln_amount;
  })
