-- ===== src/Program/Instructions/SellWaln/Quotes.antt =====
-- What the checks before a sale guarantee of the amount that is sold.
use solana_floor_program.Base.{
  ℕ, ◌-◌, ◌*◌, ◌/◌, ◌^◌, ◌≤◌, ◌<◌, ◌≡◌, ◌⊎◌, min, arith, ◌==◌, if◌then◌else◌,
}
use solana_floor_program.Program.Errors.{Ensures}
use solana_floor_program.Program.Checked.{sub, pow10, mul_u128, div}
use solana_floor_program.Program.State.{Pubkey, ProgramState, min_sell_waln}
use solana_floor_program.Program.ForcedClose.{mul_div}
use solana_floor_program.Program.Instructions.SellWaln.Pricing.{
  Quote, require_payable_rest, quote_sale,
}

-- What is left of the round is nothing, or buys at least one unit of USDC.
abbrev pub IsPayable : ℕ → ℕ → ℕ → Type 0
IsPayable rest price decimals = (rest ≡ 0) ⊎ (0 < rest * price / 10 ^ decimals)

require_payable_rest_lem :
    (rest price decimals : ℕ)
    → Ensures (λ u. IsPayable rest price decimals) (require_payable_rest rest price decimals)
unfolding require_payable_rest pow10 mul_div mul_u128 div
require_payable_rest_lem rest price decimals = ground arith

-- The wALN that the round, running or about to start, has left to buy.
abbrev pub room : ProgramState → ℕ
room s =
    if s.round_started == 0
    then s.round_size_waln
    else s.current_round_size_waln - s.current_round_waln

-- The wALN that the round has sold.
abbrev pub sold_before : ProgramState → ℕ
sold_before s = if s.round_started == 0 then 0 else s.current_round_waln

-- What is sold of a round: some amount, within what was offered and what the round has left. The
-- lesser of the two is taken; a first sale is of the least amount or of all that is left.
abbrev pub Quoted : ℕ → ℕ → ProgramState → Quote → Type 0
Quoted decimals offered s q =
    (s.frozen ≡ 0)
    × (s.sell_paused ≡ 0)
    × (q.need_round_start ≡ (s.round_started == 0))
    × (q.floor_price
        ≡ (if s.round_started == 0 then s.floor_price_usdc else s.current_round_floor_price))
    × (0 < q.waln_amount)
    × (q.waln_amount ≡ min offered (room s))
    × IsPayable (room s - q.waln_amount) q.floor_price decimals
    × (sold_before s ≡ 0 → (min_sell_waln ≤ q.waln_amount) ⊎ (q.waln_amount ≡ room s))

-- A sale that passes the checks: the contract is neither frozen nor paused, a round is started just
-- if none runs, and the price is the running round's or else the current setting. The amount is the
-- lesser of what is offered and what the round has left, and not 0. What the round then has left is
-- 0 or worth at least one unit of USDC. The first sale of a round, whether it starts the round or
-- finds it started with nothing sold, is of at least the least amount or fills the round.
pub quote_sale-Quoted :
    (waln_mint usdc_mint : Pubkey) (waln_decimals max_waln_amount : ℕ) (s : ProgramState)
    → Ensures
        (Quoted waln_decimals max_waln_amount s)
        (quote_sale waln_mint usdc_mint waln_decimals max_waln_amount s)
unfolding quote_sale sub
quote_sale-Quoted waln_mint usdc_mint decimals offered s = ground (
  arith,
  require_payable_rest_lem (s.round_size_waln - min offered s.round_size_waln) s.floor_price_usdc
      decimals,
  require_payable_rest_lem
      (s.current_round_size_waln
        - s.current_round_waln
        - min offered (s.current_round_size_waln - s.current_round_waln))
      s.current_round_floor_price decimals,
)
