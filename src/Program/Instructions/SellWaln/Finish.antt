-- ===== src/Program/Instructions/SellWaln/Finish.antt =====
-- instructions/sell_waln.rs: what a sale does that fills the round.
use solana_floor_program.Base.{
  ℕ, Bool, true, false, List, [], ◌∷◌, ◌++◌, if◌then◌else◌, leb, length,
}
use solana_floor_program.Base.Int.{ℤ}
use solana_floor_program.Program.Errors.{
  Error, Result, ok, err, ◌>>=◌, ◌>>◌, floor, require, invalid_remaining_accounts,
  no_eligible_investors, invalid_parameter,
}
use solana_floor_program.Program.Checked.{add_u64, add_u128, sub, add_i64, to_u64, pow10}
use solana_floor_program.Program.State.{
  ProgramState, InvestorRecord, InvestorAlloc, Event, investor_allocated, round_closed, Pubkey,
}
use solana_floor_program.Program.RoundStart.{execute_round_start}
use solana_floor_program.Program.ForcedClose.{mul_div}
use solana_floor_program.Program.FullClose.{Closing, settle_full, retain_positive, sort_allocs}
use solana_floor_program.Program.Host.{Host}
use solana_floor_program.Program.Accounts.{Chain}
use solana_floor_program.Program.RoundAccounts.{
  check_round_accounts, write_round_locked, write_round_record,
}
use solana_floor_program.Program.Instructions.SellWaln.Pricing.{Quote}

-- One event for each allocation, with the USDC that it stands for.
unfoldable pub allocation_events : ℕ → ℕ → ℕ → ℤ → List InvestorAlloc → Result (List Event)
allocation_events round_index floor_price waln_scale unlock [] = ok []
allocation_events round_index floor_price waln_scale unlock (a ∷ ps) = do
  q ← mul_div a.waln_amount floor_price waln_scale
  usdc_spent ← to_u64 q
  rest ← allocation_events round_index floor_price waln_scale unlock ps
  ok (investor_allocated round_index a.investor a.waln_amount usdc_spent unlock ∷ rest)

-- The state after the round's end.
unfoldable pub end_round : Closing → ProgramState → Result ProgramState
end_round closing s = do
  count ← add_u64 s.round_count 1
  lobby ← sub s.total_usdc_in_lobby closing.total_usdc_spent
  all_waln ← add_u128 s.current_round_waln s.waln_dust_carryover
  dust ← sub all_waln closing.total_waln_purchased
  dust' ← to_u64 dust
  ok (record s {
    round_count = count;
    current_round_waln = 0;
    current_round_usdc_spent = 0;
    total_usdc_in_lobby = lobby;
    round_started = 0;
    waln_dust_carryover = dust';
  })

-- The errors that leave the next round to a later sale.
abbrev pub is_tolerated : Error → Bool
is_tolerated (floor no_eligible_investors) = true
is_tolerated (floor invalid_parameter) = true
is_tolerated _ = false

-- The automatic start of the next round, with the settings as they were when the sale began. An
-- error that is tolerated has arisen before any record was written.
unfoldable pub auto_start :
    ℕ → ℕ → ℕ → ProgramState × List InvestorRecord → Result (ProgramState × List InvestorRecord)
auto_start round_size floor_price waln_decimals (s, rs) =
    elim (execute_round_start rs round_size floor_price waln_decimals) [
      | ok started ↦ ok (
        record s {
          current_round_floor_price = floor_price;
          current_round_size_waln = round_size;
          current_round_lock_period = s.lock_period_seconds;
          current_round_usdc_spent = 0;
          total_usdc_locked_for_round = started.2;
          round_started = 1;
        },
        started.0,
      )
      | err e ↦
          if is_tolerated e then ok (record s { total_usdc_locked_for_round = 0 }, rs) else err e
    ]

module _ (h : Host) where
  open h use {unix_timestamp}

  -- `before` is the state as the sale found it.
  unfoldable pub finish_round : List Pubkey → Quote → ℕ → ProgramState → Chain h → Result (Chain h)
  finish_round remaining q waln_decimals before c = do
    let now = unix_timestamp c.world
    let round_index = before.round_count
    require (leb 2 (length remaining)) invalid_remaining_accounts
    unlock ← add_i64 now c.state.current_round_lock_period
    check_round_accounts h remaining round_index
    waln_scale ← pow10 waln_decimals
    settled ← settle_full waln_scale q.floor_price c.state.waln_dust_carryover now c.pool.investors
    let closing = settled.1
    let participant_count = length closing.participants
    let claimable = sort_allocs (retain_positive closing.participants)
    c1 ← write_round_locked h round_index unlock claimable c
    allocated ← allocation_events round_index q.floor_price waln_scale unlock claimable
    let closed =
        round_closed round_index closing.total_waln_purchased closing.total_usdc_spent
          participant_count unlock
    c2 ←
        write_round_record h round_index now closing.total_waln_purchased closing.total_usdc_spent
          closing.total_aat_volume participant_count c1
    s ← end_round closing c.state
    next ← auto_start before.round_size_waln before.floor_price_usdc waln_decimals (s, settled.0)
    ok (record c2 {
      state = next.0;
      pool = record c2.pool { investors = next.1 };
      events = c2.events ++ allocated ++ (closed ∷ []);
    })
