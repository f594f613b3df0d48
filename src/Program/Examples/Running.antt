-- ===== src/Program/Examples/Running.antt =====
-- A chain with a running round, part of which is sold.
use solana_floor_program.Base.{◌≤◌, ◌+◌, ◌≡◌, refl, List, [], ◌∷◌}
use solana_floor_program.Program.Errors.{ok, err, floor, no_eligible_investors}
use solana_floor_program.Program.Checked.{to_u64, add_u64, sub, mul_u128, div, pow10}
use solana_floor_program.Program.Utils.{get_hook_program_id}
use solana_floor_program.Program.Accounts.{Chain, load_mint, load_token_account}
use solana_floor_program.Program.Pool.{new_record}
use solana_floor_program.Program.RoundStart.{
  round_cap, sum_volumes, required_lock, review, review_all, select, lock_one, lock_all, cover_gap,
  lock_funds, choose_investors, execute_round_start, require_viable_round_params,
}
use solana_floor_program.Program.ForcedClose.{mul_div}
use solana_floor_program.Program.Instructions.SellWaln.{
  start_if_needed, usdc_for, count_sale, check_sell_accounts, hook_offset, exchange, sell_waln,
}
use solana_floor_program.Program.Instructions.SellWaln.Pricing.{quote_sale, require_payable_rest}
use solana_floor_program.Program.Dispatch.{dispatch, sell}
use solana_floor_program.Program.Invariant.Reachable.{step, call}
use solana_floor_program.Program.Examples.RoundHost.{round_host}
use solana_floor_program.Program.Examples.Rounds.{
  first_chain, funded_chain, filling_sale, Reachable-funded_chain,
}
use solana_floor_program.Program.State.{InvestorRecord, max_investors}
use solana_floor_program.Program.Examples.{investor_record}
use solana_floor_program.Program.Instructions.SellWaln.Finish.{auto_start}
use solana_floor_program.Program.Instructions.SellWaln.Restarts.{auto_start_tolerates}
use solana_floor_program.Program.Pool.Sums.{locked}
use solana_floor_program.Program.Invariant.Solvency.{paid_within_locks}

abbrev running_chain : Chain round_host
running_chain = record funded_chain {
  state = record first_chain.state {
    total_usdc_in_lobby = 6;
    current_round_waln = 1500000000;
    current_round_usdc_spent = 4;
    total_usdc_locked_for_round = 6;
    round_started = 1;
  };
  pool = record {
    bump = 255;
    investors = record (new_record 5) { usdc_locked_current_round = 6; aat_volume = 50 } ∷ [];
  };
}

part_sold : dispatch round_host (sell filling_sale 1500000000) funded_chain ≡ ok running_chain
unfolding load_mint require_viable_round_params round_cap mul_u128 div pow10 dispatch
    load_token_account add_u64 sell_waln check_sell_accounts hook_offset exchange start_if_needed
    usdc_for count_sale to_u64 sub get_hook_program_id sum_volumes required_lock review review_all
    select lock_one lock_all cover_gap lock_funds choose_investors execute_round_start mul_div
    quote_sale require_payable_rest new_record
part_sold = refl

paid_within_locks_example :
    running_chain.state.current_round_usdc_spent
    ≤ locked running_chain.pool.investors + max_investors
unfolding new_record
paid_within_locks_example =
    paid_within_locks round_host
      (step Reachable-funded_chain (call (sell filling_sale 1500000000) part_sold)) refl

-- Nobody has a volume: the next round is left to a later sale.
abbrev no_volume : List InvestorRecord
no_volume = investor_record 1 5 0 0 ∷ investor_record 2 9 0 0 ∷ []

auto_start_tolerates_example :
    (choose_investors no_volume 2000000000 3 9 ≡ err (floor no_eligible_investors))
    × (auto_start 2000000000 3 9 (first_chain.state, no_volume)
        ≡ ok (record (first_chain.state) { total_usdc_locked_for_round = 0 }, no_volume))
unfolding execute_round_start choose_investors round_cap sum_volumes select mul_u128 div pow10
auto_start_tolerates_example =
    auto_start_tolerates 2000000000 3 9 first_chain.state no_volume (floor no_eligible_investors)
      refl refl
