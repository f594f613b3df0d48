-- ===== src/Program/Examples.antt =====
-- Small pools and rounds on which the functions are run, and the theorems applied.
mod Chains
pub mod RoundHost
pub mod Rounds
mod Running
mod Volumes
use solana_floor_program.Base.{
  ℕ, Bool, true, false, ◌+◌, ◌≤◌, ◌<◌, ◌≡◌, ◌≢◌, refl, List, [], ◌∷◌, Option, some, arith, sum_by,
  length, get_elem?, All,
}
use solana_floor_program.Base.Int.{ℤ, pos, ◌≤ℤ◌}
use solana_floor_program.Program.Errors.{
  Result, ok, err, floor, out_of_fuel, already_claimed, Ensures, Ensures-ok,
}
use solana_floor_program.Program.Checked.{
  add_u64, add_u128, sub, mul_u128, div, pow10, to_u64, u64_max,
}
use solana_floor_program.Program.State.{Pubkey, InvestorRecord, InvestorAlloc, RoundLockedWaln}
use solana_floor_program.Program.RoundStart.{
  Candidate, round_cap, sum_volumes, required_lock, review, review_all, select, lock_one, lock_all,
  cover_gap, lock_funds, choose_investors, execute_round_start,
}
use solana_floor_program.Program.RoundStart.Choice.{Starts, execute_round_start-Starts}
use solana_floor_program.Program.RoundStart.Termination.{execute_round_start-terminates}
use solana_floor_program.Program.ForcedClose.{
  Settling, mul_div, tally_one, tally_all, base_spent, base_spent_all, close_round_usdc_spent,
  waln_allocation, payout, pay_out, count_payout, settle_one, settle_all, settle_partial,
}
use solana_floor_program.Program.ForcedClose.Exact.{SettledExactly, settle_partial-SettledExactly}
use solana_floor_program.Program.ForcedClose.Settled.{allocated}
use solana_floor_program.Program.FullClose.{
  Closing, base_waln, complete_record, complete_one, complete_all, credit_dust, award_dust,
  settle_full, retain_positive, insert_alloc, sort_allocs,
}
use solana_floor_program.Program.FullClose.Credits.{SettlesFull, settle_full-SettlesFull}
use solana_floor_program.Program.Allocations.{binary_search, search_loop, key_at, take_allocation}
use solana_floor_program.Program.Allocations.Claims.{
  claimed, take_allocation_pays, take_allocation_once,
}

abbrev pub investor_record : Pubkey → (deposited locked volume : ℕ) → InvestorRecord
investor_record key deposited locked volume = record {
  investor = key;
  usdc_deposited = deposited;
  usdc_locked_current_round = locked;
  usdc_committed = 0;
  waln_purchased_total = 0;
  aat_volume = volume;
  usdc_unlock_ts = pos 0;
}

-- A round of 2 wALN at 3 units of USDC pays out 6 units.
abbrev two_idle : List InvestorRecord
two_idle = investor_record 1 5 0 1 ∷ investor_record 2 9 0 1 ∷ []

execute_round_start-Starts_example :
    Starts 6 two_idle (investor_record 1 2 3 1 ∷ investor_record 2 6 3 1 ∷ [], 2, 6)
unfolding execute_round_start choose_investors round_cap sum_volumes required_lock review review_all
    select lock_one lock_all cover_gap lock_funds add_u64 sub mul_u128 div pow10 to_u64
execute_round_start-Starts_example =
    Ensures-ok (Starts 6 two_idle) (execute_round_start two_idle 2000000000 3 9)
      (execute_round_start-Starts two_idle 2000000000 3 9 6
        ((refl, omega arith), ((refl, omega arith), tt)) refl)
      refl

-- Where one of three cannot pay its share of a cap of 6 units, it alone is left out.
abbrev three_idle : List InvestorRecord
three_idle = investor_record 1 5 0 1 ∷ investor_record 2 3 0 4 ∷ investor_record 3 9 0 1 ∷ []

poor_left_out :
    execute_round_start three_idle 2000000000 3 9
    ≡ ok (investor_record 1 2 3 1 ∷ investor_record 2 3 0 4 ∷ investor_record 3 6 3 1 ∷ [], 2, 6)
unfolding execute_round_start choose_investors round_cap sum_volumes required_lock review review_all
    select lock_one lock_all cover_gap lock_funds add_u64 sub mul_u128 div pow10 to_u64
poor_left_out = refl

-- With an odd cap, and all deposits used up by the shares, a unit of the cap stays uncovered.
abbrev two_short : List InvestorRecord
two_short = investor_record 1 3 0 1 ∷ investor_record 2 3 0 1 ∷ []

uncovered_gap :
    execute_round_start two_short 1000000000 7 9
    ≡ ok (investor_record 1 0 3 1 ∷ investor_record 2 0 3 1 ∷ [], 2, 6)
unfolding execute_round_start choose_investors round_cap sum_volumes required_lock review review_all
    select lock_one lock_all cover_gap lock_funds add_u64 sub mul_u128 div pow10 to_u64
uncovered_gap = refl

execute_round_start-terminates_example :
    execute_round_start two_short 1000000000 7 9 ≢ err out_of_fuel
execute_round_start-terminates_example = execute_round_start-terminates two_short 1000000000 7 9

-- A forced close of that round after a sale of 1 wALN for 3 units.
abbrev two_locked : List InvestorRecord
two_locked = investor_record 1 2 3 1 ∷ investor_record 2 6 3 1 ∷ []

settle_partial-SettledExactly_example :
    Ensures
      (SettledExactly 1000000000 3 two_locked)
      (settle_partial 1000000000 3 1000000000 3 two_locked)
settle_partial-SettledExactly_example =
    settle_partial-SettledExactly 1000000000 3 1000000000 3 two_locked

settle_full-SettlesFull_example :
    Ensures (SettlesFull 1000000000 3 4 two_locked) (settle_full 1000000000 3 4 (pos 5) two_locked)
settle_full-SettlesFull_example = settle_full-SettlesFull 1000000000 3 4 (pos 5) two_locked

abbrev sorted_allocs : List InvestorAlloc
sorted_allocs =
    record { investor = 2; waln_amount = 8 }
    ∷ record { investor = 4; waln_amount = 7 }
    ∷ record { investor = 9; waln_amount = 5 }
    ∷ []

abbrev locked_account : RoundLockedWaln
locked_account = record {
  round_index = 0;
  bump = 254;
  unlock = pos 100;
  remaining_to_claim = 3;
  investors = sorted_allocs;
}

abbrev second_alloc : InvestorAlloc
second_alloc = record { investor = 4; waln_amount = 7 }

take_allocation_pays_example :
    take_allocation (pos 120) 4 locked_account
    ≡ ok (7, claimed locked_account 1 second_alloc, false)
take_allocation_pays_example =
    take_allocation_pays (pos 120) locked_account 1 second_alloc
      (((omega arith, (omega arith, tt)), ((omega arith, tt), (tt, tt))), refl) (omega arith) refl
      (omega arith)

-- It is claimed at 120, and again at 130.
abbrev claimed_account : RoundLockedWaln
claimed_account = claimed locked_account 1 second_alloc

take_allocation_once_example :
    take_allocation (pos 130) 4 claimed_account ≡ err (floor already_claimed)
unfolding take_allocation binary_search search_loop sub
take_allocation_once_example =
    take_allocation_once (pos 120) (pos 130) 4 7 locked_account claimed_account false
      (((omega arith, (omega arith, tt)), ((omega arith, tt), (tt, tt))), refl) refl (omega arith)

abbrev is_ok : {A : Type 0} → Result A → Bool
is_ok (ok a) = true
is_ok (err e) = false

settlements_run :
    (is_ok (settle_partial 1000000000 3 1000000000 3 two_locked) ≡ true)
    × (is_ok (settle_full 1000000000 3 4 (pos 5) two_locked) ≡ true)
unfolding settle_partial mul_div tally_one tally_all base_spent base_spent_all
    close_round_usdc_spent waln_allocation payout pay_out count_payout settle_one settle_all
    settle_full base_waln complete_record complete_one complete_all credit_dust award_dust add_u64
    add_u128 sub mul_u128 div to_u64
settlements_run = (refl, refl)
