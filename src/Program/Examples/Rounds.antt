-- ===== src/Program/Examples/Rounds.antt =====
-- A chain through a whole round: a deposit, a sale that fills the round, and the claim after it.
use solana_floor_program.Base.{◌≡◌, refl, [], ◌∷◌, none, some, arith}
use solana_floor_program.Base.Int.{pos, ◌+ℤ◌}
use solana_floor_program.Program.Errors.{ok, Ensures-ok}
use solana_floor_program.Program.Checked.{
  to_u64, add_u64, add_u128, sub, mul_u128, div, pow10, add_i64,
}
use solana_floor_program.Program.State.{
  InvestorAlloc, RoundLockedWaln, investor_allocated, round_closed,
}
use solana_floor_program.Program.Host.Metadata.{print_loop, print_u64, parse_digits, parse_u64}
use solana_floor_program.Program.Utils.{
  aat_volume_of, verify_aat_nft_and_get_allocation, get_hook_program_id,
}
use solana_floor_program.Program.Instructions.Authority
use solana_floor_program.Program.Accounts.{
  require_admin, Chain, update, load_mint, load_token_account,
}
use solana_floor_program.Program.Pool.{has_investor, modify_investor, new_record}
use solana_floor_program.Program.RoundStart.{
  round_cap, sum_volumes, required_lock, review, review_all, select, lock_one, lock_all, cover_gap,
  lock_funds, choose_investors, execute_round_start, require_viable_round_params,
}
use solana_floor_program.Program.ForcedClose.{mul_div}
use solana_floor_program.Program.FullClose.{
  base_waln, complete_record, complete_one, complete_all, credit_dust, award_dust, settle_full,
  retain_positive, insert_alloc, sort_allocs,
}
use solana_floor_program.Program.RoundAccounts.{
  create_round_account, check_round_accounts, write_round_locked, write_round_record,
}
use solana_floor_program.Program.Instructions.Initialize.{Initialize, initialize}
use solana_floor_program.Program.Instructions.DepositUsdc.{
  DepositUsdc, check_deposit_accounts, deposit_record, deposit_usdc,
}
use solana_floor_program.Program.Instructions.SellWaln.{
  SellWaln, start_if_needed, usdc_for, count_sale, check_sell_accounts, hook_offset, exchange,
  sell_waln,
}
use solana_floor_program.Program.Instructions.SellWaln.Pricing.{quote_sale, require_payable_rest}
use solana_floor_program.Program.Instructions.SellWaln.Finish.{
  allocation_events, end_round, auto_start, finish_round,
}
use solana_floor_program.Program.Instructions.ClaimWaln.{
  ClaimWaln, init_claim_account, check_claim_accounts, check_claim_hook, claim_waln,
}
use solana_floor_program.Program.Dispatch.{dispatch, transfer_authority, deposit, sell}
use solana_floor_program.Program.Invariant.Reachable.{
  Reachable, start, step, call, elsewhere, dispatch-Follows, dispatch-Hands,
}
use solana_floor_program.Program.Invariant.Ledger.{Follows, Hands}
use solana_floor_program.Program.Pool.Stakes.{ledger}
use solana_floor_program.Program.Invariant.Payouts.{Leaves, claim_waln-pays}
use solana_floor_program.Program.Examples.RoundHost.{round_host}

abbrev new_program : Initialize
new_program = record {
  admin = 4;
  usdc_mint = 7;
  waln_mint = 8;
  waln_token_program = 2;
  upgrade_authority = some 4;
}

abbrev one_deposit : DepositUsdc
one_deposit = record {
  investor = 5;
  usdc_mint = 7;
  investor_usdc_account = 25;
  usdc_vault = 51;
  aat_nft = 105;
  investor_aat_account = 45;
  usdc_token_program = 2;
}

abbrev pub filling_sale : SellWaln
filling_sale = record {
  seller = 6;
  waln_mint = 8;
  usdc_mint = 7;
  seller_waln_account = 36;
  seller_usdc_account = 26;
  waln_vault = 52;
  usdc_vault = 51;
  waln_token_program = 2;
  usdc_token_program = 2;
  remaining_accounts = 53 ∷ 54 ∷ [];
}

abbrev pub first_chain : Chain round_host
first_chain = record {
  state = record {
    admin = 4;
    usdc_mint = 7;
    waln_mint = 8;
    usdc_vault = 51;
    waln_vault = 52;
    floor_price_usdc = 3;
    round_size_waln = 2000000000;
    current_round_waln = 0;
    total_usdc_in_lobby = 0;
    round_count = 0;
    lock_period_seconds = pos 60;
    usdc_withdraw_lock_seconds = pos 0;
    current_round_floor_price = 3;
    current_round_size_waln = 2000000000;
    current_round_lock_period = pos 60;
    current_round_usdc_spent = 0;
    total_aat_volume = 0;
    waln_dust_carryover = 0;
    total_usdc_locked_for_round = 0;
    pending_admin = 0;
    sell_paused = 0;
    round_started = 0;
    bump = 255;
    usdc_vault_bump = 255;
    waln_vault_bump = 255;
    waln_decimals = 9;
    usdc_decimals = 9;
    frozen = 0;
  };
  pool = record { bump = 255; investors = [] };
  round_records = λ k. none;
  round_locked = λ k. none;
  events = [];
  world = 1000;
}

abbrev pub funded_chain : Chain round_host
funded_chain = record first_chain {
  state = record first_chain.state { total_usdc_in_lobby = 6 };
  pool = record {
    bump = 255;
    investors = record (new_record 5) { usdc_deposited = 6; aat_volume = 50 } ∷ [];
  };
}

abbrev allocation : InvestorAlloc
allocation = record { investor = 5; waln_amount = 2000000000 }

abbrev round_allocations : RoundLockedWaln
round_allocations = record {
  round_index = 0;
  bump = 255;
  unlock = pos 1060;
  remaining_to_claim = 1;
  investors = allocation ∷ [];
}

abbrev pub filled_chain : Chain round_host
filled_chain = record first_chain {
  state = record first_chain.state { round_count = 1 };
  pool = record {
    bump = 255;
    investors =
        record (new_record 5) {
          usdc_committed = 6;
          waln_purchased_total = 2000000000;
          aat_volume = 50;
        }
        ∷ [];
  };
  round_records =
      update (λ k. none) 53
        (some (record {
          round_index = 0;
          triggered_at = pos 1000;
          waln_purchased = 2000000000;
          usdc_spent = 6;
          total_aat_volume_at_trigger = 50;
          participant_count = 1;
          bump = 255;
        }));
  round_locked = update (λ k. none) 54 (some round_allocations);
  events =
      investor_allocated 0 5 2000000000 6 (pos 1060)
      ∷ round_closed 0 2000000000 6 1 (pos 1060)
      ∷ [];
}

-- After the lock period.
abbrev unlocked_chain : Chain round_host
unlocked_chain = record filled_chain { world = 2000 }

initialized : initialize round_host new_program 3 2000000000 (pos 60) 1000 ≡ ok first_chain
unfolding initialize load_mint require_viable_round_params round_cap mul_u128 div pow10
initialized = refl

funded : dispatch round_host (deposit one_deposit 6) first_chain ≡ ok funded_chain
unfolding load_mint dispatch deposit_usdc check_deposit_accounts load_token_account
    verify_aat_nft_and_get_allocation aat_volume_of print_u64 print_loop parse_u64 parse_digits
    has_investor modify_investor new_record deposit_record add_u64 add_i64 ◌+ℤ◌
funded = refl

filled : dispatch round_host (sell filling_sale 2000000000) funded_chain ≡ ok filled_chain
unfolding load_mint require_viable_round_params round_cap mul_u128 div pow10 dispatch
    load_token_account has_investor modify_investor new_record add_u64 add_i64 sell_waln
    check_sell_accounts hook_offset exchange start_if_needed usdc_for count_sale to_u64 add_u128 sub
    get_hook_program_id sum_volumes required_lock review review_all select lock_one lock_all
    cover_gap lock_funds choose_investors execute_round_start mul_div base_waln complete_record
    complete_one complete_all credit_dust award_dust settle_full retain_positive insert_alloc
    sort_allocs create_round_account check_round_accounts write_round_locked write_round_record
    quote_sale require_payable_rest allocation_events end_round auto_start finish_round ◌+ℤ◌
filled = refl

pub Reachable-funded_chain : Reachable round_host funded_chain
Reachable-funded_chain =
    step (start new_program 3 2000000000 (pos 60) 1000 initialized)
      (call (deposit one_deposit 6) funded)

Reachable-unlocked_chain : Reachable round_host unlocked_chain
Reachable-unlocked_chain =
    step (step Reachable-funded_chain (call (sell filling_sale 2000000000) filled)) (elsewhere 2000)

abbrev first_claim : ClaimWaln
first_claim = record {
  investor = 5;
  waln_mint = 8;
  investor_waln_account = 35;
  waln_vault = 52;
  waln_token_program = 2;
  remaining_accounts = [];
}

claim_waln-pays_example :
    Leaves round_host 54 none (claim_waln round_host first_claim 0 unlocked_chain)
unfolding check_claim_accounts load_mint init_claim_account load_token_account check_claim_hook
    get_hook_program_id
claim_waln-pays_example =
    claim_waln-pays round_host first_claim 0 unlocked_chain round_allocations 0 allocation 2000 2000
      9 Reachable-unlocked_chain refl refl refl (omega arith) refl refl refl (omega arith) refl refl
      (omega arith) (λ v. (v, refl))

-- A deposit, as the ledger has it.
dispatch-Follows_example :
    Follows
      (deposit one_deposit 6)
      (ledger first_chain.pool.investors)
      (ledger funded_chain.pool.investors)
dispatch-Follows_example =
    Ensures-ok
      (λ c'.
        Follows (deposit one_deposit 6) (ledger first_chain.pool.investors)
          (ledger c'.pool.investors))
      (dispatch round_host (deposit one_deposit 6) first_chain)
      (dispatch-Follows round_host (deposit one_deposit 6) first_chain
        (start new_program 3 2000000000 (pos 60) 1000 initialized))
      funded

-- The administrator names investor 5 as the successor.
abbrev named_chain : Chain round_host
named_chain = record funded_chain { state = record funded_chain.state { pending_admin = 5 } }

named : dispatch round_host (transfer_authority 4 5) funded_chain ≡ ok named_chain
unfolding dispatch Authority.transfer_authority require_admin
named = refl

dispatch-Hands_example : Hands (transfer_authority 4 5) funded_chain.state named_chain.state
dispatch-Hands_example =
    Ensures-ok (λ c'. Hands (transfer_authority 4 5) funded_chain.state c'.state)
      (dispatch round_host (transfer_authority 4 5) funded_chain)
      (dispatch-Hands round_host (transfer_authority 4 5) funded_chain Reachable-funded_chain) named
