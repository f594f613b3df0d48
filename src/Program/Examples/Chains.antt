-- ===== src/Program/Examples/Chains.antt =====
-- A chain with a small host: an initialization, a deposit, and the theorems on instructions.
use solana_floor_program.Base.{
  ℕ, ◌+◌, ◌≡◌, refl, true, false, List, [], ◌∷◌, Option, none, some, arith, ◌==◌, if◌then◌else◌,
}
use solana_floor_program.Base.Int.{◌+ℤ◌, pos}
use solana_floor_program.Program.Errors.{ok, err, floor, unauthorized, Ensures, Ensures-ok}
use solana_floor_program.Program.Checked.{add_u64, sub, mul_u128, div, pow10, add_i64}
use solana_floor_program.Program.State.{Pubkey, ProgramState}
use solana_floor_program.Program.Host.{Host, Seed, MintView, TokenAccount, text, key}
use solana_floor_program.Program.Host.Metadata.{print_loop, print_u64, parse_digits, parse_u64}
use solana_floor_program.Program.Utils.{
  aat_volume_field, aat_volume_of, verify_aat_nft_and_get_allocation,
}
use solana_floor_program.Program.Accounts.{Chain, load_mint, load_token_account}
use solana_floor_program.Program.Pool.{find_investor, has_investor, modify_investor, new_record}
use solana_floor_program.Program.RoundStart.{round_cap, require_viable_round_params}
use solana_floor_program.Program.Instructions.Initialize.{Initialize, initialize}
use solana_floor_program.Program.Instructions.DepositUsdc.{
  DepositUsdc, check_deposit_accounts, deposit_record, deposit_usdc,
}
use solana_floor_program.Program.Instructions.SellWaln.Pricing.{quote_sale, require_payable_rest}
use solana_floor_program.Program.Instructions.SellWaln.Quotes.{Quoted, quote_sale-Quoted}
use solana_floor_program.Program.ForcedClose.{mul_div}
use solana_floor_program.Program.Instructions.WithdrawUsdc.{
  WithdrawUsdc, check_withdraw_accounts, withdraw_record, withdraw_usdc,
}
use solana_floor_program.Program.Instructions.Deposits.{MakesDeposit, deposit_usdc-MakesDeposit}
use solana_floor_program.Program.Instructions.Withdrawals.{Withdraws, withdraw_usdc-Withdraws}
use solana_floor_program.Program.Dispatch.{dispatch, deposit, set_frozen}
use solana_floor_program.Program.Dispatch.Guards.{dispatch-unauthorized, dispatch-frozen}
use solana_floor_program.Program.Invariant.{IsSoundChain}
use solana_floor_program.Program.Invariant.Reachable.{
  Reachable, start, step, call, Reachable-IsSound,
}

-- Mint 7 is USDC and 8 is wALN. Investor 5 has the USDC account 20, the AAT NFT 105 and the AAT
-- account 30; the program's own single-text addresses are all 51. Other programs always succeed.
abbrev small_address : List Seed → Pubkey → Pubkey × ℕ
small_address (text t ∷ key k ∷ rest) program = (100 + k, 255)
small_address _ program = (51, 255)

abbrev small_mint : ℕ → Option MintView
small_mint k =
    if k == 105
    then some (record {
      decimals = 0;
      transfer_hook = none;
      has_transfer_fee = false;
      metadata = some ((aat_volume_field, print_u64 50) ∷ []);
    })
    else some
        (record { decimals = 9; transfer_hook = none; has_transfer_fee = false; metadata = none })

abbrev small_decimals : ℕ → ℕ
small_decimals k = if k == 105 then 0 else 9

small_mint-decimals : (k : ℕ) (m : MintView) → small_mint k ≡ some m → m.decimals ≡ small_decimals k
small_mint-decimals k m e = ground arith

abbrev small_account : ℕ → Option TokenAccount
small_account k =
    if k == 51
    then some (record { mint = 7; authority = 51; amount = 0 })
    else if k == 30
    then some (record { mint = 105; authority = 5; amount = 1 })
    else some (record { mint = 7; authority = 5; amount = 1000 })

abbrev small_host : Host
small_host = record {
  World = Unit;
  program_id = 1;
  token_2022_id = 2;
  system_id = 3;
  find_program_address = small_address;
  unix_timestamp = λ w. pos 1000;
  minimum_balance = λ w space. space;
  lamports = λ w k. 0;
  owner = λ w k. 2;
  account_data = λ w k. [];
  mint_view = λ w k. small_mint k;
  mint_decimals = small_decimals;
  decimals_fixed = λ w k m. small_mint-decimals k m;
  token_account = λ w k. small_account k;
  aat_mint_space = some 234;
  associated_address = λ wallet mint program. 30;
  invoke_signed = λ i seeds w. ok w;
  set_lamports = λ k n w. w;
  release_account = λ k w. ok w;
}

abbrev initialization : Initialize
initialization = record {
  admin = 4;
  usdc_mint = 7;
  waln_mint = 8;
  waln_token_program = 2;
  upgrade_authority = some 4;
}

abbrev new_state : ProgramState
new_state = record {
  admin = 4;
  usdc_mint = 7;
  waln_mint = 8;
  usdc_vault = 51;
  waln_vault = 51;
  floor_price_usdc = 3;
  round_size_waln = 2000000000;
  current_round_waln = 0;
  total_usdc_in_lobby = 0;
  round_count = 0;
  lock_period_seconds = pos 60;
  usdc_withdraw_lock_seconds = pos 0;
  current_round_floor_price = 3;
  current_round_size_waln = 2000000000;
  current_round_lock_period = pos 60;
  current_round_usdc_spent = 0;
  total_aat_volume = 0;
  waln_dust_carryover = 0;
  total_usdc_locked_for_round = 0;
  pending_admin = 0;
  sell_paused = 0;
  round_started = 0;
  bump = 255;
  usdc_vault_bump = 255;
  waln_vault_bump = 255;
  waln_decimals = 9;
  usdc_decimals = 9;
  frozen = 0;
}

abbrev new_chain : Chain small_host
new_chain = record {
  state = new_state;
  pool = record { bump = 255; investors = [] };
  round_records = λ k. none;
  round_locked = λ k. none;
  events = [];
  world = tt;
}

abbrev first_deposit : DepositUsdc
first_deposit = record {
  investor = 5;
  usdc_mint = 7;
  investor_usdc_account = 20;
  usdc_vault = 51;
  aat_nft = 105;
  investor_aat_account = 30;
  usdc_token_program = 2;
}

abbrev after_deposit : Chain small_host
after_deposit = record new_chain {
  state = record new_state { total_usdc_in_lobby = 6 };
  pool = record {
    bump = 255;
    investors = record (new_record 5) { usdc_deposited = 6; aat_volume = 50 } ∷ [];
  };
}

Reachable-after_deposit : Reachable small_host after_deposit
unfolding initialize load_mint require_viable_round_params round_cap mul_u128 div pow10 dispatch
    deposit_usdc check_deposit_accounts load_token_account verify_aat_nft_and_get_allocation
    aat_volume_of print_u64 print_loop parse_u64 parse_digits has_investor modify_investor
    new_record deposit_record add_u64 add_i64
Reachable-after_deposit =
    step (start initialization 3 2000000000 (pos 60) tt refl) (call (deposit first_deposit 6) refl)

Reachable-IsSound_example : IsSoundChain small_host after_deposit
Reachable-IsSound_example = Reachable-IsSound small_host Reachable-after_deposit

dispatch-unauthorized_example :
    dispatch small_host (set_frozen 6 true) after_deposit ≡ err (floor unauthorized)
dispatch-unauthorized_example =
    dispatch-unauthorized small_host (set_frozen 6 true) 6 after_deposit refl
      (λ e. omega (arith, e))

dispatch-frozen_example :
    Ensures
      (λ c'. new_chain.state.frozen ≡ 0)
      (dispatch small_host (deposit first_deposit 6) new_chain)
dispatch-frozen_example = dispatch-frozen small_host (deposit first_deposit 6) new_chain refl

quote_sale-Quoted_example :
    Ensures (Quoted 9 1500000000 new_state) (quote_sale 8 7 9 1500000000 new_state)
quote_sale-Quoted_example = quote_sale-Quoted 8 7 9 1500000000 new_state

quote_runs :
    quote_sale 8 7 9 1500000000 new_state
    ≡ ok (record {
      need_round_start = true;
      snapshot_price = 3;
      snapshot_size = 2000000000;
      floor_price = 3;
      round_size = 2000000000;
      waln_amount = 1500000000;
    })
unfolding quote_sale require_payable_rest sub pow10 mul_u128 div mul_div
quote_runs = refl

deposit_usdc-MakesDeposit_example : MakesDeposit small_host first_deposit 6 new_chain after_deposit
unfolding deposit_usdc check_deposit_accounts load_mint load_token_account
    verify_aat_nft_and_get_allocation aat_volume_of print_u64 print_loop parse_u64 parse_digits
    has_investor modify_investor new_record deposit_record add_u64 add_i64
deposit_usdc-MakesDeposit_example =
    Ensures-ok (MakesDeposit small_host first_deposit 6 new_chain)
      (deposit_usdc small_host first_deposit 6 new_chain)
      (deposit_usdc-MakesDeposit small_host first_deposit 6 new_chain) refl

-- A deposit at 100 with a lock time of 30.
deposit_locks :
    deposit_record 6 50 (pos 30) (pos 100) (new_record 5)
    ≡ ok (record (new_record 5) { usdc_deposited = 6; aat_volume = 50; usdc_unlock_ts = pos 130 })
unfolding deposit_record new_record add_u64 add_i64 ◌+ℤ◌
deposit_locks = refl

abbrev first_withdrawal : WithdrawUsdc
first_withdrawal = record {
  investor = 5;
  usdc_mint = 7;
  investor_usdc_account = 20;
  usdc_vault = 51;
  usdc_token_program = 2;
}

abbrev after_withdrawal : Chain small_host
after_withdrawal = record after_deposit {
  state = record new_state { total_usdc_in_lobby = 2 };
  pool = record {
    bump = 255;
    investors = record (new_record 5) { usdc_deposited = 2; aat_volume = 50 } ∷ [];
  };
}

withdraw_usdc-Withdraws_example :
    Withdraws small_host first_withdrawal 4 after_deposit after_withdrawal
unfolding withdraw_usdc check_withdraw_accounts load_mint load_token_account find_investor
    modify_investor new_record withdraw_record sub
withdraw_usdc-Withdraws_example =
    Ensures-ok (Withdraws small_host first_withdrawal 4 after_deposit)
      (withdraw_usdc small_host first_withdrawal 4 after_deposit)
      (withdraw_usdc-Withdraws small_host first_withdrawal 4 after_deposit) refl
