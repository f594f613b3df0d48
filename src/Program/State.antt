-- ===== src/Program/State.antt =====
-- state.rs: the accounts of the program.
-- A `Pubkey` is its 32 bytes read as one big-endian number, so that the order of the bytes is the
-- order of the numbers, and `Pubkey::default()` is 0. Integers are native numbers (`i64`: `ℤ`);
-- what overflows is written out where the code computes. The flags are the numbers that are stored.
use solana_floor_program.Base.{ℕ, List, ◌+◌, ◌*◌}
use solana_floor_program.Base.Int.{ℤ}

abbrev pub Pubkey : Type 0
Pubkey = ℕ

abbrev pub default_key : Pubkey
default_key = 0

abbrev pub max_investors : ℕ
max_investors = 100

abbrev pub min_sell_waln : ℕ
min_sell_waln = 1000000000

pub record InvestorAlloc : Type 0 where
  pub investor : Pubkey
  pub waln_amount : ℕ

pub record RoundLockedWaln : Type 0 where
  pub round_index : ℕ
  pub bump : ℕ
  pub unlock : ℤ
  pub remaining_to_claim : ℕ
  pub investors : List InvestorAlloc

-- `RoundLockedWaln::space`.
unfoldable pub locked_waln_space : ℕ → ℕ
locked_waln_space n = 8 + (8 + 1 + 8 + 4 + 4) + n * (32 + 8)

pub record ProgramState : Type 0 where
  pub admin : Pubkey
  pub usdc_mint : Pubkey
  pub waln_mint : Pubkey
  pub usdc_vault : Pubkey
  pub waln_vault : Pubkey
  pub floor_price_usdc : ℕ
  pub round_size_waln : ℕ
  pub current_round_waln : ℕ
  pub total_usdc_in_lobby : ℕ
  pub round_count : ℕ
  pub lock_period_seconds : ℤ
  pub usdc_withdraw_lock_seconds : ℤ
  pub current_round_floor_price : ℕ
  pub current_round_size_waln : ℕ
  pub current_round_lock_period : ℤ
  pub current_round_usdc_spent : ℕ
  pub total_aat_volume : ℕ
  pub waln_dust_carryover : ℕ
  pub total_usdc_locked_for_round : ℕ
  pub pending_admin : Pubkey
  pub sell_paused : ℕ
  pub round_started : ℕ
  pub bump : ℕ
  pub usdc_vault_bump : ℕ
  pub waln_vault_bump : ℕ
  pub waln_decimals : ℕ
  pub usdc_decimals : ℕ
  pub frozen : ℕ

pub record InvestorRecord : Type 0 where
  pub investor : Pubkey
  pub usdc_deposited : ℕ
  pub usdc_locked_current_round : ℕ
  pub usdc_committed : ℕ
  pub waln_purchased_total : ℕ
  pub aat_volume : ℕ
  pub usdc_unlock_ts : ℤ

-- `investors` lists the slots in use, `pool.investors[..count]`: the code reads no other slot, and
-- writes all of a slot when it takes it into use. So `count` is the length of the list.
pub record InvestorPool : Type 0 where
  pub bump : ℕ
  pub investors : List InvestorRecord

pub record RoundRecord : Type 0 where
  pub round_index : ℕ
  pub triggered_at : ℤ
  pub waln_purchased : ℕ
  pub usdc_spent : ℕ
  pub total_aat_volume_at_trigger : ℕ
  pub participant_count : ℕ
  pub bump : ℕ

pub data Event : Type 0 where
  investor_allocated :
      (round_index : ℕ) (investor : Pubkey) (waln_amount usdc_spent : ℕ) (unlock : ℤ) → Event
  round_closed : (round_index waln_purchased usdc_spent participant_count : ℕ) (unlock : ℤ) → Event
