-- ===== src/Program/Instructions/Initialize.antt =====
-- instructions/initialize.rs. The framework creates the accounts of the `init` constraints before
-- the handler runs: the world passed in is the one after that, and new accounts are all zeros.
use solana_floor_program.Base.{ℕ, List, [], ◌∷◌, Option, none, some, Bool, not, ◌==◌, ltb}
use solana_floor_program.Base.Int.{ℤ, pos, leb_ℤ}
use solana_floor_program.Program.Errors.{
  Result, ok, ◌>>=◌, ◌>>◌, check, require, unauthorized, invalid_parameter,
}
use solana_floor_program.Program.State.{Pubkey, default_key}
use solana_floor_program.Program.RoundStart.{require_viable_round_params}
use solana_floor_program.Program.Host.{Host, Seed, text}
use solana_floor_program.Program.Accounts.{Chain, load_mint, usdc_vault_key, waln_vault_key}

-- `upgrade_authority` is what the program's data account names.
pub record Initialize : Type 0 where
  pub admin : Pubkey
  pub usdc_mint : Pubkey
  pub waln_mint : Pubkey
  pub waln_token_program : Pubkey
  pub upgrade_authority : Option Pubkey

abbrev pub is_upgrade_authority : Option Pubkey → Pubkey → Bool
is_upgrade_authority none k = Bool.false
is_upgrade_authority (some a) k = a == k

module _ (h : Host) where
  open h use {World, program_id, token_2022_id, find_program_address}

  abbrev pub bump_of : List Seed → ℕ
  bump_of seeds = (find_program_address seeds program_id).1

  unfoldable pub initialize :
      Initialize → (floor_price_usdc round_size_waln : ℕ) → ℤ → World → Result (Chain h)
  initialize a floor_price_usdc round_size_waln lock_period_seconds w = do
    usdc ← load_mint h w a.usdc_mint
    waln ← load_mint h w a.waln_mint
    check (a.waln_token_program == token_2022_id)
    require (is_upgrade_authority a.upgrade_authority a.admin) unauthorized
    require (ltb 0 floor_price_usdc) invalid_parameter
    require (ltb 0 round_size_waln) invalid_parameter
    require_viable_round_params round_size_waln floor_price_usdc waln.decimals
    require (leb_ℤ (pos 0) lock_period_seconds) invalid_parameter
    require (not waln.has_transfer_fee) invalid_parameter
    ok (record {
      state = record {
        admin = a.admin;
        usdc_mint = a.usdc_mint;
        waln_mint = a.waln_mint;
        usdc_vault = usdc_vault_key h;
        waln_vault = waln_vault_key h;
        floor_price_usdc = floor_price_usdc;
        round_size_waln = round_size_waln;
        current_round_waln = 0;
        total_usdc_in_lobby = 0;
        round_count = 0;
        lock_period_seconds = lock_period_seconds;
        usdc_withdraw_lock_seconds = pos 0;
        current_round_floor_price = floor_price_usdc;
        current_round_size_waln = round_size_waln;
        current_round_lock_period = lock_period_seconds;
        current_round_usdc_spent = 0;
        total_aat_volume = 0;
        waln_dust_carryover = 0;
        total_usdc_locked_for_round = 0;
        pending_admin = default_key;
        sell_paused = 0;
        round_started = 0;
        bump = bump_of (text "contract_state" ∷ []);
        usdc_vault_bump = bump_of (text "usdc_vault" ∷ []);
        waln_vault_bump = bump_of (text "waln_vault" ∷ []);
        waln_decimals = waln.decimals;
        usdc_decimals = usdc.decimals;
        frozen = 0;
      };
      pool = record { bump = bump_of (text "investor_pool" ∷ []); investors = [] };
      round_records = λ k. none;
      round_locked = λ k. none;
      events = [];
      world = w;
    })
