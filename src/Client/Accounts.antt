-- ===== src/Client/Accounts.antt =====
-- admin-cli/src/handlers.rs: accounts read from their bytes, and what `info` shows of them.
use solana_floor_program.Base.{
  ℕ, ◌+◌, List, [], ◌∷◌, Option, none, some, Bool, ◌==◌, ltb, if◌then◌else◌, length, take, drop,
}
use solana_floor_program.Program.State.{Pubkey, ProgramState, InvestorRecord, default_key}
use solana_floor_program.Program.Host.{Host}
use solana_floor_program.Program.Host.Metadata.{parse_u64}
use solana_floor_program.Client.{
  Reply, done, failed, ◌>>=◌, or_fail, account_not_found, account_too_small, not_deserialized,
  panicked, Net, PoolAccount, Connection,
}
use solana_floor_program.Client.Addresses.{
  get_contract_state_address, get_usdc_vault_address, get_waln_vault_address,
  get_investor_pool_address, get_treasury_address,
}

-- `load_zero_copy` on the account's bytes: eight bytes of discriminator, then the value.
unfoldable pub load_zero_copy {ℓ} :
    {A : Type ℓ} → (size_of : ℕ) → (List ℕ → Option A) → Option (List ℕ) → Reply A
load_zero_copy size_of try_from_bytes account = do
  data_ ← or_fail account account_not_found
  let min_len = 8 + size_of
  if ltb (length data_) min_len
      then failed (account_too_small (length data_) min_len)
      else or_fail (try_from_bytes (take size_of (drop 8 data_))) not_deserialized

-- `.unwrap_or(0)`
abbrev pub or_zero : Option ℕ → ℕ
or_zero none = 0
or_zero (some n) = n

-- A balance's text as a number; 0 if there is none, or it is no number.
abbrev pub balance_of : Option (List ℕ) → ℕ
balance_of none = 0
balance_of (some amount) = or_zero (parse_u64 amount)

-- The investors listed: those of the first `count` slots that are in use.
abbrev pub listed : List InvestorRecord → List InvestorRecord
listed [] = []
listed (r ∷ rs) = if r.investor == default_key then listed rs else r ∷ listed rs

-- `pool.investors[..count]` panics beyond the slots.
unfoldable pub listed_investors : PoolAccount → Reply (List InvestorRecord)
listed_investors pool =
    if ltb (length pool.investors) pool.count
    then failed panicked
    else done (listed (take pool.count pool.investors))

-- What `info` prints, before it is scaled and laid out.
pub record Info : Type 0 where
  pub program_id : Pubkey
  pub contract_state : Pubkey
  pub state : ProgramState
  pub pending_admin : Option Pubkey
  pub usdc_vault : Pubkey
  pub usdc_vault_balance : ℕ
  pub waln_vault : Pubkey
  pub waln_vault_balance : ℕ
  pub treasury : Pubkey
  pub treasury_lamports : ℕ
  pub sell_paused : Bool
  pub frozen : Bool
  pub round_started : Bool
  pub count : ℕ
  pub investors : List InvestorRecord

module _ (h : Host) (n : Net) where
  open n use {
    account_data, account_lamports, token_balance, state_size, pool_size, decode_state, decode_pool,
  }

  unfoldable pub handle_info : Connection → Reply Info
  handle_info p = do
    let contract_state = (get_contract_state_address h p.program_id).0
    let usdc_vault = (get_usdc_vault_address h p.program_id).0
    let waln_vault = (get_waln_vault_address h p.program_id).0
    let investor_pool = (get_investor_pool_address h p.program_id).0
    let treasury = (get_treasury_address h p.program_id).0
    state ← load_zero_copy state_size decode_state (account_data contract_state)
    pool ← load_zero_copy pool_size decode_pool (account_data investor_pool)
    investors ← listed_investors pool
    done (record {
      program_id = p.program_id;
      contract_state = contract_state;
      state = state;
      pending_admin = if state.pending_admin == default_key then none else some state.pending_admin;
      usdc_vault = usdc_vault;
      usdc_vault_balance = balance_of (token_balance usdc_vault);
      waln_vault = waln_vault;
      waln_vault_balance = balance_of (token_balance waln_vault);
      treasury = treasury;
      treasury_lamports = or_zero (account_lamports treasury);
      sell_paused = state.sell_paused == 1;
      frozen = state.frozen == 1;
      round_started = state.round_started == 1;
      count = pool.count;
      investors = investors;
    })
