-- ===== src/Client/Requests.antt =====
-- The requests that the client sends: for each instruction its accounts, under the names of the
-- account structs that the program declares, and its arguments.
use solana_floor_program.Base.{ℕ, Bool}
use solana_floor_program.Base.Int.{ℤ}
use solana_floor_program.Program.State.{Pubkey}

pub record AdminOnly : Type 0 where
  pub admin : Pubkey
  pub contract_state : Pubkey

pub record PoolAdmin : Type 0 where
  pub admin : Pubkey
  pub contract_state : Pubkey
  pub investor_pool : Pubkey

pub record TreasuryAdmin : Type 0 where
  pub admin : Pubkey
  pub contract_state : Pubkey
  pub treasury : Pubkey
  pub system_program : Pubkey

pub record InitializeAccounts : Type 0 where
  pub admin : Pubkey
  pub contract_state : Pubkey
  pub usdc_mint : Pubkey
  pub waln_mint : Pubkey
  pub usdc_vault : Pubkey
  pub waln_vault : Pubkey
  pub investor_pool : Pubkey
  pub system_program : Pubkey
  pub usdc_token_program : Pubkey
  pub waln_token_program : Pubkey
  pub program : Pubkey
  pub program_data : Pubkey

pub record MintAatNft : Type 0 where
  pub admin : Pubkey
  pub mint : Pubkey
  pub contract_state : Pubkey
  pub investor : Pubkey
  pub investor_aat_account : Pubkey
  pub nft_authority : Pubkey
  pub system_program : Pubkey
  pub token_program : Pubkey
  pub associated_token_program : Pubkey

pub record UpdateAatVolume : Type 0 where
  pub admin : Pubkey
  pub contract_state : Pubkey
  pub investor_pool : Pubkey
  pub investor : Pubkey
  pub mint : Pubkey
  pub nft_authority : Pubkey
  pub token_program : Pubkey
  pub system_program : Pubkey

pub record RemovalAccounts : Type 0 where
  pub admin : Pubkey
  pub contract_state : Pubkey
  pub investor_pool : Pubkey
  pub investor : Pubkey
  pub usdc_mint : Pubkey
  pub investor_usdc_account : Pubkey
  pub usdc_vault : Pubkey
  pub usdc_token_program : Pubkey

pub record TransferAuthority : Type 0 where
  pub admin : Pubkey
  pub new_admin : Pubkey
  pub contract_state : Pubkey

pub record AcceptAuthority : Type 0 where
  pub pending_admin : Pubkey
  pub contract_state : Pubkey

-- `.accounts(...)` and `.args(...)`
pub data Request : Type 0 where
  initialize :
      InitializeAccounts
      → (floor_price_usdc round_size_waln : ℕ) (lock_period_seconds : ℤ) → Request
  set_floor_price set_round_size : AdminOnly → ℕ → Request
  set_lock_period set_usdc_withdraw_lock : AdminOnly → ℤ → Request
  set_sell_paused set_frozen : AdminOnly → Bool → Request
  cancel_round : PoolAdmin → Request
  set_investor_usdc_unlock : PoolAdmin → Pubkey → ℤ → Request
  fund_treasury withdraw_treasury : TreasuryAdmin → ℕ → Request
  mint_aat_nft : MintAatNft → ℕ → Request
  update_aat_volume : UpdateAatVolume → ℕ → Request
  remove_investor_from_pool : RemovalAccounts → Request
  transfer_authority : TransferAuthority → Request
  accept_authority : AcceptAuthority → Request
