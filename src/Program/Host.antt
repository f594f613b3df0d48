-- ===== src/Program/Host.antt =====
-- What the program calls and does not implement: the runtime, the system program, the token
-- programs and the account framework. It is a parameter of the model. `World` is everything outside
-- the program's own accounts, token balances and lamports included.
pub mod Metadata
use solana_floor_program.Base.{ℕ, ◌≡◌, List, Option, some, Bool}
use solana_floor_program.Base.Int.{ℤ}
use solana_floor_program.Program.Errors.{Result}
use solana_floor_program.Program.State.{Pubkey}
use Prim.Native.String.{String}

-- One seed of a program-derived address.
pub data Seed : Type 0 where
  text : String → Seed
  le_bytes : ℕ → Seed
  key : Pubkey → Seed
  byte : ℕ → Seed

-- What `StateWithExtensions::<Mint>::unpack` gives of a mint. A missing extension is `none`; the
-- hook extension may name no program. Texts are their bytes.
pub record MintView : Type 0 where
  pub decimals : ℕ
  pub transfer_hook : Option (Option Pubkey)
  pub has_transfer_fee : Bool
  pub metadata : Option (List (List ℕ × List ℕ))

pub record TokenAccount : Type 0 where
  pub mint : Pubkey
  pub authority : Pubkey
  pub amount : ℕ

-- The instructions that the program has other programs carry out.
pub data Instruction : Type 0 where
  transfer_checked :
      (token_program source mint destination authority : Pubkey) (hook_accounts : List Pubkey)
      (amount decimals : ℕ)
      → Instruction
  transfer : (source destination : Pubkey) (lamports : ℕ) → Instruction
  create_account : (payer account : Pubkey) (lamports space : ℕ) (owner : Pubkey) → Instruction
  allocate : (account : Pubkey) (space : ℕ) → Instruction
  assign : (account owner : Pubkey) → Instruction
  initialize_metadata_pointer : (mint authority metadata : Pubkey) → Instruction
  initialize_non_transferable_mint : (mint : Pubkey) → Instruction
  initialize_mint2 :
      (mint : Pubkey) (decimals : ℕ) (authority freeze_authority : Pubkey) → Instruction
  initialize_metadata : (mint authority : Pubkey) (name symbol uri : String) → Instruction
  update_field : (mint authority : Pubkey) (field value : List ℕ) → Instruction
  create_associated_account : (payer account owner mint : Pubkey) → Instruction
  mint_to : (mint account authority : Pubkey) (amount : ℕ) → Instruction
  freeze_account : (account mint authority : Pubkey) → Instruction
  revoke_mint_authority revoke_freeze_authority : (mint authority : Pubkey) → Instruction

pub record Host : Type 1 where
  pub World : Type 0
  -- `crate::ID`, and the ids of Token-2022 and the system program
  pub program_id : Pubkey
  pub token_2022_id : Pubkey
  pub system_id : Pubkey
  pub find_program_address : List Seed → Pubkey → Pubkey × ℕ
  pub unix_timestamp : World → ℤ
  pub minimum_balance : World → ℕ → ℕ
  pub lamports : World → Pubkey → ℕ
  pub owner : World → Pubkey → Pubkey
  pub account_data : World → Pubkey → List ℕ
  pub mint_view : World → Pubkey → Option MintView
  -- the decimals of a mint are fixed when it is initialized
  pub mint_decimals : Pubkey → ℕ
  pub decimals_fixed :
      (w : World) (k : Pubkey) (m : MintView)
      → mint_view w k ≡ some m
      → m.decimals ≡ mint_decimals k
  pub token_account : World → Pubkey → Option TokenAccount
  -- `ExtensionType::try_calculate_account_len` for a non-transferable mint with a metadata pointer
  pub aat_mint_space : Option ℕ
  -- the associated token account of a wallet, a mint and a token program
  pub associated_address : Pubkey → Pubkey → Pubkey → Pubkey
  -- `invoke_signed`, with the seeds of the addresses that the program signs for
  pub invoke_signed : Instruction → List (List Seed) → World → Result World
  -- direct writes to an account that the program owns
  pub set_lamports : Pubkey → ℕ → World → World
  pub release_account : Pubkey → World → Result World
