-- ===== src/Client.antt =====
-- The administrator's command line, admin-cli/src: what it calls, its commands, and its failures.
pub mod Requests
pub mod Addresses
pub mod Accounts
pub mod Handlers
pub mod Commands
pub mod Service
pub mod Promises
pub mod Runs
mod Examples
use solana_floor_program.Base.{ℕ, List, Option, none, some, Bool}
use solana_floor_program.Program.State.{Pubkey, ProgramState, InvestorRecord}
use Prim.Native.String.{String}

-- `anyhow!(...)`, one for each message of the source's; `panicked` is an `expect` or an index that
-- fails.
pub data Failure : Type 0 where
  invalid_override_program_id invalid_usdc_mint invalid_waln_mint : Failure
  invalid_investor_pubkey invalid_new_admin_pubkey : Failure
  unreadable_keypair undecodable_keypair unparsable_keypair no_program_client : Failure
  account_not_found : Failure
  account_too_small : (length min_len : ℕ) → Failure
  not_deserialized panicked : Failure

pub data Reply {ℓ} (A : Type ℓ) : Type ℓ where
  done : A → Reply A
  failed : Failure → Reply A

infixl 5 ◌>>=◌
abbrev pub ◌>>=◌ {ℓ κ} : {A : Type ℓ} {B : Type κ} → Reply A → (A → Reply B) → Reply B
failed e >>= next = failed e
done a >>= next = next a

-- `o.map_err(|e| ...)?`
abbrev pub or_fail {ℓ} : {A : Type ℓ} → Option A → Failure → Reply A
or_fail none e = failed e
or_fail (some a) e = done a

pub data Cluster : Type 0 where
  mainnet devnet localnet : Cluster
  custom : (url ws_url : String) → Cluster

-- An investor pool as its bytes read: the count, and all slots.
pub record PoolAccount : Type 0 where
  pub count : ℕ
  pub investors : List InvestorRecord

-- What the client calls: key texts, files, the network, and the readings of account bytes.
pub record Net : Type 0 where
  -- `str::parse::<Pubkey>`
  pub parse_pubkey : String → Option Pubkey
  pub tilde : String → String
  pub trim : String → String
  pub read_to_string : String → Option String
  pub decode_base58 : String → Option (List ℕ)
  -- the public key of the key pair that the bytes, or the file, hold
  pub keypair_from_bytes : List ℕ → Option Pubkey
  pub read_keypair_file : String → Option Pubkey
  -- whether a client for the program can be made
  pub opens : Cluster → Pubkey → Bool
  pub account_data : Pubkey → Option (List ℕ)
  pub account_lamports : Pubkey → Option ℕ
  pub token_balance : Pubkey → Option (List ℕ)
  -- `size_of` and `bytemuck::try_from_bytes` of the two accounts that are read
  pub state_size : ℕ
  pub pool_size : ℕ
  pub decode_state : List ℕ → Option ProgramState
  pub decode_pool : List ℕ → Option PoolAccount
  -- `Program::programdata_address`: the data account that a program's account names
  pub programdata_address : Pubkey → Option Pubkey
  -- ids of programs
  pub token_id : Pubkey
  pub associated_token_id : Pubkey

-- `Program<Arc<Keypair>>`: the program called, and the key that pays and signs.
pub record Connection : Type 0 where
  pub program_id : Pubkey
  pub payer : Pubkey
