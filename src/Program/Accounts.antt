-- ===== src/Program/Accounts.antt =====
-- The accounts of a running program, and what the account framework checks of those passed in.
-- The program has one `ProgramState` and one `InvestorPool`, at fixed derived addresses; the round
-- accounts stand at their addresses. A failing instruction leaves everything as it was, so handlers
-- return a result and the new accounts only with success.
use solana_floor_program.Base.{ℕ, List, [], ◌∷◌, Option, none, some, ◌&&◌, ◌==◌, if◌then◌else◌}
use solana_floor_program.Program.Errors.{
  Result, ok, err, ◌>>◌, check, constraint, require, unauthorized,
}
use solana_floor_program.Program.State.{
  Pubkey, ProgramState, InvestorPool, RoundRecord, RoundLockedWaln, Event,
}
use solana_floor_program.Program.Host.{Host, Seed, text, le_bytes, key, MintView, TokenAccount}

pub record Chain (h : Host) : Type 0 where
  pub state : ProgramState
  pub pool : InvestorPool
  pub round_records : Pubkey → Option RoundRecord
  pub round_locked : Pubkey → Option RoundLockedWaln
  pub events : List Event
  pub world : h.World

-- One entry of a map written anew.
abbrev pub update {ℓ} : {A : Type ℓ} → (Pubkey → Option A) → Pubkey → Option A → Pubkey → Option A
update m k v j = if j == k then v else m j

module _ (h : Host) where
  open h use {
    World, program_id, find_program_address, mint_view, token_account, owner, invoke_signed,
  }

  -- seeds.rs: the program's derived addresses.
  abbrev pub pda : List Seed → Pubkey
  pda seeds = (find_program_address seeds program_id).0

  abbrev pub state_key : Pubkey
  state_key = pda (text "contract_state" ∷ [])

  abbrev pub pool_key : Pubkey
  pool_key = pda (text "investor_pool" ∷ [])

  abbrev pub usdc_vault_key : Pubkey
  usdc_vault_key = pda (text "usdc_vault" ∷ [])

  abbrev pub waln_vault_key : Pubkey
  waln_vault_key = pda (text "waln_vault" ∷ [])

  abbrev pub treasury_key : Pubkey
  treasury_key = pda (text "treasury" ∷ [])

  abbrev pub nft_authority_key : Pubkey
  nft_authority_key = pda (text "nft_authority" ∷ [])

  abbrev pub aat_nft_seeds : Pubkey → List Seed
  aat_nft_seeds investor = text "aat_nft" ∷ key investor ∷ []

  abbrev pub round_record_seeds : ℕ → List Seed
  round_record_seeds i = text "round_record" ∷ le_bytes i ∷ []

  abbrev pub round_locked_seeds : ℕ → List Seed
  round_locked_seeds i = text "round_locked_waln" ∷ le_bytes i ∷ []

  -- `InterfaceAccount<Mint>`
  unfoldable pub load_mint : World → Pubkey → Result MintView
  load_mint w k = elim (mint_view w k) [ none ↦ err constraint | some m ↦ ok m ]

  -- `InterfaceAccount<TokenAccount>` with `token::mint`, `token::authority`, `token::token_program`
  unfoldable pub load_token_account :
      World → Pubkey → (mint authority token_program : Pubkey) → Result TokenAccount
  load_token_account w k mint authority token_program = elim (token_account w k) [
    | none ↦ err constraint
    | some a ↦ (do
      check (a.mint == mint && a.authority == authority && owner w k == token_program)
      ok a)
  ]

  -- `constraint = contract_state.load()?.admin == admin.key() @ Unauthorized`
  unfoldable pub require_admin : Pubkey → Chain h → Result (Unit {0})
  require_admin signer c = require (c.state.admin == signer) unauthorized
