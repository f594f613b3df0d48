-- ===== src/Program/Instructions/ClaimWaln.antt =====
-- instructions/claim_waln.rs
use solana_floor_program.Base.{ℕ, List, [], ◌∷◌, none, some, Bool, ◌==◌, if◌then◌else◌}
use solana_floor_program.Program.Errors.{
  Result, ok, err, ◌>>=◌, ◌>>◌, check, constraint, require, contract_frozen, invalid_mint,
}
use solana_floor_program.Program.Checked.{add_u64}
use solana_floor_program.Program.State.{Pubkey, RoundLockedWaln}
use solana_floor_program.Program.Allocations.{take_allocation}
use solana_floor_program.Program.Host.{
  Host, transfer_checked, create_associated_account, text, byte,
}
use solana_floor_program.Program.Accounts.{
  Chain, update, pda, state_key, waln_vault_key, treasury_key, round_locked_seeds, load_mint,
  load_token_account,
}
use solana_floor_program.Program.Utils.{get_hook_program_id, validate_hook_accounts}

pub record ClaimWaln : Type 0 where
  pub investor : Pubkey
  pub waln_mint : Pubkey
  pub investor_waln_account : Pubkey
  pub waln_vault : Pubkey
  pub waln_token_program : Pubkey
  pub remaining_accounts : List Pubkey

module _ (h : Host) where
  open h use {
    World, token_2022_id, associated_address, token_account, unix_timestamp, lamports, set_lamports,
    release_account, invoke_signed,
  }

  -- `init_if_needed`: the investor's token account is created where there is none.
  unfoldable pub init_claim_account : ClaimWaln → World → Result World
  init_claim_account a w = elim (token_account w a.investor_waln_account) [
    | none ↦
        invoke_signed
          (create_associated_account a.investor a.investor_waln_account a.investor a.waln_mint) [] w
    | some existing ↦ ok w
  ]

  -- The account constraints: the world after the token account is there, and the mint's decimals.
  unfoldable pub check_claim_accounts : ClaimWaln → Chain h → Result (World × ℕ)
  check_claim_accounts a c = do
    mint ← load_mint h c.world a.waln_mint
    check (a.waln_token_program == token_2022_id)
    check (a.investor_waln_account == associated_address a.investor a.waln_mint token_2022_id)
    w ← init_claim_account a c.world
    own ← load_token_account h w a.investor_waln_account a.waln_mint a.investor a.waln_token_program
    check (a.waln_vault == waln_vault_key h)
    vault ← load_token_account h w a.waln_vault a.waln_mint (state_key h) a.waln_token_program
    ok (w, mint.decimals)

  -- The transfer hook's accounts, where the mint has a hook, must be those expected.
  unfoldable pub check_claim_hook : ClaimWaln → World → Result (Unit {0})
  check_claim_hook a w = elim (get_hook_program_id h w a.waln_mint) [
    | none ↦ ok tt
    | some hook_program ↦
        validate_hook_accounts h w a.remaining_accounts a.waln_mint (state_key h) hook_program
  ]

  -- The account after the claim, or its closing into the treasury once nothing is left to claim.
  unfoldable pub store_claim : Pubkey → RoundLockedWaln → Bool → Chain h → Result (Chain h)
  store_claim account rlw should_close c =
      if should_close
      then (do
        rent ← add_u64 (lamports c.world (treasury_key h)) (lamports c.world account)
        w ←
            release_account account
              (set_lamports account 0 (set_lamports (treasury_key h) rent c.world))
        ok (record c { round_locked = update c.round_locked account none; world = w }))
      else ok (record c { round_locked = update c.round_locked account (some rlw) })

  unfoldable pub claim_waln : ClaimWaln → ℕ → Chain h → Result (Chain h)
  claim_waln a round_index c = do
    let account = pda h (round_locked_seeds h round_index)
    elim (c.round_locked account) [
      | none ↦ err constraint
      | some rlw ↦ (do
        checked ← check_claim_accounts a c
        require (c.state.frozen == 0) contract_frozen
        require (a.waln_mint == c.state.waln_mint) invalid_mint
        taken ← take_allocation (unix_timestamp checked.0) a.investor rlw
        check_claim_hook a checked.0
        w ←
            invoke_signed
              (transfer_checked a.waln_token_program a.waln_vault a.waln_mint
                a.investor_waln_account (state_key h) a.remaining_accounts taken.0 checked.1)
              ((text "contract_state" ∷ byte c.state.bump ∷ []) ∷ []) checked.0
        store_claim account taken.1 taken.2 (record c { world = w }))
    ]
