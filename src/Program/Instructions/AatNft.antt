-- ===== src/Program/Instructions/AatNft.antt =====
-- instructions/mint_aat_nft.rs and instructions/update_aat_volume.rs: the AAT volumes.
use solana_floor_program.Base.{ℕ, ◌+◌, ◌-◌, List, [], ◌∷◌, ◌==◌, ltb, leb, if◌then◌else◌}
use solana_floor_program.Program.Errors.{
  Result, ok, ◌>>=◌, ◌>>◌, check, require, ok_or, invalid_parameter, contract_frozen,
  waln_allocation_limit_exceeded, invalid_mint_account_space, funds_locked,
}
use solana_floor_program.Program.Checked.{add_u64, sub}
use solana_floor_program.Program.State.{Pubkey, ProgramState, InvestorRecord}
use solana_floor_program.Program.Host.{
  Host, transfer, allocate, assign, initialize_metadata_pointer, initialize_non_transferable_mint,
  initialize_mint2, initialize_metadata, update_field, create_associated_account, mint_to,
  freeze_account, revoke_mint_authority, revoke_freeze_authority, text,
}
use solana_floor_program.Program.Host.Metadata.{print_u64}
use solana_floor_program.Program.Utils.{aat_volume_field, verify_aat_nft_and_get_allocation}
use solana_floor_program.Program.Accounts.{
  Chain, require_admin, pda, aat_nft_seeds, nft_authority_key,
}
use solana_floor_program.Program.Pool.{has_investor, modify_investor}
use solana_floor_program.Program.RoundAccounts.{own_signer}

abbrev pub max_total_aat_volume : ℕ
max_total_aat_volume = 1000000

-- The total with a new volume in place of an old one, within the limit.
unfoldable pub replace_volume : ℕ → ℕ → ProgramState → Result ProgramState
replace_volume old_volume new_volume s = do
  without ← sub s.total_aat_volume old_volume
  new_total ← add_u64 without new_volume
  require (leb new_total max_total_aat_volume) waln_allocation_limit_exceeded
  ok (record s { total_aat_volume = new_total })

-- The total with a volume more, within the limit.
unfoldable pub add_volume : ℕ → ProgramState → Result ProgramState
add_volume volume s = do
  new_total ← add_u64 s.total_aat_volume volume
  require (leb new_total max_total_aat_volume) waln_allocation_limit_exceeded
  ok (record s { total_aat_volume = new_total })

-- `if let Some(record)`: a missing record is passed over.
abbrev pub set_volume : Pubkey → ℕ → List InvestorRecord → Result (List InvestorRecord)
set_volume investor volume rs =
    if has_investor investor rs
    then modify_investor investor (λ r. ok (record r { aat_volume = volume })) rs
    else ok rs

module _ (h : Host) where
  open h use {World, token_2022_id, aat_mint_space, minimum_balance, lamports, invoke_signed}

  -- The mint's account: rent, space and owner.
  unfoldable pub create_aat_mint : Pubkey → Pubkey → ℕ → World → Result World
  create_aat_mint admin investor space w = do
    let mint = pda h (aat_nft_seeds h investor)
    let signer = own_signer h (aat_nft_seeds h investor) ∷ []
    let required = minimum_balance w (space + 512)
    w1 ←
        if ltb (lamports w mint) required
        then invoke_signed (transfer admin mint (required - lamports w mint)) [] w
        else ok w
    w2 ← invoke_signed (allocate mint space) signer w1
    invoke_signed (assign mint token_2022_id) signer w2

  -- The mint itself, with its metadata.
  unfoldable pub initialize_aat_mint : Pubkey → ℕ → World → Result World
  initialize_aat_mint investor volume w = do
    let mint = pda h (aat_nft_seeds h investor)
    let authority = nft_authority_key h
    let signer = own_signer h (text "nft_authority" ∷ []) ∷ []
    w1 ← invoke_signed (initialize_metadata_pointer mint authority mint) [] w
    w2 ← invoke_signed (initialize_non_transferable_mint mint) [] w1
    w3 ← invoke_signed (initialize_mint2 mint 0 authority authority) [] w2
    w4 ← invoke_signed (initialize_metadata mint authority "AAT NFT" "AAT" "") signer w3
    invoke_signed (update_field mint authority aat_volume_field (print_u64 volume)) signer w4

  -- The one token, frozen in the investor's account, and the mint without authorities.
  unfoldable pub issue_aat : Pubkey → Pubkey → Pubkey → World → Result World
  issue_aat admin investor investor_aat_account w = do
    let mint = pda h (aat_nft_seeds h investor)
    let authority = nft_authority_key h
    let signer = own_signer h (text "nft_authority" ∷ []) ∷ []
    w1 ← invoke_signed (create_associated_account admin investor_aat_account investor mint) [] w
    w2 ← invoke_signed (mint_to mint investor_aat_account authority 1) signer w1
    w3 ← invoke_signed (freeze_account investor_aat_account mint authority) signer w2
    w4 ← invoke_signed (revoke_mint_authority mint authority) signer w3
    invoke_signed (revoke_freeze_authority mint authority) signer w4

  unfoldable pub mint_aat_nft :
      (admin investor investor_aat_account : Pubkey) → ℕ → Chain h → Result (Chain h)
  mint_aat_nft admin investor investor_aat_account aat_volume c = do
    require_admin h admin c
    require (ltb 0 aat_volume) invalid_parameter
    require (c.state.frozen == 0) contract_frozen
    s ← add_volume aat_volume c.state
    space ← ok_or aat_mint_space invalid_mint_account_space
    w1 ← create_aat_mint admin investor space c.world
    w2 ← initialize_aat_mint investor aat_volume w1
    w3 ← issue_aat admin investor investor_aat_account w2
    ok (record c { state = s; world = w3 })

  unfoldable pub update_aat_volume : (admin investor mint : Pubkey) → ℕ → Chain h → Result (Chain h)
  update_aat_volume admin investor mint new_volume c = do
    require_admin h admin c
    check (mint == pda h (aat_nft_seeds h investor))
    require (c.state.round_started == 0) funds_locked
    old_volume ← verify_aat_nft_and_get_allocation h c.world mint investor
    s ← replace_volume old_volume new_volume c.state
    w ←
        invoke_signed
          (update_field mint (nft_authority_key h) aat_volume_field (print_u64 new_volume))
          (own_signer h (text "nft_authority" ∷ []) ∷ []) c.world
    rs ← set_volume investor new_volume c.pool.investors
    ok (record c { state = s; pool = record c.pool { investors = rs }; world = w })
