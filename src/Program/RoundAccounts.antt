-- ===== src/Program/RoundAccounts.antt =====
-- The accounts of a completed round: creating them from the treasury, and writing them.
-- instructions/sell_waln.rs and instructions/close_round.rs do this in the same words.
use solana_floor_program.Base.{
  ℕ, ◌+◌, ◌-◌, List, [], ◌∷◌, ◌++◌, none, some, ◌==◌, ltb, leb, if◌then◌else◌, get_elem?, length,
}
use solana_floor_program.Base.Int.{ℤ}
use solana_floor_program.Program.Errors.{
  Result, ok, err, ◌>>=◌, ◌>>◌, panic, require, invalid_remaining_accounts,
}
use solana_floor_program.Program.State.{Pubkey, InvestorAlloc, locked_waln_space}
use solana_floor_program.Program.Host.{
  Host, Seed, transfer, create_account, allocate, assign, text, byte,
}
use solana_floor_program.Program.Accounts.{
  Chain, update, pda, treasury_key, round_record_seeds, round_locked_seeds,
}

abbrev pub key_in : List Pubkey → ℕ → Result Pubkey
key_in ks i = elim (get_elem? ks i) [ none ↦ err panic | some k ↦ ok k ]

-- `8 + RoundRecord::INIT_SPACE`
abbrev pub round_record_space : ℕ
round_record_space = 8 + (8 + 8 + 8 + 8 + 8 + 4 + 1)

module _ (h : Host) where
  open h use {World, program_id, find_program_address, minimum_balance, lamports, invoke_signed}

  abbrev pub treasury_signer : List Seed
  treasury_signer =
      text "treasury" ∷ byte (find_program_address (text "treasury" ∷ []) program_id).1 ∷ []

  abbrev pub own_signer : List Seed → List Seed
  own_signer seeds = seeds ++ (byte (find_program_address seeds program_id).1 ∷ [])

  -- Creates an account at a derived address, or tops up and takes over one that has lamports.
  unfoldable pub create_round_account : Pubkey → List Seed → ℕ → World → Result World
  create_round_account account seeds space w =
      let rent = minimum_balance w space in
      let existing = lamports w account in
      if existing == 0
      then invoke_signed (create_account (treasury_key h) account rent space program_id)
          (treasury_signer ∷ own_signer seeds ∷ []) w
      else (do
        w1 ←
            if ltb existing rent
            then invoke_signed (transfer (treasury_key h) account (rent - existing))
                (treasury_signer ∷ []) w
            else ok w
        w2 ← invoke_signed (allocate account space) (own_signer seeds ∷ []) w1
        invoke_signed (assign account program_id) (own_signer seeds ∷ []) w2)

  -- `remaining_accounts` must begin with the two accounts of the round.
  unfoldable pub check_round_accounts : List Pubkey → ℕ → Result (Unit {0})
  check_round_accounts remaining round_index = do
    require (leb 2 (length remaining)) invalid_remaining_accounts
    first ← key_in remaining 0
    require (pda h (round_record_seeds h round_index) == first) invalid_remaining_accounts
    second ← key_in remaining 1
    require (pda h (round_locked_seeds h round_index) == second) invalid_remaining_accounts

  -- The allocations of a round, if there are any, in their account.
  unfoldable pub write_round_locked : ℕ → ℤ → List InvestorAlloc → Chain h → Result (Chain h)
  write_round_locked round_index unlock [] c = ok c
  write_round_locked round_index unlock (a ∷ rest) c = do
    let seeds = round_locked_seeds h round_index
    w ← create_round_account (pda h seeds) seeds (locked_waln_space (length (a ∷ rest))) c.world
    ok (record c {
      round_locked = update c.round_locked (pda h seeds) (
          some (record {
            round_index = round_index;
            bump = (find_program_address seeds program_id).1;
            unlock = unlock;
            remaining_to_claim = length (a ∷ rest);
            investors = a ∷ rest;
          }));
      world = w;
    })

  -- The summary of a round, in its account.
  unfoldable pub write_round_record :
      ℕ → ℤ → (waln_purchased usdc_spent volume participants : ℕ) → Chain h → Result (Chain h)
  write_round_record round_index now waln_purchased usdc_spent volume participants c = do
    let seeds = round_record_seeds h round_index
    w ← create_round_account (pda h seeds) seeds round_record_space c.world
    ok (record c {
      round_records = update c.round_records (pda h seeds) (
          some (record {
            round_index = round_index;
            triggered_at = now;
            waln_purchased = waln_purchased;
            usdc_spent = usdc_spent;
            total_aat_volume_at_trigger = volume;
            participant_count = participants;
            bump = (find_program_address seeds program_id).1;
          }));
      world = w;
    })
