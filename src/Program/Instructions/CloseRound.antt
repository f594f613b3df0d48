-- ===== src/Program/Instructions/CloseRound.antt =====
-- instructions/close_round.rs: the forced close of a partly filled round, and closing its record.
use solana_floor_program.Base.{ℕ, List, none, some, ◌==◌, ltb, length}
use solana_floor_program.Program.Errors.{
  Result, ok, err, ◌>>=◌, ◌>>◌, constraint, require, invalid_parameter,
}
use solana_floor_program.Program.Checked.{add_u64, sub, add_i64, pow10}
use solana_floor_program.Program.State.{Pubkey, ProgramState}
use solana_floor_program.Program.ForcedClose.{Settling, settle_partial}
use solana_floor_program.Program.FullClose.{sort_allocs}
use solana_floor_program.Program.Host.{Host}
use solana_floor_program.Program.Accounts.{
  Chain, require_admin, update, pda, round_record_seeds, treasury_key,
}
use solana_floor_program.Program.RoundAccounts.{
  check_round_accounts, write_round_locked, write_round_record,
}

-- The state after a forced close: no automatic start, and carried dust is kept.
unfoldable pub end_forced : Settling → ProgramState → Result ProgramState
end_forced settled s = do
  new_dust ← sub s.current_round_waln settled.total_waln_purchased
  count ← add_u64 s.round_count 1
  lobby ← sub s.total_usdc_in_lobby settled.total_usdc_spent
  dust ← add_u64 s.waln_dust_carryover new_dust
  ok (record s {
    round_count = count;
    current_round_waln = 0;
    current_round_usdc_spent = 0;
    total_usdc_in_lobby = lobby;
    total_usdc_locked_for_round = 0;
    round_started = 0;
    waln_dust_carryover = dust;
  })

module _ (h : Host) where
  open h use {World, unix_timestamp, lamports, set_lamports, release_account}

  unfoldable pub close_round : Pubkey → List Pubkey → Chain h → Result (Chain h)
  close_round admin remaining c = do
    require_admin h admin c
    require (c.state.round_started == 1) invalid_parameter
    require (ltb 0 c.state.current_round_waln) invalid_parameter
    let round_index = c.state.round_count
    check_round_accounts h remaining round_index
    waln_scale ← pow10 c.state.waln_decimals
    let now = unix_timestamp c.world
    unlock ← add_i64 now c.state.current_round_lock_period
    settled ←
        settle_partial waln_scale c.state.current_round_floor_price c.state.current_round_waln
          c.state.current_round_usdc_spent c.pool.investors
    let participants = sort_allocs settled.1.participants
    c1 ← write_round_locked h round_index unlock participants c
    c2 ←
        write_round_record h round_index now settled.1.total_waln_purchased
          settled.1.total_usdc_spent settled.1.total_aat_volume (length participants) c1
    s ← end_forced settled.1 c.state
    ok (record c2 { state = s; pool = record c2.pool { investors = settled.0 } })

  -- The framework closes the record's account: its lamports go to the treasury.
  unfoldable pub close_round_record : Pubkey → ℕ → Chain h → Result (Chain h)
  close_round_record admin round_index c = do
    require_admin h admin c
    let account = pda h (round_record_seeds h round_index)
    elim (c.round_records account) [
      | none ↦ err constraint
      | some r ↦ (do
        rent ← add_u64 (lamports c.world (treasury_key h)) (lamports c.world account)
        w ←
            release_account account
              (set_lamports account 0 (set_lamports (treasury_key h) rent c.world))
        ok (record c { round_records = update c.round_records account none; world = w }))
    ]
