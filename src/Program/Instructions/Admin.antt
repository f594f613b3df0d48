-- ===== src/Program/Instructions/Admin.antt =====
-- instructions/admin.rs: the settings, the pool's unlock times, the cancelled round, the treasury.
use solana_floor_program.Base.{ℕ, Bool, List, [], ◌∷◌, ◌==◌, ltb, leb, if◌then◌else◌}
use solana_floor_program.Base.Int.{ℤ, pos, leb_ℤ}
use solana_floor_program.Program.Errors.{
  Result, ok, ◌>>=◌, ◌>>◌, require, invalid_parameter, zero_amount, insufficient_funds,
}
use solana_floor_program.Program.Checked.{add_u64}
use solana_floor_program.Program.State.{Pubkey, InvestorRecord}
use solana_floor_program.Program.RoundStart.{require_viable_round_params}
use solana_floor_program.Program.Host.{Host, transfer, text, byte}
use solana_floor_program.Program.Accounts.{Chain, require_admin, treasury_key}
use solana_floor_program.Program.Pool.{modify_investor}
use solana_floor_program.Program.ForcedClose.{is_locked}

-- The lock of a record goes back to its deposit.
unfoldable pub unlock_one : InvestorRecord → Result InvestorRecord
unlock_one r =
    if is_locked r
    then (do
      deposited ← add_u64 r.usdc_deposited r.usdc_locked_current_round
      ok (record r { usdc_deposited = deposited; usdc_locked_current_round = 0 }))
    else ok r

unfoldable pub unlock_all : List InvestorRecord → Result (List InvestorRecord)
unlock_all [] = ok []
unlock_all (r ∷ rs) = do r' ← unlock_one r; rs' ← unlock_all rs; ok (r' ∷ rs')

module _ (h : Host) where
  open h use {World, lamports, find_program_address, program_id, invoke_signed}

  unfoldable pub set_floor_price : Pubkey → ℕ → Chain h → Result (Chain h)
  set_floor_price admin new_price_usdc c = do
    require_admin h admin c
    require (ltb 0 new_price_usdc) invalid_parameter
    require_viable_round_params c.state.round_size_waln new_price_usdc c.state.waln_decimals
    ok (record c { state = record c.state { floor_price_usdc = new_price_usdc } })

  unfoldable pub set_round_size : Pubkey → ℕ → Chain h → Result (Chain h)
  set_round_size admin new_round_size_waln c = do
    require_admin h admin c
    require (ltb 0 new_round_size_waln) invalid_parameter
    require_viable_round_params new_round_size_waln c.state.floor_price_usdc c.state.waln_decimals
    ok (record c { state = record c.state { round_size_waln = new_round_size_waln } })

  unfoldable pub set_lock_period : Pubkey → ℤ → Chain h → Result (Chain h)
  set_lock_period admin new_lock_period c = do
    require_admin h admin c
    require (leb_ℤ (pos 0) new_lock_period) invalid_parameter
    ok (record c { state = record c.state { lock_period_seconds = new_lock_period } })

  unfoldable pub set_usdc_withdraw_lock : Pubkey → ℤ → Chain h → Result (Chain h)
  set_usdc_withdraw_lock admin new_lock_seconds c = do
    require_admin h admin c
    require (leb_ℤ (pos 0) new_lock_seconds) invalid_parameter
    ok (record c { state = record c.state { usdc_withdraw_lock_seconds = new_lock_seconds } })

  unfoldable pub set_investor_usdc_unlock : Pubkey → Pubkey → ℤ → Chain h → Result (Chain h)
  set_investor_usdc_unlock admin investor new_unlock_ts c = do
    require_admin h admin c
    rs ←
        modify_investor investor (λ r. ok (record r { usdc_unlock_ts = new_unlock_ts }))
          c.pool.investors
    ok (record c { pool = record c.pool { investors = rs } })

  unfoldable pub set_sell_paused : Pubkey → Bool → Chain h → Result (Chain h)
  set_sell_paused admin paused c = do
    require_admin h admin c
    ok (record c { state = record c.state { sell_paused = if paused then 1 else 0 } })

  unfoldable pub set_frozen : Pubkey → Bool → Chain h → Result (Chain h)
  set_frozen admin frozen c = do
    require_admin h admin c
    ok (record c { state = record c.state { frozen = if frozen then 1 else 0 } })

  unfoldable pub cancel_round : Pubkey → Chain h → Result (Chain h)
  cancel_round admin c = do
    require_admin h admin c
    require (c.state.round_started == 1) invalid_parameter
    require (c.state.current_round_waln == 0) invalid_parameter
    rs ← unlock_all c.pool.investors
    ok (record c {
      state = record c.state {
        round_started = 0;
        current_round_waln = 0;
        current_round_usdc_spent = 0;
        total_usdc_locked_for_round = 0;
      };
      pool = record c.pool { investors = rs };
    })

  unfoldable pub fund_treasury : Pubkey → ℕ → Chain h → Result (Chain h)
  fund_treasury admin amount c = do
    require_admin h admin c
    require (ltb 0 amount) zero_amount
    w ← invoke_signed (transfer admin (treasury_key h) amount) [] c.world
    ok (record c { world = w })

  unfoldable pub withdraw_treasury : Pubkey → ℕ → Chain h → Result (Chain h)
  withdraw_treasury admin amount c = do
    require_admin h admin c
    require (ltb 0 amount) zero_amount
    require (leb amount (lamports c.world (treasury_key h))) insufficient_funds
    let bump = (find_program_address (text "treasury" ∷ []) program_id).1
    w ←
        invoke_signed (transfer (treasury_key h) admin amount)
          ((text "treasury" ∷ byte bump ∷ []) ∷ []) c.world
    ok (record c { world = w })
