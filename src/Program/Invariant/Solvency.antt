-- ===== src/Program/Invariant/Solvency.antt =====
-- What a running round owes its sellers is covered by what it has locked, up to a rounding.
use solana_floor_program.Base.{◌+◌, ◌≤◌, ◌≡◌, inl, inr, List, arith}
use solana_floor_program.Program.State.{ProgramState, InvestorRecord, max_investors}
use solana_floor_program.Program.Host.{Host}
use solana_floor_program.Program.Accounts.{Chain}
use solana_floor_program.Program.Pool.Sums.{locked}
use solana_floor_program.Program.Invariant.{IsPhase}
use solana_floor_program.Program.Invariant.Covered.{round_of, covered_lem}
use solana_floor_program.Program.Invariant.Reachable.{Reachable, Reachable-IsSound}

locked_total :
    (s : ProgramState) (rs : List InvestorRecord)
    → IsPhase s rs
    → s.round_started ≡ 1
    → s.total_usdc_locked_for_round ≡ locked rs
locked_total s rs (inl (off, idle)) on = absurd (omega arith)
locked_total s rs (inr (running, same)) on = same

-- In a reachable chain with a running round, the USDC that the round has paid to sellers is at most
-- what the investors have locked for it, and one unit more for each of the pool's 100 slots.
pub paid_within_locks :
    (h : Host) {c : Chain h}
    → Reachable h c
    → c.state.round_started ≡ 1
    → c.state.current_round_usdc_spent ≤ locked c.pool.investors + max_investors
paid_within_locks h {c} reached on =
    let sound = Reachable-IsSound h reached in
    let total = locked_total c.state c.pool.investors sound.0.3 on in
    let bound = covered_lem (h.mint_decimals c.state.waln_mint) (round_of c.state) sound.3 on in
    omega (arith, total, bound)
