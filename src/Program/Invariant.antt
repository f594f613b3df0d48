-- ===== src/Program/Invariant.antt =====
-- What holds of the program's state and its pool between any two instructions.
pub mod Funds
pub mod Refunds
pub mod Settings
pub mod Rounds
pub mod Covered
pub mod Claims
pub mod Counted
pub mod Ledger
pub mod Sales
pub mod ForcedEnd
pub mod Entries
pub mod Reachable
pub mod Payouts
pub mod Solvency
use solana_floor_program.Base.{ℕ, ◌+◌, ◌≤◌, ◌≡◌, ◌⊎◌, List, length}
use solana_floor_program.Program.Checked.{u64_max}
use solana_floor_program.Program.State.{Pubkey, ProgramState, InvestorRecord, max_investors}
use solana_floor_program.Program.Host.{Host}
use solana_floor_program.Program.Accounts.{Chain}
use solana_floor_program.Program.Instructions.AatNft.{max_total_aat_volume}
use solana_floor_program.Program.Pool.Distinct.{keys, NoRepeat}
use solana_floor_program.Program.Allocations.Settled.{AllGood}
use Covered.{IsCoveredBy, round_of}
use solana_floor_program.Program.Pool.Stakes.{stakes}
use solana_floor_program.Program.Pool.Sums.{deposits, locked, AllIdle}

-- No round runs and no record has a lock; or one does, and the state's total is the sum of the locks.
abbrev pub IsPhase : ProgramState → List InvestorRecord → Type 0
IsPhase s rs =
    ((s.round_started ≡ 0) × AllIdle rs)
    ⊎ ((s.round_started ≡ 1) × (s.total_usdc_locked_for_round ≡ locked rs))

-- The state's total is what the records have on deposit and locked together, and fits in 64 bits;
-- the pool is within its size; the locks are those of the running round; and the AAT volumes add up
-- to no more than the limit.
abbrev pub IsSound : ProgramState → List InvestorRecord → Type 0
IsSound s rs =
    (s.total_usdc_in_lobby ≡ deposits rs + locked rs)
    × (s.total_usdc_in_lobby ≤ u64_max)
    × (length rs ≤ max_investors)
    × IsPhase s rs
    × (s.total_aat_volume ≤ max_total_aat_volume)

-- The accounts are sound, no investor has two records, every account of allocations is
-- claimable, and what a running round has paid is covered.
abbrev pub IsSoundChain : (h : Host) → Chain h → Type 0
IsSoundChain h c =
    IsSound c.state c.pool.investors
    × NoRepeat (keys c.pool.investors)
    × AllGood c.round_locked
    × IsCoveredBy h (round_of c.state)

-- Who administers the program, and who may come to.
abbrev pub office : ProgramState → Pubkey × Pubkey
office s = (s.admin, s.pending_admin)

-- What an instruction leaves that changes nobody's stake and no administrator.
abbrev pub IsSoundAfter : (h : Host) → Chain h → Chain h → Type 0
IsSoundAfter h c c' =
    IsSoundChain h c'
    × (stakes c'.pool.investors ≡ stakes c.pool.investors)
    × (office c'.state ≡ office c.state)

-- What an instruction leaves that changes no administrator.
abbrev pub IsSoundBy : (h : Host) → Chain h → Chain h → Type 0
IsSoundBy h c c' = IsSoundChain h c' × (office c'.state ≡ office c.state)
