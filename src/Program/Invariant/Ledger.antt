-- ===== src/Program/Invariant/Ledger.antt =====
-- The ledger of stakes as an abstract program, and how each instruction follows it.
use solana_floor_program.Base.{
  ℕ, ◌+◌, ◌-◌, ◌<◌, ◌≤◌, ◌≡◌, ◌≢◌, refl, inl, inr, false, List, [], ◌∷◌, Option, none, some, arith,
  ◌==◌, if◌then◌else◌, ap, sym, ◌∙◌, Bool-cases,
}
use solana_floor_program.Program.Errors.{
  err, Ensures, Ensures-both, Ensures-weaken, floor, invalid_investor,
}
use solana_floor_program.Program.Checked.{u64_max}
use solana_floor_program.Program.State.{Pubkey, default_key, ProgramState, InvestorRecord}
use solana_floor_program.Program.Host.{Host}
use solana_floor_program.Program.Accounts.{Chain}
use solana_floor_program.Program.Pool.{find_investor, has_investor, new_record}
use solana_floor_program.Program.Pool.Keys.{OthersKept}
use solana_floor_program.Program.Pool.Stakes.{stake, stake_in, Ledger, ledger}
use solana_floor_program.Program.Dispatch.{
  Call, transfer_authority, accept_authority, deposit, withdraw, remove_investor,
}
use solana_floor_program.Program.Instructions.DepositUsdc.{DepositUsdc, deposit_usdc}
use solana_floor_program.Program.Instructions.WithdrawUsdc.{
  WithdrawUsdc, withdraw_amount, withdraw_usdc,
}
use solana_floor_program.Program.Instructions.RemoveInvestor.{
  RemoveInvestorFromPool, remove_investor_from_pool,
}
use solana_floor_program.Program.Instructions.Deposits.{
  IsOwn, MakesDeposit, deposit_usdc-MakesDeposit,
}
use solana_floor_program.Program.Instructions.Withdrawals.{Withdraws, withdraw_usdc-Withdraws}
use solana_floor_program.Program.Invariant.{IsSoundChain, IsSoundBy, office}
use solana_floor_program.Program.Invariant.Funds.{deposit_usdc-IsSound, withdraw_usdc-IsSound}
use solana_floor_program.Program.Invariant.Refunds.{remove_investor_from_pool-IsSound}

-- One entry written anew, or taken out.
abbrev pub entered : Pubkey → Option ℕ → Ledger → Ledger
entered k v l j = if j == k then v else l j

abbrev pub balance : Option ℕ → ℕ
balance none = 0
balance (some n) = n

abbrev pub Same : Ledger → Ledger → Type 0
Same l' l = (k : Pubkey) → l' k ≡ l k

-- What an instruction may do to the ledger: a deposit adds its amount to the investor's own entry,
-- a withdrawal takes its amount out of it, the largest 64-bit number standing for some part of it,
-- a removal deletes an entry, and every other instruction leaves the ledger as it is.
abbrev pub Follows : Call → Ledger → Ledger → Type 0
Follows (deposit a n) l l' =
    (0 < n) × Same l' (entered a.investor (some (balance (l a.investor) + n)) l)
Follows (withdraw a n) l l' =
    (m out : ℕ) × (l a.investor ≡ some m)
    × (0 < out)
    × (out ≤ m)
    × (¬ (n ≡ u64_max) → out ≡ n)
    × Same l' (entered a.investor (some (m - out)) l)
Follows (remove_investor a) l l' =
    ((m : ℕ) × (l a.investor ≡ some m)) × Same l' (entered a.investor none l)
Follows i l l' = Same l' l

-- Who administers the program after an instruction. A transfer is the administrator's and names a
-- successor; an acceptance is the named successor's, who becomes the administrator; all other
-- instructions change neither.
abbrev pub Hands : Call → ProgramState → ProgramState → Type 0
Hands (transfer_authority admin new_admin) s s' =
    (s.admin ≡ admin) × (office s' ≡ (s.admin, new_admin))
Hands (accept_authority key) s s' =
    (s.pending_admin ≡ key) × (key ≢ default_key) × (office s' ≡ (key, default_key))
Hands i s s' = office s' ≡ office s

entered-Same :
    (key : Pubkey) (v : Option ℕ) (rs rs' : List InvestorRecord)
    → ledger rs' key ≡ v
    → OthersKept key rs rs'
    → Same (ledger rs') (entered key v (ledger rs))
entered-Same key v rs rs' own others k = elim (Bool-cases (k == key)) [
  | inl e ↦ let same : k ≡ key = ground arith in rw e (ap (ledger rs') same ∙ own)
  | inr e ↦ let other : ¬ (k ≡ key) = λ q. ground arith in rw e (ap stake_in (others k other))
]

missing_lem :
    (k : Pubkey) (rs : List InvestorRecord) → has_investor k rs ≡ false → ledger rs k ≡ none
unfolding has_investor find_investor
missing_lem k rs e = ap stake_in (go rs e)
  where
    go :
        (ps : List InvestorRecord)
        → has_investor k ps ≡ false
        → find_investor k ps ≡ err (floor invalid_investor)
    go [] e = refl
    go (p ∷ ps) e = ground (arith, go ps)

balance_lem :
    (key : Pubkey) (rs : List InvestorRecord) (r : InvestorRecord)
    → IsOwn key rs r
    → balance (ledger rs key) ≡ stake r
unfolding new_record
balance_lem key rs r (inl found) = ap (λ m. balance (stake_in m)) found
balance_lem key rs r (inr (missing, new)) =
    ap balance (missing_lem key rs missing) ∙ sym (ap stake new)

module _ (h : Host) where
  abbrev pub SoundStep : Call → Chain h → Chain h → Type 0
  SoundStep i c c' =
      IsSoundChain h c'
      × Follows i (ledger c.pool.investors) (ledger c'.pool.investors)
      × Hands i c.state c'.state

  deposit_lem :
      (a : DepositUsdc) (n : ℕ) (c c' : Chain h)
      → MakesDeposit h a n c c'
      → Follows (deposit a n) (ledger c.pool.investors) (ledger c'.pool.investors)
  deposit_lem a n c c'
        (
          volume,
          decimals,
          some_n,
          some_volume,
          read,
          ((r, r', own, found, p), others),
          total,
          moved,
        ) =
      let was = balance_lem a.investor c.pool.investors r own in
      let now : stake r' ≡ balance (ledger c.pool.investors a.investor) + n =
        omega (arith, was, p) in
      (
        some_n,
        entered-Same a.investor (some (balance (ledger c.pool.investors a.investor) + n))
            c.pool.investors c'.pool.investors (ap stake_in found ∙ ap some now) others,
      )

  withdraw_lem :
      (a : WithdrawUsdc) (n : ℕ) (c c' : Chain h)
      → Withdraws h a n c c'
      → Follows (withdraw a n) (ledger c.pool.investors) (ledger c'.pool.investors)
  withdraw_lem a n c c' (r, decimals, found, ((r', found', p), others), total, moved) =
      let out = withdraw_amount n r in
      let now : stake r' ≡ stake r - out = omega (arith, p) in
      (
        stake r,
        out,
        ap stake_in found,
        p.1,
        omega (arith, p),
        λ part. ground arith,
        entered-Same a.investor (some (stake r - out)) c.pool.investors c'.pool.investors
            (ap stake_in found' ∙ ap some now) others,
      )

  pub deposit_usdc-SoundStep :
      (a : DepositUsdc) (n : ℕ) (c : Chain h)
      → IsSoundChain h c
      → Ensures (SoundStep (deposit a n) c) (deposit_usdc h a n c)
  deposit_usdc-SoundStep a n c sound =
      Ensures-weaken (λ c'. IsSoundBy h c c' × MakesDeposit h a n c c') (SoundStep (deposit a n) c)
        (deposit_usdc h a n c)
        (Ensures-both (IsSoundBy h c) (MakesDeposit h a n c) (deposit_usdc h a n c)
          (deposit_usdc-IsSound h a n c sound) (deposit_usdc-MakesDeposit h a n c))
        λ c' k. (k.0.0, deposit_lem a n c c' k.1, k.0.1)

  pub withdraw_usdc-SoundStep :
      (a : WithdrawUsdc) (n : ℕ) (c : Chain h)
      → IsSoundChain h c
      → Ensures (SoundStep (withdraw a n) c) (withdraw_usdc h a n c)
  withdraw_usdc-SoundStep a n c sound =
      Ensures-weaken (λ c'. IsSoundBy h c c' × Withdraws h a n c c') (SoundStep (withdraw a n) c)
        (withdraw_usdc h a n c)
        (Ensures-both (IsSoundBy h c) (Withdraws h a n c) (withdraw_usdc h a n c)
          (withdraw_usdc-IsSound h a n c sound) (withdraw_usdc-Withdraws h a n c))
        λ c' k. (k.0.0, withdraw_lem a n c c' k.1, k.0.1)

  pub remove_investor-SoundStep :
      (a : RemoveInvestorFromPool) (c : Chain h)
      → IsSoundChain h c
      → Ensures (SoundStep (remove_investor a) c) (remove_investor_from_pool h a c)
  remove_investor-SoundStep a c sound =
      Ensures-weaken _ (SoundStep (remove_investor a) c) (remove_investor_from_pool h a c)
        (remove_investor_from_pool-IsSound h a c sound)
        λ c' k. (
          k.0,
          (
            (stake k.1.0, ap stake_in k.1.1),
            entered-Same a.investor none c.pool.investors c'.pool.investors (ap stake_in k.2.1)
                k.2.2,
          ),
          k.3,
        )
