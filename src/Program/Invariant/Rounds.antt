-- ===== src/Program/Invariant/Rounds.antt =====
-- Starting a round, and settling one, keep the accounts sound.
use solana_floor_program.Base.{
  ℕ, ◌+◌, ◌≤◌, ◌≡◌, refl, inl, inr, List, [], ◌∷◌, arith, length, All, Pointwise, ◌∙◌,
}
use solana_floor_program.Program.Errors.{
  Result, ok, err, Ensures, Ensures-ok, Ensures-if, Ensures-weaken,
}
use solana_floor_program.Program.Checked.{add_u64, add_u128, to_u64, sub, u64_max}
use solana_floor_program.Program.State.{ProgramState, InvestorRecord, max_investors}
use solana_floor_program.Program.Pool.Stakes.{stakes, stakes-Pointwise}
use solana_floor_program.Program.Pool.Sums.{deposits, locked, AllIdle}
use solana_floor_program.Program.RoundStart.{round_cap, choose_investors, execute_round_start}
use solana_floor_program.Program.RoundStart.Locking.{IsIdle}
use solana_floor_program.Program.RoundStart.Start.{Enters, Moves, execute_round_start-Moves}
use solana_floor_program.Program.ForcedClose.{Settling}
use solana_floor_program.Program.ForcedClose.Settled.{Settles}
use solana_floor_program.Program.ForcedClose.Exact.{SettledExactly}
use solana_floor_program.Program.FullClose.{Closing}
use solana_floor_program.Program.FullClose.Totals.{Completes, OnlyCredits, CompletesRound}
use solana_floor_program.Program.Instructions.CloseRound.{end_forced}
use solana_floor_program.Program.Instructions.SellWaln.Finish.{end_round, is_tolerated, auto_start}
use solana_floor_program.Program.Invariant.Covered.{CapLocked, IsCovered, round_of, Fills-CapLocked}
use solana_floor_program.Program.Invariant.{IsSound, office}
use solana_floor_program.Program.Invariant.Funds.{locked-idle}

-- What a start does to the sums: deposits turn into locks.
abbrev pub Restarts : List InvestorRecord → List InvestorRecord → ℕ → Type 0
Restarts rs rs' total =
    (deposits rs' + locked rs' ≡ deposits rs)
    × (length rs' ≡ length rs)
    × (total ≡ locked rs')
    × (stakes rs' ≡ stakes rs)

Enters-sums :
    (cap_usdc total : ℕ) (rs rs' : List InvestorRecord)
    → Pointwise (Enters cap_usdc total) rs rs'
    → (deposits rs' + locked rs' ≡ deposits rs + locked rs) × (length rs' ≡ length rs)
Enters-sums cap_usdc total [] [] h = (refl, refl)
Enters-sums cap_usdc total [] (r' ∷ rs') h = absurd h
Enters-sums cap_usdc total (r ∷ rs) [] h = absurd h
Enters-sums cap_usdc total (r ∷ rs) (r' ∷ rs') h =
    let k = Enters-sums cap_usdc total rs rs' h.1 in (omega (arith, h.0.0), omega arith)

AllIdle-IsIdle : (rs : List InvestorRecord) → AllIdle rs → deposits rs ≤ u64_max → All IsIdle rs
AllIdle-IsIdle [] h b = tt
AllIdle-IsIdle (r ∷ rs) h b = ((h.0, omega arith), AllIdle-IsIdle rs h.1 (omega arith))

pub execute_round_start-Restarts :
    (rs : List InvestorRecord) (size price decimals : ℕ)
    → AllIdle rs
    → deposits rs ≤ u64_max
    → length rs ≤ max_investors
    → Ensures
        (λ p. Restarts rs p.0 p.2 × CapLocked decimals price size p.2)
        (execute_round_start rs size price decimals)
unfolding execute_round_start choose_investors
execute_round_start-Restarts rs size price decimals idle bound few =
    go (round_cap size price decimals) refl
  where
    go :
        (m : Result ℕ)
        → round_cap size price decimals ≡ m
        → Ensures
            (λ p. Restarts rs p.0 p.2 × CapLocked decimals price size p.2)
            (execute_round_start rs size price decimals)
    go (err e) f = rw (f, execute_round_start, choose_investors) tt
    go (ok cap_usdc) f =
        Ensures-weaken (Moves cap_usdc rs)
          (λ p. Restarts rs p.0 p.2 × CapLocked decimals price size p.2)
          (execute_round_start rs size price decimals)
          (execute_round_start-Moves rs size price decimals cap_usdc (AllIdle-IsIdle rs idle bound)
            f)
          λ p s.
            let k = Enters-sums cap_usdc p.1 rs p.0 s.0 in
            (
              (
                omega (arith, locked-idle rs idle),
                k.1,
                s.3,
                stakes-Pointwise (Enters cap_usdc p.1) rs p.0
                    (λ r r' e. (e.0.0, omega (arith, e.0))) s.0,
              ),
              Fills-CapLocked size price decimals cap_usdc p.2 p.0 f (omega (arith, k.1, few)) s.4,
            )

-- A state of no round, and one that a start makes of it.
pub started-IsSound :
    (s s' : ProgramState) (rs rs' : List InvestorRecord)
    → IsSound s rs
    → AllIdle rs
    → Restarts rs rs' s'.total_usdc_locked_for_round
    → s'.round_started ≡ 1
    → s'.total_usdc_in_lobby ≡ s.total_usdc_in_lobby
    → s'.total_aat_volume ≡ s.total_aat_volume
    → IsSound s' rs'
started-IsSound s s' rs rs' sound idle k on same vol =
    (omega (arith, locked-idle rs idle), omega arith, omega arith, inr (on, k.2), omega arith)

-- What an automatic start leaves, whether it goes through or not.
abbrev pub Restarted :
    ℕ → ProgramState → List InvestorRecord → ProgramState × List InvestorRecord → Type 0
Restarted decimals s rs p =
    IsSound p.0 p.1
    × (stakes p.1 ≡ stakes rs)
    × (p.0.waln_mint ≡ s.waln_mint)
    × IsCovered decimals (round_of p.0)
    × (office p.0 ≡ office s)

-- The next round may start by itself.
pub auto_start-IsSound :
    (size price decimals : ℕ) (s : ProgramState) (rs : List InvestorRecord)
    → IsSound s rs
    → AllIdle rs
    → s.round_started ≡ 0
    → s.current_round_waln ≡ 0
    → Ensures (Restarted decimals s rs) (auto_start size price decimals (s, rs))
unfolding auto_start
auto_start-IsSound size price decimals s rs sound idle off unsold =
    go (execute_round_start rs size price decimals) refl
  where
    Q : ProgramState × List InvestorRecord → Type 0
    Q = Restarted decimals s rs

    go :
        (m : Result (List InvestorRecord × ℕ × ℕ))
        → execute_round_start rs size price decimals ≡ m
        → Ensures Q (auto_start size price decimals (s, rs))
    go (ok started) e =
        rw (e, auto_start)
          (let k =
              Ensures-ok (λ p. Restarts rs p.0 p.2 × CapLocked decimals price size p.2)
                (execute_round_start rs size price decimals)
                (execute_round_start-Restarts rs size price decimals idle (omega arith) sound.2)
                e in
            let s' = record s {
              current_round_floor_price = price;
              current_round_size_waln = size;
              current_round_lock_period = s.lock_period_seconds;
              current_round_usdc_spent = 0;
              total_usdc_locked_for_round = started.2;
              round_started = 1;
            } in
            (
              started-IsSound s s' rs started.0 sound idle k.0 refl refl refl,
              k.0.3,
              refl,
              inr (refl, omega (arith, unsold), omega arith, k.1),
              refl,
            ))
    go (err e) f =
        rw (f, auto_start)
          (Ensures-if Q (is_tolerated e) _ _
            (λ t. (
              (sound.0, sound.1, sound.2, inl (off, idle), sound.4),
              refl,
              refl,
              inl (off, unsold),
              refl,
            ))
            (λ t. tt))

-- Both ways to settle leave records without locks.
Settles-idle :
    (rs rs' : List InvestorRecord)
    → Pointwise Settles rs rs'
    → AllIdle rs' × (length rs' ≡ length rs)
Settles-idle [] [] h = (tt, refl)
Settles-idle [] (r' ∷ rs') h = absurd h
Settles-idle (r ∷ rs) [] h = absurd h
Settles-idle (r ∷ rs) (r' ∷ rs') h = let k = Settles-idle rs rs' h.1 in ((h.0.3, k.0), omega arith)

Completes-idle :
    (scale price : ℕ) (rs qs rs' : List InvestorRecord)
    → Pointwise (Completes scale price) rs qs
    → OnlyCredits qs rs'
    → AllIdle rs' × (length rs' ≡ length rs) × (deposits rs' ≡ deposits rs)
Completes-idle scale price [] [] [] h k = (tt, refl, refl)
Completes-idle scale price [] [] (r' ∷ rs') h k = absurd k
Completes-idle scale price [] (q ∷ qs) rs' h k = absurd h
Completes-idle scale price (r ∷ rs) [] rs' h k = absurd h
Completes-idle scale price (r ∷ rs) (q ∷ qs) [] h k = absurd k
Completes-idle scale price (r ∷ rs) (q ∷ qs) (r' ∷ rs') h k =
    let i = Completes-idle scale price rs qs rs' h.1 k.1 in
    ((omega (arith, h.0, k.0), i.0), omega arith, omega (arith, h.0, k.0))

-- The end of a round takes what was spent out of the total.
abbrev pub Ends : ℕ → ProgramState → ProgramState → Type 0
Ends spent s s' =
    (s'.total_usdc_in_lobby + spent ≡ s.total_usdc_in_lobby)
    × (s'.round_started ≡ 0)
    × (s'.total_aat_volume ≡ s.total_aat_volume)
    × (s'.current_round_waln ≡ 0)
    × (s'.waln_mint ≡ s.waln_mint)
    × (office s' ≡ office s)

pub end_forced_lem :
    (settled : Settling) (s : ProgramState)
    → Ensures (Ends settled.total_usdc_spent s) (end_forced settled s)
unfolding end_forced add_u64 sub
end_forced_lem settled s = ground arith

pub end_round_lem :
    (closing : Closing) (s : ProgramState)
    → Ensures (Ends closing.total_usdc_spent s) (end_round closing s)
unfolding end_round add_u64 add_u128 sub to_u64
end_round_lem closing s = ground arith

-- A settled pool, and a state whose total has lost what the settlement spent.
pub settled-IsSound :
    (s s' : ProgramState) (rs rs' : List InvestorRecord) (spent : ℕ)
    → IsSound s rs
    → AllIdle rs'
    → length rs' ≡ length rs
    → deposits rs' + spent ≡ deposits rs + locked rs
    → Ends spent s s'
    → IsSound s' rs'
settled-IsSound s s' rs rs' spent sound idle len sum ends =
    (omega (arith, locked-idle rs' idle), omega arith, omega arith, inl (ends.1, idle), omega arith)

pub settle_full-IsSound :
    (scale price dust : ℕ) (s s' : ProgramState) (rs : List InvestorRecord)
    (p : List InvestorRecord × Closing)
    → IsSound s rs
    → CompletesRound scale price dust rs p
    → Ends p.1.total_usdc_spent s s'
    → AllIdle p.0 × IsSound s' p.0 × (stakes p.0 ≡ stakes rs)
settle_full-IsSound scale price dust s s' rs p sound h ends =
    let k = Completes-idle scale price rs h.0.0 p.0 h.0.1 h.0.2 in
    (
      k.0,
      settled-IsSound s s' rs p.0 p.1.total_usdc_spent sound k.0 k.1 (omega arith) ends,
      stakes-Pointwise _ h.0.0 p.0 (λ r r' e. (e.0, omega (arith, e))) h.0.2
          ∙ stakes-Pointwise (Completes scale price) rs h.0.0 (λ r r' e. (e.0, omega (arith, e)))
              h.0.1,
    )

pub settle_partial-IsSound :
    (waln paid : ℕ) (s s' : ProgramState) (rs : List InvestorRecord)
    (p : List InvestorRecord × Settling)
    → IsSound s rs
    → SettledExactly waln paid rs p
    → Ends p.1.total_usdc_spent s s'
    → IsSound s' p.0 × (stakes p.0 ≡ stakes rs)
settle_partial-IsSound waln paid s s' rs p sound h ends =
    let k = Settles-idle rs p.0 h.0 in
    (
      settled-IsSound s s' rs p.0 p.1.total_usdc_spent sound k.0 k.1 (omega arith) ends,
      stakes-Pointwise Settles rs p.0 (λ r r' e. (e.0, omega (arith, e))) h.0,
    )
