-- ===== src/Program/Instructions/SellWaln/Restarts.antt =====
-- The automatic start of the next round, where it fails: which errors it tolerates, and when they
-- arise.
use solana_floor_program.Base.{ℕ, ◌≡◌, refl, true, List}
use solana_floor_program.Program.Errors.{Error, Result, ok, err, ◌>>=◌, floor, arithmetic_overflow}
use solana_floor_program.Program.State.{ProgramState, InvestorRecord}
use solana_floor_program.Program.RoundStart.{lock_funds, choose_investors, execute_round_start}
use solana_floor_program.Program.RoundStart.Refusals.{
  OnlyOverflows, OnlyOverflows-bind, lock_funds-OnlyOverflows,
}
use solana_floor_program.Program.Instructions.SellWaln.Finish.{is_tolerated, auto_start}

-- An overflow is not tolerated.
tolerated_before {ℓ} :
    {A : Type ℓ} (m : Result A) (f : A → Result (List InvestorRecord × ℕ × ℕ)) (e : Error)
    → ((a : A) → OnlyOverflows (f a))
    → m >>= f ≡ err e
    → is_tolerated e ≡ true
    → m ≡ err e
tolerated_before (err d) f e over fails tolerated = cc
tolerated_before (ok a) f e over fails tolerated = go (f a) (over a) fails
  where
    go : (n : Result (List InvestorRecord × ℕ × ℕ)) → OnlyOverflows n → n ≡ err e → ok a ≡ err e
    go (ok p) o same = cc
    go (err d) o same =
        let is : e ≡ floor arithmetic_overflow = cc in let no = rw is at tolerated in cc

auto_start_skips :
    (size price decimals : ℕ) (s : ProgramState) (rs : List InvestorRecord) (e : Error)
    → execute_round_start rs size price decimals ≡ err e
    → is_tolerated e ≡ true
    → auto_start size price decimals (s, rs) ≡ ok (record s { total_usdc_locked_for_round = 0 }, rs)
unfolding auto_start
auto_start_skips size price decimals s rs e fails tolerated = rw (fails, auto_start, tolerated) refl

-- An automatic start whose round start fails with an error that it tolerates: the start failed
-- while the investors were chosen, before any record is written, and the sale goes on with the
-- records as they were and nothing locked.
pub auto_start_tolerates :
    (size price decimals : ℕ) (s : ProgramState) (rs : List InvestorRecord) (e : Error)
    → execute_round_start rs size price decimals ≡ err e
    → is_tolerated e ≡ true
    → (choose_investors rs size price decimals ≡ err e)
      × (auto_start size price decimals (s, rs)
          ≡ ok (record s { total_usdc_locked_for_round = 0 }, rs))
unfolding execute_round_start
auto_start_tolerates size price decimals s rs e fails tolerated = (
  tolerated_before (choose_investors rs size price decimals) _ e
      (λ chosen.
        OnlyOverflows-bind (lock_funds chosen.0 chosen.2 chosen.1) _
          (lock_funds-OnlyOverflows chosen.0 chosen.2 chosen.1) λ locks. tt)
      fails tolerated,
  auto_start_skips size price decimals s rs e fails tolerated,
)
