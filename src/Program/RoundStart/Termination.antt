-- ===== src/Program/RoundStart/Termination.antt =====
-- The selection loop ends: a round that changes anything drops a candidate.
use solana_floor_program.Base.{
  ℕ, zero, suc, ◌+◌, ◌-◌, ◌/◌, ◌≤◌, ◌<◌, ◌≡◌, ◌≢◌, refl, inl, inr, Bool, true, false, List, [], ◌∷◌,
  arith, length, map, subst, ltb, Bool-cases,
}
use solana_floor_program.Program.Errors.{Result, ok, err, ◌>>=◌, Ensures, out_of_fuel}
use solana_floor_program.Program.Checked.{add_u64, sub, mul_u128, div, pow10, to_u64}
use solana_floor_program.Program.State.{InvestorRecord}
use solana_floor_program.Program.RoundStart.{
  Candidate, candidate, round_cap, sum_volumes, required_lock, review, review_all, select, lock_one,
  lock_all, cover_gap, lock_funds, choose_investors, execute_round_start,
}
use solana_floor_program.Program.RoundStart.Selection.{
  eligible_count, review_all-ReviewedAll, ReviewedAll,
}

-- A run that does not stop for want of fuel.
abbrev Ends {ℓ} : {A : Type ℓ} → Result A → Type 0
Ends (err out_of_fuel) = ⊥
Ends _ = Unit

Ends-bind {ℓ κ} :
    {A : Type ℓ} {B : Type κ} (m : Result A) (f : A → Result B)
    → Ends m
    → ((a : A) → m ≡ ok a → Ends (f a))
    → Ends (m >>= f)
Ends-bind (ok a) f h k = k a refl
Ends-bind (err e) f h k = h

sum_volumes-Ends : (cs : List Candidate) (t : ℕ) → Ends (sum_volumes cs t)
unfolding sum_volumes add_u64
sum_volumes-Ends [] t = tt
sum_volumes-Ends (c ∷ cs) t =
    ground (arith, sum_volumes-Ends cs (t + c.entry.aat_volume), sum_volumes-Ends cs t)

review_all-Ends :
    (cap_usdc total : ℕ) (cs : List Candidate) (changed : Bool)
    → Ends (review_all cap_usdc total cs changed)
unfolding review_all review required_lock mul_u128 div
review_all-Ends cap_usdc total [] changed = tt
review_all-Ends cap_usdc total (c ∷ cs) changed =
    Ends-bind (review cap_usdc total c changed) _ (ground arith) λ first e.
      Ends-bind (review_all cap_usdc total cs first.1) _ (review_all-Ends cap_usdc total cs first.1)
        λ rest e. tt

select-Ends :
    (fuel cap_usdc : ℕ) (cs : List Candidate)
    → eligible_count cs < fuel
    → Ends (select fuel cap_usdc cs)
unfolding select
select-Ends zero cap_usdc cs h = elim h [ ]
select-Ends (suc fuel) cap_usdc cs h =
    Ends-bind (sum_volumes cs 0) _ (sum_volumes-Ends cs 0) λ total t.
      elim (Bool-cases (ltb 0 total)) [
        | inr e ↦ rw e tt
        | inl e ↦ rw e (
            Ends-bind (review_all cap_usdc total cs false) _
              (review_all-Ends cap_usdc total cs false)
              λ reviewed r.
                finish total reviewed
                  (subst (Ensures (ReviewedAll cap_usdc total cs false)) r
                    (review_all-ReviewedAll cap_usdc total cs false))
                  (select-Ends fuel cap_usdc reviewed.0))
      ]
  where
    finish :
        (total : ℕ) (reviewed : List Candidate × Bool)
        → ReviewedAll cap_usdc total cs false reviewed
        → (eligible_count reviewed.0 < fuel → Ends (select fuel cap_usdc reviewed.0))
        → Ends {A = List Candidate × ℕ} (elim reviewed.1 [
          | true ↦ select fuel cap_usdc reviewed.0
          | false ↦ ok (reviewed.0, total)
        ])
    finish total (ds, true) r ih = ih (ground arith)
    finish total (ds, false) r ih = tt

eligible_count-le :
    (min_deposit : ℕ) (rs : List InvestorRecord)
    → eligible_count (map (candidate min_deposit) rs) ≤ length rs
eligible_count-le min_deposit [] = omega arith
eligible_count-le min_deposit (r ∷ rs) = ground (arith, eligible_count-le min_deposit rs)

lock_all-Ends :
    (cap_usdc total : ℕ) (cs : List Candidate) (locked : ℕ)
    → Ends (lock_all cap_usdc total cs locked)
unfolding lock_all lock_one required_lock mul_u128 div sub add_u64
lock_all-Ends cap_usdc total [] locked = tt
lock_all-Ends cap_usdc total (c ∷ cs) locked =
    Ends-bind (lock_one cap_usdc total c locked) _ (ground arith) λ first e.
      Ends-bind (lock_all cap_usdc total cs first.1) _ (lock_all-Ends cap_usdc total cs first.1)
        λ rest e. tt

cover_gap-Ends : (gap : ℕ) (cs : List Candidate) (locked : ℕ) → Ends (cover_gap gap cs locked)
unfolding cover_gap sub add_u64
cover_gap-Ends gap [] locked = tt
cover_gap-Ends gap (c ∷ cs) locked = ground (arith, cover_gap-Ends gap cs locked)

lock_funds-Ends : (cap_usdc total : ℕ) (cs : List Candidate) → Ends (lock_funds cap_usdc total cs)
unfolding lock_funds to_u64
lock_funds-Ends cap_usdc total cs =
    Ends-bind (lock_all cap_usdc total cs 0) _ (lock_all-Ends cap_usdc total cs 0)
      λ locks e. ground (arith, cover_gap-Ends (cap_usdc - locks.1) locks.0 locks.1)

choose_investors-Ends :
    (rs : List InvestorRecord) (size price decimals : ℕ)
    → Ends (choose_investors rs size price decimals)
unfolding choose_investors round_cap pow10 mul_u128 div
choose_investors-Ends rs size price decimals =
    Ends-bind (round_cap size price decimals) _ (ground arith) λ cap_usdc e. ground (
      arith,
      select-Ends (suc (length rs)) cap_usdc (map (candidate (cap_usdc / 2)) rs),
      eligible_count-le (cap_usdc / 2) rs,
    )

-- The start of a round always ends: with one round of fuel more than there are investors the
-- selection loop never runs out of it.
pub execute_round_start-terminates :
    (investors : List InvestorRecord) (round_size_waln floor_price_usdc waln_decimals : ℕ)
    → execute_round_start investors round_size_waln floor_price_usdc waln_decimals ≢ err out_of_fuel
unfolding execute_round_start
execute_round_start-terminates rs size price decimals h = subst Ends h (
    Ends-bind (choose_investors rs size price decimals) _
      (choose_investors-Ends rs size price decimals)
      λ chosen e.
        Ends-bind (lock_funds chosen.0 chosen.2 chosen.1) _
          (lock_funds-Ends chosen.0 chosen.2 chosen.1) λ locks e. tt)
