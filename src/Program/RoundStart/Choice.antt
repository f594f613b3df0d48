-- ===== src/Program/RoundStart/Choice.antt =====
-- Which investors a round start leaves out, and why.
use solana_floor_program.Base.{
  ℕ, suc, ◌/◌, ◌<◌, ◌≡◌, refl, ◌⊎◌, inl, inr, List, [], ◌∷◌, map, arith, ltb, leb, ◌&&◌,
  if◌then◌else◌, sum_by, length, Pointwise, Bool-cases, All,
}
use solana_floor_program.Program.Errors.{ok, Ensures, Ensures-bind, Ensures-both, Ensures-require}
use solana_floor_program.Program.State.{InvestorRecord}
use solana_floor_program.Program.RoundStart.{
  Candidate, candidate, entries, round_cap, select, lock_funds, choose_investors,
  execute_round_start,
}
use solana_floor_program.Program.RoundStart.Selection.{share, eligible_volume}
use solana_floor_program.Program.RoundStart.Locking.{
  lock, IsIdle, IsReady, Joins, Locked, lock_funds-Locked,
}
use solana_floor_program.Program.RoundStart.Sifting.{Drops, Sifted, select-Sifted}
use solana_floor_program.Program.RoundStart.Start.{
  Moves, Chosen, choose_investors_lem, Selected-IsReady, execute_round_start-Moves,
}

-- The volume of a record that qualifies for a round before any share is computed.
abbrev pub qualified_volume : ℕ → InvestorRecord → ℕ
qualified_volume cap_usdc r =
    if ltb 0 r.usdc_deposited && ltb 0 r.aat_volume && leb (cap_usdc / 2) r.usdc_deposited
    then r.aat_volume
    else 0

-- Why an investor takes no part: no deposit, no volume, less than half of the cap on deposit, no
-- share of the cap even among all who qualify, or a deposit below the share among those who stay.
abbrev pub IsLeftOut : ℕ → ℕ → ℕ → InvestorRecord → Type 0
IsLeftOut cap_usdc all total r =
    (r.usdc_deposited ≡ 0)
    ⊎ ((r.aat_volume ≡ 0)
        ⊎ ((r.usdc_deposited < cap_usdc / 2)
            ⊎ ((share cap_usdc all r ≡ 0) ⊎ (r.usdc_deposited < share cap_usdc total r))))

abbrev pub LeavesOut : ℕ → ℕ → ℕ → List InvestorRecord → List InvestorRecord → Type 0
LeavesOut cap_usdc all total = Pointwise (λ r r'. lock r' ≡ 0 → IsLeftOut cap_usdc all total r)

qualified_sum :
    (cap_usdc : ℕ) (rs : List InvestorRecord)
    → sum_by eligible_volume (map (candidate (cap_usdc / 2)) rs)
      ≡ sum_by (qualified_volume cap_usdc) rs
qualified_sum cap_usdc [] = refl
qualified_sum cap_usdc (r ∷ rs) = rw (qualified_sum cap_usdc rs) refl

LeavesOut-of_Joins :
    (cap_usdc all total : ℕ) (rs : List InvestorRecord) (cs ds : List Candidate)
    → Pointwise (Drops cap_usdc all total) (map (candidate (cap_usdc / 2)) rs) cs
    → All (IsReady cap_usdc total) cs
    → Pointwise (Joins cap_usdc total) cs ds
    → LeavesOut cap_usdc all total rs (entries ds)
LeavesOut-of_Joins cap_usdc all total [] [] [] d r j = tt
LeavesOut-of_Joins cap_usdc all total [] [] (e ∷ es) d r j = absurd j
LeavesOut-of_Joins cap_usdc all total [] (c ∷ cs) ds d r j = absurd d
LeavesOut-of_Joins cap_usdc all total (q ∷ qs) [] ds d r j = absurd d
LeavesOut-of_Joins cap_usdc all total (q ∷ qs) (c ∷ cs) [] d r j = absurd j
LeavesOut-of_Joins cap_usdc all total (q ∷ qs) (c ∷ cs) (e ∷ es) d r j =
    (λ none. left_out none, LeavesOut-of_Joins cap_usdc all total qs cs es d.1 r.1 j.1)
  where
    left_out : lock e.entry ≡ 0 → IsLeftOut cap_usdc all total q
    left_out none = elim (Bool-cases c.eligible) [
      | inl y ↦ ground (arith, y, r.0.0 y, j.0.2 y)
      | inr n ↦ elim (Bool-cases (candidate (cap_usdc / 2) q).eligible) [
        | inl y ↦ inr (inr (inr (d.0.2 y n)))
        | inr m ↦ ground (arith, m)
      ]
    ]

choose_investors-Sifted :
    (rs : List InvestorRecord) (size price decimals cap_usdc : ℕ)
    → round_cap size price decimals ≡ ok cap_usdc
    → Ensures
        (λ p.
          Sifted cap_usdc
            (sum_by (qualified_volume cap_usdc) rs)
            (map (candidate (cap_usdc / 2)) rs)
            (p.1, p.2))
        (choose_investors rs size price decimals)
unfolding choose_investors
choose_investors-Sifted rs size price decimals cap_usdc e =
    let all = sum_by (qualified_volume cap_usdc) rs in
    let cs = map (candidate (cap_usdc / 2)) rs in
    let Q : ℕ × List Candidate × ℕ → Type 0 = λ p. Sifted cap_usdc all cs (p.1, p.2) in
    rw e (
      Ensures-require Q (ltb 0 cap_usdc) _ _ λ _.
        Ensures-bind (Sifted cap_usdc all cs) Q (select (suc (length rs)) cap_usdc cs) _
          (select-Sifted (suc (length rs)) cap_usdc all cs
            (omega (arith, qualified_sum cap_usdc rs)))
          λ chosen h. h)

execute_round_start-LeavesOut :
    (rs : List InvestorRecord) (size price decimals cap_usdc : ℕ)
    → All IsIdle rs
    → round_cap size price decimals ≡ ok cap_usdc
    → Ensures
        (λ p. LeavesOut cap_usdc (sum_by (qualified_volume cap_usdc) rs) p.1 rs p.0)
        (execute_round_start rs size price decimals)
unfolding execute_round_start
execute_round_start-LeavesOut rs size price decimals cap_usdc idle e =
    let all = sum_by (qualified_volume cap_usdc) rs in
    let S : ℕ × List Candidate × ℕ → Type 0 =
      λ p. Sifted cap_usdc all (map (candidate (cap_usdc / 2)) rs) (p.1, p.2) in
    let Q : List InvestorRecord × ℕ × ℕ → Type 0 = λ p. LeavesOut cap_usdc all p.1 rs p.0 in
    Ensures-bind (λ p. Chosen cap_usdc rs p × S p) Q (choose_investors rs size price decimals) _
      (Ensures-both (Chosen cap_usdc rs) S (choose_investors rs size price decimals)
        (choose_investors_lem rs size price decimals cap_usdc e)
        (choose_investors-Sifted rs size price decimals cap_usdc e))
      λ chosen h.
        let ready = Selected-IsReady cap_usdc rs (chosen.1, chosen.2) idle h.0.1 in
        rw (h.0.0) (
          Ensures-bind (Locked cap_usdc chosen.2 chosen.1) Q (lock_funds cap_usdc chosen.2 chosen.1)
            _ (lock_funds-Locked cap_usdc chosen.2 chosen.1 h.0.1.2 h.0.1.1 ready)
            λ locked l.
              LeavesOut-of_Joins cap_usdc all chosen.2 rs chosen.1 locked.0 h.1.0 ready l.0)

-- What a start does, and whom it leaves out.
abbrev pub Starts : ℕ → List InvestorRecord → List InvestorRecord × ℕ × ℕ → Type 0
Starts cap_usdc rs p =
    Moves cap_usdc rs p × LeavesOut cap_usdc (sum_by (qualified_volume cap_usdc) rs) p.1 rs p.0

-- A round start that goes through, over records that have no lock and a deposit within 64 bits, for
-- a cap that can be computed: every record keeps what
-- it has, split anew between deposit and lock, and no other field changes. Who takes part had a
-- volume and half of the cap on deposit and has at least its pro-rata share locked, the others are
-- as before. The total volume is that of the participants and not 0. The total locked is the sum of
-- the locks, and is the whole cap, or is less by at most one unit for each participant where no
-- participant has the missing part left on deposit. Nobody is left out without a reason: who takes
-- no part had no deposit, no volume, less than half of the cap on deposit, a pro-rata share of 0
-- among all who have a volume and half of the cap on deposit, or less on deposit than the pro-rata
-- share among the participants.
pub execute_round_start-Starts :
    (investors : List InvestorRecord) (round_size_waln floor_price_usdc waln_decimals cap_usdc : ℕ)
    → All IsIdle investors
    → round_cap round_size_waln floor_price_usdc waln_decimals ≡ ok cap_usdc
    → Ensures
        (Starts cap_usdc investors)
        (execute_round_start investors round_size_waln floor_price_usdc waln_decimals)
execute_round_start-Starts rs size price decimals cap_usdc idle e =
    Ensures-both (Moves cap_usdc rs) _ (execute_round_start rs size price decimals)
      (execute_round_start-Moves rs size price decimals cap_usdc idle e)
      (execute_round_start-LeavesOut rs size price decimals cap_usdc idle e)
