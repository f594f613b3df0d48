-- ===== src/Program/RoundStart/Start.antt =====
-- What a round start does to the investors' records.
use solana_floor_program.Base.{
  ℕ, suc, ◌+◌, ◌-◌, ◌/◌, ◌≤◌, ◌<◌, ◌≡◌, refl, ◌⊎◌, inl, inr, true, List, [], ◌∷◌, map, arith,
  if◌then◌else◌, ◌∙◌, ltb, sum_by, sym, subst, length, All, Pointwise, Bool-cases,
}
use solana_floor_program.Program.Errors.{Result, ok, err, Ensures, Ensures-bind}
use solana_floor_program.Program.State.{InvestorRecord}
use solana_floor_program.Program.RoundStart.{
  Candidate, candidate, entries, round_cap, select, lock_funds, choose_investors,
  execute_round_start,
}
use solana_floor_program.Program.RoundStart.Selection.{
  share, eligible_volume, eligible_count, AllEligible, Selected, select-Selected, select-All,
  IsFunded,
}
use solana_floor_program.Program.RoundStart.Locking.{
  lock, locks, LocksOnly, IsIdle, IsReady, Joins, Locked, FillsCap, lock_funds-Locked,
}

-- A record that takes no part stays as it is. One that does had a volume and half of the cap on
-- deposit, and has at least its pro-rata share of the cap locked.
abbrev pub Enters : ℕ → ℕ → InvestorRecord → InvestorRecord → Type 0
Enters cap_usdc total r r' =
    LocksOnly r r'
    × (((lock r' ≡ 0) × (r' ≡ r))
        ⊎ ((0 < lock r')
            × (0 < r.aat_volume)
            × (cap_usdc / 2 ≤ r.usdc_deposited)
            × (share cap_usdc total r ≤ lock r')))

abbrev pub participant_volume : InvestorRecord → ℕ
participant_volume r = if ltb 0 (lock r) then r.aat_volume else 0

abbrev pub one_if_participant : InvestorRecord → ℕ
one_if_participant r = if ltb 0 (lock r) then 1 else 0

-- The locks are the whole cap; or they fall short of it by at most one unit for each participant,
-- and no participant has as much left on deposit as is missing.
abbrev pub Fills : ℕ → List InvestorRecord → ℕ → Type 0
Fills cap_usdc rs locked =
    (locked ≡ cap_usdc)
    ⊎ ((locked < cap_usdc)
        × (cap_usdc ≤ locked + sum_by one_if_participant rs)
        × All (λ r. 0 < lock r → r.usdc_deposited < cap_usdc - locked) rs)

-- The records, the total volume and the total lock that a start returns for a cap.
abbrev pub Moves : ℕ → List InvestorRecord → List InvestorRecord × ℕ × ℕ → Type 0
Moves cap_usdc rs p =
    Pointwise (Enters cap_usdc p.1) rs p.0
    × (p.1 ≡ sum_by participant_volume p.0)
    × (0 < p.1)
    × (p.2 ≡ sum_by lock p.0)
    × Fills cap_usdc p.0 p.2

abbrev IsScreened : ℕ → InvestorRecord → Type 0
IsScreened cap_usdc r = (0 < r.aat_volume) × (cap_usdc / 2 ≤ r.usdc_deposited)

candidate-AllEligible :
    (cap_usdc : ℕ) (rs : List InvestorRecord)
    → AllEligible (IsScreened cap_usdc) (map (candidate (cap_usdc / 2)) rs)
candidate-AllEligible cap_usdc [] = tt
candidate-AllEligible cap_usdc (r ∷ rs) = (λ e. ground arith, candidate-AllEligible cap_usdc rs)

entries-candidate : (m : ℕ) (rs : List InvestorRecord) → entries (map (candidate m) rs) ≡ rs
entries-candidate m [] = refl
entries-candidate m (r ∷ rs) = rw (entries-candidate m rs)

All-IsReady :
    (cap_usdc total : ℕ) (cs : List Candidate)
    → All (IsFunded cap_usdc total) cs
    → All IsIdle (entries cs)
    → All (IsReady cap_usdc total) cs
All-IsReady cap_usdc total [] h k = tt
All-IsReady cap_usdc total (c ∷ cs) h k = ((h.0, k.0), All-IsReady cap_usdc total cs h.1 k.1)

-- From the candidates to their records.
Moves-of_Joins :
    (cap_usdc total : ℕ) (cs ds : List Candidate)
    → All (IsReady cap_usdc total) cs
    → AllEligible (IsScreened cap_usdc) cs
    → Pointwise (Joins cap_usdc total) cs ds
    → Pointwise (Enters cap_usdc total) (entries cs) (entries ds)
      × (sum_by eligible_volume cs ≡ sum_by participant_volume (entries ds))
      × (locks ds ≡ sum_by lock (entries ds))
      × (eligible_count ds ≡ sum_by one_if_participant (entries ds))
Moves-of_Joins cap_usdc total [] [] r s j = (tt, refl, refl, refl)
Moves-of_Joins cap_usdc total [] (d ∷ ds) r s j = absurd j
Moves-of_Joins cap_usdc total (c ∷ cs) [] r s j = absurd j
Moves-of_Joins cap_usdc total (c ∷ cs) (d ∷ ds) r s j =
    ground (arith, Moves-of_Joins cap_usdc total cs ds r.1 s.1 j.1)

All-participants :
    (cap_usdc total n : ℕ) (cs ds : List Candidate)
    → All (IsReady cap_usdc total) cs
    → Pointwise (Joins cap_usdc total) cs ds
    → All (λ d. d.eligible ≡ true → d.entry.usdc_deposited < n) ds
    → All (λ r. 0 < lock r → r.usdc_deposited < n) (entries ds)
All-participants cap_usdc total n [] [] r j h = tt
All-participants cap_usdc total n [] (d ∷ ds) r j h = absurd j
All-participants cap_usdc total n (c ∷ cs) [] r j h = absurd j
All-participants cap_usdc total n (c ∷ cs) (d ∷ ds) r j h =
    (λ l. ground arith, All-participants cap_usdc total n cs ds r.1 j.1 h.1)

Fills-of_FillsCap :
    (cap_usdc total locked : ℕ) (cs ds : List Candidate)
    → All (IsReady cap_usdc total) cs
    → Pointwise (Joins cap_usdc total) cs ds
    → eligible_count ds ≡ sum_by one_if_participant (entries ds)
    → FillsCap cap_usdc ds locked
    → Fills cap_usdc (entries ds) locked
Fills-of_FillsCap cap_usdc total locked cs ds r j e (inl h) = inl h
Fills-of_FillsCap cap_usdc total locked cs ds r j e (inr (short, near, all)) =
    inr (short, rw (← e) near, All-participants cap_usdc total (cap_usdc - locked) cs ds r j all)

pub Selected-IsReady :
    (cap_usdc : ℕ) (rs : List InvestorRecord) (chosen : List Candidate × ℕ)
    → All IsIdle rs
    → Selected cap_usdc (map (candidate (cap_usdc / 2)) rs) chosen
    → All (IsReady cap_usdc chosen.1) chosen.0
Selected-IsReady cap_usdc rs chosen idle sel =
    All-IsReady cap_usdc chosen.1 chosen.0 sel.3
      (subst (All IsIdle) (sym (sel.0 ∙ entries-candidate (cap_usdc / 2) rs)) idle)

-- The lists that the selection and the locking hand on.
Moves-of_Locked :
    (cap_usdc : ℕ) (rs : List InvestorRecord) (chosen : List Candidate × ℕ)
    (locked : List Candidate × ℕ)
    → All IsIdle rs
    → Selected cap_usdc (map (candidate (cap_usdc / 2)) rs) chosen
    → AllEligible (IsScreened cap_usdc) chosen.0
    → Locked cap_usdc chosen.1 chosen.0 locked
    → Moves cap_usdc rs (entries locked.0, chosen.1, locked.1)
Moves-of_Locked cap_usdc rs chosen locked idle sel scr l =
    let same : entries chosen.0 ≡ rs = sel.0 ∙ entries-candidate (cap_usdc / 2) rs in
    let ready = Selected-IsReady cap_usdc rs chosen idle sel in
    let s = Moves-of_Joins cap_usdc chosen.1 chosen.0 locked.0 ready scr l.0 in
    (
      subst (λ qs. Pointwise (Enters cap_usdc chosen.1) qs (entries locked.0)) same s.0,
      sel.1 ∙ s.1,
      sel.2,
      l.1 ∙ s.2,
      Fills-of_FillsCap cap_usdc chosen.1 locked.1 chosen.0 locked.0 ready l.0 s.3 l.2,
    )

-- What the selection and the locking do together, for a given cap.
abbrev pub Chosen : ℕ → List InvestorRecord → ℕ × List Candidate × ℕ → Type 0
Chosen cap_usdc rs p =
    (p.0 ≡ cap_usdc)
    × Selected cap_usdc (map (candidate (cap_usdc / 2)) rs) (p.1, p.2)
    × AllEligible (IsScreened cap_usdc) p.1

both {ℓ} :
    {A : Type ℓ} (P Q : A → Type 0) (m : Result A)
    → Ensures P m
    → Ensures Q m
    → Ensures (λ a. P a × Q a) m
both P Q (ok a) h k = (h, k)
both P Q (err e) h k = tt

pub choose_investors_lem :
    (rs : List InvestorRecord) (size price decimals cap_usdc : ℕ)
    → round_cap size price decimals ≡ ok cap_usdc
    → Ensures (Chosen cap_usdc rs) (choose_investors rs size price decimals)
unfolding choose_investors
choose_investors_lem rs size price decimals cap_usdc e = rw e (elim (Bool-cases (ltb 0 cap_usdc)) [
  | inr f ↦ rw f tt
  | inl f ↦ rw f (
      Ensures-bind _ (Chosen cap_usdc rs)
        (select (suc (length rs)) cap_usdc (map (candidate (cap_usdc / 2)) rs)) _
        (both (Selected cap_usdc (map (candidate (cap_usdc / 2)) rs))
          (λ p. AllEligible (IsScreened cap_usdc) p.0) _
          (select-Selected (suc (length rs)) cap_usdc (map (candidate (cap_usdc / 2)) rs))
          (select-All (IsScreened cap_usdc) (suc (length rs)) cap_usdc
            (map (candidate (cap_usdc / 2)) rs) (candidate-AllEligible cap_usdc rs)))
        λ chosen h. (refl, h.0, h.1))
])

-- What a round start does to the records, whoever is chosen.
pub execute_round_start-Moves :
    (investors : List InvestorRecord) (round_size_waln floor_price_usdc waln_decimals cap_usdc : ℕ)
    → All IsIdle investors
    → round_cap round_size_waln floor_price_usdc waln_decimals ≡ ok cap_usdc
    → Ensures
        (Moves cap_usdc investors)
        (execute_round_start investors round_size_waln floor_price_usdc waln_decimals)
unfolding execute_round_start
execute_round_start-Moves rs size price decimals cap_usdc idle e =
    Ensures-bind (Chosen cap_usdc rs) (Moves cap_usdc rs) (choose_investors rs size price decimals)
      _ (choose_investors_lem rs size price decimals cap_usdc e)
      λ chosen h. rw (h.0) (
        Ensures-bind (Locked cap_usdc chosen.2 chosen.1) (Moves cap_usdc rs)
          (lock_funds cap_usdc chosen.2 chosen.1) _
          (lock_funds-Locked cap_usdc chosen.2 chosen.1 h.1.2 h.1.1
            (Selected-IsReady cap_usdc rs (chosen.1, chosen.2) idle h.1))
          λ locked l. Moves-of_Locked cap_usdc rs (chosen.1, chosen.2) locked idle h.1 h.2 l)
