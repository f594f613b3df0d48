-- ===== src/Program/RoundStart/Locking.antt =====
-- Locking the USDC of the selected investors: shares of the cap, and the gap that rounding leaves.
use solana_floor_program.Base.{
  ℕ, ◌+◌, ◌-◌, ◌*◌, ◌/◌, ◌≤◌, ◌<◌, ◌≡◌, refl, ◌⊎◌, inl, inr, true, false, List, [], ◌∷◌, arith, ltb,
  sum_by, ap, subst, All, Pointwise, Bool-cases,
}
use native.Mathlib.Nat.{div-mul-le_self, lt-div-mul-add}
use solana_floor_program.Program.Errors.{Ensures, Ensures-bind, Ensures-weaken}
use solana_floor_program.Program.Checked.{add_u64, sub, to_u64, to_u64_lem, u64_max}
use solana_floor_program.Program.State.{InvestorRecord}
use solana_floor_program.Program.RoundStart.{Candidate, lock_one, lock_all, cover_gap, lock_funds}
use solana_floor_program.Program.RoundStart.Selection.{
  share, eligible_volume, eligible_count, IsFunded, required_lock_lem,
}

abbrev pub lock : InvestorRecord → ℕ
lock r = r.usdc_locked_current_round

-- USDC goes from a record's deposit to its lock, and nothing else changes.
abbrev pub LocksOnly : InvestorRecord → InvestorRecord → Type 0
LocksOnly r r' =
    (r'.investor ≡ r.investor)
    × (r'.usdc_committed ≡ r.usdc_committed)
    × (r'.waln_purchased_total ≡ r.waln_purchased_total)
    × (r'.aat_volume ≡ r.aat_volume)
    × (r'.usdc_unlock_ts ≡ r.usdc_unlock_ts)
    × (r'.usdc_deposited + lock r' ≡ r.usdc_deposited + lock r)

-- A record of no round, with a deposit that fits its field.
abbrev pub IsIdle : InvestorRecord → Type 0
IsIdle r = (lock r ≡ 0) × (r.usdc_deposited ≤ u64_max)

abbrev pub IsReady : ℕ → ℕ → Candidate → Type 0
IsReady cap_usdc total c = IsFunded cap_usdc total c × IsIdle c.entry

-- A candidate whose share is locked, or that takes no part.
abbrev pub LocksShare : ℕ → ℕ → Candidate → Candidate → Type 0
LocksShare cap_usdc total c c' =
    (c'.eligible ≡ c.eligible)
    × LocksOnly c.entry c'.entry
    × (c.eligible ≡ true → lock c'.entry ≡ share cap_usdc total c.entry)
    × (c.eligible ≡ false → c'.entry ≡ c.entry)

lock_one_lem :
    (cap_usdc total : ℕ) (c : Candidate) (locked : ℕ)
    → IsReady cap_usdc total c
    → Ensures
        (λ p. LocksShare cap_usdc total c p.0 × (p.1 ≡ locked + lock p.0.entry))
        (lock_one cap_usdc total c locked)
unfolding lock_one sub add_u64
lock_one_lem cap_usdc total c locked h = ground (arith, required_lock_lem cap_usdc total c.entry)

abbrev pub locks : List Candidate → ℕ
locks = sum_by (λ c. lock c.entry)

lock_all_lem :
    (cap_usdc total : ℕ) (cs : List Candidate) (locked : ℕ)
    → All (IsReady cap_usdc total) cs
    → Ensures
        (λ p. Pointwise (LocksShare cap_usdc total) cs p.0 × (p.1 ≡ locked + locks p.0))
        (lock_all cap_usdc total cs locked)
unfolding lock_all
lock_all_lem cap_usdc total [] locked h = (tt, omega arith)
lock_all_lem cap_usdc total (c ∷ cs) locked h =
    Ensures-bind _ _ (lock_one cap_usdc total c locked) _ (lock_one_lem cap_usdc total c locked h.0)
      λ first k.
        Ensures-bind _ _ (lock_all cap_usdc total cs first.1) _
          (lock_all_lem cap_usdc total cs first.1 h.1) λ rest l. ((k.0, l.0), omega arith)

-- One share, against the cap.
share_bounds :
    (cap_usdc total v : ℕ)
    → 0 < total
    → (cap_usdc * v / total * total ≤ cap_usdc * v)
      × (cap_usdc * v < (cap_usdc * v / total + 1) * total)
share_bounds cap_usdc total v h =
    (div-mul-le_self (cap_usdc * v) total, grind (arith, lt-div-mul-add {a = cap_usdc * v} h))

-- The locks against the volumes: they stay below the cap, by less than one unit for each investor.
locks_bounds :
    (cap_usdc total : ℕ) (cs ds : List Candidate)
    → 0 < total
    → All (IsReady cap_usdc total) cs
    → Pointwise (LocksShare cap_usdc total) cs ds
    → (locks ds * total ≤ cap_usdc * sum_by eligible_volume cs)
      × (cap_usdc * sum_by eligible_volume cs ≤ (locks ds + eligible_count cs) * total)
locks_bounds cap_usdc total [] [] h r k = (omega arith, omega arith)
locks_bounds cap_usdc total [] (d ∷ ds) h r k = absurd k
locks_bounds cap_usdc total (c ∷ cs) [] h r k = absurd k
locks_bounds cap_usdc total (c ∷ cs) (d ∷ ds) h r k = elim (Bool-cases c.eligible) [
  | inl e ↦
      let b = share_bounds cap_usdc total c.entry.aat_volume h in
      let ih = locks_bounds cap_usdc total cs ds h r.1 k.1 in
      let l = k.0.2 e in ground (arith, e, b, ih, l)
  | inr e ↦
      let ih = locks_bounds cap_usdc total cs ds h r.1 k.1 in
      let l = k.0.3 e in ground (arith, e, ih, ap lock l, r.0.1.0)
]

-- One candidate while the gap is covered.
abbrev TopsUp : Candidate → Candidate → Type 0
TopsUp c d =
    LocksOnly c.entry d.entry
    × (d.eligible ≡ c.eligible)
    × (lock c.entry ≤ lock d.entry)
    × (c.eligible ≡ false → d.entry ≡ c.entry)

-- The gap is covered by one investor, or no eligible investor has it left.
abbrev Covered : ℕ → List Candidate → ℕ → List Candidate × ℕ → Type 0
Covered gap cs locked p =
    Pointwise TopsUp cs p.0
    × (((p.1 ≡ locked + gap) × (locks p.0 ≡ locks cs + gap))
        ⊎ ((p.0 ≡ cs)
            × (p.1 ≡ locked)
            × All (λ c. c.eligible ≡ true → c.entry.usdc_deposited < gap) cs))

TopsUp-refl : (cs : List Candidate) → Pointwise TopsUp cs cs
TopsUp-refl [] = tt
TopsUp-refl (c ∷ cs) =
    (((refl, refl, refl, refl, refl, refl), refl, omega arith, λ e. refl), TopsUp-refl cs)

cover_gap_lem :
    (gap : ℕ) (cs : List Candidate) (locked : ℕ)
    → Ensures (Covered gap cs locked) (cover_gap gap cs locked)
unfolding cover_gap sub add_u64
cover_gap_lem gap [] locked = (tt, inr (refl, refl, tt))
cover_gap_lem gap (c ∷ cs) locked = ground (arith, cover_gap_lem gap cs locked, TopsUp-refl cs)

-- A candidate over the whole of the locking.
abbrev pub Joins : ℕ → ℕ → Candidate → Candidate → Type 0
Joins cap_usdc total c d =
    (d.eligible ≡ c.eligible)
    × LocksOnly c.entry d.entry
    × (c.eligible ≡ true → share cap_usdc total c.entry ≤ lock d.entry)
    × (c.eligible ≡ false → d.entry ≡ c.entry)

Joins-compose :
    (cap_usdc total : ℕ) (cs ds es : List Candidate)
    → Pointwise (LocksShare cap_usdc total) cs ds
    → Pointwise TopsUp ds es
    → Pointwise (Joins cap_usdc total) cs es
Joins-compose cap_usdc total [] [] [] h k = tt
Joins-compose cap_usdc total [] [] (e ∷ es) h k = absurd k
Joins-compose cap_usdc total [] (d ∷ ds) es h k = absurd h
Joins-compose cap_usdc total (c ∷ cs) [] es h k = absurd h
Joins-compose cap_usdc total (c ∷ cs) (d ∷ ds) [] h k = absurd k
Joins-compose cap_usdc total (c ∷ cs) (d ∷ ds) (e ∷ es) h k =
    (ground arith, Joins-compose cap_usdc total cs ds es h.1 k.1)

-- Where the locks do not reach the cap, no participant has the rest of it left.
abbrev pub FillsCap : ℕ → List Candidate → ℕ → Type 0
FillsCap cap_usdc ds locked =
    (locked ≡ cap_usdc)
    ⊎ ((locked < cap_usdc)
        × (cap_usdc ≤ locked + eligible_count ds)
        × All (λ d. d.eligible ≡ true → d.entry.usdc_deposited < cap_usdc - locked) ds)

abbrev pub Locked : ℕ → ℕ → List Candidate → List Candidate × ℕ → Type 0
Locked cap_usdc total cs p =
    Pointwise (Joins cap_usdc total) cs p.0 × (p.1 ≡ locks p.0) × FillsCap cap_usdc p.0 p.1

cancel_total : (a b total : ℕ) → 0 < total → a * total ≤ b * total → a ≤ b
cancel_total a b total h k = grind arith

eligible_count-Joins :
    (cap_usdc total : ℕ) (cs ds : List Candidate)
    → Pointwise (Joins cap_usdc total) cs ds
    → eligible_count ds ≡ eligible_count cs
eligible_count-Joins cap_usdc total [] [] h = refl
eligible_count-Joins cap_usdc total [] (d ∷ ds) h = absurd h
eligible_count-Joins cap_usdc total (c ∷ cs) [] h = absurd h
eligible_count-Joins cap_usdc total (c ∷ cs) (d ∷ ds) h =
    rw (h.0.0, eligible_count-Joins cap_usdc total cs ds h.1)

-- The shares alone reach the cap, but for less than one unit for each investor.
shares_fill :
    (cap_usdc total : ℕ) (cs ds : List Candidate)
    → 0 < total
    → total ≡ sum_by eligible_volume cs
    → All (IsReady cap_usdc total) cs
    → Pointwise (LocksShare cap_usdc total) cs ds
    → (locks ds ≤ cap_usdc) × (cap_usdc ≤ locks ds + eligible_count cs)
shares_fill cap_usdc total cs ds h v r k =
    let (low, high) = locks_bounds cap_usdc total cs ds h r k in
    (cancel_total _ _ total h (rw (← v) at low), cancel_total _ _ total h (rw (← v) at high))

Joins-of_LocksShare :
    (cap_usdc total : ℕ) (cs ds : List Candidate)
    → Pointwise (LocksShare cap_usdc total) cs ds
    → Pointwise (Joins cap_usdc total) cs ds
Joins-of_LocksShare cap_usdc total cs ds k =
    Joins-compose cap_usdc total cs ds ds k (TopsUp-refl ds)

-- After the gap has been dealt with.
cover_gap-Locked :
    (cap_usdc total locked gap : ℕ) (cs ds : List Candidate)
    → (locks ds ≤ cap_usdc) × (cap_usdc ≤ locks ds + eligible_count cs)
    → Pointwise (LocksShare cap_usdc total) cs ds
    → locked ≡ locks ds
    → gap ≡ cap_usdc - locked
    → 0 < gap
    → (p : List Candidate × ℕ) → Covered gap ds locked p
    → Locked cap_usdc total cs p
cover_gap-Locked cap_usdc total locked gap cs ds b k l g pos p (tops, inl (sum, all)) =
    (Joins-compose cap_usdc total cs ds p.0 k tops, omega arith, inl (omega arith))
cover_gap-Locked cap_usdc total locked gap cs ds b k l g pos p (tops, inr (same, sum, short)) =
    let joins = Joins-compose cap_usdc total cs ds p.0 k tops in
    let count = eligible_count-Joins cap_usdc total cs p.0 joins in
    (
      joins,
      rw (sum, l, same),
      inr (
        omega arith,
        omega arith,
        rw (same, sum)
            (subst (λ n. All (λ c. c.eligible ≡ true → c.entry.usdc_deposited < n) ds) g short),
      ),
    )

pub lock_funds-Locked :
    (cap_usdc total : ℕ) (cs : List Candidate)
    → 0 < total
    → total ≡ sum_by eligible_volume cs
    → All (IsReady cap_usdc total) cs
    → Ensures (Locked cap_usdc total cs) (lock_funds cap_usdc total cs)
unfolding lock_funds
lock_funds-Locked cap_usdc total cs pos v r =
    Ensures-bind _ (Locked cap_usdc total cs) (lock_all cap_usdc total cs 0) _
      (lock_all_lem cap_usdc total cs 0 r)
      λ first k.
        let b = shares_fill cap_usdc total cs first.0 pos v r k.0 in
        elim (Bool-cases (ltb 0 (cap_usdc - first.1))) [
          | inl e ↦ rw e (
              Ensures-bind _ (Locked cap_usdc total cs) (to_u64 (cap_usdc - first.1)) _
                (to_u64_lem _)
                λ gap g.
                  Ensures-weaken (Covered gap first.0 first.1) (Locked cap_usdc total cs)
                    (cover_gap gap first.0 first.1) (cover_gap_lem gap first.0 first.1)
                    (cover_gap-Locked cap_usdc total first.1 gap cs first.0 b k.0 (omega arith) g.0
                      (ground arith)))
          | inr e ↦
              rw e
                (Joins-of_LocksShare cap_usdc total cs first.0 k.0, omega arith, inl (ground arith))
        ]
