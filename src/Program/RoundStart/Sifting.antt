-- ===== src/Program/RoundStart/Sifting.antt =====
-- Which candidates the selection drops, and why.
use native.Mathlib.Nat.{le-div_iff_mul-le, div-mul-le_self}
use solana_floor_program.Base.{
  ℕ, zero, suc, ◌*◌, ◌/◌, ◌≤◌, ◌<◌, ◌≡◌, ◌⊎◌, true, false, List, [], ◌∷◌, arith, ltb, sum_by,
  Pointwise, Bool,
}
use solana_floor_program.Program.Errors.{ok, Ensures, Ensures-bind, Ensures-weaken, Ensures-require}
use solana_floor_program.Program.State.{InvestorRecord}
use solana_floor_program.Program.RoundStart.{Candidate, review, review_all, sum_volumes, select}
use solana_floor_program.Program.RoundStart.Selection.{
  share, eligible_volume, required_lock_lem, sum_volumes_lem,
}

-- A candidate that a review drops has no share of the cap, or a deposit below its share.
abbrev pub Drops : ℕ → ℕ → ℕ → Candidate → Candidate → Type 0
Drops cap_usdc all total c d =
    (d.entry ≡ c.entry)
    × (eligible_volume d ≤ eligible_volume c)
    × (c.eligible ≡ true
        → d.eligible ≡ false
        → (share cap_usdc all c.entry ≡ 0)
          ⊎ (c.entry.usdc_deposited < share cap_usdc total c.entry))

review-Drops :
    (cap_usdc total : ℕ) (c : Candidate) (changed : Bool)
    → Ensures (λ p. Drops cap_usdc total total c p.0) (review cap_usdc total c changed)
unfolding review
review-Drops cap_usdc total c changed = ground (arith, required_lock_lem cap_usdc total c.entry)

review_all-Drops :
    (cap_usdc total : ℕ) (cs : List Candidate) (changed : Bool)
    → Ensures
        (λ p. Pointwise (Drops cap_usdc total total) cs p.0)
        (review_all cap_usdc total cs changed)
unfolding review_all
review_all-Drops cap_usdc total [] changed = tt
review_all-Drops cap_usdc total (c ∷ cs) changed =
    Ensures-bind _ _ (review cap_usdc total c changed) _ (review-Drops cap_usdc total c changed)
      λ first h.
        Ensures-bind _ _ (review_all cap_usdc total cs first.1) _
          (review_all-Drops cap_usdc total cs first.1) λ rest k. (h, k)

-- A larger total makes every share smaller.
share_antitone :
    (cap_usdc small large : ℕ) (r : InvestorRecord)
    → 0 < small
    → small ≤ large
    → share cap_usdc large r ≤ share cap_usdc small r
share_antitone cap_usdc small large r pos le =
    let n = cap_usdc * r.aat_volume in
    (le-div_iff_mul-le pos).1 (shrink (n / large) n (div-mul-le_self n large))
  where
    shrink : (q n : ℕ) → q * large ≤ n → q * small ≤ n
    shrink q n h = grind arith

Drops-compose :
    (cap_usdc all total total' : ℕ) (c d e : Candidate)
    → 0 < total'
    → total' ≤ total
    → total ≤ all
    → Drops cap_usdc total total c d
    → Drops cap_usdc all total' d e
    → Drops cap_usdc all total' c e
Drops-compose cap_usdc all total total' c d e pos le le' h k =
    let below = share_antitone cap_usdc total' total c.entry pos le in
    let above = share_antitone cap_usdc total all c.entry (omega arith) le' in
    ground (arith, below, above)

Drops-weaken :
    (cap_usdc all total : ℕ) (c d : Candidate)
    → 0 < total
    → total ≤ all
    → Drops cap_usdc total total c d
    → Drops cap_usdc all total c d
Drops-weaken cap_usdc all total c d pos le h =
    let above = share_antitone cap_usdc total all c.entry pos le in ground (arith, above)

DropsAll-compose :
    (cap_usdc all total total' : ℕ) (cs ds es : List Candidate)
    → 0 < total'
    → total' ≤ total
    → total ≤ all
    → Pointwise (Drops cap_usdc total total) cs ds
    → Pointwise (Drops cap_usdc all total') ds es
    → Pointwise (Drops cap_usdc all total') cs es
DropsAll-compose cap_usdc all total total' [] [] [] pos le le' h k = tt
DropsAll-compose cap_usdc all total total' [] [] (e ∷ es) pos le le' h k = absurd k
DropsAll-compose cap_usdc all total total' [] (d ∷ ds) es pos le le' h k = absurd h
DropsAll-compose cap_usdc all total total' (c ∷ cs) [] es pos le le' h k = absurd h
DropsAll-compose cap_usdc all total total' (c ∷ cs) (d ∷ ds) [] pos le le' h k = absurd k
DropsAll-compose cap_usdc all total total' (c ∷ cs) (d ∷ ds) (e ∷ es) pos le le' h k = (
  Drops-compose cap_usdc all total total' c d e pos le le' h.0 k.0,
  DropsAll-compose cap_usdc all total total' cs ds es pos le le' h.1 k.1,
)

DropsAll-weaken :
    (cap_usdc all total : ℕ) (cs ds : List Candidate)
    → 0 < total
    → total ≤ all
    → Pointwise (Drops cap_usdc total total) cs ds
    → Pointwise (Drops cap_usdc all total) cs ds
DropsAll-weaken cap_usdc all total [] [] pos le h = tt
DropsAll-weaken cap_usdc all total [] (d ∷ ds) pos le h = absurd h
DropsAll-weaken cap_usdc all total (c ∷ cs) [] pos le h = absurd h
DropsAll-weaken cap_usdc all total (c ∷ cs) (d ∷ ds) pos le h = (
  Drops-weaken cap_usdc all total c d pos le h.0,
  DropsAll-weaken cap_usdc all total cs ds pos le h.1,
)

eligible_volume-Drops :
    (cap_usdc all total : ℕ) (cs ds : List Candidate)
    → Pointwise (Drops cap_usdc all total) cs ds
    → sum_by eligible_volume ds ≤ sum_by eligible_volume cs
eligible_volume-Drops cap_usdc all total [] [] h = omega arith
eligible_volume-Drops cap_usdc all total [] (d ∷ ds) h = absurd h
eligible_volume-Drops cap_usdc all total (c ∷ cs) [] h = absurd h
eligible_volume-Drops cap_usdc all total (c ∷ cs) (d ∷ ds) h =
    omega (arith, h.0.1, eligible_volume-Drops cap_usdc all total cs ds h.1)

-- What the selection as a whole drops.
abbrev pub Sifted : ℕ → ℕ → List Candidate → List Candidate × ℕ → Type 0
Sifted cap_usdc all cs p =
    Pointwise (Drops cap_usdc all p.1) cs p.0 × (0 < p.1) × (p.1 ≤ sum_by eligible_volume cs)

pub select-Sifted :
    (fuel cap_usdc all : ℕ) (cs : List Candidate)
    → sum_by eligible_volume cs ≤ all
    → Ensures (Sifted cap_usdc all cs) (select fuel cap_usdc cs)
unfolding select
select-Sifted zero cap_usdc all cs bound = tt
select-Sifted (suc fuel) cap_usdc all cs bound =
    Ensures-bind _ (Sifted cap_usdc all cs) (sum_volumes cs 0) _ (sum_volumes_lem cs 0) λ total t.
      Ensures-require (Sifted cap_usdc all cs) (ltb 0 total) _ _ λ e.
        Ensures-bind (λ p. Pointwise (Drops cap_usdc total total) cs p.0) (Sifted cap_usdc all cs)
          (review_all cap_usdc total cs false) _ (review_all-Drops cap_usdc total cs false)
          λ reviewed r.
            let shrinks = eligible_volume-Drops cap_usdc total total cs reviewed.0 r in
            go total reviewed (ground arith) (omega (arith, t)) r (omega (arith, shrinks, t))
              (select-Sifted fuel cap_usdc all reviewed.0 (omega (arith, shrinks)))
  where
    go :
        (total : ℕ) (reviewed : List Candidate × Bool)
        → 0 < total
        → total ≡ sum_by eligible_volume cs
        → Pointwise (Drops cap_usdc total total) cs reviewed.0
        → sum_by eligible_volume reviewed.0 ≤ total
        → Ensures (Sifted cap_usdc all reviewed.0) (select fuel cap_usdc reviewed.0)
        → Ensures (Sifted cap_usdc all cs) (elim reviewed.1 [
          | true ↦ select fuel cap_usdc reviewed.0
          | false ↦ ok (reviewed.0, total)
        ])
    go total (ds, true) pos t r s ih =
        Ensures-weaken (Sifted cap_usdc all ds) (Sifted cap_usdc all cs) (select fuel cap_usdc ds)
          ih
          λ p k. (
            DropsAll-compose cap_usdc all total p.1 cs ds p.0 k.1 (omega (arith, k.2, s))
                (omega (arith, t, bound)) r k.0,
            k.1,
            omega (arith, k.2, s, t),
          )
    go total (ds, false) pos t r s ih = (
      DropsAll-weaken cap_usdc all total cs ds pos (omega (arith, t, bound)) r,
      pos,
      omega (arith, t),
    )
