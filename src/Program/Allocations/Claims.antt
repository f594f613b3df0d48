-- ===== src/Program/Allocations/Claims.antt =====
-- Claims: each allocation is paid out once, in full, and the account closes with the last one.
use solana_floor_program.Base.{
  ℕ, zero, suc, ◌+◌, ◌-◌, ◌<◌, ◌≡◌, refl, List, [], ◌∷◌, some, arith, ltb, ◌==◌, if◌then◌else◌,
  get_elem?, set, sum_by, All, subst, Bool, inl, inr, Option-cases,
}
use solana_floor_program.Base.Int.{ℤ, ◌≤ℤ◌, leb_ℤ}
use solana_floor_program.Program.Errors.{
  ok, err, floor, already_claimed, invalid_investor, ok_or, ok_or_lem, Ensures, Ensures-ok,
  Ensures-self, Ensures-bind, Ensures-require,
}
use solana_floor_program.Program.Checked.{sub}
use solana_floor_program.Program.State.{InvestorAlloc, RoundLockedWaln}
use solana_floor_program.Program.ForcedClose.Settled.{allocated}
use solana_floor_program.Program.Allocations.{take_allocation, binary_search, alloc_at}
use solana_floor_program.Program.Allocations.Search.{
  IsStrict, binary_search_finds, binary_search_sound,
}

abbrev pub one_if_open : InvestorAlloc → ℕ
one_if_open a = if ltb 0 a.waln_amount then 1 else 0

-- The account lists each investor once, and counts the allocations that are still to be claimed.
abbrev pub IsClaimable : RoundLockedWaln → Type 0
IsClaimable rlw =
    IsStrict rlw.investors × (rlw.remaining_to_claim ≡ sum_by one_if_open rlw.investors)

-- The list after a claim of the entry `a` at a position.
abbrev emptied : List InvestorAlloc → ℕ → InvestorAlloc → List InvestorAlloc
emptied ps k a = set ps k (record a { waln_amount = 0 })

abbrev pub claimed : RoundLockedWaln → ℕ → InvestorAlloc → RoundLockedWaln
claimed rlw k a = record rlw {
  investors = emptied rlw.investors k a;
  remaining_to_claim = rlw.remaining_to_claim - 1;
}

set-All :
    (n : ℕ) (ps : List InvestorAlloc) (k : ℕ) {a : InvestorAlloc} (b : InvestorAlloc)
    → get_elem? ps k ≡ some a
    → b.investor ≡ a.investor
    → All (λ c. n < c.investor) ps
    → All (λ c. n < c.investor) (set ps k b)
set-All n [] k b e f h = tt
set-All n (c ∷ ps) zero b e f h = ground arith
set-All n (c ∷ ps) (suc k) b e f h = (h.0, set-All n ps k b e f h.1)

set-IsStrict :
    (ps : List InvestorAlloc) (k : ℕ) {a : InvestorAlloc} (b : InvestorAlloc)
    → get_elem? ps k ≡ some a
    → b.investor ≡ a.investor
    → IsStrict ps
    → IsStrict (set ps k b)
set-IsStrict [] k b e f h = tt
set-IsStrict (c ∷ ps) zero {a} b e f h =
    let same : c.investor ≡ b.investor = ground arith in
    (subst (λ n. All (λ d. n < d.investor) ps) same h.0, h.1)
set-IsStrict (c ∷ ps) (suc k) {a} b e f h =
    (set-All c.investor ps k {a = a} b e f h.0, set-IsStrict ps k {a = a} b e f h.1)

emptied_sums :
    (ps : List InvestorAlloc) (k : ℕ) (a : InvestorAlloc)
    → get_elem? ps k ≡ some a
    → 0 < a.waln_amount
    → (allocated (emptied ps k a) + a.waln_amount ≡ allocated ps)
      × (sum_by one_if_open (emptied ps k a) + 1 ≡ sum_by one_if_open ps)
emptied_sums [] k a e h = cc
emptied_sums (b ∷ ps) zero a e h = ground arith
emptied_sums (b ∷ ps) (suc k) a e h = ground (arith, emptied_sums ps k a e h)

get_elem?-emptied :
    (ps : List InvestorAlloc) (k : ℕ) (a : InvestorAlloc)
    → get_elem? ps k ≡ some a
    → get_elem? (emptied ps k a) k ≡ some (record a { waln_amount = 0 })
get_elem?-emptied [] k a e = cc
get_elem?-emptied (b ∷ ps) zero a e = refl
get_elem?-emptied (b ∷ ps) (suc k) a e = get_elem?-emptied ps k a e

-- A claim at an open allocation leaves the account claimable, and allocates less by that.
pub claimed_lem :
    (rlw : RoundLockedWaln) (k : ℕ) (a : InvestorAlloc)
    → IsClaimable rlw
    → get_elem? rlw.investors k ≡ some a
    → 0 < a.waln_amount
    → IsClaimable (claimed rlw k a)
      × (allocated (claimed rlw k a).investors + a.waln_amount ≡ allocated rlw.investors)
claimed_lem rlw k a claimable here unpaid =
    let sums = emptied_sums rlw.investors k a here unpaid in
    (
      (
        set-IsStrict rlw.investors k {a = a} (record a { waln_amount = 0 }) here refl claimable.0,
        omega arith,
      ),
      omega arith,
    )

module _ (now : ℤ) (rlw : RoundLockedWaln) (k : ℕ) (a : InvestorAlloc) (claimable : IsClaimable rlw)
    (unlocked : rlw.unlock ≤ℤ now) (here : get_elem? rlw.investors k ≡ some a)
    (unpaid : 0 < a.waln_amount) where
  -- In an account that lists each investor once, in order, and counts its open allocations, an
  -- investor with an open allocation is paid exactly that after the unlock time. The allocation is
  -- emptied, one less remains to be claimed, and the account closes if none remains.
  pub take_allocation_pays :
      take_allocation now a.investor rlw
      ≡ ok (a.waln_amount, claimed rlw k a, (rlw.remaining_to_claim - 1) == 0)
  unfolding take_allocation sub
  take_allocation_pays =
      let found = binary_search_finds rlw.investors claimable.0 k a here in
      let sums = emptied_sums rlw.investors k a here unpaid in
      ground (arith, found, here, unlocked, claimable.1, sums)

  -- The account after the claim is again claimable, and what it still allocates is less by exactly
  -- what was paid.
  pub claimed-IsClaimable :
      IsClaimable (claimed rlw k a)
      × (allocated (claimed rlw k a).investors + a.waln_amount ≡ allocated rlw.investors)
  claimed-IsClaimable = claimed_lem rlw k a claimable here unpaid

  -- The emptied allocation is refused.
  claimed_again : take_allocation now a.investor (claimed rlw k a) ≡ err (floor already_claimed)
  unfolding take_allocation
  claimed_again =
      let again = get_elem?-emptied rlw.investors k a here in
      let found =
        binary_search_finds (emptied rlw.investors k a) claimed-IsClaimable.0.0 k
          (record a { waln_amount = 0 }) again in
      ground (arith, found, again, unlocked)

-- A claim that goes through has found an open allocation of the investor's, paid all of it, and left
-- the account with that allocation emptied.
abbrev TakesAt : ℤ → ℕ → RoundLockedWaln → ℕ × RoundLockedWaln × Bool → Type 0
TakesAt now investor rlw p =
    (k : ℕ) × (a : InvestorAlloc) × (rlw.unlock ≤ℤ now)
    × (get_elem? rlw.investors k ≡ some a)
    × (a.investor ≡ investor)
    × (0 < a.waln_amount)
    × (p.1 ≡ claimed rlw k a)

take_allocation-TakesAt :
    (now : ℤ) (investor : ℕ) (rlw : RoundLockedWaln)
    → Ensures (TakesAt now investor rlw) (take_allocation now investor rlw)
unfolding take_allocation sub
take_allocation-TakesAt now investor rlw =
    let Q = TakesAt now investor rlw in
    let found = binary_search investor rlw.investors in
    Ensures-require Q (leb_ℤ rlw.unlock now) _ _ λ unlocked.
      Ensures-bind (λ k. found ≡ some k) Q (ok_or found invalid_investor) _ (ok_or_lem found _)
        λ k e. elim (Option-cases (get_elem? rlw.investors k)) [
          | inl f ↦ rw (f, alloc_at) tt
          | inr (a, f) ↦
              let sound = binary_search_sound investor rlw.investors {i = k} e in
              rw (f, alloc_at)
                (Ensures-require Q (ltb 0 a.waln_amount) _ _ λ unpaid.
                  Ensures-bind _ Q (sub rlw.remaining_to_claim 1) _ (Ensures-self _) λ remaining r.
                    (k, a, ground arith, f, ground (arith, sound, f), ground arith, ground arith))
        ]

-- In an account that lists each investor once, in order, and counts its open allocations: after a
-- claim that went through, every later claim of the same investor, on the account that this claim
-- left, is refused as already claimed.
pub take_allocation_once :
    (now later : ℤ) (investor paid : ℕ) (rlw after : RoundLockedWaln) (closes : Bool)
    → IsClaimable rlw
    → take_allocation now investor rlw ≡ ok (paid, after, closes)
    → now ≤ℤ later
    → take_allocation later investor after ≡ err (floor already_claimed)
take_allocation_once now later investor paid rlw after closes claimable first order =
    let (k, a, unlocked, here, same, unpaid, left) =
      Ensures-ok (TakesAt now investor rlw) (take_allocation now investor rlw)
        (take_allocation-TakesAt now investor rlw) first in
    let again =
      claimed_again later rlw k a claimable (omega (arith, unlocked, order)) here unpaid in
    rw (left, ← same) again
