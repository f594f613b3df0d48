-- ===== src/Program/Allocations/Search.antt =====
-- The binary search finds an investor's position in a list that is strictly sorted.
use solana_floor_program.Base.{
  ℕ, zero, suc, ◌+◌, ◌-◌, ◌/◌, ◌≤◌, ◌<◌, ◌≡◌, refl, inl, inr, true, false, List, [], ◌∷◌, some,
  arith, ltb, leb, get_elem?, length, All, Bool-cases,
}
use solana_floor_program.Program.State.{Pubkey, InvestorAlloc}
use solana_floor_program.Program.Allocations.{key_at, search_loop, binary_search}

-- Sorted by investor, with no investor twice.
abbrev pub IsStrict : List InvestorAlloc → Type 0
IsStrict [] = Unit
IsStrict (a ∷ ps) = All (λ b. a.investor < b.investor) ps × IsStrict ps

All-get_elem? :
    (n : ℕ) (ps : List InvestorAlloc) (i : ℕ) {b : InvestorAlloc}
    → All (λ c. n < c.investor) ps
    → get_elem? ps i ≡ some b
    → n < b.investor
All-get_elem? n [] i h e = cc
All-get_elem? n (a ∷ ps) zero h e = ground arith
All-get_elem? n (a ∷ ps) (suc i) h e = All-get_elem? n ps i h.1 e

IsStrict-lt :
    (ps : List InvestorAlloc) (i j : ℕ) {a b : InvestorAlloc}
    → IsStrict ps
    → get_elem? ps i ≡ some a
    → get_elem? ps j ≡ some b
    → i < j
    → a.investor < b.investor
IsStrict-lt [] i j h e f lt = cc
IsStrict-lt (c ∷ ps) i zero h e f lt = elim lt [ ]
IsStrict-lt (c ∷ ps) zero (suc j) {b = b} h e f lt =
    ground (arith, All-get_elem? c.investor ps j {b = b} h.0 f)
IsStrict-lt (c ∷ ps) (suc i) (suc j) h e f lt = IsStrict-lt ps i j h.1 e f (omega arith)

get_elem?-lt :
    (ps : List InvestorAlloc) (i : ℕ) {a : InvestorAlloc} → get_elem? ps i ≡ some a → i < length ps
get_elem?-lt [] i e = cc
get_elem?-lt (b ∷ ps) zero e = omega arith
get_elem?-lt (b ∷ ps) (suc i) e = omega (arith, get_elem?-lt ps i e)

get_elem?-total :
    (ps : List InvestorAlloc) (i : ℕ)
    → i < length ps
    → (a : InvestorAlloc) × (get_elem? ps i ≡ some a)
get_elem?-total [] i h = elim h [ ]
get_elem?-total (b ∷ ps) zero h = (b, refl)
get_elem?-total (b ∷ ps) (suc i) h = get_elem?-total ps i (omega arith)

module _ (ps : List InvestorAlloc) (strict : IsStrict ps) (k : ℕ) (a : InvestorAlloc)
    (here : get_elem? ps k ≡ some a) where
  -- A test at a position in range tells on which side of it the key is.
  right_of : (i : ℕ) → i < length ps → ltb a.investor (key_at ps i) ≡ true → k < i
  right_of i h e =
      let (b, f) = get_elem?-total ps i h in
      ground (arith, f, here, e, IsStrict-lt ps i k {a = b} {b = a} strict f here)

  left_of : (i : ℕ) → i < length ps → ltb a.investor (key_at ps i) ≡ false → i ≤ k
  left_of i h e =
      let (b, f) = get_elem?-total ps i h in
      ground (arith, f, here, e, IsStrict-lt ps k i {a = a} {b = b} strict here f)

  -- The range keeps the key in it, and the loop ends at it.
  search_loop_lem :
      (fuel base size : ℕ)
      → size ≤ suc fuel
      → base ≤ k
      → k < base + size
      → base + size ≤ length ps
      → search_loop fuel a.investor ps base size ≡ k
  unfolding search_loop
  search_loop_lem zero base size hf hb hk hl = omega arith
  search_loop_lem (suc fuel) base size hf hb hk hl = elim (Bool-cases (leb size 1)) [
    | inl e ↦ rw e (ground arith)
    | inr e ↦ rw e (elim (Bool-cases (ltb a.investor (key_at ps (base + size / 2)))) [
      | inl l ↦ rw l (
          search_loop_lem fuel base (size - size / 2) (ground arith) hb
            (ground (arith, right_of (base + size / 2))) (ground arith))
      | inr r ↦ rw r (
          search_loop_lem fuel (base + size / 2) (size - size / 2) (ground arith)
            (ground (arith, left_of (base + size / 2))) (ground arith) (ground arith))
    ])
  ]

  -- In a list that is strictly sorted, the search for the key of an entry finds its position.
  pub binary_search_finds : binary_search a.investor ps ≡ some k
  unfolding binary_search
  binary_search_finds =
      let lt = get_elem?-lt ps k here in
      let at =
        search_loop_lem (length ps) 0 (length ps) (omega arith) (omega arith) (omega arith)
          (omega arith) in
      rw at (ground (arith, lt, here))

-- What the search finds is an entry of that key, whether or not the list is sorted.
pub binary_search_sound :
    (key : Pubkey) (ps : List InvestorAlloc) {i : ℕ}
    → binary_search key ps ≡ some i
    → key_at ps i ≡ key
unfolding binary_search
binary_search_sound key ps h = ground arith
