-- ===== src/Program/FullClose/Sorted.antt =====
-- The list that is written out for the claims: sorted by investor, and with all of its entries kept.
use solana_floor_program.Base.{
  ◌+◌, ◌≤◌, ◌<◌, ◌≡◌, refl, inl, inr, List, [], ◌∷◌, arith, leb, All, Bool-cases,
}
use solana_floor_program.Program.State.{Pubkey, InvestorAlloc}
use solana_floor_program.Program.ForcedClose.Settled.{allocated}
use solana_floor_program.Program.FullClose.{retain_positive, insert_alloc, sort_allocs}

-- Sorted by investor, each before the rest.
abbrev pub IsSorted : List InvestorAlloc → Type 0
IsSorted [] = Unit
IsSorted (a ∷ ps) = All (λ b. a.investor ≤ b.investor) ps × IsSorted ps

pub retain_positive-All :
    (ps : List InvestorAlloc) → All (λ a. 0 < a.waln_amount) (retain_positive ps)
unfolding retain_positive
retain_positive-All [] = tt
retain_positive-All (a ∷ ps) = ground (arith, retain_positive-All ps)

pub allocated-retain_positive :
    (ps : List InvestorAlloc) → allocated (retain_positive ps) ≡ allocated ps
unfolding retain_positive
allocated-retain_positive [] = refl
allocated-retain_positive (a ∷ ps) = ground (arith, allocated-retain_positive ps)

pub insert_alloc-All :
    (P : InvestorAlloc → Type 0) (a : InvestorAlloc) (ps : List InvestorAlloc)
    → P a
    → All P ps
    → All P (insert_alloc a ps)
unfolding insert_alloc
insert_alloc-All P a [] h k = (h, tt)
insert_alloc-All P a (b ∷ ps) h k = elim (Bool-cases (leb a.investor b.investor)) [
  | inl e ↦ rw e (h, k)
  | inr e ↦ rw e (k.0, insert_alloc-All P a ps h k.1)
]

All-weaken :
    (m n : Pubkey) (ps : List InvestorAlloc)
    → m ≤ n
    → All (λ b. n ≤ b.investor) ps
    → All (λ b. m ≤ b.investor) ps
All-weaken m n [] h k = tt
All-weaken m n (b ∷ ps) h k = (omega arith, All-weaken m n ps h k.1)

insert_alloc-IsSorted :
    (a : InvestorAlloc) (ps : List InvestorAlloc) → IsSorted ps → IsSorted (insert_alloc a ps)
unfolding insert_alloc
insert_alloc-IsSorted a [] h = (tt, tt)
insert_alloc-IsSorted a (b ∷ ps) h = elim (Bool-cases (leb a.investor b.investor)) [
  | inl e ↦
      let le : a.investor ≤ b.investor = ground arith in
      rw e ((le, All-weaken a.investor b.investor ps le h.0), h)
  | inr e ↦ rw e (
    insert_alloc-All (λ c. b.investor ≤ c.investor) a ps (ground arith) h.0,
    insert_alloc-IsSorted a ps h.1,
  )
]

pub sort_allocs-IsSorted : (ps : List InvestorAlloc) → IsSorted (sort_allocs ps)
unfolding sort_allocs
sort_allocs-IsSorted [] = tt
sort_allocs-IsSorted (a ∷ ps) = insert_alloc-IsSorted a (sort_allocs ps) (sort_allocs-IsSorted ps)

pub sort_allocs-All :
    (P : InvestorAlloc → Type 0) (ps : List InvestorAlloc) → All P ps → All P (sort_allocs ps)
unfolding sort_allocs
sort_allocs-All P [] h = tt
sort_allocs-All P (a ∷ ps) h = insert_alloc-All P a (sort_allocs ps) h.0 (sort_allocs-All P ps h.1)

insert_alloc-sum :
    (a : InvestorAlloc) (ps : List InvestorAlloc)
    → allocated (insert_alloc a ps) ≡ a.waln_amount + allocated ps
unfolding insert_alloc
insert_alloc-sum a [] = refl
insert_alloc-sum a (b ∷ ps) = ground (arith, insert_alloc-sum a ps)

pub allocated-sort_allocs : (ps : List InvestorAlloc) → allocated (sort_allocs ps) ≡ allocated ps
unfolding sort_allocs
allocated-sort_allocs [] = refl
allocated-sort_allocs (a ∷ ps) =
    omega (arith, insert_alloc-sum a (sort_allocs ps), allocated-sort_allocs ps)
