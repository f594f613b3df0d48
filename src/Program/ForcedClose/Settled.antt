-- ===== src/Program/ForcedClose/Settled.antt =====
-- What the settlement of a partly filled round does to the records and to the totals.
use solana_floor_program.Base.{
  ℕ, suc, ◌+◌, ◌*◌, ◌/◌, ◌≤◌, ◌<◌, ◌≡◌, refl, ◌⊎◌, inl, inr, Bool, true, false, List, [], ◌∷◌,
  arith, sum_by, sum_by-append, ◌==◌, Pointwise, Bool-cases,
}
use solana_floor_program.Program.Errors.{Ensures, Ensures-bind}
use solana_floor_program.Program.Checked.{add_u64, sub, to_u64}
use solana_floor_program.Program.State.{Pubkey, InvestorRecord, InvestorAlloc}
use solana_floor_program.Program.RoundStart.Locking.{lock}
use solana_floor_program.Program.ForcedClose.{
  is_locked, Terms, Settling, close_round_usdc_spent, waln_allocation, push_if_positive, Payout,
  payout, pay_out, count_payout, settle_one, settle_all,
}
use solana_floor_program.Program.ForcedClose.Shares.{
  one_if_locked, floor_share, base_spent_lem, mul_div_lem, zero_floor, floor_share-lt,
}

close_round_usdc_spent_lem :
    (paid locked total remainder : ℕ)
    → Ensures
        (λ p.
          (p.0 + p.1 ≡ paid * locked / total + remainder)
          × (0 < remainder → paid * locked / total < locked → suc p.1 ≡ remainder)
          × (remainder ≡ 0 → p.1 ≡ 0))
        (close_round_usdc_spent paid locked total remainder)
unfolding close_round_usdc_spent add_u64 sub
close_round_usdc_spent_lem paid locked total remainder =
    ground (arith, base_spent_lem paid locked total)

waln_allocation_lem :
    (t : Terms) (locked : ℕ) (is_last : Bool) (remaining : ℕ)
    → Ensures (λ n. is_last ≡ true → n ≡ remaining) (waln_allocation t locked is_last remaining)
unfolding waln_allocation to_u64
waln_allocation_lem t locked true remaining =
    ground (arith, mul_div_lem locked t.waln_scale t.floor_price)
waln_allocation_lem t locked false remaining =
    ground (arith, mul_div_lem locked t.waln_scale t.floor_price)

-- The allocation that a list of participants adds up to.
abbrev pub allocated : List InvestorAlloc → ℕ
allocated = sum_by (λ a. a.waln_amount)

push_if_positive_lem :
    (ps : List InvestorAlloc) (investor : Pubkey) (n : ℕ)
    → allocated (push_if_positive ps investor n) ≡ allocated ps + n
push_if_positive_lem ps investor n = ground (
  arith,
  sum_by-append (λ (a : InvestorAlloc). a.waln_amount) ps
      (record { investor = investor; waln_amount = n } ∷ []),
)

-- A lock is dissolved into spent and refunded USDC, and no USDC appears or vanishes.
abbrev pub Settles : InvestorRecord → InvestorRecord → Type 0
Settles r r' =
    (r'.investor ≡ r.investor)
    × (r'.aat_volume ≡ r.aat_volume)
    × (r'.usdc_unlock_ts ≡ r.usdc_unlock_ts)
    × (lock r' ≡ 0)
    × (r'.usdc_deposited + r'.usdc_committed ≡ r.usdc_deposited + r.usdc_committed + lock r)
    × (r.usdc_deposited ≤ r'.usdc_deposited)
    × (r.usdc_committed ≤ r'.usdc_committed)
    × (r.waln_purchased_total ≤ r'.waln_purchased_total)

-- What a payout adds up to.
abbrev PaysOut : Terms → ℕ → Settling → Payout → Type 0
PaysOut t locked s p =
    (p.waln_alloc + p.waln_left ≡ s.remaining_waln)
    × (s.processed_eligible + 1 ≡ t.totals.eligible_count → p.waln_left ≡ 0)
    × (p.usdc_spent + p.refund ≡ locked)
    × (p.usdc_spent + p.remainder_left
        ≡ t.usdc_paid * locked / t.totals.total_locked_usdc + s.remaining_usdc_remainder)
    × (0 < s.remaining_usdc_remainder
        → t.usdc_paid * locked / t.totals.total_locked_usdc < locked
        → suc p.remainder_left ≡ s.remaining_usdc_remainder)
    × (s.remaining_usdc_remainder ≡ 0 → p.remainder_left ≡ 0)

payout_lem :
    (t : Terms) (locked : ℕ) (s : Settling) → Ensures (PaysOut t locked s) (payout t locked s)
unfolding payout sub
payout_lem t locked s = ground (
  arith,
  waln_allocation_lem t locked (s.processed_eligible + 1 == t.totals.eligible_count)
      s.remaining_waln,
  close_round_usdc_spent_lem t.usdc_paid locked t.totals.total_locked_usdc
      s.remaining_usdc_remainder,
)

abbrev PaidOut : InvestorRecord → Payout → InvestorRecord → Type 0
PaidOut r p r' =
    (r'.investor ≡ r.investor)
    × (r'.aat_volume ≡ r.aat_volume)
    × (r'.usdc_unlock_ts ≡ r.usdc_unlock_ts)
    × (lock r' ≡ 0)
    × (r'.usdc_deposited ≡ r.usdc_deposited + p.refund)
    × (r'.usdc_committed ≡ r.usdc_committed + p.usdc_spent)
    × (r'.waln_purchased_total ≡ r.waln_purchased_total + p.waln_alloc)

pay_out_lem : (r : InvestorRecord) (p : Payout) → Ensures (PaidOut r p) (pay_out r p)
unfolding pay_out add_u64
pay_out_lem r p = ground arith

abbrev Counted : InvestorRecord → Payout → Settling → Settling → Type 0
Counted r p s s' =
    (s'.processed_eligible ≡ s.processed_eligible + 1)
    × (s'.remaining_waln ≡ p.waln_left)
    × (s'.remaining_usdc_remainder ≡ p.remainder_left)
    × (s'.total_usdc_spent ≡ s.total_usdc_spent + p.usdc_spent)
    × (s'.total_waln_purchased ≡ s.total_waln_purchased + p.waln_alloc)
    × (s'.total_aat_volume ≡ s.total_aat_volume + r.aat_volume)
    × (s'.participants ≡ push_if_positive s.participants r.investor p.waln_alloc)

count_payout_lem :
    (r : InvestorRecord) (p : Payout) (s : Settling) → Ensures (Counted r p s) (count_payout r p s)
unfolding count_payout add_u64
count_payout_lem r p s = ground arith

-- One record with a lock, and one without.
abbrev Step : Terms → InvestorRecord → Settling → InvestorRecord × Settling → Type 0
Step t r s q =
    ((lock r ≡ 0) × (q ≡ (r, s)))
    ⊎ ((0 < lock r) × ((p : Payout) × PaysOut t (lock r) s p × PaidOut r p q.0 × Counted r p s q.1))

settle_one_lem :
    (t : Terms) (r : InvestorRecord) (s : Settling) → Ensures (Step t r s) (settle_one t r s)
unfolding settle_one
settle_one_lem t r s = elim (Bool-cases (is_locked r)) [
  | inr e ↦ rw e (inl (ground arith, refl))
  | inl e ↦ rw e (
      Ensures-bind (PaysOut t (lock r) s) (Step t r s) (payout t (lock r) s) _
        (payout_lem t (lock r) s)
        λ p hp. Ensures-bind (PaidOut r p) (Step t r s) (pay_out r p) _ (pay_out_lem r p) λ r' hr.
          Ensures-bind (Counted r p s) (Step t r s) (count_payout r p s) _ (count_payout_lem r p s)
            λ s' hs. inr (ground arith, (p, hp, hr, hs)))
]

-- What holds of records and totals however many records have been settled.
abbrev pub SettlesAll :
    Terms → List InvestorRecord → Settling → List InvestorRecord × Settling → Type 0
SettlesAll t rs s p =
    Pointwise Settles rs p.0
    × (sum_by (λ r. r.usdc_deposited) p.0 + p.1.total_usdc_spent
        ≡ s.total_usdc_spent + sum_by (λ r. r.usdc_deposited) rs + sum_by lock rs)
    × (p.1.total_waln_purchased + p.1.remaining_waln ≡ s.total_waln_purchased + s.remaining_waln)
    × (sum_by (λ r. r.waln_purchased_total) p.0 + s.total_waln_purchased
        ≡ sum_by (λ r. r.waln_purchased_total) rs + p.1.total_waln_purchased)
    × (allocated p.1.participants + s.total_waln_purchased
        ≡ allocated s.participants + p.1.total_waln_purchased)
    × (p.1.total_usdc_spent + p.1.remaining_usdc_remainder
        ≡ s.total_usdc_spent
          + s.remaining_usdc_remainder
          + sum_by (floor_share t.usdc_paid t.totals.total_locked_usdc) rs)
    × (s.remaining_usdc_remainder ≤ sum_by one_if_locked rs
        → (0 < s.remaining_usdc_remainder → t.usdc_paid < t.totals.total_locked_usdc)
        → p.1.remaining_usdc_remainder ≡ 0)
    × (sum_by one_if_locked rs ≡ 0 → p.1.remaining_waln ≡ s.remaining_waln)
    × (s.processed_eligible + sum_by one_if_locked rs ≡ t.totals.eligible_count
        → 0 < sum_by one_if_locked rs
        → p.1.remaining_waln ≡ 0)

-- A first record and the rest.
SettlesAll-cons :
    (t : Terms) (r : InvestorRecord) (rs : List InvestorRecord) (s : Settling)
    (first : InvestorRecord × Settling) (rest : List InvestorRecord × Settling)
    → Step t r s first
    → SettlesAll t rs first.1 rest
    → SettlesAll t (r ∷ rs) s (first.0 ∷ rest.0, rest.1)
SettlesAll-cons t r rs s (r', s') rest (inl (idle, same)) h =
    ground (arith, zero_floor t.usdc_paid t.totals.total_locked_usdc)
SettlesAll-cons t r rs s (r', s') rest (inr (locked, (p, hp, hr, hs))) h = ground (
  arith,
  push_if_positive_lem s.participants r.investor p.waln_alloc,
  floor_share-lt t.usdc_paid (lock r) t.totals.total_locked_usdc,
)

pub settle_all-SettlesAll :
    (t : Terms) (rs : List InvestorRecord) (s : Settling)
    → Ensures (SettlesAll t rs s) (settle_all t rs s)
unfolding settle_all
settle_all-SettlesAll t [] s = (
  tt,
  omega arith,
  omega arith,
  omega arith,
  refl,
  omega arith,
  λ h k. omega arith,
  λ h. refl,
  λ h k. omega arith,
)
settle_all-SettlesAll t (r ∷ rs) s =
    Ensures-bind (Step t r s) (SettlesAll t (r ∷ rs) s) (settle_one t r s) _ (settle_one_lem t r s)
      λ first h.
        Ensures-bind (SettlesAll t rs first.1) (SettlesAll t (r ∷ rs) s) (settle_all t rs first.1) _
          (settle_all-SettlesAll t rs first.1) λ rest k. SettlesAll-cons t r rs s first rest h k
