-- ===== src/Program/FullClose/Totals.antt =====
-- The totals of a round that is filled: what is spent, bought and allocated.
use native.Mathlib.Nat.{div-mul-le_self, le_trans}
use solana_floor_program.Base.{
  ℕ, zero, suc, ◌+◌, ◌*◌, ◌/◌, ◌%◌, ◌≤◌, ◌<◌, ◌≡◌, refl, inl, inr, ◌&&◌, some, List, [], ◌∷◌, ◌++◌,
  arith, if◌then◌else◌, ltb, sum_by, sum_by-append, get_elem?, set, length, length-append,
  Pointwise, Option-cases,
}
use solana_floor_program.Base.Int.{ℤ}
use solana_floor_program.Program.Errors.{Ensures, Ensures-bind, Ensures-if}
use solana_floor_program.Program.Checked.{add_u64, add_u64_lem, to_u64}
use solana_floor_program.Program.State.{InvestorRecord, InvestorAlloc}
use solana_floor_program.Program.RoundStart.Locking.{lock}
use solana_floor_program.Program.ForcedClose.{is_locked}
use solana_floor_program.Program.ForcedClose.Shares.{
  full_waln, one_if_locked, mul_div_lem, zero_share,
}
use solana_floor_program.Program.ForcedClose.Settled.{allocated}
use solana_floor_program.Program.FullClose.{
  Closing, closing_start, base_waln, complete_record, complete_one, complete_all, timestamp_as_u64,
  credit_dust, participant_at, award_dust, settle_full,
}

base_waln_lem :
    (waln_scale floor_price locked : ℕ)
    → Ensures (λ n. n ≡ locked * waln_scale / floor_price) (base_waln waln_scale floor_price locked)
unfolding base_waln to_u64
base_waln_lem waln_scale floor_price locked =
    ground (arith, mul_div_lem locked waln_scale floor_price)

-- A lock is spent whole, for the wALN that it buys.
abbrev pub Completes : ℕ → ℕ → InvestorRecord → InvestorRecord → Type 0
Completes waln_scale floor_price r r' =
    (r'.investor ≡ r.investor)
    × (r'.aat_volume ≡ r.aat_volume)
    × (r'.usdc_unlock_ts ≡ r.usdc_unlock_ts)
    × (r'.usdc_deposited ≡ r.usdc_deposited)
    × (lock r' ≡ 0)
    × (r'.usdc_committed ≡ r.usdc_committed + lock r)
    × (r'.waln_purchased_total ≡ r.waln_purchased_total + full_waln waln_scale floor_price r)

abbrev CompletesAll : ℕ → ℕ → List InvestorRecord → Closing → List InvestorRecord × Closing → Type 0
CompletesAll waln_scale floor_price rs c p =
    Pointwise (Completes waln_scale floor_price) rs p.0
    × (p.1.total_usdc_spent ≡ c.total_usdc_spent + sum_by lock rs)
    × (p.1.total_waln_purchased
        ≡ c.total_waln_purchased + sum_by (full_waln waln_scale floor_price) rs)
    × (allocated p.1.participants
        ≡ allocated c.participants + sum_by (full_waln waln_scale floor_price) rs)
    × (p.1.participant_count ≡ c.participant_count + sum_by one_if_locked rs)
    × (length p.1.participants ≡ length c.participants + sum_by one_if_locked rs)

pub complete_record_lem :
    (r : InvestorRecord) (waln : ℕ)
    → Ensures
        (λ r'.
          (r'.investor ≡ r.investor)
          × (r'.aat_volume ≡ r.aat_volume)
          × (r'.usdc_unlock_ts ≡ r.usdc_unlock_ts)
          × (r'.usdc_deposited ≡ r.usdc_deposited)
          × (lock r' ≡ 0)
          × (r'.usdc_committed ≡ r.usdc_committed + lock r)
          × (r'.waln_purchased_total ≡ r.waln_purchased_total + waln))
        (complete_record r waln)
unfolding complete_record add_u64
complete_record_lem r waln = ground arith

push_lem :
    (ps : List InvestorAlloc) (a : InvestorAlloc)
    → (allocated (ps ++ (a ∷ [])) ≡ allocated ps + a.waln_amount)
      × (length (ps ++ (a ∷ [])) ≡ length ps + 1)
push_lem ps a = (
  omega (arith, sum_by-append (λ (b : InvestorAlloc). b.waln_amount) ps (a ∷ [])),
  omega (arith, length-append ps (a ∷ [])),
)

complete_one_lem :
    (scale price : ℕ) (r : InvestorRecord) (c : Closing)
    → Ensures
        (λ q. CompletesAll scale price (r ∷ []) c (q.0 ∷ [], q.1))
        (complete_one scale price r c)
unfolding complete_one
complete_one_lem scale price r c =
    let Q : InvestorRecord × Closing → Type 0 =
      λ q. CompletesAll scale price (r ∷ []) c (q.0 ∷ [], q.1) in
    Ensures-if Q (is_locked r) _ _
      (λ e.
        Ensures-bind _ Q (add_u64 c.participant_count 1) _ (add_u64_lem c.participant_count 1)
          λ n hn.
            Ensures-bind _ Q (add_u64 c.total_aat_volume r.aat_volume) _
              (add_u64_lem c.total_aat_volume r.aat_volume)
              λ v hv.
                Ensures-bind _ Q (base_waln scale price (lock r)) _
                  (base_waln_lem scale price (lock r))
                  λ w hw.
                    Ensures-bind _ Q (complete_record r w) _ (complete_record_lem r w) λ r' hr.
                      Ensures-bind _ Q (add_u64 c.total_usdc_spent (lock r)) _
                        (add_u64_lem c.total_usdc_spent (lock r))
                        λ s hs.
                          Ensures-bind _ Q (add_u64 c.total_waln_purchased w) _
                            (add_u64_lem c.total_waln_purchased w)
                            λ p hp. ground (
                              arith,
                              push_lem c.participants
                                  (record { investor = r.investor; waln_amount = w }),
                            ))
      (λ e. ground (arith, zero_share scale price))

complete_all_lem :
    (scale price : ℕ) (rs : List InvestorRecord) (c : Closing)
    → Ensures (CompletesAll scale price rs c) (complete_all scale price rs c)
unfolding complete_all
complete_all_lem scale price [] c =
    (tt, omega arith, omega arith, omega arith, omega arith, omega arith)
complete_all_lem scale price (r ∷ rs) c =
    Ensures-bind (λ q. CompletesAll scale price (r ∷ []) c (q.0 ∷ [], q.1))
      (CompletesAll scale price (r ∷ rs) c) (complete_one scale price r c) _
      (complete_one_lem scale price r c)
      λ first h.
        Ensures-bind (CompletesAll scale price rs first.1) (CompletesAll scale price (r ∷ rs) c)
          (complete_all scale price rs first.1) _ (complete_all_lem scale price rs first.1)
          λ rest k. ((h.0.0, k.0), omega arith, omega arith, omega arith, omega arith, omega arith)

-- The dust goes to one participant's allocation.
allocated-set :
    (ps : List InvestorAlloc) (i n dust : ℕ) {p : InvestorAlloc}
    → get_elem? ps i ≡ some p
    → n ≡ p.waln_amount + dust
    → allocated (set ps i (record p { waln_amount = n })) ≡ allocated ps + dust
allocated-set [] i n dust h e = cc
allocated-set (a ∷ ps) zero n dust {p} h e = ground arith
allocated-set (a ∷ ps) (suc i) n dust h e = omega (arith, allocated-set ps i n dust h e)

-- A list of records in which at most the bought totals have changed.
abbrev pub OnlyCredits : List InvestorRecord → List InvestorRecord → Type 0
OnlyCredits = Pointwise (λ r r'.
    (r'.investor ≡ r.investor)
    × (r'.aat_volume ≡ r.aat_volume)
    × (r'.usdc_unlock_ts ≡ r.usdc_unlock_ts)
    × (r'.usdc_deposited ≡ r.usdc_deposited)
    × (lock r' ≡ lock r)
    × (r'.usdc_committed ≡ r.usdc_committed)
    × (r.waln_purchased_total ≤ r'.waln_purchased_total))

OnlyCredits-refl : (rs : List InvestorRecord) → OnlyCredits rs rs
OnlyCredits-refl [] = tt
OnlyCredits-refl (r ∷ rs) = ((refl, refl, refl, refl, refl, refl, omega arith), OnlyCredits-refl rs)

credit_dust_lem :
    (winner dust : ℕ) (rs : List InvestorRecord)
    → Ensures (OnlyCredits rs) (credit_dust winner dust rs)
unfolding credit_dust add_u64
credit_dust_lem winner dust [] = tt
credit_dust_lem winner dust (r ∷ rs) =
    ground (arith, credit_dust_lem winner dust rs, OnlyCredits-refl rs)

-- What a full settlement does: every lock is spent whole, and the wALN that the locks buy, with the
-- carried dust where anyone takes part, is what the participants are allocated.
abbrev pub CompletesRound : ℕ → ℕ → ℕ → List InvestorRecord → List InvestorRecord × Closing → Type 0
CompletesRound waln_scale floor_price dust rs p =
    ((qs : List InvestorRecord) × Pointwise (Completes waln_scale floor_price) rs qs
      × OnlyCredits qs p.0)
    × (p.1.total_usdc_spent ≡ sum_by lock rs)
    × (p.1.total_waln_purchased
        ≡ sum_by (full_waln waln_scale floor_price) rs
          + (if ltb 0 (sum_by one_if_locked rs) then dust else 0))
    × (allocated p.1.participants ≡ p.1.total_waln_purchased)
    × (p.1.participant_count ≡ sum_by one_if_locked rs)

award_dust_lem :
    (scale price dust : ℕ) (now : ℤ) (rs : List InvestorRecord)
    (closed : List InvestorRecord × Closing)
    → CompletesAll scale price rs closing_start closed
    → Ensures (CompletesRound scale price dust rs) (award_dust dust now closed)
unfolding award_dust
award_dust_lem scale price dust now rs (qs, c) h =
    let Q = CompletesRound scale price dust rs in
    let i = timestamp_as_u64 now % c.participant_count in
    Ensures-if Q (ltb 0 dust && ltb 0 c.participant_count) _ _
      (λ e. elim (Option-cases (get_elem? c.participants i)) [
        | inl f ↦ rw (f, participant_at) tt
        | inr (p, f) ↦
            rw (f, participant_at)
              (Ensures-bind _ Q (add_u64 p.waln_amount dust) _ (add_u64_lem p.waln_amount dust)
                λ n hn.
                  Ensures-bind _ Q (add_u64 c.total_waln_purchased dust) _
                    (add_u64_lem c.total_waln_purchased dust)
                    λ w hw.
                      Ensures-bind (OnlyCredits qs) Q (credit_dust p.investor dust qs) _
                        (credit_dust_lem p.investor dust qs)
                        λ rs' hr. (
                          (qs, h.0, hr),
                          omega arith,
                          ground arith,
                          omega (arith, allocated-set c.participants i n dust f hn.0),
                          omega arith,
                        ))
      ])
      (λ e. ((qs, h.0, OnlyCredits-refl qs), omega arith, ground arith, omega arith, omega arith))

-- Records and totals of a full settlement.
pub settle_full-CompletesRound :
    (waln_scale floor_price dust_pool : ℕ) (now : ℤ) (rs : List InvestorRecord)
    → Ensures
        (CompletesRound waln_scale floor_price dust_pool rs)
        (settle_full waln_scale floor_price dust_pool now rs)
unfolding settle_full
settle_full-CompletesRound scale price dust now rs =
    Ensures-bind (CompletesAll scale price rs closing_start) (CompletesRound scale price dust rs)
      (complete_all scale price rs closing_start) _ (complete_all_lem scale price rs closing_start)
      (award_dust_lem scale price dust now rs)

-- Locks within a cap buy no more wALN than the cap was computed for.
full_waln_sum :
    (scale price : ℕ) (rs : List InvestorRecord)
    → 0 < price
    → sum_by (full_waln scale price) rs * price ≤ sum_by lock rs * scale
full_waln_sum scale price [] h = omega arith
full_waln_sum scale price (r ∷ rs) h =
    omega (arith, full_waln_sum scale price rs h, div-mul-le_self (lock r * scale) price)

-- Where the locks stay within the cap of a round, what they buy stays within its size: the
-- subtraction that leaves the new dust cannot fail.
pub full_waln-le-size :
    (size price scale : ℕ) (rs : List InvestorRecord)
    → 0 < price
    → 0 < scale
    → sum_by lock rs ≤ size * price / scale
    → sum_by (full_waln scale price) rs ≤ size
full_waln-le-size size price scale rs hp hs h = cancel _ _ price hp (
    le_trans (full_waln_sum scale price rs hp) (
      le_trans (mul-mono (sum_by lock rs) (size * price / scale) scale h)
        (div-mul-le_self (size * price) scale)))
  where
    cancel : (a b c : ℕ) → 0 < c → a * c ≤ b * c → a ≤ b
    cancel a b c p k = grind arith

    mul-mono : (a b c : ℕ) → a ≤ b → a * c ≤ b * c
    mul-mono a b c k = grind arith
