-- ===== src/Program/ForcedClose/Exact.antt =====
-- A forced close settles exactly: all that was paid is spent, and all wALN that was sold is
-- allocated.
use solana_floor_program.Base.{
  ℕ, ◌+◌, ◌≤◌, ◌<◌, ◌≡◌, refl, inl, inr, List, [], ◌∷◌, arith, sum_by, ltb, leb, ◌==◌, Pointwise,
  Bool-cases,
}
use solana_floor_program.Program.Errors.{Ensures, Ensures-bind, Ensures-require}
use solana_floor_program.Program.Checked.{sub, sub_lem}
use solana_floor_program.Program.State.{InvestorRecord}
use solana_floor_program.Program.RoundStart.Locking.{lock}
use solana_floor_program.Program.ForcedClose.{
  Tally, Terms, Settling, tally_all, base_spent_all, settle_all, settling_start, settle_partial,
}
use solana_floor_program.Program.ForcedClose.Shares.{
  full_waln, one_if_locked, floor_share, zero_share, Tallies, tally_all_lem, base_spent_all_lem,
  remainder_bound, floor_share_all,
}
use solana_floor_program.Program.ForcedClose.Settled.{
  Settles, allocated, SettlesAll, settle_all-SettlesAll,
}

-- Where no record has a lock, the locks buy nothing.
no_locks :
    (waln_scale floor_price : ℕ) (rs : List InvestorRecord)
    → sum_by one_if_locked rs ≡ 0
    → sum_by (full_waln waln_scale floor_price) rs ≡ 0
no_locks waln_scale floor_price [] h = refl
no_locks waln_scale floor_price (r ∷ rs) h =
    ground (arith, no_locks waln_scale floor_price rs, zero_share waln_scale floor_price)

-- Where all is paid, the shares are the locks.
floor_shares_all :
    (total : ℕ) (rs : List InvestorRecord)
    → 0 < total
    → sum_by (floor_share total total) rs ≡ sum_by lock rs
floor_shares_all total [] h = refl
floor_shares_all total (r ∷ rs) h =
    omega (arith, floor_share_all (lock r) total h, floor_shares_all total rs h)

-- A remainder is left only where less is paid than is locked.
remainder_lt :
    (paid remainder total : ℕ) (rs : List InvestorRecord)
    → total ≡ sum_by lock rs
    → 0 < paid
    → paid ≤ total
    → remainder + sum_by (floor_share paid total) rs ≡ paid
    → 0 < remainder
    → paid < total
remainder_lt paid remainder total rs t pos le e h = elim (Bool-cases (ltb paid total)) [
  | inl lt ↦ ground arith
  | inr ge ↦
      let same : paid ≡ total = ground arith in
      let all = floor_shares_all total rs (omega arith) in absurd (omega (arith, rw same at e))
]

-- All that was paid is spent and the rest refunded, and all wALN in the round is allocated.
abbrev pub SettledExactly : ℕ → ℕ → List InvestorRecord → List InvestorRecord × Settling → Type 0
SettledExactly waln paid rs p =
    Pointwise Settles rs p.0
    × (sum_by (λ r. r.usdc_deposited) p.0 + paid
        ≡ sum_by (λ r. r.usdc_deposited) rs + sum_by lock rs)
    × (p.1.total_usdc_spent ≡ paid)
    × (p.1.total_waln_purchased ≡ waln)
    × (allocated p.1.participants ≡ waln)
    × (sum_by (λ r. r.waln_purchased_total) p.0 ≡ sum_by (λ r. r.waln_purchased_total) rs + waln)

abbrev start_tally : Tally
start_tally = record { total_full_waln = 0; total_locked_usdc = 0; eligible_count = 0 }

module _ (waln_scale floor_price waln_in_round paid : ℕ) (rs : List InvestorRecord) where
  -- The terms that the third pass runs under.
  abbrev terms : Tally → Terms
  terms totals = record {
    waln_scale = waln_scale;
    floor_price = floor_price;
    waln_available = waln_in_round;
    usdc_paid = paid;
    totals = totals;
  }

  -- The totals of the third pass, once the first has counted and the second has left a remainder.
  settled_totals :
      (totals : Tally) (remainder : ℕ)
      → Tallies waln_scale floor_price rs start_tally totals
      → 0 < totals.total_full_waln
      → 0 < paid
      → paid ≤ totals.total_locked_usdc
      → remainder + sum_by (floor_share paid totals.total_locked_usdc) rs ≡ paid
      → (p : List InvestorRecord × Settling)
      → SettlesAll (terms totals) rs (settling_start waln_in_round remainder) p
      → (p.1.remaining_usdc_remainder ≡ 0) × SettledExactly waln_in_round paid rs p
  settled_totals totals remainder tallied some_waln pos le e p h =
      let locks : totals.total_locked_usdc ≡ sum_by lock rs = omega arith in
      let some_lock : 0 < sum_by lock rs = omega arith in
      let bound = remainder_bound paid rs some_lock in
      let small : remainder ≤ sum_by one_if_locked rs = omega (arith, rw locks at e, bound.1) in
      let zero =
        h.6 small (remainder_lt paid remainder totals.total_locked_usdc rs locks pos le e) in
      let some_one : 0 < sum_by one_if_locked rs =
        ground (arith, no_locks waln_scale floor_price rs) in
      let left = h.8 (omega arith) some_one in
      (zero, (h.0, omega arith, omega arith, omega arith, omega arith, omega arith))

-- A forced close that goes through settles exactly: every record keeps what it has, its lock split
-- into USDC spent and refunded; together the records spend what the round has paid to sellers, the
-- rest of the locks being refunded; and the allocations to the participants add up to all wALN that
-- the round has bought, so that no dust is left.
pub settle_partial-SettledExactly :
    (waln_scale floor_price waln_in_round paid : ℕ) (rs : List InvestorRecord)
    → Ensures
        (SettledExactly waln_in_round paid rs)
        (settle_partial waln_scale floor_price waln_in_round paid rs)
unfolding settle_partial
settle_partial-SettledExactly scale price waln paid rs =
    let Q = SettledExactly waln paid rs in
    Ensures-bind (Tallies scale price rs start_tally) Q (tally_all scale price rs start_tally) _
      (tally_all_lem scale price rs start_tally)
      λ totals tallied. Ensures-require Q (ltb 0 totals.total_full_waln) _ _ λ some_waln.
        Ensures-require Q (ltb 0 paid) _ _ λ pos.
          Ensures-require Q (leb paid totals.total_locked_usdc) _ _ λ le.
            Ensures-bind _ Q (base_spent_all paid totals.total_locked_usdc rs 0) _
              (base_spent_all_lem paid totals.total_locked_usdc rs 0)
              λ base b. Ensures-bind _ Q (sub paid base) _ (sub_lem paid base) λ remainder r.
                Ensures-bind
                  (SettlesAll (terms scale price waln paid rs totals) rs
                    (settling_start waln remainder))
                  Q
                  (settle_all (terms scale price waln paid rs totals) rs
                    (settling_start waln remainder))
                  _
                  (settle_all-SettlesAll (terms scale price waln paid rs totals) rs
                    (settling_start waln remainder))
                  λ p h. Ensures-require Q (p.1.remaining_usdc_remainder == 0) _ _ λ g.
                    Ensures-require Q (p.1.total_usdc_spent == paid) _ _ λ k.
                      (settled_totals scale price waln paid rs totals remainder tallied
                        (ground arith) (ground arith) (ground arith) (omega arith) p h).1
