-- ===== src/Program/Allocations/Settled.antt =====
-- The participants of a forced close, and the accounts of allocations across instructions.
use solana_floor_program.Base.{
  ℕ, ◌-◌, ◌<◌, ◌≡◌, inl, inr, Bool, List, [], ◌∷◌, ◌++◌, Option, none, some, arith, ltb, leb, ◌==◌,
  get_elem?, All, Bool-cases, Option-cases,
}
use solana_floor_program.Base.Int.{ℤ, leb_ℤ}
use solana_floor_program.Program.Errors.{
  ok_or, Ensures, Ensures-bind, Ensures-skip, Ensures-if, Ensures-require, invalid_investor,
}
use solana_floor_program.Program.Checked.{add_u64, sub}
use solana_floor_program.Program.State.{Pubkey, InvestorRecord, InvestorAlloc, RoundLockedWaln}
use solana_floor_program.Program.Accounts.{update}
use solana_floor_program.Program.Pool.Distinct.{keys, NoRepeat, NoRepeat-left}
use solana_floor_program.Program.ForcedClose.{
  is_locked, Terms, Settling, Payout, payout, pay_out, count_payout, push_if_positive, settle_one,
  settle_all, settle_partial, settling_start, tally_all, base_spent_all,
}
use solana_floor_program.Program.FullClose.{sort_allocs}
use solana_floor_program.Program.FullClose.Sorted.{sort_allocs-All}
use solana_floor_program.Program.Allocations.{binary_search, alloc_at, take_allocation}
use solana_floor_program.Program.Allocations.Claims.{IsClaimable, claimed_lem}
use solana_floor_program.Program.Allocations.Written.{
  alloc_keys, IsOpen, Apart, Apart-push, Apart-skip, IsWritable, sort_allocs-IsStrict,
}

-- What one more participant does to the list of those that get something.
abbrev Grows : List InvestorAlloc → Pubkey → List InvestorAlloc → Type 0
Grows ps key ps' = Apart ps key ps' × (All IsOpen ps → All IsOpen ps')

All-snoc :
    (ps : List InvestorAlloc) (a : InvestorAlloc)
    → IsOpen a
    → All IsOpen ps
    → All IsOpen (ps ++ (a ∷ []))
All-snoc [] a h k = (h, tt)
All-snoc (p ∷ ps) a h k = (k.0, All-snoc ps a h k.1)

push_if_positive-Grows :
    (ps : List InvestorAlloc) (key : Pubkey) (n : ℕ) → Grows ps key (push_if_positive ps key n)
push_if_positive-Grows ps key n = elim (Bool-cases (ltb 0 n)) [
  | inl e ↦
      let pos : 0 < n = ground arith in
      let a : InvestorAlloc = record { investor = key; waln_amount = n } in
      rw e (Apart-push ps a, λ k. All-snoc ps a pos k)
  | inr e ↦ rw e (Apart-skip ps key, λ k. k)
]

settle_one-Grows :
    (t : Terms) (r : InvestorRecord) (s : Settling)
    → Ensures (λ q. Grows s.participants r.investor q.1.participants) (settle_one t r s)
unfolding settle_one count_payout
settle_one-Grows t r s =
    let Q : InvestorRecord × Settling → Type 0 =
      λ q. Grows s.participants r.investor q.1.participants in
    Ensures-if Q (is_locked r) _ _
      (λ e. Ensures-skip Q (payout t r.usdc_locked_current_round s) _ λ p.
        Ensures-skip Q (pay_out r p) _ λ r'.
          Ensures-bind (λ s'. Grows s.participants r.investor s'.participants) Q
            (count_payout r p s) _ (counted p) λ s' g. g)
      (λ e. (Apart-skip s.participants r.investor, λ k. k))
  where
    counted :
        (p : Payout)
        → Ensures (λ s'. Grows s.participants r.investor s'.participants) (count_payout r p s)
    counted p =
        let P : Settling → Type 0 = λ s'. Grows s.participants r.investor s'.participants in
        Ensures-skip P (add_u64 s.total_usdc_spent p.usdc_spent) _ λ a.
          Ensures-skip P (add_u64 s.total_waln_purchased p.waln_alloc) _ λ b.
            Ensures-skip P (add_u64 s.total_aat_volume r.aat_volume) _
              λ c. push_if_positive-Grows s.participants r.investor p.waln_alloc

abbrev Listed : List InvestorRecord × Settling → Type 0
Listed p = NoRepeat (alloc_keys p.1.participants) × All IsOpen p.1.participants

settle_all-Listed :
    (t : Terms) (rs : List InvestorRecord) (s : Settling)
    → NoRepeat (alloc_keys s.participants ++ keys rs)
    → All IsOpen s.participants
    → Ensures Listed (settle_all t rs s)
unfolding settle_all
settle_all-Listed t [] s h k = (NoRepeat-left (alloc_keys s.participants) [] h, k)
settle_all-Listed t (r ∷ rs) s h k =
    Ensures-bind (λ q. Grows s.participants r.investor q.1.participants) Listed (settle_one t r s) _
      (settle_one-Grows t r s)
      λ first g.
        Ensures-bind Listed Listed (settle_all t rs first.1) _
          (settle_all-Listed t rs first.1 (g.0 (keys rs) h) (g.1 k)) λ rest l. l

-- The list of a forced close, sorted, can be written out.
pub settle_partial-IsWritable :
    (scale price waln paid : ℕ) (rs : List InvestorRecord)
    → NoRepeat (keys rs)
    → Ensures
        (λ p. IsWritable (sort_allocs p.1.participants))
        (settle_partial scale price waln paid rs)
unfolding settle_partial
settle_partial-IsWritable scale price waln paid rs h =
    let Q : List InvestorRecord × Settling → Type 0 =
      λ p. IsWritable (sort_allocs p.1.participants) in
    Ensures-skip Q
      (tally_all scale price rs
        (record { total_full_waln = 0; total_locked_usdc = 0; eligible_count = 0 }))
      _
      λ totals. Ensures-require Q (ltb 0 totals.total_full_waln) _ _ λ _.
        Ensures-require Q (ltb 0 paid) _ _ λ _.
          Ensures-require Q (leb paid totals.total_locked_usdc) _ _ λ _.
            Ensures-skip Q (base_spent_all paid totals.total_locked_usdc rs 0) _ λ base.
              Ensures-skip Q (sub paid base) _ λ remainder.
                let t : Terms = record {
                  waln_scale = scale;
                  floor_price = price;
                  waln_available = waln;
                  usdc_paid = paid;
                  totals = totals;
                } in
                Ensures-bind Listed Q (settle_all t rs (settling_start waln remainder)) _
                  (settle_all-Listed t rs (settling_start waln remainder) h tt)
                  λ p l. Ensures-require Q (p.1.remaining_usdc_remainder == 0) _ _ λ _.
                    Ensures-require Q (p.1.total_usdc_spent == paid) _ _ λ _. (
                      sort_allocs-IsStrict p.1.participants l.0,
                      sort_allocs-All IsOpen p.1.participants l.1,
                    )

-- An account that is there is claimable.
abbrev pub IsGood : Option RoundLockedWaln → Type 0
IsGood none = Unit
IsGood (some rlw) = IsClaimable rlw

abbrev pub AllGood : (Pubkey → Option RoundLockedWaln) → Type 0
AllGood m = (k : Pubkey) → IsGood (m k)

pub update-AllGood :
    (m : Pubkey → Option RoundLockedWaln) (k : Pubkey) (v : Option RoundLockedWaln)
    → IsGood v
    → AllGood m
    → AllGood (update m k v)
update-AllGood m k v g all j = elim (Bool-cases (j == k)) [ inl e ↦ rw e g | inr e ↦ rw e (all j) ]

sub_one : (n : ℕ) → Ensures (λ m. m ≡ n - 1) (sub n 1)
unfolding sub
sub_one n = ground arith

-- A claim leaves the account claimable.
pub take_allocation-IsClaimable :
    (now : ℤ) (investor : Pubkey) (rlw : RoundLockedWaln)
    → IsClaimable rlw
    → Ensures (λ t. IsClaimable t.1) (take_allocation now investor rlw)
unfolding take_allocation
take_allocation-IsClaimable now investor rlw good =
    let Q : ℕ × RoundLockedWaln × Bool → Type 0 = λ t. IsClaimable t.1 in
    Ensures-require Q (leb_ℤ rlw.unlock now) _ _ λ _.
      Ensures-skip Q (ok_or (binary_search investor rlw.investors) invalid_investor) _ λ i.
        elim (Option-cases (get_elem? rlw.investors i)) [
          | inl n ↦ rw (n, alloc_at) tt
          | inr (a, e) ↦
              rw (e, alloc_at)
                (Ensures-require Q (ltb 0 a.waln_amount) _ _ λ open_.
                  Ensures-bind (λ n. n ≡ rlw.remaining_to_claim - 1) Q
                    (sub rlw.remaining_to_claim 1) _ (sub_one rlw.remaining_to_claim)
                    λ n same. rw same (claimed_lem rlw i a good e (ground arith)).0)
        ]
