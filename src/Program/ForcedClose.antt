-- ===== src/Program/ForcedClose.antt =====
-- instructions/close_round.rs: how `close_round` settles a partly filled round over the pool.
-- The two passes that count, and the pass that pays out, are loops over the records.
pub mod Shares
pub mod Settled
pub mod Exact
use solana_floor_program.Base.{
  ℕ, ◌+◌, Bool, true, false, ◌&&◌, List, [], ◌∷◌, ◌++◌, ltb, leb, ◌==◌, if◌then◌else◌,
}
use solana_floor_program.Program.Errors.{
  Result, ok, err, ◌>>=◌, ◌>>◌, require, no_eligible_investors, invalid_parameter,
  arithmetic_overflow,
}
use solana_floor_program.Program.Checked.{add_u64, add_u128, sub, mul_u128, div, to_u64}
use solana_floor_program.Program.State.{Pubkey, InvestorRecord, InvestorAlloc}

-- `a * b / c`, in 128 bits.
unfoldable pub mul_div : ℕ → ℕ → ℕ → Result ℕ
mul_div a b c = do product ← mul_u128 a b; div product c

-- `is_locked`: the records that the loops do not `continue` past.
abbrev pub is_locked : InvestorRecord → Bool
is_locked r = ltb 0 r.usdc_locked_current_round

-- What the first pass counts.
pub record Tally : Type 0 where
  pub total_full_waln : ℕ
  pub total_locked_usdc : ℕ
  pub eligible_count : ℕ

unfoldable pub tally_one : ℕ → ℕ → InvestorRecord → Tally → Result Tally
tally_one waln_scale floor_price r t =
    if is_locked r
    then (do
      full_waln ← mul_div r.usdc_locked_current_round waln_scale floor_price
      total_full ← add_u128 t.total_full_waln full_waln
      total_locked ← add_u128 t.total_locked_usdc r.usdc_locked_current_round
      ok (record {
        total_full_waln = total_full;
        total_locked_usdc = total_locked;
        eligible_count = t.eligible_count + 1;
      }))
    else ok t

unfoldable pub tally_all : ℕ → ℕ → List InvestorRecord → Tally → Result Tally
tally_all waln_scale floor_price [] t = ok t
tally_all waln_scale floor_price (r ∷ rs) t = do
  t' ← tally_one waln_scale floor_price r t
  tally_all waln_scale floor_price rs t'

-- The USDC that a record spends before the remainder is handed out.
unfoldable pub base_spent : ℕ → ℕ → ℕ → Result ℕ
base_spent paid locked total_locked = do q ← mul_div paid locked total_locked; to_u64 q

-- The second pass: the sum of those amounts.
unfoldable pub base_spent_all : ℕ → ℕ → List InvestorRecord → ℕ → Result ℕ
base_spent_all paid total_locked [] total = ok total
base_spent_all paid total_locked (r ∷ rs) total = do
  total' ←
      if is_locked r
      then (do base ← base_spent paid r.usdc_locked_current_round total_locked; add_u64 total base)
      else ok total
  base_spent_all paid total_locked rs total'

-- The amount that a record spends, and the remainder that is still to hand out.
unfoldable pub close_round_usdc_spent : ℕ → ℕ → ℕ → ℕ → Result (ℕ × ℕ)
close_round_usdc_spent paid locked total_locked remainder = do
  spent ← base_spent paid locked total_locked
  if ltb 0 remainder && ltb spent locked
      then (do spent' ← add_u64 spent 1; remainder' ← sub remainder 1; ok (spent', remainder'))
      else ok (spent, remainder)

-- What the third pass reads.
pub record Terms : Type 0 where
  pub waln_scale : ℕ
  pub floor_price : ℕ
  pub waln_available : ℕ
  pub usdc_paid : ℕ
  pub totals : Tally

-- What the third pass carries along.
pub record Settling : Type 0 where
  pub processed_eligible : ℕ
  pub remaining_waln : ℕ
  pub remaining_usdc_remainder : ℕ
  pub total_usdc_spent : ℕ
  pub total_waln_purchased : ℕ
  pub total_aat_volume : ℕ
  pub participants : List InvestorAlloc

-- The last record that takes part gets all wALN that is left, the others their pro-rata part.
unfoldable pub waln_allocation : Terms → ℕ → Bool → ℕ → Result ℕ
waln_allocation t locked is_last remaining = do
  full_waln ← mul_div locked t.waln_scale t.floor_price
  if is_last
      then to_u64 remaining
      else (do part ← mul_div t.waln_available full_waln t.totals.total_full_waln; to_u64 part)

abbrev pub push_if_positive : List InvestorAlloc → Pubkey → ℕ → List InvestorAlloc
push_if_positive ps investor n =
    if ltb 0 n then ps ++ (record { investor = investor; waln_amount = n } ∷ []) else ps

-- What one record gets, and what that leaves for the next.
pub record Payout : Type 0 where
  pub waln_alloc : ℕ
  pub waln_left : ℕ
  pub usdc_spent : ℕ
  pub remainder_left : ℕ
  pub refund : ℕ

unfoldable pub payout : Terms → ℕ → Settling → Result Payout
payout t locked s = do
  waln_alloc ←
      waln_allocation t locked (s.processed_eligible + 1 == t.totals.eligible_count)
        s.remaining_waln
  waln_left ← sub s.remaining_waln waln_alloc
  spent ←
      close_round_usdc_spent t.usdc_paid locked t.totals.total_locked_usdc
        s.remaining_usdc_remainder
  refund ← sub locked spent.0
  ok (record {
    waln_alloc = waln_alloc;
    waln_left = waln_left;
    usdc_spent = spent.0;
    remainder_left = spent.1;
    refund = refund;
  })

-- The record after its payout.
unfoldable pub pay_out : InvestorRecord → Payout → Result InvestorRecord
pay_out r p = do
  deposited ← add_u64 r.usdc_deposited p.refund
  committed ← add_u64 r.usdc_committed p.usdc_spent
  purchased ← add_u64 r.waln_purchased_total p.waln_alloc
  ok (record r {
    usdc_locked_current_round = 0;
    usdc_deposited = deposited;
    usdc_committed = committed;
    waln_purchased_total = purchased;
  })

-- The totals after a record's payout.
unfoldable pub count_payout : InvestorRecord → Payout → Settling → Result Settling
count_payout r p s = do
  total_spent ← add_u64 s.total_usdc_spent p.usdc_spent
  total_purchased ← add_u64 s.total_waln_purchased p.waln_alloc
  total_volume ← add_u64 s.total_aat_volume r.aat_volume
  ok (record {
    processed_eligible = s.processed_eligible + 1;
    remaining_waln = p.waln_left;
    remaining_usdc_remainder = p.remainder_left;
    total_usdc_spent = total_spent;
    total_waln_purchased = total_purchased;
    total_aat_volume = total_volume;
    participants = push_if_positive s.participants r.investor p.waln_alloc;
  })

unfoldable pub settle_one : Terms → InvestorRecord → Settling → Result (InvestorRecord × Settling)
settle_one t r s =
    if is_locked r
    then (do
      p ← payout t r.usdc_locked_current_round s
      r' ← pay_out r p
      s' ← count_payout r p s
      ok (r', s'))
    else ok (r, s)

unfoldable pub settle_all :
    Terms → List InvestorRecord → Settling → Result (List InvestorRecord × Settling)
settle_all t [] s = ok ([], s)
settle_all t (r ∷ rs) s = do
  first ← settle_one t r s
  rest ← settle_all t rs first.1
  ok (first.0 ∷ rest.0, rest.1)

abbrev pub settling_start : ℕ → ℕ → Settling
settling_start waln remainder = record {
  processed_eligible = 0;
  remaining_waln = waln;
  remaining_usdc_remainder = remainder;
  total_usdc_spent = 0;
  total_waln_purchased = 0;
  total_aat_volume = 0;
  participants = [];
}

-- The settlement of the pool, guards included: the records and the totals.
unfoldable pub settle_partial :
    ℕ → ℕ → ℕ → ℕ → List InvestorRecord → Result (List InvestorRecord × Settling)
settle_partial waln_scale floor_price waln_in_round paid rs = do
  totals ←
      tally_all waln_scale floor_price rs
        (record { total_full_waln = 0; total_locked_usdc = 0; eligible_count = 0 })
  require (ltb 0 totals.total_full_waln) no_eligible_investors
  require (ltb 0 paid) invalid_parameter
  require (leb paid totals.total_locked_usdc) arithmetic_overflow
  base ← base_spent_all paid totals.total_locked_usdc rs 0
  remainder ← sub paid base
  settled ←
      settle_all
        (record {
          waln_scale = waln_scale;
          floor_price = floor_price;
          waln_available = waln_in_round;
          usdc_paid = paid;
          totals = totals;
        })
        rs (settling_start waln_in_round remainder)
  require (settled.1.remaining_usdc_remainder == 0) arithmetic_overflow
  require (settled.1.total_usdc_spent == paid) arithmetic_overflow
  ok settled
