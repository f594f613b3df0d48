-- ===== src/Program/ForcedClose/Shares.antt =====
-- The pro-rata amounts: what the loops that count add up to, and the bounds on the shares.
use native.Mathlib.Nat.{div-mul-le_self, lt-div-mul-add, mul-div_cancel_left, zero-div}
use solana_floor_program.Base.{
  ℕ, ◌+◌, ◌*◌, ◌/◌, ◌≤◌, ◌<◌, ◌≡◌, List, [], ◌∷◌, arith, if◌then◌else◌, sum_by,
}
use solana_floor_program.Program.Errors.{Ensures, Ensures-bind, Ensures-weaken}
use solana_floor_program.Program.Checked.{add_u64, add_u128, mul_u128, div, to_u64}
use solana_floor_program.Program.State.{InvestorRecord}
use solana_floor_program.Program.RoundStart.Locking.{lock}
use solana_floor_program.Program.ForcedClose.{
  mul_div, is_locked, Tally, tally_one, tally_all, base_spent, base_spent_all,
}

-- What a lock would buy in full, and what it pays before the remainder.
abbrev pub full_waln : ℕ → ℕ → InvestorRecord → ℕ
full_waln waln_scale floor_price r = lock r * waln_scale / floor_price

abbrev pub floor_share : ℕ → ℕ → InvestorRecord → ℕ
floor_share paid total r = paid * lock r / total

abbrev pub one_if_locked : InvestorRecord → ℕ
one_if_locked r = if is_locked r then 1 else 0

pub mul_div_lem : (a b c : ℕ) → Ensures (λ n. (n ≡ a * b / c) × (0 < c)) (mul_div a b c)
unfolding mul_div mul_u128 div
mul_div_lem a b c = ground arith

pub base_spent_lem :
    (paid locked total : ℕ)
    → Ensures (λ n. (n ≡ paid * locked / total) × (0 < total)) (base_spent paid locked total)
unfolding base_spent to_u64
base_spent_lem paid locked total = ground (arith, mul_div_lem paid locked total)

-- The first pass counts what the locks would buy, the locks, and the records with one.
abbrev pub Tallies : ℕ → ℕ → List InvestorRecord → Tally → Tally → Type 0
Tallies waln_scale floor_price rs t t' =
    (t'.total_full_waln ≡ t.total_full_waln + sum_by (full_waln waln_scale floor_price) rs)
    × (t'.total_locked_usdc ≡ t.total_locked_usdc + sum_by lock rs)
    × (t'.eligible_count ≡ t.eligible_count + sum_by one_if_locked rs)

pub zero_share : (a b : ℕ) → 0 * a / b ≡ 0
zero_share a b = grind (arith, zero-div b)

tally_one_lem :
    (waln_scale floor_price : ℕ) (r : InvestorRecord) (t : Tally)
    → Ensures (Tallies waln_scale floor_price (r ∷ []) t) (tally_one waln_scale floor_price r t)
unfolding tally_one add_u128
tally_one_lem waln_scale floor_price r t =
    ground (arith, mul_div_lem (lock r) waln_scale floor_price, zero_share waln_scale floor_price)

pub tally_all_lem :
    (waln_scale floor_price : ℕ) (rs : List InvestorRecord) (t : Tally)
    → Ensures (Tallies waln_scale floor_price rs t) (tally_all waln_scale floor_price rs t)
unfolding tally_all
tally_all_lem waln_scale floor_price [] t = omega arith
tally_all_lem waln_scale floor_price (r ∷ rs) t =
    Ensures-bind _ _ (tally_one waln_scale floor_price r t) _
      (tally_one_lem waln_scale floor_price r t)
      λ t' h.
        Ensures-weaken (Tallies waln_scale floor_price rs t')
          (Tallies waln_scale floor_price (r ∷ rs) t) _ (tally_all_lem waln_scale floor_price rs t')
          λ t'' k. omega arith

pub zero_floor : (a b : ℕ) → a * 0 / b ≡ 0
zero_floor a b = grind (arith, zero-div b)

pub base_spent_all_lem :
    (paid total : ℕ) (rs : List InvestorRecord) (acc : ℕ)
    → Ensures (λ n. n ≡ acc + sum_by (floor_share paid total) rs) (base_spent_all paid total rs acc)
unfolding base_spent_all add_u64
base_spent_all_lem paid total [] acc = omega arith
base_spent_all_lem paid total (r ∷ rs) acc = ground (
  arith,
  zero_floor paid total,
  base_spent_lem paid (lock r) total,
  base_spent_all_lem paid total rs acc,
  base_spent_all_lem paid total rs (acc + floor_share paid total r),
)

-- The shares of some records miss their part of what is paid by less than one for each of them.
pub floor_shares_bounds :
    (paid total : ℕ) (rs : List InvestorRecord)
    → 0 < total
    → (sum_by (floor_share paid total) rs * total ≤ paid * sum_by lock rs)
      × (paid * sum_by lock rs + sum_by one_if_locked rs
          ≤ (sum_by (floor_share paid total) rs + sum_by one_if_locked rs) * total)
floor_shares_bounds paid total [] h = (omega arith, omega arith)
floor_shares_bounds paid total (r ∷ rs) h =
    let ih = floor_shares_bounds paid total rs h in
    let low = div-mul-le_self (paid * lock r) total in
    let high = lt-div-mul-add {a = paid * lock r} h in
    ground (arith, ih, low, high, zero_floor paid total)

-- What is left to hand out is less than the number of the records that can take one more.
pub remainder_bound :
    (paid : ℕ) (rs : List InvestorRecord)
    → 0 < sum_by lock rs
    → (sum_by (floor_share paid (sum_by lock rs)) rs ≤ paid)
      × (paid ≤ sum_by (floor_share paid (sum_by lock rs)) rs + sum_by one_if_locked rs)
remainder_bound paid rs h =
    let (low, high) = floor_shares_bounds paid (sum_by lock rs) rs h in
    (cancel _ _ (sum_by lock rs) h low, cancel _ _ (sum_by lock rs) h (omega arith))
  where
    cancel : (a b c : ℕ) → 0 < c → a * c ≤ b * c → a ≤ b
    cancel a b c h k = grind arith

-- Where less is paid than is locked, every positive lock exceeds its share.
pub floor_share-lt :
    (paid locked total : ℕ) → paid < total → 0 < locked → paid * locked / total < locked
floor_share-lt paid locked total h k =
    let low = div-mul-le_self (paid * locked) total in grind arith

-- Where all is paid, every lock is its share.
pub floor_share_all : (locked total : ℕ) → 0 < total → total * locked / total ≡ locked
floor_share_all locked total h = mul-div_cancel_left locked h
