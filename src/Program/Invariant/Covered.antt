-- ===== src/Program/Invariant/Covered.antt =====
-- What a running round has paid to sellers, against what it has locked: the arithmetic.
use native.Mathlib.Nat.{div-mul-le_self, div-lt_iff_lt-mul, mul-le-mul_right, add-mul, one-le-pow}
use solana_floor_program.Base.{
  ℕ, ◌+◌, ◌*◌, ◌/◌, ◌^◌, ◌≤◌, ◌<◌, ◌≡◌, ◌⊎◌, inl, inr, List, [], ◌∷◌, arith, length, sum_by, ltb,
  Bool-cases,
}
use solana_floor_program.Program.Errors.{ok, Ensures, Ensures-ok}
use solana_floor_program.Program.Checked.{pow10, mul_u128, div, to_u64}
use solana_floor_program.Program.State.{Pubkey, ProgramState, InvestorRecord, max_investors}
use solana_floor_program.Program.Host.{Host}
use solana_floor_program.Program.ForcedClose.{mul_div}
use solana_floor_program.Program.RoundStart.{round_cap}
use solana_floor_program.Program.RoundStart.Start.{Fills, one_if_participant}
use solana_floor_program.Program.Instructions.SellWaln.{usdc_for}

-- The state's fields of the round.
pub record RoundTerms : Type 0 where
  pub waln_mint : Pubkey
  pub started : ℕ
  pub price : ℕ
  pub size : ℕ
  pub sold : ℕ
  pub spent : ℕ
  pub locked : ℕ

abbrev pub round_of : ProgramState → RoundTerms
round_of s = record {
  waln_mint = s.waln_mint;
  started = s.round_started;
  price = s.current_round_floor_price;
  size = s.current_round_size_waln;
  sold = s.current_round_waln;
  spent = s.current_round_usdc_spent;
  locked = s.total_usdc_locked_for_round;
}

-- The round's cap is locked, but for less than a unit for each slot of the pool.
abbrev pub CapLocked : (decimals price size locked : ℕ) → Type 0
CapLocked decimals price size locked = size * price / 10 ^ decimals ≤ locked + max_investors

-- No round runs, and nothing is sold; or no more is sold than the round's size, it is paid for at
-- the round's price at most, and the cap is locked.
abbrev pub IsCovered : ℕ → RoundTerms → Type 0
IsCovered decimals t =
    ((t.started ≡ 0) × (t.sold ≡ 0))
    ⊎ ((t.started ≡ 1)
        × (t.sold ≤ t.size)
        × (t.spent * 10 ^ decimals ≤ t.sold * t.price)
        × CapLocked decimals t.price t.size t.locked)

-- The same with the decimals of the round's mint.
abbrev pub IsCoveredBy : (h : Host) → RoundTerms → Type 0
IsCoveredBy h t = IsCovered (h.mint_decimals t.waln_mint) t

pub round_cap_lem :
    (size price decimals : ℕ)
    → Ensures (λ n. n ≡ size * price / 10 ^ decimals) (round_cap size price decimals)
unfolding round_cap pow10 mul_u128 div
round_cap_lem size price decimals = ground arith

participants_lem : (rs : List InvestorRecord) → sum_by one_if_participant rs ≤ length rs
participants_lem [] = omega arith
participants_lem (r ∷ rs) = ground (arith, participants_lem rs)

pub Fills-CapLocked :
    (size price decimals cap_usdc locked : ℕ) (rs : List InvestorRecord)
    → round_cap size price decimals ≡ ok cap_usdc
    → length rs ≤ max_investors
    → Fills cap_usdc rs locked
    → CapLocked decimals price size locked
Fills-CapLocked size price decimals cap_usdc locked rs e bound (inl all) =
    let c =
      Ensures-ok (λ n. n ≡ size * price / 10 ^ decimals) (round_cap size price decimals)
        (round_cap_lem size price decimals) e in
    omega arith
Fills-CapLocked size price decimals cap_usdc locked rs e bound (inr short) =
    let c =
      Ensures-ok (λ n. n ≡ size * price / 10 ^ decimals) (round_cap size price decimals)
        (round_cap_lem size price decimals) e in
    omega (arith, participants_lem rs, short)

pub usdc_for_lem :
    (amount price decimals : ℕ)
    → Ensures (λ out. out * 10 ^ decimals ≤ amount * price) (usdc_for amount price decimals)
unfolding usdc_for pow10 mul_div mul_u128 div to_u64
usdc_for_lem amount price decimals =
    ground (arith, div-mul-le_self (amount * price) (10 ^ decimals))

-- One more sale is paid for at the price at most.
pub pays_more :
    (spent out sold amount price scale : ℕ)
    → spent * scale ≤ sold * price
    → out * scale ≤ amount * price
    → (spent + out) * scale ≤ (sold + amount) * price
pays_more spent out sold amount price scale h k =
    omega (arith, h, k, add-mul spent out scale, add-mul sold amount price)

-- What is paid is within the cap, so the locks cover it but for less than a unit for each slot.
pub covered_lem :
    (decimals : ℕ) (t : RoundTerms)
    → IsCovered decimals t
    → t.started ≡ 1
    → t.spent ≤ t.locked + max_investors
covered_lem decimals t (inl off) on = omega (arith, off)
covered_lem decimals t (inr (running, room, paid, cap_locked)) on =
    let scale = 10 ^ decimals in
    let n = t.size * t.price in
    let positive : 0 < scale = omega (arith, one-le-pow decimals 10 (omega arith)) in
    let worth : t.sold * t.price ≤ n = mul-le-mul_right t.price room in
    let beyond = div-lt_iff_lt-mul {k = scale} {x = n} {y = t.spent} positive in
    elim (Bool-cases (ltb (n / scale) t.spent)) [
      | inl more ↦
          let lt : n / scale < t.spent = ground arith in
          absurd (omega (arith, beyond.0 lt, worth, paid))
      | inr enough ↦ let ge : t.spent ≤ n / scale = ground arith in omega (arith, ge, cap_locked)
    ]
