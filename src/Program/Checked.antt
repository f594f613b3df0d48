-- ===== src/Program/Checked.antt =====
-- The checked arithmetic of the handlers: `checked_*` followed by `ok_or(ArithmeticOverflow)?`.
use solana_floor_program.Base.{
  ℕ, Bool, ◌+◌, ◌-◌, ◌*◌, ◌/◌, ◌%◌, ◌^◌, ◌≤◌, ◌≡◌, arith, ltb, leb, ◌==◌, if◌then◌else◌,
}
use solana_floor_program.Base.Int.{ℤ, pos, negsuc, ◌+ℤ◌}
use solana_floor_program.Program.Errors.{
  Result, Ensures, ok, err, floor, panic, arithmetic_overflow,
}

abbrev pub u32_max : ℕ
u32_max = 4294967295

abbrev pub u64_max : ℕ
u64_max = 18446744073709551615

abbrev pub u128_max : ℕ
u128_max = 340282366920938463463374607431768211455

abbrev pub overflow {ℓ} : {A : Type ℓ} → Result A
overflow = err (floor arithmetic_overflow)

-- `n as u64`.
abbrev pub as_u64 : ℕ → ℕ
as_u64 n = n % 18446744073709551616

-- `u64::try_from(n).map_err(|_| ArithmeticOverflow)?`.
unfoldable pub to_u64 : ℕ → Result ℕ
to_u64 n = if leb n u64_max then ok n else overflow

unfoldable pub add_u64 : ℕ → ℕ → Result ℕ
add_u64 a b = if leb (a + b) u64_max then ok (a + b) else overflow

unfoldable pub add_u128 : ℕ → ℕ → Result ℕ
add_u128 a b = if leb (a + b) u128_max then ok (a + b) else overflow

-- At every unsigned width.
unfoldable pub sub : ℕ → ℕ → Result ℕ
sub a b = if leb b a then ok (a - b) else overflow

unfoldable pub mul_u128 : ℕ → ℕ → Result ℕ
mul_u128 a b = if leb (a * b) u128_max then ok (a * b) else overflow

unfoldable pub div : ℕ → ℕ → Result ℕ
div a b = if b == 0 then overflow else ok (a / b)

-- `10_u128.pow(decimals)`: the build checks for overflow, and an overflow panics.
unfoldable pub pow10 : ℕ → Result ℕ
pow10 d = if leb d 38 then ok (10 ^ d) else err panic

abbrev pub is_i64 : ℤ → Bool
is_i64 (pos n) = ltb n 9223372036854775808
is_i64 (negsuc n) = ltb n 9223372036854775808

unfoldable pub add_i64 : ℤ → ℤ → Result ℤ
add_i64 a b = if is_i64 (a +ℤ b) then ok (a +ℤ b) else overflow

-- What the results are.
pub to_u64_lem : (n : ℕ) → Ensures (λ m. (m ≡ n) × (n ≤ u64_max)) (to_u64 n)
unfolding to_u64
to_u64_lem n = ground arith

pub sub_lem : (a b : ℕ) → Ensures (λ c. c + b ≡ a) (sub a b)
unfolding sub
sub_lem a b = ground arith

pub add_u64_lem : (a b : ℕ) → Ensures (λ c. (c ≡ a + b) × (a + b ≤ u64_max)) (add_u64 a b)
unfolding add_u64
add_u64_lem a b = ground arith
