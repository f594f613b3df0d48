-- ===== src/Program/Host/Metadata.antt =====
-- Decimal text: `u64::to_string` and `str::parse::<u64>` of the standard library, on bytes.
pub mod RoundTrip
use solana_floor_program.Base.{
  ℕ, zero, suc, ◌+◌, ◌-◌, ◌*◌, ◌/◌, ◌%◌, ◌^◌, ◌≤◌, ◌<◌, ◌≡◌, refl, inl, inr, Bool, ◌&&◌, true,
  false, List, [], ◌∷◌, Option, none, some, arith, ltb, leb, ◌==◌, if◌then◌else◌, Bool-cases,
}
use solana_floor_program.Program.Checked.{u64_max}

-- The digits of a number in front of a text; twenty suffice for 64 bits.
unfoldable pub print_loop : ℕ → ℕ → List ℕ → List ℕ
print_loop zero n rest = rest
print_loop (suc fuel) n rest =
    let more = print_loop fuel (n / 10) ((b'0' + n % 10) ∷ rest) in
    if ltb n 10 then (b'0' + n) ∷ rest else more

unfoldable pub print_u64 : ℕ → List ℕ
print_u64 n = print_loop 20 n []

unfoldable pub parse_digits : List ℕ → ℕ → Option ℕ
parse_digits [] acc = some acc
parse_digits (c ∷ cs) acc =
    let rest = parse_digits cs (acc * 10 + (c - b'0')) in
    if leb b'0' c && leb c b'9' && leb (acc * 10 + (c - b'0')) u64_max then rest else none

-- An optional plus sign, and at least one digit.
unfoldable pub parse_u64 : List ℕ → Option ℕ
parse_u64 [] = none
parse_u64 (c ∷ []) = parse_digits (c ∷ []) 0
parse_u64 (c ∷ d ∷ cs) = if c == b'+' then parse_digits (d ∷ cs) 0 else parse_digits (c ∷ d ∷ cs) 0
