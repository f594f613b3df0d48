-- ===== src/Program/Host/Metadata/RoundTrip.antt =====
-- A volume that is written to an AAT NFT's metadata reads back as it was.
use solana_floor_program.Base.{
  ℕ, zero, suc, ◌+◌, ◌-◌, ◌*◌, ◌/◌, ◌%◌, ◌^◌, ◌≤◌, ◌<◌, ◌≡◌, refl, inl, inr, List, [], ◌∷◌, ◌++◌,
  some, false, All, arith, ltb, Bool-cases, ◌∙◌,
}
use solana_floor_program.Program.Errors.{ok}
use solana_floor_program.Program.Checked.{u64_max}
use solana_floor_program.Program.Utils.{aat_volume_field, aat_volume_of, eq_bytes}
use solana_floor_program.Program.Host.Metadata.{print_loop, print_u64, parse_digits, parse_u64}

pow_step : (n fuel : ℕ) → n < 10 ^ suc fuel → n / 10 < 10 ^ fuel
pow_step n fuel h = omega arith

parse_digit :
    (d acc : ℕ) (rest : List ℕ)
    → d < 10
    → acc * 10 + d ≤ u64_max
    → parse_digits ((b'0' + d) ∷ rest) acc ≡ parse_digits rest (acc * 10 + d)
unfolding parse_digits
parse_digit d acc rest h k =
    let e : (b'0' + d) - b'0' ≡ d = omega arith in rw (e, parse_digits) (ground arith)

parse-print_loop :
    (fuel n : ℕ) (rest : List ℕ)
    → n < 10 ^ fuel
    → n ≤ u64_max
    → parse_digits (print_loop fuel n rest) 0 ≡ parse_digits rest n
unfolding print_loop
parse-print_loop zero n rest h k = let e : n ≡ 0 = omega arith in rw e refl
parse-print_loop (suc fuel) n rest h k = elim (Bool-cases (ltb n 10)) [
  | inl e ↦
      let same : 0 * 10 + n ≡ n = omega arith in
      rw e (parse_digit n 0 rest (ground arith) (omega arith) ∙ rw same refl)
  | inr e ↦
      let back : n / 10 * 10 + n % 10 ≡ n = omega arith in
      rw e (
        parse-print_loop fuel (n / 10) ((b'0' + n % 10) ∷ rest) (pow_step n fuel h) (omega arith)
        ∙ (parse_digit (n % 10) (n / 10) rest (omega arith) (omega arith) ∙ rw back refl))
]

StartsDigit : List ℕ → Type 0
StartsDigit [] = ⊥
StartsDigit (c ∷ cs) = b'0' ≤ c

print_loop-StartsDigit :
    (fuel n : ℕ) (rest : List ℕ) → StartsDigit rest → StartsDigit (print_loop fuel n rest)
unfolding print_loop StartsDigit
print_loop-StartsDigit zero n rest h = h
print_loop-StartsDigit (suc fuel) n rest h = elim (Bool-cases (ltb n 10)) [
  | inl e ↦ rw e (omega arith)
  | inr e ↦ rw e (print_loop-StartsDigit fuel (n / 10) ((b'0' + n % 10) ∷ rest) (omega arith))
]

print_u64-StartsDigit : (n : ℕ) → StartsDigit (print_u64 n)
unfolding print_u64 print_loop StartsDigit
print_u64-StartsDigit n = elim (Bool-cases (ltb n 10)) [
  | inl e ↦ rw e (omega arith)
  | inr e ↦ rw e (print_loop-StartsDigit 19 (n / 10) ((b'0' + n % 10) ∷ []) (omega arith))
]

parse_u64_digits : (cs : List ℕ) → StartsDigit cs → parse_u64 cs ≡ parse_digits cs 0
unfolding parse_u64 StartsDigit
parse_u64_digits [] h = absurd h
parse_u64_digits (c ∷ []) h = refl
parse_u64_digits (c ∷ d ∷ cs) h = ground arith

-- Every 64-bit number, printed and parsed again, is itself.
pub parse_u64-print_u64 : (n : ℕ) → n ≤ u64_max → parse_u64 (print_u64 n) ≡ some n
unfolding print_u64 parse_digits
parse_u64-print_u64 n h =
    parse_u64_digits (print_u64 n) (print_u64-StartsDigit n)
    ∙ parse-print_loop 20 n [] (omega arith) h

-- A printed volume under the field's key is what is read, whatever entries come after it, and
-- whatever entries of other keys come before.
pub aat_volume_of-print_u64 :
    (volume : ℕ) (before after : List (List ℕ × List ℕ))
    → volume ≤ u64_max
    → All (λ e. eq_bytes e.0 aat_volume_field ≡ false) before
    → aat_volume_of (before ++ ((aat_volume_field, print_u64 volume) ∷ after)) ≡ ok volume
unfolding aat_volume_of
aat_volume_of-print_u64 volume [] after h k = rw (parse_u64-print_u64 volume h, aat_volume_of) refl
aat_volume_of-print_u64 volume (e ∷ before) after h k =
    rw (k.0) (aat_volume_of-print_u64 volume before after h k.1)
