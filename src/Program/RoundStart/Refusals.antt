-- ===== src/Program/RoundStart/Refusals.antt =====
-- Which errors a round start ends with, and where they arise.
use solana_floor_program.Base.{ℕ, ◌-◌, ◌≡◌, List, [], ◌∷◌, arith}
use solana_floor_program.Program.Errors.{Result, ok, err, ◌>>=◌, floor, arithmetic_overflow}
use solana_floor_program.Program.Checked.{add_u64, sub, mul_u128, div, to_u64}
use solana_floor_program.Program.RoundStart.{
  Candidate, required_lock, lock_one, lock_all, cover_gap, lock_funds,
}

-- A run that fails, if it does, by an overflow.
abbrev pub OnlyOverflows {ℓ} : {A : Type ℓ} → Result A → Type 0
OnlyOverflows (ok a) = Unit
OnlyOverflows (err e) = e ≡ floor arithmetic_overflow

pub OnlyOverflows-bind {ℓ κ} :
    {A : Type ℓ} {B : Type κ} (m : Result A) (f : A → Result B)
    → OnlyOverflows m
    → ((a : A) → OnlyOverflows (f a))
    → OnlyOverflows (m >>= f)
OnlyOverflows-bind (ok a) f h k = k a
OnlyOverflows-bind (err e) f h k = h

lock_all-OnlyOverflows :
    (cap_usdc total : ℕ) (cs : List Candidate) (locked : ℕ)
    → OnlyOverflows (lock_all cap_usdc total cs locked)
unfolding lock_all lock_one required_lock mul_u128 div sub add_u64
lock_all-OnlyOverflows cap_usdc total [] locked = tt
lock_all-OnlyOverflows cap_usdc total (c ∷ cs) locked =
    OnlyOverflows-bind (lock_one cap_usdc total c locked) _ (ground arith) λ first.
      OnlyOverflows-bind (lock_all cap_usdc total cs first.1) _
        (lock_all-OnlyOverflows cap_usdc total cs first.1) λ rest. tt

cover_gap-OnlyOverflows :
    (gap : ℕ) (cs : List Candidate) (locked : ℕ) → OnlyOverflows (cover_gap gap cs locked)
unfolding cover_gap sub add_u64
cover_gap-OnlyOverflows gap [] locked = tt
cover_gap-OnlyOverflows gap (c ∷ cs) locked = ground (arith, cover_gap-OnlyOverflows gap cs locked)

-- The part of a round start that writes records ends, if it fails, with an overflow: never with one
-- of the errors that an automatic start tolerates.
pub lock_funds-OnlyOverflows :
    (cap_usdc total : ℕ) (cs : List Candidate) → OnlyOverflows (lock_funds cap_usdc total cs)
unfolding lock_funds to_u64
lock_funds-OnlyOverflows cap_usdc total cs =
    OnlyOverflows-bind (lock_all cap_usdc total cs 0) _ (lock_all-OnlyOverflows cap_usdc total cs 0)
      λ locks. ground (arith, cover_gap-OnlyOverflows (cap_usdc - locks.1) locks.0 locks.1)
