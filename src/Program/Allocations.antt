-- ===== src/Program/Allocations.antt =====
-- instructions/claim_waln.rs: finding and taking an investor's allocation in `RoundLockedWaln`.
-- `binary_search_by_key` is the standard library's: a loop that halves the range, here counted by
-- fuel, for which the length is enough.
pub mod Search
pub mod Claims
pub mod Written
pub mod Settled
use solana_floor_program.Base.{
  ℕ, zero, suc, ◌+◌, ◌-◌, ◌/◌, Bool, true, false, List, Option, none, some, ltb, leb, ◌==◌,
  if◌then◌else◌, get_elem?, set, length,
}
use solana_floor_program.Base.Int.{ℤ, leb_ℤ}
use solana_floor_program.Program.Errors.{
  Result, ok, err, ◌>>=◌, ◌>>◌, require, ok_or, panic, not_yet_unlocked, already_claimed,
  invalid_investor,
}
use solana_floor_program.Program.Checked.{sub}
use solana_floor_program.Program.State.{Pubkey, InvestorAlloc, RoundLockedWaln}

abbrev pub key_at : List InvestorAlloc → ℕ → Pubkey
key_at ps i = elim (get_elem? ps i) [ none ↦ 0 | some a ↦ a.investor ]

-- The start of the range when its size has come down to 1.
unfoldable pub search_loop : ℕ → Pubkey → List InvestorAlloc → ℕ → ℕ → ℕ
search_loop zero key ps base size = base
search_loop (suc fuel) key ps base size =
    let mid = base + size / 2 in
    let next =
      search_loop fuel key ps (if ltb key (key_at ps mid) then base else mid) (size - size / 2) in
    if leb size 1 then base else next

unfoldable pub binary_search : Pubkey → List InvestorAlloc → Option ℕ
binary_search key ps =
    let base = search_loop (length ps) key ps 0 (length ps) in
    if length ps == 0 then none else if key_at ps base == key then some base else none

abbrev pub alloc_at : List InvestorAlloc → ℕ → Result InvestorAlloc
alloc_at ps i = elim (get_elem? ps i) [ none ↦ err panic | some a ↦ ok a ]

-- What a claim takes out: the amount, the account after it, and whether that account can close.
unfoldable pub take_allocation : ℤ → Pubkey → RoundLockedWaln → Result (ℕ × RoundLockedWaln × Bool)
take_allocation now investor rlw = do
  require (leb_ℤ rlw.unlock now) not_yet_unlocked
  idx ← ok_or (binary_search investor rlw.investors) invalid_investor
  alloc ← alloc_at rlw.investors idx
  require (ltb 0 alloc.waln_amount) already_claimed
  remaining ← sub rlw.remaining_to_claim 1
  ok (
    alloc.waln_amount,
    record rlw {
      investors = set rlw.investors idx (record alloc { waln_amount = 0 });
      remaining_to_claim = remaining;
    },
    remaining == 0,
  )
