-- ===== src/Program/RoundStart.antt =====
-- instructions/start_round.rs: choosing the investors of a round, and locking their USDC.
-- The array `eligible` and the slice of investors are walked side by side, so they are one list of
-- candidates. `while`-like rounds of the selection are counted by fuel: one more than the
-- candidates, since every round but the last drops one.
pub mod Selection
pub mod Termination
pub mod Locking
pub mod Start
pub mod Refusals
pub mod Sifting
pub mod Choice
use solana_floor_program.Base.{
  ℕ, zero, suc, ◌-◌, ◌/◌, min, Bool, true, false, ◌&&◌, ◌||◌, List, [], ◌∷◌, map, ltb, leb, ◌==◌,
  if◌then◌else◌, length,
}
use solana_floor_program.Program.Errors.{
  Result, ok, err, ◌>>=◌, ◌>>◌, require, out_of_fuel, invalid_parameter, no_eligible_investors,
}
use solana_floor_program.Program.Checked.{add_u64, sub, mul_u128, div, pow10, to_u64, as_u64}
use solana_floor_program.Program.State.{InvestorRecord, min_sell_waln}

pub record Candidate : Type 0 where
  pub eligible : Bool
  pub entry : InvestorRecord

-- The USDC that a round can pay out in all.
unfoldable pub round_cap : ℕ → ℕ → ℕ → Result ℕ
round_cap round_size_waln floor_price_usdc waln_decimals = do
  waln_scale ← pow10 waln_decimals
  product ← mul_u128 round_size_waln floor_price_usdc
  div product waln_scale

abbrev pub candidate : ℕ → InvestorRecord → Candidate
candidate min_deposit r = record {
  eligible = ltb 0 r.usdc_deposited && ltb 0 r.aat_volume && leb min_deposit r.usdc_deposited;
  entry = r;
}

-- The sum of the eligible candidates' AAT volumes.
unfoldable pub sum_volumes : List Candidate → ℕ → Result ℕ
sum_volumes [] total = ok total
sum_volumes (c ∷ cs) total = do
  total' ← if c.eligible then add_u64 total c.entry.aat_volume else ok total
  sum_volumes cs total'

unfoldable pub required_lock : ℕ → ℕ → InvestorRecord → Result ℕ
required_lock cap_usdc total r = do product ← mul_u128 cap_usdc r.aat_volume; div product total

-- One candidate in a round of the selection: what becomes of it and of `changed`.
unfoldable pub review : ℕ → ℕ → Candidate → Bool → Result (Candidate × Bool)
review cap_usdc total c changed =
    if c.eligible
    then (do
      required ← required_lock cap_usdc total c.entry
      if required == 0 || ltb c.entry.usdc_deposited required
          then ok (record c { eligible = false }, true)
          else ok (c, changed))
    else ok (c, changed)

unfoldable pub review_all : ℕ → ℕ → List Candidate → Bool → Result (List Candidate × Bool)
review_all cap_usdc total [] changed = ok ([], changed)
review_all cap_usdc total (c ∷ cs) changed = do
  first ← review cap_usdc total c changed
  rest ← review_all cap_usdc total cs first.1
  ok (first.0 ∷ rest.0, rest.1)

-- The `loop`: the candidates that stay, and their total volume.
unfoldable pub select : ℕ → ℕ → List Candidate → Result (List Candidate × ℕ)
select zero cap_usdc cs = err out_of_fuel
select (suc fuel) cap_usdc cs = do
  total ← sum_volumes cs 0
  require (ltb 0 total) no_eligible_investors
  reviewed ← review_all cap_usdc total cs false
  elim reviewed.1 [ true ↦ select fuel cap_usdc reviewed.0 | false ↦ ok (reviewed.0, total) ]

-- One candidate's lock, and the total locked so far.
unfoldable pub lock_one : ℕ → ℕ → Candidate → ℕ → Result (Candidate × ℕ)
lock_one cap_usdc total c locked =
    if c.eligible
    then (do
      share ← required_lock cap_usdc total c.entry
      let usdc_locked = as_u64 (min share c.entry.usdc_deposited)
      if usdc_locked == 0 then ok (c, locked) else (do
        deposited ← sub c.entry.usdc_deposited usdc_locked
        locked' ← add_u64 locked usdc_locked
        ok (
          record c {
            entry = record c.entry {
              usdc_deposited = deposited;
              usdc_locked_current_round = usdc_locked;
            };
          },
          locked',
        )))
    else ok (c, locked)

unfoldable pub lock_all : ℕ → ℕ → List Candidate → ℕ → Result (List Candidate × ℕ)
lock_all cap_usdc total [] locked = ok ([], locked)
lock_all cap_usdc total (c ∷ cs) locked = do
  first ← lock_one cap_usdc total c locked
  rest ← lock_all cap_usdc total cs first.1
  ok (first.0 ∷ rest.0, rest.1)

-- The first eligible candidate that can takes the whole gap on top of its lock; then `break`.
unfoldable pub cover_gap : ℕ → List Candidate → ℕ → Result (List Candidate × ℕ)
cover_gap gap [] locked = ok ([], locked)
cover_gap gap (c ∷ cs) locked =
    if c.eligible && leb gap c.entry.usdc_deposited
    then (do
      deposited ← sub c.entry.usdc_deposited gap
      own ← add_u64 c.entry.usdc_locked_current_round gap
      locked' ← add_u64 locked gap
      ok (
        record c {
          entry = record c.entry { usdc_deposited = deposited; usdc_locked_current_round = own };
        }
            ∷ cs,
        locked',
      ))
    else (do rest ← cover_gap gap cs locked; ok (c ∷ rest.0, rest.1))

-- The part that writes records.
unfoldable pub lock_funds : ℕ → ℕ → List Candidate → Result (List Candidate × ℕ)
lock_funds cap_usdc total cs = do
  locks ← lock_all cap_usdc total cs 0
  let gap_u128 = cap_usdc - locks.1
  if ltb 0 gap_u128 then (do gap ← to_u64 gap_u128; cover_gap gap locks.0 locks.1) else ok locks

-- The part that only reads: the round's cap, its investors and their total volume.
unfoldable pub choose_investors : List InvestorRecord → ℕ → ℕ → ℕ → Result (ℕ × List Candidate × ℕ)
choose_investors investors round_size_waln floor_price_usdc waln_decimals = do
  cap_usdc ← round_cap round_size_waln floor_price_usdc waln_decimals
  require (ltb 0 cap_usdc) invalid_parameter
  chosen ← select (suc (length investors)) cap_usdc (map (candidate (cap_usdc / 2)) investors)
  ok (cap_usdc, chosen.0, chosen.1)

abbrev pub entries : List Candidate → List InvestorRecord
entries = map (λ c. c.entry)

-- The records after the locks, the total volume, and the total of USDC locked.
unfoldable pub execute_round_start :
    List InvestorRecord → ℕ → ℕ → ℕ → Result (List InvestorRecord × ℕ × ℕ)
execute_round_start investors round_size_waln floor_price_usdc waln_decimals = do
  chosen ← choose_investors investors round_size_waln floor_price_usdc waln_decimals
  locks ← lock_funds chosen.0 chosen.2 chosen.1
  ok (entries locks.0, chosen.2, locks.1)

unfoldable pub require_viable_round_params : ℕ → ℕ → ℕ → Result (Unit {0})
require_viable_round_params round_size_waln floor_price_usdc waln_decimals = do
  cap_usdc ← round_cap round_size_waln floor_price_usdc waln_decimals
  require (ltb 0 cap_usdc) invalid_parameter
  require (leb min_sell_waln round_size_waln) invalid_parameter
