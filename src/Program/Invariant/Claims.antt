-- ===== src/Program/Invariant/Claims.antt =====
-- The round accounts that the end of a round writes are claimable.
use solana_floor_program.Base.{ℕ, List, [], ◌∷◌, some, length}
use solana_floor_program.Base.Int.{ℤ}
use solana_floor_program.Program.Errors.{Ensures, Ensures-skip}
use solana_floor_program.Program.State.{InvestorAlloc, RoundLockedWaln, locked_waln_space}
use solana_floor_program.Program.Host.{Host}
use solana_floor_program.Program.Accounts.{Chain, pda, round_locked_seeds, round_record_seeds}
use solana_floor_program.Program.RoundAccounts.{
  create_round_account, write_round_locked, write_round_record, round_record_space,
}
use solana_floor_program.Program.Allocations.Claims.{IsClaimable}
use solana_floor_program.Program.Allocations.Written.{IsWritable, open_count}
use solana_floor_program.Program.Allocations.Settled.{AllGood, update-AllGood}

module _ (h : Host) where
  pub write_round_locked-AllGood :
      (i : ℕ) (unlock : ℤ) (ps : List InvestorAlloc) (c : Chain h)
      → IsWritable ps
      → AllGood c.round_locked
      → Ensures (λ c'. AllGood c'.round_locked) (write_round_locked h i unlock ps c)
  unfolding write_round_locked
  write_round_locked-AllGood i unlock [] c w good = good
  write_round_locked-AllGood i unlock (a ∷ rest) c w good =
      let seeds = round_locked_seeds h i in
      let rlw : RoundLockedWaln = record {
        round_index = i;
        bump = (h.find_program_address seeds h.program_id).1;
        unlock = unlock;
        remaining_to_claim = length (a ∷ rest);
        investors = a ∷ rest;
      } in
      let ready : IsClaimable rlw = (w.0, open_count (a ∷ rest) w.1) in
      Ensures-skip (λ (c' : Chain h). AllGood c'.round_locked)
        (create_round_account h (pda h seeds) seeds (locked_waln_space (length (a ∷ rest))) c.world)
        _ λ w'. update-AllGood c.round_locked (pda h seeds) (some rlw) ready good

  pub write_round_record-AllGood :
      (i : ℕ) (now : ℤ) (waln usdc volume participants : ℕ) (c : Chain h)
      → AllGood c.round_locked
      → Ensures
          (λ c'. AllGood c'.round_locked)
          (write_round_record h i now waln usdc volume participants c)
  unfolding write_round_record
  write_round_record-AllGood i now waln usdc volume participants c good =
      Ensures-skip (λ (c' : Chain h). AllGood c'.round_locked)
        (create_round_account h (pda h (round_record_seeds h i)) (round_record_seeds h i)
          round_record_space c.world)
        _ λ w. good
