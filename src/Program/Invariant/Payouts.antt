-- ===== src/Program/Invariant/Payouts.antt =====
-- What a reachable chain owes its investors, it pays: claims of open allocations go through.
use solana_floor_program.Base.{
  ℕ, ◌+◌, ◌-◌, ◌<◌, ◌≤◌, ◌≡◌, refl, inl, inr, true, [], ◌∷◌, Option, none, some, arith, leb, ◌==◌,
  if◌then◌else◌, get_elem?, Bool-cases, subst,
}
use solana_floor_program.Base.Int.{◌≤ℤ◌}
use solana_floor_program.Program.Errors.{Result, ok}
use solana_floor_program.Program.Checked.{add_u64, u64_max}
use solana_floor_program.Program.State.{Pubkey, InvestorAlloc, RoundLockedWaln}
use solana_floor_program.Program.Host.{Host, transfer_checked, text, byte}
use solana_floor_program.Program.Accounts.{
  Chain, update, pda, state_key, treasury_key, round_locked_seeds,
}
use solana_floor_program.Program.Allocations.{take_allocation}
use solana_floor_program.Program.Allocations.Claims.{IsClaimable, claimed, take_allocation_pays}
use solana_floor_program.Program.Allocations.Settled.{IsGood}
use solana_floor_program.Program.Instructions.ClaimWaln.{
  ClaimWaln, check_claim_accounts, check_claim_hook, store_claim, claim_waln,
}
use solana_floor_program.Program.Invariant.Reachable.{Reachable, Reachable-IsSound}

-- What is left of an account after a claim.
abbrev pub remaining : RoundLockedWaln → ℕ → InvestorAlloc → Option RoundLockedWaln
remaining rlw k p = if (rlw.remaining_to_claim - 1) == 0 then none else some (claimed rlw k p)

update_here :
    (m : Pubkey → Option RoundLockedWaln) (k : Pubkey) (v : Option RoundLockedWaln)
    → update m k v k ≡ v
update_here m k v = ground arith

-- The result of a call that succeeds and leaves an account as given.
abbrev pub Leaves : (h : Host) → Pubkey → Option RoundLockedWaln → Result (Chain h) → Type 0
Leaves h account v m = (c : Chain h) × (m ≡ ok c) × (c.round_locked account ≡ v)

module _ (h : Host) where
  -- The transfer of an allocation to the investor's token account, signed for by the program.
  abbrev pub payout_of : ClaimWaln → ℕ → ℕ → Chain h → h.World → Result h.World
  payout_of a amount decimals c w =
      h.invoke_signed
        (transfer_checked a.waln_token_program a.waln_vault a.waln_mint a.investor_waln_account
          (state_key h) a.remaining_accounts amount decimals)
        ((text "contract_state" ∷ byte c.state.bump ∷ []) ∷ []) w

  store_claim-Leaves :
      (account : Pubkey) (rlw : RoundLockedWaln) (k : ℕ) (p : InvestorAlloc) (c : Chain h)
      → h.lamports c.world (treasury_key h) + h.lamports c.world account ≤ u64_max
      → ((w : h.World) → (w' : h.World) × (h.release_account account w ≡ ok w'))
      → Leaves h account
          (remaining rlw k p)
          (store_claim h account (claimed rlw k p) ((rlw.remaining_to_claim - 1) == 0) c)
  unfolding store_claim add_u64
  store_claim-Leaves account rlw k p c fits releases =
      elim (Bool-cases ((rlw.remaining_to_claim - 1) == 0)) [
        | inl e ↦
            let small : leb (h.lamports c.world (treasury_key h) + h.lamports c.world account)
                  u64_max
                ≡ true =
              ground arith in
            let rent = h.lamports c.world (treasury_key h) + h.lamports c.world account in
            let (w', released) =
              releases (h.set_lamports account 0 (h.set_lamports (treasury_key h) rent c.world)) in
            rw (e, small, released)
              (
                record c { round_locked = update c.round_locked account none; world = w' },
                refl,
                update_here c.round_locked account none,
              )
        | inr e ↦ rw e (
          record c { round_locked = update c.round_locked account (some (claimed rlw k p)) },
          refl,
          update_here c.round_locked account (some (claimed rlw k p)),
        )
      ]

  module _ (a : ClaimWaln) (i : ℕ) (c : Chain h) (rlw : RoundLockedWaln) (k : ℕ) (p : InvestorAlloc)
      (w w' : h.World) (decimals : ℕ) where
    -- Whatever has happened since the initialization, a claim goes through for an investor with a
    -- positive allocation in the account of a round, once the unlock time has come, and leaves the
    -- account without that allocation, or closed if it was the last. The contract is not frozen, the
    -- mint and the other accounts are the right ones, the transfer hook's accounts included, and the
    -- token program carries out the transfer of the whole allocation. For closing, the account's
    -- lamports fit into the treasury's, and an account that the program owns can be released.
    pub claim_waln-pays :
        Reachable h c
        → c.round_locked (pda h (round_locked_seeds h i)) ≡ some rlw
        → get_elem? rlw.investors k ≡ some p
        → p.investor ≡ a.investor
        → 0 < p.waln_amount
        → c.state.frozen ≡ 0
        → a.waln_mint ≡ c.state.waln_mint
        → check_claim_accounts h a c ≡ ok (w, decimals)
        → rlw.unlock ≤ℤ h.unix_timestamp w
        → check_claim_hook h a w ≡ ok tt
        → payout_of a p.waln_amount decimals c w ≡ ok w'
        → h.lamports w' (treasury_key h) + h.lamports w' (pda h (round_locked_seeds h i)) ≤ u64_max
        → ((v : h.World)
            → (v' : h.World) × (h.release_account (pda h (round_locked_seeds h i)) v ≡ ok v'))
        → Leaves h (pda h (round_locked_seeds h i)) (remaining rlw k p) (claim_waln h a i c)
    unfolding claim_waln
    claim_waln-pays reached there here own open_ thawed mint passed unlocked hook paid fits
          releases =
        let account = pda h (round_locked_seeds h i) in
        let good : IsClaimable rlw = subst IsGood there ((Reachable-IsSound h reached).2 account) in
        let taken : take_allocation (h.unix_timestamp w) a.investor rlw
            ≡ ok (p.waln_amount, claimed rlw k p, (rlw.remaining_to_claim - 1) == 0) =
          subst
            (λ j.
              take_allocation (h.unix_timestamp w) j rlw
              ≡ ok (p.waln_amount, claimed rlw k p, (rlw.remaining_to_claim - 1) == 0))
            own (take_allocation_pays (h.unix_timestamp w) rlw k p good unlocked here open_) in
        let thawed' : (c.state.frozen == 0) ≡ true = ground arith in
        let mint' : (a.waln_mint == c.state.waln_mint) ≡ true = ground arith in
        rw (there, claim_waln, passed, thawed', mint', taken, hook, paid)
          (store_claim-Leaves account rlw k p (record c { world = w' }) fits releases)
