-- ===== src/Program/Invariant/Entries.antt =====
-- Claims, the closing of a record, and the initialization, before the invariant.
use solana_floor_program.Base.{
  ℕ, refl, inl, inr, Bool, [], ◌∷◌, arith, ◌==◌, ltb, not, Option-cases, none, some, subst,
}
use solana_floor_program.Base.Int.{ℤ, pos, leb_ℤ}
use solana_floor_program.Program.Errors.{
  check, Ensures, Ensures-bind, Ensures-skip, Ensures-require, Ensures-if,
}
use solana_floor_program.Program.Checked.{add_u64}
use solana_floor_program.Program.State.{Pubkey, RoundLockedWaln}
use solana_floor_program.Program.Host.{Host, transfer_checked, text, byte}
use solana_floor_program.Program.Accounts.{
  Chain, require_admin, pda, state_key, round_record_seeds, round_locked_seeds, treasury_key,
  load_mint,
}
use solana_floor_program.Program.Allocations.{take_allocation}
use solana_floor_program.Program.Allocations.Claims.{IsClaimable}
use solana_floor_program.Program.Allocations.Settled.{
  IsGood, AllGood, update-AllGood, take_allocation-IsClaimable,
}
use solana_floor_program.Program.RoundStart.{require_viable_round_params}
use solana_floor_program.Program.Instructions.Initialize.{
  Initialize, initialize, is_upgrade_authority,
}
use solana_floor_program.Program.Instructions.CloseRound
use solana_floor_program.Program.Instructions.ClaimWaln.{
  ClaimWaln, check_claim_accounts, check_claim_hook, store_claim, claim_waln,
}
use solana_floor_program.Program.Invariant.{IsSoundChain}
use solana_floor_program.Program.Invariant.Settings.{Keeps, Still-refl}

module _ (h : Host) where
  pub close_round_record-Keeps :
      (admin : Pubkey) (i : ℕ) (c : Chain h)
      → Ensures (Keeps h c) (CloseRound.close_round_record h admin i c)
  unfolding CloseRound.close_round_record
  close_round_record-Keeps admin i c = Ensures-skip (Keeps h c) (require_admin h admin c) _ λ _.
      let account = pda h (round_record_seeds h i) in
      elim (Option-cases (c.round_records account)) [
        | inl e ↦ rw e tt
        | inr (r, e) ↦ rw e (
            Ensures-skip (Keeps h c)
              (add_u64 (h.lamports c.world (treasury_key h)) (h.lamports c.world account)) _
              λ rent.
                Ensures-skip (Keeps h c)
                  (h.release_account account
                    (h.set_lamports account 0 (h.set_lamports (treasury_key h) rent c.world)))
                  _
                  λ w.
                    ((refl, refl, refl, λ v. v, refl), Still-refl c.pool.investors, λ g. g, refl))
      ]

  store_claim-Keeps :
      (account : Pubkey) (rlw : RoundLockedWaln) (should_close : Bool) (c c' : Chain h)
      → IsClaimable rlw
      → Keeps h c c'
      → Ensures (Keeps h c) (store_claim h account rlw should_close c')
  unfolding store_claim
  store_claim-Keeps account rlw should_close c c' ready k =
      Ensures-if (Keeps h c) should_close _ _
        (λ e.
          Ensures-skip (Keeps h c)
            (add_u64 (h.lamports c'.world (treasury_key h)) (h.lamports c'.world account)) _
            λ rent.
              Ensures-skip (Keeps h c)
                (h.release_account account
                  (h.set_lamports account 0 (h.set_lamports (treasury_key h) rent c'.world)))
                _ λ w. (k.0, k.1, λ g. update-AllGood c'.round_locked account none tt (k.2 g), k.3))
        (λ e. (k.0, k.1, λ g. update-AllGood c'.round_locked account (some rlw) ready (k.2 g), k.3))

  pub claim_waln-Keeps :
      (a : ClaimWaln) (i : ℕ) (c : Chain h)
      → AllGood c.round_locked
      → Ensures (Keeps h c) (claim_waln h a i c)
  unfolding claim_waln
  claim_waln-Keeps a i c good =
      let Q = Keeps h c in
      let account = pda h (round_locked_seeds h i) in
      let T : ℕ × RoundLockedWaln × Bool → Type 0 = λ t. IsClaimable t.1 in
      elim (Option-cases (c.round_locked account)) [
        | inl e ↦ rw (e, claim_waln) tt
        | inr (rlw, e) ↦
            rw (e, claim_waln)
              (Ensures-skip Q (check_claim_accounts h a c) _ λ checked.
                Ensures-require Q (c.state.frozen == 0) _ _ λ _.
                  Ensures-require Q (a.waln_mint == c.state.waln_mint) _ _ λ _.
                    Ensures-bind T Q (take_allocation (h.unix_timestamp checked.0) a.investor rlw) _
                      (take_allocation-IsClaimable (h.unix_timestamp checked.0) a.investor rlw
                        (subst IsGood e (good account)))
                      λ taken ready. Ensures-skip Q (check_claim_hook h a checked.0) _ λ _.
                        Ensures-skip Q
                          (h.invoke_signed
                            (transfer_checked a.waln_token_program a.waln_vault a.waln_mint
                              a.investor_waln_account (state_key h) a.remaining_accounts taken.0
                              checked.1)
                            ((text "contract_state" ∷ byte c.state.bump ∷ []) ∷ []) checked.0)
                          _
                          λ w.
                            store_claim-Keeps account taken.1 taken.2 c (record c { world = w })
                              ready
                              (
                                (refl, refl, refl, λ v. v, refl),
                                Still-refl c.pool.investors,
                                λ g. g,
                                refl,
                              ))
      ]

  pub initialize-IsSound :
      (a : Initialize) (price size : ℕ) (period : ℤ) (w : h.World)
      → Ensures (IsSoundChain h) (initialize h a price size period w)
  unfolding initialize
  initialize-IsSound a price size period w =
      let Q = IsSoundChain h in
      Ensures-skip Q (load_mint h w a.usdc_mint) _ λ usdc.
        Ensures-skip Q (load_mint h w a.waln_mint) _ λ waln.
          Ensures-skip Q (check (a.waln_token_program == h.token_2022_id)) _ λ _.
            Ensures-require Q (is_upgrade_authority a.upgrade_authority a.admin) _ _ λ _.
              Ensures-require Q (ltb 0 price) _ _ λ _. Ensures-require Q (ltb 0 size) _ _ λ _.
                Ensures-skip Q (require_viable_round_params size price waln.decimals) _ λ _.
                  Ensures-require Q (leb_ℤ (pos 0) period) _ _ λ _.
                    Ensures-require Q (not waln.has_transfer_fee) _ _ λ _. (
                      (omega arith, omega arith, omega arith, inl (refl, tt), omega arith),
                      tt,
                      λ k. tt,
                      inl (refl, refl),
                    )
