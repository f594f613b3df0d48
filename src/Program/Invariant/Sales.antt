-- ===== src/Program/Invariant/Sales.antt =====
-- The sale, and what follows a round that it fills, keep the accounts sound.
use solana_floor_program.Base.{
  ◌*◌, ◌^◌, ◌≤◌, Option-cases, ℕ, ◌≡◌, inl, inr, List, ◌==◌, leb, length, drop, sym, subst, ap, ◌∙◌,
}
use solana_floor_program.Program.Errors.{
  check, Ensures, Ensures-bind, Ensures-skip, Ensures-if, Ensures-both, Ensures-weaken,
  Ensures-require,
}
use solana_floor_program.Program.Checked.{add_i64, pow10}
use solana_floor_program.Program.State.{Pubkey, ProgramState}
use solana_floor_program.Program.Host.{Host}
use solana_floor_program.Program.Accounts.{
  Chain, load_mint, load_token_account, state_key, waln_vault_key, usdc_vault_key,
}
use solana_floor_program.Program.RoundAccounts.{
  check_round_accounts, write_round_locked, write_round_record,
}
use solana_floor_program.Program.Pool.Distinct.{keys, NoRepeat}
use solana_floor_program.Program.Pool.Stakes.{keys-kept}
use solana_floor_program.Program.Allocations.Written.{
  alloc_keys, claimable-IsWritable, settle_full-NoRepeat,
}
use solana_floor_program.Program.Allocations.Settled.{AllGood}
use solana_floor_program.Program.Invariant.Claims.{
  write_round_locked-AllGood, write_round_record-AllGood,
}
use solana_floor_program.Program.FullClose.{settle_full, retain_positive, sort_allocs}
use solana_floor_program.Program.FullClose.Totals.{CompletesRound, settle_full-CompletesRound}
use solana_floor_program.Program.Instructions.SellWaln.{
  SellWaln, start_if_needed, usdc_for, count_sale, check_sell_accounts, hook_offset, exchange,
  sell_waln,
}
use solana_floor_program.Program.Instructions.SellWaln.Pricing.{Quote, quote_sale}
use solana_floor_program.Program.Instructions.SellWaln.Finish.{
  allocation_events, end_round, auto_start, finish_round,
}
use solana_floor_program.Program.Invariant.{IsSound, IsSoundChain, IsSoundAfter}
use solana_floor_program.Program.Invariant.Rounds.{
  Restarted, auto_start-IsSound, Ends, end_round_lem, settle_full-IsSound,
}
use solana_floor_program.Program.Invariant.Covered.{IsCoveredBy, IsCovered, round_of, usdc_for_lem}
use solana_floor_program.Program.Invariant.Counted.{
  FitsQuote, quote_sale-FitsQuote, MayStart, start_if_needed_lem, MayStart-stakes, Counts,
  count_sale_lem, counted-IsSound, counted-IsCovered,
}

module _ (h : Host) where
  finish_round-IsSound :
      (remaining : List Pubkey) (q : Quote) (decimals : ℕ) (before : ProgramState) (c : Chain h)
      → IsSoundChain h c
      → decimals ≡ h.mint_decimals c.state.waln_mint
      → Ensures (IsSoundAfter h c) (finish_round h remaining q decimals before c)
  unfolding finish_round
  finish_round-IsSound remaining q decimals before c sound fixed =
      let Q = IsSoundAfter h c in
      let G : Chain h → Type 0 = λ c'. AllGood c'.round_locked in
      let s = c.state in
      let rs = c.pool.investors in
      let now = h.unix_timestamp c.world in
      let i = before.round_count in
      Ensures-require Q (leb 2 (length remaining)) _ _ λ _.
        Ensures-skip Q (add_i64 now s.current_round_lock_period) _ λ unlock.
          Ensures-skip Q (check_round_accounts h remaining i) _ λ _.
            Ensures-skip Q (pow10 decimals) _ λ scale.
              Ensures-bind
                (λ p.
                  CompletesRound scale q.floor_price s.waln_dust_carryover rs p
                  × NoRepeat (alloc_keys p.1.participants))
                Q (settle_full scale q.floor_price s.waln_dust_carryover now rs) _
                (Ensures-both (CompletesRound scale q.floor_price s.waln_dust_carryover rs)
                  (λ p. NoRepeat (alloc_keys p.1.participants))
                  (settle_full scale q.floor_price s.waln_dust_carryover now rs)
                  (settle_full-CompletesRound scale q.floor_price s.waln_dust_carryover now rs)
                  (settle_full-NoRepeat scale q.floor_price s.waln_dust_carryover now rs sound.1))
                λ settled k.
                  let closing = settled.1 in
                  let claimable = sort_allocs (retain_positive closing.participants) in
                  Ensures-bind G Q (write_round_locked h i unlock claimable c) _
                    (write_round_locked-AllGood h i unlock claimable c
                      (claimable-IsWritable closing.participants k.1) sound.2)
                    λ c1 g1.
                      Ensures-skip Q (allocation_events i q.floor_price scale unlock claimable) _
                        λ allocated.
                          Ensures-bind G Q
                            (write_round_record h i now closing.total_waln_purchased
                              closing.total_usdc_spent closing.total_aat_volume
                              (length closing.participants) c1)
                            _
                            (write_round_record-AllGood h i now closing.total_waln_purchased
                              closing.total_usdc_spent closing.total_aat_volume
                              (length closing.participants) c1 g1)
                            λ c2 g2.
                              Ensures-bind (Ends closing.total_usdc_spent s) Q (end_round closing s)
                                _ (end_round_lem closing s)
                                λ s' e.
                                  let (idle, sound', same) =
                                    settle_full-IsSound scale q.floor_price s.waln_dust_carryover s
                                      s' rs settled sound.0 k.0 e in
                                  Ensures-bind (Restarted decimals s' settled.0) Q
                                    (auto_start before.round_size_waln before.floor_price_usdc
                                      decimals (s', settled.0))
                                    _
                                    (auto_start-IsSound before.round_size_waln
                                      before.floor_price_usdc decimals s' settled.0 sound' idle e.1
                                      e.3)
                                    λ next n.
                                      let kept = n.1 ∙ same in
                                      (
                                        (
                                          n.0,
                                          subst NoRepeat (sym (keys-kept rs next.1 kept)) sound.1,
                                          g2,
                                          subst (λ d. IsCovered d (round_of next.0))
                                              (fixed ∙ ap h.mint_decimals (sym (n.2 ∙ e.4))) n.3,
                                        ),
                                        kept,
                                        n.4 ∙ e.5,
                                      )

  load_mint-decimals :
      (w : h.World) (k : Pubkey) → Ensures (λ m. m.decimals ≡ h.mint_decimals k) (load_mint h w k)
  unfolding load_mint
  load_mint-decimals w k = elim (Option-cases (h.mint_view w k)) [
    | inl e ↦ rw (e, load_mint, Ensures) tt
    | inr (m, e) ↦ rw (e, load_mint, Ensures) (h.decimals_fixed w k m e)
  ]

  check_sell_accounts-decimals :
      (a : SellWaln) (c : Chain h)
      → Ensures (λ d. d.0 ≡ h.mint_decimals a.waln_mint) (check_sell_accounts h a c)
  unfolding check_sell_accounts
  check_sell_accounts-decimals a c =
      let Q : ℕ × ℕ → Type 0 = λ d. d.0 ≡ h.mint_decimals a.waln_mint in
      let load = load_token_account h c.world in
      Ensures-bind (λ m. m.decimals ≡ h.mint_decimals a.waln_mint) Q
        (load_mint h c.world a.waln_mint) _ (load_mint-decimals c.world a.waln_mint)
        λ waln e. Ensures-skip Q (load_mint h c.world a.usdc_mint) _ λ usdc.
          Ensures-skip Q (check (a.waln_token_program == h.token_2022_id)) _ λ _.
            Ensures-skip Q (load a.seller_waln_account a.waln_mint a.seller a.waln_token_program) _
              λ _.
                Ensures-skip Q
                  (load a.seller_usdc_account a.usdc_mint a.seller a.usdc_token_program) _
                  λ _. Ensures-skip Q (check (a.waln_vault == waln_vault_key h)) _ λ _.
                    Ensures-skip Q
                      (load a.waln_vault a.waln_mint (state_key h) a.waln_token_program) _
                      λ _. Ensures-skip Q (check (a.usdc_vault == usdc_vault_key h)) _ λ _.
                        Ensures-skip Q
                          (load a.usdc_vault a.usdc_mint (state_key h) a.usdc_token_program) _
                          λ _. e

  pub sell_waln-IsSound :
      (a : SellWaln) (max_waln_amount : ℕ) (c : Chain h)
      → IsSoundChain h c
      → Ensures (IsSoundAfter h c) (sell_waln h a max_waln_amount c)
  unfolding sell_waln
  sell_waln-IsSound a amount c sound =
      let Q = IsSoundAfter h c in
      let s = c.state in
      let rs = c.pool.investors in
      Ensures-bind (λ d. d.0 ≡ h.mint_decimals a.waln_mint) Q (check_sell_accounts h a c) _
        (check_sell_accounts-decimals a c)
        λ decimals fixed.
          Ensures-bind (FitsQuote a.waln_mint s) Q
            (quote_sale a.waln_mint a.usdc_mint decimals.0 amount s) _
            (quote_sale-FitsQuote a.waln_mint a.usdc_mint decimals.0 amount s)
            λ q fits.
              let fixed' : decimals.0 ≡ h.mint_decimals s.waln_mint =
                fixed ∙ ap h.mint_decimals fits.1 in
              Ensures-bind (MayStart decimals.0 q q.need_round_start rs) Q
                (start_if_needed q decimals.0 rs) _
                (start_if_needed_lem q decimals.0 s rs sound.0 fits.0)
                λ started may.
                  Ensures-bind (λ out. out * 10 ^ decimals.0 ≤ q.waln_amount * q.floor_price) Q
                    (usdc_for q.waln_amount q.floor_price decimals.0) _
                    (usdc_for_lem q.waln_amount q.floor_price decimals.0)
                    λ usdc_out paid. Ensures-skip Q (hook_offset h a c) _ λ offset.
                      Ensures-skip Q
                        (exchange h a c offset q.waln_amount decimals.0 usdc_out decimals.1) _
                        λ w.
                          Ensures-bind (Counts q started.1 usdc_out s) Q
                            (count_sale q started.1 usdc_out s) _
                            (count_sale_lem q started.1 usdc_out s)
                            λ s' counts.
                              let sound' : IsSound s' started.0 =
                                counted-IsSound decimals.0 usdc_out q s s' rs started sound.0 fits.0
                                  may counts in
                              let covered : IsCovered decimals.0 (round_of s') =
                                counted-IsCovered decimals.0 usdc_out a.waln_mint q s s' rs started
                                  (subst (λ d. IsCovered d (round_of s)) (sym fixed') sound.3) fits
                                  may counts paid in
                              let fixed'' : decimals.0 ≡ h.mint_decimals s'.waln_mint =
                                fixed' ∙ ap h.mint_decimals (sym counts.4) in
                              let covered' : IsCoveredBy h (round_of s') =
                                subst (λ d. IsCovered d (round_of s')) fixed'' covered in
                              let kept =
                                MayStart-stakes decimals.0 q q.need_round_start rs started may in
                              let distinct : NoRepeat (keys started.0) =
                                subst NoRepeat (sym (keys-kept rs started.0 kept)) sound.1 in
                              Ensures-if Q (leb q.round_size s'.current_round_waln) _ _
                                (λ e.
                                  let c' : Chain h = record c {
                                    state = s';
                                    pool = record c.pool { investors = started.0 };
                                    world = w;
                                  } in
                                  Ensures-weaken (IsSoundAfter h c') Q
                                    (finish_round h (drop offset a.remaining_accounts) q decimals.0
                                      s c')
                                    (finish_round-IsSound (drop offset a.remaining_accounts) q
                                      decimals.0 s c' (sound', distinct, sound.2, covered') fixed'')
                                    λ c'' done. (done.0, done.1 ∙ kept, done.2 ∙ counts.9))
                                (λ e. ((sound', distinct, sound.2, covered'), kept, counts.9))
