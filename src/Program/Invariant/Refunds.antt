-- ===== src/Program/Invariant/Refunds.antt =====
-- A cancelled round and a removal from the pool keep the accounts sound.
use solana_floor_program.Base.{
  ℕ, ◌+◌, ◌≡◌, refl, inl, true, ◌&&◌, List, [], ◌∷◌, ◌==◌, ltb, arith, length, some, ap, sym, subst,
}
use solana_floor_program.Program.Errors.{
  ok, ok_or, invalid_investor, Ensures, Ensures-self, ok_or_lem, Ensures-bind, Ensures-skip,
  Ensures-require, Ensures-if, Ensures-both,
}
use solana_floor_program.Program.Checked.{add_u64, sub, sub_lem}
use solana_floor_program.Program.State.{Pubkey, ProgramState, InvestorRecord, InvestorPool}
use solana_floor_program.Program.Host.{Host, transfer_checked, text, byte}
use solana_floor_program.Program.Accounts.{Chain, state_key, require_admin}
use solana_floor_program.Program.RoundStart.Locking.{lock}
use solana_floor_program.Program.Pool.{find_investor, position, swap_remove}
use solana_floor_program.Program.Pool.Distinct.{keys, NoRepeat, find_investor-own}
use solana_floor_program.Program.Pool.Stakes.{stakes, stakes-cons, keys-kept}
use solana_floor_program.Program.Pool.Removal.{Removed, swap_remove-Removed}
use solana_floor_program.Program.Allocations.Settled.{AllGood}
use solana_floor_program.Program.Pool.Sums.{deposits, locked, AllIdle, SwapRemoved, swap_remove_lem}
use solana_floor_program.Program.Instructions.Admin.{unlock_one, unlock_all, cancel_round}
use solana_floor_program.Program.Instructions.RemoveInvestor.{
  RemoveInvestorFromPool, check_removal_accounts, refund_investor, remove_investor_from_pool,
}
use solana_floor_program.Program.Invariant.Covered.{IsCoveredBy, round_of}
use solana_floor_program.Program.Invariant.{IsSound, IsSoundChain, IsSoundAfter, office}
use solana_floor_program.Program.Invariant.Funds.{locked-idle, IsPhase-kept}

-- A cancelled round gives every lock back.
abbrev pub Unlocked : List InvestorRecord → List InvestorRecord → Type 0
Unlocked rs rs' =
    (deposits rs' ≡ deposits rs + locked rs)
    × (length rs' ≡ length rs)
    × (stakes rs' ≡ stakes rs)
    × AllIdle rs'

unlock_one_lem :
    (r : InvestorRecord)
    → Ensures
        (λ r'.
          (r'.usdc_deposited ≡ r.usdc_deposited + lock r)
          × (lock r' ≡ 0)
          × (r'.investor ≡ r.investor)
          × (r'.usdc_committed ≡ r.usdc_committed))
        (unlock_one r)
unfolding unlock_one add_u64
unlock_one_lem r = ground arith

pub unlock_all_lem : (rs : List InvestorRecord) → Ensures (Unlocked rs) (unlock_all rs)
unfolding unlock_all
unlock_all_lem [] = (refl, refl, refl, tt)
unlock_all_lem (r ∷ rs) =
    Ensures-bind _ (Unlocked (r ∷ rs)) (unlock_one r) _ (unlock_one_lem r) λ r' e.
      Ensures-bind (Unlocked rs) (Unlocked (r ∷ rs)) (unlock_all rs) _ (unlock_all_lem rs) λ rs' k.
        (omega arith, omega arith, stakes-cons r r' rs rs' e.2 (omega arith) k.2, (e.1, k.3))

-- What a removal finds once the refund has been paid.
abbrev RefundedState : ℕ → ProgramState → ProgramState → Type 0
RefundedState refund s s' =
    (s'.total_usdc_in_lobby + refund ≡ s.total_usdc_in_lobby)
    × (s'.round_started ≡ s.round_started)
    × (s'.total_usdc_locked_for_round ≡ s.total_usdc_locked_for_round)
    × (s'.total_aat_volume ≡ s.total_aat_volume)
    × (round_of s' ≡ round_of s)
    × (office s' ≡ office s)

removed-IsSound :
    (s s' : ProgramState) (rs rs' : List InvestorRecord) (r : InvestorRecord)
    → IsSound s rs
    → (r.aat_volume == 0 && r.usdc_locked_current_round == 0) ≡ true
    → RefundedState r.usdc_deposited s s'
    → SwapRemoved rs r rs'
    → IsSound s' rs'
removed-IsSound s s' rs rs' r sound inactive k m =
    let unlocked : lock r ≡ 0 = ground arith in
    (
      omega arith,
      omega arith,
      omega arith,
      IsPhase-kept s s' rs rs' m.3 (omega arith) k.1 k.2 sound.3,
      omega arith,
    )

module _ (h : Host) where
  abbrev Refunded : ℕ → Chain h → Chain h → Type 0
  Refunded refund c c' =
      RefundedState refund c.state c'.state
      × (c'.pool ≡ c.pool)
      × (c'.round_locked ≡ c.round_locked)

  refund_investor_lem :
      (a : RemoveInvestorFromPool) (decimals refund : ℕ) (c : Chain h)
      → Ensures (Refunded refund c) (refund_investor h a decimals refund c)
  unfolding refund_investor
  refund_investor_lem a decimals refund c =
      Ensures-if (Refunded refund c) (ltb 0 refund) _ _
        (λ e.
          Ensures-skip (Refunded refund c)
            (h.invoke_signed
              (transfer_checked a.usdc_token_program a.usdc_vault a.usdc_mint
                a.investor_usdc_account (state_key h) [] refund decimals)
              ((text "contract_state" ∷ byte c.state.bump ∷ []) ∷ []) c.world)
            _
            λ w.
              Ensures-bind _ (Refunded refund c) (sub c.state.total_usdc_in_lobby refund) _
                (sub_lem c.state.total_usdc_in_lobby refund)
                λ total t. ((t, refl, refl, refl, refl, refl), refl, refl))
        (λ e. ((ground arith, refl, refl, refl, refl, refl), refl, refl))

  pub cancel_round-IsSound :
      (admin : Pubkey) (c : Chain h)
      → IsSoundChain h c
      → Ensures (IsSoundAfter h c) (cancel_round h admin c)
  unfolding cancel_round
  cancel_round-IsSound admin c sound =
      Ensures-skip (IsSoundAfter h c) (require_admin h admin c) _ λ _.
        Ensures-require (IsSoundAfter h c) (c.state.round_started == 1) _ _ λ _.
          Ensures-require (IsSoundAfter h c) (c.state.current_round_waln == 0) _ _ λ _.
            Ensures-bind (Unlocked c.pool.investors) (IsSoundAfter h c)
              (unlock_all c.pool.investors) _ (unlock_all_lem c.pool.investors)
              λ rs k.
                let s = record c.state {
                  round_started = 0;
                  current_round_waln = 0;
                  current_round_usdc_spent = 0;
                  total_usdc_locked_for_round = 0;
                } in
                let done : IsSound s rs = (
                  omega (arith, locked-idle rs k.3),
                  sound.0.1,
                  omega arith,
                  inl (refl, k.3),
                  sound.0.4,
                ) in
                (
                  (
                    done,
                    subst NoRepeat (sym (keys-kept c.pool.investors rs k.2)) sound.1,
                    sound.2,
                    inl (refl, refl),
                  ),
                  k.2,
                  refl,
                )

  -- A record of the key is there before, and none after.
  abbrev RemovesFrom : Pubkey → Chain h → Chain h → Type 0
  RemovesFrom key c c' =
      IsSoundChain h c'
      × ((r : InvestorRecord) × (find_investor key c.pool.investors ≡ ok r))
      × Removed key c.pool.investors c'.pool.investors
      × (office c'.state ≡ office c.state)

  pub remove_investor_from_pool-IsSound :
      (a : RemoveInvestorFromPool) (c : Chain h)
      → IsSoundChain h c
      → Ensures (RemovesFrom a.investor c) (remove_investor_from_pool h a c)
  unfolding remove_investor_from_pool
  remove_investor_from_pool-IsSound a c sound =
      Ensures-skip (RemovesFrom a.investor c) (check_removal_accounts h a c) _ λ decimals.
        Ensures-require (RemovesFrom a.investor c) (a.usdc_mint == c.state.usdc_mint) _ _ λ _.
          Ensures-bind (λ r. find_investor a.investor c.pool.investors ≡ ok r)
            (RemovesFrom a.investor c) (find_investor a.investor c.pool.investors) _
            (Ensures-self (find_investor a.investor c.pool.investors))
            λ r found.
              Ensures-require (RemovesFrom a.investor c)
                (r.aat_volume == 0 && r.usdc_locked_current_round == 0) _ _
                λ inactive.
                  Ensures-bind (Refunded r.usdc_deposited c) (RemovesFrom a.investor c)
                    (refund_investor h a decimals r.usdc_deposited c) _
                    (refund_investor_lem a decimals r.usdc_deposited c)
                    λ c' k.
                      Ensures-bind (λ i. position a.investor c'.pool.investors ≡ some i)
                        (RemovesFrom a.investor c)
                        (ok_or (position a.investor c'.pool.investors) invalid_investor) _
                        (ok_or_lem (position a.investor c'.pool.investors) invalid_investor)
                        λ i p.
                          let qs = c'.pool.investors in
                          let same : qs ≡ c.pool.investors =
                            ap (λ (q : InvestorPool). q.investors) k.1 in
                          let found' : find_investor a.investor qs ≡ ok r = rw same found in
                          let sound' : IsSound c.state qs =
                            subst (IsSound c.state) (sym same) sound.0 in
                          let distinct : NoRepeat (keys qs) =
                            subst (λ ps. NoRepeat (keys ps)) (sym same) sound.1 in
                          Ensures-bind (λ rs. SwapRemoved qs r rs × Removed a.investor qs rs)
                            (RemovesFrom a.investor c) (swap_remove i qs) _
                            (Ensures-both (SwapRemoved qs r) (Removed a.investor qs)
                              (swap_remove i qs) (swap_remove_lem a.investor i qs r p found')
                              (swap_remove-Removed a.investor i qs r distinct p found'
                                (find_investor-own a.investor qs r found')))
                            λ rs m. (
                              (
                                removed-IsSound c.state c'.state qs rs r sound' inactive k.0 m.0,
                                m.1.0,
                                subst AllGood (sym k.2) sound.2,
                                subst (IsCoveredBy h) (sym k.0.4) sound.3,
                              ),
                              (r, found),
                              subst (λ ps. Removed a.investor ps rs) same m.1,
                              k.0.5,
                            )
