-- ===== src/Program/Invariant/Funds.antt =====
-- The instructions that move USDC into the pool and out of it keep the accounts sound.
use solana_floor_program.Base.{
  ℕ, ◌+◌, ◌≤◌, ◌≡◌, refl, inl, inr, true, ◌||◌, List, [], ◌∷◌, ◌==◌, ltb, arith, length, sym, subst,
  ◌∙◌,
}
use solana_floor_program.Base.Int.{ℤ}
use solana_floor_program.Program.Errors.{
  Result, ok, Ensures, Ensures-self, ok-injective, Ensures-bind, Ensures-skip, Ensures-require,
  Ensures-weaken,
}
use solana_floor_program.Program.Checked.{add_u64, add_u64_lem, sub, sub_lem, add_i64}
use solana_floor_program.Program.State.{Pubkey, ProgramState, InvestorRecord, max_investors}
use solana_floor_program.Program.Host.{Host, transfer_checked, text, byte}
use solana_floor_program.Program.Accounts.{Chain, state_key}
use solana_floor_program.Program.Utils.{verify_aat_nft_and_get_allocation}
use solana_floor_program.Program.Pool.{find_investor, modify_investor, has_investor}
use solana_floor_program.Program.Pool.Distinct.{keys, NoRepeat}
use solana_floor_program.Program.Pool.Sums.{
  with_investor-NoRepeat, deposits, locked, AllIdle, Moves, MovesOne, modify_investor-Moves,
  with_investor-Moves,
}
use solana_floor_program.Program.Instructions.DepositUsdc.{
  DepositUsdc, check_deposit_accounts, deposit_record, with_investor, deposit_usdc,
}
use solana_floor_program.Program.Instructions.WithdrawUsdc.{
  WithdrawUsdc, check_withdraw_accounts, withdraw_amount, withdraw_record, withdraw_usdc,
}
use solana_floor_program.Program.Invariant.{IsPhase, IsSound, IsSoundChain, IsSoundBy}

pub locked-idle : (rs : List InvestorRecord) → AllIdle rs → locked rs ≡ 0
locked-idle [] h = refl
locked-idle (r ∷ rs) h = omega (arith, locked-idle rs h.1, h.0)

-- A write that keeps the locks leaves the phase as it is.
pub IsPhase-kept :
    (s s' : ProgramState) (rs rs' : List InvestorRecord)
    → (AllIdle rs → AllIdle rs')
    → locked rs' ≡ locked rs
    → s'.round_started ≡ s.round_started
    → s'.total_usdc_locked_for_round ≡ s.total_usdc_locked_for_round
    → IsPhase s rs
    → IsPhase s' rs'
IsPhase-kept s s' rs rs' i l e f (inl (off, idle)) = inl (omega arith, i idle)
IsPhase-kept s s' rs rs' i l e f (inr (on, same)) = inr (omega arith, omega arith)

deposit_record_lem :
    (amount aat_vol : ℕ) (lock_seconds now : ℤ) (r : InvestorRecord)
    → Ensures (MovesOne 0 amount r) (deposit_record amount aat_vol lock_seconds now r)
unfolding deposit_record add_u64 add_i64
deposit_record_lem amount aat_vol lock_seconds now r = ground arith

withdraw_record_lem :
    (amount : ℕ) (now : ℤ) (r : InvestorRecord)
    → Ensures (MovesOne (withdraw_amount amount r) 0 r) (withdraw_record amount now r)
unfolding withdraw_record sub
withdraw_record_lem amount now r = ground arith

abbrev Deposited : ℕ → List InvestorRecord → List InvestorRecord → Type 0
Deposited amount rs rs' =
    (deposits rs' ≡ deposits rs + amount)
    × (locked rs' ≡ locked rs)
    × (AllIdle rs → AllIdle rs')
    × (length rs' ≤ max_investors)
    × (NoRepeat (keys rs) → NoRepeat (keys rs'))

-- The pool that a deposit leaves.
deposit_pool_lem :
    (investor : Pubkey) (amount : ℕ) (f : InvestorRecord → Result InvestorRecord)
    (rs : List InvestorRecord)
    → ((r : InvestorRecord) → Ensures (MovesOne 0 amount r) (f r))
    → (ltb (length rs) max_investors || has_investor investor rs) ≡ true
    → length rs ≤ max_investors
    → Ensures (Deposited amount rs) (modify_investor investor f (with_investor investor rs))
deposit_pool_lem investor amount f rs one room bound =
    let w = with_investor-Moves investor rs in
    Ensures-weaken (Moves 0 amount (with_investor investor rs)) (Deposited amount rs) _
      (modify_investor-Moves investor f 0 amount (with_investor investor rs) (λ r found. one r))
      λ rs' m. (
        omega arith,
        omega arith,
        λ i. m.3 (w.2 i),
        ground arith,
        λ d. subst NoRepeat (sym m.4) (with_investor-NoRepeat investor rs d),
      )

withdraw_pool_lem :
    (investor : Pubkey) (amount : ℕ) (now : ℤ) (rs : List InvestorRecord) (r : InvestorRecord)
    → find_investor investor rs ≡ ok r
    → Ensures
        (Moves (withdraw_amount amount r) 0 rs)
        (modify_investor investor (withdraw_record amount now) rs)
withdraw_pool_lem investor amount now rs r found =
    modify_investor-Moves investor (withdraw_record amount now) (withdraw_amount amount r) 0 rs
      λ s e.
        subst
          (λ (q : InvestorRecord).
            Ensures (MovesOne (withdraw_amount amount q) 0 s) (withdraw_record amount now s))
          (ok-injective (sym e ∙ found)) (withdraw_record_lem amount now s)

module _ (h : Host) where
  pub deposit_usdc-IsSound :
      (a : DepositUsdc) (usdc_amount : ℕ) (c : Chain h)
      → IsSoundChain h c
      → Ensures (IsSoundBy h c) (deposit_usdc h a usdc_amount c)
  unfolding deposit_usdc
  deposit_usdc-IsSound a amount c sound =
      Ensures-skip (IsSoundBy h c) (check_deposit_accounts h a c) _ λ passed.
        Ensures-require (IsSoundBy h c) (c.state.frozen == 0) _ _ λ _.
          Ensures-require (IsSoundBy h c) (ltb 0 amount) _ _ λ _.
            Ensures-require (IsSoundBy h c) (a.usdc_mint == c.state.usdc_mint) _ _ λ _.
              Ensures-skip (IsSoundBy h c)
                (verify_aat_nft_and_get_allocation h c.world a.aat_nft a.investor) _
                λ aat_vol. Ensures-require (IsSoundBy h c) (ltb 0 aat_vol) _ _ λ _.
                  Ensures-require (IsSoundBy h c) (passed.1 == 1) _ _ λ _.
                    Ensures-require (IsSoundBy h c)
                      (ltb (length c.pool.investors) max_investors
                        || has_investor a.investor c.pool.investors)
                      _ _
                      λ room.
                        Ensures-skip (IsSoundBy h c)
                          (h.invoke_signed
                            (transfer_checked a.usdc_token_program a.investor_usdc_account
                              a.usdc_mint a.usdc_vault a.investor [] amount passed.0)
                            [] c.world)
                          _
                          λ w.
                            let f =
                              deposit_record amount aat_vol c.state.usdc_withdraw_lock_seconds
                                (h.unix_timestamp w) in
                            Ensures-bind (Deposited amount c.pool.investors) (IsSoundBy h c)
                              (modify_investor a.investor f
                                (with_investor a.investor c.pool.investors))
                              _
                              (deposit_pool_lem a.investor amount f c.pool.investors
                                (deposit_record_lem amount aat_vol
                                  c.state.usdc_withdraw_lock_seconds (h.unix_timestamp w))
                                room sound.0.2)
                              λ rs k.
                                Ensures-bind _ (IsSoundBy h c)
                                  (add_u64 c.state.total_usdc_in_lobby amount) _
                                  (add_u64_lem c.state.total_usdc_in_lobby amount)
                                  λ total t.
                                    let s = record c.state { total_usdc_in_lobby = total } in
                                    let done : IsSound s rs = (
                                      omega arith,
                                      omega arith,
                                      k.3,
                                      IsPhase-kept c.state s c.pool.investors rs k.2 k.1 refl refl
                                          sound.0.3,
                                      sound.0.4,
                                    ) in
                                    ((done, k.4 sound.1, sound.2, sound.3), refl)

  pub withdraw_usdc-IsSound :
      (a : WithdrawUsdc) (amount : ℕ) (c : Chain h)
      → IsSoundChain h c
      → Ensures (IsSoundBy h c) (withdraw_usdc h a amount c)
  unfolding withdraw_usdc
  withdraw_usdc-IsSound a amount c sound =
      Ensures-skip (IsSoundBy h c) (check_withdraw_accounts h a c) _ λ decimals.
        Ensures-require (IsSoundBy h c) (c.state.frozen == 0) _ _ λ _.
          Ensures-require (IsSoundBy h c) (a.usdc_mint == c.state.usdc_mint) _ _ λ _.
            Ensures-bind (λ r. find_investor a.investor c.pool.investors ≡ ok r) (IsSoundBy h c)
              (find_investor a.investor c.pool.investors) _
              (Ensures-self (find_investor a.investor c.pool.investors))
              λ r found.
                let f = withdraw_record amount (h.unix_timestamp c.world) in
                let n = withdraw_amount amount r in
                Ensures-bind (Moves n 0 c.pool.investors) (IsSoundBy h c)
                  (modify_investor a.investor f c.pool.investors) _
                  (withdraw_pool_lem a.investor amount (h.unix_timestamp c.world) c.pool.investors r
                    found)
                  λ rs m.
                    Ensures-skip (IsSoundBy h c)
                      (h.invoke_signed
                        (transfer_checked a.usdc_token_program a.usdc_vault a.usdc_mint
                          a.investor_usdc_account (state_key h) [] n decimals)
                        ((text "contract_state" ∷ byte c.state.bump ∷ []) ∷ []) c.world)
                      _
                      λ w.
                        Ensures-bind _ (IsSoundBy h c) (sub c.state.total_usdc_in_lobby n) _
                          (sub_lem c.state.total_usdc_in_lobby n)
                          λ total t.
                            let s = record c.state { total_usdc_in_lobby = total } in
                            let done : IsSound s rs = (
                              omega arith,
                              omega arith,
                              omega arith,
                              IsPhase-kept c.state s c.pool.investors rs m.3 m.1 refl refl
                                  sound.0.3,
                              sound.0.4,
                            ) in
                            ((done, subst NoRepeat (sym m.4) sound.1, sound.2, sound.3), refl)
