-- ===== src/Program/Instructions/Withdrawals.antt =====
-- What a withdrawal does to the records, to the total, and to the token accounts.
use solana_floor_program.Base.{
  ℕ, ◌+◌, ◌<◌, ◌≡◌, List, [], ◌∷◌, arith, ◌==◌, if◌then◌else◌, sym, subst, ◌∙◌,
}
use solana_floor_program.Base.Int.{ℤ, ◌≤ℤ◌}
use solana_floor_program.Program.Errors.{
  Result, ok, err, Ensures, Ensures-self, Ensures-bind, Ensures-skip, Ensures-require,
  Ensures-weaken, ok-injective,
}
use solana_floor_program.Program.Checked.{sub, sub_lem, u64_max}
use solana_floor_program.Program.State.{Pubkey, InvestorRecord}
use solana_floor_program.Program.Host.{Host, transfer_checked, text, byte}
use solana_floor_program.Program.Accounts.{Chain, state_key}
use solana_floor_program.Program.Pool.{find_investor, modify_investor}
use solana_floor_program.Program.Pool.Keys.{
  OthersKept, OwnChanged, modify_investor-OthersKept, modify_investor-OwnChanged,
}
use solana_floor_program.Program.Instructions.WithdrawUsdc.{
  WithdrawUsdc, withdraw_record, check_withdraw_accounts, withdraw_usdc,
}

-- What a withdrawal asks for: all of the deposit if the amount is the largest 64-bit number.
abbrev pub asked_for : ℕ → InvestorRecord → ℕ
asked_for amount r = if amount == u64_max then r.usdc_deposited else amount

-- An unlocked record, some of whose deposit is taken, and nothing else of it.
abbrev pub TakesOut : ℕ → ℤ → InvestorRecord → InvestorRecord → Type 0
TakesOut amount now r r' =
    (r.usdc_unlock_ts ≤ℤ now)
    × (0 < asked_for amount r)
    × (r'.usdc_deposited + asked_for amount r ≡ r.usdc_deposited)
    × (r'.usdc_locked_current_round ≡ r.usdc_locked_current_round)
    × (r'.usdc_committed ≡ r.usdc_committed)
    × (r'.waln_purchased_total ≡ r.waln_purchased_total)
    × (r'.aat_volume ≡ r.aat_volume)
    × (r'.usdc_unlock_ts ≡ r.usdc_unlock_ts)

withdraw_record-TakesOut :
    (amount : ℕ) (now : ℤ) (r : InvestorRecord)
    → Ensures
        (λ r'. (r'.investor ≡ r.investor) × TakesOut amount now r r')
        (withdraw_record amount now r)
unfolding withdraw_record sub
withdraw_record-TakesOut amount now r = ground arith

-- The records after a withdrawal, with the one that was found before it.
abbrev Taken : Pubkey → ℕ → ℤ → List InvestorRecord → InvestorRecord → List InvestorRecord → Type 0
Taken key amount now rs r rs' =
    ((r' : InvestorRecord) × (find_investor key rs' ≡ ok r') × TakesOut amount now r r')
    × OthersKept key rs rs'

taken_lem :
    (key : Pubkey) (amount : ℕ) (now : ℤ) (rs : List InvestorRecord) (r : InvestorRecord)
    → find_investor key rs ≡ ok r
    → Ensures (Taken key amount now rs r) (modify_investor key (withdraw_record amount now) rs)
taken_lem key amount now rs r found =
    let f = withdraw_record amount now in
    go (modify_investor key f rs)
      (modify_investor-OwnChanged (TakesOut amount now) key f rs
        (withdraw_record-TakesOut amount now))
      (modify_investor-OthersKept key f rs (λ s.
        Ensures-weaken (λ s'. (s'.investor ≡ s.investor) × TakesOut amount now s s')
          (λ s'. s'.investor ≡ s.investor) (f s) (withdraw_record-TakesOut amount now s)
          (λ s' k. k.0)))
  where
    go :
        (m : Result (List InvestorRecord))
        → Ensures (OwnChanged (TakesOut amount now) key rs) m
        → Ensures (OthersKept key rs) m
        → Ensures (Taken key amount now rs r) m
    go (ok rs') (s, s', before, after, p) others = (
      (s', after, subst (λ q. TakesOut amount now q s') (ok-injective (sym before ∙ found)) p),
      others,
    )
    go (err e) own others = tt

module _ (h : Host) where
  -- A withdrawal of an investor's, from one chain to another, seen from outside.
  abbrev pub Withdraws : WithdrawUsdc → ℕ → Chain h → Chain h → Type 0
  Withdraws a amount c c' =
      (r : InvestorRecord) × (decimals : ℕ) × (find_investor a.investor c.pool.investors ≡ ok r)
      × Taken a.investor amount (h.unix_timestamp c.world) c.pool.investors r c'.pool.investors
      × (c'.state.total_usdc_in_lobby + asked_for amount r ≡ c.state.total_usdc_in_lobby)
      × (h.invoke_signed
            (transfer_checked a.usdc_token_program a.usdc_vault a.usdc_mint a.investor_usdc_account
              (state_key h) [] (asked_for amount r) decimals)
            ((text "contract_state" ∷ byte c.state.bump ∷ []) ∷ []) c.world
          ≡ ok c'.world)

  -- A withdrawal that succeeds: the investor's record was unlocked, and loses exactly the amount,
  -- all of the deposit if the amount is the largest 64-bit number, and nothing else of it changes.
  -- The amount is not 0, the state's total falls by it, the token program was asked to move just
  -- that from the vault to the investor's account, and every other investor's record is as before.
  pub withdraw_usdc-Withdraws :
      (a : WithdrawUsdc) (amount : ℕ) (c : Chain h)
      → Ensures (Withdraws a amount c) (withdraw_usdc h a amount c)
  unfolding withdraw_usdc
  withdraw_usdc-Withdraws a amount c =
      let Q = Withdraws a amount c in
      let rs = c.pool.investors in
      let now = h.unix_timestamp c.world in
      Ensures-skip Q (check_withdraw_accounts h a c) _ λ decimals.
        Ensures-require Q (c.state.frozen == 0) _ _ λ _.
          Ensures-require Q (a.usdc_mint == c.state.usdc_mint) _ _ λ _.
            Ensures-bind (λ r. find_investor a.investor rs ≡ ok r) Q (find_investor a.investor rs) _
              (Ensures-self (find_investor a.investor rs))
              λ r found.
                let n = asked_for amount r in
                Ensures-bind (Taken a.investor amount now rs r) Q
                  (modify_investor a.investor (withdraw_record amount now) rs) _
                  (taken_lem a.investor amount now rs r found)
                  λ rs' taken.
                    let m =
                      h.invoke_signed
                        (transfer_checked a.usdc_token_program a.usdc_vault a.usdc_mint
                          a.investor_usdc_account (state_key h) [] n decimals)
                        ((text "contract_state" ∷ byte c.state.bump ∷ []) ∷ []) c.world in
                    Ensures-bind (λ w. m ≡ ok w) Q m _ (Ensures-self m)
                      λ w moved.
                        Ensures-bind (λ t. t + n ≡ c.state.total_usdc_in_lobby) Q
                          (sub c.state.total_usdc_in_lobby n) _
                          (sub_lem c.state.total_usdc_in_lobby n)
                          λ total t. (r, decimals, found, taken, t, moved)
