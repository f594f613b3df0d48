-- ===== src/Program/Instructions/Deposits.antt =====
-- What a deposit does to the records, to the total, and to the token accounts.
use solana_floor_program.Base.{
  ℕ, ◌+◌, ◌<◌, ◌≡◌, refl, ◌⊎◌, inl, inr, false, ◌||◌, List, [], ◌∷◌, ◌++◌, arith, ltb,
  if◌then◌else◌, ◌==◌, length, ◌∙◌, Bool-cases,
}
use solana_floor_program.Base.Int.{ℤ, pos, ◌+ℤ◌, ltb_ℤ, max_ℤ}
use solana_floor_program.Program.Errors.{
  Result, ok, err, Ensures, Ensures-self, Ensures-bind, Ensures-skip, Ensures-require,
  Ensures-weaken,
}
use solana_floor_program.Program.Checked.{add_u64, add_u64_lem, add_i64}
use solana_floor_program.Program.State.{Pubkey, InvestorRecord, max_investors}
use solana_floor_program.Program.Host.{Host, transfer_checked}
use solana_floor_program.Program.Accounts.{Chain}
use solana_floor_program.Program.Utils.{verify_aat_nft_and_get_allocation}
use solana_floor_program.Program.Pool.{has_investor, find_investor, modify_investor, new_record}
use solana_floor_program.Program.Pool.Keys.{
  OthersKept, OwnChanged, modify_investor-OthersKept, modify_investor-OwnChanged,
}
use solana_floor_program.Program.Instructions.DepositUsdc.{
  DepositUsdc, check_deposit_accounts, deposit_record, with_investor, deposit_usdc,
}

find-snoc_other :
    (key k : Pubkey) (rs : List InvestorRecord)
    → ¬ (k ≡ key)
    → find_investor k (rs ++ (new_record key ∷ [])) ≡ find_investor k rs
unfolding find_investor new_record
find-snoc_other key k [] other = ground arith
find-snoc_other key k (r ∷ rs) other = ground (arith, find-snoc_other key k rs other)

find-snoc_own :
    (key : Pubkey) (rs : List InvestorRecord)
    → has_investor key rs ≡ false
    → find_investor key (rs ++ (new_record key ∷ [])) ≡ ok (new_record key)
unfolding find_investor has_investor new_record
find-snoc_own key [] e = ground arith
find-snoc_own key (r ∷ rs) e = ground (arith, find-snoc_own key rs)

-- The record that a deposit goes into: the investor's own, or a new one with nothing in it.
abbrev pub IsOwn : Pubkey → List InvestorRecord → InvestorRecord → Type 0
IsOwn key rs r =
    (find_investor key rs ≡ ok r) ⊎ ((has_investor key rs ≡ false) × (r ≡ new_record key))

with_investor-OthersKept :
    (key : Pubkey) (rs : List InvestorRecord) → OthersKept key rs (with_investor key rs)
with_investor-OthersKept key rs k other = elim (Bool-cases (has_investor key rs)) [
  | inl e ↦ rw e refl
  | inr e ↦ rw e (find-snoc_other key k rs other)
]

with_investor-IsOwn :
    (key : Pubkey) (rs : List InvestorRecord) (r : InvestorRecord)
    → find_investor key (with_investor key rs) ≡ ok r
    → IsOwn key rs r
with_investor-IsOwn key rs r found = elim (Bool-cases (has_investor key rs)) [
  | inl e ↦ inl (rw e at found)
  | inr e ↦
      let own = find-snoc_own key rs e in
      let there : find_investor key (rs ++ (new_record key ∷ [])) ≡ ok r = rw e at found in
      inr (e, cc)
]

-- The time until which a deposit is locked: with a positive lock time, the later of what it was and
-- the lock time from now.
abbrev pub unlock_after : ℤ → ℤ → ℤ → ℤ
unlock_after lock_seconds now before =
    if ltb_ℤ (pos 0) lock_seconds then max_ℤ before (now +ℤ lock_seconds) else before

-- The deposit grows, the volume is the NFT's, and the lock time begins.
abbrev pub PutsIn : ℕ → ℕ → ℤ → ℤ → InvestorRecord → InvestorRecord → Type 0
PutsIn amount aat_vol lock_seconds now r r' =
    (r'.usdc_deposited ≡ r.usdc_deposited + amount)
    × (r'.aat_volume ≡ aat_vol)
    × (r'.usdc_unlock_ts ≡ unlock_after lock_seconds now r.usdc_unlock_ts)
    × (r'.usdc_locked_current_round ≡ r.usdc_locked_current_round)
    × (r'.usdc_committed ≡ r.usdc_committed)
    × (r'.waln_purchased_total ≡ r.waln_purchased_total)

deposit_record-PutsIn :
    (amount aat_vol : ℕ) (lock_seconds now : ℤ) (r : InvestorRecord)
    → Ensures
        (λ r'. (r'.investor ≡ r.investor) × PutsIn amount aat_vol lock_seconds now r r')
        (deposit_record amount aat_vol lock_seconds now r)
unfolding deposit_record add_u64 add_i64
deposit_record-PutsIn amount aat_vol lock_seconds now r = ground arith

-- The records after a deposit.
abbrev Put : Pubkey → ℕ → ℕ → ℤ → ℤ → List InvestorRecord → List InvestorRecord → Type 0
Put key amount aat_vol lock_seconds now rs rs' =
    ((r r' : InvestorRecord) × IsOwn key rs r
      × (find_investor key rs' ≡ ok r')
      × PutsIn amount aat_vol lock_seconds now r r')
    × OthersKept key rs rs'

put_lem :
    (key : Pubkey) (amount aat_vol : ℕ) (lock_seconds now : ℤ) (rs : List InvestorRecord)
    → Ensures (Put key amount aat_vol lock_seconds now rs) (
        modify_investor key (deposit_record amount aat_vol lock_seconds now) (with_investor key rs))
put_lem key amount aat_vol lock_seconds now rs =
    let f = deposit_record amount aat_vol lock_seconds now in
    let qs = with_investor key rs in
    go (modify_investor key f qs)
      (modify_investor-OwnChanged (PutsIn amount aat_vol lock_seconds now) key f qs
        (deposit_record-PutsIn amount aat_vol lock_seconds now))
      (modify_investor-OthersKept key f qs (λ s.
        Ensures-weaken
          (λ s'. (s'.investor ≡ s.investor) × PutsIn amount aat_vol lock_seconds now s s')
          (λ s'. s'.investor ≡ s.investor) (f s)
          (deposit_record-PutsIn amount aat_vol lock_seconds now s) (λ s' k. k.0)))
  where
    go :
        (m : Result (List InvestorRecord))
        → Ensures (OwnChanged (PutsIn amount aat_vol lock_seconds now) key (with_investor key rs)) m
        → Ensures (OthersKept key (with_investor key rs)) m
        → Ensures (Put key amount aat_vol lock_seconds now rs) m
    go (ok rs') (s, s', before, after, p) others = (
      (s, s', with_investor-IsOwn key rs s before, after, p),
      λ k other. others k other ∙ with_investor-OthersKept key rs k other,
    )
    go (err e) own others = tt

module _ (h : Host) where
  abbrev pub MakesDeposit : DepositUsdc → ℕ → Chain h → Chain h → Type 0
  MakesDeposit a amount c c' =
      (aat_vol : ℕ) × (decimals : ℕ) × (0 < amount)
      × (0 < aat_vol)
      × (verify_aat_nft_and_get_allocation h c.world a.aat_nft a.investor ≡ ok aat_vol)
      × Put a.investor amount aat_vol c.state.usdc_withdraw_lock_seconds (h.unix_timestamp c'.world)
          c.pool.investors c'.pool.investors
      × (c'.state.total_usdc_in_lobby ≡ c.state.total_usdc_in_lobby + amount)
      × (h.invoke_signed
            (transfer_checked a.usdc_token_program a.investor_usdc_account a.usdc_mint a.usdc_vault
              a.investor [] amount decimals)
            [] c.world
          ≡ ok c'.world)

  -- A deposit that succeeds: neither the amount nor the volume read from the investor's AAT NFT is
  -- 0. The investor's record, or a new and empty one if there was none, has the amount more on
  -- deposit and that volume. If the settings lock deposits for a time, its unlock time is the later of
  -- what it was and that time from now, else it stays. Its lock and what it committed and bought stay as they were. The
  -- state's total grows by the amount, the token program was asked to move just that from the
  -- investor's account to the vault, and every other investor's record is as before.
  pub deposit_usdc-MakesDeposit :
      (a : DepositUsdc) (amount : ℕ) (c : Chain h)
      → Ensures (MakesDeposit a amount c) (deposit_usdc h a amount c)
  unfolding deposit_usdc
  deposit_usdc-MakesDeposit a amount c =
      let Q = MakesDeposit a amount c in
      let rs = c.pool.investors in
      let read = verify_aat_nft_and_get_allocation h c.world a.aat_nft a.investor in
      Ensures-skip Q (check_deposit_accounts h a c) _ λ passed.
        Ensures-require Q (c.state.frozen == 0) _ _ λ _.
          Ensures-require Q (ltb 0 amount) _ _ λ some_amount.
            Ensures-require Q (a.usdc_mint == c.state.usdc_mint) _ _ λ _.
              Ensures-bind (λ v. read ≡ ok v) Q read _ (Ensures-self read)
                λ aat_vol volume. Ensures-require Q (ltb 0 aat_vol) _ _ λ some_volume.
                  Ensures-require Q (passed.1 == 1) _ _ λ _.
                    Ensures-require Q (ltb (length rs) max_investors || has_investor a.investor rs)
                      _ _
                      λ _.
                        let m =
                          h.invoke_signed
                            (transfer_checked a.usdc_token_program a.investor_usdc_account
                              a.usdc_mint a.usdc_vault a.investor [] amount passed.0)
                            [] c.world in
                        Ensures-bind (λ w. m ≡ ok w) Q m _ (Ensures-self m)
                          λ w moved.
                            let lock_seconds = c.state.usdc_withdraw_lock_seconds in
                            Ensures-bind
                              (Put a.investor amount aat_vol lock_seconds (h.unix_timestamp w) rs) Q
                              (modify_investor a.investor
                                (deposit_record amount aat_vol lock_seconds (h.unix_timestamp w))
                                (with_investor a.investor rs))
                              _
                              (put_lem a.investor amount aat_vol lock_seconds (h.unix_timestamp w)
                                rs)
                              λ rs' put.
                                Ensures-bind _ Q (add_u64 c.state.total_usdc_in_lobby amount) _
                                  (add_u64_lem c.state.total_usdc_in_lobby amount)
                                  λ total t.
                                    let some_amount' : 0 < amount = ground arith in
                                    let some_volume' : 0 < aat_vol = ground arith in
                                    (
                                      aat_vol, passed.0, some_amount', some_volume', volume, put,
                                      t.0, moved,
                                    )
