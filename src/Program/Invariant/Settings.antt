-- ===== src/Program/Invariant/Settings.antt =====
-- The instructions that move no USDC keep the accounts sound.
use solana_floor_program.Base.{
  ℕ, ◌≤◌, ◌≡◌, ◌≢◌, ap, refl, inl, inr, Bool, not, List, [], ◌∷◌, ◌==◌, ltb, leb, arith, subst, sym,
}
use solana_floor_program.Base.Int.{ℤ, pos, leb_ℤ}
use solana_floor_program.Program.Errors.{
  ok, Ensures, Ensures-bind, Ensures-skip, Ensures-require, Ensures-if, check, ok_or,
  invalid_mint_account_space,
}
use solana_floor_program.Program.State.{Pubkey, default_key, ProgramState, InvestorRecord}
use solana_floor_program.Program.Checked.{add_u64, sub}
use solana_floor_program.Program.Host.{Host, transfer, update_field, text, byte}
use solana_floor_program.Program.Host.Metadata.{print_u64}
use solana_floor_program.Program.Utils.{aat_volume_field, verify_aat_nft_and_get_allocation}
use solana_floor_program.Program.RoundAccounts.{own_signer}
use solana_floor_program.Program.Accounts.{
  Chain, require_admin, treasury_key, pda, aat_nft_seeds, nft_authority_key,
}
use solana_floor_program.Program.Pool.{has_investor, modify_investor}
use solana_floor_program.Program.Pool.Distinct.{NoRepeat}
use solana_floor_program.Program.Allocations.Settled.{AllGood}
use solana_floor_program.Program.Pool.Sums.{Moves, modify_investor-Moves}
use solana_floor_program.Program.RoundStart.{require_viable_round_params}
use solana_floor_program.Program.Instructions.Admin.{
  set_floor_price, set_round_size, set_lock_period, set_usdc_withdraw_lock,
  set_investor_usdc_unlock, set_sell_paused, set_frozen, fund_treasury, withdraw_treasury,
}
use solana_floor_program.Program.Instructions.Authority.{transfer_authority, accept_authority}
use solana_floor_program.Program.Instructions.AatNft.{
  max_total_aat_volume, set_volume, add_volume, replace_volume, create_aat_mint,
  initialize_aat_mint, issue_aat, mint_aat_nft, update_aat_volume,
}
use solana_floor_program.Program.Invariant.Covered.{IsCoveredBy, round_of}
use solana_floor_program.Program.Invariant.{IsPhase, IsSound, IsSoundChain, IsSoundAfter, office}

-- The state keeps what the invariant reads.
abbrev pub KeepsFunds : ProgramState → ProgramState → Type 0
KeepsFunds s s' =
    (s'.total_usdc_in_lobby ≡ s.total_usdc_in_lobby)
    × (s'.round_started ≡ s.round_started)
    × (s'.total_usdc_locked_for_round ≡ s.total_usdc_locked_for_round)
    × (s.total_aat_volume ≤ max_total_aat_volume → s'.total_aat_volume ≤ max_total_aat_volume)
    × (round_of s' ≡ round_of s)

-- A write to the pool that moves no USDC.
abbrev pub Still : List InvestorRecord → List InvestorRecord → Type 0
Still = Moves 0 0

pub IsSound-kept :
    (s s' : ProgramState) (rs rs' : List InvestorRecord)
    → KeepsFunds s s'
    → Still rs rs'
    → IsSound s rs
    → IsSound s' rs'
IsSound-kept s s' rs rs' k m sound =
    (omega arith, omega arith, omega arith, phase sound.3, k.3 sound.4)
  where
    phase : IsPhase s rs → IsPhase s' rs'
    phase (inl (off, idle)) = inl (omega arith, m.3 idle)
    phase (inr (on, same)) = inr (omega arith, omega arith)

pub Still-refl : (rs : List InvestorRecord) → Still rs rs
Still-refl rs = (refl, refl, refl, λ i. i, refl, λ z. refl)

pub set_volume-Still :
    (investor : Pubkey) (volume : ℕ) (rs : List InvestorRecord)
    → Ensures (Still rs) (set_volume investor volume rs)
set_volume-Still investor volume rs =
    Ensures-if (Still rs) (has_investor investor rs) _ _
      (λ e.
        modify_investor-Moves investor (λ r. ok (record r { aat_volume = volume })) 0 0 rs
          (λ r found. (refl, refl, refl, refl)))
      (λ e. Still-refl rs)

-- What an instruction keeps that changes neither funds nor locks.
abbrev pub Keeps : (h : Host) → Chain h → Chain h → Type 0
Keeps h c c' =
    KeepsFunds c.state c'.state
    × Still c.pool.investors c'.pool.investors
    × (AllGood c.round_locked → AllGood c'.round_locked)
    × (office c'.state ≡ office c.state)

pub Keeps-IsSoundAfter :
    (h : Host) (c c' : Chain h) → Keeps h c c' → IsSoundChain h c → IsSoundAfter h c c'
Keeps-IsSoundAfter h c c' e sound = (
  (
    IsSound-kept c.state c'.state c.pool.investors c'.pool.investors e.0 e.1 sound.0,
    subst NoRepeat (sym e.1.4) sound.1,
    e.2 sound.2,
    subst (IsCoveredBy h) (sym e.0.4) sound.3,
  ),
  e.1.5 refl,
  e.3,
)

-- Each instruction, and what it keeps.
add_volume-KeepsFunds :
    (n : ℕ) (s : ProgramState)
    → Ensures (λ s'. KeepsFunds s s' × (office s' ≡ office s)) (add_volume n s)
unfolding add_volume add_u64
add_volume-KeepsFunds n s = ground arith

replace_volume-KeepsFunds :
    (old new : ℕ) (s : ProgramState)
    → Ensures (λ s'. KeepsFunds s s' × (office s' ≡ office s)) (replace_volume old new s)
unfolding replace_volume add_u64 sub
replace_volume-KeepsFunds old new s = ground arith

module _ (h : Host) where
  pub set_floor_price-Keeps :
      (admin : Pubkey) (n : ℕ) (c : Chain h) → Ensures (Keeps h c) (set_floor_price h admin n c)
  unfolding set_floor_price
  set_floor_price-Keeps admin n c = Ensures-skip (Keeps h c) (require_admin h admin c) _ λ _.
      Ensures-require (Keeps h c) (ltb 0 n) _ _ λ _.
        Ensures-skip (Keeps h c)
          (require_viable_round_params c.state.round_size_waln n c.state.waln_decimals) _
          λ _. ((refl, refl, refl, λ v. v, refl), Still-refl c.pool.investors, λ g. g, refl)

  pub set_round_size-Keeps :
      (admin : Pubkey) (n : ℕ) (c : Chain h) → Ensures (Keeps h c) (set_round_size h admin n c)
  unfolding set_round_size
  set_round_size-Keeps admin n c = Ensures-skip (Keeps h c) (require_admin h admin c) _ λ _.
      Ensures-require (Keeps h c) (ltb 0 n) _ _ λ _.
        Ensures-skip (Keeps h c)
          (require_viable_round_params n c.state.floor_price_usdc c.state.waln_decimals) _
          λ _. ((refl, refl, refl, λ v. v, refl), Still-refl c.pool.investors, λ g. g, refl)

  pub set_lock_period-Keeps :
      (admin : Pubkey) (n : ℤ) (c : Chain h) → Ensures (Keeps h c) (set_lock_period h admin n c)
  unfolding set_lock_period
  set_lock_period-Keeps admin n c = Ensures-skip (Keeps h c) (require_admin h admin c) _ λ _.
      Ensures-require (Keeps h c) (leb_ℤ (pos 0) n) _ _
        λ _. ((refl, refl, refl, λ v. v, refl), Still-refl c.pool.investors, λ g. g, refl)

  pub set_usdc_withdraw_lock-Keeps :
      (admin : Pubkey) (n : ℤ) (c : Chain h)
      → Ensures (Keeps h c) (set_usdc_withdraw_lock h admin n c)
  unfolding set_usdc_withdraw_lock
  set_usdc_withdraw_lock-Keeps admin n c = Ensures-skip (Keeps h c) (require_admin h admin c) _ λ _.
      Ensures-require (Keeps h c) (leb_ℤ (pos 0) n) _ _
        λ _. ((refl, refl, refl, λ v. v, refl), Still-refl c.pool.investors, λ g. g, refl)

  pub set_investor_usdc_unlock-Keeps :
      (admin : Pubkey) (investor : Pubkey) (n : ℤ) (c : Chain h)
      → Ensures (Keeps h c) (set_investor_usdc_unlock h admin investor n c)
  unfolding set_investor_usdc_unlock
  set_investor_usdc_unlock-Keeps admin investor n c =
      Ensures-skip (Keeps h c) (require_admin h admin c) _ λ _.
        Ensures-bind (Still c.pool.investors) (Keeps h c)
          (modify_investor investor (λ r. ok (record r { usdc_unlock_ts = n })) c.pool.investors) _
          (modify_investor-Moves investor (λ r. ok (record r { usdc_unlock_ts = n })) 0 0
            c.pool.investors (λ r found. (refl, refl, refl, refl)))
          λ rs m. ((refl, refl, refl, λ v. v, refl), m, λ g. g, refl)

  pub set_sell_paused-Keeps :
      (admin : Pubkey) (b : Bool) (c : Chain h) → Ensures (Keeps h c) (set_sell_paused h admin b c)
  unfolding set_sell_paused
  set_sell_paused-Keeps admin b c =
      Ensures-skip (Keeps h c) (require_admin h admin c) _
        λ _. ((refl, refl, refl, λ v. v, refl), Still-refl c.pool.investors, λ g. g, refl)

  pub set_frozen-Keeps :
      (admin : Pubkey) (b : Bool) (c : Chain h) → Ensures (Keeps h c) (set_frozen h admin b c)
  unfolding set_frozen
  set_frozen-Keeps admin b c =
      Ensures-skip (Keeps h c) (require_admin h admin c) _
        λ _. ((refl, refl, refl, λ v. v, refl), Still-refl c.pool.investors, λ g. g, refl)

  -- What the two steps of a change of the administrator leave, against the chain with just that
  -- change.
  pub transfer_authority-Keeps :
      (admin : Pubkey) (new_admin : Pubkey) (c : Chain h)
      → Ensures
          (λ c'.
            (c.state.admin ≡ admin)
            × Keeps h (record c { state = record c.state { pending_admin = new_admin } }) c')
          (transfer_authority h admin new_admin c)
  unfolding transfer_authority require_admin
  transfer_authority-Keeps admin new_admin c =
      let c1 = record c { state = record c.state { pending_admin = new_admin } } in
      let Q : Chain h → Type 0 = λ c'. (c.state.admin ≡ admin) × Keeps h c1 c' in
      Ensures-require Q (c.state.admin == admin) _ _ λ own. (
        ground arith,
        ((refl, refl, refl, λ v. v, refl), Still-refl c.pool.investors, λ g. g, refl),
      )

  pub accept_authority-Keeps :
      (key : Pubkey) (c : Chain h)
      → Ensures
          (λ c'.
            ((c.state.pending_admin ≡ key) × (key ≢ default_key))
            × Keeps h
                (record c { state = record c.state { admin = key; pending_admin = default_key } })
                c')
          (accept_authority h key c)
  unfolding accept_authority
  accept_authority-Keeps key c =
      let c1 = record c { state = record c.state { admin = key; pending_admin = default_key } } in
      let Q : Chain h → Type 0 =
        λ c'. ((c.state.pending_admin ≡ key) × (key ≢ default_key)) × Keeps h c1 c' in
      Ensures-require Q (not (c.state.pending_admin == default_key)) _ _ λ given.
        Ensures-require Q (c.state.pending_admin == key) _ _ λ own.
          let same : c.state.pending_admin ≡ key = ground arith in
          let named : key ≢ default_key = λ e. ground arith in
          (
            (same, named),
            (
              (refl, refl, refl, λ v. v, refl),
              Still-refl c.pool.investors,
              λ g. g,
              ap (λ k. (k, default_key)) same,
            ),
          )

  pub fund_treasury-Keeps :
      (admin : Pubkey) (n : ℕ) (c : Chain h) → Ensures (Keeps h c) (fund_treasury h admin n c)
  unfolding fund_treasury
  fund_treasury-Keeps admin n c = Ensures-skip (Keeps h c) (require_admin h admin c) _ λ _.
      Ensures-require (Keeps h c) (ltb 0 n) _ _ λ _.
        Ensures-skip (Keeps h c) (h.invoke_signed (transfer admin (treasury_key h) n) [] c.world) _
          λ w. ((refl, refl, refl, λ v. v, refl), Still-refl c.pool.investors, λ g. g, refl)

  pub withdraw_treasury-Keeps :
      (admin : Pubkey) (n : ℕ) (c : Chain h) → Ensures (Keeps h c) (withdraw_treasury h admin n c)
  unfolding withdraw_treasury
  withdraw_treasury-Keeps admin n c = Ensures-skip (Keeps h c) (require_admin h admin c) _ λ _.
      Ensures-require (Keeps h c) (ltb 0 n) _ _ λ _.
        Ensures-require (Keeps h c) (leb n (h.lamports c.world (treasury_key h))) _ _ λ _.
          Ensures-skip (Keeps h c)
            (h.invoke_signed (transfer (treasury_key h) admin n)
              ((text "treasury"
                  ∷ byte (h.find_program_address (text "treasury" ∷ []) h.program_id).1
                  ∷ [])
                ∷ [])
              c.world)
            _ λ w. ((refl, refl, refl, λ v. v, refl), Still-refl c.pool.investors, λ g. g, refl)

  pub mint_aat_nft-Keeps :
      (admin : Pubkey) (investor account : Pubkey) (volume : ℕ) (c : Chain h)
      → Ensures (Keeps h c) (mint_aat_nft h admin investor account volume c)
  unfolding mint_aat_nft
  mint_aat_nft-Keeps admin investor account volume c =
      Ensures-skip (Keeps h c) (require_admin h admin c) _ λ _.
        Ensures-require (Keeps h c) (ltb 0 volume) _ _ λ _.
          Ensures-require (Keeps h c) (c.state.frozen == 0) _ _ λ _.
            Ensures-bind (λ s'. KeepsFunds c.state s' × (office s' ≡ office c.state)) (Keeps h c)
              (add_volume volume c.state) _ (add_volume-KeepsFunds volume c.state)
              λ s e.
                Ensures-skip (Keeps h c) (ok_or h.aat_mint_space invalid_mint_account_space) _
                  λ space.
                    Ensures-skip (Keeps h c) (create_aat_mint h admin investor space c.world) _
                      λ w1.
                        Ensures-skip (Keeps h c) (initialize_aat_mint h investor volume w1) _ λ w2.
                          Ensures-skip (Keeps h c) (issue_aat h admin investor account w2) _
                            λ w3. (e.0, Still-refl c.pool.investors, λ g. g, e.1)

  pub update_aat_volume-Keeps :
      (admin : Pubkey) (investor mint : Pubkey) (volume : ℕ) (c : Chain h)
      → Ensures (Keeps h c) (update_aat_volume h admin investor mint volume c)
  unfolding update_aat_volume
  update_aat_volume-Keeps admin investor mint volume c =
      Ensures-skip (Keeps h c) (require_admin h admin c) _ λ _.
        Ensures-skip (Keeps h c) (check (mint == pda h (aat_nft_seeds h investor))) _ λ _.
          Ensures-require (Keeps h c) (c.state.round_started == 0) _ _ λ _.
            Ensures-skip (Keeps h c) (verify_aat_nft_and_get_allocation h c.world mint investor) _
              λ old.
                Ensures-bind (λ s'. KeepsFunds c.state s' × (office s' ≡ office c.state))
                  (Keeps h c) (replace_volume old volume c.state) _
                  (replace_volume-KeepsFunds old volume c.state)
                  λ s e.
                    Ensures-skip (Keeps h c)
                      (h.invoke_signed
                        (update_field mint (nft_authority_key h) aat_volume_field
                          (print_u64 volume))
                        (own_signer h (text "nft_authority" ∷ []) ∷ []) c.world)
                      _
                      λ w.
                        Ensures-bind (Still c.pool.investors) (Keeps h c)
                          (set_volume investor volume c.pool.investors) _
                          (set_volume-Still investor volume c.pool.investors)
                          λ rs m. (e.0, m, λ g. g, e.1)
