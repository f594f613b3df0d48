-- ===== src/Program/Dispatch/Guards.antt =====
-- Who may call what, and when.
use solana_floor_program.Base.{
  ℕ, ◌≡◌, refl, inl, inr, Bool, true, false, Option, none, some, arith, ◌==◌, Option-cases, sym,
  ◌∙◌,
}
use solana_floor_program.Program.Errors.{
  Result, ok, err, ◌>>=◌, floor, unauthorized, Ensures, Ensures-bind, Ensures-skip, Ensures-require,
}
use solana_floor_program.Program.State.{Pubkey, ProgramState}
use solana_floor_program.Program.Host.{Host}
use solana_floor_program.Program.Accounts.{Chain, require_admin, pda, round_locked_seeds}
use solana_floor_program.Program.Instructions.Admin
use solana_floor_program.Program.Instructions.Authority
use solana_floor_program.Program.Instructions.AatNft
use solana_floor_program.Program.Instructions.CloseRound
use solana_floor_program.Program.Instructions.DepositUsdc.{check_deposit_accounts, deposit_usdc}
use solana_floor_program.Program.Instructions.WithdrawUsdc.{check_withdraw_accounts, withdraw_usdc}
use solana_floor_program.Program.Instructions.RemoveInvestor.{
  check_removal_accounts, remove_investor_from_pool,
}
use solana_floor_program.Program.Instructions.SellWaln.{check_sell_accounts, sell_waln}
use solana_floor_program.Program.Instructions.SellWaln.Pricing.{quote_sale}
use solana_floor_program.Program.Instructions.ClaimWaln.{check_claim_accounts, claim_waln}
use solana_floor_program.Program.Dispatch.{
  Call, dispatch, set_floor_price, set_round_size, set_lock_period, set_usdc_withdraw_lock,
  set_investor_usdc_unlock, set_sell_paused, set_frozen, cancel_round, remove_investor, close_round,
  fund_treasury, withdraw_treasury, deposit, withdraw, sell, claim, mint_aat, update_aat,
  transfer_authority, accept_authority, close_round_record,
}

-- The key that an instruction of the administrator's is signed with.
abbrev pub admin_of : Call → Option Pubkey
admin_of (set_floor_price admin n) = some admin
admin_of (set_round_size admin n) = some admin
admin_of (set_lock_period admin n) = some admin
admin_of (set_usdc_withdraw_lock admin n) = some admin
admin_of (set_investor_usdc_unlock admin investor n) = some admin
admin_of (set_sell_paused admin b) = some admin
admin_of (set_frozen admin b) = some admin
admin_of (cancel_round admin) = some admin
admin_of (remove_investor a) = some a.admin
admin_of (close_round admin remaining) = some admin
admin_of (fund_treasury admin n) = some admin
admin_of (withdraw_treasury admin n) = some admin
admin_of (mint_aat admin investor account n) = some admin
admin_of (update_aat admin investor mint n) = some admin
admin_of (transfer_authority admin new_admin) = some admin
admin_of (close_round_record admin n) = some admin
admin_of (deposit a n) = none
admin_of (withdraw a n) = none
admin_of (sell a n) = none
admin_of (claim a n) = none
admin_of (accept_authority pending_admin) = none

-- The instructions of investors and sellers.
abbrev pub is_users : Call → Bool
is_users (deposit a n) = true
is_users (withdraw a n) = true
is_users (sell a n) = true
is_users (claim a n) = true
is_users _ = false

some-injective : {a b : Pubkey} → some a ≡ some b → a ≡ b
some-injective e = cc

Ensures-const {ℓ} : {A : Type ℓ} {P : Type 0} → P → (m : Result A) → Ensures (λ a. P) m
Ensures-const p (ok a) = p
Ensures-const p (err e) = tt

quote_sale_frozen :
    (waln_mint usdc_mint : Pubkey) (decimals amount : ℕ) (s : ProgramState)
    → Ensures (λ q. s.frozen ≡ 0) (quote_sale waln_mint usdc_mint decimals amount s)
unfolding quote_sale
quote_sale_frozen waln_mint usdc_mint decimals amount s = ground arith

module _ (h : Host) where
  require_admin_lem :
      (signer : Pubkey) (c : Chain h)
      → ¬ (signer ≡ c.state.admin)
      → require_admin h signer c ≡ err (floor unauthorized)
  unfolding require_admin
  require_admin_lem signer c n = ground arith

  deny :
      (f : Unit {0} → Result (Chain h)) (admin signer : Pubkey) (c : Chain h)
      → some admin ≡ some signer
      → ¬ (signer ≡ c.state.admin)
      → (require_admin h admin c >>= f) ≡ err (floor unauthorized)
  deny f admin signer c e n =
      rw (require_admin_lem admin c (λ q. n (some-injective (sym e) ∙ q))) refl

  -- Every instruction that is the administrator's, signed with any other key, fails with
  -- `Unauthorized`.
  pub dispatch-unauthorized :
      (i : Call) (signer : Pubkey) (c : Chain h)
      → admin_of i ≡ some signer
      → ¬ (signer ≡ c.state.admin)
      → dispatch h i c ≡ err (floor unauthorized)
  unfolding dispatch Admin.set_floor_price Admin.set_round_size Admin.set_lock_period
      Admin.set_usdc_withdraw_lock Admin.set_investor_usdc_unlock Admin.set_sell_paused
      Admin.set_frozen Admin.cancel_round CloseRound.close_round Admin.fund_treasury
      Admin.withdraw_treasury AatNft.mint_aat_nft AatNft.update_aat_volume
      Authority.transfer_authority CloseRound.close_round_record remove_investor_from_pool
      check_removal_accounts
  dispatch-unauthorized (set_floor_price admin n) signer c e f = deny _ admin signer c e f
  dispatch-unauthorized (set_round_size admin n) signer c e f = deny _ admin signer c e f
  dispatch-unauthorized (set_lock_period admin n) signer c e f = deny _ admin signer c e f
  dispatch-unauthorized (set_usdc_withdraw_lock admin n) signer c e f = deny _ admin signer c e f
  dispatch-unauthorized (set_investor_usdc_unlock admin investor n) signer c e f =
      deny _ admin signer c e f
  dispatch-unauthorized (set_sell_paused admin n) signer c e f = deny _ admin signer c e f
  dispatch-unauthorized (set_frozen admin n) signer c e f = deny _ admin signer c e f
  dispatch-unauthorized (cancel_round admin) signer c e f = deny _ admin signer c e f
  dispatch-unauthorized (close_round admin n) signer c e f = deny _ admin signer c e f
  dispatch-unauthorized (fund_treasury admin n) signer c e f = deny _ admin signer c e f
  dispatch-unauthorized (withdraw_treasury admin n) signer c e f = deny _ admin signer c e f
  dispatch-unauthorized (mint_aat admin investor account n) signer c e f = deny _ admin signer c e f
  dispatch-unauthorized (update_aat admin investor mint n) signer c e f = deny _ admin signer c e f
  dispatch-unauthorized (transfer_authority admin n) signer c e f = deny _ admin signer c e f
  dispatch-unauthorized (close_round_record admin n) signer c e f = deny _ admin signer c e f
  dispatch-unauthorized (remove_investor a) signer c e f =
      rw (require_admin_lem a.admin c (λ q. f (some-injective (sym e) ∙ q))) refl
  dispatch-unauthorized (deposit a n) signer c e f = cc
  dispatch-unauthorized (withdraw a n) signer c e f = cc
  dispatch-unauthorized (sell a n) signer c e f = cc
  dispatch-unauthorized (claim a n) signer c e f = cc
  dispatch-unauthorized (accept_authority key) signer c e f = cc

  -- While the contract is frozen no deposit, withdrawal, sale or claim succeeds.
  pub dispatch-frozen :
      (i : Call) (c : Chain h)
      → is_users i ≡ true
      → Ensures (λ c'. c.state.frozen ≡ 0) (dispatch h i c)
  unfolding dispatch deposit_usdc withdraw_usdc sell_waln claim_waln
  dispatch-frozen (deposit a n) c e =
      let Q : Chain h → Type 0 = λ c'. c.state.frozen ≡ 0 in
      Ensures-skip Q (check_deposit_accounts h a c) _ λ passed.
        Ensures-require Q (c.state.frozen == 0) _ _
          λ f. let z : c.state.frozen ≡ 0 = ground arith in Ensures-const z _
  dispatch-frozen (withdraw a n) c e =
      let Q : Chain h → Type 0 = λ c'. c.state.frozen ≡ 0 in
      Ensures-skip Q (check_withdraw_accounts h a c) _ λ decimals.
        Ensures-require Q (c.state.frozen == 0) _ _
          λ f. let z : c.state.frozen ≡ 0 = ground arith in Ensures-const z _
  dispatch-frozen (sell a n) c e =
      let Q : Chain h → Type 0 = λ c'. c.state.frozen ≡ 0 in
      Ensures-skip Q (check_sell_accounts h a c) _ λ decimals.
        Ensures-bind (λ q. c.state.frozen ≡ 0) Q
          (quote_sale a.waln_mint a.usdc_mint decimals.0 n c.state) _
          (quote_sale_frozen a.waln_mint a.usdc_mint decimals.0 n c.state) λ q f. Ensures-const f _
  dispatch-frozen (claim a n) c e =
      let Q : Chain h → Type 0 = λ c'. c.state.frozen ≡ 0 in
      elim (Option-cases (c.round_locked (pda h (round_locked_seeds h n)))) [
        | inl e ↦ rw (e, claim_waln) tt
        | inr (rlw, e) ↦
            rw (e, claim_waln)
              (Ensures-skip Q (check_claim_accounts h a c) _ λ checked.
                Ensures-require Q (c.state.frozen == 0) _ _
                  λ f. let z : c.state.frozen ≡ 0 = ground arith in Ensures-const z _)
      ]
  dispatch-frozen (set_floor_price admin n) c e = cc
  dispatch-frozen (set_round_size admin n) c e = cc
  dispatch-frozen (set_lock_period admin n) c e = cc
  dispatch-frozen (set_usdc_withdraw_lock admin n) c e = cc
  dispatch-frozen (set_investor_usdc_unlock admin investor n) c e = cc
  dispatch-frozen (set_sell_paused admin n) c e = cc
  dispatch-frozen (set_frozen admin n) c e = cc
  dispatch-frozen (cancel_round admin) c e = cc
  dispatch-frozen (close_round admin n) c e = cc
  dispatch-frozen (fund_treasury admin n) c e = cc
  dispatch-frozen (withdraw_treasury admin n) c e = cc
  dispatch-frozen (mint_aat admin investor account n) c e = cc
  dispatch-frozen (update_aat admin investor mint n) c e = cc
  dispatch-frozen (transfer_authority admin n) c e = cc
  dispatch-frozen (close_round_record admin n) c e = cc
  dispatch-frozen (remove_investor a) c e = cc
  dispatch-frozen (accept_authority key) c e = cc
