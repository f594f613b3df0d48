-- ===== src/Client/Runs.antt =====
-- Whole runs of the client: what a command line comes to at the program.
use solana_floor_program.Base.{
  [], ◌∷◌, ◌≡◌, ◌≢◌, ◌⊎◌, inl, inr, true, Option, none, some, Option-cases,
}
use solana_floor_program.Program.Errors.{err, floor, unauthorized}
use solana_floor_program.Program.State.{Pubkey}
use solana_floor_program.Program.Host.{Host, key}
use solana_floor_program.Program.Accounts.{Chain, state_key}
use solana_floor_program.Program.Dispatch
use solana_floor_program.Program.Dispatch.{Call, dispatch}
use solana_floor_program.Program.Dispatch.Guards.{admin_of, dispatch-unauthorized}
use solana_floor_program.Client.{done, Net}
use solana_floor_program.Client.Accounts.{load_zero_copy}
use solana_floor_program.Client.Commands.{
  Commands, Cli, info, initialize, set_floor_price, set_round_size, set_lock_period,
  set_usdc_withdraw_lock, set_investor_usdc_unlock, set_sell_paused, set_frozen, cancel_round,
  fund_treasury, withdraw_treasury, mint_aat_nft, update_aat_volume, remove_investor_from_pool,
  transfer_authority, accept_authority, load_keypair, get_program_client, target_program, main,
  cluster_of,
}
use solana_floor_program.Client.Service.{Entry, call}
use solana_floor_program.Client.Promises.{given, asked, Serves, perform-Serves}

given_lem :
    (o : Option Pubkey) (f : Pubkey → Call) (i : Call)
    → given o (λ k. call (f k)) ≡ some (call i)
    → (k : Pubkey) × (f k ≡ i)
given_lem none f i e = cc
given_lem (some k) f i e = (k, cc)

module _ (h : Host) (n : Net) (c : Chain h) (authority : Option Pubkey) (payer : Pubkey) where
  -- Every call that a command asks for is the administrator's, signed with the payer's key, but the
  -- acceptance of the authority.
  asked_admin :
      (command : Commands) (i : Call)
      → asked h n c authority payer command ≡ some (call i)
      → (admin_of i ≡ some payer) ⊎ (i ≡ Dispatch.accept_authority payer)
  asked_admin info i e = cc
  asked_admin (initialize usdc waln price size period) i e =
      elim (Option-cases (n.parse_pubkey usdc)) [
        | inl m ↦ let no : none ≡ some (call i) = rw (m, asked) at e in cc
        | inr (u, m) ↦ elim (Option-cases (n.parse_pubkey waln)) [
          | inl w ↦ let no : none ≡ some (call i) = rw (m, asked, given, w) at e in cc
          | inr (v, w) ↦ let no = rw (m, asked, given, w) at e in cc
        ]
      ]
  asked_admin (set_floor_price x) i e = inl cc
  asked_admin (set_round_size x) i e = inl cc
  asked_admin (set_lock_period x) i e = inl cc
  asked_admin (set_usdc_withdraw_lock x) i e = inl cc
  asked_admin (set_investor_usdc_unlock t x) i e =
      let (k, same) = given_lem (n.parse_pubkey t) _ i e in inl cc
  asked_admin (set_sell_paused b) i e = inl cc
  asked_admin (set_frozen b) i e = inl cc
  asked_admin cancel_round i e = inl cc
  asked_admin (fund_treasury x) i e = inl cc
  asked_admin (withdraw_treasury x) i e = inl cc
  asked_admin (mint_aat_nft t x) i e = let (k, same) = given_lem (n.parse_pubkey t) _ i e in inl cc
  asked_admin (update_aat_volume t x) i e =
      let (k, same) = given_lem (n.parse_pubkey t) _ i e in inl cc
  asked_admin (remove_investor_from_pool t) i e =
      let (k, same) = given_lem (n.parse_pubkey t) _ i e in inl cc
  asked_admin (transfer_authority t) i e =
      let (k, same) = given_lem (n.parse_pubkey t) _ i e in inl cc
  asked_admin accept_authority i e = inr cc

  module _ (loader : Pubkey) (cli : Cli)
      (loads : n.parse_pubkey "BPFLoaderUpgradeab1e11111111111111111111111" ≡ some loader)
      (deployed : n.programdata_address h.program_id
        ≡ some (h.find_program_address (key h.program_id ∷ []) loader).0)
      (reads : load_zero_copy n.state_size n.decode_state (n.account_data (state_key h))
        ≡ done c.state)
      (own_program : cli.override_program_id ≡ none)
      (keypair : load_keypair h n cli.keypair cli.keypair_base58_file ≡ done payer)
      (opens : n.opens (cluster_of cli.cluster) h.program_id ≡ true) where
    pub main-Serves :
        (e : Entry)
        → asked h n c authority payer cli.command ≡ some e
        → Serves h n authority e (main h n cli)
    unfolding main target_program get_program_client
    main-Serves e a =
        rw (own_program, keypair, opens)
          (perform-Serves h n c authority payer loader loads deployed reads cli.command e a)

    -- Under the same conditions, if the command asks for a call, which all do but the report and the
    -- initialization, the call is not the acceptance of the authority, and the payer is not the
    -- administrator, then the request that is sent is refused as Unauthorized.
    pub main-refused :
        (i : Call)
        → asked h n c authority payer cli.command ≡ some (call i)
        → i ≢ Dispatch.accept_authority payer
        → payer ≢ c.state.admin
        → Serves h n authority (call i) (main h n cli) × (dispatch h i c ≡ err (floor unauthorized))
    main-refused i a other outsider = (
      main-Serves (call i) a,
      elim (asked_admin cli.command i a) [
        | inl admin ↦ dispatch-unauthorized h i payer c admin outsider
        | inr accepts ↦ absurd (other accepts)
      ],
    )
