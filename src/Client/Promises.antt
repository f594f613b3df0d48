-- ===== src/Client/Promises.antt =====
-- What the client promises of its requests.
use solana_floor_program.Base.{
  ◌≡◌, refl, inl, inr, true, [], ◌∷◌, Option, none, some, arith, ◌==◌, Option-cases, subst,
}
use solana_floor_program.Program.Errors.{ok}
use solana_floor_program.Program.State.{Pubkey}
use solana_floor_program.Program.Host.{Host, key}
use solana_floor_program.Program.Accounts.{
  Chain, pda, state_key, pool_key, usdc_vault_key, waln_vault_key, aat_nft_seeds,
}
use solana_floor_program.Program.Dispatch
use solana_floor_program.Client.{Reply, done, ◌>>=◌, or_fail, Failure, Net, Connection}
use solana_floor_program.Client.Requests
use solana_floor_program.Client.Requests.{Request}
use solana_floor_program.Client.Addresses.{get_program_data_address}
use solana_floor_program.Client.Accounts.{load_zero_copy}
use solana_floor_program.Client.Handlers.{
  handle_set_floor_price, handle_set_round_size, handle_set_lock_period, handle_set_sell_paused,
  handle_set_frozen, handle_cancel_round, handle_fund_treasury, handle_withdraw_treasury,
  handle_transfer_authority, handle_accept_authority, handle_set_usdc_withdraw_lock,
  handle_set_investor_usdc_unlock, handle_update_aat_volume, handle_mint_aat_nft,
  handle_remove_investor_from_pool, handle_initialize,
}
use solana_floor_program.Client.Commands.{
  Commands, Action, send, info, initialize, set_floor_price, set_round_size, set_lock_period,
  set_usdc_withdraw_lock, set_investor_usdc_unlock, set_sell_paused, set_frozen, cancel_round,
  fund_treasury, withdraw_treasury, mint_aat_nft, update_aat_volume, remove_investor_from_pool,
  transfer_authority, accept_authority, perform,
}
use solana_floor_program.Client.Service.{Entry, call, initialization, receive}

-- `>>=` on options, for the key texts of a command.
abbrev pub given : Option Pubkey → (Pubkey → Entry) → Option Entry
given none f = none
given (some k) f = some (f k)

eq_refl : (k : Pubkey) → (k == k) ≡ true
eq_refl k = ground arith

module _ (h : Host) (n : Net) where
  -- What a command asks of the program, in its terms: the signer is the payer, keys are as their
  -- texts read, and the addresses are those that the program itself derives.
  abbrev pub asked : Chain h → Option Pubkey → Pubkey → Commands → Option Entry
  asked c authority payer info = none
  asked c authority payer (initialize usdc waln price size period) = elim (n.parse_pubkey usdc) [
    | none ↦ none
    | some usdc_mint ↦ given (n.parse_pubkey waln) (λ waln_mint.
        initialization
          (record {
            admin = payer;
            usdc_mint = usdc_mint;
            waln_mint = waln_mint;
            waln_token_program = h.token_2022_id;
            upgrade_authority = authority;
          })
          price size period)
  ]
  asked c authority payer (set_floor_price x) = some (call (Dispatch.set_floor_price payer x))
  asked c authority payer (set_round_size x) = some (call (Dispatch.set_round_size payer x))
  asked c authority payer (set_lock_period x) = some (call (Dispatch.set_lock_period payer x))
  asked c authority payer (set_usdc_withdraw_lock x) =
      some (call (Dispatch.set_usdc_withdraw_lock payer x))
  asked c authority payer (set_investor_usdc_unlock t x) =
      given (n.parse_pubkey t)
        (λ investor. call (Dispatch.set_investor_usdc_unlock payer investor x))
  asked c authority payer (set_sell_paused b) = some (call (Dispatch.set_sell_paused payer b))
  asked c authority payer (set_frozen b) = some (call (Dispatch.set_frozen payer b))
  asked c authority payer cancel_round = some (call (Dispatch.cancel_round payer))
  asked c authority payer (fund_treasury x) = some (call (Dispatch.fund_treasury payer x))
  asked c authority payer (withdraw_treasury x) = some (call (Dispatch.withdraw_treasury payer x))
  asked c authority payer (mint_aat_nft t x) = given (n.parse_pubkey t) (λ investor. call (
      Dispatch.mint_aat payer investor
        (h.associated_address investor (pda h (aat_nft_seeds h investor)) h.token_2022_id) x))
  asked c authority payer (update_aat_volume t x) =
      given (n.parse_pubkey t)
        (λ investor. call (Dispatch.update_aat payer investor (pda h (aat_nft_seeds h investor)) x))
  asked c authority payer (remove_investor_from_pool t) = given (n.parse_pubkey t) (λ investor.
      call (
        Dispatch.remove_investor (record {
          admin = payer;
          investor = investor;
          usdc_mint = c.state.usdc_mint;
          investor_usdc_account = h.associated_address investor c.state.usdc_mint n.token_id;
          usdc_vault = usdc_vault_key h;
          usdc_token_program = n.token_id;
        })))
  asked c authority payer (transfer_authority t) =
      given (n.parse_pubkey t) (λ new_admin. call (Dispatch.transfer_authority payer new_admin))
  asked c authority payer accept_authority = some (call (Dispatch.accept_authority payer))

  -- A request is sent, and the program takes it as the entry.
  abbrev pub Serves : Option Pubkey → Entry → Reply Action → Type 0
  Serves authority e m = (r : Request) × (m ≡ done (send r)) × (receive h n authority r ≡ ok e)

  parsed :
      (authority : Option Pubkey) (o : Option Pubkey) (f : Pubkey → Entry) (e : Entry)
      (fail : Failure) (g : Pubkey → Reply Action)
      → given o f ≡ some e
      → ((k : Pubkey) → Serves authority (f k) (g k))
      → Serves authority e (or_fail o fail >>= g)
  parsed authority none f e fail g a k = cc
  parsed authority (some j) f e fail g a k =
      let same : f j ≡ e = cc in subst (λ d. Serves authority d (g j)) same (k j)

  module _ (c : Chain h) (authority : Option Pubkey) (payer loader : Pubkey)
      (loads : n.parse_pubkey "BPFLoaderUpgradeab1e11111111111111111111111" ≡ some loader)
      (deployed : n.programdata_address h.program_id
        ≡ some (h.find_program_address (key h.program_id ∷ []) loader).0)
      (reads : load_zero_copy n.state_size n.decode_state (n.account_data (state_key h))
        ≡ done c.state) where
    abbrev pub own : Connection
    own = record { program_id = h.program_id; payer = payer }

    -- Each command's request, over a connection to the program itself.
    pub perform-Serves :
        (command : Commands) (e : Entry)
        → asked c authority payer command ≡ some e
        → Serves authority e (perform h n own command)
    unfolding perform receive handle_remove_investor_from_pool handle_initialize
        get_program_data_address
    perform-Serves info e a = cc
    perform-Serves (set_floor_price x) e a = (handle_set_floor_price h own x, refl, ground arith)
    perform-Serves (set_round_size x) e a = (handle_set_round_size h own x, refl, ground arith)
    perform-Serves (set_lock_period x) e a = (handle_set_lock_period h own x, refl, ground arith)
    perform-Serves (set_usdc_withdraw_lock x) e a =
        (handle_set_usdc_withdraw_lock h own x, refl, ground arith)
    perform-Serves (set_sell_paused b) e a = (handle_set_sell_paused h own b, refl, ground arith)
    perform-Serves (set_frozen b) e a = (handle_set_frozen h own b, refl, ground arith)
    perform-Serves (fund_treasury x) e a = (handle_fund_treasury h own x, refl, ground arith)
    perform-Serves (withdraw_treasury x) e a =
        (handle_withdraw_treasury h own x, refl, ground arith)
    perform-Serves cancel_round e a = (handle_cancel_round h own, refl, ground arith)
    perform-Serves accept_authority e a = (handle_accept_authority h own, refl, ground arith)
    perform-Serves (set_investor_usdc_unlock t x) e a =
        parsed authority (n.parse_pubkey t) _ e _ _ a
          (λ k. (handle_set_investor_usdc_unlock h own k x, refl, ground arith))
    perform-Serves (mint_aat_nft t x) e a =
        parsed authority (n.parse_pubkey t) _ e _ _ a
          (λ k. (handle_mint_aat_nft h n own k x, refl, ground arith))
    perform-Serves (update_aat_volume t x) e a =
        parsed authority (n.parse_pubkey t) _ e _ _ a
          (λ k. (handle_update_aat_volume h own k x, refl, ground arith))
    perform-Serves (transfer_authority t) e a =
        parsed authority (n.parse_pubkey t) _ e _ _ a
          (λ k. (handle_transfer_authority h own k, refl, ground arith))
    perform-Serves (remove_investor_from_pool t) e a =
        parsed authority (n.parse_pubkey t) _ e _ _ a (λ k. (
          Requests.remove_investor_from_pool (record {
            admin = payer;
            contract_state = state_key h;
            investor_pool = pool_key h;
            investor = k;
            usdc_mint = c.state.usdc_mint;
            investor_usdc_account = h.associated_address k c.state.usdc_mint n.token_id;
            usdc_vault = usdc_vault_key h;
            usdc_token_program = n.token_id;
          }),
          rw reads refl,
          ground arith,
        ))
    perform-Serves (initialize usdc waln price size period) e a =
        elim (Option-cases (n.parse_pubkey usdc)) [
          | inl m ↦ let no : none ≡ some e = rw (m, asked) at a in cc
          | inr (usdc_mint, m) ↦
              let a' = rw (m, asked) at a in
              rw m (
                parsed authority (n.parse_pubkey waln) _ e _ _ a' (λ waln_mint. (
                  Requests.initialize
                      (record {
                        admin = payer;
                        contract_state = state_key h;
                        usdc_mint = usdc_mint;
                        waln_mint = waln_mint;
                        usdc_vault = usdc_vault_key h;
                        waln_vault = waln_vault_key h;
                        investor_pool = pool_key h;
                        system_program = h.system_id;
                        usdc_token_program = n.token_id;
                        waln_token_program = h.token_2022_id;
                        program = h.program_id;
                        program_data = (h.find_program_address (key h.program_id ∷ []) loader).0;
                      })
                      price size period,
                  rw loads refl,
                  ground (arith, deployed),
                )))
        ]
