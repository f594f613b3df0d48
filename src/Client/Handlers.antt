-- ===== src/Client/Handlers.antt =====
-- admin-cli/src/handlers.rs: the request that each handler sends. What is printed before and after is
-- left out.
use solana_floor_program.Base.{ℕ, Bool}
use solana_floor_program.Base.Int.{ℤ}
use solana_floor_program.Program.State.{Pubkey}
use solana_floor_program.Program.Host.{Host}
use solana_floor_program.Client.{Reply, done, ◌>>=◌, Net, Connection}
use solana_floor_program.Client.Requests.{
  Request, AdminOnly, PoolAdmin, TreasuryAdmin, initialize, set_floor_price, set_round_size,
  set_lock_period, set_usdc_withdraw_lock, set_sell_paused, set_frozen, cancel_round,
  set_investor_usdc_unlock, fund_treasury, withdraw_treasury, mint_aat_nft, update_aat_volume,
  remove_investor_from_pool, transfer_authority, accept_authority,
}
use solana_floor_program.Client.Addresses.{
  get_contract_state_address, get_usdc_vault_address, get_waln_vault_address,
  get_investor_pool_address, get_treasury_address, get_aat_nft_mint_address,
  get_nft_authority_address, get_program_data_address,
}
use solana_floor_program.Client.Accounts.{load_zero_copy}

module _ (h : Host) where
  open h use {system_id, token_2022_id, associated_address}

  -- The accounts that several handlers build alike.
  abbrev admin_only : Connection → AdminOnly
  admin_only p = record {
    admin = p.payer;
    contract_state = (get_contract_state_address h p.program_id).0;
  }

  abbrev pool_admin : Connection → PoolAdmin
  pool_admin p = record {
    admin = p.payer;
    contract_state = (get_contract_state_address h p.program_id).0;
    investor_pool = (get_investor_pool_address h p.program_id).0;
  }

  abbrev treasury_admin : Connection → TreasuryAdmin
  treasury_admin p = record {
    admin = p.payer;
    contract_state = (get_contract_state_address h p.program_id).0;
    treasury = (get_treasury_address h p.program_id).0;
    system_program = system_id;
  }

  abbrev pub handle_set_floor_price : Connection → ℕ → Request
  handle_set_floor_price p new_price_usdc = set_floor_price (admin_only p) new_price_usdc

  abbrev pub handle_set_round_size : Connection → ℕ → Request
  handle_set_round_size p new_round_size_waln = set_round_size (admin_only p) new_round_size_waln

  abbrev pub handle_set_lock_period : Connection → ℤ → Request
  handle_set_lock_period p new_lock_period = set_lock_period (admin_only p) new_lock_period

  abbrev pub handle_set_sell_paused : Connection → Bool → Request
  handle_set_sell_paused p paused = set_sell_paused (admin_only p) paused

  abbrev pub handle_set_frozen : Connection → Bool → Request
  handle_set_frozen p is_frozen = set_frozen (admin_only p) is_frozen

  abbrev pub handle_cancel_round : Connection → Request
  handle_cancel_round p = cancel_round (pool_admin p)

  abbrev pub handle_fund_treasury : Connection → ℕ → Request
  handle_fund_treasury p amount_lamports = fund_treasury (treasury_admin p) amount_lamports

  abbrev pub handle_withdraw_treasury : Connection → ℕ → Request
  handle_withdraw_treasury p amount_lamports = withdraw_treasury (treasury_admin p) amount_lamports

  abbrev pub handle_transfer_authority : Connection → Pubkey → Request
  handle_transfer_authority p new_admin = transfer_authority (record {
    admin = p.payer;
    new_admin = new_admin;
    contract_state = (get_contract_state_address h p.program_id).0;
  })

  abbrev pub handle_accept_authority : Connection → Request
  handle_accept_authority p = accept_authority (record {
    pending_admin = p.payer;
    contract_state = (get_contract_state_address h p.program_id).0;
  })

  abbrev pub handle_set_usdc_withdraw_lock : Connection → ℤ → Request
  handle_set_usdc_withdraw_lock p new_lock_seconds =
      set_usdc_withdraw_lock (admin_only p) new_lock_seconds

  abbrev pub handle_set_investor_usdc_unlock : Connection → Pubkey → ℤ → Request
  handle_set_investor_usdc_unlock p investor new_unlock_ts =
      set_investor_usdc_unlock (pool_admin p) investor new_unlock_ts

  abbrev pub handle_update_aat_volume : Connection → Pubkey → ℕ → Request
  handle_update_aat_volume p investor new_volume =
      update_aat_volume
        (record {
          admin = p.payer;
          contract_state = (get_contract_state_address h p.program_id).0;
          investor_pool = (get_investor_pool_address h p.program_id).0;
          investor = investor;
          mint = (get_aat_nft_mint_address h investor p.program_id).0;
          nft_authority = (get_nft_authority_address h p.program_id).0;
          token_program = token_2022_id;
          system_program = system_id;
        })
        new_volume

  module _ (n : Net) where
    open n use {account_data, state_size, decode_state, token_id, associated_token_id}

    abbrev pub handle_mint_aat_nft : Connection → Pubkey → ℕ → Request
    handle_mint_aat_nft p investor aat_volume =
        let mint = (get_aat_nft_mint_address h investor p.program_id).0 in
        mint_aat_nft
          (record {
            admin = p.payer;
            mint = mint;
            contract_state = (get_contract_state_address h p.program_id).0;
            investor = investor;
            investor_aat_account = associated_address investor mint token_2022_id;
            nft_authority = (get_nft_authority_address h p.program_id).0;
            system_program = system_id;
            token_program = token_2022_id;
            associated_token_program = associated_token_id;
          })
          aat_volume

    -- The USDC mint is read from the program's state.
    unfoldable pub handle_remove_investor_from_pool : Connection → Pubkey → Reply Request
    handle_remove_investor_from_pool p investor = do
      let contract_state = (get_contract_state_address h p.program_id).0
      state ← load_zero_copy state_size decode_state (account_data contract_state)
      done (
          remove_investor_from_pool (record {
            admin = p.payer;
            contract_state = contract_state;
            investor_pool = (get_investor_pool_address h p.program_id).0;
            investor = investor;
            usdc_mint = state.usdc_mint;
            investor_usdc_account = associated_address investor state.usdc_mint token_id;
            usdc_vault = (get_usdc_vault_address h p.program_id).0;
            usdc_token_program = token_id;
          }))

    unfoldable pub handle_initialize :
        Connection
        → (usdc_mint waln_mint : Pubkey) → (floor_price_usdc round_size_waln : ℕ) → ℤ
        → Reply Request
    handle_initialize p usdc_mint waln_mint floor_price_usdc round_size_waln lock_period_seconds =
        do
          program_data ← get_program_data_address h n p.program_id
          done (
              initialize
                (record {
                  admin = p.payer;
                  contract_state = (get_contract_state_address h p.program_id).0;
                  usdc_mint = usdc_mint;
                  waln_mint = waln_mint;
                  usdc_vault = (get_usdc_vault_address h p.program_id).0;
                  waln_vault = (get_waln_vault_address h p.program_id).0;
                  investor_pool = (get_investor_pool_address h p.program_id).0;
                  system_program = system_id;
                  usdc_token_program = token_id;
                  waln_token_program = token_2022_id;
                  program = p.program_id;
                  program_data = program_data.0;
                })
                floor_price_usdc round_size_waln lock_period_seconds)
