-- ===== src/Client/Service.antt =====
-- The program's side of a request: the account structs' constraints on the addresses and programs
-- that the calls of Program/Dispatch leave out, and the call that is made then. Which of several
-- violated constraints is reported first is not followed.
use solana_floor_program.Base.{ℕ, Bool, false, ◌||◌, Option, none, some, ◌==◌}
use solana_floor_program.Base.Int.{ℤ}
use solana_floor_program.Program.Errors.{Result, ok, ◌>>◌, check, require, unauthorized}
use solana_floor_program.Program.State.{Pubkey}
use solana_floor_program.Program.Host.{Host}
use solana_floor_program.Program.Accounts.{
  pda, state_key, pool_key, usdc_vault_key, waln_vault_key, treasury_key, nft_authority_key,
  aat_nft_seeds,
}
use solana_floor_program.Program.Dispatch
use solana_floor_program.Program.Instructions.Initialize.{Initialize}
use solana_floor_program.Client.{Net}
use solana_floor_program.Client.Requests.{
  Request, AdminOnly, PoolAdmin, TreasuryAdmin, InitializeAccounts, MintAatNft, UpdateAatVolume,
  RemovalAccounts, TransferAuthority, AcceptAuthority, initialize, set_floor_price, set_round_size,
  set_lock_period, set_usdc_withdraw_lock, set_sell_paused, set_frozen, cancel_round,
  set_investor_usdc_unlock, fund_treasury, withdraw_treasury, mint_aat_nft, update_aat_volume,
  remove_investor_from_pool, transfer_authority, accept_authority,
}

-- An entry point with what it is given.
pub data Entry : Type 0 where
  call : Dispatch.Call → Entry
  initialization : Initialize → (floor_price_usdc round_size_waln : ℕ) → ℤ → Entry

module _ (h : Host) where
  open h use {program_id, system_id, token_2022_id}

  abbrev pub check_admin_only : AdminOnly → Result (Unit {0})
  check_admin_only a = check (a.contract_state == state_key h)

  abbrev pub check_pool_admin : PoolAdmin → Result (Unit {0})
  check_pool_admin a = do
    check (a.contract_state == state_key h)
    check (a.investor_pool == pool_key h)

  abbrev pub check_treasury_admin : TreasuryAdmin → Result (Unit {0})
  check_treasury_admin a = do
    check (a.contract_state == state_key h)
    check (a.treasury == treasury_key h)
    check (a.system_program == system_id)

  abbrev pub check_removal : RemovalAccounts → Result (Unit {0})
  check_removal a = do
    check (a.contract_state == state_key h)
    check (a.investor_pool == pool_key h)

  abbrev pub check_update_aat_volume : UpdateAatVolume → Result (Unit {0})
  check_update_aat_volume a = do
    check (a.contract_state == state_key h)
    check (a.investor_pool == pool_key h)
    check (a.mint == pda h (aat_nft_seeds h a.investor))
    check (a.nft_authority == nft_authority_key h)
    check (a.token_program == token_2022_id)
    check (a.system_program == system_id)

  abbrev pub check_transfer_authority : TransferAuthority → Result (Unit {0})
  check_transfer_authority a = check (a.contract_state == state_key h)

  abbrev pub check_accept_authority : AcceptAuthority → Result (Unit {0})
  check_accept_authority a = check (a.contract_state == state_key h)

  module _ (n : Net) where
    -- `Interface<TokenInterface>`: one of the two token programs.
    abbrev pub is_token_interface : Pubkey → Bool
    is_token_interface id = id == n.token_id || id == token_2022_id

    -- `program.programdata_address()? == Some(program_data.key())`
    abbrev pub names_data_account : Option Pubkey → Pubkey → Bool
    names_data_account none program_data = false
    names_data_account (some address) program_data = address == program_data

    abbrev pub check_initialize : InitializeAccounts → Result (Unit {0})
    check_initialize a = do
      check (a.contract_state == state_key h)
      check (a.usdc_vault == usdc_vault_key h)
      check (a.waln_vault == waln_vault_key h)
      check (a.investor_pool == pool_key h)
      check (a.system_program == system_id)
      check (is_token_interface a.usdc_token_program)
      check (is_token_interface a.waln_token_program)
      check (a.waln_token_program == token_2022_id)
      check (a.program == program_id)
      require (names_data_account (n.programdata_address a.program) a.program_data) unauthorized

    abbrev pub check_mint_aat_nft : MintAatNft → Result (Unit {0})
    check_mint_aat_nft a = do
      check (a.mint == pda h (aat_nft_seeds h a.investor))
      check (a.contract_state == state_key h)
      check (a.nft_authority == nft_authority_key h)
      check (a.system_program == system_id)
      check (a.token_program == token_2022_id)
      check (a.associated_token_program == n.associated_token_id)

    -- What a request asks for. `upgrade_authority` is what the program's data account names.
    unfoldable pub receive : Option Pubkey → Request → Result Entry
    receive upgrade_authority (initialize a price size period) = do
      check_initialize a
      ok (
          initialization
            (record {
              admin = a.admin;
              usdc_mint = a.usdc_mint;
              waln_mint = a.waln_mint;
              waln_token_program = a.waln_token_program;
              upgrade_authority = upgrade_authority;
            })
            price size period)
    receive authority (set_floor_price a x) =
        check_admin_only a >> ok (call (Dispatch.set_floor_price a.admin x))
    receive authority (set_round_size a x) =
        check_admin_only a >> ok (call (Dispatch.set_round_size a.admin x))
    receive authority (set_lock_period a x) =
        check_admin_only a >> ok (call (Dispatch.set_lock_period a.admin x))
    receive authority (set_usdc_withdraw_lock a x) =
        check_admin_only a >> ok (call (Dispatch.set_usdc_withdraw_lock a.admin x))
    receive authority (set_sell_paused a b) =
        check_admin_only a >> ok (call (Dispatch.set_sell_paused a.admin b))
    receive authority (set_frozen a b) =
        check_admin_only a >> ok (call (Dispatch.set_frozen a.admin b))
    receive authority (cancel_round a) =
        check_pool_admin a >> ok (call (Dispatch.cancel_round a.admin))
    receive authority (set_investor_usdc_unlock a investor ts) =
        check_pool_admin a >> ok (call (Dispatch.set_investor_usdc_unlock a.admin investor ts))
    receive authority (fund_treasury a x) =
        check_treasury_admin a >> ok (call (Dispatch.fund_treasury a.admin x))
    receive authority (withdraw_treasury a x) =
        check_treasury_admin a >> ok (call (Dispatch.withdraw_treasury a.admin x))
    receive authority (mint_aat_nft a x) =
        check_mint_aat_nft a
        >> ok (call (Dispatch.mint_aat a.admin a.investor a.investor_aat_account x))
    receive authority (update_aat_volume a x) =
        check_update_aat_volume a >> ok (call (Dispatch.update_aat a.admin a.investor a.mint x))
    receive authority (remove_investor_from_pool a) = do
      check_removal a
      ok (
          call (
            Dispatch.remove_investor (record {
              admin = a.admin;
              investor = a.investor;
              usdc_mint = a.usdc_mint;
              investor_usdc_account = a.investor_usdc_account;
              usdc_vault = a.usdc_vault;
              usdc_token_program = a.usdc_token_program;
            })))
    receive authority (transfer_authority a) =
        check_transfer_authority a >> ok (call (Dispatch.transfer_authority a.admin a.new_admin))
    receive authority (accept_authority a) =
        check_accept_authority a >> ok (call (Dispatch.accept_authority a.pending_admin))
