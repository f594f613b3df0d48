-- ===== src/Client/Commands.antt =====
-- admin-cli/src/main.rs: the command line, and what each command does.
use solana_floor_program.Base.{ℕ, Option, none, some, Bool, if◌then◌else◌}
use solana_floor_program.Base.Int.{ℤ}
use solana_floor_program.Program.State.{Pubkey}
use solana_floor_program.Program.Host.{Host}
use solana_floor_program.Program.Utils.{codes, eq_bytes}
use solana_floor_program.Client.{
  Reply, done, failed, ◌>>=◌, or_fail, invalid_override_program_id, invalid_usdc_mint,
  invalid_waln_mint, invalid_investor_pubkey, invalid_new_admin_pubkey, unreadable_keypair,
  undecodable_keypair, unparsable_keypair, no_program_client, Cluster, mainnet, devnet, localnet,
  custom, Net, Connection,
}
use solana_floor_program.Client.Requests.{Request}
use solana_floor_program.Client.Accounts.{Info, handle_info}
use solana_floor_program.Client.Handlers.{
  handle_set_floor_price, handle_set_round_size, handle_set_lock_period, handle_set_sell_paused,
  handle_set_frozen, handle_cancel_round, handle_fund_treasury, handle_withdraw_treasury,
  handle_transfer_authority, handle_accept_authority, handle_set_usdc_withdraw_lock,
  handle_set_investor_usdc_unlock, handle_update_aat_volume, handle_mint_aat_nft,
  handle_remove_investor_from_pool, handle_initialize,
}
use Prim.Native.String.{String}

pub data Commands : Type 0 where
  info : Commands
  initialize :
      (usdc_mint waln_mint : String) (floor_price_usdc round_size_waln : ℕ)
      (lock_period_seconds : ℤ)
      → Commands
  set_floor_price set_round_size : ℕ → Commands
  set_lock_period set_usdc_withdraw_lock : ℤ → Commands
  set_investor_usdc_unlock : (investor : String) (new_unlock_ts : ℤ) → Commands
  set_sell_paused set_frozen : Bool → Commands
  cancel_round : Commands
  fund_treasury withdraw_treasury : (amount_lamports : ℕ) → Commands
  mint_aat_nft update_aat_volume : (investor : String) → ℕ → Commands
  remove_investor_from_pool : (investor : String) → Commands
  transfer_authority : (new_admin : String) → Commands
  accept_authority : Commands

pub record Cli : Type 0 where
  pub keypair : String
  pub keypair_base58_file : Option String
  pub cluster : String
  pub override_program_id : Option String
  pub command : Commands

-- `match cluster_str`
abbrev pub cluster_of : String → Cluster
cluster_of name =
    if eq_bytes (codes name) (codes "mainnet")
    then mainnet
    else if eq_bytes (codes name) (codes "devnet")
    then devnet
    else if eq_bytes (codes name) (codes "localnet")
    then localnet
    else if eq_bytes (codes name) (codes "localhost")
    then localnet
    else custom name name

-- What a command comes to: a report of what was read, or a request to the program.
pub data Action : Type 0 where
  report : Info → Action
  send : Request → Action

module _ (h : Host) (n : Net) where
  open n use {
    parse_pubkey, tilde, trim, read_to_string, decode_base58, keypair_from_bytes, read_keypair_file,
    opens,
  }

  unfoldable pub load_keypair : String → Option String → Reply Pubkey
  load_keypair path none = or_fail (read_keypair_file (tilde path)) unreadable_keypair
  load_keypair path (some base58_path) = do
    content ← or_fail (read_to_string (tilde base58_path)) unreadable_keypair
    bytes ← or_fail (decode_base58 (trim content)) undecodable_keypair
    or_fail (keypair_from_bytes bytes) unparsable_keypair

  unfoldable pub get_program_client : String → Option String → String → Pubkey → Reply Connection
  get_program_client keypair_path keypair_base58_file cluster_str program_id = do
    payer ← load_keypair keypair_path keypair_base58_file
    if opens (cluster_of cluster_str) program_id
        then done (record { program_id = program_id; payer = payer })
        else failed no_program_client

  -- `id()`, unless it is overridden.
  unfoldable pub target_program : Option String → Reply Pubkey
  target_program none = done h.program_id
  target_program (some override_id) = or_fail (parse_pubkey override_id) invalid_override_program_id

  -- `match cli.command`
  unfoldable pub perform : Connection → Commands → Reply Action
  perform p info = do shown ← handle_info h n p; done (report shown)
  perform p (initialize usdc_text waln_text floor_price_usdc round_size_waln lock_period_seconds) =
      do
        usdc_mint ← or_fail (parse_pubkey usdc_text) invalid_usdc_mint
        waln_mint ← or_fail (parse_pubkey waln_text) invalid_waln_mint
        r ←
            handle_initialize h n p usdc_mint waln_mint floor_price_usdc round_size_waln
              lock_period_seconds
        done (send r)
  perform p (set_floor_price new_price_usdc) =
      done (send (handle_set_floor_price h p new_price_usdc))
  perform p (set_round_size new_round_size_waln) =
      done (send (handle_set_round_size h p new_round_size_waln))
  perform p (set_lock_period new_lock_period) =
      done (send (handle_set_lock_period h p new_lock_period))
  perform p (set_usdc_withdraw_lock new_lock_seconds) =
      done (send (handle_set_usdc_withdraw_lock h p new_lock_seconds))
  perform p (set_investor_usdc_unlock investor_text new_unlock_ts) = do
    investor ← or_fail (parse_pubkey investor_text) invalid_investor_pubkey
    done (send (handle_set_investor_usdc_unlock h p investor new_unlock_ts))
  perform p (set_sell_paused paused) = done (send (handle_set_sell_paused h p paused))
  perform p (set_frozen is_frozen) = done (send (handle_set_frozen h p is_frozen))
  perform p cancel_round = done (send (handle_cancel_round h p))
  perform p (fund_treasury amount_lamports) = done (send (handle_fund_treasury h p amount_lamports))
  perform p (withdraw_treasury amount_lamports) =
      done (send (handle_withdraw_treasury h p amount_lamports))
  perform p (mint_aat_nft investor_text aat_volume) = do
    investor ← or_fail (parse_pubkey investor_text) invalid_investor_pubkey
    done (send (handle_mint_aat_nft h n p investor aat_volume))
  perform p (update_aat_volume investor_text new_volume) = do
    investor ← or_fail (parse_pubkey investor_text) invalid_investor_pubkey
    done (send (handle_update_aat_volume h p investor new_volume))
  perform p (remove_investor_from_pool investor_text) = do
    investor ← or_fail (parse_pubkey investor_text) invalid_investor_pubkey
    r ← handle_remove_investor_from_pool h n p investor
    done (send r)
  perform p (transfer_authority new_admin_text) = do
    new_admin ← or_fail (parse_pubkey new_admin_text) invalid_new_admin_pubkey
    done (send (handle_transfer_authority h p new_admin))
  perform p accept_authority = done (send (handle_accept_authority h p))

  -- `main`, up to the sending of the request.
  unfoldable pub main : Cli → Reply Action
  main cli = do
    program_id ← target_program cli.override_program_id
    p ← get_program_client cli.keypair cli.keypair_base58_file cli.cluster program_id
    perform p cli.command
