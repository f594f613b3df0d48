-- ===== src/Client/Examples.antt =====
-- Command lines on a small network.
use solana_floor_program.Base.{◌≡◌, refl, true, [], ◌∷◌, none, some, arith, if◌then◌else◌}
use solana_floor_program.Program.Errors.{err, floor, unauthorized}
use solana_floor_program.Program.Utils.{codes, eq_bytes}
use solana_floor_program.Program.Host.{key}
use solana_floor_program.Program.Dispatch
use solana_floor_program.Program.Dispatch.{dispatch}
use solana_floor_program.Program.Examples.RoundHost.{round_host}
use solana_floor_program.Program.Examples.Rounds.{filled_chain}
use solana_floor_program.Client.{failed, invalid_investor_pubkey, Net, Connection}
use solana_floor_program.Client.Accounts.{load_zero_copy}
use solana_floor_program.Client.Commands.{
  Commands, Cli, mint_aat_nft, set_frozen, load_keypair, perform, main,
}
use solana_floor_program.Client.Service.{call}
use solana_floor_program.Client.Promises.{Serves}
use solana_floor_program.Client.Runs.{main-refused}

abbrev small_net : Net
small_net = record {
  parse_pubkey = λ t.
      if eq_bytes (codes t) (codes "five")
      then some 5
      else if eq_bytes (codes t) (codes "BPFLoaderUpgradeab1e11111111111111111111111")
      then some 9
      else none;
  tilde = λ path. path;
  trim = λ content. content;
  read_to_string = λ path. none;
  decode_base58 = λ content. none;
  keypair_from_bytes = λ bytes. none;
  read_keypair_file = λ path. if eq_bytes (codes path) (codes "admin.json") then some 4 else some 6;
  opens = λ cluster program_id. true;
  account_data = λ account. some (0 ∷ 0 ∷ 0 ∷ 0 ∷ 0 ∷ 0 ∷ 0 ∷ 0 ∷ 7 ∷ []);
  account_lamports = λ account. none;
  token_balance = λ account. none;
  state_size = 1;
  pool_size = 1;
  decode_state = λ bytes. some filled_chain.state;
  decode_pool = λ bytes. none;
  programdata_address = λ program. some (round_host.find_program_address (key program ∷ []) 9).0;
  token_id = 10;
  associated_token_id = 11;
}

abbrev command_line : Commands → Cli
command_line command = record {
  keypair = "admin.json";
  keypair_base58_file = none;
  cluster = "devnet";
  override_program_id = none;
  command = command;
}

abbrev stranger_line : Cli
stranger_line = record (command_line (set_frozen true)) { keypair = "stranger.json" }

main-refused_example :
    Serves round_host small_net none
      (call (Dispatch.set_frozen 6 true))
      (main round_host small_net stranger_line)
    × (dispatch round_host (Dispatch.set_frozen 6 true) filled_chain ≡ err (floor unauthorized))
unfolding load_zero_copy load_keypair
main-refused_example =
    main-refused round_host small_net filled_chain none 6 9 stranger_line refl refl refl refl refl
      refl (Dispatch.set_frozen 6 true) refl (λ e. cc) (λ e. omega (arith, e))

abbrev admin_connection : Connection
admin_connection = record { program_id = 1; payer = 4 }

unparsed_key :
    perform round_host small_net admin_connection (mint_aat_nft "six" 50)
    ≡ failed invalid_investor_pubkey
unfolding perform
unparsed_key = refl
