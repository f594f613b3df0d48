-- ===== src/Program/Examples/Volumes.antt =====
-- An update of a volume, on a host that keeps the metadata of mints.
use solana_floor_program.Base.{ℕ, ◌≡◌, false, List, [], ◌∷◌, none, some, arith, ◌==◌, if◌then◌else◌}
use solana_floor_program.Base.Int.{pos}
use solana_floor_program.Program.Errors.{Result, ok}
use solana_floor_program.Program.State.{Pubkey}
use solana_floor_program.Program.Host.{Host, Instruction, MintView, update_field}
use solana_floor_program.Program.Host.Metadata.{print_u64}
use solana_floor_program.Program.Utils.{aat_volume_field}
use solana_floor_program.Program.Accounts.{Chain}
use solana_floor_program.Program.Pool.{new_record}
use solana_floor_program.Program.Examples.Rounds.{first_chain}

-- The entries of each mint's metadata.
abbrev Entries : Type 0
Entries = Pubkey → List (List ℕ × List ℕ)

abbrev view_of : Entries → Pubkey → MintView
view_of w k = record {
  decimals = 0;
  transfer_hook = none;
  has_transfer_fee = false;
  metadata = some (w k);
}

-- Every other instruction leaves the metadata.
abbrev write_field : Instruction → Entries → Result Entries
write_field (update_field mint authority field value) w =
    ok (λ k. if k == mint then (field, value) ∷ [] else w k)
write_field _ w = ok w

view_of-decimals :
    (w : Entries) (k : Pubkey) (m : MintView) → some (view_of w k) ≡ some m → m.decimals ≡ 0
view_of-decimals w k m e = ground arith

abbrev metadata_host : Host
metadata_host = record {
  World = Entries;
  program_id = 1;
  token_2022_id = 2;
  system_id = 3;
  find_program_address = λ seeds program. (60, 255);
  unix_timestamp = λ w. pos 0;
  minimum_balance = λ w space. space;
  lamports = λ w k. 0;
  owner = λ w k. 2;
  account_data = λ w k. [];
  mint_view = λ w k. some (view_of w k);
  mint_decimals = λ k. 0;
  decimals_fixed = view_of-decimals;
  token_account = λ w k. none;
  aat_mint_space = some 234;
  associated_address = λ wallet mint program. 45;
  invoke_signed = λ i seeds w. write_field i w;
  set_lamports = λ k n w. w;
  release_account = λ k w. ok w;
}

-- An investor's volume goes from 50 to 70.
abbrev chain_with : ℕ → Chain metadata_host
chain_with volume = record {
  state = record (first_chain.state) { total_aat_volume = volume };
  pool = record { bump = 255; investors = record (new_record 5) { aat_volume = volume } ∷ [] };
  round_records = λ k. none;
  round_locked = λ k. none;
  events = [];
  world = λ k. (aat_volume_field, print_u64 volume) ∷ [];
}

abbrev updated_chain : Chain metadata_host
updated_chain = record (chain_with 70) {
  world = λ k.
      if k == 60
      then (aat_volume_field, print_u64 70) ∷ []
      else (aat_volume_field, print_u64 50) ∷ [];
}
