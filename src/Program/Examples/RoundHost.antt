-- ===== src/Program/Examples/RoundHost.antt =====
-- A host whose addresses are all different, for a chain through a whole round.
use solana_floor_program.Base.{
  ℕ, ◌+◌, ◌≡◌, false, List, [], ◌∷◌, Option, none, some, arith, ◌==◌, if◌then◌else◌,
}
use solana_floor_program.Base.Int.{pos}
use solana_floor_program.Program.Errors.{ok}
use solana_floor_program.Program.State.{Pubkey}
use solana_floor_program.Program.Host.{Host, Seed, MintView, TokenAccount, text, key}
use solana_floor_program.Program.Host.Metadata.{print_u64}
use solana_floor_program.Program.Utils.{codes, eq_bytes, aat_volume_field}

-- The world is the time. The program's addresses differ by their text; accounts from 20 on are
-- USDC accounts, and from 30 on wALN accounts, of the wallet that their last digit names.
abbrev named_address : List ℕ → ℕ
named_address name =
    if eq_bytes name (codes "contract_state")
    then 50
    else if eq_bytes name (codes "usdc_vault")
    then 51
    else if eq_bytes name (codes "waln_vault")
    then 52
    else if eq_bytes name (codes "round_record")
    then 53
    else if eq_bytes name (codes "round_locked_waln")
    then 54
    else 55

abbrev round_address : List Seed → Pubkey → Pubkey × ℕ
round_address (text t ∷ key k ∷ rest) program = (100 + k, 255)
round_address (text t ∷ rest) program = (named_address (codes t), 255)
round_address _ program = (60, 255)

abbrev round_mint : ℕ → Option MintView
round_mint k =
    if k == 105
    then some (record {
      decimals = 0;
      transfer_hook = none;
      has_transfer_fee = false;
      metadata = some ((aat_volume_field, print_u64 50) ∷ []);
    })
    else some
        (record { decimals = 9; transfer_hook = none; has_transfer_fee = false; metadata = none })

abbrev round_decimals : ℕ → ℕ
round_decimals k = if k == 105 then 0 else 9

pub round_mint-decimals :
    (k : ℕ) (m : MintView) → round_mint k ≡ some m → m.decimals ≡ round_decimals k
round_mint-decimals k m e = ground arith

abbrev round_token_account : ℕ → Option TokenAccount
round_token_account k =
    if k == 51
    then some (record { mint = 7; authority = 50; amount = 6 })
    else if k == 52
    then some (record { mint = 8; authority = 50; amount = 0 })
    else if k == 25
    then some (record { mint = 7; authority = 5; amount = 1000 })
    else if k == 35
    then some (record { mint = 8; authority = 5; amount = 0 })
    else if k == 26
    then some (record { mint = 7; authority = 6; amount = 0 })
    else if k == 36
    then some (record { mint = 8; authority = 6; amount = 2000000000 })
    else if k == 45
    then some (record { mint = 105; authority = 5; amount = 1 })
    else none

abbrev pub round_host : Host
round_host = record {
  World = ℕ;
  program_id = 1;
  token_2022_id = 2;
  system_id = 3;
  find_program_address = round_address;
  unix_timestamp = λ w. pos w;
  minimum_balance = λ w space. space;
  lamports = λ w k. 0;
  owner = λ w k. 2;
  account_data = λ w k. [];
  mint_view = λ w k. round_mint k;
  mint_decimals = round_decimals;
  decimals_fixed = λ w k m. round_mint-decimals k m;
  token_account = λ w k. round_token_account k;
  aat_mint_space = some 234;
  associated_address = λ wallet mint program. if mint == 105 then 45 else 35;
  invoke_signed = λ i seeds w. ok w;
  set_lamports = λ k n w. w;
  release_account = λ k w. ok w;
}
