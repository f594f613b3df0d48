-- ===== src/Program/Utils.antt =====
-- utils.rs: reading an AAT NFT's volume, and checking the accounts of a transfer hook.
use solana_floor_program.Base.{
  ℕ, zero, suc, ◌+◌, ◌*◌, List, [], ◌∷◌, Option, none, some, Bool, true, false, ◌&&◌, ◌==◌, leb,
  if◌then◌else◌, get_elem?, length,
}
use solana_floor_program.Program.Errors.{
  Result, ok, err, ◌>>=◌, ◌>>◌, floor, panic, require, ok_or, invalid_aat_nft,
  invalid_hook_accounts, invalid_hook_accounts_count,
}
use solana_floor_program.Program.State.{Pubkey}
use solana_floor_program.Program.Host.{Host, text, key}
use solana_floor_program.Program.Host.Metadata.{parse_u64}
use solana_floor_program.Program.Accounts.{pda, aat_nft_seeds}
use Prim.Native.Char.{code}
use Prim.Native.String.{String}

abbrev pub codes : String → List ℕ
codes String.[] = []
codes (String.◌∷◌ c s) = code c ∷ codes s

abbrev pub eq_bytes : List ℕ → List ℕ → Bool
eq_bytes [] [] = true
eq_bytes (a ∷ as') (b ∷ bs) = a == b && eq_bytes as' bs
eq_bytes _ _ = false

abbrev pub aat_volume_field : List ℕ
aat_volume_field = codes "aat_volume"

-- The loop over the metadata: the first entry of that key decides.
unfoldable pub aat_volume_of : List (List ℕ × List ℕ) → Result ℕ
aat_volume_of [] = err (floor invalid_aat_nft)
aat_volume_of ((k, value) ∷ rest) =
    let next = aat_volume_of rest in
    if eq_bytes k aat_volume_field then ok_or (parse_u64 value) invalid_aat_nft else next

-- Bytes as a number, the first the highest: 32 bytes of an account's data are a key.
unfoldable pub read_bytes : ℕ → ℕ → List ℕ → ℕ → ℕ
read_bytes offset zero bytes acc = acc
read_bytes zero (suc n) [] acc = acc
read_bytes zero (suc n) (b ∷ bytes) acc = read_bytes zero n bytes (acc * 256 + b)
read_bytes (suc offset) (suc n) [] acc = acc
read_bytes (suc offset) (suc n) (b ∷ bytes) acc = read_bytes offset (suc n) bytes acc

module _ (h : Host) where
  open h use {
    World, program_id, token_2022_id, find_program_address, mint_view, owner, account_data,
  }

  unfoldable pub verify_aat_nft_and_get_allocation : World → Pubkey → Pubkey → Result ℕ
  verify_aat_nft_and_get_allocation w aat_nft_mint investor = do
    require (pda h (aat_nft_seeds h investor) == aat_nft_mint) invalid_aat_nft
    require (owner w aat_nft_mint == token_2022_id) invalid_aat_nft
    view ← ok_or (mint_view w aat_nft_mint) invalid_aat_nft
    metadata ← ok_or view.metadata invalid_aat_nft
    aat_volume_of metadata

  -- `none` is each of the errors that the callers pass over alike.
  unfoldable pub get_hook_program_id : World → Pubkey → Option Pubkey
  get_hook_program_id w mint = elim (mint_view w mint) [
    | none ↦ none
    | some view ↦ elim view.transfer_hook [ none ↦ none | some hook ↦ hook ]
  ]

  -- `remaining[i]`; the count has been checked.
  abbrev account_at : List Pubkey → ℕ → Result Pubkey
  account_at ks i = elim (get_elem? ks i) [ none ↦ err panic | some k ↦ ok k ]

  abbrev require_account : List Pubkey → ℕ → Pubkey → Result (Unit {0})
  require_account ks i expected = do
    k ← account_at ks i
    require (k == expected) invalid_hook_accounts

  unfoldable pub validate_hook_accounts :
      World → List Pubkey → Pubkey → Pubkey → Pubkey → Result (Unit {0})
  validate_hook_accounts w remaining mint authority hook_program = do
    require (length remaining == 8) invalid_hook_accounts_count
    config ← account_at remaining 0
    require (config == (find_program_address (text "config" ∷ key mint ∷ []) hook_program).0)
        invalid_hook_accounts
    let config_data = account_data w config
    require (leb 136 (length config_data)) invalid_hook_accounts
    let credential = read_bytes 40 32 config_data 0
    let schema = read_bytes 72 32 config_data 0
    let sas_program = read_bytes 104 32 config_data 0
    require_account remaining 1 credential
    require_account remaining 2 schema
    require_account remaining 3 sas_program
    require_account remaining 4
        (find_program_address
          (text "attestation" ∷ key credential ∷ key schema ∷ key authority ∷ []) sas_program).0
    require_account remaining 5
        (find_program_address (text "whitelist" ∷ key mint ∷ key authority ∷ []) hook_program).0
    require_account remaining 6 hook_program
    require_account remaining 7
        (find_program_address (text "extra-account-metas" ∷ key mint ∷ []) hook_program).0
