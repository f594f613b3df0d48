-- ===== src/Client/Addresses.antt =====
-- admin-cli/src/utils.rs: the addresses that the client derives.
use solana_floor_program.Base.{ℕ, [], ◌∷◌}
use solana_floor_program.Program.State.{Pubkey}
use solana_floor_program.Program.Host.{Host, text, key}
use solana_floor_program.Client.{Reply, done, ◌>>=◌, or_fail, panicked, Net}

module _ (h : Host) where
  open h use {find_program_address}

  abbrev pub get_contract_state_address : Pubkey → Pubkey × ℕ
  get_contract_state_address program_id =
      find_program_address (text "contract_state" ∷ []) program_id

  abbrev pub get_usdc_vault_address : Pubkey → Pubkey × ℕ
  get_usdc_vault_address program_id = find_program_address (text "usdc_vault" ∷ []) program_id

  abbrev pub get_waln_vault_address : Pubkey → Pubkey × ℕ
  get_waln_vault_address program_id = find_program_address (text "waln_vault" ∷ []) program_id

  abbrev pub get_investor_pool_address : Pubkey → Pubkey × ℕ
  get_investor_pool_address program_id = find_program_address (text "investor_pool" ∷ []) program_id

  abbrev pub get_treasury_address : Pubkey → Pubkey × ℕ
  get_treasury_address program_id = find_program_address (text "treasury" ∷ []) program_id

  abbrev pub get_aat_nft_mint_address : (investor program_id : Pubkey) → Pubkey × ℕ
  get_aat_nft_mint_address investor program_id =
      find_program_address (text "aat_nft" ∷ key investor ∷ []) program_id

  abbrev pub get_nft_authority_address : Pubkey → Pubkey × ℕ
  get_nft_authority_address program_id = find_program_address (text "nft_authority" ∷ []) program_id

  -- The loader's id is parsed from its text, with an `expect`.
  unfoldable pub get_program_data_address : Net → Pubkey → Reply (Pubkey × ℕ)
  get_program_data_address n program_id = do
    loader ← or_fail (n.parse_pubkey "BPFLoaderUpgradeab1e11111111111111111111111") panicked
    done (find_program_address (key program_id ∷ []) loader)
