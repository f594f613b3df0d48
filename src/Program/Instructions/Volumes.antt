-- ===== src/Program/Instructions/Volumes.antt =====
-- What an update of an AAT volume does: to the NFT, to the total, and to the investor's record.
use solana_floor_program.Base.{ℕ, ◌+◌, ◌≤◌, ◌≡◌, false, List, ◌∷◌, ◌++◌, some, All}
use solana_floor_program.Program.Errors.{ok}
use solana_floor_program.Program.State.{Pubkey, InvestorRecord}
use solana_floor_program.Program.Host.{Host, MintView, Seed, update_field}
use solana_floor_program.Program.Utils.{eq_bytes, verify_aat_nft_and_get_allocation}
use solana_floor_program.Program.Accounts.{Chain}
use solana_floor_program.Program.Pool.{find_investor}
use solana_floor_program.Program.Pool.Keys.{OthersKept}
use solana_floor_program.Program.Instructions.AatNft.{max_total_aat_volume}

-- The investor's record has the volume and is otherwise as it was, and so are all other records.
abbrev pub SetsVolume : Pubkey → ℕ → List InvestorRecord → List InvestorRecord → Type 0
SetsVolume investor volume rs rs' =
    ((r : InvestorRecord)
      → find_investor investor rs ≡ ok r
      → find_investor investor rs' ≡ ok (record r { aat_volume = volume }))
    × OthersKept investor rs rs'

module _ (h : Host) where
  -- What Token-2022 documents of `update_field`: the mint's owner stays, and its metadata then has
  -- the value under the field's key, with no other entry of that key before it.
  abbrev pub WritesFields : Type 0
  WritesFields =
      (mint authority : Pubkey) (field value : List ℕ) (seeds : List (List Seed)) (w w' : h.World)
      → h.invoke_signed (update_field mint authority field value) seeds w ≡ ok w'
      → (h.owner w' mint ≡ h.owner w mint)
        × ((view : MintView) × (before : List (List ℕ × List ℕ)) × (after : List (List ℕ × List ℕ))
            × (h.mint_view w' mint ≡ some view)
            × (view.metadata ≡ some (before ++ ((field, value) ∷ after)))
            × All (λ e. eq_bytes e.0 field ≡ false) before)

  -- The NFT's volume is read before and after.
  abbrev pub Rewrites : Pubkey → Pubkey → ℕ → Chain h → Chain h → Type 0
  Rewrites investor mint volume c c' =
      (old : ℕ) × (verify_aat_nft_and_get_allocation h c.world mint investor ≡ ok old)
      × (verify_aat_nft_and_get_allocation h c'.world mint investor ≡ ok volume)
      × (c'.state.total_aat_volume + old ≡ c.state.total_aat_volume + volume)
      × (c'.state.total_aat_volume ≤ max_total_aat_volume)
      × SetsVolume investor volume c.pool.investors c'.pool.investors
