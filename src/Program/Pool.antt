-- ===== src/Program/Pool.antt =====
-- The investor pool as the handlers walk it: `find`, `any`, `position`, and the swap that removes.
pub mod Sums
pub mod Keys
pub mod Removal
pub mod Distinct
pub mod Stakes
use solana_floor_program.Base.{
  ℕ, zero, suc, ◌+◌, ◌-◌, Bool, true, false, ◌||◌, List, [], ◌∷◌, ◌++◌, Option, none, some, ◌==◌,
  if◌then◌else◌, get_elem?, set, length,
}
use solana_floor_program.Base.Int.{pos}
use solana_floor_program.Program.Errors.{Result, ok, err, ◌>>=◌, floor, panic, invalid_investor}
use solana_floor_program.Program.State.{Pubkey, default_key, InvestorRecord}

-- `.any(|r| r.investor == key)`
unfoldable pub has_investor : Pubkey → List InvestorRecord → Bool
has_investor key [] = false
has_investor key (r ∷ rs) = r.investor == key || has_investor key rs

-- `.find(|r| r.investor == key).ok_or(InvalidInvestor)?`, for a look
unfoldable pub find_investor : Pubkey → List InvestorRecord → Result InvestorRecord
find_investor key [] = err (floor invalid_investor)
find_investor key (r ∷ rs) = if r.investor == key then ok r else find_investor key rs

-- The same for a write: the first record of the key becomes what `f` makes of it.
unfoldable pub modify_investor :
    Pubkey
    → (InvestorRecord → Result InvestorRecord)
    → List InvestorRecord
    → Result (List InvestorRecord)
modify_investor key f [] = err (floor invalid_investor)
modify_investor key f (r ∷ rs) =
    let rest = modify_investor key f rs in
    if r.investor == key then (do r' ← f r; ok (r' ∷ rs)) else (do rs' ← rest; ok (r ∷ rs'))

unfoldable pub new_record : Pubkey → InvestorRecord
new_record key = record {
  investor = key;
  usdc_deposited = 0;
  usdc_locked_current_round = 0;
  usdc_committed = 0;
  waln_purchased_total = 0;
  aat_volume = 0;
  usdc_unlock_ts = pos 0;
}

-- `.position(|r| r.investor == key)`
unfoldable pub position : Pubkey → List InvestorRecord → Option ℕ
position key [] = none
position key (r ∷ rs) =
    let rest = position key rs in
    if r.investor == key then some 0 else elim rest [ none ↦ none | some i ↦ some (suc i) ]

abbrev pub drop_last : List InvestorRecord → List InvestorRecord
drop_last [] = []
drop_last (r ∷ []) = []
drop_last (r ∷ s ∷ rs) = r ∷ drop_last (s ∷ rs)

-- The last record moves into the slot at the index, and the last slot leaves use.
unfoldable pub swap_remove : ℕ → List InvestorRecord → Result (List InvestorRecord)
swap_remove i rs = elim (get_elem? rs (length rs - 1)) [
  | none ↦ err panic
  | some moved ↦ ok (drop_last (set rs i moved))
]
