-- ===== src/Program/FullClose.antt =====
-- instructions/sell_waln.rs: how a sale that fills the round settles it over the pool, up to the
-- list of allocations that is written out for the claims.
pub mod Totals
pub mod Sorted
pub mod Credits
use solana_floor_program.Base.{
  ℕ, suc, ◌+◌, ◌-◌, ◌%◌, Bool, true, false, ◌&&◌, List, [], ◌∷◌, ◌++◌, Option, none, some, ltb, leb,
  ◌==◌, if◌then◌else◌, get_elem?, set, length,
}
use solana_floor_program.Base.Int.{ℤ, pos, negsuc}
use solana_floor_program.Program.Errors.{Result, ok, err, ◌>>=◌, ◌>>◌, panic}
use solana_floor_program.Program.Checked.{add_u64, to_u64}
use solana_floor_program.Program.State.{Pubkey, InvestorRecord, InvestorAlloc}
use solana_floor_program.Program.ForcedClose.{mul_div, is_locked}

-- What the loop carries along.
pub record Closing : Type 0 where
  pub total_usdc_spent : ℕ
  pub total_waln_purchased : ℕ
  pub total_aat_volume : ℕ
  pub participant_count : ℕ
  pub participants : List InvestorAlloc

abbrev pub closing_start : Closing
closing_start = record {
  total_usdc_spent = 0;
  total_waln_purchased = 0;
  total_aat_volume = 0;
  participant_count = 0;
  participants = [];
}

unfoldable pub base_waln : ℕ → ℕ → ℕ → Result ℕ
base_waln waln_scale floor_price locked = do q ← mul_div locked waln_scale floor_price; to_u64 q

-- The record of a participant, for the wALN that its lock buys.
unfoldable pub complete_record : InvestorRecord → ℕ → Result InvestorRecord
complete_record r waln = do
  committed ← add_u64 r.usdc_committed r.usdc_locked_current_round
  purchased ← add_u64 r.waln_purchased_total waln
  ok (record r {
    usdc_committed = committed;
    usdc_locked_current_round = 0;
    waln_purchased_total = purchased;
  })

unfoldable pub complete_one : ℕ → ℕ → InvestorRecord → Closing → Result (InvestorRecord × Closing)
complete_one waln_scale floor_price r c =
    if is_locked r
    then (do
      count ← add_u64 c.participant_count 1
      volume ← add_u64 c.total_aat_volume r.aat_volume
      waln ← base_waln waln_scale floor_price r.usdc_locked_current_round
      r' ← complete_record r waln
      spent ← add_u64 c.total_usdc_spent r.usdc_locked_current_round
      purchased ← add_u64 c.total_waln_purchased waln
      ok (
        r',
        record {
          total_usdc_spent = spent;
          total_waln_purchased = purchased;
          total_aat_volume = volume;
          participant_count = count;
          participants =
              c.participants ++ (record { investor = r.investor; waln_amount = waln } ∷ []);
        },
      ))
    else ok (r, c)

unfoldable pub complete_all :
    ℕ → ℕ → List InvestorRecord → Closing → Result (List InvestorRecord × Closing)
complete_all waln_scale floor_price [] c = ok ([], c)
complete_all waln_scale floor_price (r ∷ rs) c = do
  first ← complete_one waln_scale floor_price r c
  rest ← complete_all waln_scale floor_price rs first.1
  ok (first.0 ∷ rest.0, rest.1)

-- `timestamp as u64`.
abbrev pub timestamp_as_u64 : ℤ → ℕ
timestamp_as_u64 (pos n) = n
timestamp_as_u64 (negsuc n) = 18446744073709551615 - n

-- The first record of the winner gets the dust; where there is none, nothing happens.
unfoldable pub credit_dust : Pubkey → ℕ → List InvestorRecord → Result (List InvestorRecord)
credit_dust winner dust [] = ok []
credit_dust winner dust (r ∷ rs) =
    let rest = credit_dust winner dust rs in
    if r.investor == winner
    then (do
      purchased ← add_u64 r.waln_purchased_total dust
      ok (record r { waln_purchased_total = purchased } ∷ rs))
    else (do rs' ← rest; ok (r ∷ rs'))

-- `participant_data[i]`, which panics out of range.
abbrev pub participant_at : List InvestorAlloc → ℕ → Result InvestorAlloc
participant_at ps i = elim (get_elem? ps i) [ none ↦ err panic | some p ↦ ok p ]

unfoldable pub award_dust :
    ℕ → ℤ → List InvestorRecord × Closing → Result (List InvestorRecord × Closing)
award_dust dust_pool now (rs, c) =
    if ltb 0 dust_pool && ltb 0 c.participant_count
    then (do
      let recipient = timestamp_as_u64 now % c.participant_count
      p ← participant_at c.participants recipient
      amount ← add_u64 p.waln_amount dust_pool
      purchased ← add_u64 c.total_waln_purchased dust_pool
      rs' ← credit_dust p.investor dust_pool rs
      ok (
        rs',
        record c {
          total_waln_purchased = purchased;
          participants = set c.participants recipient (record p { waln_amount = amount });
        },
      ))
    else ok (rs, c)

unfoldable pub settle_full :
    ℕ → ℕ → ℕ → ℤ → List InvestorRecord → Result (List InvestorRecord × Closing)
settle_full waln_scale floor_price dust_pool now rs = do
  closed ← complete_all waln_scale floor_price rs closing_start
  award_dust dust_pool now closed

-- `retain`: who gets nothing leaves the list.
unfoldable pub retain_positive : List InvestorAlloc → List InvestorAlloc
retain_positive [] = []
retain_positive (a ∷ ps) =
    if ltb 0 a.waln_amount then a ∷ retain_positive ps else retain_positive ps

-- `sort_unstable_by` the investors' bytes: an insertion sort, since the order of equal keys is open.
unfoldable pub insert_alloc : InvestorAlloc → List InvestorAlloc → List InvestorAlloc
insert_alloc a [] = a ∷ []
insert_alloc a (b ∷ ps) = if leb a.investor b.investor then a ∷ b ∷ ps else b ∷ insert_alloc a ps

unfoldable pub sort_allocs : List InvestorAlloc → List InvestorAlloc
sort_allocs [] = []
sort_allocs (a ∷ ps) = insert_alloc a (sort_allocs ps)
