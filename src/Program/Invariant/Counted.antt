-- ===== src/Program/Invariant/Counted.antt =====
-- A sale, and the round that it may start, seen by the invariant.
use solana_floor_program.Base.{
  ◌+◌, ◌*◌, ◌^◌, ◌≤◌, ℕ, ◌≡◌, refl, inl, inr, Bool, true, false, List, ◌==◌, arith, if◌then◌else◌,
  Bool-cases, sym, ap, ◌∙◌,
}
use solana_floor_program.Program.Errors.{Ensures, Ensures-bind, Ensures-if}
use solana_floor_program.Program.Checked.{sub, add_u64}
use solana_floor_program.Program.State.{Pubkey, ProgramState, InvestorRecord}
use solana_floor_program.Program.Pool.Stakes.{stakes}
use solana_floor_program.Program.Pool.Sums.{AllIdle}
use solana_floor_program.Program.RoundStart.{execute_round_start}
use solana_floor_program.Program.Instructions.SellWaln.{start_if_needed, count_sale}
use solana_floor_program.Program.Instructions.SellWaln.Pricing.{Quote, quote_sale}
use solana_floor_program.Program.Invariant.{IsPhase, IsSound, office}
use solana_floor_program.Program.Invariant.Rounds.{
  Restarts, execute_round_start-Restarts, started-IsSound,
}
use solana_floor_program.Program.Invariant.Covered.{
  CapLocked, IsCovered, RoundTerms, round_of, pays_more,
}

-- How a quote fits the state: its price and size are the running round's, or those of the round that
-- it is to start, and the amount is within what that has left.
abbrev pub FitsQuote : Pubkey → ProgramState → Quote → Type 0
FitsQuote waln_mint s q =
    (q.need_round_start ≡ (s.round_started == 0))
    × (waln_mint ≡ s.waln_mint)
    × (q.floor_price
        ≡ (if q.need_round_start then q.snapshot_price else s.current_round_floor_price))
    × ((if q.need_round_start then 0 else s.current_round_waln) + q.waln_amount
        ≤ (if q.need_round_start then q.snapshot_size else s.current_round_size_waln))

pub quote_sale-FitsQuote :
    (waln_mint usdc_mint : Pubkey) (decimals amount : ℕ) (s : ProgramState)
    → Ensures (FitsQuote waln_mint s) (quote_sale waln_mint usdc_mint decimals amount s)
unfolding quote_sale sub
quote_sale-FitsQuote waln_mint usdc_mint decimals amount s = ground arith

-- The records after the start, if there is one: with what is locked newly.
abbrev pub MayStart : ℕ → Quote → Bool → List InvestorRecord → List InvestorRecord × ℕ → Type 0
MayStart decimals q true rs p =
    Restarts rs p.0 p.1 × CapLocked decimals q.snapshot_price q.snapshot_size p.1
MayStart decimals q false rs p = p.0 ≡ rs

pub start_if_needed_lem :
    (q : Quote) (decimals : ℕ) (s : ProgramState) (rs : List InvestorRecord)
    → IsSound s rs
    → q.need_round_start ≡ (s.round_started == 0)
    → Ensures (MayStart decimals q q.need_round_start rs) (start_if_needed q decimals rs)
unfolding start_if_needed
start_if_needed_lem q decimals s rs sound need =
    Ensures-if (MayStart decimals q q.need_round_start rs) q.need_round_start _ _
      (λ e.
        let idle : AllIdle rs = idle_of sound.3 (ground arith) in
        Ensures-bind
          (λ p. Restarts rs p.0 p.2 × CapLocked decimals q.snapshot_price q.snapshot_size p.2)
          (MayStart decimals q q.need_round_start rs)
          (execute_round_start rs q.snapshot_size q.snapshot_price decimals) _
          (execute_round_start-Restarts rs q.snapshot_size q.snapshot_price decimals idle
            (omega arith) sound.2)
          λ p k. rw e k)
      (λ e. rw e refl)
  where
    idle_of : IsPhase s rs → s.round_started ≡ 0 → AllIdle rs
    idle_of (inl (off, idle)) e = idle
    idle_of (inr (on, same)) e = absurd (omega arith)

-- What the invariant reads of the state once a sale is counted.
abbrev pub Counts : Quote → ℕ → ℕ → ProgramState → ProgramState → Type 0
Counts q new usdc_out s s' =
    (s'.total_usdc_in_lobby ≡ s.total_usdc_in_lobby)
    × (s'.round_started ≡ (if q.need_round_start then 1 else s.round_started))
    × (s'.total_usdc_locked_for_round
        ≡ (if q.need_round_start then new else s.total_usdc_locked_for_round))
    × (s'.total_aat_volume ≡ s.total_aat_volume)
    × (s'.waln_mint ≡ s.waln_mint)
    × (s'.current_round_floor_price
        ≡ (if q.need_round_start then q.snapshot_price else s.current_round_floor_price))
    × (s'.current_round_size_waln
        ≡ (if q.need_round_start then q.snapshot_size else s.current_round_size_waln))
    × (s'.current_round_waln ≡ s.current_round_waln + q.waln_amount)
    × (s'.current_round_usdc_spent
        ≡ (if q.need_round_start then 0 else s.current_round_usdc_spent) + usdc_out)
    × (office s' ≡ office s)

pub MayStart-stakes :
    (decimals : ℕ) (q : Quote) (b : Bool) (rs : List InvestorRecord) (p : List InvestorRecord × ℕ)
    → MayStart decimals q b rs p
    → stakes p.0 ≡ stakes rs
MayStart-stakes decimals q true rs p may = may.0.3
MayStart-stakes decimals q false rs p may = ap stakes may

pub count_sale_lem :
    (q : Quote) (new usdc_out : ℕ) (s : ProgramState)
    → Ensures (Counts q new usdc_out s) (count_sale q new usdc_out s)
unfolding count_sale add_u64
count_sale_lem q new usdc_out s = ground arith

pub counted-IsSound :
    (decimals usdc_out : ℕ) (q : Quote) (s s' : ProgramState) (rs : List InvestorRecord)
    (started : List InvestorRecord × ℕ)
    → IsSound s rs
    → q.need_round_start ≡ (s.round_started == 0)
    → MayStart decimals q q.need_round_start rs started
    → Counts q started.1 usdc_out s s'
    → IsSound s' started.0
counted-IsSound decimals usdc_out q s s' rs started sound need may counts =
    elim (Bool-cases q.need_round_start) [
      | inl e ↦
          by_start e sound.3 (rw e at may).0
            (counts.0, rw e at counts.1, rw e at counts.2, counts.3)
      | inr e ↦
          by_sale e sound.3 (rw e at may) (counts.0, rw e at counts.1, rw e at counts.2, counts.3)
    ]
  where
    by_start :
        q.need_round_start ≡ true
        → IsPhase s rs
        → Restarts rs started.0 started.1
        → (s'.total_usdc_in_lobby ≡ s.total_usdc_in_lobby)
          × (s'.round_started ≡ 1)
          × (s'.total_usdc_locked_for_round ≡ started.1)
          × (s'.total_aat_volume ≡ s.total_aat_volume)
        → IsSound s' started.0
    by_start e (inl (off, idle)) k c =
        started-IsSound s s' rs started.0 sound idle (k.0, k.1, omega arith, k.3) c.1 c.0 c.3
    by_start e (inr (on, same)) k c = absurd (ground arith)

    by_sale :
        q.need_round_start ≡ false
        → IsPhase s rs
        → started.0 ≡ rs
        → (s'.total_usdc_in_lobby ≡ s.total_usdc_in_lobby)
          × (s'.round_started ≡ s.round_started)
          × (s'.total_usdc_locked_for_round ≡ s.total_usdc_locked_for_round)
          × (s'.total_aat_volume ≡ s.total_aat_volume)
        → IsSound s' started.0
    by_sale e (inl (off, idle)) k c = absurd (ground arith)
    by_sale e (inr (on, same)) k c =
        rw k (omega arith, omega arith, omega arith, inr (omega arith, omega arith), omega arith)

-- A round with one more sale.
running_lem :
    (decimals sold spent amount out : ℕ) (t : RoundTerms)
    → t.started ≡ 1
    → t.sold ≡ sold + amount
    → t.spent ≡ spent + out
    → sold + amount ≤ t.size
    → spent * 10 ^ decimals ≤ sold * t.price
    → out * 10 ^ decimals ≤ amount * t.price
    → CapLocked decimals t.price t.size t.locked
    → IsCovered decimals t
running_lem decimals sold spent amount out t on is_sold is_spent room before paid cap_locked = inr (
  on,
  omega arith,
  rw (is_sold, is_spent) (pays_more spent out sold amount t.price (10 ^ decimals) before paid),
  cap_locked,
)

-- The sale is covered as the round was, which it may have started.
pub counted-IsCovered :
    (decimals usdc_out : ℕ) (waln_mint : Pubkey) (q : Quote) (s s' : ProgramState)
    (rs : List InvestorRecord) (started : List InvestorRecord × ℕ)
    → IsCovered decimals (round_of s)
    → FitsQuote waln_mint s q
    → MayStart decimals q q.need_round_start rs started
    → Counts q started.1 usdc_out s s'
    → usdc_out * 10 ^ decimals ≤ q.waln_amount * q.floor_price
    → IsCovered decimals (round_of s')
counted-IsCovered decimals out waln_mint q s s' rs started covered fits may counts paid =
    elim (Bool-cases q.need_round_start) [ inl e ↦ by_start e covered | inr e ↦ by_sale e covered ]
  where
    by_start :
        q.need_round_start ≡ true
        → IsCovered decimals (round_of s)
        → IsCovered decimals (round_of s')
    by_start e (inr (on, room, before, cap_locked)) = absurd (ground (arith, fits.0))
    by_start e (inl (off, unsold)) =
        let price : s'.current_round_floor_price ≡ q.snapshot_price = rw e at counts.5 in
        let size : s'.current_round_size_waln ≡ q.snapshot_size = rw e at counts.6 in
        let total : s'.total_usdc_locked_for_round ≡ started.1 = rw e at counts.2 in
        let asked : q.floor_price ≡ q.snapshot_price = rw e at fits.2 in
        let room : 0 + q.waln_amount ≤ q.snapshot_size = rw e at fits.3 in
        let spent : s'.current_round_usdc_spent ≡ 0 + out = rw e at counts.8 in
        let paid' : out * 10 ^ decimals ≤ q.waln_amount * s'.current_round_floor_price =
          rw (price, sym asked) paid in
        let start = rw e at may in
        running_lem decimals 0 0 q.waln_amount out (round_of s') (rw e at counts.1)
          (omega (arith, counts.7, unsold)) spent (omega arith) (omega arith) paid'
          (rw (price, size, total) start.1)

    by_sale :
        q.need_round_start ≡ false
        → IsCovered decimals (round_of s)
        → IsCovered decimals (round_of s')
    by_sale e (inl (off, unsold)) = absurd (ground (arith, fits.0))
    by_sale e (inr (on, room, before, cap_locked)) =
        let price : s'.current_round_floor_price ≡ s.current_round_floor_price = rw e at counts.5 in
        let size : s'.current_round_size_waln ≡ s.current_round_size_waln = rw e at counts.6 in
        let total : s'.total_usdc_locked_for_round ≡ s.total_usdc_locked_for_round =
          rw e at counts.2 in
        let asked : q.floor_price ≡ s.current_round_floor_price = rw e at fits.2 in
        let left : s.current_round_waln + q.waln_amount ≤ s.current_round_size_waln =
          rw e at fits.3 in
        let spent : s'.current_round_usdc_spent ≡ s.current_round_usdc_spent + out =
          rw e at counts.8 in
        let still : s'.round_started ≡ s.round_started = rw e at counts.1 in
        let before' : s.current_round_usdc_spent * 10 ^ decimals
            ≤ s.current_round_waln * s'.current_round_floor_price =
          rw price before in
        let paid' : out * 10 ^ decimals ≤ q.waln_amount * s'.current_round_floor_price =
          rw (price, sym asked) paid in
        running_lem decimals s.current_round_waln s.current_round_usdc_spent q.waln_amount out
          (round_of s') (still ∙ on) counts.7 spent (omega arith) before' paid'
          (rw (price, size, total) cap_locked)
