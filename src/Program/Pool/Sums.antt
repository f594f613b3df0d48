-- ===== src/Program/Pool/Sums.antt =====
-- How a write to one record moves the sums over the pool.
use solana_floor_program.Base.{
  ℕ, zero, suc, ◌+◌, ◌-◌, ◌≡◌, refl, inl, inr, List, [], ◌∷◌, ◌++◌, some, arith, ◌==◌,
  if◌then◌else◌, get_elem?, set, length, length-append, sum_by, sum_by-append, All, Bool-cases,
  Option-cases,
}
use solana_floor_program.Program.Errors.{Result, ok, Ensures, Ensures-bind, Ensures-if}
use solana_floor_program.Program.State.{Pubkey, InvestorRecord}
use solana_floor_program.Program.RoundStart.Locking.{lock}
use solana_floor_program.Program.Pool.Distinct.{keys, NoRepeat, snoc-NoRepeat}
use solana_floor_program.Program.Pool.Stakes.{stakes, stakes-cons}
use solana_floor_program.Program.Pool.{
  find_investor, modify_investor, new_record, position, drop_last, swap_remove, has_investor,
}

abbrev pub deposits : List InvestorRecord → ℕ
deposits = sum_by (λ r. r.usdc_deposited)

abbrev pub locked : List InvestorRecord → ℕ
locked = sum_by lock

abbrev pub AllIdle : List InvestorRecord → Type 0
AllIdle = All (λ r. lock r ≡ 0)

-- Deposits fall by `a` and grow by `b`, and nothing else that the totals see changes.
abbrev pub Moves : ℕ → ℕ → List InvestorRecord → List InvestorRecord → Type 0
Moves a b rs rs' =
    (deposits rs' + a ≡ deposits rs + b)
    × (locked rs' ≡ locked rs)
    × (length rs' ≡ length rs)
    × (AllIdle rs → AllIdle rs')
    × (keys rs' ≡ keys rs)
    × (a ≡ b → stakes rs' ≡ stakes rs)

abbrev pub MovesOne : ℕ → ℕ → InvestorRecord → InvestorRecord → Type 0
MovesOne a b r r' =
    (r'.usdc_deposited + a ≡ r.usdc_deposited + b)
    × (lock r' ≡ lock r)
    × (r'.investor ≡ r.investor)
    × (r'.usdc_committed ≡ r.usdc_committed)

pub modify_investor-Moves :
    (key : Pubkey) (f : InvestorRecord → Result InvestorRecord) (a b : ℕ) (rs : List InvestorRecord)
    → ((r : InvestorRecord) → find_investor key rs ≡ ok r → Ensures (MovesOne a b r) (f r))
    → Ensures (Moves a b rs) (modify_investor key f rs)
unfolding modify_investor find_investor
modify_investor-Moves key f a b [] h = tt
modify_investor-Moves key f a b (r ∷ rs) h =
    Ensures-if (Moves a b (r ∷ rs)) (r.investor == key) _ _
      (λ e. Ensures-bind (MovesOne a b r) (Moves a b (r ∷ rs)) (f r) _ (h r (rw e)) λ r' k. (
        omega arith,
        omega arith,
        refl,
        λ i. (omega (arith, i.0), i.1),
        rw k.2 refl,
        λ z. stakes-cons r r' rs rs k.2 (omega (arith, z)) refl,
      ))
      (λ e.
        Ensures-bind (Moves a b rs) (Moves a b (r ∷ rs)) (modify_investor key f rs) _
          (modify_investor-Moves key f a b rs (λ s found. h s (rw e found)))
          λ rs' k. (
            omega arith,
            omega arith,
            omega arith,
            λ i. (i.0, k.3 i.1),
            rw k.4 refl,
            λ z. stakes-cons r r rs rs' refl refl (k.5 z),
          ))

AllIdle-snoc :
    (key : Pubkey) (rs : List InvestorRecord) → AllIdle rs → AllIdle (rs ++ (new_record key ∷ []))
unfolding new_record
AllIdle-snoc key [] h = (refl, tt)
AllIdle-snoc key (r ∷ rs) h = (h.0, AllIdle-snoc key rs h.1)

-- The slot that a deposit takes into use holds nothing.
pub with_investor-Moves :
    (key : Pubkey) (rs : List InvestorRecord)
    → let rs' = if has_investor key rs then rs else rs ++ (new_record key ∷ []) in
      (deposits rs' ≡ deposits rs)
      × (locked rs' ≡ locked rs)
      × (AllIdle rs → AllIdle rs')
      × (length rs' ≡ length rs + (if has_investor key rs then 0 else 1))
unfolding new_record
with_investor-Moves key rs = elim (Bool-cases (has_investor key rs)) [
  | inl e ↦ rw e (refl, refl, λ i. i, omega arith)
  | inr e ↦ rw e (
    omega
        (arith, sum_by-append (λ (r : InvestorRecord). r.usdc_deposited) rs (new_record key ∷ [])),
    omega (arith, sum_by-append lock rs (new_record key ∷ [])),
    AllIdle-snoc key rs,
    length-append rs (new_record key ∷ []),
  )
]

pub with_investor-NoRepeat :
    (key : Pubkey) (rs : List InvestorRecord)
    → NoRepeat (keys rs)
    → NoRepeat (keys (if has_investor key rs then rs else rs ++ (new_record key ∷ [])))
with_investor-NoRepeat key rs h = elim (Bool-cases (has_investor key rs)) [
  | inl e ↦ rw e h
  | inr e ↦ rw e (snoc-NoRepeat key rs e h)
]

drop_last_sum :
    (g : InvestorRecord → ℕ) (rs : List InvestorRecord) {last : InvestorRecord}
    → get_elem? rs (length rs - 1) ≡ some last
    → sum_by g (drop_last rs) + g last ≡ sum_by g rs
drop_last_sum g [] e = cc
drop_last_sum g (r ∷ []) e = ground arith
drop_last_sum g (r ∷ s ∷ rs) e =
    let q : length (r ∷ s ∷ rs) - 1 ≡ suc (length (s ∷ rs) - 1) = omega arith in
    omega (arith, drop_last_sum g (s ∷ rs) (rw q at e))

set_sum :
    (g : InvestorRecord → ℕ) (rs : List InvestorRecord) (i : ℕ) (v : InvestorRecord)
    {r : InvestorRecord}
    → get_elem? rs i ≡ some r
    → sum_by g (set rs i v) + g r ≡ sum_by g rs + g v
set_sum g [] i v e = cc
set_sum g (s ∷ rs) zero v e = ground arith
set_sum g (s ∷ rs) (suc i) v e = omega (arith, set_sum g rs i v e)

length-set :
    (rs : List InvestorRecord) (i : ℕ) (v : InvestorRecord) → length (set rs i v) ≡ length rs
length-set [] i v = refl
length-set (r ∷ rs) zero v = refl
length-set (r ∷ rs) (suc i) v = omega (arith, length-set rs i v)

-- Where a list's own last entry is written somewhere, it is the last entry still.
set_last :
    (rs : List InvestorRecord) (i j : ℕ) {v : InvestorRecord}
    → get_elem? rs j ≡ some v
    → get_elem? (set rs i v) j ≡ some v
set_last [] i j e = cc
set_last (r ∷ rs) zero zero e = refl
set_last (r ∷ rs) zero (suc j) e = e
set_last (r ∷ rs) (suc i) zero e = e
set_last (r ∷ rs) (suc i) (suc j) e = set_last rs i j e

drop_last-length : (rs : List InvestorRecord) → length (drop_last rs) ≡ length rs - 1
drop_last-length [] = omega arith
drop_last-length (r ∷ []) = omega arith
drop_last-length (r ∷ s ∷ rs) = omega (arith, drop_last-length (s ∷ rs))

swap_remove_sum :
    (g : InvestorRecord → ℕ) (i : ℕ) (rs : List InvestorRecord) {r moved : InvestorRecord}
    → get_elem? rs i ≡ some r
    → get_elem? rs (length rs - 1) ≡ some moved
    → sum_by g (drop_last (set rs i moved)) + g r ≡ sum_by g rs
swap_remove_sum g i rs {r} {moved} e f =
    let kept : get_elem? (set rs i moved) (length (set rs i moved) - 1) ≡ some moved =
      rw (length-set rs i moved) (set_last rs i (length rs - 1) f) in
    omega (arith, set_sum g rs i moved e, drop_last_sum g (set rs i moved) kept)

set-AllIdle :
    (rs : List InvestorRecord) (i j : ℕ) {v : InvestorRecord}
    → get_elem? rs j ≡ some v
    → AllIdle rs
    → AllIdle (set rs i v)
set-AllIdle rs i j {v} e h = go rs i (idle_at rs j e h) h
  where
    idle_at : (qs : List InvestorRecord) (k : ℕ) → get_elem? qs k ≡ some v → AllIdle qs → lock v ≡ 0
    idle_at [] k e h = cc
    idle_at (q ∷ qs) zero e h = ground arith
    idle_at (q ∷ qs) (suc k) e h = idle_at qs k e h.1

    go : (qs : List InvestorRecord) (k : ℕ) → lock v ≡ 0 → AllIdle qs → AllIdle (set qs k v)
    go [] k z h = tt
    go (q ∷ qs) zero z h = (z, h.1)
    go (q ∷ qs) (suc k) z h = (h.0, go qs k z h.1)

drop_last-AllIdle : (rs : List InvestorRecord) → AllIdle rs → AllIdle (drop_last rs)
drop_last-AllIdle [] h = tt
drop_last-AllIdle (r ∷ []) h = tt
drop_last-AllIdle (r ∷ s ∷ rs) h = (h.0, drop_last-AllIdle (s ∷ rs) h.1)

-- What is found is at its position.
pub find-position :
    (key : Pubkey) (rs : List InvestorRecord) {i : ℕ} {r : InvestorRecord}
    → position key rs ≡ some i
    → find_investor key rs ≡ ok r
    → get_elem? rs i ≡ some r
unfolding position find_investor
find-position key [] e f = cc
find-position key (s ∷ rs) {i} {r} e f = elim (Bool-cases (s.investor == key)) [
  | inl b ↦ ground arith
  | inr b ↦ elim (Option-cases (position key rs)) [
    | inl n ↦ ground arith
    | inr (j, n) ↦
        let found = find-position key rs {i = j} {r = r} n (rw b at f) in ground (arith, found)
  ]
]

abbrev pub SwapRemoved : List InvestorRecord → InvestorRecord → List InvestorRecord → Type 0
SwapRemoved rs r rs' =
    (deposits rs' + r.usdc_deposited ≡ deposits rs)
    × (locked rs' + lock r ≡ locked rs)
    × (length rs' ≡ length rs - 1)
    × (AllIdle rs → AllIdle rs')

-- Removing a record takes its deposit and its lock out of the sums, and leaves one record fewer.
pub swap_remove_lem :
    (key : Pubkey) (i : ℕ) (rs : List InvestorRecord) (r : InvestorRecord)
    → position key rs ≡ some i
    → find_investor key rs ≡ ok r
    → Ensures (SwapRemoved rs r) (swap_remove i rs)
unfolding swap_remove
swap_remove_lem key i rs r p f =
    let here = find-position key rs p f in
    elim (Option-cases (get_elem? rs (length rs - 1))) [
      | inl n ↦ rw (n, swap_remove) tt
      | inr (moved, e) ↦
          rw (e, swap_remove)
            (
              swap_remove_sum (λ s. s.usdc_deposited) i rs here e,
              swap_remove_sum lock i rs here e,
              omega (arith, drop_last-length (set rs i moved), length-set rs i moved),
              λ h. drop_last-AllIdle (set rs i moved) (set-AllIdle rs i (length rs - 1) e h),
            )
    ]
