-- ===== src/Program/Allocations/Written.antt =====
-- The accounts of allocations that the end of a round writes list each investor once.
use solana_floor_program.Base.{
  ◌%◌, ℕ, zero, suc, ◌<◌, ◌≡◌, refl, inl, inr, List, [], ◌∷◌, ◌++◌, some, arith, ltb, leb, ◌&&◌,
  get_elem?, set, length, sum_by, All, Bool-cases, Option-cases, sym, subst, ap,
}
use solana_floor_program.Base.Int.{ℤ}
use solana_floor_program.Program.Errors.{Ensures, Ensures-bind, Ensures-skip, Ensures-if}
use solana_floor_program.Program.Checked.{add_u64}
use solana_floor_program.Program.State.{Pubkey, InvestorRecord, InvestorAlloc}
use solana_floor_program.Program.Pool.Distinct.{
  keys, IsFresh, NoRepeat, NoRepeat-drop, NoRepeat-left,
}
use solana_floor_program.Program.Allocations.Search.{IsStrict}
use solana_floor_program.Program.Allocations.Claims.{one_if_open}
use solana_floor_program.Program.ForcedClose.{is_locked}
use solana_floor_program.Program.FullClose.{
  Closing, closing_start, base_waln, complete_record, complete_one, complete_all, timestamp_as_u64,
  credit_dust, participant_at, award_dust, settle_full, retain_positive, insert_alloc, sort_allocs,
}
use solana_floor_program.Program.FullClose.Sorted.{
  insert_alloc-All, sort_allocs-All, retain_positive-All,
}

abbrev pub alloc_keys : List InvestorAlloc → List Pubkey
alloc_keys [] = []
alloc_keys (a ∷ ps) = a.investor ∷ alloc_keys ps

abbrev pub IsOpen : InvestorAlloc → Type 0
IsOpen a = 0 < a.waln_amount

-- Sorting and dropping keep a key fresh.
IsFresh-insert :
    (k : Pubkey) (a : InvestorAlloc) (ps : List InvestorAlloc)
    → ¬ (a.investor ≡ k)
    → IsFresh k (alloc_keys ps)
    → IsFresh k (alloc_keys (insert_alloc a ps))
unfolding insert_alloc
IsFresh-insert k a [] n h = (n, tt)
IsFresh-insert k a (b ∷ ps) n h = elim (Bool-cases (leb a.investor b.investor)) [
  | inl e ↦ rw e (n, h)
  | inr e ↦ rw e (h.0, IsFresh-insert k a ps n h.1)
]

IsFresh-sort :
    (k : Pubkey) (ps : List InvestorAlloc)
    → IsFresh k (alloc_keys ps)
    → IsFresh k (alloc_keys (sort_allocs ps))
unfolding sort_allocs
IsFresh-sort k [] h = tt
IsFresh-sort k (a ∷ ps) h = IsFresh-insert k a (sort_allocs ps) h.0 (IsFresh-sort k ps h.1)

IsFresh-retain :
    (k : Pubkey) (ps : List InvestorAlloc)
    → IsFresh k (alloc_keys ps)
    → IsFresh k (alloc_keys (retain_positive ps))
unfolding retain_positive
IsFresh-retain k [] h = tt
IsFresh-retain k (a ∷ ps) h = elim (Bool-cases (ltb 0 a.waln_amount)) [
  | inl e ↦ rw e (h.0, IsFresh-retain k ps h.1)
  | inr e ↦ rw e (IsFresh-retain k ps h.1)
]

NoRepeat-retain :
    (ps : List InvestorAlloc)
    → NoRepeat (alloc_keys ps)
    → NoRepeat (alloc_keys (retain_positive ps))
unfolding retain_positive
NoRepeat-retain [] h = tt
NoRepeat-retain (a ∷ ps) h = elim (Bool-cases (ltb 0 a.waln_amount)) [
  | inl e ↦ rw e (IsFresh-retain a.investor ps h.0, NoRepeat-retain ps h.1)
  | inr e ↦ rw e (NoRepeat-retain ps h.1)
]

All-above :
    (m n : Pubkey) (ps : List InvestorAlloc)
    → m < n
    → All (λ b. n < b.investor) ps
    → All (λ b. m < b.investor) ps
All-above m n [] lt h = tt
All-above m n (b ∷ ps) lt h = (omega arith, All-above m n ps lt h.1)

insert_alloc-IsStrict :
    (a : InvestorAlloc) (ps : List InvestorAlloc)
    → IsFresh a.investor (alloc_keys ps)
    → IsStrict ps
    → IsStrict (insert_alloc a ps)
unfolding insert_alloc
insert_alloc-IsStrict a [] f h = (tt, tt)
insert_alloc-IsStrict a (b ∷ ps) f h =
    let n = f.0 in
    elim (Bool-cases (leb a.investor b.investor)) [
      | inl e ↦
          let lt : a.investor < b.investor = ground (arith, n) in
          rw e ((lt, All-above a.investor b.investor ps lt h.0), h)
      | inr e ↦
          let gt : b.investor < a.investor = ground arith in
          rw e (
            insert_alloc-All (λ c. b.investor < c.investor) a ps gt h.0,
            insert_alloc-IsStrict a ps f.1 h.1,
          )
    ]

pub sort_allocs-IsStrict :
    (ps : List InvestorAlloc) → NoRepeat (alloc_keys ps) → IsStrict (sort_allocs ps)
unfolding sort_allocs
sort_allocs-IsStrict [] h = tt
sort_allocs-IsStrict (a ∷ ps) h =
    insert_alloc-IsStrict a (sort_allocs ps) (IsFresh-sort a.investor ps h.0)
      (sort_allocs-IsStrict ps h.1)

-- What is written out: strictly sorted, and all open.
abbrev pub IsWritable : List InvestorAlloc → Type 0
IsWritable ps = IsStrict ps × All IsOpen ps

pub claimable-IsWritable :
    (ps : List InvestorAlloc)
    → NoRepeat (alloc_keys ps)
    → IsWritable (sort_allocs (retain_positive ps))
claimable-IsWritable ps h = (
  sort_allocs-IsStrict (retain_positive ps) (NoRepeat-retain ps h),
  sort_allocs-All IsOpen (retain_positive ps) (retain_positive-All ps),
)

pub open_count : (ps : List InvestorAlloc) → All IsOpen ps → length ps ≡ sum_by one_if_open ps
open_count [] h = refl
open_count (a ∷ ps) h = ground (arith, open_count ps h.1)

-- A participant that is pushed takes its key from the front of the rest.
keys-push :
    (ps : List InvestorAlloc) (a : InvestorAlloc) (ks : List Pubkey)
    → alloc_keys (ps ++ (a ∷ [])) ++ ks ≡ alloc_keys ps ++ (a.investor ∷ ks)
keys-push [] a ks = refl
keys-push (p ∷ ps) a ks = ap (λ js. p.investor ∷ js) (keys-push ps a ks)

-- Whatever keys come later, the participants' keys stay apart from them.
abbrev pub Apart : List InvestorAlloc → Pubkey → List InvestorAlloc → Type 0
Apart ps key ps' =
    (ks : List Pubkey) → NoRepeat (alloc_keys ps ++ (key ∷ ks)) → NoRepeat (alloc_keys ps' ++ ks)

pub Apart-push :
    (ps : List InvestorAlloc) (a : InvestorAlloc) → Apart ps a.investor (ps ++ (a ∷ []))
Apart-push ps a ks h = subst NoRepeat (sym (keys-push ps a ks)) h

pub Apart-skip : (ps : List InvestorAlloc) (key : Pubkey) → Apart ps key ps
Apart-skip ps key ks h = NoRepeat-drop key (alloc_keys ps) ks h

complete_one-Apart :
    (scale price : ℕ) (r : InvestorRecord) (c : Closing)
    → Ensures (λ q. Apart c.participants r.investor q.1.participants) (complete_one scale price r c)
unfolding complete_one
complete_one-Apart scale price r c =
    let Q : InvestorRecord × Closing → Type 0 =
      λ q. Apart c.participants r.investor q.1.participants in
    Ensures-if Q (is_locked r) _ _
      (λ e. Ensures-skip Q (add_u64 c.participant_count 1) _ λ n.
        Ensures-skip Q (add_u64 c.total_aat_volume r.aat_volume) _ λ v.
          Ensures-skip Q (base_waln scale price r.usdc_locked_current_round) _ λ w.
            Ensures-skip Q (complete_record r w) _ λ r'.
              Ensures-skip Q (add_u64 c.total_usdc_spent r.usdc_locked_current_round) _ λ s.
                Ensures-skip Q (add_u64 c.total_waln_purchased w) _ λ p.
                  Apart-push c.participants (record { investor = r.investor; waln_amount = w }))
      (λ e. Apart-skip c.participants r.investor)

complete_all-NoRepeat :
    (scale price : ℕ) (rs : List InvestorRecord) (c : Closing)
    → NoRepeat (alloc_keys c.participants ++ keys rs)
    → Ensures (λ q. NoRepeat (alloc_keys q.1.participants)) (complete_all scale price rs c)
unfolding complete_all
complete_all-NoRepeat scale price [] c h = NoRepeat-left (alloc_keys c.participants) [] h
complete_all-NoRepeat scale price (r ∷ rs) c h =
    let Q : List InvestorRecord × Closing → Type 0 = λ q. NoRepeat (alloc_keys q.1.participants) in
    Ensures-bind (λ q. Apart c.participants r.investor q.1.participants) Q
      (complete_one scale price r c) _ (complete_one-Apart scale price r c)
      λ first k.
        Ensures-bind Q Q (complete_all scale price rs first.1) _
          (complete_all-NoRepeat scale price rs first.1 (k (keys rs) h)) λ rest n. n

keys-set :
    (ps : List InvestorAlloc) (i n : ℕ) {p : InvestorAlloc}
    → get_elem? ps i ≡ some p
    → alloc_keys (set ps i (record p { waln_amount = n })) ≡ alloc_keys ps
keys-set [] i n e = refl
keys-set (a ∷ ps) zero n {p} e = ap (λ k. k ∷ alloc_keys ps) (ground arith)
keys-set (a ∷ ps) (suc i) n {p} e = ap (λ js. a.investor ∷ js) (keys-set ps i n {p = p} e)

-- The participants of a round that is filled, from a pool without repeated keys.
pub settle_full-NoRepeat :
    (scale price dust : ℕ) (now : ℤ) (rs : List InvestorRecord)
    → NoRepeat (keys rs)
    → Ensures (λ p. NoRepeat (alloc_keys p.1.participants)) (settle_full scale price dust now rs)
unfolding settle_full award_dust
settle_full-NoRepeat scale price dust now rs h =
    let Q : List InvestorRecord × Closing → Type 0 = λ p. NoRepeat (alloc_keys p.1.participants) in
    Ensures-bind Q Q (complete_all scale price rs closing_start) _
      (complete_all-NoRepeat scale price rs closing_start h)
      λ closed k.
        let c = closed.1 in
        let i = timestamp_as_u64 now % c.participant_count in
        Ensures-if Q (ltb 0 dust && ltb 0 c.participant_count) _ _
          (λ e. elim (Option-cases (get_elem? c.participants i)) [
            | inl f ↦ rw (f, participant_at) tt
            | inr (p, f) ↦
                rw (f, participant_at)
                  (Ensures-skip Q (add_u64 p.waln_amount dust) _ λ n.
                    Ensures-skip Q (add_u64 c.total_waln_purchased dust) _ λ w.
                      Ensures-skip Q (credit_dust p.investor dust closed.0) _
                        λ rs'. subst NoRepeat (sym (keys-set c.participants i n {p = p} f)) k)
          ])
          (λ e. k)
