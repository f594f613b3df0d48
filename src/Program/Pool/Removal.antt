-- ===== src/Program/Pool/Removal.antt =====
-- The swap that removes a record, seen through the keys: that record is gone, all others stay.
use solana_floor_program.Base.{
  ℕ, zero, suc, ◌-◌, ◌≡◌, refl, inl, inr, ◌⊎◌, List, [], ◌∷◌, ◌++◌, some, arith, ◌==◌, get_elem?,
  set, length, Bool-cases, Option-cases, sym, subst, ap, ◌∙◌,
}
use solana_floor_program.Program.Errors.{ok, err, Ensures, floor, invalid_investor}
use solana_floor_program.Program.State.{Pubkey, InvestorRecord}
use solana_floor_program.Program.Pool.{find_investor, position, drop_last, swap_remove}
use solana_floor_program.Program.Pool.Distinct.{keys, IsFresh, NoRepeat, find-get_elem?, find_fresh}
use solana_floor_program.Program.Pool.Keys.{OthersKept}
use solana_floor_program.Program.Pool.Sums.{find-position}

drop_last-set :
    (rs : List InvestorRecord) (i : ℕ) (v : InvestorRecord)
    → drop_last (set rs i v) ≡ set (drop_last rs) i v
drop_last-set [] i v = refl
drop_last-set (r ∷ []) zero v = refl
drop_last-set (r ∷ []) (suc i) v = refl
drop_last-set (r ∷ s ∷ rs) zero v = refl
drop_last-set (r ∷ s ∷ rs) (suc zero) v = ap (λ qs. r ∷ qs) (drop_last-set (s ∷ rs) zero v)
drop_last-set (r ∷ s ∷ rs) (suc (suc i)) v = ap (λ qs. r ∷ qs) (drop_last-set (s ∷ rs) (suc i) v)

drop_last-snoc :
    (rs : List InvestorRecord) {m : InvestorRecord}
    → get_elem? rs (length rs - 1) ≡ some m
    → rs ≡ drop_last rs ++ (m ∷ [])
drop_last-snoc [] e = cc
drop_last-snoc (r ∷ []) {m} e = ground arith
drop_last-snoc (r ∷ s ∷ rs) {m} e =
    let q : length (r ∷ s ∷ rs) - 1 ≡ suc (length (s ∷ rs) - 1) = omega arith in
    ap (λ qs. r ∷ qs) (drop_last-snoc (s ∷ rs) (rw q at e))

snoc-IsFresh :
    (qs : List InvestorRecord) (m : InvestorRecord)
    → NoRepeat (keys (qs ++ (m ∷ [])))
    → IsFresh m.investor (keys qs) × NoRepeat (keys qs)
snoc-IsFresh [] m h = (tt, tt)
snoc-IsFresh (q ∷ qs) m h =
    let ih = snoc-IsFresh qs m h.1 in
    (((λ e. last_of qs h.0 (sym e)), ih.0), (left_of qs h.0, ih.1))
  where
    last_of :
        (ps : List InvestorRecord)
        → IsFresh q.investor (keys (ps ++ (m ∷ [])))
        → ¬ (m.investor ≡ q.investor)
    last_of [] f = f.0
    last_of (p ∷ ps) f = last_of ps f.1

    left_of :
        (ps : List InvestorRecord)
        → IsFresh q.investor (keys (ps ++ (m ∷ [])))
        → IsFresh q.investor (keys ps)
    left_of [] f = tt
    left_of (p ∷ ps) f = (f.0, left_of ps f.1)

set-IsFresh :
    (k : Pubkey) (qs : List InvestorRecord) (i : ℕ) (v : InvestorRecord)
    → ¬ (v.investor ≡ k)
    → IsFresh k (keys qs)
    → IsFresh k (keys (set qs i v))
set-IsFresh k [] i v n h = tt
set-IsFresh k (q ∷ qs) zero v n h = (n, h.1)
set-IsFresh k (q ∷ qs) (suc i) v n h = (h.0, set-IsFresh k qs i v n h.1)

set-NoRepeat :
    (qs : List InvestorRecord) (i : ℕ) (v : InvestorRecord)
    → IsFresh v.investor (keys qs)
    → NoRepeat (keys qs)
    → NoRepeat (keys (set qs i v))
set-NoRepeat [] i v f h = tt
set-NoRepeat (q ∷ qs) zero v f h = (f.1, h.1)
set-NoRepeat (q ∷ qs) (suc i) v f h =
    (set-IsFresh q.investor qs i v (λ e. f.0 (sym e)) h.0, set-NoRepeat qs i v f.1 h.1)

-- A key that stood at the position only is fresh once another entry is written there.
set-removes :
    (qs : List InvestorRecord) (i : ℕ) (v : InvestorRecord) {r : InvestorRecord}
    → get_elem? qs i ≡ some r
    → NoRepeat (keys qs)
    → ¬ (v.investor ≡ r.investor)
    → IsFresh r.investor (keys (set qs i v))
set-removes [] i v e h n = cc
set-removes (q ∷ qs) zero v {r = r} e h n =
    let same : q.investor ≡ r.investor = ground arith in
    (n, subst (λ k. IsFresh k (keys qs)) same h.0)
set-removes (q ∷ qs) (suc i) v {r = r} e h n =
    (λ s. other qs i e h.0 (sym s), set-removes qs i v {r = r} e h.1 n)
  where
    other :
        (ps : List InvestorRecord) (j : ℕ)
        → get_elem? ps j ≡ some r
        → IsFresh q.investor (keys ps)
        → ¬ (r.investor ≡ q.investor)
    other [] j e f = cc
    other (p ∷ ps) zero e f = ground arith
    other (p ∷ ps) (suc j) e f = other ps j e f.1

find-set :
    (k : Pubkey) (qs : List InvestorRecord) (i : ℕ) (v : InvestorRecord) {r : InvestorRecord}
    → get_elem? qs i ≡ some r
    → ¬ (k ≡ r.investor)
    → ¬ (k ≡ v.investor)
    → find_investor k (set qs i v) ≡ find_investor k qs
unfolding find_investor
find-set k [] i v e n n' = cc
find-set k (q ∷ qs) zero v {r = r} e n n' = ground arith
find-set k (q ∷ qs) (suc i) v {r = r} e n n' = ground (arith, find-set k qs i v {r = r} e n n')

find-snoc :
    (k : Pubkey) (qs : List InvestorRecord) (m : InvestorRecord)
    → ¬ (k ≡ m.investor)
    → find_investor k (qs ++ (m ∷ [])) ≡ find_investor k qs
unfolding find_investor
find-snoc k [] m n = ground arith
find-snoc k (q ∷ qs) m n = ground (arith, find-snoc k qs m n)

find_last :
    (qs : List InvestorRecord) (m : InvestorRecord)
    → IsFresh m.investor (keys qs)
    → find_investor m.investor (qs ++ (m ∷ [])) ≡ ok m
unfolding find_investor
find_last [] m h = ground arith
find_last (q ∷ qs) m h = ground (arith, h.0, find_last qs m h.1)

get_elem?-set :
    (qs : List InvestorRecord) (i : ℕ) (v : InvestorRecord) {r : InvestorRecord}
    → get_elem? qs i ≡ some r
    → get_elem? (set qs i v) i ≡ some v
get_elem?-set [] i v e = cc
get_elem?-set (q ∷ qs) zero v e = refl
get_elem?-set (q ∷ qs) (suc i) v e = get_elem?-set qs i v e

-- A position of the extended list is one of the list, or that of the added entry.
get_elem?-snoc :
    (qs : List InvestorRecord) (m : InvestorRecord) (i : ℕ) {r : InvestorRecord}
    → get_elem? (qs ++ (m ∷ [])) i ≡ some r
    → (get_elem? qs i ≡ some r) ⊎ ((r ≡ m) × ((v : InvestorRecord) → set qs i v ≡ qs))
get_elem?-snoc [] m zero {r = r} e = inr (cc, λ v. refl)
get_elem?-snoc [] m (suc i) e = cc
get_elem?-snoc (q ∷ qs) m zero e = inl e
get_elem?-snoc (q ∷ qs) m (suc i) {r = r} e = elim (get_elem?-snoc qs m i {r = r} e) [
  | inl h ↦ inl h
  | inr (same, kept) ↦ inr (same, λ v. ap (λ ps. q ∷ ps) (kept v))
]

-- The pool without one key.
abbrev pub Removed : Pubkey → List InvestorRecord → List InvestorRecord → Type 0
Removed key rs rs' =
    NoRepeat (keys rs')
    × (find_investor key rs' ≡ err (floor invalid_investor))
    × OthersKept key rs rs'

set-Removed :
    (qs : List InvestorRecord) (m r : InvestorRecord) (i : ℕ)
    → IsFresh m.investor (keys qs)
    → NoRepeat (keys qs)
    → (get_elem? qs i ≡ some r) ⊎ ((r ≡ m) × ((v : InvestorRecord) → set qs i v ≡ qs))
    → Removed r.investor (qs ++ (m ∷ [])) (set qs i m)
set-Removed qs m r i fresh distinct (inr (same, kept)) =
    rw (kept m, same)
      (distinct, find_fresh m.investor qs fresh, λ k other. sym (find-snoc k qs m other))
set-Removed qs m r i fresh distinct (inl here) =
    let there = get_elem?-set qs i m {r = r} here in
    let apart : ¬ (m.investor ≡ r.investor) =
      λ e. clash qs i here (subst (λ k. IsFresh k (keys qs)) e fresh) in
    let distinct' = set-NoRepeat qs i m fresh distinct in
    (
      distinct',
      find_fresh r.investor (set qs i m) (set-removes qs i m {r = r} here distinct apart),
      λ k other. elim (Bool-cases (k == m.investor)) [
        | inl e ↦
            let same : k ≡ m.investor = ground arith in
            rw same
              (find-get_elem? (set qs i m) i {m = m} distinct' there ∙ sym (find_last qs m fresh))
        | inr e ↦
            let n : ¬ (k ≡ m.investor) = λ q. ground arith in
            find-set k qs i m {r = r} here other n ∙ sym (find-snoc k qs m n)
      ],
    )
  where
    clash :
        (ps : List InvestorRecord) (j : ℕ)
        → get_elem? ps j ≡ some r
        → IsFresh r.investor (keys ps)
        → ⊥
    clash [] j e f = cc
    clash (p ∷ ps) zero e f = f.0 (ground arith)
    clash (p ∷ ps) (suc j) e f = clash ps j e f.1

-- From a pool without repeated keys, the swap removes the key that it was found for, and no other.
pub swap_remove-Removed :
    (key : Pubkey) (i : ℕ) (rs : List InvestorRecord) (r : InvestorRecord)
    → NoRepeat (keys rs)
    → position key rs ≡ some i
    → find_investor key rs ≡ ok r
    → r.investor ≡ key
    → Ensures (Removed key rs) (swap_remove i rs)
unfolding swap_remove
swap_remove-Removed key i rs r distinct p f own =
    let here = find-position key rs {i = i} {r = r} p f in
    elim (Option-cases (get_elem? rs (length rs - 1))) [
      | inl n ↦ rw (n, swap_remove) tt
      | inr (m, e) ↦
          let qs = drop_last rs in
          let split : rs ≡ qs ++ (m ∷ []) = drop_last-snoc rs {m = m} e in
          let fresh = snoc-IsFresh qs m (subst (λ ps. NoRepeat (keys ps)) split distinct) in
          let at : get_elem? (qs ++ (m ∷ [])) i ≡ some r =
            subst (λ ps. get_elem? ps i ≡ some r) split here in
          let done = set-Removed qs m r i fresh.0 fresh.1 (get_elem?-snoc qs m i {r = r} at) in
          let moved : Removed key rs (set qs i m) =
            subst (λ k. Removed k rs (set qs i m)) own
              (subst (λ ps. Removed r.investor ps (set qs i m)) (sym split) done) in
          rw (e, swap_remove) (subst (Removed key rs) (sym (drop_last-set rs i m)) moved)
    ]
