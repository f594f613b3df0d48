-- ===== src/Program/Pool/Distinct.antt =====
-- The investors' keys in the pool: no two records have the same.
use solana_floor_program.Base.{
  ℕ, zero, suc, ◌≡◌, refl, false, List, [], ◌∷◌, ◌++◌, some, arith, ◌==◌, get_elem?, All, Pointwise,
}
use solana_floor_program.Program.Errors.{
  Result, ok, err, Ensures, Ensures-bind, Ensures-if, floor, invalid_investor,
}
use solana_floor_program.Program.State.{Pubkey, InvestorRecord}
use solana_floor_program.Program.Pool.{has_investor, find_investor, modify_investor, new_record}

abbrev pub keys : List InvestorRecord → List Pubkey
keys [] = []
keys (r ∷ rs) = r.investor ∷ keys rs

abbrev pub IsFresh : Pubkey → List Pubkey → Type 0
IsFresh k = All (λ j. ¬ (j ≡ k))

-- No key stands twice.
abbrev pub NoRepeat : List Pubkey → Type 0
NoRepeat [] = Unit
NoRepeat (k ∷ ks) = IsFresh k ks × NoRepeat ks

IsFresh-append :
    (k : Pubkey) (js ks : List Pubkey) → IsFresh k js → IsFresh k ks → IsFresh k (js ++ ks)
IsFresh-append k [] ks h h' = h'
IsFresh-append k (a ∷ js) ks h h' = (h.0, IsFresh-append k js ks h.1 h')

IsFresh-drop :
    (k j : Pubkey) (js ks : List Pubkey) → IsFresh k (js ++ (j ∷ ks)) → IsFresh k (js ++ ks)
IsFresh-drop k j [] ks h = h.1
IsFresh-drop k j (a ∷ js) ks h = (h.0, IsFresh-drop k j js ks h.1)

-- A key taken out of the middle.
pub NoRepeat-drop :
    (j : Pubkey) (js ks : List Pubkey) → NoRepeat (js ++ (j ∷ ks)) → NoRepeat (js ++ ks)
NoRepeat-drop j [] ks h = h.1
NoRepeat-drop j (a ∷ js) ks h = (IsFresh-drop a j js ks h.0, NoRepeat-drop j js ks h.1)

IsFresh-left : (k : Pubkey) (js ks : List Pubkey) → IsFresh k (js ++ ks) → IsFresh k js
IsFresh-left k [] ks h = tt
IsFresh-left k (a ∷ js) ks h = (h.0, IsFresh-left k js ks h.1)

pub NoRepeat-left : (js ks : List Pubkey) → NoRepeat (js ++ ks) → NoRepeat js
NoRepeat-left [] ks h = tt
NoRepeat-left (a ∷ js) ks h = (IsFresh-left a js ks h.0, NoRepeat-left js ks h.1)

-- Records whose keys are kept, one by one.
pub keys-Pointwise :
    (R : InvestorRecord → InvestorRecord → Type 0) (rs rs' : List InvestorRecord)
    → ((r r' : InvestorRecord) → R r r' → r'.investor ≡ r.investor)
    → Pointwise R rs rs'
    → keys rs' ≡ keys rs
keys-Pointwise R [] [] f h = refl
keys-Pointwise R [] (r' ∷ rs') f h = absurd h
keys-Pointwise R (r ∷ rs) [] f h = absurd h
keys-Pointwise R (r ∷ rs) (r' ∷ rs') f h = rw (f r r' h.0, keys-Pointwise R rs rs' f h.1) refl

snoc-IsFresh :
    (k key : Pubkey) (rs : List InvestorRecord)
    → ¬ (key ≡ k)
    → IsFresh k (keys rs)
    → IsFresh k (keys (rs ++ (new_record key ∷ [])))
unfolding new_record
snoc-IsFresh k key [] n h = (n, tt)
snoc-IsFresh k key (r ∷ rs) n h = (h.0, snoc-IsFresh k key rs n h.1)

-- A record taken into use for a key that the pool does not have.
pub snoc-NoRepeat :
    (key : Pubkey) (rs : List InvestorRecord)
    → has_investor key rs ≡ false
    → NoRepeat (keys rs)
    → NoRepeat (keys (rs ++ (new_record key ∷ [])))
unfolding has_investor new_record
snoc-NoRepeat key [] e h = (tt, tt)
snoc-NoRepeat key (r ∷ rs) e h =
    (snoc-IsFresh r.investor key rs (ground arith) h.0, snoc-NoRepeat key rs (ground arith) h.1)

pub modify_investor-keys :
    (key : Pubkey) (f : InvestorRecord → Result InvestorRecord) (rs : List InvestorRecord)
    → ((r : InvestorRecord) → Ensures (λ r'. r'.investor ≡ r.investor) (f r))
    → Ensures (λ rs'. keys rs' ≡ keys rs) (modify_investor key f rs)
unfolding modify_investor
modify_investor-keys key f [] h = tt
modify_investor-keys key f (r ∷ rs) h =
    Ensures-if (λ rs'. keys rs' ≡ keys (r ∷ rs)) (r.investor == key) _ _
      (λ e.
        Ensures-bind (λ r'. r'.investor ≡ r.investor) (λ rs'. keys rs' ≡ keys (r ∷ rs)) (f r) _
          (h r) λ r' same. rw same refl)
      (λ e.
        Ensures-bind (λ rs'. keys rs' ≡ keys rs) (λ rs'. keys rs' ≡ keys (r ∷ rs))
          (modify_investor key f rs) _ (modify_investor-keys key f rs h) λ rs' same. rw same refl)

-- An entry has its own key, which a fresh key is not.
fresh_at :
    (k : Pubkey) (rs : List InvestorRecord) (j : ℕ) {m : InvestorRecord}
    → get_elem? rs j ≡ some m
    → IsFresh k (keys rs)
    → ¬ (m.investor ≡ k)
fresh_at k [] j e h = cc
fresh_at k (r ∷ rs) zero e h = ground arith
fresh_at k (r ∷ rs) (suc j) e h = fresh_at k rs j e h.1

-- What the pool has at a position is what it finds under that key.
pub find-get_elem? :
    (rs : List InvestorRecord) (j : ℕ) {m : InvestorRecord}
    → NoRepeat (keys rs)
    → get_elem? rs j ≡ some m
    → find_investor m.investor rs ≡ ok m
unfolding find_investor
find-get_elem? [] j h e = cc
find-get_elem? (r ∷ rs) zero h e = ground arith
find-get_elem? (r ∷ rs) (suc j) {m} h e =
    let other = fresh_at r.investor rs j {m = m} e h.0 in
    ground (arith, other, find-get_elem? rs j {m = m} h.1 e)

pub find_fresh :
    (k : Pubkey) (rs : List InvestorRecord)
    → IsFresh k (keys rs)
    → find_investor k rs ≡ err (floor invalid_investor)
unfolding find_investor
find_fresh k [] h = refl
find_fresh k (r ∷ rs) h = ground (arith, h.0, find_fresh k rs h.1)

-- A record that is found has the key that it was found for.
pub find_investor-own :
    (k : Pubkey) (rs : List InvestorRecord) (r : InvestorRecord)
    → find_investor k rs ≡ ok r
    → r.investor ≡ k
unfolding find_investor
find_investor-own k [] r e = cc
find_investor-own k (s ∷ rs) r e = ground (arith, find_investor-own k rs r)
