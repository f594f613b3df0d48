-- ===== src/Program/Pool/Keys.antt =====
-- A write to one investor's record leaves those of all others.
use solana_floor_program.Base.{◌≡◌, refl, true, List, [], ◌∷◌, arith, ◌==◌}
use solana_floor_program.Program.Errors.{Result, ok, Ensures, Ensures-bind, Ensures-if}
use solana_floor_program.Program.State.{Pubkey, InvestorRecord}
use solana_floor_program.Program.Pool.{find_investor, modify_investor}

-- All keys but one find what they found before.
abbrev pub OthersKept : Pubkey → List InvestorRecord → List InvestorRecord → Type 0
OthersKept key rs rs' = (k : Pubkey) → ¬ (k ≡ key) → find_investor k rs' ≡ find_investor k rs

-- The record of the key is what `f` makes of the one before.
abbrev pub OwnChanged :
    (InvestorRecord → InvestorRecord → Type 0)
    → Pubkey
    → List InvestorRecord
    → List InvestorRecord
    → Type 0
OwnChanged P key rs rs' =
    (r r' : InvestorRecord) × (find_investor key rs ≡ ok r)
    × (find_investor key rs' ≡ ok r')
    × P r r'

pub modify_investor-OthersKept :
    (key : Pubkey) (f : InvestorRecord → Result InvestorRecord) (rs : List InvestorRecord)
    → ((r : InvestorRecord) → Ensures (λ r'. r'.investor ≡ r.investor) (f r))
    → Ensures (OthersKept key rs) (modify_investor key f rs)
unfolding modify_investor find_investor
modify_investor-OthersKept key f [] keeps = tt
modify_investor-OthersKept key f (r ∷ rs) keeps =
    Ensures-if (OthersKept key (r ∷ rs)) (r.investor == key) _ _
      (λ e.
        Ensures-bind (λ r'. r'.investor ≡ r.investor) (OthersKept key (r ∷ rs)) (f r) _ (keeps r)
          λ r' same k other. ground arith)
      (λ e.
        Ensures-bind (OthersKept key rs) (OthersKept key (r ∷ rs)) (modify_investor key f rs) _
          (modify_investor-OthersKept key f rs keeps) λ rs' ih k other. ground (arith, ih k other))

pub modify_investor-OwnChanged :
    (P : InvestorRecord → InvestorRecord → Type 0) (key : Pubkey)
    (f : InvestorRecord → Result InvestorRecord) (rs : List InvestorRecord)
    → ((r : InvestorRecord) → Ensures (λ r'. (r'.investor ≡ r.investor) × P r r') (f r))
    → Ensures (OwnChanged P key rs) (modify_investor key f rs)
unfolding modify_investor find_investor
modify_investor-OwnChanged P key f [] does = tt
modify_investor-OwnChanged P key f (r ∷ rs) does =
    Ensures-if (OwnChanged P key (r ∷ rs)) (r.investor == key) _ _
      (λ e.
        Ensures-bind (λ r'. (r'.investor ≡ r.investor) × P r r') (OwnChanged P key (r ∷ rs)) (f r) _
          (does r)
          λ r' h.
            let e' : (r'.investor == key) ≡ true = ground arith in
            (r, r', rw e refl, rw e' refl, h.1))
      (λ e.
        Ensures-bind (OwnChanged P key rs) (OwnChanged P key (r ∷ rs)) (modify_investor key f rs) _
          (modify_investor-OwnChanged P key f rs does)
          λ rs' (s, s', before, after, p). (s, s', rw e before, rw e after, p))
