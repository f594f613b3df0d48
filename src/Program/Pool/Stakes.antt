-- ===== src/Program/Pool/Stakes.antt =====
-- The ledger of stakes: what each investor has in the program, on deposit, locked or committed.
use solana_floor_program.Base.{
  ℕ, ◌+◌, ◌≡◌, refl, List, [], ◌∷◌, Option, none, some, arith, ◌==◌, if◌then◌else◌, Pointwise, ap,
  sym, ◌∙◌,
}
use solana_floor_program.Program.Errors.{Result, ok, err}
use solana_floor_program.Program.State.{Pubkey, InvestorRecord}
use solana_floor_program.Program.RoundStart.Locking.{lock}
use solana_floor_program.Program.Pool.{find_investor}
use solana_floor_program.Program.Pool.Distinct.{keys}

abbrev pub stake : InvestorRecord → ℕ
stake r = r.usdc_deposited + lock r + r.usdc_committed

abbrev pub stakes : List InvestorRecord → List (Pubkey × ℕ)
stakes [] = []
stakes (r ∷ rs) = (r.investor, stake r) ∷ stakes rs

-- The stake of each investor that has a record.
abbrev pub Ledger : Type 0
Ledger = Pubkey → Option ℕ

abbrev pub stake_in : Result InvestorRecord → Option ℕ
stake_in (ok r) = some (stake r)
stake_in (err e) = none

abbrev pub ledger : List InvestorRecord → Ledger
ledger rs k = stake_in (find_investor k rs)

owners : List (Pubkey × ℕ) → List Pubkey
owners [] = []
owners (p ∷ ps) = p.0 ∷ owners ps

lookup : Pubkey → List (Pubkey × ℕ) → Option ℕ
lookup k [] = none
lookup k (p ∷ ps) = if p.0 == k then some p.1 else lookup k ps

keys-stakes : (rs : List InvestorRecord) → keys rs ≡ owners (stakes rs)
unfolding owners
keys-stakes [] = refl
keys-stakes (r ∷ rs) = ap (λ ks. r.investor ∷ ks) (keys-stakes rs)

ledger-stakes : (k : Pubkey) (rs : List InvestorRecord) → ledger rs k ≡ lookup k (stakes rs)
unfolding lookup find_investor
ledger-stakes k [] = refl
ledger-stakes k (r ∷ rs) = ground (arith, ledger-stakes k rs)

-- Where the stakes are the same, so are the keys and the ledger.
pub keys-kept : (rs rs' : List InvestorRecord) → stakes rs' ≡ stakes rs → keys rs' ≡ keys rs
keys-kept rs rs' e = keys-stakes rs' ∙ ap owners e ∙ sym (keys-stakes rs)

pub ledger-kept :
    (rs rs' : List InvestorRecord)
    → stakes rs' ≡ stakes rs
    → (k : Pubkey) → ledger rs' k ≡ ledger rs k
ledger-kept rs rs' e k = ledger-stakes k rs' ∙ ap (lookup k) e ∙ sym (ledger-stakes k rs)

pub stakes-cons :
    (r r' : InvestorRecord) (rs rs' : List InvestorRecord)
    → r'.investor ≡ r.investor
    → stake r' ≡ stake r
    → stakes rs' ≡ stakes rs
    → stakes (r' ∷ rs') ≡ stakes (r ∷ rs)
stakes-cons r r' rs rs' own same rest = cc

-- Records whose stakes are kept, one by one.
pub stakes-Pointwise :
    (R : InvestorRecord → InvestorRecord → Type 0) (rs rs' : List InvestorRecord)
    → ((r r' : InvestorRecord) → R r r' → (r'.investor ≡ r.investor) × (stake r' ≡ stake r))
    → Pointwise R rs rs'
    → stakes rs' ≡ stakes rs
stakes-Pointwise R [] [] f h = refl
stakes-Pointwise R [] (r' ∷ rs') f h = absurd h
stakes-Pointwise R (r ∷ rs) [] f h = absurd h
stakes-Pointwise R (r ∷ rs) (r' ∷ rs') f h =
    let k = f r r' h.0 in stakes-cons r r' rs rs' k.0 k.1 (stakes-Pointwise R rs rs' f h.1)
