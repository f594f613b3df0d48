-- ===== src/Program/Errors.antt =====
-- errors.rs: the program's error codes, and the results of its fallible code.
use mathlib.Core.Path.{subst}
use solana_floor_program.Base.{ℕ, ◌≡◌, refl, Bool, true, false, Option, none, some, if◌then◌else◌}

pub data FloorError : Type 0 where
  sell_paused contract_frozen zero_amount insufficient_funds not_yet_unlocked : FloorError
  already_claimed arithmetic_overflow invalid_investor no_eligible_investors : FloorError
  invalid_aat_nft invalid_remaining_accounts unauthorized : FloorError
  invalid_mint_account_space invalid_mint invalid_parameter : FloorError
  waln_allocation_limit_exceeded investor_pool_full invalid_hook_accounts_count : FloorError
  invalid_hook_accounts not_pending_admin no_pending_admin usdc_locked : FloorError
  sell_leaves_unpayable_dust sell_amount_too_small investor_not_inactive : FloorError
  zero_aat_allocation funds_locked no_aat_nft : FloorError

-- What a failing instruction reports: an error of the program's own, a constraint that the account
-- framework checks before the handler runs, an error of a program that it calls, or a panic.
-- `out_of_fuel` is the model's: it says that the bound on the rounds of a loop did not suffice.
pub data Error : Type 0 where
  floor : FloorError → Error
  constraint : Error
  external : ℕ → Error
  panic out_of_fuel : Error

pub data Result {ℓ} (A : Type ℓ) : Type ℓ where
  ok : A → Result A
  err : Error → Result A

-- `?`: an error ends the handler.
infixl 5 ◌>>=◌
abbrev pub ◌>>=◌ {ℓ κ} : {A : Type ℓ} {B : Type κ} → Result A → (A → Result B) → Result B
err e >>= next = err e
ok a >>= next = next a

-- `require!(b, FloorError::e)`.
abbrev pub require : Bool → FloorError → Result (Unit {0})
require true e = ok tt
require false e = err (floor e)

-- A constraint of an account that names no error of the program's own.
abbrev pub check : Bool → Result (Unit {0})
check true = ok tt
check false = err constraint

-- `o.ok_or(FloorError::e)?`.
abbrev pub ok_or {ℓ} : {A : Type ℓ} → Option A → FloorError → Result A
ok_or none e = err (floor e)
ok_or (some a) e = ok a

-- A check before the rest.
infixl 5 ◌>>◌
abbrev pub ◌>>◌ {ℓ} : {B : Type ℓ} → Result (Unit {0}) → Result B → Result B
checked >> rest = checked >>= λ passed. rest

-- What holds of the value, if there is one.
abbrev pub Ensures {ℓ κ} : {A : Type ℓ} → (A → Type κ) → Result A → Type κ
Ensures P (ok a) = P a
Ensures P (err e) = Unit

pub Ensures-ok {ℓ κ} :
    {A : Type ℓ} (P : A → Type κ) (m : Result A) {a : A} → Ensures P m → m ≡ ok a → P a
Ensures-ok P m h e = subst (Ensures P) e h

pub Ensures-self {ℓ} : {A : Type ℓ} (m : Result A) → Ensures (λ a. m ≡ ok a) m
Ensures-self (ok a) = refl
Ensures-self (err e) = tt

pub ok_or_lem {ℓ} :
    {A : Type ℓ} (o : Option A) (e : FloorError) → Ensures (λ a. o ≡ some a) (ok_or o e)
ok_or_lem none e = tt
ok_or_lem (some a) e = refl

pub ok-injective {ℓ} : {A : Type ℓ} {a b : A} → ok a ≡ ok b → a ≡ b
ok-injective e = cc

pub Ensures-both {ℓ κ μ} :
    {A : Type ℓ} (P : A → Type κ) (Q : A → Type μ) (m : Result A)
    → Ensures P m
    → Ensures Q m
    → Ensures (λ a. P a × Q a) m
Ensures-both P Q (ok a) h k = (h, k)
Ensures-both P Q (err e) h k = tt

pub Ensures-weaken {ℓ κ μ} :
    {A : Type ℓ} (P : A → Type κ) (Q : A → Type μ) (m : Result A)
    → Ensures P m
    → ((a : A) → P a → Q a)
    → Ensures Q m
Ensures-weaken P Q (ok a) h k = k a h
Ensures-weaken P Q (err e) h k = tt

-- The rule of a bind.
pub Ensures-bind {ℓ κ μ ν} :
    {A : Type ℓ} {B : Type κ} (P : A → Type μ) (Q : B → Type ν) (m : Result A) (f : A → Result B)
    → Ensures P m
    → ((a : A) → P a → Ensures Q (f a))
    → Ensures Q (m >>= f)
Ensures-bind P Q (ok a) f h k = k a h
Ensures-bind P Q (err e) f h k = tt

-- The rule of a bind whose first part does not matter.
pub Ensures-skip {ℓ κ μ} :
    {A : Type ℓ} {B : Type κ} (Q : B → Type μ) (m : Result A) (f : A → Result B)
    → ((a : A) → Ensures Q (f a))
    → Ensures Q (m >>= f)
Ensures-skip Q (ok a) f k = k a
Ensures-skip Q (err e) f k = tt

pub Ensures-require {ℓ κ} :
    {A : Type ℓ} (Q : A → Type κ) (b : Bool) (e : FloorError) (m : Result A)
    → (b ≡ true → Ensures Q m)
    → Ensures Q (require b e >> m)
Ensures-require Q true e m h = h refl
Ensures-require Q false e m h = tt

-- The rule of a conditional.
pub Ensures-if {ℓ κ} :
    {A : Type ℓ} (Q : A → Type κ) (b : Bool) (m n : Result A)
    → (b ≡ true → Ensures Q m)
    → (b ≡ false → Ensures Q n)
    → Ensures Q (if b then m else n)
Ensures-if Q true m n h k = h refl
Ensures-if Q false m n h k = k refl
