-- ===== src/Prelude/Results.antt =====
-- A function that returns or raises: what Python code with exceptions is, when it changes no state.
use mathlib.Core.Path.{◌≡◌, refl}
use mathlib.Core.Logic.{◌⊎◌, inl, inr}
use mathlib.Core.Bool.{Bool, true, false}

pub data Result {ℓ κ} (E : Type ℓ) (A : Type κ) : Type (ℓ ⊔ κ) where
  ok : A → Result E A
  err : E → Result E A

-- To split on a computed result and keep the equation.
pub Result-cases {ℓ κ} :
    {E : Type ℓ} {A : Type κ} (r : Result E A) → ((a : A) × (r ≡ ok a)) ⊎ ((e : E) × (r ≡ err e))
Result-cases (err e) = inr (e, refl)
Result-cases (ok a) = inl (a, refl)

-- `if not test: raise error`
abbrev pub guard {ℓ} : {E : Type ℓ} → Bool → E → Result E (Unit {0})
guard test error = elim test [ false ↦ err error | true ↦ ok tt ]

-- The statements after one that may raise.
infixl 5 ◌>>=◌
abbrev pub ◌>>=◌ {ℓ κ μ} :
    {E : Type ℓ} {A : Type κ} {B : Type μ} → Result E A → (A → Result E B) → Result E B
first >>= next = elim first [ err e ↦ err e | ok a ↦ next a ]

infixl 5 ◌>>◌
abbrev pub ◌>>◌ {ℓ μ} : {E : Type ℓ} {B : Type μ} → Result E (Unit {0}) → Result E B → Result E B
first >> next = elim first [ err e ↦ err e | ok _ ↦ next ]

-- Where the whole returns, each part does.
pub >>=-eq-ok {ℓ κ μ} :
    {E : Type ℓ} {A : Type κ} {B : Type μ} (first : Result E A) (next : A → Result E B) {b : B}
    → (first >>= next) ≡ ok b
    → (a : A) × (first ≡ ok a) × (next a ≡ ok b)
>>=-eq-ok (err e) next returned = cc
>>=-eq-ok (ok a) next returned = (a, refl, returned)

pub >>-eq-ok {ℓ μ} :
    {E : Type ℓ} {B : Type μ} (first : Result E (Unit {0})) (next : Result E B) {b : B}
    → (first >> next) ≡ ok b
    → (first ≡ ok tt) × (next ≡ ok b)
>>-eq-ok (err e) next returned = cc
>>-eq-ok (ok tt) next returned = (refl, returned)

pub guard-ok {ℓ} : {E : Type ℓ} (test : Bool) (error : E) → guard test error ≡ ok tt → test ≡ true
guard-ok true error h = refl
guard-ok false error h = cc
