-- ===== src/Prelude/Transactions.antt =====
-- A step of a transaction: it reads and writes the state, and returns or raises. What it raises leaves
-- the caller's transaction, which is rolled back, so an error carries no state.
use mathlib.Core.Path.{◌≡◌, refl}
use agent_colab.Prelude.Results.{Result, ok, err}

abbrev pub Exec : Type 0 → Type 0 → Type 0 → Type 0
Exec S E A = S → Result E (A × S)

infixl 5 ◌>>=◌ ◌>>◌
abbrev pub ◌>>=◌ : {S E A B : Type 0} → Exec S E A → (A → Exec S E B) → Exec S E B
◌>>=◌ m f s = elim (m s) [ ok (a, s') ↦ f a s' | err e ↦ err e ]

abbrev pub ◌>>◌ : {S E B : Type 0} → Exec S E (Unit {0}) → Exec S E B → Exec S E B
m >> k = m >>= λ _. k

abbrev pub pure : {S E A : Type 0} → A → Exec S E A
pure a s = ok (a, s)

abbrev pub raise : {S E A : Type 0} → E → Exec S E A
raise e s = err e

-- A function without state, run in the transaction.
abbrev pub lift : {S E A : Type 0} → Result E A → Exec S E A
lift r s = elim r [ ok a ↦ ok (a, s) | err e ↦ err e ]

abbrev pub gets : {S E A : Type 0} → (S → A) → Exec S E A
gets f s = ok (f s, s)

abbrev pub modify : {S E : Type 0} → (S → S) → Exec S E (Unit {0})
modify f s = ok (tt, f s)

-- What holds of a result and the state with it; nothing is said of an error.
abbrev pub After : {S E A : Type 0} → (A → S → Type 0) → Result E (A × S) → Type 0
After Q (ok (a, s)) = Q a s
After Q (err e) = Unit

-- It returns, and this holds of what it returns and the state with it.
abbrev pub Succeeds : {S E A : Type 0} → (A → S → Type 0) → Result E (A × S) → Type 0
Succeeds Q (ok (a, s)) = Q a s
Succeeds Q (err e) = ⊥

-- The rule of sequence.
pub After-bind :
    {S E A B : Type 0} (Q : B → S → Type 0) (R : A → S → Type 0) (m : Exec S E A)
    (f : A → Exec S E B) (s : S)
    → After R (m s)
    → ((a : A) (s' : S) → R a s' → After Q (f a s'))
    → After Q ((m >>= f) s)
After-bind {S} {E} {A} {B} Q R m f s h k = go (m s) h
  where
    go :
        (r : Result E (A × S))
        → After R r
        → After Q (elim r [ ok (a, s') ↦ f a s' | err e ↦ err e ])
    go (ok (a, s')) p = k a s' p
    go (err e) p = tt

pub After-lift :
    {S E A : Type 0} (Q : A → S → Type 0) (r : Result E A) (s : S)
    → ((a : A) → r ≡ ok a → Q a s)
    → After Q (lift r s)
After-lift Q (ok a) s k = k a refl
After-lift Q (err e) s k = tt

-- What holds of whatever it returns.
pub After_intro :
    {S E A : Type 0} (Q : A → S → Type 0) (m : Result E (A × S))
    → ((a : A) (s : S) → m ≡ ok (a, s) → Q a s)
    → After Q m
After_intro Q (ok (a, s)) k = k a s refl
After_intro Q (err e) k = tt

pub After_mono :
    {S E A : Type 0} (Q R : A → S → Type 0) (m : Result E (A × S))
    → ((a : A) (s : S) → R a s → Q a s)
    → After R m
    → After Q m
After_mono Q R (ok (a, s)) k h = k a s h
After_mono Q R (err e) k h = tt

-- The rule of a step that may raise and changes nothing.
pub After-bind_lift :
    {S E A B : Type 0} (Q : B → S → Type 0) (r : Result E A) (f : A → Exec S E B) (s : S)
    → ((a : A) → r ≡ ok a → After Q (f a s))
    → After Q ((lift r >>= f) s)
After-bind_lift Q (ok a) f s k = k a refl
After-bind_lift Q (err e) f s k = tt

-- A step that returned, and the rest.
pub >>=-of_ok :
    {S E A B : Type 0} (m : Exec S E A) (f : A → Exec S E B) (s : S) {a : A} {s' : S}
    → m s ≡ ok (a, s')
    → (m >>= f) s ≡ f a s'
>>=-of_ok m f s h = rw (◌>>=◌, h) refl
