-- ===== src/Prelude/Sorting.antt =====
-- Python's `sorted` on inputs in different orders, and the lists whose keys differ.
use Prim.Native.Nat.{ℕ, ◌≤◌}
use mathlib.Core.Path.{◌≡◌, refl, sym, ◌∙◌, ap, subst₂}
use mathlib.Core.Logic.{◌≢◌, inl, inr}
use mathlib.Core.Bool.{Bool, ◌||◌}
use mathlib.Core.List.{List, [], ◌∷◌, ◌++◌, Permᴰ}
use native.Mathlib.Omega.{arith}
use agent_colab.Prelude.Tests.{leb, Bool-cases}
use agent_colab.Prelude.Lists.{any, All, insert_by, sorted}

module _ {ℓ} {A : Type ℓ} (key : A → ℕ) where
  abbrev pub IsFresh : ℕ → List A → Type 0
  IsFresh k = All (λ y. key y ≢ k)

  -- No two items have one key.
  abbrev pub HasDistinctKeys : List A → Type 0
  HasDistinctKeys [] = Unit
  HasDistinctKeys (x ∷ xs) = IsFresh (key x) xs × HasDistinctKeys xs

  insert_by_comm :
      (x y : A) (zs : List A)
      → key x ≢ key y
      → insert_by key x (insert_by key y zs) ≡ insert_by key y (insert_by key x zs)
  insert_by_comm x y [] h = ground arith
  insert_by_comm x y (z ∷ zs) h = ground (arith, insert_by_comm x y zs)

  IsFresh-perm : (k : ℕ) {xs ys : List A} → Permᴰ xs ys → IsFresh k xs → IsFresh k ys
  IsFresh-perm k Permᴰ.nil h = tt
  IsFresh-perm k (Permᴰ.cons e p) h = (rw (← e) h.0, IsFresh-perm k p h.1)
  IsFresh-perm k (Permᴰ.swap e f) h = (rw (← f) h.1.0, (rw (← e) h.0, h.1.1))
  IsFresh-perm k (Permᴰ.trans p q) h = IsFresh-perm k q (IsFresh-perm k p h)

  HasDistinctKeys-perm : {xs ys : List A} → Permᴰ xs ys → HasDistinctKeys xs → HasDistinctKeys ys
  HasDistinctKeys-perm Permᴰ.nil h = tt
  HasDistinctKeys-perm (Permᴰ.cons e p) h =
      (rw (← e) (IsFresh-perm _ p h.0), HasDistinctKeys-perm p h.1)
  HasDistinctKeys-perm (Permᴰ.swap {a = a} {b = b} {l = l} e f) h =
      subst₂ (λ u v. HasDistinctKeys (u ∷ v ∷ l)) f e ((λ q. h.0.0 (sym q), h.1.0), (h.0.1, h.1.1))
  HasDistinctKeys-perm (Permᴰ.trans p q) h = HasDistinctKeys-perm q (HasDistinctKeys-perm p h)

  pub sorted_unique :
      {xs ys : List A} → Permᴰ xs ys → HasDistinctKeys xs → sorted key xs ≡ sorted key ys
  sorted_unique Permᴰ.nil h = refl
  sorted_unique (Permᴰ.cons {a = a} e p) h = rw (← e) (ap (insert_by key a) (sorted_unique p h.1))
  sorted_unique (Permᴰ.swap {a = a} {b = b} {l = l} e f) h =
      rw (← e, ← f) (insert_by_comm a b (sorted key l) (λ q. h.0.0 (sym q)))
  sorted_unique (Permᴰ.trans p q) h = sorted_unique p h ∙ sorted_unique q (HasDistinctKeys-perm p h)

module _ {ℓ} {A : Type ℓ} (key : A → ℕ) (p : A → Bool) where
  any-insert_by : (x : A) (ys : List A) → any p (insert_by key x ys) ≡ (p x || any p ys)
  any-insert_by x [] = refl
  any-insert_by x (y ∷ ys) = ground (arith, any-insert_by x ys)

  pub any-sorted : (xs : List A) → any p (sorted key xs) ≡ any p xs
  any-sorted [] = refl
  any-sorted (x ∷ xs) = rw (any-insert_by x (sorted key xs), any-sorted xs)

module _ {ℓ} {A : Type ℓ} (key : A → ℕ) where
  insert_by-snoc :
      (x : A) (ys : List A) (z : A)
      → key x ≤ key z
      → insert_by key x (ys ++ z ∷ []) ≡ insert_by key x ys ++ z ∷ []
  insert_by-snoc x [] z h = ground arith
  insert_by-snoc x (y ∷ ys) z h = ground (arith, insert_by-snoc x ys z h)

  -- An item whose key is not below the others' comes last.
  pub sorted-snoc :
      (xs : List A) (z : A)
      → All (λ x. key x ≤ key z) xs
      → sorted key (xs ++ z ∷ []) ≡ sorted key xs ++ z ∷ []
  sorted-snoc [] z h = refl
  sorted-snoc (x ∷ xs) z h = rw (sorted-snoc xs z h.1) (insert_by-snoc x (sorted key xs) z h.0)

  All-insert_by :
      (P : A → Type 0) (x : A) (ys : List A) → All P (insert_by key x ys) → P x × All P ys
  All-insert_by P x [] h = h
  All-insert_by P x (y ∷ ys) h = over (All-insert_by P x ys) h
    where
      over :
          (All P (insert_by key x ys) → P x × All P ys)
          → All P (insert_by key x (y ∷ ys))
          → P x × (P y × All P ys)
      over back = elim (Bool-cases (leb (key x) (key y))) [
        | inl e ↦ rw e (λ h. h)
        | inr e ↦ rw e (λ h. let (p, q) = back h.1 in (p, (h.0, q)))
      ]

  pub All-sorted : (P : A → Type 0) (xs : List A) → All P (sorted key xs) → All P xs
  All-sorted P [] h = tt
  All-sorted P (x ∷ xs) h =
      let (p, q) = All-insert_by P x (sorted key xs) h in (p, All-sorted P xs q)
