-- ===== src/Prelude/Dicts.antt =====
-- Dicts from texts to texts by their items, and their keys that a loop over a dict has not seen yet.
use Prim.Native.Nat.{ℕ, ◌+◌, ◌≤◌, ◌<◌}
use Prim.Native.String.{String}
use mathlib.Core.Path.{◌≡◌, refl, sym, ◌∙◌}
use mathlib.Core.Logic.{inl, inr}
use mathlib.Core.Bool.{false}
use mathlib.Core.Option.{Option, none, some}
use mathlib.Core.List.{List, [], ◌∷◌}
use native.Mathlib.Omega.{arith}
use agent_colab.Prelude.Tests.{if◌then◌else◌, str_eq, str_eq_iff, Bool-cases}
use agent_colab.Prelude.Lists.{contains, length}

abbrev pub Dict : Type 0
Dict = List (String × String)

-- `dict.get(key)`
abbrev pub lookup : String → Dict → Option String
lookup key [] = none
lookup key (item ∷ items) =
    let found = lookup key items in if str_eq item.0 key then some item.1 else found

-- The items whose keys were not seen.
abbrev pub unseen : Dict → List String → ℕ
unseen [] seen = 0
unseen (item ∷ items) seen = (if contains item.0 seen then 0 else 1) + unseen items seen

pub unseen_all : (dict : Dict) → unseen dict [] ≡ length dict
unseen_all [] = refl
unseen_all (item ∷ items) = omega (arith, unseen_all items)

unseen_le :
    (dict : Dict) (seen : List String) (s : String) → unseen dict (s ∷ seen) ≤ unseen dict seen
unseen_le [] seen s = omega arith
unseen_le (item ∷ items) seen s = ground (arith, unseen_le items seen s)

-- A new key is one less to see.
pub unseen_less :
    (dict : Dict) (seen : List String) (s value : String)
    → lookup s dict ≡ some value
    → contains s seen ≡ false
    → unseen dict (s ∷ seen) < unseen dict seen
unseen_less [] seen s value h fresh = cc
unseen_less (item ∷ items) seen s value h fresh = elim (Bool-cases (str_eq item.0 s)) [
  | inl e ↦
      let new : contains item.0 seen ≡ false = rw ((str_eq_iff item.0 s).0 e) fresh in
      rw (e, new) (omega (arith, unseen_le items seen s))
  | inr e ↦
      let rest : lookup s items ≡ some value = sym (rw (lookup, e) refl) ∙ h in
      rw e (omega (arith, unseen_less items seen s value rest fresh))
]
