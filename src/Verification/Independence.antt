-- ===== src/Verification/Independence.antt =====
-- server/verification/independence.py: the root of an account in the alias graph, and the check of a
-- verifier against an implementer.
mod Roots
mod Samples
use Prim.Native.String.{compare}
use Prim.Native.Nat.{Ordering}
use agent_colab.Prelude.{
  if◌then◌else◌, str_eq, length, Dict, lookup, contains, Result, guard, ◌>>=◌, ◌>>◌, ℕ, zero, suc,
  ◌+◌, String, Bool, true, false, not, ◌&&◌, Option, none, some, List, [], ◌∷◌,
}

-- The accounts with what they are aliases of.
abbrev pub AliasGraph : Type 0
AliasGraph = Dict

pub record Identity : Type 0 where
  pub account_id : String
  pub credential_fingerprint : String
  pub agent_id : Option String

pub data VerificationIndependenceError : Type 0 where
  verifier_same_account verifier_same_agent verifier_same_credential : VerificationIndependenceError
  verifier_alias_of_implementer verifier_is_commit_author : VerificationIndependenceError
  verifier_not_eligible : VerificationIndependenceError

lower : String → String → String
lower s t = elim (compare s t) [ Ordering.gt ↦ t | _ ↦ s ]

-- `min(seen)`, for texts that are seen after `least`.
least_of : String → List String → String
unfolding lower
least_of least [] = least
least_of least (s ∷ ss) = least_of (lower least s) ss

-- What the loop returns where it ends.
unfoldable pub representative : List String → String → String
unfolding least_of
representative seen current = if contains current seen then least_of current seen else current

-- The loop of `effective_principal`, on fuel; `none` where it would still run.
unfoldable pub follow : ℕ → AliasGraph → List String → String → Option String
unfolding representative
follow zero graph seen current = none
follow (suc fuel) graph seen current = elim (lookup current graph) [
  | none ↦ some (representative seen current)
  | some target ↦
      let rest = follow fuel graph (current ∷ seen) target in
      if contains current seen then some (representative seen current) else rest
]

unfoldable pub root_or : String → Option String → String
root_or account none = account
root_or account (some root) = root

-- Each turn of the loop sees another key of the graph, so this fuel is enough.
unfoldable pub effective_principal : AliasGraph → String → String
unfolding follow root_or
effective_principal graph account = root_or account (follow (length graph + 1) graph [] account)

-- Python's `a and b and a == b` on texts that may be missing.
pub same_agent : Option String → Option String → Bool
same_agent (some a) (some b) = not (str_eq a "") && not (str_eq b "") && str_eq a b
same_agent _ _ = false

-- `commit_author_account_id is not None and …`
pub is_author : Option String → String → Bool
is_author none account_id = false
is_author (some author) account_id = str_eq author account_id

pub may_submit : Option (List String) → Bool
may_submit none = true
may_submit (some permissions) = contains "verification.submit" permissions

unfoldable pub check_independence :
    Identity
    → Identity
    → AliasGraph
    → Option (List String)
    → Option String
    → Result VerificationIndependenceError (Unit {0})
unfolding effective_principal same_agent is_author may_submit
check_independence implementer verifier graph permissions author = do
  guard (not (str_eq implementer.account_id verifier.account_id)) verifier_same_account
  guard (not (same_agent implementer.agent_id verifier.agent_id)) verifier_same_agent
  guard (not (str_eq implementer.credential_fingerprint verifier.credential_fingerprint))
      verifier_same_credential
  guard
      (not (
        str_eq (effective_principal graph implementer.account_id)
          (effective_principal graph verifier.account_id)))
      verifier_alias_of_implementer
  guard (not (is_author author verifier.account_id)) verifier_is_commit_author
  guard (may_submit permissions) verifier_not_eligible
