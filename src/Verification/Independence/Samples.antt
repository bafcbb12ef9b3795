-- ===== src/Verification/Independence/Samples.antt =====
-- Three accounts, two of which are aliases of each other, in a cycle.
use agent_colab.Prelude.{ok, some, ◌≡◌, refl, ◌↔◌, none, some, [], ◌∷◌, arith}
use agent_colab.Verification.Independence.{
  AliasGraph, Identity, representative, follow, effective_principal, check_independence,
}
use agent_colab.Verification.Independence.Roots.{
  follow-effective_principal, IsIndependent, check_independence-IsIndependent,
}

abbrev graph : AliasGraph
graph = ("a", "b") ∷ ("b", "a") ∷ ("c", "d") ∷ []

follow-effective_principal_example : follow 5 graph [] "a" ≡ some (effective_principal graph "a")
follow-effective_principal_example = follow-effective_principal graph "a" 5 (omega arith)

abbrev author : Identity
author = record { account_id = "a"; credential_fingerprint = "f-1"; agent_id = some "agent-1" }

abbrev reviewer : Identity
reviewer = record { account_id = "c"; credential_fingerprint = "f-2"; agent_id = some "agent-2" }

check_independence-IsIndependent_example :
    (check_independence author reviewer graph none (some "a") ≡ ok tt)
    ↔ IsIndependent author reviewer graph none (some "a")
check_independence-IsIndependent_example =
    check_independence-IsIndependent author reviewer graph none (some "a")

-- The least account of the cycle.
cycle_root : effective_principal graph "b" ≡ "a"
unfolding effective_principal follow representative
cycle_root = refl
