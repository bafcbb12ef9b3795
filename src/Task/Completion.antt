-- ===== src/Task/Completion.antt =====
-- server/domain/task.py: the prerequisites of completion and their registry.
-- A check is a Python function object, compared by identity: here an identity and a body. The session
-- that a check may read is the type `S`.
mod Gate
mod Samples
use agent_colab.Prelude.{
  ◌==◌, if◌then◌else◌, str_eq, ℕ, String, Bool, true, false, not, ◌||◌, Option, none, some, List,
  [], ◌∷◌, ◌++◌,
}
use agent_colab.Task.Status.{TaskStatus, verified}
use agent_colab.Task.State.{VerificationStatus, passed, TaskState}

pub record CompletionCheck (S : Type 0) : Type 0 where
  pub identity : ℕ
  pub call : TaskState → S → Option String

is_status_verified : TaskStatus → Bool
is_status_verified verified = true
is_status_verified _ = false

is_passed : Option VerificationStatus → Bool
is_passed (some passed) = true
is_passed _ = false

pub verification_passed_check : TaskState → Option String
unfolding is_status_verified is_passed
verification_passed_check state =
    if not (is_status_verified state.status) || not (is_passed state.verification_status)
    then some "VERIFICATION_REQUIRED"
    else none

-- `[c for c in (…) if c]`: the empty text is dropped too.
present : Option String → List String → List String
present none codes = codes
present (some c) codes = if str_eq c "" then codes else c ∷ codes

module _ {S : Type 0} where
  run_checks : List (CompletionCheck S) → TaskState → S → List String
  unfolding present
  run_checks [] state session = []
  run_checks (check ∷ checks) state session =
      present (check.call state session) (run_checks checks state session)

  pub completion_prerequisites : List (CompletionCheck S) → TaskState → S → List String
  unfolding run_checks verification_passed_check
  completion_prerequisites checks state session =
      present (verification_passed_check state) [] ++ run_checks checks state session

  pub is_registered : ℕ → List (CompletionCheck S) → Bool
  is_registered n [] = false
  is_registered n (c ∷ cs) = n == c.identity || is_registered n cs

  pub register_completion_check :
      CompletionCheck S → List (CompletionCheck S) → List (CompletionCheck S)
  register_completion_check check checks =
      if is_registered check.identity checks then checks else checks ++ (check ∷ [])
