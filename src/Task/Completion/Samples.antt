-- ===== src/Task/Completion/Samples.antt =====
-- The completion gate of server/domain/task.py with one registered check.
use agent_colab.Prelude.{All, ◌≡◌, ◌↔◌, some, [], ◌∷◌}
use agent_colab.Task.Status.{verified}
use agent_colab.Task.State.{passed, TaskState, new_state}
use agent_colab.Task.Completion.{CompletionCheck, completion_prerequisites}
use agent_colab.Task.Completion.Gate.{IsQuiet, completion_prerequisites-nil}

abbrev waiting_task : TaskState
waiting_task = record (new_state "t-1") { status = verified; verification_status = some passed }

abbrev no_usage : CompletionCheck (Unit {0})
no_usage = record { identity = 1; call = λ state session. some "USAGE_MISSING" }

completion_prerequisites-nil_example :
    (completion_prerequisites (no_usage ∷ []) waiting_task tt ≡ []) ↔ (
      (waiting_task.status ≡ verified)
      × (waiting_task.verification_status ≡ some passed)
      × All (IsQuiet waiting_task tt) (no_usage ∷ []))
completion_prerequisites-nil_example = completion_prerequisites-nil waiting_task tt (no_usage ∷ [])
