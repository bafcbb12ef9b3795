-- ===== src/Task/State/Samples.antt =====
-- The fold of server/domain/task.py on a Task that is created, worked on, verified and completed.
use agent_colab.Prelude.{
  any, Result, ok, err, ℕ, ◌≡◌, refl, inl, true, none, some, Permᴰ, List, [], ◌∷◌, arith,
}
use agent_colab.Task.Status.{
  verified, completed, EventType, task_created, task_delegated, task_accepted, task_started,
  implementation_submitted, task_verification_started, verification_passed, is_terminal,
  transitions, TaskTransitionError, next_status, is_creation, is_verification_result, is_annotation,
}
use agent_colab.Task.State.{
  Payload, Event, TaskState, new_state, create, apply_result, move, on_task, apply_event, fold_from,
  recorded, fold,
}
use agent_colab.Task.State.Safety.{IsSafe, fold-IsSafe}
use agent_colab.Task.State.History.{
  passes, verified_needs_passed, IsFinal, terminal-IsFinal, fold-perm,
}

blank : Payload
blank = record {
  root_task_id = none;
  parent_task_id = none;
  channel_id = none;
  title = some "Report";
  domain = none;
  risk = none;
  depth = none;
  join_policy = none;
  verification_id = some "v-1";
  satisfied_children = none;
  assignee_account_id = some "acct-2";
  assignment_revision = none;
  policy_snapshot_hash = none;
  summary = none;
  criteria_revision = none;
}

event : EventType → ℕ → Event
unfolding blank
event type seq = record {
  type = type;
  event_id = some "e";
  workspace_id = some "w";
  aggregate_type = some "task";
  aggregate_id = some "t-1";
  aggregate_seq = some seq;
  channel_id = none;
  task_id = some "t-1";
  actor_account_id = some "acct-1";
  occurred_at = some "2026-01-01T00:00:00Z";
  recorded_seq = some seq;
  payload = blank;
}

abbrev to_verified : List Event
to_verified =
    event verification_passed 7
    ∷ event task_created 1
    ∷ event task_delegated 2
    ∷ event task_accepted 3
    ∷ event task_started 4
    ∷ event implementation_submitted 5
    ∷ event task_verification_started 6
    ∷ []

abbrev shown : Result TaskTransitionError TaskState → TaskState
shown (ok s) = s
shown (err e) = new_state "t-1"

abbrev verified_state : TaskState
verified_state = shown (fold "t-1" to_verified)

abbrev completed_state : TaskState
completed_state = record verified_state { status = completed }

status_verified : verified_state.status ≡ verified
unfolding fold event recorded fold_from apply_event create apply_result on_task next_status
    transitions is_terminal is_creation is_verification_result is_annotation move
status_verified = refl

fold-IsSafe_example : IsSafe verified_state
unfolding fold event recorded fold_from apply_event is_creation create is_verification_result
    on_task is_annotation next_status move apply_result
fold-IsSafe_example = fold-IsSafe "t-1" to_verified {s = verified_state} refl

verified_needs_passed_example : any (passes "t-1") to_verified ≡ true
unfolding fold event recorded fold_from apply_event is_creation create is_verification_result
    on_task is_annotation next_status move apply_result
verified_needs_passed_example =
    verified_needs_passed "t-1" to_verified {s = verified_state} refl (inl refl)

terminal-IsFinal_example :
    IsFinal completed_state (fold_from completed_state (event task_started 9 ∷ []))
unfolding event fold is_creation is_terminal
terminal-IsFinal_example = terminal-IsFinal completed_state (event task_started 9 ∷ []) refl refl

fold-perm_example :
    fold "t-1" (event task_delegated 2 ∷ event task_created 1 ∷ [])
    ≡ fold "t-1" (event task_created 1 ∷ event task_delegated 2 ∷ [])
unfolding event recorded
fold-perm_example =
    fold-perm "t-1" (event task_delegated 2 ∷ event task_created 1 ∷ [])
      (event task_created 1 ∷ event task_delegated 2 ∷ []) (Permᴰ.swap refl refl)
      (((λ q. omega (arith, q)), tt), (tt, tt))
