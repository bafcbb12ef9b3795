-- ===== src/Task/Status.antt =====
-- server/domain/task.py: statuses, event types and the transition table.
use agent_colab.Prelude.{
  String, Bool, true, false, Option, none, some, if◌then◌else◌, Result, ok, err,
}

pub data TaskStatus : Type 0 where
  open_ delegated accepted running waiting implemented verifying verified completed : TaskStatus
  cancel_requested cancelled : TaskStatus

-- The event types that the module names; `other` is any other string.
pub data EventType : Type 0 where
  task_created subtask_created task_delegated task_reassigned task_accepted : EventType
  task_started task_waiting task_progress_reported implementation_submitted : EventType
  task_verification_started task_completed task_cancelled task_cancel_requested : EventType
  verification_passed verification_failed verification_blocked task_join_satisfied : EventType
  other : String → EventType

-- `current in TERMINAL`
unfoldable pub is_terminal : TaskStatus → Bool
is_terminal completed = true
is_terminal cancelled = true
is_terminal _ = false

-- `TRANSITIONS.get((current, event_type))`
unfoldable pub transitions : TaskStatus → EventType → Option TaskStatus
transitions open_ task_delegated = some delegated
transitions delegated task_reassigned = some delegated
transitions delegated task_accepted = some accepted
transitions accepted task_started = some running
transitions running task_waiting = some waiting
transitions waiting task_started = some running
transitions running task_progress_reported = some running
transitions running implementation_submitted = some implemented
transitions implemented task_verification_started = some verifying
transitions verifying verification_passed = some verified
transitions verifying verification_failed = some running
transitions verifying verification_blocked = some waiting
transitions verified task_completed = some completed
transitions open_ task_cancelled = some cancelled
transitions delegated task_cancelled = some cancelled
transitions accepted task_cancelled = some cancelled
transitions running task_cancel_requested = some cancel_requested
transitions waiting task_cancel_requested = some cancel_requested
transitions implemented task_cancel_requested = some cancel_requested
transitions verifying task_cancel_requested = some cancel_requested
transitions cancel_requested task_cancelled = some cancelled
transitions delegated task_waiting = some waiting
transitions accepted task_waiting = some waiting
transitions implemented task_waiting = some waiting
transitions accepted task_reassigned = some delegated
transitions running task_reassigned = some delegated
transitions waiting task_reassigned = some delegated
transitions _ _ = none

-- The codes of `TaskTransitionError`.
pub data TaskTransitionError : Type 0 where
  task_terminal task_transition_invalid : TaskTransitionError

or_invalid : Option TaskStatus → Result TaskTransitionError TaskStatus
or_invalid none = err task_transition_invalid
or_invalid (some target) = ok target

unfoldable pub next_status : TaskStatus → EventType → Result TaskTransitionError TaskStatus
unfolding is_terminal transitions or_invalid
next_status current event_type =
    if is_terminal current then err task_terminal else or_invalid (transitions current event_type)

-- `etype in CREATION_EVENTS`
unfoldable pub is_creation : EventType → Bool
is_creation task_created = true
is_creation subtask_created = true
is_creation _ = false

-- `etype in VERIFICATION_RESULT_EVENTS`
unfoldable pub is_verification_result : EventType → Bool
is_verification_result verification_passed = true
is_verification_result verification_failed = true
is_verification_result verification_blocked = true
is_verification_result _ = false

-- `etype in ANNOTATION_EVENTS`
unfoldable pub is_annotation : EventType → Bool
is_annotation task_join_satisfied = true
is_annotation _ = false
