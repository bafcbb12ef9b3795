-- ===== src/Task/State.antt =====
-- server/domain/task.py: `TaskState`, `apply_event` and `fold`.
-- An event is the record of the keys that the fold reads. A key that may be missing is an `Option`;
-- the event schemas give each key one type, so a key that is present is neither null nor of another
-- type. Times are the ISO strings of the envelope, which the fold only copies.
mod Applied
mod Safety
mod History
mod Samples
use agent_colab.Prelude.{
  ℕ, String, Bool, true, false, not, ◌&&◌, Option, none, some, List, [], ◌∷◌, Result, ok,
  if◌then◌else◌, str_eq, opt_eq, or_else, sorted, ◌>>=◌,
}
use agent_colab.Task.Status.{
  TaskStatus, open_, EventType, task_delegated, task_reassigned, task_progress_reported,
  implementation_submitted, task_verification_started, verification_passed, verification_failed,
  verification_blocked, TaskTransitionError, transitions, next_status, is_creation,
  is_verification_result, is_annotation,
}

pub data VerificationStatus : Type 0 where
  pending passed failed blocked : VerificationStatus

-- The part of a join policy that is data to this module: its keys and values, as text.
abbrev pub JoinPolicy : Type 0
JoinPolicy = List (String × String)

pub record Payload : Type 0 where
  pub root_task_id : Option String
  pub parent_task_id : Option String
  pub channel_id : Option String
  pub title : Option String
  pub domain : Option String
  pub risk : Option String
  pub depth : Option ℕ
  pub join_policy : Option JoinPolicy
  pub verification_id : Option String
  pub satisfied_children : Option (List String)
  pub assignee_account_id : Option String
  pub assignment_revision : Option ℕ
  pub policy_snapshot_hash : Option String
  pub summary : Option String
  pub criteria_revision : Option ℕ

pub record Event : Type 0 where
  pub type : EventType
  pub event_id : Option String
  pub workspace_id : Option String
  pub aggregate_type : Option String
  pub aggregate_id : Option String
  pub aggregate_seq : Option ℕ
  pub channel_id : Option String
  pub task_id : Option String
  pub actor_account_id : Option String
  pub occurred_at : Option String
  pub recorded_seq : Option ℕ
  pub payload : Payload

pub record TaskState : Type 0 where
  pub task_id : String
  pub exists : Bool
  pub status : TaskStatus
  pub workspace_id : Option String
  pub root_task_id : Option String
  pub parent_task_id : Option String
  pub channel_id : Option String
  pub title : String
  pub domain : String
  pub risk : String
  pub assignee_account_id : Option String
  pub delegated_by : Option String
  pub delegation_depth : ℕ
  pub assignment_revision : ℕ
  pub policy_snapshot_hash : Option String
  pub criteria_revision : ℕ
  pub latest_progress : Option String
  pub active_verification_id : Option String
  pub verification_status : Option VerificationStatus
  pub last_event_id : Option String
  pub last_aggregate_seq : ℕ
  pub created_at : Option String
  pub updated_at : Option String
  pub join_policy : JoinPolicy
  pub join_satisfied : Bool
  pub join_satisfied_children : List String

-- `TaskState(task_id=task_id)`
abbrev pub new_state : String → TaskState
new_state task_id = record {
  task_id = task_id;
  exists = false;
  status = open_;
  workspace_id = none;
  root_task_id = none;
  parent_task_id = none;
  channel_id = none;
  title = "";
  domain = "";
  risk = "LOW";
  assignee_account_id = none;
  delegated_by = none;
  delegation_depth = 0;
  assignment_revision = 0;
  policy_snapshot_hash = none;
  criteria_revision = 0;
  latest_progress = none;
  active_verification_id = none;
  verification_status = none;
  last_event_id = none;
  last_aggregate_seq = 0;
  created_at = none;
  updated_at = none;
  join_policy = [];
  join_satisfied = false;
  join_satisfied_children = [];
}

-- Python's `a or b` on `str | None`: the empty text is falsy.
truthy : Option String → Bool
truthy none = false
truthy (some s) = not (str_eq s "")

-- The branch of the creation events, for an event of this Task.
unfoldable pub create : TaskState → Event → TaskState
unfolding truthy
create state event = record state {
  exists = true;
  status = open_;
  workspace_id = event.workspace_id;
  root_task_id = some (or_else payload.root_task_id state.task_id);
  parent_task_id = payload.parent_task_id;
  channel_id = if truthy payload.channel_id then payload.channel_id else event.channel_id;
  title = or_else payload.title "";
  domain = or_else payload.domain "";
  risk = or_else payload.risk "LOW";
  delegation_depth = or_else payload.depth 0;
  join_policy = or_else payload.join_policy [];
  created_at = event.occurred_at;
  updated_at = event.occurred_at;
  last_event_id = event.event_id;
  last_aggregate_seq = or_else event.aggregate_seq 0;
}
  where
    open event use {payload}

-- `etype.removeprefix("VERIFICATION_")`, on the three result events.
result_of : EventType → Option VerificationStatus
result_of verification_passed = some passed
result_of verification_failed = some failed
result_of verification_blocked = some blocked
result_of _ = none

unfoldable pub land : TaskState → Event → Option TaskStatus → TaskState
unfolding result_of
land state event none = state
land state event (some target) = record state {
  status = target;
  verification_status = result_of event.type;
  updated_at = event.occurred_at;
}

-- The branch of the verification results: a stale or foreign one is ignored.
unfoldable pub apply_result : TaskState → Event → TaskState
unfolding land transitions
apply_result state event =
    if not (opt_eq event.task_id (some state.task_id))
    then state
    else if not (opt_eq event.payload.verification_id state.active_verification_id)
    then state
    else land state event (transitions state.status event.type)

-- The branch of `TASK_JOIN_SATISFIED`, the only annotation event.
unfoldable pub annotate : TaskState → Event → TaskState
annotate state event = record state {
  last_event_id = event.event_id;
  last_aggregate_seq = or_else event.aggregate_seq state.last_aggregate_seq;
  updated_at = event.occurred_at;
  join_satisfied = true;
  join_satisfied_children = or_else event.payload.satisfied_children [];
}

unfoldable pub assign : TaskState → Event → TaskState
unfolding truthy
assign state event = record state {
  assignee_account_id = payload.assignee_account_id;
  delegated_by = event.actor_account_id;
  assignment_revision = or_else payload.assignment_revision state.assignment_revision;
  policy_snapshot_hash =
      if truthy payload.policy_snapshot_hash
      then payload.policy_snapshot_hash
      else state.policy_snapshot_hash;
}
  where
    open event use {payload}

-- The `if`/`elif` chain on the type, after the status has moved.
unfoldable pub detail : EventType → TaskState → Event → TaskState
unfolding assign
detail task_delegated state event = assign state event
detail task_reassigned state event = assign state event
detail task_progress_reported state event = record state { latest_progress = event.payload.summary }
detail implementation_submitted state event = record state {
  criteria_revision = or_else event.payload.criteria_revision state.criteria_revision;
  verification_status = none;
}
detail task_verification_started state event = record state {
  active_verification_id = event.payload.verification_id;
  verification_status = some pending;
}
detail _ state event = state

unfoldable pub move : TaskState → Event → TaskStatus → TaskState
unfolding detail
move state event target =
    detail event.type
      (record state {
        status = target;
        last_event_id = event.event_id;
        last_aggregate_seq = or_else event.aggregate_seq state.last_aggregate_seq;
        updated_at = event.occurred_at;
      })
      event

-- `event.get("aggregate_id") == state.task_id and event.get("aggregate_type") == "task"`
unfoldable pub on_task : TaskState → Event → Bool
on_task state event =
    opt_eq event.aggregate_id (some state.task_id) && opt_eq event.aggregate_type (some "task")

unfoldable pub apply_event : TaskState → Event → Result TaskTransitionError TaskState
apply_event state event =
    if is_creation event.type
    then ok (if opt_eq event.aggregate_id (some state.task_id) then create state event else state)
    else if not state.exists
    then ok state
    else if is_verification_result event.type
    then ok (apply_result state event)
    else if not (on_task state event)
    then ok state
    else if is_annotation event.type
    then ok (annotate state event)
    else (do target ← next_status state.status event.type; ok (move state event target))

-- The loop of `fold`.
unfoldable pub fold_from : TaskState → List Event → Result TaskTransitionError TaskState
fold_from state [] = ok state
fold_from state (ev ∷ evs) = apply_event state ev >>= λ state'. fold_from state' evs

pub recorded : Event → ℕ
recorded e = or_else e.recorded_seq 0

pub fold : String → List Event → Result TaskTransitionError TaskState
fold task_id events = fold_from (new_state task_id) (sorted recorded events)
