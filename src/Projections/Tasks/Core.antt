-- ===== src/Projections/Tasks/Core.antt =====
-- server/domain/task.py and server/projections/tasks.py: the fields of a Task that the rows keep up to
-- date, and that the fold reads no others.
-- The fields that an upsert updates from those of the state, and that `load_state` reads back; the others
-- at their defaults.
use agent_colab.Prelude.{
  str_eq, opt_eq, Bool-cases, String, ◌≡◌, refl, sym, ap, ◌∙◌, inl, inr, Option, none, some,
}
use agent_colab.Task.Status.{
  TaskStatus, EventType, task_created, subtask_created, task_delegated, task_reassigned,
  task_accepted, task_started, task_waiting, task_progress_reported, implementation_submitted,
  task_verification_started, task_completed, task_cancelled, task_cancel_requested,
  verification_passed, verification_failed, verification_blocked, task_join_satisfied, other,
  transitions,
}
use agent_colab.Task.State.{
  Event, TaskState, new_state, create, land, apply_result, annotate, assign, detail, move,
}
use agent_colab.Projections.Tasks.{is_falsy, uuid_or_none}

unfoldable pub core : TaskState → TaskState
unfolding uuid_or_none
core state = record (new_state state.task_id) {
  exists = state.exists;
  status = state.status;
  verification_status = state.verification_status;
  assignee_account_id = uuid_or_none state.assignee_account_id;
  delegated_by = uuid_or_none state.delegated_by;
  delegation_depth = state.delegation_depth;
  join_policy = state.join_policy;
  active_verification_id = state.active_verification_id;
  policy_snapshot_hash = state.policy_snapshot_hash;
  criteria_revision = state.criteria_revision;
  latest_progress = state.latest_progress;
  last_event_id = state.last_event_id;
  last_aggregate_seq = state.last_aggregate_seq;
}

pub uuid_or_none_idem :
    (value : Option String) → uuid_or_none (uuid_or_none value) ≡ uuid_or_none value
unfolding uuid_or_none is_falsy
uuid_or_none_idem none = refl
uuid_or_none_idem (some s) = elim (Bool-cases (str_eq s "")) [
  | inl e ↦ rw e refl
  | inr e ↦ rw (e, e) refl
]

pub core_idem : (state : TaskState) → core (core state) ≡ core state
unfolding core
core_idem state =
    rw (uuid_or_none_idem state.assignee_account_id, uuid_or_none_idem state.delegated_by) refl

-- The branches of the fold read the core only.
detail-core :
    (type : EventType) (state : TaskState) (event : Event)
    → core (detail type state event) ≡ core (detail type (core state) event)
unfolding core detail assign
detail-core task_created state event =
    rw (uuid_or_none_idem state.assignee_account_id, uuid_or_none_idem state.delegated_by) refl
detail-core subtask_created state event =
    rw (uuid_or_none_idem state.assignee_account_id, uuid_or_none_idem state.delegated_by) refl
detail-core task_delegated state event = refl
detail-core task_reassigned state event = refl
detail-core task_accepted state event =
    rw (uuid_or_none_idem state.assignee_account_id, uuid_or_none_idem state.delegated_by) refl
detail-core task_started state event =
    rw (uuid_or_none_idem state.assignee_account_id, uuid_or_none_idem state.delegated_by) refl
detail-core task_waiting state event =
    rw (uuid_or_none_idem state.assignee_account_id, uuid_or_none_idem state.delegated_by) refl
detail-core task_progress_reported state event =
    rw (uuid_or_none_idem state.assignee_account_id, uuid_or_none_idem state.delegated_by) refl
detail-core implementation_submitted state event =
    rw (uuid_or_none_idem state.assignee_account_id, uuid_or_none_idem state.delegated_by) refl
detail-core task_verification_started state event =
    rw (uuid_or_none_idem state.assignee_account_id, uuid_or_none_idem state.delegated_by) refl
detail-core task_completed state event =
    rw (uuid_or_none_idem state.assignee_account_id, uuid_or_none_idem state.delegated_by) refl
detail-core task_cancelled state event =
    rw (uuid_or_none_idem state.assignee_account_id, uuid_or_none_idem state.delegated_by) refl
detail-core task_cancel_requested state event =
    rw (uuid_or_none_idem state.assignee_account_id, uuid_or_none_idem state.delegated_by) refl
detail-core verification_passed state event =
    rw (uuid_or_none_idem state.assignee_account_id, uuid_or_none_idem state.delegated_by) refl
detail-core verification_failed state event =
    rw (uuid_or_none_idem state.assignee_account_id, uuid_or_none_idem state.delegated_by) refl
detail-core verification_blocked state event =
    rw (uuid_or_none_idem state.assignee_account_id, uuid_or_none_idem state.delegated_by) refl
detail-core task_join_satisfied state event =
    rw (uuid_or_none_idem state.assignee_account_id, uuid_or_none_idem state.delegated_by) refl
detail-core (other name) state event =
    rw (uuid_or_none_idem state.assignee_account_id, uuid_or_none_idem state.delegated_by) refl

detail_same :
    (type : EventType) (state state' : TaskState) (event : Event)
    → core state ≡ core state'
    → core (detail type state event) ≡ core (detail type state' event)
detail_same type state state' event h =
    detail-core type state event
    ∙ ap (λ s. core (detail type s event)) h
    ∙ sym (detail-core type state' event)

pub move-core :
    (state : TaskState) (event : Event) (target : TaskStatus)
    → core (move state event target) ≡ core (move (core state) event target)
unfolding move core
move-core state event target =
    detail_same event.type _ _ event
      (rw (uuid_or_none_idem state.assignee_account_id, uuid_or_none_idem state.delegated_by) refl)

pub annotate-core :
    (state : TaskState) (event : Event)
    → core (annotate state event) ≡ core (annotate (core state) event)
unfolding annotate core
annotate-core state event =
    rw (uuid_or_none_idem state.assignee_account_id, uuid_or_none_idem state.delegated_by) refl

land-core :
    (state : TaskState) (event : Event) (target : Option TaskStatus)
    → core (land state event target) ≡ core (land (core state) event target)
unfolding land core
land-core state event none = sym (core_idem state)
land-core state event (some target) =
    rw (uuid_or_none_idem state.assignee_account_id, uuid_or_none_idem state.delegated_by) refl

pub apply_result-core :
    (state : TaskState) (event : Event)
    → core (apply_result state event) ≡ core (apply_result (core state) event)
unfolding apply_result core
apply_result-core state event = elim (Bool-cases (opt_eq event.task_id (some state.task_id))) [
  | inr e ↦ rw e (sym (core_idem state))
  | inl e ↦ elim (Bool-cases (opt_eq event.payload.verification_id state.active_verification_id)) [
    | inr f ↦ rw (e, f) (sym (core_idem state))
    | inl f ↦ rw (e, f) (land-core state event (transitions state.status event.type))
  ]
]

pub create-core :
    (state : TaskState) (event : Event)
    → core (create state event) ≡ core (create (core state) event)
unfolding create core
create-core state event =
    rw (uuid_or_none_idem state.assignee_account_id, uuid_or_none_idem state.delegated_by) refl
