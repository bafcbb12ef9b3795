-- ===== src/Projections/Tasks.antt =====
-- server/projections/tasks.py: the projector of `tasks_projection`, and its replay by `rebuild` of
-- server/projections/runner.py.
-- A column of UUIDs holds canonical texts here, and the jsonb columns the values that were dumped. An
-- Event has the keys `event_id`, `aggregate_id` and `occurred_at`, as the store gives them.
mod Core
mod Fold
mod Rows
mod Kept
mod Applied
mod Replay
mod Samples
use agent_colab.Prelude.{
  if◌then◌else◌, str_eq, opt_eq, or_else, Result, ok, err, ℕ, String, Bool, true, not, ◌&&◌, Option,
  none, some, List, [], ◌∷◌, ◌++◌,
}
use agent_colab.Task.Status.{TaskStatus, TaskTransitionError, is_creation, is_verification_result}
use agent_colab.Task.State.{
  VerificationStatus, JoinPolicy, Event, TaskState, new_state, apply_event,
}

pub record TaskRow : Type 0 where
  pub task_id : String
  pub workspace_id : Option String
  pub root_task_id : String
  pub parent_task_id : Option String
  pub channel_id : Option String
  pub title : String
  pub domain : String
  pub risk : String
  pub status : TaskStatus
  pub verification_status : Option VerificationStatus
  pub assignee_account_id : Option String
  pub delegated_by : Option String
  pub delegation_depth : ℕ
  pub join_policy : JoinPolicy
  pub active_verification_id : Option String
  pub policy_snapshot_hash : Option String
  pub criteria_revision : ℕ
  pub latest_progress : Option String
  pub last_event_id : Option String
  pub last_aggregate_seq : ℕ
  pub created_at : Option String
  pub updated_at : Option String

-- Python's `not value` on `str | None`.
pub is_falsy : Option String → Bool
is_falsy none = true
is_falsy (some s) = str_eq s ""

-- `_uuid_or_none`, on canonical texts.
pub uuid_or_none : Option String → Option String
unfolding is_falsy
uuid_or_none value = if is_falsy value then none else value

-- `SELECT * FROM tasks_projection WHERE task_id = :t`
pub find_row : String → List TaskRow → Option TaskRow
find_row task_id [] = none
find_row task_id (row ∷ rows) =
    let found = find_row task_id rows in if str_eq row.task_id task_id then some row else found

-- `ON CONFLICT (task_id) DO UPDATE SET …`
pub update_row : TaskRow → TaskRow → TaskRow
update_row excluded row = record row {
  status = excluded.status;
  verification_status = excluded.verification_status;
  assignee_account_id = excluded.assignee_account_id;
  delegated_by = excluded.delegated_by;
  delegation_depth = excluded.delegation_depth;
  join_policy = excluded.join_policy;
  active_verification_id = excluded.active_verification_id;
  policy_snapshot_hash = excluded.policy_snapshot_hash;
  criteria_revision = excluded.criteria_revision;
  latest_progress = excluded.latest_progress;
  last_event_id = excluded.last_event_id;
  last_aggregate_seq = excluded.last_aggregate_seq;
  updated_at = excluded.updated_at;
}

-- `_UPSERT`
pub upsert : TaskRow → List TaskRow → List TaskRow
unfolding update_row
upsert new [] = new ∷ []
upsert new (row ∷ rows) =
    let rest = upsert new rows in
    if str_eq row.task_id new.task_id then update_row new row ∷ rows else row ∷ rest

or_text : Option String → Option String → Option String
unfolding is_falsy
or_text value default = if is_falsy value then default else value

-- The row that `write_state` gives to the upsert.
pub row_of : TaskState → Option String → TaskRow
unfolding uuid_or_none or_text is_falsy
row_of state occurred_at = record {
  task_id = state.task_id;
  workspace_id = uuid_or_none state.workspace_id;
  root_task_id =
      if is_falsy state.root_task_id
      then state.task_id
      else or_else state.root_task_id state.task_id;
  parent_task_id = state.parent_task_id;
  channel_id = uuid_or_none state.channel_id;
  title = state.title;
  domain = state.domain;
  risk = state.risk;
  status = state.status;
  verification_status = state.verification_status;
  assignee_account_id = uuid_or_none state.assignee_account_id;
  delegated_by = uuid_or_none state.delegated_by;
  delegation_depth = state.delegation_depth;
  join_policy = state.join_policy;
  active_verification_id = state.active_verification_id;
  policy_snapshot_hash = state.policy_snapshot_hash;
  criteria_revision = state.criteria_revision;
  latest_progress = state.latest_progress;
  last_event_id = state.last_event_id;
  last_aggregate_seq = state.last_aggregate_seq;
  created_at = or_text state.created_at occurred_at;
  updated_at = occurred_at;
}

pub write_state : TaskState → Option String → List TaskRow → List TaskRow
unfolding row_of
write_state state occurred_at rows = upsert (row_of state occurred_at) rows

-- The Task that an Event is about, for the projector.
pub target_of : Event → Option String
unfolding is_falsy
target_of event =
    if opt_eq event.aggregate_type (some "task")
    then event.aggregate_id
    else if is_verification_result event.type && not (is_falsy event.task_id)
    then event.task_id
    else none

-- The rows, and what `skipped` lists: the id of an Event and the error.
pub record Projection : Type 0 where
  pub rows : List TaskRow
  pub skipped : List (Option String × TaskTransitionError)

-- `reread` is what a timestamp column gives back as text for the text that was written.
module _ (reread : String → String) where
  pub reread_or_none : Option String → Option String
  reread_or_none none = none
  reread_or_none (some at) = some (reread at)

  -- `load_state`, from the row that was found. `str(None)` is the text `None`.
  pub state_of : String → Option TaskRow → TaskState
  unfolding reread_or_none
  state_of task_id none = new_state task_id
  state_of task_id (some row) = record (new_state task_id) {
    exists = true;
    status = row.status;
    workspace_id = some (or_else row.workspace_id "None");
    root_task_id = some row.root_task_id;
    parent_task_id = row.parent_task_id;
    channel_id = row.channel_id;
    title = row.title;
    domain = row.domain;
    risk = row.risk;
    assignee_account_id = row.assignee_account_id;
    delegated_by = row.delegated_by;
    delegation_depth = row.delegation_depth;
    join_policy = row.join_policy;
    policy_snapshot_hash = row.policy_snapshot_hash;
    criteria_revision = row.criteria_revision;
    latest_progress = row.latest_progress;
    verification_status = row.verification_status;
    last_event_id = row.last_event_id;
    last_aggregate_seq = row.last_aggregate_seq;
    created_at = reread_or_none row.created_at;
    updated_at = reread_or_none row.updated_at;
    active_verification_id = row.active_verification_id;
  }

  pub load_state : List TaskRow → String → TaskState
  unfolding state_of find_row
  load_state rows task_id = state_of task_id (find_row task_id rows)

  pub written : Event → Projection → Result TaskTransitionError TaskState → Projection
  unfolding write_state
  written event p (err e) = record p { skipped = p.skipped ++ (event.event_id, e) ∷ [] }
  written event p (ok state) = record p { rows = write_state state event.occurred_at p.rows }

  -- `TasksProjector.apply`, for a Task.
  pub apply_to : String → Event → Projection → Projection
  unfolding written load_state
  apply_to task_id event p =
      let state = load_state p.rows task_id in
      if not state.exists && not (is_creation event.type)
      then p
      else written event p (apply_event state event)

  -- `TasksProjector.apply`
  pub apply : Event → Projection → Projection
  unfolding apply_to target_of
  apply event p = elim (target_of event) [ none ↦ p | some task_id ↦ apply_to task_id event p ]

  -- The Events of a replay, in their order.
  pub replay : List Event → Projection → Projection
  replay [] p = p
  replay (event ∷ events) p = replay events (apply event p)
