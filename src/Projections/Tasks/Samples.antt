-- ===== src/Projections/Tasks/Samples.antt =====
-- A Task that is created and delegated, with an Event that the table does not allow, and one of another Task.
use agent_colab.Prelude.{
  str_eq, str_eq_iff, length, All, ℕ, String, ◌≡◌, refl, ◌≢◌, true, none, some, List, [], ◌∷◌,
}
use agent_colab.Task.Status.{
  EventType, task_created, task_delegated, task_completed, next_status, is_creation,
  is_verification_result, is_annotation,
}
use agent_colab.Task.State.{
  Payload, Event, TaskState, new_state, create, move, on_task, apply_event,
}
use agent_colab.Projections.Tasks.{upsert, apply, replay}
use agent_colab.Projections.Tasks.Kept.{IsOfStreams}
use agent_colab.Projections.Tasks.Fold.{fold_skipping, last_write}
use agent_colab.Projections.Tasks.Replay.{no_rows, Agrees, replay-fold}

abbrev titled : Payload
titled = record {
  root_task_id = none;
  parent_task_id = none;
  channel_id = none;
  title = some "Report";
  domain = none;
  risk = none;
  depth = none;
  join_policy = none;
  verification_id = none;
  satisfied_children = none;
  assignee_account_id = some "acct-2";
  assignment_revision = none;
  policy_snapshot_hash = none;
  summary = none;
  criteria_revision = none;
}

abbrev event_of : String → EventType → ℕ → Event
event_of task_id type seq = record {
  type = type;
  event_id = some "e";
  workspace_id = some "w-1";
  aggregate_type = some "task";
  aggregate_id = some task_id;
  aggregate_seq = some seq;
  channel_id = none;
  task_id = some task_id;
  actor_account_id = some "acct-1";
  occurred_at = some "2026-01-01T00:00:00Z";
  recorded_seq = some seq;
  payload = titled;
}

abbrev events : List Event
events =
    event_of "t-1" task_created 1
    ∷ event_of "t-2" task_created 2
    ∷ event_of "t-1" task_delegated 3
    ∷ event_of "t-1" task_completed 4
    ∷ []

named : ◌≢◌ {A = String} "t-1" ""
named h = let own : str_eq "t-1" "" ≡ true = (str_eq_iff "t-1" "").1 h in cc

events-AreOfStreams : All IsOfStreams events
unfolding is_verification_result is_creation
events-AreOfStreams = (
  ((λ h. refl), (λ h. cc)),
  (((λ h. refl), (λ h. cc)), (((λ h. refl), (λ h. cc)), (((λ h. refl), (λ h. cc)), tt))),
)

replay-fold_example :
    Agrees
      (λ at. at)
      "t-1"
      (replay (λ at. at) events no_rows)
      (fold_skipping (new_state "t-1") events)
      (last_write "t-1" (new_state "t-1") none events)
replay-fold_example = replay-fold (λ at. at) "t-1" events named events-AreOfStreams

abbrev open_task : TaskState
open_task = record (new_state "t-1") { exists = true; title = "Report" }

-- The Event that completes the Task too early is listed as skipped.
one_skipped : length (replay (λ at. at) events no_rows).skipped ≡ 1
unfolding replay apply is_creation apply_event upsert create is_verification_result on_task
    is_annotation next_status move
one_skipped = refl
