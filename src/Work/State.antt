-- ===== src/Work/State.antt =====
-- server/work/state.py: the state machine of a work item, its timing model and the result ledger.
-- Instants are microseconds since the epoch.
pub mod Transitions
pub mod Timing
mod Ledger
mod Samples
use agent_colab.Prelude.{
  ltb, leb, if◌then◌else◌, str_eq, is_some, Result, ok, err, ℕ, ◌+◌, ◌*◌, String, Bool, true, false,
  ◌||◌, Option, none, some, List, [], ◌∷◌, ◌++◌,
}
use agent_colab.Events.Store.{EventStoreError}

pub data WorkItemState : Type 0 where
  queued delivered acked in_progress result_received rejected expired cancelled : WorkItemState

pub data Action : Type 0 where
  deliver redeliver ack start result reject expire cancel : Action

-- The codes of `WorkItemError`, and those that pass through the package from others.
pub data WorkItemError : Type 0 where
  work_item_transition_invalid work_item_timing_invalid work_item_not_found : WorkItemError
  work_item_not_owner work_item_kind_invalid work_item_idempotency_conflict : WorkItemError
  work_item_payload_too_large work_item_rejection_code_invalid : WorkItemError
  work_result_schema_invalid integrity_error : WorkItemError
  schema_error : String → WorkItemError
  store_error : EventStoreError → WorkItemError

-- `state in TERMINAL_STATES`
unfoldable pub is_terminal : WorkItemState → Bool
is_terminal result_received = true
is_terminal rejected = true
is_terminal expired = true
is_terminal cancelled = true
is_terminal _ = false

-- `TRANSITIONS[(state, action)]`; `none` is the KeyError.
unfoldable pub transitions : WorkItemState → Action → Option WorkItemState
transitions queued deliver = some delivered
transitions queued cancel = some cancelled
transitions queued expire = some expired
transitions delivered redeliver = some delivered
transitions delivered ack = some acked
transitions delivered reject = some rejected
transitions delivered expire = some expired
transitions delivered cancel = some cancelled
transitions acked start = some in_progress
transitions acked reject = some rejected
transitions acked expire = some expired
transitions acked cancel = some cancelled
transitions acked result = some result_received
transitions in_progress result = some result_received
transitions in_progress reject = some rejected
transitions in_progress expire = some expired
transitions in_progress cancel = some cancelled
transitions _ _ = none

or_invalid : Option WorkItemState → Result WorkItemError WorkItemState
or_invalid none = err work_item_transition_invalid
or_invalid (some target) = ok target

unfoldable pub transition : WorkItemState → Action → Result WorkItemError WorkItemState
unfolding is_terminal transitions or_invalid
transition state action =
    if is_terminal state
    then err work_item_transition_invalid
    else or_invalid (transitions state action)

pub data NextAction : Type 0 where
  none_ redeliver_ expire_ reroute waiting : NextAction

-- The reasons of a decision; the text of a redelivery names its count.
pub data Reason : Type 0 where
  terminal deadline_exceeded awaiting_ack ack_timeout_exhausted accepted awaiting_accept : Reason
  accept_timeout accept_timeout_no_candidate no_timer : Reason
  ack_timeout_redelivery : ℕ → Reason

pub record TimingDecision : Type 0 where
  pub action : NextAction
  pub reason : Reason
  pub due_at : Option ℕ

abbrev decision : NextAction → Reason → Option ℕ → TimingDecision
decision action reason due_at = record { action = action; reason = reason; due_at = due_at }

-- `deadline is not None and now >= deadline`
past_deadline : Option ℕ → ℕ → Bool
past_deadline none now = false
past_deadline (some deadline) now = leb deadline now

abbrev pub ack_timeout : ℕ
ack_timeout = 60 * 1000000

abbrev pub accept_timeout_us : ℕ
accept_timeout_us = 120 * 1000000

-- `kind in ASSIGNMENT_KINDS`
is_assignment : String → Bool
is_assignment kind = str_eq kind "task_assignment" || str_eq kind "subtask_assignment"

-- The branch of DELIVERED.
await_ack : Option ℕ → ℕ → ℕ → Result WorkItemError TimingDecision
await_ack none now delivery_count = err work_item_timing_invalid
await_ack (some delivered_at) now delivery_count =
    let due = delivered_at + ack_timeout in
    if ltb now due
    then ok (decision none_ awaiting_ack (some due))
    else if leb delivery_count 3
    then ok (decision redeliver_ (ack_timeout_redelivery delivery_count) (some due))
    else ok (decision expire_ ack_timeout_exhausted (some due))

await_accept : Option ℕ → ℕ → ℕ → Result WorkItemError TimingDecision
await_accept none now reroute_count = err work_item_timing_invalid
await_accept (some acked_at) now reroute_count =
    let due = acked_at + accept_timeout_us in
    if ltb now due
    then ok (decision none_ awaiting_accept (some due))
    else if ltb reroute_count 1
    then ok (decision reroute accept_timeout (some due))
    else ok (decision waiting accept_timeout_no_candidate (some due))

-- The branch of ACKED and IN_PROGRESS.
assigned : String → Option ℕ → Option ℕ → ℕ → ℕ → Result WorkItemError TimingDecision
unfolding await_accept is_assignment
assigned kind acked_at accepted_at now reroute_count =
    if is_assignment kind
    then (if is_some accepted_at
        then ok (decision none_ accepted none)
        else await_accept acked_at now reroute_count)
    else ok (decision none_ no_timer none)

by_state :
    WorkItemState
    → Option ℕ
    → Option ℕ
    → ℕ
    → ℕ
    → String
    → Option ℕ
    → ℕ
    → Result WorkItemError TimingDecision
unfolding await_ack assigned
by_state delivered delivered_at acked_at now delivery_count kind accepted_at reroute_count =
    await_ack delivered_at now delivery_count
by_state acked delivered_at acked_at now delivery_count kind accepted_at reroute_count =
    assigned kind acked_at accepted_at now reroute_count
by_state in_progress delivered_at acked_at now delivery_count kind accepted_at reroute_count =
    assigned kind acked_at accepted_at now reroute_count
by_state _ delivered_at acked_at now delivery_count kind accepted_at reroute_count =
    ok (decision none_ no_timer none)

unfoldable pub next_action :
    WorkItemState
    → Option ℕ
    → Option ℕ
    → ℕ
    → ℕ
    → String
    → Option ℕ
    → ℕ
    → Option ℕ
    → Result WorkItemError TimingDecision
unfolding is_terminal past_deadline by_state
next_action state delivered_at acked_at now delivery_count kind accepted_at reroute_count deadline =
    if is_terminal state
    then ok (decision none_ terminal none)
    else if past_deadline deadline now
    then ok (decision expire_ deadline_exceeded none)
    else by_state state delivered_at acked_at now delivery_count kind accepted_at reroute_count

pub data ReceiptCode : Type 0 where
  result_accepted duplicate_result_ignored : ReceiptCode

pub record ResultReceipt : Type 0 where
  pub work_item_id : String
  pub accepted : Bool
  pub code : ReceiptCode
  pub first_result_ref : String

pub record LedgerAudit : Type 0 where
  pub work_item_id : String
  pub reporter : String
  pub ignored_result_ref : String
  pub first_result_ref : String

pub record ResultLedger : Type 0 where
  pub results : List (String × String)
  pub audit : List LedgerAudit

pub find : String → List (String × String) → Option String
find key [] = none
find key ((k, v) ∷ rest) = if str_eq k key then some v else find key rest

pub result_of : ResultLedger → String → Option String
unfolding find
result_of ledger work_item_id = find work_item_id ledger.results

settle : Option String → String → String → String → ResultLedger → ResultReceipt × ResultLedger
settle (some existing) work_item_id result_ref reporter ledger = (
  record {
    work_item_id = work_item_id;
    accepted = false;
    code = duplicate_result_ignored;
    first_result_ref = existing;
  },
  record ledger {
    audit =
        ledger.audit
        ++ (record {
          work_item_id = work_item_id;
          reporter = reporter;
          ignored_result_ref = result_ref;
          first_result_ref = existing;
        })
          ∷ [];
  },
)
settle none work_item_id result_ref reporter ledger = (
  record {
    work_item_id = work_item_id;
    accepted = true;
    code = result_accepted;
    first_result_ref = result_ref;
  },
  record ledger { results = (work_item_id, result_ref) ∷ ledger.results },
)

-- `ResultLedger.accept`
pub accept : ResultLedger → String → String → String → ResultReceipt × ResultLedger
unfolding settle
accept ledger work_item_id result_ref reporter =
    settle (result_of ledger work_item_id) work_item_id result_ref reporter ledger
