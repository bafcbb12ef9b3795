-- ===== src/Approvals/Decide.antt =====
-- server/approvals/service.py: `decide_approval`, `cancel_approval` and `revoke_approval`, on the row of
-- one approval, its rows of `approval_decisions`, the number of its rows of `approval_consumptions`, and
-- what `_project` was called with.
mod Rules
mod Entitled
mod Outcome
mod Deciders
mod Expire
mod Samples
mod Quorum
use Prim.Native.String.{◌++◌ as concat, compare}
use Prim.Native.Nat.{Ordering}
use agent_colab.Prelude.Transactions.{Exec, ◌>>=◌, ◌>>◌, pure, lift, gets}
use agent_colab.Prelude.{
  ltb, leb, if◌then◌else◌, str_eq, length, contains, Result, ok, err, guard, ℕ, ◌+◌, String, Bool,
  true, false, ◌||◌, Option, none, some, List, [], ◌∷◌, ◌++◌, map,
}
use agent_colab.Events.Store.{int, str, strs, Payload, AppendResult, EventStore}
use agent_colab.Approvals.Model.{
  expired_, ApprovalStatus, pending, ApprovalEvent, granted_, rejected_, cancelled_, revoked_,
  ApprovalError, store_error, next_status, Grant,
}
use agent_colab.Approvals.Eligibility.{Principal, Policy, check_eligibility}

-- The errors: the codes of the decision, the code of a denial, the errors of the transition table and of the
-- store, and `no_event` for the `IndexError` on an empty stream.
pub data DecisionError : Type 0 where
  decision_invalid approval_not_found approval_not_pending approval_not_usable no_event :
      DecisionError
  approval_cancel_forbidden : DecisionError
  not_eligible : String → DecisionError
  approval_error : ApprovalError → DecisionError

pub data Decision : Type 0 where
  approve reject : Decision

-- A row of `approval_decisions`.
pub record DecisionRow : Type 0 where
  pub decided_by : String
  pub decision : Decision
  pub credential_fingerprint : String
  pub reauth_verified : Bool
  pub event_id : String

pub record Projected : Type 0 where
  pub status : ApprovalStatus
  pub used_count : ℕ
  pub decided_by : List String
  pub event_id : String
  pub at : ℕ

pub record File (store : EventStore) : Type 0 where
  pub grant : Option Grant
  pub decisions : List DecisionRow
  pub used_count : ℕ
  pub projected : List Projected
  pub events : store.State

pub record DecisionResult : Type 0 where
  pub status : ApprovalStatus
  pub approvals_recorded : ℕ
  pub quorum_required : ℕ
  pub event : Option AppendResult

pub decided : DecisionRow → String
decided row = row.decided_by

-- The texts once each, as a set of them.
unfoldable pub unique : List String → List String
unique [] = []
unique (x ∷ xs) = let rest = unique xs in if contains x xs then rest else x ∷ rest

-- `frozenset` of the accounts that have decided.
unfoldable pub deciders_of : List DecisionRow → List String
unfolding decided unique
deciders_of rows = unique (map decided rows)

-- `sorted` on texts.
insert_text : String → List String → List String
insert_text s [] = s ∷ []
insert_text s (t ∷ ts) =
    let rest = t ∷ insert_text s ts in elim (compare s t) [ Ordering.gt ↦ rest | _ ↦ s ∷ t ∷ ts ]

sorted_texts : List String → List String
unfolding insert_text
sorted_texts [] = []
sorted_texts (s ∷ ss) = insert_text s (sorted_texts ss)

-- `decision not in ("APPROVE", "REJECT")`
pub decision_of : String → Result DecisionError Decision
decision_of decision =
    if str_eq decision "APPROVE"
    then ok approve
    else if str_eq decision "REJECT"
    then ok reject
    else err decision_invalid

pub is_pending : ApprovalStatus → Bool
is_pending pending = true
is_pending _ = false

-- `next_status`, with its error.
pub next : ApprovalStatus → ApprovalEvent → Result DecisionError ApprovalStatus
next current event = elim (next_status current event) [
  | ok status ↦ ok status
  | err e ↦ err (approval_error e)
]

-- `if event_type != "APPROVAL_EXPIRED"`
reason_of : ApprovalEvent → String → Payload
reason_of expired_ reason_code = []
reason_of _ reason_code = ("reason_code", str reason_code) ∷ []

module _ (store : EventStore) where
  abbrev pub Step : Type 0 → Type 0
  Step A = Exec (File store) DecisionError A

  -- `_load_grant`
  pub load_grant : Step Grant
  load_grant file = elim file.grant [
    | some grant ↦ ok (grant, file)
    | none ↦ err approval_not_found
  ]

  -- `_append`
  pub append : Grant → String → String → String → String → String → Payload → Step AppendResult
  append grant event_type actor correlation_id scope key payload file =
      elim (store.append
        (record {
          workspace_id = grant.workspace_uuid;
          aggregate_type = "approval";
          aggregate_id = grant.approval_id;
          type = event_type;
          actor_account_id = actor;
          correlation_id = correlation_id;
          idempotency_scope = concat "approval:" scope;
          idempotency_key = key;
          payload = payload;
          policy_version = "policy-v1";
          channel_id = grant.channel_uuid;
          task_id =
              if str_eq grant.subject.subject_type "task"
              then some grant.subject.subject_id
              else none;
          caused_by = none;
          expected_seq = some (grant.aggregate_seq + 1);
          sensitive = none;
          schema_version = 1;
        })
        file.events) [
          | ok (appended, events) ↦ ok (appended, record file { events = events })
          | err e ↦ err (approval_error (store_error e))
        ]

  pub moved : ApprovalStatus → ℕ → Option Grant → Option Grant
  moved status seq none = none
  moved status seq (some grant) = some (record grant { status = status; aggregate_seq = seq })

  -- `_set_status`
  pub set_status : ApprovalStatus → ℕ → Step (Unit {0})
  unfolding moved
  set_status status seq file = ok (tt, record file { grant = moved status seq file.grant })

  -- `_project`
  pub project : ApprovalStatus → String → ℕ → Step (Unit {0})
  unfolding decided
  project status event_id now file = ok (
    tt,
    record file {
      projected =
          file.projected
          ++ record {
            status = status;
            used_count = file.used_count;
            decided_by = map decided file.decisions;
            event_id = event_id;
            at = now;
          }
            ∷ [];
    },
  )

  -- `_record_decision`
  pub record_decision : DecisionRow → Step (Unit {0})
  record_decision row file = ok (tt, record file { decisions = file.decisions ++ row ∷ [] })

  -- What the branches of `decide_approval` share: the grant, the approver, who decided before and the
  -- arguments that they pass on.
  pub record Request : Type 0 where
    pub approver_account_id : String
    pub credential_fingerprint : String
    pub reauth_verified : Bool
    pub correlation_id : String
    pub idempotency_key : String
    pub reason_code : String

  pub row : Request → Principal → Decision → String → DecisionRow
  row request approver decision event_id = record {
    decided_by = approver.account_uuid;
    decision = decision;
    credential_fingerprint = request.credential_fingerprint;
    reauth_verified = request.reauth_verified;
    event_id = event_id;
  }

  -- The statements after the Event of a decision that ends the wait.
  pub settle :
      Request
      → Grant
      → Principal
      → Decision
      → ApprovalEvent
      → ℕ
      → ℕ
      → AppendResult
      → Step DecisionResult
  unfolding row next
  settle request grant approver decision event recorded now appended = do
    record_decision (row request approver decision appended.event_id)
    status ← lift (next grant.status event)
    set_status status appended.aggregate_seq
    project status appended.event_id now
    pure (record {
      status = status;
      approvals_recorded = recorded;
      quorum_required = grant.quorum_required;
      event = some appended;
    })

  pub reject_branch : Request → Grant → Principal → List String → ℕ → Step DecisionResult
  unfolding settle
  reject_branch request grant approver prior now = do
    appended ←
        append grant "APPROVAL_REJECTED" approver.account_uuid request.correlation_id "decide"
          request.idempotency_key
          (("approval_id", str grant.approval_id)
            ∷ ("decided_by", str approver.account_id)
            ∷ ("reason_code", str request.reason_code)
            ∷ [])
    settle request grant approver reject rejected_ (length prior) now appended

  pub grant_branch : Request → Grant → Principal → List String → ℕ → Step DecisionResult
  unfolding settle sorted_texts
  grant_branch request grant approver prior now = do
    appended ←
        append grant "APPROVAL_GRANTED" approver.account_uuid request.correlation_id "decide"
          request.idempotency_key
          (("approval_id", str grant.approval_id)
            ∷ ("decided_by", str approver.account_id)
            ∷ ("quorum_count", int (length prior + 1))
            ∷ ("deciders", strs (sorted_texts (approver.account_uuid ∷ prior)))
            ∷ [])
    settle request grant approver approve granted_ (length prior + 1) now appended

  -- `store.stream(…)[-1]["event_id"]`
  pub last_event : Grant → Step String
  last_event grant file =
      elim (store.last_event_id grant.workspace_uuid "approval" grant.approval_id file.events) [
        | some event_id ↦ ok (event_id, file)
        | none ↦ err no_event
      ]

  -- The quorum is not met yet.
  pub wait_branch : Request → Grant → Principal → List String → ℕ → Step DecisionResult
  unfolding row last_event
  wait_branch request grant approver prior now = do
    event_id ← last_event grant
    record_decision (row request approver approve event_id)
    project pending event_id now
    pure (record {
      status = pending;
      approvals_recorded = length prior + 1;
      quorum_required = grant.quorum_required;
      event = none;
    })

  pub by_decision : Decision → Request → Grant → Principal → List String → ℕ → Step DecisionResult
  unfolding reject_branch grant_branch wait_branch
  by_decision reject request grant approver prior now =
      reject_branch request grant approver prior now
  by_decision approve request grant approver prior now =
      if leb grant.quorum_required (length prior + 1)
      then grant_branch request grant approver prior now
      else wait_branch request grant approver prior now

  -- The check of the approver, with the code of a denial.
  pub eligible : Policy → Request → Grant → List String → ℕ → Result DecisionError Principal
  eligible policy request grant prior now =
      elim (check_eligibility policy request.approver_account_id grant prior request.reauth_verified
        now) [ ok approver ↦ ok approver | err code ↦ err (not_eligible code) ]

  -- `decide_approval`, after the test of the decision.
  pub decide : Policy → Decision → Request → ℕ → Step DecisionResult
  unfolding load_grant eligible by_decision is_pending
  decide policy decision request now = do
    grant ← load_grant
    lift (guard (is_pending grant.status) approval_not_pending)
    lift (guard (ltb now grant.expires_at) approval_not_usable)
    prior ← gets (λ file. deciders_of file.decisions)
    approver ← lift (eligible policy request grant prior now)
    by_decision decision request grant approver prior now

  pub decide_approval : Policy → String → Request → ℕ → Step DecisionResult
  unfolding decide decision_of
  decide_approval policy decision request now = do
    chosen ← lift (decision_of decision)
    decide policy chosen request now

  -- `_terminate`
  pub terminate :
      ApprovalEvent → String → String → String → String → String → String → ℕ → Step AppendResult
  unfolding load_grant append reason_of
  terminate event event_type actor correlation_id idempotency_key reason_code scope now = do
    grant ← load_grant
    status ← lift (next grant.status event)
    appended ←
        append grant event_type actor correlation_id scope idempotency_key
          (("approval_id", str grant.approval_id) ∷ reason_of event reason_code)
    set_status status appended.aggregate_seq
    project status appended.event_id now
    pure appended

  -- `is_admin` is the query of `_is_admin_actor`.
  pub cancel_approval : (String → Bool) → String → String → String → String → ℕ → Step AppendResult
  unfolding terminate
  cancel_approval is_admin actor correlation_id idempotency_key reason_code now = do
    grant ← load_grant
    lift (guard (str_eq grant.requested_by actor || is_admin actor) approval_cancel_forbidden)
    terminate cancelled_ "APPROVAL_CANCELLED" actor correlation_id idempotency_key reason_code
        "cancel" now

  pub revoke_approval : String → String → String → String → ℕ → Step AppendResult
  unfolding terminate
  revoke_approval actor correlation_id idempotency_key reason_code now =
      terminate revoked_ "APPROVAL_REVOKED" actor correlation_id idempotency_key reason_code
        "revoke" now
