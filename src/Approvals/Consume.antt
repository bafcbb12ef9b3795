-- ===== src/Approvals/Consume.antt =====
-- server/approvals/service.py: `consume_approval`, on the locked grant row of one approval, the rows of
-- `approval_consumptions` of that approval, and what `_project` was called with.
mod Uses
mod Samples
use Prim.Native.String.{◌++◌ as concat}
use agent_colab.Prelude.Transactions.{Exec, ◌>>=◌}
use agent_colab.Prelude.{
  leb, if◌then◌else◌, str_eq, length, ok, err, ℕ, ◌+◌, String, Bool, true, false, not, ◌&&◌, Option,
  none, some, List, [], ◌∷◌, ◌++◌,
}
use agent_colab.Events.Store.{int, str, AppendResult, EventStore}
use agent_colab.Approvals.Model.{
  ApprovalStatus, consumed, ApprovalError, approval_exhausted, approval_not_usable,
  approval_scope_mismatch, store_error, is_consumable, status_after_consumption, Subject, Grant,
  in_window,
}

pub record Consumption : Type 0 where
  pub consumption_key : String
  pub consumed_by : String
  pub consumed_for : Subject
  pub event_id : String

pub record Projected : Type 0 where
  pub used_count : ℕ
  pub status : ApprovalStatus
  pub event_id : String
  pub at : ℕ

pub record Ledger (store : EventStore) : Type 0 where
  pub grant : Grant
  pub consumptions : List Consumption
  pub projected : List Projected
  pub events : store.State

pub record ConsumeResult : Type 0 where
  pub consumption_key : String
  pub used_count : ℕ
  pub status : ApprovalStatus
  pub event_id : String
  pub replayed : Bool

pub find_key : String → List Consumption → Option Consumption
find_key key [] = none
find_key key (c ∷ cs) =
    let found = find_key key cs in if str_eq c.consumption_key key then some c else found

is_consumed : ApprovalStatus → Bool
is_consumed consumed = true
is_consumed _ = false

-- `consumed_for == grant.subject`
same_subject : Subject → Subject → Bool
same_subject a b = str_eq a.subject_type b.subject_type && str_eq a.subject_id b.subject_id

-- `max_uses is not None and used >= max_uses`
exhausted : ℕ → Option ℕ → Bool
exhausted used none = false
exhausted used (some max_uses) = leb max_uses used

module _ (store : EventStore) where
  abbrev pub Step : Type 0 → Type 0
  Step A = Exec (Ledger store) ApprovalError A

  -- `_append` of the `APPROVAL_CONSUMED` Event.
  append_consumed : String → String → Subject → String → ℕ → Step AppendResult
  append_consumed consumption_key consumed_by consumed_for correlation_id used ledger =
      elim (store.append
        (record {
          workspace_id = ledger.grant.workspace_uuid;
          aggregate_type = "approval";
          aggregate_id = ledger.grant.approval_id;
          type = "APPROVAL_CONSUMED";
          actor_account_id = consumed_by;
          correlation_id = correlation_id;
          idempotency_scope = "approval:consume";
          idempotency_key = concat ledger.grant.approval_id (concat ":" consumption_key);
          payload =
              ("approval_id", str ledger.grant.approval_id)
              ∷ ("consumption_key", str consumption_key)
              ∷ ("used_count", int used)
              ∷ ("consumed_for_type", str consumed_for.subject_type)
              ∷ ("consumed_for_id", str consumed_for.subject_id)
              ∷ [];
          policy_version = "policy-v1";
          channel_id = ledger.grant.channel_uuid;
          task_id =
              if str_eq ledger.grant.subject.subject_type "task"
              then some ledger.grant.subject.subject_id
              else none;
          caused_by = none;
          expected_seq = some (ledger.grant.aggregate_seq + 1);
          sensitive = none;
          schema_version = 1;
        })
        ledger.events) [
          | ok (appended, events) ↦ ok (appended, record ledger { events = events })
          | err e ↦ err (store_error e)
        ]

  -- The INSERT, `_set_status` and `_project`.
  recorded : String → String → Subject → ℕ → ℕ → AppendResult → Step ConsumeResult
  recorded consumption_key consumed_by consumed_for used now appended ledger =
      let status = status_after_consumption used ledger.grant.max_uses in
      ok (
        record {
          consumption_key = consumption_key;
          used_count = used;
          status = status;
          event_id = appended.event_id;
          replayed = false;
        },
        record ledger {
          grant = record ledger.grant { status = status; aggregate_seq = appended.aggregate_seq };
          consumptions =
              ledger.consumptions
              ++ record {
                consumption_key = consumption_key;
                consumed_by = consumed_by;
                consumed_for = consumed_for;
                event_id = appended.event_id;
              }
                ∷ [];
          projected =
              ledger.projected
              ++ record {
                used_count = used;
                status = status;
                event_id = appended.event_id;
                at = now;
              }
                ∷ [];
        },
      )

  -- The checks, in the order of the source.
  check_use : Subject → ℕ → ℕ → Step (Unit {0})
  unfolding is_consumed same_subject exhausted
  check_use consumed_for now used ledger =
      if is_consumed ledger.grant.status
      then err approval_exhausted
      else if not (is_consumable ledger.grant.status)
      then err approval_not_usable
      else if not (in_window ledger.grant now)
      then err approval_not_usable
      else if not (same_subject consumed_for ledger.grant.subject)
      then err approval_scope_mismatch
      else if exhausted used ledger.grant.max_uses
      then err approval_exhausted
      else ok (tt, ledger)

  -- The retry of a consumption that was recorded.
  replay : String → Consumption → Step ConsumeResult
  replay consumption_key existing ledger = ok (
    record {
      consumption_key = consumption_key;
      used_count = length ledger.consumptions;
      status = ledger.grant.status;
      event_id = existing.event_id;
      replayed = true;
    },
    ledger,
  )

  pub consume_approval : String → String → Subject → String → ℕ → Step ConsumeResult
  unfolding replay append_consumed recorded check_use find_key
  consume_approval consumption_key consumed_by consumed_for correlation_id now ledger =
      elim (find_key consumption_key ledger.consumptions) [
        | some existing ↦ replay consumption_key existing ledger
        | none ↦
            let used = length ledger.consumptions in
            (check_use consumed_for now used >>= λ _.
            append_consumed consumption_key consumed_by consumed_for correlation_id (used + 1)
            >>= recorded consumption_key consumed_by consumed_for (used + 1) now)
              ledger
      ]
