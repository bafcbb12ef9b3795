-- ===== src/Events/Store.antt =====
-- server/events/store.py: requests and results of the store, and the `EventStore` protocol, which the
-- components that append Events take as a parameter.
use agent_colab.Prelude.{Result, ℕ, String, Bool, Option, List}

pub data Json : Type 0 where
  null : Json
  int : ℕ → Json
  str : String → Json
  strs : List String → Json

abbrev pub Payload : Type 0
Payload = List (String × Json)

-- The codes of `EventStoreError`; `contract` and `crypto` carry the code that was passed on.
pub data EventStoreError : Type 0 where
  idempotency_conflict sequence_conflict caused_by_unknown actor_unknown : EventStoreError
  workspace_mismatch channel_unknown sensitive_unsupported event_insert_failed : EventStoreError
  contract crypto : String → EventStoreError

pub record AppendRequest : Type 0 where
  pub workspace_id : String
  pub aggregate_type : String
  pub aggregate_id : String
  pub type : String
  pub actor_account_id : String
  pub correlation_id : String
  pub idempotency_scope : String
  pub idempotency_key : String
  pub payload : Payload
  pub policy_version : String
  pub channel_id : Option String
  pub task_id : Option String
  pub caused_by : Option String
  pub expected_seq : Option ℕ
  pub sensitive : Option Payload
  pub schema_version : ℕ

pub record AppendResult : Type 0 where
  pub event_id : String
  pub aggregate_seq : ℕ
  pub content_hash : String
  pub recorded_seq : ℕ
  pub replayed : Bool

-- `class EventStore(Protocol)`: the store's state, and `append` on it. The method `stream` is read
-- only by `last_event_id`, the id of the last Event of an aggregate's stream.
pub record EventStore : Type 1 where
  pub State : Type 0
  pub append : AppendRequest → State → Result EventStoreError (AppendResult × State)
  pub last_event_id : String → String → String → State → Option String
