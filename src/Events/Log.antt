-- ===== src/Events/Log.antt =====
-- server/events/postgres_store.py: the Event store over the table `events`.
-- What a call of `append` meets besides the request is a `Tick`: the fresh id, the two readings of the clock,
-- the number that the column `recorded_seq` gives, and the rows that other transactions commit between the
-- reads and the INSERT. The advisory lock of the aggregate keeps those rows off it.
mod Effect
mod Chain
mod Streams
mod Keys
mod Views
mod Samples
use agent_colab.Prelude.{
  ltb, ◌==◌, if◌then◌else◌, str_eq, is_some, or_else, take, keep, any, sorted, Result, ok, err,
  guard, ◌>>=◌, ◌>>◌, ℕ, ◌+◌, String, Bool, true, false, ◌&&◌, Option, none, some, List, [], ◌∷◌,
  ◌++◌,
}
use agent_colab.Events.Store.{
  Payload, EventStoreError, idempotency_conflict, sequence_conflict, caused_by_unknown,
  actor_unknown, workspace_mismatch, channel_unknown, sensitive_unsupported, event_insert_failed,
  contract, crypto, AppendRequest, AppendResult,
}
use agent_colab.Events.Hashing.{StoredEvent, Hashes, compute_content_hash}

-- `request_body_hash` hashes these.
pub record RequestBody : Type 0 where
  pub workspace_id : String
  pub aggregate_type : String
  pub aggregate_id : String
  pub type : String
  pub payload : Payload
  pub sensitive : Option Payload
  pub channel_id : Option String
  pub task_id : Option String
  pub caused_by : Option String

-- The code outside these files: the hash functions, the envelope encryption when it is configured (a
-- ciphertext, never empty, with its key reference, or the code of a `CryptoError`), the schema registry (`none` when the
-- Event is valid, else the code), and the text of an instant.
pub record Backend : Type 0 where
  pub hashes : Hashes
  pub of_request : RequestBody → String
  pub encrypt : Option (String → String → String → Payload → Result String (String × String))
  pub contract_error : StoredEvent → Option String
  pub isoformat_utc : ℕ → String

-- The table, oldest row first, and the workspaces of the rows that an Event refers to.
pub record Log : Type 0 where
  pub rows : List StoredEvent
  pub accounts : String → Option String
  pub channels : String → Option String
  pub tasks : String → Option String

pub record Tick : Type 0 where
  pub event_id : String
  pub hashed_at : ℕ
  pub stored_at : ℕ
  pub recorded_seq : ℕ
  pub concurrent : List StoredEvent

unfoldable pub same_aggregate : String → String → String → StoredEvent → Bool
same_aggregate workspace_id aggregate_type aggregate_id event =
    str_eq event.workspace_id workspace_id
    && str_eq event.aggregate_type aggregate_type
    && str_eq event.aggregate_id aggregate_id

pub seq_of : StoredEvent → ℕ
seq_of event = event.aggregate_seq

-- `stream`: the rows of an aggregate, ordered by `aggregate_seq`.
unfoldable pub stream : String → String → String → List StoredEvent → List StoredEvent
unfolding same_aggregate seq_of
stream workspace_id aggregate_type aggregate_id rows =
    sorted seq_of (keep (same_aggregate workspace_id aggregate_type aggregate_id) rows)

unfoldable pub last_of : List StoredEvent → Option StoredEvent
last_of [] = none
last_of (event ∷ events) = let later = last_of events in some (or_else later event)

-- `read_since`: `limit` is at least 1 and at most 1000; a negative one gives what 0 gives.
pub read_since : String → ℕ → ℕ → List StoredEvent → List StoredEvent
read_since workspace_id after_recorded_seq limit rows =
    take (if ltb limit 1 then 1 else if ltb 1000 limit then 1000 else limit) (
      sorted (λ event. event.recorded_seq)
        (keep
          (λ event.
            str_eq event.workspace_id workspace_id && ltb after_recorded_seq event.recorded_seq)
          rows))

-- `get`, and the workspace of a cause.
unfoldable pub get : String → List StoredEvent → Option StoredEvent
get event_id [] = none
get event_id (event ∷ events) =
    let found = get event_id events in if str_eq event.event_id event_id then some event else found

unfoldable pub has_key : AppendRequest → StoredEvent → Bool
has_key r event =
    str_eq event.workspace_id r.workspace_id
    && str_eq event.actor_account_id r.actor_account_id
    && str_eq event.idempotency_scope r.idempotency_scope
    && str_eq event.idempotency_key r.idempotency_key

-- `_find_idempotent`
unfoldable pub find_idempotent : AppendRequest → List StoredEvent → Option StoredEvent
unfolding has_key
find_idempotent r [] = none
find_idempotent r (event ∷ events) =
    let found = find_idempotent r events in if has_key r event then some event else found

-- The rows of this aggregate and sequence number.
pub takes_seq : StoredEvent → StoredEvent → Bool
takes_seq new event =
    str_eq event.workspace_id new.workspace_id
    && str_eq event.aggregate_type new.aggregate_type
    && str_eq event.aggregate_id new.aggregate_id
    && (event.aggregate_seq == new.aggregate_seq)

-- `_replay`
unfoldable pub replay : StoredEvent → String → Result EventStoreError AppendResult
replay prior body_hash =
    if str_eq prior.request_body_hash body_hash
    then ok (record {
      event_id = prior.event_id;
      aggregate_seq = prior.aggregate_seq;
      content_hash = prior.content_hash;
      recorded_seq = prior.recorded_seq;
      replayed = true;
    })
    else err idempotency_conflict

-- A reference to a row that must exist, in this workspace.
same_workspace : Option String → String → EventStoreError → Result EventStoreError (Unit {0})
same_workspace none workspace_id unknown = err unknown
same_workspace (some found) workspace_id unknown =
    guard (str_eq found workspace_id) workspace_mismatch

optional_reference :
    (String → Option String)
    → Option String
    → String
    → EventStoreError
    → Result EventStoreError (Unit {0})
unfolding same_workspace
optional_reference table none workspace_id unknown = ok tt
optional_reference table (some id) workspace_id unknown =
    same_workspace (table id) workspace_id unknown

-- A Task may be missing from its projection.
task_reference :
    (String → Option String) → Option String → String → Result EventStoreError (Unit {0})
task_reference table none workspace_id = ok tt
task_reference table (some id) workspace_id = elim (table id) [
  | none ↦ ok tt
  | some found ↦ guard (str_eq found workspace_id) workspace_mismatch
]

workspace_of : Option StoredEvent → Option String
workspace_of none = none
workspace_of (some event) = some event.workspace_id

-- `_check_workspace`
pub check_workspace : AppendRequest → Log → Result EventStoreError (Unit {0})
unfolding same_workspace optional_reference task_reference workspace_of get
check_workspace r log = do
  same_workspace (log.accounts r.actor_account_id) r.workspace_id actor_unknown
  optional_reference log.channels r.channel_id r.workspace_id channel_unknown
  task_reference log.tasks r.task_id r.workspace_id
  optional_reference (λ id. workspace_of (get id log.rows)) r.caused_by r.workspace_id
      caused_by_unknown

pub next_seq : Option StoredEvent → ℕ
next_seq none = 1
next_seq (some last) = last.aggregate_seq + 1

pub hash_of : Option StoredEvent → Option String
hash_of none = none
hash_of (some last) = some last.content_hash

-- `expected_seq` is compared with the next number.
unfoldable pub check_seq : Option ℕ → ℕ → Result EventStoreError (Unit {0})
check_seq none next = ok tt
check_seq (some expected) next = guard (expected == next) sequence_conflict

module _ (backend : Backend) where
  -- `AppendRequest.request_body_hash`
  unfoldable pub request_body_hash : AppendRequest → String
  request_body_hash r = backend.of_request (record {
    workspace_id = r.workspace_id;
    aggregate_type = r.aggregate_type;
    aggregate_id = r.aggregate_id;
    type = r.type;
    payload = r.payload;
    sensitive = r.sensitive;
    channel_id = r.channel_id;
    task_id = r.task_id;
    caused_by = r.caused_by;
  })

  pub encrypted :
      Option (String → String → String → Payload → Result String (String × String))
      → AppendRequest
      → Payload
      → Result EventStoreError (String × String)
  encrypted none r sensitive = err sensitive_unsupported
  encrypted (some encrypt) r sensitive =
      elim (encrypt r.workspace_id r.aggregate_type r.aggregate_id sensitive) [
        | ok pair ↦ ok pair
        | err code ↦ err (crypto code)
      ]

  -- The ciphertext and its key reference.
  pub sealed :
      AppendRequest → Option Payload → Result EventStoreError (Option String × Option String)
  unfolding encrypted
  sealed r none = ok (none, none)
  sealed r (some sensitive) = do
    (ciphertext, key_ref) ← encrypted backend.encrypt r sensitive
    ok (some ciphertext, some key_ref)

  -- The Event as it is hashed, without its hash.
  unfoldable pub unhashed :
      AppendRequest → Tick → Option StoredEvent → Option String × Option String → StoredEvent
  unfolding next_seq hash_of request_body_hash
  unhashed r tick last pair = record {
    event_id = tick.event_id;
    schema_version = r.schema_version;
    workspace_id = r.workspace_id;
    aggregate_type = r.aggregate_type;
    aggregate_id = r.aggregate_id;
    aggregate_seq = next_seq last;
    channel_id = r.channel_id;
    task_id = r.task_id;
    type = r.type;
    actor_account_id = r.actor_account_id;
    caused_by = r.caused_by;
    correlation_id = r.correlation_id;
    idempotency_scope = r.idempotency_scope;
    idempotency_key = r.idempotency_key;
    policy_version = r.policy_version;
    payload = r.payload;
    ciphertext = pair.0;
    key_ref = pair.1;
    previous_hash = hash_of last;
    occurred_at = backend.isoformat_utc tick.hashed_at;
    content_hash = "";
    recorded_seq = tick.recorded_seq;
    request_body_hash = request_body_hash r;
  }

  -- `event["content_hash"] = compute_content_hash(event)`
  unfoldable pub hashed : StoredEvent → StoredEvent
  hashed event = record event { content_hash = compute_content_hash backend.hashes event }

  -- The row: its column `occurred_at` holds the second reading of the clock.
  unfoldable pub stored : Tick → StoredEvent → StoredEvent
  stored tick event = record event { occurred_at = backend.isoformat_utc tick.stored_at }

  pub check_contract : StoredEvent → Result EventStoreError (Unit {0})
  check_contract event = elim (backend.contract_error event) [
    | none ↦ ok tt
    | some code ↦ err (contract code)
  ]

  pub result_of : StoredEvent → AppendResult
  result_of row = record {
    event_id = row.event_id;
    aggregate_seq = row.aggregate_seq;
    content_hash = row.content_hash;
    recorded_seq = row.recorded_seq;
    replayed = false;
  }

  -- The INSERT, on the rows that are there by then. The unique indexes are on the idempotency key, the
  -- sequence number of an aggregate, and the id.
  unfoldable pub insert :
      AppendRequest → StoredEvent → Log → Result EventStoreError (AppendResult × Log)
  unfolding result_of request_body_hash
  insert r row log = elim (find_idempotent r log.rows) [
    | some prior ↦ (replay prior (request_body_hash r) >>= λ result. ok (result, log))
    | none ↦
        if any (takes_seq row) log.rows
        then err sequence_conflict
        else if is_some (get row.event_id log.rows)
        then err event_insert_failed
        else ok (result_of row, record log { rows = log.rows ++ row ∷ [] })
  ]

  -- `append` when no Event has the key.
  unfoldable pub append_new :
      AppendRequest → Tick → Log → Result EventStoreError (AppendResult × Log)
  unfolding next_seq sealed check_contract
  append_new r tick log = do
    check_workspace r log
    let last = last_of (stream r.workspace_id r.aggregate_type r.aggregate_id log.rows)
    check_seq r.expected_seq (next_seq last)
    pair ← sealed r r.sensitive
    let event = hashed (unhashed r tick last pair)
    check_contract event
    insert r (stored tick event) (record log { rows = log.rows ++ tick.concurrent })

  unfoldable pub append : AppendRequest → Tick → Log → Result EventStoreError (AppendResult × Log)
  unfolding append_new
  append r tick log = elim (find_idempotent r log.rows) [
    | some prior ↦ (replay prior (request_body_hash r) >>= λ result. ok (result, log))
    | none ↦ append_new r tick log
  ]
