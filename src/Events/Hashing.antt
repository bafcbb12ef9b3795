-- ===== src/Events/Hashing.antt =====
-- server/events/hashing.py: the content hash of an Event and the hash chain of an aggregate.
use agent_colab.Prelude.{
  ◌==◌, if◌then◌else◌, str_eq, opt_eq, ℕ, ◌+◌, String, Bool, Option, none, some, List, [], ◌∷◌,
}
use agent_colab.Events.Store.{Payload}

-- A row of `events`, as `row_to_event` gives it; `occurred_at` is the text of the instant.
pub record StoredEvent : Type 0 where
  pub event_id : String
  pub schema_version : ℕ
  pub workspace_id : String
  pub aggregate_type : String
  pub aggregate_id : String
  pub aggregate_seq : ℕ
  pub channel_id : Option String
  pub task_id : Option String
  pub type : String
  pub actor_account_id : String
  pub caused_by : Option String
  pub correlation_id : String
  pub idempotency_scope : String
  pub idempotency_key : String
  pub policy_version : String
  pub payload : Payload
  pub ciphertext : Option String
  pub key_ref : Option String
  pub previous_hash : Option String
  pub occurred_at : String
  pub content_hash : String
  pub recorded_seq : ℕ
  pub request_body_hash : String

-- What is hashed: `HASHED_METADATA_FIELDS`, the payload, the digest of the ciphertext and the previous hash.
pub record HashBody : Type 0 where
  pub event_id : String
  pub schema_version : ℕ
  pub workspace_id : String
  pub aggregate_type : String
  pub aggregate_id : String
  pub aggregate_seq : ℕ
  pub channel_id : Option String
  pub task_id : Option String
  pub type : String
  pub actor_account_id : String
  pub caused_by : Option String
  pub correlation_id : String
  pub idempotency_scope : String
  pub idempotency_key : String
  pub policy_version : String
  pub occurred_at : String
  pub sensitive_payload_key_ref : Option String
  pub payload : Payload
  pub sensitive_payload_sha256 : Option String
  pub previous_hash : Option String

-- A problem of a chain, with the id of its Event.
pub data Problem : Type 0 where
  seq_differs : String → ℕ → ℕ → Problem
  previous_differs content_differs : String → Problem

-- The hash functions: SHA-256 of the canonical JSON of a body, and of the bytes of a ciphertext.
pub record Hashes : Type 0 where
  pub of_body : HashBody → String
  pub of_ciphertext : String → String

-- `if not test: problems.append(problem)`
unfoldable pub report : Bool → Problem → List Problem → List Problem
report test problem problems = if test then problems else problem ∷ problems

module _ (hashes : Hashes) where
  ciphertext_digest : Option String → Option String
  ciphertext_digest none = none
  ciphertext_digest (some ciphertext) = some (hashes.of_ciphertext ciphertext)

  unfoldable pub hash_body : StoredEvent → HashBody
  unfolding ciphertext_digest
  hash_body event = record {
    event_id = event.event_id;
    schema_version = event.schema_version;
    workspace_id = event.workspace_id;
    aggregate_type = event.aggregate_type;
    aggregate_id = event.aggregate_id;
    aggregate_seq = event.aggregate_seq;
    channel_id = event.channel_id;
    task_id = event.task_id;
    type = event.type;
    actor_account_id = event.actor_account_id;
    caused_by = event.caused_by;
    correlation_id = event.correlation_id;
    idempotency_scope = event.idempotency_scope;
    idempotency_key = event.idempotency_key;
    policy_version = event.policy_version;
    occurred_at = event.occurred_at;
    sensitive_payload_key_ref = event.key_ref;
    payload = event.payload;
    sensitive_payload_sha256 = ciphertext_digest event.ciphertext;
    previous_hash = event.previous_hash;
  }

  unfoldable pub compute_content_hash : StoredEvent → String
  unfolding hash_body
  compute_content_hash event = hashes.of_body (hash_body event)

  unfoldable pub verify_content_hash : StoredEvent → Bool
  unfolding compute_content_hash
  verify_content_hash event = str_eq event.content_hash (compute_content_hash event)

  -- The loop, from a sequence number and a previous hash.
  unfoldable pub verify_from : ℕ → Option String → List StoredEvent → List Problem
  unfolding verify_content_hash report
  verify_from seq previous [] = []
  verify_from seq previous (event ∷ events) =
      report (event.aggregate_seq == seq) (seq_differs event.event_id event.aggregate_seq seq) (
        report (opt_eq event.previous_hash previous) (previous_differs event.event_id) (
          report (verify_content_hash event) (content_differs event.event_id)
            (verify_from (seq + 1) (some event.content_hash) events)))

  unfoldable pub verify_chain : List StoredEvent → List Problem
  unfolding verify_from
  verify_chain events = verify_from 1 none events
