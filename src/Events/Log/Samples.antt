-- ===== src/Events/Log/Samples.antt =====
-- A log of one Event of a Task, in a workspace with one account, and a hash that reads the instant.
use agent_colab.Prelude.Transactions.{After}
use agent_colab.Events.Log.{
  Backend, Log, Tick, same_aggregate, seq_of, stream, last_of, find_idempotent, takes_seq,
  check_workspace, check_seq, sealed, unhashed, hashed, stored, check_contract, insert, append_new,
  append,
}
use agent_colab.Events.Log.Streams.{IsIntact, stream_of, append-IsIntact}
use agent_colab.Events.Log.Keys.{body_of, append_again}
use agent_colab.Events.Log.Views.{Refines, IsTelling, append-Refines, append_late}
use agent_colab.Prelude.{
  String, ◌==◌, if◌then◌else◌, str_eq, str_eq_iff, ok, err, ◌≡◌, refl, ◌≢◌, true, false, none, some,
  [], ◌∷◌,
}
use agent_colab.Events.Store.{idempotency_conflict, AppendRequest}
use agent_colab.Events.Hashing.{StoredEvent, verify_chain}

abbrev backend : Backend
backend = record {
  hashes = record { of_body = λ body. body.occurred_at; of_ciphertext = λ ciphertext. ciphertext };
  of_request = λ body. body.type;
  encrypt = none;
  contract_error = λ event. none;
  isoformat_utc = λ at. if at == 0 then "12:00:00.000Z" else "12:00:00.001Z";
}

abbrev accepted : AppendRequest
accepted = record {
  workspace_id = "w-1";
  aggregate_type = "task";
  aggregate_id = "t-1";
  type = "TASK_ACCEPTED";
  actor_account_id = "acct-1";
  correlation_id = "c-1";
  idempotency_scope = "task:accept";
  idempotency_key = "k-2";
  payload = [];
  policy_version = "policy-v1";
  channel_id = none;
  task_id = some "t-1";
  caused_by = none;
  expected_seq = some 2;
  sensitive = none;
  schema_version = 1;
}

-- The same key with another body.
abbrev started : AppendRequest
started = record accepted { type = "TASK_STARTED" }

abbrev tick : Tick
tick = record {
  event_id = "evt-2";
  hashed_at = 0;
  stored_at = 0;
  recorded_seq = 2;
  concurrent = [];
}

-- The second reading of the clock is in the next millisecond.
abbrev late_tick : Tick
late_tick = record tick { stored_at = 1 }

abbrev created : StoredEvent
created = record {
  event_id = "evt-1";
  schema_version = 1;
  workspace_id = "w-1";
  aggregate_type = "task";
  aggregate_id = "t-1";
  aggregate_seq = 1;
  channel_id = none;
  task_id = some "t-1";
  type = "TASK_CREATED";
  actor_account_id = "acct-1";
  caused_by = none;
  correlation_id = "c-1";
  idempotency_scope = "task:create";
  idempotency_key = "k-1";
  policy_version = "policy-v1";
  payload = [];
  ciphertext = none;
  key_ref = none;
  previous_hash = none;
  occurred_at = "11:59:00.000Z";
  content_hash = "11:59:00.000Z";
  recorded_seq = 1;
  request_body_hash = "TASK_CREATED";
}

abbrev log : Log
log = record {
  rows = created ∷ [];
  accounts = λ account. some "w-1";
  channels = λ channel. none;
  tasks = λ task. some "w-1";
}

abbrev empty_log : Log
empty_log = record log { rows = [] }

abbrev first_request : AppendRequest
first_request = record accepted { expected_seq = some 1 }

log_verifies : verify_chain backend.hashes (stream_of accepted log.rows) ≡ []
unfolding verify_chain stream seq_of same_aggregate
log_verifies = refl

empty-IsIntact : IsIntact backend.hashes []
unfolding verify_chain stream
empty-IsIntact w t a = refl

append-IsIntact_example :
    After
      (λ _ log'. IsIntact backend.hashes log'.rows)
      (append backend first_request tick empty_log)
append-IsIntact_example =
    append-IsIntact backend first_request tick empty_log refl refl empty-IsIntact empty-IsIntact

append-Refines_example : After (Refines accepted tick log) (append backend accepted tick log)
append-Refines_example = append-Refines backend accepted tick log refl log_verifies

-- The types of the two requests are other texts, and so are their hashes.
types_differ : ◌≢◌ {A = String} "TASK_ACCEPTED" "TASK_STARTED"
types_differ h =
    let own : str_eq "TASK_ACCEPTED" "TASK_STARTED" ≡ true =
      (str_eq_iff "TASK_ACCEPTED" "TASK_STARTED").1 h in
    cc

append_again_example :
    After
      (λ res log'.
        (body_of accepted ≡ body_of started
          → append backend started late_tick log' ≡ ok (record res { replayed = true }, log'))
        × (body_of accepted ≢ body_of started
            → append backend started late_tick log' ≡ err idempotency_conflict))
      (append backend accepted tick log)
append_again_example =
    append_again backend accepted tick started late_tick log (refl, refl, refl, refl)
      (λ h. absurd (types_differ h))

telling : IsTelling backend.hashes
telling b c h = h

texts_differ : backend.isoformat_utc 0 ≢ backend.isoformat_utc 1
texts_differ h =
    let own : str_eq "12:00:00.000Z" "12:00:00.001Z" ≡ true =
      (str_eq_iff "12:00:00.000Z" "12:00:00.001Z").1 h in
    cc

append_late_example :
    After
      (λ res log'.
        res.replayed ≡ false → verify_chain backend.hashes (stream_of accepted log'.rows) ≢ [])
      (append backend accepted late_tick log)
append_late_example =
    append_late backend accepted late_tick log telling texts_differ refl log_verifies

-- The Event is stored, with the number 2.
seq_stored :
    (elim (append backend accepted tick log) [ ok (res, _) ↦ res.aggregate_seq | err _ ↦ 0 ]) ≡ 2
unfolding append append_new sealed check_contract insert find_idempotent check_workspace check_seq
    last_of stream takes_seq stored hashed unhashed
seq_stored = refl
