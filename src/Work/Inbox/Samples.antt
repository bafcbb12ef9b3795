-- ===== src/Work/Inbox/Samples.antt =====
-- The inbox of server/work on concrete rows, with a store that numbers its Events.
use agent_colab.Work.Inbox.Results.{
  audit_display_identity, accepted_result, implied_ack, settle_result, check_schema, result,
}
use agent_colab.Work.Inbox.Steps.{ack}
use agent_colab.Work.Inbox.Sweep.{sweep}
use agent_colab.Work.Inbox.Delivery.{poll}
use agent_colab.Work.Inbox.Guarantees.{
  Command, ack_, cancel_, sweep_, run_all, run_all-frozen, run_all-timed,
}
use agent_colab.Work.Inbox.Timely.{sweep_decides}
use agent_colab.Work.Inbox.Polls.{poll_timed}
use agent_colab.Work.Inbox.ExactlyOnce.{result_ignored}
use agent_colab.Work.Inbox.FirstResult.{result_recorded}
use agent_colab.Prelude.Transactions.{After, Succeeds}
use agent_colab.Prelude.{
  is_some, length, All, ok, ℕ, suc, ◌+◌, String, ◌≡◌, refl, true, false, none, some, List, [], ◌∷◌,
}
use agent_colab.Events.Store.{EventStore}
use agent_colab.Work.State.Timing.{IsTimed}
use agent_colab.Work.Inbox.Rows.{
  WorkItem, result_receipt, Receipt, WorkResult, Outside, Db, find_item, set_item, is_result_of,
  find_result, load, require_owner, append, set, result_receipt_of, insert_receipt, record_result,
}
use agent_colab.Work.Inbox.Moves.{IsTimedItem}
use agent_colab.Work.State.{
  WorkItemState, queued, delivered, result_received, is_terminal, transitions, transition,
  result_accepted, duplicate_result_ignored,
}

abbrev numbered : EventStore
numbered = record {
  State = ℕ;
  append = λ request n. ok (
    record {
      event_id = request.idempotency_key;
      aggregate_seq = n + 1;
      content_hash = "h";
      recorded_seq = n + 1;
      replayed = false;
    },
    n + 1,
  );
  last_event_id = λ w a i n. none;
}

abbrev outside : Outside
outside = record {
  store = numbered;
  canonical_size = λ payload. length payload;
  digest = λ body. "d";
  isoformat_utc = λ t. "2026-01-01T00:00:00Z";
  decimal = λ n. "1";
  schema_error_of = λ body. none;
  collation = λ id. 0;
}

abbrev item_of : String → WorkItemState → WorkItem
item_of work_item_id status = record {
  work_item_id = work_item_id;
  workspace_id = "w-1";
  kind = "invoke";
  agent_id = "agent-1";
  task_id = none;
  brainstorm_id = none;
  correlation_id = "c-1";
  deadline = 900000000;
  payload = [];
  secret_handles = [];
  expected_result_schema = "s";
  idempotency_key = work_item_id;
  status = status;
  delivery_count = 1;
  delivered_at = some 100000000;
  acked_at = some 110000000;
  accepted_at = none;
  finished_at = none;
  created_at = 90000000;
  updated_at = 110000000;
}

abbrev first_receipt : Receipt
first_receipt = record {
  receipt_id = 1;
  work_item_id = "wi-1";
  receipt_kind = result_receipt;
  delivery_no = some 1;
  result_ref = some "colab://work/wi-1/result/d";
  result_sha256 = some "d";
  usage = none;
  detail = [];
}

abbrev db : Db outside
db = record {
  items = item_of "wi-1" result_received ∷ item_of "wi-2" delivered ∷ [];
  receipts = first_receipt ∷ [];
  next_receipt_id = 2;
  audits = [];
  events = 5;
  notified = [];
}

abbrev body : WorkResult
body = record {
  work_item_id = "wi-1";
  status = "SUCCEEDED";
  error_code = none;
  usage = none;
  display_identity = none;
  others = [];
}

abbrev commands : List Command
commands =
    cancel_ "wi-1" "OTHER" "acct-1" 120000000
    ∷ ack_ "wi-2" "agent-1" "acct-1" 120000000
    ∷ sweep_ "acct-1" 950000000 (λ id. 0) none none
    ∷ []

result_ignored_example :
    Succeeds
      (λ out db'.
        (out.code ≡ duplicate_result_ignored)
        × (out.receipt_id ≡ 1)
        × (out.item ≡ item_of "wi-1" result_received)
        × (db'.items ≡ db.items)
        × (db'.events ≡ db.events)
        × (result_receipt_of outside "wi-1" db' ≡ some first_receipt)
        × (length db'.audits ≡ suc (length db.audits)))
      (result outside "wi-1" "agent-1" body "acct-1" 120000000 120000000 db)
unfolding find_item result_receipt_of find_result
result_ignored_example =
    result_ignored outside "wi-1" "agent-1" body "acct-1" 120000000 120000000 db
      (item_of "wi-1" result_received) first_receipt refl refl refl refl refl

run_all-frozen_example :
    find_item "wi-1" (run_all outside commands db).items ≡ some (item_of "wi-1" result_received)
unfolding find_item is_terminal
run_all-frozen_example =
    run_all-frozen outside commands db "wi-1" (item_of "wi-1" result_received) refl refl

run_all-timed_example : All IsTimedItem (run_all outside commands db).items
unfolding IsTimedItem IsTimed
run_all-timed_example = run_all-timed outside commands db (tt, (refl, tt))

abbrev timed_rows : Db outside
timed_rows = record db { items = item_of "wi-1" queued ∷ item_of "wi-2" delivered ∷ [] }

sweep_decides_example :
    After
      (λ report db'. report.invalid ≡ [])
      (sweep outside "acct-1" 950000000 (λ id. 0) none none db)
unfolding IsTimedItem IsTimed
sweep_decides_example =
    sweep_decides outside "acct-1" 950000000 (λ id. 0) none none db (tt, (refl, tt))

poll_timed_example :
    After
      (λ polled db'. All IsTimedItem db'.items)
      (poll outside "agent-1" "acct-1" [] 10 120000000 timed_rows)
unfolding IsTimedItem IsTimed
poll_timed_example =
    poll_timed outside "acct-1" 120000000 "agent-1" [] 10 timed_rows (tt, (refl, tt))

abbrev body_two : WorkResult
body_two = record body { work_item_id = "wi-2" }

result_recorded_example :
    After
      (λ out db'.
        out.code ≡ result_accepted → is_some (result_receipt_of outside "wi-2" db') ≡ true)
      (result outside "wi-2" "agent-1" body_two "acct-1" 120000000 130000000 db)
result_recorded_example =
    result_recorded outside "wi-2" "agent-1" body_two "acct-1" 120000000 130000000 db

-- The result of `wi-2` is accepted.
accepts_two :
    Succeeds
      (λ out db'. out.code ≡ result_accepted)
      (result outside "wi-2" "agent-1" body_two "acct-1" 120000000 130000000 db)
unfolding result check_schema load require_owner find_item result_receipt_of find_result implied_ack
    settle_result ack transition transitions is_terminal record_result insert_receipt
    accepted_result append set set_item audit_display_identity is_result_of
accepts_two = refl
