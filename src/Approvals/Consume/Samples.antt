-- ===== src/Approvals/Consume/Samples.antt =====
-- A grant of two uses in server/approvals, with a store that numbers its Events.
use agent_colab.Prelude.Transactions.{After}
use agent_colab.Prelude.{length, ok, ℕ, ◌+◌, String, ◌≡◌, true, false, none, some, [], arith}
use agent_colab.Events.Store.{EventStore}
use agent_colab.Approvals.Consume.{Ledger, consume_approval}
use agent_colab.Approvals.Consume.Uses.{
  consume_approval-IsBounded, consume_approval_replays, IsBounded,
}
use agent_colab.Approvals.Model.{approved, Subject}

abbrev numbered : EventStore
numbered = record {
  State = ℕ;
  append = λ request n. ok (
    record {
      event_id = request.idempotency_key;
      aggregate_seq = n + 1;
      content_hash = "h";
      recorded_seq = n + 1;
      replayed = false;
    },
    n + 1,
  );
  last_event_id = λ w a i n. none;
}

abbrev deploy : Subject
deploy = record { subject_type = "task"; subject_id = "t-1" }

abbrev unused : Ledger numbered
unused = record {
  grant = record {
    approval_id = "ap-1";
    workspace_uuid = "w-1";
    subject = deploy;
    action = "deploy";
    risk = "HIGH";
    status = approved;
    requested_by = "acct-1";
    implementing_agent_account = none;
    channel_uuid = none;
    valid_from = 100;
    expires_at = 900;
    max_uses = some 2;
    quorum_required = 1;
    aggregate_seq = 2;
    requires_human_approval = false;
  };
  consumptions = [];
  projected = [];
  events = 2;
}

unused-IsBounded : IsBounded unused
unused-IsBounded = record { uses_fit = λ m e. omega arith; consumed_full = λ h. cc }

consume_approval-IsBounded_example :
    After
      (λ result ledger'. IsBounded ledger' × (result.used_count ≡ length ledger'.consumptions))
      (consume_approval numbered "run-1" "acct-2" deploy "c-1" 500 unused)
consume_approval-IsBounded_example =
    consume_approval-IsBounded numbered "run-1" "acct-2" deploy "c-1" 500 unused unused-IsBounded

consume_approval_replays_example :
    After
      (λ result ledger'.
        (by' : String) (subject' : Subject) (correlation_id' : String) (now' : ℕ)
        → consume_approval numbered "run-1" by' subject' correlation_id' now' ledger'
          ≡ ok (record result { replayed = true }, ledger'))
      (consume_approval numbered "run-1" "acct-2" deploy "c-1" 500 unused)
consume_approval_replays_example =
    consume_approval_replays numbered "run-1" "acct-2" deploy "c-1" 500 unused
