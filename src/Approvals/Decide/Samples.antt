-- ===== src/Approvals/Decide/Samples.antt =====
-- A grant that two accounts have to approve, one of which has.
use agent_colab.Prelude.Transactions.{After}
use agent_colab.Prelude.{ok, ℕ, ◌+◌, String, ◌≡◌, refl, true, false, none, some, List, [], ◌∷◌}
use agent_colab.Events.Store.{EventStore}
use agent_colab.Approvals.Decide.{approve, File, Request, decide_approval}
use agent_colab.Approvals.Model.{pending, Grant}
use agent_colab.Approvals.Eligibility.{Principal, Policy}
use agent_colab.Approvals.Decide.Outcome.{Taken, decide_approval-Taken}
use agent_colab.Approvals.Decide.Quorum.{
  IsSound, Call, decide_call, cancel_call, after_calls, after_calls-IsSound,
}

abbrev numbered : EventStore
numbered = record {
  State = ℕ;
  append = λ request n. ok (
    record {
      event_id = request.idempotency_key;
      aggregate_seq = n + 1;
      content_hash = "h";
      recorded_seq = n + 1;
      replayed = false;
    },
    n + 1,
  );
  last_event_id = λ w a i n. some "evt-1";
}

abbrev human_account : String → Principal
human_account id = record {
  account_id = id;
  account_uuid = id;
  account_type = "human";
  status = "ACTIVE";
}

abbrev policy : Policy
policy = record {
  principal = λ id. some (human_account id);
  alias_graph = λ workspace. ("acct-9", "acct-1") ∷ [];
  authorize = λ id grant. record { allowed = true; code = "OK"; matched_roles = "approver" ∷ [] };
  effective_roles = λ approver now. record { role_id = "approver"; max_risk = "CRITICAL" } ∷ [];
  human_only = λ risk. true;
}

abbrev waiting_grant : Grant
waiting_grant = record {
  approval_id = "ap-1";
  workspace_uuid = "w-1";
  subject = record { subject_type = "task"; subject_id = "t-1" };
  action = "deploy";
  risk = "CRITICAL";
  status = pending;
  requested_by = "acct-1";
  implementing_agent_account = none;
  channel_uuid = none;
  valid_from = 100;
  expires_at = 900;
  max_uses = some 2;
  quorum_required = 2;
  aggregate_seq = 1;
  requires_human_approval = false;
}

abbrev waiting_file : File numbered
waiting_file = record {
  grant = some waiting_grant;
  decisions =
      record {
        decided_by = "acct-2";
        decision = approve;
        credential_fingerprint = "fp-2";
        reauth_verified = true;
        event_id = "evt-1";
      }
      ∷ [];
  used_count = 0;
  projected = [];
  events = 1;
}

abbrev request_of : String → Request numbered
request_of id = record {
  approver_account_id = id;
  credential_fingerprint = "fp";
  reauth_verified = true;
  correlation_id = "c-1";
  idempotency_key = "k-1";
  reason_code = "REJECTED_BY_APPROVER";
}

decide_approval-Taken_example :
    After
      (Taken numbered policy "APPROVE" (request_of "acct-3") 500 waiting_file)
      (decide_approval numbered policy "APPROVE" (request_of "acct-3") 500 waiting_file)
decide_approval-Taken_example =
    decide_approval-Taken numbered policy "APPROVE" (request_of "acct-3") 500 waiting_file

waiting-IsSound : IsSound numbered waiting_file
waiting-IsSound grant e = let same : waiting_grant ≡ grant = cc in ((λ p. (refl, tt)), (λ p. cc))

-- The requester tries, then a third account, and the requester cancels.
abbrev calls : List (Call numbered)
calls =
    decide_call policy "APPROVE" (request_of "acct-1") 500
    ∷ decide_call policy "APPROVE" (request_of "acct-3") 600
    ∷ cancel_call (λ id. false) "acct-1" "c-2" "k-2" "CANCELLED_BY_REQUESTER" 700
    ∷ []

after_calls-IsSound_example : IsSound numbered (after_calls numbered calls waiting_file)
after_calls-IsSound_example = after_calls-IsSound numbered calls waiting_file waiting-IsSound
