-- ===== src/Work/Inbox/Results.antt =====
-- server/work/inbox.py: `result` and `_duplicate`. `acked_now` and `now` are what the clock reads in the
-- implied `ack` and after it.
use agent_colab.Work.Inbox.Steps.{ack}
use agent_colab.Prelude.Transactions.{◌>>=◌, ◌>>◌, pure, raise, lift, gets}
use agent_colab.Prelude.{
  if◌then◌else◌, str_eq, opt_eq, is_some, or_else, guard, ℕ, String, Bool, true, false, ◌||◌,
  Option, none, some, [], ◌∷◌,
}
use agent_colab.Events.Store.{Json, null, int, str}
use agent_colab.Work.Inbox.Rows.{
  WorkItem, duplicate_receipt, Receipt, WorkResult, Outside, ◌<>◌, Step, load, require_owner,
  append, set, result_receipt_of, insert_receipt, record_result, append_audit,
}
use agent_colab.Work.State.{
  WorkItemState, delivered, Action, work_result_schema_invalid, schema_error, is_terminal,
  transition, ReceiptCode, result_accepted, duplicate_result_ignored,
}

pub record ResultOutcome : Type 0 where
  pub code : ReceiptCode
  pub work_item_id : String
  pub receipt_id : ℕ
  pub result_ref : String
  pub event_id : Option String
  pub item : WorkItem

pub is_delivered : WorkItemState → Bool
is_delivered delivered = true
is_delivered _ = false

-- `existing.result_ref if existing and existing.result_ref else ""`
first_ref_of : Option Receipt → String
first_ref_of none = ""
first_ref_of (some receipt) = or_else receipt.result_ref ""

same_body : Option Receipt → String → Json
same_body none sha = int 0
same_body (some receipt) sha = if opt_eq receipt.result_sha256 (some sha) then int 1 else int 0

-- `payload.get(key)` in a detail.
pub optional : Option String → Json
optional none = null
optional (some s) = str s

module _ (x : Outside) where
  -- `result_ref_for`
  unfoldable pub result_ref_for : String → WorkResult → String × String
  result_ref_for work_item_id body =
      ("colab://work/" <> work_item_id <> "/result/" <> x.digest body, x.digest body)

  -- `_duplicate`; in a detail a Boolean is 0 or 1.
  unfoldable pub duplicate :
      WorkItem → Option Receipt → String → String → String → String → Step x ResultOutcome
  unfolding first_ref_of same_body
  duplicate item existing ref sha actor_account_id agent_id = do
    dup ←
        insert_receipt x item.work_item_id duplicate_receipt (some item.delivery_count) (some ref)
          (some sha) none
          (("first_result_ref", str (first_ref_of existing))
            ∷ ("same_body", same_body existing sha)
            ∷ [])
    append_audit x (record {
      action = "work.duplicate_result_ignored";
      target_id = item.work_item_id;
      error_code = some "DUPLICATE_RESULT_IGNORED";
      actor_label = agent_id;
      actor_account_id = actor_account_id;
      correlation_id = item.correlation_id;
      workspace_id = item.workspace_id;
      metadata =
          ("first_result_ref", str (first_ref_of existing)) ∷ ("ignored_result_ref", str ref) ∷ [];
    })
    again ← load x item.work_item_id
    pure (record {
      code = duplicate_result_ignored;
      work_item_id = item.work_item_id;
      receipt_id = elim existing [ some receipt ↦ receipt.receipt_id | none ↦ dup.receipt_id ];
      result_ref = if str_eq (first_ref_of existing) "" then ref else first_ref_of existing;
      event_id = none;
      item = again;
    })

  unfoldable pub audit_display_identity :
      WorkItem → WorkResult → String → String → Step x (Unit {0})
  audit_display_identity item body actor_account_id agent_id =
      if is_some body.display_identity
      then append_audit x (record {
        action = "work.display_identity_ignored";
        target_id = item.work_item_id;
        error_code = none;
        actor_label = agent_id;
        actor_account_id = actor_account_id;
        correlation_id = item.correlation_id;
        workspace_id = item.workspace_id;
        metadata =
            ("reason", str "development plan §7A.4: display identity is set by the server") ∷ [];
      })
      else pure tt

  -- The statements after the insertion of the receipt.
  unfoldable pub accepted_result :
      WorkItem
      → WorkItemState
      → Receipt
      → WorkResult
      → String
      → String
      → String
      → ℕ
      → Step x ResultOutcome
  unfolding audit_display_identity
  accepted_result item new_state receipt body ref actor_account_id agent_id now = do
    set x item.work_item_id now (λ row. record row { status = new_state; finished_at = some now })
    res ←
        append x item "WORK_ITEM_RESULT_RECEIVED" actor_account_id "result" item.work_item_id
          (("work_item_id", str item.work_item_id)
            ∷ ("result_ref", str ref)
            ∷ ("status", str body.status)
            ∷ [])
          none
    audit_display_identity item body actor_account_id agent_id
    again ← load x item.work_item_id
    pure (record {
      code = result_accepted;
      work_item_id = item.work_item_id;
      receipt_id = receipt.receipt_id;
      result_ref = ref;
      event_id = some res.event_id;
      item = again;
    })

  -- The acknowledgement that a result of a DELIVERED item implies.
  unfoldable pub implied_ack : WorkItem → String → String → String → ℕ → Step x WorkItem
  unfolding is_delivered
  implied_ack delivered_item work_item_id agent_id actor_account_id acked_now =
      elim (is_delivered delivered_item.status) [
        | true ↦ do _ ← ack x work_item_id agent_id actor_account_id acked_now; load x work_item_id
        | false ↦ pure delivered_item
      ]

  -- The statements after it.
  unfoldable pub settle_result :
      WorkResult → String → String → String → ℕ → WorkItem → Step x ResultOutcome
  unfolding accepted_result optional result_ref_for
  settle_result body work_item_id agent_id actor_account_id now item = do
    new_state ← lift (transition item.status Action.result)
    recorded ←
        record_result x work_item_id (some item.delivery_count) (result_ref_for work_item_id body).0
          (result_ref_for work_item_id body).1 body.usage
          (("status", str body.status) ∷ ("error_code", optional body.error_code) ∷ [])
    elim recorded [
      | none ↦ do
        existing ← gets (result_receipt_of x work_item_id)
        duplicate item existing (result_ref_for work_item_id body).0
            (result_ref_for work_item_id body).1 actor_account_id agent_id
      | some receipt ↦
          accepted_result item new_state receipt body (result_ref_for work_item_id body).0
            actor_account_id agent_id now
    ]

  unfoldable pub check_schema : WorkResult → Step x (Unit {0})
  check_schema body = elim (x.schema_error_of body) [
    | some code ↦ raise (schema_error code)
    | none ↦ pure tt
  ]

  unfoldable pub result : String → String → WorkResult → String → ℕ → ℕ → Step x ResultOutcome
  unfolding check_schema duplicate implied_ack settle_result result_ref_for
  result work_item_id agent_id body actor_account_id acked_now now = do
    check_schema body
    lift (guard (str_eq body.work_item_id work_item_id) work_result_schema_invalid)
    item ← load x work_item_id
    require_owner x item agent_id
    existing ← gets (result_receipt_of x work_item_id)
    elim (is_some existing || is_terminal item.status) [
      | true ↦
          duplicate item existing (result_ref_for work_item_id body).0
            (result_ref_for work_item_id body).1 actor_account_id agent_id
      | false ↦
          (implied_ack item work_item_id agent_id actor_account_id acked_now
            >>= settle_result body work_item_id agent_id actor_account_id now)
    ]
