-- ===== src/Work/Inbox/Rows.antt =====
-- server/work/inbox.py and receipts.py: the rows of `work_items` and `work_item_receipts`, and the
-- helpers that read and write them. An operation is a step of the caller's transaction.
use Prim.Native.String.{◌++◌ as concat}
use agent_colab.Prelude.Transactions.{Exec, ◌>>=◌, pure, raise}
use agent_colab.Prelude.{
  if◌then◌else◌, str_eq, Result, ok, err, ℕ, suc, String, Bool, false, Option, none, some, List, [],
  ◌∷◌, ◌++◌,
}
use agent_colab.Events.Store.{Payload, AppendResult, EventStore}
use agent_colab.Work.State.{
  WorkItemState, WorkItemError, work_item_not_found, work_item_not_owner, store_error,
}

pub record WorkItem : Type 0 where
  pub work_item_id : String
  pub workspace_id : String
  pub kind : String
  pub agent_id : String
  pub task_id : Option String
  pub brainstorm_id : Option String
  pub correlation_id : String
  pub deadline : ℕ
  pub payload : Payload
  pub secret_handles : List String
  pub expected_result_schema : String
  pub idempotency_key : String
  pub status : WorkItemState
  pub delivery_count : ℕ
  pub delivered_at : Option ℕ
  pub acked_at : Option ℕ
  pub accepted_at : Option ℕ
  pub finished_at : Option ℕ
  pub created_at : ℕ
  pub updated_at : ℕ

-- `RECEIPT_KINDS`
pub data ReceiptKind : Type 0 where
  delivery_receipt ack_receipt accept_receipt reject_receipt : ReceiptKind
  result_receipt duplicate_receipt cancel_ack_receipt : ReceiptKind

pub record Receipt : Type 0 where
  pub receipt_id : ℕ
  pub work_item_id : String
  pub receipt_kind : ReceiptKind
  pub delivery_no : Option ℕ
  pub result_ref : Option String
  pub result_sha256 : Option String
  pub usage : Option String
  pub detail : Payload

-- The arguments of `append_audit` that the inbox chooses.
pub record Audit : Type 0 where
  pub action : String
  pub target_id : String
  pub error_code : Option String
  pub actor_label : String
  pub actor_account_id : String
  pub correlation_id : String
  pub workspace_id : String
  pub metadata : Payload

-- The body of a result: the keys that the code reads, and the others.
pub record WorkResult : Type 0 where
  pub work_item_id : String
  pub status : String
  pub error_code : Option String
  pub usage : Option String
  pub display_identity : Option String
  pub others : Payload

-- The code outside these files: the Event store, the length of `canonical_json`, the SHA-256 of a
-- result, `isoformat_utc`, the decimal text of a number, the adapter schema (`none` when the result
-- validates, else the error's code), and the collation in which the database orders ids.
pub record Outside : Type 1 where
  pub store : EventStore
  pub canonical_size : Payload → ℕ
  pub digest : WorkResult → String
  pub isoformat_utc : ℕ → String
  pub decimal : ℕ → String
  pub schema_error_of : WorkResult → Option String
  pub collation : String → ℕ

-- The tables, the Event store, and the agents that the inbox listeners were called with.
pub record Db (x : Outside) : Type 0 where
  pub items : List WorkItem
  pub receipts : List Receipt
  pub next_receipt_id : ℕ
  pub audits : List Audit
  pub events : x.store.State
  pub notified : List String

infixr 6 ◌<>◌
abbrev pub ◌<>◌ : String → String → String
s <> t = concat s t

-- The row of an id: it is the primary key.
unfoldable pub find_item : String → List WorkItem → Option WorkItem
find_item work_item_id [] = none
find_item work_item_id (item ∷ rest) =
    let found = find_item work_item_id rest in
    if str_eq item.work_item_id work_item_id then some item else found

unfoldable pub set_item : String → (WorkItem → WorkItem) → List WorkItem → List WorkItem
set_item work_item_id f [] = []
set_item work_item_id f (item ∷ rest) =
    let others = item ∷ set_item work_item_id f rest in
    if str_eq item.work_item_id work_item_id then f item ∷ rest else others

unfoldable pub is_result_of : String → Receipt → Bool
is_result_of work_item_id receipt = elim receipt.receipt_kind [
  | result_receipt ↦ str_eq receipt.work_item_id work_item_id
  | _ ↦ false
]

unfoldable pub find_result : String → List Receipt → Option Receipt
unfolding is_result_of
find_result work_item_id [] = none
find_result work_item_id (receipt ∷ rest) =
    let found = find_result work_item_id rest in
    if is_result_of work_item_id receipt then some receipt else found

module _ (x : Outside) where
  abbrev pub Step : Type 0 → Type 0
  Step A = Exec (Db x) WorkItemError A

  -- `load`; the row lock is held by the transaction.
  unfoldable pub load : String → Step WorkItem
  unfolding find_item
  load work_item_id db = elim (find_item work_item_id db.items) [
    | some item ↦ ok (item, db)
    | none ↦ err work_item_not_found
  ]

  -- `_require_owner`
  unfoldable pub require_owner : WorkItem → String → Step (Unit {0})
  require_owner item agent_id =
      if str_eq item.agent_id agent_id then pure tt else raise work_item_not_owner

  -- `_append`
  unfoldable pub append :
      WorkItem → String → String → String → String → Payload → Option String → Step AppendResult
  append item event_type actor_account_id operation key payload caused_by db =
      elim (x.store.append
        (record {
          workspace_id = item.workspace_id;
          aggregate_type = "work_item";
          aggregate_id = item.work_item_id;
          type = event_type;
          actor_account_id = actor_account_id;
          correlation_id = item.correlation_id;
          idempotency_scope = "work_item:" <> operation;
          idempotency_key = key;
          payload = payload;
          policy_version = "policy-v1";
          channel_id = none;
          task_id = item.task_id;
          caused_by = caused_by;
          expected_seq = none;
          sensitive = none;
          schema_version = 1;
        })
        db.events) [
          | ok (appended, events) ↦ ok (appended, record db { events = events })
          | err e ↦ err (store_error e)
        ]

  -- `_set`: the columns that `f` changes, and `updated_at`.
  unfoldable pub set : String → ℕ → (WorkItem → WorkItem) → Step (Unit {0})
  unfolding set_item
  set work_item_id now f db = ok (
    tt,
    record db {
      items = set_item work_item_id (λ item. record (f item) { updated_at = now }) db.items;
    },
  )

  -- `result_receipt_of`
  unfoldable pub result_receipt_of : String → Db x → Option Receipt
  unfolding find_result
  result_receipt_of work_item_id db = find_result work_item_id db.receipts

  -- The insertion of a receipt under the next id.
  unfoldable pub insert_receipt :
      String
      → ReceiptKind
      → Option ℕ
      → Option String
      → Option String
      → Option String
      → Payload
      → Step Receipt
  insert_receipt work_item_id kind delivery_no result_ref result_sha256 usage detail db =
      inserted (record {
        receipt_id = db.next_receipt_id;
        work_item_id = work_item_id;
        receipt_kind = kind;
        delivery_no = delivery_no;
        result_ref = result_ref;
        result_sha256 = result_sha256;
        usage = usage;
        detail = detail;
      })
    where
      inserted : Receipt → Result WorkItemError (Receipt × Db x)
      inserted receipt = ok (
        receipt,
        record db {
          receipts = db.receipts ++ receipt ∷ [];
          next_receipt_id = suc db.next_receipt_id;
        },
      )

  -- `record_receipt` of a result: the unique index admits one per work item, and `none` is its
  -- `DuplicateResultError`, which leaves the row out and the id used.
  unfoldable pub record_result :
      String → Option ℕ → String → String → Option String → Payload → Step (Option Receipt)
  unfolding insert_receipt result_receipt_of
  record_result work_item_id delivery_no result_ref result_sha256 usage detail db =
      elim (result_receipt_of work_item_id db) [
        | some _ ↦ ok (none, record db { next_receipt_id = suc db.next_receipt_id })
        | none ↦
            (insert_receipt work_item_id result_receipt delivery_no (some result_ref)
                  (some result_sha256) usage detail
                >>= λ receipt. pure (some receipt))
              db
      ]

  unfoldable pub append_audit : Audit → Step (Unit {0})
  append_audit audit db = ok (tt, record db { audits = db.audits ++ audit ∷ [] })

  unfoldable pub inbox_changed : String → Step (Unit {0})
  inbox_changed agent_id db = ok (tt, record db { notified = db.notified ++ agent_id ∷ [] })
