-- ===== src/Work/Inbox/Delivery.antt =====
-- server/work/inbox.py: `enqueue`, `poll` and `open_items`. `now` is what the clock reads; the rows of
-- `locked` are those that other transactions hold, which `SKIP LOCKED` passes over.
use agent_colab.Prelude.Transactions.{◌>>=◌, ◌>>◌, pure, raise, lift, gets}
use agent_colab.Prelude.{
  ltb, leb, if◌then◌else◌, str_eq, is_some, take, keep, sorted, contains, ok, err, guard, ℕ, ◌+◌,
  String, Bool, true, false, not, ◌&&◌, Option, none, some, List, [], ◌∷◌, ◌++◌,
}
use agent_colab.Events.Store.{Json, null, int, str, Payload}
use agent_colab.Work.Inbox.Rows.{
  WorkItem, delivery_receipt, Outside, Db, ◌<>◌, find_item, Step, load, append, set, insert_receipt,
  inbox_changed,
}
use agent_colab.Work.State.{
  WorkItemState, queued, delivered, Action, work_item_kind_invalid, work_item_idempotency_conflict,
  work_item_payload_too_large, integrity_error, is_terminal, transition,
}

-- `kind in KINDS`
pub is_kind : String → Bool
is_kind kind = contains kind (
    "task_assignment" ∷ "subtask_assignment" ∷ "invoke" ∷ "cancel" ∷ "brainstorm_turn"
    ∷ "verification_assignment" ∷ [])

-- The brainstorm's id is given for a `brainstorm_turn`, and for no other kind.
pub is_consistent : String → Option String → Bool
is_consistent kind brainstorm_id =
    if str_eq kind "brainstorm_turn" then is_some brainstorm_id else not (is_some brainstorm_id)

-- The arguments of `enqueue`.
pub record NewWorkItem : Type 0 where
  pub workspace_id : String
  pub kind : String
  pub agent_id : String
  pub payload : Payload
  pub deadline : ℕ
  pub expected_result_schema : String
  pub correlation_id : String
  pub idempotency_key : String
  pub actor_account_id : String
  pub task_id : Option String
  pub brainstorm_id : Option String
  pub secret_handles : List String
  pub work_item_id : Option String

-- `work_item_id or new_work_item_id()`
pub chosen_id : Option String → String → String
chosen_id none fresh = fresh
chosen_id (some given) fresh = if str_eq given "" then fresh else given

unfoldable pub find_key : String → List WorkItem → Option WorkItem
find_key key [] = none
find_key key (item ∷ rest) =
    let found = find_key key rest in if str_eq item.idempotency_key key then some item else found

optional : Option String → Json
optional none = null
optional (some s) = str s

unfoldable pub queued_item : NewWorkItem → String → ℕ → WorkItem
queued_item new work_item_id now = record {
  work_item_id = work_item_id;
  workspace_id = new.workspace_id;
  kind = new.kind;
  agent_id = new.agent_id;
  task_id = new.task_id;
  brainstorm_id = new.brainstorm_id;
  correlation_id = new.correlation_id;
  deadline = new.deadline;
  payload = new.payload;
  secret_handles = new.secret_handles;
  expected_result_schema = new.expected_result_schema;
  idempotency_key = new.idempotency_key;
  status = queued;
  delivery_count = 0;
  delivered_at = none;
  acked_at = none;
  accepted_at = none;
  finished_at = none;
  created_at = now;
  updated_at = now;
}

pub is_deliverable : WorkItemState → Bool
is_deliverable queued = true
is_deliverable delivered = true
is_deliverable _ = false

pub is_queued : WorkItemState → Bool
is_queued queued = true
is_queued _ = false

-- `max(1, min(int(max_items), 100))`; a negative `max_items` gives what 0 gives.
poll_limit : ℕ → ℕ
poll_limit max_items = if ltb max_items 1 then 1 else if ltb 100 max_items then 100 else max_items

pub record PollResult : Type 0 where
  pub items : List WorkItem
  pub delivered_event_ids : List String

module _ (x : Outside) where
  -- The INSERT: a second row of one id breaks the primary key.
  unfoldable pub insert_item : WorkItem → Step x (Unit {0})
  insert_item item db = elim (find_item item.work_item_id db.items) [
    | some _ ↦ err integrity_error
    | none ↦ ok (tt, record db { items = db.items ++ item ∷ [] })
  ]

  -- The item of a key that was used before.
  unfoldable pub reuse : NewWorkItem → WorkItem → Step x WorkItem
  reuse new item =
      if str_eq item.agent_id new.agent_id && str_eq item.kind new.kind
      then pure item
      else raise work_item_idempotency_conflict

  unfoldable pub create : NewWorkItem → String → ℕ → Step x WorkItem
  unfolding insert_item queued_item optional
  create new work_item_id now = do
    lift (guard (leb (x.canonical_size new.payload) 1000000) work_item_payload_too_large)
    insert_item (queued_item new work_item_id now)
    item ← load x work_item_id
    _ ←
        append x item "WORK_ITEM_QUEUED" new.actor_account_id "queue" new.idempotency_key
          (("work_item_id", str work_item_id)
            ∷ ("kind", str new.kind)
            ∷ ("agent_id", str new.agent_id)
            ∷ ("deadline", str (x.isoformat_utc new.deadline))
            ∷ ("task_id", optional new.task_id)
            ∷ ("brainstorm_id", optional new.brainstorm_id)
            ∷ [])
          none
    inbox_changed x new.agent_id
    pure item

  unfoldable pub enqueue : NewWorkItem → String → ℕ → Step x WorkItem
  unfolding is_kind is_consistent chosen_id find_key reuse create
  enqueue new fresh now = do
    lift (guard (is_kind new.kind) work_item_kind_invalid)
    lift (guard (is_consistent new.kind new.brainstorm_id) work_item_kind_invalid)
    existing ← gets (λ db. find_key new.idempotency_key db.items)
    elim existing [
      | some item ↦ reuse new item
      | none ↦ create new (chosen_id new.work_item_id fresh) now
    ]

  -- `ORDER BY created_at, work_item_id`
  unfoldable pub in_order : List WorkItem → List WorkItem
  in_order items =
      sorted (λ item. item.created_at) (sorted (λ item. x.collation item.work_item_id) items)

  pub poll_rows : String → List String → ℕ → Db x → List WorkItem
  unfolding is_deliverable poll_limit in_order
  poll_rows agent_id locked max_items db = take (poll_limit max_items) (
      in_order (
        keep
          (λ item.
            str_eq item.agent_id agent_id
            && is_deliverable item.status
            && not (contains item.work_item_id locked))
          db.items))

  -- The body of the loop on a QUEUED row, with the Event's id.
  unfoldable pub deliver_queued : String → ℕ → WorkItem → Step x (WorkItem × String)
  deliver_queued actor_account_id now item = do
    new_state ← lift (
        if ltb 0 item.delivery_count
        then transition delivered Action.redeliver
        else transition item.status Action.deliver)
    set x item.work_item_id now (λ row. record row {
      status = new_state;
      delivery_count = item.delivery_count + 1;
      delivered_at = some now;
    })
    _ ←
        insert_receipt x item.work_item_id delivery_receipt (some (item.delivery_count + 1)) none
          none none []
    res ←
        append x item "WORK_ITEM_DELIVERED" actor_account_id "deliver"
          (item.work_item_id <> ":" <> x.decimal (item.delivery_count + 1))
          (("work_item_id", str item.work_item_id)
            ∷ ("delivery_no", int (item.delivery_count + 1))
            ∷ [])
          none
    again ← load x item.work_item_id
    pure (again, res.event_id)

  unfoldable pub deliver_rows : String → ℕ → List WorkItem → Step x PollResult
  unfolding is_queued deliver_queued
  deliver_rows actor_account_id now [] = pure (record { items = []; delivered_event_ids = [] })
  deliver_rows actor_account_id now (item ∷ rows) = elim (is_queued item.status) [
    | true ↦ do
      (again, event_id) ← deliver_queued actor_account_id now item
      others ← deliver_rows actor_account_id now rows
      pure (record {
        items = again ∷ others.items;
        delivered_event_ids = event_id ∷ others.delivered_event_ids;
      })
    | false ↦ do
      others ← deliver_rows actor_account_id now rows
      pure
          (record { items = item ∷ others.items; delivered_event_ids = others.delivered_event_ids })
  ]

  unfoldable pub poll : String → String → List String → ℕ → ℕ → Step x PollResult
  unfolding poll_rows deliver_rows
  poll agent_id actor_account_id locked max_items now = do
    rows ← gets (poll_rows agent_id locked max_items)
    deliver_rows actor_account_id now rows

  pub matches : Option String → String → Bool
  matches none s = true
  matches (some t) s = str_eq s t

  unfoldable pub open_items : Option String → Option String → Db x → List WorkItem
  unfolding in_order matches
  open_items agent_id workspace_id db = in_order (
      keep
        (λ item.
          not (is_terminal item.status)
          && matches workspace_id item.workspace_id
          && matches agent_id item.agent_id)
        db.items)
