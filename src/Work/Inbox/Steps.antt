-- ===== src/Work/Inbox/Steps.antt =====
-- server/work/inbox.py: `ack`, `start`, `reject`, `cancel`, `expire` and `requeue_for_redelivery`.
-- `now` is what the clock reads.
use agent_colab.Prelude.Transactions.{◌>>=◌, ◌>>◌, pure, lift}
use agent_colab.Prelude.{
  if◌then◌else◌, contains, guard, ℕ, String, Bool, true, false, none, some, [], ◌∷◌,
}
use agent_colab.Events.Store.{str}
use agent_colab.Work.Inbox.Rows.{
  WorkItem, ack_receipt, accept_receipt, reject_receipt, Outside, Step, load, require_owner, append,
  set, insert_receipt, inbox_changed,
}
use agent_colab.Work.State.{
  WorkItemState, queued, acked, in_progress, Action, work_item_rejection_code_invalid, transition,
}

-- `reason_code in REJECTION_CODES`
pub is_rejection_code : String → Bool
is_rejection_code code =
    contains code ("CAPABILITY_UNSUPPORTED" ∷ "CAPACITY" ∷ "POLICY" ∷ "OTHER" ∷ [])

module _ (x : Outside) where
  pub is_acked : WorkItemState → Bool
  is_acked acked = true
  is_acked in_progress = true
  is_acked _ = false

  unfoldable pub ack : String → String → String → ℕ → Step x WorkItem
  unfolding is_acked
  ack work_item_id agent_id actor_account_id now = do
    item ← load x work_item_id
    require_owner x item agent_id
    if is_acked item.status then pure item else do
      new_state ← lift (transition item.status Action.ack)
      set x work_item_id now (λ row. record row { status = new_state; acked_at = some now })
      _ ← insert_receipt x work_item_id ack_receipt (some item.delivery_count) none none none []
      _ ←
          append x item "WORK_ITEM_ACKED" actor_account_id "ack" work_item_id
            (("work_item_id", str work_item_id) ∷ []) none
      load x work_item_id

  pub is_started : WorkItemState → Bool
  is_started in_progress = true
  is_started _ = false

  unfoldable pub start : String → String → String → ℕ → Step x WorkItem
  unfolding is_started
  start work_item_id agent_id actor_account_id now = do
    item ← load x work_item_id
    require_owner x item agent_id
    if is_started item.status then pure item else do
      new_state ← lift (transition item.status Action.start)
      set x work_item_id now (λ row. record row { status = new_state; accepted_at = some now })
      _ ← insert_receipt x work_item_id accept_receipt (some item.delivery_count) none none none []
      _ ←
          append x item "WORK_ITEM_STARTED" actor_account_id "start" work_item_id
            (("work_item_id", str work_item_id) ∷ []) none
      load x work_item_id

  unfoldable pub reject : String → String → String → String → ℕ → Step x WorkItem
  unfolding is_rejection_code
  reject work_item_id agent_id reason_code actor_account_id now = do
    lift (guard (is_rejection_code reason_code) work_item_rejection_code_invalid)
    item ← load x work_item_id
    require_owner x item agent_id
    new_state ← lift (transition item.status Action.reject)
    set x work_item_id now (λ row. record row { status = new_state; finished_at = some now })
    _ ←
        insert_receipt x work_item_id reject_receipt (some item.delivery_count) none none none
          (("reason_code", str reason_code) ∷ [])
    _ ←
        append x item "WORK_ITEM_REJECTED" actor_account_id "reject" work_item_id
          (("work_item_id", str work_item_id) ∷ ("reason_code", str reason_code) ∷ []) none
    load x work_item_id

  unfoldable pub cancel : String → String → String → ℕ → Step x WorkItem
  cancel work_item_id reason_code actor_account_id now = do
    item ← load x work_item_id
    new_state ← lift (transition item.status Action.cancel)
    set x work_item_id now (λ row. record row { status = new_state; finished_at = some now })
    _ ←
        append x item "WORK_ITEM_CANCELLED" actor_account_id "cancel" work_item_id
          (("work_item_id", str work_item_id) ∷ ("reason_code", str reason_code) ∷ []) none
    load x work_item_id

  unfoldable pub expire : String → String → String → ℕ → Step x WorkItem
  expire work_item_id reason_code actor_account_id now = do
    item ← load x work_item_id
    new_state ← lift (transition item.status Action.expire)
    set x work_item_id now (λ row. record row { status = new_state; finished_at = some now })
    _ ←
        append x item "WORK_ITEM_EXPIRED" actor_account_id "expire" work_item_id
          (("work_item_id", str work_item_id) ∷ ("reason_code", str reason_code) ∷ []) none
    load x work_item_id

  unfoldable pub requeue_for_redelivery : String → ℕ → Step x WorkItem
  requeue_for_redelivery work_item_id now = do
    item ← load x work_item_id
    _ ← lift (transition item.status Action.redeliver)
    set x work_item_id now (λ row. record row { status = queued })
    inbox_changed x item.agent_id
    load x work_item_id
