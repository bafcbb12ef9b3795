-- ===== src/Work/Inbox/ResultMoves.antt =====
-- server/work/inbox.py: `result` on the rows of `work_items`.
use agent_colab.Work.Inbox.Steps.{ack}
use agent_colab.Work.Inbox.Results.{
  is_delivered, optional, result_ref_for, duplicate, audit_display_identity, accepted_result,
  implied_ack, settle_result, check_schema, result,
}
use agent_colab.Prelude.Transactions.{◌>>=◌, pure, After, After-bind}
use agent_colab.Prelude.{
  str_eq, is_some, Bool-cases, Option-cases, ok, Result-cases, ℕ, String, ◌≡◌, refl, sym, subst,
  inl, inr, ◌||◌, Option, none, some, [], ◌∷◌,
}
use agent_colab.Events.Store.{str}
use agent_colab.Work.State.{WorkItemState, Action, is_terminal, transition}
use agent_colab.Work.State.Timing.{IsTimed}
use agent_colab.Work.State.Transitions.{target_of}
use agent_colab.Work.Inbox.Rows.{
  WorkItem, result_receipt, Receipt, WorkResult, Outside, Db, find_item, find_result, Step, load,
  require_owner, set, result_receipt_of, insert_receipt, record_result, append_audit,
}
use agent_colab.Work.Inbox.Moves.{Moves, none_moved, one_moved, both, find_item-id}
use agent_colab.Work.Inbox.Rules.{after_append}
use agent_colab.Work.Inbox.Commands.{by_action, Moved, ack-Moves}

module _ (x : Outside) where
  loaded_then :
      {A : Type 0} (before db : Db x) (work_item_id : String) (g : WorkItem → A)
      → Moves before.items db.items
      → After (Moved x before) ((load x work_item_id >>= λ item. pure (g item)) db)
  unfolding load
  loaded_then before db work_item_id g m = elim (Option-cases (find_item work_item_id db.items)) [
    | inl e ↦ rw (e, After) tt
    | inr (item, e) ↦ rw (e, After) m
  ]

  duplicate-Moves :
      (before db : Db x) (item : WorkItem) (existing : Option Receipt)
      (ref sha actor_account_id agent_id : String)
      → Moves before.items db.items
      → After (Moved x before) (duplicate x item existing ref sha actor_account_id agent_id db)
  unfolding duplicate insert_receipt append_audit
  duplicate-Moves before db item existing ref sha actor_account_id agent_id m =
      loaded_then before _ item.work_item_id _ m

  audited :
      (before db : Db x) (item : WorkItem) (body : WorkResult) (actor_account_id agent_id : String)
      → Moves before.items db.items
      → After (Moved x before) (audit_display_identity x item body actor_account_id agent_id db)
  unfolding audit_display_identity append_audit
  audited before db item body actor_account_id agent_id m =
      elim (Bool-cases (is_some body.display_identity)) [
        | inl d ↦ rw (d, After) m
        | inr d ↦ rw (d, After) m
      ]

  accepted-Moves :
      (before db : Db x) (item : WorkItem) (target : WorkItemState) (receipt : Receipt)
      (body : WorkResult) (ref actor_account_id agent_id : String) (now : ℕ)
      → Moves before.items db.items
      → find_item item.work_item_id db.items ≡ some item
      → transition item.status Action.result ≡ ok target
      → After
          (Moved x before)
          (accepted_result x item target receipt body ref actor_account_id agent_id now db)
  unfolding accepted_result set IsTimed target_of
  accepted-Moves before db item target receipt body ref actor_account_id agent_id now m e q =
      after_append x (Moved x before) _ item _ _ _ _ _ none _ λ a events.
        After-bind (Moved x before) (Moved x before)
          (audit_display_identity x item body actor_account_id agent_id) _ _
          (audited before _ item body actor_account_id agent_id (
            both m (
              one_moved item.work_item_id _ item e (
                by_action Action.result item
                  (record item { status = target; finished_at = some now; updated_at = now }) target
                  q refl refl (λ u h. tt)))))
          (λ _ db' m'. loaded_then before db' item.work_item_id _ m')

  Found : Db x → String → WorkItem → Db x → Type 0
  Found before work_item_id item db =
      Moves before.items db.items × (find_item work_item_id db.items ≡ some item)

  after_found :
      {B : Type 0} (before db : Db x) (work_item_id : String) (m : Step x WorkItem)
      (f : WorkItem → Step x B)
      → After (Found before work_item_id) (m db)
      → ((item : WorkItem) (db' : Db x)
          → Found before work_item_id item db'
          → After (Moved x before) (f item db'))
      → After (Moved x before) ((m >>= f) db)
  unfolding Found
  after_found before db work_item_id m f h k =
      After-bind (Moved x before) (Found before work_item_id) m f db h k

  reloaded :
      (before db : Db x) (work_item_id : String)
      → Moves before.items db.items
      → After (Found before work_item_id) (load x work_item_id db)
  unfolding load Found
  reloaded before db work_item_id m = elim (Option-cases (find_item work_item_id db.items)) [
    | inl e ↦ rw (e, After) tt
    | inr (item, e) ↦ rw (e, After) (m, e)
  ]

  implied_ack-Found :
      (db : Db x) (item : WorkItem) (work_item_id agent_id actor_account_id : String)
      (acked_now : ℕ)
      → find_item work_item_id db.items ≡ some item
      → After
          (Found db work_item_id)
          (implied_ack x item work_item_id agent_id actor_account_id acked_now db)
  unfolding implied_ack Found
  implied_ack-Found db item work_item_id agent_id actor_account_id acked_now e =
      elim (Bool-cases (is_delivered item.status)) [
        | inl d ↦
            rw (d, After)
              (After-bind (Found db work_item_id) (Moved x db)
                (ack x work_item_id agent_id actor_account_id acked_now) _ db
                (ack-Moves x work_item_id agent_id actor_account_id acked_now db)
                (λ _ db' m. reloaded db db' work_item_id m))
        | inr d ↦ rw (d, After) (none_moved, e)
      ]

  settle_result-Moves :
      (before db : Db x) (item : WorkItem) (body : WorkResult)
      (work_item_id agent_id actor_account_id : String) (now : ℕ)
      → Found before work_item_id item db
      → After
          (Moved x before)
          (settle_result x body work_item_id agent_id actor_account_id now item db)
  unfolding settle_result record_result insert_receipt Found result_receipt_of
  settle_result-Moves before db item body work_item_id agent_id actor_account_id now found =
      elim (Result-cases (transition item.status Action.result)) [
        | inr (r, q) ↦ rw (q, After) tt
        | inl (target, q) ↦
            rw (q, After)
              (elim (Option-cases (find_result work_item_id db.receipts)) [
                | inl n ↦
                    rw (n, After)
                      (accepted-Moves before _ item target
                        (record {
                          receipt_id = db.next_receipt_id;
                          work_item_id = work_item_id;
                          receipt_kind = result_receipt;
                          delivery_no = some item.delivery_count;
                          result_ref = some (result_ref_for x work_item_id body).0;
                          result_sha256 = some (result_ref_for x work_item_id body).1;
                          usage = body.usage;
                          detail =
                              ("status", str body.status)
                              ∷ ("error_code", optional body.error_code)
                              ∷ [];
                        })
                        body _ actor_account_id agent_id now found.0 same_row q)
                | inr (receipt, n) ↦
                    rw (n, After)
                      (duplicate-Moves before _ item (find_result work_item_id db.receipts) _ _
                        actor_account_id agent_id found.0)
              ])
      ]
    where
      same_row : find_item item.work_item_id db.items ≡ some item
      same_row =
          subst (λ z. find_item z db.items ≡ some item)
            (sym (find_item-id work_item_id db.items item found.1)) found.1

  pub result-Moves :
      (work_item_id agent_id : String) (body : WorkResult) (actor_account_id : String)
      (acked_now now : ℕ) (db : Db x)
      → After (Moved x db) (result x work_item_id agent_id body actor_account_id acked_now now db)
  unfolding result check_schema load require_owner
  result-Moves work_item_id agent_id body actor_account_id acked_now now db =
      elim (Option-cases (x.schema_error_of body)) [
        | inr (code, c) ↦ rw (c, After) tt
        | inl c ↦
            rw (c, After)
              (elim (Bool-cases (str_eq body.work_item_id work_item_id)) [
                | inr g ↦ rw (g, After) tt
                | inl g ↦
                    rw (g, After)
                      (elim (Option-cases (find_item work_item_id db.items)) [
                        | inl e ↦ rw (e, After) tt
                        | inr (item, e) ↦
                            rw (e, After)
                              (elim (Bool-cases (str_eq item.agent_id agent_id)) [
                                | inr o ↦ rw (o, After) tt
                                | inl o ↦
                                    rw (o, After)
                                      (elim (Bool-cases (
                                        is_some (result_receipt_of x work_item_id db)
                                        || is_terminal item.status)) [
                                          | inl s ↦
                                              rw (s, After)
                                                (duplicate-Moves db db item
                                                  (result_receipt_of x work_item_id db) _ _
                                                  actor_account_id agent_id none_moved)
                                          | inr s ↦
                                              rw (s, After)
                                                (after_found db db work_item_id
                                                  (implied_ack x item work_item_id agent_id
                                                    actor_account_id acked_now)
                                                  (settle_result x body work_item_id agent_id
                                                    actor_account_id now)
                                                  (implied_ack-Found db item work_item_id agent_id
                                                    actor_account_id acked_now e)
                                                  (λ item db' found.
                                                    settle_result-Moves db db' item body
                                                      work_item_id agent_id actor_account_id now
                                                      found))
                                        ])
                              ])
                      ])
              ])
      ]
