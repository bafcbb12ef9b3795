-- ===== src/Work/Inbox/FirstResult.antt =====
-- server/work/inbox.py: what `result` records of a result that it accepts.
use agent_colab.Work.Inbox.Results.{
  ResultOutcome, optional, result_ref_for, duplicate, audit_display_identity, accepted_result,
  implied_ack, settle_result, check_schema, result,
}
use agent_colab.Prelude.Transactions.{◌>>=◌, pure, After, After-bind}
use agent_colab.Prelude.{
  str_eq, str_eq_refl, is_some, Bool-cases, Option-cases, Result, ok, err, Result-cases, ℕ, String,
  ◌≡◌, refl, inl, inr, true, ◌||◌, Option, none, some, List, [], ◌∷◌, ◌++◌,
}
use agent_colab.Events.Store.{str}
use agent_colab.Work.State.{
  WorkItemState, Action, WorkItemError, is_terminal, transition, result_accepted,
}
use agent_colab.Work.Inbox.Rows.{
  WorkItem, result_receipt, Receipt, WorkResult, Outside, Db, find_item, is_result_of, find_result,
  load, require_owner, set, result_receipt_of, insert_receipt, record_result, append_audit,
}
use agent_colab.Work.Inbox.Rules.{after_append}

find_result-last :
    (work_item_id : String) (receipts : List Receipt) (receipt : Receipt)
    → is_result_of work_item_id receipt ≡ true
    → is_some (find_result work_item_id (receipts ++ receipt ∷ [])) ≡ true
unfolding find_result
find_result-last work_item_id [] receipt h = rw h refl
find_result-last work_item_id (r ∷ receipts) receipt h =
    elim (Bool-cases (is_result_of work_item_id r)) [
      | inl e ↦ rw e refl
      | inr e ↦ rw e (find_result-last work_item_id receipts receipt h)
    ]

module _ (x : Outside) (work_item_id : String) where
  -- Only an accepted result promises a receipt.
  abbrev IsRecorded : ResultOutcome → Db x → Type 0
  IsRecorded out db =
      out.code ≡ result_accepted → is_some (find_result work_item_id db.receipts) ≡ true

  duplicate-IsRecorded :
      (db : Db x) (item : WorkItem) (existing : Option Receipt)
      (ref sha actor_account_id agent_id : String)
      → After IsRecorded (duplicate x item existing ref sha actor_account_id agent_id db)
  unfolding duplicate insert_receipt append_audit load
  duplicate-IsRecorded db item existing ref sha actor_account_id agent_id =
      elim (Option-cases (find_item item.work_item_id db.items)) [
        | inl e ↦ rw (e, After) tt
        | inr (found, e) ↦ rw (e, After) (λ h. cc)
      ]

  loaded-IsRecorded :
      (db : Db x) (key : String) (g : WorkItem → ResultOutcome)
      → is_some (find_result work_item_id db.receipts) ≡ true
      → After IsRecorded ((load x key >>= λ item. pure (g item)) db)
  unfolding load
  loaded-IsRecorded db key g h = elim (Option-cases (find_item key db.items)) [
    | inl e ↦ rw (e, After) tt
    | inr (found, e) ↦ rw (e, After) (λ _. h)
  ]

  accepted-IsRecorded :
      (db : Db x) (item : WorkItem) (target : WorkItemState) (receipt : Receipt) (body : WorkResult)
      (ref actor_account_id agent_id : String) (now : ℕ)
      → is_some (find_result work_item_id db.receipts) ≡ true
      → After IsRecorded
          (accepted_result x item target receipt body ref actor_account_id agent_id now db)
  unfolding accepted_result set audit_display_identity append_audit
  accepted-IsRecorded db item target receipt body ref actor_account_id agent_id now h =
      after_append x IsRecorded _ item _ _ _ _ _ none _ λ a events.
        elim (Bool-cases (is_some body.display_identity)) [
          | inl d ↦ rw (d, After) (loaded-IsRecorded _ item.work_item_id _ h)
          | inr d ↦ rw (d, After) (loaded-IsRecorded _ item.work_item_id _ h)
        ]

  settle_result-IsRecorded :
      (db : Db x) (item : WorkItem) (body : WorkResult) (agent_id actor_account_id : String)
      (now : ℕ)
      → After IsRecorded (settle_result x body work_item_id agent_id actor_account_id now item db)
  unfolding settle_result record_result insert_receipt result_receipt_of is_result_of
  settle_result-IsRecorded db item body agent_id actor_account_id now =
      elim (Result-cases (transition item.status Action.result)) [
        | inr (r, q) ↦ rw (q, After) tt
        | inl (target, q) ↦
            rw (q, After)
              (elim (Option-cases (find_result work_item_id db.receipts)) [
                | inl n ↦
                    rw (n, After)
                      (accepted-IsRecorded _ item target
                        (record {
                          receipt_id = db.next_receipt_id;
                          work_item_id = work_item_id;
                          receipt_kind = result_receipt;
                          delivery_no = some item.delivery_count;
                          result_ref = some (result_ref_for x work_item_id body).0;
                          result_sha256 = some (result_ref_for x work_item_id body).1;
                          usage = body.usage;
                          detail =
                              ("status", str body.status)
                              ∷ ("error_code", optional body.error_code)
                              ∷ [];
                        })
                        body _ actor_account_id agent_id now
                        (find_result-last work_item_id db.receipts _ (str_eq_refl work_item_id)))
                | inr (receipt, n) ↦
                    rw (n, After)
                      (duplicate-IsRecorded _ item (find_result work_item_id db.receipts) _ _
                        actor_account_id agent_id)
              ])
      ]

  returned : {A : Type 0} (r : Result WorkItemError (A × Db x)) → After (λ _ _. Unit {0}) r
  returned (ok _) = tt
  returned (err e) = tt

  -- A result that is answered with `RESULT_ACCEPTED` has left a result receipt of its work item.
  pub result_recorded :
      (agent_id : String) (body : WorkResult) (actor_account_id : String) (acked_now now : ℕ)
      (db : Db x)
      → After
          (λ out db'.
            out.code ≡ result_accepted → is_some (result_receipt_of x work_item_id db') ≡ true)
          (result x work_item_id agent_id body actor_account_id acked_now now db)
  unfolding result check_schema load require_owner result_receipt_of
  result_recorded agent_id body actor_account_id acked_now now db =
      elim (Option-cases (x.schema_error_of body)) [
        | inr (code, c) ↦ rw (c, After) tt
        | inl c ↦
            rw (c, After)
              (elim (Bool-cases (str_eq body.work_item_id work_item_id)) [
                | inr g ↦ rw (g, After) tt
                | inl g ↦
                    rw (g, After)
                      (elim (Option-cases (find_item work_item_id db.items)) [
                        | inl e ↦ rw (e, After) tt
                        | inr (item, e) ↦
                            rw (e, After)
                              (elim (Bool-cases (str_eq item.agent_id agent_id)) [
                                | inr o ↦ rw (o, After) tt
                                | inl o ↦
                                    rw (o, After)
                                      (elim (Bool-cases (
                                        is_some (result_receipt_of x work_item_id db)
                                        || is_terminal item.status)) [
                                          | inl s ↦
                                              rw (s, After)
                                                (duplicate-IsRecorded db item
                                                  (result_receipt_of x work_item_id db) _ _
                                                  actor_account_id agent_id)
                                          | inr s ↦
                                              rw (s, After)
                                                (After-bind IsRecorded (λ _ _. Unit {0})
                                                  (implied_ack x item work_item_id agent_id
                                                    actor_account_id acked_now)
                                                  (settle_result x body work_item_id agent_id
                                                    actor_account_id now)
                                                  db (returned _)
                                                  (λ item db' _.
                                                    settle_result-IsRecorded db' item body agent_id
                                                      actor_account_id now))
                                        ])
                              ])
                      ])
              ])
      ]
