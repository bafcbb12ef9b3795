-- ===== src/Work/Inbox/ExactlyOnce.antt =====
-- server/work/inbox.py: a further result of a work item that has one.
use agent_colab.Work.Inbox.Results.{duplicate, check_schema, result}
use agent_colab.Prelude.Transactions.{Succeeds}
use agent_colab.Prelude.{
  str_eq, Bool-cases, length, length-append, ℕ, suc, String, ◌≡◌, refl, sym, ◌∙◌, subst, inl, inr,
  true, false, none, some, List, [], ◌∷◌, ◌++◌, arith,
}
use agent_colab.Work.State.{duplicate_result_ignored}
use agent_colab.Work.Inbox.Rows.{
  WorkItem, Receipt, Audit, WorkResult, Outside, Db, find_item, is_result_of, find_result, load,
  require_owner, result_receipt_of, insert_receipt, append_audit,
}
use agent_colab.Work.Inbox.Moves.{find_item-id}

find_result-append :
    (work_item_id : String) (receipts more : List Receipt) (existing : Receipt)
    → find_result work_item_id receipts ≡ some existing
    → find_result work_item_id (receipts ++ more) ≡ some existing
unfolding find_result
find_result-append work_item_id [] more existing h = cc
find_result-append work_item_id (receipt ∷ receipts) more existing h =
    elim (Bool-cases (is_result_of work_item_id receipt)) [
      | inl e ↦ rw e (rw (sym (head e)) h)
      | inr e ↦ rw e (find_result-append work_item_id receipts more existing (sym (tail e) ∙ h))
    ]
  where
    head :
        is_result_of work_item_id receipt ≡ true
        → find_result work_item_id (receipt ∷ receipts) ≡ some receipt
    head e = rw e refl

    tail :
        is_result_of work_item_id receipt ≡ false
        → find_result work_item_id (receipt ∷ receipts) ≡ find_result work_item_id receipts
    tail e = rw e refl

module _ (x : Outside) (work_item_id agent_id : String) (body : WorkResult)
    (actor_account_id : String) (acked_now now : ℕ) (db : Db x) (item : WorkItem) where
  -- A valid result that the owner of a work item reports, when the item has a result already: it is
  -- answered with the first result's receipt and `DUPLICATE_RESULT_IGNORED`, the rows of the work items,
  -- the Events and the first receipt stay as they were, and one audit row is added.
  pub result_ignored :
      (existing : Receipt)
      → x.schema_error_of body ≡ none
      → str_eq body.work_item_id work_item_id ≡ true
      → find_item work_item_id db.items ≡ some item
      → str_eq item.agent_id agent_id ≡ true
      → result_receipt_of x work_item_id db ≡ some existing
      → Succeeds
          (λ out db'.
            (out.code ≡ duplicate_result_ignored)
            × (out.receipt_id ≡ existing.receipt_id)
            × (out.item ≡ item)
            × (db'.items ≡ db.items)
            × (db'.events ≡ db.events)
            × (result_receipt_of x work_item_id db' ≡ some existing)
            × (length db'.audits ≡ suc (length db.audits)))
          (result x work_item_id agent_id body actor_account_id acked_now now db)
  unfolding result check_schema load require_owner duplicate insert_receipt append_audit
      result_receipt_of
  result_ignored existing valid same_id row owner h =
      rw (valid, Succeeds)
        (rw (same_id, Succeeds)
          (rw (row, Succeeds)
            (rw (owner, Succeeds)
              (rw (h, Succeeds)
                (rw (same_row, Succeeds)
                  (
                    refl,
                    rw h refl,
                    refl,
                    refl,
                    refl,
                    find_result-append work_item_id db.receipts _ existing h,
                    audited db.audits _,
                  ))))))
    where
      same_row : find_item item.work_item_id db.items ≡ some item
      same_row =
          subst (λ z. find_item z db.items ≡ some item)
            (sym (find_item-id work_item_id db.items item row)) row

      audited : (xs : List Audit) (a : Audit) → length (xs ++ a ∷ []) ≡ suc (length xs)
      audited xs a = omega (arith, length-append xs (a ∷ []))
