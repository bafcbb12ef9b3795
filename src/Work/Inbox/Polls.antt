-- ===== src/Work/Inbox/Polls.antt =====
-- server/work/inbox.py: `poll` on the rows of `work_items`.
use agent_colab.Work.Inbox.Delivery.{is_queued, poll_rows, deliver_queued, deliver_rows, poll}
use agent_colab.Prelude.Transactions.{After, After-bind}
use agent_colab.Prelude.{
  ltb, if◌then◌else◌, str_eq, Bool-cases, All, ok, Result-cases, ℕ, String, ◌≡◌, refl, sym, subst,
  inl, inr, Bool, true, false, none, some, List, [], ◌∷◌,
}
use agent_colab.Work.State.{WorkItemState, delivered, Action, transition}
use agent_colab.Work.State.Timing.{IsTimed}
use agent_colab.Work.State.Transitions.{target_of, transition-target_of}
use agent_colab.Work.Inbox.Rows.{WorkItem, Outside, Db, set_item, set, insert_receipt}
use agent_colab.Work.Inbox.Moves.{IsTimedItem}
use agent_colab.Work.Inbox.Rules.{after_load, after_append}

timed_any :
    (changed : String) (f : WorkItem → WorkItem) (items : List WorkItem)
    → ((row : WorkItem) → IsTimedItem (f row))
    → All IsTimedItem items
    → All IsTimedItem (set_item changed f items)
unfolding set_item
timed_any changed f [] t h = tt
timed_any changed f (row ∷ rest) t h = elim (Bool-cases (str_eq row.work_item_id changed)) [
  | inl e ↦ rw e (t row, h.1)
  | inr e ↦ rw e (h.0, timed_any changed f rest t h.1)
]

-- The timestamps of every row fit its status.
abbrev Timed : {x : Outside} {A : Type 0} → A → Db x → Type 0
Timed a db = All IsTimedItem db.items

module _ (x : Outside) (actor_account_id : String) (now : ℕ) where
  -- The state that a delivery leads to, first or again.
  new_state-delivered :
      (again : Bool) (item : WorkItem) (target : WorkItemState)
      → is_queued item.status ≡ true
      → (if again
          then transition delivered Action.redeliver
          else transition item.status Action.deliver)
        ≡ ok target
      → target ≡ delivered
  unfolding target_of
  new_state-delivered true item target q h =
      (transition-target_of Action.redeliver delivered target h).1
  new_state-delivered false item target q h =
      (transition-target_of Action.deliver item.status target h).1

  deliver_queued-Timed :
      (item : WorkItem) (db : Db x)
      → is_queued item.status ≡ true
      → All IsTimedItem db.items
      → After Timed (deliver_queued x actor_account_id now item db)
  unfolding deliver_queued set insert_receipt IsTimedItem IsTimed
  deliver_queued-Timed item db q h =
      elim (Result-cases (
        if ltb 0 item.delivery_count
        then transition delivered Action.redeliver
        else transition item.status Action.deliver)) [
          | inr (r, e) ↦ rw (e, After) tt
          | inl (target, e) ↦
              rw (e, After)
                (after_append x Timed _ item _ _ _ _ _ none _ λ a events.
                  after_load x Timed _ item.work_item_id _ λ again found.
                    timed_any item.work_item_id _ db.items
                      (λ row.
                        subst (λ s. IsTimed s (some now) row.acked_at)
                          (sym (new_state-delivered (ltb 0 item.delivery_count) item target q e))
                          refl)
                      h)
        ]

  deliver_rows-Timed :
      (rows : List WorkItem) (db : Db x)
      → All IsTimedItem db.items
      → After Timed (deliver_rows x actor_account_id now rows db)
  unfolding deliver_rows
  deliver_rows-Timed [] db h = h
  deliver_rows-Timed (item ∷ rows) db h = elim (Bool-cases (is_queued item.status)) [
    | inl q ↦
        rw (q, After)
          (After-bind Timed Timed (deliver_queued x actor_account_id now item) _ db
            (deliver_queued-Timed item db q h)
            (λ (again, event_id) db' h'.
              After-bind Timed Timed (deliver_rows x actor_account_id now rows) _ db'
                (deliver_rows-Timed rows db' h') (λ others db'' h''. h'')))
    | inr q ↦
        rw (q, After)
          (After-bind Timed Timed (deliver_rows x actor_account_id now rows) _ db
            (deliver_rows-Timed rows db h) (λ others db'' h''. h''))
  ]

  -- A poll that returns leaves the timestamps of every row fitting its status, if they did before: what
  -- it delivers has a `delivered_at`.
  pub poll_timed :
      (agent_id : String) (locked : List String) (max_items : ℕ) (db : Db x)
      → All IsTimedItem db.items
      → After
          (λ polled db'. All IsTimedItem db'.items)
          (poll x agent_id actor_account_id locked max_items now db)
  unfolding poll
  poll_timed agent_id locked max_items db h =
      deliver_rows-Timed (poll_rows x agent_id locked max_items db) db h
