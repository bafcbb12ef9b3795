-- ===== src/Work/Inbox/Commands.antt =====
-- server/work/inbox.py: what the operations on one item do to the rows of `work_items`.
use agent_colab.Work.Inbox.Steps.{
  is_rejection_code, is_acked, ack, is_started, start, reject, cancel, expire,
  requeue_for_redelivery,
}
use agent_colab.Prelude.Transactions.{◌>>=◌, After}
use agent_colab.Prelude.{
  str_eq, Bool-cases, Option-cases, ok, Result-cases, ℕ, String, ◌≡◌, refl, sym, ◌∙◌, subst, inl,
  inr, Option, none, some,
}
use agent_colab.Events.Store.{Payload}
use agent_colab.Work.State.{WorkItemState, Action, transition}
use agent_colab.Work.State.Timing.{IsTimed}
use agent_colab.Work.State.Transitions.{target_of, IsSource, transition-target_of}
use agent_colab.Work.Inbox.Rows.{
  WorkItem, Outside, Db, find_item, load, require_owner, append, set, insert_receipt, inbox_changed,
}
use agent_colab.Work.Inbox.Moves.{IsTimedItem, IsMove, Moves, none_moved, one_moved}
use agent_colab.Work.Inbox.Rules.{after_append}

-- A transition changes the row as the action's target wants it.
pub by_action :
    (action : Action) (item new : WorkItem) (target : WorkItemState)
    → transition item.status action ≡ ok target
    → new.work_item_id ≡ item.work_item_id
    → new.status ≡ target
    → (IsSource action item.status
        → IsTimedItem item
        → IsTimed (target_of action) new.delivered_at new.acked_at)
    → IsMove item new
unfolding IsMove IsTimedItem
by_action action item new target q i s k =
    let r = transition-target_of action item.status target q in
    (i, r.0, λ h. subst (λ z. IsTimed z new.delivered_at new.acked_at) (sym (s ∙ r.1)) (k r.2 h))

module _ (x : Outside) where
  abbrev pub Moved : {A : Type 0} → Db x → A → Db x → Type 0
  Moved db a db' = Moves db.items db'.items

  pub loaded :
      (before db : Db x) (work_item_id : String)
      → Moves before.items db.items
      → After (Moved before) (load x work_item_id db)
  unfolding load
  loaded before db work_item_id m = elim (Option-cases (find_item work_item_id db.items)) [
    | inl e ↦ rw (e, After) tt
    | inr (item, e) ↦ rw (e, After) m
  ]

  -- The last statements of an operation: the Event is recorded and the row is read again.
  pub recorded :
      (before db : Db x) (item : WorkItem) (type actor operation key work_item_id : String)
      (payload : Payload) (caused_by : Option String)
      → Moves before.items db.items
      → After (Moved before) (
          (append x item type actor operation key payload caused_by >>= λ _. load x work_item_id)
            db)
  recorded before db item type actor operation key work_item_id payload caused_by m =
      after_append x (Moved before) (λ _. load x work_item_id) item type actor operation key payload
        caused_by db (λ a events. loaded before (record db { events = events }) work_item_id m)

  pub cancel-Moves :
      (work_item_id reason_code actor_account_id : String) (now : ℕ) (db : Db x)
      → After (Moved db) (cancel x work_item_id reason_code actor_account_id now db)
  unfolding cancel load set IsTimed target_of IsSource IsTimedItem IsMove
  cancel-Moves work_item_id reason_code actor_account_id now db =
      elim (Option-cases (find_item work_item_id db.items)) [
        | inl e ↦ rw (e, After) tt
        | inr (item, e) ↦
            rw (e, After)
              (elim (Result-cases (transition item.status Action.cancel)) [
                | inr (r, q) ↦ rw (q, After) tt
                | inl (target, q) ↦
                    rw (q, After)
                      (recorded db _ item _ _ _ _ work_item_id _ none (
                        one_moved work_item_id _ item e (
                          by_action Action.cancel item
                            (record item {
                              status = target;
                              finished_at = some now;
                              updated_at = now;
                            })
                            target q refl refl (λ u h. tt))))
              ])
      ]

  pub expire-Moves :
      (work_item_id reason_code actor_account_id : String) (now : ℕ) (db : Db x)
      → After (Moved db) (expire x work_item_id reason_code actor_account_id now db)
  unfolding expire load set IsTimed target_of IsSource IsTimedItem IsMove
  expire-Moves work_item_id reason_code actor_account_id now db =
      elim (Option-cases (find_item work_item_id db.items)) [
        | inl e ↦ rw (e, After) tt
        | inr (item, e) ↦
            rw (e, After)
              (elim (Result-cases (transition item.status Action.expire)) [
                | inr (r, q) ↦ rw (q, After) tt
                | inl (target, q) ↦
                    rw (q, After)
                      (recorded db _ item _ _ _ _ work_item_id _ none (
                        one_moved work_item_id _ item e (
                          by_action Action.expire item
                            (record item {
                              status = target;
                              finished_at = some now;
                              updated_at = now;
                            })
                            target q refl refl (λ u h. tt))))
              ])
      ]

  pub requeue-Moves :
      (work_item_id : String) (now : ℕ) (db : Db x)
      → After (Moved db) (requeue_for_redelivery x work_item_id now db)
  unfolding requeue_for_redelivery load set IsTimed target_of IsSource IsTimedItem IsMove
      inbox_changed
  requeue-Moves work_item_id now db = elim (Option-cases (find_item work_item_id db.items)) [
    | inl e ↦ rw (e, After) tt
    | inr (item, e) ↦
        rw (e, After)
          (elim (Result-cases (transition item.status Action.redeliver)) [
            | inr (r, q) ↦ rw (q, After) tt
            | inl (target, q) ↦
                rw (q, After)
                  (loaded db _ work_item_id (
                    one_moved work_item_id _ item e (
                      refl,
                      (transition-target_of Action.redeliver item.status target q).0,
                      λ h. tt,
                    )))
          ])
  ]

  pub reject-Moves :
      (work_item_id agent_id reason_code actor_account_id : String) (now : ℕ) (db : Db x)
      → After (Moved db) (reject x work_item_id agent_id reason_code actor_account_id now db)
  unfolding reject load set IsTimed target_of IsSource IsTimedItem IsMove require_owner
      insert_receipt
  reject-Moves work_item_id agent_id reason_code actor_account_id now db =
      elim (Bool-cases (is_rejection_code reason_code)) [
        | inr g ↦ rw (g, After) tt
        | inl g ↦
            rw (g, After)
              (elim (Option-cases (find_item work_item_id db.items)) [
                | inl e ↦ rw (e, After) tt
                | inr (item, e) ↦
                    rw (e, After)
                      (elim (Bool-cases (str_eq item.agent_id agent_id)) [
                        | inr o ↦ rw (o, After) tt
                        | inl o ↦
                            rw (o, After)
                              (elim (Result-cases (transition item.status Action.reject)) [
                                | inr (r, q) ↦ rw (q, After) tt
                                | inl (target, q) ↦
                                    rw (q, After)
                                      (recorded db _ item _ _ _ _ work_item_id _ none (
                                        one_moved work_item_id _ item e (
                                          by_action Action.reject item
                                            (record item {
                                              status = target;
                                              finished_at = some now;
                                              updated_at = now;
                                            })
                                            target q refl refl (λ u h. tt))))
                              ])
                      ])
              ])
      ]

  pub ack-Moves :
      (work_item_id agent_id actor_account_id : String) (now : ℕ) (db : Db x)
      → After (Moved db) (ack x work_item_id agent_id actor_account_id now db)
  unfolding ack load set IsTimed target_of IsSource IsTimedItem IsMove require_owner insert_receipt
  ack-Moves work_item_id agent_id actor_account_id now db =
      elim (Option-cases (find_item work_item_id db.items)) [
        | inl e ↦ rw (e, After) tt
        | inr (item, e) ↦
            rw (e, After)
              (elim (Bool-cases (str_eq item.agent_id agent_id)) [
                | inr o ↦ rw (o, After) tt
                | inl o ↦
                    rw (o, After)
                      (elim (Bool-cases (is_acked x item.status)) [
                        | inl a ↦ rw (a, After) none_moved
                        | inr a ↦
                            rw (a, After)
                              (elim (Result-cases (transition item.status Action.ack)) [
                                | inr (r, q) ↦ rw (q, After) tt
                                | inl (target, q) ↦
                                    rw (q, After)
                                      (recorded db _ item _ _ _ _ work_item_id _ none (
                                        one_moved work_item_id _ item e (
                                          by_action Action.ack item
                                            (record item {
                                              status = target;
                                              acked_at = some now;
                                              updated_at = now;
                                            })
                                            target q refl refl (λ u h. refl))))
                              ])
                      ])
              ])
      ]

  pub start-Moves :
      (work_item_id agent_id actor_account_id : String) (now : ℕ) (db : Db x)
      → After (Moved db) (start x work_item_id agent_id actor_account_id now db)
  unfolding start load set IsTimed target_of IsSource IsTimedItem IsMove require_owner
      insert_receipt
  start-Moves work_item_id agent_id actor_account_id now db =
      elim (Option-cases (find_item work_item_id db.items)) [
        | inl e ↦ rw (e, After) tt
        | inr (item, e) ↦
            rw (e, After)
              (elim (Bool-cases (str_eq item.agent_id agent_id)) [
                | inr o ↦ rw (o, After) tt
                | inl o ↦
                    rw (o, After)
                      (elim (Bool-cases (is_started x item.status)) [
                        | inl a ↦ rw (a, After) none_moved
                        | inr a ↦
                            rw (a, After)
                              (elim (Result-cases (transition item.status Action.start)) [
                                | inr (r, q) ↦ rw (q, After) tt
                                | inl (target, q) ↦
                                    rw (q, After)
                                      (recorded db _ item _ _ _ _ work_item_id _ none (
                                        one_moved work_item_id _ item e (
                                          by_action Action.start item
                                            (record item {
                                              status = target;
                                              accepted_at = some now;
                                              updated_at = now;
                                            })
                                            target q refl refl
                                            (λ u h.
                                              subst (λ z. IsTimed z item.delivered_at item.acked_at)
                                                u h))))
                              ])
                      ])
              ])
      ]
