-- ===== src/Work/Inbox/OtherMoves.antt =====
-- server/work/inbox.py and timeouts.py: `enqueue` and `sweep` on the rows of `work_items`.
use agent_colab.Work.Inbox.Steps.{expire, requeue_for_redelivery}
use agent_colab.Work.Inbox.Delivery.{
  is_kind, is_consistent, NewWorkItem, chosen_id, find_key, queued_item, insert_item, reuse, create,
  enqueue, open_items,
}
use agent_colab.Work.Inbox.Sweep.{
  SweepReport, empty_report, decide, act, sweep_item, sweep_items, sweep,
}
use agent_colab.Prelude.Transactions.{After, After-bind}
use agent_colab.Prelude.{
  leb, str_eq, Bool-cases, Option-cases, Result-cases, ℕ, String, ◌≡◌, refl, inl, inr, ◌&&◌, Option,
  none, List, [], ◌∷◌,
}
use agent_colab.Work.State.{
  NextAction, none_, redeliver_, expire_, reroute, waiting, TimingDecision,
}
use agent_colab.Work.State.Timing.{IsTimed}
use agent_colab.Work.Inbox.Rows.{WorkItem, Outside, Db, find_item, load, inbox_changed}
use agent_colab.Work.Inbox.Moves.{IsTimedItem, Moves, none_moved, one_added, both}
use agent_colab.Work.Inbox.Rules.{after_append}
use agent_colab.Work.Inbox.Commands.{Moved, loaded, expire-Moves, requeue-Moves}

module _ (x : Outside) where
  inserted-Moves :
      (db : Db x) (item : WorkItem) → IsTimedItem item → After (Moved x db) (insert_item x item db)
  unfolding insert_item
  inserted-Moves db item t = elim (Option-cases (find_item item.work_item_id db.items)) [
    | inl e ↦ rw (e, After) (one_added item t)
    | inr (old, e) ↦ rw (e, After) tt
  ]

  create-Moves :
      (new : NewWorkItem) (work_item_id : String) (now : ℕ) (db : Db x)
      → After (Moved x db) (create x new work_item_id now db)
  unfolding create inbox_changed IsTimedItem IsTimed queued_item
  create-Moves new work_item_id now db =
      elim (Bool-cases (leb (x.canonical_size new.payload) 1000000)) [
        | inr g ↦ rw (g, After) tt
        | inl g ↦
            rw (g, After)
              (After-bind (Moved x db) (Moved x db)
                (insert_item x (queued_item new work_item_id now)) _ db
                (inserted-Moves db (queued_item new work_item_id now) tt)
                (λ _ db' m.
                  After-bind (Moved x db) (Moved x db) (load x work_item_id) _ db'
                    (loaded x db db' work_item_id m)
                    (λ item db'' m'.
                      after_append x (Moved x db) _ item _ _ _ _ _ none db'' (λ a events. m'))))
      ]

  pub enqueue-Moves :
      (new : NewWorkItem) (fresh : String) (now : ℕ) (db : Db x)
      → After (Moved x db) (enqueue x new fresh now db)
  unfolding enqueue reuse
  enqueue-Moves new fresh now db = elim (Bool-cases (is_kind new.kind)) [
    | inr k ↦ rw (k, After) tt
    | inl k ↦
        rw (k, After)
          (elim (Bool-cases (is_consistent new.kind new.brainstorm_id)) [
            | inr c ↦ rw (c, After) tt
            | inl c ↦
                rw (c, After)
                  (elim (Option-cases (find_key new.idempotency_key db.items)) [
                    | inl e ↦
                        rw (e, After) (create-Moves new (chosen_id new.work_item_id fresh) now db)
                    | inr (item, e) ↦ rw (e, After) (reused item)
                  ])
          ])
  ]
    where
      reused : (item : WorkItem) → After (Moved x db) (reuse x new item db)
      reused item =
          elim (Bool-cases (str_eq item.agent_id new.agent_id && str_eq item.kind new.kind)) [
            | inl e ↦ rw (e, After) none_moved
            | inr e ↦ rw (e, After) tt
          ]

  module _ (actor_account_id : String) (now : ℕ) (reroute_counts : String → ℕ) where
    act-Moves :
        (before db : Db x) (item : WorkItem) (decision : TimingDecision) (report : SweepReport)
        → Moves before.items db.items
        → After (Moved x before) (act x actor_account_id now reroute_counts item decision report db)
    unfolding act
    act-Moves before db item decision report m = acted decision.action refl
      where
        acted :
            (a : NextAction)
            → decision.action ≡ a
            → After
                (Moved x before)
                (act x actor_account_id now reroute_counts item decision report db)
        acted none_ e = rw (e, After) m
        acted redeliver_ e =
            rw (e, After)
              (After-bind (Moved x before) (Moved x db)
                (requeue_for_redelivery x item.work_item_id now) _ db
                (requeue-Moves x item.work_item_id now db) (λ _ db' n. both m n))
        acted expire_ e =
            rw (e, After)
              (After-bind (Moved x before) (Moved x db)
                (expire x item.work_item_id _ actor_account_id now) _ db
                (expire-Moves x item.work_item_id _ actor_account_id now db) (λ _ db' n. both m n))
        acted reroute e = rw (e, After) m
        acted waiting e = rw (e, After) m

    sweep_item-Moves :
        (before db : Db x) (item : WorkItem) (report : SweepReport)
        → Moves before.items db.items
        → After (Moved x before) (sweep_item x actor_account_id now reroute_counts item report db)
    unfolding sweep_item
    sweep_item-Moves before db item report m =
        elim (Result-cases (decide x actor_account_id now reroute_counts item)) [
          | inr (r, q) ↦ rw (q, After) m
          | inl (decision, q) ↦ rw (q, After) (act-Moves before db item decision report m)
        ]

    sweep_items-Moves :
        (items : List WorkItem) (before db : Db x) (report : SweepReport)
        → Moves before.items db.items
        → After (Moved x before) (sweep_items x actor_account_id now reroute_counts items report db)
    unfolding sweep_items
    sweep_items-Moves [] before db report m = m
    sweep_items-Moves (item ∷ items) before db report m =
        After-bind (Moved x before) (Moved x before)
          (sweep_item x actor_account_id now reroute_counts item report) _ db
          (sweep_item-Moves before db item report m)
          (λ report' db' n. sweep_items-Moves items before db' report' n)

    pub sweep-Moves :
        (agent_id workspace_id : Option String) (db : Db x)
        → After (Moved x db) (sweep x actor_account_id now reroute_counts agent_id workspace_id db)
    unfolding sweep
    sweep-Moves agent_id workspace_id db =
        sweep_items-Moves (open_items x agent_id workspace_id db) db db empty_report none_moved
