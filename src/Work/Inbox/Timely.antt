-- ===== src/Work/Inbox/Timely.antt =====
-- server/work/timeouts.py: `sweep` on rows whose timestamps fit their statuses.
use agent_colab.Work.Inbox.Steps.{expire, requeue_for_redelivery}
use agent_colab.Work.Inbox.Delivery.{in_order, open_items}
use agent_colab.Work.Inbox.Sweep.{
  SweepReport, empty_report, decide, act, sweep_item, sweep_items, sweep,
}
use agent_colab.Prelude.Transactions.{After, After-bind}
use agent_colab.Prelude.{
  leb, Bool-cases, keep, All, insert_by, sorted, Result, ok, err, ℕ, String, ◌≡◌, refl, inl, inr,
  Bool, Option, some, List, [], ◌∷◌,
}
use agent_colab.Work.State.{
  WorkItemError, NextAction, none_, redeliver_, expire_, reroute, waiting, TimingDecision,
}
use agent_colab.Work.State.Timing.{next_action-IsTimely}
use agent_colab.Work.Inbox.Rows.{WorkItem, Outside, Db}
use agent_colab.Work.Inbox.Moves.{IsTimedItem}

module _ {A : Type 0} (P : A → Type 0) where
  All-kept : (p : A → Bool) (xs : List A) → All P xs → All P (keep p xs)
  All-kept p [] h = tt
  All-kept p (x ∷ xs) h = elim (Bool-cases (p x)) [
    | inl e ↦ rw e (h.0, All-kept p xs h.1)
    | inr e ↦ rw e (All-kept p xs h.1)
  ]

  All-insert_by : (key : A → ℕ) (x : A) (ys : List A) → P x → All P ys → All P (insert_by key x ys)
  All-insert_by key x [] p h = (p, tt)
  All-insert_by key x (y ∷ ys) p h = elim (Bool-cases (leb (key x) (key y))) [
    | inl e ↦ rw e (p, h)
    | inr e ↦ rw e (h.0, All-insert_by key x ys p h.1)
  ]

  All-sorted : (key : A → ℕ) (xs : List A) → All P xs → All P (sorted key xs)
  All-sorted key [] h = tt
  All-sorted key (x ∷ xs) h = All-insert_by key x (sorted key xs) h.0 (All-sorted key xs h.1)

module _ (x : Outside) where
  open_items-All :
      (agent_id workspace_id : Option String) (db : Db x)
      → All IsTimedItem db.items
      → All IsTimedItem (open_items x agent_id workspace_id db)
  unfolding open_items in_order
  open_items-All agent_id workspace_id db h =
      All-sorted IsTimedItem _ _ (All-sorted IsTimedItem _ _ (All-kept IsTimedItem _ db.items h))

  module _ (actor_account_id : String) (now : ℕ) (reroute_counts : String → ℕ) where
    IsValid : SweepReport → Db x → Type 0
    IsValid report db = report.invalid ≡ []

    act-IsValid :
        (item : WorkItem) (decision : TimingDecision) (report : SweepReport) (db : Db x)
        → report.invalid ≡ []
        → After IsValid (act x actor_account_id now reroute_counts item decision report db)
    unfolding act IsValid
    act-IsValid item decision report db v = acted decision.action refl
      where
        returned : {A : Type 0} (r : Result WorkItemError (A × Db x)) → After (λ _ _. Unit {0}) r
        returned (ok _) = tt
        returned (err e) = tt

        acted :
            (a : NextAction)
            → decision.action ≡ a
            → After IsValid (act x actor_account_id now reroute_counts item decision report db)
        acted none_ e = rw (e, After) v
        acted redeliver_ e =
            rw (e, After)
              (After-bind IsValid (λ _ _. Unit {0}) (requeue_for_redelivery x item.work_item_id now)
                _ db (returned _) (λ _ db' n. v))
        acted expire_ e =
            rw (e, After)
              (After-bind IsValid (λ _ _. Unit {0})
                (expire x item.work_item_id _ actor_account_id now) _ db (returned _)
                (λ _ db' n. v))
        acted reroute e = rw (e, After) v
        acted waiting e = rw (e, After) v

    sweep_item-IsValid :
        (item : WorkItem) (report : SweepReport) (db : Db x)
        → IsTimedItem item
        → report.invalid ≡ []
        → After IsValid (sweep_item x actor_account_id now reroute_counts item report db)
    unfolding sweep_item decide IsTimedItem
    sweep_item-IsValid item report db t v =
        let (d, e, _) =
          next_action-IsTimely item.status item.delivered_at item.acked_at now item.delivery_count
            item.kind item.accepted_at (reroute_counts item.work_item_id) (some item.deadline) t in
        rw (e, After) (act-IsValid item d report db v)

    sweep_items-IsValid :
        (items : List WorkItem) (report : SweepReport) (db : Db x)
        → All IsTimedItem items
        → report.invalid ≡ []
        → After IsValid (sweep_items x actor_account_id now reroute_counts items report db)
    unfolding sweep_items IsValid
    sweep_items-IsValid [] report db t v = v
    sweep_items-IsValid (item ∷ items) report db t v =
        After-bind IsValid IsValid (sweep_item x actor_account_id now reroute_counts item report) _
          db (sweep_item-IsValid item report db t.0 v)
          (λ report' db' v'. sweep_items-IsValid items report' db' t.1 v')

  -- A sweep over rows whose timestamps fit their statuses finds no malformed row: the timing model decides
  -- on every open item.
  pub sweep_decides :
      (actor_account_id : String) (now : ℕ) (reroute_counts : String → ℕ)
      (agent_id workspace_id : Option String) (db : Db x)
      → All IsTimedItem db.items
      → After
          (λ report db'. report.invalid ≡ [])
          (sweep x actor_account_id now reroute_counts agent_id workspace_id db)
  unfolding sweep IsValid empty_report
  sweep_decides actor_account_id now reroute_counts agent_id workspace_id db h =
      sweep_items-IsValid actor_account_id now reroute_counts
        (open_items x agent_id workspace_id db) empty_report db
        (open_items-All agent_id workspace_id db h) (empty_invalid)
    where
      empty_invalid : empty_report.invalid ≡ []
      empty_invalid = refl
