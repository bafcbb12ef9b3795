-- ===== src/Work/Inbox/Sweep.antt =====
-- server/work/timeouts.py: `sweep`, on the items that are open when it starts. `now` is what the clock
-- reads, once for the decisions and again at each change.
use agent_colab.Prelude.Transactions.{◌>>=◌, pure, gets}
use agent_colab.Prelude.{Result, ok, err, ℕ, String, Option, some, List, [], ◌∷◌, ◌++◌}
use agent_colab.Work.Inbox.Rows.{WorkItem, Outside, Step}
use agent_colab.Work.Inbox.Steps.{expire, requeue_for_redelivery}
use agent_colab.Work.Inbox.Delivery.{open_items}
use agent_colab.Work.State.{
  WorkItemError, none_, redeliver_, expire_, reroute, waiting, Reason, deadline_exceeded,
  TimingDecision, next_action,
}

-- The texts of an outcome's reason: those of a decision, `DEADLINE` and `ACK_TIMEOUT`.
pub data OutcomeReason : Type 0 where
  decided : Reason → OutcomeReason
  deadline_passed ack_timed_out : OutcomeReason

pub record SweepOutcome : Type 0 where
  pub work_item_id : String
  pub action : String
  pub reason : OutcomeReason

pub record SweepReport : Type 0 where
  pub requeued : List SweepOutcome
  pub expired_ : List SweepOutcome
  pub reroute_required : List SweepOutcome
  pub waiting_required : List SweepOutcome
  pub invalid : List (String × WorkItemError)

unfoldable pub empty_report : SweepReport
empty_report = record {
  requeued = [];
  expired_ = [];
  reroute_required = [];
  waiting_required = [];
  invalid = [];
}

-- `SweepReport.outcomes`
pub outcomes : SweepReport → List SweepOutcome
outcomes report =
    report.requeued ++ report.expired_ ++ report.reroute_required ++ report.waiting_required

outcome : WorkItem → String → OutcomeReason → SweepOutcome
outcome item action reason = record {
  work_item_id = item.work_item_id;
  action = action;
  reason = reason;
}

expiry_reason : Reason → OutcomeReason
expiry_reason deadline_exceeded = deadline_passed
expiry_reason _ = ack_timed_out

expiry_code : OutcomeReason → String
expiry_code deadline_passed = "DEADLINE"
expiry_code _ = "ACK_TIMEOUT"

module _ (x : Outside) (actor_account_id : String) (now : ℕ) (reroute_counts : String → ℕ) where
  unfoldable pub decide : WorkItem → Result WorkItemError TimingDecision
  decide item =
      next_action item.status item.delivered_at item.acked_at now item.delivery_count item.kind
        item.accepted_at (reroute_counts item.work_item_id) (some item.deadline)

  unfoldable pub act : WorkItem → TimingDecision → SweepReport → Step x SweepReport
  unfolding outcome expiry_reason expiry_code
  act item decision report = elim decision.action [
    | none_ ↦ pure report
    | redeliver_ ↦ do
      _ ← requeue_for_redelivery x item.work_item_id now
      pure (record report {
        requeued = report.requeued ++ outcome item "REDELIVER" (decided decision.reason) ∷ [];
      })
    | expire_ ↦ do
      _ ←
          expire x item.work_item_id (expiry_code (expiry_reason decision.reason)) actor_account_id
            now
      pure (record report {
        expired_ = report.expired_ ++ outcome item "EXPIRE" (expiry_reason decision.reason) ∷ [];
      })
    | reroute ↦ pure (record report {
      reroute_required =
          report.reroute_required ++ outcome item "REROUTE_REQUIRED" (decided decision.reason) ∷ [];
    })
    | waiting ↦ pure (record report {
      waiting_required =
          report.waiting_required ++ outcome item "WAITING_REQUIRED" (decided decision.reason) ∷ [];
    })
  ]

  unfoldable pub sweep_item : WorkItem → SweepReport → Step x SweepReport
  unfolding decide act
  sweep_item item report = elim (decide item) [
    | err e ↦ pure (record report { invalid = report.invalid ++ (item.work_item_id, e) ∷ [] })
    | ok decision ↦ act item decision report
  ]

  unfoldable pub sweep_items : List WorkItem → SweepReport → Step x SweepReport
  unfolding sweep_item
  sweep_items [] report = pure report
  sweep_items (item ∷ items) report = sweep_item item report >>= sweep_items items

  unfoldable pub sweep : Option String → Option String → Step x SweepReport
  unfolding sweep_items empty_report
  sweep agent_id workspace_id = do
    items ← gets (open_items x agent_id workspace_id)
    sweep_items items empty_report
