-- ===== src/Tasks/Graph/Admission.antt =====
-- server/tasks/graph.py: the conditions of `validate_new_child` and of the limits.
use agent_colab.Prelude.{
  str_eq_iff, contains, ok, ℕ, ◌<◌, String, ◌≡◌, ◌≢◌, ◌↔◌, false, Option, List, arith,
}
use agent_colab.Tasks.Graph.{
  GraphLimits, ChannelLimits, limits_from_policy, ParentView, validate_new_child,
}

-- The conditions under which a sub-Task may be added, in the order of the tests.
pub record IsAdmissible (parent : ParentView) (child workspace : String) (ancestors : List String)
    (siblings active : ℕ) (limits : GraphLimits) : Type 0 where
  pub not_parent : child ≢ parent.task_id
  pub not_ancestor : contains child ancestors ≡ false
  pub same_workspace : parent.workspace_id ≡ workspace
  pub not_completed : parent.status ≢ "COMPLETED"
  pub not_cancelled : parent.status ≢ "CANCELLED"
  pub depth_fits : parent.depth < limits.delegation_depth
  pub fan_out_fits : siblings < limits.max_fan_out
  pub concurrency_fits : active < limits.concurrent_subtasks

-- A child is admitted exactly under these conditions.
pub validate_new_child-IsAdmissible :
    (parent : ParentView) (child workspace : String) (ancestors : List String) (siblings active : ℕ)
    (limits : GraphLimits)
    → (validate_new_child parent child workspace ancestors siblings active limits ≡ ok tt)
      ↔ IsAdmissible parent child workspace ancestors siblings active limits
unfolding validate_new_child
validate_new_child-IsAdmissible parent child workspace ancestors siblings active limits = (
  (λ h. ground (
    arith,
    str_eq_iff child parent.task_id,
    str_eq_iff parent.workspace_id workspace,
    str_eq_iff parent.status "COMPLETED",
    str_eq_iff parent.status "CANCELLED",
  )),
  (λ h. ground (
    arith,
    str_eq_iff child parent.task_id,
    str_eq_iff parent.workspace_id workspace,
    str_eq_iff parent.status "COMPLETED",
    str_eq_iff parent.status "CANCELLED",
  )),
)

-- Absent and non-positive limits of a channel fall back on the defaults, so no limit is ever 0.
limits_from_policy_positive :
    (limits : Option ChannelLimits)
    → (0 < (limits_from_policy limits).delegation_depth)
      × (0 < (limits_from_policy limits).max_fan_out)
      × (0 < (limits_from_policy limits).concurrent_subtasks)
unfolding limits_from_policy
limits_from_policy_positive limits = ground arith
