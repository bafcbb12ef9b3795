-- ===== src/Approvals/Decide/Expire.antt =====
-- server/approvals/service.py: `expire_approvals`, over the files of the approvals in the order of their
-- ids, which share the Event store.
use Prim.Native.String.{◌++◌ as concat}
use agent_colab.Prelude.Transactions.{◌>>=◌, ◌>>◌, pure}
use agent_colab.Prelude.{
  leb, if◌then◌else◌, str_eq, Result, ok, err, ℕ, String, Bool, true, false, ◌&&◌, Option, none,
  some, List, [], ◌∷◌, ◌++◌,
}
use agent_colab.Events.Store.{str, EventStore}
use agent_colab.Approvals.Decide.{
  DecisionError, File, Step, load_grant, append, set_status, project, terminate,
}
use agent_colab.Approvals.Model.{
  ApprovalStatus, pending, approved, partially_consumed, expired, expired_, Grant,
}

-- `status IN ('PENDING','APPROVED','PARTIALLY_CONSUMED')`
may_expire : ApprovalStatus → Bool
may_expire pending = true
may_expire approved = true
may_expire partially_consumed = true
may_expire _ = false

in_workspace : Option String → String → Bool
in_workspace none workspace_uuid = true
in_workspace (some wanted) workspace_uuid = str_eq workspace_uuid wanted

-- The WHERE clause.
pub is_due : Option String → ℕ → Grant → Bool
unfolding may_expire in_workspace
is_due workspace_uuid now grant =
    may_expire grant.status
    && leb grant.expires_at now
    && in_workspace workspace_uuid grant.workspace_uuid

module _ (store : EventStore) where
  -- The body of the loop; `at` is the clock's reading in `_terminate`.
  unfoldable pub expire_one : String → String → String → String → ℕ → ℕ → Step store String
  expire_one approval_id actor correlation_id escalated_to now at = do
    _ ←
        terminate store expired_ "APPROVAL_EXPIRED" actor correlation_id
          (concat "expire:" approval_id) "EXPIRED" "expire" at
    grant ← load_grant store
    appended ←
        append store grant "APPROVAL_ESCALATED" actor correlation_id "escalate"
          (concat "escalate:" approval_id)
          (("approval_id", str approval_id) ∷ ("escalated_to_role", str escalated_to) ∷ [])
    set_status store expired appended.aggregate_seq
    project store expired appended.event_id now
    pure approval_id

  -- One row of the query, or a row that it leaves out.
  unfoldable pub expire_due :
      Option String → String → String → String → ℕ → ℕ → Step store (List String)
  unfolding expire_one is_due
  expire_due workspace_uuid actor correlation_id escalated_to now at file = elim file.grant [
    | none ↦ ok ([], file)
    | some grant ↦
        if is_due workspace_uuid now grant
        then (expire_one grant.approval_id actor correlation_id escalated_to now at >>= λ id.
              pure (id ∷ []))
            file
        else ok ([], file)
  ]

  -- `expire_approvals`: the ids that expired, the files and the Events.
  pub expire_approvals :
      Option String
      → String
      → String
      → String
      → ℕ
      → ℕ
      → List (File store)
      → store.State
      → Result DecisionError (List String × List (File store) × store.State)
  unfolding expire_due
  expire_approvals workspace_uuid actor correlation_id escalated_to now at [] events =
      ok ([], [], events)
  expire_approvals workspace_uuid actor correlation_id escalated_to now at (file ∷ files) events =
      elim (expire_due workspace_uuid actor correlation_id escalated_to now at
        (record file { events = events })) [
          | err e ↦ err e
          | ok (ids, file') ↦
              elim (expire_approvals workspace_uuid actor correlation_id escalated_to now at files
                file'.events) [
                  | err e ↦ err e
                  | ok (rest, files', events') ↦ ok (ids ++ rest, file' ∷ files', events')
                ]
        ]
