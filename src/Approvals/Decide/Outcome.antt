-- ===== src/Approvals/Decide/Outcome.antt =====
-- server/approvals/service.py: what a decision that is taken leaves behind.
-- The status that a decision gives, with this quorum and this number of earlier deciders.
use agent_colab.Prelude.Transactions.{After, After_mono}
use agent_colab.Prelude.{
  str_eq, str_eq_iff, ltb, leb, if◌then◌else◌, ltb→lt, Bool-cases, Option-cases, length, ok,
  Result-cases, guard, guard-ok, ℕ, ◌+◌, ◌<◌, String, ◌≡◌, refl, ap, ◌∙◌, inl, inr, true, false,
  some, List, [], ◌∷◌, ◌++◌,
}
use agent_colab.Events.Store.{AppendResult, EventStore}
use agent_colab.Approvals.Decide.{
  approval_not_pending, approval_not_usable, Decision, approve, reject, File, DecisionResult,
  deciders_of, decision_of, is_pending, next, moved, set_status, project, record_decision, Request,
  row, settle, reject_branch, grant_branch, last_event, wait_branch, by_decision, eligible, decide,
  decide_approval,
}
use agent_colab.Approvals.Model.{
  ApprovalStatus, pending, approved, partially_consumed, consumed, rejected, cancelled, expired,
  revoked, ApprovalEvent, granted_, rejected_, next_status, Grant,
}
use agent_colab.Approvals.Eligibility.{Principal, Policy, check_eligibility}
use agent_colab.Approvals.Decide.Rules.{after_lift, after_load, after_append}
use agent_colab.Approvals.Decide.Entitled.{IsEntitled, check_eligibility-IsEntitled}

-- The text of a decision.
abbrev pub text_of : Decision → String
text_of approve = "APPROVE"
text_of reject = "REJECT"

abbrev pub status_given : Decision → ℕ → ℕ → ApprovalStatus
status_given reject quorum earlier = rejected
status_given approve quorum earlier = if leb quorum (earlier + 1) then approved else pending

module _ (store : EventStore) where
  -- The row of the grant has this status, and otherwise the terms that it had.
  abbrev pub HasStatus : Grant → ApprovalStatus → File store → Type 0
  HasStatus grant status file =
      (grant' : Grant) × (file.grant ≡ some grant')
      × (grant'.status ≡ status)
      × (grant'.quorum_required ≡ grant.quorum_required)

  -- One decision of this approver was added, and the status moved as it should.
  abbrev pub Decided :
      Decision
      → Request store
      → Grant
      → Principal
      → List String
      → File store
      → DecisionResult
      → File store
      → Type 0
  Decided decision request grant approver prior file result file' =
      ((event_id : String) × (file'.decisions
          ≡ file.decisions
            ++ record {
              decided_by = approver.account_uuid;
              decision = decision;
              credential_fingerprint = request.credential_fingerprint;
              reauth_verified = request.reauth_verified;
              event_id = event_id;
            }
              ∷ []))
      × (HasStatus grant (status_given decision grant.quorum_required (length prior)) file'
          × (result.status ≡ status_given decision grant.quorum_required (length prior)))

  settle-Decided :
      (decision : Decision) (event : ApprovalEvent) (request : Request store) (grant : Grant)
      (approver : Principal) (prior : List String) (recorded now : ℕ) (appended : AppendResult)
      (file : File store) (events : store.State)
      → file.grant ≡ some grant
      → next grant.status event ≡ ok (status_given decision grant.quorum_required (length prior))
      → After (Decided decision request grant approver prior file) (
          settle store request grant approver decision event recorded now appended
            (record file { events = events }))
  unfolding settle record_decision set_status project row moved
  settle-Decided decision event request grant approver prior recorded now appended file events there
        moves =
      rw (settle, moves, there)
        (
          (appended.event_id, refl),
          (
            (
              record grant {
                status = status_given decision grant.quorum_required (length prior);
                aggregate_seq = appended.aggregate_seq;
              },
              refl,
              refl,
              refl,
            ),
            refl,
          ),
        )

  wait-Decided :
      (request : Request store) (grant : Grant) (approver : Principal) (prior : List String)
      (now : ℕ) (file : File store)
      → file.grant ≡ some grant
      → grant.status ≡ pending
      → leb grant.quorum_required (length prior + 1) ≡ false
      → After
          (Decided approve request grant approver prior file)
          (wait_branch store request grant approver prior now file)
  unfolding wait_branch last_event record_decision project row
  wait-Decided request grant approver prior now file there open_grant short =
      elim (Option-cases
        (store.last_event_id grant.workspace_uuid "approval" grant.approval_id file.events)) [
          | inl e ↦ rw (wait_branch, e, After) tt
          | inr (event_id, e) ↦
              rw (wait_branch, e, After)
                ((event_id, refl), ((grant, there, rw short open_grant, refl), rw short refl))
        ]

  by_decision-Decided :
      (decision : Decision) (request : Request store) (grant : Grant) (approver : Principal)
      (prior : List String) (now : ℕ) (file : File store)
      → file.grant ≡ some grant
      → grant.status ≡ pending
      → After
          (Decided decision request grant approver prior file)
          (by_decision store decision request grant approver prior now file)
  unfolding by_decision reject_branch grant_branch next next_status
  by_decision-Decided reject request grant approver prior now file there waiting =
      after_append store (Decided reject request grant approver prior file) grant _ _ _ _ _ _ _ file
        (λ appended events.
          settle-Decided reject rejected_ request grant approver prior _ now appended file events
            there (rw waiting refl))
  by_decision-Decided approve request grant approver prior now file there waiting =
      elim (Bool-cases (leb grant.quorum_required (length prior + 1))) [
        | inr short ↦
            rw (by_decision, short)
              (wait-Decided request grant approver prior now file there waiting short)
        | inl full ↦
            rw (by_decision, full)
              (after_append store (Decided approve request grant approver prior file) grant _ _ _ _
                _ _ _ file
                (λ appended events.
                  settle-Decided approve granted_ request grant approver prior _ now appended file
                    events there (rw (waiting, full) refl)))
      ]

  -- What is true of the grant, the approver and the decision of a call that returns.
  abbrev pub Taken :
      Policy → String → Request store → ℕ → File store → DecisionResult → File store → Type 0
  Taken policy text request now file result file' =
      (grant : Grant) × (decision : Decision) × (approver : Principal) × (text ≡ text_of decision)
      × (file.grant ≡ some grant)
      × (grant.status ≡ pending)
      × (now < grant.expires_at)
      × IsEntitled policy request.approver_account_id grant (deciders_of file.decisions)
          request.reauth_verified now approver
      × Decided decision request grant approver (deciders_of file.decisions) file result file'

  eligible-ok :
      (policy : Policy) (request : Request store) (grant : Grant) (prior : List String) (now : ℕ)
      (approver : Principal)
      → eligible store policy request grant prior now ≡ ok approver
      → IsEntitled policy request.approver_account_id grant prior request.reauth_verified now
          approver
  unfolding eligible
  eligible-ok policy request grant prior now approver =
      elim (Result-cases (
        check_eligibility policy request.approver_account_id grant prior request.reauth_verified
          now)) [
            | inl (found, e) ↦
                rw (eligible, e)
                  (λ h.
                    check_eligibility-IsEntitled policy request.approver_account_id grant prior
                      request.reauth_verified now approver
                      (let same : found ≡ approver = cc in e ∙ ap ok same))
            | inr (code, e) ↦ rw (eligible, e) (λ h. cc)
          ]

  pending-ok : (status : ApprovalStatus) → is_pending status ≡ true → status ≡ pending
  unfolding is_pending
  pending-ok pending h = refl
  pending-ok approved h = cc
  pending-ok partially_consumed h = cc
  pending-ok consumed h = cc
  pending-ok rejected h = cc
  pending-ok cancelled h = cc
  pending-ok expired h = cc
  pending-ok revoked h = cc

  decide-Taken :
      (policy : Policy) (text : String) (decision : Decision) (request : Request store) (now : ℕ)
      (file : File store)
      → text ≡ text_of decision
      → After (Taken policy text request now file) (decide store policy decision request now file)
  unfolding decide
  decide-Taken policy text decision request now file named =
      after_load store Q _ file (λ grant there.
        after_lift store Q (guard (is_pending grant.status) approval_not_pending) _ file (λ _ waits.
          after_lift store Q (guard (ltb now grant.expires_at) approval_not_usable) _ file
            (λ _ valid.
              after_lift store Q
                (eligible store policy request grant (deciders_of file.decisions) now) _ file
                (λ approver entitled.
                  let waiting : grant.status ≡ pending =
                    pending-ok grant.status (guard-ok _ approval_not_pending waits) in
                  After_mono Q
                    (Decided decision request grant approver (deciders_of file.decisions) file)
                    (by_decision store decision request grant approver (deciders_of file.decisions)
                      now file)
                    (λ result file' made. (
                      grant,
                      decision,
                      approver,
                      named,
                      there,
                      waiting,
                      ltb→lt now grant.expires_at (guard-ok _ approval_not_usable valid),
                      eligible-ok policy request grant (deciders_of file.decisions) now approver
                          entitled,
                      made,
                    ))
                    (by_decision-Decided decision request grant approver
                      (deciders_of file.decisions) now file there waiting)))))
    where
      Q : DecisionResult → File store → Type 0
      Q = Taken policy text request now file

  decision_of-ok :
      (text : String) (decision : Decision)
      → decision_of text ≡ ok decision
      → text ≡ text_of decision
  unfolding decision_of
  decision_of-ok text decision = elim (Bool-cases (str_eq text "APPROVE")) [
    | inl e ↦
        rw (decision_of, e)
          (λ h. let own : approve ≡ decision = cc in rw (← own) ((str_eq_iff text "APPROVE").0 e))
    | inr e ↦ elim (Bool-cases (str_eq text "REJECT")) [
      | inl f ↦
          rw (decision_of, e, f)
            (λ h. let own : reject ≡ decision = cc in rw (← own) ((str_eq_iff text "REJECT").0 f))
      | inr f ↦ rw (decision_of, e, f) (λ h. cc)
    ]
  ]

  -- A decision that returns is taken on a pending grant before its expiry, by an active account that is
  -- neither the requester nor the implementing Agent nor an alias of them, has not decided before, is
  -- human where a human is needed, is authorized by a matched role that covers the risk, and has freshly
  -- authenticated from risk HIGH on. It adds one row of this approver with the decision that the request
  -- names; REJECT rejects the grant, and APPROVE approves it when the deciders reach the quorum and leaves it
  -- pending otherwise.
  pub decide_approval-Taken :
      (policy : Policy) (decision : String) (request : Request store) (now : ℕ) (file : File store)
      → After
          (Taken policy decision request now file)
          (decide_approval store policy decision request now file)
  unfolding decide_approval
  decide_approval-Taken policy decision request now file =
      after_lift store (Taken policy decision request now file) (decision_of decision) _ file
        (λ chosen e.
          decide-Taken policy decision chosen request now file (decision_of-ok decision chosen e))
