-- ===== src/Approvals/Decide/Quorum.antt =====
-- server/approvals/service.py: the quorum of an approval over sequences of calls.
use Prim.Native.String.{◌++◌ as concat}
use agent_colab.Prelude.Transactions.{pure, After, After-bind, After_intro, After_mono}
use agent_colab.Prelude.{
  leb, leb→le, str_eq, Bool-cases, Option-cases, length, All, Result, ok, err, guard, ℕ, ◌+◌, ◌≤◌,
  String, ◌≡◌, refl, sym, ◌∙◌, subst, ◌≢◌, inl, inr, Bool, ◌||◌, Option, some, List, [], ◌∷◌,
}
use agent_colab.Events.Store.{AppendResult, EventStore}
use agent_colab.Approvals.Decide.{
  DecisionError, approval_cancel_forbidden, approve, reject, File, DecisionResult, deciders_of,
  next, Step, moved, set_status, project, Request, decide_approval, terminate, cancel_approval,
  revoke_approval,
}
use agent_colab.Approvals.Model.{
  ApprovalStatus, pending, approved, partially_consumed, consumed, rejected, cancelled, expired,
  revoked, ApprovalEvent, cancelled_, expired_, revoked_, next_status, Grant,
}
use agent_colab.Approvals.Eligibility.{Policy}
use agent_colab.Approvals.Decide.Rules.{after_lift, after_load, after_append}
use agent_colab.Approvals.Decide.Outcome.{Taken, decide_approval-Taken}
use agent_colab.Approvals.Decide.Deciders.{IsApproval, deciders_of-snoc, All-snoc}
use agent_colab.Approvals.Decide.Expire.{is_due, expire_one, expire_due}

module _ (store : EventStore) where
  -- A grant that waits has approvals only, and one that is approved has as many accounts that approved as
  -- its quorum asks for, and no rejection.
  abbrev pub IsSound : File store → Type 0
  IsSound file =
      (grant : Grant)
      → file.grant ≡ some grant
      → (grant.status ≡ pending → All IsApproval file.decisions)
        × (grant.status ≡ approved
            → (grant.quorum_required ≤ length (deciders_of file.decisions))
              × All IsApproval file.decisions)

  -- Calls of the service.
  pub data Call : Type 0 where
    decide_call : Policy → String → Request store → ℕ → Call
    cancel_call : (String → Bool) → String → String → String → String → ℕ → Call
    revoke_call : String → String → String → String → ℕ → Call
    expire_call : Option String → String → String → String → ℕ → ℕ → Call

  -- The file after a call: a call that raises is rolled back.
  pub after_call : Call → File store → File store
  after_call (decide_call policy decision request now) file =
      elim (decide_approval store policy decision request now file) [
        | ok (_, file') ↦ file'
        | err _ ↦ file
      ]
  after_call (cancel_call is_admin actor correlation_id key reason now) file =
      elim (cancel_approval store is_admin actor correlation_id key reason now file) [
        | ok (_, file') ↦ file'
        | err _ ↦ file
      ]
  after_call (revoke_call actor correlation_id key reason now) file =
      elim (revoke_approval store actor correlation_id key reason now file) [
        | ok (_, file') ↦ file'
        | err _ ↦ file
      ]
  after_call (expire_call workspace_uuid actor correlation_id escalated_to now at) file =
      elim (expire_due store workspace_uuid actor correlation_id escalated_to now at file) [
        | ok (_, file') ↦ file'
        | err _ ↦ file
      ]

  pub after_calls : List Call → File store → File store
  after_calls [] file = file
  after_calls (call ∷ calls) file = after_calls calls (after_call call file)

  IsSound-Taken :
      (policy : Policy) (text : String) (request : Request store) (now : ℕ) (file : File store)
      (result : DecisionResult) (file' : File store)
      → IsSound file
      → Taken store policy text request now file result file'
      → IsSound file'
  IsSound-Taken policy text request now file result file' sound
        (
          grant,
          reject,
          approver,
          named,
          there,
          waiting,
          valid,
          entitled,
          ((event_id, added), ((grant', there', status, quorum), _)),
        ) =
      λ other e. let same : other ≡ grant' = cc in ((λ p. cc), (λ p. cc))
  IsSound-Taken policy text request now file result file' sound
        (
          grant,
          approve,
          approver,
          named,
          there,
          waiting,
          valid,
          entitled,
          ((event_id, added), ((grant', there', status, quorum), _)),
        ) =
      λ other e.
        let same : other ≡ grant' = cc in
        let all : All IsApproval file'.decisions =
          subst (All IsApproval) (sym added)
            (All-snoc file.decisions _ ((sound grant there).0 waiting) refl) in
        ((λ p. all), (λ p. (enough other same p, all)))
    where
      enough :
          (other : Grant)
          → other ≡ grant'
          → other.status ≡ approved
          → other.quorum_required ≤ length (deciders_of file'.decisions)
      enough other same p =
          elim (Bool-cases (leb grant.quorum_required (length (deciders_of file.decisions) + 1))) [
            | inl full ↦
                let counted : length (deciders_of file'.decisions)
                    ≡ length (deciders_of file.decisions) + 1 =
                  rw added (deciders_of-snoc file.decisions _ entitled.not_earlier) in
                let terms : other.quorum_required ≡ grant.quorum_required = rw same quorum in
                rw (counted, terms) (leb→le _ _ full)
            | inr short ↦ let still : grant'.status ≡ pending = status ∙ rw short refl in cc
          ]

  -- The events that end a grant.
  data Ending : ApprovalEvent → Type 0 where
    cancelling : Ending cancelled_
    revoking : Ending revoked_
    expiring : Ending expired_

  ended_status :
      (current : ApprovalStatus) {event : ApprovalEvent} (status : ApprovalStatus)
      → Ending event
      → next current event ≡ ok status
      → (status ≢ pending) × (status ≢ approved)
  unfolding next next_status
  ended_status pending status cancelling h = ((λ q. cc), (λ q. cc))
  ended_status pending status revoking h = ((λ q. cc), (λ q. cc))
  ended_status pending status expiring h = ((λ q. cc), (λ q. cc))
  ended_status approved status cancelling h = ((λ q. cc), (λ q. cc))
  ended_status approved status revoking h = ((λ q. cc), (λ q. cc))
  ended_status approved status expiring h = ((λ q. cc), (λ q. cc))
  ended_status partially_consumed status cancelling h = ((λ q. cc), (λ q. cc))
  ended_status partially_consumed status revoking h = ((λ q. cc), (λ q. cc))
  ended_status partially_consumed status expiring h = ((λ q. cc), (λ q. cc))
  ended_status consumed status cancelling h = ((λ q. cc), (λ q. cc))
  ended_status consumed status revoking h = ((λ q. cc), (λ q. cc))
  ended_status consumed status expiring h = ((λ q. cc), (λ q. cc))
  ended_status rejected status cancelling h = ((λ q. cc), (λ q. cc))
  ended_status rejected status revoking h = ((λ q. cc), (λ q. cc))
  ended_status rejected status expiring h = ((λ q. cc), (λ q. cc))
  ended_status cancelled status cancelling h = ((λ q. cc), (λ q. cc))
  ended_status cancelled status revoking h = ((λ q. cc), (λ q. cc))
  ended_status cancelled status expiring h = ((λ q. cc), (λ q. cc))
  ended_status expired status cancelling h = ((λ q. cc), (λ q. cc))
  ended_status expired status revoking h = ((λ q. cc), (λ q. cc))
  ended_status expired status expiring h = ((λ q. cc), (λ q. cc))
  ended_status revoked status cancelling h = ((λ q. cc), (λ q. cc))
  ended_status revoked status revoking h = ((λ q. cc), (λ q. cc))
  ended_status revoked status expiring h = ((λ q. cc), (λ q. cc))

  -- What a cancellation, a revocation or an expiry leaves is neither pending nor approved.
  abbrev IsEnded : File store → Type 0
  IsEnded file =
      (grant : Grant)
      → file.grant ≡ some grant
      → (grant.status ≢ pending) × (grant.status ≢ approved)

  moved-status :
      (status : ApprovalStatus) (seq : ℕ) (grant other : Grant)
      → ◌≡◌ {A = Option Grant}
          (some (record grant { status = status; aggregate_seq = seq }))
          (some other)
      → status ≡ other.status
  moved-status status seq grant other e = cc

  terminate-IsEnded :
      (event : ApprovalEvent) (event_type actor correlation_id key reason scope : String) (now : ℕ)
      (file : File store)
      → Ending event
      → After
          (λ _ file'. IsEnded file')
          (terminate store event event_type actor correlation_id key reason scope now file)
  unfolding terminate set_status project moved
  terminate-IsEnded event event_type actor correlation_id key reason scope now file ending =
      after_load store (λ _ file'. IsEnded file') _ file
        (λ grant there.
          after_lift store (λ _ file'. IsEnded file') (next grant.status event) _ file
            (λ status moves.
              after_append store (λ _ file'. IsEnded file') grant _ _ _ _ _ _ _ file
                (λ appended events. (λ other e.
                  rw
                    (← moved-status status appended.aggregate_seq grant other
                      (rw (← e, there) refl))
                    (ended_status grant.status status ending moves)))))

  kept :
      {A : Type 0} (file : File store)
      → IsSound file
      → (r : Result DecisionError (A × File store)) → After (λ _ file'. IsSound file') r
      → IsSound (elim r [ ok (_, file') ↦ file' | err _ ↦ file ])
  kept file sound (ok (a, file')) h = h
  kept file sound (err e) h = sound

  IsEnded-IsSound : (file : File store) → IsEnded file → IsSound file
  IsEnded-IsSound file ended grant e =
      ((λ p. absurd ((ended grant e).0 p)), (λ p. absurd ((ended grant e).1 p)))

  expire_one-IsEnded :
      (approval_id actor correlation_id escalated_to : String) (now at : ℕ) (file : File store)
      → After
          (λ _ file'. IsEnded file')
          (expire_one store approval_id actor correlation_id escalated_to now at file)
  unfolding expire_one set_status project moved
  expire_one-IsEnded approval_id actor correlation_id escalated_to now at file =
      After-bind Q (λ _ _. Unit {0}) expiry _ file
        (After_intro (λ _ _. Unit {0}) (expiry file) (λ _ _ _. tt))
        (λ _ file1 _. after_load store Q _ file1 (λ grant there.
          after_append store Q grant _ _ _ _ _ _ _ file1 (λ appended events. (λ other e.
            rw (← moved-status expired appended.aggregate_seq grant other (rw (← e, there) refl))
              ((λ q. cc), (λ q. cc))))))
    where
      Q : String → File store → Type 0
      Q _ file' = IsEnded file'

      expiry : Step store AppendResult
      expiry =
          terminate store expired_ "APPROVAL_EXPIRED" actor correlation_id
            (concat "expire:" approval_id) "EXPIRED" "expire" at

  expire_due-IsSound :
      (workspace_uuid : Option String) (actor correlation_id escalated_to : String) (now at : ℕ)
      (file : File store)
      → IsSound file
      → After
          (λ _ file'. IsSound file')
          (expire_due store workspace_uuid actor correlation_id escalated_to now at file)
  unfolding expire_due
  expire_due-IsSound workspace_uuid actor correlation_id escalated_to now at file sound =
      elim (Option-cases file.grant) [
        | inl e ↦ rw (expire_due, e, After) sound
        | inr (grant, e) ↦ elim (Bool-cases (is_due workspace_uuid now grant)) [
          | inr f ↦ rw (expire_due, e, f, After) sound
          | inl f ↦
              rw (expire_due, e, f)
                (After-bind (λ _ file'. IsSound file') (λ _ file'. IsEnded file')
                  (expire_one store grant.approval_id actor correlation_id escalated_to now at)
                  (λ id. pure (id ∷ [])) file
                  (expire_one-IsEnded grant.approval_id actor correlation_id escalated_to now at
                    file)
                  (λ id file1 ended. IsEnded-IsSound file1 ended))
        ]
      ]

  after_call-IsSound :
      (call : Call) (file : File store) → IsSound file → IsSound (after_call call file)
  unfolding after_call cancel_approval revoke_approval
  after_call-IsSound (decide_call policy decision request now) file sound =
      kept file sound (decide_approval store policy decision request now file) (
        After_mono (λ _ file'. IsSound file') (Taken store policy decision request now file)
          (decide_approval store policy decision request now file)
          (λ result file' taken.
            IsSound-Taken policy decision request now file result file' sound taken)
          (decide_approval-Taken store policy decision request now file))
  after_call-IsSound (cancel_call is_admin actor correlation_id key reason now) file sound =
      kept file sound (cancel_approval store is_admin actor correlation_id key reason now file) (
        after_load store Q _ file (λ grant there.
          after_lift store Q
            (guard (str_eq grant.requested_by actor || is_admin actor) approval_cancel_forbidden) _
            file
            (λ _ _.
              After_mono Q (λ _ file'. IsEnded file')
                (terminate store cancelled_ "APPROVAL_CANCELLED" actor correlation_id key reason
                  "cancel" now file)
                (λ _ file' ended. IsEnded-IsSound file' ended)
                (terminate-IsEnded cancelled_ "APPROVAL_CANCELLED" actor correlation_id key reason
                  "cancel" now file cancelling))))
    where
      Q : AppendResult → File store → Type 0
      Q _ file' = IsSound file'
  after_call-IsSound (revoke_call actor correlation_id key reason now) file sound =
      kept file sound (revoke_approval store actor correlation_id key reason now file) (
        After_mono (λ _ file'. IsSound file') (λ _ file'. IsEnded file')
          (terminate store revoked_ "APPROVAL_REVOKED" actor correlation_id key reason "revoke" now
            file)
          (λ _ file' ended. IsEnded-IsSound file' ended)
          (terminate-IsEnded revoked_ "APPROVAL_REVOKED" actor correlation_id key reason "revoke"
            now file revoking))
  after_call-IsSound (expire_call workspace_uuid actor correlation_id escalated_to now at) file
        sound =
      kept file sound
        (expire_due store workspace_uuid actor correlation_id escalated_to now at file)
        (expire_due-IsSound workspace_uuid actor correlation_id escalated_to now at file sound)

  -- Every sequence of decisions, cancellations, revocations and expiries, the failed ones rolled back, keeps this: a
  -- pending grant has no rejection, and an approved one has no rejection and at least as many different
  -- accounts that approved it as its quorum asks for.
  pub after_calls-IsSound :
      (calls : List Call) (file : File store) → IsSound file → IsSound (after_calls calls file)
  unfolding after_calls
  after_calls-IsSound [] file sound = sound
  after_calls-IsSound (call ∷ calls) file sound =
      after_calls-IsSound calls (after_call call file) (after_call-IsSound call file sound)
