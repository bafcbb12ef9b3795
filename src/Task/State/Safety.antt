-- ===== src/Task/State/Safety.antt =====
-- server/domain/task.py: what holds of every folded Task state.
use agent_colab.Prelude.{ok, >>=-eq-ok, String, ◌≡◌, ◌⊎◌, true, false, some, List, [], ◌∷◌, arith}
use agent_colab.Task.Status.{
  TaskStatus, verifying, verified, completed, transitions, next_status, is_verification_result,
}
use agent_colab.Task.State.Applied.{
  Applied, ignored, created, judged, annotated, moved, apply_event-Applied,
}
use agent_colab.Task.State.{
  pending, passed, Event, TaskState, new_state, create, land, apply_result, annotate, move,
  apply_event, fold_from, fold,
}

-- What the status says of the verification.
pub record IsSafe (s : TaskState) : Type 0 where
  pub verified_passed :
      (s.status ≡ verified) ⊎ (s.status ≡ completed) → s.verification_status ≡ some passed
  pub verifying_pending : s.status ≡ verifying → s.verification_status ≡ some pending

land-IsSafe :
    (s : TaskState) (e : Event)
    → IsSafe s
    → is_verification_result e.type ≡ true
    → IsSafe (land s e (transitions s.status e.type))
unfolding land transitions is_verification_result
land-IsSafe s e h r = ground arith

apply_result-IsSafe :
    (s : TaskState) (e : Event)
    → IsSafe s
    → is_verification_result e.type ≡ true
    → IsSafe (apply_result s e)
unfolding apply_result
apply_result-IsSafe s e h r = ground (arith, land-IsSafe s e)

move-IsSafe :
    (s : TaskState) (e : Event) {t : TaskStatus}
    → IsSafe s
    → is_verification_result e.type ≡ false
    → next_status s.status e.type ≡ ok t
    → IsSafe (move s e t)
unfolding move next_status is_verification_result
move-IsSafe s e h r n = ground arith

create-IsSafe : (s : TaskState) (e : Event) → IsSafe (create s e)
unfolding create
create-IsSafe s e = ground arith

annotate-IsSafe : (s : TaskState) (e : Event) → IsSafe s → IsSafe (annotate s e)
unfolding annotate
annotate-IsSafe s e h = ground arith

Applied-IsSafe :
    {s : TaskState} {e : Event} {s' : TaskState} → Applied s e s' → IsSafe s → IsSafe s'
Applied-IsSafe ignored h = h
Applied-IsSafe (created c o) h = create-IsSafe _ _
Applied-IsSafe (judged c x r) h = apply_result-IsSafe _ _ h r
Applied-IsSafe (annotated c x r o a) h = annotate-IsSafe _ _ h
Applied-IsSafe (moved c x r o a n) h = move-IsSafe _ _ h r n

fold_from-IsSafe :
    (s : TaskState) (es : List Event) {s' : TaskState}
    → IsSafe s
    → fold_from s es ≡ ok s'
    → IsSafe s'
unfolding fold_from
fold_from-IsSafe s [] h q = ground arith
fold_from-IsSafe s (e ∷ es) h q =
    let (s₁, first, rest) = >>=-eq-ok (apply_event s e) (λ t. fold_from t es) q in
    fold_from-IsSafe s₁ es (Applied-IsSafe (apply_event-Applied s e first) h) rest

-- Whatever the events, a Task that the fold shows as VERIFIED or COMPLETED has a verification that
-- passed, and one that it shows as VERIFYING has a verification that is pending.
pub fold-IsSafe :
    (task_id : String) (events : List Event) {s : TaskState} → fold task_id events ≡ ok s → IsSafe s
unfolding fold
fold-IsSafe task_id events q = fold_from-IsSafe (new_state task_id) _ (ground arith) q
