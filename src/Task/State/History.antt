-- ===== src/Task/State/History.antt =====
-- server/domain/task.py: what a folded state says of the events before it.
use agent_colab.Prelude.{
  opt_eq, Bool-cases, any, sorted, HasDistinctKeys, sorted_unique, any-sorted, Result, ok, err,
  >>=-eq-ok, Result-cases, String, ◌≡◌, refl, sym, ap, ◌∙◌, subst, ◌⊎◌, inl, inr, Bool, true, false,
  ◌&&◌, some, Permᴰ, List, [], ◌∷◌, arith,
}
use agent_colab.Task.Status.{
  TaskStatus, verified, completed, EventType, verification_passed, is_terminal, transitions,
  TaskTransitionError, task_terminal, next_status, is_creation, is_verification_result,
}
use agent_colab.Task.State.Applied.{
  Applied, ignored, created, judged, annotated, moved, apply_event-Applied, apply_event_raises,
}
use agent_colab.Task.State.{
  Event, TaskState, new_state, create, land, apply_result, annotate, detail, move, apply_event,
  fold_from, recorded, fold,
}

abbrev is_verified : TaskStatus → Bool
is_verified verified = true
is_verified completed = true
is_verified _ = false

abbrev is_passed : EventType → Bool
is_passed verification_passed = true
is_passed _ = false

-- A VERIFICATION_PASSED event for the Task.
abbrev pub passes : String → Event → Bool
passes task_id e = is_passed e.type && opt_eq e.task_id (some task_id)

-- The Task that a state is about never changes.
task_id-Applied :
    {s : TaskState} {e : Event} {s' : TaskState} → Applied s e s' → s'.task_id ≡ s.task_id
unfolding create apply_result land annotate move detail
task_id-Applied ignored = refl
task_id-Applied (created c o) = refl
task_id-Applied {s} {e = e} (judged c x r) = ground arith
task_id-Applied (annotated c x r o a) = refl
task_id-Applied {s} {e = e} (moved c x r o a n) = ground arith

verified_by :
    {s : TaskState} {e : Event} {s' : TaskState}
    → Applied s e s'
    → is_verified s'.status ≡ true
    → (is_verified s.status ≡ true) ⊎ (passes s.task_id e ≡ true)
unfolding create apply_result land annotate move detail next_status transitions
    is_verification_result
verified_by ignored v = inl v
verified_by (created c o) v = cc
verified_by {s} {e = e} (judged c x r) v = ground arith
verified_by (annotated c x r o a) v = inl v
verified_by {s} {e = e} (moved c x r o a n) v = ground arith

fold_from-verified_by :
    (s : TaskState) (es : List Event) {s' : TaskState}
    → fold_from s es ≡ ok s'
    → is_verified s'.status ≡ true
    → (is_verified s.status ≡ true) ⊎ (any (passes s.task_id) es ≡ true)
unfolding fold_from
fold_from-verified_by s [] q v = ground arith
fold_from-verified_by s (e ∷ es) q v =
    let (s₁, first, rest) = >>=-eq-ok (apply_event s e) (λ t. fold_from t es) q in
    let step = apply_event-Applied s e first in
    ground (
      arith,
      fold_from-verified_by s₁ es rest v,
      task_id-Applied step,
      verified_by step,
      Bool-cases (passes s.task_id e),
    )

-- A Task that the fold shows as VERIFIED or COMPLETED has among its events a VERIFICATION_PASSED
-- that names it.
pub verified_needs_passed :
    (task_id : String) (events : List Event) {s : TaskState}
    → fold task_id events ≡ ok s
    → (s.status ≡ verified) ⊎ (s.status ≡ completed)
    → any (passes task_id) events ≡ true
unfolding fold
verified_needs_passed task_id events {s} q v = ground (
  arith,
  fold_from-verified_by (new_state task_id) (sorted recorded events) q,
  any-sorted recorded (passes task_id) events,
)

-- The status of a terminal Task.
terminal-Applied :
    {s : TaskState} {e : Event} {s' : TaskState}
    → Applied s e s'
    → is_creation e.type ≡ false
    → is_terminal s.status ≡ true
    → s'.status ≡ s.status
unfolding apply_result land annotate next_status transitions is_terminal
terminal-Applied ignored n t = refl
terminal-Applied (created c o) n t = cc
terminal-Applied {s} {e = e} (judged c x r) n t = ground arith
terminal-Applied (annotated c x r o a) n t = refl
terminal-Applied {s} {e = e} (moved c x r o a q) n t = ground arith

next_status_terminal :
    (s : TaskStatus) (t : EventType) → is_terminal s ≡ true → next_status s t ≡ err task_terminal
unfolding next_status
next_status_terminal s t h = ground arith

abbrev pub IsFinal : TaskState → Result TaskTransitionError TaskState → Type 0
IsFinal s (ok s') = s'.status ≡ s.status
IsFinal s (err x) = x ≡ task_terminal

IsFinal-next :
    (s s₁ : TaskState) (r : Result TaskTransitionError TaskState)
    → s₁.status ≡ s.status
    → IsFinal s₁ r
    → IsFinal s r
IsFinal-next s s₁ (ok s') e h = h ∙ e
IsFinal-next s s₁ (err x) e h = h

-- COMPLETED and CANCELLED are final: later events, none of which creates the Task anew, either leave
-- the status as it is, or make the fold raise TASK_TERMINAL.
pub terminal-IsFinal :
    (s : TaskState) (es : List Event)
    → any (λ e. is_creation e.type) es ≡ false
    → is_terminal s.status ≡ true
    → IsFinal s (fold_from s es)
unfolding fold_from
terminal-IsFinal s [] n t = refl
terminal-IsFinal s (e ∷ es) n t = elim (Result-cases (apply_event s e)) [
  | inl (s₁, first) ↦
      let same : s₁.status ≡ s.status =
        terminal-Applied (apply_event-Applied s e first) (ground arith) t in
      rw first (
        IsFinal-next s s₁ (fold_from s₁ es) same
          (terminal-IsFinal s₁ es (ground arith) (subst (λ u. is_terminal u ≡ true) (sym same) t)))
  | inr (x, raised) ↦
      rw raised
        (ground (arith, apply_event_raises s e raised, next_status_terminal s.status e.type t))
]

-- The order in which the events are listed does not matter, if their recorded_seq differ.
pub fold-perm :
    (task_id : String) (events events' : List Event)
    → Permᴰ events events'
    → HasDistinctKeys recorded events
    → fold task_id events ≡ fold task_id events'
unfolding fold
fold-perm task_id events events' p h =
    ap (fold_from (new_state task_id)) (sorted_unique recorded p h)
