-- ===== src/Task/State/Applied.antt =====
-- server/domain/task.py: the ways in which `apply_event` changes a state, as a step relation.
use agent_colab.Prelude.{
  opt_eq, Bool-cases, Result, ok, err, Result-cases, ◌≡◌, refl, subst, inl, inr, true, false, some,
}
use agent_colab.Task.Status.{
  TaskStatus, TaskTransitionError, next_status, is_creation, is_verification_result, is_annotation,
}
use agent_colab.Task.State.{
  Event, TaskState, create, apply_result, annotate, move, on_task, apply_event,
}

pub data Applied (s : TaskState) (e : Event) : TaskState → Type 0 where
  ignored : Applied s e s
  created :
      is_creation e.type ≡ true
      → opt_eq e.aggregate_id (some s.task_id) ≡ true
      → Applied s e (create s e)
  judged :
      is_creation e.type ≡ false
      → s.exists ≡ true
      → is_verification_result e.type ≡ true
      → Applied s e (apply_result s e)
  annotated :
      is_creation e.type ≡ false
      → s.exists ≡ true
      → is_verification_result e.type ≡ false
      → on_task s e ≡ true
      → is_annotation e.type ≡ true
      → Applied s e (annotate s e)
  moved :
      {t : TaskStatus}
      → is_creation e.type ≡ false
      → s.exists ≡ true
      → is_verification_result e.type ≡ false
      → on_task s e ≡ true
      → is_annotation e.type ≡ false
      → next_status s.status e.type ≡ ok t
      → Applied s e (move s e t)

abbrev Outcome : TaskState → Event → Result TaskTransitionError TaskState → Type 0
Outcome s e (ok s') = Applied s e s'
Outcome s e (err x) = next_status s.status e.type ≡ err x

outcome : (s : TaskState) (e : Event) → Outcome s e (apply_event s e)
unfolding apply_event
outcome s e = elim (Bool-cases (is_creation e.type)) [
  | inl c ↦ elim (Bool-cases (opt_eq e.aggregate_id (some s.task_id))) [
    | inl o ↦ rw (c, o) (created c o)
    | inr o ↦ rw (c, o) ignored
  ]
  | inr c ↦ elim (Bool-cases s.exists) [
    | inr x ↦ simp (c, x) ignored
    | inl x ↦ elim (Bool-cases (is_verification_result e.type)) [
      | inl r ↦ simp (c, x, r) (judged c x r)
      | inr r ↦ elim (Bool-cases (on_task s e)) [
        | inr o ↦ simp (c, x, r, o) ignored
        | inl o ↦ elim (Bool-cases (is_annotation e.type)) [
          | inl a ↦ simp (c, x, r, o, a) (annotated c x r o a)
          | inr a ↦ elim (Result-cases (next_status s.status e.type)) [
            | inl (t, n) ↦ simp (c, x, r, o, a, n) (moved c x r o a n)
            | inr (y, n) ↦ simp (c, x, r, o, a, n) refl
          ]
        ]
      ]
    ]
  ]
]

-- Whatever `apply_event` returns is one of the steps.
pub apply_event-Applied :
    (s : TaskState) (e : Event) {s' : TaskState} → apply_event s e ≡ ok s' → Applied s e s'
apply_event-Applied s e q = subst (Outcome s e) q (outcome s e)

-- It raises only what `next_status` raises.
pub apply_event_raises :
    (s : TaskState) (e : Event) {x : TaskTransitionError}
    → apply_event s e ≡ err x
    → next_status s.status e.type ≡ err x
apply_event_raises s e q = subst (Outcome s e) q (outcome s e)
