-- ===== src/Projections/Tasks/Fold.antt =====
-- server/projections/tasks.py: the rows after a replay, against the fold of server/domain/task.py.
use agent_colab.Prelude.{
  if◌then◌else◌, Bool, ◌&&◌, ◌||◌, String, Option, opt_eq, Bool-cases, Result, ok, err,
  Result-cases, >>=-eq-ok, ◌≡◌, refl, sym, ap, ◌∙◌, inl, inr, true, false, some, List, [], ◌∷◌,
}
use agent_colab.Task.Status.{
  TaskTransitionError, next_status, is_creation, is_verification_result, is_annotation,
}
use agent_colab.Task.State.{Event, TaskState, on_task, apply_event, fold_from}
use agent_colab.Projections.Tasks.{target_of}
use agent_colab.Projections.Tasks.Core.{
  core, core_idem, move-core, annotate-core, apply_result-core, create-core,
}

core_of : Result TaskTransitionError TaskState → Result TaskTransitionError TaskState
core_of (err e) = err e
core_of (ok state) = ok (core state)

apply_event-core :
    (state : TaskState) (event : Event)
    → core_of (apply_event state event) ≡ core_of (apply_event (core state) event)
unfolding core_of apply_event on_task core
apply_event-core state event = elim (Bool-cases (is_creation event.type)) [
  | inl a ↦ elim (Bool-cases (opt_eq event.aggregate_id (some state.task_id))) [
    | inl b ↦ rw (a, b) (ap ok (create-core state event))
    | inr b ↦ rw (a, b) (ap ok (sym (core_idem state)))
  ]
  | inr a ↦ elim (Bool-cases state.exists) [
    | inr b ↦ rw (a, b) (ap ok (sym (core_idem (record state { exists = false }))))
    | inl b ↦ elim (Bool-cases (is_verification_result event.type)) [
      | inl c ↦ rw (a, b, c) (ap ok (apply_result-core (record state { exists = true }) event))
      | inr c ↦ elim (Bool-cases (on_task state event)) [
        | inr d ↦ rw (a, b, c, d) (ap ok (sym (core_idem (record state { exists = true }))))
        | inl d ↦ elim (Bool-cases (is_annotation event.type)) [
          | inl e ↦
              rw (a, b, c, d, e) (ap ok (annotate-core (record state { exists = true }) event))
          | inr e ↦ elim (Result-cases (next_status state.status event.type)) [
            | inr (_, f) ↦ rw (a, b, c, d, e, f) refl
            | inl (target, f) ↦
                rw (a, b, c, d, e, f)
                  (ap ok (move-core (record state { exists = true }) event target))
          ]
        ]
      ]
    ]
  ]
]

-- The reference: the fold, which leaves out an Event that the table does not allow.
unfoldable pub skipping : Event → TaskState → TaskState
skipping event state = elim (apply_event state event) [ ok state' ↦ state' | err _ ↦ state ]

unfoldable pub fold_skipping : TaskState → List Event → TaskState
unfolding skipping
fold_skipping state [] = state
fold_skipping state (event ∷ events) = fold_skipping (skipping event state) events

-- The instant of the last Event of a Task that was written: the Task exists or is created, and the table
-- allows the Event.
unfoldable pub touched : String → Event → TaskState → Option String → Option String
touched task_id event state at =
    if opt_eq (target_of event) (some task_id) && (state.exists || is_creation event.type)
    then elim (apply_event state event) [ ok _ ↦ event.occurred_at | err _ ↦ at ]
    else at

unfoldable pub last_write : String → TaskState → Option String → List Event → Option String
unfolding touched skipping
last_write task_id state at [] = at
last_write task_id state at (event ∷ events) =
    last_write task_id (skipping event state) (touched task_id event state at) events

pub touched-core :
    (task_id : String) (state state' : TaskState) (event : Event) (at : Option String)
    → core state ≡ core state'
    → touched task_id event state at ≡ touched task_id event state' at
unfolding touched core_of core
touched-core task_id state state' event at h =
    let there : state.exists ≡ state'.exists = ap (λ s. s.exists) h in
    let one = same (apply_event state event) (apply_event state' event) (
      apply_event-core state event
      ∙ ap (λ s. core_of (apply_event s event)) h
      ∙ sym (apply_event-core state' event)) in
    ap (λ b. choose b (elim (apply_event state event) [ ok _ ↦ event.occurred_at | err _ ↦ at ]))
      there
    ∙ ap (choose state'.exists) one
  where
    choose : Bool → Option String → Option String
    choose there new =
        if opt_eq (target_of event) (some task_id) && (there || is_creation event.type)
        then new
        else at

    same :
        (a b : Result TaskTransitionError TaskState)
        → core_of a ≡ core_of b
        → (elim a [ ok _ ↦ event.occurred_at | err _ ↦ at ])
          ≡ (elim b [ ok _ ↦ event.occurred_at | err _ ↦ at ])
    same (ok s) (ok t) q = refl
    same (err e) (err f) q = refl
    same (ok s) (err f) q = cc
    same (err e) (ok t) q = cc

pub skipping-core :
    (state state' : TaskState) (event : Event)
    → core state ≡ core state'
    → core (skipping event state) ≡ core (skipping event state')
unfolding skipping core_of
skipping-core state state' event h = one (apply_event state event) (apply_event state' event) (
    apply_event-core state event
    ∙ ap (λ s. core_of (apply_event s event)) h
    ∙ sym (apply_event-core state' event))
  where
    one :
        (a b : Result TaskTransitionError TaskState)
        → core_of a ≡ core_of b
        → core (elim a [ ok s ↦ s | err _ ↦ state ]) ≡ core (elim b [ ok s ↦ s | err _ ↦ state' ])
    one (ok s) (ok t) q = cc
    one (err e) (err f) q = h
    one (ok s) (err f) q = cc
    one (err e) (ok t) q = cc

-- The fold, where it is defined, leaves out nothing.
fold_skipping-ok :
    (state state' : TaskState) (events : List Event)
    → fold_from state events ≡ ok state'
    → fold_skipping state events ≡ state'
unfolding fold_skipping fold_from skipping
fold_skipping-ok state state' [] h = cc
fold_skipping-ok state state' (event ∷ events) h =
    let (next, e, f) = >>=-eq-ok (apply_event state event) (λ s. fold_from s events) h in
    let left : skipping event state ≡ next = rw (skipping, e) refl in
    ap (λ s. fold_skipping s events) left ∙ fold_skipping-ok next state' events f
