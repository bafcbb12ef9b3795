-- ===== src/Projections/Tasks/Kept.antt =====
-- server/domain/task.py: the id of a Task through the fold, and the Events that are not about it.
-- A Task that exists, with this id.
use agent_colab.Prelude.{
  str_eq_refl, str_differ, opt_eq, opt_eq→eq, Bool-cases, &&-both, Result, ok, Result-cases, String,
  ◌≡◌, refl, ◌≢◌, ◌⊎◌, inl, inr, true, false, Option, none, some,
}
use agent_colab.Task.Status.{
  TaskStatus, EventType, task_created, subtask_created, task_delegated, task_reassigned,
  task_accepted, task_started, task_waiting, task_progress_reported, implementation_submitted,
  task_verification_started, task_completed, task_cancelled, task_cancel_requested,
  verification_passed, verification_failed, verification_blocked, task_join_satisfied, other,
  transitions, TaskTransitionError, next_status, is_creation, is_verification_result, is_annotation,
}
use agent_colab.Task.State.{
  Event, TaskState, create, land, apply_result, annotate, assign, detail, move, on_task,
  apply_event,
}
use agent_colab.Projections.Tasks.{is_falsy, target_of}

abbrev pub IsTask : String → TaskState → Type 0
IsTask task_id state = (state.task_id ≡ task_id) × (state.exists ≡ true)

detail-IsTask :
    (task_id : String) (type : EventType) (state : TaskState) (event : Event)
    → IsTask task_id state
    → IsTask task_id (detail type state event)
unfolding detail assign
detail-IsTask task_id task_created state event h = h
detail-IsTask task_id subtask_created state event h = h
detail-IsTask task_id task_delegated state event h = h
detail-IsTask task_id task_reassigned state event h = h
detail-IsTask task_id task_accepted state event h = h
detail-IsTask task_id task_started state event h = h
detail-IsTask task_id task_waiting state event h = h
detail-IsTask task_id task_progress_reported state event h = h
detail-IsTask task_id implementation_submitted state event h = h
detail-IsTask task_id task_verification_started state event h = h
detail-IsTask task_id task_completed state event h = h
detail-IsTask task_id task_cancelled state event h = h
detail-IsTask task_id task_cancel_requested state event h = h
detail-IsTask task_id verification_passed state event h = h
detail-IsTask task_id verification_failed state event h = h
detail-IsTask task_id verification_blocked state event h = h
detail-IsTask task_id task_join_satisfied state event h = h
detail-IsTask task_id (other name) state event h = h

land-IsTask :
    (task_id : String) (state : TaskState) (event : Event) (target : Option TaskStatus)
    → IsTask task_id state
    → IsTask task_id (land state event target)
unfolding land
land-IsTask task_id state event none h = h
land-IsTask task_id state event (some target) h = h

apply_result-IsTask :
    (task_id : String) (state : TaskState) (event : Event)
    → IsTask task_id state
    → IsTask task_id (apply_result state event)
unfolding apply_result
apply_result-IsTask task_id state event h =
    elim (Bool-cases (opt_eq event.task_id (some state.task_id))) [
      | inr e ↦ rw (apply_result, e) h
      | inl e ↦
          elim (Bool-cases (opt_eq event.payload.verification_id state.active_verification_id)) [
            | inr f ↦ rw (apply_result, e, f) h
            | inl f ↦
                rw (apply_result, e, f)
                  (land-IsTask task_id state event (transitions state.status event.type) h)
          ]
    ]

ok-IsTask :
    (task_id : String) (state state' : TaskState)
    → IsTask task_id state
    → ◌≡◌ {A = Result TaskTransitionError TaskState} (ok state) (ok state')
    → IsTask task_id state'
ok-IsTask task_id state state' h e = let same : state ≡ state' = cc in rw (← same) h

-- What the fold gives is the Task, where it existed or was created.
pub apply_event-IsTask :
    (state : TaskState) (event : Event) (state' : TaskState)
    → (state.exists ≡ true)
      ⊎ ((is_creation event.type ≡ true) × (event.aggregate_id ≡ some state.task_id))
    → apply_event state event ≡ ok state'
    → IsTask state.task_id state'
unfolding apply_event create on_task annotate move
apply_event-IsTask state event state' start = elim (Bool-cases (is_creation event.type)) [
  | inl a ↦ elim (Bool-cases (opt_eq event.aggregate_id (some state.task_id))) [
    | inl b ↦
        rw (apply_event, a, b) (ok-IsTask state.task_id (create state event) state' (refl, refl))
    | inr b ↦
        rw (apply_event, a, b)
          (ok-IsTask state.task_id state state' (
            refl,
            elim start [
              | inl there ↦ there
              | inr (_, q) ↦
                  let own : opt_eq event.aggregate_id (some state.task_id) ≡ true =
                    rw q (str_eq_refl state.task_id) in
                  cc
            ],
          ))
  ]
  | inr a ↦
      let there : state.exists ≡ true = elim start [ inl there ↦ there | inr (c, _) ↦ cc ] in
      elim (Bool-cases (is_verification_result event.type)) [
        | inl c ↦
            rw (apply_event, a, there, c)
              (ok-IsTask state.task_id (apply_result (record state { exists = true }) event) state'
                (apply_result-IsTask state.task_id (record state { exists = true }) event
                  (refl, refl)))
        | inr c ↦ elim (Bool-cases (on_task state event)) [
          | inr d ↦
              rw (apply_event, a, there, c, d)
                (ok-IsTask state.task_id (record state { exists = true }) state' (refl, refl))
          | inl d ↦ elim (Bool-cases (is_annotation event.type)) [
            | inl e ↦
                rw (apply_event, a, there, c, d, e)
                  (ok-IsTask state.task_id (annotate (record state { exists = true }) event) state'
                    (refl, refl))
            | inr e ↦ elim (Result-cases (next_status state.status event.type)) [
              | inr (_, f) ↦ rw (apply_event, a, there, c, d, e, f) (λ h. cc)
              | inl (target, f) ↦
                  rw (apply_event, a, there, c, d, e, f)
                    (ok-IsTask state.task_id (move (record state { exists = true }) event target)
                      state' (detail-IsTask state.task_id event.type _ event (refl, refl)))
            ]
          ]
        ]
      ]
]

-- The Events of the streams: the creation of a Task is on its own aggregate, the result of a verification
-- is on another, and no Task has the empty id.
abbrev pub IsOfStreams : Event → Type 0
IsOfStreams event =
    (is_creation event.type ≡ true → opt_eq event.aggregate_type (some "task") ≡ true)
    × (is_verification_result event.type ≡ true → opt_eq event.aggregate_type (some "task") ≡ false)

-- An Event that the projector gives to another Task, or to none, does not change this one.
pub apply_event_other :
    (state : TaskState) (event : Event)
    → IsOfStreams event
    → state.task_id ≢ ""
    → target_of event ≢ some state.task_id
    → apply_event state event ≡ ok state
unfolding apply_event target_of is_falsy on_task apply_result
apply_event_other state event streams named foreign = elim (Bool-cases (is_creation event.type)) [
  | inl a ↦ elim (Bool-cases (opt_eq event.aggregate_id (some state.task_id))) [
    | inr b ↦ rw (apply_event, a, b) refl
    | inl b ↦ absurd (
        foreign (rw (target_of, streams.0 a) (opt_eq→eq event.aggregate_id (some state.task_id) b)))
  ]
  | inr a ↦ elim (Bool-cases state.exists) [
    | inr b ↦ rw (apply_event, a, b) refl
    | inl b ↦ elim (Bool-cases (is_verification_result event.type)) [
      | inl c ↦ elim (Bool-cases (opt_eq event.task_id (some state.task_id))) [
        | inr d ↦ rw (apply_event, a, b, c, d) refl
        | inl d ↦
            let own : event.task_id ≡ some state.task_id =
              opt_eq→eq event.task_id (some state.task_id) d in
            absurd (
              foreign (rw (target_of, streams.1 c, c, own, str_differ state.task_id "" named) refl))
      ]
      | inr c ↦ elim (Bool-cases (on_task state event)) [
        | inr d ↦ rw (apply_event, a, b, c, d) refl
        | inl d ↦
            let (e, f) =
              &&-both (opt_eq event.aggregate_id (some state.task_id))
                (opt_eq event.aggregate_type (some "task")) d in
            absurd
              (foreign (rw (target_of, f) (opt_eq→eq event.aggregate_id (some state.task_id) e)))
      ]
    ]
  ]
]
