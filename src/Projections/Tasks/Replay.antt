-- ===== src/Projections/Tasks/Replay.antt =====
-- server/projections/tasks.py: the rows after a replay of Events.
-- The table without rows.
use mathlib.Core.Option.{map as map_option}
use agent_colab.Prelude.{
  none, Option, str_eq, str_eq_iff, Bool-cases, Option-cases, All, String, ◌≡◌, refl, sym, ap, ◌∙◌,
  subst, ◌≢◌, inl, inr, true, some, List, [], ◌∷◌,
}
use agent_colab.Task.State.{Event, TaskState, new_state}
use agent_colab.Projections.Tasks.{
  find_row, target_of, Projection, state_of, load_state, apply_to, apply, replay,
}
use agent_colab.Projections.Tasks.Core.{core}
use agent_colab.Projections.Tasks.Kept.{IsOfStreams}
use agent_colab.Projections.Tasks.Fold.{
  touched, touched-core, last_write, skipping, fold_skipping, skipping-core,
}
use agent_colab.Projections.Tasks.Applied.{
  apply_to-Applied, untouched, apply_to_other, apply_to_own, apply_to_instant,
}

abbrev pub no_rows : Projection
no_rows = record { rows = []; skipped = [] }

module _ (reread : String → String) where
  -- One Event, for any Task.
  apply-core :
      (task_id : String) (event : Event) (p : Projection)
      → task_id ≢ ""
      → IsOfStreams event
      → core (load_state reread (apply reread event p).rows task_id)
        ≡ core (skipping event (load_state reread p.rows task_id))
  unfolding apply
  apply-core task_id event p named streams = elim (Option-cases (target_of event)) [
    | inl e ↦
        rw (apply, e) (ap core (sym (untouched reread task_id event p named streams (λ q. cc))))
    | inr (target, e) ↦ elim (Bool-cases (str_eq target task_id)) [
      | inl q ↦
          let own : target ≡ task_id = (str_eq_iff target task_id).0 q in
          rw (apply, e, own)
            (apply_to_own reread task_id event p
              (apply_to-Applied reread task_id event p streams (rw (← own) e)))
      | inr q ↦
          rw (apply, e)
            (ap core (
              apply_to_other reread target event p task_id
                (λ h.
                  let own : str_eq target task_id ≡ true = (str_eq_iff target task_id).1 (sym h) in
                  cc)
                (apply_to-Applied reread target event p streams e)
              ∙ sym (
                  untouched reread task_id event p named streams (λ h.
                    let same : target ≡ task_id = cc in
                    let own : str_eq target task_id ≡ true = (str_eq_iff target task_id).1 same in
                    cc))))
    ]
  ]

  -- The instant of the row of any Task, after one Event.
  apply_instant :
      (task_id : String) (event : Event) (p : Projection) (at : Option String)
      → IsOfStreams event
      → (load_state reread p.rows task_id).updated_at ≡ map_option reread at
      → (load_state reread (apply reread event p).rows task_id).updated_at
        ≡ map_option reread (touched task_id event (load_state reread p.rows task_id) at)
  unfolding apply touched
  apply_instant task_id event p at streams h = elim (Option-cases (target_of event)) [
    | inl e ↦ rw (apply, e, touched) h
    | inr (target, e) ↦ elim (Bool-cases (str_eq target task_id)) [
      | inl q ↦
          let own : target ≡ task_id = (str_eq_iff target task_id).0 q in
          let aimed : target_of event ≡ some task_id = rw (← own) e in
          subst
            (λ p'.
              (load_state reread p'.rows task_id).updated_at
              ≡ map_option reread (touched task_id event (load_state reread p.rows task_id) at))
            (sym (applied task_id event p aimed))
            (apply_to_instant reread task_id event p at
              (apply_to-Applied reread task_id event p streams aimed) h)
      | inr q ↦
          let differs : task_id ≢ target = (λ r.
            let own : str_eq target task_id ≡ true = (str_eq_iff target task_id).1 (sym r) in cc) in
          rw
            (
              applied target event p e,
              apply_to_other reread target event p task_id differs
                  (apply_to-Applied reread target event p streams e),
              touched,
              e,
              q,
            )
            h
    ]
  ]
    where
      applied :
          (target : String) (event : Event) (p : Projection)
          → target_of event ≡ some target
          → apply reread event p ≡ apply_to reread target event p
      applied target event p e = rw (apply, e) refl

  -- The row of a Task, on the columns of the state and on its instant.
  abbrev pub Agrees : String → Projection → TaskState → Option String → Type 0
  Agrees task_id p state at =
      (core (load_state reread p.rows task_id) ≡ core state)
      × ((load_state reread p.rows task_id).updated_at ≡ map_option reread at)

  replay-Agrees :
      (task_id : String) (events : List Event) (p : Projection) (state : TaskState)
      (at : Option String)
      → task_id ≢ ""
      → All IsOfStreams events
      → Agrees task_id p state at
      → Agrees task_id
          (replay reread events p)
          (fold_skipping state events)
          (last_write task_id state at events)
  unfolding replay fold_skipping last_write
  replay-Agrees task_id [] p state at named streams h = h
  replay-Agrees task_id (event ∷ events) p state at named streams h =
      replay-Agrees task_id events (apply reread event p) (skipping event state)
        (touched task_id event state at) named streams.1
        (
          (apply-core task_id event p named streams.0
              ∙ skipping-core (load_state reread p.rows task_id) state event h.0),
          (apply_instant task_id event p at streams.0 h.1
              ∙ ap (map_option reread)
                  (touched-core task_id (load_state reread p.rows task_id) state event at h.0)),
        )

  -- After a replay of Events, in any order, the row of a Task that is read back agrees with the fold of those
  -- Events for that Task on every column that an upsert updates; the fold leaves out the Events that the
  -- transition table does not allow. The column `updated_at` is the instant of the last Event of the Task that
  -- was neither left out nor before its creation. It holds where the creation of a Task is on an aggregate of
  -- type task, the result of a verification is on none of that type, and the id of the Task is not empty.
  pub replay-fold :
      (task_id : String) (events : List Event)
      → task_id ≢ ""
      → All IsOfStreams events
      → Agrees task_id
          (replay reread events no_rows)
          (fold_skipping (new_state task_id) events)
          (last_write task_id (new_state task_id) none events)
  unfolding load_state find_row state_of
  replay-fold task_id events named streams =
      replay-Agrees task_id events no_rows (new_state task_id) none named streams (refl, refl)
