-- ===== src/Projections/Tasks/Applied.antt =====
-- server/projections/tasks.py: what one Event does to the rows.
use mathlib.Core.Option.{map as map_option}
use agent_colab.Prelude.{
  str_eq_refl, opt_eq, ◌||◌, Option, Bool-cases, ok, Result-cases, String, ◌≡◌, refl, sym, ◌∙◌,
  subst, ◌≢◌, ◌⊎◌, inl, inr, Bool, true, false, not, ◌&&◌, some,
}
use agent_colab.Task.Status.{is_creation}
use agent_colab.Task.State.{Event, TaskState, apply_event}
use agent_colab.Projections.Tasks.{
  write_state, target_of, Projection, load_state, written, apply_to,
}
use agent_colab.Projections.Tasks.Core.{core}
use agent_colab.Projections.Tasks.Kept.{IsTask, apply_event-IsTask, IsOfStreams, apply_event_other}
use agent_colab.Projections.Tasks.Rows.{load_state-task_id, load_state-write_state}
use agent_colab.Projections.Tasks.Fold.{touched, skipping}

opened : (a b : Bool) → (not a && not b) ≡ false → (a ≡ true) ⊎ (b ≡ true)
opened true b h = inl refl
opened false true h = inr refl
opened false false h = cc

ignored : (a b : Bool) → (not a && not b) ≡ true → (a ≡ false) × (b ≡ false)
ignored false false h = (refl, refl)
ignored true b h = cc
ignored false true h = cc

apply_event_absent :
    (state : TaskState) (event : Event)
    → state.exists ≡ false
    → is_creation event.type ≡ false
    → apply_event state event ≡ ok state
unfolding apply_event
apply_event_absent state event h c = rw (apply_event, c, h) refl

either : (a b : Bool) → (not a && not b) ≡ false → (a || b) ≡ true
either true b h = refl
either false true h = refl
either false false h = cc

neither : (a b : Bool) → a ≡ false → b ≡ false → (a || b) ≡ false
neither a b p q = rw (p, q) refl

own :
    (task_id : String) (event : Event)
    → target_of event ≡ some task_id
    → opt_eq (target_of event) (some task_id) ≡ true
own task_id event h = rw h (str_eq_refl task_id)

module _ (reread : String → String) where
  -- What `apply` does for its Task: nothing, or the row of what the fold gives.
  abbrev pub Applied : String → Event → Projection → Type 0
  Applied task_id event p =
      (((apply_to reread task_id event p).rows ≡ p.rows)
        × (skipping event (load_state reread p.rows task_id) ≡ load_state reread p.rows task_id)
        × ((at : Option String) → touched task_id event (load_state reread p.rows task_id) at ≡ at))
      ⊎ ((state : TaskState) × IsTask task_id state
          × (skipping event (load_state reread p.rows task_id) ≡ state)
          × ((apply_to reread task_id event p).rows ≡ write_state state event.occurred_at p.rows)
          × ((at : Option String)
              → touched task_id event (load_state reread p.rows task_id) at ≡ event.occurred_at))

  folded :
      (task_id : String) (event : Event) (p : Projection)
      → target_of event ≡ some task_id
      → (not (load_state reread p.rows task_id).exists && not (is_creation event.type)) ≡ false
      → (((load_state reread p.rows task_id).exists ≡ true)
          ⊎ ((is_creation event.type ≡ true)
              × (event.aggregate_id ≡ some (load_state reread p.rows task_id).task_id)))
      → Applied task_id event p
  unfolding apply_to written skipping touched
  folded task_id event p target g start =
      elim (Result-cases (apply_event (load_state reread p.rows task_id) event)) [
        | inr (e, f) ↦ inl (
          rw (g, f) refl,
          rw (skipping, f) refl,
          (λ at. rw (touched, own task_id event target, either _ _ g, f) refl),
        )
        | inl (state, f) ↦ inr (
          state,
          subst (λ id. IsTask id state) (load_state-task_id reread p.rows task_id)
              (apply_event-IsTask (load_state reread p.rows task_id) event state start f),
          rw (skipping, f) refl,
          rw (g, f) refl,
          (λ at. rw (touched, own task_id event target, either _ _ g, f) refl),
        )
      ]

  pub apply_to-Applied :
      (task_id : String) (event : Event) (p : Projection)
      → IsOfStreams event
      → target_of event ≡ some task_id
      → Applied task_id event p
  unfolding apply_to skipping target_of touched
  apply_to-Applied task_id event p streams target =
      elim (Bool-cases
        (not (load_state reread p.rows task_id).exists && not (is_creation event.type))) [
          | inl g ↦
              let (a, b) = ignored _ _ g in
              inl (
                rw g refl,
                rw (skipping, apply_event_absent (load_state reread p.rows task_id) event a b) refl,
                (λ at. rw (touched, own task_id event target, neither _ _ a b) refl),
              )
          | inr g ↦
              folded task_id event p target g
                (elim (opened _ _ g) [ inl a ↦ inl a | inr c ↦ inr (c, created c) ])
        ]
    where
      created :
          is_creation event.type ≡ true
          → event.aggregate_id ≡ some (load_state reread p.rows task_id).task_id
      created c =
          let own : target_of event ≡ event.aggregate_id = rw (target_of, streams.0 c) refl in
          rw (load_state-task_id reread p.rows task_id) (sym own ∙ target)

  pub untouched :
      (task_id : String) (event : Event) (p : Projection)
      → task_id ≢ ""
      → IsOfStreams event
      → target_of event ≢ some task_id
      → skipping event (load_state reread p.rows task_id) ≡ load_state reread p.rows task_id
  unfolding skipping
  untouched task_id event p named streams foreign =
      rw
        (
          skipping,
          apply_event_other (load_state reread p.rows task_id) event streams
              (rw (load_state-task_id reread p.rows task_id) named)
              (rw (load_state-task_id reread p.rows task_id) foreign),
        )
        refl

  -- The rows of the other Tasks stay as they are.
  pub apply_to_other :
      (task_id : String) (event : Event) (p : Projection) (task_id' : String)
      → task_id' ≢ task_id
      → Applied task_id event p
      → load_state reread (apply_to reread task_id event p).rows task_id'
        ≡ load_state reread p.rows task_id'
  apply_to_other task_id event p task_id' differs (inl (same, _, _)) = rw same refl
  apply_to_other task_id event p task_id' differs (inr (state, is_task, _, same, _)) = rw same (
      (load_state-write_state reread state event.occurred_at p.rows is_task.1).2 task_id'
        (λ q. differs (q ∙ is_task.0)))

  pub apply_to_own :
      (task_id : String) (event : Event) (p : Projection)
      → Applied task_id event p
      → core (load_state reread (apply_to reread task_id event p).rows task_id)
        ≡ core (skipping event (load_state reread p.rows task_id))
  apply_to_own task_id event p (inl (same, kept, _)) = rw (same, kept) refl
  apply_to_own task_id event p (inr (state, is_task, moved, same, _)) =
      rw (same, moved)
        (subst
          (λ id.
            core (load_state reread (write_state state event.occurred_at p.rows) id) ≡ core state)
          is_task.0 (load_state-write_state reread state event.occurred_at p.rows is_task.1).0)

  -- The instant of the row is the one that the reference keeps.
  pub apply_to_instant :
      (task_id : String) (event : Event) (p : Projection) (at : Option String)
      → Applied task_id event p
      → (load_state reread p.rows task_id).updated_at ≡ map_option reread at
      → (load_state reread (apply_to reread task_id event p).rows task_id).updated_at
        ≡ map_option reread (touched task_id event (load_state reread p.rows task_id) at)
  apply_to_instant task_id event p at (inl (same, _, kept)) h = rw (same, kept at) h
  apply_to_instant task_id event p at (inr (state, is_task, _, same, moved)) h =
      rw (same, moved at)
        (subst
          (λ id.
            (load_state reread (write_state state event.occurred_at p.rows) id).updated_at
            ≡ map_option reread event.occurred_at)
          is_task.0 (load_state-write_state reread state event.occurred_at p.rows is_task.1).1)
