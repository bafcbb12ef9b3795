-- ===== src/Projections/Tasks/Rows.antt =====
-- server/projections/tasks.py: what `load_state` reads after `write_state`.
use mathlib.Core.Option.{map as map_option}
use agent_colab.Prelude.{
  str_eq, str_eq_iff, str_eq_refl, str_differ, Bool-cases, Option-cases, String, ◌≡◌, refl, sym, ap,
  ◌∙◌, ◌≢◌, ◌⊎◌, inl, inr, true, false, Option, none, some, List, [], ◌∷◌,
}
use agent_colab.Task.State.{TaskState}
use agent_colab.Projections.Tasks.{
  TaskRow, find_row, update_row, upsert, row_of, reread_or_none, write_state, state_of, load_state,
}
use agent_colab.Projections.Tasks.Core.{core, uuid_or_none_idem}

find_row-upsert :
    (new : TaskRow) (rows : List TaskRow)
    → (find_row new.task_id (upsert new rows) ≡ some new)
      ⊎ ((row : TaskRow) × (find_row new.task_id (upsert new rows) ≡ some (update_row new row)))
unfolding find_row upsert update_row
find_row-upsert new [] = inl (rw (str_eq_refl new.task_id) refl)
find_row-upsert new (row ∷ rows) = elim (Bool-cases (str_eq row.task_id new.task_id)) [
  | inl e ↦ inr (row, rw (e, e) refl)
  | inr e ↦ elim (find_row-upsert new rows) [
    | inl q ↦ inl (rw (e, e) q)
    | inr (found, q) ↦ inr (found, rw (e, e) q)
  ]
]

-- Another Task's row is left as it is.
find_row-upsert_other :
    (new : TaskRow) (task_id : String) (rows : List TaskRow)
    → task_id ≢ new.task_id
    → find_row task_id (upsert new rows) ≡ find_row task_id rows
unfolding find_row upsert update_row
find_row-upsert_other new task_id [] h = rw (str_differ new.task_id task_id (λ q. h (sym q))) refl
find_row-upsert_other new task_id (row ∷ rows) h =
    elim (Bool-cases (str_eq row.task_id new.task_id)) [
      | inr e ↦ rw (e, find_row-upsert_other new task_id rows h) refl
      | inl e ↦
          let differs : str_eq row.task_id task_id ≡ false =
            str_differ row.task_id task_id
              (λ q. h (sym q ∙ (str_eq_iff row.task_id new.task_id).0 e)) in
          rw (e, differs) refl
    ]

module _ (reread : String → String) where
  pub load_state-task_id :
      (rows : List TaskRow) (task_id : String) → (load_state reread rows task_id).task_id ≡ task_id
  unfolding load_state state_of
  load_state-task_id rows task_id = elim (Option-cases (find_row task_id rows)) [
    | inl e ↦ rw (load_state, e) refl
    | inr (row, e) ↦ rw (load_state, e) refl
  ]

  state_of-row_of :
      (state : TaskState) (occurred_at : Option String)
      → state.exists ≡ true
      → core (state_of reread state.task_id (some (row_of state occurred_at))) ≡ core state
  unfolding state_of row_of core
  state_of-row_of state occurred_at h =
      rw (uuid_or_none_idem state.assignee_account_id, uuid_or_none_idem state.delegated_by, ← h)
        refl

  state_of-update_row :
      (state : TaskState) (occurred_at : Option String) (row : TaskRow)
      → state.exists ≡ true
      → core (state_of reread state.task_id (some (update_row (row_of state occurred_at) row)))
        ≡ core state
  unfolding state_of row_of core update_row
  state_of-update_row state occurred_at row h =
      rw (uuid_or_none_idem state.assignee_account_id, uuid_or_none_idem state.delegated_by, ← h)
        refl

  updated :
      (task_id : String) (occurred_at : Option String) (row : TaskRow)
      → row.updated_at ≡ occurred_at
      → (state_of reread task_id (some row)).updated_at ≡ map_option reread occurred_at
  unfolding state_of
  updated task_id occurred_at row h = rw (← h) (same row.updated_at)
    where
      same : (at : Option String) → reread_or_none reread at ≡ map_option reread at
      same none = refl
      same (some at) = refl

  pub load_state-write_state :
      (state : TaskState) (occurred_at : Option String) (rows : List TaskRow)
      → state.exists ≡ true
      → (core (load_state reread (write_state state occurred_at rows) state.task_id) ≡ core state)
        × ((load_state reread (write_state state occurred_at rows) state.task_id).updated_at
            ≡ map_option reread occurred_at)
        × ((task_id : String)
            → task_id ≢ state.task_id
            → load_state reread (write_state state occurred_at rows) task_id
              ≡ load_state reread rows task_id)
  unfolding load_state write_state row_of update_row
  load_state-write_state state occurred_at rows h = (
    elim (find_row-upsert (row_of state occurred_at) rows) [
      | inl e ↦ rw e (state_of-row_of state occurred_at h)
      | inr (row, e) ↦ rw e (state_of-update_row state occurred_at row h)
    ],
    elim (find_row-upsert (row_of state occurred_at) rows) [
      | inl e ↦ rw e (updated state.task_id occurred_at (row_of state occurred_at) refl)
      | inr (row, e) ↦
          rw e (updated state.task_id occurred_at (update_row (row_of state occurred_at) row) refl)
    ],
    (λ task_id other.
        ap (state_of reread task_id)
          (find_row-upsert_other (row_of state occurred_at) task_id rows other)),
  )
