-- ===== src/Schedules/Budget/Doubles.antt =====
-- server/schedules/budget.py: the status that the settlement of a Run gives its own budget.
-- What the Run has used.
use agent_colab.Prelude.Transactions.{lift, Succeeds, >>=-of_ok}
use agent_colab.Prelude.{
  ltb, leb, if◌then◌else◌, lt→ltb, leb→le, str_eq, opt_eq, Bool-cases, keep, Result, ok, guard, ℕ,
  ◌+◌, ◌-◌, ◌≤◌, ◌<◌, String, ◌≡◌, refl, sym, ap, ◌∙◌, subst, inl, inr, true, false, Option, none,
  some, List, [], ◌∷◌, arith,
}
use agent_colab.Events.Store.{EventStore}
use agent_colab.Schedules.Budget.{
  RunBudget, RunBudgets, open_reservations, mark, run_scope, on_core, alert, settled_row,
  settle_row, settle_rows, settle_for_run,
}
use agent_colab.Schedules.Contract.{pos}
use agent_colab.Usage.Budget.{
  natural, ReservationStatus, settled, exceeded, BudgetScope, ReservationRow, UsageRow, BudgetError,
  budget_reservation_not_open, Budgets, Texts, Readings, total, minus, settlement_status,
  is_reserved, reserved_cost_units, find_reservation, set_reservation, used_by, usage_for,
  used_cost_units, load_reservation, update, settle,
}

abbrev pub usage_of : String → List UsageRow → ℕ
usage_of run_id rows = total (keep (λ row. opt_eq row.run_id (some run_id)) rows)

-- The settlement of a Run's usage against what it has itself used.
doubled :
    (used limit : ℕ)
    → settlement_status used (minus limit (used + 0))
      ≡ (if ltb limit (used + used) then exceeded else settled)
unfolding settlement_status minus
doubled used limit = elim (Bool-cases (leb (used + 0) limit)) [
  | inl e ↦ rw e (ap (λ b. if b then exceeded else settled) (fits (leb→le (used + 0) limit e)))
  | inr e ↦ rw (e, lt→ltb limit (used + used) (below e)) refl
]
  where
    fits : used + 0 ≤ limit → ltb (limit - (used + 0)) used ≡ ltb limit (used + used)
    fits h = ground arith

    below : leb (used + 0) limit ≡ false → limit < used + used
    below h = ground arith

module _ (texts : Texts) (store : EventStore) where
  abbrev settled_core :
      String → ReservationStatus → ℕ → Readings → ReservationRow → Budgets store → Budgets store
  settled_core reservation_id status actual clock row core = record core {
    reservations =
        set_reservation
          (record row {
            status = status;
            settled_cost_units = some actual;
            settled_at = some clock.to_write;
          })
          core.reservations;
  }

  settle_lem :
      (reservation_id : String) (actual limit used : ℕ) (clock : Readings)
      (run_ids : Option (List String)) (row : ReservationRow) (core : Budgets store)
      → find_reservation reservation_id core.reservations ≡ some row
      → is_reserved row.status ≡ true
      → used_cost_units texts row.scope clock.for_used run_ids core.usage ≡ ok used
      → reserved_cost_units row.scope clock.for_reserved (some reservation_id) core.reservations ≡ 0
      → settle texts store reservation_id (pos actual) limit clock run_ids core
        ≡ ok (
          settlement_status actual (minus limit (used + 0)),
          settled_core reservation_id
              (settlement_status actual (minus limit (used + 0)))
              actual
              clock
              row
              core,
        )
  unfolding settle load_reservation update natural
  settle_lem reservation_id actual limit used clock run_ids row core found waits known alone =
      >>=-of_ok (load_reservation texts store reservation_id) _ core loaded
      ∙ >>=-of_ok (lift (guard (is_reserved row.status) budget_reservation_not_open)) _ core
          open_row
      ∙ >>=-of_ok (λ db. lift (used_cost_units texts row.scope clock.for_used run_ids db.usage) db)
          _ core counted
      ∙ rw alone refl
    where
      loaded : load_reservation texts store reservation_id core ≡ ok (row, core)
      loaded = rw (load_reservation, found) refl

      open_row :
          ◌≡◌ {A = Result BudgetError (Unit {0} × Budgets store)}
            (lift (guard (is_reserved row.status) budget_reservation_not_open) core)
            (ok (tt, core))
      open_row = rw (lift, waits) refl

      counted :
          ◌≡◌ {A = Result BudgetError (ℕ × Budgets store)}
            (lift (used_cost_units texts row.scope clock.for_used run_ids core.usage) core)
            (ok (used, core))
      counted = rw (lift, known) refl

  used_by_run :
      (run_id : String) (now : ℕ) (run_ids : Option (List String)) (rows : List UsageRow)
      (scope : BudgetScope)
      → scope ≡ run_scope run_id
      → used_cost_units texts scope now run_ids rows ≡ ok (usage_of run_id rows)
  unfolding used_cost_units usage_for used_by run_scope
  used_by_run run_id now run_ids rows scope h = rw h refl

  usage_for-run :
      (run_id : String) (rows : List UsageRow)
      → usage_for texts (run_scope run_id) none none rows ≡ ok (usage_of run_id rows)
  unfolding usage_for used_by run_scope
  usage_for-run run_id rows = refl

  -- A Run whose only open reservation is the one of its own scope is settled as exceeded exactly when
  -- twice what it has used is over its limit: its usage counts as the actual cost and as used before.
  pub settle_for_run-doubled :
      (run_id : String) (day_runs : List String) (clock : Readings) (now : ℕ)
      (db : RunBudgets store) (budget : RunBudget) (row : ReservationRow)
      → open_reservations run_id db.rows ≡ budget ∷ []
      → budget.scope_type ≡ "schedule_run"
      → find_reservation budget.reservation_id db.core.reservations ≡ some row
      → is_reserved row.status ≡ true
      → row.scope ≡ run_scope run_id
      → reserved_cost_units row.scope clock.for_reserved
          (some budget.reservation_id)
          db.core.reservations
        ≡ 0
      → Succeeds
          (λ statuses _.
            statuses
            ≡ (
              "schedule_run",
              (if ltb budget.limit_cost_units
                    (usage_of run_id db.core.usage + usage_of run_id db.core.usage)
                  then exceeded
                  else settled),
            )
              ∷ [])
          (settle_for_run texts store run_id day_runs clock now db)
  unfolding settle_for_run settle_rows settle_row on_core settled_row
  settle_for_run-doubled run_id day_runs clock now db budget row one own found waits scoped alone =
      subst
        (Succeeds (λ statuses _.
          statuses
          ≡ (
            "schedule_run",
            (if ltb budget.limit_cost_units (used + used) then exceeded else settled),
          )
            ∷ []))
        (sym whole) (rw (own, doubled used budget.limit_cost_units) refl)
    where
      used : ℕ
      used = usage_of run_id db.core.usage

      ids : Option (List String)
      ids = some (if str_eq budget.scope_type "schedule_run" then run_id ∷ [] else day_runs)

      status : ReservationStatus
      status = settlement_status used (minus budget.limit_cost_units (used + 0))

      after_core : RunBudgets store
      after_core = record db {
        core = settled_core budget.reservation_id status used clock row db.core;
      }

      core_done :
          on_core texts store
            (settle texts store budget.reservation_id (pos used) budget.limit_cost_units clock ids)
            db
          ≡ ok (status, after_core)
      core_done =
          rw
            (
              on_core,
              settle_lem budget.reservation_id used budget.limit_cost_units used clock ids row
                  db.core found waits
                  (used_by_run run_id clock.for_used ids db.core.usage row.scope scoped) alone,
            )
            refl

      row_done :
          settle_row texts store run_id day_runs clock used now budget db
          ≡ settled_row texts store run_id budget used now status after_core
      row_done =
          >>=-of_ok
            (on_core texts store (
              settle texts store budget.reservation_id (pos used) budget.limit_cost_units clock
                ids))
            (settled_row texts store run_id budget used now) db core_done

      after_row : RunBudgets store
      after_row =
          alert texts store run_id budget.scope_type status used budget.limit_cost_units
            (record after_core {
              rows = mark run_id budget.scope_type status (some used) now db.rows;
            })

      started :
          ◌≡◌ {A = Result BudgetError (ℕ × RunBudgets store)}
            (lift (usage_for texts (run_scope run_id) none none db.core.usage) db)
            (ok (used, db))
      started = rw (lift, usage_for-run run_id db.core.usage) refl

      whole :
          settle_for_run texts store run_id day_runs clock now db
          ≡ ok ((budget.scope_type, status) ∷ [], after_row)
      whole =
          >>=-of_ok (λ db. lift (usage_for texts (run_scope run_id) none none db.core.usage) db) _
            db started
          ∙ ap (λ rows. settle_rows texts store run_id day_runs clock used now rows db) one
          ∙ >>=-of_ok (settle_row texts store run_id day_runs clock used now budget) _ db row_done
