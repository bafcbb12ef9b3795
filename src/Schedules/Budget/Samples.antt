-- ===== src/Schedules/Budget/Samples.antt =====
-- A Run with a limit of 100 that has used 60.
use agent_colab.Prelude.Transactions.{Succeeds}
use agent_colab.Prelude.{ltb, if◌then◌else◌, err, ℕ, ◌+◌, ◌≡◌, refl, true, none, some, [], ◌∷◌}
use agent_colab.Events.Store.{event_insert_failed, EventStore}
use agent_colab.Schedules.Budget.{
  RunBudget, RunBudgets, open_reservations, run_scope, settle_for_run,
}
use agent_colab.Usage.Budget.{
  reserved, settled, exceeded, ReservationRow, Texts, Readings, day_of, in_day, total, is_reserved,
  counts, estimates, reserved_cost_units, find_reservation,
}
use agent_colab.Schedules.Budget.Doubles.{usage_of, settle_for_run-doubled}

abbrev silent : EventStore
silent = record {
  State = ℕ;
  append = λ request n. err event_insert_failed;
  last_event_id = λ w a i n. none;
}

abbrev texts : Texts
texts = record { text_of = λ n. "n"; first_200 = λ s. s; partition = λ s. (s, "") }

abbrev run_budget : RunBudget
run_budget = record {
  run_id = "run-1";
  scope_type = "schedule_run";
  reservation_id = "bres-1";
  limit_cost_units = 100;
  status = reserved;
  settled_cost_units = none;
  settled_at = none;
}

abbrev reservation : ReservationRow
reservation = record {
  reservation_id = "bres-1";
  workspace_id = "w-1";
  scope = record { scope_type = "schedule_run"; scope_id = "run-1" };
  work_item_id = none;
  estimated_cost_units = 10;
  status = reserved;
  created_at = 1000;
  settled_cost_units = none;
  settled_at = none;
}

abbrev db : RunBudgets silent
db = record {
  rows = run_budget ∷ [];
  core = record {
    reservations = reservation ∷ [];
    usage =
        record {
          agent_id = none;
          task_id = none;
          run_id = some "run-1";
          channel_id = none;
          cost_units = 60;
          reported_at = 1500;
        }
        ∷ [];
    events = 0;
  };
  alerts = [];
  next_alert_id = 1;
  outbox = [];
}

abbrev clock : Readings
clock = record { for_used = 2000; for_reserved = 2000; to_write = 2000 }

run_open : open_reservations "run-1" db.rows ≡ run_budget ∷ []
unfolding open_reservations
run_open = refl

alone :
    reserved_cost_units reservation.scope clock.for_reserved (some "bres-1") db.core.reservations
    ≡ 0
unfolding reserved_cost_units counts day_of in_day estimates
alone = refl

found : find_reservation "bres-1" db.core.reservations ≡ some reservation
unfolding find_reservation
found = refl

waits : is_reserved reservation.status ≡ true
unfolding is_reserved
waits = refl

scoped : reservation.scope ≡ run_scope "run-1"
unfolding run_scope
scoped = refl

settle_for_run-doubled_example :
    Succeeds
      (λ statuses _.
        statuses
        ≡ (
          "schedule_run",
          (if ltb 100 (usage_of "run-1" db.core.usage + usage_of "run-1" db.core.usage)
              then exceeded
              else settled),
        )
          ∷ [])
      (settle_for_run texts silent "run-1" ("run-1" ∷ []) clock 2000 db)
settle_for_run-doubled_example =
    settle_for_run-doubled texts silent "run-1" ("run-1" ∷ []) clock 2000 db run_budget reservation
      run_open refl found waits scoped alone

-- Less than the limit, but doubled more.
within_limit : usage_of "run-1" db.core.usage ≡ 60
unfolding total
within_limit = refl
