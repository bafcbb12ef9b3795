-- ===== src/Schedules/Budget.antt =====
-- server/schedules/budget.py: the budgets of a Run, on the rows of `schedule_run_budgets`, the rows of the
-- core budgets, the alerts that were raised and the outbox of their notifications. The dict of statuses is the list of its pairs.
mod Doubles
mod Samples
use Prim.Native.String.{◌++◌ as concat}
use agent_colab.Prelude.Transactions.{Exec, ◌>>=◌, pure, lift, gets}
use agent_colab.Prelude.{
  if◌then◌else◌, str_eq, keep, any, ok, err, ℕ, ◌+◌, String, Bool, true, false, ◌&&◌, Option, none,
  some, List, [], ◌∷◌, ◌++◌,
}
use agent_colab.Events.Store.{EventStore}
use agent_colab.Schedules.Contract.{pos}
use agent_colab.Usage.Budget.{
  ReservationStatus, reserved, exceeded, released, BudgetScope, BudgetError, Budgets, Texts,
  Readings, usage_for, Step, settle, release,
}

pub record RunBudget : Type 0 where
  pub run_id : String
  pub scope_type : String
  pub reservation_id : String
  pub limit_cost_units : ℕ
  pub status : ReservationStatus
  pub settled_cost_units : Option ℕ
  pub settled_at : Option ℕ

-- The alert `budget_exceeded` of a settlement; the sequence of the table gives its number.
pub record Alert : Type 0 where
  pub alert_id : ℕ
  pub run_id : String
  pub scope : String
  pub actual : ℕ
  pub limit : ℕ

-- A row of the outbox: the notification of an alert.
pub record Notification : Type 0 where
  pub dedupe_key : String
  pub alert : Alert

pub record RunBudgets (store : EventStore) : Type 0 where
  pub rows : List RunBudget
  pub core : Budgets store
  pub alerts : List Alert
  pub next_alert_id : ℕ
  pub outbox : List Notification

is_open : ReservationStatus → Bool
is_open reserved = true
is_open _ = false

is_over : ReservationStatus → Bool
is_over exceeded = true
is_over _ = false

-- `_open_reservations`
unfoldable pub open_reservations : String → List RunBudget → List RunBudget
unfolding is_open
open_reservations run_id rows = keep (λ row. str_eq row.run_id run_id && is_open row.status) rows

-- The UPDATE of a settlement.
pub mark : String → String → ReservationStatus → Option ℕ → ℕ → List RunBudget → List RunBudget
mark run_id scope_type status actual now [] = []
mark run_id scope_type status actual now (row ∷ rows) =
    let rest = mark run_id scope_type status actual now rows in
    if str_eq row.run_id run_id && str_eq row.scope_type scope_type
    then record row { status = status; settled_cost_units = actual; settled_at = some now } ∷ rest
    else row ∷ rest

-- `enqueue` of server/notifications/outbox.py: a key that is there already is left alone.
pub enqueue : Notification → List Notification → List Notification
enqueue notification outbox =
    if any (λ other. str_eq other.dedupe_key notification.dedupe_key) outbox
    then outbox
    else outbox ++ notification ∷ []

-- The scope of the usage of a Run.
unfoldable pub run_scope : String → BudgetScope
run_scope run_id = record { scope_type = "schedule_run"; scope_id = run_id }

module _ (texts : Texts) (store : EventStore) where
  abbrev pub RunStep : Type 0 → Type 0
  RunStep A = Exec (RunBudgets store) BudgetError A

  -- A step of the core budgets.
  unfoldable pub on_core : {A : Type 0} → Step texts store A → RunStep A
  on_core step db = elim (step db.core) [
    | ok (a, core) ↦ ok (a, record db { core = core })
    | err e ↦ err e
  ]

  -- The key of the notification; the id of a Run is not empty.
  alert_key : String → ℕ → String
  alert_key run_id alert_id =
      concat "schedule-alert:budget_exceeded:" (concat run_id (concat ":" (texts.text_of alert_id)))

  -- `raise_alert`
  raise_alert : String → String → ℕ → ℕ → RunBudgets store → RunBudgets store
  unfolding enqueue alert_key
  raise_alert run_id scope actual limit db =
      let raised : Alert = record {
        alert_id = db.next_alert_id;
        run_id = run_id;
        scope = scope;
        actual = actual;
        limit = limit;
      } in
      record db {
        alerts = db.alerts ++ raised ∷ [];
        next_alert_id = db.next_alert_id + 1;
        outbox =
            enqueue (record { dedupe_key = alert_key run_id db.next_alert_id; alert = raised })
              db.outbox;
      }

  -- `if status == "exceeded"`
  pub alert : String → String → ReservationStatus → ℕ → ℕ → RunBudgets store → RunBudgets store
  unfolding is_over raise_alert
  alert run_id scope status actual limit db =
      if is_over status then raise_alert run_id scope actual limit db else db

  -- The statements after the settlement of one reservation.
  unfoldable pub settled_row :
      String → RunBudget → ℕ → ℕ → ReservationStatus → RunStep (String × ReservationStatus)
  unfolding mark alert
  settled_row run_id row actual now status db = ok (
    (row.scope_type, status),
    alert run_id row.scope_type status actual row.limit_cost_units
        (record db { rows = mark run_id row.scope_type status (some actual) now db.rows }),
  )

  -- The body of the loop; `day_runs` are the Runs of the Schedule on the day.
  unfoldable pub settle_row :
      String → List String → Readings → ℕ → ℕ → RunBudget → RunStep (String × ReservationStatus)
  unfolding on_core settled_row
  settle_row run_id day_runs clock actual now row =
      on_core (
        settle texts store row.reservation_id (pos actual) row.limit_cost_units clock
          (some (if str_eq row.scope_type "schedule_run" then run_id ∷ [] else day_runs)))
      >>= settled_row run_id row actual now

  unfoldable pub settle_rows :
      String
      → List String
      → Readings
      → ℕ
      → ℕ
      → List RunBudget
      → RunStep (List (String × ReservationStatus))
  unfolding settle_row
  settle_rows run_id day_runs clock actual now [] = pure []
  settle_rows run_id day_runs clock actual now (row ∷ rows) = do
    first ← settle_row run_id day_runs clock actual now row
    rest ← settle_rows run_id day_runs clock actual now rows
    pure (first ∷ rest)

  -- `settle_for_run`
  unfoldable pub settle_for_run :
      String → List String → Readings → ℕ → RunStep (List (String × ReservationStatus))
  unfolding settle_rows open_reservations run_scope
  settle_for_run run_id day_runs clock now = do
    actual ← (λ db. lift (usage_for texts (run_scope run_id) none none db.core.usage) db)
    open_rows ← gets (λ db. open_reservations run_id db.rows)
    settle_rows run_id day_runs clock actual now open_rows

  -- `release_for_run`: a reservation that cannot be released is passed over.
  release_rows : String → ℕ → List RunBudget → RunStep (Unit {0})
  unfolding mark
  release_rows run_id now [] db = ok (tt, db)
  release_rows run_id now (row ∷ rows) db =
      elim (release texts store row.reservation_id now db.core) [
        | ok (_, core) ↦ release_rows run_id now rows (record db {
          rows = mark run_id row.scope_type released row.settled_cost_units now db.rows;
          core = core;
        })
        | err _ ↦ release_rows run_id now rows db
      ]

  pub release_for_run : String → ℕ → RunStep (Unit {0})
  unfolding release_rows open_reservations
  release_for_run run_id now db = release_rows run_id now (open_reservations run_id db.rows) db
