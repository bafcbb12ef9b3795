-- ===== src/Usage/Budget.antt =====
-- server/usage/budget.py: reservation and settlement, on the rows of `budget_reservations` and
-- `usage_records`; `usage_for` of server/usage/records.py.
-- Instants are microseconds since the epoch, and a day is the instant at which it starts. A row of usage
-- has the channel of its Task, as the join on `tasks_projection` gives it.
mod Granted
mod Samples
use Prim.Native.String.{◌++◌ as concat}
use agent_colab.Prelude.Transactions.{Exec, ◌>>=◌, ◌>>◌, pure, lift, gets}
use agent_colab.Prelude.{
  ltb, leb, if◌then◌else◌, str_eq, opt_eq, is_some, or_else, keep, any, contains, Result, ok, err,
  guard, ℕ, ◌+◌, ◌-◌, ◌*◌, ◌/◌, String, Bool, true, false, not, ◌&&◌, ◌||◌, Option, none, some,
  List, [], ◌∷◌, ◌++◌,
}
use agent_colab.Events.Store.{
  Json, null, int, str, Payload, EventStoreError, AppendResult, EventStore,
}
use agent_colab.Schedules.Contract.{ℤ, pos, negsuc}

pub data ReservationStatus : Type 0 where
  reserved settled exceeded released : ReservationStatus

pub record BudgetScope : Type 0 where
  pub scope_type : String
  pub scope_id : String

pub record ReservationRow : Type 0 where
  pub reservation_id : String
  pub workspace_id : String
  pub scope : BudgetScope
  pub work_item_id : Option String
  pub estimated_cost_units : ℕ
  pub status : ReservationStatus
  pub created_at : ℕ
  pub settled_cost_units : Option ℕ
  pub settled_at : Option ℕ

pub record UsageRow : Type 0 where
  pub agent_id : Option String
  pub task_id : Option String
  pub run_id : Option String
  pub channel_id : Option String
  pub cost_units : ℕ
  pub reported_at : ℕ

pub record Reservation : Type 0 where
  pub reservation_id : String
  pub scope : BudgetScope
  pub estimated_cost_units : ℕ
  pub event_id : String

pub record ReservationOutcome : Type 0 where
  pub reserved : Bool
  pub reservation : Option Reservation
  pub event_id : String
  pub limit_cost_units : ℕ
  pub requested_cost_units : ℕ
  pub used_cost_units : ℕ
  pub reserved_cost_units : ℕ

-- The codes of `CommandError`, `UsageError` and `BudgetExceededError`, and the errors of the store.
pub data BudgetError : Type 0 where
  budget_scope_invalid budget_value_invalid budget_reservation_unknown : BudgetError
  budget_reservation_not_open budget_overrun : BudgetError
  budget_exceeded : ReservationOutcome → BudgetError
  store_error : EventStoreError → BudgetError

pub record Budgets (store : EventStore) : Type 0 where
  pub reservations : List ReservationRow
  pub usage : List UsageRow
  pub events : store.State

-- Python's functions on texts that the code calls: `str(n)`, `s[:200]` and `s.partition("|")`.
pub record Texts : Type 0 where
  pub text_of : ℕ → String
  pub first_200 : String → String
  pub partition : String → String × String

-- The instants that a call reads: for the window of the usage, for that of the reservations, and to write.
pub record Readings : Type 0 where
  pub for_used : ℕ
  pub for_reserved : ℕ
  pub to_write : ℕ

-- `SCOPE_TYPES`
pub is_scope_type : String → Bool
is_scope_type type =
    contains type
      ("agent_daily" ∷ "agent_task" ∷ "channel_daily" ∷ "schedule_run" ∷ "schedule_daily" ∷ [])

pub is_daily : String → Bool
is_daily type =
    contains type ("agent_daily" ∷ "agent_task" ∷ "channel_daily" ∷ "schedule_daily" ∷ [])

-- `_day_window`: the start of the day of an instant.
unfoldable pub day_of : ℕ → ℕ
day_of now = now / 86400000000 * 86400000000

unfoldable pub in_day : ℕ → ℕ → Bool
in_day day at = leb day at && ltb at (day + 86400000000)

unfoldable pub total : List UsageRow → ℕ
total [] = 0
total (row ∷ rows) = row.cost_units + total rows

unfoldable pub would_exceed : ℕ → ℕ → ℕ → ℕ → Bool
would_exceed used held estimate limit = ltb limit (used + held + estimate)

-- `limit - used - reserved`, which may be negative.
unfoldable pub minus : ℕ → ℕ → ℤ
minus a b = if leb b a then pos (a - b) else negsuc (b - a - 1)

unfoldable pub settlement_status : ℕ → ℤ → ReservationStatus
settlement_status actual (pos available) = if ltb available actual then exceeded else settled
settlement_status actual (negsuc available) = exceeded

unfoldable pub is_reserved : ReservationStatus → Bool
is_reserved reserved = true
is_reserved _ = false

is_exceeded : ReservationStatus → Bool
is_exceeded exceeded = true
is_exceeded _ = false

pub same_scope : BudgetScope → BudgetScope → Bool
same_scope a b = str_eq a.scope_type b.scope_type && str_eq a.scope_id b.scope_id

-- The rows that `reserved_cost_units` sums.
unfoldable pub counts : BudgetScope → ℕ → Option String → ReservationRow → Bool
unfolding same_scope is_reserved
counts scope now excluded row =
    same_scope row.scope scope
    && is_reserved row.status
    && in_day (day_of now) row.created_at
    && not (opt_eq excluded (some row.reservation_id))

unfoldable pub estimates : List ReservationRow → ℕ
estimates [] = 0
estimates (row ∷ rows) = row.estimated_cost_units + estimates rows

unfoldable pub reserved_cost_units : BudgetScope → ℕ → Option String → List ReservationRow → ℕ
unfolding counts estimates
reserved_cost_units scope now excluded rows = estimates (keep (counts scope now excluded) rows)

-- `u.run_id = ANY(:rids)`
pub any_run : Option String → Option (List String) → Bool
any_run (some run_id) (some run_ids) = contains run_id run_ids
any_run _ _ = false

-- `if estimate < 0`: the number, when it is not negative.
unfoldable pub natural : ℤ → Result BudgetError ℕ
natural (pos n) = ok n
natural (negsuc n) = err budget_value_invalid

unfoldable pub find_reservation : String → List ReservationRow → Option ReservationRow
find_reservation id [] = none
find_reservation id (row ∷ rows) =
    let found = find_reservation id rows in if str_eq row.reservation_id id then some row else found

pub set_reservation : ReservationRow → List ReservationRow → List ReservationRow
set_reservation new [] = []
set_reservation new (row ∷ rows) =
    let rest = set_reservation new rows in
    if str_eq row.reservation_id new.reservation_id then new ∷ rows else row ∷ rest

module _ (texts : Texts) where
  -- The condition on a row of usage, for each type of scope.
  unfoldable pub used_by : BudgetScope → Option (List String) → UsageRow → Bool
  unfolding any_run
  used_by scope run_ids row =
      if str_eq scope.scope_type "agent_daily"
      then opt_eq row.agent_id (some scope.scope_id)
      else if str_eq scope.scope_type "agent_task"
      then opt_eq row.agent_id (some (texts.partition scope.scope_id).0)
        && opt_eq row.task_id (some (texts.partition scope.scope_id).1)
      else if str_eq scope.scope_type "channel_daily"
      then opt_eq row.channel_id (some scope.scope_id)
      else if str_eq scope.scope_type "schedule_run"
      then opt_eq row.run_id (some scope.scope_id)
      else any_run row.run_id run_ids

  -- The test of the window, for the scopes that have one.
  pub in_window : BudgetScope → ℕ → UsageRow → Bool
  unfolding is_daily
  in_window scope day row = not (is_daily scope.scope_type) || in_day day row.reported_at

  -- `usage_for`, with the day that the daily scopes need.
  unfoldable pub usage_for :
      BudgetScope → Option ℕ → Option (List String) → List UsageRow → Result BudgetError ℕ
  unfolding is_scope_type is_daily in_window total
  usage_for scope day run_ids rows =
      if not (is_scope_type scope.scope_type)
      then err budget_scope_invalid
      else if is_daily scope.scope_type && not (is_some day)
      then err budget_scope_invalid
      else ok (
          total
            (keep (λ row. in_window scope (or_else day 0) row && used_by scope run_ids row) rows))

  unfoldable pub used_cost_units :
      BudgetScope → ℕ → Option (List String) → List UsageRow → Result BudgetError ℕ
  unfolding is_daily
  used_cost_units scope now run_ids rows =
      usage_for scope (if is_daily scope.scope_type then some (day_of now) else none) run_ids rows

  -- `BudgetScope.aggregate_id`
  aggregate_id : BudgetScope → String
  aggregate_id scope =
      texts.first_200 (concat "bud-" (concat scope.scope_type (concat ":" scope.scope_id)))

module _ (texts : Texts) (store : EventStore) where
  abbrev pub Step : Type 0 → Type 0
  Step A = Exec (Budgets store) BudgetError A

  -- The Events of `try_reserve`.
  pub append :
      BudgetScope
      → String
      → String
      → String
      → String
      → String
      → String
      → Payload
      → Step AppendResult
  unfolding aggregate_id
  append scope workspace_id actor correlation_id type idempotency_scope key payload db =
      elim (store.append
        (record {
          workspace_id = workspace_id;
          aggregate_type = "budget";
          aggregate_id = aggregate_id texts scope;
          type = type;
          actor_account_id = actor;
          correlation_id = correlation_id;
          idempotency_scope = idempotency_scope;
          idempotency_key = key;
          payload = payload;
          policy_version = "policy-v1";
          channel_id = none;
          task_id = none;
          caused_by = none;
          expected_seq = none;
          sensitive = none;
          schema_version = 1;
        })
        db.events) [
          | ok (appended, events) ↦ ok (appended, record db { events = events })
          | err e ↦ err (store_error e)
        ]

  optional : Option String → Json
  optional none = null
  optional (some s) = str s

  -- Python's `a or b` on texts that may be missing.
  first_of : Option String → String → String
  first_of none default = default
  first_of (some s) default = if str_eq s "" then default else s

  -- The arguments of a reservation; `fresh_hex` and `fresh_id` are the `uuid4` of a call.
  pub record Request : Type 0 where
    pub workspace_id : String
    pub actor_account_id : String
    pub scope : BudgetScope
    pub work_item_id : Option String
    pub correlation_id : String
    pub idempotency_key : Option String
    pub run_ids : Option (List String)
    pub fresh_hex : String
    pub fresh_id : String

  -- The refused reservation.
  pub refuse : Request → ℕ → ℕ → ℕ → ℕ → Step ReservationOutcome
  unfolding append optional first_of
  refuse r limit estimate used held = do
    appended ←
        append r.scope r.workspace_id r.actor_account_id r.correlation_id "BUDGET_EXCEEDED"
          "budget:exceeded"
          (first_of r.idempotency_key
            (concat (first_of r.work_item_id r.fresh_hex) (concat ":" (texts.text_of estimate))))
          (("scope_type", str r.scope.scope_type)
            ∷ ("scope_id", str r.scope.scope_id)
            ∷ ("limit_cost_units", int limit)
            ∷ ("requested_cost_units", int estimate)
            ∷ ("used_cost_units", int used)
            ∷ ("reserved_cost_units", int held)
            ∷ ("work_item_id", optional r.work_item_id)
            ∷ [])
    pure (record {
      reserved = false;
      reservation = none;
      event_id = appended.event_id;
      limit_cost_units = limit;
      requested_cost_units = estimate;
      used_cost_units = used;
      reserved_cost_units = held;
    })

  pub insert_reservation : Request → ℕ → ℕ → Step (Unit {0})
  insert_reservation r estimate at db = ok (
    tt,
    record db {
      reservations =
          db.reservations
          ++ record {
            reservation_id = r.fresh_id;
            workspace_id = r.workspace_id;
            scope = r.scope;
            work_item_id = r.work_item_id;
            estimated_cost_units = estimate;
            status = reserved;
            created_at = at;
            settled_cost_units = none;
            settled_at = none;
          }
            ∷ [];
    },
  )

  -- The granted reservation.
  pub admit : Request → ℕ → ℕ → ℕ → ℕ → ℕ → Step ReservationOutcome
  unfolding append optional insert_reservation
  admit r limit estimate used held at = do
    insert_reservation r estimate at
    appended ←
        append r.scope r.workspace_id r.actor_account_id r.correlation_id "BUDGET_RESERVED"
          "budget:reserve" r.fresh_id
          (("reservation_id", str r.fresh_id)
            ∷ ("scope_type", str r.scope.scope_type)
            ∷ ("scope_id", str r.scope.scope_id)
            ∷ ("cost_units", int estimate)
            ∷ ("work_item_id", optional r.work_item_id)
            ∷ [])
    pure (record {
      reserved = true;
      reservation = some (record {
        reservation_id = r.fresh_id;
        scope = r.scope;
        estimated_cost_units = estimate;
        event_id = appended.event_id;
      });
      event_id = appended.event_id;
      limit_cost_units = limit;
      requested_cost_units = estimate;
      used_cost_units = used;
      reserved_cost_units = held;
    })

  -- After the checks of the values.
  unfoldable pub reserve_within : Request → Readings → ℕ → ℕ → Step ReservationOutcome
  unfolding refuse admit
  reserve_within r clock limit estimate = do
    used ← (λ db. lift (used_cost_units texts r.scope clock.for_used r.run_ids db.usage) db)
    held ← gets (λ db. reserved_cost_units r.scope clock.for_reserved none db.reservations)
    (if would_exceed used held estimate limit
        then refuse r limit estimate used held
        else admit r limit estimate used held clock.to_write)

  unfoldable pub try_reserve : Request → Readings → ℤ → ℤ → Step ReservationOutcome
  unfolding natural is_scope_type reserve_within
  try_reserve r clock limit_cost_units estimate = do
    lift (guard (is_scope_type r.scope.scope_type) budget_scope_invalid)
    wanted ← lift (natural estimate)
    limit ← lift (natural limit_cost_units)
    reserve_within r clock limit wanted

  outcome_or_error : ReservationOutcome → Result BudgetError Reservation
  outcome_or_error outcome =
      if outcome.reserved
      then elim outcome.reservation [
        | some reservation ↦ ok reservation
        | none ↦ err (budget_exceeded outcome)
      ]
      else err (budget_exceeded outcome)

  pub reserve : Request → Readings → ℤ → ℤ → Step Reservation
  unfolding try_reserve outcome_or_error
  reserve r clock limit_cost_units estimate = do
    outcome ← try_reserve r clock limit_cost_units estimate
    lift (outcome_or_error outcome)

  -- `_load_reservation`
  unfoldable pub load_reservation : String → Step ReservationRow
  unfolding find_reservation
  load_reservation reservation_id db = elim (find_reservation reservation_id db.reservations) [
    | some row ↦ ok (row, db)
    | none ↦ err budget_reservation_unknown
  ]

  unfoldable pub update : ReservationRow → Step (Unit {0})
  unfolding set_reservation
  update row db = ok (tt, record db { reservations = set_reservation row db.reservations })

  unfoldable pub settle : String → ℤ → ℕ → Readings → Option (List String) → Step ReservationStatus
  unfolding update is_reserved natural
  settle reservation_id actual_cost_units limit clock run_ids = do
    actual ← lift (natural actual_cost_units)
    row ← load_reservation reservation_id
    lift (guard (is_reserved row.status) budget_reservation_not_open)
    used ← (λ db. lift (used_cost_units texts row.scope clock.for_used run_ids db.usage) db)
    held ← gets (λ db.
        reserved_cost_units row.scope clock.for_reserved (some reservation_id) db.reservations)
    let status = settlement_status actual (minus limit (used + held))
    update (record row {
      status = status;
      settled_cost_units = some actual;
      settled_at = some clock.to_write;
    })
    pure status

  pub release : String → ℕ → Step (Unit {0})
  unfolding update is_reserved
  release reservation_id now = do
    row ← load_reservation reservation_id
    lift (guard (is_reserved row.status) budget_reservation_not_open)
    update (record row { status = released; settled_at = some now })

  -- The rows that `assert_not_overrun` counts.
  overran : BudgetScope → ℕ → ReservationRow → Bool
  unfolding same_scope is_exceeded
  overran scope now row =
      same_scope row.scope scope
      && is_exceeded row.status
      && in_day (day_of now) (or_else row.settled_at 0)
      && is_some row.settled_at

  pub assert_not_overrun : BudgetScope → ℕ → Step (Unit {0})
  unfolding overran
  assert_not_overrun scope now db =
      lift (guard (not (any (overran scope now) db.reservations)) budget_overrun) db
