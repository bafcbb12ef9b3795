-- ===== src/Usage/Budget/Granted.antt =====
-- server/usage/budget.py: what a reservation leaves.
use agent_colab.Prelude.Transactions.{◌>>=◌, After, After_mono, After-bind, After-bind_lift}
use agent_colab.Prelude.{
  ltb, ltb→lt, Bool-cases, keep, keep-append, append_nil, Result, ok, err, guard, ℕ, ◌+◌, ◌≤◌, ◌<◌,
  String, ◌≡◌, refl, sym, ap, subst, inl, inr, true, false, Option, none, List, [], ◌∷◌, ◌++◌,
  arith,
}
use agent_colab.Events.Store.{Payload, EventStoreError, AppendResult, EventStore}
use agent_colab.Usage.Budget.{
  ReservationStatus, BudgetScope, ReservationRow, ReservationOutcome, BudgetError,
  budget_scope_invalid, store_error, Budgets, Texts, Readings, is_scope_type, would_exceed, counts,
  estimates, reserved_cost_units, natural, used_cost_units, Step, append, Request, refuse,
  insert_reservation, admit, reserve_within, try_reserve,
}
use agent_colab.Schedules.Contract.{ℤ, pos, negsuc}

estimates-append :
    (xs ys : List ReservationRow) → estimates (xs ++ ys) ≡ estimates xs + estimates ys
unfolding estimates
estimates-append [] ys = omega arith
estimates-append (x ∷ xs) ys = omega (arith, estimates-append xs ys)

-- One row adds at most its estimate to what is reserved.
reserved_cost_units-snoc :
    (scope : BudgetScope) (now : ℕ) (excluded : Option String) (rows : List ReservationRow)
    (row : ReservationRow)
    → reserved_cost_units scope now excluded (rows ++ row ∷ [])
      ≤ reserved_cost_units scope now excluded rows + row.estimated_cost_units
unfolding reserved_cost_units estimates
reserved_cost_units-snoc scope now excluded rows row =
    rw (keep-append (counts scope now excluded) rows (row ∷ []))
      (elim (Bool-cases (counts scope now excluded row)) [
        | inl e ↦
            rw (e, estimates-append (keep (counts scope now excluded) rows) (row ∷ []))
              (omega arith)
        | inr e ↦ rw (e, append_nil (keep (counts scope now excluded) rows)) (omega arith)
      ])

not_below : (a b : ℕ) → ltb a b ≡ false → b ≤ a
not_below a b h = ground arith

module _ (texts : Texts) (store : EventStore) where
  -- The row of the reservation that the request asks for.
  abbrev pub IsRowOf : Request texts store → ℕ → ReservationRow → Type 0
  IsRowOf r estimate row =
      (row.scope ≡ r.scope)
      × (row.workspace_id ≡ r.workspace_id)
      × (row.estimated_cost_units ≡ estimate)
      × (row.status ≡ ReservationStatus.reserved)

  -- A granted reservation is added and fits the limit, and a refused one would not have.
  abbrev pub FitsWithin :
      Request texts store
      → Readings
      → ℕ
      → ℕ
      → Budgets store
      → ReservationOutcome
      → Budgets store
      → Type 0
  FitsWithin r clock limit estimate db outcome db' =
      (outcome.reserved ≡ true
        → (used : ℕ) × (used_cost_units texts r.scope clock.for_used r.run_ids db'.usage ≡ ok used)
          × (used + reserved_cost_units r.scope clock.for_reserved none db'.reservations ≤ limit)
          × ((row : ReservationRow) × (db'.reservations ≡ db.reservations ++ row ∷ [])
              × IsRowOf r estimate row))
      × (outcome.reserved ≡ false
          → (db'.reservations ≡ db.reservations)
            × ((used : ℕ) × (used_cost_units texts r.scope clock.for_used r.run_ids db.usage
                  ≡ ok used)
                × (limit
                    < used
                      + reserved_cost_units r.scope clock.for_reserved none db.reservations
                      + estimate)))

  -- The same for the limit and the estimate of a call, neither of which is negative.
  abbrev pub Fits :
      Request texts store
      → Readings
      → ℤ
      → ℤ
      → Budgets store
      → ReservationOutcome
      → Budgets store
      → Type 0
  Fits r clock limit_cost_units estimated_cost_units db outcome db' =
      (limit : ℕ) × (estimate : ℕ) × (limit_cost_units ≡ pos limit)
      × (estimated_cost_units ≡ pos estimate)
      × FitsWithin r clock limit estimate db outcome db'

  after_append :
      {B : Type 0} (Q : B → Budgets store → Type 0) (scope : BudgetScope)
      (workspace_id actor correlation_id type idempotency_scope key : String) (payload : Payload)
      (f : AppendResult → Step texts store B) (db : Budgets store)
      → ((appended : AppendResult) (events : store.State)
          → After Q (f appended (record db { events = events })))
      → After Q (
          (append texts store scope workspace_id actor correlation_id type idempotency_scope key
                payload
              >>= f)
            db)
  unfolding append
  after_append Q scope workspace_id actor correlation_id type idempotency_scope key payload f db k =
      After-bind Q (λ _ s. (events : store.State) × (s ≡ record db { events = events }))
        (append texts store scope workspace_id actor correlation_id type idempotency_scope key
          payload)
        f db (kept _)
        (λ appended s r. subst (λ d. After Q (f appended d)) (sym r.1) (k appended r.0))
    where
      kept :
          (r : Result EventStoreError (AppendResult × store.State))
          → After {S = Budgets store} {E = BudgetError} {A = AppendResult}
              (λ _ s. (events : store.State) × (s ≡ record db { events = events }))
              (elim r [
                | ok (appended, events) ↦ ok (appended, record db { events = events })
                | err e ↦ err (store_error e)
              ])
      kept (ok (appended, events)) = (events, refl)
      kept (err e) = tt

  refuse-Fits :
      (r : Request texts store) (clock : Readings) (limit estimate used : ℕ) (db : Budgets store)
      → used_cost_units texts r.scope clock.for_used r.run_ids db.usage ≡ ok used
      → limit
        < used + reserved_cost_units r.scope clock.for_reserved none db.reservations + estimate
      → After (FitsWithin r clock limit estimate db) (
          refuse texts store r limit estimate used
            (reserved_cost_units r.scope clock.for_reserved none db.reservations)
            db)
  unfolding refuse
  refuse-Fits r clock limit estimate used db known over =
      after_append (FitsWithin r clock limit estimate db) _ _ _ _ _ _ _ _ _ db
        (λ appended events. ((λ h. cc), (λ _. (refl, (used, known, over)))))

  admit-Fits :
      (r : Request texts store) (clock : Readings) (limit estimate used : ℕ) (db : Budgets store)
      → used_cost_units texts r.scope clock.for_used r.run_ids db.usage ≡ ok used
      → used + reserved_cost_units r.scope clock.for_reserved none db.reservations + estimate
        ≤ limit
      → After (FitsWithin r clock limit estimate db) (
          admit texts store r limit estimate used
            (reserved_cost_units r.scope clock.for_reserved none db.reservations)
            clock.to_write
            db)
  unfolding admit insert_reservation
  admit-Fits r clock limit estimate used db known fits =
      after_append (FitsWithin r clock limit estimate db) _ _ _ _ _ _ _ _ _ _ (λ appended events. (
        (λ _. (
          used,
          known,
          omega (
            arith,
            fits,
            reserved_cost_units-snoc r.scope clock.for_reserved none db.reservations _,
          ),
          (_, refl, (refl, refl, refl, refl)),
        )),
        (λ h. cc),
      ))

  reserve_within-Fits :
      (r : Request texts store) (clock : Readings) (limit estimate : ℕ) (db : Budgets store)
      → After
          (FitsWithin r clock limit estimate db)
          (reserve_within texts store r clock limit estimate db)
  unfolding reserve_within would_exceed
  reserve_within-Fits r clock limit estimate db =
      After-bind_lift (FitsWithin r clock limit estimate db)
        (used_cost_units texts r.scope clock.for_used r.run_ids db.usage) _ db
        (λ used known.
          elim (Bool-cases (
            ltb limit (
              used
              + reserved_cost_units r.scope clock.for_reserved none db.reservations
              + estimate))) [
                | inl over ↦
                    rw over (refuse-Fits r clock limit estimate used db known (ltb→lt _ _ over))
                | inr under ↦
                    rw under (admit-Fits r clock limit estimate used db known (not_below _ _ under))
              ])

  natural-pos : (n : ℤ) (m : ℕ) → natural n ≡ ok m → n ≡ pos m
  unfolding natural
  natural-pos (pos n) m h = let same : n ≡ m = cc in ap pos same
  natural-pos (negsuc n) m h = cc

  -- A reservation that is granted adds one open row of the scope, with the estimate of the call, and what is
  -- used and reserved in the scope is then within the limit of the call, at the instants that it read. One
  -- that is refused adds no reservation, and what was used and reserved with the estimate was above the limit.
  pub try_reserve-Fits :
      (r : Request texts store) (clock : Readings) (limit_cost_units estimate : ℤ)
      (db : Budgets store)
      → After
          (Fits r clock limit_cost_units estimate db)
          (try_reserve texts store r clock limit_cost_units estimate db)
  unfolding try_reserve
  try_reserve-Fits r clock limit_cost_units estimate db =
      After-bind_lift Q (guard (is_scope_type r.scope.scope_type) budget_scope_invalid) _ db (λ _ _.
        After-bind_lift Q (natural estimate) _ db (λ wanted e.
          After-bind_lift Q (natural limit_cost_units) _ db (λ limit l.
            After_mono Q (FitsWithin r clock limit wanted db)
              (reserve_within texts store r clock limit wanted db)
              (λ outcome db' fits. (
                limit,
                wanted,
                natural-pos limit_cost_units limit l,
                natural-pos estimate wanted e,
                fits,
              ))
              (reserve_within-Fits r clock limit wanted db))))
    where
      Q : ReservationOutcome → Budgets store → Type 0
      Q = Fits r clock limit_cost_units estimate db
