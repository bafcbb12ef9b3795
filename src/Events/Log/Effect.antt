-- ===== src/Events/Log/Effect.antt =====
-- server/events/postgres_store.py: what a call of `append` that returns has done.
use agent_colab.Prelude.{
  is_some, Bool-cases, Option-cases, any, Result, ok, Result-cases, ◌>>=◌, String, ◌≡◌, refl, ◌⊎◌,
  inl, inr, Option, none, some, [], ◌∷◌, ◌++◌,
}
use agent_colab.Events.Store.{EventStoreError, AppendRequest, AppendResult}
use agent_colab.Events.Hashing.{StoredEvent}
use agent_colab.Events.Log.{
  Backend, Log, Tick, stream, last_of, get, find_idempotent, takes_seq, replay, check_workspace,
  next_seq, check_seq, request_body_hash, sealed, unhashed, hashed, stored, check_contract,
  result_of, insert, append_new, append,
}

module _ (backend : Backend) (r : AppendRequest) (tick : Tick) where
  abbrev pub last_before : Log → Option StoredEvent
  last_before log = last_of (stream r.workspace_id r.aggregate_type r.aggregate_id log.rows)

  abbrev unstored : Log → Option String × Option String → StoredEvent
  unstored log pair = hashed backend (unhashed backend r tick (last_before log) pair)

  -- The Event that a call of `append` stores.
  abbrev pub new_row : Log → Option String × Option String → StoredEvent
  new_row log pair = stored backend tick (
      hashed backend (
        unhashed backend r tick
          (last_of (stream r.workspace_id r.aggregate_type r.aggregate_id log.rows)) pair))

  -- The log when the INSERT runs.
  abbrev pub meanwhile : Log → Log
  meanwhile log = record log { rows = log.rows ++ tick.concurrent }

  -- The Event of the key was there, at the first or at the second look.
  abbrev pub IsReplayed : Log → AppendResult → Log → Type 0
  IsReplayed log res log' =
      (prior : StoredEvent) × (find_idempotent r log'.rows ≡ some prior)
      × (replay prior (request_body_hash backend r) ≡ ok res)
      × ((log' ≡ log) ⊎ (log' ≡ meanwhile log))

  -- No Event had the key, and one was stored.
  abbrev pub IsStored : Log → AppendResult → Log → Type 0
  IsStored log res log' =
      (pair : Option String × Option String) × (find_idempotent r (log.rows ++ tick.concurrent)
        ≡ none)
      × (res ≡ result_of backend (new_row log pair))
      × (log' ≡ record log { rows = (log.rows ++ tick.concurrent) ++ new_row log pair ∷ [] })

  abbrev pub Effect : Log → AppendResult → Log → Type 0
  Effect log res log' = IsReplayed log res log' ⊎ IsStored log res log'

  abbrev replayed_in : StoredEvent → Log → Result EventStoreError (AppendResult × Log)
  replayed_in prior log = replay prior (request_body_hash backend r) >>= λ result. ok (result, log)

  replayed_lem :
      (prior : StoredEvent) (log : Log) {res : AppendResult} {log' : Log}
      → replayed_in prior log ≡ ok (res, log')
      → (replay prior (request_body_hash backend r) ≡ ok res) × (log' ≡ log)
  replayed_lem prior log {res} {log'} =
      elim (Result-cases (replay prior (request_body_hash backend r))) [
        | inl (a, e) ↦ rw e (λ h. (cc, cc))
        | inr (e, f) ↦ rw f (λ h. cc)
      ]

  insert_lem :
      (row : StoredEvent) (log : Log) (res : AppendResult) (log' : Log)
      → insert backend r row log ≡ ok (res, log')
      → ((prior : StoredEvent) × (find_idempotent r log'.rows ≡ some prior)
          × (replay prior (request_body_hash backend r) ≡ ok res)
          × (log' ≡ log))
        ⊎ ((find_idempotent r log.rows ≡ none)
            × (res ≡ result_of backend row)
            × (log' ≡ record log { rows = log.rows ++ row ∷ [] }))
  unfolding insert
  insert_lem row log res log' = elim (Option-cases (find_idempotent r log.rows)) [
    | inr (prior, e) ↦
        rw (insert, e)
          (λ h.
            let (same, there) = replayed_lem prior log h in inl (prior, rw there e, same, there))
    | inl e ↦ elim (Bool-cases (any (takes_seq row) log.rows)) [
      | inl f ↦ rw (insert, e, f) (λ h. cc)
      | inr f ↦ elim (Bool-cases (is_some (get row.event_id log.rows))) [
        | inl g ↦ rw (insert, e, f, g) (λ h. cc)
        | inr g ↦ rw (insert, e, f, g) (λ h. inr (refl, cc, cc))
      ]
    ]
  ]

  stored_lem :
      (log : Log) (pair : Option String × Option String) (res : AppendResult) (log' : Log)
      → ((prior : StoredEvent) × (find_idempotent r log'.rows ≡ some prior)
          × (replay prior (request_body_hash backend r) ≡ ok res)
          × (log' ≡ meanwhile log))
        ⊎ ((find_idempotent r (meanwhile log).rows ≡ none)
            × (res ≡ result_of backend (new_row log pair))
            × (log' ≡ record log { rows = (meanwhile log).rows ++ new_row log pair ∷ [] }))
      → Effect log res log'
  stored_lem log pair res log' (inl (prior, e, f, g)) = inl (prior, e, f, inr g)
  stored_lem log pair res log' (inr (e, f, g)) = inr (pair, e, f, g)

  append_new-Effect :
      (log : Log) (res : AppendResult) (log' : Log)
      → append_new backend r tick log ≡ ok (res, log')
      → Effect log res log'
  unfolding append_new
  append_new-Effect log res log' = elim (Result-cases (check_workspace r log)) [
    | inr (_, a) ↦ rw (append_new, a) (λ h. cc)
    | inl (_, a) ↦ elim (Result-cases (check_seq r.expected_seq (next_seq (last_before log)))) [
      | inr (_, b) ↦ rw (append_new, a, b) (λ h. cc)
      | inl (_, b) ↦ elim (Result-cases (sealed backend r r.sensitive)) [
        | inr (_, c) ↦ rw (append_new, a, b, c) (λ h. cc)
        | inl (pair, c) ↦ elim (Result-cases (check_contract backend (unstored log pair))) [
          | inr (_, d) ↦ rw (append_new, a, b, c, d) (λ h. cc)
          | inl (_, d) ↦
              rw (append_new, a, b, c, d)
                (λ h.
                  stored_lem log pair res log'
                    (insert_lem (new_row log pair) (meanwhile log) res log' h))
        ]
      ]
    ]
  ]

  pub append-Effect :
      (log : Log) (res : AppendResult) (log' : Log)
      → append backend r tick log ≡ ok (res, log')
      → Effect log res log'
  unfolding append
  append-Effect log res log' = elim (Option-cases (find_idempotent r log.rows)) [
    | inr (prior, e) ↦
        rw (append, e)
          (λ h.
            let (same, there) = replayed_lem prior log h in
            inl (prior, rw there e, same, inl there))
    | inl e ↦ rw (append, e) (append_new-Effect log res log')
  ]
