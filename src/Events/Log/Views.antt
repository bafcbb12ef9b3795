-- ===== src/Events/Log/Views.antt =====
-- server/events/postgres_store.py: the rows seen as one sequence of Events for each aggregate, and the two
-- readings of the clock.
-- The abstract store: the Events of each aggregate, oldest first.
use agent_colab.Prelude.Transactions.{After, After_intro}
use agent_colab.Prelude.{
  if◌then◌else◌, str_eq_iff, str_eq_refl, Bool-cases, String, ◌≡◌, refl, sym, ap, ◌∙◌, ◌≢◌, ◌⊎◌,
  inl, inr, true, false, Option, none, List, [], ◌∷◌, ◌++◌,
}
use agent_colab.Events.Store.{AppendRequest, AppendResult}
use agent_colab.Events.Hashing.{
  StoredEvent, HashBody, Hashes, hash_body, compute_content_hash, verify_content_hash, verify_chain,
}
use agent_colab.Events.Log.{
  Backend, Log, Tick, same_aggregate, stream, request_body_hash, unhashed, hashed, stored,
  result_of, append,
}
use agent_colab.Events.Log.Chain.{verify_from-last}
use agent_colab.Events.Log.Effect.{last_before, new_row, Effect, append-Effect}
use agent_colab.Events.Log.Streams.{
  stream_of, IsLocked, stream-snoc_other, same_aggregate-eq, stream_of-meanwhile, stream_of-new_row,
}
use agent_colab.Events.Log.Keys.{replay-ok}

abbrev pub View : Type 0
View = String → String → String → List StoredEvent

abbrev pub view : List StoredEvent → View
view rows workspace_id aggregate_type aggregate_id =
    stream workspace_id aggregate_type aggregate_id rows

-- Appending to the abstract store: the aggregate of the Event has it at its end.
abbrev pub with_event : StoredEvent → View → View
with_event event events w t a =
    if same_aggregate w t a event then events w t a ++ event ∷ [] else events w t a

-- The Event says what the request does, and the result names it.
abbrev pub IsRequested : AppendRequest → AppendResult → StoredEvent → Type 0
IsRequested r res event =
    (event.type ≡ r.type)
    × (event.payload ≡ r.payload)
    × (event.actor_account_id ≡ r.actor_account_id)
    × (event.caused_by ≡ r.caused_by)
    × (event.event_id ≡ res.event_id)
    × (event.aggregate_seq ≡ res.aggregate_seq)
    × (event.content_hash ≡ res.content_hash)

-- What the rows of a `Log` and the Events that others commit are, seen as an abstract store.
abbrev pub Refines : AppendRequest → Tick → Log → AppendResult → Log → Type 0
Refines r tick log res log' =
    ((res.replayed ≡ true) × ((log' ≡ log) ⊎ (log'.rows ≡ log.rows ++ tick.concurrent)))
    ⊎ ((res.replayed ≡ false)
        × ((event : StoredEvent) × IsRequested r res event
            × (same_aggregate r.workspace_id r.aggregate_type r.aggregate_id event ≡ true)
            × ((w t a : String)
                → view log'.rows w t a
                  ≡ with_event event (view (log.rows ++ tick.concurrent)) w t a)))

-- The hash tells instants apart.
abbrev pub IsTelling : Hashes → Type 0
IsTelling hashes =
    (b c : HashBody) → hashes.of_body b ≡ hashes.of_body c → b.occurred_at ≡ c.occurred_at

module _ (backend : Backend) (r : AppendRequest) (tick : Tick) where
  view-new_row :
      (log : Log) (pair : Option String × Option String)
      → IsLocked r tick
      → verify_chain backend.hashes (stream_of r log.rows) ≡ []
      → (w t a : String)
      → view ((log.rows ++ tick.concurrent) ++ new_row backend r tick log pair ∷ []) w t a
        ≡ with_event (new_row backend r tick log pair) (view (log.rows ++ tick.concurrent)) w t a
  unfolding stored hashed unhashed
  view-new_row log pair locked intact w t a =
      elim (Bool-cases (same_aggregate w t a (new_row backend r tick log pair))) [
        | inr other ↦ rw other (
            stream-snoc_other w t a (log.rows ++ tick.concurrent) (new_row backend r tick log pair)
              other)
        | inl own ↦
            let (p, q, s) = same_aggregate-eq w t a (new_row backend r tick log pair) own in
            rw (own, ← p, ← q, ← s)
              (stream_of-new_row backend r tick log pair locked intact
                ∙ ap (λ events. events ++ new_row backend r tick log pair ∷ [])
                    (sym (stream_of-meanwhile backend r tick log locked)))
      ]

  Refines-Effect :
      (log : Log) (res : AppendResult) (log' : Log)
      → IsLocked r tick
      → verify_chain backend.hashes (stream_of r log.rows) ≡ []
      → Effect backend r tick log res log'
      → Refines r tick log res log'
  unfolding stored hashed unhashed result_of same_aggregate
  Refines-Effect log res log' locked intact (inl (prior, e, f, g)) =
      let (same, there) = replay-ok prior (request_body_hash backend r) res f in
      inl (rw (← there) refl, elim g [ inl q ↦ inl q | inr q ↦ inr (rw q refl) ])
  Refines-Effect log res log' locked intact (inr (pair, e, f, g)) = inr (
    rw f refl,
    (
      new_row backend r tick log pair,
      (refl, refl, refl, refl, rw f refl, rw f refl, rw f refl),
      rw (str_eq_refl r.workspace_id, str_eq_refl r.aggregate_type, str_eq_refl r.aggregate_id)
          refl,
      (λ w t a. rw g (view-new_row log pair locked intact w t a)),
    ),
  )

  -- Seen as one sequence of Events for each aggregate, `append` either stores nothing and says that it
  -- replays, or puts one Event at the end of the sequence of the request's aggregate and changes no other,
  -- besides what other transactions commit meanwhile on other aggregates; the Event says what the request
  -- does and the result names it. The aggregate's chain verifies before.
  pub append-Refines :
      (log : Log)
      → IsLocked r tick
      → verify_chain backend.hashes (stream_of r log.rows) ≡ []
      → After (Refines r tick log) (append backend r tick log)
  append-Refines log locked intact =
      After_intro (Refines r tick log) (append backend r tick log) (λ res log' h.
        Refines-Effect log res log' locked intact (append-Effect backend r tick log res log' h))

  stored_differs :
      (event : StoredEvent)
      → IsTelling backend.hashes
      → event.occurred_at ≢ backend.isoformat_utc tick.stored_at
      → verify_content_hash backend.hashes (stored backend tick (hashed backend event)) ≡ false
  unfolding verify_content_hash stored hashed compute_content_hash hash_body
  stored_differs event telling h =
      elim (Bool-cases
        (verify_content_hash backend.hashes (stored backend tick (hashed backend event)))) [
          | inr e ↦ e
          | inl e ↦ absurd (h (telling _ _ ((str_eq_iff _ _).0 e)))
        ]

  Late-Effect :
      (log : Log) (res : AppendResult) (log' : Log)
      → IsTelling backend.hashes
      → backend.isoformat_utc tick.hashed_at ≢ backend.isoformat_utc tick.stored_at
      → IsLocked r tick
      → verify_chain backend.hashes (stream_of r log.rows) ≡ []
      → Effect backend r tick log res log'
      → res.replayed ≡ false
      → verify_chain backend.hashes (stream_of r log'.rows) ≢ []
  unfolding unhashed verify_chain
  Late-Effect log res log' telling late locked intact (inl (prior, e, f, g)) replays =
      let (same, there) = replay-ok prior (request_body_hash backend r) res f in
      let replayed : res.replayed ≡ true = rw (← there) refl in (λ q. cc)
  Late-Effect log res log' telling late locked intact (inr (pair, e, f, g)) replays =
      rw (g, stream_of-new_row backend r tick log pair locked intact)
        (λ q.
          let passes : verify_content_hash backend.hashes (new_row backend r tick log pair) ≡ true =
            verify_from-last backend.hashes 1 none (stream_of r log.rows)
              (new_row backend r tick log pair) q in
          let fails : verify_content_hash backend.hashes (new_row backend r tick log pair) ≡ false =
            stored_differs (unhashed backend r tick (last_before backend r tick log) pair) telling
              late in
          cc)

  -- `append` reads the clock once for the hash and again for the row. When the texts of the two readings
  -- differ and the hash tells instants apart, the aggregate's chain, which verified before, no longer
  -- verifies once the call has stored its Event.
  pub append_late :
      (log : Log)
      → IsTelling backend.hashes
      → backend.isoformat_utc tick.hashed_at ≢ backend.isoformat_utc tick.stored_at
      → IsLocked r tick
      → verify_chain backend.hashes (stream_of r log.rows) ≡ []
      → After
          (λ res log'.
            res.replayed ≡ false → verify_chain backend.hashes (stream_of r log'.rows) ≢ [])
          (append backend r tick log)
  append_late log telling late locked intact =
      After_intro
        (λ res log'.
          res.replayed ≡ false → verify_chain backend.hashes (stream_of r log'.rows) ≢ [])
        (append backend r tick log)
        (λ res log' h.
          Late-Effect log res log' telling late locked intact
            (append-Effect backend r tick log res log' h))
