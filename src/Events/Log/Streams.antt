-- ===== src/Events/Log/Streams.antt =====
-- server/events/postgres_store.py: the streams of the aggregates after a call of `append`.
-- Every aggregate's chain verifies.
use agent_colab.Prelude.Transactions.{After, After_intro}
use agent_colab.Prelude.{
  str_eq_iff, str_eq_refl, Bool-cases, keep, All, keep-append, append_nil, sorted-snoc, All-sorted,
  ◌≤◌, String, ◌≡◌, refl, sym, ap, ◌∙◌, subst, inl, inr, true, false, Option, none, some, List, [],
  ◌∷◌, ◌++◌, arith,
}
use agent_colab.Events.Store.{AppendRequest, AppendResult}
use agent_colab.Events.Hashing.{
  StoredEvent, Hashes, hash_body, compute_content_hash, verify_content_hash, verify_chain,
}
use agent_colab.Events.Log.{
  Backend, Log, Tick, same_aggregate, seq_of, stream, next_seq, hash_of, unhashed, hashed, stored,
  append,
}
use agent_colab.Events.Log.Chain.{
  seq_after, hash_after, Continues, verify_from-snoc, verify_from-below,
}
use agent_colab.Events.Log.Effect.{last_before, new_row, meanwhile, Effect, append-Effect}

abbrev pub IsIntact : Hashes → List StoredEvent → Type 0
IsIntact hashes rows =
    (workspace_id aggregate_type aggregate_id : String)
    → verify_chain hashes (stream workspace_id aggregate_type aggregate_id rows) ≡ []

-- The stream of the request's aggregate.
abbrev pub stream_of : AppendRequest → List StoredEvent → List StoredEvent
stream_of r = stream r.workspace_id r.aggregate_type r.aggregate_id

-- The advisory lock: what other transactions commit meanwhile is on other aggregates.
abbrev pub IsLocked : AppendRequest → Tick → Type 0
IsLocked r tick =
    keep (same_aggregate r.workspace_id r.aggregate_type r.aggregate_id) tick.concurrent ≡ []

pub stream-snoc_other :
    (w t a : String) (rows : List StoredEvent) (row : StoredEvent)
    → same_aggregate w t a row ≡ false
    → stream w t a (rows ++ row ∷ []) ≡ stream w t a rows
unfolding stream
stream-snoc_other w t a rows row h =
    rw
      (
        keep-append (same_aggregate w t a) rows (row ∷ []),
        h,
        append_nil (keep (same_aggregate w t a) rows),
      )
      refl

stream-snoc_own :
    (w t a : String) (rows : List StoredEvent) (row : StoredEvent)
    → same_aggregate w t a row ≡ true
    → All (λ event. event.aggregate_seq ≤ row.aggregate_seq) (stream w t a rows)
    → stream w t a (rows ++ row ∷ []) ≡ stream w t a rows ++ row ∷ []
unfolding stream seq_of
stream-snoc_own w t a rows row h below =
    rw (keep-append (same_aggregate w t a) rows (row ∷ []), h)
      (sorted-snoc seq_of (keep (same_aggregate w t a) rows) row (
        All-sorted seq_of (λ event. event.aggregate_seq ≤ row.aggregate_seq)
          (keep (same_aggregate w t a) rows) below))

pub same_aggregate-eq :
    (w t a : String) (row : StoredEvent)
    → same_aggregate w t a row ≡ true
    → (row.workspace_id ≡ w) × (row.aggregate_type ≡ t) × (row.aggregate_id ≡ a)
unfolding same_aggregate
same_aggregate-eq w t a row h = ground (
  arith,
  str_eq_iff row.workspace_id w,
  str_eq_iff row.aggregate_type t,
  str_eq_iff row.aggregate_id a,
)

module _ (backend : Backend) (r : AppendRequest) (tick : Tick) where
  pub stream_of-meanwhile :
      (log : Log)
      → IsLocked r tick
      → stream_of r (log.rows ++ tick.concurrent) ≡ stream_of r log.rows
  unfolding stream
  stream_of-meanwhile log h =
      rw
        (
          keep-append (same_aggregate r.workspace_id r.aggregate_type r.aggregate_id) log.rows
              tick.concurrent,
          h,
          append_nil
              (keep (same_aggregate r.workspace_id r.aggregate_type r.aggregate_id) log.rows),
        )
        refl

  -- A stored row verifies where the text of its instant is the hashed one.
  stored_verifies :
      (event : StoredEvent)
      → event.occurred_at ≡ backend.isoformat_utc tick.stored_at
      → verify_content_hash backend.hashes (stored backend tick (hashed backend event)) ≡ true
  unfolding verify_content_hash stored hashed compute_content_hash hash_body
  stored_verifies event h = rw (← h) (str_eq_refl (compute_content_hash backend.hashes event))

  next_seq_lem : (o : Option StoredEvent) → next_seq o ≡ seq_after 1 o
  unfolding next_seq
  next_seq_lem none = refl
  next_seq_lem (some event) = refl

  hash_of_lem : (o : Option StoredEvent) → hash_of o ≡ hash_after none o
  unfolding hash_of
  hash_of_lem none = refl
  hash_of_lem (some event) = refl

  pub new_row-Continues :
      (log : Log) (pair : Option String × Option String)
      → backend.isoformat_utc tick.hashed_at ≡ backend.isoformat_utc tick.stored_at
      → Continues backend.hashes
          (seq_after 1 (last_before backend r tick log))
          (hash_after none (last_before backend r tick log))
          (new_row backend r tick log pair)
  unfolding stored hashed unhashed
  new_row-Continues log pair h = (
    next_seq_lem (last_before backend r tick log),
    hash_of_lem (last_before backend r tick log),
    stored_verifies (unhashed backend r tick (last_before backend r tick log) pair) h,
  )

  -- The stream of the aggregate before, with the new Event at its end.
  pub stream_of-new_row :
      (log : Log) (pair : Option String × Option String)
      → IsLocked r tick
      → verify_chain backend.hashes (stream_of r log.rows) ≡ []
      → stream_of r ((log.rows ++ tick.concurrent) ++ new_row backend r tick log pair ∷ [])
        ≡ stream_of r log.rows ++ new_row backend r tick log pair ∷ []
  unfolding verify_chain stored hashed unhashed same_aggregate
  stream_of-new_row log pair locked intact =
      stream-snoc_own r.workspace_id r.aggregate_type r.aggregate_id (log.rows ++ tick.concurrent)
        row own below
      ∙ ap (λ events. events ++ row ∷ []) (stream_of-meanwhile log locked)
    where
      row : StoredEvent
      row = new_row backend r tick log pair

      own : same_aggregate r.workspace_id r.aggregate_type r.aggregate_id row ≡ true
      own =
          rw (str_eq_refl r.workspace_id, str_eq_refl r.aggregate_type, str_eq_refl r.aggregate_id)
            refl

      below :
          All
            (λ event. event.aggregate_seq ≤ row.aggregate_seq)
            (stream_of r (log.rows ++ tick.concurrent))
      below =
          subst (All (λ event. event.aggregate_seq ≤ row.aggregate_seq))
            (sym (stream_of-meanwhile log locked))
            (subst (λ n. All (λ event. event.aggregate_seq ≤ n) (stream_of r log.rows))
              (sym (next_seq_lem (last_before backend r tick log)))
              (verify_from-below backend.hashes 1 none (stream_of r log.rows) intact).1)

  -- The chain of the request's aggregate goes on with the new Event.
  new_row-verifies :
      (log : Log) (pair : Option String × Option String)
      → backend.isoformat_utc tick.hashed_at ≡ backend.isoformat_utc tick.stored_at
      → IsLocked r tick
      → verify_chain backend.hashes (stream_of r log.rows) ≡ []
      → verify_chain backend.hashes
          (stream_of r ((log.rows ++ tick.concurrent) ++ new_row backend r tick log pair ∷ []))
        ≡ []
  unfolding verify_chain
  new_row-verifies log pair on_time locked intact = rw (stream_of-new_row log pair locked intact) (
      verify_from-snoc backend.hashes 1 none (stream_of r log.rows)
        (new_row backend r tick log pair) intact (new_row-Continues log pair on_time))

  IsIntact-Effect :
      (log : Log) (res : AppendResult) (log' : Log)
      → backend.isoformat_utc tick.hashed_at ≡ backend.isoformat_utc tick.stored_at
      → IsLocked r tick
      → IsIntact backend.hashes log.rows
      → IsIntact backend.hashes (log.rows ++ tick.concurrent)
      → Effect backend r tick log res log'
      → IsIntact backend.hashes log'.rows
  unfolding stored hashed unhashed
  IsIntact-Effect log res log' on_time locked before meanwhile (inl (prior, e, f, inl g)) =
      rw g before
  IsIntact-Effect log res log' on_time locked before meanwhile (inl (prior, e, f, inr g)) =
      rw g meanwhile
  IsIntact-Effect log res log' on_time locked before meanwhile (inr (pair, e, f, g)) =
      rw g (λ w t a. elim (Bool-cases (same_aggregate w t a (new_row backend r tick log pair))) [
        | inr other ↦
            rw
              (stream-snoc_other w t a (log.rows ++ tick.concurrent)
                (new_row backend r tick log pair) other)
              (meanwhile w t a)
        | inl own ↦
            let (p, q, s) = same_aggregate-eq w t a (new_row backend r tick log pair) own in
            rw (← p, ← q, ← s)
              (new_row-verifies log pair on_time locked
                (before r.workspace_id r.aggregate_type r.aggregate_id))
      ])

  -- Appending an Event keeps every aggregate's chain verifying, whether the call stores the Event or finds
  -- its key, when the two readings of the clock have one text, the Events that other transactions commit
  -- meanwhile are on other aggregates, and the chains verify without the new Event.
  pub append-IsIntact :
      (log : Log)
      → backend.isoformat_utc tick.hashed_at ≡ backend.isoformat_utc tick.stored_at
      → IsLocked r tick
      → IsIntact backend.hashes log.rows
      → IsIntact backend.hashes (log.rows ++ tick.concurrent)
      → After (λ _ log'. IsIntact backend.hashes log'.rows) (append backend r tick log)
  append-IsIntact log on_time locked before meanwhile =
      After_intro (λ _ log'. IsIntact backend.hashes log'.rows) (append backend r tick log)
        (λ res log' h.
          IsIntact-Effect log res log' on_time locked before meanwhile
            (append-Effect backend r tick log res log' h))
