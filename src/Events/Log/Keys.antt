-- ===== src/Events/Log/Keys.antt =====
-- server/events/postgres_store.py: the idempotency keys of the requests.
use agent_colab.Prelude.Transactions.{After, After_intro}
use agent_colab.Prelude.{
  if◌then◌else◌, str_eq, str_eq_iff, str_eq_refl, str_differ, Bool-cases, ap, ◌≢◌, false, ok, err,
  String, ◌≡◌, refl, inl, inr, true, none, some, List, [], ◌∷◌, ◌++◌,
}
use agent_colab.Events.Store.{idempotency_conflict, AppendRequest, AppendResult}
use agent_colab.Events.Hashing.{StoredEvent}
use agent_colab.Events.Log.{
  Backend, Log, Tick, RequestBody, has_key, find_idempotent, replay, request_body_hash, unhashed,
  hashed, stored, result_of, append,
}
use agent_colab.Events.Log.Effect.{new_row, Effect, append-Effect}

find_idempotent-snoc :
    (r : AppendRequest) (rows : List StoredEvent) (row : StoredEvent)
    → find_idempotent r rows ≡ none
    → has_key r row ≡ true
    → find_idempotent r (rows ++ row ∷ []) ≡ some row
unfolding find_idempotent
find_idempotent-snoc r [] row n h = rw h refl
find_idempotent-snoc r (event ∷ rows) row n h = over (find_idempotent-snoc r rows row) n
  where
    over :
        (find_idempotent r rows ≡ none
          → has_key r row ≡ true
          → find_idempotent r (rows ++ row ∷ []) ≡ some row)
        → find_idempotent r (event ∷ rows) ≡ none
        → find_idempotent r (event ∷ rows ++ row ∷ []) ≡ some row
    over later = elim (Bool-cases (has_key r event)) [
      | inl e ↦ rw e (λ q. cc)
      | inr e ↦ rw e (λ q. later q h)
    ]

-- Requests under one key.
abbrev pub IsSameKey : AppendRequest → AppendRequest → Type 0
IsSameKey r again =
    (again.workspace_id ≡ r.workspace_id)
    × (again.actor_account_id ≡ r.actor_account_id)
    × (again.idempotency_scope ≡ r.idempotency_scope)
    × (again.idempotency_key ≡ r.idempotency_key)

find_idempotent-IsSameKey :
    (r again : AppendRequest) (rows : List StoredEvent)
    → IsSameKey r again
    → find_idempotent again rows ≡ find_idempotent r rows
unfolding find_idempotent has_key
find_idempotent-IsSameKey r again [] h = refl
find_idempotent-IsSameKey r again (event ∷ rows) h =
    let rest = find_idempotent-IsSameKey r again rows h in
    let (a, b, c, d) = h in rw (a, b, c, d, rest) refl

-- What two requests under one key have in common when they ask for the same.
abbrev pub body_of : AppendRequest → RequestBody
body_of r = record {
  workspace_id = r.workspace_id;
  aggregate_type = r.aggregate_type;
  aggregate_id = r.aggregate_id;
  type = r.type;
  payload = r.payload;
  sensitive = r.sensitive;
  channel_id = r.channel_id;
  task_id = r.task_id;
  caused_by = r.caused_by;
}

-- What `_replay` answers of an Event.
abbrev pub replay_of : StoredEvent → AppendResult
replay_of row = record {
  event_id = row.event_id;
  aggregate_seq = row.aggregate_seq;
  content_hash = row.content_hash;
  recorded_seq = row.recorded_seq;
  replayed = true;
}

pub replay-ok :
    (prior : StoredEvent) (body_hash : String) (res : AppendResult)
    → replay prior body_hash ≡ ok res
    → (prior.request_body_hash ≡ body_hash) × (replay_of prior ≡ res)
unfolding replay
replay-ok prior body_hash res = elim (Bool-cases (str_eq prior.request_body_hash body_hash)) [
  | inl e ↦ rw e (λ h. ((str_eq_iff prior.request_body_hash body_hash).0 e, cc))
  | inr e ↦ rw e (λ h. cc)
]

module _ (backend : Backend) (r : AppendRequest) (tick : Tick) where
  -- The key leads to an Event of this body and result.
  abbrev IsKeyed : AppendResult → Log → Type 0
  IsKeyed res log =
      (prior : StoredEvent) × (find_idempotent r log.rows ≡ some prior)
      × (prior.request_body_hash ≡ request_body_hash backend r)
      × (record res { replayed = true } ≡ replay_of prior)

  IsKeyed-Effect :
      (log : Log) (res : AppendResult) (log' : Log)
      → Effect backend r tick log res log'
      → IsKeyed res log'
  unfolding stored hashed unhashed result_of has_key
  IsKeyed-Effect log res log' (inl (prior, e, f, g)) =
      let (same, there) = replay-ok prior (request_body_hash backend r) res f in
      (prior, e, same, rw (← there) refl)
  IsKeyed-Effect log res log' (inr (pair, e, f, g)) = (
    new_row backend r tick log pair,
    rw g (
        find_idempotent-snoc r (log.rows ++ tick.concurrent) (new_row backend r tick log pair) e (
          rw
            (
              str_eq_refl r.workspace_id,
              str_eq_refl r.actor_account_id,
              str_eq_refl r.idempotency_scope,
              str_eq_refl r.idempotency_key,
            )
            refl)),
    refl,
    rw f refl,
  )

  answered :
      (again : AppendRequest) (later : Tick) (res : AppendResult) (log' : Log)
      → IsSameKey r again
      → IsKeyed res log'
      → append backend again later log' ≡ (
          if str_eq (request_body_hash backend r) (request_body_hash backend again)
          then ok (record res { replayed = true }, log')
          else err idempotency_conflict)
  unfolding append replay
  answered again later res log' h (prior, e, same, there) =
      rw (append, find_idempotent-IsSameKey r again log'.rows h, e, same, there)
        (elim (Bool-cases
          (str_eq (request_body_hash backend r) (request_body_hash backend again))) [
            | inl f ↦ rw f refl
            | inr f ↦ rw f refl
          ])

  -- A second request under the key of one that has returned stores nothing: with the same body it
  -- returns the same result, marked as replayed, and with another body it is an `IDEMPOTENCY_CONFLICT`.
  -- The body is the workspace, the aggregate, the type, the two payloads, the channel, the Task and the
  -- cause; the hash of the bodies must tell these two requests apart where their bodies differ.
  pub append_again :
      (again : AppendRequest) (later : Tick) (log : Log)
      → IsSameKey r again
      → (backend.of_request (body_of r) ≡ backend.of_request (body_of again)
          → body_of r ≡ body_of again)
      → After
          (λ res log'.
            (body_of r ≡ body_of again
              → append backend again later log' ≡ ok (record res { replayed = true }, log'))
            × (body_of r ≢ body_of again
                → append backend again later log' ≡ err idempotency_conflict))
          (append backend r tick log)
  unfolding request_body_hash
  append_again again later log h tells =
      After_intro
        (λ res log'.
          (body_of r ≡ body_of again
            → append backend again later log' ≡ ok (record res { replayed = true }, log'))
          × (body_of r ≢ body_of again
              → append backend again later log' ≡ err idempotency_conflict))
        (append backend r tick log)
        (λ res log' e.
          let keyed = IsKeyed-Effect log res log' (append-Effect backend r tick log res log' e) in
          let answer = answered again later res log' h keyed in
          (
            (λ same.
                let hashes : request_body_hash backend r ≡ request_body_hash backend again =
                  ap backend.of_request same in
                let equal : str_eq (request_body_hash backend r) (request_body_hash backend again)
                    ≡ true =
                  (str_eq_iff _ _).1 hashes in
                rw (answer, equal) refl),
            (λ other.
                let differ : str_eq (request_body_hash backend r) (request_body_hash backend again)
                    ≡ false =
                  str_differ _ _ (λ q. other (tells q)) in
                rw (answer, differ) refl),
          ))
