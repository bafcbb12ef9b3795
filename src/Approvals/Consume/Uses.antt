-- ===== src/Approvals/Consume/Uses.antt =====
-- server/approvals/service.py: the uses that a consumption leaves recorded.
use agent_colab.Prelude.Transactions.{◌>>=◌, After, After-bind}
use agent_colab.Prelude.{
  str_eq, str_eq_refl, Bool-cases, Option-cases, length, length-append, Result, ok, err, ℕ, ◌+◌,
  ◌≤◌, ◌<◌, String, ◌≡◌, refl, sym, ◌∙◌, subst, inl, inr, true, false, Option, none, some, List, [],
  ◌∷◌, ◌++◌, arith,
}
use agent_colab.Events.Store.{EventStoreError, AppendResult, EventStore}
use agent_colab.Approvals.Consume.{
  Consumption, Ledger, ConsumeResult, find_key, is_consumed, same_subject, exhausted,
  append_consumed, recorded, check_use, replay, consume_approval,
}
use agent_colab.Approvals.Model.{
  consumed, ApprovalError, store_error, is_consumable, status_after_consumption, Subject, in_window,
}

-- No more uses are recorded than the grant allows, and the grant shows CONSUMED only when its uses are
-- used up.
pub record IsBounded {store : EventStore} (ledger : Ledger store) : Type 0 where
  pub uses_fit : (m : ℕ) → ledger.grant.max_uses ≡ some m → length ledger.consumptions ≤ m
  pub consumed_full :
      ledger.grant.status ≡ consumed
      → (m : ℕ) × (ledger.grant.max_uses ≡ some m) × (m ≤ length ledger.consumptions)

find_key-last :
    (key : String) (cs : List Consumption) (c : Consumption)
    → find_key key cs ≡ none
    → str_eq c.consumption_key key ≡ true
    → find_key key (cs ++ c ∷ []) ≡ some c
unfolding find_key
find_key-last key [] c n h = rw h refl
find_key-last key (d ∷ cs) c n h = elim (Bool-cases (str_eq d.consumption_key key)) [
  | inl e ↦ absurd (head e)
  | inr e ↦ rw e (find_key-last key cs c (sym (tail e) ∙ n) h)
]
  where
    head : str_eq d.consumption_key key ≡ true → some d ≡ none
    head e = sym (rw e refl) ∙ n

    tail : str_eq d.consumption_key key ≡ false → find_key key (d ∷ cs) ≡ find_key key cs
    tail e = rw e refl

    absurd : some d ≡ none → find_key key (d ∷ cs ++ c ∷ []) ≡ some c
    absurd q = cc

module _ (store : EventStore) where
  length-snoc : {A : Type 0} (xs : List A) (y : A) → length (xs ++ y ∷ []) ≡ length xs + 1
  length-snoc xs y = omega (arith, length-append xs (y ∷ []))

  check_use-room :
      (consumed_for : Subject) (now used : ℕ) (ledger : Ledger store)
      → After
          (λ _ ledger'. (ledger' ≡ ledger) × ((m : ℕ) → ledger.grant.max_uses ≡ some m → used < m))
          (check_use store consumed_for now used ledger)
  unfolding check_use exhausted
  check_use-room consumed_for now used ledger =
      elim (Bool-cases (is_consumed ledger.grant.status)) [
        | inl a ↦ rw (a, After) tt
        | inr a ↦
            rw (a, After)
              (elim (Bool-cases (is_consumable ledger.grant.status)) [
                | inr b ↦ rw (b, After) tt
                | inl b ↦
                    rw (b, After)
                      (elim (Bool-cases (in_window ledger.grant now)) [
                        | inr c ↦ rw (c, After) tt
                        | inl c ↦
                            rw (c, After)
                              (elim (Bool-cases (same_subject consumed_for ledger.grant.subject)) [
                                | inr d ↦ rw (d, After) tt
                                | inl d ↦
                                    rw (d, After)
                                      (elim (Bool-cases (exhausted used ledger.grant.max_uses)) [
                                        | inl e ↦ rw (e, After) tt
                                        | inr e ↦
                                            rw (e, After) (refl, room_left ledger.grant.max_uses e)
                                      ])
                              ])
                      ])
              ])
      ]
    where
      room_left : (o : Option ℕ) → exhausted used o ≡ false → (m : ℕ) → o ≡ some m → used < m
      room_left none h m e = cc
      room_left (some k) h m e = ground arith

  -- A recorded use keeps the bound.
  recorded-IsBounded :
      (key by : String) (subject : Subject) (now : ℕ) (appended : AppendResult)
      (ledger : Ledger store)
      → ((m : ℕ) → ledger.grant.max_uses ≡ some m → length ledger.consumptions < m)
      → After
          (λ result ledger'. IsBounded ledger' × (result.used_count ≡ length ledger'.consumptions))
          (recorded store key by subject (length ledger.consumptions + 1) now appended ledger)
  unfolding recorded status_after_consumption
  recorded-IsBounded key by subject now appended ledger room = (
    record {
      uses_fit = λ m e. omega (arith, added, room m e);
      consumed_full = λ h. full ledger.grant.max_uses h;
    },
    sym added,
  )
    where
      added :
          length (
            ledger.consumptions
            ++ record {
              consumption_key = key;
              consumed_by = by;
              consumed_for = subject;
              event_id = appended.event_id;
            }
              ∷ [])
          ≡ length ledger.consumptions + 1
      added = length-snoc ledger.consumptions _

      full :
          (o : Option ℕ)
          → status_after_consumption (length ledger.consumptions + 1) o ≡ consumed
          → (m : ℕ) × (o ≡ some m)
            × (m
                ≤ length (
                    ledger.consumptions
                    ++ record {
                      consumption_key = key;
                      consumed_by = by;
                      consumed_for = subject;
                      event_id = appended.event_id;
                    }
                      ∷ []))
      full none h = cc
      full (some m) h = (m, refl, ground (arith, added))

  appended-events :
      (key by : String) (subject : Subject) (correlation_id : String) (used : ℕ)
      (ledger : Ledger store)
      → After
          (λ appended ledger'.
            (events : store.State) × (ledger' ≡ record ledger { events = events }))
          (append_consumed store key by subject correlation_id used ledger)
  unfolding append_consumed
  appended-events key by subject correlation_id used ledger =
      answered (store.append _ ledger.events)
    where
      answered :
          (r : Result EventStoreError (AppendResult × store.State))
          → After {S = Ledger store} {E = ApprovalError} {A = AppendResult}
              (λ appended ledger'.
                (events : store.State) × (ledger' ≡ record ledger { events = events }))
              (elim r [
                | ok (appended, events) ↦ ok (appended, record ledger { events = events })
                | err e ↦ err (store_error e)
              ])
      answered (ok (appended, events)) = (events, refl)
      answered (err e) = tt

  module _ (key by : String) (subject : Subject) (correlation_id : String) (now : ℕ) where
    -- A new use, with what its record then satisfies.
    used-After :
        (Q : ConsumeResult → Ledger store → Type 0) (ledger : Ledger store)
        → ((appended : AppendResult) (events : store.State)
            → ((m : ℕ) → ledger.grant.max_uses ≡ some m → length ledger.consumptions < m)
            → After Q (
                recorded store key by subject
                  (length ledger.consumptions + 1)
                  now
                  appended
                  (record ledger { events = events })))
        → find_key key ledger.consumptions ≡ none
        → After Q (consume_approval store key by subject correlation_id now ledger)
    unfolding consume_approval
    used-After Q ledger k n =
        rw (n, After)
          (After-bind Q
            (λ _ ledger'.
              (ledger' ≡ ledger)
              × ((m : ℕ) → ledger.grant.max_uses ≡ some m → length ledger.consumptions < m))
            (check_use store subject now (length ledger.consumptions)) _ ledger
            (check_use-room subject now (length ledger.consumptions) ledger)
            (λ _ ledger' r.
              subst
                (λ l. After Q (
                  (append_consumed store key by subject correlation_id
                        (length ledger.consumptions + 1)
                      >>= recorded store key by subject (length ledger.consumptions + 1) now)
                    l))
                (sym r.0)
                (After-bind Q
                  (λ appended ledger'.
                    (events : store.State) × (ledger' ≡ record ledger { events = events }))
                  (append_consumed store key by subject correlation_id
                    (length ledger.consumptions + 1))
                  (recorded store key by subject (length ledger.consumptions + 1) now) ledger
                  (appended-events key by subject correlation_id (length ledger.consumptions + 1)
                    ledger)
                  (λ appended ledger'' p.
                    subst
                      (λ l. After Q (
                        recorded store key by subject (length ledger.consumptions + 1) now appended
                          l))
                      (sym p.1) (k appended p.0 r.1)))))

    -- Whatever is asked of an approval whose recorded uses are within its bound: after a consumption that
    -- returns they still are, CONSUMED is shown only with all uses taken, and the count that is returned
    -- is the number of uses recorded.
    pub consume_approval-IsBounded :
        (ledger : Ledger store)
        → IsBounded ledger
        → After
            (λ result ledger'.
              IsBounded ledger' × (result.used_count ≡ length ledger'.consumptions))
            (consume_approval store key by subject correlation_id now ledger)
    unfolding consume_approval replay
    consume_approval-IsBounded ledger h = elim (Option-cases (find_key key ledger.consumptions)) [
      | inr (existing, e) ↦ rw (e, After) (h, refl)
      | inl n ↦
          used-After _ ledger
            (λ appended events room.
              recorded-IsBounded key by subject now appended (record ledger { events = events })
                room)
            n
    ]

    again :
        (ledger : Ledger store) (existing : Consumption) (n : ℕ) (by' : String) (subject' : Subject)
        (correlation_id' : String) (now' : ℕ)
        → find_key key ledger.consumptions ≡ some existing
        → length ledger.consumptions ≡ n
        → consume_approval store key by' subject' correlation_id' now' ledger
          ≡ ok (
            record {
              consumption_key = key;
              used_count = n;
              status = ledger.grant.status;
              event_id = existing.event_id;
              replayed = true;
            },
            ledger,
          )
    unfolding consume_approval replay
    again ledger existing n by' subject' correlation_id' now' e l =
        rw (e, consume_approval) (rw l refl)

    -- A consumption that returned is recorded under its key: asking again with that key, by whomever, for
    -- whatever and whenever, returns the same answer as a replay and changes nothing.
    pub consume_approval_replays :
        (ledger : Ledger store)
        → After
            (λ result ledger'.
              (by' : String) (subject' : Subject) (correlation_id' : String) (now' : ℕ)
              → consume_approval store key by' subject' correlation_id' now' ledger'
                ≡ ok (record result { replayed = true }, ledger'))
            (consume_approval store key by subject correlation_id now ledger)
    unfolding consume_approval replay recorded
    consume_approval_replays ledger = elim (Option-cases (find_key key ledger.consumptions)) [
      | inr (existing, e) ↦
          rw (e, After)
            (λ by' subject' correlation_id' now'.
              again ledger existing (length ledger.consumptions) by' subject' correlation_id' now' e
                refl)
      | inl n ↦
          used-After _ ledger
            (λ appended events room by' subject' correlation_id' now'.
              again _ _ (length ledger.consumptions + 1) by' subject' correlation_id' now'
                (find_key-last key ledger.consumptions
                  (record {
                    consumption_key = key;
                    consumed_by = by;
                    consumed_for = subject;
                    event_id = appended.event_id;
                  })
                  n (str_eq_refl key))
                (length-snoc ledger.consumptions _))
            n
    ]
