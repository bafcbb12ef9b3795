-- ===== src/Events/Log/Chain.antt =====
-- server/events/hashing.py: the chain of an aggregate, and what an Event at its end must hold.
use agent_colab.Prelude.{
  ==_iff, opt_eq_refl, opt_eq→eq, Option-cases, All, ℕ, ◌+◌, ◌≤◌, String, ◌≡◌, refl, sym, subst,
  inl, inr, Bool, true, false, Option, none, some, List, [], ◌∷◌, ◌++◌, arith,
}
use agent_colab.Events.Hashing.{
  StoredEvent, Problem, Hashes, report, verify_content_hash, verify_from,
}
use agent_colab.Events.Log.{last_of}

report_nothing :
    (test : Bool) (problem : Problem) (problems : List Problem)
    → report test problem problems ≡ []
    → (test ≡ true) × (problems ≡ [])
unfolding report
report_nothing true problem problems h = (refl, h)
report_nothing false problem problems h = cc

-- The number and the previous hash that the chain expects after these Events.
abbrev pub seq_after : ℕ → Option StoredEvent → ℕ
seq_after seq none = seq
seq_after seq (some event) = event.aggregate_seq + 1

abbrev pub hash_after : Option String → Option StoredEvent → Option String
hash_after previous none = previous
hash_after previous (some event) = some event.content_hash

module _ (hashes : Hashes) where
  -- An Event that continues a chain.
  abbrev pub Continues : ℕ → Option String → StoredEvent → Type 0
  Continues seq previous event =
      (event.aggregate_seq ≡ seq)
      × (event.previous_hash ≡ previous)
      × (verify_content_hash hashes event ≡ true)

  verify_from-cons :
      (seq : ℕ) (previous : Option String) (event : StoredEvent) (events : List StoredEvent)
      → verify_from hashes seq previous (event ∷ events) ≡ []
      → Continues seq previous event
        × (verify_from hashes (seq + 1) (some event.content_hash) events ≡ [])
  unfolding verify_from
  verify_from-cons seq previous event events h =
      let (a, rest) = report_nothing _ _ _ h in
      let (b, rest') = report_nothing _ _ _ rest in
      let (c, rest'') = report_nothing _ _ _ rest' in
      (((==_iff event.aggregate_seq seq).0 a, opt_eq→eq event.previous_hash previous b, c), rest'')

  verify_from-Continues :
      (seq : ℕ) (previous : Option String) (event : StoredEvent) (events : List StoredEvent)
      → Continues seq previous event
      → verify_from hashes (seq + 1) (some event.content_hash) events ≡ []
      → verify_from hashes seq previous (event ∷ events) ≡ []
  unfolding verify_from report
  verify_from-Continues seq previous event events (a, b, c) h =
      rw (c, (==_iff event.aggregate_seq seq).1 a, b, opt_eq_refl previous) h

  last_of-cons :
      (seq : ℕ) (previous : Option String) (event : StoredEvent) (events : List StoredEvent)
      → event.aggregate_seq ≡ seq
      → (seq_after seq (last_of (event ∷ events)) ≡ seq_after (seq + 1) (last_of events))
        × (hash_after previous (last_of (event ∷ events))
            ≡ hash_after (some event.content_hash) (last_of events))
  unfolding last_of
  last_of-cons seq previous event events h = elim (Option-cases (last_of events)) [
    | inl e ↦ rw (last_of, e) (omega (arith, h), refl)
    | inr (later, e) ↦ rw (last_of, e) (refl, refl)
  ]

  -- A chain goes on with an Event that continues it.
  pub verify_from-snoc :
      (seq : ℕ) (previous : Option String) (events : List StoredEvent) (event : StoredEvent)
      → verify_from hashes seq previous events ≡ []
      → Continues (seq_after seq (last_of events)) (hash_after previous (last_of events)) event
      → verify_from hashes seq previous (events ++ event ∷ []) ≡ []
  unfolding verify_from last_of
  verify_from-snoc seq previous [] event h c = verify_from-Continues seq previous event [] c refl
  verify_from-snoc seq previous (first ∷ events) event h c =
      let (d, rest) = verify_from-cons seq previous first events h in
      let (e, f) = last_of-cons seq previous first events d.0 in
      verify_from-Continues seq previous first (events ++ event ∷ []) d
        (verify_from-snoc (seq + 1) (some first.content_hash) events event rest (rw (← e, ← f) c))

  -- The numbers of a chain are below the next.
  pub verify_from-below :
      (seq : ℕ) (previous : Option String) (events : List StoredEvent)
      → verify_from hashes seq previous events ≡ []
      → (seq ≤ seq_after seq (last_of events))
        × All (λ event. event.aggregate_seq ≤ seq_after seq (last_of events)) events
  unfolding last_of
  verify_from-below seq previous [] h = (omega arith, tt)
  verify_from-below seq previous (event ∷ events) h =
      let (d, rest) = verify_from-cons seq previous event events h in
      let (e, f) = last_of-cons seq previous event events d.0 in
      let (g, below) = verify_from-below (seq + 1) (some event.content_hash) events rest in
      subst (λ n. (seq ≤ n) × All (λ other. other.aggregate_seq ≤ n) (event ∷ events)) (sym e)
        (omega (arith, d.0, g), (omega (arith, d.0, g), below))

  -- A chain that verifies ends in an Event that does.
  pub verify_from-last :
      (seq : ℕ) (previous : Option String) (events : List StoredEvent) (event : StoredEvent)
      → verify_from hashes seq previous (events ++ event ∷ []) ≡ []
      → verify_content_hash hashes event ≡ true
  verify_from-last seq previous [] event h = (verify_from-cons seq previous event [] h).0.2
  verify_from-last seq previous (first ∷ events) event h =
      verify_from-last (seq + 1) (some first.content_hash) events event
        (verify_from-cons seq previous first (events ++ event ∷ []) h).1
