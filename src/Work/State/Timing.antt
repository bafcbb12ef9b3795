-- ===== src/Work/State/Timing.antt =====
-- server/work/state.py: `next_action`, on items whose timestamps are those of their state.
use agent_colab.Prelude.{
  ltb→lt, str_eq, str_eq_iff, none, ltb, leb, leb→le, is_some, Bool-cases, Option-cases, ok, ℕ, ◌+◌,
  ◌≤◌, ◌<◌, String, ◌≡◌, refl, sym, ap, subst, ◌⊎◌, inl, inr, true, false, Option, some, arith,
}
use agent_colab.Work.State.{
  WorkItemState, queued, delivered, acked, in_progress, result_received, rejected, expired,
  cancelled, is_terminal, none_, redeliver_, expire_, reroute, waiting, TimingDecision,
  past_deadline, ack_timeout, accept_timeout_us, is_assignment, await_ack, await_accept, assigned,
  by_state, next_action,
}

-- The timestamps that the columns of a work item have in a state.
unfoldable pub IsTimed : WorkItemState → Option ℕ → Option ℕ → Type 0
IsTimed delivered delivered_at acked_at = is_some delivered_at ≡ true
IsTimed acked delivered_at acked_at = is_some acked_at ≡ true
IsTimed in_progress delivered_at acked_at = is_some acked_at ≡ true
IsTimed _ delivered_at acked_at = Unit

-- A timer that started at `at` has run out, or is running.
abbrev HasPassed : Option ℕ → ℕ → ℕ → Type 0
HasPassed at timeout now = (t : ℕ) × (at ≡ some t) × (t + timeout ≤ now)

abbrev IsRunning : Option ℕ → ℕ → ℕ → Type 0
IsRunning at timeout now = (t : ℕ) × (at ≡ some t) × (now < t + timeout)

abbrev IsAcked : WorkItemState → Type 0
IsAcked state = (state ≡ acked) ⊎ (state ≡ in_progress)

-- An assignment that nobody has accepted yet.
abbrev IsUnaccepted : String → Option ℕ → Type 0
IsUnaccepted kind accepted_at =
    ((kind ≡ "task_assignment") ⊎ (kind ≡ "subtask_assignment")) × (accepted_at ≡ none)

abbrev IsBefore : Option ℕ → ℕ → Type 0
IsBefore deadline now = (t : ℕ) → deadline ≡ some t → now < t

-- When each decision is taken, given the columns, counters and instants it was taken from.
unfoldable pub IsTimely :
    WorkItemState
    → Option ℕ
    → Option ℕ
    → ℕ
    → ℕ
    → String
    → Option ℕ
    → ℕ
    → Option ℕ
    → TimingDecision
    → Type 0
unfolding is_terminal
IsTimely state delivered_at acked_at now delivery_count kind accepted_at reroute_count deadline d =
    elim d.action [
      | none_ ↦
          (is_terminal state ≡ true)
          ⊎ (IsBefore deadline now
              × ((state ≡ queued)
                  ⊎ ((state ≡ delivered) × IsRunning delivered_at ack_timeout now)
                  ⊎ (IsAcked state × (IsUnaccepted kind accepted_at → ⊥))
                  ⊎ (IsAcked state
                      × IsUnaccepted kind accepted_at
                      × IsRunning acked_at accept_timeout_us now)))
      | redeliver_ ↦
          IsBefore deadline now
          × (state ≡ delivered)
          × (delivery_count ≤ 3)
          × HasPassed delivered_at ack_timeout now
      | expire_ ↦
          (is_terminal state ≡ false)
          × (HasPassed deadline 0 now
              ⊎ ((state ≡ delivered)
                  × (3 < delivery_count)
                  × HasPassed delivered_at ack_timeout now))
      | reroute ↦
          IsBefore deadline now
          × IsAcked state
          × IsUnaccepted kind accepted_at
          × (reroute_count ≡ 0)
          × HasPassed acked_at accept_timeout_us now
      | waiting ↦
          IsBefore deadline now
          × IsAcked state
          × IsUnaccepted kind accepted_at
          × (0 < reroute_count)
          × HasPassed acked_at accept_timeout_us now
    ]

past_deadline-IsBefore :
    (deadline : Option ℕ) (now : ℕ) → past_deadline deadline now ≡ false → IsBefore deadline now
unfolding past_deadline
past_deadline-IsBefore none now h = λ t e. cc
past_deadline-IsBefore (some d) now h = λ t e. let own : d ≡ t = cc in rw (← own) (below h)
  where
    below : leb d now ≡ false → now < d
    below h = ground arith

past_deadline-HasPassed :
    (deadline : Option ℕ) (now : ℕ) → past_deadline deadline now ≡ true → HasPassed deadline 0 now
unfolding past_deadline
past_deadline-HasPassed none now h = cc
past_deadline-HasPassed (some d) now h = (d, refl, omega (arith, leb→le d now h))

is_assignment-true :
    (kind : String)
    → is_assignment kind ≡ true
    → (kind ≡ "task_assignment") ⊎ (kind ≡ "subtask_assignment")
unfolding is_assignment
is_assignment-true kind h = elim (Bool-cases (str_eq kind "task_assignment")) [
  | inl e ↦ inl ((str_eq_iff kind "task_assignment").0 e)
  | inr e ↦ elim (Bool-cases (str_eq kind "subtask_assignment")) [
    | inl f ↦ inr ((str_eq_iff kind "subtask_assignment").0 f)
    | inr f ↦ let none_of : is_assignment kind ≡ false = rw (is_assignment, e, f) refl in cc
  ]
]

is_assignment-false :
    (kind : String) (accepted_at : Option ℕ)
    → is_assignment kind ≡ false
    → IsUnaccepted kind accepted_at
    → ⊥
unfolding is_assignment
is_assignment-false kind accepted_at h (inl e, _) =
    let own : is_assignment kind ≡ true = rw e refl in cc
is_assignment-false kind accepted_at h (inr e, _) =
    let own : is_assignment kind ≡ true = rw e refl in cc

module _ (delivered_at acked_at : Option ℕ) (now delivery_count : ℕ) (kind : String)
    (accepted_at : Option ℕ) (reroute_count : ℕ) (deadline : Option ℕ)
    (p : IsBefore deadline now) where
  await_ack-IsTimely :
      (t : ℕ)
      → delivered_at ≡ some t
      → (d : TimingDecision) × (await_ack (some t) now delivery_count ≡ ok d)
        × IsTimely delivered delivered_at acked_at now delivery_count kind accepted_at reroute_count
            deadline d
  unfolding await_ack IsTimely is_terminal
  await_ack-IsTimely t e = elim (Bool-cases (ltb now (t + ack_timeout))) [
    | inl b ↦ rw b (_, refl, inr (p, inr (inl (refl, (t, e, ltb→lt _ _ b)))))
    | inr b ↦ elim (Bool-cases (leb delivery_count 3)) [
      | inl c ↦ rw b (rw c (_, refl, (p, refl, leb→le _ _ c, (t, e, elapsed b))))
      | inr c ↦ rw b (rw c (_, refl, (refl, inr (refl, not_leb c, (t, e, elapsed b)))))
    ]
  ]
    where
      elapsed : ltb now (t + ack_timeout) ≡ false → t + ack_timeout ≤ now
      elapsed b = ground arith

      not_leb : leb delivery_count 3 ≡ false → 3 < delivery_count
      not_leb c = ground arith

  await_accept-IsTimely :
      (state : WorkItemState) (t : ℕ)
      → IsAcked state
      → IsUnaccepted kind accepted_at
      → acked_at ≡ some t
      → (d : TimingDecision) × (await_accept (some t) now reroute_count ≡ ok d)
        × IsTimely state delivered_at acked_at now delivery_count kind accepted_at reroute_count
            deadline d
  unfolding await_accept IsTimely is_terminal
  await_accept-IsTimely state t s u e = elim (Bool-cases (ltb now (t + accept_timeout_us))) [
    | inl b ↦ rw b (_, refl, inr (p, inr (inr (inr (s, u, (t, e, ltb→lt _ _ b))))))
    | inr b ↦ elim (Bool-cases (ltb reroute_count 1)) [
      | inl c ↦ rw b (rw c (_, refl, (p, s, u, first c, (t, e, elapsed b))))
      | inr c ↦ rw b (rw c (_, refl, (p, s, u, later c, (t, e, elapsed b))))
    ]
  ]
    where
      elapsed : ltb now (t + accept_timeout_us) ≡ false → t + accept_timeout_us ≤ now
      elapsed b = ground arith

      first : ltb reroute_count 1 ≡ true → reroute_count ≡ 0
      first c = ground arith

      later : ltb reroute_count 1 ≡ false → 0 < reroute_count
      later c = ground arith

  assigned-IsTimely :
      (state : WorkItemState)
      → IsAcked state
      → is_some acked_at ≡ true
      → (d : TimingDecision) × (assigned kind acked_at accepted_at now reroute_count ≡ ok d)
        × IsTimely state delivered_at acked_at now delivery_count kind accepted_at reroute_count
            deadline d
  unfolding assigned IsTimely
  assigned-IsTimely state s h = elim (Bool-cases (is_assignment kind)) [
    | inr k ↦ rw k (_, refl, inr (p, inr (inr (inl (s, is_assignment-false kind accepted_at k)))))
    | inl k ↦ elim (Option-cases accepted_at) [
      | inr (at, a) ↦
          let taken : is_some accepted_at ≡ true = rw a refl in
          rw (k, taken) (_, refl, inr (p, inr (inr (inl (s, λ u. accepted_once at a u.1)))))
      | inl a ↦
          let open_one : is_some accepted_at ≡ false = rw a refl in
          elim (Option-cases acked_at) [
            | inl e ↦ cc (h, ap is_some e)
            | inr (t, e) ↦
                rw (k, open_one)
                  (subst
                    (λ o.
                      (d : TimingDecision) × (await_accept o now reroute_count ≡ ok d)
                      × IsTimely state delivered_at acked_at now delivery_count kind accepted_at
                          reroute_count deadline d)
                    (sym e) (await_accept-IsTimely state t s (is_assignment-true kind k, a) e))
          ]
    ]
  ]
    where
      accepted_once : (at : ℕ) → accepted_at ≡ some at → accepted_at ≡ none → ⊥
      accepted_once at a b = cc

  by_state-IsTimely :
      (state : WorkItemState)
      → is_terminal state ≡ false
      → IsTimed state delivered_at acked_at
      → (d : TimingDecision) × (by_state state delivered_at acked_at now delivery_count kind
            accepted_at reroute_count
          ≡ ok d)
        × IsTimely state delivered_at acked_at now delivery_count kind accepted_at reroute_count
            deadline d
  unfolding by_state IsTimed IsTimely is_terminal
  by_state-IsTimely delivered live h = elim (Option-cases delivered_at) [
    | inl e ↦ cc (h, ap is_some e)
    | inr (t, e) ↦
        subst
          (λ o.
            (d : TimingDecision) × (await_ack o now delivery_count ≡ ok d)
            × IsTimely delivered delivered_at acked_at now delivery_count kind accepted_at
                reroute_count deadline d)
          (sym e) (await_ack-IsTimely t e)
  ]
  by_state-IsTimely acked live h = assigned-IsTimely acked (inl refl) h
  by_state-IsTimely in_progress live h = assigned-IsTimely in_progress (inr refl) h
  by_state-IsTimely queued live h = (_, refl, inr (p, inl refl))
  by_state-IsTimely result_received live h = cc
  by_state-IsTimely rejected live h = cc
  by_state-IsTimely expired live h = cc
  by_state-IsTimely cancelled live h = cc

module _ (state : WorkItemState) (delivered_at acked_at : Option ℕ) (now delivery_count : ℕ)
    (kind : String) (accepted_at : Option ℕ) (reroute_count : ℕ) (deadline : Option ℕ) where
  -- On an item whose timestamps are those of its state, a decision is always taken, and each decision has its
  -- conditions. REDELIVER: delivered at most 3 times and 60 s ago. EXPIRE: not terminal, and past the
  -- deadline or delivered more than 3 times and 60 s ago. REROUTE and WAITING: an assignment acknowledged
  -- 120 s ago that nobody accepted, before and after the first rerouting. NONE: terminal, or queued, or in the
  -- 60 s or 120 s, or acknowledged and no assignment that waits for its acceptance. All but EXPIRE and NONE
  -- of a terminal item are before the deadline.
  pub next_action-IsTimely :
      IsTimed state delivered_at acked_at
      → (d : TimingDecision) × (next_action state delivered_at acked_at now delivery_count kind
            accepted_at reroute_count deadline
          ≡ ok d)
        × IsTimely state delivered_at acked_at now delivery_count kind accepted_at reroute_count
            deadline d
  unfolding next_action IsTimely IsTimed
  next_action-IsTimely h = elim (Bool-cases (is_terminal state)) [
    | inl t ↦ rw t (_, refl, inl t)
    | inr t ↦ elim (Bool-cases (past_deadline deadline now)) [
      | inl p ↦ rw t (rw p (_, refl, (t, inl (past_deadline-HasPassed deadline now p))))
      | inr p ↦ rw t (
          rw p (
            by_state-IsTimely delivered_at acked_at now delivery_count kind accepted_at
              reroute_count deadline (past_deadline-IsBefore deadline now p) state t h))
    ]
  ]
