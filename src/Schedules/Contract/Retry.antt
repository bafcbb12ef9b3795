-- ===== src/Schedules/Contract/Retry.antt =====
-- server/schedules/contract.py: retries of a Run.
use agent_colab.Prelude.{
  Option, length, none, sym, ◌∙◌, ◌⊎◌, [], leb, is_some, Bool-cases, Option-cases, contains, ok, ℕ,
  zero, suc, ◌+◌, ◌≤◌, ◌<◌, String, ◌≡◌, refl, subst, inl, inr, true, some, List, ◌∷◌, arith,
}
use agent_colab.Schedules.Contract.{
  Floats, last, nth_or_last, RetryPolicy, new_retry_policy, retry, RetryOutcome, base_delay,
  retry_after, decide_retry,
}

-- `xs[n]`
abbrev element : List ℕ → ℕ → Option ℕ
element [] n = none
element (x ∷ xs) zero = some x
element (x ∷ xs) (suc n) = element xs n

-- The entry of the backoff for an attempt: attempt n + 1 has entry n, and beyond the list, as for attempt 0,
-- it is the last one.
abbrev pub IsBackoff : List ℕ → ℕ → ℕ → Type 0
IsBackoff backoff attempt_no base =
    ((n : ℕ) → attempt_no ≡ suc n → n < length backoff → element backoff n ≡ some base)
    × ((n : ℕ)
        → length backoff ≡ suc n
        → (attempt_no ≡ 0) ⊎ (length backoff < attempt_no)
        → element backoff n ≡ some base)

element-last : (x : ℕ) (xs : List ℕ) → element (x ∷ xs) (length xs) ≡ some (last x xs)
unfolding last
element-last x [] = refl
element-last x (y ∷ ys) = element-last y ys

nth_element :
    (x : ℕ) (xs : List ℕ) (n : ℕ)
    → n < length (x ∷ xs)
    → element (x ∷ xs) n ≡ some (nth_or_last x xs n)
unfolding nth_or_last
nth_element x xs zero h = refl
nth_element x [] (suc n) h = absurd (too_far h)
  where
    too_far : suc n < 1 → ⊥
    too_far h = omega (arith, h)
nth_element x (y ∷ ys) (suc n) h = nth_element y ys n (omega (arith, h))

past_element :
    (x : ℕ) (xs : List ℕ) (n : ℕ)
    → length xs ≤ n
    → element (x ∷ xs) (length xs) ≡ some (nth_or_last x xs n)
unfolding nth_or_last
past_element x [] zero h = refl
past_element x [] (suc n) h = refl
past_element x (y ∷ ys) zero h = absurd (too_far h)
  where
    too_far : suc (length ys) ≤ 0 → ⊥
    too_far h = omega (arith, h)
past_element x (y ∷ ys) (suc n) h = past_element y ys n (omega (arith, h))

base_delay-IsBackoff :
    (x : ℕ) (xs : List ℕ) (attempt_no base : ℕ)
    → base_delay (x ∷ xs) attempt_no ≡ some base
    → IsBackoff (x ∷ xs) attempt_no base
unfolding base_delay
base_delay-IsBackoff x xs zero base h = (
  (λ n e lt. absurd (no_zero n e)),
  (λ n e over. let own : length xs ≡ n = omega (arith, e) in rw (← own) (element-last x xs ∙ h)),
)
  where
    no_zero : (n : ℕ) → 0 ≡ suc n → ⊥
    no_zero n e = omega (arith, e)
base_delay-IsBackoff x xs (suc k) base h = (
  (λ n e lt. let own : k ≡ n = omega (arith, e) in rw (← own) (nth_element x xs k (rw own lt) ∙ h)),
  (λ n e over.
      let own : length xs ≡ n = omega (arith, e) in
      rw (← own) (past_element x xs k (far over) ∙ h)),
)
  where
    far : (suc k ≡ 0) ⊎ (length (x ∷ xs) < suc k) → length xs ≤ k
    far (inl e) = omega (arith, e)
    far (inr lt) = omega (arith, lt)

base_delay_some : (x : ℕ) (xs : List ℕ) (n : ℕ) → is_some (base_delay (x ∷ xs) n) ≡ true
unfolding base_delay
base_delay_some x xs zero = refl
base_delay_some x xs (suc n) = refl

module _ (floats : Floats) where
  new_retry_policy_fields :
      (max_attempts : ℕ) (backoff : List ℕ) (jitter : floats.Float) (codes : List String)
      {policy : RetryPolicy floats}
      → new_retry_policy floats max_attempts backoff jitter codes ≡ ok policy
      → (policy.max_attempts ≤ 3)
        × (policy.backoff_seconds ≡ backoff)
        × ((policy.jitter_ratio ≡ jitter)
            × (floats.float_le floats.zero_ratio jitter ≡ true)
            × (floats.float_le jitter floats.max_ratio ≡ true))
        × (policy.transient_error_codes ≡ codes)
  unfolding new_retry_policy
  new_retry_policy_fields max_attempts backoff jitter codes h =
      (ground arith, ground arith, (ground arith, ground arith, ground arith), ground arith)

  -- What a decision to retry promises: the next attempt is one of the three, and its delay is at least the
  -- entry of the backoff, and at most that entry with the jitter of the policy, which the greatest ratio
  -- bounds.
  abbrev pub IsBounded : List ℕ → floats.Float → ℕ → RetryOutcome floats → Type 0
  IsBounded backoff jitter attempt_no r =
      (attempt_no < 3)
      × (r.next_attempt_no ≡ some (attempt_no + 1))
      × ((base : ℕ) × IsBackoff backoff attempt_no base
          × (r.delay_min_s ≡ some (floats.of_seconds base))
          × (r.delay_max_s ≡ some (floats.scaled base jitter))
          × (floats.float_le (floats.of_seconds base) (floats.scaled base jitter) ≡ true)
          × (floats.float_le (floats.scaled base jitter) (floats.scaled base floats.max_ratio)
              ≡ true))

  module _ (max_attempts first : ℕ) (more : List ℕ) (jitter : floats.Float) (codes : List String)
      {policy : RetryPolicy floats}
      (accepted : new_retry_policy floats max_attempts (first ∷ more) jitter codes
        ≡ ok policy) where
    -- Under a policy that its constructor accepted, with a backoff, each failed attempt gets a decision.
    pub decide_retry_total :
        (attempt_no : ℕ) (code : String)
        → is_some (decide_retry floats policy attempt_no code) ≡ true
    unfolding decide_retry
    decide_retry_total attempt_no code = ground (
      arith,
      base_delay_some first more attempt_no,
      new_retry_policy_fields max_attempts (first ∷ more) jitter codes accepted,
    )

    -- Under such a policy a retry is decided only for a transient error and before the third attempt. Its
    -- delay is at least the entry of the backoff for the attempt and at most that entry with the jitter of
    -- the policy, and so with the greatest one; scaling must be monotone, and be nothing for the ratio 0.
    pub decide_retry-IsBounded :
        ((seconds : ℕ) → floats.scaled seconds floats.zero_ratio ≡ floats.of_seconds seconds)
        → ((seconds : ℕ) (a b : floats.Float)
            → floats.float_le a b ≡ true
            → floats.float_le (floats.scaled seconds a) (floats.scaled seconds b) ≡ true)
        → (attempt_no : ℕ) (code : String) {r : RetryOutcome floats}
        → decide_retry floats policy attempt_no code ≡ some r
        → r.decision ≡ retry
        → (contains code codes ≡ true) × IsBounded (first ∷ more) jitter attempt_no r
    unfolding decide_retry retry_after
    decide_retry-IsBounded unscaled monotone attempt_no code {r} h d =
        let (few, backoff, (same_jitter, low, high), same) =
          new_retry_policy_fields max_attempts (first ∷ more) jitter codes accepted in
        elim (Bool-cases (contains code policy.transient_error_codes)) [
          | inr permanent ↦ ground arith
          | inl transient ↦ elim (Bool-cases (leb policy.max_attempts attempt_no)) [
            | inl exhausted ↦ ground arith
            | inr left ↦ elim (Option-cases (base_delay policy.backoff_seconds attempt_no)) [
              | inl missing ↦ ground arith
              | inr (base, found) ↦
                  let here : retry_after floats policy attempt_no base ≡ r = ground arith in
                  let entry : base_delay (first ∷ more) attempt_no ≡ some base =
                    rw (← backoff) found in
                  let ratio : retry_after floats policy attempt_no base
                      ≡ retry_after floats (record policy { jitter_ratio = jitter }) attempt_no
                          base =
                    rw same_jitter refl in
                  (
                    subst (λ l. contains code l ≡ true) same transient,
                    subst (IsBounded (first ∷ more) jitter attempt_no) (sym ratio ∙ here) (
                      ground arith,
                      refl,
                      (
                        base,
                        base_delay-IsBackoff first more attempt_no base entry,
                        refl,
                        refl,
                        rw (← unscaled base) (monotone base floats.zero_ratio jitter low),
                        monotone base jitter floats.max_ratio high,
                      ),
                    ),
                  )
            ]
          ]
        ]
