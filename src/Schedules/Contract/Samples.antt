-- ===== src/Schedules/Contract/Samples.antt =====
-- Runs, missed occurrences and retries of server/schedules/contract.py on concrete inputs.
use mathlib.Core.List.{Perm}
use agent_colab.Prelude.{
  ℕ, ◌+◌, leb→le, le→leb, arith, leb, is_some, or_else, length, All, contains, Result, ok, err, ◌*◌,
  ◌≤◌, ◌<◌, ◌≡◌, refl, ◌⊎◌, true, none, List, [], ◌∷◌, ◌++◌,
}
use agent_colab.Schedules.Contract.{
  ScheduleContractError, run_terminal_conflict, run_cancel_already_requested, RunStatus, due,
  claimed, running, verifying, cancel_requested, cancelled, backfill_limited, run_terminal,
  run_transition, cancel_run, MissedOccurrence, MissedRunPlan, pos, plan_missed_runs, Floats,
  RetryPolicy, new_retry_policy, fail_permanent, RetryOutcome, decide_retry,
}
use agent_colab.Schedules.Contract.Runs.{
  cancel_run-run_transition, ◌⟶*◌, terminal_reachable, stage, run_transition_forward,
}
use agent_colab.Schedules.Contract.Missed.{
  plan_missed_runs-perm, allowance, plan_missed_runs-allowance, plan_missed_runs_window,
}
use agent_colab.Schedules.Contract.Retry.{IsBounded, decide_retry_total, decide_retry-IsBounded}

abbrev missed_three : List MissedOccurrence
missed_three =
    record { occurrence_key = "c"; scheduled_for = 30000000 }
    ∷ record { occurrence_key = "a"; scheduled_for = 10000000 }
    ∷ record { occurrence_key = "b"; scheduled_for = 20000000 }
    ∷ []

abbrev planned : Result ScheduleContractError MissedRunPlan → MissedRunPlan
planned (ok p) = p
planned (err e) = record { to_create = []; skipped = []; warning = none }

abbrev backfilled : MissedRunPlan
backfilled = planned (plan_missed_runs backfill_limited missed_three 40000000 (pos 25) (pos 1))

plan_missed_runs-perm_example : Perm (backfilled.to_create ++ backfilled.skipped) missed_three
unfolding plan_missed_runs
plan_missed_runs-perm_example =
    plan_missed_runs-perm backfill_limited missed_three 40000000 (pos 25) (pos 1) {p = backfilled}
      refl

plan_missed_runs-allowance_example :
    length backfilled.to_create ≤ allowance backfill_limited (pos 1)
unfolding plan_missed_runs
plan_missed_runs-allowance_example =
    plan_missed_runs-allowance backfill_limited missed_three 40000000 (pos 25) (pos 1)
      {p = backfilled} refl

plan_missed_runs_window_example :
    (p : MissedRunPlan) × (plan_missed_runs backfill_limited missed_three 40000000 (pos 25) (pos 1)
      ≡ ok p)
    × All (λ m. 40000000 ≤ m.scheduled_for + 25 * 1000000) p.to_create
plan_missed_runs_window_example = plan_missed_runs_window missed_three 40000000 25 1 (omega arith)

cancel_run-run_transition_example :
    ((target : RunStatus) × (cancel_run running ≡ ok target)
      × (run_transition running target ≡ ok target)
      × ((target ≡ cancelled) ⊎ (target ≡ cancel_requested)))
    ⊎ ((cancel_run running ≡ err run_terminal_conflict) × (run_terminal running ≡ true))
    ⊎ ((cancel_run running ≡ err run_cancel_already_requested) × (running ≡ cancel_requested))
cancel_run-run_transition_example = cancel_run-run_transition running

terminal_reachable_example : (t : RunStatus) × (run_terminal t ≡ true) × (cancel_requested ⟶* t)
unfolding run_terminal
terminal_reachable_example = terminal_reachable cancel_requested refl

run_transition_forward_example :
    (stage running < stage verifying) ⊎ ((running ≡ claimed) × (verifying ≡ due))
unfolding run_transition
run_transition_forward_example = run_transition_forward running verifying refl

-- Thousandths in the place of floats.
abbrev thousandths : Floats
thousandths = record {
  Float = ℕ;
  zero_ratio = 0;
  max_ratio = 200;
  float_le = leb;
  of_seconds = λ seconds. seconds * 1000;
  scaled = λ seconds ratio. seconds * (1000 + ratio);
}

unscaled : (seconds : ℕ) → seconds * (1000 + 0) ≡ seconds * 1000
unscaled seconds = omega arith

product_le : (seconds a b : ℕ) → a ≤ b → seconds * (1000 + a) ≤ seconds * (1000 + b)
product_le seconds a b h = grind (arith, h)

monotone :
    (seconds a b : ℕ) → leb a b ≡ true → leb (seconds * (1000 + a)) (seconds * (1000 + b)) ≡ true
monotone seconds a b h = le→leb _ _ (product_le seconds a b (leb→le a b h))

abbrev policy : RetryPolicy thousandths
policy = record {
  max_attempts = 3;
  backoff_seconds = 30 ∷ 120 ∷ [];
  jitter_ratio = 200;
  transient_error_codes = "TIMEOUT" ∷ [];
}

decide_retry_total_example : is_some (decide_retry thousandths policy 2 "TIMEOUT") ≡ true
unfolding new_retry_policy
decide_retry_total_example =
    decide_retry_total thousandths 3 30 (120 ∷ []) 200 ("TIMEOUT" ∷ []) refl 2 "TIMEOUT"

abbrev second_retry : RetryOutcome thousandths
second_retry = or_else (decide_retry thousandths policy 2 "TIMEOUT") (record {
  decision = fail_permanent;
  next_attempt_no = none;
  delay_min_s = none;
  delay_max_s = none;
})

decide_retry-IsBounded_example :
    (contains "TIMEOUT" ("TIMEOUT" ∷ []) ≡ true)
    × IsBounded thousandths (30 ∷ 120 ∷ []) 200 2 second_retry
unfolding new_retry_policy decide_retry
decide_retry-IsBounded_example =
    decide_retry-IsBounded thousandths 3 30 (120 ∷ []) 200 ("TIMEOUT" ∷ []) refl unscaled monotone 2
      "TIMEOUT" {r = second_retry} refl refl
