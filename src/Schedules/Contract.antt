-- ===== src/Schedules/Contract.antt =====
-- server/schedules/contract.py: the state contract of Schedules and their Runs.
-- Instants are microseconds since the start of the year 1, the least instant of a `datetime`; the floats of
-- the retries are a parameter.
mod Runs
mod Missed
mod Retry
mod Samples
use mathlib.Core.List.{reverse}
use agent_colab.Prelude.{
  ltb, leb, if◌then◌else◌, str_eq, is_some, length, take, drop, keep, sorted, contains, Result, ok,
  err, ◌>>=◌, ◌>>◌, guard, ℕ, zero, suc, ◌+◌, ◌-◌, ◌*◌, String, Bool, true, false, not, ◌&&◌, ◌||◌,
  Option, none, some, List, [], ◌∷◌, ◌++◌,
}

-- The codes of `ScheduleContractError`, and the `OverflowError` of an instant before the year 1.
pub data ScheduleContractError : Type 0 where
  schedule_transition_invalid run_terminal_conflict run_transition_invalid : ScheduleContractError
  run_cancel_already_requested run_kind_invariant backfill_invalid : ScheduleContractError
  retry_policy_invalid overflow_error : ScheduleContractError

pub data ScheduleStatus : Type 0 where
  draft enabled paused disabled : ScheduleStatus

pub data RunStatus : Type 0 where
  pending due claimed task_created running verifying succeeded failed skipped : RunStatus
  timed_out cancel_requested cancelled : RunStatus

pub data RunKind : Type 0 where
  scheduled manual retry_run : RunKind

pub data ConcurrencyPolicy : Type 0 where
  forbid allow replace : ConcurrencyPolicy

pub data MissedRunPolicy : Type 0 where
  skip_missed run_once backfill_limited : MissedRunPolicy

pub data SkipCode : Type 0 where
  skipped_concurrency skipped_replace_cancel_timeout skipped_policy : SkipCode
  skipped_agent_unavailable budget_exceeded : SkipCode

-- `target in SCHEDULE_TRANSITIONS[current]`
schedule_transitions : ScheduleStatus → ScheduleStatus → Bool
schedule_transitions draft enabled = true
schedule_transitions draft disabled = true
schedule_transitions enabled paused = true
schedule_transitions enabled disabled = true
schedule_transitions paused enabled = true
schedule_transitions paused disabled = true
schedule_transitions _ _ = false

pub run_terminal : RunStatus → Bool
run_terminal succeeded = true
run_terminal failed = true
run_terminal skipped = true
run_terminal timed_out = true
run_terminal cancelled = true
run_terminal _ = false

run_pending : RunStatus → Bool
run_pending pending = true
run_pending due = true
run_pending _ = false

run_running : RunStatus → Bool
run_running claimed = true
run_running task_created = true
run_running running = true
run_running verifying = true
run_running _ = false

-- `target in RUN_TRANSITIONS[current]`
pub run_transitions : RunStatus → RunStatus → Bool
run_transitions pending due = true
run_transitions pending cancelled = true
run_transitions pending skipped = true
run_transitions due claimed = true
run_transitions due cancelled = true
run_transitions due skipped = true
run_transitions claimed task_created = true
run_transitions claimed skipped = true
run_transitions claimed failed = true
run_transitions claimed cancel_requested = true
run_transitions claimed due = true
run_transitions task_created running = true
run_transitions task_created failed = true
run_transitions task_created cancel_requested = true
run_transitions task_created timed_out = true
run_transitions running verifying = true
run_transitions running succeeded = true
run_transitions running failed = true
run_transitions running timed_out = true
run_transitions running cancel_requested = true
run_transitions verifying succeeded = true
run_transitions verifying failed = true
run_transitions verifying timed_out = true
run_transitions verifying cancel_requested = true
run_transitions cancel_requested cancelled = true
run_transitions cancel_requested timed_out = true
run_transitions _ _ = false

pub schedule_transition :
    ScheduleStatus → ScheduleStatus → Result ScheduleContractError ScheduleStatus
unfolding schedule_transitions
schedule_transition current target =
    if not (schedule_transitions current target) then err schedule_transition_invalid else ok target

pub run_transition : RunStatus → RunStatus → Result ScheduleContractError RunStatus
unfolding run_terminal run_transitions
run_transition current target =
    if run_terminal current
    then err run_terminal_conflict
    else if not (run_transitions current target)
    then err run_transition_invalid
    else ok target

is_cancel_requested : RunStatus → Bool
is_cancel_requested cancel_requested = true
is_cancel_requested _ = false

pub cancel_run : RunStatus → Result ScheduleContractError RunStatus
unfolding run_terminal run_pending run_running is_cancel_requested
cancel_run current =
    if run_terminal current
    then err run_terminal_conflict
    else if run_pending current
    then ok cancelled
    else if run_running current
    then ok cancel_requested
    else if is_cancel_requested current
    then err run_cancel_already_requested
    else err run_transition_invalid

-- Python's truth of `str | None`.
pub truthy : Option String → Bool
truthy none = false
truthy (some s) = not (str_eq s "")

pub check_run_kind :
    RunKind → Option String → Option String → Result ScheduleContractError (Unit {0})
unfolding truthy
check_run_kind scheduled occurrence_key retry_of_run_id = do
  guard (truthy occurrence_key) run_kind_invariant
  guard (not (is_some retry_of_run_id)) run_kind_invariant
check_run_kind retry_run occurrence_key retry_of_run_id = do
  guard (not (is_some occurrence_key)) run_kind_invariant
  guard (truthy retry_of_run_id) run_kind_invariant
check_run_kind manual occurrence_key retry_of_run_id = do
  guard (not (is_some occurrence_key)) run_kind_invariant
  guard (not (is_some retry_of_run_id)) run_kind_invariant

pub data ConcurrencyDecision : Type 0 where
  start skip replace_cancel_existing : ConcurrencyDecision

pub record ConcurrencyOutcome : Type 0 where
  pub decision : ConcurrencyDecision
  pub error_code : Option SkipCode

-- The REPLACE branch, on `replace_cancel_confirmed`.
replaced : Option Bool → ConcurrencyOutcome
replaced none = record { decision = replace_cancel_existing; error_code = none }
replaced (some true) = record { decision = start; error_code = none }
replaced (some false) = record { decision = skip; error_code = some skipped_replace_cancel_timeout }

under_policy : ConcurrencyPolicy → Option Bool → ConcurrencyOutcome
unfolding replaced
under_policy allow confirmed = record { decision = start; error_code = none }
under_policy forbid confirmed = record { decision = skip; error_code = some skipped_concurrency }
under_policy replace confirmed = replaced confirmed

pub decide_concurrency : ConcurrencyPolicy → Bool → Option Bool → ConcurrencyOutcome
unfolding under_policy
decide_concurrency policy previous_run_active confirmed =
    if not previous_run_active
    then record { decision = start; error_code = none }
    else under_policy policy confirmed

pub record MissedOccurrence : Type 0 where
  pub occurrence_key : String
  pub scheduled_for : ℕ

-- The numbers of the BACKFILL_TRUNCATED text.
pub record Warning : Type 0 where
  pub outside : ℕ
  pub dropped : ℕ
  pub limit : ℕ
  pub created : ℕ
  pub missed : ℕ

pub record MissedRunPlan : Type 0 where
  pub to_create : List MissedOccurrence
  pub skipped : List MissedOccurrence
  pub warning : Option Warning

-- Python's `int`; `negsuc n` is -(n + 1).
pub data ℤ : Type 0 where
  pos : ℕ → ℤ
  negsuc : ℕ → ℤ

is_empty : List MissedOccurrence → Bool
is_empty [] = true
is_empty (_ ∷ _) = false

-- The plan of RUN_ONCE over the occurrences, latest first: `ordered[-1]` and `ordered[:-1]`.
once : List MissedOccurrence → MissedRunPlan
once [] = record { to_create = []; skipped = []; warning = none }
once (latest ∷ earlier) = record {
  to_create = latest ∷ [];
  skipped = reverse earlier;
  warning = none;
}

-- After `now_utc - timedelta(…)`, for a window that starts in the year 1 or later.
backfill : List MissedOccurrence → ℕ → ℕ → ℕ → MissedRunPlan
unfolding is_empty
backfill ordered now_utc window_seconds limit =
    let window_start = now_utc - window_seconds * 1000000 in
    let in_window = keep (λ m. leb window_start m.scheduled_for) ordered in
    let outside = keep (λ m. ltb m.scheduled_for window_start) ordered in
    let chosen = take limit in_window in
    let dropped = drop limit in_window in
    record {
      to_create = chosen;
      skipped = outside ++ dropped;
      warning =
          if is_empty outside && is_empty dropped
          then none
          else some (record {
            outside = length outside;
            dropped = length dropped;
            limit = limit;
            created = length chosen;
            missed = length ordered;
          });
    }

plan_ordered :
    MissedRunPolicy → List MissedOccurrence → ℕ → ℤ → ℤ → Result ScheduleContractError MissedRunPlan
unfolding once backfill
plan_ordered policy [] now window limit =
    ok (record { to_create = []; skipped = []; warning = none })
plan_ordered skip_missed ordered now window limit =
    ok (record { to_create = []; skipped = ordered; warning = none })
plan_ordered run_once ordered now window limit = ok (once (reverse ordered))
plan_ordered backfill_limited ordered now (pos window) (pos limit) =
    if ltb now (window * 1000000)
    then err overflow_error
    else ok (backfill ordered now window limit)
plan_ordered backfill_limited ordered now (pos window) (negsuc limit) = err backfill_invalid
plan_ordered backfill_limited ordered now (negsuc window) limit = err backfill_invalid

instant : MissedOccurrence → ℕ
instant m = m.scheduled_for

pub plan_missed_runs :
    MissedRunPolicy → List MissedOccurrence → ℕ → ℤ → ℤ → Result ScheduleContractError MissedRunPlan
unfolding plan_ordered instant
plan_missed_runs policy missed now_utc backfill_window_seconds backfill_limit =
    plan_ordered policy (sorted instant missed) now_utc backfill_window_seconds backfill_limit

-- What the code does with floats: `0 <= ratio`, `float(seconds)`, `seconds * (1 + ratio)`, and the constant
-- `SCHEDULE_RETRY_JITTER_MAX_RATIO`. The seconds are few enough for a float.
pub record Floats : Type 1 where
  pub Float : Type 0
  pub zero_ratio : Float
  pub max_ratio : Float
  pub float_le : Float → Float → Bool
  pub of_seconds : ℕ → Float
  pub scaled : ℕ → Float → Float

pub data RetryDecision : Type 0 where
  retry fail_permanent fail_exhausted : RetryDecision

last : ℕ → List ℕ → ℕ
last x [] = x
last x (y ∷ ys) = last y ys

nth_or_last : ℕ → List ℕ → ℕ → ℕ
nth_or_last x xs zero = x
nth_or_last x [] (suc n) = x
nth_or_last x (y ∷ ys) (suc n) = nth_or_last y ys n

-- `backoff_seconds[min(attempt_no - 1, len(backoff_seconds) - 1)]`: `none` is the IndexError of the
-- empty tuple, and attempt 0 reads index -1, the last entry.
base_delay : List ℕ → ℕ → Option ℕ
unfolding last nth_or_last
base_delay [] attempt_no = none
base_delay (x ∷ xs) zero = some (last x xs)
base_delay (x ∷ xs) (suc n) = some (nth_or_last x xs n)

module _ (floats : Floats) where
  pub record RetryPolicy : Type 0 where
    pub max_attempts : ℕ
    pub backoff_seconds : List ℕ
    pub jitter_ratio : floats.Float
    pub transient_error_codes : List String

  -- `__post_init__`: the constructor of a policy, which may refuse it.
  pub new_retry_policy :
      ℕ → List ℕ → floats.Float → List String → Result ScheduleContractError RetryPolicy
  new_retry_policy max_attempts backoff_seconds jitter_ratio transient_error_codes =
      if ltb max_attempts 1 || ltb 3 max_attempts
      then err retry_policy_invalid
      else if not (
          floats.float_le floats.zero_ratio jitter_ratio
          && floats.float_le jitter_ratio floats.max_ratio)
      then err retry_policy_invalid
      else ok (record {
        max_attempts = max_attempts;
        backoff_seconds = backoff_seconds;
        jitter_ratio = jitter_ratio;
        transient_error_codes = transient_error_codes;
      })

  pub record RetryOutcome : Type 0 where
    pub decision : RetryDecision
    pub next_attempt_no : Option ℕ
    pub delay_min_s : Option floats.Float
    pub delay_max_s : Option floats.Float

  retry_after : RetryPolicy → ℕ → ℕ → RetryOutcome
  retry_after policy attempt_no base = record {
    decision = retry;
    next_attempt_no = some (attempt_no + 1);
    delay_min_s = some (floats.of_seconds base);
    delay_max_s = some (floats.scaled base policy.jitter_ratio);
  }

  -- `none` is an IndexError.
  pub decide_retry : RetryPolicy → ℕ → String → Option RetryOutcome
  unfolding base_delay retry_after
  decide_retry policy attempt_no error_code =
      if not (contains error_code policy.transient_error_codes)
      then some (record {
        decision = fail_permanent;
        next_attempt_no = none;
        delay_min_s = none;
        delay_max_s = none;
      })
      else if leb policy.max_attempts attempt_no
      then some (record {
        decision = fail_exhausted;
        next_attempt_no = none;
        delay_min_s = none;
        delay_max_s = none;
      })
      else elim (base_delay policy.backoff_seconds attempt_no) [
        | none ↦ none
        | some base ↦ some (retry_after policy attempt_no base)
      ]

-- Within 60 s, compared without subtracting: an earlier confirmation is within it too.
pub replace_cancel_confirmed : ℕ → Option ℕ → Bool
replace_cancel_confirmed requested_at none = false
replace_cancel_confirmed requested_at (some confirmed_at) =
    leb confirmed_at (requested_at + 60 * 1000000)
