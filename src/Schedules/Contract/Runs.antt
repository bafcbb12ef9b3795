-- ===== src/Schedules/Contract/Runs.antt =====
-- server/schedules/contract.py: transitions of Runs, their cancellation, kinds and concurrency.
use agent_colab.Prelude.{
  is_some, ok, err, ℕ, ◌<◌, String, ◌≡◌, refl, ◌↔◌, ◌⊎◌, inl, inr, Bool, true, false, Option, none,
  some, arith,
}
use agent_colab.Schedules.Contract.{
  run_terminal_conflict, run_cancel_already_requested, RunStatus, pending, due, claimed,
  task_created, running, verifying, succeeded, failed, timed_out, cancel_requested, cancelled,
  RunKind, scheduled, manual, retry_run, ConcurrencyPolicy, allow, replace, run_terminal,
  run_transition, cancel_run, truthy, check_run_kind, start, skip, decide_concurrency,
}

-- A cancellation that is accepted is a transition of the table, and leaves the Run either ended or
-- waiting for its cleanup. It is refused exactly for a Run that is terminal or already asked.
pub cancel_run-run_transition :
    (current : RunStatus)
    → ((target : RunStatus) × (cancel_run current ≡ ok target)
        × (run_transition current target ≡ ok target)
        × ((target ≡ cancelled) ⊎ (target ≡ cancel_requested)))
      ⊎ ((cancel_run current ≡ err run_terminal_conflict) × (run_terminal current ≡ true))
      ⊎ ((cancel_run current ≡ err run_cancel_already_requested) × (current ≡ cancel_requested))
unfolding cancel_run run_transition
cancel_run-run_transition pending = inl (cancelled, refl, refl, inl refl)
cancel_run-run_transition due = inl (cancelled, refl, refl, inl refl)
cancel_run-run_transition claimed = inl (cancel_requested, refl, refl, inr refl)
cancel_run-run_transition task_created = inl (cancel_requested, refl, refl, inr refl)
cancel_run-run_transition running = inl (cancel_requested, refl, refl, inr refl)
cancel_run-run_transition verifying = inl (cancel_requested, refl, refl, inr refl)
cancel_run-run_transition cancel_requested = inr (inr (refl, refl))
cancel_run-run_transition _ = inr (inl (refl, refl))

-- One or more transitions.
infix 40 ◌⟶◌ ◌⟶*◌
pub data ◌⟶◌ : RunStatus → RunStatus → Type 0 where
  by : {s t : RunStatus} → run_transition s t ≡ ok t → s ⟶ t

pub data ◌⟶*◌ : RunStatus → RunStatus → Type 0 where
  here : {s : RunStatus} → s ⟶* s
  then_ : {s t u : RunStatus} → s ⟶ t → t ⟶* u → s ⟶* u

-- From every status that is not terminal, transitions lead to one that is.
pub terminal_reachable :
    (s : RunStatus) → run_terminal s ≡ false → (t : RunStatus) × (run_terminal t ≡ true) × (s ⟶* t)
unfolding run_transition run_terminal
terminal_reachable pending h = (cancelled, refl, then_ (by refl) here)
terminal_reachable due h = (cancelled, refl, then_ (by refl) here)
terminal_reachable claimed h = (failed, refl, then_ (by refl) here)
terminal_reachable task_created h = (failed, refl, then_ (by refl) here)
terminal_reachable running h = (succeeded, refl, then_ (by refl) here)
terminal_reachable verifying h = (succeeded, refl, then_ (by refl) here)
terminal_reachable cancel_requested h = (timed_out, refl, then_ (by refl) here)
terminal_reachable _ h = cc

terminal_step : {s t : RunStatus} → s ⟶ t → run_terminal s ≡ false
unfolding run_transition
terminal_step {s} {t} (by e) = ground arith

-- A Run that has ended stays as it is.
pub terminal_stays : {s t : RunStatus} → s ⟶* t → run_terminal s ≡ true → t ≡ s
terminal_stays here h = refl
terminal_stays (then_ step rest) h = cc (terminal_step step)

-- How far a Run has come. Only the recovery of an expired claim goes back.
abbrev pub stage : RunStatus → ℕ
stage pending = 0
stage due = 1
stage claimed = 2
stage task_created = 3
stage running = 4
stage verifying = 5
stage cancel_requested = 6
stage _ = 7

-- Each transition moves a Run forward, but for the release of a claim whose lease expired.
pub run_transition_forward :
    (s t : RunStatus)
    → run_transition s t ≡ ok t
    → (stage s < stage t) ⊎ ((s ≡ claimed) × (t ≡ due))
unfolding run_transition
run_transition_forward s t h = ground arith

-- The columns that a Run of each kind has.
abbrev pub HasKind : RunKind → Option String → Option String → Type 0
HasKind scheduled key retry_of = (truthy key ≡ true) × (retry_of ≡ none)
HasKind manual key retry_of = (key ≡ none) × (retry_of ≡ none)
HasKind retry_run key retry_of = (key ≡ none) × (truthy retry_of ≡ true)

-- `check_run_kind` accepts exactly the columns of the kind.
check_run_kind-HasKind :
    (kind : RunKind) (key retry_of : Option String)
    → (check_run_kind kind key retry_of ≡ ok tt) ↔ HasKind kind key retry_of
unfolding check_run_kind
check_run_kind-HasKind scheduled key retry_of = (λ h. ground arith, λ h. ground arith)
check_run_kind-HasKind manual key retry_of = (λ h. ground arith, λ h. ground arith)
check_run_kind-HasKind retry_run key retry_of = (λ h. ground arith, λ h. ground arith)

-- While a Run is active, a second one starts only under ALLOW, or under REPLACE once the cancel of
-- the first was confirmed; and a Run that is skipped says why.
decide_concurrency_exclusive :
    (policy : ConcurrencyPolicy) (active : Bool) (confirmed : Option Bool)
    → ((decide_concurrency policy active confirmed).decision ≡ start
        → (active ≡ false) ⊎ (policy ≡ allow) ⊎ ((policy ≡ replace) × (confirmed ≡ some true)))
      × (((decide_concurrency policy active confirmed).decision ≡ skip)
          ↔ (is_some (decide_concurrency policy active confirmed).error_code ≡ true))
unfolding decide_concurrency
decide_concurrency_exclusive policy active confirmed =
    (λ h. ground arith, (λ h. ground arith, λ h. ground arith))
