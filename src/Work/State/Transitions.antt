-- ===== src/Work/State/Transitions.antt =====
-- server/work/state.py: `transition`, over every state and action.
use agent_colab.Prelude.{ok, ◌≡◌, refl, false}
use agent_colab.Work.State.{
  WorkItemState, queued, delivered, acked, in_progress, result_received, rejected, expired,
  cancelled, Action, deliver, redeliver, ack, start, result, reject, expire, cancel, is_terminal,
  transitions, or_invalid, transition,
}

-- The state that an action leads to, whatever state allows it.
unfoldable pub target_of : Action → WorkItemState
target_of deliver = delivered
target_of redeliver = delivered
target_of ack = acked
target_of start = in_progress
target_of result = result_received
target_of reject = rejected
target_of expire = expired
target_of cancel = cancelled

-- What an allowed action starts in, where the timing model depends on it.
unfoldable pub IsSource : Action → WorkItemState → Type 0
IsSource start state = state ≡ acked
IsSource _ state = Unit

-- An action that is allowed starts in a state that is not terminal and ends in its one target; work
-- starts only from ACKED.
pub transition-target_of :
    (action : Action) (state target : WorkItemState)
    → transition state action ≡ ok target
    → (is_terminal state ≡ false) × (target ≡ target_of action) × IsSource action state
unfolding transition transitions is_terminal target_of IsSource or_invalid
transition-target_of deliver queued t h = (refl, cc, tt)
transition-target_of cancel queued t h = (refl, cc, tt)
transition-target_of expire queued t h = (refl, cc, tt)
transition-target_of redeliver delivered t h = (refl, cc, tt)
transition-target_of ack delivered t h = (refl, cc, tt)
transition-target_of reject delivered t h = (refl, cc, tt)
transition-target_of expire delivered t h = (refl, cc, tt)
transition-target_of cancel delivered t h = (refl, cc, tt)
transition-target_of start acked t h = (refl, cc, refl)
transition-target_of reject acked t h = (refl, cc, tt)
transition-target_of expire acked t h = (refl, cc, tt)
transition-target_of cancel acked t h = (refl, cc, tt)
transition-target_of result acked t h = (refl, cc, tt)
transition-target_of result in_progress t h = (refl, cc, tt)
transition-target_of reject in_progress t h = (refl, cc, tt)
transition-target_of expire in_progress t h = (refl, cc, tt)
transition-target_of cancel in_progress t h = (refl, cc, tt)
transition-target_of _ result_received t h = cc
transition-target_of _ rejected t h = cc
transition-target_of _ expired t h = cc
transition-target_of _ cancelled t h = cc
transition-target_of redeliver queued t h = cc
transition-target_of ack queued t h = cc
transition-target_of start queued t h = cc
transition-target_of result queued t h = cc
transition-target_of reject queued t h = cc
transition-target_of deliver delivered t h = cc
transition-target_of start delivered t h = cc
transition-target_of result delivered t h = cc
transition-target_of deliver acked t h = cc
transition-target_of redeliver acked t h = cc
transition-target_of ack acked t h = cc
transition-target_of deliver in_progress t h = cc
transition-target_of redeliver in_progress t h = cc
transition-target_of ack in_progress t h = cc
transition-target_of start in_progress t h = cc
