-- ===== src/Approvals/Model.antt =====
-- server/approvals/model.py: the states of an approval, its transitions and its validity.
-- Instants are microseconds since the epoch.
use agent_colab.Prelude.{
  ltb, leb, if◌then◌else◌, Result, ok, err, ℕ, ◌+◌, ◌*◌, String, Bool, true, false, ◌&&◌, Option,
  none, some,
}
use agent_colab.Events.Store.{EventStoreError}

pub data ApprovalStatus : Type 0 where
  pending approved partially_consumed consumed rejected cancelled expired revoked : ApprovalStatus

-- The event types of the table.
pub data ApprovalEvent : Type 0 where
  granted_ rejected_ cancelled_ expired_ revoked_ consumed_ : ApprovalEvent

-- The codes of `ApprovalError`, and those of the store that pass through.
pub data ApprovalError : Type 0 where
  approval_terminal approval_transition_invalid approval_exhausted approval_not_usable :
      ApprovalError
  approval_scope_mismatch : ApprovalError
  store_error : EventStoreError → ApprovalError

-- `current in TERMINAL`
unfoldable pub is_terminal : ApprovalStatus → Bool
is_terminal consumed = true
is_terminal rejected = true
is_terminal cancelled = true
is_terminal expired = true
is_terminal revoked = true
is_terminal _ = false

-- `status in CONSUMABLE`
unfoldable pub is_consumable : ApprovalStatus → Bool
is_consumable approved = true
is_consumable partially_consumed = true
is_consumable _ = false

-- `TRANSITIONS.get((current, event_type))`
unfoldable pub transitions : ApprovalStatus → ApprovalEvent → Option ApprovalStatus
transitions pending granted_ = some approved
transitions pending rejected_ = some rejected
transitions pending cancelled_ = some cancelled
transitions pending expired_ = some expired
transitions pending revoked_ = some revoked
transitions approved consumed_ = some partially_consumed
transitions approved cancelled_ = some cancelled
transitions approved expired_ = some expired
transitions approved revoked_ = some revoked
transitions partially_consumed consumed_ = some partially_consumed
transitions partially_consumed cancelled_ = some cancelled
transitions partially_consumed expired_ = some expired
transitions partially_consumed revoked_ = some revoked
transitions _ _ = none

or_invalid : Option ApprovalStatus → Result ApprovalError ApprovalStatus
or_invalid none = err approval_transition_invalid
or_invalid (some target) = ok target

unfoldable pub next_status : ApprovalStatus → ApprovalEvent → Result ApprovalError ApprovalStatus
unfolding is_terminal transitions or_invalid
next_status current event_type =
    if is_terminal current
    then err approval_terminal
    else or_invalid (transitions current event_type)

reached : ℕ → Option ℕ → Bool
reached used_count none = false
reached used_count (some max_uses) = leb max_uses used_count

unfoldable pub status_after_consumption : ℕ → Option ℕ → ApprovalStatus
unfolding reached
status_after_consumption used_count max_uses =
    if reached used_count max_uses then consumed else partially_consumed

-- 24 hours later.
pub default_expiry : ℕ → ℕ
default_expiry valid_from = valid_from + 24 * 3600000000

pub record Subject : Type 0 where
  pub subject_type : String
  pub subject_id : String

pub record Grant : Type 0 where
  pub approval_id : String
  pub workspace_uuid : String
  pub subject : Subject
  pub action : String
  pub risk : String
  pub status : ApprovalStatus
  pub requested_by : String
  pub implementing_agent_account : Option String
  pub channel_uuid : Option String
  pub valid_from : ℕ
  pub expires_at : ℕ
  pub max_uses : Option ℕ
  pub quorum_required : ℕ
  pub aggregate_seq : ℕ
  pub requires_human_approval : Bool

-- `valid_from <= now < expires_at`
unfoldable pub in_window : Grant → ℕ → Bool
in_window grant now = leb grant.valid_from now && ltb now grant.expires_at

pub usable_at : Grant → ℕ → Bool
unfolding is_consumable in_window
usable_at grant now = is_consumable grant.status && in_window grant now
