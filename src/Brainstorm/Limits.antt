-- ===== src/Brainstorm/Limits.antt =====
-- server/brainstorm/limits.py: the limits of a session and the decision on a contribution. Instants are
-- microseconds; the texts of details are left out. `elapsed > limit` is compared in microseconds, where
-- the source divides floats.
mod Bounds
mod Samples
use agent_colab.Prelude.{
  ltb, if◌then◌else◌, str_eq, Result, ok, err, ◌>>=◌, ℕ, ◌+◌, ◌*◌, String, Bool, ◌&&◌, ◌||◌, Option,
  none, some, List, [], ◌∷◌,
}

pub record Limits : Type 0 where
  pub turns_per_agent : ℕ
  pub max_consecutive : ℕ
  pub total_turns : ℕ
  pub budget_cost_units : ℕ
  pub time_limit_minutes : ℕ

abbrev pub defaults : Limits
defaults = record {
  turns_per_agent = 5;
  max_consecutive = 1;
  total_turns = 40;
  budget_cost_units = 0;
  time_limit_minutes = 0;
}

pub data BreachCode : Type 0 where
  turns_per_agent_exceeded max_consecutive_exceeded total_turns_exceeded : BreachCode
  budget_exceeded time_limit_exceeded : BreachCode

pub data LimitsError : Type 0 where
  brainstorm_limits_invalid : LimitsError

-- A value of the mapping: an integer that is not negative, one that is, a `bool` or anything else.
pub data LimitValue : Type 0 where
  number : ℕ → LimitValue
  negative not_integer : LimitValue

-- The argument of `parse`: a falsy value, an object as its items, whose keys differ, or anything else.
pub data RawLimits : Type 0 where
  falsy not_object : RawLimits
  object : List (String × LimitValue) → RawLimits

-- `values[key] = value`; `none` is an unknown key.
assign : Limits → String → ℕ → Option Limits
assign limits key value =
    if str_eq key "turns_per_agent"
    then some (record limits { turns_per_agent = value })
    else if str_eq key "max_consecutive"
    then some (record limits { max_consecutive = value })
    else if str_eq key "total_turns"
    then some (record limits { total_turns = value })
    else if str_eq key "budget_cost_units"
    then some (record limits { budget_cost_units = value })
    else if str_eq key "time_limit_minutes"
    then some (record limits { time_limit_minutes = value })
    else none

-- `0 if key in ("budget_cost_units", "time_limit_minutes") else 1`
floor_of : String → ℕ
floor_of key = if str_eq key "budget_cost_units" || str_eq key "time_limit_minutes" then 0 else 1

or_invalid : Option Limits → Result LimitsError Limits
or_invalid none = err brainstorm_limits_invalid
or_invalid (some limits) = ok limits

-- One item of the mapping.
set_limit : Limits → String → LimitValue → Result LimitsError Limits
unfolding assign floor_of or_invalid
set_limit limits key negative = err brainstorm_limits_invalid
set_limit limits key not_integer = err brainstorm_limits_invalid
set_limit limits key (number n) =
    if ltb n (floor_of key) then err brainstorm_limits_invalid else or_invalid (assign limits key n)

-- The loop, which also refuses the unknown keys that the source refuses before it, with the same code.
set_limits : Limits → List (String × LimitValue) → Result LimitsError Limits
unfolding set_limit
set_limits limits [] = ok limits
set_limits limits ((key, value) ∷ items) =
    set_limit limits key value >>= λ limits'. set_limits limits' items

pub parse : RawLimits → Result LimitsError Limits
unfolding set_limits
parse falsy = ok defaults
parse not_object = err brainstorm_limits_invalid
parse (object items) = set_limits defaults items

pub record TurnState : Type 0 where
  pub total_turns : ℕ
  pub contributor_turns : ℕ
  pub consecutive_turns : ℕ
  pub is_last_contributor : Bool
  pub spent_cost_units : ℕ
  pub started_at : ℕ
  pub now : ℕ

pub consecutive : TurnState → ℕ
consecutive state = if state.is_last_contributor then state.consecutive_turns + 1 else 1

-- A limit of 0 is no limit.
over : ℕ → ℕ → Bool
over limit value = ltb 0 limit && ltb limit value

pub check : Limits → TurnState → Bool → Option BreachCode
unfolding consecutive over
check limits state is_agent =
    if over limits.max_consecutive (consecutive state)
    then some max_consecutive_exceeded
    else if is_agent && over limits.turns_per_agent (state.contributor_turns + 1)
    then some turns_per_agent_exceeded
    else if over limits.total_turns (state.total_turns + 1)
    then some total_turns_exceeded
    else if over limits.budget_cost_units state.spent_cost_units
    then some budget_exceeded
    else if ltb 0 limits.time_limit_minutes
        && ltb (state.started_at + limits.time_limit_minutes * 60000000) state.now
    then some time_limit_exceeded
    else none
