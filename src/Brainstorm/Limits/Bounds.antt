-- ===== src/Brainstorm/Limits/Bounds.antt =====
-- server/brainstorm/limits.py: the conditions on a contribution and on the limits themselves.
use agent_colab.Prelude.{
  ltb, if◌then◌else◌, str_eq, str_eq_iff, ok, err, >>=-eq-ok, ℕ, ◌+◌, ◌*◌, ◌≤◌, ◌<◌, String, ◌≡◌,
  refl, sym, subst, Bool, true, List, [], ◌∷◌, arith,
}
use agent_colab.Brainstorm.Limits.{
  Limits, defaults, brainstorm_limits_invalid, LimitValue, number, negative, not_integer, RawLimits,
  falsy, not_object, object, assign, floor_of, or_invalid, set_limit, set_limits, parse, TurnState,
  consecutive,
}

-- The conditions on a contribution. The limit on turns per Agent binds Agents only, the limit on consecutive
-- turns binds Humans too, and a limit of 0 binds nobody.
pub record IsWithin (limits : Limits) (state : TurnState) (is_agent : Bool) : Type 0 where
  pub consecutive_fits : 0 < limits.max_consecutive → consecutive state ≤ limits.max_consecutive
  pub agent_fits :
      is_agent ≡ true
      → 0 < limits.turns_per_agent
      → state.contributor_turns < limits.turns_per_agent
  pub total_fits : 0 < limits.total_turns → state.total_turns < limits.total_turns
  pub budget_fits : 0 < limits.budget_cost_units → state.spent_cost_units ≤ limits.budget_cost_units
  pub time_fits :
      0 < limits.time_limit_minutes
      → state.now ≤ state.started_at + limits.time_limit_minutes * 60000000

-- The limits on turns that are at least 1.
abbrev HasTurnLimits : Limits → Type 0
HasTurnLimits limits =
    (0 < limits.turns_per_agent) × (0 < limits.max_consecutive) × (0 < limits.total_turns)

floor_of-turns : (key name : String) → floor_of name ≡ 1 → str_eq key name ≡ true → floor_of key ≡ 1
floor_of-turns key name f h = subst (λ k. floor_of k ≡ 1) (sym ((str_eq_iff key name).0 h)) f

set_limit-HasTurnLimits :
    (limits : Limits) (key : String) (value : LimitValue) {limits' : Limits}
    → HasTurnLimits limits
    → set_limit limits key value ≡ ok limits'
    → HasTurnLimits limits'
unfolding set_limit assign floor_of or_invalid
set_limit-HasTurnLimits limits key negative h q = cc
set_limit-HasTurnLimits limits key not_integer h q = cc
set_limit-HasTurnLimits limits key (number n) {limits' = limits'} h q =
    number_limit (floor_of key) (floor_of-turns key "turns_per_agent" refl)
      (floor_of-turns key "max_consecutive" refl) (floor_of-turns key "total_turns" refl) q
  where
    number_limit :
        (floor : ℕ)
        → (str_eq key "turns_per_agent" ≡ true → floor ≡ 1)
        → (str_eq key "max_consecutive" ≡ true → floor ≡ 1)
        → (str_eq key "total_turns" ≡ true → floor ≡ 1)
        → (if ltb n floor then err brainstorm_limits_invalid else or_invalid (assign limits key n))
          ≡ ok limits'
        → HasTurnLimits limits'
    number_limit floor a b c q = ground arith

set_limits-HasTurnLimits :
    (limits : Limits) (items : List (String × LimitValue)) {limits' : Limits}
    → HasTurnLimits limits
    → set_limits limits items ≡ ok limits'
    → HasTurnLimits limits'
unfolding set_limits
set_limits-HasTurnLimits limits [] h q = ground arith
set_limits-HasTurnLimits limits ((key, value) ∷ items) h q =
    let (middle, first, rest) =
      >>=-eq-ok (set_limit limits key value) (λ l. set_limits l items) q in
    set_limits-HasTurnLimits middle items (set_limit-HasTurnLimits limits key value h first) rest

-- Whatever the mapping, the limits that are accepted bound the turns: none of the three is 0, which
-- `check` would read as no limit.
parse-HasTurnLimits :
    (raw : RawLimits) {limits : Limits} → parse raw ≡ ok limits → HasTurnLimits limits
unfolding parse
parse-HasTurnLimits falsy q = ground arith
parse-HasTurnLimits not_object q = cc
parse-HasTurnLimits (object items) q = set_limits-HasTurnLimits defaults items (ground arith) q
