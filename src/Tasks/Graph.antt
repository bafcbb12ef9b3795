-- ===== src/Tasks/Graph.antt =====
-- server/tasks/graph.py: limits on new sub-Tasks and the join condition of a parent.
-- A text is compared after `str.upper` through its code points; no character beyond ASCII has an
-- upper case that stands in `ALL`, `ANY` or `QUORUM` by itself, so the ASCII letters decide.
mod Admission
mod Ancestors
mod Join
mod Snapshot
mod Samples
use Prim.Native.Char.{code}
use Prim.Native.String
use agent_colab.Prelude.{
  ltb, leb, ◌==◌, if◌then◌else◌, str_eq, or_else, length, keep, contains, Result, ok, err, ◌>>=◌,
  ◌>>◌, guard, ℕ, ◌+◌, ◌-◌, String, Bool, true, false, not, ◌&&◌, ◌||◌, Option, none, some, List,
  [], ◌∷◌, ◌++◌, map,
}

pub record GraphLimits : Type 0 where
  pub delegation_depth : ℕ
  pub max_fan_out : ℕ
  pub concurrent_subtasks : ℕ

-- The keys of a channel template's `limits` that are read. `none` is a value that is missing or no
-- integer; a negative integer is refused by the same test as 0.
pub record ChannelLimits : Type 0 where
  pub delegation_depth : Option ℕ
  pub max_fan_out : Option ℕ
  pub concurrent_subtasks : Option ℕ

pick : Option ℕ → ℕ → ℕ
pick none default = default
pick (some value) default = if ltb 0 value then value else default

abbrev default_limits : GraphLimits
default_limits = record { delegation_depth = 4; max_fan_out = 8; concurrent_subtasks = 8 }

pub limits_from_policy : Option ChannelLimits → GraphLimits
unfolding pick
limits_from_policy none = default_limits
limits_from_policy (some limits) = record {
  delegation_depth = pick limits.delegation_depth 4;
  max_fan_out = pick limits.max_fan_out 8;
  concurrent_subtasks = pick limits.concurrent_subtasks 8;
}

pub record ParentView : Type 0 where
  pub task_id : String
  pub workspace_id : String
  pub depth : ℕ
  pub status : String

-- The codes of `GraphError`.
pub data GraphError : Type 0 where
  task_graph_cycle task_workspace_mismatch task_terminal task_depth_exceeded : GraphError
  task_fanout_exceeded task_concurrency_exceeded task_join_policy_invalid : GraphError

pub validate_new_child :
    ParentView → String → String → List String → ℕ → ℕ → GraphLimits → Result GraphError (Unit {0})
validate_new_child parent child_task_id actor_workspace_id ancestors sibling_count
      active_sibling_count limits =
    do
      guard (not (str_eq child_task_id parent.task_id || contains child_task_id ancestors))
          task_graph_cycle
      guard (str_eq parent.workspace_id actor_workspace_id) task_workspace_mismatch
      guard (not (str_eq parent.status "COMPLETED" || str_eq parent.status "CANCELLED"))
          task_terminal
      guard (leb (parent.depth + 1) limits.delegation_depth) task_depth_exceeded
      guard (leb (sibling_count + 1) limits.max_fan_out) task_fanout_exceeded
      guard (leb (active_sibling_count + 1) limits.concurrent_subtasks) task_concurrency_exceeded

pub record ChildView : Type 0 where
  pub task_id : String
  pub status : String
  pub verification_status : Option String

pub done : ChildView → Bool
done c = str_eq c.status "VERIFIED" || str_eq c.status "COMPLETED"

pub cancelled : ChildView → Bool
cancelled c = str_eq c.status "CANCELLED"

pub data JoinMode : Type 0 where
  all any_ quorum_of : JoinMode

-- The keys of a join policy that are read, with texts for `mode` and `join`. `none` for `quorum` is a
-- value that is missing or no integer; a negative integer is refused by the same test as 0.
pub record JoinPolicy : Type 0 where
  pub mode : Option String
  pub join : Option String
  pub quorum : Option ℕ
  pub required : List String

codes : String → List ℕ
codes String.[] = []
codes (String.◌∷◌ c s) = code c ∷ codes s

upper : ℕ → ℕ
upper c = if leb 97 c && leb c 122 then c - 32 else c

codes_eq : List ℕ → List ℕ → Bool
codes_eq [] [] = true
codes_eq (x ∷ xs) (y ∷ ys) = x == y && codes_eq xs ys
codes_eq _ _ = false

-- `str(value).upper() == word`
upper_eq : String → String → Bool
unfolding codes upper codes_eq
upper_eq value word = codes_eq (map upper (codes value)) (codes word)

-- `QUORUM requires quorum >= 1`
check_quorum : Option ℕ → Result GraphError ℕ
check_quorum none = err task_join_policy_invalid
check_quorum (some n) = if ltb n 1 then err task_join_policy_invalid else ok n

pub join_mode : Option JoinPolicy → Result GraphError (JoinMode × Option ℕ × List String)
unfolding upper_eq check_quorum
join_mode none = ok (all, none, [])
join_mode (some policy) =
    let mode = or_else policy.mode (or_else policy.join "ALL") in
    if upper_eq mode "ALL"
    then ok (all, none, policy.required)
    else if upper_eq mode "ANY"
    then ok (any_, none, policy.required)
    else if upper_eq mode "QUORUM"
    then (do n ← check_quorum policy.quorum; ok (quorum_of, some n, policy.required))
    else err task_join_policy_invalid

pub record JoinResult : Type 0 where
  pub mode : JoinMode
  pub satisfied : Bool
  pub satisfied_children : List String
  pub missing : List String
  pub quorum : Option ℕ
  pub detail : String

ids : List ChildView → List String
ids = map (λ c. c.task_id)

-- `dict.fromkeys(xs)`: each text once, where it first stands; `seen` are the texts before.
unique : List String → List String → List String
unique seen [] = []
unique seen (x ∷ xs) =
    let rest = unique seen xs in
    let fresh = x ∷ unique (x ∷ seen) xs in if contains x seen then rest else fresh

-- `r in by_id and by_id[r].cancelled`: of two children with one id the dict holds the later.
pub last_cancelled : String → Bool → List ChildView → Bool
last_cancelled r held [] = held
last_cancelled r held (c ∷ cs) =
    last_cancelled r (if str_eq c.task_id r then cancelled c else held) cs

is_empty {ℓ} : {A : Type ℓ} → List A → Bool
is_empty [] = true
is_empty (_ ∷ _) = false

module _ (children : List ChildView) where
  pub done_ids : List String
  unfolding ids
  done_ids = ids (keep done children)

  pending_ids : List String
  unfolding ids
  pending_ids = ids (keep (λ c. not (done c) && not (cancelled c)) children)

module _ (children : List ChildView) (required : List String) where
  missing_required : List String
  unfolding done_ids
  missing_required = keep (λ r. not (contains r (done_ids children))) required

  missing_all : List String
  unfolding pending_ids missing_required unique last_cancelled
  missing_all =
      let missing = unique [] ((pending_ids children) ++ missing_required) in
      missing ++ keep (λ r. last_cancelled r false children && not (contains r missing)) required

  join_all : JoinResult
  unfolding missing_all is_empty
  join_all = record {
    mode = all;
    satisfied = is_empty missing_all && not (is_empty (done_ids children));
    satisfied_children = done_ids children;
    missing = missing_all;
    quorum = none;
    detail = "";
  }

  join_any : JoinResult
  unfolding done_ids unique ids is_empty
  join_any = record {
    mode = any_;
    satisfied = not (is_empty (done_ids children));
    satisfied_children = done_ids children;
    missing = if is_empty (done_ids children) then unique [] (ids children) else [];
    quorum = none;
    detail = "";
  }

  join_quorum : ℕ → JoinResult
  unfolding missing_required ids is_empty
  join_quorum n = record {
    mode = quorum_of;
    satisfied = leb n (length (done_ids children)) && is_empty missing_required;
    satisfied_children = done_ids children;
    missing =
        if leb n (length (done_ids children))
        then missing_required
        else ids (keep (λ c. not (done c)) children);
    quorum = some n;
    detail = "";
  }

-- The branches of `evaluate_join` on the mode. The `assert quorum is not None` holds by `join_mode`.
evaluate : List ChildView → JoinMode → Option ℕ → List String → JoinResult
unfolding join_all join_any join_quorum
evaluate [] mode quorum required = record {
  mode = mode;
  satisfied = false;
  satisfied_children = [];
  missing = [];
  quorum = none;
  detail = "no sub-Tasks yet";
}
evaluate children all quorum required = join_all children required
evaluate children any_ quorum required = join_any children required
evaluate children quorum_of quorum required = join_quorum children required (or_else quorum 0)

pub evaluate_join : Option JoinPolicy → List ChildView → Result GraphError JoinResult
evaluate_join policy children = do
  (mode, quorum, required) ← join_mode policy
  ok (evaluate children mode quorum required)
