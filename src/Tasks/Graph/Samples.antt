-- ===== src/Tasks/Graph/Samples.antt =====
-- Sub-Tasks and joins of server/tasks/graph.py on concrete children.
use agent_colab.Prelude.{
  or_else, ok, ◌≡◌, refl, ◌↔◌, true, false, Option, none, some, [], ◌∷◌, arith,
}
use agent_colab.Tasks.Graph.{
  default_limits, ParentView, validate_new_child, ChildView, done, evaluate, all, JoinPolicy,
  join_mode, JoinResult, evaluate_join,
}
use agent_colab.Tasks.Graph.Join.{IsJoined, evaluate_join-IsJoined, evaluate_join_none_done}
use agent_colab.Tasks.Graph.Snapshot.{GraphSnapshot, climb, onto, ancestors}
use agent_colab.Tasks.Graph.Ancestors.{IsClimb, ancestors-IsClimb}
use agent_colab.Tasks.Graph.Admission.{IsAdmissible, validate_new_child-IsAdmissible}

abbrev done_child : ChildView
done_child = record { task_id = "c-1"; status = "VERIFIED"; verification_status = some "PASSED" }

abbrev cancelled_child : ChildView
cancelled_child = record { task_id = "c-2"; status = "CANCELLED"; verification_status = none }

abbrev all_of : Option JoinPolicy
all_of = some (record { mode = some "all"; join = none; quorum = none; required = "c-1" ∷ [] })

abbrev parent : ParentView
parent = record { task_id = "t-1"; workspace_id = "w-1"; depth = 1; status = "RUNNING" }

evaluate_join-IsJoined_example :
    (r : JoinResult) × (evaluate_join all_of (done_child ∷ cancelled_child ∷ []) ≡ ok r)
    × ((r.satisfied ≡ true)
        ↔ IsJoined all (or_else none 0) ("c-1" ∷ []) (done_child ∷ cancelled_child ∷ []))
unfolding join_mode
evaluate_join-IsJoined_example =
    evaluate_join-IsJoined all_of (done_child ∷ cancelled_child ∷ []) all none ("c-1" ∷ []) refl

abbrev cancelled_join : JoinResult
cancelled_join = evaluate (cancelled_child ∷ []) all none []

evaluate_join_none_done_example : cancelled_join.satisfied ≡ false
unfolding evaluate_join join_mode done
evaluate_join_none_done_example =
    evaluate_join_none_done none (cancelled_child ∷ []) {r = cancelled_join} refl refl

validate_new_child-IsAdmissible_example :
    (validate_new_child parent "c-1" "w-1" ("t-0" ∷ []) 3 2 default_limits ≡ ok tt)
    ↔ IsAdmissible parent "c-1" "w-1" ("t-0" ∷ []) 3 2 default_limits
validate_new_child-IsAdmissible_example =
    validate_new_child-IsAdmissible parent "c-1" "w-1" ("t-0" ∷ []) 3 2 default_limits

-- A sub-Task of a sub-Task.
abbrev nested : GraphSnapshot
nested = record {
  children = ("t-1", "t-2" ∷ []) ∷ ("t-2", "t-3" ∷ []) ∷ [];
  parent = ("t-2", "t-1") ∷ ("t-3", "t-2") ∷ [];
}

ancestors-IsClimb_example :
    (climb 7 nested.parent [] (some "t-2") ≡ some (ancestors nested "t-3"))
    × IsClimb nested.parent [] (some "t-2") (ancestors nested "t-3")
ancestors-IsClimb_example = ancestors-IsClimb nested "t-3" 7 (omega arith)

nested-ancestors : ancestors nested "t-3" ≡ "t-2" ∷ "t-1" ∷ []
unfolding ancestors climb onto
nested-ancestors = refl
