-- ===== src/Tasks/Graph/Snapshot.antt =====
-- server/tasks/graph.py: the graph of Tasks in memory, and the ancestors of a Task.
use agent_colab.Prelude.{
  if◌then◌else◌, length, contains, or_else, Dict, lookup, ℕ, zero, suc, ◌+◌, String, Option, none,
  some, List, [], ◌∷◌,
}

pub record GraphSnapshot : Type 0 where
  pub children : List (String × List String)
  pub parent : Dict

unfoldable pub onto : String → Option (List String) → Option (List String)
onto task none = none
onto task (some above) = some (task ∷ above)

-- The loop of `ancestors`, on fuel: what it still appends to `out`, which holds `seen`. `none` where it
-- would still run.
unfoldable pub climb : ℕ → Dict → List String → Option String → Option (List String)
unfolding onto
climb zero parent seen current = none
climb (suc fuel) parent seen none = some []
climb (suc fuel) parent seen (some current) =
    let rest = climb fuel parent (current ∷ seen) (lookup current parent) in
    if contains current seen then some [] else onto current rest

-- Each turn but the last sees another key of `parent`, so this fuel is enough.
unfoldable pub ancestors : GraphSnapshot → String → List String
unfolding climb
ancestors snapshot task_id =
    or_else (climb (length snapshot.parent + 2) snapshot.parent [] (lookup task_id snapshot.parent))
      []
