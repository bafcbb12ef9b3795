-- ===== src/Tasks/Graph/Ancestors.antt =====
-- server/tasks/graph.py: the walk from a Task to its ancestors.
use agent_colab.Prelude.{
  contains, length, Bool-cases, Option-cases, Dict, lookup, unseen, unseen_all, unseen_less, ℕ,
  zero, suc, ◌+◌, ◌<◌, ◌≡◌, refl, ◌⊎◌, inl, inr, String, true, false, Option, none, some, List, [],
  ◌∷◌, arith,
}
use agent_colab.Tasks.Graph.Snapshot.{GraphSnapshot, climb, onto, ancestors}

-- The texts are the Task at `current`, its parent, the parent of that and so on, each of them once, until
-- there is no further parent or one that was seen.
abbrev pub IsClimb : Dict → List String → Option String → List String → Type 0
IsClimb parent seen current [] =
    (current ≡ none) ⊎ ((task : String) × (current ≡ some task) × (contains task seen ≡ true))
IsClimb parent seen current (task ∷ above) =
    (current ≡ some task)
    × (contains task seen ≡ false)
    × IsClimb parent (task ∷ seen) (lookup task parent) above

-- Without a parent the loop ends.
climb-none :
    (n : ℕ) (parent : Dict) (seen : List String) → 0 < n → climb n parent seen none ≡ some []
unfolding climb
climb-none zero parent seen h = absurd (none_below h)
  where
    none_below : 0 < 0 → ⊥
    none_below h = omega (arith, h)
climb-none (suc n) parent seen h = refl

-- Runs with enough fuel end, with one climb.
abbrev Ends : ℕ → ℕ → Dict → List String → Option String → Type 0
Ends n m parent seen current =
    (out : List String) × (climb n parent seen current ≡ some out)
    × (climb m parent seen current ≡ some out)
    × IsClimb parent seen current out

climb_on :
    (n m : ℕ) (parent : Dict) (seen : List String) (task : String)
    → contains task seen ≡ false
    → Ends n m parent (task ∷ seen) (lookup task parent)
    → Ends (suc n) (suc m) parent seen (some task)
unfolding climb onto
climb_on n m parent seen task e (out, p, q, line) =
    (task ∷ out, rw (climb, e, p) refl, rw (climb, e, q) refl, (refl, e, line))

climb-Ends :
    (parent : Dict) (n m : ℕ) (seen : List String) (current : Option String)
    → unseen parent seen + 1 < n
    → unseen parent seen + 1 < m
    → Ends n m parent seen current
unfolding climb
climb-Ends parent zero m seen current h k = absurd (below_zero h)
  where
    below_zero : {i : ℕ} → i < 0 → ⊥
    below_zero h = omega (arith, h)
climb-Ends parent (suc n) zero seen current h k = absurd (below_zero k)
  where
    below_zero : {i : ℕ} → i < 0 → ⊥
    below_zero h = omega (arith, h)
climb-Ends parent (suc n) (suc m) seen none h k = (
  [],
  climb-none (suc n) parent seen (omega (arith, h)),
  climb-none (suc m) parent seen (omega (arith, k)),
  inl refl,
)
climb-Ends parent (suc n) (suc m) seen (some task) h k = over (climb-Ends parent n m (task ∷ seen))
  where
    over :
        ((next : Option String)
          → unseen parent (task ∷ seen) + 1 < n
          → unseen parent (task ∷ seen) + 1 < m
          → Ends n m parent (task ∷ seen) next)
        → Ends (suc n) (suc m) parent seen (some task)
    over again = elim (Bool-cases (contains task seen)) [
      | inl e ↦ ([], rw (climb, e) refl, rw (climb, e) refl, inr (task, refl, e))
      | inr e ↦ climb_on n m parent seen task e (elim (Option-cases (lookup task parent)) [
        | inl f ↦ rw f (
          [],
          climb-none n parent (task ∷ seen) (omega (arith, h)),
          climb-none m parent (task ∷ seen) (omega (arith, k)),
          inl refl,
        )
        | inr (next, f) ↦
            let less = unseen_less parent seen task next f e in
            again (lookup task parent) (omega (arith, less, h)) (omega (arith, less, k))
      ])
    ]

-- The walk to the ancestors ends, cycles included: with two turns more than the graph has edges, or any
-- more, it gives the parent of the Task, the parent of that and so on, each of them once, until there is
-- no further parent or one that was met.
pub ancestors-IsClimb :
    (snapshot : GraphSnapshot) (task_id : String) (fuel : ℕ)
    → length snapshot.parent + 1 < fuel
    → (climb fuel snapshot.parent [] (lookup task_id snapshot.parent)
        ≡ some (ancestors snapshot task_id))
      × IsClimb snapshot.parent [] (lookup task_id snapshot.parent) (ancestors snapshot task_id)
unfolding ancestors
ancestors-IsClimb snapshot task_id fuel h =
    let all_unseen = unseen_all snapshot.parent in
    let (out, p, q, line) =
      climb-Ends snapshot.parent fuel (length snapshot.parent + 2) []
        (lookup task_id snapshot.parent) (omega (arith, all_unseen, h))
        (omega (arith, all_unseen)) in
    rw q (p, line)
