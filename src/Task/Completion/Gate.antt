-- ===== src/Task/Completion/Gate.antt =====
-- server/domain/task.py: the completion gate.
use agent_colab.Prelude.{
  str_eq, All, String, ◌≡◌, refl, ◌↔◌, Bool, true, Option, none, some, List, [], ◌∷◌, ◌++◌, arith,
}
use agent_colab.Task.Status.{verified}
use agent_colab.Task.State.{passed, TaskState}
use agent_colab.Task.Completion.{
  CompletionCheck, verification_passed_check, present, run_checks, completion_prerequisites,
}

-- A check that reports nothing.
abbrev pub is_quiet : Option String → Bool
is_quiet none = true
is_quiet (some c) = str_eq c ""

++-nil : (xs ys : List String) → xs ++ ys ≡ [] → (xs ≡ []) × (ys ≡ [])
++-nil [] ys h = (refl, h)
++-nil (x ∷ xs) ys h = cc

module _ {S : Type 0} (state : TaskState) (session : S) where
  abbrev pub IsQuiet : CompletionCheck S → Type 0
  IsQuiet c = is_quiet (c.call state session) ≡ true

  present-nil :
      (o : Option String) (codes : List String)
      → present o codes ≡ []
      → (is_quiet o ≡ true) × (codes ≡ [])
  unfolding present
  present-nil o codes h = ground arith

  nil-present : (o : Option String) → is_quiet o ≡ true → present o [] ≡ []
  unfolding present
  nil-present o h = ground arith

  run_checks-nil :
      (checks : List (CompletionCheck S))
      → run_checks checks state session ≡ []
      → All IsQuiet checks
  unfolding run_checks
  run_checks-nil [] h = tt
  run_checks-nil (c ∷ cs) h =
      let (quiet, rest) = present-nil (c.call state session) (run_checks cs state session) h in
      (quiet, run_checks-nil cs rest)

  nil-run_checks :
      (checks : List (CompletionCheck S))
      → All IsQuiet checks
      → run_checks checks state session ≡ []
  unfolding run_checks
  nil-run_checks [] h = refl
  nil-run_checks (c ∷ cs) h = rw (nil-run_checks cs h.1) (nil-present (c.call state session) h.0)

  -- There is no unmet prerequisite exactly when the Task is VERIFIED, its verification passed, and
  -- every registered check reports nothing.
  pub completion_prerequisites-nil :
      (checks : List (CompletionCheck S))
      → (completion_prerequisites checks state session ≡ []) ↔ (
          (state.status ≡ verified)
          × (state.verification_status ≡ some passed)
          × All IsQuiet checks)
  unfolding completion_prerequisites verification_passed_check present
  completion_prerequisites-nil checks = (
    (λ h.
        let (first, rest) =
          ++-nil (present (verification_passed_check state) []) (run_checks checks state session)
            h in
        (ground arith, ground arith, run_checks-nil checks rest)),
    (λ h. rw (nil-run_checks checks h.2) (ground arith)),
  )
