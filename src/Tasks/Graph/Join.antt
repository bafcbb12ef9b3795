-- ===== src/Tasks/Graph/Join.antt =====
-- server/tasks/graph.py: `evaluate_join` against the join conditions that its documentation names.
use agent_colab.Prelude.{
  or_else, Bool-cases, length, keep, any, All, contains, ok, Result-cases, ℕ, ◌≤◌, String, ◌≡◌,
  refl, ap, subst, ◌↔◌, inl, inr, Bool, true, false, not, ◌&&◌, ◌||◌, Option, none, some, List, [],
  ◌∷◌, ◌++◌, arith,
}
use agent_colab.Tasks.Graph.{
  ChildView, done, cancelled, JoinMode, all, any_, quorum_of, JoinPolicy, check_quorum, join_mode,
  JoinResult, ids, unique, last_cancelled, is_empty, done_ids, pending_ids, missing_required,
  missing_all, join_all, join_any, join_quorum, evaluate, evaluate_join,
}

abbrev IsDone : ChildView → Type 0
IsDone c = done c ≡ true

-- The condition of each mode, over the children and the required ids.
abbrev pub IsJoined : JoinMode → ℕ → List String → List ChildView → Type 0
IsJoined all n required children =
    (any done children ≡ true)
    × All (λ c. (done c || cancelled c) ≡ true) children
    × All (λ r. contains r (done_ids children) ≡ true) required
    × All (λ r. last_cancelled r false children ≡ false) required
IsJoined any_ n required children = any done children ≡ true
IsJoined quorum_of n required children =
    (n ≤ length (done_ids children)) × All (λ r. contains r (done_ids children) ≡ true) required

module _ {ℓ} {A : Type ℓ} where
  is_empty-keep :
      (p : A → Bool) (xs : List A) → is_empty (keep p xs) ≡ true → All (λ x. p x ≡ false) xs
  unfolding is_empty
  is_empty-keep p [] h = tt
  is_empty-keep p (x ∷ xs) h = elim (Bool-cases (p x)) [
    | inl e ↦ ground arith
    | inr e ↦ (e, is_empty-keep p xs (ground arith))
  ]

  keep-is_empty :
      (p : A → Bool) (xs : List A) → All (λ x. p x ≡ false) xs → is_empty (keep p xs) ≡ true
  unfolding is_empty
  keep-is_empty p [] h = refl
  keep-is_empty p (x ∷ xs) h = rw h.0 (keep-is_empty p xs h.1)

  is_empty-nil : (xs : List A) → is_empty xs ≡ true → xs ≡ []
  unfolding is_empty
  is_empty-nil [] h = refl
  is_empty-nil (x ∷ xs) h = cc

  is_empty-append : (xs ys : List A) → is_empty (xs ++ ys) ≡ (is_empty xs && is_empty ys)
  unfolding is_empty
  is_empty-append [] ys = refl
  is_empty-append (x ∷ xs) ys = refl

  All-map {κ μ} :
      {P : A → Type κ} {Q : A → Type μ} (xs : List A) → ((x : A) → P x → Q x) → All P xs → All Q xs
  All-map [] f h = tt
  All-map (x ∷ xs) f h = (f x h.0, All-map xs f h.1)

is_empty-unique : (xs : List String) → is_empty (unique [] xs) ≡ is_empty xs
unfolding is_empty unique
is_empty-unique [] = refl
is_empty-unique (x ∷ xs) = refl

is_empty-ids :
    (p : ChildView → Bool) (cs : List ChildView) → is_empty (ids (keep p cs)) ≡ not (any p cs)
unfolding is_empty ids
is_empty-ids p [] = refl
is_empty-ids p (c ∷ cs) = ground (arith, is_empty-ids p cs)

not-any :
    (p : ChildView → Bool) (cs : List ChildView) → any p cs ≡ false → All (λ c. p c ≡ false) cs
not-any p [] h = tt
not-any p (c ∷ cs) h = (ground arith, not-any p cs (ground arith))

any-not :
    (p : ChildView → Bool) (cs : List ChildView) → All (λ c. p c ≡ false) cs → any p cs ≡ false
any-not p [] h = refl
any-not p (c ∷ cs) h = rw h.0 (any-not p cs h.1)

module _ (children : List ChildView) (required : List String) where
  required_done :
      is_empty (missing_required children required) ≡ true
      → All (λ r. contains r (done_ids children) ≡ true) required
  unfolding missing_required
  required_done h =
      All-map required (λ r e. ground arith)
        (is_empty-keep (λ r. not (contains r (done_ids children))) required h)

  done_required :
      All (λ r. contains r (done_ids children) ≡ true) required
      → is_empty (missing_required children required) ≡ true
  unfolding missing_required
  done_required h = keep-is_empty _ required (All-map required (λ r e. ground arith) h)

  abbrev waits : ChildView → Bool
  waits c = not (done c) && not (cancelled c)

  missing_all-parts :
      is_empty (missing_all children required) ≡ true
      → (any waits children ≡ false)
        × (is_empty (missing_required children required) ≡ true)
        × All (λ r. last_cancelled r false children ≡ false) required
  unfolding missing_all pending_ids
  missing_all-parts h =
      let first = unique [] (pending_ids children ++ missing_required children required) in
      let late = λ (r : String). last_cancelled r false children && not (contains r first) in
      let split = is_empty-append first (keep late required) in
      let both = is_empty-unique (pending_ids children ++ missing_required children required) in
      let parts = is_empty-append (pending_ids children) (missing_required children required) in
      let nil : first ≡ [] = is_empty-nil first (ground arith) in
      (
        ground (arith, is_empty-ids waits children),
        ground arith,
        All-map required (λ r e. ground (arith, ap (contains r) nil))
            (is_empty-keep late required (ground arith)),
      )

  parts-missing_all :
      any waits children ≡ false
      → is_empty (missing_required children required) ≡ true
      → All (λ r. last_cancelled r false children ≡ false) required
      → is_empty (missing_all children required) ≡ true
  unfolding missing_all pending_ids
  parts-missing_all w m l =
      let first = unique [] (pending_ids children ++ missing_required children required) in
      let late = λ (r : String). last_cancelled r false children && not (contains r first) in
      ground (
        arith,
        is_empty-append first (keep late required),
        is_empty-unique (pending_ids children ++ missing_required children required),
        is_empty-append (pending_ids children) (missing_required children required),
        is_empty-ids waits children,
        keep-is_empty late required (All-map required (λ r e. rw e) l),
      )

  all-IsJoined : (join_all children required).satisfied ≡ true → IsJoined all 0 required children
  unfolding join_all done_ids
  all-IsJoined h =
      let (w, m, l) = missing_all-parts (ground arith) in
      (
        ground (arith, is_empty-ids done children),
        All-map children (λ c e. ground arith) (not-any waits children w),
        required_done m,
        l,
      )

  IsJoined-all : IsJoined all 0 required children → (join_all children required).satisfied ≡ true
  unfolding join_all done_ids
  IsJoined-all (some_done, settled, req, l) = ground (
    arith,
    is_empty-ids done children,
    parts-missing_all (any-not waits children (All-map children (λ c e. ground arith) settled))
        (done_required req) l,
  )

join_mode-quorum :
    (policy : Option JoinPolicy) {q : Option ℕ} {required : List String}
    → join_mode policy ≡ ok (quorum_of, q, required)
    → 1 ≤ or_else q 0
unfolding join_mode check_quorum
join_mode-quorum none h = cc
join_mode-quorum (some policy) h = ground arith

evaluate-IsJoined :
    (children : List ChildView) (m : JoinMode) (q : Option ℕ) (required : List String)
    → (m ≡ quorum_of → 1 ≤ or_else q 0)
    → ((evaluate children m q required).satisfied ≡ true)
      ↔ IsJoined m (or_else q 0) required children
unfolding evaluate join_any join_quorum done_ids ids
evaluate-IsJoined [] all q required pos = (λ h. cc, λ h. cc h.0)
evaluate-IsJoined [] any_ q required pos = (λ h. cc, λ h. h)
evaluate-IsJoined [] quorum_of q required pos = (λ h. cc, λ h. absurd (omega (arith, pos refl)))
evaluate-IsJoined (c ∷ cs) all q required pos =
    (all-IsJoined (c ∷ cs) required, IsJoined-all (c ∷ cs) required)
evaluate-IsJoined (c ∷ cs) any_ q required pos = (
  λ h. ground (arith, is_empty-ids done (c ∷ cs)),
  λ h. ground (arith, is_empty-ids done (c ∷ cs)),
)
evaluate-IsJoined (c ∷ cs) quorum_of q required pos = (
  (λ h. (ground arith, required_done (c ∷ cs) required (ground arith))),
  (λ h. ground (arith, done_required (c ∷ cs) required h.1)),
)

-- Under a valid policy the join is satisfied exactly when the condition of its mode holds of the
-- children, none at all included.
pub evaluate_join-IsJoined :
    (policy : Option JoinPolicy) (children : List ChildView) (m : JoinMode) (q : Option ℕ)
    (required : List String)
    → join_mode policy ≡ ok (m, q, required)
    → (r : JoinResult) × (evaluate_join policy children ≡ ok r)
      × ((r.satisfied ≡ true) ↔ IsJoined m (or_else q 0) required children)
unfolding evaluate_join
evaluate_join-IsJoined policy children m q required h = (
  evaluate children m q required,
  rw h,
  evaluate-IsJoined children m q required (λ e.
      join_mode-quorum policy {q = q} {required = required}
        (subst (λ n. join_mode policy ≡ ok (n, q, required)) e h)),
)

evaluate_none_done :
    (children : List ChildView) (m : JoinMode) (q : Option ℕ) (required : List String)
    → (m ≡ quorum_of → 1 ≤ or_else q 0)
    → any done children ≡ false
    → (evaluate children m q required).satisfied ≡ false
unfolding evaluate join_all join_any join_quorum done_ids
evaluate_none_done [] m q required pos h = refl
evaluate_none_done (c ∷ cs) m q required pos h =
    let empty = is_empty-ids done (c ∷ cs) in
    let nil : done_ids (c ∷ cs) ≡ [] = is_empty-nil (done_ids (c ∷ cs)) (ground arith) in
    ground (arith, empty, ap {B = ℕ} length nil)

-- Where no child is done, no mode is ever satisfied. So ALL is not satisfied where every child is
-- cancelled, although no child that is not cancelled is left to wait for.
pub evaluate_join_none_done :
    (policy : Option JoinPolicy) (children : List ChildView) {r : JoinResult}
    → any done children ≡ false
    → evaluate_join policy children ≡ ok r
    → r.satisfied ≡ false
unfolding evaluate_join
evaluate_join_none_done policy children h q = elim (Result-cases (join_mode policy)) [
  | inl ((m, n, required), e) ↦ ground (
    arith,
    evaluate_none_done children m n required
        (λ p.
          join_mode-quorum policy {q = n} {required = required}
            (subst (λ k. join_mode policy ≡ ok (k, n, required)) p e))
        h,
  )
  | inr (x, e) ↦ ground arith
]
