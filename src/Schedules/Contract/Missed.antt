-- ===== src/Schedules/Contract/Missed.antt =====
-- server/schedules/contract.py: what `plan_missed_runs` does with the occurrences.
use mathlib.Core.List.{
  reverse, reverse-reverse, reverse_perm, Perm, perm_middle, perm_append_comm, append_assoc,
}
use mathlib.Core.List.Perm
use agent_colab.Prelude.{
  leb→le, ◌+◌, false, ltb, leb, Bool-cases, length, take, drop, keep, All, sorted, take-append-drop,
  length-take-le, sorted-perm, Result, ok, err, ℕ, zero, suc, ◌-◌, ◌*◌, ◌≤◌, ◌≡◌, refl, sym, ap,
  subst, inl, inr, Bool, true, false, none, List, [], ◌∷◌, ◌++◌, arith,
}
use agent_colab.Schedules.Contract.{
  ScheduleContractError, MissedRunPolicy, skip_missed, run_once, backfill_limited, MissedOccurrence,
  MissedRunPlan, ℤ, pos, negsuc, once, backfill, plan_ordered, instant, plan_missed_runs,
}

split-perm :
    (a : ℕ) (xs : List MissedOccurrence)
    → Perm (keep (λ m. ltb m.scheduled_for a) xs ++ keep (λ m. leb a m.scheduled_for) xs) xs
split-perm a [] = Perm.refl []
split-perm a (x ∷ xs) = elim (Bool-cases (ltb x.scheduled_for a)) [
  | inl e ↦
      let f : leb a x.scheduled_for ≡ false = ground arith in
      rw (e, f) (Perm.cons x (split-perm a xs))
  | inr e ↦
      let f : leb a x.scheduled_for ≡ true = ground arith in
      rw (e, f) (Perm.trans (perm_middle _ _) (Perm.cons x (split-perm a xs)))
]

-- Every occurrence of the input is in the plan, to be created or skipped, exactly as often.
abbrev IsPartition : List MissedOccurrence → MissedRunPlan → Type 0
IsPartition xs p = Perm (p.to_create ++ p.skipped) xs

once-perm : (xs : List MissedOccurrence) → IsPartition (reverse xs) (once xs)
unfolding once
once-perm [] = Perm.refl []
once-perm (x ∷ xs) = Perm.trans (Perm.cons x (reverse_perm xs)) (Perm.symm (reverse_perm (x ∷ xs)))

move_front : (xs ys zs : List MissedOccurrence) → Perm (xs ++ (ys ++ zs)) (ys ++ (xs ++ zs))
move_front xs ys zs =
    rw (← append_assoc xs ys zs, ← append_assoc ys xs zs)
      (Perm.append_right zs (perm_append_comm xs ys))

backfill-perm :
    (xs : List MissedOccurrence) (now window limit : ℕ)
    → IsPartition xs (backfill xs now window limit)
unfolding backfill
backfill-perm xs now window limit =
    let from = now - window * 1000000 in
    let inside = keep (λ m. leb from m.scheduled_for) xs in
    let outside = keep (λ m. ltb m.scheduled_for from) xs in
    let split : Perm (outside ++ (take limit inside ++ drop limit inside)) xs =
      rw (take-append-drop limit inside) (split-perm from xs) in
    Perm.trans (move_front (take limit inside) outside (drop limit inside)) split

abbrev Partitions : List MissedOccurrence → Result ScheduleContractError MissedRunPlan → Type 0
Partitions xs (ok p) = IsPartition xs p
Partitions xs (err e) = Unit

plan_ordered-perm :
    (policy : MissedRunPolicy) (xs : List MissedOccurrence) (now : ℕ) (window limit : ℤ)
    → Partitions xs (plan_ordered policy xs now window limit)
unfolding plan_ordered
plan_ordered-perm policy [] now window limit = Perm.refl []
plan_ordered-perm skip_missed (x ∷ xs) now window limit = Perm.refl (x ∷ xs)
plan_ordered-perm run_once (x ∷ xs) now window limit =
    subst (λ l. IsPartition l (once (reverse (x ∷ xs)))) (reverse-reverse (x ∷ xs))
      (once-perm (reverse (x ∷ xs)))
plan_ordered-perm backfill_limited (x ∷ xs) now (pos w) (pos n) =
    elim (Bool-cases (ltb now (w * 1000000))) [
      | inl e ↦ rw e tt
      | inr e ↦ rw e (backfill-perm (x ∷ xs) now w n)
    ]
plan_ordered-perm backfill_limited (x ∷ xs) now (pos w) (negsuc n) = tt
plan_ordered-perm backfill_limited (x ∷ xs) now (negsuc w) limit = tt

-- Under every policy each missed occurrence is either created or skipped, and none is lost, made up
-- or given twice.
pub plan_missed_runs-perm :
    (policy : MissedRunPolicy) (missed : List MissedOccurrence) (now : ℕ) (window limit : ℤ)
    {p : MissedRunPlan}
    → plan_missed_runs policy missed now window limit ≡ ok p
    → Perm (p.to_create ++ p.skipped) missed
unfolding plan_missed_runs
plan_missed_runs-perm policy missed now window limit h =
    Perm.trans
      (subst (Partitions (sorted instant missed)) h
        (plan_ordered-perm policy (sorted instant missed) now window limit))
      (sorted-perm instant missed)

-- How many Runs a policy may create.
abbrev pub allowance : MissedRunPolicy → ℤ → ℕ
allowance skip_missed limit = 0
allowance run_once limit = 1
allowance backfill_limited (pos n) = n
allowance backfill_limited (negsuc n) = 0

All-keep :
    (p : MissedOccurrence → Bool) (xs : List MissedOccurrence) → All (λ m. p m ≡ true) (keep p xs)
All-keep p [] = tt
All-keep p (x ∷ xs) = elim (Bool-cases (p x)) [
  | inl e ↦ rw e (e, All-keep p xs)
  | inr e ↦ rw e (All-keep p xs)
]

All-take :
    (P : MissedOccurrence → Type 0) (n : ℕ) (xs : List MissedOccurrence)
    → All P xs
    → All P (take n xs)
All-take P zero xs h = tt
All-take P (suc n) [] h = tt
All-take P (suc n) (x ∷ xs) h = (h.0, All-take P n xs h.1)

once_allowance : (xs : List MissedOccurrence) → length (once xs).to_create ≤ 1
unfolding once
once_allowance [] = omega arith
once_allowance (x ∷ xs) = omega arith

backfill_allowance :
    (xs : List MissedOccurrence) (now window limit : ℕ)
    → length (backfill xs now window limit).to_create ≤ limit
unfolding backfill
backfill_allowance xs now window limit = length-take-le limit _

abbrev Allowed : ℕ → Result ScheduleContractError MissedRunPlan → Type 0
Allowed n (ok p) = length p.to_create ≤ n
Allowed n (err e) = Unit

plan_ordered-allowance :
    (policy : MissedRunPolicy) (xs : List MissedOccurrence) (now : ℕ) (window limit : ℤ)
    → Allowed (allowance policy limit) (plan_ordered policy xs now window limit)
unfolding plan_ordered
plan_ordered-allowance policy [] now window limit = omega arith
plan_ordered-allowance skip_missed (x ∷ xs) now window limit = omega arith
plan_ordered-allowance run_once (x ∷ xs) now window limit = once_allowance (reverse (x ∷ xs))
plan_ordered-allowance backfill_limited (x ∷ xs) now (pos w) (pos n) =
    elim (Bool-cases (ltb now (w * 1000000))) [
      | inl e ↦ rw e tt
      | inr e ↦ rw e (backfill_allowance (x ∷ xs) now w n)
    ]
plan_ordered-allowance backfill_limited (x ∷ xs) now (pos w) (negsuc n) = tt
plan_ordered-allowance backfill_limited (x ∷ xs) now (negsuc w) limit = tt

-- A restart creates no Run under SKIP, at most one under RUN_ONCE and at most the limit under
-- BACKFILL_LIMITED, however many were missed.
pub plan_missed_runs-allowance :
    (policy : MissedRunPolicy) (missed : List MissedOccurrence) (now : ℕ) (window limit : ℤ)
    {p : MissedRunPlan}
    → plan_missed_runs policy missed now window limit ≡ ok p
    → length p.to_create ≤ allowance policy limit
unfolding plan_missed_runs
plan_missed_runs-allowance policy missed now window limit h =
    subst (Allowed (allowance policy limit)) h
      (plan_ordered-allowance policy (sorted instant missed) now window limit)

All-map :
    (P Q : MissedOccurrence → Type 0) (xs : List MissedOccurrence)
    → ((m : MissedOccurrence) → P m → Q m)
    → All P xs
    → All Q xs
All-map P Q [] f h = tt
All-map P Q (x ∷ xs) f h = (f x h.0, All-map P Q xs f h.1)

backfill_window :
    (xs : List MissedOccurrence) (now window limit : ℕ)
    → All (λ m. now ≤ m.scheduled_for + window * 1000000) (backfill xs now window limit).to_create
unfolding backfill
backfill_window xs now window limit =
    All-map (λ m. leb (now - window * 1000000) m.scheduled_for ≡ true)
      (λ m. now ≤ m.scheduled_for + window * 1000000) _
      (λ m h. inside (window * 1000000) m.scheduled_for (leb→le _ _ h))
      (All-take _ limit _ (All-keep _ xs))
  where
    inside : (w at : ℕ) → now - w ≤ at → now ≤ at + w
    inside w at h = omega (arith, h)

nil_window :
    (now window limit : ℕ)
    → backfill [] now window limit ≡ record { to_create = []; skipped = []; warning = none }
unfolding backfill
nil_window now window zero = refl
nil_window now window (suc n) = refl

plan_ordered_window :
    (xs : List MissedOccurrence) (now window limit : ℕ)
    → window * 1000000 ≤ now
    → plan_ordered backfill_limited xs now (pos window) (pos limit)
      ≡ ok (backfill xs now window limit)
unfolding plan_ordered
plan_ordered_window [] now window limit h = ap ok (sym (nil_window now window limit))
plan_ordered_window (x ∷ xs) now window limit h = rw (not_over (window * 1000000) h) refl
  where
    not_over : (w : ℕ) → w ≤ now → ltb now w ≡ false
    not_over w h = ground arith

-- BACKFILL_LIMITED with a window that starts in the year 1 or later, and a limit that is not negative, gives a
-- plan, and creates only Runs whose instant is not before the start of the window.
pub plan_missed_runs_window :
    (missed : List MissedOccurrence) (now window limit : ℕ)
    → window * 1000000 ≤ now
    → (p : MissedRunPlan) × (plan_missed_runs backfill_limited missed now (pos window) (pos limit)
        ≡ ok p)
      × All (λ m. now ≤ m.scheduled_for + window * 1000000) p.to_create
unfolding plan_missed_runs
plan_missed_runs_window missed now window limit h = (
  backfill (sorted instant missed) now window limit,
  plan_ordered_window (sorted instant missed) now window limit h,
  backfill_window (sorted instant missed) now window limit,
)
