-- ===== src/Approvals/Decide/Deciders.antt =====
-- server/approvals/service.py: the accounts that have decided, and one more.
use agent_colab.Prelude.{
  str_eq, str_eq_iff, str_differ, Bool-cases, length, All, contains, ◌+◌, String, ◌≡◌, refl, sym,
  ap, ◌∙◌, ◌≢◌, inl, inr, Bool, true, false, ◌||◌, List, [], ◌∷◌, ◌++◌, map, arith,
}
use agent_colab.Approvals.Decide.{approve, DecisionRow, decided, unique, deciders_of, row}

contains-append :
    (s : String) (xs ys : List String) → contains s (xs ++ ys) ≡ (contains s xs || contains s ys)
contains-append s [] ys = refl
contains-append s (x ∷ xs) ys = ground (arith, contains-append s xs ys)

contains-unique : (s : String) (xs : List String) → contains s (unique xs) ≡ contains s xs
unfolding unique
contains-unique s [] = refl
contains-unique s (x ∷ xs) = elim (Bool-cases (contains x xs)) [
  | inr e ↦ rw (e, contains-unique s xs) refl
  | inl e ↦ elim (Bool-cases (str_eq s x)) [
    | inr f ↦ rw (e, f, contains-unique s xs) refl
    | inl f ↦ let same : s ≡ x = (str_eq_iff s x).0 f in rw (e, f, contains-unique s xs) (rw same e)
  ]
]

-- One text more, where it is new.
unique-snoc :
    (xs : List String) (s : String)
    → contains s xs ≡ false
    → length (unique (xs ++ s ∷ [])) ≡ length (unique xs) + 1
unfolding unique
unique-snoc [] s h = omega arith
unique-snoc (x ∷ xs) s h =
    let (a, b) = either_false (str_eq s x) (contains s xs) h in
    let same : contains x (xs ++ s ∷ []) ≡ contains x xs =
      contains-append x xs (s ∷ [])
      ∙ no_more (contains x xs) (str_eq x s) (str_differ x s (differs a)) in
    elim (Bool-cases (contains x xs)) [
      | inl e ↦ rw (same, e) (unique-snoc xs s b)
      | inr e ↦ rw (same, e) (omega (arith, unique-snoc xs s b))
    ]
  where
    no_more : (c d : Bool) → d ≡ false → (c || (d || false)) ≡ c
    no_more c d e = ground arith

    either_false : (c d : Bool) → (c || d) ≡ false → (c ≡ false) × (d ≡ false)
    either_false c d e = ground arith

    differs : str_eq s x ≡ false → x ≢ s
    differs e q = let own : str_eq s x ≡ true = (str_eq_iff s x).1 (sym q) in cc

abbrev pub IsApproval : DecisionRow → Type 0
IsApproval row = row.decision ≡ approve

map-snoc :
    (rows : List DecisionRow) (row : DecisionRow)
    → map decided (rows ++ row ∷ []) ≡ map decided rows ++ row.decided_by ∷ []
unfolding decided
map-snoc [] row = refl
map-snoc (first ∷ rows) row = ap (λ ids. first.decided_by ∷ ids) (map-snoc rows row)

pub deciders_of-snoc :
    (rows : List DecisionRow) (row : DecisionRow)
    → contains row.decided_by (deciders_of rows) ≡ false
    → length (deciders_of (rows ++ row ∷ [])) ≡ length (deciders_of rows) + 1
unfolding deciders_of decided
deciders_of-snoc rows row h = rw (map-snoc rows row) (
    unique-snoc (map decided rows) row.decided_by
      (sym (contains-unique row.decided_by (map decided rows)) ∙ h))

pub All-snoc :
    (rows : List DecisionRow) (row : DecisionRow)
    → All IsApproval rows
    → IsApproval row
    → All IsApproval (rows ++ row ∷ [])
All-snoc [] row h k = (k, tt)
All-snoc (first ∷ rows) row h k = (h.0, All-snoc rows row h.1 k)
