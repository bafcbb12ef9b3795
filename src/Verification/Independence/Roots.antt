-- ===== src/Verification/Independence/Roots.antt =====
-- server/verification/independence.py: the loop over the aliases ends.
use agent_colab.Prelude.{
  sym, str_eq, str_eq_refl, str_differ, ap, >>-eq-ok, guard-ok, not, Bool, none, str_eq_iff,
  Bool-cases, Option-cases, lookup, unseen, unseen_all, unseen_less, length, contains, ok, ℕ, zero,
  suc, ◌+◌, ◌<◌, String, ◌≡◌, refl, ◌≢◌, ◌↔◌, inl, inr, true, false, Option, some, List, [], ◌∷◌,
  arith,
}
use agent_colab.Verification.Independence.{
  AliasGraph, Identity, representative, follow, root_or, effective_principal, same_agent, is_author,
  may_submit, check_independence,
}

-- Runs with enough fuel end, at the same account.
follow_ends :
    (graph : AliasGraph) (n m : ℕ) (seen : List String) (current : String)
    → unseen graph seen < n
    → unseen graph seen < m
    → (root : String) × (follow n graph seen current ≡ some root)
      × (follow m graph seen current ≡ some root)
unfolding follow
follow_ends graph zero m seen current h k = absurd (below_zero h)
  where
    below_zero : {i : ℕ} → i < 0 → ⊥
    below_zero h = omega (arith, h)
follow_ends graph (suc n) zero seen current h k = absurd (below_zero k)
  where
    below_zero : {i : ℕ} → i < 0 → ⊥
    below_zero h = omega (arith, h)
follow_ends graph (suc n) (suc m) seen current h k = over (follow_ends graph n m (current ∷ seen))
  where
    over :
        ((target : String)
          → unseen graph (current ∷ seen) < n
          → unseen graph (current ∷ seen) < m
          → (root : String) × (follow n graph (current ∷ seen) target ≡ some root)
            × (follow m graph (current ∷ seen) target ≡ some root))
        → (root : String) × (follow (suc n) graph seen current ≡ some root)
          × (follow (suc m) graph seen current ≡ some root)
    over again = elim (Option-cases (lookup current graph)) [
      | inl e ↦ (representative seen current, rw (follow, e) refl, rw (follow, e) refl)
      | inr (target, e) ↦ elim (Bool-cases (contains current seen)) [
        | inl f ↦ (representative seen current, rw (follow, e, f) refl, rw (follow, e, f) refl)
        | inr f ↦
            let less = unseen_less graph seen current target e f in
            let (root, p, q) = again target (omega (arith, less, h)) (omega (arith, less, k)) in
            (root, rw (follow, e, f) p, rw (follow, e, f) q)
      ]
    ]

-- The loop over the aliases ends, cycles included: with more turns than the graph has edges it returns
-- what `effective_principal` returns, however many more are allowed.
pub follow-effective_principal :
    (graph : AliasGraph) (account : String) (fuel : ℕ)
    → length graph < fuel
    → follow fuel graph [] account ≡ some (effective_principal graph account)
unfolding effective_principal root_or
follow-effective_principal graph account fuel h =
    let (root, p, q) =
      follow_ends graph fuel (length graph + 1) [] account (omega (arith, unseen_all graph, h))
        (omega (arith, unseen_all graph)) in
    rw q p

-- The conditions under which a verifier is independent, in the order of the tests. An agent that is missing
-- or empty is no agent, a missing author is nobody, and permissions that are missing are not looked at.
pub record IsIndependent (implementer verifier : Identity) (graph : AliasGraph)
    (permissions : Option (List String)) (author : Option String) : Type 0 where
  pub other_account : implementer.account_id ≢ verifier.account_id
  pub other_agent :
      (agent : String)
      → implementer.agent_id ≡ some agent
      → verifier.agent_id ≡ some agent
      → agent ≡ ""
  pub other_credential : implementer.credential_fingerprint ≢ verifier.credential_fingerprint
  pub other_root :
      effective_principal graph implementer.account_id
      ≢ effective_principal graph verifier.account_id
  pub not_author : author ≢ some verifier.account_id
  pub permitted :
      (names : List String) → permissions ≡ some names → contains "verification.submit" names ≡ true

same_agent-false :
    (a b : Option String)
    → (same_agent a b ≡ false) ↔ ((agent : String) → a ≡ some agent → b ≡ some agent → agent ≡ "")
unfolding same_agent
same_agent-false none b = ((λ h agent p q. cc), (λ h. refl))
same_agent-false (some a) none = ((λ h agent p q. cc), (λ h. refl))
same_agent-false (some a) (some b) = (
  (λ h agent p q.
      let one : a ≡ agent = cc in
      let two : b ≡ agent = cc in
      elim (Bool-cases (str_eq agent "")) [
        | inl e ↦ (str_eq_iff agent "").0 e
        | inr e ↦
            let same : same_agent (some a) (some b) ≡ true =
              rw (one, two, same_agent, e, str_eq_refl agent) refl in
            cc
      ]),
  (λ h. elim (Bool-cases (str_eq a b)) [
    | inr e ↦ ground arith
    | inl e ↦
        let own : a ≡ b = (str_eq_iff a b).0 e in
        let empty : a ≡ "" = h a refl (ap some (sym own)) in rw (same_agent, empty) refl
  ]),
)

is_author-false :
    (author : Option String) (account : String)
    → (is_author author account ≡ false) ↔ (author ≢ some account)
unfolding is_author
is_author-false none account = ((λ h q. cc), (λ h. refl))
is_author-false (some a) account = (
  (λ h q.
      let own : a ≡ account = cc in
      let same : str_eq a account ≡ true = (str_eq_iff a account).1 own in cc),
  (λ h. str_differ a account (λ q. h (ap some q))),
)

may_submit-true :
    (permissions : Option (List String))
    → (may_submit permissions ≡ true) ↔ (
        (names : List String)
        → permissions ≡ some names
        → contains "verification.submit" names ≡ true)
unfolding may_submit
may_submit-true none = ((λ h names q. cc), (λ h. refl))
may_submit-true (some ps) =
    ((λ h names q. let own : ps ≡ names = cc in rw (← own) h), (λ h. h ps refl))

-- A verifier passes the check exactly when it is another account than the implementer, with another
-- credential and another alias root, the two have no agent in common, it is not the author of the commit
-- where one is given, and it may submit verifications where permissions are given.
pub check_independence-IsIndependent :
    (implementer verifier : Identity) (graph : AliasGraph) (permissions : Option (List String))
    (author : Option String)
    → (check_independence implementer verifier graph permissions author ≡ ok tt)
      ↔ IsIndependent implementer verifier graph permissions author
unfolding check_independence
check_independence-IsIndependent implementer verifier graph permissions author =
    let agents = same_agent-false implementer.agent_id verifier.agent_id in
    let authors = is_author-false author verifier.account_id in
    let submits = may_submit-true permissions in
    (
      (λ h.
          let (a, h1) = >>-eq-ok _ _ h in
          let (b, h2) = >>-eq-ok _ _ h1 in
          let (c, h3) = >>-eq-ok _ _ h2 in
          let (d, h4) = >>-eq-ok _ _ h3 in
          let (e, f) = >>-eq-ok _ _ h4 in
          record {
            other_account = differs _ _ (guard-ok _ _ a);
            other_agent = agents.0 (refuted _ (guard-ok _ _ b));
            other_credential = differs _ _ (guard-ok _ _ c);
            other_root = differs _ _ (guard-ok _ _ d);
            not_author = authors.0 (refuted _ (guard-ok _ _ e));
            permitted = submits.0 (guard-ok _ _ f);
          }),
      (λ h.
          rw
            (
              str_differ _ _ h.other_account,
              agents.1 h.other_agent,
              str_differ _ _ h.other_credential,
              str_differ _ _ h.other_root,
              authors.1 h.not_author,
              submits.1 h.permitted,
            )
            refl),
    )
  where
    refuted : (a : Bool) → not a ≡ true → a ≡ false
    refuted false h = refl
    refuted true h = cc

    differs : (s t : String) → not (str_eq s t) ≡ true → s ≢ t
    differs s t h q = let own : str_eq s t ≡ true = (str_eq_iff s t).1 q in cc
