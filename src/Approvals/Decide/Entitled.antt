-- ===== src/Approvals/Decide/Entitled.antt =====
-- server/approvals/eligibility.py: the conditions under which an approver is eligible.
use agent_colab.Prelude.{
  le→leb, if◌then◌else◌, err, guard, any, subst, ◌≢◌, ◌⊎◌, leb→le, &&-both, [], ◌∷◌, str_eq,
  str_eq_iff, Bool-cases, contains, Result, ok, ◌>>◌, >>=-eq-ok, >>-eq-ok, guard-ok, ℕ, ◌≤◌, String,
  ◌≡◌, refl, inl, inr, Bool, true, false, not, ◌&&◌, ◌||◌, Option, none, some, List,
}
use agent_colab.Approvals.Model.{Grant}
use agent_colab.Verification.Independence.{AliasGraph, effective_principal}
use agent_colab.Approvals.Eligibility.{
  Principal, Policy, Role, Authorization, covers, risk_index, same_principal, active, needs_human,
  check_authorization, check_approver, check_eligibility,
}

-- One of these roles matched in the authorization, and it covers the risk of the grant.
abbrev pub IsCovered : Authorization → Grant → List Role → Type 0
IsCovered authorization grant [] = ⊥
IsCovered authorization grant (role ∷ roles) =
    ((contains role.role_id authorization.matched_roles ≡ true)
      × (risk_index grant.risk ≤ risk_index role.max_risk))
    ⊎ IsCovered authorization grant roles

-- What is true of an eligible approver of a grant, with the earlier deciders.
pub record IsEntitled (policy : Policy) (approver_account_id : String) (grant : Grant)
    (prior : List String) (reauth_verified : Bool) (now : ℕ) (approver : Principal) : Type 0 where
  pub known : policy.principal approver_account_id ≡ some approver
  pub is_active : approver.status ≡ "ACTIVE"
  pub not_requester :
      effective_principal (policy.alias_graph grant.workspace_uuid) approver.account_uuid
      ≢ effective_principal (policy.alias_graph grant.workspace_uuid) grant.requested_by
  pub not_implementer :
      (implementer : String)
      → grant.implementing_agent_account ≡ some implementer
      → effective_principal (policy.alias_graph grant.workspace_uuid) approver.account_uuid
        ≢ effective_principal (policy.alias_graph grant.workspace_uuid) implementer
  pub not_earlier : contains approver.account_uuid prior ≡ false
  pub human :
      (policy.human_only grant.risk ≡ true) ⊎ (grant.requires_human_approval ≡ true)
      → approver.account_type ≡ "human"
  pub authorized : (policy.authorize approver_account_id grant).allowed ≡ true
  pub covered :
      IsCovered
        (policy.authorize approver_account_id grant)
        grant
        (policy.effective_roles approver now)
  pub fresh : 2 ≤ risk_index grant.risk → reauth_verified ≡ true

other_principal :
    (graph : AliasGraph) (a b : String)
    → same_principal graph a (some b) ≡ false
    → effective_principal graph a ≢ effective_principal graph b
unfolding same_principal
other_principal graph a b h q =
    let own : str_eq (effective_principal graph a) (effective_principal graph b) ≡ true =
      (str_eq_iff _ _).1 q in
    cc

other_principals :
    (graph : AliasGraph) (a : String) (o : Option String)
    → same_principal graph a o ≡ false
    → (b : String) → o ≡ some b
    → effective_principal graph a ≢ effective_principal graph b
other_principals graph a o h b e =
    other_principal graph a b (subst (λ p. same_principal graph a p ≡ false) e h)

any-IsCovered :
    (policy : Policy) (authorization : Authorization) (grant : Grant) (roles : List Role)
    → any (covers policy authorization grant) roles ≡ true
    → IsCovered authorization grant roles
unfolding covers
any-IsCovered policy authorization grant [] h = cc
any-IsCovered policy authorization grant (role ∷ roles) h =
    one (covers policy authorization grant role) refl h
      (any-IsCovered policy authorization grant roles)
  where
    one :
        (b : Bool)
        → covers policy authorization grant role ≡ b
        → (b || any (covers policy authorization grant) roles) ≡ true
        → (any (covers policy authorization grant) roles ≡ true
            → IsCovered authorization grant roles)
        → IsCovered authorization grant (role ∷ roles)
    one true e q rest = let (a, b) = &&-both _ _ e in inl (a, leb→le _ _ b)
    one false e q rest = inr (rest q)

-- `if not allowed: deny(…)`, and a guard after it.
allowed-ok :
    (allowed test : Bool) (code other : String)
    → (if not allowed then err code else guard test other) ≡ ok tt
    → (allowed ≡ true) × (test ≡ true)
allowed-ok true test code other h = (refl, guard-ok test other h)
allowed-ok false test code other h = cc

refuted : (a : Bool) → not a ≡ true → a ≡ false
refuted false h = refl
refuted true h = cc

neither : (a b : Bool) → not (a || b) ≡ true → (a ≡ false) × (b ≡ false)
neither false false h = (refl, refl)
neither true b h = cc
neither false true h = cc

-- `not (a and not b)`
implied : (a b : Bool) → not (a && not b) ≡ true → a ≡ true → b ≡ true
implied true true h e = refl
implied true false h e = cc
implied false b h e = cc

module _ (policy : Policy) (approver_account_id : String) (grant : Grant) (prior : List String)
    (reauth_verified : Bool) (now : ℕ) where
  active-ok :
      (o : Option Principal) (approver : Principal)
      → active policy o ≡ ok approver
      → (o ≡ some approver) × (approver.status ≡ "ACTIVE")
  unfolding active
  active-ok none approver = λ h. cc
  active-ok (some found) approver = elim (Bool-cases (str_eq found.status "ACTIVE")) [
    | inl e ↦
        rw (active, e)
          (λ h.
            let same : found ≡ approver = cc in
            (cc, rw (← same) ((str_eq_iff found.status "ACTIVE").0 e)))
    | inr e ↦ rw (active, e) (λ h. cc)
  ]

  allowed_lem :
      (approver : Principal)
      → check_authorization policy approver approver_account_id grant now ≡ ok tt
      → ((policy.authorize approver_account_id grant).allowed ≡ true)
        × IsCovered
            (policy.authorize approver_account_id grant)
            grant
            (policy.effective_roles approver now)
  unfolding check_authorization
  allowed_lem approver h =
      let (a, c) = allowed-ok _ _ _ _ h in
      (
        a,
        any-IsCovered policy (policy.authorize approver_account_id grant) grant
            (policy.effective_roles approver now) c,
      )

  needed :
      (policy.human_only grant.risk ≡ true) ⊎ (grant.requires_human_approval ≡ true)
      → needs_human policy grant ≡ true
  unfolding needs_human
  needed (inl h) = rw h refl
  needed (inr h) = elim (Bool-cases (policy.human_only grant.risk)) [
    | inl e ↦ rw e refl
    | inr e ↦ rw (e, h) refl
  ]

  checks_lem :
      (found : Principal)
      → policy.principal approver_account_id ≡ some found
      → found.status ≡ "ACTIVE"
      → check_approver policy found approver_account_id grant prior reauth_verified now ≡ ok tt
      → IsEntitled policy approver_account_id grant prior reauth_verified now found
  unfolding check_approver
  checks_lem found known is_active checks =
      let (self, checks1) = >>-eq-ok _ _ checks in
      let (earlier, checks2) = >>-eq-ok _ _ checks1 in
      let (humans, checks3) = >>-eq-ok _ _ checks2 in
      let (allowed, fresh) = >>-eq-ok _ _ checks3 in
      record {
        known = known;
        is_active = is_active;
        not_requester =
            other_principal (policy.alias_graph grant.workspace_uuid) found.account_uuid
              grant.requested_by (neither _ _ (guard-ok _ _ self)).0;
        not_implementer =
            other_principals (policy.alias_graph grant.workspace_uuid) found.account_uuid
              grant.implementing_agent_account (neither _ _ (guard-ok _ _ self)).1;
        not_earlier = refuted _ (guard-ok _ _ earlier);
        human = (λ needs.
            (str_eq_iff found.account_type "human").0
              (implied _ _ (guard-ok _ _ humans) (needed needs)));
        authorized = (allowed_lem found allowed).0;
        covered = (allowed_lem found allowed).1;
        fresh = (λ high. implied _ _ (guard-ok _ _ fresh) (le→leb 2 (risk_index grant.risk) high));
      }

  pub check_eligibility-IsEntitled :
      (approver : Principal)
      → check_eligibility policy approver_account_id grant prior reauth_verified now ≡ ok approver
      → IsEntitled policy approver_account_id grant prior reauth_verified now approver
  unfolding check_eligibility
  check_eligibility-IsEntitled approver h =
      let (found, a, rest) =
        >>=-eq-ok (active policy (policy.principal approver_account_id))
          (λ p. check_approver policy p approver_account_id grant prior reauth_verified now >> ok p)
          h in
      let (checks, done) =
        >>-eq-ok (check_approver policy found approver_account_id grant prior reauth_verified now)
          (ok found) rest in
      let (known, is_active) = active-ok (policy.principal approver_account_id) found a in
      ended found approver done (checks_lem found known is_active checks)
    where
      ended :
          (found approver : Principal)
          → ◌≡◌ {A = Result String Principal} (ok found) (ok approver)
          → IsEntitled policy approver_account_id grant prior reauth_verified now found
          → IsEntitled policy approver_account_id grant prior reauth_verified now approver
      ended found approver e entitled = let same : found ≡ approver = cc in rw (← same) entitled
