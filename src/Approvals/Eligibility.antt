-- ===== src/Approvals/Eligibility.antt =====
-- server/approvals/eligibility.py: who may decide an approval.
-- The audit rows of the denials are appended in transactions of their own and are not modelled.
use agent_colab.Prelude.{
  leb, if◌then◌else◌, str_eq, any, contains, Result, ok, err, guard, ◌>>=◌, ◌>>◌, ℕ, String, Bool,
  false, not, ◌&&◌, ◌||◌, Option, none, some, List,
}
use agent_colab.Approvals.Model.{Grant}
use agent_colab.Verification.Independence.{AliasGraph, effective_principal}

pub record Principal : Type 0 where
  pub account_id : String
  pub account_uuid : String
  pub account_type : String
  pub status : String

pub record Role : Type 0 where
  pub role_id : String
  pub max_risk : String

pub record Authorization : Type 0 where
  pub allowed : Bool
  pub code : String
  pub matched_roles : List String

-- What the check asks of the policy: the accounts, the alias graph of a workspace, the authorization of `approval.decide` in the channel of a grant, the effective
-- roles, and the rule of the catalog.
pub record Policy : Type 0 where
  pub principal : String → Option Principal
  pub alias_graph : String → AliasGraph
  pub authorize : String → Grant → Authorization
  pub effective_roles : Principal → ℕ → List Role
  pub human_only : String → Bool

-- `RISK_ORDER.index`, on the names of the order.
unfoldable pub risk_index : String → ℕ
risk_index risk =
    if str_eq risk "LOW"
    then 0
    else if str_eq risk "MEDIUM"
    then 1
    else if str_eq risk "HIGH"
    then 2
    else 3

-- The codes of the authorizer that have one of their own here.
unfoldable pub mapped : String → String
mapped code =
    if str_eq code "CHANNEL_NOT_MEMBER"
    then "APPROVER_NOT_CHANNEL_MEMBER"
    else if str_eq code "ROLE_MAX_RISK_EXCEEDED"
    then "APPROVER_ROLE_RISK_TOO_LOW"
    else "APPROVER_NOT_ELIGIBLE"

-- `_same_principal`
unfoldable pub same_principal : AliasGraph → String → Option String → Bool
same_principal graph a none = false
same_principal graph a (some b) = str_eq (effective_principal graph a) (effective_principal graph b)

module _ (policy : Policy) where
  unfoldable pub active : Option Principal → Result String Principal
  active none = err "APPROVER_NOT_ELIGIBLE"
  active (some approver) =
      if str_eq approver.status "ACTIVE" then ok approver else err "APPROVER_NOT_ELIGIBLE"

  -- `covering`
  unfoldable pub covers : Authorization → Grant → Role → Bool
  unfolding risk_index
  covers authorization grant role =
      contains role.role_id authorization.matched_roles
      && leb (risk_index grant.risk) (risk_index role.max_risk)

  -- `human_only`
  unfoldable pub needs_human : Grant → Bool
  needs_human grant = policy.human_only grant.risk || grant.requires_human_approval

  unfoldable pub check_authorization : Principal → String → Grant → ℕ → Result String (Unit {0})
  unfolding covers mapped
  check_authorization approver approver_account_id grant now =
      let authorization = policy.authorize approver_account_id grant in
      if not authorization.allowed
      then err (mapped authorization.code)
      else guard (any (covers authorization grant) (policy.effective_roles approver now))
          "APPROVER_ROLE_RISK_TOO_LOW"

  -- The checks on the approver that was found, in their order.
  unfoldable pub check_approver :
      Principal → String → Grant → List String → Bool → ℕ → Result String (Unit {0})
  unfolding same_principal needs_human check_authorization risk_index
  check_approver approver approver_account_id grant prior_deciders reauth_verified now = do
    guard
        (not (
          same_principal (policy.alias_graph grant.workspace_uuid) approver.account_uuid
            (some grant.requested_by)
          || same_principal (policy.alias_graph grant.workspace_uuid) approver.account_uuid
              grant.implementing_agent_account))
        "SELF_APPROVAL_FORBIDDEN"
    guard (not (contains approver.account_uuid prior_deciders)) "APPROVER_DUPLICATE"
    guard (not (needs_human grant && not (str_eq approver.account_type "human")))
        "HUMAN_APPROVER_REQUIRED"
    check_authorization approver approver_account_id grant now
    guard (not (leb 2 (risk_index grant.risk) && not reauth_verified)) "REAUTH_REQUIRED"

  -- `check_eligibility`: the approver, or the code of the denial.
  unfoldable pub check_eligibility :
      String → Grant → List String → Bool → ℕ → Result String Principal
  unfolding active check_approver
  check_eligibility approver_account_id grant prior_deciders reauth_verified now = do
    approver ← active (policy.principal approver_account_id)
    check_approver approver approver_account_id grant prior_deciders reauth_verified now
    ok approver
