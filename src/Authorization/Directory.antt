-- ===== src/Authorization/Directory.antt =====
-- Roles, capabilities and what the store knows of a user.
use veyport.Base.{
  Bool, true, false, ◌&&◌, ◌||◌, Option, none, some, List, [], ◌∷◌, ◌⊎◌, inl, inr, if◌then◌else◌,
  any, select,
}
use veyport.Base.Int.{ℤ}
use veyport.Base.Text.{Text}
use veyport.Base.Time.{Instant}
use veyport.Lockout.Policy.{Policy}
use veyport.Account.{Input, evaluate, refusal}

-- model.Role, with the security roles.
pub data SecurityRole : Type 0 where
  admin auditor viewer security_officer security_approver original_reader : SecurityRole

unfoldable pub same_role : SecurityRole → SecurityRole → Bool
same_role admin admin = true
same_role auditor auditor = true
same_role viewer viewer = true
same_role security_officer security_officer = true
same_role security_approver security_approver = true
same_role original_reader original_reader = true
same_role _ _ = false

unfoldable pub is_security_role : SecurityRole → Bool
is_security_role security_officer = true
is_security_role security_approver = true
is_security_role original_reader = true
is_security_role admin = false
is_security_role auditor = false
is_security_role viewer = false

-- The capabilities, in the order in which Effective lists them.
pub data CapabilityName : Type 0 where
  nodes_read operations_admin audit_read terminal_execute : CapabilityName
  security_bootstrap security_read security_request security_approve : CapabilityName
  security_apply security_test audit_original_read : CapabilityName

unfoldable pub same_capability : CapabilityName → CapabilityName → Bool
same_capability nodes_read nodes_read = true
same_capability operations_admin operations_admin = true
same_capability audit_read audit_read = true
same_capability terminal_execute terminal_execute = true
same_capability security_bootstrap security_bootstrap = true
same_capability security_read security_read = true
same_capability security_request security_request = true
same_capability security_approve security_approve = true
same_capability security_apply security_apply = true
same_capability security_test security_test = true
same_capability audit_original_read audit_original_read = true
same_capability _ _ = false

abbrev pub all_capabilities : List CapabilityName
all_capabilities =
    nodes_read ∷ operations_admin ∷ audit_read ∷ terminal_execute ∷ security_bootstrap
    ∷ security_read ∷ security_request ∷ security_approve ∷ security_apply ∷ security_test
    ∷ audit_original_read ∷ []

-- The columns of a user that are read here.
pub record Person : Type 0 where
  pub account : Input
  pub ldap : Bool
  pub terminal_access : Bool
  pub totp_enabled : Bool
  pub totp_secret : Bool
  pub must_change_password : Bool
  pub security_revision : ℤ

-- GetUserByID, AccountPolicy, UserRoles and PersonForUser; none is their error.
pub record Directory : Type 0 where
  pub user : Text → Option Person
  pub policy : Option Policy
  pub roles : Text → Option (List SecurityRole)
  pub person : Text → Option Text

-- What the switch over a role puts into the map of capabilities.
unfoldable pub grants : SecurityRole → CapabilityName → Bool
grants admin c =
    same_capability c operations_admin
    || (same_capability c audit_read || same_capability c security_bootstrap)
grants auditor c = same_capability c audit_read
grants security_officer c =
    same_capability c security_request
    || (same_capability c security_read
        || (same_capability c security_apply || same_capability c security_test))
grants security_approver c = same_capability c security_approve || same_capability c security_read
grants original_reader c = same_capability c audit_original_read || same_capability c audit_read
grants viewer c = false

unfoldable pub has_capability : List SecurityRole → Bool → CapabilityName → Bool
has_capability roles ldap_terminal c =
    same_capability c nodes_read
    || (any (λ r. grants r c) roles
        || (same_capability c terminal_execute
            && (any (λ r. grants r operations_admin) roles || ldap_terminal)))

pub record Effective : Type 0 where
  pub person_id : Text
  pub roles : List SecurityRole
  pub capabilities : List CapabilityName

pub data Error : Type 0 where
  denied independent interactive recovery transition not_ready : Error
  store_failed conflict protected_change incomplete_nominee invalid_roles : Error
  one_change_required policy_required unexpected_nominations invalid_change : Error
  limits_exceeded invalid_scope unknown_profile : Error

abbrev pub effective_roles : Person → Option (List SecurityRole) → Option Text → Error ⊎ Effective
effective_roles u none person = inl store_failed
effective_roles u (some roles) none = inl store_failed
effective_roles u (some roles) (some person) = inr (record {
  person_id = person;
  roles = roles;
  capabilities = select (has_capability roles (u.ldap && u.terminal_access)) all_capabilities;
})

abbrev pub effective_user :
    Directory → Text → Instant → Option Person → Option Policy → Error ⊎ Effective
effective_user dir id now none policy = inl denied
effective_user dir id now (some u) none = inl denied
effective_user dir id now (some u) (some p) =
    if (refusal (evaluate u.account now p)).1
    then inl denied
    else effective_roles u (dir.roles id) (dir.person id)

unfoldable pub effective : Directory → Instant → Text → Error ⊎ Effective
effective dir now id = effective_user dir id now (dir.user id) dir.policy

-- EffectiveCapabilities.Can
unfoldable pub can : Effective → CapabilityName → Bool
can e c = any (λ d. same_capability d c) e.capabilities
