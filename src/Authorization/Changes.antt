-- ===== src/Authorization/Changes.antt =====
-- Typed security changes: what a payload, a policy and a list of nominations must be.
use veyport.Base.{
  ℕ, ◌+◌, ◌==◌, Bool, true, false, ◌&&◌, ◌||◌, not, Option, none, some, List, [], ◌∷◌,
  if◌then◌else◌, any, length, ltb, leb,
}
use veyport.Base.Int.{pos, ltb_ℤ}
use veyport.Base.Text.{Text, codes, trim_space, byte_length}
use veyport.Relay.Keys.{eq_text}
use veyport.Terminal.Ending.{has_prefix}
use veyport.Authorization.Directory.{
  SecurityRole, is_security_role, Error, independent, not_ready, one_change_required,
  policy_required, unexpected_nominations, invalid_change, limits_exceeded, invalid_scope,
  unknown_profile,
}
use veyport.Authorization.Coverage.{AuditPolicy, Profile, unknown, is_enhanced, mem}

abbrev in_range : ℕ → ℕ → ℕ → Bool
in_range lo hi c = leb lo c && leb c hi

abbrev key_char : ℕ → Bool
key_char c =
    in_range 97 122 c
    || (in_range 65 90 c || (in_range 48 57 c || (c == 45 || (c == 95 || (c == 58 || c == 46)))))

unfoldable pub valid_key : Text → Bool
valid_key id =
    (leb 1 (byte_length id) && leb (byte_length id) 128) && not (any (λ c. not (key_char c)) id)

-- The loop over a list of scopes or keys, with the ids that it has seen.
unfoldable pub valid_list : List Text → List Text → Bool
valid_list seen [] = true
valid_list seen (id ∷ ids) =
    let rest = valid_list (id ∷ seen) ids in (valid_key id && not (mem id seen)) && rest

abbrev known_profile : Profile → Bool
known_profile unknown = false
known_profile _ = true

unfoldable pub validate_policy : AuditPolicy → Option Error
validate_policy p =
    if not (known_profile p.profile)
    then some unknown_profile
    else if (ltb_ℤ p.runtime_seconds (pos 1) || ltb_ℤ (pos 3600) p.runtime_seconds)
        || ((ltb_ℤ p.retention_hours (pos 24) || ltb_ℤ (pos 87600) p.retention_hours)
            || (ltb 1000 (length p.actors)
                || (ltb 1000 (length p.nodes) || ltb 16 (length p.trust_key_ids))))
    then some limits_exceeded
    else if not (valid_list [] p.actors && (valid_list [] p.nodes && valid_list [] p.trust_key_ids))
    then some invalid_scope
    else if is_enhanced p.profile
        && ((eq_text p.destination [] || eq_text p.credential_ref [])
            || (length p.trust_key_ids == 0 || not (byte_length p.qualification_sha256 == 64)))
    then some not_ready
    else none

pub record Nomination : Type 0 where
  pub user_id : Text
  pub person_id : Text
  pub roles : List SecurityRole
  pub verification : Text

pub record RoleChange : Type 0 where
  pub user_id : Text
  pub role : SecurityRole
  pub grant : Bool

pub record PersonChange : Type 0 where
  pub user_id : Text
  pub person_id : Text
  pub verification : Text

pub data RecoveryOperation : Type 0 where
  reenable mfa_reset password_reset unsupported : RecoveryOperation

pub record Recovery : Type 0 where
  pub user_id : Text
  pub operation : RecoveryOperation
  pub secret_ref : Text

pub record LdapSettings : Type 0 where
  pub enabled : Bool
  pub url : Text
  pub ca_cert_pem : Text
  pub start_tls : Bool
  pub clear_bind_password : Bool
  pub bind_credential_ref : Text

pub data ChangeKind : Type 0 where
  bootstrap policy_change role_change person_change audit_settings_change ldap_change : ChangeKind
  recovery_change unsupported_change : ChangeKind

-- SecurityChangePayload; of the audit settings only the answer of ValidateAuditSettings is read.
pub record Payload : Type 0 where
  pub kind : ChangeKind
  pub policy : Option AuditPolicy
  pub nominations : List Nomination
  pub role : Option RoleChange
  pub person : Option PersonChange
  pub audit_settings : Option (Option Error)
  pub ldap : Option LdapSettings
  pub recovery : Option Recovery

abbrev one {ℓ} : {A : Type ℓ} → Option A → ℕ
one none = 0
one (some a) = 1

unfoldable pub fields : Payload → ℕ
fields p =
    one p.policy + one p.role + one p.person + one p.recovery + one p.audit_settings + one p.ldap

abbrev pub verified : Text → Bool
verified text = not (eq_text (trim_space text) []) && leb (byte_length text) 2048

abbrev no_nominations : Payload → Option Error
no_nominations p = if ltb 0 (length p.nominations) then some unexpected_nominations else none

abbrev valid_role : Option RoleChange → Bool
valid_role none = false
valid_role (some r) = not (eq_text r.user_id []) && is_security_role r.role

abbrev valid_person : Option PersonChange → Bool
valid_person none = false
valid_person (some r) =
    not (eq_text r.user_id []) && (valid_key r.person_id && verified r.verification)

abbrev valid_ldap : Option LdapSettings → Bool
valid_ldap none = false
valid_ldap (some l) =
    (leb (byte_length l.url) 4096 && leb (byte_length l.ca_cert_pem) 32768)
    && ((not l.enabled || (has_prefix (codes "ldaps://") l.url || l.start_tls))
        && (not l.clear_bind_password || eq_text l.bind_credential_ref []))

abbrev supported_operation : RecoveryOperation → Text → Bool
supported_operation reenable secret = true
supported_operation mfa_reset secret = true
supported_operation password_reset secret = not (eq_text secret [])
supported_operation unsupported secret = false

abbrev valid_recovery : Option Recovery → Bool
valid_recovery none = false
valid_recovery (some r) = not (eq_text r.user_id []) && supported_operation r.operation r.secret_ref

abbrev validate_policy_change : Bool → Payload → Option AuditPolicy → Option Error
validate_policy_change boot p none = some policy_required
validate_policy_change true p (some policy) =
    if ltb (length p.nominations) 3
      || (ltb 32 (length p.nominations) || not (is_enhanced policy.profile))
    then some independent
    else validate_policy policy
validate_policy_change false p (some policy) =
    if ltb 0 (length p.nominations) then some unexpected_nominations else validate_policy policy

abbrev refuse_unless : Bool → Payload → Option Error
refuse_unless ok p = if ok then no_nominations p else some invalid_change

abbrev validate_settings : Option (Option Error) → Option Error
validate_settings none = some invalid_change
validate_settings (some answer) = answer

unfoldable pub validate_kind : ChangeKind → Payload → Option Error
validate_kind bootstrap p = validate_policy_change true p p.policy
validate_kind policy_change p = validate_policy_change false p p.policy
validate_kind role_change p = refuse_unless (valid_role p.role) p
validate_kind person_change p = refuse_unless (valid_person p.person) p
validate_kind audit_settings_change p = validate_settings p.audit_settings
validate_kind ldap_change p = refuse_unless (valid_ldap p.ldap) p
validate_kind recovery_change p = refuse_unless (valid_recovery p.recovery) p
validate_kind unsupported_change p = some invalid_change

unfoldable pub validate_payload : Payload → Option Error
validate_payload p =
    if not (fields p == 1) then some one_change_required else validate_kind p.kind p
