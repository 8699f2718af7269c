-- ===== src/Authorization/Examples.antt =====
-- The theorems on authorization, at three people of whom one requests and two approve.
use veyport.Base.{
  ◌≡◌, ◌≢◌, inr, refl, true, false, ◌&&◌, ◌||◌, Option, none, some, List, [], ◌∷◌, any, is_some,
  select, if◌then◌else◌,
}
use veyport.Base.Int.{pos}
use veyport.Base.Text.{Text}
use veyport.Base.Time.{after}
use veyport.Relay.Keys.{eq_text}
use veyport.Lockout.Policy
use veyport.Lockout.State.{is_locked}
use veyport.Account.{evaluate, refusal, is_dormant}
use veyport.Authorization.Directory as D
use veyport.Authorization.Directory.{
  SecurityRole, security_officer, security_approver, same_role, Person, Directory, Effective,
  effective, can, CapabilityName, security_approve, has_capability, grants, same_capability,
  is_security_role,
}
use veyport.Authorization.Coverage as V
use veyport.Authorization.Coverage.{
  AuditPolicy, PolicyVersion, PolicyState, ExecutionPolicy, covers, covered_by, guard_interactive,
  policy_for_execution, execution_policy, guard_interactive-covered, policy_for_execution-within,
  within, mem,
}
use veyport.Authorization.Changes as C
use veyport.Authorization.Changes.{Nomination, Payload, validate_policy, valid_key, valid_list}
use veyport.Authorization.Quorum.{
  Approval, Change, authority_for_change, approve, validate_quorum, count_approvals,
}
use veyport.Authorization.Independence.{
  Quorate, validate_quorum-Quorate, approve-independent, persons,
}
use veyport.Authorization.Powers.{Powers, effective-Powers}

abbrev officer : Text
officer = 97 ∷ []

abbrev first : Text
first = 98 ∷ []

abbrev second : Text
second = 99 ∷ []

abbrev someone : Person
someone = record {
  account = record {
    disabled_at = none;
    locked_until = none;
    last_activity_at = none;
    reactivated_at = none;
    created_at = pos 0;
    dormancy_exempt = true;
  };
  ldap = false;
  terminal_access = false;
  totp_enabled = true;
  totp_secret = true;
  must_change_password = false;
  security_revision = pos 1;
}

abbrev roles_of : Text → List SecurityRole
roles_of id = if eq_text id (97 ∷ []) then security_officer ∷ [] else security_approver ∷ []

abbrev directory : Directory
directory = record {
  user = λ id. some someone;
  policy = some Policy.defaults;
  roles = λ id. some (roles_of id);
  person = λ id. some id;
}

abbrev payload : Payload
payload = record {
  kind = C.role_change;
  policy = none;
  nominations = [];
  role = some (record { user_id = first; role = security_approver; grant = true });
  person = none;
  audit_settings = none;
  ldap = none;
  recovery = none;
}

abbrev vote : Text → Approval
vote id = record { user_id = id; person_id = id; token_generation = pos 1; invalidated = false }

abbrev change : List Approval → Change
change approvals = record {
  requester_id = officer;
  requester_person_id = officer;
  requester_generation = pos 1;
  payload = some payload;
  intact = true;
  expires_at = pos 10;
  approvals = approvals;
}

validate_quorum-Quorate_example : Quorate directory (pos 5) (change (vote first ∷ vote second ∷ []))
unfolding validate_quorum count_approvals authority_for_change effective can has_capability grants
    same_capability eq_text evaluate refusal is_dormant is_locked any select
validate_quorum-Quorate_example =
    validate_quorum-Quorate directory (pos 5) (change (vote first ∷ vote second ∷ [])) refl

approve-independent_example :
    (e : Effective) × ((authority_for_change directory
          (pos 5)
          (change (vote first ∷ []))
          second
          security_approve
        ≡ inr e)
      × (((second ≢ officer) × ((vote second).person_id ≢ officer))
          × ((mem second (persons (vote first ∷ [])) ≡ false)
              × (((second ≡ second) × (second ≡ e.person_id))
                  × ((after (pos 5) (pos 10) ≡ false) × (true ≡ true))))))
unfolding approve authority_for_change effective can has_capability grants same_capability eq_text
    evaluate refusal is_dormant is_locked any select
approve-independent_example =
    approve-independent directory (pos 5) (change (vote first ∷ [])) second (vote second) refl

abbrev approver : Effective
approver = record {
  person_id = first;
  roles = security_approver ∷ [];
  capabilities = D.nodes_read ∷ D.security_read ∷ security_approve ∷ [];
}

effective-Powers_example : Powers directory (pos 5) first approver
unfolding effective can has_capability grants same_capability eq_text evaluate refusal is_dormant
    is_locked any select
effective-Powers_example = effective-Powers directory (pos 5) first approver refl

abbrev policy : AuditPolicy
policy = record {
  profile = V.standard;
  actors = first ∷ second ∷ [];
  nodes = [];
  runtime_seconds = pos 60;
  retention_hours = pos 24;
  destination = [];
  credential_ref = [];
  trust_key_ids = [];
  qualification_sha256 = [];
}

abbrev covering : AuditPolicy
covering = record policy { profile = V.enhanced; actors = [] }

abbrev version : AuditPolicy → PolicyVersion
version p = record { version = 1; policy = p; sha256 = [] }

abbrev state : Option PolicyVersion → PolicyState
state pending = record {
  active = version policy;
  pending = pending;
  recovery_required = false;
  previous = none;
}

guard_interactive-covered_example :
    is_some (guard_interactive none (some (state (some (version covering)))) true first officer)
    ≡ true
unfolding covers eq_text any
guard_interactive-covered_example =
    guard_interactive-covered none (state (some (version covering))) true first officer refl

policy_for_execution-within_example :
    let p = execution_policy (state none) first officer in
    (((p.enhanced && false) ≡ false) × (false ≡ false))
    × ((p.enhanced ≡ (
          covers policy first officer
          || (covered_by none first officer || covered_by none first officer)))
        × ((within (some (version policy)) p.runtime_seconds ≡ true)
            × (within none p.runtime_seconds ≡ true)))
unfolding policy_for_execution covers execution_policy
policy_for_execution-within_example =
    policy_for_execution-within (state none) true first officer
      (execution_policy (state none) first officer) refl

abbrev nomination : Text → SecurityRole → Nomination
nomination id role = record {
  user_id = id;
  person_id = id;
  roles = role ∷ [];
  verification = 118 ∷ [];
}

abbrev nominations : List Nomination
nominations =
    nomination officer security_officer
    ∷ nomination first security_approver
    ∷ nomination second security_approver
    ∷ []
