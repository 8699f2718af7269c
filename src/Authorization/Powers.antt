-- ===== src/Authorization/Powers.antt =====
-- Whose capabilities are which: exactly those of the roles, and none for a refused account.
use veyport.Base.{
  ◌≡◌, ◌∙◌, refl, sym, Bool, true, false, ◌&&◌, ◌||◌, Option, none, some, List, [], ◌∷◌, arith, inr,
  any, select,
}
use veyport.Base.Text.{Text}
use veyport.Base.Time.{Instant}
use veyport.Lockout.Policy.{Policy}
use veyport.Account.{evaluate, refusal}
use veyport.Authorization.Directory.{
  SecurityRole, security_approver, same_role, CapabilityName, same_capability, Person, Directory,
  grants, has_capability, Effective, effective, effective_user, effective_roles, can,
  all_capabilities, admin, auditor, viewer, security_officer, original_reader, nodes_read,
  operations_admin, audit_read, terminal_execute, security_bootstrap, security_read,
  security_request, security_approve, security_apply, security_test, audit_original_read,
}

-- Every capability is listed.
listed :
    (p : CapabilityName → Bool) (c : CapabilityName)
    → any (λ d. same_capability d c) (select p all_capabilities) ≡ p c
unfolding any select same_capability
listed p nodes_read = ground arith
listed p operations_admin = ground arith
listed p audit_read = ground arith
listed p terminal_execute = ground arith
listed p security_bootstrap = ground arith
listed p security_read = ground arith
listed p security_request = ground arith
listed p security_approve = ground arith
listed p security_apply = ground arith
listed p security_test = ground arith
listed p audit_original_read = ground arith

-- Whether one of the roles is this one.
abbrev pub holds : SecurityRole → List SecurityRole → Bool
holds r rs = any (same_role r) rs

-- The capabilities of a user with these roles, one by one.
pub record Exact (e : Effective) (ldap_terminal : Bool) : Type 0 where
  pub nodes : can e nodes_read ≡ true
  pub operations : can e operations_admin ≡ holds admin e.roles
  pub bootstrap : can e security_bootstrap ≡ holds admin e.roles
  pub audit :
      can e audit_read
      ≡ (holds admin e.roles || (holds auditor e.roles || holds original_reader e.roles))
  pub terminal : can e terminal_execute ≡ (holds admin e.roles || ldap_terminal)
  pub request : can e security_request ≡ holds security_officer e.roles
  pub read :
      can e security_read ≡ (holds security_officer e.roles || holds security_approver e.roles)
  pub approve : can e security_approve ≡ holds security_approver e.roles
  pub apply : can e security_apply ≡ holds security_officer e.roles
  pub test : can e security_test ≡ holds security_officer e.roles
  pub originals : can e audit_original_read ≡ holds original_reader e.roles

-- A user who has capabilities at all.
pub record Powers (dir : Directory) (now : Instant) (id : Text) (e : Effective) : Type 0 where
  pub user : Person
  pub policy : Policy
  pub known : dir.user id ≡ some user
  pub installed : dir.policy ≡ some policy
  pub admitted : (refusal (evaluate user.account now policy)).1 ≡ false
  pub own_roles : dir.roles id ≡ some e.roles
  pub own_person : dir.person id ≡ some e.person_id
  pub exact : Exact e (user.ldap && user.terminal_access)

-- The roles that grant a capability.
abbrev granting : CapabilityName → List SecurityRole → Bool
granting nodes_read rs = false
granting operations_admin rs = holds admin rs
granting security_bootstrap rs = holds admin rs
granting audit_read rs = holds admin rs || (holds auditor rs || holds original_reader rs)
granting terminal_execute rs = false
granting security_request rs = holds security_officer rs
granting security_read rs = holds security_officer rs || holds security_approver rs
granting security_approve rs = holds security_approver rs
granting security_apply rs = holds security_officer rs
granting security_test rs = holds security_officer rs
granting audit_original_read rs = holds original_reader rs

grants-holds : (c : CapabilityName) (r : SecurityRole) → grants r c ≡ granting c (r ∷ [])
unfolding grants same_role same_capability any
grants-holds c admin = ground arith
grants-holds c auditor = ground arith
grants-holds c viewer = ground arith
grants-holds c security_officer = ground arith
grants-holds c security_approver = ground arith
grants-holds c original_reader = ground arith

granted-granting :
    (c : CapabilityName) (rs : List SecurityRole) → any (λ r. grants r c) rs ≡ granting c rs
unfolding any
granted-granting c [] = ground arith
granted-granting c (r ∷ rs) = ground (arith, grants-holds c r, granted-granting c rs)

has-granting :
    (rs : List SecurityRole) (ldap_terminal : Bool) (c : CapabilityName)
    → has_capability rs ldap_terminal c ≡ (
        same_capability c nodes_read
        || (granting c rs
            || (same_capability c terminal_execute && (holds admin rs || ldap_terminal))))
unfolding has_capability
has-granting rs t c = rw (granted-granting c rs, granted-granting operations_admin rs) refl

can-has :
    (e : Effective) (t : Bool)
    → e.capabilities ≡ select (has_capability e.roles t) all_capabilities
    → (c : CapabilityName) → can e c ≡ has_capability e.roles t c
unfolding can
can-has e t h c = rw h (listed (has_capability e.roles t) c)

listed-Exact :
    (e : Effective) (t : Bool)
    → e.capabilities ≡ select (has_capability e.roles t) all_capabilities
    → Exact e t
unfolding same_capability
listed-Exact e t h =
    let all : (c : CapabilityName) → can e c ≡ _ =
      λ c. can-has e t h c ∙ has-granting e.roles t c in
    record {
      nodes = all nodes_read;
      operations = all operations_admin ∙ ground arith;
      bootstrap = all security_bootstrap ∙ ground arith;
      audit = all audit_read ∙ ground arith;
      terminal = all terminal_execute ∙ ground arith;
      request = all security_request ∙ ground arith;
      read = all security_read ∙ ground arith;
      approve = all security_approve ∙ ground arith;
      apply = all security_apply ∙ ground arith;
      test = all security_test ∙ ground arith;
      originals = all audit_original_read ∙ ground arith;
    }

abbrev built_effective : Person → List SecurityRole → Text → Effective
built_effective u roles person = record {
  person_id = person;
  roles = roles;
  capabilities = select (has_capability roles (u.ldap && u.terminal_access)) all_capabilities;
}

roles-Powers :
    (u : Person) (roles : Option (List SecurityRole)) (person : Option Text) (e : Effective)
    → effective_roles u roles person ≡ inr e
    → ((roles ≡ some e.roles) × (person ≡ some e.person_id))
      × (e.capabilities
          ≡ select (has_capability e.roles (u.ldap && u.terminal_access)) all_capabilities)
roles-Powers u none person e h = ground arith
roles-Powers u (some roles) none e h = ground arith
roles-Powers u (some roles) (some person) e h =
    let built = built_effective u roles person in
    let same : built ≡ e = ground (arith, h) in rw (sym same) ((refl, refl), refl)

effective-facts :
    (dir : Directory) (now : Instant) (id : Text) (u : Option Person) (p : Option Policy)
    (e : Effective)
    → effective_user dir id now u p ≡ inr e
    → (w : Person) × ((q : Policy) × (((u ≡ some w) × (p ≡ some q))
          × (((refusal (evaluate w.account now q)).1 ≡ false)
              × (effective_roles w (dir.roles id) (dir.person id) ≡ inr e))))
effective-facts dir now id none p e h = ground arith
effective-facts dir now id (some u) none e h = ground arith
effective-facts dir now id (some u) (some p) e h =
    (u, (p, ((refl, refl), (ground arith, ground arith))))

-- When Effective answers, the user is known, not disabled and not dormant under the policy that is
-- installed, the roles and the person are those of the user, and the user can do exactly this: read
-- nodes; as an administrator operate, bootstrap security and open terminals, which LDAP users with
-- terminal access can as well; read the audit as administrator, auditor or reader of originals;
-- request, apply and test changes as security officer; approve them as security approver, and read
-- them as either; and read originals as their reader.
pub effective-Powers :
    (dir : Directory) (now : Instant) (id : Text) (e : Effective)
    → effective dir now id ≡ inr e
    → Powers dir now id e
unfolding effective can
effective-Powers dir now id e h =
    let (w, (q, ((known, installed), (admitted, built)))) =
      effective-facts dir now id (dir.user id) dir.policy e h in
    let ((own_roles, own_person), caps) = roles-Powers w (dir.roles id) (dir.person id) e built in
    record {
      user = w;
      policy = q;
      known = known;
      installed = installed;
      admitted = admitted;
      own_roles = own_roles;
      own_person = own_person;
      exact = listed-Exact e (w.ldap && w.terminal_access) caps;
    }

-- Whoever can approve a change holds the role of a security approver; no other role, administration
-- included, is enough.
pub effective-approver :
    (dir : Directory) (now : Instant) (id : Text) (e : Effective)
    → effective dir now id ≡ inr e
    → can e security_approve ≡ any (same_role security_approver) e.roles
effective-approver dir now id e h = (effective-Powers dir now id e h).exact.approve
