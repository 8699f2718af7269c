-- ===== src/Authorization/Quorum.antt =====
-- Who may approve a change: nominations, authority, approval and the quorum.
use veyport.Base.{
  ℕ, suc, Bool, true, false, ◌&&◌, ◌||◌, not, Option, none, some, List, [], ◌∷◌, ◌⊎◌, inl, inr,
  if◌then◌else◌, any, length, is_some, ltb,
}
use veyport.Base.Int.{ℤ, eqb_ℤ}
use veyport.Base.Text.{Text}
use veyport.Base.Time.{Instant, before, after}
use veyport.Relay.Keys.{eq_text}
use veyport.Authorization.Directory.{
  SecurityRole, security_officer, security_approver, same_role, is_security_role, Person, Directory,
  Error, independent, denied, conflict, store_failed, protected_change, incomplete_nominee,
  invalid_roles, invalid_change, CapabilityName, security_request, security_approve,
  security_bootstrap, same_capability, Effective, effective, can,
}
use veyport.Authorization.Coverage.{mem}
use veyport.Authorization.Changes.{Nomination, Payload, ChangeKind, bootstrap, valid_key, verified}

-- The roles of a nomination: security roles, each once.
unfoldable pub valid_roles : List SecurityRole → List SecurityRole → Bool
valid_roles seen [] = true
valid_roles seen (r ∷ rs) =
    let rest = valid_roles (r ∷ seen) rs in
    (is_security_role r && not (any (λ q. same_role q r) seen)) && rest

abbrev pub has_role : SecurityRole → List SecurityRole → Bool
has_role r rs = any (λ q. same_role q r) rs

abbrev complete : Person → Bool
complete u =
    (u.totp_enabled && u.totp_secret)
    && (not (is_some u.account.disabled_at) && not u.must_change_password)

-- "user:" + user id
abbrev own_person : Text → Text
own_person user = 117 ∷ 115 ∷ 101 ∷ 114 ∷ 58 ∷ user

abbrev check_linked : Nomination → Option Text → Option Error
check_linked n none = some store_failed
check_linked n (some linked) =
    if not (eq_text linked (own_person n.user_id)) && not (eq_text linked n.person_id)
    then some protected_change
    else if not (valid_roles [] n.roles)
    then some invalid_roles
    else none

abbrev check_person : Directory → Nomination → Option Person → Option Error
check_person dir n none = some incomplete_nominee
check_person dir n (some u) =
    if not (complete u) then some incomplete_nominee else check_linked n (dir.person n.user_id)

abbrev pub check_nomination : Directory → List Text → List Text → Nomination → Option Error
check_nomination dir people users n =
    if not (valid_key n.person_id)
      || (not (verified n.verification) || (mem n.person_id people || mem n.user_id users))
    then some independent
    else check_person dir n (dir.user n.user_id)

-- The loop of validateNominations, with the people and users that it has seen, the approvers that it
-- has counted, and whether it has met the officer.
unfoldable pub check_nominations :
    Directory → Text → List Text → List Text → ℕ → Bool → List Nomination → Option Error
check_nominations dir requester people users approvers officer [] =
    if not officer || ltb approvers 2 then some independent else none
check_nominations dir requester people users approvers officer (n ∷ ns) =
    let rest =
      check_nominations dir requester (n.person_id ∷ people) (n.user_id ∷ users)
        (if not (eq_text n.user_id requester) && has_role security_approver n.roles
          then suc approvers
          else approvers)
        (officer || (eq_text n.user_id requester && has_role security_officer n.roles)) ns in
    elim (check_nomination dir people users n) [ some e ↦ some e | none ↦ rest ]

unfoldable pub validate_nominations : Directory → List Nomination → Text → Option Error
validate_nominations dir ns requester = check_nominations dir requester [] [] 0 false ns

unfoldable pub nomination_person : List Nomination → Text → Text
nomination_person [] user = []
nomination_person (n ∷ ns) user =
    let rest = nomination_person ns user in if eq_text n.user_id user then n.person_id else rest

pub record Approval : Type 0 where
  pub user_id : Text
  pub person_id : Text
  pub token_generation : ℤ
  pub invalidated : Bool

-- SecurityChange; `payload` is what DecodeChange makes of the stored change, `intact` that the digest
-- of the approved bytes is the stored digest.
pub record Change : Type 0 where
  pub requester_id : Text
  pub requester_person_id : Text
  pub requester_generation : ℤ
  pub payload : Option Payload
  pub intact : Bool
  pub expires_at : Instant
  pub approvals : List Approval

abbrev is_bootstrap : ChangeKind → Bool
is_bootstrap bootstrap = true
is_bootstrap _ = false

-- One of the nominations of the user carries the role that the action wants.
unfoldable pub nominated : Effective → Text → Text → CapabilityName → List Nomination → Bool
nominated e requester user action [] = false
nominated e requester user action (n ∷ ns) =
    (eq_text n.user_id user
      && ((same_capability action security_approve && has_role security_approver n.roles)
          || (not (same_capability action security_approve)
              && (has_role security_officer n.roles
                  && (eq_text user requester && can e security_bootstrap)))))
    || nominated e requester user action ns

abbrev pub authority_for_payload :
    Change → Text → CapabilityName → Effective → Payload → Error ⊎ Effective
authority_for_payload c user action e p =
    if is_bootstrap p.kind
    then if nominated e c.requester_id user action p.nominations
      then inr (record e { person_id = nomination_person p.nominations user })
      else inl denied
    else if can e action
    then inr e
    else inl denied

abbrev pub authority_decoded :
    Change → Text → CapabilityName → Error ⊎ Effective → Option Payload → Error ⊎ Effective
authority_decoded c user action (inl e) payload = inl e
authority_decoded c user action (inr e) none = inl invalid_change
authority_decoded c user action (inr e) (some p) = authority_for_payload c user action e p

unfoldable pub authority_for_change :
    Directory → Instant → Change → Text → CapabilityName → Error ⊎ Effective
authority_for_change dir now c user action =
    authority_decoded c user action (effective dir now user) c.payload

abbrev pub approved : Text → Effective → Option Person → Error ⊎ Approval
approved user e none = inl store_failed
approved user e (some u) = inr (record {
  user_id = user;
  person_id = e.person_id;
  token_generation = u.security_revision;
  invalidated = false;
})

abbrev pub approve_authorized :
    Directory → Instant → Change → Text → Error ⊎ Effective → Error ⊎ Approval
approve_authorized dir now c user (inl e) = inl e
approve_authorized dir now c user (inr e) =
    if eq_text user c.requester_id || eq_text e.person_id c.requester_person_id
    then inl independent
    else if any (λ a. eq_text a.person_id e.person_id) c.approvals
    then inl independent
    else if after now c.expires_at || not c.intact
    then inl conflict
    else approved user e (dir.user user)

-- Approve, up to the approval that it hands to the store.
unfoldable pub approve : Directory → Instant → Change → Text → Error ⊎ Approval
approve dir now c user =
    approve_authorized dir now c user (authority_for_change dir now c user security_approve)

abbrev pub revision_is : Option Person → ℤ → Bool
revision_is none g = false
revision_is (some u) g = eqb_ℤ u.security_revision g

abbrev pub check_approval : Directory → List Text → Approval → Error ⊎ Effective → Option Error
check_approval dir persons a (inl e) = some e
check_approval dir persons a (inr e) =
    if not (revision_is (dir.user a.user_id) a.token_generation)
      || (not (eq_text e.person_id a.person_id) || mem e.person_id persons)
    then some independent
    else none

-- The loop of ValidateQuorum over the approvals, with the persons that it has seen and the number of
-- valid approvals.
unfoldable pub count_approvals :
    Directory → Instant → Change → List Text → ℕ → List Approval → Option Error
count_approvals dir now c persons valid [] = if ltb valid 2 then some independent else none
count_approvals dir now c persons valid (a ∷ approvals) = elim a.invalidated [
  | true ↦ count_approvals dir now c persons valid approvals
  | false ↦
      elim (check_approval dir persons a
        (authority_for_change dir now c a.user_id security_approve)) [
          | some e ↦ some e
          | none ↦ count_approvals dir now c (a.person_id ∷ persons) (suc valid) approvals
        ]
]

abbrev pub quorum_of : Directory → Instant → Change → Error ⊎ Effective → Option Error
quorum_of dir now c (inl e) = some e
quorum_of dir now c (inr requester) =
    if not (revision_is (dir.user c.requester_id) c.requester_generation)
      || not (eq_text requester.person_id c.requester_person_id)
    then some denied
    else count_approvals dir now c (c.requester_person_id ∷ []) 0 c.approvals

unfoldable pub validate_quorum : Directory → Instant → Change → Option Error
validate_quorum dir now c =
    if not (before now c.expires_at) || (not c.intact || ltb (length c.approvals) 2)
    then some conflict
    else quorum_of dir now c (authority_for_change dir now c c.requester_id security_request)
