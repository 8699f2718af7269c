-- ===== src/Authorization/Limits.antt =====
-- What a valid policy and a valid list of nominations are.
use veyport.Base.{
  ℕ, suc, ◌+◌, ◌≤◌, ◌==◌, ◌≡◌, refl, Bool, true, false, ◌&&◌, ◌||◌, not, none, List, [], ◌∷◌, arith,
  inl, inr, if◌then◌else◌, any, length, count_where, map, Option-cases,
}
use veyport.Base.Int.{pos, ◌≤ℤ◌}
use veyport.Base.Text.{Text}
use veyport.Relay.Keys.{eq_text}
use veyport.Authorization.Directory.{security_officer, security_approver, Directory}
use veyport.Authorization.Coverage.{AuditPolicy, mem, is_enhanced}
use veyport.Authorization.Changes.{Nomination, valid_key, valid_list, validate_policy}
use veyport.Authorization.Quorum.{
  check_nomination, check_nominations, validate_nominations, has_role,
}
use veyport.Authorization.Independence.{apart}

valid_list-apart :
    (seen ids : List Text)
    → valid_list seen ids ≡ true
    → (apart seen ids ≡ true) × (any (λ id. not (valid_key id)) ids ≡ false)
unfolding valid_list apart any
valid_list-apart seen [] h = (refl, refl)
valid_list-apart seen (id ∷ ids) h =
    let (a, b) = valid_list-apart (id ∷ seen) ids (ground arith) in
    (ground (arith, a), ground (arith, b))

-- The ids are valid keys and none occurs twice.
abbrev pub are_keys : List Text → Bool
are_keys ids = apart [] ids && not (any (λ id. not (valid_key id)) ids)

pub record Bounded (p : AuditPolicy) : Type 0 where
  pub runtime : (pos 1 ≤ℤ p.runtime_seconds) × (p.runtime_seconds ≤ℤ pos 3600)
  pub retention : (pos 24 ≤ℤ p.retention_hours) × (p.retention_hours ≤ℤ pos 87600)
  pub sizes : (length p.actors ≤ 1000) × ((length p.nodes ≤ 1000) × (length p.trust_key_ids ≤ 16))
  pub keys : (are_keys p.actors && (are_keys p.nodes && are_keys p.trust_key_ids)) ≡ true
  pub ready :
      (is_enhanced p.profile
        && ((eq_text p.destination [] || eq_text p.credential_ref [])
            || length p.trust_key_ids == 0))
      ≡ false

-- A policy in which validatePolicy finds no error has a runtime of 1 to 3600 seconds, a retention of
-- 24 to 87600 hours, at most 1000 actors, 1000 nodes and 16 trusted keys, all of them valid keys and
-- none of them twice in its list, and, when it is enhanced, a destination, a credential and a key.
pub validate_policy-Bounded : (p : AuditPolicy) → validate_policy p ≡ none → Bounded p
unfolding validate_policy
validate_policy-Bounded p h =
    let (a, b) = valid_list-apart [] p.actors (ground arith) in
    let (c, d) = valid_list-apart [] p.nodes (ground arith) in
    let (e, f) = valid_list-apart [] p.trust_key_ids (ground arith) in
    record {
      runtime = (ground arith, ground arith);
      retention = (ground arith, ground arith);
      sizes = (ground arith, (ground arith, ground arith));
      keys = ground (arith, a, b, c, d, e, f);
      ready = ground arith;
    }

abbrev pub people : List Nomination → List Text
people ns = map (λ n. n.person_id) ns

abbrev pub users : List Nomination → List Text
users ns = map (λ n. n.user_id) ns

abbrev pub is_officer : Text → Nomination → Bool
is_officer requester n = eq_text n.user_id requester && has_role security_officer n.roles

abbrev pub is_approver : Text → Nomination → Bool
is_approver requester n = not (eq_text n.user_id requester) && has_role security_approver n.roles

nomination-new :
    (dir : Directory) (ps us : List Text) (n : Nomination)
    → check_nomination dir ps us n ≡ none
    → (mem n.person_id ps ≡ false) × (mem n.user_id us ≡ false)
nomination-new dir ps us n h = (ground arith, ground arith)

record Checked (requester : Text) (ps us : List Text) (approvers : ℕ) (officer : Bool)
    (ns : List Nomination) : Type 0 where
  people_apart : apart ps (people ns) ≡ true
  users_apart : apart us (users ns) ≡ true
  officers : (officer || any (is_officer requester) ns) ≡ true
  approver_count : 2 ≤ approvers + count_where (is_approver requester) ns

check_nominations-Checked :
    (dir : Directory) (requester : Text) (ps us : List Text) (approvers : ℕ) (officer : Bool)
    (ns : List Nomination)
    → check_nominations dir requester ps us approvers officer ns ≡ none
    → Checked requester ps us approvers officer ns
unfolding check_nominations apart any count_where
check_nominations-Checked dir requester ps us approvers officer [] h = record {
  people_apart = refl;
  users_apart = refl;
  officers = ground arith;
  approver_count = ground arith;
}
check_nominations-Checked dir requester ps us approvers officer (n ∷ ns) h =
    elim (Option-cases (check_nomination dir ps us n)) [
      | inr (e, k) ↦ ground (arith, k)
      | inl k ↦
          let (a, b) = nomination-new dir ps us n k in
          let more = not (eq_text n.user_id requester) && has_role security_approver n.roles in
          let r =
            check_nominations-Checked dir requester (n.person_id ∷ ps) (n.user_id ∷ us)
              (if more then suc approvers else approvers)
              (officer || (eq_text n.user_id requester && has_role security_officer n.roles)) ns
              (ground (arith, k)) in
          record {
            people_apart = ground (arith, a, r.people_apart);
            users_apart = ground (arith, b, r.users_apart);
            officers = ground (arith, r.officers);
            approver_count = ground (arith, r.approver_count);
          }
    ]

-- Nominations in which validateNominations finds no error name each user and each person once, the
-- requester as a security officer, and at least two other users as security approvers.
pub validate_nominations-independent :
    (dir : Directory) (ns : List Nomination) (requester : Text)
    → validate_nominations dir ns requester ≡ none
    → ((apart [] (people ns) ≡ true) × (apart [] (users ns) ≡ true))
      × ((any (is_officer requester) ns ≡ true) × (2 ≤ count_where (is_approver requester) ns))
unfolding validate_nominations
validate_nominations-independent dir ns requester h =
    let r = check_nominations-Checked dir requester [] [] 0 false ns h in
    ((r.people_apart, r.users_apart), (r.officers, omega (arith, r.approver_count)))
