-- ===== src/Authorization/Independence.antt =====
-- What a quorum, an approval and a nomination guarantee: different people with live authority.
use veyport.Base.{
  ℕ, suc, ◌+◌, ◌≤◌, ◌≡◌, ◌≢◌, refl, sym, ◌∙◌, Bool, true, false, ◌&&◌, not, none, List, [], ◌∷◌,
  arith, ◌⊎◌, inl, inr, any, length, map, select, Bool-cases, Option-cases,
}
use veyport.Base.Text.{Text}
use veyport.Base.Time.{Instant, before, after}
use veyport.Relay.Keys.{eq_text, eq_text_iff}
use veyport.Authorization.Directory.{
  Directory, Error, security_approve, security_request, Effective,
}
use veyport.Authorization.Coverage.{mem}
use veyport.Authorization.Quorum.{
  Approval, Change, authority_for_change, approve, revision_is, check_approval, count_approvals,
  validate_quorum, quorum_of, approve_authorized,
}

-- The texts differ from each other and from those that were seen.
unfoldable pub apart : List Text → List Text → Bool
apart seen [] = true
apart seen (t ∷ ts) = not (mem t seen) && apart (t ∷ seen) ts

abbrev pub valid_approvals : List Approval → List Approval
valid_approvals votes = select (λ a. not a.invalidated) votes

abbrev pub persons : List Approval → List Text
persons votes = map (λ a. a.person_id) votes

-- The approver still has the authority to approve, votes the person and with the credentials of the vote.
abbrev speaks_for : Directory → Approval → Error ⊎ Effective → Bool
speaks_for dir a (inl e) = false
speaks_for dir a (inr e) =
    eq_text e.person_id a.person_id && revision_is (dir.user a.user_id) a.token_generation

unfoldable pub authorized : Directory → Instant → Change → Approval → Bool
authorized dir now c a =
    speaks_for dir a (authority_for_change dir now c a.user_id security_approve)

checked :
    (dir : Directory) (seen : List Text) (a : Approval) (r : Error ⊎ Effective)
    → check_approval dir seen a r ≡ none
    → (mem a.person_id seen ≡ false) × (speaks_for dir a r ≡ true)
checked dir seen a (inl e) h = ground arith
checked dir seen a (inr e) h = (ground (arith, eq_text_iff e.person_id a.person_id), ground arith)

authorized-speaks :
    (dir : Directory) (now : Instant) (c : Change) (a : Approval)
    → speaks_for dir a (authority_for_change dir now c a.user_id security_approve) ≡ true
    → authorized dir now c a ≡ true
unfolding authorized
authorized-speaks dir now c a h = h

record Counted (dir : Directory) (now : Instant) (c : Change) (seen : List Text) (valid : ℕ)
    (votes : List Approval) : Type 0 where
  enough : 2 ≤ valid + length (valid_approvals votes)
  different : apart seen (persons (valid_approvals votes)) ≡ true
  live : any (λ a. not (authorized dir now c a)) (valid_approvals votes) ≡ false

count_approvals-Counted :
    (dir : Directory) (now : Instant) (c : Change) (seen : List Text) (valid : ℕ)
    (votes : List Approval)
    → count_approvals dir now c seen valid votes ≡ none
    → Counted dir now c seen valid votes
unfolding count_approvals apart any select
count_approvals-Counted dir now c seen valid [] h = record {
  enough = ground arith;
  different = refl;
  live = refl;
}
count_approvals-Counted dir now c seen valid (a ∷ votes) h = elim (Bool-cases a.invalidated) [
  | inl v ↦
      let r = count_approvals-Counted dir now c seen valid votes (ground (arith, v, h)) in
      rw v (record { enough = r.enough; different = r.different; live = r.live })
  | inr v ↦
      let auth = authority_for_change dir now c a.user_id security_approve in
      elim (Option-cases (check_approval dir seen a auth)) [
        | inr (e, k) ↦ ground (arith, v, k)
        | inl k ↦
            let (new, speaks) = checked dir seen a auth k in
            let r =
              count_approvals-Counted dir now c (a.person_id ∷ seen) (suc valid) votes
                (ground (arith, v, k)) in
            rw v (record {
              enough = omega (arith, r.enough);
              different = ground (arith, new, r.different);
              live = ground (arith, authorized-speaks dir now c a speaks, r.live);
            })
      ]
]

quorum-Counted :
    (dir : Directory) (now : Instant) (c : Change) (r : Error ⊎ Effective)
    → quorum_of dir now c r ≡ none
    → (count_approvals dir now c (c.requester_person_id ∷ []) 0 c.approvals ≡ none)
      × ((requester : Effective) × ((r ≡ inr requester)
            × ((requester.person_id ≡ c.requester_person_id)
                × (revision_is (dir.user c.requester_id) c.requester_generation ≡ true))))
quorum-Counted dir now c (inl e) h = ground arith
quorum-Counted dir now c (inr e) h = (
  ground arith,
  (e, (refl, (ground (arith, eq_text_iff e.person_id c.requester_person_id), ground arith))),
)

-- What a quorum is: at least two valid approvals, whose persons differ from each other and from the
-- requester, every one of whom has the authority to approve now, as that person and with the
-- credentials of the vote; a requester with the authority to request now, the same person with the
-- same credentials; and a change that is intact and has not expired.
pub record Quorate (dir : Directory) (now : Instant) (c : Change) : Type 0 where
  pub enough : 2 ≤ length (valid_approvals c.approvals)
  pub different : apart (c.requester_person_id ∷ []) (persons (valid_approvals c.approvals)) ≡ true
  pub live : any (λ a. not (authorized dir now c a)) (valid_approvals c.approvals) ≡ false
  pub requester : Effective
  pub requests : authority_for_change dir now c c.requester_id security_request ≡ inr requester
  pub same_person : requester.person_id ≡ c.requester_person_id
  pub same_revision : revision_is (dir.user c.requester_id) c.requester_generation ≡ true
  pub in_time : before now c.expires_at ≡ true
  pub intact : c.intact ≡ true

-- A change for which ValidateQuorum finds no error has a quorum.
pub validate_quorum-Quorate :
    (dir : Directory) (now : Instant) (c : Change)
    → validate_quorum dir now c ≡ none
    → Quorate dir now c
unfolding validate_quorum
validate_quorum-Quorate dir now c h =
    let auth = authority_for_change dir now c c.requester_id security_request in
    let (counted, (e, (at, (person, revision)))) = quorum-Counted dir now c auth (ground arith) in
    let r = count_approvals-Counted dir now c (c.requester_person_id ∷ []) 0 c.approvals counted in
    record {
      enough = omega (arith, r.enough);
      different = r.different;
      live = r.live;
      requester = e;
      requests = at;
      same_person = person;
      same_revision = revision;
      in_time = ground arith;
      intact = ground arith;
    }

mem-persons :
    (p : Text) (votes : List Approval)
    → any (λ b. eq_text b.person_id p) votes ≡ mem p (persons votes)
unfolding any
mem-persons p [] = refl
mem-persons p (a ∷ votes) = ground (arith, mem-persons p votes)

approved-facts :
    (dir : Directory) (now : Instant) (c : Change) (user : Text) (r : Error ⊎ Effective)
    (a : Approval)
    → approve_authorized dir now c user r ≡ inr a
    → (e : Effective) × ((r ≡ inr e)
        × (((user ≢ c.requester_id) × (a.person_id ≢ c.requester_person_id))
            × ((mem a.person_id (persons c.approvals) ≡ false)
                × (((a.user_id ≡ user) × (a.person_id ≡ e.person_id))
                    × ((after now c.expires_at ≡ false) × (c.intact ≡ true))))))
approved-facts dir now c user (inl e) a h = ground arith
approved-facts dir now c user (inr e) a h = elim (Option-cases (dir.user user)) [
  | inl u ↦ ground arith
  | inr (u, k) ↦
      let person : a.person_id ≡ e.person_id = ground (arith, k) in
      let fresh : any (λ b. eq_text b.person_id e.person_id) c.approvals ≡ false = ground arith in
      (
        e,
        (
          refl,
          (
            (
              λ same. ground (arith, eq_text_iff user c.requester_id),
              λ same. ground (arith, eq_text_iff e.person_id c.requester_person_id, person),
            ),
            (
              rw person (sym (mem-persons e.person_id c.approvals) ∙ fresh),
              ((ground (arith, k), person), (ground arith, ground arith)),
            ),
          ),
        ),
      )
]

-- An approval that Approve hands to the store is the user's own, as a person who has the authority to
-- approve this change now; the user is not the requester, nor is the person, who has not approved it
-- before either; and the change is intact and has not expired.
pub approve-independent :
    (dir : Directory) (now : Instant) (c : Change) (user : Text) (a : Approval)
    → approve dir now c user ≡ inr a
    → (e : Effective) × ((authority_for_change dir now c user security_approve ≡ inr e)
        × (((user ≢ c.requester_id) × (a.person_id ≢ c.requester_person_id))
            × ((mem a.person_id (persons c.approvals) ≡ false)
                × (((a.user_id ≡ user) × (a.person_id ≡ e.person_id))
                    × ((after now c.expires_at ≡ false) × (c.intact ≡ true))))))
unfolding approve
approve-independent dir now c user a h =
    approved-facts dir now c user (authority_for_change dir now c user security_approve) a h
