-- ===== src/Store/Refresh/Shut.antt =====
-- When a digest cannot be spent, and the writes of the table that keep it so.
use Prim.Native.String.{String}
use text.Mathlib.Text.{◌==◌ as str_eq}
use text.Mathlib.TextEquality.{eq_iff}
use veyport.Base.{
  ◌≡◌, ◌≢◌, refl, subst, Bool, true, false, ◌&&◌, none, List, [], ◌∷◌, arith, any, update_where,
  count_where-none, any-imp, any-append, any-select, any-update_where_down, Bool-cases, inl, inr,
  ◌||◌, Option,
}
use veyport.Base.Int.{pos, leb_ℤ, ltb_ℤ, ◌-ℤ◌}
use veyport.Base.Time.{Instant, Duration}
use veyport.Lockout.Policy.{Policy}
use veyport.Store.Rows.{Stamp, stamp, Session, User}
use veyport.Store.Sessions.{
  Table, has_id, live_with_id, NewSession, row_of, create_session, touch_session, end_row, end_all,
  end_user_sessions, ends_for, prune_ended_sessions, revoke_user_sessions,
}
use veyport.Store.Sessions.Ending.{end_one-table}
use veyport.Store.Sessions.History
use veyport.Store.Sessions.History.{Op, apply, run, created, written}
use veyport.Store.Refresh.{
  valid_hash, Authority, current_authority, spendable, rotated_row, acceptable,
  rotate_session_refresh,
}

-- A row from which a rotation of this digest could go on.
abbrev pub open_to : String → String → Session → Bool
open_to session previous row =
    live_with_id session row
    && (str_eq row.refresh_token_sha256 previous || str_eq row.refresh_token_sha256 "")

spendable-open_to :
    (a : Authority) (session previous : String) (now : Instant) (p : Policy) (users : List User)
    (x : Session)
    → (spendable a session previous now p x && any (current_authority a) users) ≡ true
    → open_to session previous x ≡ true
unfolding spendable
spendable-open_to a session previous now p users x h = ground arith

-- Where no row is open to a digest, it cannot be spent.
pub spent :
    (users : List User) (a : Authority) (session previous next : String) (now : Instant)
    (p : Policy) (t : Table)
    → any (open_to session previous) t ≡ false
    → rotate_session_refresh users a session previous next now p t ≡ none
unfolding rotate_session_refresh
spent users a session previous next now p t shut = ground (
  arith,
  count_where-none
      (λ (row : Session). spendable a session previous now p row && any (current_authority a) users)
      t
      (any-imp (open_to session previous) _ t (spendable-open_to a session previous now p users)
        shut),
)

pub spendable-id :
    (a : Authority) (session previous : String) (now : Instant) (p : Policy) (users : List User)
    (x : Session)
    → (spendable a session previous now p x && any (current_authority a) users) ≡ true
    → has_id session x ≡ true
unfolding spendable
spendable-id a session previous now p users x h = ground arith

empty_hash : valid_hash "" ≡ false
unfolding valid_hash
empty_hash = refl

pub acceptable-full :
    (a : Authority) (session previous next : String)
    → acceptable a session previous next ≡ true
    → next ≢ ""
unfolding acceptable
acceptable-full a session previous next ok empty =
    no_hash (subst (λ n. acceptable a session previous n ≡ true) empty ok)
  where
    no_hash : acceptable a session previous "" ≡ true → ⊥
    no_hash h = ground (arith, empty_hash)

-- The operations that can make a digest good again: a rotation of the session to that digest, and the
-- creation of another session under the id, once the first was pruned.
unfoldable pub goes_back : String → String → Op → Bool
goes_back session previous (History.create users sess) = str_eq sess.id session
goes_back session previous (History.rotate users a other spent_digest next now p) =
    str_eq other session && str_eq next previous
goes_back session previous op = false

end_all-shut :
    (session previous : String) (ids : List String) (at : Stamp) (r : String) (by : Option String)
    (t : Table)
    → any (open_to session previous) t ≡ false
    → any (open_to session previous) (end_all ids at r by t) ≡ false
unfolding end_all
end_all-shut session previous [] at r by t d = d
end_all-shut session previous (i ∷ ids) at r by t d = end_all-shut session previous ids at r by _ (
    any-update_where_down (live_with_id i) (open_to session previous) (end_row at r by) t
      (λ x h. ground arith) d)

touch_session-shut :
    (session previous i : String) (now : Instant) (interval : Duration) (t : Table)
    → any (open_to session previous) t ≡ false
    → any (open_to session previous) (touch_session i now interval t) ≡ false
unfolding touch_session
touch_session-shut session previous i now interval t d =
    let f : Session → Session = λ row. record row { last_seen_at = stamp now } in
    let down = λ (test : Session → Bool).
      any-update_where_down test (open_to session previous) f t (λ x h. h) d in
    elim (Bool-cases (leb_ℤ interval (pos 0))) [
      | inl e ↦ rw e (down (live_with_id i))
      | inr e ↦
          rw e
            (down (λ row. live_with_id i row && ltb_ℤ row.last_seen_at (stamp (now -ℤ interval))))
    ]

create_session-shut :
    (session previous : String) (users : List User) (sess : NewSession) (t : Table)
    → str_eq sess.id session ≡ false
    → any (open_to session previous) t ≡ false
    → any (open_to session previous) (created t (create_session users sess t)) ≡ false
unfolding create_session any
create_session-shut session previous users sess t h d =
    ground (arith, any-append (open_to session previous) t (row_of sess ∷ []))

-- A rotation to another digest, or of another session, opens no row.
update_where-shut :
    (session previous other next : String) (at : Stamp) (test : Session → Bool) (t : Table)
    → ((x : Session) → test x ≡ true → has_id other x ≡ true)
    → (str_eq other session && str_eq next previous) ≡ false
    → next ≢ ""
    → any (open_to session previous) t ≡ false
    → any (open_to session previous) (update_where test (rotated_row next at) t) ≡ false
unfolding any update_where
update_where-shut session previous other next at test [] h k full d = refl
update_where-shut session previous other next at test (x ∷ t) h k full d = ground (
  arith,
  h x,
  eq_iff x.id other,
  eq_iff next "",
  update_where-shut session previous other next at test t h k full,
)

rotate-shut :
    (session digest : String) (users : List User) (a : Authority) (other previous next : String)
    (now : Instant) (p : Policy) (t : Table)
    → (str_eq other session && str_eq next digest) ≡ false
    → any (open_to session digest) t ≡ false
    → any
        (open_to session digest)
        (written t (rotate_session_refresh users a other previous next now p t))
      ≡ false
unfolding rotate_session_refresh
rotate-shut session digest users a other previous next now p t k d =
    elim (Bool-cases (acceptable a other previous next)) [
      | inr e ↦ ground arith
      | inl e ↦ ground (
        arith,
        update_where-shut session digest other next (stamp now)
            (λ (row : Session).
              spendable a other previous now p row && any (current_authority a) users)
            t (spendable-id a other previous now p users) k
            (acceptable-full a other previous next e) d,
      )
    ]

apply-shut :
    (session previous : String) (op : Op) (t : Table)
    → goes_back session previous op ≡ false
    → any (open_to session previous) t ≡ false
    → any (open_to session previous) (apply op t) ≡ false
unfolding apply goes_back end_user_sessions prune_ended_sessions revoke_user_sessions
apply-shut session previous (History.create users sess) t b d =
    create_session-shut session previous users sess t b d
apply-shut session previous (History.touch i now interval) t b d =
    touch_session-shut session previous i now interval t d
apply-shut session previous (History.end_session i r by now) t b d =
    rw (end_one-table i r by now t) (
      any-update_where_down (live_with_id i) (open_to session previous) (end_row (stamp now) r by) t
        (λ x h. ground arith) d)
apply-shut session previous (History.end_user user except r by now) t b d =
    end_all-shut session previous _ (stamp now) r by t d
apply-shut session previous (History.prune before) t b d =
    any-select (open_to session previous) _ t d
apply-shut session previous (History.revoke user r by now) t b d =
    any-update_where_down (ends_for user none) (open_to session previous) _ t (λ x h. ground arith)
      d
apply-shut session previous (History.rotate users a other spent_digest next now p) t b d =
    rotate-shut session previous users a other spent_digest next now p t b d

pub run-shut :
    (session previous : String) (ops : List Op) (t : Table)
    → any (goes_back session previous) ops ≡ false
    → any (open_to session previous) t ≡ false
    → any (open_to session previous) (run ops t) ≡ false
unfolding run any
run-shut session previous [] t b d = d
run-shut session previous (op ∷ ops) t b d =
    run-shut session previous ops (apply op t) (ground arith)
      (apply-shut session previous op t (ground arith) d)
