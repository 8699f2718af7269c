-- ===== src/Store/Sessions/History.antt =====
-- What holds of the sessions table after any sequence of operations on it.
use Prim.Native.String.{String}
use text.Mathlib.Text.{◌==◌ as str_eq}
use text.Mathlib.TextEquality.{eq_iff}
use veyport.Base.{
  ◌≡◌, refl, Bool, false, ◌&&◌, Option, none, some, List, [], ◌∷◌, ◌++◌, arith, select, any,
  update_where, any-select, any-append, any-update_where_keep, any-update_where_down, Bool-cases,
  inl, inr,
}
use veyport.Base.Int.{pos, leb_ℤ, ltb_ℤ, ◌-ℤ◌}
use veyport.Base.Time.{Instant, Duration}
use veyport.Store.Rows.{Stamp, stamp, Session, User}
use veyport.Store.Sessions.{
  Result, ok, err, Table, has_id, live_with_id, NewSession, row_of, create_session, touch_session,
  end_row, end_one, end_all, end_user_sessions, prune_ended_sessions, revoke_user_sessions,
  ends_for,
}
use veyport.Lockout.Policy.{Policy}
use veyport.Store.Refresh.{
  Authority, rotate_session_refresh, spendable, current_authority, rotated_row,
}
use veyport.Store.Sessions.Ending.{Unique, end_one-table, end_one-dead}

-- The statements of the store that write the table; a new session and a rotation come with the users of that moment.
-- The sessions that the disabling of an account ends are ended as by `end_user`, without an exception.
pub data Op : Type 0 where
  create : List User → NewSession → Op
  touch : String → Instant → Duration → Op
  end_session : String → String → Option String → Instant → Op
  end_user : String → Option String → String → Option String → Instant → Op
  prune : Instant → Op
  revoke : String → String → Option String → Instant → Op
  rotate : List User → Authority → String → String → String → Instant → Policy → Op

abbrev pub created : Table → Result Table → Table
created t (ok t') = t'
created t (err e) = t

abbrev pub written : Table → Option Table → Table
written t none = t
written t (some t') = t'

unfoldable pub apply : Op → Table → Table
apply (create users sess) t = created t (create_session users sess t)
apply (touch id now interval) t = touch_session id now interval t
apply (end_session id r by now) t = (end_one id r by now t).1
apply (end_user user except r by now) t = (end_user_sessions user except r by now t).1
apply (prune before) t = (prune_ended_sessions before t).1
apply (revoke user r by now) t = revoke_user_sessions user r by now t
apply (rotate users a session previous next now p) t =
    written t (rotate_session_refresh users a session previous next now p t)

unfoldable pub run : List Op → Table → Table
run [] t = t
run (op ∷ ops) t = run ops (apply op t)

Unique-select : (keep : Session → Bool) (t : Table) → Unique t → Unique (select keep t)
unfolding select
Unique-select keep [] u = u
Unique-select keep (x ∷ t) u =
    ground (arith, any-select (has_id x.id) keep t u.0, Unique-select keep t u.1)

-- An update that keeps the ids.
Unique-update_where :
    (test : Session → Bool) (f : Session → Session) (t : Table)
    → ((x : Session) → (f x).id ≡ x.id)
    → Unique t
    → Unique (update_where test f t)
unfolding update_where
Unique-update_where test f [] keep u = u
Unique-update_where test f (x ∷ t) keep u = ground (
  arith,
  keep x,
  Unique-update_where test f t keep u.1,
  any-update_where_keep test (has_id x.id) f t (λ y. rw (keep y) refl),
)

Unique-append :
    (t : Table) (x : Session) → Unique t → any (has_id x.id) t ≡ false → Unique (t ++ x ∷ [])
unfolding any
Unique-append [] x u h = (refl, tt)
Unique-append (y ∷ t) x u h = ground (
  arith,
  eq_iff x.id y.id,
  eq_iff y.id x.id,
  any-append (has_id y.id) t (x ∷ []),
  Unique-append t x u.1,
)

end_all-Unique :
    (ids : List String) (at : Stamp) (r : String) (by : Option String) (t : Table)
    → Unique t
    → Unique (end_all ids at r by t)
unfolding end_all
end_all-Unique [] at r by t u = u
end_all-Unique (id ∷ ids) at r by t u =
    end_all-Unique ids at r by _
      (Unique-update_where (live_with_id id) (end_row at r by) t (λ x. refl) u)

touch_session-Unique :
    (id : String) (now : Instant) (interval : Duration) (t : Table)
    → Unique t
    → Unique (touch_session id now interval t)
unfolding touch_session
touch_session-Unique id now interval t u =
    let f : Session → Session = λ row. record row { last_seen_at = stamp now } in
    let slow = Unique-update_where (live_with_id id) f t (λ x. refl) u in
    let fast =
      Unique-update_where
        (λ row. live_with_id id row && ltb_ℤ row.last_seen_at (stamp (now -ℤ interval))) f t
        (λ x. refl) u in
    elim (Bool-cases (leb_ℤ interval (pos 0))) [ inl e ↦ rw e slow | inr e ↦ rw e fast ]

create_session-Unique :
    (users : List User) (sess : NewSession) (t : Table)
    → Unique t
    → Unique (created t (create_session users sess t))
unfolding create_session
create_session-Unique users sess t u = ground (arith, Unique-append t (row_of sess) u)

rotate-Unique :
    (users : List User) (a : Authority) (session previous next : String) (now : Instant)
    (p : Policy) (t : Table)
    → Unique t
    → Unique (written t (rotate_session_refresh users a session previous next now p t))
unfolding rotate_session_refresh
rotate-Unique users a session previous next now p t u = ground (
  arith,
  Unique-update_where
      (λ (row : Session). spendable a session previous now p row && any (current_authority a) users)
      (rotated_row next (stamp now)) t (λ x. refl) u,
)

apply-Unique : (op : Op) (t : Table) → Unique t → Unique (apply op t)
unfolding apply end_user_sessions prune_ended_sessions revoke_user_sessions
apply-Unique (create users sess) t u = create_session-Unique users sess t u
apply-Unique (touch id now interval) t u = touch_session-Unique id now interval t u
apply-Unique (end_session id r by now) t u =
    rw (end_one-table id r by now t)
      (Unique-update_where (live_with_id id) (end_row (stamp now) r by) t (λ x. refl) u)
apply-Unique (end_user user except r by now) t u = end_all-Unique _ (stamp now) r by t u
apply-Unique (prune before) t u = Unique-select _ t u
apply-Unique (revoke user r by now) t u = Unique-update_where _ _ t (λ x. refl) u
apply-Unique (rotate users a session previous next now p) t u =
    rotate-Unique users a session previous next now p t u

-- Starting from the empty table, no sequence of operations puts one id on two sessions.
pub run-Unique : (ops : List Op) → Unique (run ops [])
unfolding run
run-Unique ops = go ops [] tt
  where
    go : (ops : List Op) (t : Table) → Unique t → Unique (run ops t)
    go [] t u = u
    go (op ∷ ops) t u = go ops (apply op t) (apply-Unique op t u)

-- The operation does not create a session under this id.
abbrev pub CreatesNot : String → Op → Type 0
CreatesNot id (create users sess) = str_eq sess.id id ≡ false
CreatesNot id (touch i now interval) = Unit {0}
CreatesNot id (end_session i r by now) = Unit {0}
CreatesNot id (end_user user except r by now) = Unit {0}
CreatesNot id (prune before) = Unit {0}
CreatesNot id (revoke user r by now) = Unit {0}
CreatesNot id (rotate users a session previous next now p) = Unit {0}

abbrev pub CreateNot : String → List Op → Type 0
CreateNot id [] = Unit {0}
CreateNot id (op ∷ ops) = CreatesNot id op × CreateNot id ops

abbrev pub Dead : String → Table → Type 0
Dead id t = any (live_with_id id) t ≡ false

end_row-Dead :
    (id : String) (at : Stamp) (r : String) (by : Option String) (test : Session → Bool) (t : Table)
    → Dead id t
    → Dead id (update_where test (end_row at r by) t)
end_row-Dead id at r by test t d =
    any-update_where_down test (live_with_id id) (end_row at r by) t (λ x h. ground arith) d

end_all-Dead :
    (id : String) (ids : List String) (at : Stamp) (r : String) (by : Option String) (t : Table)
    → Dead id t
    → Dead id (end_all ids at r by t)
unfolding end_all
end_all-Dead id [] at r by t d = d
end_all-Dead id (i ∷ ids) at r by t d =
    end_all-Dead id ids at r by _ (end_row-Dead id at r by (live_with_id i) t d)

touch_session-Dead :
    (id i : String) (now : Instant) (interval : Duration) (t : Table)
    → Dead id t
    → Dead id (touch_session i now interval t)
unfolding touch_session
touch_session-Dead id i now interval t d =
    let f : Session → Session = λ row. record row { last_seen_at = stamp now } in
    let slow = any-update_where_down (live_with_id i) (live_with_id id) f t (λ x h. h) d in
    let fast =
      any-update_where_down
        (λ row. live_with_id i row && ltb_ℤ row.last_seen_at (stamp (now -ℤ interval)))
        (live_with_id id) f t (λ x h. h) d in
    elim (Bool-cases (leb_ℤ interval (pos 0))) [ inl e ↦ rw e slow | inr e ↦ rw e fast ]

create_session-Dead :
    (id : String) (users : List User) (sess : NewSession) (t : Table)
    → str_eq sess.id id ≡ false
    → Dead id t
    → Dead id (created t (create_session users sess t))
unfolding create_session any
create_session-Dead id users sess t h d =
    ground (arith, any-append (live_with_id id) t (row_of sess ∷ []))

rotate-Dead :
    (id : String) (users : List User) (a : Authority) (session previous next : String)
    (now : Instant) (p : Policy) (t : Table)
    → Dead id t
    → Dead id (written t (rotate_session_refresh users a session previous next now p t))
unfolding rotate_session_refresh
rotate-Dead id users a session previous next now p t d = ground (
  arith,
  any-update_where_down
      (λ (row : Session). spendable a session previous now p row && any (current_authority a) users)
      (live_with_id id) (rotated_row next (stamp now)) t (λ x h. h) d,
)

apply-Dead :
    (id : String) (op : Op) (t : Table) → CreatesNot id op → Dead id t → Dead id (apply op t)
unfolding apply end_user_sessions prune_ended_sessions revoke_user_sessions
apply-Dead id (create users sess) t c d = create_session-Dead id users sess t c d
apply-Dead id (touch i now interval) t c d = touch_session-Dead id i now interval t d
apply-Dead id (end_session i r by now) t c d =
    rw (end_one-table i r by now t) (end_row-Dead id (stamp now) r by (live_with_id i) t d)
apply-Dead id (end_user user except r by now) t c d = end_all-Dead id _ (stamp now) r by t d
apply-Dead id (prune before) t c d = any-select (live_with_id id) _ t d
apply-Dead id (revoke user r by now) t c d =
    any-update_where_down (ends_for user none) (live_with_id id) _ t (λ x h. ground arith) d
apply-Dead id (rotate users a session previous next now p) t c d =
    rotate-Dead id users a session previous next now p t d

-- Once a session is ended it never becomes live again, through any later requests, ends, bulk ends,
-- revocations of credentials, rotations, prunings, and creations of sessions under other ids.
pub run-end_one :
    (ops : List Op) (id r : String) (by : Option String) (now : Instant) (t : Table)
    → CreateNot id ops
    → Dead id (run ops (end_one id r by now t).1)
unfolding run
run-end_one ops id r by now t c = go ops _ c (end_one-dead id r by now t)
  where
    go : (ops : List Op) (t : Table) → CreateNot id ops → Dead id t → Dead id (run ops t)
    go [] t c d = d
    go (op ∷ ops) t c d = go ops (apply op t) c.1 (apply-Dead id op t c.0 d)
