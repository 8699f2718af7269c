-- ===== src/Store/Sessions.antt =====
-- store/sessions.go. A write of another process or request is another operation in sequence.
pub mod Ending
pub mod Bulk
pub mod History
use Prim.Native.String.{String}
use text.Mathlib.Text.{◌==◌ as str_eq}
use veyport.Base.{
  ℕ, ◌==◌, Bool, true, false, ◌&&◌, ◌||◌, not, Option, none, some, List, [], ◌∷◌, ◌++◌, map,
  if◌then◌else◌, is_some, select, find, any, count_where, update_where,
}
use veyport.Base.Int.{ℤ, pos, ltb_ℤ, leb_ℤ, ◌-ℤ◌}
use veyport.Base.Time.{Instant, Duration}
use veyport.Session.{kind_web, kind_cli}
use veyport.Store.Rows.{Stamp, stamp, stamp_ptr, Session, User}

pub data Error : Type 0 where
  session_not_found constraint_failed : Error

pub data Result {ℓ} (A : Type ℓ) : Type ℓ where
  ok : A → Result A
  err : Error → Result A

abbrev pub Table : Type 0
Table = List Session

abbrev pub has_id : String → Session → Bool
has_id id row = str_eq row.id id

-- `id = ? AND ended_at IS NULL`
abbrev pub live_with_id : String → Session → Bool
live_with_id id row = str_eq row.id id && not (is_some row.ended_at)

-- A session as the caller hands it to CreateSession.
pub record NewSession : Type 0 where
  pub id : String
  pub user_id : String
  pub kind : String
  pub ip : String
  pub user_agent : String
  pub created_at : Instant
  pub last_seen_at : Instant
  pub expires_at : Option Instant

pub row_of : NewSession → Session
row_of sess = record {
  id = sess.id;
  user_id = sess.user_id;
  kind = sess.kind;
  ip = sess.ip;
  user_agent = sess.user_agent;
  created_at = stamp sess.created_at;
  last_seen_at = stamp sess.last_seen_at;
  expires_at = stamp_ptr sess.expires_at;
  ended_at = none;
  end_reason = none;
  ended_by = none;
  refresh_token_sha256 = "";
}

-- The constraints of the table: the key is unique, the user exists, the kind is "web" or "cli".
unfoldable pub create_session : List User → NewSession → Table → Result Table
unfolding row_of
create_session users sess t =
    if any (has_id sess.id) t
      || (not (any (λ u. str_eq u.id sess.user_id) users)
          || not (str_eq sess.kind kind_web || str_eq sess.kind kind_cli))
    then err constraint_failed
    else ok (t ++ row_of sess ∷ [])

or_not_found : Option Session → Result Session
or_not_found none = err session_not_found
or_not_found (some row) = ok row

unfoldable pub get_session : String → Table → Result Session
unfolding or_not_found
get_session id t = or_not_found (find (has_id id) t)

unfoldable pub touch_session : String → Instant → Duration → Table → Table
touch_session id now min_interval t =
    if leb_ℤ min_interval (pos 0)
    then update_where (live_with_id id) (λ row. record row { last_seen_at = stamp now }) t
    else update_where
        (λ row. live_with_id id row && ltb_ℤ row.last_seen_at (stamp (now -ℤ min_interval)))
        (λ row. record row { last_seen_at = stamp now }) t

-- SET ended_at = ?, end_reason = ?, ended_by = ?
abbrev pub end_row : Stamp → String → Option String → Session → Session
end_row at reason by row = record row {
  ended_at = some at;
  end_reason = some reason;
  ended_by = by;
}

unfoldable pub end_one : String → String → Option String → Instant → Table → Result Bool × Table
end_one id reason by now t =
    let t' = update_where (live_with_id id) (end_row (stamp now) reason by) t in
    if count_where (live_with_id id) t == 1
    then (ok true, t')
    else if any (has_id id) t'
    then (ok false, t')
    else (err session_not_found, t')

pub end_session : String → String → Option String → Instant → Table → Result Bool × Table
unfolding end_one
end_session id reason by now t = end_one id reason by now t

pub mark_expired : String → String → Instant → Table → Result Bool × Table
unfolding end_one
mark_expired id reason now t = end_one id reason none now t

-- `user_id = ? AND ended_at IS NULL`, and `AND id != ?` where a session is spared.
unfoldable pub ends_for : String → Option String → Session → Bool
ends_for user_id none row = str_eq row.user_id user_id && not (is_some row.ended_at)
ends_for user_id (some except) row =
    (str_eq row.user_id user_id && not (is_some row.ended_at)) && not (str_eq row.id except)

-- One UPDATE for each selected id, in order.
unfoldable pub end_all : List String → Stamp → String → Option String → Table → Table
end_all [] at reason by t = t
end_all (id ∷ ids) at reason by t =
    end_all ids at reason by (update_where (live_with_id id) (end_row at reason by) t)

unfoldable pub end_user_sessions :
    String → Option String → String → Option String → Instant → Table → List String × Table
end_user_sessions user_id except reason by now t =
    let ids = map (λ row. row.id) (select (ends_for user_id except) t) in
    (ids, end_all ids (stamp now) reason by t)

-- The sessions statement of revokeCredentialAuthorityConn.
unfoldable pub revoke_user_sessions : String → String → Option String → Instant → Table → Table
revoke_user_sessions user_id reason by now t =
    update_where (ends_for user_id none)
      (λ row. record (end_row (stamp now) reason by row) { refresh_token_sha256 = "" }) t

-- `ended_at IS NOT NULL AND ended_at < ?`
unfoldable pub ended_before : Option Stamp → Stamp → Bool
ended_before none before = false
ended_before (some at) before = ltb_ℤ at before

unfoldable pub prune_ended_sessions : Instant → Table → ℕ × Table
prune_ended_sessions before t = (
  count_where (λ row. ended_before row.ended_at (stamp before)) t,
  select (λ row. not (ended_before row.ended_at (stamp before))) t,
)
