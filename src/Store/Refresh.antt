-- ===== src/Store/Refresh.antt =====
-- store/session_refresh.go, with ValidHash of auditrecord/record.go and StateFromModel of session.go:
-- the rotation of a session's one-use refresh digest, one guarded UPDATE in a transaction.
pub mod Shut
pub mod Rotation
pub mod Verdict
use Prim.Native.String.{String}
use text.Mathlib.Text.{◌==◌ as str_eq}
use veyport.Base.{
  ℕ, ◌==◌, Bool, true, false, ◌&&◌, ◌||◌, not, Option, none, some, List, [], ◌∷◌, if◌then◌else◌,
  is_some, leb, length, any, count_where, update_where,
}
use veyport.Base.Int.{ℤ, pos, ltb_ℤ, leb_ℤ, eqb_ℤ, ◌-ℤ◌}
use veyport.Base.Time.{Instant, Duration}
use veyport.Base.Text.{Text, codes}
use veyport.Lockout.Policy.{Policy}
use veyport.Session
use veyport.Session.{idle_timeout, kind_cli, kind_web}
use veyport.Store.Rows.{Stamp, stamp, parse, parse_ptr, Session, User}
use veyport.Store.Sessions.{Table, has_id}

lower_hex : ℕ → Bool
lower_hex c = (leb b'0' c && leb c b'9') || (leb b'a' c && leb c b'f')

all_hex : Text → Bool
unfolding lower_hex
all_hex [] = true
all_hex (c ∷ s) = lower_hex c && all_hex s

-- 32 bytes in lower-case hexadecimal.
unfoldable pub valid_hash : String → Bool
unfolding all_hex
valid_hash s = length (codes s) == 64 && all_hex (codes s)

-- What the caller read of the account.
pub record Authority : Type 0 where
  pub id : String
  pub token_generation : ℤ
  pub security_revision : ℤ
  pub must_change_password : Bool

abbrev same_flag : Bool → Bool → Bool
same_flag true b = b
same_flag false b = not b

-- The EXISTS clause over users.
unfoldable pub current_authority : Authority → User → Bool
current_authority a u =
    str_eq u.id a.id
    && (eqb_ℤ u.token_generation a.token_generation
        && (eqb_ℤ u.security_revision a.security_revision
            && (not (is_some u.disabled_at)
                && (u.totp_enabled
                    && (same_flag u.must_change_password a.must_change_password
                        && not u.must_change_password)))))

-- `expires_at IS NULL OR expires_at > ?`
abbrev pub not_expired : Option Stamp → Stamp → Bool
not_expired none now = true
not_expired (some e) now = ltb_ℤ now e

-- The expiry clauses of the WHERE, at the client kind's own limit.
unfoldable pub in_time : Session → Instant → Policy → Bool
in_time row now p =
    let idle =
      if str_eq row.kind kind_cli then idle_timeout kind_cli p else idle_timeout kind_web p in
    not_expired row.expires_at (stamp now)
    && (leb_ℤ idle (pos 0) || leb_ℤ (stamp (now -ℤ idle)) row.last_seen_at)

-- `id=? AND user_id=? AND ended_at IS NULL AND … AND (refresh_token_sha256=? OR refresh_token_sha256='')`
unfoldable pub spendable : Authority → String → String → Instant → Policy → Session → Bool
spendable a session previous now p row =
    has_id session row
    && (str_eq row.user_id a.id
        && (not (is_some row.ended_at)
            && (in_time row now p
                && (str_eq row.refresh_token_sha256 previous
                    || str_eq row.refresh_token_sha256 ""))))

abbrev pub rotated_row : String → Stamp → Session → Session
rotated_row next now row = record row {
  refresh_token_sha256 = next;
  last_seen_at = if ltb_ℤ row.last_seen_at now then now else row.last_seen_at;
}

-- The checks before the transaction.
unfoldable pub acceptable : Authority → String → String → String → Bool
acceptable a session previous next = not (
    str_eq a.id ""
    || (str_eq session ""
        || (not (valid_hash next)
            || (not (str_eq previous "") && (not (valid_hash previous) || str_eq previous next)))))

-- none is ErrSessionRefreshRejected, which writes nothing.
unfoldable pub rotate_session_refresh :
    List User → Authority → String → String → String → Instant → Policy → Table → Option Table
rotate_session_refresh users a session previous next now p t =
    let row_ok = λ (row : Session).
      spendable a session previous now p row && any (current_authority a) users in
    if acceptable a session previous next && count_where row_ok t == 1
    then some (update_where row_ok (rotated_row next (stamp now)) t)
    else none

-- session.StateFromModel over a row as the store reads it.
unfoldable pub state_from_model : Session → Session.State
state_from_model row = record {
  kind = row.kind;
  created_at = parse row.created_at;
  last_seen_at = parse row.last_seen_at;
  expires_at = parse_ptr row.expires_at;
  ended_at = parse_ptr row.ended_at;
}
