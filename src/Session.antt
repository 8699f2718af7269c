-- ===== src/Session.antt =====
-- hub/internal/session/session.go and the session kinds and end reasons of
-- hub/internal/model/session.go: whether a session record is still usable.
pub mod Deadline
mod Examples
use Prim.Native.String.{String}
use text.Mathlib.Text.{◌==◌ as str_eq}
use veyport.Base.{Bool, true, false, ◌&&◌, not, Option, none, some, if◌then◌else◌, is_some}
use veyport.Base.Int.{ℤ, pos, ltb_ℤ, leb_ℤ}
use veyport.Base.Time.{Instant, Duration, before, add, sub}
use veyport.Lockout.Policy.{Policy}

abbrev pub kind_web : String
kind_web = "web"

abbrev pub kind_cli : String
kind_cli = "cli"

abbrev pub end_expired_idle : String
end_expired_idle = "expired_idle"

abbrev pub end_expired_absolute : String
end_expired_absolute = "expired_absolute"

pub record State : Type 0 where
  pub kind : String
  pub created_at : Instant
  pub last_seen_at : Instant
  pub expires_at : Option Instant
  pub ended_at : Option Instant

pub data Verdict : Type 0 where
  verdict_ok verdict_ended verdict_expired_idle verdict_expired_absolute : Verdict

-- Verdict.String; the default branch is never reached.
unfoldable pub verdict_name : Verdict → String
verdict_name verdict_ok = "ok"
verdict_name verdict_ended = "ended"
verdict_name verdict_expired_idle = end_expired_idle
verdict_name verdict_expired_absolute = end_expired_absolute

unfoldable pub idle_timeout : String → Policy → Duration
idle_timeout kind p = if str_eq kind kind_cli then p.cli_session_idle else p.session_idle

-- `st.ExpiresAt != nil && !now.Before(*st.ExpiresAt)`
unfoldable pub expired_at : Option Instant → Instant → Bool
expired_at none now = false
expired_at (some expiry) now = not (before now expiry)

unfoldable pub evaluate : State → Instant → Policy → Verdict
unfolding expired_at
evaluate st now p =
    let idle = idle_timeout st.kind p in
    if is_some st.ended_at
    then verdict_ended
    else if expired_at st.expires_at now
    then verdict_expired_absolute
    else if ltb_ℤ (pos 0) idle && ltb_ℤ idle (sub now st.last_seen_at)
    then verdict_expired_idle
    else verdict_ok

unfoldable pub idle_deadline : State → Policy → Option Instant
idle_deadline st p =
    let idle = idle_timeout st.kind p in
    if leb_ℤ idle (pos 0) then none else some (add st.last_seen_at idle)

abbrev pub msg_expired : String
msg_expired = "session expired — sign in again"

abbrev pub msg_ended : String
msg_ended = "session ended — sign in again"

unfoldable pub message : Verdict → String
message verdict_ended = msg_ended
message verdict_expired_idle = msg_expired
message verdict_expired_absolute = msg_expired
message verdict_ok = ""
