-- ===== src/Session/Deadline.antt =====
-- How the verdict on a session moves with time.
use veyport.Base.{◌≡◌, ◌≢◌, Bool, false, Option, none, some, arith, is_some, if◌then◌else◌}
use veyport.Base.Int.{◌≤ℤ◌, ◌<ℤ◌, ◌+ℤ◌, ◌-ℤ◌, max_int64}
use veyport.Base.Time.{Instant, after, sub}
use veyport.Lockout.Policy.{Policy}
use veyport.Session.{
  State, verdict_ok, verdict_ended, verdict_expired_idle, verdict_expired_absolute, idle_timeout,
  expired_at, evaluate, idle_deadline,
}

-- The deadline has passed strictly; without a deadline it never does.
abbrev pub past : Option Instant → Instant → Bool
past none now = false
past (some deadline) now = after now deadline

-- The verdict and the displayed deadline agree: for an idle limit below the largest duration, a
-- session is judged ended when it was ended, else past its absolute expiry at that instant and after, else
-- idle exactly strictly after IdleDeadline, else live.
pub evaluate-idle_deadline :
    (st : State) (now : Instant) (p : Policy)
    → idle_timeout st.kind p <ℤ max_int64
    → evaluate st now p ≡ (
        if is_some st.ended_at
        then verdict_ended
        else if expired_at st.expires_at now
        then verdict_expired_absolute
        else if past (idle_deadline st p) now
        then verdict_expired_idle
        else verdict_ok)
unfolding evaluate idle_deadline sub ◌+ℤ◌ ◌-ℤ◌
evaluate-idle_deadline st now p h = ground arith

-- A session that is refused stays refused: under the same policy and with no new request on its row,
-- no later time brings the verdict back to live.
pub evaluate-refused :
    (st : State) (now later : Instant) (p : Policy)
    → now ≤ℤ later
    → evaluate st now p ≢ verdict_ok
    → evaluate st later p ≢ verdict_ok
unfolding evaluate sub ◌-ℤ◌
evaluate-refused st now later p h r = ground arith

-- The verdict depends on the idle limit of the session's own kind only: setting both limits of the
-- policy to that one changes nothing, so the CLI limit never reaches a web session or one of an unknown kind,
-- nor the web limit a CLI session.
pub evaluate_own_limit :
    (st : State) (now : Instant) (p : Policy)
    → let idle = idle_timeout st.kind p in
      evaluate st now (record p { session_idle = idle; cli_session_idle = idle })
      ≡ evaluate st now p
unfolding evaluate idle_timeout
evaluate_own_limit st now p = ground arith
