-- ===== src/Store/Refresh/Verdict.antt =====
-- The expiry clauses of the rotation against the verdict of hub/internal/session.
use Prim.Native.String.{String}
use text.Mathlib.Text.{◌==◌ as str_eq}
use veyport.Base.{
  ◌≡◌, refl, ◌⊎◌, true, false, ◌&&◌, ◌||◌, not, Option, none, some, arith, if◌then◌else◌,
}
use veyport.Base.Int.{pos, negsuc, ltb_ℤ, leb_ℤ, ◌≤ℤ◌, ◌<ℤ◌, ◌+ℤ◌, ◌-ℤ◌, scale, max_int64}
use veyport.Base.Time.{Instant, second, sub}
use veyport.Lockout.Policy.{Policy}
use veyport.Session.{evaluate, idle_timeout, expired_at, kind_cli, kind_web, verdict_ok}
use veyport.Store.Rows.{Stamp, stamp, parse, parse_ptr, Session}
use veyport.Store.Refresh.{not_expired, in_time, state_from_model}

stamp-lt : (t : Instant) (e : Stamp) → ltb_ℤ (stamp t) e ≡ ltb_ℤ t (parse e)
unfolding stamp parse scale
stamp-lt (pos n) (pos m) = ground arith
stamp-lt (pos n) (negsuc m) = ground arith
stamp-lt (negsuc n) (pos m) = ground arith
stamp-lt (negsuc n) (negsuc m) = ground arith

not_expired_lem :
    (o : Option Stamp) (now : Instant)
    → not_expired o (stamp now) ≡ not (expired_at (parse_ptr o) now)
unfolding expired_at
not_expired_lem none now = refl
not_expired_lem (some e) now = rw (stamp-lt now e) (ground arith)

-- A time is at most a whole second, up to the end of that second.
stamp-le : (t : Instant) (a : Stamp) → leb_ℤ (stamp t) a ≡ ltb_ℤ t (parse a +ℤ pos second)
unfolding stamp parse scale ◌+ℤ◌
stamp-le (pos n) (pos m) = ground arith
stamp-le (pos n) (negsuc m) = ground arith
stamp-le (negsuc n) (pos m) = ground arith
stamp-le (negsuc n) (negsuc m) = ground arith

kind_idle :
    (kind : String) (p : Policy)
    → (if str_eq kind kind_cli then idle_timeout kind_cli p else idle_timeout kind_web p)
      ≡ idle_timeout kind p
unfolding idle_timeout
kind_idle kind p = ground arith

in_time_lem :
    (row : Session) (now : Instant) (p : Policy)
    → in_time row now p ≡ (
        not (expired_at (parse_ptr row.expires_at) now)
        && (leb_ℤ (idle_timeout row.kind p) (pos 0)
            || ltb_ℤ (now -ℤ idle_timeout row.kind p) (parse row.last_seen_at +ℤ pos second)))
unfolding in_time
in_time_lem row now p =
    rw
      (
        kind_idle row.kind p,
        not_expired_lem row.expires_at now,
        stamp-le (now -ℤ idle_timeout row.kind p) row.last_seen_at,
      )
      refl

evaluate-in_time :
    (row : Session) (now : Instant) (p : Policy)
    → idle_timeout row.kind p <ℤ max_int64
    → evaluate (state_from_model row) now p ≡ verdict_ok
    → (not (expired_at (parse_ptr row.expires_at) now)
        && (leb_ℤ (idle_timeout row.kind p) (pos 0)
            || ltb_ℤ (now -ℤ idle_timeout row.kind p) (parse row.last_seen_at +ℤ pos second)))
      ≡ true
unfolding evaluate state_from_model sub ◌+ℤ◌ ◌-ℤ◌
evaluate-in_time row now p h ok = ground arith

-- The rotation refuses no session on time grounds that Evaluate finds live, for an idle limit below
-- the largest duration.
pub in_time-live :
    (row : Session) (now : Instant) (p : Policy)
    → idle_timeout row.kind p <ℤ max_int64
    → evaluate (state_from_model row) now p ≡ verdict_ok
    → in_time row now p ≡ true
in_time-live row now p h ok = rw (in_time_lem row now p) (evaluate-in_time row now p h ok)

-- And it admits little more: a row that is in time for a rotation is not past its absolute expiry,
-- and went unused for less than its idle limit, if it has one, plus the second that stored times drop.
pub in_time-bounded :
    (row : Session) (now : Instant) (p : Policy)
    → in_time row now p ≡ true
    → (expired_at (parse_ptr row.expires_at) now ≡ false)
      × ((idle_timeout row.kind p ≤ℤ pos 0)
          ⊎ (now <ℤ parse row.last_seen_at +ℤ pos second +ℤ idle_timeout row.kind p))
unfolding ◌+ℤ◌ ◌-ℤ◌
in_time-bounded row now p admitted = ground (arith, in_time_lem row now p)
