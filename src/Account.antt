-- ===== src/Account.antt =====
-- hub/internal/account/account.go: an account's status, derived from the columns of its user row, a
-- policy and a point in time.
pub mod Dormancy
pub mod Severity
mod Examples
use Prim.Native.String.{String}
use veyport.Base.{Bool, true, false, ◌||◌, Option, none, some, if◌then◌else◌, is_some}
use veyport.Base.Int.{ℤ, pos, ltb_ℤ, leb_ℤ}
use veyport.Base.Time.{Instant, Duration, hour, after, sub}
use veyport.Lockout.Policy.{Policy, times}
use veyport.Lockout.State.{is_locked}

pub data Status : Type 0 where
  active locked disabled dormant : Status

pub record Input : Type 0 where
  pub disabled_at : Option Instant
  pub locked_until : Option Instant
  pub last_activity_at : Option Instant
  pub reactivated_at : Option Instant
  pub created_at : Instant
  pub dormancy_exempt : Bool

-- `if t != nil && t.After(latest) { latest = *t }`
later_of : Option Instant → Instant → Instant
later_of none latest = latest
later_of (some t) latest = if after t latest then t else latest

unfoldable pub latest_activity : Input → Instant
unfolding later_of
latest_activity input =
    later_of input.reactivated_at (later_of input.last_activity_at input.created_at)

-- time.Duration(days) * 24 * time.Hour
unfoldable pub dormancy_limit : ℤ → Duration
dormancy_limit days = times (times days 24) hour

unfoldable pub is_dormant : Input → Instant → ℤ → Bool
is_dormant input now dormant_days =
    if input.dormancy_exempt || leb_ℤ dormant_days (pos 0)
    then false
    else ltb_ℤ (dormancy_limit dormant_days) (sub now (latest_activity input))

unfoldable pub evaluate : Input → Instant → Policy → Status
evaluate input now p =
    if is_some input.disabled_at
    then disabled
    else if is_dormant input now p.dormant_days
    then dormant
    else if is_locked input.locked_until now
    then locked
    else active

abbrev pub msg_disabled : String
msg_disabled = "account disabled — contact an administrator"

abbrev pub msg_dormant : String
msg_dormant = "account dormant — contact an administrator"

-- The message shown when access is refused, and whether it is refused.
unfoldable pub refusal : Status → String × Bool
refusal disabled = (msg_disabled, true)
refusal dormant = (msg_dormant, true)
refusal active = ("", false)
refusal locked = ("", false)
