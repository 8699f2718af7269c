-- ===== src/Account/Severity.antt =====
-- The precedence of the four statuses, and which of them refuse access.
use Prim.Native.Nat.{max}
use veyport.Base.{ℕ, ◌≡◌, refl, Option, arith, if◌then◌else◌, is_some, ◌||◌}
use veyport.Base.Time.{Instant}
use veyport.Lockout.Policy.{Policy}
use veyport.Lockout.State.{is_locked}
use veyport.Account.{
  Status, active, locked, disabled, dormant, Input, latest_activity, is_dormant, evaluate, refusal,
}

-- disabled > dormant > locked > active
abbrev pub severity : Status → ℕ
severity active = 0
severity locked = 1
severity dormant = 2
severity disabled = 3

-- The derived status is the most severe one that applies: disabled for a disabled account, dormant
-- for a dormant one, locked under a lock that still runs, and active when none of them holds.
pub severity-evaluate :
    (input : Input) (now : Instant) (p : Policy)
    → severity (evaluate input now p)
      ≡ max (if is_some input.disabled_at then severity disabled else severity active) (
          max
            (if is_dormant input now p.dormant_days then severity dormant else severity active)
            (if is_locked input.locked_until now then severity locked else severity active))
unfolding evaluate
severity-evaluate input now p = ground arith

is_dormant-lock :
    (input : Input) (until : Option Instant) (now : Instant) (p : Policy)
    → is_dormant (record input { locked_until = until }) now p.dormant_days
      ≡ is_dormant input now p.dormant_days
unfolding is_dormant latest_activity
is_dormant-lock input until now p = refl

-- Access is refused exactly for disabled and dormant accounts; a lock, whatever its expiry, never
-- refuses access nor lifts a refusal.
pub refusal-evaluate :
    (input : Input) (until : Option Instant) (now : Instant) (p : Policy)
    → (refusal (evaluate (record input { locked_until = until }) now p)).1
      ≡ (is_some input.disabled_at || is_dormant input now p.dormant_days)
unfolding evaluate refusal
refusal-evaluate input until now p = ground (arith, is_dormant-lock input until now p)
