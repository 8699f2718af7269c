-- ===== src/Lockout/State.antt =====
-- lockout.go: State, IsLocked, NoAutoUnlock and NextState.
pub mod Attack
use veyport.Base.{ℕ, ◌*◌, ◌+◌, Bool, true, false, ◌&&◌, not, Option, none, some, if◌then◌else◌}
use veyport.Base.Int.{ℤ, pos, ltb_ℤ, leb_ℤ, eqb_ℤ, ◌+ℤ◌, wrap64}
use veyport.Base.Time.{Instant, second, before, add, sub}
use veyport.Lockout.Policy.{Policy}

pub record State : Type 0 where
  pub count : ℤ
  pub last_failed_at : Option Instant
  pub locked_until : Option Instant

-- 9999-12-31 00:00:00 UTC, in nanoseconds of Unix time.
abbrev pub no_auto_unlock : Instant
no_auto_unlock = pos 253402214400000000000

unfoldable pub is_locked : Option Instant → Instant → Bool
is_locked none now = false
is_locked (some until) now = before now until

next_count : State → Option Instant → Instant → Policy → ℤ
next_count prev none now p = pos 1
next_count prev (some failed_at) now p =
    if leb_ℤ (sub now failed_at) p.window then wrap64 (prev.count +ℤ pos 1) else pos 1

-- The new state, and whether this failure locked the account.
unfoldable pub next_state : State → Instant → Policy → State × Bool
unfolding next_count
next_state prev now p =
    let count = next_count prev prev.last_failed_at now p in
    if ltb_ℤ (pos 0) p.threshold
      && (leb_ℤ p.threshold count && not (is_locked prev.locked_until now))
    then (
      record {
        count = count;
        last_failed_at = some now;
        locked_until =
            some (if eqb_ℤ p.duration (pos 0) then no_auto_unlock else add now p.duration);
      },
      true,
    )
    else (
      record { count = count; last_failed_at = some now; locked_until = prev.locked_until },
      false,
    )
