-- ===== src/Lockout/Examples.antt =====
-- The lockout theorems at concrete policies and failures, and tests.
use veyport.Base.{ℕ, ◌*◌, ◌≡◌, refl, none, some, [], ◌∷◌, arith, if◌then◌else◌}
use veyport.Base.Int.{pos, ◌+ℤ◌, ◌-ℤ◌, scale, wrap64}
use veyport.Base.Time.{Instant, sub, minute}
use veyport.Base.Text.{codes, atoi, trim_space}
use text.Mathlib.Text.{◌==◌ as str_eq}
use veyport.Lockout.Policy.{Getter, Field, defaults, load_int, load, validate, times}
use veyport.Lockout.Policy.Validity.{validate-load_window}
use veyport.Lockout.State.{State}
use veyport.Lockout.State.Attack.{failures, locks, fresh, Streak-locks}

-- The instant `n` minutes after the epoch.
abbrev at : ℕ → Instant
at n = pos (n * minute)

abbrev unset : Getter
unset key = none

abbrev wide_window : Getter
wide_window key =
    if str_eq key "account.lockout_window_minutes" then some (codes " 153722868 ") else none

load-defaults : load unset ≡ defaults
unfolding load load_int defaults times scale wrap64
load-defaults = refl

validate-load_window_example : validate (load wide_window) ≡ some Field.window
unfolding load_int atoi trim_space
validate-load_window_example =
    validate-load_window wide_window 153722868 refl (omega arith) (omega arith)

abbrev attacked : State
attacked = record { count = pos 5; last_failed_at = some (at 4); locked_until = some (at 19) }

Streak-locks_example :
    (locks defaults fresh (at 0 ∷ at 1 ∷ at 2 ∷ at 3 ∷ at 4 ∷ []) ≡ 1)
    × ((failures defaults fresh (at 0 ∷ at 1 ∷ at 2 ∷ at 3 ∷ at 4 ∷ [])).locked_until
        ≡ some (at 19))
unfolding defaults sub ◌-ℤ◌ ◌+ℤ◌
Streak-locks_example =
    Streak-locks defaults (at 0) (at 1 ∷ at 2 ∷ at 3 ∷ at 4 ∷ []) 5 refl (omega arith)
      (refl, (refl, (refl, (refl, tt)))) (omega arith) refl
