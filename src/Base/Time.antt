-- ===== src/Base/Time.antt =====
-- Go's time.Time and time.Duration: an instant is a whole number of nanoseconds on one time line, a
-- duration an int64 of nanoseconds.
use veyport.Base.Tests.{if◌then◌else◌}
use veyport.Base.Int.{ℤ, ◌+ℤ◌, ◌-ℤ◌, ◌≤ℤ◌, ◌<ℤ◌, ltb_ℤ, min_int64, max_int64}
use Prim.Native.Nat.{ℕ}
use mathlib.Core.Path.{◌≡◌}
use mathlib.Core.Bool.{Bool}
use native.Mathlib.Omega.{arith}

abbrev pub Instant : Type 0
Instant = ℤ

abbrev pub Duration : Type 0
Duration = ℤ

abbrev pub second : ℕ
second = 1000000000

abbrev pub minute : ℕ
minute = 60000000000

abbrev pub hour : ℕ
hour = 3600000000000

-- t.Before(u), t.After(u)
abbrev pub before : Instant → Instant → Bool
before t u = ltb_ℤ t u

abbrev pub after : Instant → Instant → Bool
after t u = ltb_ℤ u t

-- t.Add(d)
abbrev pub add : Instant → Duration → Instant
add t d = t +ℤ d

-- t.Sub(u), which saturates at the ends of int64.
unfoldable pub sub : Instant → Instant → Duration
sub t u =
    let d = t -ℤ u in
    if ltb_ℤ max_int64 d then max_int64 else if ltb_ℤ d min_int64 then min_int64 else d

-- For a limit that is itself an int64, below its maximum, saturation does not change the test.
pub sub_gt :
    (t u : Instant) (d : Duration)
    → d <ℤ max_int64
    → min_int64 ≤ℤ d
    → (ltb_ℤ d (sub t u) ≡ ltb_ℤ (u +ℤ d) t)
unfolding sub ◌-ℤ◌ ◌+ℤ◌
sub_gt t u d h k = ground arith
