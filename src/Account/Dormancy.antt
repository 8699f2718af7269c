-- ===== src/Account/Dormancy.antt =====
-- When an account is dormant.
use veyport.Base.{ℕ, ◌*◌, ◌≤◌, ◌<◌, ◌≡◌, ◌⊎◌, true, false, Option, none, some, arith}
use veyport.Base.Int.{ℤ, pos, ◌≤ℤ◌, ◌<ℤ◌, ltb_ℤ, ◌+ℤ◌, ◌-ℤ◌, scale, wrap64}
use veyport.Base.Time.{Instant, sub}
use veyport.Lockout.Policy.{times}
use veyport.Account.{Input, later_of, latest_activity, dormancy_limit, is_dormant}

dormancy_limit_fits : (n : ℕ) → n ≤ 106751 → dormancy_limit (pos n) ≡ pos (n * 86400000000000)
unfolding dormancy_limit times scale wrap64
dormancy_limit_fits n h = ground arith

dormancy_limit_wraps : (n : ℕ) → 106751 < n → n ≤ 213503 → dormancy_limit (pos n) <ℤ pos 0
unfolding dormancy_limit times scale wrap64
dormancy_limit_wraps n h k = ground arith

-- For a limit of 1 to 106751 days (292 years) the int64 arithmetic is exact: an account that is not
-- exempt is dormant exactly when its latest activity plus the limit lies strictly before now.
pub is_dormant_lem :
    (input : Input) (now : Instant) (n : ℕ)
    → input.dormancy_exempt ≡ false
    → 0 < n
    → n ≤ 106751
    → is_dormant input now (pos n) ≡ ltb_ℤ (latest_activity input +ℤ pos (n * 86400000000000)) now
unfolding is_dormant sub ◌+ℤ◌ ◌-ℤ◌
is_dormant_lem input now n e lo hi = ground (arith, dormancy_limit_fits n)

-- Above that the limit wraps: from 106752 to 213503 days it is negative, and every account that is
-- not exempt is dormant at the very moment of its latest activity and ever after.
pub is_dormant_overflow :
    (input : Input) (now : Instant) (n : ℕ)
    → input.dormancy_exempt ≡ false
    → 106751 < n
    → n ≤ 213503
    → latest_activity input ≤ℤ now
    → is_dormant input now (pos n) ≡ true
unfolding is_dormant sub ◌-ℤ◌
is_dormant_overflow input now n e lo hi h = ground (arith, dormancy_limit_wraps n)

-- Dormancy does not pass by itself: an account that is dormant stays dormant at every later time,
-- whatever the limit, as long as its row does not change.
pub is_dormant_mono :
    (input : Input) (now later : Instant) (days : ℤ)
    → now ≤ℤ later
    → is_dormant input now days ≡ true
    → is_dormant input later days ≡ true
unfolding is_dormant sub ◌-ℤ◌
is_dormant_mono input now later days h d = ground arith

later_of-ge : (o : Option Instant) (t : Instant) → t ≤ℤ later_of o t
unfolding later_of
later_of-ge none t = omega arith
later_of-ge (some u) t = ground arith

later_of-some : (u t : Instant) → u ≤ℤ later_of (some u) t
unfolding later_of
later_of-some u t = ground arith

-- One of the three stamps of the activity clock.
abbrev pub HasActivity : Input → Instant → Type 0
HasActivity input u =
    (input.created_at ≡ u) ⊎ (input.last_activity_at ≡ some u) ⊎ (input.reactivated_at ≡ some u)

pub latest_activity-ge :
    (input : Input) (u : Instant) → HasActivity input u → u ≤ℤ latest_activity input
unfolding latest_activity later_of
latest_activity-ge input u h = ground arith

-- A creation, sign-in or reactivation keeps an account from being dormant for the whole limit: it is
-- not dormant at any time up to that stamp plus the limit of 1 to 106751 days.
pub is_dormant-HasActivity :
    (input : Input) (u now : Instant) (n : ℕ)
    → HasActivity input u
    → 0 < n
    → n ≤ 106751
    → now ≤ℤ u +ℤ pos (n * 86400000000000)
    → is_dormant input now (pos n) ≡ false
unfolding is_dormant sub ◌+ℤ◌ ◌-ℤ◌
is_dormant-HasActivity input u now n a lo hi h =
    ground (arith, dormancy_limit_fits n, latest_activity-ge input u a)
