-- ===== src/Account/Examples.antt =====
-- The account theorems at a concrete account.
use veyport.Base.{ℕ, ◌*◌, ◌≡◌, refl, true, false, none, some, arith}
use veyport.Base.Int.{pos}
use veyport.Account.{Input, latest_activity, is_dormant}
use veyport.Account.Dormancy.{is_dormant_overflow}

abbrev day : ℕ
day = 86400000000000

-- Created on day 0, last used on day 10.
abbrev used : Input
used = record {
  disabled_at = none;
  locked_until = some (pos (60 * day));
  last_activity_at = some (pos (10 * day));
  reactivated_at = none;
  created_at = pos 0;
  dormancy_exempt = false;
}

is_dormant_overflow_example : is_dormant used (pos (10 * day)) (pos 200000) ≡ true
unfolding latest_activity
is_dormant_overflow_example =
    is_dormant_overflow used (pos (10 * day)) 200000 refl (omega arith) (omega arith) (omega arith)
