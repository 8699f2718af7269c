-- ===== src/Store/Examples.antt =====
-- The store theorems at a small table of sessions and accounts.
use Prim.Native.String.{String}
use text.Mathlib.TextEquality.{eq_iff}
use veyport.Base.{
  ℕ, ◌*◌, ◌≡◌, ◌<◌, refl, true, false, none, some, List, [], ◌∷◌, arith, any, count_where,
  update_where,
}
use veyport.Base.Int.{pos, ◌-ℤ◌, scale}
use veyport.Base.Time.{Instant, second, sub}
use veyport.Lockout.Policy.{defaults}
use veyport.Session.{evaluate, idle_timeout}
use veyport.Store.Rows.{stamp, parse, Session, User, admin, auditor}
use veyport.Store.Sessions.{Table, NewSession, end_one}
use veyport.Store.Sessions.Ending.{Unique}
use veyport.Store.Sessions.History.{Op, run, run-end_one, Dead}
use veyport.Store.Users.{Accounts, count_enabled_admins, disable_user}
use veyport.Store.Users.Admins
use veyport.Store.Users.Admins.{run-count_enabled_admins, disable_user-Outcome, Outcome}
use veyport.Store.Refresh.{
  Authority, rotate_session_refresh, in_time, state_from_model, valid_hash, spendable,
  current_authority, acceptable,
}
use veyport.Store.Refresh.Rotation.{rotate_session_refresh_once}
use veyport.Store.Refresh.Shut.{goes_back}
use veyport.Store.Refresh.Verdict.{in_time-live}

abbrev hash_a : String
hash_a = "aaaaaaaaaaaaaaaaaaaaaaaaaaaaaaaaaaaaaaaaaaaaaaaaaaaaaaaaaaaaaaaa"

abbrev hash_b : String
hash_b = "bbbbbbbbbbbbbbbbbbbbbbbbbbbbbbbbbbbbbbbbbbbbbbbbbbbbbbbbbbbbbbbb"

abbrev hash_c : String
hash_c = "cccccccccccccccccccccccccccccccccccccccccccccccccccccccccccccccc"

abbrev live_row : Session
live_row = record {
  id = "s1";
  user_id = "u1";
  kind = "web";
  ip = "";
  user_agent = "";
  created_at = pos 0;
  last_seen_at = pos 600;
  expires_at = some (pos 43200);
  ended_at = none;
  end_reason = none;
  ended_by = none;
  refresh_token_sha256 = hash_a;
}

abbrev ended_row : Session
ended_row = record live_row { id = "s2"; ended_at = some (pos 700); end_reason = some "logout" }

abbrev table : Table
table = live_row ∷ ended_row ∷ []

table-Unique : Unique table
unfolding any
table-Unique = (refl, (refl, tt))

-- The instant `n` seconds after the epoch.
abbrev at : ℕ → Instant
at n = pos (n * second)

abbrev someone : User
someone = record {
  id = "u1";
  role = admin;
  failed_login_count = pos 5;
  last_failed_login_at = some (pos 240);
  locked_until = some (pos 1140);
  last_login_at = none;
  last_activity_at = none;
  reactivated_at = none;
  disabled_at = none;
  disabled_by = none;
  created_at = pos 0;
  updated_at = pos 240;
  dormancy_exempt = false;
  totp_enabled = true;
  must_change_password = false;
  token_generation = pos 1;
  ssh_credential_generation = pos 1;
  security_revision = pos 0;
}

abbrev accounts : Accounts
accounts = record {
  users = someone ∷ record someone { id = "u2" } ∷ [];
  tokens = record { user_id = "u1"; revoked_at = none; updated_at = pos 0 } ∷ [];
}

abbrev signed_in : NewSession
signed_in = record {
  id = "s3";
  user_id = "u1";
  kind = "cli";
  ip = "";
  user_agent = "vey/1";
  created_at = at 10;
  last_seen_at = at 10;
  expires_at = none;
}

run-end_one_example : Dead "s1" (
    run
      (Op.create (someone ∷ []) signed_in ∷ Op.touch "s1" (at 990) (pos 0) ∷ [])
      (end_one "s1" "logout" none (at 900) table).1)
run-end_one_example =
    run-end_one (Op.create (someone ∷ []) signed_in ∷ Op.touch "s1" (at 990) (pos 0) ∷ []) "s1"
      "logout" none (at 900) table (refl, (tt, tt))

run-count_enabled_admins_example :
    0
    < count_enabled_admins
        (Admins.run
          (Admins.disable "u1" "u2" (at 900)
            ∷ Admins.role "u2" true true false true "u2" auditor (at 901)
            ∷ [])
          accounts).users
unfolding count_enabled_admins count_where
run-count_enabled_admins_example =
    run-count_enabled_admins
      (Admins.disable "u1" "u2" (at 900)
        ∷ Admins.role "u2" true true false true "u2" auditor (at 901)
        ∷ [])
      accounts (omega arith)

disable_user-Outcome_example : Outcome "u1" accounts (disable_user "u1" "u2" (at 900) accounts)
disable_user-Outcome_example = disable_user-Outcome "u1" "u2" (at 900) accounts

abbrev authority : Authority
authority = record {
  id = "u1";
  token_generation = pos 1;
  security_revision = pos 0;
  must_change_password = false;
}

abbrev rotated_table : Table
rotated_table =
    record live_row { refresh_token_sha256 = hash_b; last_seen_at = pos 700 } ∷ ended_row ∷ []

abbrev moves_on : List Op
moves_on =
    Op.touch "s1" (at 720) (pos 0)
    ∷ Op.rotate (someone ∷ []) authority "s1" hash_b hash_c (at 750) defaults
    ∷ []

rotate_session_refresh_once_example :
    rotate_session_refresh
      (someone ∷ [])
      authority
      "s1"
      hash_a
      hash_a
      (at 800)
      defaults
      (run moves_on rotated_table)
    ≡ none
unfolding any rotate_session_refresh valid_hash acceptable spendable current_authority in_time
    idle_timeout stamp count_where update_where defaults goes_back ◌-ℤ◌
rotate_session_refresh_once_example =
    rotate_session_refresh_once (someone ∷ []) (someone ∷ []) authority authority "s1" hash_a hash_b
      hash_a (at 700) (at 800) defaults defaults moves_on table rotated_table table-Unique
      (λ e. ground (arith, eq_iff hash_a "")) refl refl

in_time-live_example : in_time live_row (at 1500) defaults ≡ true
unfolding idle_timeout defaults evaluate state_from_model parse scale sub ◌-ℤ◌
in_time-live_example = in_time-live live_row (at 1500) defaults (omega arith) refl
