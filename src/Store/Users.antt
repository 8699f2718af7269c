-- ===== src/Store/Users.antt =====
-- store/lifecycle.go and store/lockout.go: the account-lifecycle operations and the recording of
-- sign-in results. Each is one BEGIN IMMEDIATE transaction, or one statement; an error writes nothing.
pub mod Management
pub mod Admins
pub mod SignIn
use Prim.Native.String.{String}
use text.Mathlib.Text.{◌==◌ as str_eq}
use veyport.Base.{
  ℕ, ◌==◌, ◌<◌, Bool, true, false, ◌&&◌, ◌||◌, not, Option, none, some, List, [], ◌∷◌,
  if◌then◌else◌, is_some, find, count_where, update_where, ltb,
}
use veyport.Base.Int.{ℤ, pos, ltb_ℤ, ◌+ℤ◌, ◌-ℤ◌}
use veyport.Base.Time.{Instant, second, after}
use veyport.Lockout.Policy.{Policy}
use veyport.Lockout.State
use veyport.Lockout.State.{State, next_state}
use veyport.Account
use veyport.Store.Rows.{
  Stamp, stamp, stamp_ptr, parse, parse_ptr, User, Role, admin, auditor, viewer,
}

-- A row of api_tokens.
pub record ApiToken : Type 0 where
  pub user_id : String
  pub revoked_at : Option Stamp
  pub updated_at : Stamp

pub record Accounts : Type 0 where
  pub users : List User
  pub tokens : List ApiToken

pub data Error : Type 0 where
  user_not_found already_disabled last_admin not_admin protected_change not_one_row : Error
  not_authorized not_logged : Error

pub data Result {ℓ} (A : Type ℓ) : Type ℓ where
  ok : A → Result A
  err : Error → Result A

abbrev pub is_admin : Role → Bool
is_admin admin = true
is_admin auditor = false
is_admin viewer = false

abbrev pub with_id : String → User → Bool
with_id id u = str_eq u.id id

-- `role = 'admin' AND disabled_at IS NULL`
abbrev pub enabled_admin : User → Bool
enabled_admin u = is_admin u.role && not (is_some u.disabled_at)

unfoldable pub count_enabled_admins : List User → ℕ
count_enabled_admins users = count_where enabled_admin users

-- `role = 'admin' AND disabled_at IS NULL AND id != ?`
abbrev pub other_admin : String → User → Bool
other_admin id u = enabled_admin u && not (with_id id u)

-- `id = ? AND disabled_at IS NULL`
abbrev pub enabled_with_id : String → User → Bool
enabled_with_id id u = with_id id u && not (is_some u.disabled_at)

abbrev pub disabled_row : Stamp → String → User → User
disabled_row at by u = record u {
  disabled_at = some at;
  disabled_by = some by;
  token_generation = u.token_generation +ℤ pos 1;
  ssh_credential_generation = u.ssh_credential_generation +ℤ pos 1;
  updated_at = at;
}

abbrev pub live_token : String → ApiToken → Bool
live_token user k = str_eq k.user_id user && not (is_some k.revoked_at)

abbrev pub revoked_row : Stamp → ApiToken → ApiToken
revoked_row at k = record k { revoked_at = some at; updated_at = at }

-- The writes of DisableUser and the number of tokens that they revoke.
disable_writes : String → String → Stamp → Accounts → Result ℕ × Accounts
disable_writes id by at s =
    if count_where (enabled_with_id id) s.users == 1
    then (
      ok (count_where (live_token id) s.tokens),
      record {
        users = update_where (enabled_with_id id) (disabled_row at by) s.users;
        tokens = update_where (live_token id) (revoked_row at) s.tokens;
      },
    )
    else (err not_one_row, s)

disable_found : String → String → Stamp → Accounts → Option User → Result ℕ × Accounts
unfolding disable_writes
disable_found id by at s none = (err user_not_found, s)
disable_found id by at s (some u) =
    if is_some u.disabled_at
    then (err already_disabled, s)
    else if is_admin u.role && count_where (other_admin id) s.users == 0
    then (err last_admin, s)
    else disable_writes id by at s

unfoldable pub disable_user : String → String → Instant → Accounts → Result ℕ × Accounts
unfolding disable_found
disable_user id by now s = disable_found id by (stamp now) s (find (with_id id) s.users)

abbrev pub enabled_row : Stamp → User → User
enabled_row at u = record u {
  disabled_at = none;
  disabled_by = none;
  locked_until = none;
  failed_login_count = pos 0;
  reactivated_at = if is_some u.disabled_at then some at else u.reactivated_at;
  updated_at = at;
}

enable_found : String → Stamp → Accounts → Option User → Result Bool × Accounts
enable_found id at s none = (err user_not_found, s)
enable_found id at s (some u) = (
  ok (is_some u.disabled_at),
  record s { users = update_where (with_id id) (enabled_row at) s.users },
)

-- `is_protected` is the answer of guardSecurityPrincipal, which reads the governance tables.
unfoldable pub enable_user : Bool → String → Instant → Accounts → Result Bool × Accounts
unfolding enable_found
enable_user is_protected id now s =
    if is_protected
    then (err protected_change, s)
    else enable_found id (stamp now) s (find (with_id id) s.users)

-- `until != nil && until.After(now)`
abbrev pub still_locked : Option Instant → Instant → Bool
still_locked none now = false
still_locked (some until) now = after until now

abbrev pub unlocked_row : Bool → Stamp → User → User
unlocked_row was_locked at u = record u {
  locked_until = none;
  failed_login_count = pos 0;
  reactivated_at = if was_locked then some at else u.reactivated_at;
  updated_at = at;
}

unlock_found : String → Instant → Accounts → Option User → Result Bool × Accounts
unlock_found id now s none = (err user_not_found, s)
unlock_found id now s (some u) =
    let was_locked = still_locked (parse_ptr u.locked_until) now in
    (
      ok was_locked,
      record s { users = update_where (with_id id) (unlocked_row was_locked (stamp now)) s.users },
    )

unfoldable pub unlock_user : String → Instant → Accounts → Result Bool × Accounts
unfolding unlock_found
unlock_user id now s = unlock_found id now s (find (with_id id) s.users)

exempt_missed : Option User → Result (Unit {0})
exempt_missed none = err user_not_found
exempt_missed (some u) = err not_admin

-- `id = ? AND role = 'admin'`
abbrev pub admin_with_id : String → User → Bool
admin_with_id id u = with_id id u && is_admin u.role

unfoldable pub set_dormancy_exempt :
    String → Bool → Instant → Accounts → Result (Unit {0}) × Accounts
unfolding exempt_missed
set_dormancy_exempt id exempt now s =
    let users =
      update_where (admin_with_id id)
        (λ u. record u { dormancy_exempt = exempt; updated_at = stamp now }) s.users in
    (
      if ltb 0 (count_where (admin_with_id id) s.users)
          then ok tt
          else exempt_missed (find (with_id id) users),
      record s { users = users },
    )

abbrev pub activity_throttle : ℕ
activity_throttle = 60000000000

-- `last_activity_at IS NULL OR last_activity_at < ?`
abbrev pub stale_activity : Option Stamp → Stamp → Bool
stale_activity none threshold = true
stale_activity (some at) threshold = ltb_ℤ at threshold

unfoldable pub touch_user_activity : String → Instant → Accounts → Accounts
touch_user_activity id now s = record s {
  users =
      update_where
        (λ u.
          with_id id u && stale_activity u.last_activity_at (stamp (now -ℤ pos activity_throttle)))
        (λ u. record u { last_activity_at = some (stamp now) }) s.users;
}

pub record FailureResult : Type 0 where
  pub count : ℤ
  pub locked_until : Option Instant
  pub newly_locked : Bool

-- The lockout state that a row stores.
unfoldable pub lockout_state : User → State
lockout_state u = record {
  count = u.failed_login_count;
  last_failed_at = parse_ptr u.last_failed_login_at;
  locked_until = parse_ptr u.locked_until;
}

abbrev pub failed_row : State → Stamp → User → User
failed_row next at u = record u {
  failed_login_count = next.count;
  last_failed_login_at = stamp_ptr next.last_failed_at;
  locked_until = stamp_ptr next.locked_until;
  updated_at = at;
}

failure_found : String → Instant → Policy → Accounts → Option User → Result FailureResult × Accounts
failure_found id now p s none = (err user_not_found, s)
failure_found id now p s (some u) =
    let (next, newly_locked) = next_state (lockout_state u) now p in
    (
      ok (record {
        count = next.count;
        locked_until = next.locked_until;
        newly_locked = newly_locked;
      }),
      record s { users = update_where (with_id id) (failed_row next (stamp now)) s.users },
    )

unfoldable pub record_login_failure :
    String → Instant → Policy → Accounts → Result FailureResult × Accounts
unfolding failure_found
record_login_failure id now p s = failure_found id now p s (find (with_id id) s.users)

abbrev pub succeeded_row : Stamp → User → User
succeeded_row at u = record u {
  failed_login_count = pos 0;
  last_login_at = some at;
  locked_until = none;
  last_activity_at = some at;
  updated_at = at;
}

unfoldable pub record_login_success : String → Instant → Accounts → Result (Unit {0}) × Accounts
record_login_success id now s = (
  if count_where (with_id id) s.users == 0 then err user_not_found else ok tt,
  record s { users = update_where (with_id id) (succeeded_row (stamp now)) s.users },
)

-- account.InputFromUser over a row as the store reads it.
unfoldable pub input_from_user : User → Account.Input
input_from_user u = record {
  disabled_at = parse_ptr u.disabled_at;
  locked_until = parse_ptr u.locked_until;
  last_activity_at = parse_ptr u.last_activity_at;
  reactivated_at = parse_ptr u.reactivated_at;
  created_at = parse u.created_at;
  dormancy_exempt = u.dormancy_exempt;
}
