-- ===== src/Store/Users/Management.antt =====
-- store/account_lifecycle_audited.go and accountManagementWrite of account_management.go: role changes
-- and deletions by an administrator. One BEGIN IMMEDIATE transaction each; an error writes nothing.
-- The row of a user in user_roles follows the role column by a trigger; what other triggers write, the
-- security revision among it, is not modelled.
use Prim.Native.String.{String}
use text.Mathlib.Text.{◌==◌ as str_eq}
use veyport.Base.{
  Bool, false, ◌&&◌, not, Option, none, some, List, if◌then◌else◌, find, any, select, update_where,
}
use veyport.Base.Int.{pos, ◌+ℤ◌}
use veyport.Base.Time.{Instant}
use veyport.Store.Rows.{Stamp, stamp, User, Role}
use veyport.Store.Users.{
  Accounts, Result, ok, err, user_not_found, protected_change, not_authorized, not_logged, is_admin,
  with_id, enabled_admin,
}

-- guardAccountManagementActor; `rest` is whether its other clauses hold, on the second factor, the
-- generations, dormancy and the expiry of the session or API token.
unfoldable pub guard_account_management_actor : String → Bool → List User → Bool
guard_account_management_actor actor rest users =
    any (λ u. with_id actor u && enabled_admin u) users && rest

abbrev checked_after :
    String → Bool → Accounts → Result (Unit {0}) × Accounts → Result (Unit {0}) × Accounts
checked_after actor rest s (err e, s') = (err e, s)
checked_after actor rest s (ok tt, s') =
    if guard_account_management_actor actor rest s'.users
    then (ok tt, s')
    else (err not_authorized, s)

-- The writes between two checks of the actor, before and after them.
unfoldable pub account_management_write :
    String
    → Bool
    → Bool
    → (Accounts → Result (Unit {0}) × Accounts)
    → Accounts
    → Result (Unit {0}) × Accounts
account_management_write actor before after write s =
    if guard_account_management_actor actor before s.users
    then checked_after actor after s (write s)
    else (err not_authorized, s)

abbrev pub role_row : Role → Stamp → User → User
role_row role at u = record u {
  role = role;
  dormancy_exempt = if is_admin role then u.dormancy_exempt else false;
  token_generation = u.token_generation +ℤ pos 1;
  updated_at = at;
}

-- `logged` is whether the audit entries are written.
abbrev role_writes :
    String → Role → Stamp → Bool → Accounts → Option User → Result (Unit {0}) × Accounts
role_writes id role at logged s none = (err user_not_found, s)
role_writes id role at logged s (some u) = (
  if logged then ok tt else err not_logged,
  record s { users = update_where (with_id id) (role_row role at) s.users },
)

unfoldable pub update_user_role_audited :
    String
    → Bool
    → Bool
    → Bool
    → Bool
    → String
    → Role
    → Instant
    → Accounts
    → Result (Unit {0}) × Accounts
update_user_role_audited actor before after is_protected logged id role now s =
    account_management_write actor before after
      (λ t.
        if is_protected
        then (err protected_change, t)
        else role_writes id role (stamp now) logged t (find (with_id id) t.users))
      s

abbrev delete_writes : String → Bool → Accounts → Result (Unit {0}) × Accounts
delete_writes id logged s =
    if any (with_id id) s.users
    then (
      if logged then ok tt else err not_logged,
      record {
        users = select (λ u. not (with_id id u)) s.users;
        tokens = select (λ k. not (str_eq k.user_id id)) s.tokens;
      },
    )
    else (err user_not_found, s)

unfoldable pub delete_user_audited :
    String → Bool → Bool → Bool → Bool → String → Accounts → Result (Unit {0}) × Accounts
delete_user_audited actor before after is_protected logged id s =
    account_management_write actor before after
      (λ t. if is_protected then (err protected_change, t) else delete_writes id logged t) s
