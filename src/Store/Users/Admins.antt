-- ===== src/Store/Users/Admins.antt =====
-- The last-admin guard, and what disabling an account leaves behind.
use Prim.Native.String.{String}
use veyport.Base.{
  ℕ, ◌<◌, ◌≡◌, refl, Bool, true, false, Option, none, some, List, [], ◌∷◌, arith, is_some, find,
  any, count_where, update_where, any-update_where, count_where-update_where_le,
  count_where-update_where, ◌&&◌, any-imp,
}
use veyport.Base.Time.{Instant}
use veyport.Lockout.Policy.{Policy}
use veyport.Store.Rows.{Stamp, stamp, User, Role}
use veyport.Base.Counts.{any-count_where}
use veyport.Store.Users.Management.{
  account_management_write, guard_account_management_actor, update_user_role_audited,
  delete_user_audited,
}
use veyport.Store.Users.{
  ApiToken, Accounts, Result, ok, err, is_admin, with_id, enabled_admin, other_admin,
  enabled_with_id, count_enabled_admins, disabled_row, live_token, revoked_row, disable_writes,
  disable_found, disable_user, enabled_row, enable_found, enable_user, unlock_found, unlock_user,
  set_dormancy_exempt, touch_user_activity, failure_found, record_login_failure,
  record_login_success,
}

-- Disabling an account takes it out of the enabled administrators and keeps all others.
count_disabled :
    (id by : String) (at : Stamp) (us : List User)
    → count_where enabled_admin (update_where (enabled_with_id id) (disabled_row at by) us)
      ≡ count_where (other_admin id) us
count_disabled id by at us =
    count_where-update_where enabled_admin (other_admin id) (enabled_with_id id)
      (disabled_row at by) us (λ x. ground arith)

no_enabled :
    (id : String) (us : List User)
    → count_where (enabled_with_id id) us ≡ 0
    → count_where (other_admin id) us ≡ count_where enabled_admin us
unfolding count_where
no_enabled id [] h = refl
no_enabled id (x ∷ us) h = ground (arith, no_enabled id us)

-- Where the one enabled row of an id is no administrator, the other administrators are all of them.
count_other :
    (id : String) (us : List User) (u : User)
    → find (with_id id) us ≡ some u
    → is_some u.disabled_at ≡ false
    → is_admin u.role ≡ false
    → count_where (enabled_with_id id) us ≡ 1
    → count_where (other_admin id) us ≡ count_where enabled_admin us
unfolding count_where find
count_other id [] u e d a one = ground arith
count_other id (x ∷ us) u e d a one = ground (arith, no_enabled id us, count_other id us u)

disable_found-admins :
    (id by : String) (at : Stamp) (s : Accounts) (o : Option User)
    → find (with_id id) s.users ≡ o
    → 0 < count_where enabled_admin s.users
    → 0 < count_where enabled_admin (disable_found id by at s o).1.users
unfolding disable_found disable_writes
disable_found-admins id by at s none e h = h
disable_found-admins id by at s (some u) e h =
    ground (arith, count_disabled id by at s.users, count_other id s.users u)

-- The operations on accounts.
pub data Op : Type 0 where
  disable : String → String → Instant → Op
  enable : Bool → String → Instant → Op
  unlock : String → Instant → Op
  exempt : String → Bool → Instant → Op
  touch : String → Instant → Op
  failure : String → Instant → Policy → Op
  success : String → Instant → Op
  role : String → Bool → Bool → Bool → Bool → String → Role → Instant → Op
  delete : String → Bool → Bool → Bool → Bool → String → Op

unfoldable pub apply : Op → Accounts → Accounts
apply (disable id by now) s = (disable_user id by now s).1
apply (enable guarded id now) s = (enable_user guarded id now s).1
apply (unlock id now) s = (unlock_user id now s).1
apply (exempt id flag now) s = (set_dormancy_exempt id flag now s).1
apply (touch id now) s = touch_user_activity id now s
apply (failure id now p) s = (record_login_failure id now p s).1
apply (success id now) s = (record_login_success id now s).1
apply (role actor before after guarded logged id to now) s =
    (update_user_role_audited actor before after guarded logged id to now s).1
apply (delete actor before after guarded logged id) s =
    (delete_user_audited actor before after guarded logged id s).1

unfoldable pub run : List Op → Accounts → Accounts
run [] s = s
run (op ∷ ops) s = run ops (apply op s)

-- An update that takes no administrator's role or standing keeps their number.
kept :
    (test : User → Bool) (f : User → User) (us : List User)
    → ((x : User) → enabled_admin x ≡ true → enabled_admin (f x) ≡ true)
    → 0 < count_where enabled_admin us
    → 0 < count_where enabled_admin (update_where test f us)
kept test f us keep h = omega (arith, count_where-update_where_le enabled_admin test f us keep)

enable_found-admins :
    (id : String) (at : Stamp) (s : Accounts) (o : Option User)
    → 0 < count_where enabled_admin s.users
    → 0 < count_where enabled_admin (enable_found id at s o).1.users
unfolding enable_found
enable_found-admins id at s none h = h
enable_found-admins id at s (some u) h =
    kept (with_id id) (enabled_row at) s.users (λ x e. ground arith) h

unlock_found-admins :
    (id : String) (now : Instant) (s : Accounts) (o : Option User)
    → 0 < count_where enabled_admin s.users
    → 0 < count_where enabled_admin (unlock_found id now s o).1.users
unfolding unlock_found
unlock_found-admins id now s none h = h
unlock_found-admins id now s (some u) h = kept (with_id id) _ s.users (λ x e. e) h

failure_found-admins :
    (id : String) (now : Instant) (p : Policy) (s : Accounts) (o : Option User)
    → 0 < count_where enabled_admin s.users
    → 0 < count_where enabled_admin (failure_found id now p s o).1.users
unfolding failure_found
failure_found-admins id now p s none h = h
failure_found-admins id now p s (some u) h = kept (with_id id) _ s.users (λ x e. e) h

-- The actor of a management write that succeeds is an enabled administrator after it.
account_management_write-admins :
    (actor : String) (before after : Bool) (write : Accounts → Result (Unit {0}) × Accounts)
    (s : Accounts)
    → 0 < count_where enabled_admin s.users
    → 0 < count_where enabled_admin (account_management_write actor before after write s).1.users
unfolding account_management_write guard_account_management_actor
account_management_write-admins actor before after write s h = ground (
  arith,
  any-imp enabled_admin (λ u. with_id actor u && enabled_admin u) (write s).1.users
      (λ x e. ground arith),
  any-count_where enabled_admin (write s).1.users,
)

apply-admins :
    (op : Op) (s : Accounts)
    → 0 < count_where enabled_admin s.users
    → 0 < count_where enabled_admin (apply op s).users
unfolding apply disable_user enable_user unlock_user set_dormancy_exempt touch_user_activity
    record_login_failure record_login_success update_user_role_audited delete_user_audited
apply-admins (disable id by now) s h = disable_found-admins id by (stamp now) s _ refl h
apply-admins (enable true id now) s h = h
apply-admins (enable false id now) s h = enable_found-admins id (stamp now) s _ h
apply-admins (unlock id now) s h = unlock_found-admins id now s _ h
apply-admins (exempt id flag now) s h = kept _ _ s.users (λ x e. e) h
apply-admins (touch id now) s h = kept _ _ s.users (λ x e. e) h
apply-admins (failure id now p) s h = failure_found-admins id now p s _ h
apply-admins (success id now) s h = kept _ _ s.users (λ x e. e) h
apply-admins (role actor before after guarded logged id to now) s h =
    account_management_write-admins actor before after _ s h
apply-admins (delete actor before after guarded logged id) s h =
    account_management_write-admins actor before after _ s h

-- From accounts with at least one enabled administrator, every sequence of disabling, enabling,
-- unlocking, exempting, activity stamps, recorded sign-in results, and audited role changes and
-- deletions leaves at least one: disabling by its own guard, role changes and deletions because the
-- acting administrator is checked again after the write.
pub run-count_enabled_admins :
    (ops : List Op) (s : Accounts)
    → 0 < count_enabled_admins s.users
    → 0 < count_enabled_admins (run ops s).users
unfolding run count_enabled_admins
run-count_enabled_admins [] s h = h
run-count_enabled_admins (op ∷ ops) s h =
    run-count_enabled_admins ops (apply op s) (apply-admins op s h)

-- What DisableUser leaves behind, by its answer.
abbrev pub Outcome : String → Accounts → Result ℕ × Accounts → Type 0
Outcome id s (ok n, s') =
    (n ≡ count_where (live_token id) s.tokens)
    × (any (enabled_with_id id) s'.users ≡ false)
    × (any (live_token id) s'.tokens ≡ false)
Outcome id s (err e, s') = s' ≡ s

disabled-dead :
    (id by : String) (at : Stamp) (us : List User)
    → any (enabled_with_id id) (update_where (enabled_with_id id) (disabled_row at by) us) ≡ false
disabled-dead id by at us =
    any-update_where (enabled_with_id id) (disabled_row at by) us (λ x. ground arith)

revoked-dead :
    (id : String) (at : Stamp) (ks : List ApiToken)
    → any (live_token id) (update_where (live_token id) (revoked_row at) ks) ≡ false
revoked-dead id at ks = any-update_where (live_token id) (revoked_row at) ks (λ x. ground arith)

disable_found-Outcome :
    (id by : String) (at : Stamp) (s : Accounts) (o : Option User)
    → Outcome id s (disable_found id by at s o)
unfolding disable_found disable_writes
disable_found-Outcome id by at s none = refl
disable_found-Outcome id by at s (some u) =
    ground (arith, disabled-dead id by at s.users, revoked-dead id at s.tokens)

-- Disabling an account is all or nothing: on success no enabled account under the id and none of its
-- API tokens remains live, and the answer is the number of tokens that were; on any error the
-- accounts and tokens are as they were.
pub disable_user-Outcome :
    (id by : String) (now : Instant) (s : Accounts) → Outcome id s (disable_user id by now s)
unfolding disable_user
disable_user-Outcome id by now s = disable_found-Outcome id by (stamp now) s _
