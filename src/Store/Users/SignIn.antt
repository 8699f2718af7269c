-- ===== src/Store/Users/SignIn.antt =====
-- What recorded sign-in results do to an account's status.
use Prim.Native.String.{String}
use veyport.Base.{
  ℕ, ◌*◌, ◌≤◌, ◌<◌, ◌≡◌, refl, Bool, true, false, Option, none, some, arith, if◌then◌else◌, is_some,
  List, [], ◌∷◌, inl, inr, ◌∙◌, ap, find, update_where, map_option,
}
use veyport.Base.Int.{pos, negsuc, ◌≤ℤ◌, ◌+ℤ◌, scale}
use veyport.Base.Time.{Instant}
use veyport.Lockout.Policy.{Policy}
use veyport.Lockout.State.{is_locked, next_state}
use veyport.Lockout.State.Attack.{next_state-locked}
use veyport.Account
use veyport.Account.Dormancy.{is_dormant-HasActivity}
use veyport.Store.Rows.{Stamp, stamp, stamp_ptr, parse, parse_ptr, User}
use veyport.Store.Users.{
  Accounts, Result, ok, err, with_id, FailureResult, lockout_state, failed_row, failure_found,
  record_login_failure, succeeded_row, record_login_success, input_from_user,
}

pub stamp-parse : (a : Stamp) → stamp (parse a) ≡ a
unfolding stamp parse scale
stamp-parse (pos n) = ground arith
stamp-parse (negsuc n) = ground arith

stamp_ptr-parse_ptr : (o : Option Stamp) → stamp_ptr (parse_ptr o) ≡ o
stamp_ptr-parse_ptr none = refl
stamp_ptr-parse_ptr (some a) = rw (stamp-parse a)

found-update_where :
    (id : String) (f : User → User) (us : List User) (u : User)
    → ((x : User) → with_id id (f x) ≡ with_id id x)
    → find (with_id id) us ≡ some u
    → find (with_id id) (update_where (with_id id) f us) ≡ some (f u)
unfolding find update_where
found-update_where id f [] u h e = ground arith
found-update_where id f (x ∷ us) u h e = ground (arith, h x, found-update_where id f us u h)

-- The newly-locked flag of an answer.
abbrev pub newly : Result FailureResult → Bool
newly (ok r) = r.newly_locked
newly (err e) = false

failure_found-locked :
    (id : String) (now : Instant) (p : Policy) (s : Accounts) (u : User)
    → find (with_id id) s.users ≡ some u
    → is_locked (parse_ptr u.locked_until) now ≡ true
    → let (r, s') = failure_found id now p s (some u) in
      (newly r ≡ false)
      × (map_option (λ u'. u'.locked_until) (find (with_id id) s'.users) ≡ some u.locked_until)
unfolding failure_found lockout_state
failure_found-locked id now p s u e h =
    let next = (next_state (lockout_state u) now p).0 in
    let locked = next_state-locked (lockout_state u) now p h in
    (
      locked.0,
      ap (map_option (λ (u' : User). u'.locked_until))
            (found-update_where id (failed_row next (stamp now)) s.users u (λ x. refl) e)
          ∙ ap some (ap stamp_ptr locked.1 ∙ stamp_ptr-parse_ptr u.locked_until),
    )

-- A failed check against an account that its stored row says is locked never reports a new lock and
-- never moves the stored expiry, whatever the policy.
pub record_login_failure-locked :
    (id : String) (now : Instant) (p : Policy) (s : Accounts) (u : User)
    → find (with_id id) s.users ≡ some u
    → is_locked (parse_ptr u.locked_until) now ≡ true
    → let (r, s') = record_login_failure id now p s in
      (newly r ≡ false)
      × (map_option (λ u'. u'.locked_until) (find (with_id id) s'.users) ≡ some u.locked_until)
unfolding record_login_failure
record_login_failure-locked id now p s u e h = rw e (failure_found-locked id now p s u e h)

-- After a recorded sign-in the account is disabled if it was, and otherwise active, at every time up
-- to a dormancy limit of 1 to 106751 days from the second of the sign-in: no lock and no dormancy is left.
pub record_login_success-status :
    (id : String) (now later : Instant) (p : Policy) (s : Accounts) (u : User) (n : ℕ)
    → find (with_id id) s.users ≡ some u
    → p.dormant_days ≡ pos n
    → 0 < n
    → n ≤ 106751
    → later ≤ℤ parse (stamp now) +ℤ pos (n * 86400000000000)
    → (u' : User) × (find (with_id id) (record_login_success id now s).1.users ≡ some u')
      × (Account.evaluate (input_from_user u') later p
          ≡ (if is_some u.disabled_at then Account.disabled else Account.active))
unfolding record_login_success Account.evaluate input_from_user is_locked
record_login_success-status id now later p s u n e d lo hi w =
    let u' = succeeded_row (stamp now) u in
    (
      u',
      found-update_where id (succeeded_row (stamp now)) s.users u (λ x. refl) e,
      ground (
        arith,
        is_dormant-HasActivity (input_from_user u') (parse (stamp now)) later n (inr (inl refl)) lo
            hi w,
      ),
    )
