-- ===== src/Store/Refresh/Rotation.antt =====
-- A refresh token is good for one rotation.
use Prim.Native.String.{String}
use text.Mathlib.Text.{◌==◌ as str_eq}
use text.Mathlib.TextEquality.{eq_iff}
use veyport.Base.{
  ◌≡◌, ◌≢◌, refl, Bool, true, false, ◌&&◌, not, none, some, List, [], ◌∷◌, arith, any, count_where,
  update_where, count_where-none, update_where-none, any-imp,
}
use veyport.Base.Time.{Instant}
use veyport.Lockout.Policy.{Policy}
use veyport.Store.Rows.{Stamp, stamp, Session, User}
use veyport.Store.Sessions.{Table, has_id}
use veyport.Store.Sessions.Ending.{Unique}
use veyport.Store.Sessions.History.{Op, run}
use veyport.Store.Refresh.Shut.{open_to, spent, spendable-id, acceptable-full, goes_back, run-shut}
use veyport.Store.Refresh.{
  Authority, current_authority, spendable, rotated_row, acceptable, rotate_session_refresh,
}

-- A row of the session with any other digest.
abbrev other_digest : String → String → Session → Bool
other_digest session next row = has_id session row && not (str_eq row.refresh_token_sha256 next)

-- No row has the session's id: then none is updated and none has another digest.
unmatched :
    (session next : String) (at : Stamp) (test : Session → Bool) (t : Table)
    → ((x : Session) → test x ≡ true → has_id session x ≡ true)
    → any (has_id session) t ≡ false
    → (count_where test t ≡ 0)
      × (any (other_digest session next) (update_where test (rotated_row next at) t) ≡ false)
unmatched session next at test t h e =
    let idle = any-imp (has_id session) test t h e in
    (
      count_where-none test t idle,
      rw (update_where-none test (rotated_row next at) t idle)
          (any-imp (has_id session) (other_digest session next) t (λ x d. ground arith) e),
    )

-- Where one row of the session is updated and ids are unique, all of its rows carry the new digest.
only_next :
    (session next : String) (at : Stamp) (test : Session → Bool) (t : Table)
    → ((x : Session) → test x ≡ true → has_id session x ≡ true)
    → Unique t
    → count_where test t ≡ 1
    → any (other_digest session next) (update_where test (rotated_row next at) t) ≡ false
unfolding any count_where update_where
only_next session next at test [] h u one = refl
only_next session next at test (x ∷ t) h u one = ground (
  arith,
  h x,
  eq_iff x.id session,
  eq_iff next next,
  only_next session next at test t h u.1,
  unmatched session next at test t h,
)

open_to-other :
    (session previous current : String)
    → previous ≢ current
    → current ≢ ""
    → (x : Session) → open_to session previous x ≡ true
    → other_digest session current x ≡ true
open_to-other session previous current stale full x h = ground (
  arith,
  eq_iff x.refresh_token_sha256 previous,
  eq_iff x.refresh_token_sha256 "",
  eq_iff x.refresh_token_sha256 current,
)

acceptable-next :
    (a : Authority) (session previous next : String)
    → acceptable a session previous next ≡ true
    → previous ≢ ""
    → (previous ≢ next) × (next ≢ "")
unfolding acceptable
acceptable-next a session previous next ok given = (
  ground (arith, eq_iff previous "", eq_iff previous next),
  acceptable-full a session previous next ok,
)

rotated :
    (users : List User) (a : Authority) (session previous next : String) (now : Instant)
    (p : Policy) (t t' : Table)
    → Unique t
    → rotate_session_refresh users a session previous next now p t ≡ some t'
    → (acceptable a session previous next ≡ true) × (any (other_digest session next) t' ≡ false)
unfolding rotate_session_refresh
rotated users a session previous next now p t t' u e = ground (
  arith,
  only_next session next (stamp now)
      (λ (row : Session). spendable a session previous now p row && any (current_authority a) users)
      t (spendable-id a session previous now p users) u,
)

-- A refresh token is spent by the rotation that accepts it: with unique session ids, after one
-- rotation of a non-empty previous digest succeeded, and any later creations, requests, ends, bulk
-- ends, revocations of credentials, rotations and prunings, but for a rotation of the session back to
-- that digest and the creation of a session under its id, presenting that digest again for the session
-- is rejected, whoever presents it, for whatever next digest, at any time and under any policy.
pub rotate_session_refresh_once :
    (users users' : List User) (a a' : Authority) (session previous next next' : String)
    (now later : Instant) (p p' : Policy) (ops : List Op) (t t' : Table)
    → Unique t
    → previous ≢ ""
    → rotate_session_refresh users a session previous next now p t ≡ some t'
    → any (goes_back session previous) ops ≡ false
    → rotate_session_refresh users' a' session previous next' later p' (run ops t') ≡ none
rotate_session_refresh_once users users' a a' session previous next next' now later p p' ops t t' u
      given e b =
    let (accepted, only) = rotated users a session previous next now p t t' u e in
    let (differs, full) = acceptable-next a session previous next accepted given in
    let shut =
      any-imp (other_digest session next) (open_to session previous) t'
        (open_to-other session previous next differs full) only in
    spent users' a' session previous next' later p' (run ops t')
      (run-shut session previous ops t' b shut)
