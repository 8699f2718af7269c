-- ===== src/Store/Sessions/Ending.antt =====
-- Ending sessions: one winner, no resurrection, and the bulk operation as one update.
use Prim.Native.String.{String}
use text.Mathlib.TextEquality.{eq_iff}
use veyport.Base.{
  ℕ, ◌≡◌, ◌≢◌, refl, Bool, true, false, ◌&&◌, not, Option, none, some, [], ◌∷◌, arith,
  if◌then◌else◌, is_some, find, any, count_where, update_where, update_where-none, count_where-none,
  any-update_where,
}
use veyport.Base.Int.{ltb_ℤ, ◌-ℤ◌}
use veyport.Base.Time.{Instant, Duration}
use veyport.Store.Rows.{Stamp, stamp, Session}
use veyport.Store.Sessions.{
  session_not_found, Result, ok, err, Table, has_id, live_with_id, touch_session, end_row, end_one,
}

-- No two rows share an id.
abbrev pub Unique : Table → Type 0
Unique [] = Unit {0}
Unique (r ∷ rs) = (any (has_id r.id) rs ≡ false) × Unique rs

end_row-dead :
    (id : String) (at : Stamp) (reason : String) (by : Option String) (x : Session)
    → live_with_id id (end_row at reason by x) ≡ false
end_row-dead id at reason by x = ground arith

pub end_one-table :
    (id r : String) (by : Option String) (now : Instant) (t : Table)
    → (end_one id r by now t).1 ≡ update_where (live_with_id id) (end_row (stamp now) r by) t
unfolding end_one
end_one-table id r by now t = ground arith

pub end_one-dead :
    (id r : String) (by : Option String) (now : Instant) (t : Table)
    → any (live_with_id id) (end_one id r by now t).1 ≡ false
end_one-dead id r by now t = rw (end_one-table id r by now t) (
    any-update_where (live_with_id id) (end_row (stamp now) r by) t
      (end_row-dead id (stamp now) r by))

dead-end_one :
    (id r : String) (by : Option String) (now : Instant) (t : Table)
    → any (live_with_id id) t ≡ false
    → ((end_one id r by now t).0 ≢ ok true) × ((end_one id r by now t).1 ≡ t)
unfolding end_one
dead-end_one id r by now t h = ground (
  arith,
  count_where-none (live_with_id id) t h,
  update_where-none (live_with_id id) (end_row (stamp now) r by) t h,
)

any-&& : (p q : Session → Bool) (t : Table) → any p t ≡ false → any (λ x. p x && q x) t ≡ false
unfolding any
any-&& p q [] h = refl
any-&& p q (x ∷ t) h = ground (arith, any-&& p q t)

dead-touch_session :
    (id : String) (now : Instant) (interval : Duration) (t : Table)
    → any (live_with_id id) t ≡ false
    → touch_session id now interval t ≡ t
unfolding touch_session
dead-touch_session id now interval t h = ground (
  arith,
  update_where-none (live_with_id id) (λ (row : Session). record row { last_seen_at = stamp now }) t
      h,
  update_where-none
      (λ (row : Session). live_with_id id row && ltb_ℤ row.last_seen_at (stamp (now -ℤ interval)))
      (λ (row : Session). record row { last_seen_at = stamp now }) t
      (any-&& (live_with_id id) (λ row. ltb_ℤ row.last_seen_at (stamp (now -ℤ interval))) t h),
)

-- Of two requests that end one session only the first can win: the second reports that the session
-- was not live, or unknown, and writes nothing, so the first actor, reason and time stand.
pub end_one_twice :
    (id r r' : String) (by by' : Option String) (now later : Instant) (t : Table)
    → let t' = (end_one id r by now t).1 in
      ((end_one id r' by' later t').0 ≢ ok true) × ((end_one id r' by' later t').1 ≡ t')
unfolding end_one
end_one_twice id r r' by by' now later t =
    dead-end_one id r' by' later _ (end_one-dead id r by now t)

-- A request that races the end of its session cannot revive it: once the session is ended, the
-- activity clock writes nothing, whatever the interval.
pub touch_session-end_one :
    (id r : String) (by : Option String) (now later : Instant) (interval : Duration) (t : Table)
    → touch_session id later interval (end_one id r by now t).1 ≡ (end_one id r by now t).1
unfolding touch_session end_one
touch_session-end_one id r by now later interval t =
    dead-touch_session id later interval _ (end_one-dead id r by now t)

live_of_id : (id : String) (t : Table) → any (has_id id) t ≡ false → any (live_with_id id) t ≡ false
live_of_id id t h = any-&& (has_id id) (λ row. not (is_some row.ended_at)) t h

any-find : (id : String) (t : Table) → any (has_id id) t ≡ is_some (find (has_id id) t)
unfolding any find
any-find id [] = refl
any-find id (x ∷ t) = ground (arith, any-find id t)

abbrev live_count : Option Session → ℕ
live_count none = 0
live_count (some row) = if is_some row.ended_at then 0 else 1

count_live :
    (id : String) (t : Table)
    → Unique t
    → count_where (live_with_id id) t ≡ live_count (find (has_id id) t)
unfolding count_where find
count_live id [] u = refl
count_live id (x ∷ t) u = ground (
  arith,
  eq_iff x.id id,
  count_live id t u.1,
  count_where-none (live_with_id id) t,
  live_of_id id t,
)

abbrev ended_row : Stamp → String → Option String → Session → Session
ended_row at r by row = if is_some row.ended_at then row else end_row at r by row

abbrev map_option : (Session → Session) → Option Session → Option Session
map_option f none = none
map_option f (some x) = some (f x)

find-end_row :
    (id : String) (at : Stamp) (r : String) (by : Option String) (t : Table)
    → find (has_id id) (update_where (live_with_id id) (end_row at r by) t)
      ≡ map_option (ended_row at r by) (find (has_id id) t)
unfolding find update_where
find-end_row id at r by [] = refl
find-end_row id at r by (x ∷ t) = ground (arith, find-end_row id at r by t)

-- What a call that ends a session answers, and the row that it leaves, by the row it finds.
abbrev pub ended : Stamp → String → Option String → Option Session → Result Bool × Option Session
ended at r by none = (err session_not_found, none)
ended at r by (some row) = (
  ok (not (is_some row.ended_at)),
  some (if is_some row.ended_at then row else end_row at r by row),
)

end_one-found :
    (id r : String) (by : Option String) (now : Instant) (t : Table) (o : Option Session)
    → Unique t
    → find (has_id id) t ≡ o
    → ((end_one id r by now t).0, find (has_id id) (end_one id r by now t).1)
      ≡ ended (stamp now) r by o
unfolding end_one
end_one-found id r by now t o u e = ground (
  arith,
  count_live id t u,
  any-find id (update_where (live_with_id id) (end_row (stamp now) r by) t),
  find-end_row id (stamp now) r by t,
)

-- What ending a session answers and leaves behind, when ids are unique: an unknown id is not found;
-- otherwise the answer says whether the session was live, and its row then has the time, reason and
-- actor of this call if it was, and is unchanged if it was not.
pub end_one_lem :
    (id r : String) (by : Option String) (now : Instant) (t : Table)
    → Unique t
    → ((end_one id r by now t).0, find (has_id id) (end_one id r by now t).1)
      ≡ ended (stamp now) r by (find (has_id id) t)
end_one_lem id r by now t u = end_one-found id r by now t (find (has_id id) t) u refl
