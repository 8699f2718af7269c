-- ===== src/Store/Sessions/Bulk.antt =====
-- Ending all sessions of a user, and pruning.
use Prim.Native.String.{String}
use text.Mathlib.TextEquality.{eq_iff}
use veyport.Base.{
  ◌+◌, ◌≡◌, refl, sym, ◌∙◌, ap, Bool, true, false, ◌||◌, not, Option, none, some, List, [], ◌∷◌,
  map, arith, is_some, select, any, update_where, length, length-select, any-update_where,
  any-select-not, select-select, update_where-twice,
}
use veyport.Base.Time.{Instant}
use veyport.Store.Rows.{Stamp, stamp, Session}
use veyport.Store.Sessions.{
  Table, has_id, live_with_id, end_row, ends_for, end_all, end_user_sessions, ended_before,
  prune_ended_sessions,
}
use veyport.Store.Sessions.Ending.{Unique}

-- The rows whose id is listed and that are live.
listed : List String → Session → Bool
listed [] row = false
listed (id ∷ ids) row = live_with_id id row || listed ids row

listed-end_row :
    (ids : List String) (at : Stamp) (r : String) (by : Option String) (x : Session)
    → listed ids (end_row at r by x) ≡ false
unfolding listed
listed-end_row [] at r by x = refl
listed-end_row (id ∷ ids) at r by x = ground (arith, listed-end_row ids at r by x)

update_where-false : (f : Session → Session) (t : Table) → update_where (λ x. false) f t ≡ t
unfolding update_where
update_where-false f [] = refl
update_where-false f (x ∷ t) = ap (◌∷◌ x) (update_where-false f t)

end_all-listed :
    (ids : List String) (at : Stamp) (r : String) (by : Option String) (t : Table)
    → end_all ids at r by t ≡ update_where (listed ids) (end_row at r by) t
unfolding end_all listed
end_all-listed [] at r by t = sym (update_where-false (end_row at r by) t)
end_all-listed (id ∷ ids) at r by t =
    end_all-listed ids at r by (update_where (live_with_id id) (end_row at r by) t)
    ∙ update_where-twice (live_with_id id) (listed ids) (end_row at r by) t
        (listed-end_row ids at r by)

ids_of : Table → List String
ids_of t = map (λ row. row.id) t

-- An id that no row of the table has adds nothing.
listed-other :
    (id : String) (ids : List String) (f : Session → Session) (t : Table)
    → any (has_id id) t ≡ false
    → update_where (listed (id ∷ ids)) f t ≡ update_where (listed ids) f t
unfolding update_where any listed
listed-other id ids f [] h = refl
listed-other id ids f (x ∷ t) h = ground (arith, listed-other id ids f t)

-- A row with an id that no row of the table has is not listed by a selection from it.
not-listed :
    (p : Session → Bool) (x : Session) (t : Table)
    → any (has_id x.id) t ≡ false
    → listed (ids_of (select p t)) x ≡ false
unfolding any select listed ids_of
not-listed p x [] h = refl
not-listed p x (y ∷ t) h = ground (arith, eq_iff y.id x.id, eq_iff x.id y.id, not-listed p x t)

listed-select :
    (p : Session → Bool) (f : Session → Session) (t : Table)
    → ((x : Session) → p x ≡ true → is_some x.ended_at ≡ false)
    → Unique t
    → update_where (listed (ids_of (select p t))) f t ≡ update_where p f t
unfolding update_where select ids_of listed
listed-select p f [] live u = refl
listed-select p f (x ∷ t) live u = ground (
  arith,
  live x,
  eq_iff x.id x.id,
  not-listed p x t u.0,
  listed-other x.id (ids_of (select p t)) f t u.0,
  listed-select p f t live u.1,
)

ends_for-live :
    (user : String) (except : Option String) (x : Session)
    → ends_for user except x ≡ true
    → is_some x.ended_at ≡ false
unfolding ends_for
ends_for-live user none x h = ground arith
ends_for-live user (some id) x h = ground arith

ends_for-end_row :
    (user : String) (except : Option String) (at : Stamp) (r : String) (by : Option String)
    (x : Session)
    → ends_for user except (end_row at r by x) ≡ false
unfolding ends_for
ends_for-end_row user none at r by x = ground arith
ends_for-end_row user (some id) at r by x = ground arith

-- When ids are unique, ending a user's sessions one id at a time is a single update: it returns the
-- ids of exactly the live sessions of that user, less the spared one, in table order, ends those
-- rows with the given time, reason and actor, and leaves every other row as it was. Afterwards no
-- such session is live.
pub end_user_sessions_lem :
    (user : String) (except : Option String) (r : String) (by : Option String) (now : Instant)
    (t : Table)
    → Unique t
    → let (ids, t') = end_user_sessions user except r by now t in
      (ids ≡ map (λ row. row.id) (select (ends_for user except) t))
      × (t' ≡ update_where (ends_for user except) (end_row (stamp now) r by) t)
      × (any (ends_for user except) t' ≡ false)
unfolding end_user_sessions ids_of
end_user_sessions_lem user except r by now t u =
    let one : end_all (ids_of (select (ends_for user except) t)) (stamp now) r by t
        ≡ update_where (ends_for user except) (end_row (stamp now) r by) t =
      end_all-listed _ (stamp now) r by t
      ∙ listed-select (ends_for user except) _ t (ends_for-live user except) u in
    (refl, one, rw one (any-update_where _ _ t (ends_for-end_row user except (stamp now) r by)))

live_stays :
    (before : Stamp) (x : Session)
    → not (is_some x.ended_at) ≡ true
    → not (ended_before x.ended_at before) ≡ true
unfolding ended_before
live_stays before x h = ground arith

-- Pruning deletes exactly the sessions that ended before the cutoff: it reports as many as are gone,
-- none of them remains, and every live session stays, in order.
pub prune_ended_sessions_lem :
    (before : Instant) (t : Table)
    → let (deleted, t') = prune_ended_sessions before t in
      (length t' + deleted ≡ length t)
      × (any (λ row. ended_before row.ended_at (stamp before)) t' ≡ false)
      × (select (λ row. not (is_some row.ended_at)) t'
          ≡ select (λ row. not (is_some row.ended_at)) t)
unfolding prune_ended_sessions
prune_ended_sessions_lem before t =
    let gone = λ (row : Session). ended_before row.ended_at (stamp before) in
    (
      length-select gone t,
      any-select-not gone t,
      select-select (λ row. not (is_some row.ended_at)) (λ row. not (gone row)) t
          (live_stays (stamp before)),
    )
