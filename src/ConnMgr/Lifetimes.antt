-- ===== src/ConnMgr/Lifetimes.antt =====
-- When an activity ends: completion, abandonment, and the loss of its connection.
use Prim.Native.String.{String}
use text.Mathlib.TextEquality.{eq_iff}
use veyport.Base.{
  ◌≡◌, ◌≢◌, ◌⊎◌, refl, Bool, true, false, some, List, [], ◌∷◌, arith, any, not, Bool-cases, inl,
  inr, ◌||◌, ◌&&◌, find, select, update_where, ltb, ◌∙◌, find-update_where,
}
use veyport.ConnMgr.Manager.{
  Conn, Kind, Key, is_conn_iff, Entry, has_key, Manager, is_uncertain, put_conn, mark_uncertain,
}
use veyport.ConnMgr.Activities.{
  complete_activity, complete_on, remove_activity, abandon_activity, abandon_found,
}
use veyport.ConnMgr.Uncertainty.{end_activities, end_entries, carry_over, activity_idle}
use veyport.ConnMgr.Connections.{detach_if_current, close}
use veyport.ConnMgr.Bookkeeping.{Inv, on_conn, has_key_iff}
use veyport.ConnMgr.Bookkeeping.Endings.{remove_activity-gone}

-- Another key than the one that is removed.
any-select-other :
    (k j : Key) (es : List Entry)
    → j ≢ k
    → any (has_key j) (select (λ e. not (has_key k e)) es) ≡ any (has_key j) es
unfolding any select
any-select-other k j [] d = refl
any-select-other k j (e ∷ es) d =
    ground (arith, any-select-other k j es d, has_key_iff k e, has_key_iff j e)

remove_activity-others :
    (k j : Key) (s : Manager)
    → j ≢ k
    → any (has_key j) (remove_activity k s).activities ≡ any (has_key j) s.activities
unfolding remove_activity
remove_activity-others k j s d = ground (arith, any-select-other k j s.activities d)

-- Completion by a response of the installed stream: it succeeds exactly when the key that the
-- response names on that connection is admitted, it then ends that activity, and every other
-- activity stays admitted or not, as it was.
pub complete_activity_lem :
    (node id : String) (kind : Kind) (conn : Conn) (s : Manager)
    → s.streams node ≡ some conn
    → let k : Key = record { connection = conn; id = id; kind = kind } in
      let (done, s') = complete_activity node conn.stream id kind s in
      (done ≡ any (has_key k) s.activities)
      × ((any (has_key k) s'.activities ≡ false)
          × ((j : Key) → j ≢ k → any (has_key j) s'.activities ≡ any (has_key j) s.activities))
unfolding complete_activity complete_on
complete_activity_lem node id kind conn s at =
    let k : Key = record { connection = conn; id = id; kind = kind } in
    rw at (
      ground arith,
      (
        ground (arith, remove_activity-gone k s),
        λ j d. ground (arith, remove_activity-others k j s d),
      ),
    )

has_key-abandoned : (k : Key) (e : Entry) → has_key k (record e { abandoned = true }) ≡ has_key k e
unfolding has_key
has_key-abandoned k e = refl

find-has_key :
    (k : Key) (es : List Entry) (e : Entry) → find (has_key k) es ≡ some e → has_key k e ≡ true
unfolding find
find-has_key k [] e h = ground arith
find-has_key k (x ∷ es) e h = ground (arith, find-has_key k es e)

find-abandoned :
    (k : Key) (es : List Entry) (e : Entry)
    → find (has_key k) es ≡ some e
    → find (has_key k) (update_where (has_key k) (λ e'. record e' { abandoned = true }) es)
      ≡ some (record e { abandoned = true })
find-abandoned k es e h =
    find-update_where (has_key k) (has_key k) _ es (some e) (has_key-abandoned k) h
    ∙ rw (find-has_key k es e h) refl

-- Abandoning an admitted activity: one that was dispatched stays admitted, marked as abandoned, and
-- the count of its node does not change; one that was not is gone.
pub abandon_activity_lem :
    (k : Key) (s : Manager) (e : Entry)
    → find (has_key k) s.activities ≡ some e
    → let s' = abandon_activity k s in
      ((e.dispatched ≡ true)
        × ((find (has_key k) s'.activities ≡ some (record e { abandoned = true }))
            × (s'.activity_nodes ≡ s.activity_nodes)))
      ⊎ ((e.dispatched ≡ false) × (any (has_key k) s'.activities ≡ false))
unfolding abandon_activity abandon_found
abandon_activity_lem k s e there = elim (Bool-cases e.dispatched) [
  | inr queued ↦ inr (queued, rw (there, queued) (remove_activity-gone k s))
  | inl sent ↦ inl (sent, (ground (arith, find-abandoned k s.activities e there), ground arith))
]

-- Whether the loop saw dispatched work of the connection.
end_entries-unknown :
    (conn : Conn) (es : List Entry) (u : Bool) (s : Manager)
    → (end_entries conn es u s).0 ≡ (u || any (λ e. on_conn conn e && e.dispatched) es)
unfolding end_entries any
end_entries-unknown conn [] u s = ground arith
end_entries-unknown conn (e ∷ es) u s = end_entries-unknown conn es _ _ ∙ ground arith

carry_over-uncertain :
    (conn : Conn) (r : Bool × Manager)
    → r.0 ≡ true
    → is_uncertain conn.server_id (carry_over conn r).uncertain ≡ true
unfolding carry_over mark_uncertain any
carry_over-uncertain conn (u, s) h = ground (arith, eq_iff conn.server_id conn.server_id)

end_activities-uncertain :
    (conn : Conn) (s : Manager)
    → (ltb 0 (s.activity_counts conn) || any (λ e. on_conn conn e && e.dispatched) s.activities)
      ≡ true
    → is_uncertain conn.server_id (end_activities conn s).uncertain ≡ true
unfolding end_activities
end_activities-uncertain conn s h =
    let r = record s { activity_counts = put_conn s.activity_counts conn 0 } in
    let start = ltb 0 (s.activity_counts conn) in
    carry_over-uncertain conn (end_entries conn s.activities start r)
      (end_entries-unknown conn s.activities start r ∙ h)

-- The loss of a connection is no completion: when the installed connection of a server is detached
-- while its agent last reported work, or while one of its entries was dispatched, the server is
-- marked uncertain, and no connection of that server is idle, so none can reserve maintenance without
-- the manual assertion.
pub detach_if_current-uncertain :
    (node : String) (conn next : Conn) (s : Manager)
    → Inv s
    → s.streams node ≡ some conn
    → (ltb 0 (s.activity_counts conn) || any (λ e. on_conn conn e && e.dispatched) s.activities)
      ≡ true
    → next.server_id ≡ node
    → let s' = (detach_if_current node conn s).1 in
      (is_uncertain node s'.uncertain ≡ true) × (activity_idle next false s' ≡ false)
unfolding detach_if_current close activity_idle
detach_if_current-uncertain node conn next s i at work on =
    let lost = end_activities-uncertain conn (close conn s) work in
    ground (arith, i.named node conn at, is_conn_iff conn (s.streams node))
