-- ===== src/ConnMgr/Bookkeeping/Entries.antt =====
-- Adding and marking an entry keeps the counts; removing one is in Removals.
use text.Mathlib.TextEquality.{eq_iff}
use veyport.Base.{
  ◌+◌, ◌<◌, ◌≡◌, refl, Bool, true, false, none, some, [], ◌∷◌, ◌++◌, arith, any, length,
  count_where, count_where-none, update_where, length-append, length-update_where, any-append,
  count_where-update_where, any-update_where_keep, Bool-cases, inl, inr, ◌⊎◌, leb, ◌||◌,
}
use veyport.ConnMgr.Manager.{same_conn_iff, Key, Entry, has_key, Manager, put, is_conn_iff}
use veyport.ConnMgr.Activities.{add_activity, entry, live}
use veyport.ConnMgr.Bookkeeping.{Inv, on_node, on_conn, has_key_iff}
use veyport.Base.Counts.{count_where-append}

-- An update of entries that keeps their keys.
pub mark-Inv :
    (test : Entry → Bool) (f : Entry → Entry) (s : Manager)
    → ((e : Entry) → (f e).key ≡ e.key)
    → Inv s
    → Inv (record s { activities = update_where test f s.activities })
unfolding has_key
mark-Inv test f s keep i =
    let same : (p : Entry → Bool)
        → ((e : Entry) → p (f e) ≡ p e)
        → count_where p (update_where test f s.activities) ≡ count_where p s.activities =
      λ p h. count_where-update_where p p test f s.activities (λ e. ground (arith, h e)) in
    record {
      unique = λ k. omega (arith, i.unique k, same (has_key k) (λ e. rw (keep e) refl));
      exact = λ node. omega (arith, i.exact node, same (on_node node) (λ e. rw (keep e) refl));
      per_node = i.per_node;
      total = omega (arith, length-update_where test f s.activities, i.total);
      owned = λ conn h. ground (
        arith,
        i.owned conn,
        any-update_where_keep test (on_conn conn) f s.activities (λ e. rw (keep e) refl),
      );
      counted = i.counted;
      named = i.named;
      retired = λ node conn h.
          let old = i.retired node conn h in
          record {
            at = old.at;
            closed = old.closed;
            uncounted = old.uncounted;
            empty = ground (
              arith,
              old.empty,
              any-update_where_keep test (on_conn conn) f s.activities (λ e. rw (keep e) refl),
            );
          };
    }

added : Key → Manager → Manager
added k s = record s {
  activities = s.activities ++ entry k ∷ [];
  activity_nodes =
      put s.activity_nodes k.connection.server_id (s.activity_nodes k.connection.server_id + 1);
}

added-Inv :
    (k : Key) (s : Manager)
    → Inv s
    → s.streams k.connection.server_id ≡ some k.connection
    → s.closed k.connection ≡ false
    → any (has_key k) s.activities ≡ false
    → s.activity_nodes k.connection.server_id < 128
    → length s.activities + length s.uncertain < 4096
    → Inv (added k s)
unfolding added count_where any
added-Inv k s i at opened fresh room space =
    let node = k.connection.server_id in
    record {
      unique = λ j. ground (
        arith,
        i.unique j,
        count_where-append (has_key j) s.activities (entry k ∷ []),
        has_key_iff j (entry k),
        count_where-none (has_key j) s.activities,
      );
      exact = λ n. ground (
        arith,
        i.exact n,
        count_where-append (on_node n) s.activities (entry k ∷ []),
        eq_iff n node,
        eq_iff node n,
      );
      per_node = λ n. ground (arith, i.per_node n, eq_iff n node);
      total = omega (arith, length-append s.activities (entry k ∷ []));
      owned = λ conn h. ground (
        arith,
        i.owned conn,
        any-append (on_conn conn) s.activities (entry k ∷ []),
        same_conn_iff k.connection conn,
      );
      counted = λ conn h. ground (arith, i.counted conn, eq_iff conn.server_id node);
      named = i.named;
      retired = λ n conn h.
          let old = i.retired n conn h in
          record {
            at = old.at;
            closed = old.closed;
            uncounted = old.uncounted;
            empty = ground (
              arith,
              old.empty,
              old.closed,
              any-append (on_conn conn) s.activities (entry k ∷ []),
              same_conn_iff k.connection conn,
            );
          };
    }

-- Adding an entry, refused or not, under the guards of its callers.
pub add_activity-Inv :
    (k : Key) (s : Manager)
    → Inv s
    → live k.connection s ≡ true
    → any (has_key k) s.activities ≡ false
    → (add_activity k s ≡ none) ⊎ ((s' : Manager) × ((add_activity k s ≡ some s') × Inv s'))
unfolding add_activity added live
add_activity-Inv k s i alive fresh =
    let full =
      leb 128 (s.activity_nodes k.connection.server_id)
      || leb 4096 (length s.activities + length s.uncertain) in
    let at : s.streams k.connection.server_id ≡ some k.connection =
      ground (arith, is_conn_iff k.connection (s.streams k.connection.server_id)) in
    elim (Bool-cases full) [
      | inl over ↦ inl (rw over refl)
      | inr space ↦ inr (
        added k s,
        (rw space refl, added-Inv k s i at (ground arith) fresh (ground arith) (ground arith)),
      )
    ]
