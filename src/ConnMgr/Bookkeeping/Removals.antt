-- ===== src/ConnMgr/Bookkeeping/Removals.antt =====
-- Removing an entry keeps the counts.
use text.Mathlib.Text.{◌==◌ as str_eq}
use text.Mathlib.TextEquality.{eq_iff}
use veyport.Base.{
  ℕ, ◌+◌, ◌-◌, ◌<◌, ◌≡◌, ◌==◌, Bool, true, false, some, arith, if◌then◌else◌, any, count_where,
  select, not, length-select, ltb, Bool-cases, inl, inr, any-select,
}
use veyport.ConnMgr.Manager.{same_conn_iff, Key, has_key, Manager, put, mark_uncertain}
use veyport.ConnMgr.Activities.{remove_activity}
use veyport.ConnMgr.Bookkeeping.{Inv, on_node, on_conn, has_key_iff}
use veyport.Base.Counts.{
  count_where-select_le, count_where-select, any-select-true, any-count_where, any-element,
}

-- remove_activity, where the node has `left` slots afterwards.
removed : Key → Bool → ℕ → Manager → Manager
removed k kept left s = record s {
  activities = select (λ e. not (has_key k e)) s.activities;
  uncertain = if kept then mark_uncertain k.connection.server_id s.uncertain else s.uncertain;
  activity_nodes = put s.activity_nodes k.connection.server_id left;
}

-- The connection of an entry is the current one of its node.
pub key-owned :
    (k : Key) (s : Manager)
    → Inv s
    → any (has_key k) s.activities ≡ true
    → s.streams k.connection.server_id ≡ some k.connection
key-owned k s i there =
    let (e, (is, all)) = any-element (has_key k) s.activities there in
    i.owned k.connection (
      all (on_conn k.connection)
        (ground (arith, has_key_iff k e, same_conn_iff e.key.connection k.connection)))

key-on_node :
    (k : Key) (s : Manager)
    → Inv s
    → any (has_key k) s.activities ≡ true
    → 0 < s.activity_nodes k.connection.server_id
key-on_node k s i there =
    let node = k.connection.server_id in
    let (e, (is, all)) = any-element (has_key k) s.activities there in
    let some_entry : any (on_node node) s.activities ≡ true =
      all (on_node node) (ground (arith, has_key_iff k e, eq_iff node node)) in
    omega (arith, i.exact node, any-count_where (on_node node) s.activities some_entry)

removed-Inv :
    (k : Key) (left : ℕ) (s : Manager)
    → Inv s
    → any (has_key k) s.activities ≡ true
    → left + 1 ≡ s.activity_nodes k.connection.server_id
    → (left ≡ 0 → s.activity_counts k.connection ≡ 0)
    → Inv (removed k false left s)
unfolding removed
removed-Inv k left s i there one last =
    let node = k.connection.server_id in
    let one_entry : count_where (has_key k) s.activities ≡ 1 =
      omega (arith, i.unique k, any-count_where (has_key k) s.activities there) in
    record {
      unique = λ j. omega (
        arith,
        i.unique j,
        count_where-select_le (has_key j) (λ e. not (has_key k e)) s.activities,
      );
      exact = λ n. ground (
        arith,
        i.exact n,
        one_entry,
        count_where-select (on_node n) (has_key k) (str_eq node n) s.activities
            (λ e h. ground (arith, has_key_iff k e)),
        eq_iff n node,
        eq_iff node n,
      );
      per_node = λ n. ground (arith, i.per_node n, eq_iff n node);
      total = omega (arith, i.total, length-select (has_key k) s.activities);
      owned = λ conn h. i.owned conn (any-select-true (on_conn conn) _ s.activities h);
      counted = λ conn h.
          ground (arith, i.counted conn, key-owned k s i there, eq_iff conn.server_id node);
      named = i.named;
      retired = λ n conn h.
          let old = i.retired n conn h in
          record {
            at = old.at;
            closed = old.closed;
            uncounted = old.uncounted;
            empty = any-select (on_conn conn) _ s.activities old.empty;
          };
    }

kept-Inv :
    (k : Key) (s : Manager)
    → Inv s
    → any (has_key k) s.activities ≡ true
    → s.activity_nodes k.connection.server_id ≡ 1
    → Inv (removed k true 1 s)
unfolding removed mark_uncertain any
kept-Inv k s i there one =
    let node = k.connection.server_id in
    let one_entry : count_where (has_key k) s.activities ≡ 1 =
      omega (arith, i.unique k, any-count_where (has_key k) s.activities there) in
    record {
      unique = λ j. omega (
        arith,
        i.unique j,
        count_where-select_le (has_key j) (λ e. not (has_key k e)) s.activities,
      );
      exact = λ n. ground (
        arith,
        i.exact n,
        one_entry,
        count_where-select (on_node n) (has_key k) (str_eq node n) s.activities
            (λ e h. ground (arith, has_key_iff k e)),
        eq_iff n node,
        eq_iff node n,
      );
      per_node = λ n. ground (arith, i.per_node n, eq_iff n node);
      total = ground (arith, i.total, one_entry, length-select (has_key k) s.activities);
      owned = λ conn h. i.owned conn (any-select-true (on_conn conn) _ s.activities h);
      counted = λ conn h. ground (arith, i.counted conn, eq_iff conn.server_id node);
      named = i.named;
      retired = λ n conn h.
          let old = i.retired n conn h in
          record {
            at = old.at;
            closed = old.closed;
            uncounted = old.uncounted;
            empty = any-select (on_conn conn) _ s.activities old.empty;
          };
    }

pub remove_activity-Inv : (k : Key) (s : Manager) → Inv s → Inv (remove_activity k s)
unfolding remove_activity removed
remove_activity-Inv k s i =
    let nodes = s.activity_nodes k.connection.server_id in
    elim (Bool-cases (any (has_key k) s.activities)) [
      | inr gone ↦ rw gone i
      | inl there ↦
          let some_left : 0 < nodes = key-on_node k s i there in
          elim (Bool-cases (nodes - 1 == 0)) [
            | inr more ↦
                rw (there, more) (removed-Inv k (nodes - 1) s i there (omega arith) (ground arith))
            | inl last ↦ elim (Bool-cases (ltb 0 (s.activity_counts k.connection))) [
              | inl busy ↦ rw (there, last, busy) (kept-Inv k s i there (ground arith))
              | inr idle ↦
                  rw (there, last, idle)
                    (removed-Inv k 0 s i there (ground arith) (λ z. ground arith))
            ]
          ]
    ]
