-- ===== src/ConnMgr/Bookkeeping/Generations.antt =====
-- Ending a generation: its uncertainty slot is bounded, and it is what a retired one must be.
use Prim.Native.String.{String}
use text.Mathlib.TextEquality.{eq_iff}
use veyport.Base.{
  ◌+◌, ◌<◌, ◌≡◌, refl, Bool, true, false, some, arith, any, length, count_where, count_where-none,
  ltb, Bool-cases, inl, inr,
}
use veyport.ConnMgr.Manager.{
  Conn, same_conn_iff, Manager, is_uncertain, put, put_conn, mark_uncertain,
}
use veyport.ConnMgr.Uncertainty.{end_entries, carry_over, end_activities}
use veyport.ConnMgr.Connections.{close}
use veyport.ConnMgr.Bookkeeping.{Inv, on_node, on_conn}
use veyport.Base.Counts.{any-element}
use veyport.ConnMgr.Bookkeeping.Endings.{
  Trimmed, end_entries-facts, end_entries-none, end_entries-fewer, Covers,
}

-- A connection that loses its count, and one that is closed, keep the counts.
pub uncount-Inv :
    (conn : Conn) (s : Manager)
    → Inv s
    → Inv (record s { activity_counts = put_conn s.activity_counts conn 0 })
uncount-Inv conn s i = record {
  unique = i.unique;
  exact = i.exact;
  per_node = i.per_node;
  total = i.total;
  owned = i.owned;
  named = i.named;
  counted = λ c h. ground (arith, i.counted c);
  retired = λ n c h.
      let old = i.retired n c h in
      record {
        at = old.at;
        closed = old.closed;
        empty = old.empty;
        uncounted = ground (arith, old.uncounted);
      };
}

pub close-Inv : (conn : Conn) (s : Manager) → Inv s → Inv (close conn s)
unfolding close
close-Inv conn s i = record {
  unique = i.unique;
  exact = i.exact;
  per_node = i.per_node;
  total = i.total;
  owned = i.owned;
  named = i.named;
  counted = i.counted;
  retired = λ n c h.
      let old = i.retired n c h in
      record {
        at = old.at;
        closed = ground (arith, old.closed);
        empty = old.empty;
        uncounted = old.uncounted;
      };
}

-- When the current connection of a node has no entry, the node has none.
pub node-empty :
    (conn : Conn) (s : Manager)
    → Inv s
    → s.streams conn.server_id ≡ some conn
    → any (on_conn conn) s.activities ≡ false
    → count_where (on_node conn.server_id) s.activities ≡ 0
node-empty conn s i at e = elim (Bool-cases (any (on_node conn.server_id) s.activities)) [
  | inr none_there ↦ count_where-none _ s.activities none_there
  | inl some_there ↦
      let (x, (is, all)) = any-element (on_node conn.server_id) s.activities some_there in
      let c = x.key.connection in
      let mine : any (on_conn c) s.activities ≡ true =
        all (on_conn c) (ground (arith, same_conn_iff c c)) in
      ground (arith, i.owned c mine, eq_iff c.server_id conn.server_id)
]

pub slot-Inv :
    (node : String) (s : Manager)
    → Inv s
    → is_uncertain node s.uncertain ≡ false
    → s.activity_nodes node < 128
    → length s.activities + length s.uncertain < 4096
    → Inv (record s {
      uncertain = mark_uncertain node s.uncertain;
      activity_nodes = put s.activity_nodes node (s.activity_nodes node + 1);
    })
unfolding mark_uncertain any
slot-Inv node s i certain room space = record {
  unique = i.unique;
  owned = i.owned;
  named = i.named;
  retired = λ n c h.
      let old = i.retired n c h in
      record { at = old.at; closed = old.closed; empty = old.empty; uncounted = old.uncounted };
  exact = λ n. ground (arith, i.exact n, eq_iff n node, eq_iff node n);
  per_node = λ n. ground (arith, i.per_node n, eq_iff n node);
  total = ground (arith, i.total);
  counted = λ c h. ground (arith, i.counted c, eq_iff c.server_id node);
}

carry_over-Inv :
    (conn : Conn) (u : Bool) (s : Manager)
    → Inv s
    → s.streams conn.server_id ≡ some conn
    → any (on_conn conn) s.activities ≡ false
    → (u ≡ true
        → is_uncertain conn.server_id s.uncertain ≡ false
        → length s.activities + length s.uncertain < 4096)
    → Inv (carry_over conn (u, s))
unfolding carry_over
carry_over-Inv conn false s i at e space = i
carry_over-Inv conn true s i at e space =
    elim (Bool-cases (is_uncertain conn.server_id s.uncertain)) [
      | inl known ↦ rw known i
      | inr new ↦ rw new (
          slot-Inv conn.server_id s i new
            (ground (arith, i.exact conn.server_id, node-empty conn s i at e)) (space refl new))
    ]

-- What ending the work of a connection changes, and what it leaves of that connection.
pub record Gone (conn : Conn) (s s' : Manager) : Type 0 where
  pub streams : s'.streams ≡ s.streams
  pub retiring : s'.retiring ≡ s.retiring
  pub maintenance : s'.maintenance ≡ s.maintenance
  pub closed : s'.closed ≡ s.closed
  pub uncounted : s'.activity_counts conn ≡ 0
  pub empty : any (on_conn conn) s'.activities ≡ false

carry_over-Gone :
    (conn : Conn) (u : Bool) (s s' : Manager)
    → Gone conn s s'
    → Gone conn s (carry_over conn (u, s'))
unfolding carry_over
carry_over-Gone conn u s s' g = ground arith

-- The loop, from a state without a count of the connection.
space-left :
    (conn : Conn) (s : Manager)
    → Inv s
    → s.streams conn.server_id ≡ some conn
    → let r = record s { activity_counts = put_conn s.activity_counts conn 0 } in
      let (u, s') = end_entries conn s.activities (ltb 0 (s.activity_counts conn)) r in
      Trimmed r s'
      → any (on_conn conn) s'.activities ≡ false
      → u ≡ true
      → is_uncertain conn.server_id s'.uncertain ≡ false
      → length s'.activities + length s'.uncertain < 4096
space-left conn s i at t e unknown new =
    let r = record s { activity_counts = put_conn s.activity_counts conn 0 } in
    let start = ltb 0 (s.activity_counts conn) in
    elim (Bool-cases (any (on_conn conn) s.activities)) [
      | inl some_there ↦
          ground (arith, i.total, t.uncertain, end_entries-fewer conn r _ some_there e t)
      | inr none_there ↦ ground (
        arith,
        end_entries-none conn s.activities start r none_there,
        i.counted conn,
        i.exact conn.server_id,
        node-empty conn s i at none_there,
      )
    ]

pub end_activities-Inv :
    (conn : Conn) (s : Manager)
    → Inv s
    → s.streams conn.server_id ≡ some conn
    → Inv (end_activities conn s) × Gone conn s (end_activities conn s)
unfolding end_activities Covers
end_activities-Inv conn s i at =
    let r = record s { activity_counts = put_conn s.activity_counts conn 0 } in
    let start = ltb 0 (s.activity_counts conn) in
    let (i', (t, e)) =
      end_entries-facts conn s.activities start r (uncount-Inv conn s i)
        (ground (arith, same_conn_iff conn conn)) (λ j mine h. h) in
    let (u, s') = end_entries conn s.activities start r in
    (
      carry_over-Inv conn u s' i' (ground (arith, t.streams)) e (space-left conn s i at t e),
      carry_over-Gone conn u s s' (record {
        streams = t.streams;
        retiring = t.retiring;
        maintenance = t.maintenance;
        closed = t.closed;
        uncounted = ground (arith, t.counts, same_conn_iff conn conn);
        empty = e;
      }),
    )
