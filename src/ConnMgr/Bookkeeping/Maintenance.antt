-- ===== src/ConnMgr/Bookkeeping/Maintenance.antt =====
-- Observations of the agent's own count keep the counts.
use Prim.Native.String.{String}
use text.Mathlib.Text.{◌==◌ as str_eq}
use text.Mathlib.TextEquality.{eq_iff}
use veyport.Base.{
  ℕ, ◌+◌, ◌-◌, ◌<◌, ◌≡◌, ◌⊎◌, ◌==◌, refl, true, Option, none, some, List, [], ◌∷◌, arith, any, not,
  Bool-cases, inl, inr, ◌||◌, ◌&&◌, select, length, length-select, ltb, leb, subst,
}
use veyport.ConnMgr.Manager.{Conn, same_conn_iff, is_conn_iff, Manager, put, put_conn, is_uncertain}
use veyport.ConnMgr.Activities.{live}
use veyport.ConnMgr.Uncertainty.{
  clear_uncertain, reserve_slot, observe_slot, observe_conn, observe_activity_capabilities,
}
use veyport.ConnMgr.Bookkeeping.{Inv}
use veyport.ConnMgr.Bookkeeping.Generations.{slot-Inv}

pub is_uncertain-select :
    (n node : String) (us : List String)
    → is_uncertain n (select (λ u. not (str_eq u node)) us)
      ≡ (is_uncertain n us && not (str_eq n node))
unfolding select any
is_uncertain-select n node [] = refl
is_uncertain-select n node (u ∷ us) =
    ground (arith, is_uncertain-select n node us, eq_iff u node, eq_iff u n, eq_iff n node)

-- No connection of the node has a count.
unfoldable pub Uncounted : String → Manager → Type 0
Uncounted node s = (c : Conn) → c.server_id ≡ node → s.activity_counts c ≡ 0

pub live-Uncounted :
    (conn : Conn) (s : Manager)
    → Inv s
    → live conn s ≡ true
    → s.activity_counts conn ≡ 0
    → Uncounted conn.server_id s
unfolding Uncounted live
live-Uncounted conn s i alive z c at =
    ground (arith, i.counted c, is_conn_iff conn (s.streams conn.server_id))

cleared-Inv :
    (node : String) (s : Manager)
    → Inv s
    → Uncounted node s
    → is_uncertain node s.uncertain ≡ true
    → Inv (record s {
      uncertain = select (λ u. not (str_eq u node)) s.uncertain;
      activity_nodes = put s.activity_nodes node (s.activity_nodes node - 1);
    })
unfolding Uncounted
cleared-Inv node s i free there = record {
  unique = i.unique;
  owned = i.owned;
  named = i.named;
  exact = λ n. ground (arith, i.exact n, is_uncertain-select n node s.uncertain, eq_iff n node);
  per_node = λ n. ground (arith, i.per_node n, eq_iff n node);
  total = omega (arith, i.total, length-select (λ u. str_eq u node) s.uncertain);
  counted = λ c h. ground (arith, i.counted c, free c, eq_iff c.server_id node);
  retired = λ n c h.
      let old = i.retired n c h in
      record { at = old.at; closed = old.closed; empty = old.empty; uncounted = old.uncounted };
}

pub live-same :
    (conn : Conn) (s s' : Manager)
    → s'.streams ≡ s.streams
    → s'.closed ≡ s.closed
    → live conn s ≡ true
    → live conn s' ≡ true
unfolding live
live-same conn s s' streams closed alive = rw (streams, closed) alive

pub clear_uncertain-Inv :
    (node : String) (s : Manager) → Inv s → Uncounted node s → Inv (clear_uncertain node s)
unfolding clear_uncertain
clear_uncertain-Inv node s i free = elim (Bool-cases (is_uncertain node s.uncertain)) [
  | inl there ↦ rw there (cleared-Inv node s i free there)
  | inr clear ↦ rw clear i
]

count-Inv :
    (conn : Conn) (count : ℕ) (s : Manager)
    → Inv s
    → live conn s ≡ true
    → (0 < count → 0 < s.activity_nodes conn.server_id)
    → Inv (record s { activity_counts = put_conn s.activity_counts conn count })
unfolding live
count-Inv conn count s i alive some_slot = record {
  unique = i.unique;
  exact = i.exact;
  per_node = i.per_node;
  total = i.total;
  owned = i.owned;
  named = i.named;
  counted = λ c h.
      ground
        (arith, i.counted c, same_conn_iff c conn, is_conn_iff conn (s.streams conn.server_id));
  retired = λ n c h.
      let old = i.retired n c h in
      record {
        at = old.at;
        closed = old.closed;
        empty = old.empty;
        uncounted = ground (arith, old.uncounted, old.closed, same_conn_iff c conn);
      };
}

-- A slot is reserved for a positive count at a node without one; none is the capacity error.
reserve_slot-Inv :
    (node : String) (count : ℕ) (s : Manager)
    → Inv s
    → (reserve_slot node count s ≡ none)
      ⊎ ((s' : Manager) × ((reserve_slot node count s ≡ some s')
            × (Inv s'
                × ((0 < count → 0 < s'.activity_nodes node)
                    × ((s'.streams ≡ s.streams) × (s'.closed ≡ s.closed))))))
unfolding reserve_slot
reserve_slot-Inv node count s i = elim (Bool-cases (ltb 0 count && s.activity_nodes node == 0)) [
  | inr enough ↦ inr (s, (rw enough refl, (i, (λ h. ground arith, (refl, refl)))))
  | inl needed ↦ elim (Bool-cases (leb 4096 (length s.activities + length s.uncertain))) [
    | inl full ↦ inl (rw (needed, full) refl)
    | inr space ↦ inr (
      _,
      (
        rw (needed, space) refl,
        (
          slot-Inv node s i (ground (arith, i.exact node)) (ground arith) (ground arith),
          (λ h. ground (arith, eq_iff node node), (refl, refl)),
        ),
      ),
    )
  ]
]

set_to :
    (conn : Conn) (count : ℕ) (s : Manager)
    → count ≡ 0
    → put_conn s.activity_counts conn count conn ≡ 0
set_to conn count s z = ground (arith, same_conn_iff conn conn)

observe_slot-Inv :
    (conn : Conn) (count : ℕ) (s : Manager)
    → Inv s
    → live conn s ≡ true
    → Inv (observe_slot conn conn.server_id count (reserve_slot conn.server_id count s) s).1
unfolding observe_slot
observe_slot-Inv conn count s i alive = elim (reserve_slot-Inv conn.server_id count s i) [
  | inl full ↦ rw full i
  | inr (s', (e, (i', (slot, (streams, closed))))) ↦
      let alive' : live conn s' ≡ true = live-same conn s s' streams closed alive in
      let counted = count-Inv conn count s' i' alive' slot in
      elim (Bool-cases (count == 0)) [
        | inl zero_count ↦
            rw (e, zero_count)
              (clear_uncertain-Inv conn.server_id _ counted (
                live-Uncounted conn _ counted (live-same conn s' _ refl refl alive')
                  (set_to conn count s' (ground arith))))
        | inr positive ↦ rw (e, positive) counted
      ]
]

observe_conn-Inv :
    (o : Option Conn) (node : String) (stream count : ℕ) (s : Manager)
    → Inv s
    → s.streams node ≡ o
    → Inv (observe_conn o node stream count s).1
unfolding observe_conn
observe_conn-Inv none node stream count s i at = i
observe_conn-Inv (some conn) node stream count s i at =
    elim (Bool-cases (conn.stream == stream && live conn s)) [
      | inr stale ↦ rw stale i
      | inl fresh ↦ rw fresh (
          subst (λ n. Inv (observe_slot conn n count (reserve_slot n count s) s).1)
            (i.named node conn at) (observe_slot-Inv conn count s i (ground arith)))
    ]

pub observe_activity_capabilities-Inv :
    (node : String) (stream version count : ℕ) (s : Manager)
    → Inv s
    → Inv (observe_activity_capabilities node stream version count s).1
unfolding observe_activity_capabilities
observe_activity_capabilities-Inv node stream version count s i =
    elim (Bool-cases (not (version == 1) || ltb 128 count)) [
      | inl unsupported ↦ rw unsupported i
      | inr known ↦ rw known (observe_conn-Inv (s.streams node) node stream count s i refl)
    ]
