-- ===== src/ConnMgr/Exclusion.antt =====
-- Maintenance and work exclude each other on a node.
use Prim.Native.String.{String}
use text.Mathlib.Text.{◌==◌ as str_eq}
use text.Mathlib.TextEquality.{eq_iff}
use veyport.Base.{
  ◌≡◌, ◌≢◌, refl, Bool, true, false, Option, none, some, List, [], ◌∷◌, arith, if◌then◌else◌, any,
  not, Bool-cases, inl, inr, ◌||◌, ◌&&◌, any-imp, is_some, ap, any-update_where_keep,
  count_where-none, count_where-any,
}
use veyport.ConnMgr.Manager.{
  Conn, Kind, Key, same_conn, same_conn_iff, is_conn_iff, Entry, has_key, Manager, is_uncertain,
}
use veyport.ConnMgr.Activities.{
  HubMessage, message_activity, dispatch, live, begin_activity, begin_live, prepare_activity_send,
  prepare_kind, prepare_known, remove_activity,
}
use veyport.ConnMgr.Uncertainty.{activity_idle, clear_abandoned, clear_entries, clear_uncertain}
use veyport.ConnMgr.Connections.{reserve_maintenance, commit_maintenance, set_maintenance}
use veyport.ConnMgr.Bookkeeping.{Inv, on_node, on_conn, has_key_iff}
use veyport.Base.Counts.{any-element}
use veyport.ConnMgr.Bookkeeping.Endings.{remove_activity-gone, remove_activity-other}
use veyport.ConnMgr.Bookkeeping.Generations.{node-empty}
use veyport.ConnMgr.Bookkeeping.Maintenance.{is_uncertain-select}
use veyport.ConnMgr.Bookkeeping.Reservation.{
  clear_entries-facts, idle-uncounted, clear_abandoned-Inv, reserve_maintenance-Inv,
}

has_key-dispatch : (k : Key) (e : Entry) → has_key k (dispatch e) ≡ has_key k e
unfolding has_key
has_key-dispatch k e = refl

idle-empty :
    (conn : Conn) (es : List Entry)
    → any
        (λ e. str_eq e.key.connection.server_id conn.server_id && (not false || not e.abandoned))
        es
      ≡ false
    → any (on_node conn.server_id) es ≡ false
idle-empty conn es h = any-imp _ _ es (λ e d. ground arith) h

-- The states that a send leaves while maintenance is reserved.
prepare_kind-maintenance :
    (conn : Conn) (msg : HubMessage) (a : Option (Kind × String)) (s : Manager)
    → s.maintenance conn.server_id ≢ ""
    → (k : Key)
    → any (has_key k) (prepare_kind conn msg a s).1.activities ≡ any (has_key k) s.activities
unfolding prepare_kind prepare_known
prepare_kind-maintenance conn msg none s h k = ground arith
prepare_kind-maintenance conn msg (some (kind, id)) s h k = ground (
  arith,
  eq_iff (s.maintenance conn.server_id) "",
  any-update_where_keep (has_key (record { connection = conn; id = id; kind = kind })) (has_key k)
      dispatch s.activities (λ e. has_key-dispatch k e),
)

-- While maintenance is reserved on a node, no request is begun there: every attempt returns an error
-- and changes nothing. Preparing a message for a connection of that node, whatever the message,
-- leaves the same keys admitted as before.
pub maintenance-excludes :
    (conn : Conn) (id : String) (kind : Kind) (msg : HubMessage) (s : Manager)
    → s.maintenance conn.server_id ≢ ""
    → (is_some (begin_activity (some conn) id kind s).0 ≡ true)
      × (((begin_activity (some conn) id kind s).1 ≡ s)
          × ((k : Key)
              → any (has_key k) (prepare_activity_send conn msg s).1.activities
                ≡ any (has_key k) s.activities))
unfolding begin_activity begin_live prepare_activity_send
maintenance-excludes conn id kind msg s h = (
  ground (arith, eq_iff (s.maintenance conn.server_id) ""),
  (
    ground (arith, eq_iff (s.maintenance conn.server_id) ""),
    λ k. ground (arith, prepare_kind-maintenance conn msg (message_activity msg) s h k),
  ),
)

live-current :
    (conn : Conn) (s : Manager) → live conn s ≡ true → s.streams conn.server_id ≡ some conn
unfolding live
live-current conn s alive = ground (arith, is_conn_iff conn (s.streams conn.server_id))

idle-entries :
    (conn : Conn) (s : Manager)
    → activity_idle conn true s ≡ true
    → any
        (λ e. str_eq e.key.connection.server_id conn.server_id && (not true || not e.abandoned))
        s.activities
      ≡ false
unfolding activity_idle
idle-entries conn s idle = ground arith

-- What is idle: without the manual assertion, a node that counts nothing; with it, one whose entries
-- are all abandoned.
idle-node :
    (conn : Conn) (s : Manager)
    → Inv s
    → activity_idle conn false s ≡ true
    → s.activity_nodes conn.server_id ≡ 0
unfolding activity_idle
idle-node conn s i idle = ground (
  arith,
  i.exact conn.server_id,
  count_where-none (on_node conn.server_id) s.activities,
  idle-empty conn s.activities,
)

-- Every entry of the connection is among the abandoned ones that the loop still has to visit.
Abandons : Conn → List Entry → Manager → Type 0
Abandons conn es s =
    (j : Key)
    → j.connection ≡ conn
    → any (has_key j) s.activities ≡ true
    → any (λ e. has_key j e && e.abandoned) es ≡ true

Abandons-step :
    (conn : Conn) (e : Entry) (es : List Entry) (s : Manager)
    → Abandons conn (e ∷ es) s
    → Abandons conn es
        (if same_conn e.key.connection conn && e.abandoned then remove_activity e.key s else s)
unfolding Abandons any
Abandons-step conn e es s c j mine h = ground (
  arith,
  c j,
  remove_activity-gone e.key s,
  remove_activity-other e.key j s,
  same_conn_iff e.key.connection conn,
  has_key_iff j e,
)

clear_entries-none :
    (conn : Conn) (es : List Entry) (s : Manager)
    → Abandons conn es s
    → any (on_conn conn) (clear_entries conn es s).activities ≡ false
unfolding clear_entries Abandons any
clear_entries-none conn [] s c = elim (Bool-cases (any (on_conn conn) s.activities)) [
  | inr e ↦ e
  | inl e ↦
      let (x, (is, all)) = any-element (on_conn conn) s.activities e in
      let there : any (has_key x.key) s.activities ≡ true =
        all (has_key x.key) (ground (arith, has_key_iff x.key x)) in
      ground (arith, c x.key, same_conn_iff x.key.connection conn)
]
clear_entries-none conn (e ∷ es) s c = clear_entries-none conn es _ (Abandons-step conn e es s c)

-- When the manual assertion holds, every entry of the node is abandoned.
idle-Abandons :
    (conn : Conn) (es : List Entry) (s : Manager)
    → any
        (λ e. str_eq e.key.connection.server_id conn.server_id && (not true || not e.abandoned))
        es
      ≡ false
    → (j : Key) → j.connection ≡ conn
    → any (has_key j) es ≡ true
    → any (λ e. has_key j e && e.abandoned) es ≡ true
unfolding any
idle-Abandons conn [] s h j mine e = e
idle-Abandons conn (x ∷ es) s h j mine e = ground (
  arith,
  idle-Abandons conn es s (ground arith) j mine,
  has_key_iff j x,
  eq_iff x.key.connection.server_id conn.server_id,
)

cleared-certain :
    (node : String) (s : Manager) → is_uncertain node (clear_uncertain node s).uncertain ≡ false
unfolding clear_uncertain
cleared-certain node s = ground (arith, is_uncertain-select node node s.uncertain, eq_iff node node)

clear_uncertain-keeps :
    (node : String) (s : Manager)
    → ((clear_uncertain node s).activities ≡ s.activities)
      × ((clear_uncertain node s).streams ≡ s.streams)
unfolding clear_uncertain
clear_uncertain-keeps node s = ground arith

clear_abandoned-node :
    (conn : Conn) (s : Manager)
    → Inv s
    → live conn s ≡ true
    → activity_idle conn true s ≡ true
    → (clear_abandoned conn s).activity_nodes conn.server_id ≡ 0
unfolding clear_abandoned Abandons
clear_abandoned-node conn s i alive idle =
    let z = idle-uncounted conn true s idle in
    let s' = clear_entries conn s.activities s in
    let (i', t) = clear_entries-facts conn s.activities s i z in
    let keeps = clear_uncertain-keeps conn.server_id s' in
    let at : s.streams conn.server_id ≡ some conn = live-current conn s alive in
    let whole = clear_abandoned-Inv conn s i alive z in
    let none_left =
      clear_entries-none conn s.activities s
        (idle-Abandons conn s.activities s (idle-entries conn s idle)) in
    ground (
      arith,
      whole.exact conn.server_id,
      cleared-certain conn.server_id s',
      node-empty conn s' i' (ground (arith, ap (λ f. f conn.server_id) t.streams)) none_left,
    )

reserve-success :
    (conn : Conn) (id : String) (manual check : Bool) (s : Manager)
    → (reserve_maintenance conn id manual check s).0 ≡ none
    → ((reserve_maintenance conn id manual check s).1
        ≡ set_maintenance conn.server_id id (if manual then clear_abandoned conn s else s))
      × ((live conn s ≡ true) × (activity_idle conn manual s ≡ true))
unfolding reserve_maintenance commit_maintenance set_maintenance
reserve-success conn id manual check s h = ground arith

reserve-unreserved :
    (conn : Conn) (id : String) (manual check : Bool) (s : Manager)
    → (reserve_maintenance conn id manual check s).0 ≡ none
    → s.maintenance conn.server_id ≡ ""
unfolding reserve_maintenance
reserve-unreserved conn id manual check s h =
    ground (arith, eq_iff (s.maintenance conn.server_id) "")

reserved-node :
    (manual : Bool) (conn : Conn) (s : Manager)
    → Inv s
    → live conn s ≡ true
    → activity_idle conn manual s ≡ true
    → (if manual then clear_abandoned conn s else s).activity_nodes conn.server_id ≡ 0
reserved-node true conn s i alive idle = clear_abandoned-node conn s i alive idle
reserved-node false conn s i alive idle = idle-node conn s i idle

-- What a count of zero means.
uncounted-node :
    (node : String) (s : Manager)
    → Inv s
    → s.activity_nodes node ≡ 0
    → (any (on_node node) s.activities ≡ false) × (is_uncertain node s.uncertain ≡ false)
uncounted-node node s i z = (
  count_where-any (on_node node) s.activities (ground (arith, i.exact node)),
  ground (arith, i.exact node),
)

-- When the books are in order, a reservation that succeeds, with the manual assertion or without it,
-- was made for the live connection of its server, which had no reservation, and leaves the server
-- with the given id reserved, a count of zero, no activity of any of its connections, and no
-- uncertainty.
pub reserve_maintenance-idle :
    (conn : Conn) (id : String) (manual check : Bool) (s : Manager)
    → Inv s
    → (reserve_maintenance conn id manual check s).0 ≡ none
    → let s' = (reserve_maintenance conn id manual check s).1 in
      (live conn s ≡ true)
      × ((s.maintenance conn.server_id ≡ "")
          × (((s'.maintenance conn.server_id ≡ id) × (s'.activity_nodes conn.server_id ≡ 0))
              × ((any (on_node conn.server_id) s'.activities ≡ false)
                  × (is_uncertain conn.server_id s'.uncertain ≡ false))))
unfolding set_maintenance
reserve_maintenance-idle conn id manual check s i h =
    let (e, (alive, idle)) = reserve-success conn id manual check s h in
    let (reserved, zero) : ((reserve_maintenance conn id manual check s).1.maintenance
            conn.server_id
          ≡ id)
        × ((reserve_maintenance conn id manual check s).1.activity_nodes conn.server_id ≡ 0) =
      rw e (
        ground (arith, eq_iff conn.server_id conn.server_id),
        reserved-node manual conn s i alive idle,
      ) in
    (
      alive,
      (
        reserve-unreserved conn id manual check s h,
        (
          (reserved, zero),
          uncounted-node conn.server_id _ (reserve_maintenance-Inv conn id manual check s i) zero,
        ),
      ),
    )
