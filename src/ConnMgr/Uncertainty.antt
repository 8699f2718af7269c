-- ===== src/ConnMgr/Uncertainty.antt =====
-- activities.go: the end of a connection, the agent's own count, and what is idle.
use Prim.Native.String.{String}
use text.Mathlib.Text.{◌==◌ as str_eq}
use veyport.Base.{
  ℕ, ◌+◌, ◌-◌, ◌==◌, ltb, leb, Bool, ◌&&◌, ◌||◌, not, Option, none, some, List, [], ◌∷◌,
  if◌then◌else◌, length, select, any,
}
use veyport.ConnMgr.Manager.{
  Conn, same_conn, Entry, Manager, put, put_conn, is_uncertain, mark_uncertain,
}
use veyport.ConnMgr.Activities.{
  activity_capacity, stale_capability, unsupported_capability, Error, live, max_activities,
  max_node_activities, remove_activity,
}

-- The loop of endActivitiesLocked over the entries; whether a dispatched one was seen.
unfoldable pub end_entries : Conn → List Entry → Bool → Manager → Bool × Manager
end_entries conn [] unknown s = (unknown, s)
end_entries conn (e ∷ es) unknown s =
    let mine = same_conn e.key.connection conn in
    end_entries conn es (if mine then unknown || e.dispatched else unknown)
      (if mine then remove_activity e.key s else s)

unfoldable pub carry_over : Conn → Bool × Manager → Manager
carry_over conn (unknown, s) =
    let node = conn.server_id in
    if unknown && not (is_uncertain node s.uncertain)
    then record s {
      uncertain = mark_uncertain node s.uncertain;
      activity_nodes = put s.activity_nodes node (s.activity_nodes node + 1);
    }
    else s

-- endActivitiesLocked
unfoldable pub end_activities : Conn → Manager → Manager
unfolding carry_over
end_activities conn s = carry_over conn (
    end_entries conn s.activities (ltb 0 (s.activity_counts conn))
      (record s { activity_counts = put_conn s.activity_counts conn 0 }))

-- clearUncertainLocked
unfoldable pub clear_uncertain : String → Manager → Manager
clear_uncertain node s =
    if is_uncertain node s.uncertain
    then record s {
      uncertain = select (λ u. not (str_eq u node)) s.uncertain;
      activity_nodes = put s.activity_nodes node (s.activity_nodes node - 1);
    }
    else s

unfoldable pub reserve_slot : String → ℕ → Manager → Option Manager
reserve_slot node count s =
    if ltb 0 count && s.activity_nodes node == 0
    then (if leb max_activities (length s.activities + length s.uncertain)
        then none
        else some (record s {
          uncertain = mark_uncertain node s.uncertain;
          activity_nodes = put s.activity_nodes node (s.activity_nodes node + 1);
        }))
    else some s

unfoldable pub observe_slot : Conn → String → ℕ → Option Manager → Manager → Option Error × Manager
observe_slot conn node count none s = (some activity_capacity, s)
observe_slot conn node count (some s') s =
    let s'' = record s' { activity_counts = put_conn s'.activity_counts conn count } in
    (none, if count == 0 then clear_uncertain node s'' else s'')

unfoldable pub observe_conn : Option Conn → String → ℕ → ℕ → Manager → Option Error × Manager
unfolding reserve_slot observe_slot
observe_conn none node stream count s = (some stale_capability, s)
observe_conn (some conn) node stream count s =
    if conn.stream == stream && live conn s
    then observe_slot conn node count (reserve_slot node count s) s
    else (some stale_capability, s)

-- ObserveActivityCapabilities; GetConn and liveLocked are one check here.
unfoldable pub observe_activity_capabilities : String → ℕ → ℕ → ℕ → Manager → Option Error × Manager
unfolding observe_conn
observe_activity_capabilities node stream version count s =
    if not (version == 1) || ltb max_node_activities count
    then (some unsupported_capability, s)
    else observe_conn (s.streams node) node stream count s

-- activityIdleLocked
unfoldable pub activity_idle : Conn → Bool → Manager → Bool
activity_idle conn manual s = not (
    ltb 0 (s.activity_counts conn)
    || ((is_uncertain conn.server_id s.uncertain && not manual)
        || any
            (λ e.
              str_eq e.key.connection.server_id conn.server_id && (not manual || not e.abandoned))
            s.activities))

unfoldable pub clear_entries : Conn → List Entry → Manager → Manager
clear_entries conn [] s = s
clear_entries conn (e ∷ es) s =
    clear_entries conn es
      (if same_conn e.key.connection conn && e.abandoned then remove_activity e.key s else s)

-- clearAbandonedActivitiesLocked
unfoldable pub clear_abandoned : Conn → Manager → Manager
clear_abandoned conn s = clear_uncertain conn.server_id (clear_entries conn s.activities s)
