-- ===== src/ConnMgr/Connections.antt =====
-- connmgr.go. Of `Register`, a round of the loop is a step; a send's transport result is an argument.
use Prim.Native.String.{String}
use text.Mathlib.Text.{◌==◌ as str_eq}
use veyport.Base.{
  ℕ, zero, suc, ◌==◌, Bool, true, false, ◌&&◌, not, Option, none, some, if◌then◌else◌, is_some,
}
use veyport.ConnMgr.Manager.{Conn, is_conn, Kind, same_kind, Key, Manager, put, put_conn}
use veyport.ConnMgr.Activities.{
  Error, maintenance_active, connection_changed, activity_busy, disconnected, context_done,
  send_failed, refused, binding_differs, HubMessage, message_activity, live, prepare_activity_send,
  abandon_activity, claim_dispatch,
}
use veyport.ConnMgr.Uncertainty.{end_activities, activity_idle, clear_abandoned}

-- GetConn: a closing connection is hidden.
unfoldable pub hide_closed : Option Conn → Manager → Option Conn
hide_closed none s = none
hide_closed (some conn) s = if s.closed conn then none else some conn

unfoldable pub get_conn : String → Manager → Option Conn
unfolding hide_closed
get_conn node s = hide_closed (s.streams node) s

-- conn.Close()
unfoldable pub close : Conn → Manager → Manager
close conn s = record s { closed = put_conn s.closed conn true }

-- detachIfCurrent: close the generation, end its work, and leave it to be retired.
unfoldable pub detach_if_current : String → Conn → Manager → Bool × Manager
unfolding close
detach_if_current node conn s =
    if not (is_conn conn (s.streams node))
    then (false, s)
    else let ended = end_activities conn (close conn s) in
      (true, record ended { retiring = put ended.retiring node (some conn) })

-- finishRetirement, once every admitted send has left the generation.
unfoldable pub finish_retirement : Conn → Manager → Manager
finish_retirement conn s =
    let node = conn.server_id in
    if is_conn conn (s.retiring node)
    then record s {
      streams = if is_conn conn (s.streams node) then put s.streams node none else s.streams;
      retiring = put s.retiring node none;
    }
    else s

unfoldable pub detach_found : String → Option Conn → Manager → Bool × Manager
detach_found node none s = (false, s)
detach_found node (some conn) s = detach_if_current node conn s

unfoldable pub unregister : String → Manager → Manager
unfolding detach_found
unregister node s = (detach_found node (s.streams node) s).1

unfoldable pub on_stream : String → ℕ → Option Conn → Manager → Bool × Manager
on_stream node stream none s = (false, s)
on_stream node stream (some conn) s =
    if conn.stream == stream then detach_if_current node conn s else (false, s)

unfoldable pub unregister_if_current : String → ℕ → Manager → Bool × Manager
unfolding on_stream
unregister_if_current node stream s = on_stream node stream (s.streams node) s

-- One round of the loop of Register: true when `conn` was installed.
unfoldable pub register_retiring : Conn → Conn → Manager → Bool × Manager
register_retiring conn old s =
    let node = conn.server_id in
    let streams = if is_conn old (s.streams node) then put s.streams node none else s.streams in
    let retired = record s { streams = streams; retiring = put s.retiring node none } in
    if is_some (streams node)
    then (false, retired)
    else (true, record retired { streams = put streams node (some conn) })

unfoldable pub register_previous : Conn → Option Conn → Manager → Bool × Manager
register_previous conn none s =
    (true, record s { streams = put s.streams conn.server_id (some conn) })
register_previous conn (some previous) s = (false, (detach_if_current conn.server_id previous s).1)

unfoldable pub register_round : Conn → Option Conn → Manager → Bool × Manager
unfolding register_retiring register_previous
register_round conn none s = register_previous conn (s.streams conn.server_id) s
register_round conn (some old) s = register_retiring conn old s

-- Register runs rounds until it installs; none when the rounds run out.
unfoldable pub register : ℕ → Conn → Manager → Option Manager
register zero conn s = none
register (suc rounds) conn s =
    let (installed, s') = register_round conn (s.retiring conn.server_id) s in
    elim installed [ true ↦ some s' | false ↦ register rounds conn s' ]

-- abandonMessage
unfoldable pub abandon_message : Conn → Option (Kind × String) → Manager → Manager
abandon_message conn none s = s
abandon_message conn (some (kind, id)) s =
    abandon_activity (record { connection = conn; id = id; kind = kind }) s

unfoldable pub send_prepared :
    Conn → HubMessage → Bool → Option Error × Manager → Option Error × Manager
unfolding abandon_message
send_prepared conn msg sent (some e, s) = (some e, s)
send_prepared conn msg sent (none, s) =
    if sent then (none, s) else (some send_failed, abandon_message conn (message_activity msg) s)

unfoldable pub send_after_check :
    Conn → HubMessage → Bool → Option Error × Manager → Option Error × Manager
unfolding send_prepared
send_after_check conn msg sent (some e, s) = (some e, s)
send_after_check conn msg sent (none, s) =
    send_prepared conn msg sent (prepare_activity_send conn msg s)

-- SendToConnectionGuarded for a check that runs before the send: the message passes when the
-- connection is open, the context is not done and the check lets it; `sent` says whether the
-- transport took it. A caller that stops waiting when its context ends is a `close` of its own.
unfoldable pub send_checked :
    Conn
    → HubMessage
    → Bool
    → (Manager → Option Error × Manager)
    → Bool
    → Manager
    → Option Error × Manager
unfolding send_after_check
send_checked conn msg done check sent s =
    if s.closed conn
    then (some disconnected, s)
    else if done
    then (some context_done, s)
    else send_after_check conn msg sent (check s)

unfoldable pub binds : Key → Option (Kind × String) → Bool
binds key none = false
binds key (some (kind, id)) = same_kind kind key.kind && str_eq id key.id

-- Activity.Send
unfoldable pub activity_send : Key → HubMessage → Bool → Bool → Manager → Option Error × Manager
unfolding binds
activity_send key msg done sent s =
    if binds key (message_activity msg)
    then send_checked key.connection msg done (claim_dispatch key) sent s
    else (some binding_differs, s)

-- The second half of the reservation, under one hold of the lock.
unfoldable pub commit_maintenance : Conn → String → Bool → Manager → Option Error × Manager
commit_maintenance conn id manual s =
    if not (live conn s)
    then (some connection_changed, s)
    else if not (str_eq (s.maintenance conn.server_id) "")
    then (some maintenance_active, s)
    else if not (activity_idle conn manual s)
    then (some activity_busy, s)
    else let cleared = if manual then clear_abandoned conn s else s in
      (none, record cleared { maintenance = put cleared.maintenance conn.server_id id })

-- ReserveMaintenanceWithIdleAssertion; `check` is the callback's answer, true when it failed. The
-- tests before the callback are repeated under the lock, by the second half.
unfoldable pub reserve_maintenance : Conn → String → Bool → Bool → Manager → Option Error × Manager
reserve_maintenance conn id manual check s =
    if not (is_conn conn (get_conn conn.server_id s))
    then (some connection_changed, s)
    else if s.closed conn
    then (some disconnected, s)
    else if not (str_eq (s.maintenance conn.server_id) "")
    then (some maintenance_active, s)
    else if not (activity_idle conn manual s)
    then (some activity_busy, s)
    else if check
    then (some refused, s)
    else commit_maintenance conn id manual s

unfoldable pub set_maintenance : String → String → Manager → Manager
set_maintenance node id s = record s { maintenance = put s.maintenance node id }

unfoldable pub release_maintenance : String → String → Manager → Manager
release_maintenance node id s =
    if str_eq (s.maintenance node) id
    then record s { maintenance = put s.maintenance node "" }
    else s
