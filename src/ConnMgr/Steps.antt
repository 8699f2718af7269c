-- ===== src/ConnMgr/Steps.antt =====
-- The registry over any sequence of its operations.
use Prim.Native.String.{String}
use veyport.Base.{ℕ, refl, Bool, Option, none, List, [], ◌∷◌}
use veyport.ConnMgr.Manager.{Conn, Kind, Key, Manager}
use veyport.ConnMgr.Activities.{
  HubMessage, AgentMessage, begin_activity, begin_request, abandon_activity, complete_response,
}
use veyport.ConnMgr.Uncertainty.{observe_activity_capabilities}
use veyport.ConnMgr.Connections.{
  close, unregister, unregister_if_current, finish_retirement, register_round, activity_send,
  send_checked, reserve_maintenance, set_maintenance, release_maintenance,
}
use veyport.ConnMgr.Bookkeeping.{Inv}
use veyport.ConnMgr.Bookkeeping.Generations.{close-Inv}
use veyport.ConnMgr.Bookkeeping.Streams.{
  unregister-Inv, unregister_if_current-Inv, finish_retirement-Inv, register_round-Inv,
}
use veyport.ConnMgr.Bookkeeping.Requests.{
  begin_activity-Inv, begin_request-Inv, abandon_activity-Inv, complete_response-Inv,
  activity_send-Inv, send_checked-Inv,
}
use veyport.ConnMgr.Bookkeeping.Maintenance.{observe_activity_capabilities-Inv}
use veyport.ConnMgr.Bookkeeping.Reservation.{
  reserve_maintenance-Inv, set_maintenance-Inv, release_maintenance-Inv,
}

-- A step under ConnManager.mu, or a run of such steps under a connection's SendMu. `send` is a
-- direct send with a check that reads only; a round of Register is a step of its own.
pub data Op : Type 0 where
  register : Conn → Op
  shut retire : Conn → Op
  detach : String → Op
  unregister_stream : String → ℕ → Op
  begin : Option Conn → String → Kind → Op
  request : Option Conn → HubMessage → Op
  activity : Key → HubMessage → Bool → Bool → Op
  send : Conn → HubMessage → Bool → Bool → Op
  abandon : Key → Op
  respond : String → ℕ → AgentMessage → Op
  observe : String → ℕ → ℕ → ℕ → Op
  reserve : Conn → String → Bool → Bool → Op
  set release : String → String → Op

unfoldable pub apply : Op → Manager → Manager
apply (register conn) s = (register_round conn (s.retiring conn.server_id) s).1
apply (shut conn) s = close conn s
apply (retire conn) s = finish_retirement conn s
apply (detach node) s = unregister node s
apply (unregister_stream node stream) s = (unregister_if_current node stream s).1
apply (begin conn id kind) s = (begin_activity conn id kind s).1
apply (request conn msg) s = (begin_request conn msg s).1
apply (activity k msg done sent) s = (activity_send k msg done sent s).1
apply (send conn msg done sent) s = (send_checked conn msg done (λ t. (none, t)) sent s).1
apply (abandon k) s = abandon_activity k s
apply (respond node stream msg) s = (complete_response node stream msg s).1
apply (observe node stream version count) s =
    (observe_activity_capabilities node stream version count s).1
apply (reserve conn id manual check) s = (reserve_maintenance conn id manual check s).1
apply (set node id) s = set_maintenance node id s
apply (release node id) s = release_maintenance node id s

unfoldable pub run : List Op → Manager → Manager
run [] s = s
run (op ∷ ops) s = run ops (apply op s)

apply-Inv : (op : Op) (s : Manager) → Inv s → Inv (apply op s)
unfolding apply
apply-Inv (register conn) s i = register_round-Inv conn (s.retiring conn.server_id) s i refl
apply-Inv (shut conn) s i = close-Inv conn s i
apply-Inv (retire conn) s i = finish_retirement-Inv conn s i
apply-Inv (detach node) s i = unregister-Inv node s i
apply-Inv (unregister_stream node stream) s i = unregister_if_current-Inv node stream s i
apply-Inv (begin conn id kind) s i = begin_activity-Inv conn id kind s i
apply-Inv (request conn msg) s i = begin_request-Inv conn msg s i
apply-Inv (activity k msg done sent) s i = activity_send-Inv k msg done sent s i
apply-Inv (send conn msg done sent) s i =
    send_checked-Inv conn msg done (λ t. (none, t)) sent s (λ t j. j) i
apply-Inv (abandon k) s i = abandon_activity-Inv k s i
apply-Inv (respond node stream msg) s i = complete_response-Inv node stream msg s i
apply-Inv (observe node stream version count) s i =
    observe_activity_capabilities-Inv node stream version count s i
apply-Inv (reserve conn id manual check) s i = reserve_maintenance-Inv conn id manual check s i
apply-Inv (set node id) s i = set_maintenance-Inv node id s i
apply-Inv (release node id) s i = release_maintenance-Inv node id s i

-- Every sequence of the registry's operations, in any order and with any outcome of the transport
-- and of the callbacks, keeps its books: each key is admitted once; the count of a node is exactly
-- its entries plus its uncertainty slot, and at most 128; entries and slots are at most 4096
-- together, so the slot that a disconnect may need is always there; an entry belongs to the installed
-- connection of its server; a positive reported count belongs to an installed connection of a node
-- with a slot; and a generation that waits to be retired is closed and has no entry and no count.
pub run-Inv : (ops : List Op) (s : Manager) → Inv s → Inv (run ops s)
unfolding run
run-Inv [] s i = i
run-Inv (op ∷ ops) s i = run-Inv ops (apply op s) (apply-Inv op s i)
