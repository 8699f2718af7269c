-- ===== src/ConnMgr/Activities.antt =====
-- activities.go: what is admitted, sent, abandoned and completed.
use Prim.Native.String.{String, len}
use text.Mathlib.Text.{◌==◌ as str_eq}
use veyport.Base.{
  ℕ, ◌+◌, ◌-◌, ◌==◌, ltb, leb, Bool, true, false, ◌&&◌, ◌||◌, not, Option, none, some, [], ◌∷◌,
  ◌++◌, if◌then◌else◌, length, select, any, find, update_where,
}
use veyport.Base.Text.{codes}
use veyport.ConnMgr.Manager.{
  Conn, is_conn, Kind, list, read, delete, upload, log, application, Key, Entry, has_key, Manager,
  put, mark_uncertain,
}

abbrev pub max_node_activities : ℕ
max_node_activities = 128

abbrev pub max_activities : ℕ
max_activities = 4096

pub data Error : Type 0 where
  invalid_binding connection_changed maintenance_active already_admitted activity_capacity : Error
  binding_differs no_longer_admitted no_admitted_upload unsupported_capability stale_capability :
      Error
  activity_busy not_connected disconnected context_done send_failed refused : Error

-- The payloads of a HubMessage that the registry tells apart, with what it reads of them.
pub data HubMessage : Type 0 where
  file_list_request file_read_request file_delete_request log_stream_request application_open :
      String → HubMessage
  file_upload_request : String → String → HubMessage
  terminal_open_request execution_prepare execution_attach other : HubMessage

-- none is the empty kind.
unfoldable pub message_activity : HubMessage → Option (Kind × String)
message_activity (file_list_request id) = some (list, id)
message_activity (file_read_request id) = some (read, id)
message_activity (file_delete_request id) = some (delete, id)
message_activity (file_upload_request id name) = some (upload, id)
message_activity (log_stream_request id) = some (log, id)
message_activity (application_open id) = some (application, id)
message_activity terminal_open_request = none
message_activity execution_prepare = none
message_activity execution_attach = none
message_activity other = none

-- Every Kind is one of the switch; the id is bounded and holds no NUL, CR or LF.
unfoldable pub valid_activity : String → Kind → Bool
valid_activity id kind =
    not (str_eq id "" || (ltb 128 (len id) || any (λ c. c == 0 || (c == 13 || c == 10)) (codes id)))

unfoldable pub live : Conn → Manager → Bool
live conn s = is_conn conn (s.streams conn.server_id) && not (s.closed conn)

abbrev pub entry : Key → Entry
entry key = record { key = key; dispatched = false; abandoned = false }

-- addActivityLocked; none is ErrActivityCapacity.
unfoldable pub add_activity : Key → Manager → Option Manager
add_activity key s =
    let node = key.connection.server_id in
    if leb max_node_activities (s.activity_nodes node)
      || leb max_activities (length s.activities + length s.uncertain)
    then none
    else some (record s {
      activities = s.activities ++ entry key ∷ [];
      activity_nodes = put s.activity_nodes node (s.activity_nodes node + 1);
    })

-- removeActivityLocked. The count of a node with an entry is positive (Bookkeeping).
unfoldable pub remove_activity : Key → Manager → Manager
remove_activity key s =
    let node = key.connection.server_id in
    let rest = select (λ e. not (has_key key e)) s.activities in
    let left = s.activity_nodes node - 1 in
    if not (any (has_key key) s.activities)
    then s
    else if not (left == 0)
    then record s { activities = rest; activity_nodes = put s.activity_nodes node left }
    else if ltb 0 (s.activity_counts key.connection)
    then record s {
      activities = rest;
      uncertain = mark_uncertain node s.uncertain;
      activity_nodes = put s.activity_nodes node 1;
    }
    else record s { activities = rest; activity_nodes = put s.activity_nodes node 0 }

unfoldable pub begin_checked : Option Manager → Manager → Option Error × Manager
begin_checked none s = (some activity_capacity, s)
begin_checked (some s') s = (none, s')

unfoldable pub begin_live : Conn → String → Kind → Manager → Option Error × Manager
unfolding begin_checked
begin_live conn id kind s =
    let key : Key = record { connection = conn; id = id; kind = kind } in
    if not (live conn s)
    then (some connection_changed, s)
    else if not (str_eq (s.maintenance conn.server_id) "")
    then (some maintenance_active, s)
    else if any (has_key key) s.activities
    then (some already_admitted, s)
    else begin_checked (add_activity key s) s

-- BeginActivity; the connection may be nil. The Activity that it returns is the key.
unfoldable pub begin_activity : Option Conn → String → Kind → Manager → Option Error × Manager
unfolding begin_live
begin_activity none id kind s = (some invalid_binding, s)
begin_activity (some conn) id kind s =
    if not (valid_activity id kind) then (some invalid_binding, s) else begin_live conn id kind s

unfoldable pub begin_message :
    Option Conn → Option (Kind × String) → Manager → Option Error × Manager
begin_message conn none s = (some invalid_binding, s)
begin_message conn (some (kind, id)) s = begin_activity conn id kind s

unfoldable pub begin_request : Option Conn → HubMessage → Manager → Option Error × Manager
unfolding begin_message
begin_request conn msg s = begin_message conn (message_activity msg) s

abbrev pub dispatch : Entry → Entry
dispatch e = record e { dispatched = true }

unfoldable pub claim_found : Key → Option Entry → Manager → Option Error × Manager
claim_found key none s = (some no_longer_admitted, s)
claim_found key (some e) s =
    if e.abandoned
    then (some no_longer_admitted, s)
    else (none, record s { activities = update_where (has_key key) dispatch s.activities })

-- The check of Activity.Send: claim the dispatch of an entry that is not abandoned.
unfoldable pub claim_dispatch : Key → Manager → Option Error × Manager
unfolding claim_found
claim_dispatch key s = claim_found key (find (has_key key) s.activities) s

abbrev pub is_admission : Option (Kind × String) → HubMessage → Bool
is_admission (some k) msg = true
is_admission none terminal_open_request = true
is_admission none execution_prepare = true
is_admission none execution_attach = true
is_admission none _ = false

abbrev pub continues_upload : HubMessage → Bool
continues_upload (file_upload_request id name) = str_eq name ""
continues_upload _ = false

unfoldable pub prepare_added : Key → Option Manager → Manager → Option Error × Manager
prepare_added key none s = (some activity_capacity, s)
prepare_added key (some s') s =
    (none, record s' { activities = update_where (has_key key) dispatch s'.activities })

unfoldable pub prepare_known : Key → HubMessage → Manager → Option Error × Manager
unfolding prepare_added
prepare_known key msg s =
    if any (has_key key) s.activities
    then (none, record s { activities = update_where (has_key key) dispatch s.activities })
    else if continues_upload msg
    then (some no_admitted_upload, s)
    else prepare_added key (add_activity key s) s

unfoldable pub prepare_kind :
    Conn → HubMessage → Option (Kind × String) → Manager → Option Error × Manager
unfolding prepare_known
prepare_kind conn msg none s =
    if is_admission none msg && not (str_eq (s.maintenance conn.server_id) "")
    then (some maintenance_active, s)
    else (none, s)
prepare_kind conn msg (some (kind, id)) s =
    let key : Key = record { connection = conn; id = id; kind = kind } in
    if not (str_eq (s.maintenance conn.server_id) "") && not (any (has_key key) s.activities)
    then (some maintenance_active, s)
    else if not (valid_activity id kind)
    then (some invalid_binding, s)
    else prepare_known key msg s

-- prepareActivitySend
unfoldable pub prepare_activity_send : Conn → HubMessage → Manager → Option Error × Manager
unfolding prepare_kind
prepare_activity_send conn msg s =
    if not (live conn s)
    then (some connection_changed, s)
    else prepare_kind conn msg (message_activity msg) s

unfoldable pub abandon_found : Key → Option Entry → Manager → Manager
abandon_found key none s = s
abandon_found key (some e) s = if not e.dispatched then remove_activity key s else record s {
  activities = update_where (has_key key) (λ e'. record e' { abandoned = true }) s.activities;
}

-- abandonActivity
unfoldable pub abandon_activity : Key → Manager → Manager
unfolding abandon_found
abandon_activity key s = abandon_found key (find (has_key key) s.activities) s

unfoldable pub complete_on : Option Conn → ℕ → String → Kind → Manager → Bool × Manager
complete_on none stream id kind s = (false, s)
complete_on (some conn) stream id kind s =
    let key : Key = record { connection = conn; id = id; kind = kind } in
    if conn.stream == stream && any (has_key key) s.activities
    then (true, remove_activity key s)
    else (false, s)

-- CompleteActivity
unfoldable pub complete_activity : String → ℕ → String → Kind → Manager → Bool × Manager
unfolding complete_on
complete_activity node stream id kind s = complete_on (s.streams node) stream id kind s

-- The responses of an agent that end an activity, with what the registry reads of them.
pub data AgentMessage : Type 0 where
  file_list_response file_read_response file_delete_response file_upload_ack application_closed :
      String → AgentMessage
  log_stream_chunk : String → Bool → AgentMessage
  other : AgentMessage

unfoldable pub complete_response : String → ℕ → AgentMessage → Manager → Bool × Manager
complete_response node stream (file_list_response id) s = complete_activity node stream id list s
complete_response node stream (file_read_response id) s = complete_activity node stream id read s
complete_response node stream (file_delete_response id) s =
    complete_activity node stream id delete s
complete_response node stream (file_upload_ack id) s = complete_activity node stream id upload s
complete_response node stream (log_stream_chunk id done) s =
    if done then complete_activity node stream id log s else (false, s)
complete_response node stream (application_closed id) s =
    complete_activity node stream id application s
complete_response node stream AgentMessage.other s = (false, s)
