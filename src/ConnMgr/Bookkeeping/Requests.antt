-- ===== src/ConnMgr/Bookkeeping/Requests.antt =====
-- Admitting, sending, abandoning and completing an activity keeps the counts.
use Prim.Native.String.{String}
use veyport.Base.{
  ℕ, ◌≡◌, ◌⊎◌, ◌==◌, refl, Bool, true, false, Option, none, some, arith, any, Bool-cases, inl, inr,
  ◌&&◌, find, update_where,
}
use veyport.ConnMgr.Manager.{Conn, Kind, Key, Entry, has_key, Manager}
use veyport.ConnMgr.Activities.{
  Error, HubMessage, message_activity, live, valid_activity, add_activity, begin_checked,
  begin_live, begin_activity, begin_message, begin_request, dispatch, claim_found, claim_dispatch,
  prepare_added, prepare_known, prepare_kind, prepare_activity_send, abandon_found,
  abandon_activity, complete_on, complete_activity, AgentMessage, complete_response,
}
use veyport.ConnMgr.Connections.{
  abandon_message, send_prepared, send_after_check, send_checked, activity_send, binds,
}
use veyport.ConnMgr.Bookkeeping.{Inv}
use veyport.ConnMgr.Bookkeeping.Entries.{mark-Inv, add_activity-Inv}
use veyport.ConnMgr.Bookkeeping.Removals.{remove_activity-Inv}

begin_checked-Inv :
    (k : Key) (s : Manager)
    → Inv s
    → live k.connection s ≡ true
    → any (has_key k) s.activities ≡ false
    → Inv (begin_checked (add_activity k s) s).1
unfolding begin_checked
begin_checked-Inv k s i alive fresh = elim (add_activity-Inv k s i alive fresh) [
  | inl over ↦ rw over i
  | inr (s', (room, i')) ↦ rw room i'
]

begin_live-states :
    (conn : Conn) (id : String) (kind : Kind) (s : Manager)
    → let k : Key = record { connection = conn; id = id; kind = kind } in
      ((begin_live conn id kind s).1 ≡ s)
      ⊎ (((begin_live conn id kind s).1 ≡ (begin_checked (add_activity k s) s).1)
          × ((live conn s ≡ true) × (any (has_key k) s.activities ≡ false)))
unfolding begin_live
begin_live-states conn id kind s = ground arith

begin_live-Inv :
    (conn : Conn) (id : String) (kind : Kind) (s : Manager)
    → Inv s
    → Inv (begin_live conn id kind s).1
begin_live-Inv conn id kind s i = elim (begin_live-states conn id kind s) [
  | inl same ↦ rw same i
  | inr (e, (alive, fresh)) ↦ rw e (begin_checked-Inv _ s i alive fresh)
]

pub begin_activity-Inv :
    (conn : Option Conn) (id : String) (kind : Kind) (s : Manager)
    → Inv s
    → Inv (begin_activity conn id kind s).1
unfolding begin_activity
begin_activity-Inv none id kind s i = i
begin_activity-Inv (some conn) id kind s i = elim (Bool-cases (valid_activity id kind)) [
  | inl valid ↦ rw valid (begin_live-Inv conn id kind s i)
  | inr other ↦ rw other i
]

begin_message-Inv :
    (conn : Option Conn) (a : Option (Kind × String)) (s : Manager)
    → Inv s
    → Inv (begin_message conn a s).1
unfolding begin_message
begin_message-Inv conn none s i = i
begin_message-Inv conn (some (kind, id)) s i = begin_activity-Inv conn id kind s i

pub begin_request-Inv :
    (conn : Option Conn) (msg : HubMessage) (s : Manager) → Inv s → Inv (begin_request conn msg s).1
unfolding begin_request
begin_request-Inv conn msg s i = begin_message-Inv conn (message_activity msg) s i

claim_found-Inv : (k : Key) (o : Option Entry) (s : Manager) → Inv s → Inv (claim_found k o s).1
unfolding claim_found
claim_found-Inv k none s i = i
claim_found-Inv k (some e) s i = elim (Bool-cases e.abandoned) [
  | inl left ↦ rw left i
  | inr held ↦ rw held (mark-Inv (has_key k) dispatch s (λ e. refl) i)
]

pub claim_dispatch-Inv : (k : Key) (s : Manager) → Inv s → Inv (claim_dispatch k s).1
unfolding claim_dispatch
claim_dispatch-Inv k s i = claim_found-Inv k (find (has_key k) s.activities) s i

prepare_added-Inv :
    (k : Key) (s : Manager)
    → Inv s
    → live k.connection s ≡ true
    → any (has_key k) s.activities ≡ false
    → Inv (prepare_added k (add_activity k s) s).1
unfolding prepare_added
prepare_added-Inv k s i alive fresh = elim (add_activity-Inv k s i alive fresh) [
  | inl over ↦ rw over i
  | inr (s', (room, i')) ↦ rw room (mark-Inv (has_key k) dispatch s' (λ e. refl) i')
]

prepare_kind-states :
    (conn : Conn) (msg : HubMessage) (kind : Kind) (id : String) (s : Manager)
    → let k : Key = record { connection = conn; id = id; kind = kind } in
      let after = (prepare_kind conn msg (some (kind, id)) s).1 in
      (after ≡ s)
      ⊎ ((after ≡ record s { activities = update_where (has_key k) dispatch s.activities })
          ⊎ ((after ≡ (prepare_added k (add_activity k s) s).1)
              × (any (has_key k) s.activities ≡ false)))
unfolding prepare_kind prepare_known
prepare_kind-states conn msg kind id s = ground arith

prepare_kind-none :
    (conn : Conn) (msg : HubMessage) (s : Manager) → (prepare_kind conn msg none s).1 ≡ s
unfolding prepare_kind
prepare_kind-none conn msg s = ground arith

prepare_kind-Inv :
    (conn : Conn) (msg : HubMessage) (a : Option (Kind × String)) (s : Manager)
    → Inv s
    → live conn s ≡ true
    → Inv (prepare_kind conn msg a s).1
prepare_kind-Inv conn msg none s i alive =
    let same : (prepare_kind conn msg none s).1 ≡ s = prepare_kind-none conn msg s in rw same i
prepare_kind-Inv conn msg (some (kind, id)) s i alive =
    elim (prepare_kind-states conn msg kind id s) [
      | inl same ↦ rw same i
      | inr (inl marked) ↦ rw marked (mark-Inv _ dispatch s (λ e. refl) i)
      | inr (inr (e, fresh)) ↦ rw e (prepare_added-Inv _ s i alive fresh)
    ]

pub prepare_activity_send-Inv :
    (conn : Conn) (msg : HubMessage) (s : Manager)
    → Inv s
    → Inv (prepare_activity_send conn msg s).1
unfolding prepare_activity_send
prepare_activity_send-Inv conn msg s i = elim (Bool-cases (live conn s)) [
  | inl alive ↦ rw alive (prepare_kind-Inv conn msg (message_activity msg) s i alive)
  | inr dead ↦ rw dead i
]

abandon_found-Inv : (k : Key) (o : Option Entry) (s : Manager) → Inv s → Inv (abandon_found k o s)
unfolding abandon_found
abandon_found-Inv k none s i = i
abandon_found-Inv k (some e) s i = elim (Bool-cases e.dispatched) [
  | inl sent ↦ rw sent (mark-Inv (has_key k) _ s (λ e. refl) i)
  | inr queued ↦ rw queued (remove_activity-Inv k s i)
]

pub abandon_activity-Inv : (k : Key) (s : Manager) → Inv s → Inv (abandon_activity k s)
unfolding abandon_activity
abandon_activity-Inv k s i = abandon_found-Inv k (find (has_key k) s.activities) s i

complete_on-Inv :
    (conn : Option Conn) (stream : ℕ) (id : String) (kind : Kind) (s : Manager)
    → Inv s
    → Inv (complete_on conn stream id kind s).1
unfolding complete_on
complete_on-Inv none stream id kind s i = i
complete_on-Inv (some conn) stream id kind s i =
    let k : Key = record { connection = conn; id = id; kind = kind } in
    elim (Bool-cases (conn.stream == stream && any (has_key k) s.activities)) [
      | inl mine ↦ rw mine (remove_activity-Inv k s i)
      | inr other ↦ rw other i
    ]

pub complete_activity-Inv :
    (node : String) (stream : ℕ) (id : String) (kind : Kind) (s : Manager)
    → Inv s
    → Inv (complete_activity node stream id kind s).1
unfolding complete_activity
complete_activity-Inv node stream id kind s i = complete_on-Inv (s.streams node) stream id kind s i

pub complete_response-Inv :
    (node : String) (stream : ℕ) (msg : AgentMessage) (s : Manager)
    → Inv s
    → Inv (complete_response node stream msg s).1
unfolding complete_response
complete_response-Inv node stream (AgentMessage.file_list_response id) s i =
    complete_activity-Inv node stream id _ s i
complete_response-Inv node stream (AgentMessage.file_read_response id) s i =
    complete_activity-Inv node stream id _ s i
complete_response-Inv node stream (AgentMessage.file_delete_response id) s i =
    complete_activity-Inv node stream id _ s i
complete_response-Inv node stream (AgentMessage.file_upload_ack id) s i =
    complete_activity-Inv node stream id _ s i
complete_response-Inv node stream (AgentMessage.log_stream_chunk id true) s i =
    complete_activity-Inv node stream id _ s i
complete_response-Inv node stream (AgentMessage.log_stream_chunk id false) s i = i
complete_response-Inv node stream (AgentMessage.application_closed id) s i =
    complete_activity-Inv node stream id _ s i
complete_response-Inv node stream AgentMessage.other s i = i

abandon_message-Inv :
    (conn : Conn) (a : Option (Kind × String)) (s : Manager)
    → Inv s
    → Inv (abandon_message conn a s)
unfolding abandon_message
abandon_message-Inv conn none s i = i
abandon_message-Inv conn (some (kind, id)) s i = abandon_activity-Inv _ s i

send_prepared-Inv :
    (conn : Conn) (msg : HubMessage) (sent : Bool) (r : Option Error × Manager)
    → Inv r.1
    → Inv (send_prepared conn msg sent r).1
unfolding send_prepared
send_prepared-Inv conn msg sent (some e, s) i = i
send_prepared-Inv conn msg true (none, s) i = i
send_prepared-Inv conn msg false (none, s) i = abandon_message-Inv conn (message_activity msg) s i

send_after_check-Inv :
    (conn : Conn) (msg : HubMessage) (sent : Bool) (r : Option Error × Manager)
    → Inv r.1
    → Inv (send_after_check conn msg sent r).1
unfolding send_after_check
send_after_check-Inv conn msg sent (some e, s) i = i
send_after_check-Inv conn msg sent (none, s) i =
    send_prepared-Inv conn msg sent _ (prepare_activity_send-Inv conn msg s i)

pub send_checked-Inv :
    (conn : Conn) (msg : HubMessage) (done : Bool) (check : Manager → Option Error × Manager)
    (sent : Bool) (s : Manager)
    → ((t : Manager) → Inv t → Inv (check t).1)
    → Inv s
    → Inv (send_checked conn msg done check sent s).1
unfolding send_checked
send_checked-Inv conn msg done check sent s keep i = elim (Bool-cases (s.closed conn)) [
  | inl shut ↦ rw shut i
  | inr opened ↦ elim (Bool-cases done) [
    | inl late ↦ rw (opened, late) i
    | inr soon ↦ rw (opened, soon) (send_after_check-Inv conn msg sent (check s) (keep s i))
  ]
]

pub activity_send-Inv :
    (k : Key) (msg : HubMessage) (done sent : Bool) (s : Manager)
    → Inv s
    → Inv (activity_send k msg done sent s).1
unfolding activity_send
activity_send-Inv k msg done sent s i = elim (Bool-cases (binds k (message_activity msg))) [
  | inl mine ↦
      rw mine
        (send_checked-Inv k.connection msg done (claim_dispatch k) sent s (claim_dispatch-Inv k) i)
  | inr other ↦ rw other i
]
