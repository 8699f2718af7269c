-- ===== src/ConnMgr/Examples.antt =====
-- The registry's theorems at a server whose agent has one file read under way.
use text.Mathlib.TextEquality.{eq_iff}
use veyport.Base.{
  ◌≡◌, refl, true, false, some, List, [], ◌∷◌, arith, any, find, is_some, update_where,
}
use veyport.ConnMgr.Manager.{
  Conn, Key, Entry, read, Manager, new, has_key, same_conn, same_kind, put, is_uncertain,
}
use veyport.ConnMgr.Activities.{
  begin_live, begin_checked, add_activity, claim_dispatch, claim_found, prepare_kind, prepare_known,
  HubMessage, message_activity, valid_activity, live, begin_activity, prepare_activity_send,
}
use veyport.ConnMgr.Uncertainty.{activity_idle}
use veyport.ConnMgr.Connections.{
  activity_send, binds, send_checked, send_after_check, send_prepared, get_conn, hide_closed,
  commit_maintenance, register_previous, register, register_round, reserve_maintenance,
  set_maintenance, detach_if_current,
}
use veyport.ConnMgr.Bookkeeping.{Inv, new-Inv, on_node}
use veyport.ConnMgr.Bookkeeping.Rounds.{Installed, register-Installed}
use veyport.ConnMgr.Steps
use veyport.ConnMgr.Steps.{Op, run, run-Inv}
use veyport.ConnMgr.Exclusion.{maintenance-excludes, reserve_maintenance-idle}
use veyport.ConnMgr.Lifetimes.{detach_if_current-uncertain}

abbrev first : Conn
first = record { pointer = 1; server_id = "web-1"; stream = 7 }

abbrev second : Conn
second = record { pointer = 2; server_id = "web-1"; stream = 8 }

abbrev reading : Key
reading = record { connection = first; id = "r1"; kind = read }

abbrev read_entry : Entry
read_entry = record { key = reading; dispatched = true; abandoned = false }

-- One connection, with a file read that was sent.
abbrev busy : Manager
busy = record new {
  streams = put new.streams "web-1" (some first);
  activities = read_entry ∷ [];
  activity_nodes = put new.activity_nodes "web-1" 1;
}

abbrev connect : List Op
connect = Op.register first ∷ []

abbrev work : List Op
work =
    Op.register first
    ∷ Op.begin (some first) "r1" read
    ∷ Op.activity reading (HubMessage.file_read_request "r1") false true
    ∷ []

busy-Inv : Inv busy
unfolding run Steps.apply new register_round register_previous begin_activity begin_live
    begin_checked add_activity valid_activity live any has_key same_conn same_kind activity_send
    binds message_activity send_checked claim_dispatch claim_found find update_where
    send_after_check prepare_activity_send prepare_kind prepare_known send_prepared
busy-Inv = run-Inv work new new-Inv

run-Inv_example : Inv (run work new)
run-Inv_example = run-Inv work new new-Inv

register-Installed_example :
    (s' : Manager) × ((register 3 second (run work new) ≡ some s') × Installed second s')
register-Installed_example = register-Installed second (run work new) (run-Inv work new new-Inv)

maintenance-excludes_example :
    let s = set_maintenance "web-1" "m1" busy in
    (is_some (begin_activity (some first) "r2" read s).0 ≡ true)
    × (((begin_activity (some first) "r2" read s).1 ≡ s)
        × ((k : Key)
            → any
                (has_key k)
                (prepare_activity_send first (HubMessage.file_read_request "r2") s).1.activities
              ≡ any (has_key k) s.activities))
unfolding set_maintenance
maintenance-excludes_example =
    maintenance-excludes first "r2" read (HubMessage.file_read_request "r2")
      (set_maintenance "web-1" "m1" busy) (λ e. ground (arith, eq_iff "m1" ""))

reserve_maintenance-idle_example :
    let s' = (reserve_maintenance first "m1" false false (run connect new)).1 in
    (live first (run connect new) ≡ true)
    × (((run connect new).maintenance "web-1" ≡ "")
        × (((s'.maintenance "web-1" ≡ "m1") × (s'.activity_nodes "web-1" ≡ 0))
            × ((any (on_node "web-1") s'.activities ≡ false)
                × (is_uncertain "web-1" s'.uncertain ≡ false))))
unfolding run Steps.apply register_round new same_conn live reserve_maintenance get_conn hide_closed
    activity_idle commit_maintenance any register_previous
reserve_maintenance-idle_example =
    reserve_maintenance-idle first "m1" false false (run connect new) (run-Inv connect new new-Inv)
      refl

detach_if_current-uncertain_example :
    let s' = (detach_if_current "web-1" first busy).1 in
    (is_uncertain "web-1" s'.uncertain ≡ true) × (activity_idle second false s' ≡ false)
unfolding any same_conn new
detach_if_current-uncertain_example =
    detach_if_current-uncertain "web-1" first second busy busy-Inv refl refl refl
