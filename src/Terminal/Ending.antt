-- ===== src/Terminal/Ending.antt =====
-- The ways in which a shell ends, and the removal of its registration.
use Prim.Native.String.{String}
use veyport.Base.{
  ℕ, suc, ◌==◌, Bool, true, false, ◌&&◌, ◌||◌, not, Option, none, some, List, [], ◌∷◌, ◌++◌,
  if◌then◌else◌, find, is_some, length, select, map,
}
use veyport.Base.Int.{ℤ, negsuc}
use veyport.Base.Text.{Text}
use veyport.Relay.Keys.{eq_text, make_key}
use veyport.Terminal.Shells.{
  Event, event_exit, Interactive, Shell, Registry, lookup, write, max_events, is_shell,
}
use veyport.Terminal.Delivery.{accepts}

-- The oldest events make room for the exit.
unfoldable pub deliver_exit : Event → List Event → List Event
deliver_exit exit [] = exit ∷ []
deliver_exit exit (e ∷ ch) = elim (length (e ∷ ch) == max_events) [
  | true ↦ deliver_exit exit ch
  | false ↦ (e ∷ ch) ++ exit ∷ []
]

abbrev pub exit_event : ℤ → String → Bool → Event
exit_event code message forced = record {
  type = event_exit;
  bytes = [];
  exit_code = code;
  message = message;
  forced = forced;
}

-- output.revoke and discardTerminalQueue; the watcher is woken by stopCredentialWatchLocked.
abbrev revoke : Event → Shell → Shell
revoke exit s = record s { exit = some exit; ch = [] }

unfoldable pub stop_credential_watch : Shell → Shell
stop_credential_watch s = record s { stopped = s.stopped || s.watched }

unfoldable pub end_locked : ℤ → String → Bool → Shell → Bool × Shell
unfolding stop_credential_watch
end_locked code message forced s =
    let exit = exit_event code message forced in
    let s' = if forced then revoke exit (stop_credential_watch s) else s in
    if s.closed && (not forced || is_some s.exit)
    then (false, s)
    else if s.closed
    then (false, s')
    else (true, record s' { ch = deliver_exit exit s'.ch; closed = true })

-- ts.sessions[makeKey(s.serverID, s.sessionID)] == s
abbrev pub is_current : Shell → Registry → Bool
is_current s t = elim (lookup s.server_id s.session_id t) [ none ↦ false | some c ↦ c.id == s.id ]

abbrev end_pointer : ℤ → String → Bool → Registry → Option Shell → Bool × Registry
end_pointer code message forced t none = (false, t)
end_pointer code message forced t (some s) =
    if is_current s t
    then (
      (end_locked code message forced s).0,
      write s.id (λ x. (end_locked code message forced x).1) t,
    )
    else (false, t)

-- endInteractiveExact, and the second half of endSession: the registration behind a pointer is ended
-- while it is the one in the map.
unfoldable pub end_exact : ℕ → ℤ → String → Bool → Registry → Bool × Registry
end_exact id code message forced t = end_pointer code message forced t (find (is_shell id) t.shells)

abbrev pub close_sent : Option Interactive → Option Interactive
close_sent none = none
close_sent (some a) = some (record a { close_sent = true })

-- interactiveAdmission.close, which sends its TerminalClose once.
unfoldable pub close_interactive : ℕ → Registry → Registry
close_interactive id t = write id (λ s. record s { interactive = close_sent s.interactive }) t

unfoldable pub end_interactive_and_close : ℕ → ℤ → String → Registry → Bool × Registry
end_interactive_and_close id code message t =
    let r = end_exact id code message true t in (r.0, if r.0 then close_interactive id r.1 else r.1)

abbrev end_found : ℤ → String → Bool → Registry → Option Shell → Bool × Registry
end_found code message forced t none = (false, t)
end_found code message forced t (some s) =
    if forced && is_some s.interactive
    then end_interactive_and_close s.id code message t
    else end_exact s.id code message forced t

unfoldable pub end_session : Text → Text → ℤ → String → Bool → Registry → Bool × Registry
end_session server session code message forced t =
    end_found code message forced t (lookup server session t)

-- End, and EndOne.
unfoldable pub end_reported : Text → Text → ℤ → String → Registry → Bool × Registry
end_reported server session code message t = end_session server session code message false t

unfoldable pub end_one : Text → Text → ℤ → String → Registry → Bool × Registry
end_one server session code message t = end_session server session code message true t

unfoldable pub end_from : ℕ → Text → Text → ℤ → String → Registry → Bool × Registry
end_from conn server session code message t =
    if accepts conn (lookup server session t)
    then end_session server session code message false t
    else (false, t)

-- The loop over the registrations that EndByUser and EndBySession have captured.
abbrev pub end_captured_one : ℤ → String → Registry → Option Shell → Bool × Registry
end_captured_one code message t none = (false, t)
end_captured_one code message t (some s) =
    if is_some s.interactive
    then end_interactive_and_close s.id code message t
    else end_session s.server_id s.session_id code message true t

unfoldable pub end_each : ℤ → String → List ℕ → Registry → ℕ × Registry
end_each code message [] t = (0, t)
end_each code message (id ∷ ids) t =
    let r = end_captured_one code message t (find (is_shell id) t.shells) in
    let rest = end_each code message ids r.1 in (if r.0 then suc rest.0 else rest.0, rest.1)

unfoldable pub captured : (Shell → Bool) → Registry → List ℕ
captured test t = map (λ s. s.id) (select (λ s. not s.removed && test s) t.shells)

unfoldable pub end_by_user : Text → ℤ → String → Registry → ℕ × Registry
end_by_user user code message t = end_each code message (captured (λ s. eq_text s.user_id user) t) t

unfoldable pub end_by_session : Text → ℤ → String → Registry → ℕ × Registry
end_by_session sid code message t =
    if eq_text sid [] then (0, t) else end_each code message (captured (λ s. eq_text s.sid sid) t) t

unfoldable pub has_prefix : Text → Text → Bool
has_prefix [] key = true
has_prefix (c ∷ prefix) [] = false
has_prefix (c ∷ prefix) (d ∷ key) = c == d && has_prefix prefix key

-- prepareEndAll captures pointers; the function that it returns ends them.
unfoldable pub prepare_end_all : Text → Registry → List ℕ
prepare_end_all server t =
    captured (λ s. has_prefix (make_key server []) (make_key s.server_id s.session_id)) t

unfoldable pub finish_end_all : List ℕ → ℤ → String → Registry → Registry
finish_end_all [] code message t = t
finish_end_all (id ∷ ids) code message t =
    finish_end_all ids code message (write id (λ s. (end_locked code message false s).1) t)

unfoldable pub end_all : Text → ℤ → String → Registry → Registry
end_all server code message t = finish_end_all (prepare_end_all server t) code message t

unfoldable pub remove_locked : Shell → Shell
remove_locked s = record (revoke (exit_event (negsuc 0) "Terminal closed by the hub." true) s) {
  closed = true;
}

-- removeLocked, delete(ts.sessions, key) and close(s.removed)
abbrev pub remove_shell : Shell → Registry → Registry
remove_shell s t = write s.id (λ x. record (remove_locked x) { removed = true }) t

abbrev remove_found : Registry → Option Shell → (Bool × Bool) × Registry
remove_found t none = ((false, false), t)
remove_found t (some s) = ((s.closed, true), remove_shell s t)

unfoldable pub remove_if_hub_initiated : Text → Text → Registry → (Bool × Bool) × Registry
remove_if_hub_initiated server session t = remove_found t (lookup server session t)

unfoldable pub remove : Text → Text → Registry → Bool × Registry
remove server session t = let r = remove_found t (lookup server session t) in (r.0.1, r.1)

-- The answer is the admission whose close the caller runs, and whether anything was removed.
abbrev remove_idle : Registry → Option Shell → (Option Interactive × Bool) × Registry
remove_idle t none = ((none, false), t)
remove_idle t (some s) =
    if s.streaming then ((none, false), t) else ((s.interactive, true), remove_shell s t)

unfoldable pub remove_unattached_with_close :
    Text → Text → Registry → (Option Interactive × Bool) × Registry
remove_unattached_with_close server session t = remove_idle t (lookup server session t)
