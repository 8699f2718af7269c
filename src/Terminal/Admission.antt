-- ===== src/Terminal/Admission.antt =====
-- Register and its budgets, the maintenance of a node, and what reads the registry.
use veyport.Base.{
  ℕ, suc, leb, Bool, false, ◌&&◌, ◌||◌, not, Option, none, some, List, [], ◌∷◌, if◌then◌else◌, any,
  count_where, is_some,
}
use veyport.Base.Int.{ℤ}
use veyport.Base.Text.{Text}
use veyport.Base.Time.{Instant}
use veyport.Relay.Keys.{eq_text}
use veyport.Terminal.Shells.{Kind, web, is_exec, Interactive, Shell, Registry, at_key, is_live, put}

-- RegisterOption; `with_interactive` is the closure that RegisterInteractive adds.
pub data RegisterOption : Type 0 where
  with_kind : Kind → RegisterOption
  with_session_id : Text → RegisterOption
  with_credential_generation : ℤ → Bool → RegisterOption
  with_interactive : Interactive → RegisterOption

unfoldable pub apply_option : RegisterOption → Shell → Shell
apply_option (with_kind kind) s = record s { kind = kind }
apply_option (with_session_id sid) s = record s { sid = sid }
apply_option (with_credential_generation generation by_ssh) s = record s {
  credential_generation = some generation;
  ssh_generation = by_ssh;
}
apply_option (with_interactive admission) s = record s { interactive = some admission }

unfoldable pub apply_options : List RegisterOption → Shell → Shell
apply_options [] s = s
apply_options (opt ∷ opts) s = apply_options opts (apply_option opt s)

-- The counts over the live registrations.
abbrev pub is_interactive : Shell → Bool
is_interactive s = is_live s && not (is_exec s.kind)

abbrev pub is_execution : Shell → Bool
is_execution s = is_live s && is_exec s.kind

abbrev pub execution_of : Text → Shell → Bool
execution_of user s = is_execution s && eq_text s.user_id user

abbrev pub live_on : Text → Shell → Bool
live_on server s = is_live s && eq_text s.server_id server

unfoldable pub exceeds : Shell → Bool → Registry → Bool
exceeds s watch t =
    (watch && leb 256 t.credential_watchers)
    || ((not (is_exec s.kind) && leb 256 (count_where is_interactive t.shells))
        || (leb 8 (count_where (live_on s.server_id) t.shells)
            || (is_exec s.kind
                && (leb 4 (count_where (execution_of s.user_id) t.shells)
                    || leb 32 (count_where is_execution t.shells)))))

abbrev pub blank : ℕ → Text → Text → Text → Text → Instant → Shell
blank id server session user execution_user now = record {
  id = id;
  server_id = server;
  session_id = session;
  user_id = user;
  execution_user = execution_user;
  kind = web;
  sid = [];
  started_at = now;
  last_activity = now;
  ch = [];
  streaming = false;
  closed = false;
  removed = false;
  interactive = none;
  credential_generation = none;
  ssh_generation = false;
  watched = false;
  slot = false;
  stopped = false;
  revoked = false;
  exit = none;
}

abbrev pub register_shell : Shell → Registry → Option ℕ × Registry
register_shell s t =
    let watch = is_some s.credential_generation && not (is_exec s.kind) in
    if exceeds s watch t then (none, t) else (
      some s.id,
      record t {
        shells = record s { watched = watch; slot = watch } ∷ t.shells;
        issued = suc t.issued;
        credential_watchers = if watch then suc t.credential_watchers else t.credential_watchers;
      },
    )

-- The channel that Register returns is that of the registration it makes.
unfoldable pub register :
    Text → Text → Text → Text → List RegisterOption → Instant → Registry → Option ℕ × Registry
register server session user execution_user opts now t =
    if not (eq_text (t.maintenance server) []) || any (at_key server session) t.shells
    then (none, t)
    else register_shell (apply_options opts (blank t.issued server session user execution_user now))
        t

pub data Error : Type 0 where
  maintenance_active node_active : Error

abbrev pub node_live : Text → Registry → Bool
node_live node t = any (live_on node) t.shells

unfoldable pub reserve_maintenance : Text → Text → Registry → Option Error × Registry
reserve_maintenance node id t =
    if not (eq_text (t.maintenance node) [])
    then (some maintenance_active, t)
    else if node_live node t
    then (some node_active, t)
    else (none, record t { maintenance = put t.maintenance node id })

unfoldable pub set_maintenance : Text → Text → Registry → Registry
set_maintenance node id t = record t { maintenance = put t.maintenance node id }

unfoldable pub release_maintenance : Text → Text → Registry → Registry
release_maintenance node id t =
    if eq_text (t.maintenance node) id
    then record t { maintenance = put t.maintenance node [] }
    else t

unfoldable pub maintenance_idle : Text → Text → Registry → Bool
maintenance_idle node id t = eq_text (t.maintenance node) id && not (node_live node t)
