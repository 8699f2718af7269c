-- ===== src/Terminal/Shells.antt =====
-- The types of terminalsessions.go. A registration is known by the number of its allocation; one
-- that has left the map of sessions is kept as `removed`, since callers may still hold its pointer.
use Prim.Native.String.{String}
use veyport.Base.{
  ℕ, ◌==◌, Bool, true, false, ◌&&◌, not, Option, List, [], if◌then◌else◌, find, update_where,
}
use veyport.Base.Int.{ℤ}
use veyport.Base.Text.{Text}
use veyport.Base.Time.{Instant}
use veyport.Relay.Keys.{eq_text, make_key}

-- The kinds of the registrations, by their names in the sessions list.
pub data Kind : Type 0 where
  web ssh exec : Kind

abbrev pub is_exec : Kind → Bool
is_exec exec = true
is_exec web = false
is_exec ssh = false

pub data EventType : Type 0 where
  event_data event_exit : EventType

pub record Event : Type 0 where
  pub type : EventType
  pub bytes : Text
  pub exit_code : ℤ
  pub message : String
  pub forced : Bool

-- interactiveAdmission: the store, the connection that was captured, and whether its TerminalClose
-- has been sent.
pub record Interactive : Type 0 where
  pub st : ℕ
  pub conn : ℕ
  pub execution_user : Text
  pub admitted : Bool
  pub close_sent : Bool

-- terminalSession. `exit` is output.exit, `watched` that a watcher was reserved, `slot` that it has not
-- returned, and `stopped`
-- that the channel which wakes the watcher is closed.
pub record Shell : Type 0 where
  pub id : ℕ
  pub server_id : Text
  pub session_id : Text
  pub user_id : Text
  pub execution_user : Text
  pub kind : Kind
  pub sid : Text
  pub started_at : Instant
  pub last_activity : Instant
  pub ch : List Event
  pub streaming : Bool
  pub closed : Bool
  pub removed : Bool
  pub interactive : Option Interactive
  pub credential_generation : Option ℤ
  pub ssh_generation : Bool
  pub watched : Bool
  pub slot : Bool
  pub stopped : Bool
  pub revoked : Bool
  pub exit : Option Event

pub record Registry : Type 0 where
  pub shells : List Shell
  pub issued : ℕ
  pub maintenance : Text → Text
  pub credential_watchers : ℕ

unfoldable pub new : Registry
new = record { shells = []; issued = 0; maintenance = λ node. []; credential_watchers = 0 }

-- ts.sessions[makeKey(server, session)]
unfoldable pub at_key : Text → Text → Shell → Bool
at_key server session s =
    not s.removed && eq_text (make_key s.server_id s.session_id) (make_key server session)

abbrev pub lookup : Text → Text → Registry → Option Shell
lookup server session t = find (at_key server session) t.shells

-- The registration behind a pointer.
abbrev pub is_shell : ℕ → Shell → Bool
is_shell id s = s.id == id

unfoldable pub write : ℕ → (Shell → Shell) → Registry → Registry
write id f t = record t { shells = update_where (is_shell id) f t.shells }

-- A registration that is in the map and not closed.
abbrev pub is_live : Shell → Bool
is_live s = not s.removed && not s.closed

-- m[k] = v for a map of texts, in which "" is a missing entry.
abbrev pub put : (Text → Text) → Text → Text → Text → Text
put m k v j = if eq_text j k then v else m j

abbrev pub max_events : ℕ
max_events = 256
