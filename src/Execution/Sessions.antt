-- ===== src/Execution/Sessions.antt =====
-- The hub's executions: capabilities of the agents, registration, removal and the loss of a connection.
use Prim.Native.String.{String}
use veyport.Base.{
  ℕ, ◌==◌, ltb, leb, Bool, true, false, ◌&&◌, ◌||◌, not, Option, none, some, List, [], ◌∷◌, ◌++◌,
  if◌then◌else◌, length, any, find, select, update_where,
}
use veyport.Base.Text.{Text, utf8_valid}
use veyport.Base.Time.{Instant}
use veyport.Relay.Keys.{eq_text, make_key}
use veyport.Terminal.Shells as T
use veyport.Terminal.Shells.{Registry}
use veyport.Terminal.Admission as A
use veyport.Terminal.Delivery.{attach_stream}
use veyport.Terminal.Ending as E
use veyport.Execution.Messages.{Binding, Prepared, Session, default_limits}
use veyport.Execution.Messages as M
use veyport.Execution.Lifecycle

-- What the connection manager knows: the installed connection of a node, whether a connection's done
-- channel is still open, and its stream.
pub record Connections : Type 0 where
  pub installed : Text → Option ℕ
  pub is_open : ℕ → Bool
  pub stream : ℕ → ℕ

-- pb.ExecutionCapabilities
pub record Capabilities : Type 0 where
  pub protocol_version : ℕ
  pub standard_exec : Bool
  pub protected_script : Bool
  pub boot_id : Text

-- executionCapability
pub record Capability : Type 0 where
  pub connection : ℕ
  pub capability : Capabilities

pub record Executions : Type 0 where
  pub sessions : List Session
  pub capabilities : Text → Option Capability
  pub terminals : Registry

unfoldable pub at_key : Text → Text → Session → Bool
at_key node id s = eq_text (make_key s.node_id s.id) (make_key node id)

abbrev pub lookup : Text → Text → Executions → Option Session
lookup node id e = find (at_key node id) e.sessions

abbrev put_capability :
    (Text → Option Capability) → Text → Option Capability → Text → Option Capability
put_capability m node c n = if eq_text n node then c else m n

abbrev pub is_installed : Connections → Text → ℕ → Bool
is_installed cm node conn = elim (cm.installed node) [ none ↦ false | some c ↦ c == conn ]

-- The connection is the installed one of the node, and open.
abbrev pub is_current : Connections → Text → ℕ → Bool
is_current cm node conn = is_installed cm node conn && cm.is_open conn

abbrev pub usable : Option Capabilities → Bool
usable none = false
usable (some c) =
    c.protocol_version == 1
    && (c.standard_exec && (not (eq_text c.boot_id []) && leb (length c.boot_id) 128))

abbrev pub rebooted : Option Capability → Option Capabilities → Bool
rebooted (some c) (some caps) = not (eq_text c.capability.boot_id caps.boot_id)
rebooted none caps = false
rebooted (some c) none = false

-- s.Cancel for every session that passes the test.
abbrev pub cancel_where : (Session → Bool) → String → Executions → Executions
cancel_where test reason e = record e {
  sessions = update_where test (Lifecycle.cancel reason) e.sessions;
}

abbrev pub on_node : Text → Session → Bool
on_node node s = eq_text s.node_id node

abbrev pub store_capability : Text → ℕ → Option Capabilities → Executions → Executions
store_capability node conn none e = record e {
  capabilities = put_capability e.capabilities node none;
}
store_capability node conn (some caps) e = record e {
  capabilities =
      put_capability e.capabilities node (
        if usable (some caps)
        then some (record { connection = conn; capability = caps })
        else none);
}

abbrev set_for : Text → ℕ → Option Capabilities → Executions → Executions
set_for node conn caps e =
    let e' = store_capability node conn caps e in
    if not (usable caps) || rebooted (e.capabilities node) caps
    then cancel_where (on_node node) "agent execution capability or boot changed" e'
    else e'

unfoldable pub set_capabilities :
    Connections → Text → ℕ → Option Capabilities → Executions → Executions
set_capabilities cm node stream caps e = elim (cm.installed node) [
  | none ↦ e
  | some conn ↦ if cm.is_open conn && cm.stream conn == stream then set_for node conn caps e else e
]

abbrev pub current_capability : Connections → Text → Option Capability → Bool
current_capability cm node none = false
current_capability cm node (some c) = is_current cm node c.connection

unfoldable pub supports : Connections → Text → Executions → Bool
supports cm node e = current_capability cm node (e.capabilities node)

abbrev protected_one : Option Capability → Bool
protected_one none = false
protected_one (some c) = c.capability.protected_script

unfoldable pub supports_protected : Connections → Text → Executions → Bool
supports_protected cm node e =
    protected_one (e.capabilities node) && current_capability cm node (e.capabilities node)

-- A submission that is not even looked up.
unfoldable pub valid_submission : Text → Text → Text → Text → Bool
valid_submission node id actor command =
    (not (eq_text node []) && (not (eq_text id []) && not (eq_text actor [])))
    && (leb (length id) 128
        && ((ltb 0 (length command) && leb (length command) 32768)
            && (utf8_valid command && not (any (λ c. c == 0) command))))

pub data Refusal : Type 0 where
  invalid_submission unsupported registered_already capacity_reached : Refusal

abbrev pub fresh : Text → Text → Text → Text → Text → Capability → Session
fresh node id actor run_as hash c = record {
  id = id;
  node_id = node;
  actor_id = actor;
  requested_user = run_as;
  connection = c.connection;
  boot_id = c.capability.boot_id;
  command_hash = hash;
  limits = default_limits;
  prepared = none;
  prepare_error = none;
  deadline = none;
  ticket = Lifecycle.zeros 32;
  ticket_issued = false;
  ticket_used = false;
  dispatch = false;
  start = [];
  done = none;
  stdin = [];
  input_sequence = 0;
  input_closed = false;
  enhanced = false;
  script_hash = [];
  script_length = 0;
}

abbrev pub marked :
    Text
    → Text
    → Text
    → Text
    → Text
    → Capability
    → Option ℕ × Registry
    → Executions
    → Option Refusal × Executions
marked node id actor run_as hash c (none, t) e = (some capacity_reached, e)
marked node id actor run_as hash c (some marker, t) e = (
  none,
  record e {
    sessions = fresh node id actor run_as hash c ∷ e.sessions;
    terminals = (attach_stream node id actor t).1;
  },
)

abbrev pub register_at :
    Connections
    → Text
    → Text
    → Text
    → Text
    → Text
    → List A.RegisterOption
    → Instant
    → Option Capability
    → Executions
    → Option Refusal × Executions
register_at cm node id actor run_as hash opts now none e = (some unsupported, e)
register_at cm node id actor run_as hash opts now (some c) e =
    if not (is_current cm node c.connection)
    then (some unsupported, e)
    else if any (at_key node id) e.sessions
    then (some registered_already, e)
    else marked node id actor run_as hash c
        (A.register node id actor run_as (opts ++ A.with_kind T.exec ∷ []) now e.terminals) e

-- `sha256` is crypto/sha256.
unfoldable pub register_execution :
    (Text → Text)
    → Connections
    → Text
    → Text
    → Text
    → Text
    → Text
    → List A.RegisterOption
    → Instant
    → Executions
    → Option Refusal × Executions
register_execution sha256 cm node id actor run_as command opts now e =
    if not (valid_submission node id actor command)
    then (some invalid_submission, e)
    else register_at cm node id actor run_as (sha256 command) opts now (e.capabilities node) e

-- The session leaves the map cancelled, and its marker leaves the terminals.
unfoldable pub remove_execution : Text → Text → Executions → Executions
remove_execution node id e =
    if any (at_key node id) e.sessions
    then record e {
      sessions = select (λ s. not (at_key node id s)) e.sessions;
      terminals = (E.remove node id e.terminals).1;
    }
    else e

abbrev pub of_stream : Connections → Option ℕ → ℕ → Bool
of_stream cm none conn = true
of_stream cm (some stream) conn = cm.stream conn == stream

abbrev pub drop_capability :
    Connections → Text → Option ℕ → Option Capability → Executions → Executions
drop_capability cm node stream none e = e
drop_capability cm node stream (some c) e =
    if of_stream cm stream c.connection
    then record e { capabilities = put_capability e.capabilities node none }
    else e

-- EndAll without a stream, EndConnection with one.
unfoldable pub end_connection : Connections → Text → Option ℕ → String → Executions → Executions
end_connection cm node stream reason e =
    cancel_where (λ s. on_node node s && of_stream cm stream s.connection) reason
      (drop_capability cm node stream (e.capabilities node) e)

-- A session behind its key, replaced by what an operation on it leaves.
abbrev replace : Text → Text → (Session → Session) → Executions → Executions
replace node id f e = record e { sessions = update_where (at_key node id) f e.sessions }

abbrev deliver_found :
    Connections → Text → ℕ → Text → Prepared → ℕ → Executions → Option Session → Bool × Executions
deliver_found cm node stream id p now e none = (false, e)
deliver_found cm node stream id p now e (some s) =
    let live = cm.stream s.connection == stream && is_current cm node s.connection in
    (
      (Lifecycle.deliver_prepared live p now s).0,
      replace node id (λ x. (Lifecycle.deliver_prepared live p now x).1) e,
    )

unfoldable pub deliver_prepared_to :
    Connections → Text → ℕ → Text → Prepared → ℕ → Executions → Bool × Executions
deliver_prepared_to cm node stream id p now e =
    deliver_found cm node stream id p now e (lookup node id e)

abbrev attach_found :
    Connections
    → Text
    → Binding
    → Text
    → ℕ
    → Executions
    → Option Session
    → Option M.Error × Executions
attach_found cm node b ticket now e none = (some M.preparation_unavailable, e)
attach_found cm node b ticket now e (some s) =
    let live = is_current cm node s.connection in
    (
      (Lifecycle.attach live node b ticket now s).0,
      replace node b.execution_id (λ x. (Lifecycle.attach live node b ticket now x).1) e,
    )

unfoldable pub attach_execution :
    Connections → Text → Binding → Text → ℕ → Executions → Option M.Error × Executions
attach_execution cm node b ticket now e =
    if not (eq_text b.node_id node) || not (length ticket == 32)
    then (some M.attachment_invalid, e)
    else attach_found cm node b ticket now e (lookup node b.execution_id e)
