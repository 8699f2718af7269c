-- ===== src/Execution/Generations.antt =====
-- Registration against maintenance, and the executions that a lost connection or a reboot cancels.
use Prim.Native.String.{String}
use veyport.Base.{
  ℕ, ◌≡◌, ◌⊎◌, ◌∙◌, refl, ap, Bool, true, false, ◌&&◌, ◌||◌, not, Option, none, some, List, [], ◌∷◌,
  ◌++◌, arith, if◌then◌else◌, is_some, any, find, map_option, find-update_where, Bool-cases,
  Option-cases, inl, inr,
}
use veyport.Base.Text.{Text}
use veyport.Base.Time.{Instant}
use veyport.Relay.Keys.{eq_text, eq_text_iff, make_key}
use veyport.Terminal.Shells as T
use veyport.Terminal.Shells.{Registry}
use veyport.Terminal.Admission as A
use veyport.Execution.Messages.{Binding, Session}
use veyport.Execution.Runs.{Op, run, run-Keeps}
use veyport.Execution.Once.{Way, unchecked, checked, guarded, dispatch_by}
use veyport.Execution.Lifecycle
use veyport.Execution.Sessions.{
  Connections, Capabilities, Capability, Executions, at_key, lookup, is_current, cancel_where,
  on_node, set_capabilities, current_capability, supports, valid_submission, Refusal,
  register_execution, of_stream, end_connection,
}
use veyport.Execution.Sessions as S

at_key-cancel :
    (node id : Text) (reason : String) (s : Session)
    → at_key node id (Lifecycle.cancel reason s) ≡ at_key node id s
unfolding at_key Lifecycle.cancel
at_key-cancel node id reason s = ground arith

lookup-cancel_where :
    (node id : Text) (test : Session → Bool) (reason : String) (e : Executions)
    → lookup node id (cancel_where test reason e)
      ≡ map_option (λ s. if test s then Lifecycle.cancel reason s else s) (lookup node id e)
lookup-cancel_where node id test reason e =
    find-update_where (at_key node id) test (Lifecycle.cancel reason) e.sessions
      (find (at_key node id) e.sessions) (λ s. at_key-cancel node id reason s) refl

dropped-sessions :
    (cm : Connections) (node : Text) (stream : Option ℕ) (o : Option Capability) (e : Executions)
    → (S.drop_capability cm node stream o e).sessions ≡ e.sessions
dropped-sessions cm node stream none e = refl
dropped-sessions cm node stream (some c) e = ground arith

dropped-unsupported :
    (cm : Connections) (node : Text) (stream : Option ℕ) (o : Option Capability) (e : Executions)
    → e.capabilities node ≡ o
    → current_capability cm node ((S.drop_capability cm node stream o e).capabilities node) ≡ true
    → (c : Capability) × ((o ≡ some c) × (of_stream cm stream c.connection ≡ false))
dropped-unsupported cm node stream none e h k = ground arith
dropped-unsupported cm node stream (some c) e h k =
    (c, (refl, ground (arith, eq_text_iff node node)))

abbrev pub first_reason : String → Option String → String
first_reason reason none = reason
first_reason reason (some r) = r

-- What a cancellation leaves of a session: its first reason, nothing else changed, and no attachment
-- or dispatch that succeeds, whatever operations come in between.
pub record Cut (reason : String) (s s' : Session) : Type 0 where
  pub reason_kept : s'.done ≡ some (first_reason reason s.done)
  pub rest : record s' { done = s.done } ≡ s
  pub attach :
      (ops : List Op) (live : Bool) (node : Text) (b : Binding) (ticket : Text) (now : ℕ)
      → is_some (Lifecycle.attach live node b ticket now (run ops s')).0 ≡ true
  pub dispatch : (ops : List Op) (w : Way) → is_some (dispatch_by w (run ops s')).0 ≡ true

abbrev pub Fate : Bool → String → Session → Session → Type 0
Fate true reason s s' = Cut reason s s'
Fate false reason s s' = s' ≡ s

cancel-done :
    (reason : String) (s : Session)
    → (Lifecycle.cancel reason s).done ≡ some (first_reason reason s.done)
unfolding Lifecycle.cancel
cancel-done reason s = ground arith

cancel-rest :
    (reason : String) (s : Session) → record (Lifecycle.cancel reason s) { done = s.done } ≡ s
unfolding Lifecycle.cancel
cancel-rest reason s = ground arith

refused_by-done :
    (w : Way) (s : Session) → is_some s.done ≡ true → is_some (dispatch_by w s).0 ≡ true
unfolding dispatch_by Lifecycle.dispatch_checked Lifecycle.dispatch_standard
    Lifecycle.dispatch_protected
refused_by-done (unchecked live now) s h = ground arith
refused_by-done (checked check live now) s h = ground arith
refused_by-done (guarded receipt e policy script check live now) s h = ground arith

attach-done :
    (live : Bool) (node : Text) (b : Binding) (ticket : Text) (now : ℕ) (s : Session)
    → is_some s.done ≡ true
    → is_some (Lifecycle.attach live node b ticket now s).0 ≡ true
unfolding Lifecycle.attach
attach-done live node b ticket now s h = ground arith

run-done :
    (reason : String) (ops : List Op) (s : Session)
    → is_some (run ops (Lifecycle.cancel reason s)).done ≡ true
run-done reason ops s =
    let over : is_some (Lifecycle.cancel reason s).done ≡ true = rw (cancel-done reason s) refl in
    rw ((run-Keeps ops (Lifecycle.cancel reason s)).done over) over

cancel-Cut : (reason : String) (s : Session) → Cut reason s (Lifecycle.cancel reason s)
cancel-Cut reason s = record {
  reason_kept = cancel-done reason s;
  rest = cancel-rest reason s;
  attach = λ ops live node b ticket now.
      attach-done live node b ticket now (run ops (Lifecycle.cancel reason s))
        (run-done reason ops s);
  dispatch =
      λ ops w. refused_by-done w (run ops (Lifecycle.cancel reason s)) (run-done reason ops s);
}

cancelled-Fate :
    (test : Bool) (reason : String) (s : Session)
    → Fate test reason s (if test then Lifecycle.cancel reason s else s)
cancelled-Fate true reason s = cancel-Cut reason s
cancelled-Fate false reason s = refl

-- The end of a connection decides on every session that is there, by its node and its stream: one of
-- that node on the stream that ended (or on any, when none is given) is cancelled, so that it keeps
-- its first reason, the given one if it had none, and never again attaches or dispatches, whatever
-- operations follow; any other session is as it was. Execution is supported afterwards only through
-- a capability that was announced on another stream.
pub end_connection-generation :
    (cm : Connections) (node : Text) (stream : Option ℕ) (reason : String) (other id : Text)
    (s : Session) (e : Executions)
    → lookup other id e ≡ some s
    → let e' = end_connection cm node stream reason e in
      ((s' : Session) × ((lookup other id e' ≡ some s')
          × Fate (on_node node s && of_stream cm stream s.connection) reason s s'))
      × ((supports cm node e' ≡ false)
          ⊎ ((c : Capability) × ((e.capabilities node ≡ some c)
                × (of_stream cm stream c.connection ≡ false))))
unfolding end_connection supports
end_connection-generation cm node stream reason other id s e found =
    let d = S.drop_capability cm node stream (e.capabilities node) e in
    let test : Session → Bool = λ x. on_node node x && of_stream cm stream x.connection in
    let there : lookup other id d ≡ some s =
      ap (find (at_key other id)) (dropped-sessions cm node stream (e.capabilities node) e)
      ∙ found in
    (
      (
        (if test s then Lifecycle.cancel reason s else s),
        (
          lookup-cancel_where other id test reason d
              ∙ ap (map_option (λ x. if test x then Lifecycle.cancel reason x else x)) there,
          cancelled-Fate (test s) reason s,
        ),
      ),
      elim (Bool-cases (current_capability cm node (d.capabilities node))) [
        | inr h ↦ inl h
        | inl h ↦ inr (dropped-unsupported cm node stream (e.capabilities node) e refl h)
      ],
    )

stored-sessions :
    (node : Text) (conn : ℕ) (o : Option Capabilities) (e : Executions)
    → (S.store_capability node conn o e).sessions ≡ e.sessions
stored-sessions node conn none e = refl
stored-sessions node conn (some c) e = refl

installed-set :
    (cm : Connections) (node : Text) (conn : ℕ) (caps : Option Capabilities) (e : Executions)
    → cm.installed node ≡ some conn
    → cm.is_open conn ≡ true
    → (not (S.usable caps) || S.rebooted (e.capabilities node) caps) ≡ true
    → set_capabilities cm node (cm.stream conn) caps e
      ≡ cancel_where
          (on_node node)
          "agent execution capability or boot changed"
          (S.store_capability node conn caps e)
unfolding set_capabilities
installed-set cm node conn caps e at live change = ground (arith, at, live, change)

-- When an agent announces, on the stream of its node's open connection, capabilities that cannot be
-- used or that come from another boot than the ones before, every session of the node is cancelled
-- and no session of another node is touched.
pub set_capabilities-reboot :
    (cm : Connections) (node : Text) (conn : ℕ) (caps : Option Capabilities) (other id : Text)
    (e : Executions)
    → cm.installed node ≡ some conn
    → cm.is_open conn ≡ true
    → (not (S.usable caps) || S.rebooted (e.capabilities node) caps) ≡ true
    → lookup other id (set_capabilities cm node (cm.stream conn) caps e)
      ≡ map_option
          (λ s.
            if on_node node s
            then Lifecycle.cancel "agent execution capability or boot changed" s
            else s)
          (lookup other id e)
set_capabilities-reboot cm node conn caps other id e at live change =
    rw (installed-set cm node conn caps e at live change) (
      lookup-cancel_where other id (on_node node) "agent execution capability or boot changed"
        (S.store_capability node conn caps e)
      ∙ ap
          (λ ss.
            map_option
              (λ s.
                if on_node node s
                then Lifecycle.cancel "agent execution capability or boot changed" s
                else s)
              (find (at_key other id) ss))
          (stored-sessions node conn caps e))

-- What the terminals refuse in maintenance.
register-maintenance :
    (node id actor run_as : Text) (opts : List A.RegisterOption) (now : Instant) (t : Registry)
    → eq_text (t.maintenance node) [] ≡ false
    → (A.register node id actor run_as opts now t).0 ≡ none
unfolding A.register
register-maintenance node id actor run_as opts now t h = ground arith

marked-refused :
    (node id actor run_as hash : Text) (c : Capability) (r : Option ℕ × Registry) (e : Executions)
    → r.0 ≡ none
    → (is_some (S.marked node id actor run_as hash c r e).0 ≡ true)
      × ((S.marked node id actor run_as hash c r e).1 ≡ e)
marked-refused node id actor run_as hash c (none, t) e h = (refl, refl)
marked-refused node id actor run_as hash c (some marker, t) e h = ground arith

-- The session that a registration made.
pub record Admitted (sha256 : Text → Text) (cm : Connections) (node id actor command : Text)
    (e e' : Executions) : Type 0 where
  pub valid : valid_submission node id actor command ≡ true
  pub supported : supports cm node e ≡ true
  pub outside : eq_text (e.terminals.maintenance node) [] ≡ true
  pub unused : any (at_key node id) e.sessions ≡ false
  pub session : Session
  pub found : lookup node id e' ≡ some session
  pub hash : session.command_hash ≡ sha256 command
  pub unprepared : session.prepared ≡ none

marked-session :
    (node id actor run_as hash : Text) (c : Capability) (r : Option ℕ × Registry) (e : Executions)
    → (S.marked node id actor run_as hash c r e).0 ≡ none
    → (is_some r.0 ≡ true)
      × ((S.marked node id actor run_as hash c r e).1.sessions
          ≡ S.fresh node id actor run_as hash c ∷ e.sessions)
marked-session node id actor run_as hash c (none, t) e h = ground arith
marked-session node id actor run_as hash c (some marker, t) e h = (refl, refl)

register-outside :
    (node id actor run_as : Text) (opts : List A.RegisterOption) (now : Instant) (t : Registry)
    → is_some (A.register node id actor run_as opts now t).0 ≡ true
    → eq_text (t.maintenance node) [] ≡ true
unfolding A.register
register-outside node id actor run_as opts now t h = ground arith

fresh-found :
    (node id actor run_as hash : Text) (c : Capability) (ss : List Session)
    → find (at_key node id) (S.fresh node id actor run_as hash c ∷ ss)
      ≡ some (S.fresh node id actor run_as hash c)
unfolding find at_key
fresh-found node id actor run_as hash c ss =
    ground (arith, eq_text_iff (make_key node id) (make_key node id))

-- A registration that succeeds was valid, was made while the node's agent announced execution on its
-- open connection and while the node had no maintenance, and under a key that had no session; the
-- session behind the key is then new, with the submitted command's hash and nothing prepared.
pub register_execution-Admitted :
    (sha256 : Text → Text) (cm : Connections) (node id actor run_as command : Text)
    (opts : List A.RegisterOption) (now : Instant) (e : Executions)
    → (register_execution sha256 cm node id actor run_as command opts now e).0 ≡ none
    → Admitted sha256 cm node id actor command e
        (register_execution sha256 cm node id actor run_as command opts now e).1
unfolding register_execution supports
register_execution-Admitted sha256 cm node id actor run_as command opts now e h =
    elim (Bool-cases (valid_submission node id actor command)) [
      | inr v ↦ ground arith
      | inl v ↦ elim (Option-cases (e.capabilities node)) [
        | inl c ↦ ground arith
        | inr (c, at) ↦
            let opts' = opts ++ A.with_kind T.exec ∷ [] in
            let r = A.register node id actor run_as opts' now e.terminals in
            let current : is_current cm node c.connection ≡ true = ground arith in
            let unused : any (at_key node id) e.sessions ≡ false = ground arith in
            let (some_marker, sessions) =
              marked-session node id actor run_as (sha256 command) c r e (ground arith) in
            rw (v, at, current, unused)
              (record {
                valid = v;
                supported = rw at current;
                outside = register-outside node id actor run_as opts' now e.terminals some_marker;
                unused = unused;
                session = S.fresh node id actor run_as (sha256 command) c;
                found =
                    rw sessions (fresh-found node id actor run_as (sha256 command) c e.sessions);
                hash = refl;
                unprepared = refl;
              })
      ]
    ]

-- While maintenance is reserved on a node, every registration of an execution there is refused and
-- changes nothing, in the executions as in the terminals.
pub register_execution-maintenance :
    (sha256 : Text → Text) (cm : Connections) (node id actor run_as command : Text)
    (opts : List A.RegisterOption) (now : Instant) (e : Executions)
    → eq_text (e.terminals.maintenance node) [] ≡ false
    → (is_some (register_execution sha256 cm node id actor run_as command opts now e).0 ≡ true)
      × ((register_execution sha256 cm node id actor run_as command opts now e).1 ≡ e)
unfolding register_execution
register_execution-maintenance sha256 cm node id actor run_as command opts now e h =
    elim (Bool-cases (valid_submission node id actor command)) [
      | inr v ↦ rw v (refl, refl)
      | inl v ↦ elim (Option-cases (e.capabilities node)) [
        | inl c ↦ rw (v, c) (refl, refl)
        | inr (c, at) ↦
            let opts' = opts ++ A.with_kind T.exec ∷ [] in
            let r = A.register node id actor run_as opts' now e.terminals in
            let (refused, same) =
              marked-refused node id actor run_as (sha256 command) c r e
                (register-maintenance node id actor run_as opts' now e.terminals h) in
            rw (v, at) (ground (arith, refused), ground (arith, same))
      ]
    ]
