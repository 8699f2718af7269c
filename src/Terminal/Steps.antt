-- ===== src/Terminal/Steps.antt =====
-- The registry over any sequence of its steps.
use Prim.Native.String.{String}
use veyport.Base.{
  ℕ, suc, leb, ◌≡◌, refl, Bool, true, false, ◌&&◌, ◌||◌, not, Option, none, some, List, [], ◌∷◌,
  ◌++◌, arith, any, is_some, count_where, Bool-cases, inl, inr, any-imp,
}
use veyport.Base.Int.{ℤ}
use veyport.Base.Text.{Text}
use veyport.Base.Time.{Instant}
use veyport.Relay.Keys.{eq_text, eq_text_iff}
use veyport.Terminal.Shells.{is_exec, Shell, Registry, new, at_key, is_shell}
use veyport.Terminal.Admission.{
  RegisterOption, with_kind, with_session_id, with_credential_generation, with_interactive,
  apply_option, apply_options, exceeds, blank, register, register_shell, reserve_maintenance,
  set_maintenance, release_maintenance, node_live,
}
use veyport.Terminal.Delivery.{attach_stream, deliver_data, deliver_data_from, receive}
use veyport.Terminal.Ending.{
  end_exact, end_session, end_from, end_by_user, end_by_session, finish_end_all, remove,
  remove_unattached_with_close, close_interactive,
}
use veyport.Terminal.Interactive.{
  registered, admission, register_interactive, send_interactive, send_guarded, close_terminal,
  recheck, end_stale, end_stale_credential, watcher_returns,
}
use veyport.Terminal.Later.{distinct}
use veyport.Terminal.Quiet.{
  end_exact-Quiet, end_session-Quiet, end_from-Quiet, end_each-Quiet, end_by_session-Quiet,
  finish_end_all-Quiet, remove-Quiet, remove_unattached_with_close-Quiet, close_interactive-Quiet,
}
use veyport.Terminal.Traffic.{
  attach_stream-Quiet, deliver_data-Quiet, deliver_data_from-Quiet, receive-Quiet,
  send_guarded-Quiet, send_interactive-Quiet, close_terminal-Quiet, recheck-Quiet,
  end_stale_credential-Quiet, end_stale-Quiet, watcher_returns-Quiet,
}
use veyport.Terminal.Books.{Orderly, unique_keys, Quiet, Quiet-Orderly}

-- What the options of a registration leave alone.
abbrev Opened : Shell → Shell → Type 0
Opened a b =
    (b.id ≡ a.id)
    × ((b.server_id ≡ a.server_id)
        × ((b.session_id ≡ a.session_id)
            × ((b.user_id ≡ a.user_id)
                × ((b.closed ≡ a.closed)
                    × ((b.removed ≡ a.removed) × ((b.ch ≡ a.ch) × (b.exit ≡ a.exit)))))))

apply_options-Opened : (opts : List RegisterOption) (s : Shell) → Opened s (apply_options opts s)
unfolding apply_options apply_option
apply_options-Opened [] s = (refl, (refl, (refl, (refl, (refl, (refl, (refl, refl)))))))
apply_options-Opened (with_kind kind ∷ opts) s = apply_options-Opened opts _
apply_options-Opened (with_session_id sid ∷ opts) s = apply_options-Opened opts _
apply_options-Opened (with_credential_generation generation by_ssh ∷ opts) s =
    apply_options-Opened opts _
apply_options-Opened (with_interactive admission ∷ opts) s = apply_options-Opened opts _

blank-Opened :
    (opts : List RegisterOption) (id : ℕ) (server session user execution_user : Text)
    (now : Instant)
    → let s = apply_options opts (blank id server session user execution_user now) in
      Opened (blank id server session user execution_user now) s
blank-Opened opts id server session user execution_user now = apply_options-Opened opts _

pub id-options :
    (opts : List RegisterOption) (id : ℕ) (server session user execution_user : Text)
    (now : Instant)
    → (apply_options opts (blank id server session user execution_user now)).id ≡ id
id-options opts id server session user execution_user now =
    (blank-Opened opts id server session user execution_user now).0

pub server-options :
    (opts : List RegisterOption) (id : ℕ) (server session user execution_user : Text)
    (now : Instant)
    → (apply_options opts (blank id server session user execution_user now)).server_id ≡ server
server-options opts id server session user execution_user now =
    (blank-Opened opts id server session user execution_user now).1.0

register_shell-Orderly :
    (s : Shell) (t : Registry)
    → Orderly t
    → s.id ≡ t.issued
    → (s.closed ≡ false) × ((s.removed ≡ false) × ((s.ch ≡ []) × (s.exit ≡ none)))
    → any (at_key s.server_id s.session_id) t.shells ≡ false
    → exceeds s (is_some s.credential_generation && not (is_exec s.kind)) t ≡ false
    → Orderly (register_shell s t).1
unfolding exceeds count_where any distinct unique_keys
register_shell-Orderly s t i own (unclosed, (held, (empty, unrevoked))) free room =
    rw room (record {
      once = ground (
        arith,
        i.once,
        any-imp (λ x. leb t.issued x.id) (is_shell s.id) t.shells (λ x h. ground arith) i.fresh,
      );
      fresh = ground (
        arith,
        any-imp (λ x. leb t.issued x.id) (λ x. leb (suc t.issued) x.id) t.shells
            (λ x h. ground arith) i.fresh,
      );
      good = ground (arith, i.good);
      keys = ground (arith, i.keys);
      interactive = ground (arith, i.interactive);
      node = λ n. ground (arith, i.node n, eq_text_iff s.server_id n);
      actor = λ u. ground (arith, i.actor u, eq_text_iff s.user_id u);
      executions = ground (arith, i.executions);
      slots = ground (arith, i.slots);
      watchers = ground (arith, i.watchers);
    })

-- A registration is refused, or made by register_shell for a new shell.
pub register-refused :
    (server session user execution_user : Text) (opts : List RegisterOption) (now : Instant)
    (t : Registry)
    → (register server session user execution_user opts now t).0 ≡ none
    → (register server session user execution_user opts now t).1 ≡ t
unfolding register
register-refused server session user execution_user opts now t h = ground arith

pub register-Orderly :
    (server session user execution_user : Text) (opts : List RegisterOption) (now : Instant)
    (t : Registry)
    → Orderly t
    → Orderly (register server session user execution_user opts now t).1
unfolding register
register-Orderly server session user execution_user opts now t i =
    let s = apply_options opts (blank t.issued server session user execution_user now) in
    let (id, (server_same, (session_same, rest))) =
      blank-Opened opts t.issued server session user execution_user now in
    elim (Bool-cases
      (not (eq_text (t.maintenance server) []) || any (at_key server session) t.shells)) [
        | inl c ↦ rw c i
        | inr c ↦
            elim (Bool-cases
              (exceeds s (is_some s.credential_generation && not (is_exec s.kind)) t)) [
                | inl full ↦ rw (c, full) i
                | inr room ↦ rw c (
                    register_shell-Orderly s t i id rest.1
                      (rw (server_same, session_same) (ground arith)) room)
              ]
      ]

pub registered-state : (r : Option ℕ × Registry) → (registered r).1 ≡ r.1
registered-state (none, t) = refl
registered-state (some id, t) = refl

register_interactive-Orderly :
    (st : ℕ) (conn : Option ℕ) (answer : Option Text) (server session user : Text)
    (opts : List RegisterOption) (now : Instant) (t : Registry)
    → Orderly t
    → Orderly (register_interactive st conn answer server session user opts now t).1
unfolding register_interactive
register_interactive-Orderly st conn none server session user opts now t i = i
register_interactive-Orderly st none (some u) server session user opts now t i = i
register_interactive-Orderly st (some conn) (some u) server session user opts now t i =
    rw
      (registered-state (
        register server session user u (opts ++ with_interactive (admission st conn u) ∷ []) now t))
      (register-Orderly server session user u _ now t i)

maintenance-Orderly :
    (m : Text → Text) (t : Registry) → Orderly t → Orderly (record t { maintenance = m })
maintenance-Orderly m t i = record {
  once = i.once;
  fresh = i.fresh;
  good = i.good;
  keys = i.keys;
  interactive = i.interactive;
  node = i.node;
  actor = i.actor;
  executions = i.executions;
  slots = i.slots;
  watchers = i.watchers;
}

pub data Op : Type 0 where
  open_shell : Text → Text → Text → Text → List RegisterOption → Instant → Op
  open_interactive :
      ℕ → Option ℕ → Option Text → Text → Text → Text → List RegisterOption → Instant → Op
  reserve_node set_node release_node : Text → Text → Op
  attach : Text → Text → Text → Op
  agent_data : ℕ → Text → Text → Text → Instant → Op
  hub_data : Text → Text → Text → Instant → Op
  take : ℕ → Op
  agent_exit : ℕ → Text → Text → ℤ → String → Op
  end_key : Text → Text → ℤ → String → Bool → Op
  end_pointer : ℕ → ℤ → String → Bool → Op
  end_user end_sid : Text → ℤ → String → Op
  end_node : List ℕ → ℤ → String → Op
  drop drop_idle shut : Text → Text → Op
  close_agent stale_pointer watcher : ℕ → Op
  send : Text → Text → Bool → Option ℕ → Option Text → Bool → Op
  send_to : ℕ → Bool → Option ℕ → Option Text → Bool → Op
  policy : (ℕ → Option Text) → List ℕ → Op
  credentials : (Shell → Bool) → List ℕ → Op

unfoldable pub apply : Op → Registry → Registry
apply (open_shell server session user execution_user opts now) t =
    (register server session user execution_user opts now t).1
apply (open_interactive st conn answer server session user opts now) t =
    (register_interactive st conn answer server session user opts now t).1
apply (reserve_node node id) t = (reserve_maintenance node id t).1
apply (set_node node id) t = set_maintenance node id t
apply (release_node node id) t = release_maintenance node id t
apply (attach server session user) t = (attach_stream server session user t).1
apply (agent_data conn server session bytes now) t =
    (deliver_data_from conn server session bytes now t).1
apply (hub_data server session bytes now) t = (deliver_data server session bytes now t).1
apply (take id) t = receive id t
apply (agent_exit conn server session code message) t =
    (end_from conn server session code message t).1
apply (end_key server session code message forced) t =
    (end_session server session code message forced t).1
apply (end_pointer id code message forced) t = (end_exact id code message forced t).1
apply (end_user user code message) t = (end_by_user user code message t).1
apply (end_sid sid code message) t = (end_by_session sid code message t).1
apply (end_node ids code message) t = finish_end_all ids code message t
apply (drop server session) t = (remove server session t).1
apply (drop_idle server session) t = (remove_unattached_with_close server session t).1
apply (shut server session) t = (close_terminal server session t).1
apply (close_agent id) t = close_interactive id t
apply (stale_pointer id) t = end_stale_credential id t
apply (watcher id) t = watcher_returns id t
apply (send server session opens conn answer delivered) t =
    (send_interactive server session opens conn answer delivered t).1
apply (send_to id opens conn answer delivered) t = (send_guarded id opens conn answer delivered t).1
apply (policy validate ids) t = recheck validate ids t
apply (credentials live ids) t = end_stale live ids t

-- An operation on the registrations that are there.
abbrev pub is_quiet : Op → Bool
is_quiet (open_shell server session user execution_user opts now) = false
is_quiet (open_interactive st conn answer server session user opts now) = false
is_quiet (reserve_node node id) = false
is_quiet (set_node node id) = false
is_quiet (release_node node id) = false
is_quiet _ = true

pub apply-Quiet : (op : Op) (t : Registry) → Orderly t → is_quiet op ≡ true → Quiet t (apply op t)
unfolding apply end_by_user
apply-Quiet (open_shell server session user execution_user opts now) t i h = ground arith
apply-Quiet (open_interactive st conn answer server session user opts now) t i h = ground arith
apply-Quiet (reserve_node node id) t i h = ground arith
apply-Quiet (set_node node id) t i h = ground arith
apply-Quiet (release_node node id) t i h = ground arith
apply-Quiet (attach server session user) t i h = attach_stream-Quiet server session user t i
apply-Quiet (agent_data conn server session bytes now) t i h =
    deliver_data_from-Quiet conn server session bytes now t i
apply-Quiet (hub_data server session bytes now) t i h =
    deliver_data-Quiet server session bytes now t i
apply-Quiet (take id) t i h = receive-Quiet id t i
apply-Quiet (agent_exit conn server session code message) t i h =
    end_from-Quiet conn server session code message t i
apply-Quiet (end_key server session code message forced) t i h =
    end_session-Quiet server session code message forced t i
apply-Quiet (end_pointer id code message forced) t i h = end_exact-Quiet id code message forced t i
apply-Quiet (end_user user code message) t i h = end_each-Quiet code message _ t i
apply-Quiet (end_sid sid code message) t i h = end_by_session-Quiet sid code message t i
apply-Quiet (end_node ids code message) t i h = finish_end_all-Quiet ids code message t i
apply-Quiet (drop server session) t i h = remove-Quiet server session t i
apply-Quiet (drop_idle server session) t i h = remove_unattached_with_close-Quiet server session t i
apply-Quiet (shut server session) t i h = close_terminal-Quiet server session t i
apply-Quiet (close_agent id) t i h = close_interactive-Quiet id t i
apply-Quiet (stale_pointer id) t i h = end_stale_credential-Quiet id t i
apply-Quiet (watcher id) t i h = watcher_returns-Quiet id t i
apply-Quiet (send server session opens conn answer delivered) t i h =
    send_interactive-Quiet server session opens conn answer delivered t i
apply-Quiet (send_to id opens conn answer delivered) t i h =
    send_guarded-Quiet id opens conn answer delivered t i
apply-Quiet (policy validate ids) t i h = recheck-Quiet validate ids t i
apply-Quiet (credentials live ids) t i h = end_stale-Quiet live ids t i

pub reserve-Orderly :
    (node id : Text) (t : Registry) → Orderly t → Orderly (reserve_maintenance node id t).1
unfolding reserve_maintenance
reserve-Orderly node id t i = elim (Bool-cases (not (eq_text (t.maintenance node) []))) [
  | inl c ↦ rw c i
  | inr c ↦ elim (Bool-cases (node_live node t)) [
    | inl d ↦ rw (c, d) i
    | inr d ↦ rw (c, d) (maintenance-Orderly _ t i)
  ]
]

release-Orderly :
    (node id : Text) (t : Registry) → Orderly t → Orderly (release_maintenance node id t)
unfolding release_maintenance
release-Orderly node id t i = elim (Bool-cases (eq_text (t.maintenance node) id)) [
  | inl c ↦ rw c (maintenance-Orderly _ t i)
  | inr c ↦ rw c i
]

pub apply-Orderly : (op : Op) (t : Registry) → Orderly t → Orderly (apply op t)
unfolding apply set_maintenance
apply-Orderly (open_shell server session user execution_user opts now) t i =
    register-Orderly server session user execution_user opts now t i
apply-Orderly (open_interactive st conn answer server session user opts now) t i =
    register_interactive-Orderly st conn answer server session user opts now t i
apply-Orderly (reserve_node node id) t i = reserve-Orderly node id t i
apply-Orderly (set_node node id) t i = maintenance-Orderly _ t i
apply-Orderly (release_node node id) t i = release-Orderly node id t i
apply-Orderly op t i = Quiet-Orderly t _ (apply-Quiet op t i refl) i

pub new-Orderly : Orderly new
unfolding new count_where any distinct unique_keys
new-Orderly = record {
  once = refl;
  fresh = refl;
  good = refl;
  keys = refl;
  interactive = omega arith;
  node = λ n. omega arith;
  actor = λ u. omega arith;
  executions = omega arith;
  slots = refl;
  watchers = omega arith;
}

unfoldable pub run : List Op → Registry → Registry
run [] t = t
run (op ∷ ops) t = run ops (apply op t)

-- Every sequence of steps keeps the registry in order: no two registrations of the map share a key;
-- at most 256 live shells that are no executions, 8 live registrations for each node, 4 live
-- executions for each user and 32 in all; as many watcher slots in use as watchers that have not
-- returned, at most 256; and every queue is within its 256 events, a removed registration revoked,
-- and a revoked one closed and without data in its queue.
pub run-Orderly : (ops : List Op) (t : Registry) → Orderly t → Orderly (run ops t)
unfolding run
run-Orderly [] t i = i
run-Orderly (op ∷ ops) t i = run-Orderly ops (apply op t) (apply-Orderly op t i)
