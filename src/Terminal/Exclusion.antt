-- ===== src/Terminal/Exclusion.antt =====
-- Maintenance and shells exclude each other on a node.
use veyport.Base.{
  ℕ, ◌≡◌, ◌∙◌, refl, ap, Bool, true, false, ◌&&◌, ◌||◌, not, Option, none, some, List, [], ◌∷◌,
  ◌++◌, arith, any, is_some, Bool-cases, inl, inr,
}
use veyport.Base.Text.{Text}
use veyport.Base.Time.{Instant}
use veyport.Relay.Keys.{eq_text, eq_text_iff}
use veyport.Terminal.Shells.{Shell, Registry, at_key, is_exec}
use veyport.Terminal.Admission.{
  RegisterOption, with_interactive, register, reserve_maintenance, set_maintenance,
  release_maintenance, exceeds, apply_options, blank, node_live, live_on, maintenance_idle,
}
use veyport.Terminal.Interactive.{register_interactive, admission}
use veyport.Terminal.Books.{Orderly, Quiet, any-Laters, live_on-Falling}
use veyport.Terminal.Steps

-- A step that is no SetMaintenance or ReleaseMaintenance of the node.
abbrev pub spares : Text → Steps.Op → Bool
spares node (Steps.set_node n id) = not (eq_text n node)
spares node (Steps.release_node n id) = not (eq_text n node)
spares node _ = true

abbrev Reserved : Text → Text → Registry → Type 0
Reserved node id t = (t.maintenance node ≡ id) × (node_live node t ≡ false)

live-elsewhere :
    (node : Text) (s : Shell) (ss : List Shell)
    → eq_text s.server_id node ≡ false
    → any (live_on node) ss ≡ false
    → any (live_on node) (s ∷ ss) ≡ false
unfolding any
live-elsewhere node s ss h e = ground arith

register-Reserved :
    (node id server session user execution_user : Text) (opts : List RegisterOption) (now : Instant)
    (t : Registry)
    → eq_text id [] ≡ false
    → Reserved node id t
    → Reserved node id (register server session user execution_user opts now t).1
unfolding register
register-Reserved node id server session user execution_user opts now t given (m, quiet) =
    let n = apply_options opts (blank t.issued server session user execution_user now) in
    let at : n.server_id ≡ server =
      Steps.server-options opts t.issued server session user execution_user now in
    elim (Bool-cases
      (not (eq_text (t.maintenance server) []) || any (at_key server session) t.shells)) [
        | inl c ↦ rw c (m, quiet)
        | inr c ↦
            elim (Bool-cases
              (exceeds n (is_some n.credential_generation && not (is_exec n.kind)) t)) [
                | inl full ↦ rw (c, full) (m, quiet)
                | inr room ↦
                    let elsewhere : eq_text server node ≡ false =
                      ground (arith, eq_text_iff server node, m) in
                    rw (c, room) (m, live-elsewhere node _ t.shells (rw at elsewhere) quiet)
              ]
      ]

register_interactive-Reserved :
    (node id : Text) (st : ℕ) (conn : Option ℕ) (answer : Option Text) (server session user : Text)
    (opts : List RegisterOption) (now : Instant) (t : Registry)
    → eq_text id [] ≡ false
    → Reserved node id t
    → Reserved node id (register_interactive st conn answer server session user opts now t).1
unfolding register_interactive
register_interactive-Reserved node id st conn none server session user opts now t given r = r
register_interactive-Reserved node id st none (some u) server session user opts now t given r = r
register_interactive-Reserved node id st (some conn) (some u) server session user opts now t given
      r =
    rw
      (Steps.registered-state (
        register server session user u (opts ++ with_interactive (admission st conn u) ∷ []) now t))
      (register-Reserved node id server session user u _ now t given r)

Quiet-Reserved :
    (node id : Text) (t t' : Registry) → Quiet t t' → Reserved node id t → Reserved node id t'
Quiet-Reserved node id t t' q (m, e) = (
  ap (λ f. f node) q.maintenance ∙ m,
  any-Laters (live_on node) t.shells t'.shells (live_on-Falling node) q.laters e,
)

apply-Reserved :
    (node id : Text) (op : Steps.Op) (t : Registry)
    → Orderly t
    → eq_text id [] ≡ false
    → spares node op ≡ true
    → Reserved node id t
    → Reserved node id (Steps.apply op t)
unfolding Steps.apply reserve_maintenance set_maintenance release_maintenance
apply-Reserved node id (Steps.open_shell server session user execution_user opts now) t i given h
      r =
    register-Reserved node id server session user execution_user opts now t given r
apply-Reserved node id (Steps.open_interactive st conn answer server session user opts now) t i
      given h r =
    register_interactive-Reserved node id st conn answer server session user opts now t given r
apply-Reserved node id (Steps.reserve_node n m) t i given h (e, l) =
    (ground (arith, eq_text_iff node n, e), ground (arith, l))
apply-Reserved node id (Steps.set_node n m) t i given h (e, l) =
    (ground (arith, eq_text_iff node n, eq_text_iff n node), l)
apply-Reserved node id (Steps.release_node n m) t i given h (e, l) =
    (ground (arith, eq_text_iff node n, eq_text_iff n node), ground (arith, l))
apply-Reserved node id op t i given h r =
    Quiet-Reserved node id t _ (Steps.apply-Quiet op t i refl) r

run-Reserved :
    (node id : Text) (ops : List Steps.Op) (t : Registry)
    → Orderly t
    → eq_text id [] ≡ false
    → any (λ op. not (spares node op)) ops ≡ false
    → Reserved node id t
    → Reserved node id (Steps.run ops t)
unfolding Steps.run any
run-Reserved node id [] t i given h r = r
run-Reserved node id (op ∷ ops) t i given h r =
    run-Reserved node id ops _ (Steps.apply-Orderly op t i) given (ground arith)
      (apply-Reserved node id op t i given (ground arith) r)

reserve-Reserved :
    (node id : Text) (t : Registry)
    → (reserve_maintenance node id t).0 ≡ none
    → Reserved node id (reserve_maintenance node id t).1
unfolding reserve_maintenance
reserve-Reserved node id t h = (ground (arith, eq_text_iff node node), ground arith)

-- A node whose maintenance was reserved, under an id that is not empty, is idle after any steps that
-- do not set or release its maintenance: it keeps the id, and has no live shell or execution.
pub reserve_maintenance-run :
    (node id : Text) (ops : List Steps.Op) (t : Registry)
    → Orderly t
    → eq_text id [] ≡ false
    → any (λ op. not (spares node op)) ops ≡ false
    → (reserve_maintenance node id t).0 ≡ none
    → maintenance_idle node id (Steps.run ops (reserve_maintenance node id t).1) ≡ true
unfolding maintenance_idle
reserve_maintenance-run node id ops t i given h done =
    let (m, e) =
      run-Reserved node id ops _ (Steps.reserve-Orderly node id t i) given h
        (reserve-Reserved node id t done) in
    ground (arith, eq_text_iff id id, m, e)
