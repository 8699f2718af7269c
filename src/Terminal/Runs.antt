-- ===== src/Terminal/Runs.antt =====
-- What any sequence of steps does to one registration.
use Prim.Native.String.{String}
use veyport.Base.{
  ℕ, leb, ◌≡◌, ◌≢◌, ◌∙◌, refl, sym, Bool, true, false, ◌&&◌, ◌||◌, not, Option, none, some, List,
  [], ◌∷◌, ◌++◌, arith, find, any, is_some, Bool-cases, Option-cases, inl, inr, find-any,
  find-passes,
}
use veyport.Base.Int.{ℤ}
use veyport.Base.Text.{Text}
use veyport.Base.Time.{Instant}
use veyport.Relay.Keys.{eq_text, eq_text_iff}
use veyport.Terminal.Shells.{Shell, Registry, is_shell, lookup, at_key, is_exec, write}
use veyport.Terminal.Admission.{
  RegisterOption, with_interactive, register, reserve_maintenance, set_maintenance,
  release_maintenance, exceeds, apply_options, blank,
}
use veyport.Terminal.Interactive.{register_interactive, admission}
use veyport.Terminal.Delivery.{forwards, attached, attach_stream}
use veyport.Terminal.Ending.{end_by_user, end_by_session}
use veyport.Terminal.Later.{Later, same-Later, trans-Later, distinct}
use veyport.Terminal.Books.{Orderly, Quiet-Orderly}
use veyport.Terminal.Quiet.{end_each-Quiet}
use veyport.Terminal.Revocation.{Revoked, find-Laters, captured-Revoked, find-write}
use veyport.Terminal.Steps

-- The registration behind a pointer, later.
abbrev Stays : ℕ → Shell → Registry → Type 0
Stays id s t' = (s' : Shell) × ((find (is_shell id) t'.shells ≡ some s') × Later s s')

same-Stays :
    (id : ℕ) (s : Shell) (t : Registry) → find (is_shell id) t.shells ≡ some s → Stays id s t
same-Stays id s t e = (s, (e, same-Later s))

register-Stays :
    (id : ℕ) (s : Shell) (server session user execution_user : Text) (opts : List RegisterOption)
    (now : Instant) (t : Registry)
    → Orderly t
    → find (is_shell id) t.shells ≡ some s
    → Stays id s (register server session user execution_user opts now t).1
unfolding register find
register-Stays id s server session user execution_user opts now t i e =
    let n = apply_options opts (blank t.issued server session user execution_user now) in
    let older : leb t.issued s.id ≡ false =
      find-any (is_shell id) (λ x. leb t.issued x.id) t.shells s e i.fresh in
    let own = find-passes (is_shell id) t.shells s e in
    let mine : n.id ≡ t.issued =
      Steps.id-options opts t.issued server session user execution_user now in
    let other : is_shell id n ≡ false = rw mine (ground arith) in
    elim (Bool-cases
      (not (eq_text (t.maintenance server) []) || any (at_key server session) t.shells)) [
        | inl c ↦ rw c (same-Stays id s t e)
        | inr c ↦
            elim (Bool-cases
              (exceeds n (is_some n.credential_generation && not (is_exec n.kind)) t)) [
                | inl full ↦ rw (c, full) (same-Stays id s t e)
                | inr room ↦ rw (c, room) (s, (rw other e, same-Later s))
              ]
      ]

register_interactive-Stays :
    (id : ℕ) (s : Shell) (st : ℕ) (conn : Option ℕ) (answer : Option Text)
    (server session user : Text) (opts : List RegisterOption) (now : Instant) (t : Registry)
    → Orderly t
    → find (is_shell id) t.shells ≡ some s
    → Stays id s (register_interactive st conn answer server session user opts now t).1
unfolding register_interactive
register_interactive-Stays id s st conn none server session user opts now t i e =
    same-Stays id s t e
register_interactive-Stays id s st none (some u) server session user opts now t i e =
    same-Stays id s t e
register_interactive-Stays id s st (some conn) (some u) server session user opts now t i e =
    rw
      (Steps.registered-state (
        register server session user u (opts ++ with_interactive (admission st conn u) ∷ []) now t))
      (register-Stays id s server session user u _ now t i e)

quiet-Stays :
    (id : ℕ) (s : Shell) (op : Steps.Op) (t : Registry)
    → Orderly t
    → find (is_shell id) t.shells ≡ some s
    → Steps.is_quiet op ≡ true
    → Stays id s (Steps.apply op t)
quiet-Stays id s op t i e q = find-Laters id t.shells _ s (Steps.apply-Quiet op t i q).laters e

apply-Stays :
    (id : ℕ) (s : Shell) (op : Steps.Op) (t : Registry)
    → Orderly t
    → find (is_shell id) t.shells ≡ some s
    → Stays id s (Steps.apply op t)
unfolding Steps.apply reserve_maintenance set_maintenance release_maintenance
apply-Stays id s (Steps.open_shell server session user execution_user opts now) t i e =
    register-Stays id s server session user execution_user opts now t i e
apply-Stays id s (Steps.open_interactive st conn answer server session user opts now) t i e =
    register_interactive-Stays id s st conn answer server session user opts now t i e
apply-Stays id s (Steps.reserve_node node m) t i e = (s, (ground arith, same-Later s))
apply-Stays id s (Steps.set_node node m) t i e = (s, (e, same-Later s))
apply-Stays id s (Steps.release_node node m) t i e = (s, (ground arith, same-Later s))
apply-Stays id s op t i e = quiet-Stays id s op t i e refl

pub run-Stays :
    (id : ℕ) (s : Shell) (ops : List Steps.Op) (t : Registry)
    → Orderly t
    → find (is_shell id) t.shells ≡ some s
    → (s' : Shell) × ((find (is_shell id) (Steps.run ops t).shells ≡ some s') × Later s s')
unfolding Steps.run
run-Stays id s [] t i e = same-Stays id s t e
run-Stays id s (op ∷ ops) t i e =
    let (s', (e', l)) = apply-Stays id s op t i e in
    let (s'', (e'', m)) = run-Stays id s' ops _ (Steps.apply-Orderly op t i) e' in
    (s'', (e'', trans-Later s s' s'' l m))

-- A revoked registration is silent after any steps.
pub silent :
    (id : ℕ) (ops : List Steps.Op) (t : Registry)
    → Orderly t
    → Revoked id t
    → forwards id (Steps.run ops t) ≡ false
unfolding Revoked forwards
silent id ops t i (s, (e, x)) =
    let (s', (e', l)) = run-Stays id s ops t i e in rw (forwards, e') (ground (arith, l.exit x))

-- After EndByUser no registration of the user, whether it is still in the map or a handle to it is
-- retained, forwards anything, and none does after whatever steps follow. It is said of every
-- registration that is there when EndByUser begins.
pub end_by_user-silent :
    (id : ℕ) (s : Shell) (user : Text) (code : ℤ) (message : String) (ops : List Steps.Op)
    (t : Registry)
    → Orderly t
    → find (is_shell id) t.shells ≡ some s
    → s.user_id ≡ user
    → forwards id (Steps.run ops (end_by_user user code message t).1) ≡ false
unfolding Steps.apply end_by_user
end_by_user-silent id s user code message ops t i e own =
    silent id ops _ (Steps.apply-Orderly (Steps.end_user user code message) t i) (
      captured-Revoked (λ x. eq_text x.user_id user) id code message s t i e
        (ground (arith, eq_text_iff s.user_id user)))

-- The same of EndBySession and the registrations that a session, whose id is not empty, has opened.
pub end_by_session-silent :
    (id : ℕ) (s : Shell) (sid : Text) (code : ℤ) (message : String) (ops : List Steps.Op)
    (t : Registry)
    → Orderly t
    → find (is_shell id) t.shells ≡ some s
    → s.sid ≡ sid
    → eq_text sid [] ≡ false
    → forwards id (Steps.run ops (end_by_session sid code message t).1) ≡ false
unfolding end_by_session
end_by_session-silent id s sid code message ops t i e own named = rw named (
    silent id ops _ (Quiet-Orderly t _ (end_each-Quiet code message _ t i) i) (
      captured-Revoked (λ x. eq_text x.sid sid) id code message s t i e
        (ground (arith, eq_text_iff s.sid sid))))

attach-state :
    (server session user : Text) (t : Registry) (s : Shell)
    → (attach_stream server session user t).0 ≡ attached s
    → (o : Shell) × ((lookup server session t ≡ some o)
        × ((s.id ≡ o.id)
            × ((o.streaming ≡ false)
                × ((attach_stream server session user t).1
                    ≡ write o.id (λ x. record x { streaming = true }) t))))
unfolding attach_stream
attach-state server session user t s h = elim (Option-cases (lookup server session t)) [
  | inl e ↦ ground arith
  | inr (o, e) ↦ (o, (e, (ground arith, (ground arith, ground arith))))
]

find-by-id :
    (p : Shell → Bool) (s : Shell) (ss : List Shell)
    → distinct ss ≡ true
    → find p ss ≡ some s
    → find (is_shell s.id) ss ≡ some s
unfolding find distinct
find-by-id p s [] d e = ground arith
find-by-id p s (x ∷ ss) d e = elim (Bool-cases (p x)) [
  | inl c ↦ let same : x ≡ s = ground arith in rw same (ground arith)
  | inr c ↦
      let rest : find p ss ≡ some s = ground arith in
      ground (
        arith,
        find-any p (is_shell x.id) ss s rest (ground arith),
        find-by-id p s ss (ground arith) rest,
      )
]

-- A stream is attached to a registration at most once: when AttachStream has answered with a shell,
-- no AttachStream after any further steps, by whatever user and key, answers with that registration.
pub attach_stream-once :
    (server session user : Text) (ops : List Steps.Op) (server' session' user' : Text)
    (t : Registry) (s s' : Shell)
    → Orderly t
    → (attach_stream server session user t).0 ≡ attached s
    → (attach_stream server' session' user'
        (Steps.run ops (attach_stream server session user t).1)).0
      ≡ attached s'
    → s'.id ≢ s.id
unfolding Steps.apply
attach_stream-once server session user ops server' session' user' t s s' i h h' same =
    let (o, (e, (own, (idle, after)))) = attach-state server session user t s h in
    let t' = (attach_stream server session user t).1 in
    let i' : Orderly t' = Steps.apply-Orderly (Steps.attach server session user) t i in
    let f = λ (x : Shell). record x { streaming = true } in
    let there : find (is_shell o.id) t'.shells ≡ some (f o) =
      rw after (find-write o.id f o t (find-by-id _ o t.shells i.once e) (λ x. refl)) in
    let (z, (ez, l)) = run-Stays o.id (f o) ops t' i' there in
    let (o', (e', (own', (idle', after')))) =
      attach-state server' session' user' (Steps.run ops t') s' h' in
    let i'' = Steps.run-Orderly ops t' i' in
    let again = find-by-id _ o' (Steps.run ops t').shells i''.once e' in
    let one : o'.id ≡ o.id = ground arith in
    let equal : some z ≡ some o' = sym ez ∙ rw (sym one) again in
    ground (arith, equal, l.streaming refl)
