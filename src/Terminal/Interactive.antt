-- ===== src/Terminal/Interactive.antt =====
-- Interactive shells (interactive_terminal.go): admission, guarded sends, the policy observer and the
-- watchers of credentials. The answer of a validator (the execution user, or none for an error), the
-- connection that the manager holds and the outcome of a send are arguments.
use veyport.Base.{
  ◌⊎◌, inl, inr, ℕ, ◌-◌, ◌==◌, Bool, true, false, ◌&&◌, ◌||◌, not, Option, none, some, List, [],
  ◌∷◌, ◌++◌, if◌then◌else◌, find, is_some,
}
use veyport.Base.Int.{pos}
use veyport.Base.Text.{Text}
use veyport.Base.Time.{Instant}
use veyport.Relay.Keys.{eq_text}
use veyport.Terminal.Shells.{Interactive, Shell, Registry, lookup, write, is_shell}
use veyport.Terminal.Admission.{RegisterOption, with_interactive, register}
use veyport.Terminal.Ending.{
  is_current, end_exact, end_locked, close_interactive, captured, end_interactive_and_close,
}

pub data SendError : Type 0 where
  session_closed registration not_connected validation not_sent : SendError

abbrev pub admission : ℕ → ℕ → Text → Interactive
admission st conn execution_user = record {
  st = st;
  conn = conn;
  execution_user = execution_user;
  admitted = false;
  close_sent = false;
}

abbrev pub registered : Option ℕ × Registry → (SendError ⊎ ℕ) × Registry
registered (none, t) = (inl registration, t)
registered (some id, t) = (inr id, t)

unfoldable pub register_interactive :
    ℕ
    → Option ℕ
    → Option Text
    → Text
    → Text
    → Text
    → List RegisterOption
    → Instant
    → Registry
    → (SendError ⊎ ℕ) × Registry
register_interactive st conn none server session user opts now t = (inl validation, t)
register_interactive st none (some execution_user) server session user opts now t =
    (inl not_connected, t)
register_interactive st (some conn) (some execution_user) server session user opts now t =
    registered (
      register server session user execution_user
        (opts ++ with_interactive (admission st conn execution_user) ∷ []) now t)

abbrev pub names : Option Text → Text → Bool
names none user = false
names (some u) user = eq_text u user

abbrev pub holds : Option ℕ → ℕ → Bool
holds none conn = false
holds (some c) conn = c == conn

-- The checks before the send: it is admitted or opens the terminal, current and open, on the
-- connection that is installed, and its authority still names the same execution user.
unfoldable pub may_send : Bool → Option ℕ → Option Text → Interactive → Shell → Registry → Bool
may_send opens conn answer a s t =
    (a.admitted || opens)
    && ((is_current s t && not s.closed) && (holds conn a.conn && names answer a.execution_user))

abbrev admit : Option Interactive → Option Interactive
admit none = none
admit (some a) = some (record a { admitted = true })

abbrev pub sent : Bool → ℕ → Registry → Registry
sent opens id t =
    if opens then write id (λ s. record s { interactive = admit s.interactive }) t else t

-- A send that is not made, or not delivered, ends the shell and closes its agent side.
abbrev pub give_up : ℕ → Registry → Registry
give_up id t =
    (end_interactive_and_close id (pos 1) "Terminal authorization or agent connection changed." t).1

abbrev pub guarded :
    Bool → Option ℕ → Option Text → Bool → Registry → Option Shell → (Bool × Bool) × Registry
guarded opens conn answer delivered t none = ((false, false), t)
guarded opens conn answer delivered t (some s) = elim s.interactive [
  | none ↦ ((false, false), t)
  | some a ↦
      if may_send opens conn answer a s t
      then ((true, delivered), if delivered then sent opens s.id t else give_up s.id t)
      else ((false, false), give_up s.id t)
]

-- SendToConnectionGuarded's callback on the registration behind a pointer: whether the message was
-- handed to the stream, and whether that succeeded.
unfoldable pub send_guarded :
    ℕ → Bool → Option ℕ → Option Text → Bool → Registry → (Bool × Bool) × Registry
send_guarded id opens conn answer delivered t =
    guarded opens conn answer delivered t (find (is_shell id) t.shells)

abbrev send_found :
    Bool → Option ℕ → Option Text → Bool → Registry → Option Shell → (Bool × Bool) × Registry
send_found opens conn answer delivered t none = ((false, false), t)
send_found opens conn answer delivered t (some s) =
    if s.closed || not (is_some s.interactive)
    then ((false, false), t)
    else send_guarded s.id opens conn answer delivered t

unfoldable pub send_interactive :
    Text → Text → Bool → Option ℕ → Option Text → Bool → Registry → (Bool × Bool) × Registry
send_interactive server session opens conn answer delivered t =
    send_found opens conn answer delivered t (lookup server session t)

abbrev close_found : Registry → Option Shell → Bool × Registry
close_found t none = (false, t)
close_found t (some s) =
    if is_some s.interactive
    then (
      true,
      close_interactive s.id (end_exact s.id (pos 0) "Terminal closed by the hub." true t).1,
    )
    else (false, t)

unfoldable pub close_terminal : Text → Text → Registry → Bool × Registry
close_terminal server session t = close_found t (lookup server session t)

abbrev pub in_store : ℕ → Option Interactive → Bool
in_store st none = false
in_store st (some a) = a.st == st

-- The observer of the interactive policy, over the registrations that it has captured.
abbrev pub recheck_one : (ℕ → Option Text) → Registry → Option Shell → Registry
recheck_one validate t none = t
recheck_one validate t (some s) =
    if names (validate s.id) s.execution_user
    then t
    else (end_interactive_and_close s.id (pos 1)
        "Security policy or terminal authorization changed." t).1

unfoldable pub recheck : (ℕ → Option Text) → List ℕ → Registry → Registry
recheck validate [] t = t
recheck validate (id ∷ ids) t =
    recheck validate ids (recheck_one validate t (find (is_shell id) t.shells))

unfoldable pub observe_interactive_policy : ℕ → (ℕ → Option Text) → Registry → Registry
observe_interactive_policy st validate t =
    recheck validate (captured (λ s. in_store st s.interactive) t) t

abbrev revoke_credential : Shell → Shell
revoke_credential s = record s { revoked = true }

-- The shell after endStaleCredential, its answer unused.
unfoldable pub stale : Shell → Shell
stale s =
    (end_locked (pos 1) "Terminal credentials or authorization revoked." true
      (record s { revoked = true })).1

abbrev pub stale_pointer : Registry → Option Shell → Registry
stale_pointer t none = t
stale_pointer t (some s) = if not (is_current s t) || s.revoked then t else write s.id stale t

unfoldable pub end_stale_credential : ℕ → Registry → Registry
end_stale_credential id t = stale_pointer t (find (is_shell id) t.shells)

-- The loop of EndStaleCredentials; `live` is the answer of credentialLive.
abbrev pub stale_one : (Shell → Bool) → Registry → Option Shell → Registry
stale_one live t none = t
stale_one live t (some s) = if live s then t else end_stale_credential s.id t

unfoldable pub end_stale : (Shell → Bool) → List ℕ → Registry → Registry
end_stale live [] t = t
end_stale live (id ∷ ids) t = end_stale live ids (stale_one live t (find (is_shell id) t.shells))

unfoldable pub end_stale_credentials : (Shell → Bool) → Text → Registry → Registry
end_stale_credentials live user t =
    end_stale live
      (captured (λ s. eq_text s.user_id user && (not s.revoked && is_some s.credential_generation))
        t)
      t

-- The return of watchCredential: a revoked shell's agent side is closed, and the slot is given back.
abbrev pub release_watcher : Registry → Option Shell → Registry
release_watcher t none = t
release_watcher t (some s) =
    if not s.slot
    then t
    else record (write s.id (λ x. record x { slot = false })
        (if s.revoked then close_interactive s.id t else t)) {
          credential_watchers = t.credential_watchers - 1;
        }

unfoldable pub watcher_returns : ℕ → Registry → Registry
watcher_returns id t = release_watcher t (find (is_shell id) t.shells)
