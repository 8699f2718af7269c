-- ===== src/Execution/Lifecycle.antt =====
-- The operations of one session: preparation, attachment, dispatch, input and cancellation.
use Prim.Native.String.{String}
use veyport.Base.{
  ℕ, zero, suc, ◌+◌, ◌==◌, ltb, leb, Bool, true, false, ◌&&◌, ◌||◌, not, Option, none, some, List,
  [], ◌∷◌, ◌++◌, if◌then◌else◌, length, is_some,
}
use veyport.Base.Int.{ℤ, pos, leb_ℤ, ltb_ℤ}
use veyport.Base.Text.{Text}
use veyport.Relay.Keys.{eq_text}
use veyport.Execution.Messages.{
  Binding, eq_binding, Limits, eq_limits, Identity, Prepared, Dispatch, frame, eof, Error,
  not_prepared, binding_invalid, preparation_expired, skew_exceeded, content_changed,
  identity_invalid, not_available, attachment_invalid, cancelled, attachment_consumed,
  check_required, not_dispatchable, configuration_invalid, protected_not_dispatchable,
  frame_too_large, input_closed, not_enqueued, Session, unix_milli, from_milli, attach_timeout,
  skewed_timeout,
}

abbrev longer : ℕ → Text → Bool
longer n t = ltb n (length t)

abbrev binding_of : Session → Binding → Bool
binding_of s b =
    eq_text b.execution_id s.id
    && (eq_text b.node_id s.node_id
        && (not (eq_text b.preparation_id [])
            && (not (longer 128 b.preparation_id) && eq_text b.boot_id s.boot_id)))

abbrev limits_of : Session → Option Limits → Bool
limits_of s none = false
limits_of s (some l) = eq_limits l s.limits

abbrev identity_of : Session → Option Identity → Bool
identity_of s none = false
identity_of s (some i) =
    (not (eq_text i.username []) && not (longer 256 i.username))
    && ((not (eq_text i.shell []) && not (longer 4096 i.shell))
        && ((not (eq_text i.cwd []) && not (longer 4096 i.cwd))
            && (not (longer 4096 i.home)
                && (leb (length i.groups) 1024
                    && ((length i.identity_sha256 == 32 && length i.groups_sha256 == 32)
                        && (eq_text s.requested_user [] || eq_text i.username s.requested_user))))))

abbrev validate_bound : Session → Prepared → ℕ → Option Binding → Option Error
validate_bound s p now none = some binding_invalid
validate_bound s p now (some b) =
    if not (binding_of s b)
    then some binding_invalid
    else if leb_ℤ b.expires (pos (unix_milli now))
    then some preparation_expired
    else if ltb_ℤ (pos (unix_milli (now + skewed_timeout))) b.expires
    then some skew_exceeded
    else if not (eq_text p.command_sha256 s.command_hash) || not (limits_of s p.limits)
    then some content_changed
    else if not (identity_of s p.identity)
    then some identity_invalid
    else none

unfoldable pub validate_prepared : Session → Prepared → ℕ → Option Error
validate_prepared s p now =
    if not (eq_text p.failure []) then some not_prepared else validate_bound s p now p.binding

abbrev pub expiry : Option Binding → ℤ
expiry none = pos 0
expiry (some b) = b.expires

abbrev pub earlier : ℕ → ℕ → ℕ
earlier a b = if ltb b a then b else a

abbrev accept_prepared : Prepared → ℕ → Option Error → Session → Bool × Session
accept_prepared p now (some e) s = (false, record s { prepare_error = some e })
accept_prepared p now none s = (
  true,
  record s {
    prepared = some p;
    deadline = some (earlier (now + attach_timeout) (from_milli (expiry p.binding)));
  },
)

-- DeliverPrepared for the session that the message names; `live` is the test of its stream and
-- connection.
unfoldable pub deliver_prepared : Bool → Prepared → ℕ → Session → Bool × Session
deliver_prepared live p now s =
    if not live || (is_some s.prepared || is_some s.prepare_error)
    then (false, s)
    else accept_prepared p now (validate_prepared s p now) s

abbrev pub past_deadline : ℕ → Option ℕ → Bool
past_deadline now none = true
past_deadline now (some d) = not (ltb now d)

abbrev pub past_binding : ℕ → Option Binding → Bool
past_binding now none = true
past_binding now (some b) = leb_ℤ b.expires (pos (unix_milli now))

abbrev pub past_prepared : ℕ → Option Prepared → Bool
past_prepared now none = true
past_prepared now (some p) = past_binding now p.binding

unfoldable pub preparation_expired_locked : ℕ → Session → Bool
preparation_expired_locked now s = past_prepared now s.prepared || past_deadline now s.deadline

-- IssueAttach, with 32 random bytes or the failure of their source.
unfoldable pub issue_attach : Option Text → ℕ → Session → Option Error × Session
issue_attach random now s =
    if s.ticket_issued || preparation_expired_locked now s
    then (some not_available, s)
    else elim random [
      | none ↦ (some not_available, s)
      | some ticket ↦ (none, record s { ticket = ticket; ticket_issued = true })
    ]

abbrev pub prepared_binding : Option Prepared → Option Binding
prepared_binding none = none
prepared_binding (some p) = p.binding

abbrev pub is_binding : Binding → Option Binding → Bool
is_binding b none = false
is_binding b (some c) = eq_binding b c

unfoldable pub may_attach : Binding → Text → ℕ → Session → Bool
may_attach binding ticket now s =
    not (preparation_expired_locked now s)
    && (s.ticket_issued
        && (not s.ticket_used
            && (is_binding binding (prepared_binding s.prepared) && eq_text ticket s.ticket)))

-- The content of a [32]byte that was cleared or never set.
unfoldable pub zeros : ℕ → Text
zeros zero = []
zeros (suc n) = 0 ∷ zeros n

-- Attach for the session that the binding names. The ticket is cleared to 32 zeros.
unfoldable pub attach : Bool → Text → Binding → Text → ℕ → Session → Option Error × Session
attach live node binding ticket now s =
    if not (eq_text binding.node_id node) || not (length ticket == 32)
    then (some attachment_invalid, s)
    else if not live
    then (some not_available, s)
    else if is_some s.done
    then (some cancelled, s)
    else if not (may_attach binding ticket now s)
    then (some attachment_consumed, s)
    else (none, record s { ticket_used = true; ticket = zeros 32 })

abbrev pub dispatch_of : Text → Text → ℤ → Option Prepared → List Dispatch
dispatch_of policy receipt receipt_expires none = []
dispatch_of policy receipt receipt_expires (some p) =
    record {
      binding = p.binding;
      command_sha256 = p.command_sha256;
      identity = p.identity;
      limits = p.limits;
      policy_version = policy;
      receipt = receipt;
      receipt_expires = receipt_expires;
    }
    ∷ []

-- "standard-v1"
abbrev pub standard_policy : Text
standard_policy = 115 ∷ 116 ∷ 97 ∷ 110 ∷ 100 ∷ 97 ∷ 114 ∷ 100 ∷ 45 ∷ 118 ∷ 49 ∷ []

abbrev pub queue_start : Text → Text → ℤ → Session → Session
queue_start policy receipt receipt_expires s = record s {
  dispatch = true;
  start = s.start ++ dispatch_of policy receipt receipt_expires s.prepared;
}

unfoldable pub dispatch_standard : Bool → ℕ → Session → Option Error × Session
dispatch_standard live now s =
    if s.enhanced
      || (preparation_expired_locked now s || (not s.ticket_used || (s.dispatch || not live)))
    then (some not_dispatchable, s)
    else if is_some s.done
    then (some cancelled, s)
    else (none, queue_start standard_policy [] (pos 0) s)

-- DispatchChecked; `check` is whether the caller passes an authorization check.
unfoldable pub dispatch_checked : Bool → Bool → ℕ → Session → Option Error × Session
dispatch_checked check live now s =
    if not check then (some check_required, s) else dispatch_standard live now s

unfoldable pub configure : Bool → Text → ℕ → Option Limits → Session → Option Error × Session
configure enhanced hash script_length limits s =
    if is_some s.prepared
      || (is_some s.prepare_error
          || (ltb 16777216 script_length || (not (length hash == 0) && not (length hash == 32))))
    then (some configuration_invalid, s)
    else elim limits [
      | none ↦ (some configuration_invalid, s)
      | some l ↦ (
        none,
        record s {
          enhanced = enhanced;
          script_hash = hash;
          script_length = script_length;
          limits = l;
        },
      )
    ]

abbrev pub after_binding : ℤ → Option Prepared → Bool
after_binding e none = true
after_binding e (some p) = ltb_ℤ (expiry p.binding) e

-- DispatchProtected; `script` and `check` are whether a reader and an authorization check are given.
unfoldable pub dispatch_protected :
    Text → ℤ → Text → Bool → Bool → Bool → ℕ → Session → Option Error × Session
dispatch_protected receipt receipt_expires policy script check live now s =
    if not s.enhanced
      || (preparation_expired_locked now s
          || ((not s.ticket_used || s.dispatch)
              || ((eq_text receipt [] || longer 16384 receipt)
                  || ((leb_ℤ receipt_expires (pos (unix_milli now))
                        || after_binding receipt_expires s.prepared)
                      || (not check
                          || ((not (eq_text s.script_hash []) && not script) || not live))))))
    then (some protected_not_dispatchable, s)
    else if is_some s.done
    then (some cancelled, s)
    else (none, queue_start policy receipt receipt_expires s)

-- `enqueued` is whether enqueueInput puts the message into the queue or gives up.
unfoldable pub send_input : Text → Bool → Session → Option Error × Session
send_input bytes enqueued s =
    if longer 65536 bytes
    then (some frame_too_large, s)
    else if s.input_closed
    then (some input_closed, s)
    else if not enqueued
    then (some not_enqueued, s)
    else (
      none,
      record s {
        stdin = s.stdin ++ frame s.input_sequence bytes ∷ [];
        input_sequence = suc s.input_sequence;
      },
    )

unfoldable pub close_input : Bool → Session → Option Error × Session
close_input enqueued s =
    if s.input_closed
    then (none, s)
    else if not enqueued
    then (some not_enqueued, s)
    else (none, record s { stdin = s.stdin ++ eof s.input_sequence ∷ []; input_closed = true })

-- Cancel runs once.
unfoldable pub cancel : String → Session → Session
cancel reason s = if is_some s.done then s else record s { done = some reason }

-- The sender takes the start out of its channel, and the agent's messages out of the queue are read
-- elsewhere.
unfoldable pub take_start : Session → Session
take_start s = record s { start = [] }
