-- ===== src/Execution/Messages.antt =====
-- The protocol messages that a session compares, and the session itself.
use Prim.Native.String.{String}
use veyport.Base.{ℕ, ◌*◌, ◌/◌, ◌==◌, ◌≡◌, Bool, true, ◌&&◌, Option, List, arith, ◌↔◌}
use veyport.Base.Int.{ℤ, pos_part, eqb_ℤ, eq_of_parts}
use veyport.Base.Text.{Text}
use veyport.Relay.Keys.{eq_text, eq_text_iff}

-- pb.ExecutionBinding; `expires` is ExpiresUnixMilli.
pub record Binding : Type 0 where
  pub execution_id : Text
  pub node_id : Text
  pub preparation_id : Text
  pub boot_id : Text
  pub expires : ℤ

-- proto.Equal
unfoldable pub eq_binding : Binding → Binding → Bool
eq_binding a b =
    eq_text a.execution_id b.execution_id
    && (eq_text a.node_id b.node_id
        && (eq_text a.preparation_id b.preparation_id
            && (eq_text a.boot_id b.boot_id && eqb_ℤ a.expires b.expires)))

pub record Limits : Type 0 where
  pub max_frame_bytes : ℕ
  pub max_buffer_bytes : ℕ
  pub runtime_seconds : ℕ
  pub term_grace_seconds : ℕ
  pub blocked_consumer_seconds : ℕ

unfoldable pub eq_limits : Limits → Limits → Bool
eq_limits a b =
    a.max_frame_bytes == b.max_frame_bytes
    && (a.max_buffer_bytes == b.max_buffer_bytes
        && (a.runtime_seconds == b.runtime_seconds
            && (a.term_grace_seconds == b.term_grace_seconds
                && a.blocked_consumer_seconds == b.blocked_consumer_seconds)))

unfoldable pub default_limits : Limits
default_limits = record {
  max_frame_bytes = 65536;
  max_buffer_bytes = 2097152;
  runtime_seconds = 3600;
  term_grace_seconds = 5;
  blocked_consumer_seconds = 60;
}

pub record Identity : Type 0 where
  pub username : Text
  pub shell : Text
  pub cwd : Text
  pub home : Text
  pub groups : List ℕ
  pub identity_sha256 : Text
  pub groups_sha256 : Text

-- pb.ExecutionPrepared
pub record Prepared : Type 0 where
  pub failure : Text
  pub binding : Option Binding
  pub identity : Option Identity
  pub command_sha256 : Text
  pub limits : Option Limits

-- An executionDispatch with the pb.ExecutionStart that it carries.
pub record Dispatch : Type 0 where
  pub binding : Option Binding
  pub command_sha256 : Text
  pub identity : Option Identity
  pub limits : Option Limits
  pub policy_version : Text
  pub receipt : Text
  pub receipt_expires : ℤ

-- A message for the agent's standard input: the sequence number, and the data or the end.
pub data Input : Type 0 where
  frame : ℕ → Text → Input
  eof : ℕ → Input

pub data Error : Type 0 where
  not_prepared binding_invalid preparation_expired skew_exceeded content_changed : Error
  identity_invalid not_available attachment_invalid preparation_unavailable cancelled : Error
  attachment_consumed check_required not_dispatchable configuration_invalid : Error
  protected_not_dispatchable frame_too_large input_closed not_enqueued : Error

-- ExecutionSession; `done` is the reason with which it was closed, `stdin` what was put into that
-- queue so far, and `start` what was put into the one place of the start channel.
pub record Session : Type 0 where
  pub id : Text
  pub node_id : Text
  pub actor_id : Text
  pub requested_user : Text
  pub connection : ℕ
  pub boot_id : Text
  pub command_hash : Text
  pub limits : Limits
  pub prepared : Option Prepared
  pub prepare_error : Option Error
  pub deadline : Option ℕ
  pub ticket : Text
  pub ticket_issued : Bool
  pub ticket_used : Bool
  pub dispatch : Bool
  pub start : List Dispatch
  pub done : Option String
  pub stdin : List Input
  pub input_sequence : ℕ
  pub input_closed : Bool
  pub enhanced : Bool
  pub script_hash : Text
  pub script_length : ℕ

-- now.UnixMilli(), and time.UnixMilli(m), which is before every instant when m is negative.
abbrev pub unix_milli : ℕ → ℕ
unix_milli now = now / 1000000

abbrev pub from_milli : ℤ → ℕ
from_milli m = pos_part m * 1000000

-- ExecutionAttachTimeout, and with it the clock skew that is accepted.
abbrev pub attach_timeout : ℕ
attach_timeout = 60000000000

abbrev pub skewed_timeout : ℕ
skewed_timeout = 65000000000

pub eq_binding_iff : (a b : Binding) → (eq_binding a b ≡ true) ↔ (a ≡ b)
unfolding eq_binding
eq_binding_iff a b = ground (
  arith,
  eq_text_iff a.execution_id b.execution_id,
  eq_text_iff a.node_id b.node_id,
  eq_text_iff a.preparation_id b.preparation_id,
  eq_text_iff a.boot_id b.boot_id,
  eq_of_parts a.expires b.expires,
)
