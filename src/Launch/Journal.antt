-- ===== src/Launch/Journal.antt =====
-- The journal. `name` is journalName, `files` what the directory holds now, and `disk` what of it was
-- made durable, which a crash may bring back. What the operating system answers is an argument.
use Prim.Native.String.{String}
use veyport.Base.{Bool, true, false, Option, none, some, [], if◌then◌else◌, is_some}
use veyport.Base.Int.{ℤ, pos}
use veyport.Base.Text.{Text}
use veyport.Relay.Keys.{eq_text}
use veyport.Execution.Messages.{Binding}

-- The states that the agent writes.
pub data State : Type 0 where
  claimed running outcome_unknown launch_failed exited cancelled transport_lost : State

-- pb.ExecutionResult
pub record Result : Type 0 where
  pub binding : Binding
  pub state : State
  pub exit_code : ℤ
  pub signal : String
  pub reason : String
  pub stdout_complete : Bool
  pub stderr_complete : Bool

pub record LaunchRecord : Type 0 where
  pub binding : Option Binding
  pub command_sha256 : Text
  pub identity_sha256 : Text
  pub policy_version : Text
  pub state : State
  pub result : Option Result

-- A file that decodes to a record, or one that does not.
pub data File : Type 0 where
  whole : LaunchRecord → File
  garbled : File

pub record Journal : Type 0 where
  pub records : Text → Option LaunchRecord
  pub files : Text → Option File
  pub disk : Text → Option File

abbrev pub put {ℓ} : {V : Type ℓ} → (Text → V) → Text → V → Text → V
put f key v other = if eq_text other key then v else f other

-- openJournal over files that are durable; nothing is active yet.
unfoldable pub open_journal : (Text → Option File) → Journal
open_journal files = record { records = λ id. none; files = files; disk = files }

-- The end of the process, after which each file is as it was (`survives`) or as it was last made
-- durable, and the journal opened again.
unfoldable pub restart : (Text → Bool) → Journal → Journal
restart survives j = record {
  records = λ id. none;
  files = λ n. if survives n then j.files n else j.disk n;
  disk = j.disk;
}

unfoldable pub unknown : Text → LaunchRecord
unknown id = record {
  binding = some (record {
    execution_id = id;
    node_id = [];
    preparation_id = [];
    boot_id = [];
    expires = pos 0;
  });
  command_sha256 = [];
  identity_sha256 = [];
  policy_version = [];
  state = outcome_unknown;
  result = none;
}

abbrev pub settle : State → State
settle claimed = outcome_unknown
settle running = outcome_unknown
settle s = s

abbrev pub names : Text → Option Binding → Bool
names id none = false
names id (some b) = eq_text b.execution_id id

unfoldable pub decode : Text → File → LaunchRecord
decode id garbled = unknown id
decode id (whole r) = if names id r.binding then record r { state = settle r.state } else unknown id

-- readRecord; `readable` is whether the file opens and is read within the limit of its size.
unfoldable pub read_record : Text → Bool → Option File → Option LaunchRecord
read_record id readable none = none
read_record id readable (some f) = some (if readable then decode id f else unknown id)

abbrev pub active_or : Option LaunchRecord → Option LaunchRecord → Option LaunchRecord
active_or none r = r
active_or (some a) r = some a

-- What a write ended with: all durable, all written and in place but not durable, or not written.
pub data Written : Type 0 where
  durable placed failed : Written

pub data Error : Type 0 where
  already_claimed open_failed not_claimed not_durable : Error

pub data Opening : Type 0 where
  opened exists refused : Opening

-- An exclusive creation, where `allowed` is whether the system permits it.
abbrev pub open_exclusive : Bool → Option File → Opening
open_exclusive true none = opened
open_exclusive true (some f) = exists
open_exclusive false f = refused

abbrev pub left_by_claim : Written → LaunchRecord → File
left_by_claim failed r = garbled
left_by_claim w r = whole r

abbrev pub is_running : State → Bool
is_running running = true
is_running s = false

module _ (name : Text → Text) where
  unfoldable pub status : Text → Bool → Journal → Option LaunchRecord
  status id readable j = active_or (j.records id) (read_record id readable (j.files (name id)))

  unfoldable pub write_claim : LaunchRecord → Text → Written → Journal → Option Error × Journal
  write_claim r id durable j = (
    none,
    record {
      records = put j.records id (some r);
      files = put j.files (name id) (some (whole r));
      disk = put j.disk (name id) (some (whole r));
    },
  )
  write_claim r id w j = (
    some not_durable,
    record {
      records = put j.records id none;
      files = put j.files (name id) (some (left_by_claim w r));
      disk = j.disk;
    },
  )

  abbrev create_claim : LaunchRecord → Text → Written → Opening → Journal → Option Error × Journal
  create_claim r id w opened j = write_claim r id w j
  create_claim r id w exists j = (some already_claimed, j)
  create_claim r id w refused j = (some open_failed, j)

  unfoldable pub claim :
      Binding → Text → Text → Text → Bool → Written → Journal → Option Error × Journal
  claim binding command_hash identity_hash policy allowed w j =
      let id = binding.execution_id in
      let r : LaunchRecord = record {
        binding = some binding;
        command_sha256 = command_hash;
        identity_sha256 = identity_hash;
        policy_version = policy;
        state = claimed;
        result = none;
      } in
      if is_some (j.records id)
      then (some already_claimed, j)
      else create_claim r id w (open_exclusive allowed (j.files (name id))) j

  -- Only a running execution stays in memory.
  unfoldable pub write_update : LaunchRecord → Text → Written → Journal → Option Error × Journal
  write_update r id durable j = (
    none,
    record {
      records = put j.records id (if is_running r.state then some r else none);
      files = put j.files (name id) (some (whole r));
      disk = put j.disk (name id) (some (whole r));
    },
  )
  write_update r id placed j = (
    some not_durable,
    record {
      records = put j.records id none;
      files = put j.files (name id) (some (whole r));
      disk = j.disk;
    },
  )
  write_update r id failed j = (some not_durable, record j { records = put j.records id none })

  abbrev update_from :
      Text
      → State
      → Option Result
      → Bool
      → Written
      → Option LaunchRecord
      → Journal
      → Option Error × Journal
  update_from id state result temp w none j = (some not_claimed, j)
  update_from id state result temp w (some old) j =
      if temp
      then write_update (record old { state = state; result = result }) id w j
      else (some open_failed, j)

  -- update; `temp` is whether the temporary file is created.
  unfoldable pub update :
      Text → State → Option Result → Bool → Bool → Written → Journal → Option Error × Journal
  update id state result readable temp w j =
      update_from id state result temp w (status id readable j) j

  unfoldable pub record_running : Text → Bool → Bool → Written → Journal → Option Error × Journal
  record_running id readable temp w j = update id running none readable temp w j

  unfoldable pub record_result : Result → Bool → Bool → Written → Journal → Option Error × Journal
  record_result r readable temp w j =
      update r.binding.execution_id r.state (some r) readable temp w j
