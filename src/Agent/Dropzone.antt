-- ===== src/Agent/Dropzone.antt =====
-- dropzone/dropzone.go. A name and the data of a file are lists of bytes. The answers of the
-- operating system to one call are an argument; `committed` lists the files that were renamed into
-- place, newest first.
use Prim.Native.String.{String}
use text.Mathlib.Text.{◌==◌ as str_eq}
use veyport.Base.{
  ℕ, ◌+◌, ◌==◌, leb, ltb, Bool, true, false, ◌||◌, ◌&&◌, not, Option, none, some, List, [], ◌∷◌,
  ◌++◌, if◌then◌else◌, length, find, select, update_where,
}
use veyport.Base.Int.{pos}
use veyport.Agent.Budget.{Budget, acquire_activity, release_activity}
pub mod Names
pub mod Uploads
pub mod Writing
pub mod Runs
pub mod Reached
pub mod Transfer

abbrev pub max_upload_size : ℕ
max_upload_size = 104857600

abbrev pub max_concurrent_uploads : ℕ
max_concurrent_uploads = 10

abbrev pub Bytes : Type 0
Bytes = List ℕ

abbrev pub is_empty : Bytes → Bool
is_empty [] = true
is_empty (c ∷ cs) = false

abbrev pub slash : ℕ
slash = 47

abbrev pub dot : ℕ
dot = 46

-- filepath.Base drops trailing slashes, then what stands before the last slash.
unfoldable pub strip_trailing : Bytes → Bytes
strip_trailing [] = []
strip_trailing (c ∷ cs) =
    let rest = strip_trailing cs in if c == slash && is_empty rest then [] else c ∷ rest

unfoldable pub after_last : Bytes → Bytes → Bytes
after_last seen [] = seen
after_last seen (c ∷ cs) = if c == slash then after_last [] cs else after_last (seen ++ c ∷ []) cs

unfoldable pub base : Bytes → Bytes
base [] = dot ∷ []
base (c ∷ cs) =
    let last = after_last [] (strip_trailing (c ∷ cs)) in if is_empty last then slash ∷ [] else last

abbrev pub refused_name : Bytes → Bool
refused_name (a ∷ []) = a == dot || a == slash
refused_name (a ∷ b ∷ []) = a == dot && b == dot
refused_name _ = false

unfoldable pub sanitize_filename : Bytes → Bytes
sanitize_filename name = if refused_name (base name) then [] else base name

pub data Error : Type 0 where
  too_many_uploads no_filename invalid_filename not_admitted file_operation_failed : Error
  size_limit_exceeded upload_aborted : Error

-- FileUploadAck; success is an ack without an error.
pub record Ack : Type 0 where
  pub request_id : String
  pub error : Option Error

pub record UploadState : Type 0 where
  pub id : String
  pub content : Bytes
  pub bytes : ℕ
  pub final_name : Bytes
  pub lease : ℕ

pub record Dropzone : Type 0 where
  pub uploads : List UploadState
  pub budget : Budget
  pub committed : List (Bytes × Bytes)

-- Whether the operating system opened, wrote and renamed the file of this call.
pub record Os : Type 0 where
  pub opened : Bool
  pub wrote : Bool
  pub renamed : Bool

abbrev pub has_id : String → UploadState → Bool
has_id id u = str_eq u.id id

abbrev pub fail : String → Error → Option Ack
fail id e = some (record { request_id = id; error = some e })

unfoldable pub new : Budget → Dropzone
new budget = record { uploads = []; budget = budget; committed = [] }

-- An upload leaves the map, and its release function runs.
unfoldable pub drop_upload : UploadState → Dropzone → Dropzone
drop_upload u d = record d {
  uploads = select (λ v. not (has_id u.id v)) d.uploads;
  budget = release_activity u.lease d.budget;
}

pub data Opened : Type 0 where
  refused : Error → Budget → Opened
  admitted : UploadState → Budget → Opened

unfoldable pub open_admitted : String → Bytes → Bool → Option ℕ × Budget → Opened
open_admitted id safe created (none, b) = refused not_admitted b
open_admitted id safe created (some lease, b) =
    if created
    then admitted (record { id = id; content = []; bytes = 0; final_name = safe; lease = lease }) b
    else refused file_operation_failed (release_activity lease b)

unfoldable pub open_new_upload : String → Bytes → Bool → Dropzone → Opened
unfolding open_admitted
open_new_upload id filename created d =
    if leb max_concurrent_uploads (length d.uploads)
    then refused too_many_uploads d.budget
    else if is_empty filename
    then refused no_filename d.budget
    else if is_empty (sanitize_filename filename)
    then refused invalid_filename d.budget
    else open_admitted id (sanitize_filename filename) created (acquire_activity d.budget)

-- The final chunk, with whether the file was renamed.
unfoldable pub finish_chunk : UploadState → Bool → Bool → Dropzone → Option Ack × Dropzone
finish_chunk u done renamed d =
    if not done
    then (none, d)
    else if not renamed
    then (fail u.id file_operation_failed, drop_upload u d)
    else (
      some (record { request_id = u.id; error = none }),
      record (drop_upload u d) { committed = (u.final_name, u.content) ∷ d.committed },
    )

abbrev pub written : Bytes → UploadState → UploadState
written chunk u = record u { content = u.content ++ chunk; bytes = u.bytes + length chunk }

-- The chunk's data, for an upload that is in the map.
unfoldable pub write_chunk : UploadState → Bytes → Bool → Os → Dropzone → Option Ack × Dropzone
write_chunk u chunk done os d =
    if is_empty chunk
    then finish_chunk u done os.renamed d
    else if ltb max_upload_size (u.bytes + length chunk)
    then (fail u.id size_limit_exceeded, drop_upload u d)
    else if not os.wrote
    then (fail u.id file_operation_failed, drop_upload u d)
    else finish_chunk (written chunk u) done os.renamed
        (record d { uploads = update_where (has_id u.id) (written chunk) d.uploads })

unfoldable pub chunk_opened : String → Opened → Bytes → Bool → Os → Dropzone → Option Ack × Dropzone
chunk_opened id (refused e b) chunk done os d = (fail id e, record d { budget = b })
chunk_opened id (admitted u b) chunk done os d =
    write_chunk u chunk done os (record d { uploads = d.uploads ++ u ∷ []; budget = b })

unfoldable pub chunk_found :
    String → Bytes → Option UploadState → Bytes → Bool → Os → Dropzone → Option Ack × Dropzone
unfolding chunk_opened
chunk_found id filename (some u) chunk done os d = write_chunk u chunk done os d
chunk_found id filename none chunk done os d =
    chunk_opened id (open_new_upload id filename os.opened d) chunk done os d

unfoldable pub handle_chunk : String → Bytes → Bytes → Bool → Os → Dropzone → Option Ack × Dropzone
unfolding chunk_found
handle_chunk id filename chunk done os d =
    chunk_found id filename (find (has_id id) d.uploads) chunk done os d

unfoldable pub drop_all : List UploadState → Dropzone → Dropzone
drop_all [] d = d
drop_all (u ∷ us) d = drop_all us (drop_upload u d)

unfoldable pub cleanup : Dropzone → Dropzone
unfolding drop_all
cleanup d = drop_all d.uploads d

-- `clean` says that the file was closed, and removed or already gone.
unfoldable pub abort_found : String → Option UploadState → Bool → Dropzone → Ack × Dropzone
abort_found id none clean d = (record { request_id = id; error = some upload_aborted }, d)
abort_found id (some u) clean d = (
  record {
    request_id = id;
    error = some (if clean then upload_aborted else file_operation_failed);
  },
  drop_upload u d,
)

unfoldable pub abort : String → Bool → Dropzone → Ack × Dropzone
unfolding abort_found
abort id clean d = abort_found id (find (has_id id) d.uploads) clean d
