-- ===== src/Agent/Dropzone/Transfer.antt =====
-- A whole upload, chunk by chunk.
use Prim.Native.String.{String}
use text.Mathlib.TextEquality.{eq_iff}
use veyport.Base.{
  ◌+◌, ◌≤◌, ◌<◌, ◌≡◌, refl, ltb, Bool, true, false, Option, none, some, List, [], ◌∷◌, ◌++◌, arith,
  length, find, update_where, find-passes, find-append, length-append, sym, ap, ◌∙◌, subst,
}
use veyport.Agent.Budget.{Budget, acquire_activity}
use veyport.Agent.Dropzone.{
  Bytes, is_empty, Ack, UploadState, Dropzone, Os, has_id, drop_upload, admitted, open_admitted,
  open_new_upload, finish_chunk, write_chunk, written, chunk_opened, chunk_found, handle_chunk,
  sanitize_filename,
}
use veyport.Agent.Dropzone.Writing.{find-written}

abbrev pub all_well : Os
all_well = record { opened = true; wrote = true; renamed = true }

-- The chunks but the last, then the last one; every system call succeeds.
unfoldable pub send_all : String → Bytes → List Bytes → Bytes → Dropzone → Option Ack × Dropzone
send_all id filename [] last d = handle_chunk id filename last true all_well d
send_all id filename (c ∷ cs) last d =
    send_all id filename cs last (handle_chunk id filename c false all_well d).1

abbrev pub concat : List Bytes → Bytes → Bytes
concat [] last = last
concat (c ∷ cs) last = c ++ concat cs last

append-nil : (xs : Bytes) → xs ++ [] ≡ xs
append-nil [] = refl
append-nil (x ∷ xs) = ap (◌∷◌ x) (append-nil xs)

append_assoc : (xs ys zs : Bytes) → (xs ++ ys) ++ zs ≡ xs ++ (ys ++ zs)
append_assoc [] ys zs = refl
append_assoc (x ∷ xs) ys zs = ap (◌∷◌ x) (append_assoc xs ys zs)

-- An upload under way: its state in the map.
pub record At (id : String) (name content : Bytes) (d : Dropzone) : Type 0 where
  pub state : UploadState
  pub found : find (has_id id) d.uploads ≡ some state
  pub is : (state.final_name ≡ name) × ((state.content ≡ content) × (state.bytes ≡ length content))

write_chunk-At :
    (id : String) (name content chunk : Bytes) (u : UploadState) (d : Dropzone)
    → find (has_id id) d.uploads ≡ some u
    → (u.final_name ≡ name) × ((u.content ≡ content) × (u.bytes ≡ length content))
    → length content + length chunk ≤ 104857600
    → let d' = (write_chunk u chunk false all_well d).1 in
      At id name (content ++ chunk) d' × (d'.committed ≡ d.committed)
unfolding write_chunk finish_chunk
write_chunk-At id name content [] u d f (n, (c, b)) room = (
  record {
    state = u;
    found = f;
    is = (n, (c ∙ sym (append-nil content), omega (arith, b, length-append content [])));
  },
  refl,
)
write_chunk-At id name content (x ∷ chunk) u d f (n, (c, b)) room =
    let small : ltb 104857600 (u.bytes + length (x ∷ chunk)) ≡ false = ground (arith, b, room) in
    let same : u.id ≡ id = ground (arith, find-passes (has_id id) d.uploads u f, eq_iff u.id id) in
    let grown =
      subst
        (λ j.
          find (has_id j) (update_where (has_id u.id) (written (x ∷ chunk)) d.uploads)
          ≡ some (written (x ∷ chunk) u))
        same
        (find-written u (x ∷ chunk) d.uploads
          (subst (λ j. find (has_id j) d.uploads ≡ some u) (sym same) f)) in
    rw small (
      record {
        state = written (x ∷ chunk) u;
        found = grown;
        is = (n, (ap (λ v. v ++ x ∷ chunk) c, omega (arith, b, length-append content (x ∷ chunk))));
      },
      refl,
    )

-- The final chunk of an upload that has room for it commits the whole file.
write_chunk-last :
    (id : String) (name content chunk : Bytes) (u : UploadState) (d : Dropzone)
    → find (has_id id) d.uploads ≡ some u
    → (u.final_name ≡ name) × ((u.content ≡ content) × (u.bytes ≡ length content))
    → length content + length chunk ≤ 104857600
    → let (ack, d') = write_chunk u chunk true all_well d in
      (ack ≡ some (record { request_id = id; error = none }))
      × (d'.committed ≡ (name, content ++ chunk) ∷ d.committed)
unfolding write_chunk finish_chunk drop_upload
write_chunk-last id name content [] u d f (n, (c, b)) room =
    let same : u.id ≡ id = ground (arith, find-passes (has_id id) d.uploads u f, eq_iff u.id id) in
    (ground (arith, same), rw (n, c, append-nil content) refl)
write_chunk-last id name content (x ∷ chunk) u d f (n, (c, b)) room =
    let small : ltb 104857600 (u.bytes + length (x ∷ chunk)) ≡ false = ground (arith, b, room) in
    let same : u.id ≡ id = ground (arith, find-passes (has_id id) d.uploads u f, eq_iff u.id id) in
    rw small (ground (arith, same), ground (arith, n, c))

-- The next chunk of the id goes to an upload with this name and content.
record Ready (id : String) (filename name content : Bytes) (d : Dropzone) : Type 0 where
  state : UploadState
  before : Dropzone
  found : find (has_id id) before.uploads ≡ some state
  is : (state.final_name ≡ name) × ((state.content ≡ content) × (state.bytes ≡ length content))
  runs :
      (chunk : Bytes) (done : Bool)
      → handle_chunk id filename chunk done all_well d
        ≡ write_chunk state chunk done all_well before
  kept : before.committed ≡ d.committed

At-Ready :
    (id : String) (filename name content : Bytes) (d : Dropzone)
    → At id name content d
    → Ready id filename name content d
unfolding handle_chunk chunk_found
At-Ready id filename name content d a = record {
  state = a.state;
  before = d;
  found = a.found;
  is = a.is;
  kept = refl;
  runs = λ chunk done. rw a.found refl;
}

send_all-Ready :
    (id : String) (filename name content : Bytes) (cs : List Bytes) (last : Bytes) (d : Dropzone)
    → Ready id filename name content d
    → length content + length (concat cs last) ≤ 104857600
    → let (ack, d') = send_all id filename cs last d in
      (ack ≡ some (record { request_id = id; error = none }))
      × (d'.committed ≡ (name, content ++ concat cs last) ∷ d.committed)
unfolding send_all
send_all-Ready id filename name content [] last d r room =
    let (ack, committed) =
      write_chunk-last id name content last r.state r.before r.found r.is room in
    (
      ap (λ p. p.0) (r.runs last true) ∙ ack,
      ap (λ p. p.1.committed) (r.runs last true)
          ∙ (committed ∙ ap (λ f. (name, content ++ last) ∷ f) r.kept),
    )
send_all-Ready id filename name content (c ∷ cs) last d r room =
    let (under_way, committed) =
      write_chunk-At id name content c r.state r.before r.found r.is
        (omega (arith, room, length-append c (concat cs last))) in
    let d1 = (handle_chunk id filename c false all_well d).1 in
    let at : At id name (content ++ c) d1 =
      subst (λ p. At id name (content ++ c) p.1) (sym (r.runs c false)) under_way in
    let (ack, done) =
      send_all-Ready id filename name (content ++ c) cs last d1
        (At-Ready id filename name (content ++ c) d1 at)
        (omega (arith, room, length-append content c, length-append c (concat cs last))) in
    let same : d1.committed ≡ d.committed =
      ap (λ p. p.1.committed) (r.runs c false) ∙ (committed ∙ r.kept) in
    (
      ack,
      done
          ∙ (ap (λ f. (name, f) ∷ d1.committed) (append_assoc content c (concat cs last))
              ∙ ap (λ f. (name, content ++ (c ++ concat cs last)) ∷ f) same),
    )

fresh_state : String → Bytes → Dropzone → UploadState
fresh_state id filename d = record {
  id = id;
  content = [];
  bytes = 0;
  final_name = sanitize_filename filename;
  lease = d.budget.issued;
}

open_new_upload-admitted :
    (id : String) (filename : Bytes) (d : Dropzone)
    → length d.uploads < 10
    → is_empty filename ≡ false
    → is_empty (sanitize_filename filename) ≡ false
    → d.budget.maintenance ≡ false
    → d.budget.activities < 128
    → open_new_upload id filename true d
      ≡ admitted (fresh_state id filename d) (acquire_activity d.budget).1
unfolding open_new_upload open_admitted acquire_activity fresh_state
open_new_upload-admitted id filename d few named safe quiet room = ground arith

fresh-Ready :
    (id : String) (filename : Bytes) (d : Dropzone)
    → find (has_id id) d.uploads ≡ none
    → length d.uploads < 10
    → is_empty filename ≡ false
    → is_empty (sanitize_filename filename) ≡ false
    → d.budget.maintenance ≡ false
    → d.budget.activities < 128
    → Ready id filename (sanitize_filename filename) [] d
unfolding handle_chunk chunk_found chunk_opened fresh_state
fresh-Ready id filename d new few named safe quiet room =
    let u = fresh_state id filename d in
    let b : Budget = (acquire_activity d.budget).1 in
    record {
      state = u;
      before = record d { uploads = d.uploads ++ u ∷ []; budget = b };
      found = find-append (has_id id) d.uploads u new (ground (arith, eq_iff id id));
      is = (refl, (refl, refl));
      runs = λ chunk done.
          rw (new, open_new_upload-admitted id filename d few named safe quiet room) refl;
      kept = refl;
    }

-- The round trip of an upload: for an id that is not under way, with fewer than ten uploads, a budget
-- that admits an activity, a name that survives sanitising, and chunks of at most 100 MB together,
-- when every system call succeeds, the last chunk is acknowledged as a success, and the file that is
-- committed under the sanitised name is exactly the chunks in order.
pub send_all_lem :
    (id : String) (filename : Bytes) (cs : List Bytes) (last : Bytes) (d : Dropzone)
    → find (has_id id) d.uploads ≡ none
    → length d.uploads < 10
    → is_empty filename ≡ false
    → is_empty (sanitize_filename filename) ≡ false
    → d.budget.maintenance ≡ false
    → d.budget.activities < 128
    → length (concat cs last) ≤ 104857600
    → let (ack, d') = send_all id filename cs last d in
      (ack ≡ some (record { request_id = id; error = none }))
      × (d'.committed ≡ (sanitize_filename filename, concat cs last) ∷ d.committed)
send_all_lem id filename cs last d new few named safe quiet room size =
    send_all-Ready id filename (sanitize_filename filename) [] cs last d
      (fresh-Ready id filename d new few named safe quiet room) (omega (arith, size))
