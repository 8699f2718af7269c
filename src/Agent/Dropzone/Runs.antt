-- ===== src/Agent/Dropzone/Runs.antt =====
-- The operations of the upload area as a whole.
use Prim.Native.String.{String}
use text.Mathlib.TextEquality.{eq_iff}
use veyport.Base.{
  ℕ, ◌+◌, ◌≤◌, ◌<◌, ◌≡◌, refl, leb, Bool, true, false, not, Option, none, some, List, [], ◌∷◌,
  arith, any, count_where, length, select, find, inl, inr, Bool-cases, find-passes, find-append,
  subst, sym, ap, ◌∙◌, count_where-any,
}
use veyport.Agent.Budget.{Budget, is_held, acquire_activity, release_activity}
use veyport.Agent.Budget.Admission.{
  Balanced, release_activity-Balanced, activities-release_activity,
}
use veyport.Agent.Dropzone.{
  Bytes, is_empty, UploadState, Dropzone, Os, has_id, new, drop_upload, open_admitted,
  open_new_upload, chunk_opened, chunk_found, handle_chunk, drop_all, cleanup, abort_found, abort,
  sanitize_filename,
}
use veyport.Agent.Dropzone.Names.{sanitize_filename_lem}
use veyport.Agent.Dropzone.Uploads.{Inv, drop_upload-Inv, release_activity-held, loose, escapes}
use veyport.Agent.Dropzone.Writing.{write_chunk-Inv, added-Inv, acquired, loose-more, lease-fresh}

-- The budget may change as long as it is balanced and holds the leases of the uploads.
pub budget-Inv :
    (b : Budget) (d : Dropzone)
    → Inv d
    → Balanced b
    → any (loose b.held) d.uploads ≡ false
    → Inv (record d { budget = b })
budget-Inv b d i ok held = record {
  few = i.few;
  sized = i.sized;
  unique = i.unique;
  leased = held;
  distinct = i.distinct;
  named = i.named;
  placed = i.placed;
  balanced = ok;
}

refused-budget : (b b' : Budget) → acquire_activity b ≡ (none, b') → b' ≡ b
unfolding acquire_activity
refused-budget b b' got = ground arith

open_admitted-Inv :
    (id : String) (safe : Bytes) (created : Bool) (os : Os) (r : Option ℕ × Budget) (chunk : Bytes)
    (done : Bool) (d : Dropzone)
    → Inv d
    → find (has_id id) d.uploads ≡ none
    → length d.uploads < 10
    → escapes safe ≡ false
    → acquire_activity d.budget ≡ r
    → Inv (chunk_opened id (open_admitted id safe created r) chunk done os d).1
unfolding open_admitted chunk_opened
open_admitted-Inv id safe created os (none, b) chunk done d i new few ok got =
    rw (refused-budget d.budget b got) i
open_admitted-Inv id safe false os (some lease, b) chunk done d i new few ok got =
    let (fresh, (held, grown)) = acquired lease b d.budget i.balanced got in
    let clear = lease-fresh lease d.budget.held d.uploads fresh i.leased in
    budget-Inv (release_activity lease b) d i (release_activity-Balanced lease b grown) (
      release_activity-held lease b d.uploads clear
        (rw held (loose-more lease d.budget.held d.uploads i.leased)))
open_admitted-Inv id safe true os (some lease, b) chunk done d i new few ok got =
    let u : UploadState = record {
      id = id;
      content = [];
      bytes = 0;
      final_name = safe;
      lease = lease;
    } in
    write_chunk-Inv u chunk done os _ (added-Inv id safe lease b d i new few ok got)
      (find-append (has_id id) d.uploads u new (ground (arith, eq_iff id id)))

found_self :
    (id : String) (u : UploadState) (us : List UploadState)
    → find (has_id id) us ≡ some u
    → find (has_id u.id) us ≡ some u
found_self id u us f =
    let same : u.id ≡ id = ground (arith, find-passes (has_id id) us u f, eq_iff u.id id) in
    subst (λ j. find (has_id j) us ≡ some u) (sym same) f

safe-name :
    (name : Bytes)
    → is_empty (sanitize_filename name) ≡ false
    → escapes (sanitize_filename name) ≡ false
safe-name name h = ground (arith, (sanitize_filename_lem name).0)

open_new_upload-Inv :
    (id : String) (filename chunk : Bytes) (done : Bool) (os : Os) (d : Dropzone)
    → Inv d
    → find (has_id id) d.uploads ≡ none
    → Inv (chunk_opened id (open_new_upload id filename os.opened d) chunk done os d).1
unfolding open_new_upload chunk_opened
open_new_upload-Inv id filename chunk done os d i new =
    elim (Bool-cases (leb 10 (length d.uploads))) [
      | inl many ↦ rw many i
      | inr few ↦ elim (Bool-cases (is_empty filename)) [
        | inl unnamed ↦ rw (few, unnamed) i
        | inr named ↦ elim (Bool-cases (is_empty (sanitize_filename filename))) [
          | inl unsafe ↦ rw (few, named, unsafe) i
          | inr safe ↦
              rw (few, named, safe)
                (open_admitted-Inv id (sanitize_filename filename) os.opened os
                  (acquire_activity d.budget) chunk done d i new (ground arith)
                  (safe-name filename safe) refl)
        ]
      ]
    ]

chunk_found-Inv :
    (id : String) (filename : Bytes) (o : Option UploadState) (chunk : Bytes) (done : Bool)
    (os : Os) (d : Dropzone)
    → Inv d
    → find (has_id id) d.uploads ≡ o
    → Inv (chunk_found id filename o chunk done os d).1
unfolding chunk_found
chunk_found-Inv id filename none chunk done os d i f =
    open_new_upload-Inv id filename chunk done os d i f
chunk_found-Inv id filename (some u) chunk done os d i f =
    write_chunk-Inv u chunk done os d i (found_self id u d.uploads f)

pub handle_chunk-Inv :
    (id : String) (filename chunk : Bytes) (done : Bool) (os : Os) (d : Dropzone)
    → Inv d
    → Inv (handle_chunk id filename chunk done os d).1
unfolding handle_chunk
handle_chunk-Inv id filename chunk done os d i =
    chunk_found-Inv id filename (find (has_id id) d.uploads) chunk done os d i refl

abort_found-Inv :
    (id : String) (o : Option UploadState) (clean : Bool) (d : Dropzone)
    → Inv d
    → find (has_id id) d.uploads ≡ o
    → Inv (abort_found id o clean d).1
unfolding abort_found
abort_found-Inv id none clean d i f = i
abort_found-Inv id (some u) clean d i f = drop_upload-Inv u d i (found_self id u d.uploads f)

pub abort-Inv : (id : String) (clean : Bool) (d : Dropzone) → Inv d → Inv (abort id clean d).1
unfolding abort
abort-Inv id clean d i = abort_found-Inv id (find (has_id id) d.uploads) clean d i refl

select-none :
    (p : UploadState → Bool) (us : List UploadState)
    → any p us ≡ false
    → select (λ u. not (p u)) us ≡ us
unfolding any select
select-none p [] h = refl
select-none p (u ∷ us) h = ground (arith, select-none p us)

first-alone :
    (u : UploadState) (us : List UploadState)
    → count_where (has_id u.id) (u ∷ us) ≤ 1
    → select (λ v. not (has_id u.id v)) (u ∷ us) ≡ us
unfolding count_where select
first-alone u us h =
    ground (arith, eq_iff u.id u.id, count_where-any (has_id u.id) us, select-none (has_id u.id) us)

first-held :
    (held : List ℕ) (u : UploadState) (us : List UploadState)
    → any (loose held) (u ∷ us) ≡ false
    → is_held u.lease held ≡ true
unfolding any
first-held held u us h = ground arith

first-found : (u : UploadState) (us : List UploadState) → find (has_id u.id) (u ∷ us) ≡ some u
unfolding find
first-found u us = ground (arith, eq_iff u.id u.id)

drop_upload-uploads :
    (u : UploadState) (us : List UploadState) (d : Dropzone)
    → Inv d
    → d.uploads ≡ u ∷ us
    → (drop_upload u d).uploads ≡ us
unfolding drop_upload
drop_upload-uploads u us d i e =
    ap (λ vs. select (λ v. not (has_id u.id v)) vs) e
    ∙ first-alone u us (subst (λ vs. count_where (has_id u.id) vs ≤ 1) e (i.unique u.id))

drop_upload-activities :
    (u : UploadState) (us : List UploadState) (d : Dropzone)
    → Inv d
    → d.uploads ≡ u ∷ us
    → (drop_upload u d).budget.activities + 1 ≡ d.budget.activities
unfolding drop_upload
drop_upload-activities u us d i e =
    activities-release_activity u.lease d.budget i.balanced (
      first-held d.budget.held u us (subst (λ vs. any (loose d.budget.held) vs ≡ false) e i.leased))

drop_upload-committed : (u : UploadState) (d : Dropzone) → (drop_upload u d).committed ≡ d.committed
unfolding drop_upload
drop_upload-committed u d = refl

pub drop_all-facts :
    (us : List UploadState) (d : Dropzone)
    → Inv d
    → d.uploads ≡ us
    → let d' = drop_all us d in
      Inv d'
      × ((d'.uploads ≡ [])
          × ((d'.budget.activities + length us ≡ d.budget.activities)
              × (d'.committed ≡ d.committed)))
unfolding drop_all
drop_all-facts [] d i e = (i, (e, (omega arith, refl)))
drop_all-facts (u ∷ us) d i e =
    let there : find (has_id u.id) d.uploads ≡ some u =
      subst (λ vs. find (has_id u.id) vs ≡ some u) (sym e) (first-found u us) in
    let (i', (none_left, (count, kept))) =
      drop_all-facts us (drop_upload u d) (drop_upload-Inv u d i there)
        (drop_upload-uploads u us d i e) in
    (
      i',
      (
        none_left,
        (omega (arith, count, drop_upload-activities u us d i e), kept ∙ drop_upload-committed u d),
      ),
    )

-- A cleanup drops every upload, gives back exactly as many activities as there were uploads, and
-- commits nothing.
pub cleanup_lem :
    (d : Dropzone)
    → Inv d
    → let d' = cleanup d in
      (d'.uploads ≡ [])
      × ((d'.budget.activities + length d.uploads ≡ d.budget.activities)
          × (d'.committed ≡ d.committed))
unfolding cleanup
cleanup_lem d i = (drop_all-facts d.uploads d i refl).1
