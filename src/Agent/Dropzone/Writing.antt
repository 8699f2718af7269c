-- ===== src/Agent/Dropzone/Writing.antt =====
-- A chunk that is written, and an upload that is opened, keep the invariant.
use Prim.Native.String.{String}
use text.Mathlib.TextEquality.{eq_iff}
use veyport.Base.{
  ℕ, ◌+◌, ◌≤◌, ◌<◌, ◌≡◌, refl, ltb, Bool, true, false, none, some, List, [], ◌∷◌, ◌++◌, arith, any,
  any-append, count_where, length, find, update_where, inl, inr, Bool-cases, length-append,
  length-update_where, find-passes, find-any, find-none, find-update_where, count_where-none,
  update_where-none, count_where-any, count_where-update_where, any-update_where_keep, ◌∙◌, subst,
}
use veyport.Base.Counts.{count_where-append}
use veyport.Agent.Budget.{Budget, is_held, acquire_activity, notify_activity}
use veyport.Agent.Budget.Admission.{Balanced, acquire_activity-Balanced}
use veyport.Agent.Dropzone.{
  Bytes, is_empty, UploadState, Dropzone, Os, has_id, finish_chunk, write_chunk, written,
}
use veyport.Agent.Dropzone.Uploads.{Inv, drop_upload-Inv, escapes, has_lease, loose, missized}

finish_chunk-Inv :
    (u : UploadState) (done renamed : Bool) (d : Dropzone)
    → Inv d
    → find (has_id u.id) d.uploads ≡ some u
    → Inv (finish_chunk u done renamed d).1
unfolding finish_chunk any
finish_chunk-Inv u false renamed d i f = i
finish_chunk-Inv u true renamed d i f =
    let dropped = drop_upload-Inv u d i f in
    elim (Bool-cases renamed) [
      | inr failed ↦ rw failed dropped
      | inl moved ↦ rw moved (record {
        few = dropped.few;
        sized = dropped.sized;
        unique = dropped.unique;
        leased = dropped.leased;
        distinct = dropped.distinct;
        named = dropped.named;
        balanced = dropped.balanced;
        placed = ground (
          arith,
          i.placed,
          find-any (has_id u.id) missized d.uploads u f i.sized,
          find-any (has_id u.id) (λ v. escapes v.final_name) d.uploads u f i.named,
        );
      })
    ]

updated-sized :
    (id : String) (u : UploadState) (f : UploadState → UploadState) (us : List UploadState)
    → find (has_id id) us ≡ some u
    → count_where (has_id id) us ≤ 1
    → missized (f u) ≡ false
    → any missized us ≡ false
    → any missized (update_where (has_id id) f us) ≡ false
unfolding find count_where any update_where
updated-sized id u f [] at one ok h = h
updated-sized id u f (v ∷ us) at one ok h = elim (Bool-cases (has_id id v)) [
  | inr other ↦ ground (arith, updated-sized id u f us)
  | inl mine ↦ ground (arith, update_where-none (has_id id) f us, count_where-any (has_id id) us)
]

-- The chunk is written to an upload that has room for it.
written-Inv :
    (u : UploadState) (chunk : Bytes) (d : Dropzone)
    → Inv d
    → find (has_id u.id) d.uploads ≡ some u
    → u.bytes + length chunk ≤ 104857600
    → Inv (record d { uploads = update_where (has_id u.id) (written chunk) d.uploads })
written-Inv u chunk d i f room = record {
  few = omega (arith, i.few, length-update_where (has_id u.id) (written chunk) d.uploads);
  sized =
      updated-sized u.id u (written chunk) d.uploads f (i.unique u.id)
        (ground (
          arith,
          room,
          length-append u.content chunk,
          find-any (has_id u.id) missized d.uploads u f i.sized,
        ))
        i.sized;
  unique = λ id. omega (
    arith,
    i.unique id,
    count_where-update_where (has_id id) (has_id id) (has_id u.id) (written chunk) d.uploads
        (λ v. ground arith),
  );
  leased =
      any-update_where_keep (has_id u.id) (loose d.budget.held) (written chunk) d.uploads
        (λ v. refl)
      ∙ i.leased;
  distinct = λ l. omega (
    arith,
    i.distinct l,
    count_where-update_where (has_lease l) (has_lease l) (has_id u.id) (written chunk) d.uploads
        (λ v. ground arith),
  );
  named =
      any-update_where_keep (has_id u.id) (λ v. escapes v.final_name) (written chunk) d.uploads
        (λ v. refl)
      ∙ i.named;
  placed = i.placed;
  balanced = i.balanced;
}

pub find-written :
    (u : UploadState) (chunk : Bytes) (us : List UploadState)
    → find (has_id u.id) us ≡ some u
    → find (has_id u.id) (update_where (has_id u.id) (written chunk) us) ≡ some (written chunk u)
find-written u chunk us f =
    find-update_where (has_id u.id) (has_id u.id) (written chunk) us (some u) (λ v. refl) f
    ∙ rw (find-passes (has_id u.id) us u f) refl

is_held-same : (m l : ℕ) (held : List ℕ) → m ≡ l → is_held m held ≡ is_held l held
is_held-same m l held e = rw e refl

-- What an admission gives: a lease that no upload has.
pub acquired :
    (lease : ℕ) (b' b : Budget)
    → Balanced b
    → acquire_activity b ≡ (some lease, b')
    → (is_held lease b.held ≡ false) × ((b'.held ≡ lease ∷ b.held) × Balanced b')
unfolding acquire_activity notify_activity
acquired lease b' b i got =
    let kept : Balanced b' = subst (λ r. Balanced r.1) got (acquire_activity-Balanced b i) in
    (ground (arith, i.known b.issued), (ground arith, kept))

pub lease-fresh :
    (l : ℕ) (held : List ℕ) (us : List UploadState)
    → is_held l held ≡ false
    → any (loose held) us ≡ false
    → any (has_lease l) us ≡ false
unfolding any
lease-fresh l held [] h e = refl
lease-fresh l held (u ∷ us) h e = ground (arith, lease-fresh l held us, is_held-same u.lease l held)

pub loose-more :
    (l : ℕ) (held : List ℕ) (us : List UploadState)
    → any (loose held) us ≡ false
    → any (loose (l ∷ held)) us ≡ false
unfolding any
loose-more l held [] e = refl
loose-more l held (u ∷ us) e = ground (arith, loose-more l held us)

pub write_chunk-Inv :
    (u : UploadState) (chunk : Bytes) (done : Bool) (os : Os) (d : Dropzone)
    → Inv d
    → find (has_id u.id) d.uploads ≡ some u
    → Inv (write_chunk u chunk done os d).1
unfolding write_chunk
write_chunk-Inv u chunk done os d i f =
    let dropped = drop_upload-Inv u d i f in
    elim (Bool-cases (is_empty chunk)) [
      | inl none_sent ↦ rw none_sent (finish_chunk-Inv u done os.renamed d i f)
      | inr some_sent ↦ elim (Bool-cases (ltb 104857600 (u.bytes + length chunk))) [
        | inl over ↦ rw (some_sent, over) dropped
        | inr room ↦ elim (Bool-cases os.wrote) [
          | inr failed ↦ rw (some_sent, room, failed) dropped
          | inl wrote ↦
              rw (some_sent, room, wrote)
                (finish_chunk-Inv (written chunk u) done os.renamed _
                  (written-Inv u chunk d i f (ground arith)) (find-written u chunk d.uploads f))
        ]
      ]
    ]

pub added-Inv :
    (id : String) (name : Bytes) (lease : ℕ) (b : Budget) (d : Dropzone)
    → Inv d
    → find (has_id id) d.uploads ≡ none
    → length d.uploads < 10
    → escapes name ≡ false
    → acquire_activity d.budget ≡ (some lease, b)
    → Inv (record d {
      uploads =
          d.uploads
          ++ (record { id = id; content = []; bytes = 0; final_name = name; lease = lease }) ∷ [];
      budget = b;
    })
unfolding any count_where
added-Inv id name lease b d i new few safe got =
    let u : UploadState = record {
      id = id;
      content = [];
      bytes = 0;
      final_name = name;
      lease = lease;
    } in
    let (fresh, (held, grown)) = acquired lease b d.budget i.balanced got in
    record {
      few = omega (arith, few, length-append d.uploads (u ∷ []));
      sized = ground (arith, i.sized, any-append missized d.uploads (u ∷ []));
      unique = λ j. ground (
        arith,
        i.unique j,
        count_where-append (has_id j) d.uploads (u ∷ []),
        eq_iff id j,
        find-none (has_id id) d.uploads new,
        count_where-none (has_id id) d.uploads,
      );
      leased = ground (
        arith,
        held,
        loose-more lease d.budget.held d.uploads i.leased,
        any-append (loose (lease ∷ d.budget.held)) d.uploads (u ∷ []),
      );
      distinct = λ l. ground (
        arith,
        i.distinct l,
        count_where-append (has_lease l) d.uploads (u ∷ []),
        lease-fresh lease d.budget.held d.uploads fresh i.leased,
        count_where-none (has_lease lease) d.uploads,
      );
      named = ground (arith, i.named, any-append (λ v. escapes v.final_name) d.uploads (u ∷ []));
      placed = i.placed;
      balanced = grown;
    }
