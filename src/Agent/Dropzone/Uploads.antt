-- ===== src/Agent/Dropzone/Uploads.antt =====
-- The invariant of the upload area, and that an upload that is dropped keeps it.
use Prim.Native.String.{String}
use veyport.Base.{
  ℕ, ◌≤◌, ◌<◌, ◌≡◌, ◌≢◌, ◌==◌, refl, leb, ltb, Bool, true, false, ◌||◌, ◌&&◌, not, some, List, [],
  ◌∷◌, arith, any, count_where, length, select, find, any-select, length-select,
}
use veyport.Base.Counts.{count_where-select_le}
use veyport.Agent.Budget.{Budget, is_held, release_activity, notify_activity}
use veyport.Agent.Budget.Admission.{Balanced, release_activity-Balanced}
use veyport.Agent.Dropzone.{Bytes, is_empty, UploadState, Dropzone, has_id, drop_upload}
use veyport.Agent.Dropzone.Names.{is_slash}

abbrev pub has_lease : ℕ → UploadState → Bool
has_lease l u = u.lease == l

-- An upload whose count is not the size of its file, or is over the limit.
abbrev pub missized : UploadState → Bool
missized u = not (u.bytes == length u.content && leb u.bytes 104857600)

abbrev pub loose : List ℕ → UploadState → Bool
loose held u = not (is_held u.lease held)

abbrev pub escapes : Bytes → Bool
escapes name = is_empty name || any is_slash name

abbrev pub misplaced : Bytes × Bytes → Bool
misplaced (name, content) = escapes name || ltb 104857600 (length content)

pub record Inv (d : Dropzone) : Type 0 where
  pub few : length d.uploads ≤ 10
  pub sized : any missized d.uploads ≡ false
  pub unique : (id : String) → count_where (has_id id) d.uploads ≤ 1
  pub leased : any (loose d.budget.held) d.uploads ≡ false
  pub distinct : (l : ℕ) → count_where (has_lease l) d.uploads ≤ 1
  pub named : any (λ u. escapes u.final_name) d.uploads ≡ false
  pub placed : any misplaced d.committed ≡ false
  pub balanced : Balanced d.budget

rest-none :
    (p keep : UploadState → Bool) (us : List UploadState)
    → count_where p us ≡ 0
    → any p (select (λ v. not (keep v)) us) ≡ false
unfolding count_where select any
rest-none p keep [] h = refl
rest-none p keep (u ∷ us) h = ground (arith, rest-none p keep us)

is_held-select :
    (m l : ℕ) (held : List ℕ) → m ≢ l → is_held m (select (λ n. not (n == l)) held) ≡ is_held m held
unfolding any select
is_held-select m l [] d = refl
is_held-select m l (n ∷ held) d = ground (arith, is_held-select m l held)

found-count :
    (p q : UploadState → Bool) (us : List UploadState) (u : UploadState)
    → find p us ≡ some u
    → q u ≡ true
    → 0 < count_where q us
unfolding find count_where
found-count p q [] u f h = ground arith
found-count p q (v ∷ us) u f h = ground (arith, found-count p q us u)

-- The uploads that stay have other leases than the one that goes.
rest-lease :
    (id : String) (u : UploadState) (us : List UploadState)
    → find (has_id id) us ≡ some u
    → count_where (has_lease u.lease) us ≤ 1
    → any (has_lease u.lease) (select (λ v. not (has_id id v)) us) ≡ false
unfolding find count_where select any
rest-lease id u [] f h = refl
rest-lease id u (v ∷ us) f h = ground (
  arith,
  rest-lease id u us,
  rest-none (has_lease u.lease) (has_id id) us,
  found-count (has_id id) (has_lease u.lease) us u,
)

held-other :
    (l : ℕ) (held : List ℕ) (us : List UploadState)
    → any (has_lease l) us ≡ false
    → any (loose held) us ≡ false
    → any (loose (select (λ m. not (m == l)) held)) us ≡ false
unfolding any
held-other l held [] h e = refl
held-other l held (u ∷ us) h e = ground (arith, held-other l held us, is_held-select u.lease l held)

pub release_activity-held :
    (l : ℕ) (b : Budget) (us : List UploadState)
    → any (has_lease l) us ≡ false
    → any (loose b.held) us ≡ false
    → any (loose (release_activity l b).held) us ≡ false
unfolding release_activity notify_activity
release_activity-held l b us h e = ground (arith, held-other l b.held us h e)

pub drop_upload-Inv :
    (u : UploadState) (d : Dropzone)
    → Inv d
    → find (has_id u.id) d.uploads ≡ some u
    → Inv (drop_upload u d)
unfolding drop_upload
drop_upload-Inv u d i f =
    let keep = λ (v : UploadState). not (has_id u.id v) in
    record {
      few = omega (arith, i.few, length-select (has_id u.id) d.uploads);
      sized = any-select _ keep d.uploads i.sized;
      unique = λ id. omega (arith, i.unique id, count_where-select_le (has_id id) keep d.uploads);
      leased =
          release_activity-held u.lease d.budget _
            (rest-lease u.id u d.uploads f (i.distinct u.lease))
            (any-select _ keep d.uploads i.leased);
      distinct =
          λ l. omega (arith, i.distinct l, count_where-select_le (has_lease l) keep d.uploads);
      named = any-select _ keep d.uploads i.named;
      placed = i.placed;
      balanced = release_activity-Balanced u.lease d.budget i.balanced;
    }
