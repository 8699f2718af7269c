-- ===== src/Terminal/Revocation.antt =====
-- A revoked shell stays silent.
use Prim.Native.String.{String}
use veyport.Base.{
  ℕ, ◌==◌, ◌≡◌, ◌∙◌, refl, sym, subst, Bool, true, false, ◌&&◌, not, some, List, [], ◌∷◌, arith,
  find, any, is_some, map, select, Bool-cases, inl, inr, find-passes, find-any, find-update_where,
}
use veyport.Base.Int.{ℤ}
use veyport.Base.Text.{Text}
use veyport.Relay.Keys.{make_key, eq_text_iff}
use veyport.Terminal.Shells.{Shell, Registry, at_key, is_shell, write}
use veyport.Terminal.Ending.{
  end_locked, end_exact, end_interactive_and_close, end_session, end_each, end_captured_one,
  captured, is_current, stop_credential_watch,
}
use veyport.Terminal.Later.{Later, Laters, both, is_good}
use veyport.Terminal.Books.{Orderly, Quiet, Quiet-Orderly, unique_keys}
use veyport.Terminal.Quiet.{
  end_exact-Quiet, close_interactive-Quiet, end_each-Quiet, captured_one-Quiet, end_locked-Later,
}

-- The registration behind a pointer has been revoked.
unfoldable pub Revoked : ℕ → Registry → Type 0
Revoked id t = (s : Shell) × ((find (is_shell id) t.shells ≡ some s) × (is_some s.exit ≡ true))

-- What a search by pointer finds, before and after.
pub find-Laters :
    (id : ℕ) (ss ss' : List Shell) (s : Shell)
    → Laters ss ss'
    → find (is_shell id) ss ≡ some s
    → (s' : Shell) × ((find (is_shell id) ss' ≡ some s') × Later s s')
unfolding find
find-Laters id [] [] s l e = ground arith
find-Laters id [] (y ∷ b) s l e = elim l [ ]
find-Laters id (x ∷ a) [] s l e = elim l [ ]
find-Laters id (x ∷ a) (y ∷ b) s (both l ls) e = elim (Bool-cases (is_shell id x)) [
  | inl c ↦ (y, (ground (arith, l.id), let same : x ≡ s = ground arith in rw (sym same) l))
  | inr c ↦
      let (s', (f, m)) = find-Laters id a b s ls (ground arith) in (s', (ground (arith, l.id), m))
]

pub Revoked-Quiet : (id : ℕ) (t t' : Registry) → Quiet t t' → Revoked id t → Revoked id t'
unfolding Revoked
Revoked-Quiet id t t' q (s, (e, x)) =
    let (s', (e', l)) = find-Laters id t.shells t'.shells s q.laters e in (s', (e', l.exit x))

at_own_key : (s : Shell) → s.removed ≡ false → at_key s.server_id s.session_id s ≡ true
unfolding at_key
at_own_key s h =
    ground
      (arith, eq_text_iff (make_key s.server_id s.session_id) (make_key s.server_id s.session_id))

at_key-other :
    (s x : Shell)
    → s.removed ≡ false
    → at_key x.server_id x.session_id s ≡ false
    → at_key s.server_id s.session_id x ≡ false
unfolding at_key
at_key-other s x h e = ground (
  arith,
  eq_text_iff (make_key s.server_id s.session_id) (make_key x.server_id x.session_id),
  eq_text_iff (make_key x.server_id x.session_id) (make_key s.server_id s.session_id),
)

removed-unkeyed :
    (server session : Text) (x : Shell) → x.removed ≡ true → at_key server session x ≡ false
unfolding at_key
removed-unkeyed server session x h = ground arith

-- The registration of the map that a pointer names is the one that its key names.
pub find-current :
    (p : Shell → Bool) (s : Shell) (ss : List Shell)
    → unique_keys ss ≡ true
    → find p ss ≡ some s
    → s.removed ≡ false
    → find (at_key s.server_id s.session_id) ss ≡ some s
unfolding unique_keys find
find-current p s [] k e h = ground arith
find-current p s (x ∷ ss) k e h = elim (Bool-cases (p x)) [
  | inl c ↦ let same : x ≡ s = ground arith in rw (same, at_own_key s h) refl
  | inr c ↦
      let rest : find p ss ≡ some s = ground arith in
      let away : at_key s.server_id s.session_id x ≡ false = elim (Bool-cases x.removed) [
        | inl d ↦ removed-unkeyed s.server_id s.session_id x d
        | inr d ↦
            at_key-other s x h
              (find-any p (at_key x.server_id x.session_id) ss s rest (ground arith))
      ] in
      rw away (find-current p s ss (ground arith) rest h)
]

pub current :
    (id : ℕ) (s : Shell) (t : Registry)
    → Orderly t
    → find (is_shell id) t.shells ≡ some s
    → s.removed ≡ false
    → is_current s t ≡ true
current id s t i e h =
    rw (is_current, find-current (is_shell id) s t.shells i.keys e h) (ground arith)

forced-revokes :
    (code : ℤ) (message : String) (s : Shell)
    → is_some (end_locked code message true s).1.exit ≡ true
unfolding end_locked stop_credential_watch
forced-revokes code message s = ground arith

pub find-write :
    (id : ℕ) (f : Shell → Shell) (s : Shell) (t : Registry)
    → find (is_shell id) t.shells ≡ some s
    → ((x : Shell) → (f x).id ≡ x.id)
    → find (is_shell id) (write s.id f t).shells ≡ some (f s)
unfolding write
find-write id f s t e k =
    find-update_where (is_shell id) (is_shell s.id) f t.shells (some s) (λ x. ground (arith, k x)) e
    ∙ ground arith

pub find-write_at :
    (id : ℕ) (f : Shell → Shell) (s : Shell) (t : Registry)
    → find (is_shell id) t.shells ≡ some s
    → ((x : Shell) → (f x).id ≡ x.id)
    → find (is_shell id) (write id f t).shells ≡ some (f s)
find-write_at id f s t e k =
    let same : s.id ≡ id = ground (arith, find-passes (is_shell id) t.shells s e) in
    subst (λ j. find (is_shell id) (write j f t).shells ≡ some (f s)) same (find-write id f s t e k)

-- A forced end revokes the registration that it finds in the map.
end_exact-Revoked :
    (id : ℕ) (code : ℤ) (message : String) (s : Shell) (t : Registry)
    → Orderly t
    → find (is_shell id) t.shells ≡ some s
    → s.removed ≡ false
    → Revoked id (end_exact id code message true t).1
unfolding end_exact Revoked
end_exact-Revoked id code message s t i e h =
    let f = λ (x : Shell). (end_locked code message true x).1 in
    rw (e, current id s t i e h)
      (
        f s,
        (
          find-write id f s t e (λ x. (end_locked-Later code message true x).id),
          forced-revokes code message s,
        ),
      )

pub end_interactive_and_close-Revoked :
    (id : ℕ) (code : ℤ) (message : String) (s : Shell) (t : Registry)
    → Orderly t
    → find (is_shell id) t.shells ≡ some s
    → s.removed ≡ false
    → Revoked id (end_interactive_and_close id code message t).1
unfolding end_interactive_and_close
end_interactive_and_close-Revoked id code message s t i e h =
    let r = end_exact id code message true t in
    let done = end_exact-Revoked id code message s t i e h in
    elim (Bool-cases r.0) [
      | inr c ↦ rw c done
      | inl c ↦ rw c (
          Revoked-Quiet id r.1 _
            (close_interactive-Quiet id r.1
              (Quiet-Orderly t r.1 (end_exact-Quiet id code message true t i) i))
            done)
    ]

pub removed-revoked : (s : Shell) → is_good s ≡ true → s.removed ≡ true → is_some s.exit ≡ true
removed-revoked s g h = ground arith

-- Whatever registration a captured pointer names is revoked by its turn of the loop.
captured_one-Revoked :
    (id : ℕ) (code : ℤ) (message : String) (s : Shell) (t : Registry)
    → Orderly t
    → find (is_shell id) t.shells ≡ some s
    → Revoked id (end_captured_one code message t (some s)).1
unfolding end_session Revoked
captured_one-Revoked id code message s t i e =
    let own : s.id ≡ id = ground (arith, find-passes (is_shell id) t.shells s e) in
    elim (Bool-cases s.removed) [
      | inl h ↦
          let good = find-any (is_shell id) (λ x. not (is_good x)) t.shells s e i.good in
          Revoked-Quiet id t _ (captured_one-Quiet code message t (some s) i)
            (s, (e, removed-revoked s (ground arith) h))
      | inr h ↦ elim (Bool-cases (is_some s.interactive)) [
        | inl c ↦ rw (c, own) (end_interactive_and_close-Revoked id code message s t i e h)
        | inr c ↦
            rw (c, find-current (is_shell id) s t.shells i.keys e h, c, own)
              (end_exact-Revoked id code message s t i e h)
      ]
    ]

pub end_each-Revoked :
    (id : ℕ) (code : ℤ) (message : String) (ids : List ℕ) (s : Shell) (t : Registry)
    → Orderly t
    → find (is_shell id) t.shells ≡ some s
    → any (λ j. j == id) ids ≡ true
    → Revoked id (end_each code message ids t).1
unfolding end_each any
end_each-Revoked id code message [] s t i e h = ground arith
end_each-Revoked id code message (j ∷ ids) s t i e h =
    let q = captured_one-Quiet code message t (find (is_shell j) t.shells) i in
    let i' = Quiet-Orderly t _ q i in
    elim (Bool-cases (j == id)) [
      | inl c ↦
          let same : j ≡ id = ground arith in
          Revoked-Quiet id _ _ (end_each-Quiet code message ids _ i')
            (rw (same, e) (captured_one-Revoked id code message s t i e))
      | inr c ↦
          let (s', (e', l)) = find-Laters id t.shells _ s q.laters e in
          end_each-Revoked id code message ids s' _ i' e' (ground arith)
    ]

pub captured-any :
    (test p : Shell → Bool) (id : ℕ) (ss : List Shell) (s : Shell)
    → find p ss ≡ some s
    → s.id ≡ id
    → s.removed ≡ false
    → test s ≡ true
    → any (λ j. j == id) (map (λ x. x.id) (select (λ x. not x.removed && test x) ss)) ≡ true
unfolding find any select
captured-any test p id [] s e own h k = ground arith
captured-any test p id (x ∷ ss) s e own h k = elim (Bool-cases (p x)) [
  | inl c ↦
      let same : x ≡ s = ground arith in
      let in_loop : (not x.removed && test x) ≡ true = rw same (ground arith) in
      let here : (x.id == id) ≡ true = rw same (ground arith) in rw in_loop (ground arith)
  | inr c ↦
      let rest = captured-any test p id ss s (ground arith) own h k in
      elim (Bool-cases (not x.removed && test x)) [
        | inl d ↦ rw d (ground arith)
        | inr d ↦ rw d rest
      ]
]

-- The loop over what a test captures revokes every registration that passes the test.
pub captured-Revoked :
    (test : Shell → Bool) (id : ℕ) (code : ℤ) (message : String) (s : Shell) (t : Registry)
    → Orderly t
    → find (is_shell id) t.shells ≡ some s
    → test s ≡ true
    → Revoked id (end_each code message (captured test t) t).1
unfolding captured Revoked
captured-Revoked test id code message s t i e k =
    let own : s.id ≡ id = ground (arith, find-passes (is_shell id) t.shells s e) in
    elim (Bool-cases s.removed) [
      | inl h ↦
          let good = find-any (is_shell id) (λ x. not (is_good x)) t.shells s e i.good in
          Revoked-Quiet id t _ (end_each-Quiet code message (captured test t) t i)
            (s, (e, removed-revoked s (ground arith) h))
      | inr h ↦
          end_each-Revoked id code message (captured test t) s t i e
            (captured-any test (is_shell id) id t.shells s e own h k)
    ]
