-- ===== src/Relay/Totp.antt =====
-- totp_cache.go. `at` is the reading of the clock by the cleanup, after that of the mark.
use veyport.Base.{
  ◌*◌, ◌≡◌, ◌≢◌, refl, Bool, true, false, ◌&&◌, not, List, [], ◌∷◌, arith, if◌then◌else◌, any,
  select, Bool-cases, inl, inr,
}
use veyport.Base.Int.{pos, ltb_ℤ, leb_ℤ, ◌≤ℤ◌, ◌+ℤ◌}
use veyport.Base.Text.{Text}
use veyport.Base.Time.{Instant, second, sub, sub_gt}
use veyport.Relay.Keys.{eq_text, eq_text_iff, make_key}

-- The map `codes`: key "userID:code" to the instant of the mark.
abbrev pub Codes : Type 0
Codes = List (Text × Instant)

abbrev pub for_key : Text → Text × Instant → Bool
for_key k (j, t) = eq_text j k

abbrev pub is_stale : Instant → Text × Instant → Bool
is_stale at (j, t) = ltb_ℤ (pos (90 * second)) (sub at t)

unfoldable pub mark : Text → Instant → Instant → Codes → Codes
mark k now at codes =
    select (λ e. not (is_stale at e)) ((k, now) ∷ select (λ e. not (for_key k e)) codes)

unfoldable pub mark_used : Text → Text → Instant → Instant → Codes → Codes
mark_used user_id code now at codes = mark (make_key user_id code) now at codes

unfoldable pub was_used : Text → Text → Codes → Bool
was_used user_id code codes = any (for_key (make_key user_id code)) codes

unfoldable pub check_and_mark : Text → Text → Instant → Instant → Codes → Bool × Codes
check_and_mark user_id code now at codes =
    let key = make_key user_id code in
    if any (for_key key) codes then (false, codes) else (true, mark key now at codes)

pub data Op : Type 0 where
  use_code check : Text → Text → Instant → Instant → Op

unfoldable pub apply : Op → Codes → Codes
apply (use_code u c now at) codes = mark_used u c now at codes
apply (check u c now at) codes = (check_and_mark u c now at codes).1

unfoldable pub run : List Op → Codes → Codes
run [] codes = codes
run (op ∷ ops) codes = run ops (apply op codes)

-- The operation reads the clock no earlier than `start`, and no more than 90 seconds after it.
unfoldable pub is_during : Instant → Op → Bool
is_during start (use_code u c now at) = leb_ℤ start now && leb_ℤ at (start +ℤ pos (90 * second))
is_during start (check u c now at) = leb_ℤ start now && leb_ℤ at (start +ℤ pos (90 * second))

unfoldable pub all_during : Instant → List Op → Bool
all_during start [] = true
all_during start (op ∷ ops) = is_during start op && all_during start ops

-- The key is marked at some instant from `start` on.
held : Text → Instant → Codes → Bool
held k start codes = any (λ e. for_key k e && leb_ℤ start e.1) codes

held-fresh :
    (k : Text) (start at : Instant) (codes : Codes)
    → at ≤ℤ start +ℤ pos (90 * second)
    → held k start codes ≡ true
    → held k start (select (λ e. not (is_stale at e)) codes) ≡ true
unfolding held any select ◌+ℤ◌
held-fresh k start at [] b h = h
held-fresh k start at ((j, t) ∷ codes) b h =
    ground (arith, held-fresh k start at codes b, sub_gt at t (pos (90 * second)))

held-others :
    (k j : Text) (start : Instant) (codes : Codes)
    → j ≢ k
    → held k start codes ≡ true
    → held k start (select (λ e. not (for_key j e)) codes) ≡ true
unfolding held any select
held-others k j start [] d h = h
held-others k j start ((i, t) ∷ codes) d h =
    ground (arith, held-others k j start codes d, eq_text_iff i k, eq_text_iff i j)

remarked :
    (k j : Text) (start now : Instant) (codes : Codes)
    → start ≤ℤ now
    → held k start codes ≡ true
    → held k start ((j, now) ∷ select (λ e. not (for_key j e)) codes) ≡ true
unfolding held any
remarked k j start now codes n h = elim (Bool-cases (eq_text j k)) [
  | inl same ↦ ground arith
  | inr other ↦ ground (arith, held-others k j start codes (λ e. ground (arith, eq_text_iff j k)) h)
]

first-held :
    (k : Text) (now : Instant) (codes : Codes)
    → held k now ((k, now) ∷ select (λ e. not (for_key k e)) codes) ≡ true
unfolding held any
first-held k now codes = ground (arith, eq_text_iff k k)

mark-held :
    (k j : Text) (start now at : Instant) (codes : Codes)
    → start ≤ℤ now
    → at ≤ℤ start +ℤ pos (90 * second)
    → held k start codes ≡ true
    → held k start (mark j now at codes) ≡ true
unfolding mark
mark-held k j start now at codes n b h =
    held-fresh k start at _ b (remarked k j start now codes n h)

apply-held :
    (k : Text) (start : Instant) (op : Op) (codes : Codes)
    → is_during start op ≡ true
    → held k start codes ≡ true
    → held k start (apply op codes) ≡ true
unfolding apply is_during mark_used check_and_mark
apply-held k start (use_code u c now at) codes d h =
    mark-held k (make_key u c) start now at codes (ground arith) (ground arith) h
apply-held k start (check u c now at) codes d h =
    elim (Bool-cases (any (for_key (make_key u c)) codes)) [
      | inl seen ↦ rw (apply, check_and_mark, seen) h
      | inr new ↦
          rw (apply, check_and_mark, new)
            (mark-held k (make_key u c) start now at codes (ground arith) (ground arith) h)
    ]

run-held :
    (k : Text) (start : Instant) (ops : List Op) (codes : Codes)
    → all_during start ops ≡ true
    → held k start codes ≡ true
    → held k start (run ops codes) ≡ true
unfolding run all_during
run-held k start [] codes d h = h
run-held k start (op ∷ ops) codes d h =
    run-held k start ops (apply op codes) (ground arith)
      (apply-held k start op codes (ground arith) h)

held-seen :
    (k : Text) (start : Instant) (codes : Codes)
    → held k start codes ≡ true
    → any (for_key k) codes ≡ true
unfolding held any
held-seen k start [] h = h
held-seen k start (e ∷ codes) h = ground (arith, held-seen k start codes)

mark-own :
    (k : Text) (now at : Instant) (codes : Codes)
    → at ≤ℤ now +ℤ pos (90 * second)
    → held k now (mark k now at codes) ≡ true
unfolding mark
mark-own k now at codes b = held-fresh k now at _ b (first-held k now codes)

-- Replay protection: once a one-time code of a user was accepted, the same code of that user is
-- rejected, and the record of it unchanged, after any sequence of marks and checks of any users and
-- codes, as long as the clock has not gone back and the cleanups come at most 90 seconds after the
-- acceptance.
pub check_and_mark-run :
    (user_id code : Text) (now at now' at' : Instant) (ops : List Op) (codes : Codes)
    → (check_and_mark user_id code now at codes).0 ≡ true
    → at ≤ℤ now +ℤ pos (90 * second)
    → all_during now ops ≡ true
    → let codes' = run ops (check_and_mark user_id code now at codes).1 in
      check_and_mark user_id code now' at' codes' ≡ (false, codes')
unfolding check_and_mark
check_and_mark-run user_id code now at now' at' ops codes accepted b d =
    let k = make_key user_id code in
    elim (Bool-cases (any (for_key k) codes)) [
      | inl seen ↦ ground arith
      | inr new ↦
          let seen =
            held-seen k now (run ops (mark k now at codes))
              (run-held k now ops (mark k now at codes) d (mark-own k now at codes b)) in
          rw (new, seen) refl
    ]
