-- ===== src/Lockout/State/Attack.antt =====
-- What a run of failed credential checks does to an account.
use veyport.Base.{
  ℕ, suc, ◌+◌, ◌<◌, ◌≡◌, refl, ◌∙◌, Bool, true, false, Option, none, some, List, [], ◌∷◌, arith,
  length, if◌then◌else◌,
}
use veyport.Base.Int.{pos, ◌≤ℤ◌, leb_ℤ, eqb_ℤ, ◌+ℤ◌, wrap64, max_int64}
use veyport.Base.Time.{Instant, sub, add}
use veyport.Lockout.Policy.{Policy}
use veyport.Lockout.State.{State, is_locked, next_state, no_auto_unlock}

-- A run of failures, oldest first: the state that it leaves, and how many of them locked the account.
unfoldable pub failures : Policy → State → List Instant → State
failures p s [] = s
failures p s (t ∷ ts) = failures p (next_state s t p).0 ts

abbrev pub tally : Bool → ℕ → ℕ
tally true n = suc n
tally false n = n

unfoldable pub locks : Policy → State → List Instant → ℕ
locks p s [] = 0
locks p s (t ∷ ts) = tally (next_state s t p).1 (locks p (next_state s t p).0 ts)

-- Every instant of the list falls inside the lock.
abbrev pub During : Option Instant → List Instant → Type 0
During until [] = Unit {0}
During until (t ∷ ts) = (is_locked until t ≡ true) × During until ts

pub next_state-locked :
    (s : State) (t : Instant) (p : Policy)
    → is_locked s.locked_until t ≡ true
    → ((next_state s t p).1 ≡ false) × ((next_state s t p).0.locked_until ≡ s.locked_until)
unfolding next_state
next_state-locked s t p h = ground arith

-- However many failures arrive while an account is locked, none of them locks it again and none of
-- them moves the expiry of the lock.
pub failures-During :
    (p : Policy) (s : State) (ts : List Instant)
    → During s.locked_until ts
    → (locks p s ts ≡ 0) × ((failures p s ts).locked_until ≡ s.locked_until)
unfolding locks failures
failures-During p s [] h = (refl, refl)
failures-During p s (t ∷ ts) h =
    let (quiet, kept) = next_state-locked s t p h.0 in
    let rest = failures-During p (next_state s t p).0 ts (rw kept h.1) in
    (rw quiet rest.0, rest.1 ∙ kept)

-- Each failure follows the one before it (or the last recorded one) within the policy's window.
abbrev pub Streak : Policy → Option Instant → List Instant → Type 0
Streak p last [] = Unit {0}
Streak p none (t ∷ ts) = Streak p (some t) ts
Streak p (some u) (t ∷ ts) = (leb_ℤ (sub t u) p.window ≡ true) × Streak p (some t) ts

-- The state of an account that never failed since its last success or unlock.
abbrev pub fresh : State
fresh = record { count = pos 0; last_failed_at = none; locked_until = none }

-- When a lock that starts at `t` ends.
abbrev pub expiry : Policy → Instant → Instant
expiry p t = if eqb_ℤ p.duration (pos 0) then no_auto_unlock else add t p.duration

abbrev pub last_of : Instant → List Instant → Instant
last_of t [] = t
last_of t (u ∷ us) = last_of u us

-- After `k` failures of a streak and no lock.
record Counting (k : ℕ) (s : State) : Type 0 where
  counted : s.count ≡ pos k
  unlocked : s.locked_until ≡ none

next_state-Counting :
    (p : Policy) (s : State) (t u : Instant) (k n : ℕ)
    → p.threshold ≡ pos n
    → pos n ≤ℤ max_int64
    → s.last_failed_at ≡ some u
    → leb_ℤ (sub t u) p.window ≡ true
    → Counting k s
    → k + 1 < n
    → Counting (k + 1) (next_state s t p).0 × ((next_state s t p).1 ≡ false)
unfolding next_state wrap64 ◌+ℤ◌
next_state-Counting p s t u k n e r l w c h = ground arith

next_state-locks :
    (p : Policy) (s : State) (t u : Instant) (k n : ℕ)
    → p.threshold ≡ pos n
    → pos n ≤ℤ max_int64
    → s.last_failed_at ≡ some u
    → leb_ℤ (sub t u) p.window ≡ true
    → Counting k s
    → k + 1 ≡ n
    → ((next_state s t p).0.locked_until ≡ some (expiry p t)) × ((next_state s t p).1 ≡ true)
unfolding next_state wrap64 ◌+ℤ◌ is_locked
next_state-locks p s t u k n e r l w c h = ground arith

next_state-last :
    (p : Policy) (s : State) (t : Instant) → (next_state s t p).0.last_failed_at ≡ some t
unfolding next_state
next_state-last p s t = ground arith

Streak-below :
    (p : Policy) (s : State) (u : Instant) (ts : List Instant) (k n : ℕ)
    → p.threshold ≡ pos n
    → pos n ≤ℤ max_int64
    → s.last_failed_at ≡ some u
    → Streak p (some u) ts
    → Counting k s
    → k + length ts < n
    → (locks p s ts ≡ 0) × ((failures p s ts).locked_until ≡ none)
unfolding locks failures
Streak-below p s u [] k n e r l w c h = (refl, c.unlocked)
Streak-below p s u (t ∷ ts) k n e r l w c h =
    let (c', quiet) = next_state-Counting p s t u k n e r l w.0 c (omega arith) in
    let rest =
      Streak-below p (next_state s t p).0 t ts (k + 1) n e r (next_state-last p s t) w.1 c'
        (omega arith) in
    (rw quiet rest.0, rest.1)

Streak-reaches :
    (p : Policy) (s : State) (u : Instant) (ts : List Instant) (k n : ℕ)
    → p.threshold ≡ pos n
    → pos n ≤ℤ max_int64
    → s.last_failed_at ≡ some u
    → Streak p (some u) ts
    → Counting k s
    → k < n
    → k + length ts ≡ n
    → (locks p s ts ≡ 1) × ((failures p s ts).locked_until ≡ some (expiry p (last_of u ts)))
unfolding locks failures
Streak-reaches p s u [] k n e r l w c b h = absurd (omega arith)
Streak-reaches p s u (t ∷ []) k n e r l w c b h =
    let (until, loud) = next_state-locks p s t u k n e r l w.0 c (omega arith) in (rw loud, until)
Streak-reaches p s u (t ∷ v ∷ ts) k n e r l w c b h =
    let (c', quiet) = next_state-Counting p s t u k n e r l w.0 c (omega arith) in
    let rest =
      Streak-reaches p (next_state s t p).0 t (v ∷ ts) (k + 1) n e r (next_state-last p s t) w.1 c'
        (omega arith) (omega arith) in
    (rw quiet rest.0, rest.1)

first-Counting :
    (p : Policy) (t : Instant) (n : ℕ)
    → p.threshold ≡ pos n
    → 1 < n
    → Counting 1 (next_state fresh t p).0 × ((next_state fresh t p).1 ≡ false)
unfolding next_state
first-Counting p t n e h = ground arith

-- An account with no failure on record that meets a streak of failures, each within the policy's
-- window of the one before: as long as the streak is shorter than the threshold, no failure locks
-- the account and it carries no lock.
pub Streak-unlocked :
    (p : Policy) (t : Instant) (ts : List Instant) (n : ℕ)
    → p.threshold ≡ pos n
    → pos n ≤ℤ max_int64
    → Streak p (some t) ts
    → 1 + length ts < n
    → (locks p fresh (t ∷ ts) ≡ 0) × ((failures p fresh (t ∷ ts)).locked_until ≡ none)
unfolding locks failures
Streak-unlocked p t ts n e r w h =
    let (c, quiet) = first-Counting p t n e (omega arith) in
    let rest = Streak-below p _ t ts 1 n e r (next_state-last p fresh t) w c h in
    (rw quiet rest.0, rest.1)

-- A streak as long as the threshold (two or more), each failure within the window of the one
-- before, locks the account exactly once, at its last failure: the lock runs from there for the
-- policy's duration, and without end when that is zero.
pub Streak-locks :
    (p : Policy) (t : Instant) (ts : List Instant) (n : ℕ)
    → p.threshold ≡ pos n
    → pos n ≤ℤ max_int64
    → Streak p (some t) ts
    → 1 < n
    → 1 + length ts ≡ n
    → (locks p fresh (t ∷ ts) ≡ 1)
      × ((failures p fresh (t ∷ ts)).locked_until ≡ some (expiry p (last_of t ts)))
unfolding locks failures
Streak-locks p t ts n e r w b h =
    let (c, quiet) = first-Counting p t n e b in
    let rest = Streak-reaches p _ t ts 1 n e r (next_state-last p fresh t) w c b h in
    (rw quiet rest.0, rest.1)

-- Every failure comes later than the window after the one before.
abbrev pub Spaced : Policy → Option Instant → List Instant → Type 0
Spaced p last [] = Unit {0}
Spaced p none (t ∷ ts) = Spaced p (some t) ts
Spaced p (some u) (t ∷ ts) = (leb_ℤ (sub t u) p.window ≡ false) × Spaced p (some t) ts

Spaced-split :
    (p : Policy) (last : Option Instant) (t : Instant) (ts : List Instant)
    → Spaced p last (t ∷ ts)
    → Spaced p last (t ∷ []) × Spaced p (some t) ts
Spaced-split p none t ts w = (tt, w)
Spaced-split p (some u) t ts w = ((w.0, tt), w.1)

next_state-Spaced :
    (p : Policy) (s : State) (t : Instant) (n : ℕ)
    → p.threshold ≡ pos n
    → 1 < n
    → Spaced p s.last_failed_at (t ∷ [])
    → ((next_state s t p).1 ≡ false) × ((next_state s t p).0.locked_until ≡ s.locked_until)
unfolding next_state
next_state-Spaced p s t n e h w = ground arith

-- With a threshold of two or more, failures that are further apart than the window never lock an
-- account, however many there are, and leave an earlier lock as it was.
pub Spaced-failures :
    (p : Policy) (s : State) (ts : List Instant) (n : ℕ)
    → p.threshold ≡ pos n
    → 1 < n
    → Spaced p s.last_failed_at ts
    → (locks p s ts ≡ 0) × ((failures p s ts).locked_until ≡ s.locked_until)
unfolding locks failures
Spaced-failures p s [] n e b w = (refl, refl)
Spaced-failures p s (t ∷ ts) n e b w =
    let (here, later) = Spaced-split p s.last_failed_at t ts w in
    let (quiet, kept) = next_state-Spaced p s t n e b here in
    let rest = Spaced-failures p (next_state s t p).0 ts n e b (rw (next_state-last p s t) later) in
    (rw quiet rest.0, rest.1 ∙ kept)
