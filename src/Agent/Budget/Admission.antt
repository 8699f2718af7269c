-- ===== src/Agent/Budget/Admission.antt =====
-- What the budget admits, over any sequence of its operations.
use veyport.Base.{
  ℕ, ◌+◌, ◌≤◌, ◌<◌, ◌≡◌, ◌⊎◌, ◌==◌, leb, refl, Bool, true, false, ◌||◌, ◌&&◌, not, Option, none,
  some, List, [], ◌∷◌, arith, length, any, select, count_where, any-select, any-select-not,
  length-select, count_where-none, inl, inr, Bool-cases,
}
use veyport.Base.Counts.{count_where-select_le, any-count_where}
use veyport.Base.Int.{ℤ, pos, ◌≤ℤ◌}
use veyport.Agent.Budget.{
  Budget, new, notify_activity, emit, acquire_activity, is_held, release_activity,
  observe_activities, stop_observing, acquire, try_maintenance, end_maintenance, release,
}

-- The installed observer was sent the current count last.
pub informed : Option ℕ → ℕ → List (ℕ × ℕ) → Bool
informed none n sent = true
informed (some o) n [] = false
informed (some o) n ((p, m) ∷ sent) = p == o && m == n

informed-emit : (o : Option ℕ) (n : ℕ) (sent : List (ℕ × ℕ)) → informed o n (emit o n sent) ≡ true
unfolding informed emit
informed-emit none n sent = refl
informed-emit (some o) n sent = ground arith

pub record Balanced (b : Budget) : Type 0 where
  pub counted : b.activities ≡ length b.held
  pub bounded : b.activities ≤ 128
  pub once : (l : ℕ) → count_where (λ m. m == l) b.held ≤ 1
  pub known : (l : ℕ) → b.issued ≤ l → is_held l b.held ≡ false
  pub within : (pos b.used ≤ℤ b.maximum) ⊎ (b.used ≡ 0)
  pub told : informed b.observer b.activities b.emitted ≡ true
  pub quiet : b.maintenance ≡ true → (b.used ≡ 0) × (b.activities ≡ 0)

pub data Op : Type 0 where
  start open_session enter leave close_session : Op
  finish observe stop : ℕ → Op

unfoldable pub apply : Op → Budget → Budget
apply start b = (acquire_activity b).1
apply open_session b = (acquire b).1
apply enter b = (try_maintenance b).1
apply leave b = end_maintenance b
apply close_session b = release b
apply (finish l) b = release_activity l b
apply (observe o) b = observe_activities o b
apply (stop o) b = stop_observing o b

pub new-Balanced : (maximum : ℤ) → Balanced (new maximum)
unfolding informed new any count_where
new-Balanced maximum = record {
  counted = refl;
  bounded = omega arith;
  once = λ l. omega arith;
  known = λ l h. refl;
  within = inr refl;
  told = refl;
  quiet = λ h. ground arith;
}

pub acquire_activity-Balanced : (b : Budget) → Balanced b → Balanced (acquire_activity b).1
unfolding acquire_activity notify_activity emit informed any count_where
acquire_activity-Balanced b i = elim (Bool-cases (b.maintenance || leb 128 b.activities)) [
  | inl refused ↦ rw refused i
  | inr room ↦ rw room (record {
    counted = ground (arith, i.counted, i.bounded);
    bounded = ground (arith, i.bounded);
    once = λ l. ground (arith, i.once l, i.known b.issued, count_where-none (λ m. m == l) b.held);
    known = λ l h. ground (arith, i.known l);
    within = i.within;
    told = informed-emit b.observer _ b.emitted;
    quiet = λ h. ground arith;
  })
]

released-count :
    (l : ℕ) (b : Budget)
    → Balanced b
    → is_held l b.held ≡ true
    → length (select (λ m. not (m == l)) b.held) + 1 ≡ b.activities
released-count l b i held = omega (
  arith,
  i.counted,
  i.once l,
  any-count_where (λ m. m == l) b.held held,
  length-select (λ m. m == l) b.held,
)

pub activities-release_activity :
    (l : ℕ) (b : Budget)
    → Balanced b
    → is_held l b.held ≡ true
    → (release_activity l b).activities + 1 ≡ b.activities
unfolding release_activity notify_activity
activities-release_activity l b i held =
    let left = released-count l b i held in rw held (omega (arith, left, i.bounded))

pub release_activity-Balanced : (l : ℕ) (b : Budget) → Balanced b → Balanced (release_activity l b)
unfolding release_activity notify_activity emit informed
release_activity-Balanced l b i = elim (Bool-cases (is_held l b.held)) [
  | inr spent ↦ rw spent i
  | inl held ↦
      let left = released-count l b i held in
      rw held (record {
        counted = omega (arith, left, i.bounded);
        bounded = omega (arith, left, i.bounded);
        once = λ m.
            omega (arith, i.once m, count_where-select_le (λ n. n == m) (λ n. not (n == l)) b.held);
        known = λ m h. any-select _ _ b.held (i.known m h);
        within = i.within;
        told = informed-emit b.observer _ b.emitted;
        quiet = λ h. ground (arith, left, i.quiet h);
      })
]

-- An operation that does not touch the leases.
other-Balanced :
    (b b' : Budget)
    → Balanced b
    → (b'.activities ≡ b.activities) × ((b'.held ≡ b.held) × (b'.issued ≡ b.issued))
    → informed b'.observer b'.activities b'.emitted ≡ true
    → (pos b'.used ≤ℤ b'.maximum) ⊎ (b'.used ≡ 0)
    → (b'.maintenance ≡ true → (b'.used ≡ 0) × (b'.activities ≡ 0))
    → Balanced b'
other-Balanced b b' i (a, (h, n)) t w q = record {
  counted = rw (a, h) i.counted;
  bounded = rw a i.bounded;
  once = λ l. rw h (i.once l);
  known = λ l k. rw h (i.known l (rw⁻¹ n k));
  within = w;
  told = t;
  quiet = q;
}

pub apply-Balanced : (op : Op) (b : Budget) → Balanced b → Balanced (apply op b)
unfolding apply acquire try_maintenance end_maintenance release observe_activities stop_observing
    notify_activity emit informed
apply-Balanced start b i = acquire_activity-Balanced b i
apply-Balanced open_session b i =
    other-Balanced b _ i (ground arith) (ground (arith, i.told)) (ground (arith, i.within))
      (λ h. ground (arith, i.quiet))
apply-Balanced enter b i =
    other-Balanced b _ i (ground arith) (ground (arith, i.told)) (ground (arith, i.within))
      (λ h. ground (arith, i.quiet))
apply-Balanced leave b i =
    other-Balanced b _ i (ground arith) (ground (arith, i.told)) (ground (arith, i.within))
      (λ h. ground (arith, i.quiet))
apply-Balanced close_session b i =
    other-Balanced b _ i (ground arith) (ground (arith, i.told)) (ground (arith, i.within))
      (λ h. ground (arith, i.quiet))
apply-Balanced (finish l) b i = release_activity-Balanced l b i
apply-Balanced (observe o) b i =
    other-Balanced b _ i (refl, (refl, refl)) (ground arith) i.within i.quiet
apply-Balanced (stop o) b i =
    other-Balanced b _ i (ground arith) (ground (arith, i.told)) (ground (arith, i.within))
      (λ h. ground (arith, i.quiet))

unfoldable pub run : List Op → Budget → Budget
run [] b = b
run (op ∷ ops) b = run ops (apply op b)

-- Every sequence of operations keeps the budget in balance: the activity count is the number of
-- release functions that have not run, which are distinct and were handed out, and is at most 128;
-- the terminal and execution slots in use are within the maximum; during maintenance nothing is in
-- use; and the installed observer was sent the current count last.
pub run-Balanced : (ops : List Op) (b : Budget) → Balanced b → Balanced (run ops b)
unfolding run
run-Balanced [] b i = i
run-Balanced (op ∷ ops) b i = run-Balanced ops (apply op b) (apply-Balanced op b i)

-- The release function has been handed out and has run.
Spent : ℕ → Budget → Type 0
Spent l b = (is_held l b.held ≡ false) × (l < b.issued)

apply-Spent : (op : Op) (l : ℕ) (b : Budget) → Spent l b → Spent l (apply op b)
unfolding Spent apply acquire_activity release_activity acquire try_maintenance end_maintenance
    release observe_activities stop_observing notify_activity any
apply-Spent start l b s = ground arith
apply-Spent open_session l b s = ground arith
apply-Spent enter l b s = ground arith
apply-Spent leave l b s = ground arith
apply-Spent close_session l b s = ground arith
apply-Spent (finish m) l b s = ground (arith, any-select (λ n. n == l) (λ n. not (n == m)) b.held)
apply-Spent (observe o) l b s = ground arith
apply-Spent (stop o) l b s = ground arith

run-Spent : (ops : List Op) (l : ℕ) (b : Budget) → Spent l b → Spent l (run ops b)
unfolding run
run-Spent [] l b s = s
run-Spent (op ∷ ops) l b s = run-Spent ops l (apply op b) (apply-Spent op l b s)

release_activity-Spent : (l : ℕ) (b : Budget) → l < b.issued → Spent l (release_activity l b)
unfolding Spent release_activity notify_activity
release_activity-Spent l b h = ground (arith, any-select-not (λ m. m == l) b.held)

-- A release function that was handed out takes effect at most once: after it has run, and whatever
-- operations follow, running it again leaves the budget as it is.
pub release_activity_once :
    (l : ℕ) (ops : List Op) (b : Budget)
    → l < b.issued
    → let b' = run ops (release_activity l b) in release_activity l b' ≡ b'
unfolding release_activity Spent
release_activity_once l ops b h =
    let spent = run-Spent ops l (release_activity l b) (release_activity-Spent l b h) in
    rw spent.0 refl
