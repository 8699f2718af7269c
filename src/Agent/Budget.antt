-- ===== src/Agent/Budget.antt =====
-- sessionlimit/budget.go. The release functions that AcquireActivity returned are numbered; `held`
-- lists those whose sync.Once has not run. `emitted` is what the observers were sent, newest first.
use veyport.Base.{
  ℕ, suc, ◌+◌, ◌-◌, ◌%◌, ◌^◌, ◌≤◌, ◌<◌, ◌≡◌, ◌==◌, leb, ltb, refl, Bool, true, false, ◌||◌, ◌&&◌,
  not, Option, none, some, List, [], ◌∷◌, arith, if◌then◌else◌, length, any, select, count_where,
}
use veyport.Base.Int.{ℤ, pos, leb_ℤ}
pub mod Admission

pub record Budget : Type 0 where
  pub used : ℕ
  pub maximum : ℤ
  pub maintenance : Bool
  pub activities : ℕ
  pub observer : Option ℕ
  pub issued : ℕ
  pub held : List ℕ
  pub emitted : List (ℕ × ℕ)

abbrev pub max_activities : ℕ
max_activities = 128

unfoldable pub emit : Option ℕ → ℕ → List (ℕ × ℕ) → List (ℕ × ℕ)
emit none count sent = sent
emit (some o) count sent = (o, count) ∷ sent

-- notifyActivity
unfoldable pub notify_activity : Budget → Budget
unfolding emit
notify_activity b = record b { emitted = emit b.observer b.activities b.emitted }

-- The number of the release function, where one is returned.
unfoldable pub acquire_activity : Budget → Option ℕ × Budget
acquire_activity b = if b.maintenance || leb max_activities b.activities then (none, b) else (
  some b.issued,
  notify_activity (record b {
    activities = (b.activities + 1) % 2 ^ 32;
    issued = b.issued + 1;
    held = b.issued ∷ b.held;
  }),
)

abbrev pub is_held : ℕ → List ℕ → Bool
is_held lease ls = any (λ l. l == lease) ls

-- The release function itself, under its sync.Once.
unfoldable pub release_activity : ℕ → Budget → Budget
release_activity lease b =
    if is_held lease b.held
    then notify_activity (record b {
      activities = (b.activities + (2 ^ 32 - 1)) % 2 ^ 32;
      held = select (λ l. not (l == lease)) b.held;
    })
    else b

-- ObserveActivities for the observer `o`, and the function that it returns.
unfoldable pub observe_activities : ℕ → Budget → Budget
observe_activities o b = notify_activity (record b { observer = some o })

abbrev pub is_observer : ℕ → Option ℕ → Bool
is_observer o none = false
is_observer o (some p) = p == o

unfoldable pub stop_observing : ℕ → Budget → Budget
stop_observing o b = if is_observer o b.observer then record b { observer = none } else b

unfoldable pub new : ℤ → Budget
new maximum = record {
  used = 0;
  maximum = maximum;
  maintenance = false;
  activities = 0;
  observer = none;
  issued = 0;
  held = [];
  emitted = [];
}

unfoldable pub acquire : Budget → Bool × Budget
acquire b =
    if b.maintenance || leb_ℤ b.maximum (pos b.used)
    then (false, b)
    else (true, record b { used = b.used + 1 })

unfoldable pub try_maintenance : Budget → Bool × Budget
try_maintenance b =
    if b.maintenance || (not (b.used == 0) || not (b.activities == 0))
    then (false, b)
    else (true, record b { maintenance = true })

unfoldable pub end_maintenance : Budget → Budget
end_maintenance b = record b { maintenance = false }

unfoldable pub release : Budget → Budget
release b = if ltb 0 b.used then record b { used = b.used - 1 } else b
