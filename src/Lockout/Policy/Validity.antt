-- ===== src/Lockout/Policy/Validity.antt =====
-- When the policy that Load returns satisfies Validate.
use veyport.Base.{ℕ, ◌*◌, ◌≤◌, ◌<◌, ◌≡◌, refl, if◌then◌else◌, Option, none, some, arith}
use veyport.Base.Int.{ℤ, pos, negsuc, ◌≤ℤ◌, ◌<ℤ◌, ltb_ℤ, scale, wrap64}
use veyport.Base.Time.{minute, hour}
use veyport.Base.Text.{Text, atoi, trim_space}
use veyport.Lockout.Policy.{
  Policy, Key, Getter, Field, key_window_minutes, key_duration_minutes, key_session_idle_minutes,
  key_session_max_hours, key_cli_session_idle_minutes, key_threshold, key_dormant_days, key_name,
  load_int, parse_or, non_negative, times, load, validate, max_cli_session_idle_minutes,
}

parse_or-pos : (o : Option Text) (d : ℕ) → (n : ℕ) × (parse_or o (pos d) ≡ pos n)
unfolding parse_or
parse_or-pos none d = (d, refl)
parse_or-pos (some raw) d = go (atoi (trim_space raw))
  where
    go : (o : Option ℤ) → (n : ℕ) × (non_negative o (pos d) ≡ pos n)
    go none = (d, refl)
    go (some (pos n)) = (n, ground arith)
    go (some (negsuc n)) = (d, ground arith)

-- A loaded number is never negative: an unset, unreadable or negative value gives the default.
pub load_int-pos : (get : Getter) (k : Key) (d : ℕ) → (n : ℕ) × (load_int get k (pos d) ≡ pos n)
unfolding load_int
load_int-pos get k d = parse_or-pos (get (key_name k)) d

times-nonneg : (n u : ℕ) → n * u ≤ 9223372036854775807 → pos 0 ≤ℤ times (pos n) u
unfolding times scale wrap64
times-nonneg n u h = ground arith

times-negative :
    (n u : ℕ)
    → 9223372036854775807 < n * u
    → n * u < 18446744073709551616
    → times (pos n) u <ℤ pos 0
unfolding times scale wrap64
times-negative n u h k = ground arith

load_times-nonneg :
    (get : Getter) (k : Key) (d u b : ℕ)
    → b * u ≤ 9223372036854775807
    → load_int get k (pos d) ≤ℤ pos b
    → pos 0 ≤ℤ times (load_int get k (pos d)) u
load_times-nonneg get k d u b fits h =
    let (n, e) = load_int-pos get k d in
    let below : n ≤ b = ground arith in rw e (times-nonneg n u (grind arith))

validate-nonneg :
    (p : Policy)
    → pos 0 ≤ℤ p.threshold
    → pos 0 ≤ℤ p.window
    → pos 0 ≤ℤ p.duration
    → pos 0 ≤ℤ p.dormant_days
    → pos 0 ≤ℤ p.session_idle
    → pos 0 ≤ℤ p.cli_session_idle
    → pos 0 ≤ℤ p.session_max
    → validate p ≡ none
unfolding validate
validate-nonneg p a b c d e f g = ground arith

load_int-nonneg : (get : Getter) (k : Key) (d : ℕ) → pos 0 ≤ℤ load_int get k (pos d)
load_int-nonneg get k d = let (n, e) = load_int-pos get k d in rw e (omega arith)

cli_times-nonneg :
    (z : ℤ)
    → pos 0 ≤ℤ z
    → pos 0 ≤ℤ times (if ltb_ℤ (pos max_cli_session_idle_minutes) z then pos 45 else z) minute
unfolding times scale wrap64
cli_times-nonneg z h = ground arith

-- Whatever is stored, the loaded CLI idle limit lies between 0 and 153722867 minutes.
pub load-cli_session_idle :
    (get : Getter)
    → (pos 0 ≤ℤ (load get).cli_session_idle)
      × ((load get).cli_session_idle ≤ℤ pos (max_cli_session_idle_minutes * minute))
unfolding load times scale wrap64
load-cli_session_idle get = ground (arith, load_int-nonneg get key_cli_session_idle_minutes 45)

-- Validate accepts the policy that Load returns when the configured limits fit a duration: at most
-- 153722867 minutes for the window, the lock and the web idle limit, and 2562047 hours for the
-- session lifetime. The threshold, the dormant days and the CLI idle limit need no bound.
pub validate-load :
    (get : Getter)
    → load_int get key_window_minutes (pos 15) ≤ℤ pos 153722867
    → load_int get key_duration_minutes (pos 15) ≤ℤ pos 153722867
    → load_int get key_session_idle_minutes (pos 15) ≤ℤ pos 153722867
    → load_int get key_session_max_hours (pos 12) ≤ℤ pos 2562047
    → validate (load get) ≡ none
unfolding load
validate-load get a b c d =
    validate-nonneg (load get) (load_int-nonneg get key_threshold 5)
      (load_times-nonneg get key_window_minutes 15 minute 153722867 (omega arith) a)
      (load_times-nonneg get key_duration_minutes 15 minute 153722867 (omega arith) b)
      (load_int-nonneg get key_dormant_days 35)
      (load_times-nonneg get key_session_idle_minutes 15 minute 153722867 (omega arith) c)
      (cli_times-nonneg _ (load_int-nonneg get key_cli_session_idle_minutes 45))
      (load_times-nonneg get key_session_max_hours 12 hour 2562047 (omega arith) d)

-- Load does not keep its promise above that bound: a window of 153722868 to 307445734 minutes wraps
-- to a negative duration, which Validate refuses by name.
pub validate-load_window :
    (get : Getter) (w : ℕ)
    → load_int get key_window_minutes (pos 15) ≡ pos w
    → 153722867 < w
    → w ≤ 307445734
    → validate (load get) ≡ some Field.window
unfolding validate load
validate-load_window get w e lo hi =
    let wrapped : times (load_int get key_window_minutes (pos 15)) minute <ℤ pos 0 =
      rw e (times-negative w minute (omega arith) (omega arith)) in
    ground (arith, load_int-nonneg get key_threshold 5)
