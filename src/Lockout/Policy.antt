-- ===== src/Lockout/Policy.antt =====
-- lockout.go: Policy, Defaults, Load, loadInt and Validate.
pub mod Validity
use Prim.Native.String.{String}
use veyport.Base.{ℕ, ◌*◌, Bool, true, false, Option, none, some, if◌then◌else◌}
use veyport.Base.Int.{ℤ, pos, negsuc, ltb_ℤ, scale, wrap64}
use veyport.Base.Time.{Duration, minute, hour}
use veyport.Base.Text.{Text, trim_space, atoi}

pub record Policy : Type 0 where
  pub threshold : ℤ
  pub window : Duration
  pub duration : Duration
  pub dormant_days : ℤ
  pub session_idle : Duration
  pub cli_session_idle : Duration
  pub session_max : Duration

-- The keys of the hub's configuration store.
pub data Key : Type 0 where
  key_threshold key_window_minutes key_duration_minutes key_dormant_days : Key
  key_session_idle_minutes key_cli_session_idle_minutes key_session_max_hours : Key

-- The stored spelling of each key.
pub key_name : Key → String
key_name key_threshold = "account.lockout_threshold"
key_name key_window_minutes = "account.lockout_window_minutes"
key_name key_duration_minutes = "account.lockout_duration_minutes"
key_name key_dormant_days = "account.dormant_days"
key_name key_session_idle_minutes = "account.session_idle_minutes"
key_name key_cli_session_idle_minutes = "account.cli_session_idle_minutes"
key_name key_session_max_hours = "account.session_max_hours"

-- int64(1<<63-1) / int64(time.Minute)
abbrev pub max_cli_session_idle_minutes : ℕ
max_cli_session_idle_minutes = 153722867

unfoldable pub defaults : Policy
defaults = record {
  threshold = pos 5;
  window = pos (15 * minute);
  duration = pos (15 * minute);
  dormant_days = pos 35;
  session_idle = pos (15 * minute);
  cli_session_idle = pos (45 * minute);
  session_max = pos (12 * hour);
}

-- The configuration store's getter; none is an error, such as an unset key.
abbrev pub Getter : Type 0
Getter = String → Option Text

non_negative : Option ℤ → ℤ → ℤ
non_negative none def = def
non_negative (some parsed) def = if ltb_ℤ parsed (pos 0) then def else parsed

parse_or : Option Text → ℤ → ℤ
unfolding non_negative
parse_or none def = def
parse_or (some raw) def = non_negative (atoi (trim_space raw)) def

unfoldable pub load_int : Getter → Key → ℤ → ℤ
unfolding parse_or key_name
load_int get key def = parse_or (get (key_name key)) def

-- time.Duration(n) * unit, an int64 product.
unfoldable pub times : ℤ → ℕ → Duration
times n unit = wrap64 (scale n unit)

unfoldable pub load : Getter → Policy
load get =
    let cli_minutes = load_int get key_cli_session_idle_minutes (pos 45) in
    record {
      threshold = load_int get key_threshold (pos 5);
      window = times (load_int get key_window_minutes (pos 15)) minute;
      duration = times (load_int get key_duration_minutes (pos 15)) minute;
      dormant_days = load_int get key_dormant_days (pos 35);
      session_idle = times (load_int get key_session_idle_minutes (pos 15)) minute;
      cli_session_idle =
          times
            (if ltb_ℤ (pos max_cli_session_idle_minutes) cli_minutes then pos 45 else cli_minutes)
            minute;
      session_max = times (load_int get key_session_max_hours (pos 12)) hour;
    }

-- The field that an error of Validate names.
pub data Field : Type 0 where
  threshold window duration dormant_days session_idle cli_session_idle session_max : Field

unfoldable pub validate : Policy → Option Field
validate p =
    if ltb_ℤ p.threshold (pos 0)
    then some Field.threshold
    else if ltb_ℤ p.window (pos 0)
    then some Field.window
    else if ltb_ℤ p.duration (pos 0)
    then some Field.duration
    else if ltb_ℤ p.dormant_days (pos 0)
    then some Field.dormant_days
    else if ltb_ℤ p.session_idle (pos 0)
    then some Field.session_idle
    else if ltb_ℤ p.cli_session_idle (pos 0)
    then some Field.cli_session_idle
    else if ltb_ℤ p.session_max (pos 0)
    then some Field.session_max
    else none
