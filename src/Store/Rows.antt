-- ===== src/Store/Rows.antt =====
-- The users and sessions tables (migrate/migrations, model/session.go), and stored times: the text
-- "2006-01-02 15:04:05" of a UTC time, which orders as its whole seconds do.
use Prim.Native.String.{String}
use veyport.Base.{◌/◌, Bool, Option, none, some, arith}
use veyport.Base.Int.{ℤ, pos, negsuc, scale, ◌≤ℤ◌, ◌<ℤ◌, ◌+ℤ◌}
use veyport.Base.Time.{Instant, second}

-- Whole seconds since the epoch.
abbrev pub Stamp : Type 0
Stamp = ℤ

-- t.UTC().Format(sqliteTimeFormat): the fraction of a second is dropped.
unfoldable pub stamp : Instant → Stamp
stamp (pos n) = pos (n / second)
stamp (negsuc n) = negsuc (n / second)

abbrev pub stamp_ptr : Option Instant → Option Stamp
stamp_ptr none = none
stamp_ptr (some t) = some (stamp t)

-- time.Parse of a stored time.
unfoldable pub parse : Stamp → Instant
parse s = scale s second

abbrev pub parse_ptr : Option Stamp → Option Instant
parse_ptr none = none
parse_ptr (some s) = some (parse s)

pub record Session : Type 0 where
  pub id : String
  pub user_id : String
  pub kind : String
  pub ip : String
  pub user_agent : String
  pub created_at : Stamp
  pub last_seen_at : Stamp
  pub expires_at : Option Stamp
  pub ended_at : Option Stamp
  pub end_reason : Option String
  pub ended_by : Option String
  pub refresh_token_sha256 : String

-- model.Role
pub data Role : Type 0 where
  admin auditor viewer : Role

pub record User : Type 0 where
  pub id : String
  pub role : Role
  pub failed_login_count : ℤ
  pub last_failed_login_at : Option Stamp
  pub locked_until : Option Stamp
  pub last_login_at : Option Stamp
  pub last_activity_at : Option Stamp
  pub reactivated_at : Option Stamp
  pub disabled_at : Option Stamp
  pub disabled_by : Option String
  pub created_at : Stamp
  pub updated_at : Stamp
  pub dormancy_exempt : Bool
  pub totp_enabled : Bool
  pub must_change_password : Bool
  pub token_generation : ℤ
  pub ssh_credential_generation : ℤ
  pub security_revision : ℤ

-- A stored time is at most the time that was written, and less than a second before it.
pub parse-stamp : (t : Instant) → (parse (stamp t) ≤ℤ t) × (t <ℤ parse (stamp t) +ℤ pos second)
unfolding parse stamp scale ◌+ℤ◌
parse-stamp (pos n) = ground arith
parse-stamp (negsuc n) = ground arith
