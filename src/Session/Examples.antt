-- ===== src/Session/Examples.antt =====
-- The session theorems at concrete sessions.
use veyport.Base.{◌*◌, none, some}
use veyport.Base.Int.{pos}
use veyport.Base.Time.{minute}
use veyport.Session.{State, kind_web}

-- Last seen at minute 10, with an absolute expiry at minute 720.
abbrev web : State
web = record {
  kind = kind_web;
  created_at = pos 0;
  last_seen_at = pos (10 * minute);
  expires_at = some (pos (720 * minute));
  ended_at = none;
}
