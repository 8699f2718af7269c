-- ===== src/ConnMgr/Bookkeeping.antt =====
-- The counts that activities.go keeps, as an invariant of the Manager.
use Prim.Native.String.{String}
use text.Mathlib.Text.{◌==◌ as str_eq}
use text.Mathlib.TextEquality.{eq_iff}
use veyport.Base.{
  ℕ, ◌+◌, ◌≤◌, ◌<◌, ◌≡◌, ◌↔◌, refl, Bool, true, false, Option, none, some, List, [], arith,
  if◌then◌else◌, any, length, count_where, ltb, ◌==◌, ==_iff,
}
use veyport.ConnMgr.Manager.{
  Conn, same_conn, same_conn_iff, Key, Kind, same_kind, Entry, has_key, Manager, is_uncertain, new,
}
pub mod Entries
pub mod Removals
pub mod Endings
pub mod Generations
pub mod Streams
pub mod Rounds
pub mod Requests
pub mod Maintenance
pub mod Reservation

abbrev pub on_node : String → Entry → Bool
on_node node e = str_eq e.key.connection.server_id node

abbrev pub on_conn : Conn → Entry → Bool
on_conn conn e = same_conn e.key.connection conn

pub same_kind_iff : (a b : Kind) → (same_kind a b ≡ true) ↔ (a ≡ b)
unfolding same_kind
same_kind_iff a b = ground arith

pub has_key_iff : (k : Key) (e : Entry) → (has_key k e ≡ true) ↔ (e.key ≡ k)
unfolding has_key
has_key_iff k e = ground (
  arith,
  same_conn_iff e.key.connection k.connection,
  eq_iff e.key.id k.id,
  same_kind_iff e.key.kind k.kind,
)

-- What a generation that is being retired is: closed, without a count and without entries.
pub record Ended (node : String) (s : Manager) (conn : Conn) : Type 0 where
  pub at : conn.server_id ≡ node
  pub closed : s.closed conn ≡ true
  pub uncounted : s.activity_counts conn ≡ 0
  pub empty : any (on_conn conn) s.activities ≡ false

pub record Inv (s : Manager) : Type 0 where
  pub unique : (k : Key) → count_where (has_key k) s.activities ≤ 1
  pub exact :
      (node : String)
      → s.activity_nodes node
        ≡ count_where (on_node node) s.activities + (if is_uncertain node s.uncertain then 1 else 0)
  pub per_node : (node : String) → s.activity_nodes node ≤ 128
  pub total : length s.activities + length s.uncertain ≤ 4096
  pub owned :
      (conn : Conn) → any (on_conn conn) s.activities ≡ true → s.streams conn.server_id ≡ some conn
  pub counted :
      (conn : Conn)
      → 0 < s.activity_counts conn
      → (s.streams conn.server_id ≡ some conn) × (0 < s.activity_nodes conn.server_id)
  pub named : (node : String) (conn : Conn) → s.streams node ≡ some conn → conn.server_id ≡ node
  pub retired : (node : String) (conn : Conn) → s.retiring node ≡ some conn → Ended node s conn

pub new-Inv : Inv new
unfolding new any count_where
new-Inv = record {
  unique = λ k. omega arith;
  exact = λ node. refl;
  per_node = λ node. omega arith;
  total = omega arith;
  owned = λ conn h. ground arith;
  counted = λ conn h. ground arith;
  named = λ node conn h. ground arith;
  retired = λ node conn h. ground arith;
}
