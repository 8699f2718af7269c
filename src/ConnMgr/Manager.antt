-- ===== src/ConnMgr/Manager.antt =====
-- The types of connmgr.go and activities.go. A connection is its pointer with the two fields that
-- never change; whether its `done` channel is closed is part of the state. A map is the function that
-- reads it, with Go's zero value at a missing key, and a list of entries where its length is read.
use Prim.Native.String.{String}
use text.Mathlib.Text.{◌==◌ as str_eq}
use text.Mathlib.TextEquality.{eq_iff}
use veyport.Base.{
  ℕ, ◌==◌, ◌≡◌, ◌↔◌, Bool, true, false, ◌&&◌, Option, none, some, List, [], ◌∷◌, arith,
  if◌then◌else◌, any,
}

pub record Conn : Type 0 where
  pub pointer : ℕ
  pub server_id : String
  pub stream : ℕ

unfoldable pub same_conn : Conn → Conn → Bool
same_conn a b = a.pointer == b.pointer && (str_eq a.server_id b.server_id && a.stream == b.stream)

pub same_conn_iff : (a b : Conn) → (same_conn a b ≡ true) ↔ (a ≡ b)
unfolding same_conn
same_conn_iff a b = ground (arith, eq_iff a.server_id b.server_id)

abbrev pub is_conn : Conn → Option Conn → Bool
is_conn c none = false
is_conn c (some d) = same_conn d c

pub is_conn_iff : (c : Conn) (o : Option Conn) → (is_conn c o ≡ true) ↔ (o ≡ some c)
is_conn_iff c none = ground arith
is_conn_iff c (some d) = ground (arith, same_conn_iff d c)

-- ActivityKind
pub data Kind : Type 0 where
  list read delete upload log application : Kind

unfoldable pub same_kind : Kind → Kind → Bool
same_kind list list = true
same_kind read read = true
same_kind delete delete = true
same_kind upload upload = true
same_kind log log = true
same_kind application application = true
same_kind _ _ = false

pub record Key : Type 0 where
  pub connection : Conn
  pub id : String
  pub kind : Kind

-- An entry of `activities`: the key and its activityRecord.
pub record Entry : Type 0 where
  pub key : Key
  pub dispatched : Bool
  pub abandoned : Bool

unfoldable pub has_key : Key → Entry → Bool
has_key k e =
    same_conn e.key.connection k.connection && (str_eq e.key.id k.id && same_kind e.key.kind k.kind)

pub record Manager : Type 0 where
  pub streams : String → Option Conn
  pub retiring : String → Option Conn
  pub maintenance : String → String
  pub activities : List Entry
  pub uncertain : List String
  pub activity_nodes : String → ℕ
  pub activity_counts : Conn → ℕ
  pub closed : Conn → Bool

unfoldable pub new : Manager
new = record {
  streams = λ node. none;
  retiring = λ node. none;
  maintenance = λ node. "";
  activities = [];
  uncertain = [];
  activity_nodes = λ node. 0;
  activity_counts = λ conn. 0;
  closed = λ conn. false;
}

-- m[k] = v
abbrev pub put {ℓ} : {V : Type ℓ} → (String → V) → String → V → String → V
put f k v j = if str_eq j k then v else f j

abbrev pub put_conn {ℓ} : {V : Type ℓ} → (Conn → V) → Conn → V → Conn → V
put_conn f c v d = if same_conn d c then v else f d

abbrev pub is_uncertain : String → List String → Bool
is_uncertain node us = any (λ u. str_eq u node) us

-- uncertain[node] = true
unfoldable pub mark_uncertain : String → List String → List String
mark_uncertain node us = if is_uncertain node us then us else node ∷ us
