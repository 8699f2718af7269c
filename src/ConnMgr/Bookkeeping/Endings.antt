-- ===== src/ConnMgr/Bookkeeping/Endings.antt =====
-- Ending the work of a connection keeps the counts.
use veyport.Base.{
  ◌<◌, ◌≡◌, ◌⊎◌, refl, Bool, true, false, List, [], ◌∷◌, arith, if◌then◌else◌, any, length, not,
  length-select, Bool-cases, inl, inr, any-select-not, ◌||◌,
}
use veyport.ConnMgr.Manager.{Conn, same_conn, same_conn_iff, Key, Entry, has_key, Manager}
use veyport.ConnMgr.Activities.{remove_activity}
use veyport.ConnMgr.Uncertainty.{end_entries}
use veyport.ConnMgr.Bookkeeping.{Inv, on_conn, has_key_iff}
use veyport.Base.Counts.{any-select-true, any-count_where, any-element}
use veyport.ConnMgr.Bookkeeping.Removals.{remove_activity-Inv}

-- What ending the entries of a connection without a count may change.
pub record Trimmed (s s' : Manager) : Type 0 where
  pub streams : s'.streams ≡ s.streams
  pub retiring : s'.retiring ≡ s.retiring
  pub maintenance : s'.maintenance ≡ s.maintenance
  pub closed : s'.closed ≡ s.closed
  pub counts : s'.activity_counts ≡ s.activity_counts
  pub uncertain : s'.uncertain ≡ s.uncertain
  pub fewer : (s'.activities ≡ s.activities) ⊎ (length s'.activities < length s.activities)

pub Trimmed-refl : (s : Manager) → Trimmed s s
Trimmed-refl s = record {
  streams = refl;
  retiring = refl;
  maintenance = refl;
  closed = refl;
  counts = refl;
  uncertain = refl;
  fewer = inl refl;
}

pub Trimmed-trans : (s s' s'' : Manager) → Trimmed s s' → Trimmed s' s'' → Trimmed s s''
Trimmed-trans s s' s'' t u = ground arith

pub remove_activity-Trimmed :
    (k : Key) (s : Manager) → s.activity_counts k.connection ≡ 0 → Trimmed s (remove_activity k s)
unfolding remove_activity
remove_activity-Trimmed k s h =
    ground (arith, length-select (has_key k) s.activities, any-count_where (has_key k) s.activities)

pub remove_activity-gone :
    (k : Key) (s : Manager) → any (has_key k) (remove_activity k s).activities ≡ false
unfolding remove_activity
remove_activity-gone k s = ground (arith, any-select-not (has_key k) s.activities)

pub remove_activity-other :
    (k j : Key) (s : Manager)
    → any (has_key j) (remove_activity k s).activities ≡ true
    → any (has_key j) s.activities ≡ true
unfolding remove_activity
remove_activity-other k j s h =
    ground (arith, any-select-true (has_key j) (λ e. not (has_key k e)) s.activities)

-- Every entry of the connection is among those that the loop still has to visit.
unfoldable pub Covers : Conn → List Entry → Manager → Type 0
Covers conn es s =
    (j : Key)
    → j.connection ≡ conn
    → any (has_key j) s.activities ≡ true
    → any (has_key j) es ≡ true

Covers-step :
    (conn : Conn) (e : Entry) (es : List Entry) (s : Manager)
    → Covers conn (e ∷ es) s
    → Covers conn es (if same_conn e.key.connection conn then remove_activity e.key s else s)
unfolding Covers any
Covers-step conn e es s c j mine h = ground (
  arith,
  c j,
  remove_activity-gone e.key s,
  remove_activity-other e.key j s,
  same_conn_iff e.key.connection conn,
  has_key_iff j e,
)

Covers-none :
    (conn : Conn) (s : Manager) → Covers conn [] s → any (on_conn conn) s.activities ≡ false
unfolding Covers any
Covers-none conn s c = elim (Bool-cases (any (on_conn conn) s.activities)) [
  | inr e ↦ e
  | inl e ↦
      let (x, (is, all)) = any-element (on_conn conn) s.activities e in
      let there : any (has_key x.key) s.activities ≡ true =
        all (has_key x.key) (ground (arith, has_key_iff x.key x)) in
      ground (arith, c x.key, same_conn_iff x.key.connection conn)
]

pub step-Inv :
    (b : Bool) (k : Key) (s : Manager) → Inv s → Inv (if b then remove_activity k s else s)
step-Inv true k s i = remove_activity-Inv k s i
step-Inv false k s i = i

pub step-Trimmed :
    (b : Bool) (k : Key) (s : Manager)
    → (b ≡ true → s.activity_counts k.connection ≡ 0)
    → Trimmed s (if b then remove_activity k s else s)
step-Trimmed true k s h = remove_activity-Trimmed k s (h refl)
step-Trimmed false k s h = Trimmed-refl s

-- The loop leaves no entry of the connection and keeps the counts.
pub end_entries-facts :
    (conn : Conn) (es : List Entry) (u : Bool) (s : Manager)
    → Inv s
    → s.activity_counts conn ≡ 0
    → Covers conn es s
    → let (u', s') = end_entries conn es u s in
      Inv s' × (Trimmed s s' × (any (on_conn conn) s'.activities ≡ false))
unfolding end_entries
end_entries-facts conn [] u s i z c = (i, (Trimmed-refl s, Covers-none conn s c))
end_entries-facts conn (e ∷ es) u s i z c =
    let mine = same_conn e.key.connection conn in
    let s1 : Manager = if mine then remove_activity e.key s else s in
    let t1 : Trimmed s s1 =
      step-Trimmed mine e.key s (λ h. ground (arith, same_conn_iff e.key.connection conn)) in
    let (i', (t', none_left)) =
      end_entries-facts conn es (if mine then u || e.dispatched else u) s1 (step-Inv mine e.key s i)
        (ground (arith, t1.counts)) (Covers-step conn e es s c) in
    (i', (Trimmed-trans s s1 _ t1 t', none_left))

-- Without an entry of the connection the loop does nothing.
pub end_entries-none :
    (conn : Conn) (es : List Entry) (u : Bool) (s : Manager)
    → any (on_conn conn) es ≡ false
    → end_entries conn es u s ≡ (u, s)
unfolding end_entries any
end_entries-none conn [] u s h = refl
end_entries-none conn (e ∷ es) u s h = ground (arith, end_entries-none conn es u s)

-- With one, there is a slot less.
pub end_entries-fewer :
    (conn : Conn) (s s' : Manager)
    → any (on_conn conn) s.activities ≡ true
    → any (on_conn conn) s'.activities ≡ false
    → Trimmed s s'
    → length s'.activities < length s.activities
end_entries-fewer conn s s' h n t = ground arith
