-- ===== src/ConnMgr/Bookkeeping/Reservation.antt =====
-- The reservation and the release of maintenance keep the counts.
use Prim.Native.String.{String}
use text.Mathlib.Text.{◌==◌ as str_eq}
use veyport.Base.{
  ◌≡◌, ◌⊎◌, Bool, true, false, none, List, [], ◌∷◌, arith, if◌then◌else◌, Bool-cases, inl, inr,
  ◌&&◌, ap,
}
use veyport.ConnMgr.Manager.{Conn, same_conn, same_conn_iff, Entry, Manager}
use veyport.ConnMgr.Activities.{live, remove_activity}
use veyport.ConnMgr.Uncertainty.{activity_idle, clear_entries, clear_abandoned}
use veyport.ConnMgr.Connections.{
  commit_maintenance, reserve_maintenance, set_maintenance, release_maintenance,
}
use veyport.ConnMgr.Bookkeeping.{Inv}
use veyport.ConnMgr.Bookkeeping.Endings.{
  Trimmed, Trimmed-refl, Trimmed-trans, step-Inv, step-Trimmed,
}
use veyport.ConnMgr.Bookkeeping.Maintenance.{clear_uncertain-Inv, live-Uncounted, live-same}

pub clear_entries-facts :
    (conn : Conn) (es : List Entry) (s : Manager)
    → Inv s
    → s.activity_counts conn ≡ 0
    → Inv (clear_entries conn es s) × Trimmed s (clear_entries conn es s)
unfolding clear_entries
clear_entries-facts conn [] s i z = (i, Trimmed-refl s)
clear_entries-facts conn (e ∷ es) s i z =
    let drop = same_conn e.key.connection conn && e.abandoned in
    let s1 : Manager = if drop then remove_activity e.key s else s in
    let t1 : Trimmed s s1 =
      step-Trimmed drop e.key s (λ h. ground (arith, same_conn_iff e.key.connection conn)) in
    let (i', t') =
      clear_entries-facts conn es s1 (step-Inv drop e.key s i)
        (ground (arith, ap (λ f. f conn) t1.counts)) in
    (i', Trimmed-trans s s1 _ t1 t')

pub clear_abandoned-Inv :
    (conn : Conn) (s : Manager)
    → Inv s
    → live conn s ≡ true
    → s.activity_counts conn ≡ 0
    → Inv (clear_abandoned conn s)
unfolding clear_abandoned
clear_abandoned-Inv conn s i alive z =
    let (i', t) = clear_entries-facts conn s.activities s i z in
    let s' = clear_entries conn s.activities s in
    clear_uncertain-Inv conn.server_id s' i' (
      live-Uncounted conn s' i' (live-same conn s s' t.streams t.closed alive)
        (ground (arith, ap (λ f. f conn) t.counts)))

pub set_maintenance-Inv : (node id : String) (s : Manager) → Inv s → Inv (set_maintenance node id s)
unfolding set_maintenance
set_maintenance-Inv node id s i = record {
  unique = i.unique;
  exact = i.exact;
  per_node = i.per_node;
  total = i.total;
  owned = i.owned;
  named = i.named;
  counted = i.counted;
  retired = λ n c h.
      let old = i.retired n c h in
      record { at = old.at; closed = old.closed; empty = old.empty; uncounted = old.uncounted };
}

pub release_maintenance-Inv :
    (node id : String) (s : Manager) → Inv s → Inv (release_maintenance node id s)
unfolding release_maintenance set_maintenance
release_maintenance-Inv node id s i = elim (Bool-cases (str_eq (s.maintenance node) id)) [
  | inl mine ↦ rw mine (set_maintenance-Inv node "" s i)
  | inr other ↦ rw other i
]

-- What a committed reservation found.
pub commit_maintenance-states :
    (conn : Conn) (id : String) (manual : Bool) (s : Manager)
    → let cleared = if manual then clear_abandoned conn s else s in
      ((commit_maintenance conn id manual s).1 ≡ s)
      ⊎ (((commit_maintenance conn id manual s) ≡ (none, set_maintenance conn.server_id id cleared))
          × ((live conn s ≡ true) × (activity_idle conn manual s ≡ true)))
unfolding commit_maintenance set_maintenance
commit_maintenance-states conn id manual s = ground arith

pub idle-uncounted :
    (conn : Conn) (manual : Bool) (s : Manager)
    → activity_idle conn manual s ≡ true
    → s.activity_counts conn ≡ 0
unfolding activity_idle
idle-uncounted conn manual s idle = ground arith

asserted-Inv :
    (manual : Bool) (conn : Conn) (s : Manager)
    → Inv s
    → live conn s ≡ true
    → s.activity_counts conn ≡ 0
    → Inv (if manual then clear_abandoned conn s else s)
asserted-Inv true conn s i alive z = clear_abandoned-Inv conn s i alive z
asserted-Inv false conn s i alive z = i

commit_maintenance-Inv :
    (conn : Conn) (id : String) (manual : Bool) (s : Manager)
    → Inv s
    → Inv (commit_maintenance conn id manual s).1
commit_maintenance-Inv conn id manual s i = elim (commit_maintenance-states conn id manual s) [
  | inl same ↦ rw same i
  | inr (e, (alive, idle)) ↦ rw e (
      set_maintenance-Inv conn.server_id id _
        (asserted-Inv manual conn s i alive (idle-uncounted conn manual s idle)))
]

pub reserve_maintenance-states :
    (conn : Conn) (id : String) (manual check : Bool) (s : Manager)
    → ((reserve_maintenance conn id manual check s).1 ≡ s)
      ⊎ (reserve_maintenance conn id manual check s ≡ commit_maintenance conn id manual s)
unfolding reserve_maintenance
reserve_maintenance-states conn id manual check s = ground arith

pub reserve_maintenance-Inv :
    (conn : Conn) (id : String) (manual check : Bool) (s : Manager)
    → Inv s
    → Inv (reserve_maintenance conn id manual check s).1
reserve_maintenance-Inv conn id manual check s i =
    elim (reserve_maintenance-states conn id manual check s) [
      | inl same ↦ rw same i
      | inr e ↦ rw e (commit_maintenance-Inv conn id manual s i)
    ]
