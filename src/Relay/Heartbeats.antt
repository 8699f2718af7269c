-- ===== src/Relay/Heartbeats.antt =====
-- heartbeat_coalescer.go. `writes` lists the servers whose last_seen_at was written, newest first.
use veyport.Base.{
  ℕ, ◌≡◌, ◌≢◌, refl, Bool, true, false, ◌&&◌, not, Option, none, some, List, [], ◌∷◌, ◌++◌, map,
  arith, if◌then◌else◌, find, select, count_where, ◌⊎◌, inl, inr, Bool-cases, Option-cases, ap, ◌∙◌,
  suc,
}
use veyport.Base.Int.{ltb_ℤ}
use veyport.Base.Text.{Text}
use veyport.Base.Time.{Instant, Duration, sub}
use veyport.Relay.Keys.{eq_text, eq_text_iff}

pub record HeartbeatCoalescer : Type 0 where
  pub interval : Duration
  pub last_written : List (Text × Instant)
  pub writes : List Text

unfoldable pub new : Duration → HeartbeatCoalescer
new interval = record { interval = interval; last_written = []; writes = [] }

abbrev pub for_server : Text → Text × Instant → Bool
for_server s (t, at) = eq_text t s

unfoldable pub drop_server : Text → List (Text × Instant) → List (Text × Instant)
drop_server s entries = select (λ e. not (for_server s e)) entries

-- lastWritten[s] = now, and the write to the database.
unfoldable pub write : Text → Instant → HeartbeatCoalescer → HeartbeatCoalescer
write s now hc = record hc {
  last_written = (s, now) ∷ drop_server s hc.last_written;
  writes = s ∷ hc.writes;
}

record_found :
    Text → Instant → Option (Text × Instant) → HeartbeatCoalescer → Bool × HeartbeatCoalescer
record_found s now none hc = (true, write s now hc)
record_found s now (some (t, last)) hc =
    if ltb_ℤ (sub now last) hc.interval then (false, hc) else (true, write s now hc)

unfoldable pub record_heartbeat : Text → Instant → HeartbeatCoalescer → Bool × HeartbeatCoalescer
unfolding record_found
record_heartbeat s now hc = record_found s now (find (for_server s) hc.last_written) hc

unfoldable pub force_write : Text → Instant → HeartbeatCoalescer → HeartbeatCoalescer
force_write s now hc = write s now hc

unfoldable pub flush : Text → HeartbeatCoalescer → HeartbeatCoalescer
flush s hc = record hc { last_written = drop_server s hc.last_written; writes = s ∷ hc.writes }

abbrev pub servers : List (Text × Instant) → List Text
servers entries = map (λ e. e.0) entries

unfoldable pub flush_all : HeartbeatCoalescer → HeartbeatCoalescer
flush_all hc = record hc { last_written = []; writes = servers hc.last_written ++ hc.writes }

pub data Op : Type 0 where
  beat force : Text → Instant → Op
  drop : Text → Op

unfoldable pub apply : Op → HeartbeatCoalescer → HeartbeatCoalescer
apply (beat s now) hc = (record_heartbeat s now hc).1
apply (force s now) hc = force_write s now hc
apply (drop s) hc = flush s hc

unfoldable pub run : List Op → HeartbeatCoalescer → HeartbeatCoalescer
run [] hc = hc
run (op ∷ ops) hc = run ops (apply op hc)

-- Heartbeats of the server within the interval after `start`, and anything for other servers.
unfoldable pub is_within : Text → Instant → Duration → Op → Bool
is_within s start interval (beat t now) =
    if eq_text t s then ltb_ℤ (sub now start) interval else true
is_within s start interval (force t now) = not (eq_text t s)
is_within s start interval (drop t) = not (eq_text t s)

unfoldable pub all_within : Text → Instant → Duration → List Op → Bool
all_within s start interval [] = true
all_within s start interval (op ∷ ops) =
    is_within s start interval op && all_within s start interval ops

unfoldable pub writes_of : Text → HeartbeatCoalescer → ℕ
writes_of s hc = count_where (λ t. eq_text t s) hc.writes

find-drop_server :
    (s t : Text) (entries : List (Text × Instant))
    → t ≢ s
    → find (for_server s) (drop_server t entries) ≡ find (for_server s) entries
unfolding drop_server find select
find-drop_server s t [] d = refl
find-drop_server s t ((u, at) ∷ entries) d =
    ground (arith, find-drop_server s t entries, eq_text_iff u s, eq_text_iff u t)

find-write :
    (s t : Text) (now : Instant) (hc : HeartbeatCoalescer)
    → t ≢ s
    → find (for_server s) (write t now hc).last_written ≡ find (for_server s) hc.last_written
unfolding write find
find-write s t now hc d = ground (arith, find-drop_server s t hc.last_written, eq_text_iff t s)

-- A beat writes or changes nothing.
record_heartbeat-states :
    (s : Text) (now : Instant) (hc : HeartbeatCoalescer)
    → (record_heartbeat s now hc ≡ (true, write s now hc))
      ⊎ (record_heartbeat s now hc ≡ (false, hc))
unfolding record_heartbeat
record_heartbeat-states s now hc = elim (Option-cases (find (for_server s) hc.last_written)) [
  | inl none_yet ↦ inl (rw none_yet refl)
  | inr ((t, last), e) ↦ elim (Bool-cases (ltb_ℤ (sub now last) hc.interval)) [
    | inl soon ↦ inr (rw (e, soon) refl)
    | inr late ↦ inl (rw (e, late) refl)
  ]
]

record_heartbeat-soon :
    (s : Text) (start now : Instant) (hc : HeartbeatCoalescer)
    → find (for_server s) hc.last_written ≡ some (s, start)
    → ltb_ℤ (sub now start) hc.interval ≡ true
    → record_heartbeat s now hc ≡ (false, hc)
unfolding record_heartbeat
record_heartbeat-soon s start now hc f soon = rw (f, soon) refl

writes_of-write :
    (s t : Text) (now : Instant) (hc : HeartbeatCoalescer)
    → t ≢ s
    → writes_of s (write t now hc) ≡ writes_of s hc
unfolding writes_of write count_where
writes_of-write s t now hc d = ground (arith, eq_text_iff t s)

-- One operation within the interval of the server's last write.
apply-within :
    (s : Text) (start : Instant) (op : Op) (hc : HeartbeatCoalescer)
    → find (for_server s) hc.last_written ≡ some (s, start)
    → is_within s start hc.interval op ≡ true
    → (find (for_server s) (apply op hc).last_written ≡ some (s, start))
      × ((writes_of s (apply op hc) ≡ writes_of s hc) × ((apply op hc).interval ≡ hc.interval))
unfolding apply is_within force_write flush writes_of write count_where
apply-within s start (beat t now) hc f w = elim (Bool-cases (eq_text t s)) [
  | inl same ↦
      let soon : record_heartbeat s now hc ≡ (false, hc) =
        record_heartbeat-soon s start now hc f (ground arith) in
      let t_is : t ≡ s = ground (arith, eq_text_iff t s) in
      let e : (record_heartbeat t now hc).1 ≡ hc =
        ap (λ u. (record_heartbeat u now hc).1) t_is ∙ ap (λ r. r.1) soon in
      (rw (apply, e) f, (rw (apply, e) refl, rw (apply, e) refl))
  | inr different ↦
      let other : t ≢ s = λ e. ground (arith, eq_text_iff t s) in
      elim (record_heartbeat-states t now hc) [
        | inr e ↦ (rw (apply, e) f, (rw (apply, e) refl, rw (apply, e) refl))
        | inl e ↦ (
          rw (apply, e) (find-write s t now hc other ∙ f),
          (rw (apply, e) (writes_of-write s t now hc other), rw (apply, e) refl),
        )
      ]
]
apply-within s start (force t now) hc f w =
    let other : t ≢ s = λ e. ground (arith, eq_text_iff t s) in
    (find-write s t now hc other ∙ f, (ground (arith, eq_text_iff t s), refl))
apply-within s start (drop t) hc f w =
    let other : t ≢ s = λ e. ground (arith, eq_text_iff t s) in
    (find-drop_server s t hc.last_written other ∙ f, (ground (arith, eq_text_iff t s), refl))

run-within :
    (s : Text) (start : Instant) (ops : List Op) (hc : HeartbeatCoalescer)
    → find (for_server s) hc.last_written ≡ some (s, start)
    → all_within s start hc.interval ops ≡ true
    → writes_of s (run ops hc) ≡ writes_of s hc
unfolding run all_within
run-within s start [] hc f w = refl
run-within s start (op ∷ ops) hc f w =
    let (f', (same, interval)) = apply-within s start op hc f (ground arith) in
    run-within s start ops (apply op hc) f' (rw interval (ground arith)) ∙ same

find-own :
    (s : Text) (now : Instant) (hc : HeartbeatCoalescer)
    → find (for_server s) (write s now hc).last_written ≡ some (s, now)
unfolding write find
find-own s now hc = ground (arith, eq_text_iff s s)

writes_of-own :
    (s : Text) (now : Instant) (hc : HeartbeatCoalescer)
    → writes_of s (write s now hc) ≡ suc (writes_of s hc)
unfolding writes_of write count_where
writes_of-own s now hc = ground (arith, eq_text_iff s s)

-- Coalescing: after a heartbeat that was written, any sequence of heartbeats of that server that come
-- less than the interval after it, and of any operations for other servers, writes nothing more for
-- the server: its writes grow by exactly that one.
pub record_heartbeat-run :
    (s : Text) (start : Instant) (ops : List Op) (hc : HeartbeatCoalescer)
    → (record_heartbeat s start hc).0 ≡ true
    → all_within s start hc.interval ops ≡ true
    → writes_of s (run ops (record_heartbeat s start hc).1) ≡ suc (writes_of s hc)
unfolding write
record_heartbeat-run s start ops hc wrote w = elim (record_heartbeat-states s start hc) [
  | inr e ↦ ground arith
  | inl e ↦
      rw e (
        run-within s start ops (write s start hc) (find-own s start hc) w
        ∙ writes_of-own s start hc)
]
