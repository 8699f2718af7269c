-- ===== src/Terminal/Servers.antt =====
-- The exit that a shell's consumer reads, and the shells that a lost server ends.
use Prim.Native.String.{String}
use veyport.Base.{
  ◌==◌, ◌≤◌, ◌≡◌, refl, ap, Bool, true, false, List, [], ◌∷◌, ◌++◌, arith, if◌then◌else◌, any,
  length, map, select, length-append, Bool-cases, inl, inr,
}
use veyport.Base.Int.{ℤ}
use veyport.Base.Text.{Text}
use veyport.Relay.Keys.{eq_text, make_key, has_colon}
use veyport.Terminal.Shells.{Event, Shell, Registry, max_events}
use veyport.Terminal.Ending.{
  deliver_exit, exit_event, end_locked, stop_credential_watch, has_prefix, prepare_end_all,
  captured,
}

-- What deliver_exit evicts, and what it keeps.
pub record Delivered (exit : Event) (old new : List Event) : Type 0 where
  pub evicted : List Event
  pub kept : List Event
  pub split : old ≡ evicted ++ kept
  pub ends : new ≡ kept ++ exit ∷ []
  pub least : length evicted ≤ 1
  pub fits : length new ≤ max_events

deliver_exit-short :
    (exit : Event) (ch : List Event) → length ch ≤ 255 → deliver_exit exit ch ≡ ch ++ exit ∷ []
unfolding deliver_exit
deliver_exit-short exit [] h = refl
deliver_exit-short exit (e ∷ ch) h = ground arith

deliver_exit-Delivered :
    (exit : Event) (ch : List Event)
    → length ch ≤ max_events
    → Delivered exit ch (deliver_exit exit ch)
unfolding deliver_exit
deliver_exit-Delivered exit [] h = record {
  evicted = [];
  kept = [];
  split = refl;
  ends = refl;
  least = omega arith;
  fits = omega arith;
}
deliver_exit-Delivered exit (e ∷ ch) h = elim (Bool-cases (length (e ∷ ch) == max_events)) [
  | inl full ↦
      rw (deliver_exit, full)
        (record {
          evicted = e ∷ [];
          kept = ch;
          split = refl;
          ends = deliver_exit-short exit ch (ground arith);
          least = omega arith;
          fits =
              rw (deliver_exit-short exit ch (ground arith))
                (ground (arith, length-append ch (exit ∷ [])));
        })
  | inr room ↦
      rw (deliver_exit, room)
        (record {
          evicted = [];
          kept = e ∷ ch;
          split = refl;
          ends = refl;
          least = omega arith;
          fits = ground (arith, length-append (e ∷ ch) (exit ∷ []));
        })
]

-- Ending an open shell whose queue is within its capacity closes it and puts the exit last into the
-- queue: behind all that was queued but at most the oldest event, when the agent reported the exit,
-- and alone, when the hub forced it. Ending it once more, in a way that is not forced or after a
-- forced end, does nothing and answers false.
pub end_locked-once :
    (code : ℤ) (message : String) (forced : Bool) (code' : ℤ) (message' : String) (forced' : Bool)
    (s : Shell)
    → s.closed ≡ false
    → length s.ch ≤ max_events
    → (forced' ≡ true → forced ≡ true)
    → let r = end_locked code message forced s in
      ((r.0 ≡ true) × (r.1.closed ≡ true))
      × (Delivered (exit_event code message forced) (if forced then [] else s.ch) r.1.ch
          × (end_locked code' message' forced' r.1 ≡ (false, r.1)))
unfolding end_locked stop_credential_watch
end_locked-once code message true code' message' forced' s h k f = (
  (ground arith, ground arith),
  (rw h (deliver_exit-Delivered (exit_event code message true) [] (omega arith)), ground arith),
)
end_locked-once code message false code' message' true s h k f = ground (arith, f refl)
end_locked-once code message false code' message' false s h k f = (
  (ground arith, ground arith),
  (rw h (deliver_exit-Delivered (exit_event code message false) s.ch k), ground arith),
)

has_prefix-make_key :
    (server other session : Text)
    → has_colon server ≡ false
    → has_colon other ≡ false
    → has_prefix (make_key server []) (make_key other session) ≡ eq_text other server
unfolding has_prefix make_key eq_text any
has_prefix-make_key [] [] session h k = ground arith
has_prefix-make_key [] (d ∷ other) session h k = ground arith
has_prefix-make_key (c ∷ server) [] session h k = ground arith
has_prefix-make_key (c ∷ server) (d ∷ other) session h k =
    ground (arith, has_prefix-make_key server other session)

select-same :
    (p q bad : Shell → Bool) (ss : List Shell)
    → ((s : Shell) → bad s ≡ false → p s ≡ q s)
    → any bad ss ≡ false
    → select p ss ≡ select q ss
unfolding select any
select-same p q bad [] e h = refl
select-same p q bad (s ∷ ss) e h = ground (arith, e s, select-same p q bad ss e)

-- When no server id holds a colon, what EndAll captures by the prefix of the keys is exactly the
-- registrations of its server.
pub prepare_end_all_lem :
    (server : Text) (t : Registry)
    → has_colon server ≡ false
    → any (λ s. has_colon s.server_id) t.shells ≡ false
    → prepare_end_all server t ≡ captured (λ s. eq_text s.server_id server) t
unfolding prepare_end_all captured
prepare_end_all_lem server t h k = ap (map (λ s. s.id)) (
    select-same _ _ (λ s. has_colon s.server_id) t.shells
      (λ s e. ground (arith, has_prefix-make_key server s.server_id s.session_id h e)) k)
