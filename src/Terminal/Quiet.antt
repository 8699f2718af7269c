-- ===== src/Terminal/Quiet.antt =====
-- Every operation on a registration leaves it later.
use Prim.Native.String.{String}
use veyport.Base.{
  ℕ, ◌≤◌, ◌≡◌, ◌∙◌, refl, Bool, true, false, ◌&&◌, Option, none, some, List, [], ◌∷◌, arith, find,
  any, is_some, length, Bool-cases, Option-cases, inl, inr, length-append, find-passes,
  count_where-update_where, update_where-none, find-none, sym,
}
use veyport.Base.Int.{ℤ}
use veyport.Base.Text.{Text}
use veyport.Relay.Keys.{eq_text}
use veyport.Terminal.Shells.{Event, Shell, Registry, at_key, is_shell, lookup, write, max_events}
use veyport.Terminal.Delivery.{accepts}
use veyport.Terminal.Ending.{
  deliver_exit, exit_event, end_locked, stop_credential_watch, end_exact, close_interactive,
  end_interactive_and_close, end_session, end_from, end_each, end_by_session, finish_end_all,
  remove_locked, remove, remove_unattached_with_close, is_current, end_captured_one, remove_shell,
}
use veyport.Terminal.Later.{Later, same-Laters, trans-Laters, write-Laters, aside-Later}
use veyport.Terminal.Books.{Orderly, Quiet, has_slot, Quiet-Orderly}

pub same-Quiet : (t : Registry) → Quiet t t
same-Quiet t = record {
  laters = same-Laters t.shells;
  issued = refl;
  maintenance = refl;
  slots = refl;
}

pub trans-Quiet : (a b c : Registry) → Quiet a b → Quiet b c → Quiet a c
trans-Quiet a b c p q = record {
  laters = trans-Laters _ _ _ p.laters q.laters;
  issued = q.issued ∙ p.issued;
  maintenance = q.maintenance ∙ p.maintenance;
  slots = omega (arith, p.slots, q.slots);
}

-- A write to the registration that a search has found.
pub write-Quiet :
    (p : Shell → Bool) (f : Shell → Shell) (s : Shell) (t : Registry)
    → Orderly t
    → find p t.shells ≡ some s
    → Later s (f s)
    → ((x : Shell) → (f x).slot ≡ x.slot)
    → Quiet t (write s.id f t)
unfolding write
write-Quiet p f s t i e l k = record {
  laters = write-Laters p f s t.shells i.once e l;
  issued = refl;
  maintenance = refl;
  slots = omega (
    arith,
    count_where-update_where has_slot has_slot (is_shell s.id) f t.shells
        (λ x. ground (arith, k x)),
  );
}

-- An exit fits into the queue, and brings no data.
deliver_exit-fits :
    (exit : Event) (ch : List Event)
    → length ch ≤ max_events
    → length (deliver_exit exit ch) ≤ max_events
unfolding deliver_exit
deliver_exit-fits exit [] h = omega arith
deliver_exit-fits exit (e ∷ ch) h =
    ground (arith, deliver_exit-fits exit ch, length-append (e ∷ ch) (exit ∷ []))

pub end_locked-Later :
    (code : ℤ) (message : String) (forced : Bool) (s : Shell)
    → Later s (end_locked code message forced s).1
unfolding end_locked stop_credential_watch deliver_exit any
end_locked-Later code message forced s = record {
  id = ground arith;
  server = ground arith;
  session = ground arith;
  user = ground arith;
  run_as = ground arith;
  sid = ground arith;
  kind = ground arith;
  closed = λ h. ground arith;
  removed = λ h. ground arith;
  exit = λ h. ground arith;
  streaming = λ h. ground arith;
  slot = λ h. ground arith;
  good = λ h. ground (arith, deliver_exit-fits (exit_event code message forced) s.ch);
}

pub slot-end_locked :
    (code : ℤ) (message : String) (forced : Bool) (s : Shell)
    → (end_locked code message forced s).1.slot ≡ s.slot
unfolding end_locked stop_credential_watch
slot-end_locked code message forced s = ground arith

pub end_exact-Quiet :
    (id : ℕ) (code : ℤ) (message : String) (forced : Bool) (t : Registry)
    → Orderly t
    → Quiet t (end_exact id code message forced t).1
unfolding end_exact
end_exact-Quiet id code message forced t i = elim (Option-cases (find (is_shell id) t.shells)) [
  | inl e ↦ rw e (same-Quiet t)
  | inr (s, e) ↦ elim (Bool-cases (is_current s t)) [
    | inr c ↦ rw (e, c) (same-Quiet t)
    | inl c ↦
        rw (e, c)
          (write-Quiet (is_shell id) _ s t i e (end_locked-Later code message forced s)
            (slot-end_locked code message forced))
  ]
]

unmatched-write :
    (id : ℕ) (f : Shell → Shell) (t : Registry)
    → find (is_shell id) t.shells ≡ none
    → Quiet t (write id f t)
unfolding write
unmatched-write id f t e =
    rw (update_where-none (is_shell id) f t.shells (find-none _ t.shells e)) (same-Quiet t)

-- A write at a pointer.
pub pointer-Quiet :
    (id : ℕ) (f : Shell → Shell) (t : Registry)
    → Orderly t
    → ((s : Shell) → find (is_shell id) t.shells ≡ some s → Later s (f s))
    → ((x : Shell) → (f x).slot ≡ x.slot)
    → Quiet t (write id f t)
pointer-Quiet id f t i l k = elim (Option-cases (find (is_shell id) t.shells)) [
  | inl e ↦ unmatched-write id f t e
  | inr (s, e) ↦
      let same : s.id ≡ id = ground (arith, find-passes (is_shell id) t.shells s e) in
      rw (sym same) (write-Quiet (is_shell id) f s t i e (l s e) k)
]

pub close_interactive-Quiet : (id : ℕ) (t : Registry) → Orderly t → Quiet t (close_interactive id t)
unfolding close_interactive
close_interactive-Quiet id t i =
    pointer-Quiet id _ t i (λ s e. aside-Later s _ s.revoked) (λ x. refl)

pub end_interactive_and_close-Quiet :
    (id : ℕ) (code : ℤ) (message : String) (t : Registry)
    → Orderly t
    → Quiet t (end_interactive_and_close id code message t).1
unfolding end_interactive_and_close
end_interactive_and_close-Quiet id code message t i =
    let t' = (end_exact id code message true t).1 in
    let q = end_exact-Quiet id code message true t i in
    elim (Bool-cases (end_exact id code message true t).0) [
      | inr e ↦ rw e q
      | inl e ↦ rw e (trans-Quiet t t' _ q (close_interactive-Quiet id t' (Quiet-Orderly t t' q i)))
    ]

pub end_session-Quiet :
    (server session : Text) (code : ℤ) (message : String) (forced : Bool) (t : Registry)
    → Orderly t
    → Quiet t (end_session server session code message forced t).1
unfolding end_session
end_session-Quiet server session code message forced t i =
    elim (Option-cases (lookup server session t)) [
      | inl e ↦ rw e (same-Quiet t)
      | inr (s, e) ↦ elim (Bool-cases (forced && is_some s.interactive)) [
        | inl c ↦ rw (e, c) (end_interactive_and_close-Quiet s.id code message t i)
        | inr c ↦ rw (e, c) (end_exact-Quiet s.id code message forced t i)
      ]
    ]

pub end_from-Quiet :
    (conn : ℕ) (server session : Text) (code : ℤ) (message : String) (t : Registry)
    → Orderly t
    → Quiet t (end_from conn server session code message t).1
unfolding end_from
end_from-Quiet conn server session code message t i =
    elim (Bool-cases (accepts conn (lookup server session t))) [
      | inl e ↦ rw e (end_session-Quiet server session code message false t i)
      | inr e ↦ rw e (same-Quiet t)
    ]

pub captured_one-Quiet :
    (code : ℤ) (message : String) (t : Registry) (o : Option Shell)
    → Orderly t
    → Quiet t (end_captured_one code message t o).1
captured_one-Quiet code message t none i = same-Quiet t
captured_one-Quiet code message t (some s) i = elim (Bool-cases (is_some s.interactive)) [
  | inl c ↦ rw c (end_interactive_and_close-Quiet s.id code message t i)
  | inr c ↦ rw c (end_session-Quiet s.server_id s.session_id code message true t i)
]

pub end_each-Quiet :
    (code : ℤ) (message : String) (ids : List ℕ) (t : Registry)
    → Orderly t
    → Quiet t (end_each code message ids t).1
unfolding end_each
end_each-Quiet code message [] t i = same-Quiet t
end_each-Quiet code message (id ∷ ids) t i =
    let q = captured_one-Quiet code message t (find (is_shell id) t.shells) i in
    trans-Quiet t _ _ q (end_each-Quiet code message ids _ (Quiet-Orderly t _ q i))

pub end_by_session-Quiet :
    (sid : Text) (code : ℤ) (message : String) (t : Registry)
    → Orderly t
    → Quiet t (end_by_session sid code message t).1
unfolding end_by_session
end_by_session-Quiet sid code message t i = elim (Bool-cases (eq_text sid [])) [
  | inl e ↦ rw e (same-Quiet t)
  | inr e ↦ rw e (end_each-Quiet code message _ t i)
]

pub finish_end_all-Quiet :
    (ids : List ℕ) (code : ℤ) (message : String) (t : Registry)
    → Orderly t
    → Quiet t (finish_end_all ids code message t)
unfolding finish_end_all
finish_end_all-Quiet [] code message t i = same-Quiet t
finish_end_all-Quiet (id ∷ ids) code message t i =
    let q =
      pointer-Quiet id (λ s. (end_locked code message false s).1) t i
        (λ s e. end_locked-Later code message false s) (slot-end_locked code message false) in
    trans-Quiet t _ _ q (finish_end_all-Quiet ids code message _ (Quiet-Orderly t _ q i))

remove_locked-Later : (s : Shell) → Later s (record (remove_locked s) { removed = true })
unfolding remove_locked any
remove_locked-Later s = record {
  id = refl;
  server = refl;
  session = refl;
  user = refl;
  run_as = refl;
  sid = refl;
  kind = refl;
  closed = λ h. refl;
  removed = λ h. refl;
  exit = λ h. refl;
  streaming = λ h. h;
  slot = λ h. h;
  good = λ h. ground arith;
}

pub remove_shell-Quiet :
    (p : Shell → Bool) (s : Shell) (t : Registry)
    → Orderly t
    → find p t.shells ≡ some s
    → Quiet t (remove_shell s t)
unfolding remove_locked
remove_shell-Quiet p s t i e = write-Quiet p _ s t i e (remove_locked-Later s) (λ x. refl)

pub remove-Quiet :
    (server session : Text) (t : Registry) → Orderly t → Quiet t (remove server session t).1
unfolding remove
remove-Quiet server session t i = elim (Option-cases (lookup server session t)) [
  | inl e ↦ rw e (same-Quiet t)
  | inr (s, e) ↦ rw e (remove_shell-Quiet (at_key server session) s t i e)
]

pub remove_unattached_with_close-Quiet :
    (server session : Text) (t : Registry)
    → Orderly t
    → Quiet t (remove_unattached_with_close server session t).1
unfolding remove_unattached_with_close
remove_unattached_with_close-Quiet server session t i =
    elim (Option-cases (lookup server session t)) [
      | inl e ↦ rw e (same-Quiet t)
      | inr (s, e) ↦ elim (Bool-cases s.streaming) [
        | inl c ↦ rw (e, c) (same-Quiet t)
        | inr c ↦ rw (e, c) (remove_shell-Quiet (at_key server session) s t i e)
      ]
    ]
