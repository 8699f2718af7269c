-- ===== src/Terminal/Traffic.antt =====
-- Deliveries, guarded sends and the rechecks of authority leave every registration later.
use veyport.Base.{
  ℕ, ◌+◌, ◌-◌, ◌≡◌, refl, Bool, true, false, ◌||◌, not, Option, none, some, List, [], ◌∷◌, arith,
  find, any, is_some, update_where, count_where, Bool-cases, Option-cases, inl, inr, length-append,
  find-any, ap, update_where-none, find-update_where,
}
use veyport.Base.Int.{pos}
use veyport.Base.Text.{Text}
use veyport.Base.Time.{Instant}
use veyport.Relay.Keys.{eq_text}
use veyport.Terminal.Shells.{Event, Shell, Registry, at_key, is_shell, lookup, write}
use veyport.Terminal.Delivery.{
  deliver_data_locked, attach_stream, deliver_data, deliver_data_from, receive, accepts, data_event,
}
use veyport.Terminal.Ending.{close_interactive, close_sent, is_current}
use veyport.Terminal.Interactive.{
  send_guarded, send_interactive, guarded, may_send, close_terminal, recheck, recheck_one, names,
  stale, end_stale_credential, stale_one, end_stale, watcher_returns,
}
use veyport.Terminal.Later.{Later, is_good, aside-Later, trans-Later, write-Laters, distinct}
use veyport.Terminal.Books.{Orderly, Quiet, has_slot, Quiet-Orderly}
use veyport.Terminal.Quiet.{
  same-Quiet, trans-Quiet, write-Quiet, pointer-Quiet, end_exact-Quiet, close_interactive-Quiet,
  end_interactive_and_close-Quiet, end_locked-Later, slot-end_locked,
}

attach-Later : (s : Shell) → Later s (record s { streaming = true })
attach-Later s = record {
  id = refl;
  server = refl;
  session = refl;
  user = refl;
  run_as = refl;
  sid = refl;
  kind = refl;
  closed = λ h. h;
  removed = λ h. h;
  exit = λ h. h;
  streaming = λ h. refl;
  slot = λ h. h;
  good = λ h. h;
}

pub attach_stream-Quiet :
    (server session user : Text) (t : Registry)
    → Orderly t
    → Quiet t (attach_stream server session user t).1
unfolding attach_stream
attach_stream-Quiet server session user t i = elim (Option-cases (lookup server session t)) [
  | inl e ↦ rw e (same-Quiet t)
  | inr (s, e) ↦ elim (Bool-cases (eq_text s.user_id user)) [
    | inr c ↦ rw (e, c) (same-Quiet t)
    | inl c ↦ elim (Bool-cases s.streaming) [
      | inl d ↦ rw (e, c, d) (same-Quiet t)
      | inr d ↦
          rw (e, c, d) (write-Quiet (at_key server session) _ s t i e (attach-Later s) (λ x. refl))
    ]
  ]
]

-- Data reaches a shell that is not closed.
deliver_data_locked-Later :
    (bytes : Text) (now : Instant) (s : Shell)
    → s.closed ≡ false
    → Later s (deliver_data_locked bytes now s).1
unfolding deliver_data_locked any
deliver_data_locked-Later bytes now s unclosed = record {
  id = ground arith;
  server = ground arith;
  session = ground arith;
  user = ground arith;
  run_as = ground arith;
  sid = ground arith;
  kind = ground arith;
  closed = λ h. ground arith;
  removed = λ h. ground arith;
  exit = λ h. ground arith;
  streaming = λ h. ground arith;
  slot = λ h. ground arith;
  good = λ h. ground (arith, length-append s.ch (data_event bytes ∷ []));
}

slot-deliver_data_locked :
    (bytes : Text) (now : Instant) (s : Shell) → (deliver_data_locked bytes now s).1.slot ≡ s.slot
unfolding deliver_data_locked
slot-deliver_data_locked bytes now s = ground arith

pub deliver_data-Quiet :
    (server session bytes : Text) (now : Instant) (t : Registry)
    → Orderly t
    → Quiet t (deliver_data server session bytes now t).1
unfolding deliver_data
deliver_data-Quiet server session bytes now t i = elim (Option-cases (lookup server session t)) [
  | inl e ↦ rw e (same-Quiet t)
  | inr (s, e) ↦ elim (Bool-cases s.closed) [
    | inl c ↦ rw (e, c) (same-Quiet t)
    | inr c ↦
        rw (e, c)
          (write-Quiet (at_key server session) _ s t i e (deliver_data_locked-Later bytes now s c)
            (slot-deliver_data_locked bytes now))
  ]
]

pub deliver_data_from-Quiet :
    (conn : ℕ) (server session bytes : Text) (now : Instant) (t : Registry)
    → Orderly t
    → Quiet t (deliver_data_from conn server session bytes now t).1
unfolding deliver_data_from deliver_data
deliver_data_from-Quiet conn server session bytes now t i =
    elim (Bool-cases (accepts conn (lookup server session t))) [
      | inl e ↦ rw e (deliver_data-Quiet server session bytes now t i)
      | inr e ↦ rw e (same-Quiet t)
    ]

rest_of : List Event → List Event
rest_of ch = elim ch [ [] ↦ [] | e ∷ rest ↦ rest ]

receive-good : (s : Shell) → is_good s ≡ true → is_good (record s { ch = rest_of s.ch }) ≡ true
unfolding any rest_of
receive-good s h =
    elim s.ch
        as (λ ch.
          is_good (record s { ch = ch }) ≡ true → is_good (record s { ch = rest_of ch }) ≡ true) [
            | [] ↦ λ k. k
            | e ∷ rest ↦ λ k. ground arith
          ]
      h

pub receive-Quiet : (id : ℕ) (t : Registry) → Orderly t → Quiet t (receive id t)
unfolding receive rest_of
receive-Quiet id t i =
    pointer-Quiet id _ t i
      (λ s e. record {
        id = refl;
        server = refl;
        session = refl;
        user = refl;
        run_as = refl;
        sid = refl;
        kind = refl;
        closed = λ h. h;
        removed = λ h. h;
        exit = λ h. h;
        streaming = λ h. h;
        slot = λ h. h;
        good = receive-good s;
      })
      (λ x. refl)

guarded-Quiet :
    (opens : Bool) (conn : Option ℕ) (answer : Option Text) (delivered : Bool) (t : Registry)
    (s : Shell) (p : Shell → Bool)
    → Orderly t
    → find p t.shells ≡ some s
    → Quiet t (guarded opens conn answer delivered t (some s)).1
unfolding may_send
guarded-Quiet opens conn answer delivered t s p i e = elim (Option-cases s.interactive) [
  | inl c ↦ rw c (same-Quiet t)
  | inr (a, c) ↦
      let ended =
        end_interactive_and_close-Quiet s.id (pos 1)
          "Terminal authorization or agent connection changed." t i in
      elim (Bool-cases (may_send opens conn answer a s t)) [
        | inr m ↦ rw (c, m) ended
        | inl m ↦ elim (Bool-cases delivered) [
          | inr d ↦ rw (c, m, d) ended
          | inl d ↦ elim (Bool-cases opens) [
            | inr o ↦ rw (c, m, d, o) (same-Quiet t)
            | inl o ↦
                rw (c, m, d, o) (write-Quiet p _ s t i e (aside-Later s _ s.revoked) (λ x. refl))
          ]
        ]
      ]
]

pub send_guarded-Quiet :
    (id : ℕ) (opens : Bool) (conn : Option ℕ) (answer : Option Text) (delivered : Bool)
    (t : Registry)
    → Orderly t
    → Quiet t (send_guarded id opens conn answer delivered t).1
unfolding send_guarded
send_guarded-Quiet id opens conn answer delivered t i =
    elim (Option-cases (find (is_shell id) t.shells)) [
      | inl e ↦ rw e (same-Quiet t)
      | inr (s, e) ↦ rw e (guarded-Quiet opens conn answer delivered t s (is_shell id) i e)
    ]

pub send_interactive-Quiet :
    (server session : Text) (opens : Bool) (conn : Option ℕ) (answer : Option Text)
    (delivered : Bool) (t : Registry)
    → Orderly t
    → Quiet t (send_interactive server session opens conn answer delivered t).1
unfolding send_interactive
send_interactive-Quiet server session opens conn answer delivered t i =
    elim (Option-cases (lookup server session t)) [
      | inl e ↦ rw e (same-Quiet t)
      | inr (s, e) ↦ elim (Bool-cases (s.closed || not (is_some s.interactive))) [
        | inl c ↦ rw (e, c) (same-Quiet t)
        | inr c ↦ rw (e, c) (send_guarded-Quiet s.id opens conn answer delivered t i)
      ]
    ]

pub close_terminal-Quiet :
    (server session : Text) (t : Registry) → Orderly t → Quiet t (close_terminal server session t).1
unfolding close_terminal
close_terminal-Quiet server session t i = elim (Option-cases (lookup server session t)) [
  | inl e ↦ rw e (same-Quiet t)
  | inr (s, e) ↦ elim (Bool-cases (is_some s.interactive)) [
    | inr c ↦ rw (e, c) (same-Quiet t)
    | inl c ↦
        let q = end_exact-Quiet s.id (pos 0) "Terminal closed by the hub." true t i in
        rw (e, c) (trans-Quiet t _ _ q (close_interactive-Quiet s.id _ (Quiet-Orderly t _ q i)))
  ]
]

pub recheck_one-Quiet :
    (validate : ℕ → Option Text) (t : Registry) (o : Option Shell)
    → Orderly t
    → Quiet t (recheck_one validate t o)
recheck_one-Quiet validate t none i = same-Quiet t
recheck_one-Quiet validate t (some s) i =
    elim (Bool-cases (names (validate s.id) s.execution_user)) [
      | inl c ↦ rw c (same-Quiet t)
      | inr c ↦ rw c (
          end_interactive_and_close-Quiet s.id (pos 1)
            "Security policy or terminal authorization changed." t i)
    ]

pub recheck-Quiet :
    (validate : ℕ → Option Text) (ids : List ℕ) (t : Registry)
    → Orderly t
    → Quiet t (recheck validate ids t)
unfolding recheck
recheck-Quiet validate [] t i = same-Quiet t
recheck-Quiet validate (id ∷ ids) t i =
    let q = recheck_one-Quiet validate t (find (is_shell id) t.shells) i in
    trans-Quiet t _ _ q (recheck-Quiet validate ids _ (Quiet-Orderly t _ q i))

stale-Later : (s : Shell) → Later s (stale s)
unfolding stale
stale-Later s =
    trans-Later s (record s { revoked = true }) _ (aside-Later s s.interactive true)
      (end_locked-Later (pos 1) "Terminal credentials or authorization revoked." true _)

slot-stale : (s : Shell) → (stale s).slot ≡ s.slot
unfolding stale
slot-stale s =
    slot-end_locked (pos 1) "Terminal credentials or authorization revoked." true
      (record s { revoked = true })

pub end_stale_credential-Quiet :
    (id : ℕ) (t : Registry) → Orderly t → Quiet t (end_stale_credential id t)
unfolding end_stale_credential
end_stale_credential-Quiet id t i = elim (Option-cases (find (is_shell id) t.shells)) [
  | inl e ↦ rw e (same-Quiet t)
  | inr (s, e) ↦ elim (Bool-cases (not (is_current s t) || s.revoked)) [
    | inl c ↦ rw (e, c) (same-Quiet t)
    | inr c ↦ rw (e, c) (write-Quiet (is_shell id) stale s t i e (stale-Later s) slot-stale)
  ]
]

stale_one-Quiet :
    (live : Shell → Bool) (t : Registry) (o : Option Shell)
    → Orderly t
    → Quiet t (stale_one live t o)
stale_one-Quiet live t none i = same-Quiet t
stale_one-Quiet live t (some s) i = elim (Bool-cases (live s)) [
  | inl c ↦ rw c (same-Quiet t)
  | inr c ↦ rw c (end_stale_credential-Quiet s.id t i)
]

pub end_stale-Quiet :
    (live : Shell → Bool) (ids : List ℕ) (t : Registry) → Orderly t → Quiet t (end_stale live ids t)
unfolding end_stale
end_stale-Quiet live [] t i = same-Quiet t
end_stale-Quiet live (id ∷ ids) t i =
    let q = stale_one-Quiet live t (find (is_shell id) t.shells) i in
    trans-Quiet t _ _ q (end_stale-Quiet live ids _ (Quiet-Orderly t _ q i))

given_back-count :
    (p : Shell → Bool) (s : Shell) (ss : List Shell)
    → distinct ss ≡ true
    → find p ss ≡ some s
    → s.slot ≡ true
    → count_where has_slot (update_where (is_shell s.id) (λ x. record x { slot = false }) ss) + 1
      ≡ count_where has_slot ss
unfolding find update_where count_where distinct
given_back-count p s [] d e h = ground arith
given_back-count p s (x ∷ ss) d e h = elim (Bool-cases (p x)) [
  | inl c ↦
      let same : x ≡ s = ground arith in
      let alone : any (is_shell s.id) ss ≡ false = ground arith in
      ground (
        arith,
        ap (λ y. y.slot) same,
        ap (λ y. y.id) same,
        update_where-none (is_shell s.id) (λ y. record y { slot = false }) ss alone,
      )
  | inr c ↦
      let rest : find p ss ≡ some s = ground arith in
      ground (
        arith,
        given_back-count p s ss (ground arith) rest h,
        find-any p (is_shell x.id) ss s rest (ground arith),
      )
]

-- A slot is given back by the shell that holds it.
give_back-Quiet :
    (p : Shell → Bool) (s : Shell) (t : Registry)
    → Orderly t
    → find p t.shells ≡ some s
    → s.slot ≡ true
    → Quiet t (record (write s.id (λ x. record x { slot = false }) t) {
      credential_watchers = t.credential_watchers - 1;
    })
unfolding write
give_back-Quiet p s t i e h = record {
  laters =
      write-Laters p (λ x. record x { slot = false }) s t.shells i.once e
        (record {
          id = refl;
          server = refl;
          session = refl;
          user = refl;
          run_as = refl;
          sid = refl;
          kind = refl;
          closed = λ k. k;
          removed = λ k. k;
          exit = λ k. k;
          streaming = λ k. k;
          slot = λ k. ground arith;
          good = λ k. k;
        });
  issued = refl;
  maintenance = refl;
  slots = omega (arith, given_back-count p s t.shells i.once e h, i.slots);
}

closed-found :
    (id : ℕ) (s : Shell) (t : Registry)
    → find (is_shell id) t.shells ≡ some s
    → find (is_shell id) (close_interactive s.id t).shells
      ≡ some (record s { interactive = close_sent s.interactive })
unfolding close_interactive write
closed-found id s t e = ground (
  arith,
  find-update_where (is_shell id) (is_shell s.id)
      (λ x. record x { interactive = close_sent x.interactive }) t.shells (some s) (λ x. refl) e,
)

pub watcher_returns-Quiet : (id : ℕ) (t : Registry) → Orderly t → Quiet t (watcher_returns id t)
unfolding watcher_returns close_interactive write
watcher_returns-Quiet id t i = elim (Option-cases (find (is_shell id) t.shells)) [
  | inl e ↦ rw e (same-Quiet t)
  | inr (s, e) ↦ elim (Bool-cases s.slot) [
    | inr c ↦ rw (e, c) (same-Quiet t)
    | inl c ↦ elim (Bool-cases s.revoked) [
      | inr d ↦ rw (e, c, d) (give_back-Quiet (is_shell id) s t i e c)
      | inl d ↦
          let q = close_interactive-Quiet s.id t i in
          let i' = Quiet-Orderly t _ q i in
          rw (e, c, d)
            (trans-Quiet t _ _ q (
              give_back-Quiet (is_shell id) (record s { interactive = close_sent s.interactive })
                (close_interactive s.id t) i' (closed-found id s t e) c))
    ]
  ]
]
