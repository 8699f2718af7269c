-- ===== src/Relay/Logs/Ledger.antt =====
-- The accounts of one log session: what was offered, accepted, received and reported as lost.
use veyport.Base.{
  ℕ, ◌+◌, ◌^◌, ◌≤◌, ◌<◌, ◌≡◌, refl, ltb, Option, none, some, List, [], ◌∷◌, ◌++◌, arith,
  if◌then◌else◌, length, length-append, find, find-passes, find-update_where, update_where, inl,
  inr, Bool-cases, ap, ◌∙◌, sym,
}
use veyport.Base.Text.{Text}
use veyport.Relay.Keys.{eq_text, eq_text_iff, make_key}
use veyport.Relay.Logs.{
  LogSession, LogSessions, for_key, register, enqueue, lose, deliver, reset, drain_overflow, tail,
  drop_first, first, receive,
}

pub data Event : Type 0 where
  chunk : Text → Event
  drain take : Event

pub record Trace : Type 0 where
  pub sessions : LogSessions
  pub offered : ℕ
  pub accepted : List Text
  pub got : List Text
  pub reported : ℕ

abbrev pub taken : Option Text → List Text
taken none = []
taken (some c) = c ∷ []

unfoldable pub step : Text → Text → Event → Trace → Trace
step s r (chunk c) t =
    let (ok, ls) = deliver s r c t.sessions in
    record t {
      sessions = ls;
      offered = t.offered + 1;
      accepted = if ok then t.accepted ++ c ∷ [] else t.accepted;
    }
step s r drain t =
    let (n, ls) = drain_overflow s r t.sessions in
    record t { sessions = ls; reported = t.reported + n }
step s r take t =
    let (o, ls) = receive s r t.sessions in record t { sessions = ls; got = t.got ++ taken o }

unfoldable pub run : Text → Text → List Event → Trace → Trace
run s r [] t = t
run s r (ev ∷ evs) t = run s r evs (step s r ev t)

unfoldable pub start : Text → Text → LogSessions → Trace
start s r ls = record {
  sessions = register s r ls;
  offered = 0;
  accepted = [];
  got = [];
  reported = 0;
}

pub record Accounted (k : Text) (t : Trace) : Type 0 where
  pub session : LogSession
  pub found : find (for_key k) t.sessions ≡ some session
  pub bounded : length session.channel ≤ 64
  pub in_order : t.got ++ session.channel ≡ t.accepted
  pub counted : t.offered ≡ length t.accepted + session.overflow + t.reported

find-updated :
    (k : Text) (f : LogSession → LogSession) (ls : LogSessions) (e : LogSession)
    → ((x : LogSession) → (f x).key ≡ x.key)
    → find (for_key k) ls ≡ some e
    → find (for_key k) (update_where (for_key k) f ls) ≡ some (f e)
find-updated k f ls e keep h =
    find-update_where (for_key k) (for_key k) f ls (some e) (λ x. ap (λ j. eq_text j k) (keep x)) h
    ∙ rw (find-passes (for_key k) ls e h) refl

append_assoc : (xs ys zs : List Text) → (xs ++ ys) ++ zs ≡ xs ++ (ys ++ zs)
append_assoc [] ys zs = refl
append_assoc (x ∷ xs) ys zs = ap (◌∷◌ x) (append_assoc xs ys zs)

append-nil : (xs : List Text) → xs ++ [] ≡ xs
append-nil [] = refl
append-nil (x ∷ xs) = ap (◌∷◌ x) (append-nil xs)

chunk-Accounted :
    (s r c : Text) (t : Trace)
    → t.offered + 1 < 2 ^ 64
    → Accounted (make_key s r) t
    → Accounted (make_key s r) (step s r (chunk c) t)
unfolding step deliver
chunk-Accounted s r c t small b =
    let k = make_key s r in
    let e = b.session in
    elim (Bool-cases (ltb (length e.channel) 64)) [
      | inl room ↦
          rw (b.found, room)
            (record {
              session = enqueue c e;
              found = find-updated k (enqueue c) t.sessions e (λ x. refl) b.found;
              bounded = ground (arith, length-append e.channel (c ∷ []));
              in_order =
                  sym (append_assoc t.got e.channel (c ∷ [])) ∙ ap (λ l. l ++ c ∷ []) b.in_order;
              counted = omega (arith, b.counted, length-append t.accepted (c ∷ []));
            })
      | inr full ↦
          rw (b.found, full)
            (record {
              session = lose e;
              found = find-updated k lose t.sessions e (λ x. refl) b.found;
              bounded = b.bounded;
              in_order = b.in_order;
              counted = omega (arith, b.counted, small);
            })
    ]

drain-Accounted :
    (s r : Text) (t : Trace)
    → Accounted (make_key s r) t
    → Accounted (make_key s r) (step s r drain t)
unfolding step drain_overflow
drain-Accounted s r t b =
    let k = make_key s r in
    let e = b.session in
    elim (Bool-cases (ltb 0 e.overflow)) [
      | inr none_lost ↦
          rw (b.found, none_lost)
            (record {
              session = e;
              found = b.found;
              bounded = b.bounded;
              in_order = b.in_order;
              counted = ground (arith, b.counted);
            })
      | inl some_lost ↦
          rw (b.found, some_lost)
            (record {
              session = reset e;
              found = find-updated k reset t.sessions e (λ x. refl) b.found;
              bounded = b.bounded;
              in_order = b.in_order;
              counted = omega (arith, b.counted);
            })
    ]

taken-first :
    (got channel : List Text)
    → (got ++ taken (first channel)) ++ drop_first channel ≡ got ++ channel
unfolding first
taken-first got [] = append-nil (got ++ [])
taken-first got (c ∷ cs) = append_assoc got (c ∷ []) cs

length-drop_first : (channel : List Text) → length (drop_first channel) ≤ length channel
length-drop_first [] = omega arith
length-drop_first (c ∷ cs) = omega arith

take-Accounted :
    (s r : Text) (t : Trace)
    → Accounted (make_key s r) t
    → Accounted (make_key s r) (step s r take t)
unfolding step receive
take-Accounted s r t b =
    let e = b.session in
    rw b.found (record {
      session = tail e;
      found = find-updated (make_key s r) tail t.sessions e (λ x. refl) b.found;
      bounded = omega (arith, b.bounded, length-drop_first e.channel);
      in_order = taken-first t.got e.channel ∙ b.in_order;
      counted = b.counted;
    })

start-Accounted : (s r : Text) (ls : LogSessions) → Accounted (make_key s r) (start s r ls)
unfolding start register find
start-Accounted s r ls = record {
  session = record { key = make_key s r; channel = []; overflow = 0 };
  found = ground (arith, eq_text_iff (make_key s r) (make_key s r));
  bounded = omega arith;
  in_order = refl;
  counted = omega arith;
}

offered-step : (s r : Text) (ev : Event) (t : Trace) → (step s r ev t).offered ≤ t.offered + 1
unfolding step
offered-step s r (chunk c) t = omega arith
offered-step s r drain t = omega arith
offered-step s r take t = omega arith

step-Accounted :
    (s r : Text) (ev : Event) (t : Trace)
    → t.offered + 1 < 2 ^ 64
    → Accounted (make_key s r) t
    → Accounted (make_key s r) (step s r ev t)
step-Accounted s r (chunk c) t small b = chunk-Accounted s r c t small b
step-Accounted s r drain t small b = drain-Accounted s r t b
step-Accounted s r take t small b = take-Accounted s r t b

run_kept :
    (s r : Text) (evs : List Event) (t : Trace)
    → t.offered + length evs < 2 ^ 64
    → Accounted (make_key s r) t
    → Accounted (make_key s r) (run s r evs t)
unfolding run
run_kept s r [] t small b = b
run_kept s r (ev ∷ evs) t small b =
    run_kept s r evs (step s r ev t) (omega (arith, small, offered-step s r ev t))
      (step-Accounted s r ev t (omega (arith, small)) b)

-- No chunk of a log is lost in silence: from the registration of a session on, through any sequence
-- of deliveries, drains and reads of it (fewer than 2^64), what was received and what the channel
-- holds are the accepted chunks in their order, the channel holds at most 64, and the deliveries are
-- exactly the accepted chunks, the losses reported by drains, and the loss count still to be drained.
pub run-Accounted :
    (s r : Text) (evs : List Event) (ls : LogSessions)
    → length evs < 2 ^ 64
    → Accounted (make_key s r) (run s r evs (start s r ls))
unfolding start
run-Accounted s r evs ls small =
    run_kept s r evs (start s r ls) (omega (arith, small)) (start-Accounted s r ls)
