-- ===== src/Execution/Once.antt =====
-- An execution is attached once, dispatched once, and only within the authority of its preparation.
use Prim.Native.String.{String}
use veyport.Base.{
  ℕ, ◌+◌, ◌<◌, ◌≤◌, ◌≡◌, ◌∙◌, refl, sym, ap, Bool, true, false, Option, none, some, List, [], ◌∷◌,
  ◌++◌, arith, length, is_some, Option-cases, inl, inr,
}
use veyport.Base.Int.{ℤ, pos, leb_ℤ, ltb_ℤ}
use veyport.Base.Text.{Text}
use veyport.Relay.Keys.{eq_text_iff}
use veyport.Execution.Messages.{
  Binding, eq_binding_iff, Prepared, Error, Session, unix_milli, from_milli, attach_timeout,
}
use veyport.Execution.Lifecycle
use veyport.Execution.Runs.{Op, apply, run, run-Keeps, Ready, apply-Ready}

-- Every sequence of operations keeps a session ready: no ticket is issued without a preparation, no
-- ticket is marked used that was not issued, and nothing is dispatched before that mark; the start
-- channel holds at most the one start, so that putting it there never waits; and the messages for the
-- standard input are numbered from zero without a gap, their end last.
pub run-Ready : (ops : List Op) (s : Session) → Ready s → Ready (run ops s)
unfolding run
run-Ready [] s r = r
run-Ready (op ∷ ops) s r = run-Ready ops (apply op s) (apply-Ready op s r)

attach-used :
    (live : Bool) (node : Text) (b : Binding) (ticket : Text) (now : ℕ) (s : Session)
    → (Lifecycle.attach live node b ticket now s).0 ≡ none
    → (s.ticket_used ≡ false) × ((Lifecycle.attach live node b ticket now s).1.ticket_used ≡ true)
unfolding Lifecycle.attach Lifecycle.may_attach
attach-used live node b ticket now s h = (ground arith, ground arith)

-- A ticket is used once: after an Attach that succeeds, whatever operations follow, every Attach
-- fails, whatever it presents.
pub attach-once :
    (live : Bool) (node : Text) (b : Binding) (ticket : Text) (now : ℕ) (ops : List Op)
    (live' : Bool) (node' : Text) (b' : Binding) (ticket' : Text) (now' : ℕ) (s : Session)
    → (Lifecycle.attach live node b ticket now s).0 ≡ none
    → let s' = run ops (Lifecycle.attach live node b ticket now s).1 in
      is_some (Lifecycle.attach live' node' b' ticket' now' s').0 ≡ true
attach-once live node b ticket now ops live' node' b' ticket' now' s h =
    let s' = run ops (Lifecycle.attach live node b ticket now s).1 in
    let kept =
      (run-Keeps ops (Lifecycle.attach live node b ticket now s).1).used
        (attach-used live node b ticket now s h).1 in
    elim (Option-cases (Lifecycle.attach live' node' b' ticket' now' s').0) [
      | inl e ↦ let unused = (attach-used live' node' b' ticket' now' s' e).0 in ground arith
      | inr (e, d) ↦ rw d refl
    ]

checked-dispatch :
    (check live : Bool) (now : ℕ) (s : Session)
    → (Lifecycle.dispatch_checked check live now s).0 ≡ none
    → (s.dispatch ≡ false) × ((Lifecycle.dispatch_checked check live now s).1.dispatch ≡ true)
unfolding Lifecycle.dispatch_checked Lifecycle.dispatch_standard
checked-dispatch check live now s h = (ground arith, ground arith)

protected-dispatch :
    (receipt : Text) (e : ℤ) (policy : Text) (script check live : Bool) (now : ℕ) (s : Session)
    → (Lifecycle.dispatch_protected receipt e policy script check live now s).0 ≡ none
    → (s.dispatch ≡ false)
      × ((Lifecycle.dispatch_protected receipt e policy script check live now s).1.dispatch ≡ true)
unfolding Lifecycle.dispatch_protected
protected-dispatch receipt e policy script check live now s h = (ground arith, ground arith)

refused : (o : Option Error) → (o ≡ none → true ≡ false) → is_some o ≡ true
refused none h = sym (h refl)
refused (some e) h = refl

-- The ways to dispatch a start, with what the caller gives.
pub data Way : Type 0 where
  unchecked : Bool → ℕ → Way
  checked : Bool → Bool → ℕ → Way
  guarded : Text → ℤ → Text → Bool → Bool → Bool → ℕ → Way

unfoldable pub dispatch_by : Way → Session → Option Error × Session
dispatch_by (unchecked live now) s = Lifecycle.dispatch_standard live now s
dispatch_by (checked check live now) s = Lifecycle.dispatch_checked check live now s
dispatch_by (guarded receipt e policy script check live now) s =
    Lifecycle.dispatch_protected receipt e policy script check live now s

dispatch_by-dispatch :
    (w : Way) (s : Session)
    → (dispatch_by w s).0 ≡ none
    → (s.dispatch ≡ false) × ((dispatch_by w s).1.dispatch ≡ true)
unfolding dispatch_by Lifecycle.dispatch_standard
dispatch_by-dispatch (unchecked live now) s h = (ground arith, ground arith)
dispatch_by-dispatch (checked check live now) s h = checked-dispatch check live now s h
dispatch_by-dispatch (guarded receipt e policy script check live now) s h =
    protected-dispatch receipt e policy script check live now s h

-- A start is dispatched once: when a dispatch of any kind (standard without or with a check, or
-- protected) has succeeded, a dispatch of any kind fails after whatever operations follow.
pub dispatch_by-once :
    (first second : Way) (ops : List Op) (s : Session)
    → (dispatch_by first s).0 ≡ none
    → is_some (dispatch_by second (run ops (dispatch_by first s).1)).0 ≡ true
dispatch_by-once first second ops s h =
    let kept =
      (run-Keeps ops (dispatch_by first s).1).dispatched (dispatch_by-dispatch first s h).1 in
    refused _ (λ d. sym kept ∙ (dispatch_by-dispatch second _ d).0)

-- A cancellation is final: the first reason stays, and neither attachment nor dispatch succeeds.
pub cancel-final :
    (reason : String) (ops : List Op) (live : Bool) (node : Text) (b : Binding) (ticket : Text)
    (check : Bool) (receipt : Text) (e : ℤ) (policy : Text) (script : Bool) (now : ℕ) (s : Session)
    → let c = Lifecycle.cancel reason s in
      let s' = run ops c in
      (s'.done ≡ c.done)
      × ((is_some (Lifecycle.attach live node b ticket now s').0 ≡ true)
          × ((is_some (Lifecycle.dispatch_checked check live now s').0 ≡ true)
              × (is_some (Lifecycle.dispatch_protected receipt e policy script check live now s').0
                  ≡ true)))
unfolding Lifecycle.cancel Lifecycle.attach Lifecycle.dispatch_checked Lifecycle.dispatch_standard
    Lifecycle.dispatch_protected
cancel-final reason ops live node b ticket check receipt e policy script now s =
    let c = Lifecycle.cancel reason s in
    let s' = run ops c in
    let over : is_some c.done ≡ true = ground arith in
    let same : s'.done ≡ c.done = (run-Keeps ops c).done over in
    let gone : is_some s'.done ≡ true = rw same over in
    (same, (ground (arith, gone), (ground (arith, gone), ground (arith, gone))))

-- The instant lies within the authority of a preparation that was accepted at `accepted`.
pub record Within (p : Prepared) (accepted now : ℕ) : Type 0 where
  pub in_minute : now < accepted + attach_timeout
  pub unexpired : leb_ℤ (Lifecycle.expiry p.binding) (pos (unix_milli now)) ≡ false

accepted :
    (live : Bool) (p : Prepared) (t : ℕ) (s : Session)
    → (Lifecycle.deliver_prepared live p t s).0 ≡ true
    → ((Lifecycle.deliver_prepared live p t s).1.prepared ≡ some p)
      × ((Lifecycle.deliver_prepared live p t s).1.deadline
          ≡ some (Lifecycle.earlier (t + attach_timeout) (from_milli (Lifecycle.expiry p.binding))))
unfolding Lifecycle.deliver_prepared
accepted live p t s h = (ground arith, ground arith)

past-expiry :
    (now : ℕ) (o : Option Binding)
    → Lifecycle.past_binding now o ≡ false
    → leb_ℤ (Lifecycle.expiry o) (pos (unix_milli now)) ≡ false
past-expiry now none h = ground arith
past-expiry now (some b) h = h

unexpired-Within :
    (p : Prepared) (t now : ℕ) (s : Session)
    → s.prepared ≡ some p
    → s.deadline
      ≡ some (Lifecycle.earlier (t + attach_timeout) (from_milli (Lifecycle.expiry p.binding)))
    → Lifecycle.preparation_expired_locked now s ≡ false
    → Within p t now
unfolding Lifecycle.preparation_expired_locked
unexpired-Within p t now s e d h = record {
  in_minute = ground (arith, e, d);
  unexpired = past-expiry now p.binding (ground (arith, e));
}

in_binding : (b : Binding) (o : Option Binding) → Lifecycle.is_binding b o ≡ true → o ≡ some b
in_binding b none h = ground arith
in_binding b (some c) h = ground (arith, eq_binding_iff b c)

attach-facts :
    (live : Bool) (node : Text) (b : Binding) (ticket : Text) (now : ℕ) (s : Session)
    → (Lifecycle.attach live node b ticket now s).0 ≡ none
    → (Lifecycle.preparation_expired_locked now s ≡ false)
      × ((Lifecycle.prepared_binding s.prepared ≡ some b)
          × ((s.ticket ≡ ticket) × (b.node_id ≡ node)))
unfolding Lifecycle.attach Lifecycle.may_attach
attach-facts live node b ticket now s h = (
  ground arith,
  (
    in_binding b (Lifecycle.prepared_binding s.prepared) (ground arith),
    (ground (arith, eq_text_iff ticket s.ticket), ground (arith, eq_text_iff b.node_id node)),
  ),
)

-- When a preparation was accepted at the instant t, an Attach that succeeds after whatever
-- operations presents exactly the binding of that preparation, for its node, with the ticket that
-- the session holds, less than a minute after t and before the binding expires.
pub attach-Within :
    (live : Bool) (p : Prepared) (t : ℕ) (ops : List Op) (live' : Bool) (node : Text) (b : Binding)
    (ticket : Text) (now : ℕ) (s : Session)
    → (Lifecycle.deliver_prepared live p t s).0 ≡ true
    → let s' = run ops (Lifecycle.deliver_prepared live p t s).1 in
      (Lifecycle.attach live' node b ticket now s').0 ≡ none
      → Within p t now × ((p.binding ≡ some b) × ((b.node_id ≡ node) × (s'.ticket ≡ ticket)))
attach-Within live p t ops live' node b ticket now s h k =
    let (e, d) = accepted live p t s h in
    let s1 = (Lifecycle.deliver_prepared live p t s).1 in
    let (e', d') = (run-Keeps ops s1).prepared (rw e refl) in
    let (x, (same, (tick, at))) = attach-facts live' node b ticket now (run ops s1) k in
    (
      unexpired-Within p t now (run ops s1) (e' ∙ e) (d' ∙ d) x,
      (sym (ap Lifecycle.prepared_binding (e' ∙ e)) ∙ same, (at, tick)),
    )

checked-facts :
    (check live : Bool) (now : ℕ) (s : Session)
    → (Lifecycle.dispatch_checked check live now s).0 ≡ none
    → (Lifecycle.preparation_expired_locked now s ≡ false)
      × ((s.enhanced ≡ false)
          × ((Lifecycle.dispatch_checked check live now s).1.start
              ≡ s.start ++ Lifecycle.dispatch_of Lifecycle.standard_policy [] (pos 0) s.prepared))
unfolding Lifecycle.dispatch_checked Lifecycle.dispatch_standard
checked-facts check live now s h = (ground arith, (ground arith, ground arith))

after-expiry :
    (e : ℤ) (p : Prepared)
    → Lifecycle.after_binding e (some p) ≡ false
    → ltb_ℤ (Lifecycle.expiry p.binding) e ≡ false
after-expiry e p h = h

protected-facts :
    (receipt : Text) (e : ℤ) (policy : Text) (script check live : Bool) (now : ℕ) (s : Session)
    → (Lifecycle.dispatch_protected receipt e policy script check live now s).0 ≡ none
    → (Lifecycle.preparation_expired_locked now s ≡ false)
      × (((check ≡ true) × (leb_ℤ e (pos (unix_milli now)) ≡ false))
          × ((Lifecycle.after_binding e s.prepared ≡ false)
              × ((Lifecycle.dispatch_protected receipt e policy script check live now s).1.start
                  ≡ s.start ++ Lifecycle.dispatch_of policy receipt e s.prepared)))
unfolding Lifecycle.dispatch_protected
protected-facts receipt e policy script check live now s h =
    (ground arith, ((ground arith, ground arith), (ground arith, ground arith)))

-- When a preparation was accepted at the instant t, a protected dispatch that succeeds after whatever
-- operations happens less than a minute after t and before the binding expires; it is authorized by a
-- check and a receipt that has not expired and expires no later than the binding; and the start that
-- it queues carries the binding, hash, identity and limits of exactly that preparation.
pub dispatch_protected-Within :
    (live : Bool) (p : Prepared) (t : ℕ) (ops : List Op) (receipt : Text) (e : ℤ) (policy : Text)
    (script check live' : Bool) (now : ℕ) (s : Session)
    → (Lifecycle.deliver_prepared live p t s).0 ≡ true
    → let s' = run ops (Lifecycle.deliver_prepared live p t s).1 in
      let r = Lifecycle.dispatch_protected receipt e policy script check live' now s' in
      r.0 ≡ none
      → Within p t now
        × (((check ≡ true)
              × ((leb_ℤ e (pos (unix_milli now)) ≡ false)
                  × (ltb_ℤ (Lifecycle.expiry p.binding) e ≡ false)))
            × (r.1.start ≡ s'.start ++ Lifecycle.dispatch_of policy receipt e (some p)))
dispatch_protected-Within live p t ops receipt e policy script check live' now s h k =
    let (a, d) = accepted live p t s h in
    let s1 = (Lifecycle.deliver_prepared live p t s).1 in
    let (a', d') = (run-Keeps ops s1).prepared (rw a refl) in
    let at : (run ops s1).prepared ≡ some p = a' ∙ a in
    let (x, ((c, f), (g, q))) =
      protected-facts receipt e policy script check live' now (run ops s1) k in
    (
      unexpired-Within p t now (run ops s1) at (d' ∙ d) x,
      (
        (c, (f, after-expiry e p (sym (ap (Lifecycle.after_binding e) at) ∙ g))),
        q ∙ ap (λ o. (run ops s1).start ++ Lifecycle.dispatch_of policy receipt e o) at,
      ),
    )

-- The same of a standard dispatch, which only a session that is not enhanced allows.
pub dispatch_checked-Within :
    (live : Bool) (p : Prepared) (t : ℕ) (ops : List Op) (check live' : Bool) (now : ℕ)
    (s : Session)
    → (Lifecycle.deliver_prepared live p t s).0 ≡ true
    → let s' = run ops (Lifecycle.deliver_prepared live p t s).1 in
      let r = Lifecycle.dispatch_checked check live' now s' in
      r.0 ≡ none
      → Within p t now
        × ((s'.enhanced ≡ false)
            × (r.1.start
                ≡ s'.start ++ Lifecycle.dispatch_of Lifecycle.standard_policy [] (pos 0) (some p)))
dispatch_checked-Within live p t ops check live' now s h k =
    let (a, d) = accepted live p t s h in
    let s1 = (Lifecycle.deliver_prepared live p t s).1 in
    let (a', d') = (run-Keeps ops s1).prepared (rw a refl) in
    let at : (run ops s1).prepared ≡ some p = a' ∙ a in
    let (x, (f, q)) = checked-facts check live' now (run ops s1) k in
    (
      unexpired-Within p t now (run ops s1) at (d' ∙ d) x,
      (
        f,
        q
            ∙ ap
                (λ o.
                  (run ops s1).start
                  ++ Lifecycle.dispatch_of Lifecycle.standard_policy [] (pos 0) o)
                at,
      ),
    )

expired-earlier :
    (t now : ℕ) (s : Session)
    → t ≤ now
    → Lifecycle.preparation_expired_locked now s ≡ false
    → Lifecycle.preparation_expired_locked t s ≡ false
unfolding Lifecycle.preparation_expired_locked
expired-earlier t now s le h = ground arith

-- An accepted preparation can be used: a session that is not enhanced, issued, attached, dispatched
-- or cancelled issues its ticket of 32 random bytes, a later attachment that presents it succeeds,
-- and so does a checked dispatch later still, as long as the preparation has not expired at the last
-- of the three instants; the dispatch queues the one start, which carries the binding, the hash, the
-- identity and the limits of the preparation.
pub issue_attach-progress :
    (p : Prepared) (b : Binding) (random : Text) (t u now : ℕ) (s : Session)
    → t ≤ u
    → u ≤ now
    → s.prepared ≡ some p
    → p.binding ≡ some b
    → Lifecycle.preparation_expired_locked now s ≡ false
    → (s.ticket_issued ≡ false) × ((s.ticket_used ≡ false) × (s.dispatch ≡ false))
    → (s.enhanced ≡ false) × (s.done ≡ none)
    → length random ≡ 32
    → let s1 = (Lifecycle.issue_attach (some random) t s).1 in
      let s2 = (Lifecycle.attach true b.node_id b random u s1).1 in
      let r = Lifecycle.dispatch_checked true true now s2 in
      ((Lifecycle.issue_attach (some random) t s).0 ≡ none)
      × (((Lifecycle.attach true b.node_id b random u s1).0 ≡ none)
          × (((r.0 ≡ none) × (r.1.dispatch ≡ true))
              × (r.1.start
                  ≡ s.start
                    ++ record {
                      binding = some b;
                      command_sha256 = p.command_sha256;
                      identity = p.identity;
                      limits = p.limits;
                      policy_version = Lifecycle.standard_policy;
                      receipt = [];
                      receipt_expires = pos 0;
                    }
                      ∷ [])))
unfolding Lifecycle.issue_attach Lifecycle.attach Lifecycle.may_attach Lifecycle.dispatch_checked
    Lifecycle.dispatch_standard Lifecycle.preparation_expired_locked
issue_attach-progress p b random t u now s le le' e f x (i, (v, d)) (n, o) k =
    let own = eq_text_iff b.node_id b.node_id in
    let tick = eq_text_iff random random in
    let same = eq_binding_iff b b in
    let at_u = expired-earlier u now s le' x in
    let at_t = expired-earlier t u s le at_u in
    (
      ground (arith, e, f, at_t, i),
      (
        ground (arith, e, f, at_t, at_u, i, v, d, n, o, k, own, tick, same),
        (
          (
            ground (arith, e, f, x, at_t, at_u, i, v, d, n, o, k, own, tick, same),
            ground (arith, e, f, x, at_t, at_u, i, v, d, n, o, k, own, tick, same),
          ),
          ground (arith, e, f, x, at_t, at_u, i, v, d, n, o, k, own, tick, same),
        ),
      ),
    )
