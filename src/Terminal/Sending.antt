-- ===== src/Terminal/Sending.antt =====
-- A guarded send is authorized and delivered, or it ends its shell.
use Prim.Native.String.{String}
use veyport.Base.{
  ℕ, ◌≡◌, ◌⊎◌, refl, Bool, true, false, ◌||◌, Option, none, some, arith, find, is_some, Bool-cases,
  Option-cases, inl, inr, find-passes,
}
use veyport.Base.Int.{ℤ, pos}
use veyport.Base.Text.{Text}
use veyport.Relay.Keys.{eq_text_iff}
use veyport.Terminal.Shells.{Interactive, Shell, Registry, is_shell}
use veyport.Terminal.Ending.{
  end_locked, end_exact, end_interactive_and_close, close_interactive, close_sent, is_current,
  stop_credential_watch,
}
use veyport.Terminal.Interactive.{send_guarded, may_send, names, holds}
use veyport.Terminal.Books.{Orderly}
use veyport.Terminal.Quiet.{end_locked-Later}
use veyport.Terminal.Revocation.{current, find-write, find-write_at}

-- The shell is closed and muted, and its agent side has been told.
pub record Ended (id : ℕ) (t : Registry) : Type 0 where
  pub shell : Shell
  pub found : find (is_shell id) t.shells ≡ some shell
  pub closed : shell.closed ≡ true
  pub muted : is_some shell.exit ≡ true
  pub told : (a : Interactive) → shell.interactive ≡ some a → a.close_sent ≡ true

pub record Authorized (opens : Bool) (conn : Option ℕ) (answer : Option Text) (s : Shell)
    (t : Registry) : Type 0 where
  pub admission : Interactive
  pub own : s.interactive ≡ some admission
  pub admitted : (admission.admitted || opens) ≡ true
  pub in_map : is_current s t ≡ true
  pub unclosed : s.closed ≡ false
  pub installed : conn ≡ some admission.conn
  pub user : answer ≡ some admission.execution_user

forced-ends :
    (code : ℤ) (message : String) (s : Shell)
    → s.closed ≡ false
    → ((end_locked code message true s).0 ≡ true)
      × (((end_locked code message true s).1.closed ≡ true)
          × (is_some (end_locked code message true s).1.exit ≡ true))
unfolding end_locked stop_credential_watch
forced-ends code message s h = (ground arith, (ground arith, ground arith))

end_exact-found :
    (id : ℕ) (code : ℤ) (message : String) (s : Shell) (t : Registry)
    → Orderly t
    → find (is_shell id) t.shells ≡ some s
    → s.removed ≡ false
    → s.closed ≡ false
    → ((end_exact id code message true t).0 ≡ true)
      × (find (is_shell id) (end_exact id code message true t).1.shells
          ≡ some (end_locked code message true s).1)
unfolding end_exact
end_exact-found id code message s t i e h live =
    rw (e, current id s t i e h)
      (
        (forced-ends code message s live).0,
        find-write id (λ (x : Shell). (end_locked code message true x).1) s t e
            (λ x. (end_locked-Later code message true x).id),
      )

close_sent-told :
    (o : Option Interactive) (a : Interactive) → close_sent o ≡ some a → a.close_sent ≡ true
close_sent-told none a h = ground arith
close_sent-told (some b) a h = ground arith

-- An open shell that is in the map is ended and its agent side told.
pub end_interactive_and_close-Ended :
    (id : ℕ) (code : ℤ) (message : String) (s : Shell) (t : Registry)
    → Orderly t
    → find (is_shell id) t.shells ≡ some s
    → s.removed ≡ false
    → s.closed ≡ false
    → Ended id (end_interactive_and_close id code message t).1
unfolding end_interactive_and_close close_interactive
end_interactive_and_close-Ended id code message s t i e h live =
    let (done, there) = end_exact-found id code message s t i e h live in
    let (_, (closed, muted)) = forced-ends code message s live in
    let s' = (end_locked code message true s).1 in
    rw done (record {
      shell = record s' { interactive = close_sent s'.interactive };
      found =
          find-write_at id (λ x. record x { interactive = close_sent x.interactive }) s'
            (end_exact id code message true t).1 there (λ x. refl);
      closed = closed;
      muted = muted;
      told = λ a k. close_sent-told s'.interactive a k;
    })

names_iff : (o : Option Text) (u : Text) → names o u ≡ true → o ≡ some u
names_iff none u h = ground arith
names_iff (some v) u h = ground (arith, eq_text_iff v u)

holds_iff : (o : Option ℕ) (c : ℕ) → holds o c ≡ true → o ≡ some c
holds_iff none c h = ground arith
holds_iff (some d) c h = ground arith

may_send-Authorized :
    (opens : Bool) (conn : Option ℕ) (answer : Option Text) (a : Interactive) (s : Shell)
    (t : Registry)
    → s.interactive ≡ some a
    → may_send opens conn answer a s t ≡ true
    → Authorized opens conn answer s t
unfolding may_send
may_send-Authorized opens conn answer a s t own h = record {
  admission = a;
  own = own;
  admitted = ground arith;
  in_map = ground arith;
  unclosed = ground arith;
  installed = holds_iff conn a.conn (ground arith);
  user = names_iff answer a.execution_user (ground arith);
}

-- A guarded send to an open interactive shell of the map is one of two: its message was delivered,
-- and then it was admitted before or opens the terminal, the registration was the current one and
-- open, its connection was the installed one and the validator named its execution user; or its
-- message was not delivered, and the shell is closed, muted and its agent side told.
pub send_guarded-outcome :
    (id : ℕ) (opens : Bool) (conn : Option ℕ) (answer : Option Text) (delivered : Bool) (s : Shell)
    (t : Registry)
    → Orderly t
    → find (is_shell id) t.shells ≡ some s
    → s.removed ≡ false
    → s.closed ≡ false
    → is_some s.interactive ≡ true
    → let r = send_guarded id opens conn answer delivered t in
      ((r.0.1 ≡ true) × Authorized opens conn answer s t) ⊎ ((r.0.1 ≡ false) × Ended id r.1)
unfolding send_guarded may_send
send_guarded-outcome id opens conn answer delivered s t i e h live own =
    let same : s.id ≡ id = ground (arith, find-passes (is_shell id) t.shells s e) in
    let ended =
      end_interactive_and_close-Ended id (pos 1)
        "Terminal authorization or agent connection changed." s t i e h live in
    elim (Option-cases s.interactive) [
      | inl c ↦ ground arith
      | inr (a, c) ↦ elim (Bool-cases (may_send opens conn answer a s t)) [
        | inr m ↦ inr (rw (e, c, m, same) (refl, ended))
        | inl m ↦ elim (Bool-cases delivered) [
          | inr d ↦ inr (rw (e, c, m, d, same) (refl, ended))
          | inl d ↦ inl (rw (e, c, m, d) refl, may_send-Authorized opens conn answer a s t c m)
        ]
      ]
    ]
