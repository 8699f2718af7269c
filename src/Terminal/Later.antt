-- ===== src/Terminal/Later.antt =====
-- What every operation but a registration does to each registration: it keeps its names, and never
-- reopens, restores or unmutes it.
use veyport.Base.{
  ℕ, ◌==◌, leb, ◌≡◌, ◌∙◌, refl, Bool, true, false, ◌&&◌, ◌||◌, not, Option, some, List, [], ◌∷◌,
  arith, find, any, is_some, length, update_where, update_where-none, Bool-cases, inl, inr,
  find-any,
}
use veyport.Terminal.Shells.{
  Event, Interactive, event_data, event_exit, Shell, is_shell, max_events,
}

abbrev pub is_data : Event → Bool
is_data e = elim e.type [ event_data ↦ true | event_exit ↦ false ]

-- The queue is within its capacity; a removed registration is revoked; and a revoked one is closed and
-- holds no data.
abbrev pub is_good : Shell → Bool
is_good s =
    leb (length s.ch) max_events
    && ((not s.removed || is_some s.exit)
        && (not (is_some s.exit) || (s.closed && not (any is_data s.ch))))

pub record Later (s s' : Shell) : Type 0 where
  pub id : s'.id ≡ s.id
  pub server : s'.server_id ≡ s.server_id
  pub session : s'.session_id ≡ s.session_id
  pub user : s'.user_id ≡ s.user_id
  pub run_as : s'.execution_user ≡ s.execution_user
  pub sid : s'.sid ≡ s.sid
  pub kind : s'.kind ≡ s.kind
  pub closed : s.closed ≡ true → s'.closed ≡ true
  pub removed : s.removed ≡ true → s'.removed ≡ true
  pub exit : is_some s.exit ≡ true → is_some s'.exit ≡ true
  pub streaming : s.streaming ≡ true → s'.streaming ≡ true
  pub slot : s'.slot ≡ true → s.slot ≡ true
  pub good : is_good s ≡ true → is_good s' ≡ true

pub same-Later : (s : Shell) → Later s s
same-Later s = record {
  id = refl;
  server = refl;
  session = refl;
  user = refl;
  run_as = refl;
  sid = refl;
  kind = refl;
  closed = λ h. h;
  removed = λ h. h;
  exit = λ h. h;
  streaming = λ h. h;
  slot = λ h. h;
  good = λ h. h;
}

-- What no reader of the registration's life looks at.
pub aside-Later :
    (s : Shell) (a : Option Interactive) (r : Bool)
    → Later s (record s { interactive = a; revoked = r })
aside-Later s a r = record {
  id = refl;
  server = refl;
  session = refl;
  user = refl;
  run_as = refl;
  sid = refl;
  kind = refl;
  closed = λ h. h;
  removed = λ h. h;
  exit = λ h. h;
  streaming = λ h. h;
  slot = λ h. h;
  good = λ h. h;
}

pub trans-Later : (a b c : Shell) → Later a b → Later b c → Later a c
trans-Later a b c p q = record {
  id = q.id ∙ p.id;
  server = q.server ∙ p.server;
  session = q.session ∙ p.session;
  user = q.user ∙ p.user;
  run_as = q.run_as ∙ p.run_as;
  sid = q.sid ∙ p.sid;
  kind = q.kind ∙ p.kind;
  closed = λ h. q.closed (p.closed h);
  removed = λ h. q.removed (p.removed h);
  exit = λ h. q.exit (p.exit h);
  streaming = λ h. q.streaming (p.streaming h);
  slot = λ h. p.slot (q.slot h);
  good = λ h. q.good (p.good h);
}

-- Two lists of registrations, one by one.
pub data Laters : List Shell → List Shell → Type 0 where
  empty : Laters [] []
  both :
      {s s' : Shell} {ss ss' : List Shell} → Later s s' → Laters ss ss' → Laters (s ∷ ss) (s' ∷ ss')

pub same-Laters : (ss : List Shell) → Laters ss ss
same-Laters [] = empty
same-Laters (s ∷ ss) = both (same-Later s) (same-Laters ss)

pub trans-Laters : (a b c : List Shell) → Laters a b → Laters b c → Laters a c
trans-Laters [] [] c empty q = q
trans-Laters [] (y ∷ b) c p q = elim p [ ]
trans-Laters (x ∷ a) [] c p q = elim p [ ]
trans-Laters (x ∷ a) (y ∷ b) [] p q = elim q [ ]
trans-Laters (x ∷ a) (y ∷ b) (z ∷ c) (both p ps) (both q qs) =
    both (trans-Later x y z p q) (trans-Laters a b c ps qs)

unfoldable pub distinct : List Shell → Bool
distinct [] = true
distinct (s ∷ ss) = not (any (is_shell s.id) ss) && distinct ss

unmatched-Laters :
    (id : ℕ) (f : Shell → Shell) (ss : List Shell)
    → any (is_shell id) ss ≡ false
    → Laters ss (update_where (is_shell id) f ss)
unmatched-Laters id f ss h = rw (update_where-none (is_shell id) f ss h) (same-Laters ss)

-- A write to the registration that a search has found.
pub write-Laters :
    (p : Shell → Bool) (f : Shell → Shell) (s : Shell) (ss : List Shell)
    → distinct ss ≡ true
    → find p ss ≡ some s
    → Later s (f s)
    → Laters ss (update_where (is_shell s.id) f ss)
unfolding find update_where distinct
write-Laters p f s [] d e l = empty
write-Laters p f s (x ∷ ss) d e l = elim (Bool-cases (p x)) [
  | inl yes_x ↦
      let same : x ≡ s = ground arith in
      let hit : (x.id == s.id) ≡ true = ground arith in
      rw hit (both (rw same l) (unmatched-Laters s.id f ss (ground arith)))
  | inr no_x ↦
      let rest : find p ss ≡ some s = ground arith in
      let other : is_shell x.id s ≡ false = find-any p (is_shell x.id) ss s rest (ground arith) in
      let miss : (x.id == s.id) ≡ false = ground arith in
      rw miss (both (same-Later x) (write-Laters p f s ss (ground arith) rest l))
]
