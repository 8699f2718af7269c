-- ===== src/ConnMgr/Bookkeeping/Rounds.antt =====
-- The loop of Register, round by round.
use text.Mathlib.TextEquality.{eq_iff}
use veyport.Base.{
  ℕ, suc, ◌≡◌, ◌⊎◌, refl, true, false, none, some, arith, Bool-cases, inl, inr, Option-cases, ap,
  ◌∙◌,
}
use veyport.ConnMgr.Manager.{Conn, same_conn_iff, is_conn, is_conn_iff, Manager}
use veyport.ConnMgr.Connections.{
  close, detach_if_current, register_retiring, register_previous, register_round, register,
}
use veyport.ConnMgr.Bookkeeping.{Inv}
use veyport.ConnMgr.Bookkeeping.Generations.{close-Inv, end_activities-Inv}
use veyport.ConnMgr.Bookkeeping.Streams.{register_round-Inv}

-- What Register reaches: the connection is installed, and none is left to be retired.
pub record Installed (conn : Conn) (s : Manager) : Type 0 where
  pub current : s.streams conn.server_id ≡ some conn
  pub settled : s.retiring conn.server_id ≡ none
  pub inv : Inv s

register-done :
    (rounds : ℕ) (conn : Conn) (s : Manager)
    → (register_round conn (s.retiring conn.server_id) s).0 ≡ true
    → register (suc rounds) conn s ≡ some (register_round conn (s.retiring conn.server_id) s).1
unfolding register
register-done rounds conn s e = rw (register, e) refl

register-again :
    (rounds : ℕ) (conn : Conn) (s : Manager)
    → (register_round conn (s.retiring conn.server_id) s).0 ≡ false
    → register (suc rounds) conn s
      ≡ register rounds conn (register_round conn (s.retiring conn.server_id) s).1
unfolding register
register-again rounds conn s e = rw (register, e) refl

-- A round at a node without a generation, or with the one that is retiring, installs.
round-free :
    (conn : Conn) (s : Manager)
    → s.retiring conn.server_id ≡ none
    → s.streams conn.server_id ≡ none
    → let (b, s') = register_round conn (s.retiring conn.server_id) s in
      (b ≡ true) × ((s'.streams conn.server_id ≡ some conn) × (s'.retiring conn.server_id ≡ none))
unfolding register_round register_previous
round-free conn s r f = rw (r, f) (refl, (ground (arith, eq_iff conn.server_id conn.server_id), r))

round-retiring :
    (conn old : Conn) (s : Manager)
    → s.retiring conn.server_id ≡ some old
    → (s.streams conn.server_id ≡ some old) ⊎ (s.streams conn.server_id ≡ none)
    → let (b, s') = register_round conn (s.retiring conn.server_id) s in
      (b ≡ true) × ((s'.streams conn.server_id ≡ some conn) × (s'.retiring conn.server_id ≡ none))
unfolding register_round register_retiring
round-retiring conn old s r f =
    ground (arith, is_conn_iff old (s.streams conn.server_id), eq_iff conn.server_id conn.server_id)

-- A round that finds another generation than the retiring one only clears the latter.
round-other :
    (conn old other : Conn) (s : Manager)
    → s.retiring conn.server_id ≡ some old
    → s.streams conn.server_id ≡ some other
    → is_conn old (some other) ≡ false
    → let (b, s') = register_round conn (s.retiring conn.server_id) s in
      (b ≡ false) × ((s'.streams conn.server_id ≡ some other) × (s'.retiring conn.server_id ≡ none))
unfolding register_round register_retiring
round-other conn old other s r f d = ground (arith, eq_iff conn.server_id conn.server_id)

round-previous :
    (conn old : Conn) (s : Manager)
    → Inv s
    → s.retiring conn.server_id ≡ none
    → s.streams conn.server_id ≡ some old
    → let (b, s') = register_round conn (s.retiring conn.server_id) s in
      (b ≡ false)
      × ((s'.streams conn.server_id ≡ some old) × (s'.retiring conn.server_id ≡ some old))
unfolding register_round register_previous detach_if_current close
round-previous conn old s i r f =
    let named = i.named conn.server_id old f in
    let (ended, gone) =
      end_activities-Inv old (close old s) (close-Inv old s i) (ground (arith, f, named)) in
    ground (
      arith,
      ap (λ g. g conn.server_id) gone.streams,
      same_conn_iff old old,
      eq_iff conn.server_id conn.server_id,
    )

next-Inv :
    (conn : Conn) (s : Manager) → Inv s → Inv (register_round conn (s.retiring conn.server_id) s).1
next-Inv conn s i = register_round-Inv conn (s.retiring conn.server_id) s i refl

-- One round, two or three: what Register needs from each kind of state.
one-round :
    (rounds : ℕ) (conn : Conn) (s : Manager)
    → Inv s
    → (let (b, s') = register_round conn (s.retiring conn.server_id) s in
        (b ≡ true)
        × ((s'.streams conn.server_id ≡ some conn) × (s'.retiring conn.server_id ≡ none)))
    → (s' : Manager) × ((register (suc rounds) conn s ≡ some s') × Installed conn s')
one-round rounds conn s i (done, (at, settled)) = (
  _,
  (
    register-done rounds conn s done,
    record { current = at; settled = settled; inv = next-Inv conn s i },
  ),
)

two-rounds :
    (rounds : ℕ) (conn old : Conn) (s : Manager)
    → Inv s
    → s.retiring conn.server_id ≡ none
    → s.streams conn.server_id ≡ some old
    → (s' : Manager) × ((register (suc (suc rounds)) conn s ≡ some s') × Installed conn s')
two-rounds rounds conn old s i r f =
    let (again, (at, retiring)) = round-previous conn old s i r f in
    let (s', (e, done)) =
      one-round rounds conn _ (next-Inv conn s i) (round-retiring conn old _ retiring (inl at)) in
    (s', (register-again (suc rounds) conn s again ∙ e, done))

-- From every state that satisfies the invariant, three rounds of Register's loop are enough when no
-- other operation comes between them: it then returns, its connection is the installed one of its
-- server, none is left to be retired there, and the invariant holds.
pub register-Installed :
    (conn : Conn) (s : Manager)
    → Inv s
    → (s' : Manager) × ((register 3 conn s ≡ some s') × Installed conn s')
register-Installed conn s i = elim (Option-cases (s.retiring conn.server_id)) [
  | inl r ↦ elim (Option-cases (s.streams conn.server_id)) [
    | inl f ↦ one-round 2 conn s i (round-free conn s r f)
    | inr (old, f) ↦ two-rounds 1 conn old s i r f
  ]
  | inr (old, r) ↦ elim (Option-cases (s.streams conn.server_id)) [
    | inl f ↦ one-round 2 conn s i (round-retiring conn old s r (inr f))
    | inr (other, f) ↦ elim (Bool-cases (is_conn old (some other))) [
      | inl same ↦
          one-round 2 conn s i
            (round-retiring conn old s r (inl (ground (arith, is_conn_iff old (some other)))))
      | inr d ↦
          let (again, (at, settled)) = round-other conn old other s r f d in
          let (s', (e, done)) = two-rounds 0 conn other _ (next-Inv conn s i) settled at in
          (s', (register-again 2 conn s again ∙ e, done))
    ]
  ]
]
