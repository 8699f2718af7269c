-- ===== src/Terminal/Books.antt =====
-- The invariant of the registry, and the operations that leave its registrations later.
use veyport.Base.{
  ◌+◌, ◌≤◌, leb, ◌≡◌, refl, Bool, true, false, ◌&&◌, ◌||◌, not, List, [], ◌∷◌, arith, any,
  count_where,
}
use veyport.Base.Text.{Text}
use veyport.Terminal.Shells.{Shell, Registry, at_key, is_shell, is_live}
use veyport.Terminal.Admission.{is_interactive, is_execution, execution_of, live_on}
use veyport.Terminal.Later.{Later, Laters, empty, both, distinct, is_good}

-- No two registrations of the map have the same key.
unfoldable pub unique_keys : List Shell → Bool
unique_keys [] = true
unique_keys (s ∷ ss) =
    (s.removed || not (any (at_key s.server_id s.session_id) ss)) && unique_keys ss

abbrev pub has_slot : Shell → Bool
has_slot s = s.slot

pub record Orderly (t : Registry) : Type 0 where
  pub once : distinct t.shells ≡ true
  pub fresh : any (λ s. leb t.issued s.id) t.shells ≡ false
  pub good : any (λ s. not (is_good s)) t.shells ≡ false
  pub keys : unique_keys t.shells ≡ true
  pub interactive : count_where is_interactive t.shells ≤ 256
  pub node : (n : Text) → count_where (live_on n) t.shells ≤ 8
  pub actor : (u : Text) → count_where (execution_of u) t.shells ≤ 4
  pub executions : count_where is_execution t.shells ≤ 32
  pub slots : t.credential_watchers ≡ count_where has_slot t.shells
  pub watchers : t.credential_watchers ≤ 256

pub record Quiet (t t' : Registry) : Type 0 where
  pub laters : Laters t.shells t'.shells
  pub issued : t'.issued ≡ t.issued
  pub maintenance : t'.maintenance ≡ t.maintenance
  pub slots :
      count_where has_slot t'.shells + t.credential_watchers
      ≡ count_where has_slot t.shells + t'.credential_watchers

-- A test that no operation but a registration makes true.
abbrev pub Falling : (Shell → Bool) → Type 0
Falling p = (s s' : Shell) → Later s s' → p s' ≡ true → p s ≡ true

pub count_where-Laters :
    (p : Shell → Bool) (ss ss' : List Shell)
    → Falling p
    → Laters ss ss'
    → count_where p ss' ≤ count_where p ss
unfolding count_where
count_where-Laters p [] [] h empty = omega arith
count_where-Laters p [] (y ∷ b) h l = elim l [ ]
count_where-Laters p (x ∷ a) [] h l = elim l [ ]
count_where-Laters p (x ∷ a) (y ∷ b) h (both l ls) =
    ground (arith, h x y l, count_where-Laters p a b h ls)

pub any-Laters :
    (p : Shell → Bool) (ss ss' : List Shell)
    → Falling p
    → Laters ss ss'
    → any p ss ≡ false
    → any p ss' ≡ false
unfolding any
any-Laters p [] [] h empty e = refl
any-Laters p [] (y ∷ b) h l e = elim l [ ]
any-Laters p (x ∷ a) [] h l e = elim l [ ]
any-Laters p (x ∷ a) (y ∷ b) h (both l ls) e = ground (arith, h x y l, any-Laters p a b h ls)

live-Falling : Falling is_live
live-Falling s s' l h = ground (arith, l.closed, l.removed)

pub live_on-Falling : (n : Text) → Falling (live_on n)
live_on-Falling n s s' l h = ground (arith, live-Falling s s' l, l.server)

at_key-Falling : (server session : Text) → Falling (at_key server session)
unfolding at_key
at_key-Falling server session s s' l h = ground (arith, l.removed, l.server, l.session)

interactive-Falling : Falling is_interactive
interactive-Falling s s' l h = ground (arith, live-Falling s s' l, l.kind)

execution-Falling : Falling is_execution
execution-Falling s s' l h = ground (arith, live-Falling s s' l, l.kind)

execution_of-Falling : (u : Text) → Falling (execution_of u)
execution_of-Falling u s s' l h = ground (arith, execution-Falling s s' l, l.user)

distinct-Laters : (ss ss' : List Shell) → Laters ss ss' → distinct ss ≡ true → distinct ss' ≡ true
unfolding distinct
distinct-Laters [] [] empty d = refl
distinct-Laters [] (y ∷ b) l d = elim l [ ]
distinct-Laters (x ∷ a) [] l d = elim l [ ]
distinct-Laters (x ∷ a) (y ∷ b) (both l ls) d = rw l.id (
    ground (
      arith,
      distinct-Laters a b ls,
      any-Laters (is_shell x.id) a b (λ s s' m h. ground (arith, m.id)) ls,
    ))

keys-Laters : (ss ss' : List Shell) → Laters ss ss' → unique_keys ss ≡ true → unique_keys ss' ≡ true
unfolding unique_keys
keys-Laters [] [] empty d = refl
keys-Laters [] (y ∷ b) l d = elim l [ ]
keys-Laters (x ∷ a) [] l d = elim l [ ]
keys-Laters (x ∷ a) (y ∷ b) (both l ls) d =
    rw (l.server, l.session)
      (ground (
        arith,
        l.removed,
        keys-Laters a b ls,
        any-Laters (at_key x.server_id x.session_id) a b (at_key-Falling x.server_id x.session_id)
            ls,
      ))

pub Quiet-Orderly : (t t' : Registry) → Quiet t t' → Orderly t → Orderly t'
Quiet-Orderly t t' q i = record {
  once = distinct-Laters _ _ q.laters i.once;
  fresh =
      rw q.issued (
        any-Laters (λ s. leb t.issued s.id) _ _ (λ s s' l h. ground (arith, l.id)) q.laters
          i.fresh);
  good = any-Laters (λ s. not (is_good s)) _ _ (λ s s' l h. ground (arith, l.good)) q.laters i.good;
  keys = keys-Laters _ _ q.laters i.keys;
  interactive = omega (
    arith,
    i.interactive,
    count_where-Laters is_interactive t.shells t'.shells interactive-Falling q.laters,
  );
  node = λ n. omega (
    arith,
    i.node n,
    count_where-Laters (live_on n) t.shells t'.shells (live_on-Falling n) q.laters,
  );
  actor = λ u. omega (
    arith,
    i.actor u,
    count_where-Laters (execution_of u) t.shells t'.shells (execution_of-Falling u) q.laters,
  );
  executions = omega (
    arith,
    i.executions,
    count_where-Laters is_execution t.shells t'.shells execution-Falling q.laters,
  );
  slots = omega (arith, i.slots, q.slots);
  watchers = omega (
    arith,
    i.watchers,
    i.slots,
    q.slots,
    count_where-Laters has_slot t.shells t'.shells (λ s s' l h. l.slot h) q.laters,
  );
}
