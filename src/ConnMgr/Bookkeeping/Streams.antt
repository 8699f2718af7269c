-- ===== src/ConnMgr/Bookkeeping/Streams.antt =====
-- Installing, detaching and retiring a generation.
use Prim.Native.String.{String}
use text.Mathlib.Text.{◌==◌ as str_eq}
use text.Mathlib.TextEquality.{eq_iff}
use veyport.Base.{
  ℕ, ◌≡◌, refl, false, Option, none, some, arith, if◌then◌else◌, any, Bool-cases, inl, inr,
  Option-cases, subst, ◌==◌,
}
use veyport.ConnMgr.Manager.{Conn, same_conn_iff, is_conn, is_conn_iff, Manager, put}
use veyport.ConnMgr.Uncertainty.{end_activities}
use veyport.ConnMgr.Connections.{
  close, detach_if_current, finish_retirement, detach_found, unregister, on_stream,
  unregister_if_current, register_retiring, register_previous, register_round,
}
use veyport.ConnMgr.Bookkeeping.{Inv, Ended, on_conn}
use veyport.ConnMgr.Bookkeeping.Generations.{close-Inv, end_activities-Inv}

retire-Inv :
    (node : String) (conn : Conn) (s : Manager)
    → Inv s
    → Ended node s conn
    → Inv (record s { retiring = put s.retiring node (some conn) })
retire-Inv node conn s i e = record {
  unique = i.unique;
  exact = i.exact;
  per_node = i.per_node;
  total = i.total;
  owned = i.owned;
  named = i.named;
  counted = i.counted;
  retired = λ n c h. elim (Bool-cases (str_eq n node)) [
    | inl same ↦ record {
      at = ground (arith, e.at, eq_iff n node);
      closed = ground (arith, e.closed);
      uncounted = ground (arith, e.uncounted);
      empty = subst (λ d. any (on_conn d) s.activities ≡ false) (ground arith) e.empty;
    }
    | inr other ↦
        let old = i.retired n c (ground arith) in
        record { at = old.at; closed = old.closed; empty = old.empty; uncounted = old.uncounted }
  ];
}

-- Dropping a generation that has ended from the installed ones, and from the retiring ones.
release-Inv :
    (node : String) (conn : Conn) (s : Manager)
    → Inv s
    → Ended node s conn
    → Inv (record s {
      streams = if is_conn conn (s.streams node) then put s.streams node none else s.streams;
      retiring = put s.retiring node none;
    })
release-Inv node conn s i e = record {
  unique = i.unique;
  exact = i.exact;
  per_node = i.per_node;
  total = i.total;
  owned = λ c h.
      ground
        (arith, i.owned c, e.empty, eq_iff c.server_id node, is_conn_iff conn (s.streams node));
  named = λ n c h. ground (arith, i.named n c, eq_iff n node, is_conn_iff conn (s.streams node));
  counted = λ c h.
      ground (
        arith,
        i.counted c,
        e.uncounted,
        eq_iff c.server_id node,
        is_conn_iff conn (s.streams node),
      );
  retired = λ n c h.
      let old = i.retired n c (ground arith) in
      record { at = old.at; closed = old.closed; empty = old.empty; uncounted = old.uncounted };
}

-- Installing a connection at a node that has none.
install-Inv :
    (conn : Conn) (s : Manager)
    → Inv s
    → s.streams conn.server_id ≡ none
    → Inv (record s { streams = put s.streams conn.server_id (some conn) })
install-Inv conn s i free = record {
  unique = i.unique;
  exact = i.exact;
  per_node = i.per_node;
  total = i.total;
  owned = λ c h. ground (arith, i.owned c, eq_iff c.server_id conn.server_id);
  named = λ n c h. ground (arith, i.named n c, eq_iff n conn.server_id);
  counted = λ c h. ground (arith, i.counted c, eq_iff c.server_id conn.server_id);
  retired = λ n c h.
      let old = i.retired n c h in
      record { at = old.at; closed = old.closed; empty = old.empty; uncounted = old.uncounted };
}

pub detach_if_current-Inv :
    (node : String) (conn : Conn) (s : Manager) → Inv s → Inv (detach_if_current node conn s).1
unfolding detach_if_current close
detach_if_current-Inv node conn s i = elim (Bool-cases (is_conn conn (s.streams node))) [
  | inr other ↦ rw other i
  | inl current ↦
      let at : s.streams node ≡ some conn = ground (arith, is_conn_iff conn (s.streams node)) in
      let named = i.named node conn at in
      let (ended, gone) =
        end_activities-Inv conn (close conn s) (close-Inv conn s i) (ground (arith, at, named)) in
      rw current (
        retire-Inv node conn (end_activities conn (close conn s)) ended (record {
          at = named;
          closed = ground (arith, gone.closed, same_conn_iff conn conn);
          uncounted = gone.uncounted;
          empty = gone.empty;
        }))
]

pub finish_retirement-Inv : (conn : Conn) (s : Manager) → Inv s → Inv (finish_retirement conn s)
unfolding finish_retirement
finish_retirement-Inv conn s i = elim (Bool-cases (is_conn conn (s.retiring conn.server_id))) [
  | inr other ↦ rw other i
  | inl old ↦ rw old (
      release-Inv conn.server_id conn s i
        (i.retired _ _ (ground (arith, is_conn_iff conn (s.retiring conn.server_id)))))
]

detach_found-Inv :
    (node : String) (o : Option Conn) (s : Manager) → Inv s → Inv (detach_found node o s).1
unfolding detach_found
detach_found-Inv node none s i = i
detach_found-Inv node (some conn) s i = detach_if_current-Inv node conn s i

pub unregister-Inv : (node : String) (s : Manager) → Inv s → Inv (unregister node s)
unfolding unregister
unregister-Inv node s i = detach_found-Inv node (s.streams node) s i

on_stream-Inv :
    (node : String) (stream : ℕ) (o : Option Conn) (s : Manager)
    → Inv s
    → Inv (on_stream node stream o s).1
unfolding on_stream
on_stream-Inv node stream none s i = i
on_stream-Inv node stream (some conn) s i = elim (Bool-cases (conn.stream == stream)) [
  | inl same ↦ rw same (detach_if_current-Inv node conn s i)
  | inr other ↦ rw other i
]

pub unregister_if_current-Inv :
    (node : String) (stream : ℕ) (s : Manager) → Inv s → Inv (unregister_if_current node stream s).1
unfolding unregister_if_current
unregister_if_current-Inv node stream s i = on_stream-Inv node stream (s.streams node) s i

register_previous-Inv :
    (conn : Conn) (o : Option Conn) (s : Manager)
    → Inv s
    → s.streams conn.server_id ≡ o
    → Inv (register_previous conn o s).1
unfolding register_previous
register_previous-Inv conn none s i e = install-Inv conn s i e
register_previous-Inv conn (some previous) s i e = detach_if_current-Inv conn.server_id previous s i

register_retiring-Inv :
    (conn old : Conn) (s : Manager)
    → Inv s
    → s.retiring conn.server_id ≡ some old
    → Inv (register_retiring conn old s).1
unfolding register_retiring
register_retiring-Inv conn old s i e =
    let r = release-Inv conn.server_id old s i (i.retired _ _ e) in
    let node = conn.server_id in
    let streams = if is_conn old (s.streams node) then put s.streams node none else s.streams in
    elim (Option-cases (streams node)) [
      | inl free ↦ rw free (install-Inv conn _ r free)
      | inr (c, taken) ↦ rw taken r
    ]

pub register_round-Inv :
    (conn : Conn) (o : Option Conn) (s : Manager)
    → Inv s
    → s.retiring conn.server_id ≡ o
    → Inv (register_round conn o s).1
unfolding register_round
register_round-Inv conn none s i e = register_previous-Inv conn (s.streams conn.server_id) s i refl
register_round-Inv conn (some old) s i e = register_retiring-Inv conn old s i e
