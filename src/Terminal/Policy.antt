-- ===== src/Terminal/Policy.antt =====
-- A change of the interactive policy mutes every shell that it no longer authorizes.
use veyport.Base.{
  ℕ, ◌==◌, ◌≡◌, true, false, not, Option, some, List, [], ◌∷◌, arith, find, any, Bool-cases, inl,
  inr, find-passes, find-any,
}
use veyport.Base.Int.{pos}
use veyport.Base.Text.{Text}
use veyport.Terminal.Shells.{Shell, Registry, is_shell}
use veyport.Terminal.Delivery.{forwards}
use veyport.Terminal.Ending.{captured}
use veyport.Terminal.Interactive.{observe_interactive_policy, recheck, recheck_one, names, in_store}
use veyport.Terminal.Later.{is_good}
use veyport.Terminal.Books.{Orderly, Quiet-Orderly}
use veyport.Terminal.Traffic.{recheck_one-Quiet, recheck-Quiet}
use veyport.Terminal.Revocation.{
  Revoked, Revoked-Quiet, find-Laters, captured-any, removed-revoked,
  end_interactive_and_close-Revoked,
}
use veyport.Terminal.Steps
use veyport.Terminal.Runs.{silent}

-- A registration that is refused is revoked by its turn of the loop.
recheck_one-Revoked :
    (validate : ℕ → Option Text) (id : ℕ) (s : Shell) (t : Registry)
    → Orderly t
    → find (is_shell id) t.shells ≡ some s
    → names (validate id) s.execution_user ≡ false
    → Revoked id (recheck_one validate t (some s))
unfolding Revoked
recheck_one-Revoked validate id s t i e refused =
    let own : s.id ≡ id = ground (arith, find-passes (is_shell id) t.shells s e) in
    elim (Bool-cases s.removed) [
      | inl h ↦
          let good = find-any (is_shell id) (λ x. not (is_good x)) t.shells s e i.good in
          Revoked-Quiet id t _ (recheck_one-Quiet validate t (some s) i)
            (s, (e, removed-revoked s (ground arith) h))
      | inr h ↦
          rw (own, refused)
            (end_interactive_and_close-Revoked id (pos 1)
              "Security policy or terminal authorization changed." s t i e h)
    ]

recheck-Revoked :
    (validate : ℕ → Option Text) (id : ℕ) (ids : List ℕ) (s : Shell) (t : Registry)
    → Orderly t
    → find (is_shell id) t.shells ≡ some s
    → names (validate id) s.execution_user ≡ false
    → any (λ j. j == id) ids ≡ true
    → Revoked id (recheck validate ids t)
unfolding recheck any
recheck-Revoked validate id [] s t i e refused h = ground arith
recheck-Revoked validate id (j ∷ ids) s t i e refused h =
    let q = recheck_one-Quiet validate t (find (is_shell j) t.shells) i in
    let i' = Quiet-Orderly t _ q i in
    elim (Bool-cases (j == id)) [
      | inl c ↦
          let same : j ≡ id = ground arith in
          Revoked-Quiet id _ _ (recheck-Quiet validate ids _ i')
            (rw (same, e) (recheck_one-Revoked validate id s t i e refused))
      | inr c ↦
          let (s', (e', l)) = find-Laters id t.shells _ s q.laters e in
          recheck-Revoked validate id ids s' _ i' e' (rw l.run_as refused) (ground arith)
    ]

-- After the observer of the interactive policy has run, a registration of the map that belongs to the
-- store and whose validator failed or named another execution user than the one it was opened for
-- forwards nothing, whatever steps follow.
pub observe_interactive_policy-silent :
    (validate : ℕ → Option Text) (st id : ℕ) (s : Shell) (ops : List Steps.Op) (t : Registry)
    → Orderly t
    → find (is_shell id) t.shells ≡ some s
    → s.removed ≡ false
    → in_store st s.interactive ≡ true
    → names (validate id) s.execution_user ≡ false
    → forwards id (Steps.run ops (observe_interactive_policy st validate t)) ≡ false
unfolding observe_interactive_policy captured
observe_interactive_policy-silent validate st id s ops t i e h own refused =
    silent id ops _ (Quiet-Orderly t _ (recheck-Quiet validate _ t i) i) (
      recheck-Revoked validate id _ s t i e refused (
        captured-any (λ x. in_store st x.interactive) (is_shell id) id t.shells s e
          (ground (arith, find-passes (is_shell id) t.shells s e)) h own))
