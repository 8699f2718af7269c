-- ===== src/Launch/Claims.antt =====
-- How often an execution is claimed over any sequence of operations.
use veyport.Base.{
  ℕ, ◌+◌, ◌≤◌, ◌≡◌, refl, Bool, true, false, ◌&&◌, List, [], ◌∷◌, arith, if◌then◌else◌, is_some,
  Bool-cases, inl, inr, none,
}
use veyport.Base.Text.{Text}
use veyport.Relay.Keys.{eq_text, eq_text_iff}
use veyport.Execution.Messages.{Binding}
use veyport.Launch.Journal as J
use veyport.Launch.Journal.{Journal, Written}
use veyport.Launch.Steps.{
  Op, claim, update, restart, is_none, apply, Sound, apply-Sound, apply-disk, claim-cases,
}

module _ (name : Text → Text) where
  -- Whether the operation is a claim of `id` that succeeds.
  unfoldable pub wins : Text → Op → Journal → Bool
  wins id (claim b c i p allowed w) j =
      eq_text b.execution_id id && is_none (J.claim name b c i p allowed w j).0
  wins id (update other s r readable temp w) j = false
  wins id (restart survives) j = false

  unfoldable pub claims : Text → List Op → Journal → ℕ
  claims id [] j = 0
  claims id (op ∷ ops) j = (if wins id op j then 1 else 0) + claims id ops (apply name op j)

  wins-claim :
      (id : Text) (b : Binding) (c i p : Text) (allowed : Bool) (w : Written) (j : Journal)
      → wins id (claim b c i p allowed w) j ≡ true
      → (j.files (name id) ≡ none)
        × (is_some ((J.claim name b c i p allowed w j).1.disk (name id)) ≡ true)
  unfolding wins J.write_claim
  wins-claim id b c i p allowed w j h = elim (claim-cases name b c i p allowed w j) [
    | inl (_, e) ↦ ground arith
    | inr (f, e) ↦ ground (arith, eq_text_iff b.execution_id id, eq_text_iff (name id) (name id))
  ]

  wins-absent :
      (id : Text) (op : Op) (j : Journal)
      → is_some (j.files (name id)) ≡ true
      → wins id op j ≡ false
  unfolding wins
  wins-absent id (claim b c i p allowed w) j h =
      elim (Bool-cases (wins id (claim b c i p allowed w) j)) [
        | inl e ↦ let (f, _) = wins-claim id b c i p allowed w j e in ground arith
        | inr e ↦ e
      ]
  wins-absent id (update o s r readable temp w) j h = refl
  wins-absent id (restart survives) j h = refl

  pub wins-disk :
      (id : Text) (op : Op) (j : Journal)
      → wins id op j ≡ true
      → is_some ((apply name op j).disk (name id)) ≡ true
  unfolding wins apply
  wins-disk id (claim b c i p allowed w) j h = (wins-claim id b c i p allowed w j h).1
  wins-disk id (update o s r readable temp w) j h = ground arith
  wins-disk id (restart survives) j h = ground arith

  claims-none :
      (id : Text) (ops : List Op) (j : Journal)
      → Sound name j
      → is_some (j.disk (name id)) ≡ true
      → claims id ops j ≡ 0
  unfolding claims
  claims-none id [] j s h = refl
  claims-none id (op ∷ ops) j s h =
      rw
        (
          wins-absent id op j (s.kept (name id) h),
          claims-none id ops (apply name op j) (apply-Sound name op j s)
              (apply-disk name op (name id) j h),
        )
        refl

  -- From a sound journal an execution is claimed at most once, whatever claims, updates, restarts and
  -- crashes follow each other, and not at all when its entry is durable from the start.
  pub claims-once :
      (id : Text) (ops : List Op) (j : Journal)
      → Sound name j
      → claims id ops j + (if is_some (j.disk (name id)) then 1 else 0) ≤ 1
  unfolding claims
  claims-once id [] j s = ground arith
  claims-once id (op ∷ ops) j s = elim (Bool-cases (is_some (j.disk (name id)))) [
    | inl e ↦ rw (e, claims-none id (op ∷ ops) j s e) (omega arith)
    | inr d ↦
        let t = apply-Sound name op j s in
        elim (Bool-cases (wins id op j)) [
          | inl e ↦
              rw (d, e, claims-none id ops (apply name op j) t (wins-disk id op j e)) (omega arith)
          | inr e ↦ rw (d, e) (omega (arith, claims-once id ops (apply name op j) t))
        ]
  ]
