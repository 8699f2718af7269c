-- ===== src/Authorization/Coverage.antt =====
-- Which policy an execution runs under, and when interactive access is refused.
use veyport.Base.{
  ℕ, ◌≡◌, refl, sym, Bool, true, false, ◌&&◌, ◌||◌, not, Option, none, some, List, [], ◌∷◌, arith,
  ◌⊎◌, inl, inr, if◌then◌else◌, any, is_some,
}
use veyport.Base.Int.{ℤ, pos, ltb_ℤ, leb_ℤ}
use veyport.Base.Text.{Text}
use veyport.Relay.Keys.{eq_text}
use veyport.Authorization.Directory.{Error, recovery, transition, store_failed, interactive}

-- model.AuditPolicy; the profile is standard, enhanced or any other text.
pub data Profile : Type 0 where
  standard enhanced unknown : Profile

abbrev pub is_enhanced : Profile → Bool
is_enhanced enhanced = true
is_enhanced standard = false
is_enhanced unknown = false

pub record AuditPolicy : Type 0 where
  pub profile : Profile
  pub actors : List Text
  pub nodes : List Text
  pub runtime_seconds : ℤ
  pub retention_hours : ℤ
  pub destination : Text
  pub credential_ref : Text
  pub trust_key_ids : List Text
  pub qualification_sha256 : Text

abbrev is_empty : List Text → Bool
is_empty [] = true
is_empty (t ∷ ts) = false

abbrev pub mem : Text → List Text → Bool
mem id ids = any (λ t. eq_text t id) ids

unfoldable pub covers : AuditPolicy → Text → Text → Bool
covers p actor node =
    is_enhanced p.profile
    && ((is_empty p.actors && is_empty p.nodes) || (mem actor p.actors || mem node p.nodes))

pub record PolicyVersion : Type 0 where
  pub version : ℕ
  pub policy : AuditPolicy
  pub sha256 : Text

pub record PolicyState : Type 0 where
  pub active : PolicyVersion
  pub pending : Option PolicyVersion
  pub recovery_required : Bool
  pub previous : Option PolicyVersion

pub record ExecutionPolicy : Type 0 where
  pub version : ℕ
  pub sha256 : Text
  pub enhanced : Bool
  pub runtime_seconds : ℤ
  pub recovery_required : Bool

abbrev pub covered_by : Option PolicyVersion → Text → Text → Bool
covered_by none actor node = false
covered_by (some v) actor node = covers v.policy actor node

-- The shorter of two runtimes, where one that is not positive is no limit.
abbrev shorter : ℤ → Option PolicyVersion → ℤ
shorter seconds none = seconds
shorter seconds (some v) =
    if ltb_ℤ (pos 0) v.policy.runtime_seconds
      && (leb_ℤ seconds (pos 0) || ltb_ℤ v.policy.runtime_seconds seconds)
    then v.policy.runtime_seconds
    else seconds

unfoldable pub execution_policy : PolicyState → Text → Text → ExecutionPolicy
execution_policy st actor node = record {
  version = st.active.version;
  sha256 = st.active.sha256;
  enhanced =
      covers st.active.policy actor node
      || (covered_by st.pending actor node || covered_by st.previous actor node);
  runtime_seconds = shorter st.active.policy.runtime_seconds st.pending;
  recovery_required = st.recovery_required;
}

abbrev decide : PolicyState → ExecutionPolicy → Error ⊎ ExecutionPolicy
decide st p =
    if p.enhanced && is_some st.pending
    then inl transition
    else if p.recovery_required
    then inl recovery
    else inr p

-- PolicyForExecution, by the error of the configuration, the state that is read and the answer of
-- ValidateExecutionPolicy.
unfoldable pub policy_for_execution :
    Option Error → Option PolicyState → Bool → Text → Text → Error ⊎ ExecutionPolicy
policy_for_execution (some e) st valid actor node = inl e
policy_for_execution none none valid actor node = inl store_failed
policy_for_execution none (some st) valid actor node =
    if not valid then inl store_failed else decide st (execution_policy st actor node)

unfoldable pub guard_interactive :
    Option Error → Option PolicyState → Bool → Text → Text → Option Error
guard_interactive configuration st valid actor node =
    elim (policy_for_execution configuration st valid actor node) [
      | inl e ↦ some e
      | inr p ↦ if p.enhanced then some interactive else none
    ]

-- Interactive access is refused to every actor and node that the active, the pending or the previous
-- policy covers, whatever else holds.
pub guard_interactive-covered :
    (configuration : Option Error) (st : PolicyState) (valid : Bool) (actor node : Text)
    → (covers st.active.policy actor node
        || (covered_by st.pending actor node || covered_by st.previous actor node))
      ≡ true
    → is_some (guard_interactive configuration (some st) valid actor node) ≡ true
unfolding guard_interactive policy_for_execution execution_policy
guard_interactive-covered (some e) st valid actor node h = refl
guard_interactive-covered none st valid actor node h = ground arith

-- The runtime is no longer than the policy's, when that is positive.
abbrev pub within : Option PolicyVersion → ℤ → Bool
within none seconds = true
within (some v) seconds =
    leb_ℤ v.policy.runtime_seconds (pos 0) || leb_ℤ seconds v.policy.runtime_seconds

shorter-within :
    (active : PolicyVersion) (o : Option PolicyVersion)
    → (within (some active) (shorter active.policy.runtime_seconds o) ≡ true)
      × (within o (shorter active.policy.runtime_seconds o) ≡ true)
shorter-within active none = (ground arith, refl)
shorter-within active (some v) = (ground arith, ground arith)

-- A policy that an execution is given has no transition of a covered execution and no recovery under
-- way, is enhanced exactly when the active, the pending or the previous policy covers the actor or
-- node, and has a runtime no longer than any positive one of the active and the pending policy.
pub policy_for_execution-within :
    (st : PolicyState) (valid : Bool) (actor node : Text) (p : ExecutionPolicy)
    → policy_for_execution none (some st) valid actor node ≡ inr p
    → (((p.enhanced && is_some st.pending) ≡ false) × (st.recovery_required ≡ false))
      × ((p.enhanced ≡ (
            covers st.active.policy actor node
            || (covered_by st.pending actor node || covered_by st.previous actor node)))
          × ((within (some st.active) p.runtime_seconds ≡ true)
              × (within st.pending p.runtime_seconds ≡ true)))
unfolding policy_for_execution execution_policy
policy_for_execution-within st valid actor node p h =
    let own : execution_policy st actor node ≡ p = ground arith in
    let (a, b) = shorter-within st.active st.pending in
    rw (sym own) ((ground arith, ground arith), (refl, (a, b)))
