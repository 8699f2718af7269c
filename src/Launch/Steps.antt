-- ===== src/Launch/Steps.antt =====
-- The journal over any sequence of operations, restarts and crashes among them.
use veyport.Base.{
  ◌≡◌, ◌⊎◌, refl, Bool, true, false, Option, none, some, List, [], ◌∷◌, arith, is_some, Bool-cases,
  Option-cases, inl, inr,
}
use veyport.Base.Text.{Text}
use veyport.Relay.Keys.{eq_text_iff}
use veyport.Execution.Messages.{Binding}
use veyport.Launch.Journal as J
use veyport.Launch.Journal.{
  State, Result, LaunchRecord, File, whole, garbled, Journal, put, settle, names, decode, unknown,
  read_record, Written, durable, placed, failed, Error, status,
}

pub data Op : Type 0 where
  claim : Binding → Text → Text → Text → Bool → Written → Op
  update : Text → State → Option Result → Bool → Bool → Written → Op
  restart : (Text → Bool) → Op

abbrev pub is_pending : State → Bool
is_pending J.claimed = true
is_pending J.running = true
is_pending s = false

abbrev pub is_none {ℓ} : {A : Type ℓ} → Option A → Bool
is_none none = true
is_none (some a) = false

module _ (name : Text → Text) where
  unfoldable pub apply : Op → Journal → Journal
  apply (claim b c i p allowed w) j = (J.claim name b c i p allowed w j).1
  apply (update id s r readable temp w) j = (J.update name id s r readable temp w j).1
  apply (restart survives) j = J.restart survives j

  unfoldable pub run : List Op → Journal → Journal
  run [] j = j
  run (op ∷ ops) j = run ops (apply op j)

  -- What is durable is there, and what is active is durable, unfinished and under its own id.
  pub record Sound (j : Journal) : Type 0 where
    pub kept : (n : Text) → is_some (j.disk n) ≡ true → is_some (j.files n) ≡ true
    pub durable :
        (id : Text) (r : LaunchRecord) → j.records id ≡ some r → is_some (j.disk (name id)) ≡ true
    pub named : (id : Text) (r : LaunchRecord) → j.records id ≡ some r → names id r.binding ≡ true
    pub pending : (id : Text) (r : LaunchRecord) → j.records id ≡ some r → is_pending r.state ≡ true

  decode-names : (id : Text) (f : File) → names id (decode id f).binding ≡ true
  unfolding decode unknown
  decode-names id garbled = ground (arith, eq_text_iff id id)
  decode-names id (whole r) = ground (arith, eq_text_iff id id)

  pub read_record-names :
      (id : Text) (readable : Bool) (o : Option File) (r : LaunchRecord)
      → read_record id readable o ≡ some r
      → names id r.binding ≡ true
  unfolding read_record unknown
  read_record-names id readable none r h = ground arith
  read_record-names id true (some f) r h = ground (arith, decode-names id f)
  read_record-names id false (some f) r h = ground (arith, eq_text_iff id id)

  pub status-names :
      (id : Text) (readable : Bool) (j : Journal) (r : LaunchRecord)
      → Sound j
      → status name id readable j ≡ some r
      → names id r.binding ≡ true
  unfolding status
  status-names id readable j r s h = elim (Option-cases (j.records id)) [
    | inl e ↦ read_record-names id readable (j.files (name id)) r (ground arith)
    | inr (a, e) ↦ s.named id r (ground arith)
  ]

  pub open_journal-Sound : (files : Text → Option File) → Sound (J.open_journal files)
  unfolding J.open_journal
  open_journal-Sound files = record {
    kept = λ n d. d;
    durable = λ o a e. ground arith;
    named = λ o a e. ground arith;
    pending = λ o a e. ground arith;
  }

  write_update-Sound :
      (r : LaunchRecord) (id : Text) (w : Written) (j : Journal)
      → names id r.binding ≡ true
      → Sound j
      → Sound (J.write_update name r id w j).1
  unfolding J.write_update
  write_update-Sound r id durable j h s = record {
    kept = λ n d. ground (arith, s.kept n);
    durable =
        λ o a e. ground (arith, s.durable o a, eq_text_iff o id, eq_text_iff (name o) (name id));
    named = λ o a e. ground (arith, s.named o a, eq_text_iff o id);
    pending = λ o a e. ground (arith, s.pending o a, eq_text_iff o id);
  }
  write_update-Sound r id placed j h s = record {
    kept = λ n d. ground (arith, s.kept n);
    durable = λ o a e. ground (arith, s.durable o a);
    named = λ o a e. ground (arith, s.named o a);
    pending = λ o a e. ground (arith, s.pending o a);
  }
  write_update-Sound r id failed j h s = record {
    kept = s.kept;
    durable = λ o a e. ground (arith, s.durable o a);
    named = λ o a e. ground (arith, s.named o a);
    pending = λ o a e. ground (arith, s.pending o a);
  }

  write_claim-Sound :
      (r : LaunchRecord) (id : Text) (w : Written) (j : Journal)
      → names id r.binding ≡ true
      → r.state ≡ J.claimed
      → Sound j
      → Sound (J.write_claim name r id w j).1
  unfolding J.write_claim
  write_claim-Sound r id durable j h c s = record {
    kept = λ n d. ground (arith, s.kept n);
    durable =
        λ o a e. ground (arith, s.durable o a, eq_text_iff o id, eq_text_iff (name o) (name id));
    named = λ o a e. ground (arith, s.named o a, eq_text_iff o id);
    pending = λ o a e. ground (arith, s.pending o a, eq_text_iff o id);
  }
  write_claim-Sound r id w j h c s = record {
    kept = λ n d. ground (arith, s.kept n);
    durable = λ o a e. ground (arith, s.durable o a);
    named = λ o a e. ground (arith, s.named o a);
    pending = λ o a e. ground (arith, s.pending o a);
  }

  update-Sound :
      (id : Text) (state : State) (result : Option Result) (readable temp : Bool) (w : Written)
      (j : Journal)
      → Sound j
      → Sound (J.update name id state result readable temp w j).1
  unfolding J.update
  update-Sound id state result readable temp w j s =
      elim (Option-cases (status name id readable j)) [
        | inl e ↦ rw e s
        | inr (old, e) ↦ elim (Bool-cases temp) [
          | inl t ↦
              rw (e, t)
                (write_update-Sound (record old { state = state; result = result }) id w j
                  (status-names id readable j old s e) s)
          | inr t ↦ rw (e, t) s
        ]
      ]

  abbrev claimed_record : Binding → Text → Text → Text → LaunchRecord
  claimed_record b c i p = record {
    binding = some b;
    command_sha256 = c;
    identity_sha256 = i;
    policy_version = p;
    state = J.claimed;
    result = none;
  }

  -- A claim succeeds only where neither memory nor the directory knows its id, and what it does then.
  pub claim-cases :
      (b : Binding) (c i p : Text) (allowed : Bool) (w : Written) (j : Journal)
      → (((J.claim name b c i p allowed w j).1 ≡ j)
          × (is_none (J.claim name b c i p allowed w j).0 ≡ false))
        ⊎ ((j.files (name b.execution_id) ≡ none)
            × (J.claim name b c i p allowed w j
                ≡ J.write_claim name (claimed_record b c i p) b.execution_id w j))
  unfolding J.claim
  claim-cases b c i p allowed w j = elim (Option-cases (j.files (name b.execution_id))) [
    | inl e ↦ ground arith
    | inr (f, e) ↦ ground arith
  ]

  pub apply-Sound : (op : Op) (j : Journal) → Sound j → Sound (apply op j)
  unfolding apply J.restart
  apply-Sound (claim b c i p allowed w) j s = elim (claim-cases b c i p allowed w j) [
    | inl (e, _) ↦ rw (e, apply) s
    | inr (_, e) ↦
        rw (e, apply)
          (write_claim-Sound (claimed_record b c i p) b.execution_id w j
            (ground (arith, eq_text_iff b.execution_id b.execution_id)) refl s)
  ]
  apply-Sound (update id state r readable temp w) j s = update-Sound id state r readable temp w j s
  apply-Sound (restart survives) j s = record {
    kept = λ n d. ground (arith, s.kept n);
    durable = λ o a e. ground arith;
    named = λ o a e. ground arith;
    pending = λ o a e. ground arith;
  }

  pub run-Sound : (ops : List Op) (j : Journal) → Sound j → Sound (run ops j)
  unfolding run
  run-Sound [] j s = s
  run-Sound (op ∷ ops) j s = run-Sound ops (apply op j) (apply-Sound op j s)

  pub apply-disk :
      (op : Op) (n : Text) (j : Journal)
      → is_some (j.disk n) ≡ true
      → is_some ((apply op j).disk n) ≡ true
  unfolding apply J.restart J.claim J.write_claim J.update J.write_update
  apply-disk (claim b c i p allowed w) n j h = ground arith
  apply-disk (update id s r readable temp w) n j h = ground arith
  apply-disk (restart survives) n j h = h
