-- ===== src/Launch/Recall.antt =====
-- What the journal reports of an execution: after a claim, after a crash, and after its result.
use veyport.Base.{
  ◌≡◌, refl, Bool, true, false, Option, none, some, List, [], ◌∷◌, arith, if◌then◌else◌, is_some,
  Bool-cases, inl, inr,
}
use veyport.Base.Text.{Text}
use veyport.Relay.Keys.{eq_text_iff}
use veyport.Launch.Journal as J
use veyport.Launch.Journal.{
  State, Result, LaunchRecord, File, whole, garbled, Journal, settle, names, decode, unknown,
  read_record, durable, status,
}
use veyport.Launch.Steps.{
  Op, is_pending, apply, run, Sound, run-Sound, apply-Sound, apply-disk, status-names,
  read_record-names,
}
use veyport.Launch.Claims.{wins, wins-disk}

some_value {ℓ} : {A : Type ℓ} (o : Option A) → is_some o ≡ true → (a : A) × (o ≡ some a)
some_value (some a) h = (a, refl)
some_value none h = absurd (ground (arith, h))

settle-final : (s : State) → is_pending (settle s) ≡ false
settle-final s = ground arith

settled : (s : State) → is_pending s ≡ false → settle s ≡ s
settled s h = ground arith

module _ (name : Text → Text) where
  -- What the journal says of an id whose entry is durable, now and after a crash.
  status-present :
      (id : Text) (readable : Bool) (j : Journal)
      → Sound name j
      → is_some (j.disk (name id)) ≡ true
      → (r : LaunchRecord) × ((status name id readable j ≡ some r) × (names id r.binding ≡ true))
  unfolding status read_record
  status-present id readable j s h =
      let (r, e) = some_value (status name id readable j) (ground (arith, s.kept (name id))) in
      (r, (e, status-names name id readable j r s e))

  run-disk :
      (ops : List Op) (n : Text) (j : Journal)
      → is_some (j.disk n) ≡ true
      → is_some ((run name ops j).disk n) ≡ true
  unfolding run
  run-disk [] n j h = h
  run-disk (op ∷ ops) n j h = run-disk ops n (apply name op j) (apply-disk name op n j h)

  -- After a claim of an id that succeeded in a sound journal, whatever follows, crashes and updates
  -- that fail among it: the journal knows the id, and its record is of that id.
  pub claim-remembered :
      (id : Text) (op : Op) (ops : List Op) (readable : Bool) (j : Journal)
      → Sound name j
      → wins name id op j ≡ true
      → (r : LaunchRecord) × ((status name id readable (run name ops (apply name op j)) ≡ some r)
          × (names id r.binding ≡ true))
  claim-remembered id op ops readable j s h =
      let t = apply-Sound name op j s in
      status-present id readable (run name ops (apply name op j))
        (run-Sound name ops (apply name op j) t)
        (run-disk ops (name id) (apply name op j) (wins-disk name id op j h))

  decode-final : (id : Text) (f : File) → is_pending (decode id f).state ≡ false
  unfolding decode unknown
  decode-final id garbled = refl
  decode-final id (whole r) = elim (Bool-cases (names id r.binding)) [
    | inl e ↦ rw e (settle-final r.state)
    | inr e ↦ rw e refl
  ]

  read_record-final :
      (id : Text) (readable : Bool) (o : Option File) (r : LaunchRecord)
      → read_record id readable o ≡ some r
      → is_pending r.state ≡ false
  unfolding read_record unknown
  read_record-final id readable none r h = ground arith
  read_record-final id true (some f) r h = ground (arith, decode-final id f)
  read_record-final id false (some f) r h = ground arith

  -- After a restart no execution is reported as claimed or running: one that was, has an unknown
  -- outcome. A record is reported under its own id only.
  pub restart-settled :
      (id : Text) (readable : Bool) (survives : Text → Bool) (j : Journal) (r : LaunchRecord)
      → status name id readable (J.restart survives j) ≡ some r
      → (is_pending r.state ≡ false) × (names id r.binding ≡ true)
  unfolding status J.restart
  restart-settled id readable survives j r h =
      let o = if survives (name id) then j.files (name id) else j.disk (name id) in
      (read_record-final id readable o r h, read_record-names name id readable o r h)

  written-status :
      (r : LaunchRecord) (id : Text) (survives : Text → Bool) (j : Journal)
      → is_pending r.state ≡ false
      → names id r.binding ≡ true
      → let k = (J.write_update name r id durable j).1 in
        (status name id true k ≡ some r) × (status name id true (J.restart survives k) ≡ some r)
  unfolding J.write_update status J.restart read_record decode
  written-status r id survives j h n =
      ground (arith, settled r.state h, eq_text_iff id id, eq_text_iff (name id) (name id))

  -- When a final result of an execution that a sound journal knows is recorded and the write is durable,
  -- the journal, whose file is readable, reports the record it had with the state of the result and the
  -- result itself, at once and after any crash.
  pub record_result-status :
      (r : Result) (readable : Bool) (survives : Text → Bool) (j : Journal) (old : LaunchRecord)
      → Sound name j
      → is_pending r.state ≡ false
      → status name r.binding.execution_id readable j ≡ some old
      → let k = (J.record_result name r readable true durable j).1 in
        let expected = some (record old { state = r.state; result = some r }) in
        (status name r.binding.execution_id true k ≡ expected)
        × (status name r.binding.execution_id true (J.restart survives k) ≡ expected)
  unfolding J.record_result J.update
  record_result-status r readable survives j old s h e =
      let id = r.binding.execution_id in
      rw e (
        written-status (record old { state = r.state; result = some r }) id survives j h
          (status-names name id readable j old s e))
