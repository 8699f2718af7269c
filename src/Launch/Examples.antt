-- ===== src/Launch/Examples.antt =====
-- The theorems on the journal, at one execution that is claimed, lost in a crash, and claimed again.
use veyport.Base.{
  if◌then◌else◌, ◌+◌, ◌≤◌, ◌≡◌, refl, true, false, none, some, List, [], ◌∷◌, is_some,
}
use veyport.Base.Int.{pos}
use veyport.Base.Text.{Text}
use veyport.Relay.Keys.{eq_text}
use veyport.Execution.Messages.{Binding}
use veyport.Launch.Journal as J
use veyport.Launch.Journal.{Result, LaunchRecord, Journal, names, durable, status}
use veyport.Launch.Steps.{
  Op, claim, restart, apply, run, Sound, open_journal-Sound, run-Sound, is_pending,
}
use veyport.Launch.Claims.{wins, claims, claims-once}
use veyport.Launch.Recall.{claim-remembered, restart-settled, record_result-status}

abbrev name : Text → Text
name id = id

abbrev id : Text
id = 5 ∷ []

abbrev binding : Binding
binding = record {
  execution_id = id;
  node_id = 7 ∷ [];
  preparation_id = 6 ∷ [];
  boot_id = 9 ∷ [];
  expires = pos 60000;
}

abbrev hash : Text
hash = 1 ∷ 2 ∷ []

abbrev claim_once : Op
claim_once = claim binding hash hash [] true durable

abbrev ops : List Op
ops = claim_once ∷ restart (λ n. false) ∷ claim_once ∷ []

unfoldable empty : Journal
empty = J.open_journal (λ n. none)

empty-Sound : Sound name empty
unfolding empty
empty-Sound = open_journal-Sound name (λ n. none)

claims-ops : claims name id ops empty ≡ 1
unfolding claims wins apply J.claim J.write_claim J.restart empty J.open_journal eq_text
claims-ops = refl

claims-once_example : claims name id ops empty + (if is_some (empty.disk id) then 1 else 0) ≤ 1
claims-once_example = claims-once name id ops empty empty-Sound

wins-claim_once : wins name id claim_once empty ≡ true
unfolding wins J.claim J.write_claim empty J.open_journal eq_text
wins-claim_once = refl

claim-remembered_example :
    (r : LaunchRecord) × ((status name id true (run name ops (apply name claim_once empty))
        ≡ some r)
      × (names id r.binding ≡ true))
claim-remembered_example =
    claim-remembered name id claim_once ops true empty empty-Sound wins-claim_once

abbrev claimed : Journal
claimed = apply name claim_once empty

abbrev lost : LaunchRecord
lost = record {
  binding = some binding;
  command_sha256 = hash;
  identity_sha256 = hash;
  policy_version = [];
  state = J.outcome_unknown;
  result = none;
}

status-claimed : status name id true (J.restart (λ n. false) claimed) ≡ some lost
unfolding status apply J.claim J.write_claim J.restart empty J.open_journal eq_text J.read_record
    J.decode
status-claimed = refl

restart-settled_example : (is_pending lost.state ≡ false) × (names id lost.binding ≡ true)
restart-settled_example = restart-settled name id true (λ n. false) claimed lost status-claimed

abbrev result : Result
result = record {
  binding = binding;
  state = J.exited;
  exit_code = pos 0;
  signal = "";
  reason = "";
  stdout_complete = true;
  stderr_complete = true;
}

unfoldable lost_journal : Journal
lost_journal = J.restart (λ n. false) claimed

lost_journal-Sound : Sound name lost_journal
unfolding lost_journal apply run
lost_journal-Sound = run-Sound name (claim_once ∷ restart (λ n. false) ∷ []) empty empty-Sound

status-lost_journal : status name id true lost_journal ≡ some lost
unfolding lost_journal
status-lost_journal = status-claimed

abbrev ended : LaunchRecord
ended = record lost { state = J.exited; result = some result }

record_result-status_example :
    (status name id true (J.record_result name result true true durable lost_journal).1
      ≡ some ended)
    × (status name id true
          (J.restart (λ n. true) (J.record_result name result true true durable lost_journal).1)
        ≡ some ended)
record_result-status_example =
    record_result-status name result true (λ n. true) lost_journal lost lost_journal-Sound refl
      status-lost_journal
