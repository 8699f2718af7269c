-- ===== src/Terminal/Examples.antt =====
-- The theorems on the registry of terminals, at one interactive shell of one user.
use veyport.Base.{◌≡◌, ◌⊎◌, refl, true, false, none, some, List, [], ◌∷◌, find, any, count_where}
use veyport.Base.Int.{pos}
use veyport.Base.Text.{Text}
use veyport.Relay.Keys.{eq_text, make_key}
use veyport.Terminal.Shells
use veyport.Terminal.Shells.{Interactive, Shell, Registry, web, is_shell, at_key}
use veyport.Terminal.Admission
use veyport.Terminal.Interactive as I
use veyport.Terminal.Delivery.{forwards}
use veyport.Terminal.Ending
use veyport.Terminal.Books.{Orderly}
use veyport.Terminal.Steps.{Op, run, apply, run-Orderly, new-Orderly}
use veyport.Terminal.Steps as S
use veyport.Terminal.Runs.{end_by_user-silent}
use veyport.Terminal.Exclusion.{reserve_maintenance-run}
use veyport.Terminal.Sending.{Authorized, Ended, send_guarded-outcome}
use veyport.Terminal.Servers.{prepare_end_all_lem}
use veyport.Terminal.Policy.{observe_interactive_policy-silent}

abbrev node : Text
node = 7 ∷ []

abbrev user : Text
user = 8 ∷ []

abbrev sid : Text
sid = 9 ∷ []

abbrev root : Text
root = 1 ∷ []

abbrev opening : List Op
opening =
    S.open_interactive 0 (some 5) (some root) node (3 ∷ []) user
      (Admission.with_session_id sid ∷ []) (pos 0)
    ∷ []

abbrev shell : Shell
shell = record {
  id = 0;
  server_id = node;
  session_id = 3 ∷ [];
  user_id = user;
  execution_user = root;
  kind = web;
  sid = sid;
  started_at = pos 0;
  last_activity = pos 0;
  ch = [];
  streaming = false;
  closed = false;
  removed = false;
  interactive =
      some
        (record { st = 0; conn = 5; execution_user = root; admitted = false; close_sent = false });
  credential_generation = none;
  ssh_generation = false;
  watched = false;
  slot = false;
  stopped = false;
  revoked = false;
  exit = none;
}

abbrev registry : Registry
registry = record {
  shells = shell ∷ [];
  issued = 1;
  maintenance = λ n. [];
  credential_watchers = 0;
}

registry-Orderly : Orderly registry
unfolding run apply I.register_interactive Admission.register Admission.apply_options
    Admission.apply_option Admission.exceeds Shells.new eq_text any count_where
registry-Orderly = run-Orderly opening Shells.new new-Orderly

there : find (is_shell 0) registry.shells ≡ some shell
unfolding find
there = refl

run-Orderly_example :
    Orderly (run (S.attach node (3 ∷ []) user ∷ S.end_node (0 ∷ []) (pos 0) "" ∷ []) registry)
run-Orderly_example =
    run-Orderly (S.attach node (3 ∷ []) user ∷ S.end_node (0 ∷ []) (pos 0) "" ∷ []) registry
      registry-Orderly

end_by_user-silent_example :
    forwards 0 (run (S.take 0 ∷ []) (Ending.end_by_user user (pos 1) "" registry).1) ≡ false
end_by_user-silent_example =
    end_by_user-silent 0 shell user (pos 1) "" (S.take 0 ∷ []) registry registry-Orderly there refl

abbrev emptied : Registry
emptied = record { shells = []; issued = 0; maintenance = λ n. []; credential_watchers = 0 }

emptied-Orderly : Orderly emptied
unfolding Shells.new
emptied-Orderly = new-Orderly

reserve_maintenance-run_example :
    Admission.maintenance_idle node sid
      (run (opening) (Admission.reserve_maintenance node sid emptied).1)
    ≡ true
unfolding Admission.reserve_maintenance eq_text any
reserve_maintenance-run_example =
    reserve_maintenance-run node sid opening emptied emptied-Orderly refl refl refl

send_guarded-outcome_example :
    let r = I.send_guarded 0 true (some 5) (some root) true registry in
    ((r.0.1 ≡ true) × Authorized true (some 5) (some root) shell registry)
    ⊎ ((r.0.1 ≡ false) × Ended 0 r.1)
send_guarded-outcome_example =
    send_guarded-outcome 0 true (some 5) (some root) true shell registry registry-Orderly there refl
      refl refl

prepare_end_all_lem_example :
    Ending.prepare_end_all node registry ≡ Ending.captured (λ s. eq_text s.server_id node) registry
unfolding any
prepare_end_all_lem_example = prepare_end_all_lem node registry refl refl

observe_interactive_policy-silent_example :
    forwards 0 (run [] (I.observe_interactive_policy 0 (λ id. none) registry)) ≡ false
observe_interactive_policy-silent_example =
    observe_interactive_policy-silent (λ id. none) 0 0 shell [] registry registry-Orderly there refl
      refl refl

abbrev second : Shell
second = record shell { id = 1; session_id = 4 ∷ [] }

abbrev both_open : Registry
both_open = record registry { shells = second ∷ shell ∷ []; issued = 2 }

both_open-Orderly : Orderly both_open
unfolding run apply I.register_interactive Admission.register Admission.apply_options
    Admission.apply_option Admission.exceeds eq_text any count_where at_key make_key
both_open-Orderly =
    run-Orderly
      (S.open_interactive 0 (some 5) (some root) node (4 ∷ []) user
          (Admission.with_session_id sid ∷ []) (pos 0)
        ∷ [])
      registry registry-Orderly
