-- ===== src/Execution/Examples.antt =====
-- The theorems on executions, at one submission that is prepared, attached and dispatched.
use veyport.Base.{
  find, ◌≡◌, ◌⊎◌, refl, Bool, true, false, none, some, List, [], ◌∷◌, arith, is_some,
}
use veyport.Base.Int.{pos}
use veyport.Base.Text.{Text}
use veyport.Relay.Keys.{eq_text, make_key}
use veyport.Execution.Messages.{Binding, eq_binding, Limits, eq_limits, Prepared, Session}
use veyport.Execution.Lifecycle
use veyport.Execution.Runs.{Op, run, apply, Ready, in_order}
use veyport.Execution.Runs as R
use veyport.Execution.Once
use veyport.Execution.Once.{
  run-Ready, attach-once, dispatch_by, dispatch_by-once, Within, attach-Within,
  issue_attach-progress,
}
use veyport.Execution.Sessions.{
  at_key, Connections, Capability, Executions, lookup, end_connection, of_stream, supports,
}
use veyport.Execution.Generations.{Fate, end_connection-generation}

abbrev node : Text
node = 7 ∷ []

abbrev boot : Text
boot = 9 ∷ []

abbrev hash : Text
hash =
    0 ∷ 0 ∷ 0 ∷ 0 ∷ 0 ∷ 0 ∷ 0 ∷ 0 ∷ 0 ∷ 0 ∷ 0 ∷ 0 ∷ 0 ∷ 0 ∷ 0 ∷ 0 ∷ 0 ∷ 0 ∷ 0 ∷ 0 ∷ 0 ∷ 0 ∷ 0 ∷ 0
    ∷ 0 ∷ 0 ∷ 0 ∷ 0 ∷ 0 ∷ 0 ∷ 0 ∷ 0 ∷ []

abbrev limits : Limits
limits = record {
  max_frame_bytes = 65536;
  max_buffer_bytes = 2097152;
  runtime_seconds = 3600;
  term_grace_seconds = 5;
  blocked_consumer_seconds = 60;
}

abbrev ticket : Text
ticket =
    1 ∷ 2 ∷ 3 ∷ 4 ∷ 5 ∷ 6 ∷ 7 ∷ 8 ∷ 1 ∷ 2 ∷ 3 ∷ 4 ∷ 5 ∷ 6 ∷ 7 ∷ 8 ∷ 1 ∷ 2 ∷ 3 ∷ 4 ∷ 5 ∷ 6 ∷ 7 ∷ 8
    ∷ 1 ∷ 2 ∷ 3 ∷ 4 ∷ 5 ∷ 6 ∷ 7 ∷ 8 ∷ []

abbrev binding : Binding
binding = record {
  execution_id = 5 ∷ [];
  node_id = node;
  preparation_id = 6 ∷ [];
  boot_id = boot;
  expires = pos 60000;
}

abbrev prepared : Prepared
prepared = record {
  failure = [];
  binding = some binding;
  identity = some (record {
    username = 1 ∷ [];
    shell = 2 ∷ [];
    cwd = 3 ∷ [];
    home = [];
    groups = [];
    identity_sha256 = hash;
    groups_sha256 = hash;
  });
  command_sha256 = hash;
  limits = some limits;
}

abbrev fresh : Bool → Session
fresh enhanced = record {
  id = 5 ∷ [];
  node_id = node;
  actor_id = 8 ∷ [];
  requested_user = [];
  connection = 4;
  boot_id = boot;
  command_hash = hash;
  limits = limits;
  prepared = none;
  prepare_error = none;
  deadline = none;
  ticket = hash;
  ticket_issued = false;
  ticket_used = false;
  dispatch = false;
  start = [];
  done = none;
  stdin = [];
  input_sequence = 0;
  input_closed = false;
  enhanced = enhanced;
  script_hash = [];
  script_length = 0;
}

fresh-Ready : (enhanced : Bool) → Ready (fresh enhanced)
unfolding in_order
fresh-Ready enhanced = record {
  issued = λ h. ground arith;
  used = λ h. ground arith;
  dispatched = λ h. ground arith;
  starts = omega arith;
  input = refl;
}

abbrev use_all : List Op
use_all = R.issue (some ticket) 1 ∷ R.attach true node binding ticket 2 ∷ R.input (1 ∷ []) true ∷ []

run-Ready_example : Ready (run use_all (fresh false))
run-Ready_example = run-Ready use_all (fresh false) (fresh-Ready false)

abbrev issued : Bool → Session
issued enhanced = record (fresh enhanced) {
  prepared = some prepared;
  deadline = some 60000000000;
  ticket = ticket;
  ticket_issued = true;
}

attach-once_example :
    is_some
      (Lifecycle.attach true node binding ticket 3
        (Lifecycle.attach true node binding ticket 2 (issued false)).1).0
    ≡ true
unfolding Lifecycle.attach Lifecycle.may_attach Lifecycle.preparation_expired_locked eq_text
    eq_binding run
attach-once_example =
    attach-once true node binding ticket 2 [] true node binding ticket 3 (issued false) refl

abbrev attached : Session
attached = record (issued false) { ticket_used = true }

dispatch_by-once_example :
    is_some
      (dispatch_by
        (Once.guarded [] (pos 0) [] true true true 4)
        (run (R.take ∷ []) (dispatch_by (Once.checked true true 3) attached).1)).0
    ≡ true
unfolding dispatch_by Lifecycle.dispatch_checked Lifecycle.dispatch_standard
    Lifecycle.preparation_expired_locked
dispatch_by-once_example =
    dispatch_by-once (Once.checked true true 3) (Once.guarded [] (pos 0) [] true true true 4)
      (R.take ∷ []) attached refl

attach-Within_example :
    let s' =
      run
        (R.issue (some ticket) 1 ∷ [])
        (Lifecycle.deliver_prepared true prepared 0 (fresh false)).1 in
    Within prepared 0 2
    × ((prepared.binding ≡ some binding) × ((binding.node_id ≡ node) × (s'.ticket ≡ ticket)))
unfolding Lifecycle.deliver_prepared Lifecycle.validate_prepared Lifecycle.issue_attach
    Lifecycle.attach Lifecycle.may_attach Lifecycle.preparation_expired_locked eq_text eq_binding
    eq_limits run apply
attach-Within_example =
    attach-Within true prepared 0 (R.issue (some ticket) 1 ∷ []) true node binding ticket 2
      (fresh false) refl refl

abbrev waiting : Session
waiting = record (fresh false) { prepared = some prepared; deadline = some 60000000000 }

issue_attach-progress_example :
    let s1 = (Lifecycle.issue_attach (some ticket) 1 waiting).1 in
    let s2 = (Lifecycle.attach true node binding ticket 2 s1).1 in
    let r = Lifecycle.dispatch_checked true true 3 s2 in
    ((Lifecycle.issue_attach (some ticket) 1 waiting).0 ≡ none)
    × (((Lifecycle.attach true node binding ticket 2 s1).0 ≡ none)
        × (((r.0 ≡ none) × (r.1.dispatch ≡ true))
            × (r.1.start
                ≡ record {
                  binding = some binding;
                  command_sha256 = hash;
                  identity = prepared.identity;
                  limits = some limits;
                  policy_version = Lifecycle.standard_policy;
                  receipt = [];
                  receipt_expires = pos 0;
                }
                  ∷ [])))
unfolding Lifecycle.preparation_expired_locked
issue_attach-progress_example =
    issue_attach-progress prepared binding ticket 1 2 3 waiting (omega arith) (omega arith) refl
      refl refl (refl, (refl, refl)) (refl, refl) refl

abbrev connections : Connections
connections = record { installed = λ n. some 4; is_open = λ c. true; stream = λ c. 3 }

abbrev capability : Capability
capability = record {
  connection = 4;
  capability = record {
    protocol_version = 1;
    standard_exec = true;
    protected_script = false;
    boot_id = boot;
  };
}

abbrev executions : Text → Executions
executions reserved = record {
  sessions = fresh false ∷ [];
  capabilities = λ n. some capability;
  terminals = record {
    shells = [];
    issued = 0;
    maintenance = λ n. reserved;
    credential_watchers = 0;
  };
}

end_connection-generation_example :
    let e' = end_connection connections node (some 3) "gone" (executions []) in
    ((s' : Session) × ((lookup node (5 ∷ []) e' ≡ some s') × Fate true "gone" (fresh false) s'))
    × ((supports connections node e' ≡ false)
        ⊎ ((c : Capability) × (((executions []).capabilities node ≡ some c)
              × (of_stream connections (some 3) c.connection ≡ false))))
unfolding find at_key eq_text make_key
end_connection-generation_example =
    end_connection-generation connections node (some 3) "gone" node (5 ∷ []) (fresh false)
      (executions []) refl
