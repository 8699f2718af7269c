-- ===== src/Agent/Examples.antt =====
-- The theorems on the budget and on uploads, at a small budget and a file in two chunks.
use veyport.Base.{ℕ, ◌≡◌, refl, false, none, some, List, [], ◌∷◌, arith, find}
use veyport.Base.Int.{pos}
use veyport.Agent.Budget.{Budget, acquire_activity, release_activity, notify_activity, emit}
use veyport.Agent.Budget as B
use veyport.Agent.Budget.Admission
use veyport.Agent.Budget.Admission.{
  Balanced, new-Balanced, run, run-Balanced, release_activity_once,
}
use veyport.Agent.Dropzone.{
  Dropzone, new, handle_chunk, sanitize_filename, strip_trailing, after_last, base,
}
use veyport.Agent.Dropzone.Uploads.{Inv}
use veyport.Agent.Dropzone.Reached
use veyport.Agent.Dropzone.Reached.{Reach, Reach-Inv, new-Inv}
use veyport.Agent.Dropzone.Transfer.{all_well, send_all, send_all_lem}

abbrev ops : List Admission.Op
ops =
    Admission.observe 1
    ∷ Admission.start
    ∷ Admission.enter
    ∷ Admission.finish 0
    ∷ Admission.enter
    ∷ []

abbrev budget : Budget
budget = record {
  used = 0;
  maximum = pos 8;
  maintenance = false;
  activities = 0;
  observer = none;
  issued = 0;
  held = [];
  emitted = [];
}

budget-Balanced : Balanced budget
unfolding B.new
budget-Balanced = new-Balanced (pos 8)

run-Balanced_example : Balanced (run ops budget)
run-Balanced_example = run-Balanced ops budget budget-Balanced

abbrev empty : Dropzone
empty = record { uploads = []; budget = budget; committed = [] }

empty-Inv : Inv empty
unfolding new
empty-Inv = new-Inv budget budget-Balanced

-- "/tmp/a"
abbrev path : List ℕ
path = 47 ∷ 116 ∷ 109 ∷ 112 ∷ 47 ∷ 97 ∷ []

abbrev started : Dropzone
started = (handle_chunk "r1" path (1 ∷ 2 ∷ []) false all_well empty).1

started-Reach : Reach empty started
started-Reach =
    Reach.next empty started Reach.here (Reached.chunk "r1" path (1 ∷ 2 ∷ []) false all_well empty)

Reach-Inv_example : Inv started
Reach-Inv_example = Reach-Inv empty started empty-Inv started-Reach

send_all_lem_example :
    let (ack, d') = send_all "r1" path ((1 ∷ 2 ∷ []) ∷ []) (3 ∷ []) empty in
    (ack ≡ some (record { request_id = "r1"; error = none }))
    × (d'.committed ≡ (97 ∷ [], 1 ∷ 2 ∷ 3 ∷ []) ∷ [])
unfolding find sanitize_filename base strip_trailing after_last
send_all_lem_example =
    send_all_lem "r1" path ((1 ∷ 2 ∷ []) ∷ []) (3 ∷ []) empty refl (omega arith) refl refl refl
      (omega arith) (omega arith)
