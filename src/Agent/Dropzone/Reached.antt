-- ===== src/Agent/Dropzone/Reached.antt =====
-- Every state that the upload area reaches.
use Prim.Native.String.{String}
use veyport.Base.{◌≡◌, refl, Bool, true, false, not, arith, any, count_where}
use veyport.Agent.Budget.{Budget, is_held, acquire_activity, release_activity, notify_activity}
use veyport.Agent.Budget
use veyport.Agent.Budget.Admission
use veyport.Agent.Budget.Admission.{
  Balanced, apply-Balanced, release_activity-Balanced, activities-release_activity,
}
use veyport.Agent.Dropzone.{Bytes, Dropzone, Os, new, handle_chunk, cleanup, abort}
use veyport.Agent.Dropzone.Uploads.{Inv, release_activity-held, loose, has_lease}
use veyport.Agent.Dropzone.Writing.{loose-more}
use veyport.Agent.Dropzone.Runs.{abort-Inv, budget-Inv, drop_all-facts, handle_chunk-Inv}

-- Another holder of the budget: its release functions are not those of the uploads.
unfoldable pub is_foreign : Admission.Op → Dropzone → Bool
is_foreign (Admission.finish l) d = not (any (has_lease l) d.uploads)
is_foreign op d = true

pub data Step : Dropzone → Dropzone → Type 0 where
  chunk :
      (id : String) (filename bytes : Bytes) (done : Bool) (os : Os) (d : Dropzone)
      → Step d (handle_chunk id filename bytes done os d).1
  give_up : (id : String) (clean : Bool) (d : Dropzone) → Step d (abort id clean d).1
  sweep : (d : Dropzone) → Step d (cleanup d)
  other :
      (op : Admission.Op) (d : Dropzone)
      → is_foreign op d ≡ true
      → Step d (record d { budget = Admission.apply op d.budget })

pub data Reach (start : Dropzone) : Dropzone → Type 0 where
  here : Reach start start
  next : (d d' : Dropzone) → Reach start d → Step d d' → Reach start d'

apply-loose :
    (op : Admission.Op) (d : Dropzone)
    → Inv d
    → is_foreign op d ≡ true
    → any (loose (Admission.apply op d.budget).held) d.uploads ≡ false
unfolding is_foreign Admission.apply acquire_activity notify_activity Budget.acquire
    Budget.try_maintenance Budget.end_maintenance Budget.release Budget.observe_activities
    Budget.stop_observing
apply-loose Admission.start d i f =
    ground (arith, i.leased, loose-more d.budget.issued d.budget.held d.uploads)
apply-loose Admission.open_session d i f = ground (arith, i.leased)
apply-loose Admission.enter d i f = ground (arith, i.leased)
apply-loose Admission.leave d i f = i.leased
apply-loose Admission.close_session d i f = ground (arith, i.leased)
apply-loose (Admission.finish l) d i f =
    release_activity-held l d.budget d.uploads (ground arith) i.leased
apply-loose (Admission.observe o) d i f = i.leased
apply-loose (Admission.stop o) d i f = ground (arith, i.leased)

Step-Inv : (d d' : Dropzone) → Step d d' → Inv d → Inv d'
unfolding cleanup
Step-Inv d d' (chunk id filename bytes done os _) i = handle_chunk-Inv id filename bytes done os d i
Step-Inv d d' (give_up id clean _) i = abort-Inv id clean d i
Step-Inv d d' (sweep _) i = (drop_all-facts d.uploads d i refl).0
Step-Inv d d' (other op _ f) i =
    budget-Inv (Admission.apply op d.budget) d i (apply-Balanced op d.budget i.balanced)
      (apply-loose op d i f)

-- In every state that the upload area reaches from one with its books in order, by chunks of any
-- content and with any answers of the operating system, by aborts and cleanups, and by other users of
-- the budget: at most ten uploads are open, with distinct ids and distinct leases that the budget
-- still holds; each has counted exactly the bytes of its file, at most 100 MB; every file that was
-- committed is within that limit and its name is neither empty nor holds a slash; and the budget is
-- in balance.
pub Reach-Inv : (start d : Dropzone) → Inv start → Reach start d → Inv d
Reach-Inv start d i here = i
Reach-Inv start d' i (next d _ r s) = Step-Inv d d' s (Reach-Inv start d i r)

pub new-Inv : (b : Budget) → Balanced b → Inv (new b)
unfolding new any count_where
new-Inv b ok = record {
  few = omega arith;
  sized = refl;
  unique = λ id. omega arith;
  leased = refl;
  distinct = λ l. omega arith;
  named = refl;
  placed = refl;
  balanced = ok;
}
