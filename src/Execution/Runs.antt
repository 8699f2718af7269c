-- ===== src/Execution/Runs.antt =====
-- One execution over any sequence of its operations.
use Prim.Native.String.{String}
use veyport.Base.{
  ℕ, suc, ◌≤◌, ◌==◌, ◌≡◌, ◌∙◌, refl, Bool, true, false, ◌&&◌, not, Option, none, some, List, [],
  ◌∷◌, ◌++◌, arith, if◌then◌else◌, length, length-append, is_some, Bool-cases, inl, inr,
}
use veyport.Base.Int.{ℤ, pos}
use veyport.Base.Text.{Text}
use veyport.Execution.Messages.{Binding, Limits, Prepared, Input, frame, eof, Session}
use veyport.Execution.Lifecycle

pub data Op : Type 0 where
  deliver : Bool → Prepared → ℕ → Op
  issue : Option Text → ℕ → Op
  attach : Bool → Text → Binding → Text → ℕ → Op
  dispatch : Bool → Bool → ℕ → Op
  dispatch_unchecked : Bool → ℕ → Op
  dispatch_protected : Text → ℤ → Text → Bool → Bool → Bool → ℕ → Op
  configure : Bool → Text → ℕ → Option Limits → Op
  input : Text → Bool → Op
  finish_input : Bool → Op
  cancel : String → Op
  take : Op

unfoldable pub apply : Op → Session → Session
apply (deliver live p now) s = (Lifecycle.deliver_prepared live p now s).1
apply (issue random now) s = (Lifecycle.issue_attach random now s).1
apply (attach live node binding ticket now) s = (Lifecycle.attach live node binding ticket now s).1
apply (dispatch check live now) s = (Lifecycle.dispatch_checked check live now s).1
apply (dispatch_unchecked live now) s = (Lifecycle.dispatch_standard live now s).1
apply (dispatch_protected receipt expires policy script check live now) s =
    (Lifecycle.dispatch_protected receipt expires policy script check live now s).1
apply (configure enhanced hash script_length limits) s =
    (Lifecycle.configure enhanced hash script_length limits s).1
apply (input bytes enqueued) s = (Lifecycle.send_input bytes enqueued s).1
apply (finish_input enqueued) s = (Lifecycle.close_input enqueued s).1
apply (cancel reason) s = Lifecycle.cancel reason s
apply take s = Lifecycle.take_start s

unfoldable pub run : List Op → Session → Session
run [] s = s
run (op ∷ ops) s = run ops (apply op s)

-- What stays, once it is there.
pub record Keeps (s s' : Session) : Type 0 where
  pub prepared : is_some s.prepared ≡ true → (s'.prepared ≡ s.prepared) × (s'.deadline ≡ s.deadline)
  pub issued : s.ticket_issued ≡ true → s'.ticket_issued ≡ true
  pub used : s.ticket_used ≡ true → s'.ticket_used ≡ true
  pub dispatched : s.dispatch ≡ true → s'.dispatch ≡ true
  pub done : is_some s.done ≡ true → s'.done ≡ s.done
  pub closed : s.input_closed ≡ true → (s'.input_closed ≡ true) × (s'.stdin ≡ s.stdin)

same-Keeps : (s : Session) → Keeps s s
same-Keeps s = record {
  prepared = λ h. (refl, refl);
  issued = λ h. h;
  used = λ h. h;
  dispatched = λ h. h;
  done = λ h. refl;
  closed = λ h. (h, refl);
}

trans-Keeps : (a b c : Session) → Keeps a b → Keeps b c → Keeps a c
trans-Keeps a b c p q = record {
  prepared = λ h. let (e, d) = p.prepared h in let (f, g) = q.prepared (rw e h) in (f ∙ e, g ∙ d);
  issued = λ h. q.issued (p.issued h);
  used = λ h. q.used (p.used h);
  dispatched = λ h. q.dispatched (p.dispatched h);
  done = λ h. let e = p.done h in q.done (rw e h) ∙ e;
  closed = λ h. let (e, f) = p.closed h in let (g, k) = q.closed e in (g, k ∙ f);
}

pub apply-Keeps : (op : Op) (s : Session) → Keeps s (apply op s)
unfolding apply Lifecycle.deliver_prepared Lifecycle.issue_attach Lifecycle.attach
    Lifecycle.dispatch_checked Lifecycle.dispatch_standard Lifecycle.dispatch_protected
    Lifecycle.configure Lifecycle.send_input Lifecycle.close_input Lifecycle.cancel
    Lifecycle.take_start
apply-Keeps take s = record {
  prepared = λ h. (refl, refl);
  issued = λ h. h;
  used = λ h. h;
  dispatched = λ h. h;
  done = λ h. refl;
  closed = λ h. (h, refl);
}
apply-Keeps op s = record {
  prepared = λ h. ground arith;
  issued = λ h. ground arith;
  used = λ h. ground arith;
  dispatched = λ h. ground arith;
  done = λ h. ground arith;
  closed = λ h. ground arith;
}

pub run-Keeps : (ops : List Op) (s : Session) → Keeps s (run ops s)
unfolding run
run-Keeps [] s = same-Keeps s
run-Keeps (op ∷ ops) s =
    trans-Keeps s (apply op s) _ (apply-Keeps op s) (run-Keeps ops (apply op s))

abbrev is_nil : List Input → Bool
is_nil [] = true
is_nil (x ∷ xs) = false

-- The messages for the standard input are numbered one after the other from `k` up to `n`, and an end
-- comes last.
unfoldable pub in_order : ℕ → ℕ → Bool → List Input → Bool
in_order k n closed [] = k == n && not closed
in_order k n closed (frame j bytes ∷ rest) = j == k && in_order (suc k) n closed rest
in_order k n closed (eof j ∷ rest) = j == k && (k == n && (closed && is_nil rest))

-- A transport was attached with a ticket that was issued, a start was dispatched to an attached
-- transport, and nothing of it without a preparation; the start channel never holds more than its
-- one place; and the input is in order.
pub record Ready (s : Session) : Type 0 where
  pub issued : s.ticket_issued ≡ true → is_some s.prepared ≡ true
  pub used : s.ticket_used ≡ true → s.ticket_issued ≡ true
  pub dispatched : s.dispatch ≡ true → s.ticket_used ≡ true
  pub starts : length s.start ≤ (if s.dispatch then 1 else 0)
  pub input : in_order 0 s.input_sequence s.input_closed s.stdin ≡ true

in_order-frame :
    (k n : ℕ) (bytes : Text) (xs : List Input)
    → in_order k n false xs ≡ true
    → in_order k (suc n) false (xs ++ frame n bytes ∷ []) ≡ true
unfolding in_order
in_order-frame k n bytes [] h = ground arith
in_order-frame k n bytes (frame j b ∷ xs) h = ground (arith, in_order-frame (suc k) n bytes xs)
in_order-frame k n bytes (eof j ∷ xs) h = ground arith

in_order-eof :
    (k n : ℕ) (xs : List Input)
    → in_order k n false xs ≡ true
    → in_order k n true (xs ++ eof n ∷ []) ≡ true
unfolding in_order
in_order-eof k n [] h = ground arith
in_order-eof k n (frame j b ∷ xs) h = ground (arith, in_order-eof (suc k) n xs)
in_order-eof k n (eof j ∷ xs) h = ground arith

length-dispatch_of :
    (policy receipt : Text) (e : ℤ) (o : Option Prepared)
    → length (Lifecycle.dispatch_of policy receipt e o) ≤ 1
length-dispatch_of policy receipt e none = omega arith
length-dispatch_of policy receipt e (some p) = omega arith

starts-queue :
    (policy receipt : Text) (e : ℤ) (s : Session)
    → s.dispatch ≡ false
    → Ready s
    → length (Lifecycle.queue_start policy receipt e s).start ≤ 1
starts-queue policy receipt e s d r = ground (
  arith,
  r.starts,
  length-append s.start (Lifecycle.dispatch_of policy receipt e s.prepared),
  length-dispatch_of policy receipt e s.prepared,
)

preparation-lacking :
    (now : ℕ) (s : Session)
    → Lifecycle.preparation_expired_locked now s ≡ false
    → is_some s.prepared ≡ true
unfolding Lifecycle.preparation_expired_locked
preparation-lacking now s h = ground arith

pub apply-Ready : (op : Op) (s : Session) → Ready s → Ready (apply op s)
unfolding apply Lifecycle.deliver_prepared Lifecycle.issue_attach Lifecycle.attach
    Lifecycle.may_attach Lifecycle.dispatch_checked Lifecycle.dispatch_standard
    Lifecycle.dispatch_protected Lifecycle.configure Lifecycle.send_input Lifecycle.close_input
    Lifecycle.cancel Lifecycle.take_start
apply-Ready take s r = record {
  issued = r.issued;
  used = r.used;
  dispatched = r.dispatched;
  starts = ground arith;
  input = r.input;
}
apply-Ready (issue random now) s r = record {
  issued = λ h. ground (arith, r.issued, preparation-lacking now s);
  used = λ h. ground (arith, r.used);
  dispatched = λ h. ground (arith, r.dispatched);
  starts = ground (arith, r.starts);
  input = ground (arith, r.input);
}
apply-Ready (input bytes enqueued) s r = record {
  issued = λ h. ground (arith, r.issued);
  used = λ h. ground (arith, r.used);
  dispatched = λ h. ground (arith, r.dispatched);
  starts = ground (arith, r.starts);
  input = ground (arith, r.input, in_order-frame 0 s.input_sequence bytes s.stdin);
}
apply-Ready (finish_input enqueued) s r = record {
  issued = λ h. ground (arith, r.issued);
  used = λ h. ground (arith, r.used);
  dispatched = λ h. ground (arith, r.dispatched);
  starts = ground (arith, r.starts);
  input = ground (arith, r.input, in_order-eof 0 s.input_sequence s.stdin);
}
apply-Ready (dispatch check live now) s r = record {
  issued = λ h. ground (arith, r.issued);
  used = λ h. ground (arith, r.used);
  dispatched = λ h. ground (arith, r.dispatched);
  starts = elim (Bool-cases s.dispatch) [
    | inl d ↦ ground (arith, r.starts)
    | inr d ↦ ground (arith, r.starts, starts-queue Lifecycle.standard_policy [] (pos 0) s d r)
  ];
  input = ground (arith, r.input);
}
apply-Ready (dispatch_unchecked live now) s r = record {
  issued = λ h. ground (arith, r.issued);
  used = λ h. ground (arith, r.used);
  dispatched = λ h. ground (arith, r.dispatched);
  starts = elim (Bool-cases s.dispatch) [
    | inl d ↦ ground (arith, r.starts)
    | inr d ↦ ground (arith, r.starts, starts-queue Lifecycle.standard_policy [] (pos 0) s d r)
  ];
  input = ground (arith, r.input);
}
apply-Ready (dispatch_protected receipt expires policy script check live now) s r = record {
  issued = λ h. ground (arith, r.issued);
  used = λ h. ground (arith, r.used);
  dispatched = λ h. ground (arith, r.dispatched);
  starts = elim (Bool-cases s.dispatch) [
    | inl d ↦ ground (arith, r.starts)
    | inr d ↦ ground (arith, r.starts, starts-queue policy receipt expires s d r)
  ];
  input = ground (arith, r.input);
}
apply-Ready op s r = record {
  issued = λ h. ground (arith, r.issued);
  used = λ h. ground (arith, r.used);
  dispatched = λ h. ground (arith, r.dispatched);
  starts = ground (arith, r.starts);
  input = ground (arith, r.input);
}
