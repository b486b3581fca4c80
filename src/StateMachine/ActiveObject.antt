-- ===== src/StateMachine/ActiveObject.antt =====
-- A machine with a thread (`SetThread` of state-machine/StateMachine.h): other threads hand calls to
-- it, and it takes them one by one. What a class is known to do with its calls stands in an interface;
-- what follows for any order of sending and handling is proved here once, for all classes.
pub mod Drain
pub mod Reach
use mathlib.Core.List.{append-nil, append_assoc}
use active_fsm.Base.{
  ℕ, true, false, some, List, [], ◌∷◌, ◌++◌, ◌≡◌, refl, sym, ap, ◌∙◌, subst, arith,
}
use active_fsm.Outcome.{
  M, Outcome, done, faulted, unfinished, and_then, modify, pure, for_each, ◌>>◌,
}
use active_fsm.StateMachine.{Machine}
use active_fsm.StateMachine.Observed.{Signal, Threads}
use active_fsm.StateMachine.Object.{Object}

-- What the observers keep, and the calls that the machine's thread was handed, oldest first
pub record Queued (C W : Type 0) : Type 0 where
  pub seen : W
  pub pending : List C

abbrev pub QueuedMachine : Type 0 → Type 0 → Type 0 → Type 0 → Type 0
QueuedMachine D O C W = Machine D (Object O (Queued C W))

module _ {D O C W : Type 0} where
  abbrev pub with_pending : QueuedMachine D O C W → List C → QueuedMachine D O C W
  with_pending m calls = record m {
    object = record m.object { seen = record m.object.seen { pending = calls } };
  }

  abbrev pub with_thread : QueuedMachine D O C W → ℕ → QueuedMachine D O C W
  with_thread m thread = record m { thread = some thread }

  abbrev pub pending_of : QueuedMachine D O C W → List C
  pending_of m = m.object.seen.pending

  -- `AsyncInvoke` of a call that `MakeDelegate` binds to the machine's thread
  abbrev pub enqueue : C → ℕ → M (QueuedMachine D O C W) (Unit {0})
  enqueue r thread = modify λ m. with_pending m (pending_of m ++ r ∷ [])

  -- The threads, as a thread that sends sees them, and as the machine's thread does
  abbrev pub sending : Threads D (Object O (Queued C W))
  sending = record { is_current_thread = λ _. false; post = λ _ _ _. pure tt }

  abbrev pub handling : Threads D (Object O (Queued C W))
  handling = record { is_current_thread = λ _. true; post = λ _ _ _. pure tt }

  -- An outcome, with other pending calls
  abbrev pub requeue :
      List C
      → Outcome (QueuedMachine D O C W) (Unit {0})
      → Outcome (QueuedMachine D O C W) (Unit {0})
  requeue calls (done a m) = done a (with_pending m calls)
  requeue calls (faulted e m) = faulted e (with_pending m calls)
  requeue calls unfinished = unfinished

-- What holds of the machine, if the call returns
abbrev pub IfDone : {S : Type 0} → (S → Type 0) → Outcome S (Unit {0}) → Type 0
IfDone P (done a m) = P m
IfDone P _ = Unit {0}

-- The machine is one of a family.
abbrev pub IsOneOf : {I S : Type 0} → (I → S) → S → Type 0
IsOneOf {I = I} at m = (i : I) × (m ≡ at i)

pub requeue-pending :
    {D O C W : Type 0} (calls : List C) (o : Outcome (QueuedMachine D O C W) (Unit {0}))
    {m : QueuedMachine D O C W}
    → requeue calls o ≡ done tt m
    → pending_of m ≡ calls
requeue-pending calls (done a m) e = ground arith
requeue-pending calls (faulted f m) e = cc
requeue-pending calls unfinished e = cc

-- The state that a series of calls leads to
abbrev pub last_target : {C : Type 0} → (C → ℕ) → ℕ → List C → ℕ
last_target target s [] = s
last_target target s (r ∷ rs) = last_target target (target r) rs

-- Observers that leave the queue alone
abbrev pub on_queue : {C W : Type 0} → (Signal → W → W) → Signal → Queued C W → Queued C W
on_queue observe signal u = record u { seen = observe signal u.seen }

-- The events of a class, by the threads and how a call is handed over
abbrev pub Events : Type 0 → Type 0 → Type 0 → Type 0 → Type 0
Events D O C W =
    Threads D (Object O (Queued C W))
    → (C → ℕ → M (QueuedMachine D O C W) (Unit {0}))
    → C
    → M (QueuedMachine D O C W) (Unit {0})

module _ {D O C W : Type 0} (event : Events D O C W) where
  abbrev pub send : C → M (QueuedMachine D O C W) (Unit {0})
  send = event sending enqueue

  abbrev pub handle : C → M (QueuedMachine D O C W) (Unit {0})
  handle = event handling enqueue

  -- The machine's thread takes the calls in their order.
  unfoldable pub handle_all : List C → M (QueuedMachine D O C W) (Unit {0})
  handle_all [] = pure tt
  handle_all (r ∷ rs) = do modify λ m. with_pending m rs; handle r; handle_all rs

  abbrev pub drain : M (QueuedMachine D O C W) (Unit {0})
  drain m = handle_all (pending_of m) m

  -- What a class is known to do, on machines that `P` holds of: a call off the thread is queued and no
  -- more, also if the caller sees the machine in the midst of a call, as any `k`; and what a call on the
  -- thread does neither reads nor changes the queue.
  pub record IsActive (P : QueuedMachine D O C W → Type 0) : Type 0 where
    pub sends :
        (r : C) (m k : QueuedMachine D O C W)
        → P m
        → k.thread ≡ m.thread
        → send r k ≡ done tt (with_pending k (pending_of k ++ r ∷ []))
    pub handles :
        (r : C) (m : QueuedMachine D O C W) (calls : List C)
        → P m
        → handle r (with_pending m calls) ≡ requeue calls (handle r m)
    pub keeps : (r : C) (m : QueuedMachine D O C W) → P m → IfDone P (handle r m)
    pub requeues : (m : QueuedMachine D O C W) (calls : List C) → P m → P (with_pending m calls)

  -- To show it for the machines of a family with a thread
  pub family-IsActive :
      {I : Type 0} (thread : ℕ) (at : I → QueuedMachine D O C W)
      → ((i : I) → (at i).thread ≡ some thread)
      → ((r : C) (k : QueuedMachine D O C W)
          → send r (with_thread k thread)
            ≡ done tt (with_pending (with_thread k thread) (pending_of k ++ r ∷ [])))
      → ((r : C) (i : I) (calls : List C)
          → handle r (with_pending (at i) calls) ≡ requeue calls (handle r (at i)))
      → ((r : C) (i : I) → IfDone (IsOneOf at) (handle r (at i)))
      → ((i : I) (calls : List C) → IsOneOf at (with_pending (at i) calls))
      → IsActive (IsOneOf at)
  family-IsActive thread at threaded sends handles keeps requeues = record {
    sends = λ r m k p same.
        let e = same ∙ ap (λ x. x.thread) p.1 ∙ threaded p.0 in
        subst (λ x. send r x ≡ done tt (with_pending x (pending_of x ++ r ∷ [])))
          (sym (ap (λ x. record k { thread = x }) e)) (sends r k);
    handles = λ r m calls p.
        subst (λ k. handle r (with_pending k calls) ≡ requeue calls (handle r k)) (sym p.1)
          (handles r p.0 calls);
    keeps = λ r m p. subst (λ k. IfDone (IsOneOf at) (handle r k)) (sym p.1) (keeps r p.0);
    requeues =
        λ m calls p. subst (λ k. IsOneOf at (with_pending k calls)) (sym p.1) (requeues p.0 calls);
  }
