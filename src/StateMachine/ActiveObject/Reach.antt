-- ===== src/StateMachine/ActiveObject/Reach.antt =====
-- What other threads and the thread of a machine can come to (`SetThread` of
-- state-machine/StateMachine.h), in any order of sending and handling calls.
use active_fsm.Base.{some, ℕ, List, [], ◌∷◌, ◌++◌, ◌≡◌, refl, sym, ap, ◌∙◌, subst}
use active_fsm.Outcome.{Outcome, M, done}
use active_fsm.StateMachine.ActiveObject.{
  QueuedMachine, with_pending, with_thread, pending_of, IfDone, requeue-pending, Events, send,
  handle, handle_all, IsActive, last_target,
}

-- What the thread of a caller sees of the machine `m`: its thread and its queue, and of the members
-- anything, since the machine may be in the midst of a call.
pub record IsSeen {D O C W : Type 0} (m k : QueuedMachine D O C W) : Type 0 where
  pub same_thread : k.thread ≡ m.thread
  pub same_pending : pending_of k ≡ pending_of m

-- What a caller does that hands over `c`, also if it sees the machine in the midst of a call
pub send-seen :
    {D O C W : Type 0} (send : M (QueuedMachine D O C W) (Unit {0})) (c : C) (thread : ℕ)
    (m k : QueuedMachine D O C W)
    → m.thread ≡ some thread
    → IsSeen m k
    → send (with_thread k thread)
      ≡ done tt (with_pending (with_thread k thread) (pending_of k ++ c ∷ []))
    → send k ≡ done tt (with_pending k (pending_of m ++ c ∷ []))
send-seen send c thread m k t s e =
    subst (λ calls. send k ≡ done tt (with_pending k (calls ++ c ∷ []))) s.same_pending
      (subst (λ x. send x ≡ done tt (with_pending x (pending_of k ++ c ∷ [])))
        (sym (ap (λ x. record k { thread = x }) (s.same_thread ∙ t))) e)

pub same-pending :
    {D O C W : Type 0} (k : QueuedMachine D O C W) (o : Outcome (QueuedMachine D O C W) (Unit {0}))
    (cs ds : List C)
    → o ≡ done tt (with_pending k cs)
    → o ≡ done tt (with_pending k ds)
    → cs ≡ ds
same-pending k o cs ds e f = ap pending_of {x = with_pending k cs} {y = with_pending k ds} cc

-- `send` is what another thread does to make the call `R`, `handle` what the machine's thread does with
-- the call `C` that it was handed: for an active object these are the same calls.
module _ {D O C R W : Type 0} (send : R → M (QueuedMachine D O C W) (Unit {0}))
    (handle : C → M (QueuedMachine D O C W) (Unit {0})) where
  -- Whatever the threads have done so far: calls are sent, and the machine's thread takes one of them.
  -- A send in the midst of a call stands after it, since the call does not touch the queue.
  pub data Reached (start : QueuedMachine D O C W) : QueuedMachine D O C W → Type 0 where
    new : Reached start start
    sent :
        {m m' : QueuedMachine D O C W} (k : QueuedMachine D O C W) (r : R) (calls : List C)
        → Reached start m
        → IsSeen m k
        → send r k ≡ done tt (with_pending k calls)
        → m' ≡ with_pending m calls
        → Reached start m'
    handled :
        {m m' : QueuedMachine D O C W} (before after : List C) (c : C)
        → Reached start m
        → pending_of m ≡ before ++ c ∷ after
        → handle c (with_pending m (before ++ after)) ≡ done tt m'
        → Reached start m'

  -- The calls that were sent, newest first
  unfoldable pub calls_of : {start m : QueuedMachine D O C W} → Reached start m → List R
  calls_of new = []
  calls_of (sent k r calls h s e f) = r ∷ calls_of h
  calls_of (handled before after c h q e) = calls_of h

  -- What is kept by a send, and by the handling of a call that is pending
  pub record IsKept (P : QueuedMachine D O C W → Type 0) : Type 0 where
    pub sends :
        (r : R) (m k : QueuedMachine D O C W) (calls : List C)
        → P m
        → IsSeen m k
        → send r k ≡ done tt (with_pending k calls)
        → P (with_pending m calls)
    pub handles :
        (before after : List C) (c : C) (m : QueuedMachine D O C W)
        → P m
        → pending_of m ≡ before ++ c ∷ after
        → IfDone P (handle c (with_pending m (before ++ after)))

  pub Reached-P :
      {P : QueuedMachine D O C W → Type 0} {start m : QueuedMachine D O C W}
      → IsKept P
      → P start
      → Reached start m
      → P m
  Reached-P kept begins new = begins
  Reached-P {P = P} kept begins (sent {m = m} k r calls h s e f) =
      subst P (sym f) (kept.sends r m k calls (Reached-P kept begins h) s e)
  Reached-P {P = P} kept begins (handled {m = m} before after c h q e) =
      subst (IfDone P) e (kept.handles before after c m (Reached-P kept begins h) q)

module _ {D O C W : Type 0} (event : Events D O C W) where
  abbrev pub Reachable : QueuedMachine D O C W → QueuedMachine D O C W → Type 0
  Reachable = Reached (send event) (handle event)

  module _ {P : QueuedMachine D O C W → Type 0} (active : IsActive event P)
      {start : QueuedMachine D O C W} (begins : P start) where
    active-IsKept : IsKept (send event) (handle event) P
    active-IsKept = record {
      sends = λ r m k calls p s e. active.requeues m calls p;
      handles = λ before after c m p q.
          active.keeps c (with_pending m (before ++ after)) (active.requeues m (before ++ after) p);
    }

    pub Reachable-P : {m : QueuedMachine D O C W} → Reachable start m → P m
    Reachable-P = Reached-P (send event) (handle event) active-IsKept begins

    -- If each call on the thread returns and leads to its target, the calls that are pending can always
    -- be handled, in their order; then none is pending, and the last one's target is the state.
    pub Reachable-drains :
        (target : C → ℕ)
        → ((r : C) (m : QueuedMachine D O C W)
            → P m
            → (m' : QueuedMachine D O C W) × (handle event r m ≡ done tt m')
              × (m'.current_state ≡ target r))
        → (rs : List C) {m : QueuedMachine D O C W} → Reachable start m
        → pending_of m ≡ rs
        → (m' : QueuedMachine D O C W) × (handle_all event rs m ≡ done tt m')
          × Reachable start m'
          × (pending_of m' ≡ [])
          × (m'.current_state ≡ last_target target m.current_state rs)
    unfolding handle_all
    Reachable-drains target returns [] {m} h e = (m, refl, h, e, refl)
    Reachable-drains target returns (r ∷ rs) {m} h e =
        let p = Reachable-P h in
        let (m₁, e₁, t) = returns r (with_pending m rs) (active.requeues m rs p) in
        let left = requeue-pending rs (handle event r m) (sym (active.handles r m rs p) ∙ e₁) in
        let (m', f, h', none_left, s) =
          Reachable-drains target returns rs {m = m₁} (handled [] rs r h e e₁) left in
        (m', rw e₁ f, h', none_left, s ∙ ap (λ k. last_target target k rs) t)
