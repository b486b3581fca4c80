-- ===== src/StateMachine/ActiveObject/Drain.antt =====
-- Calls that are sent and then handled, against calls that the machine's thread makes itself
-- (state-machine/StateMachine.h, `BEGIN_TRANSITION_MAP`).
use mathlib.Core.List.{append-nil, append_assoc}
use active_fsm.Base.{List, [], ◌∷◌, ◌++◌, ◌≡◌, refl, sym, ap, subst}
use active_fsm.Outcome.{Outcome, done, faulted, unfinished, and_then, for_each}
use active_fsm.StateMachine.ActiveObject.{
  QueuedMachine, with_pending, pending_of, requeue, IfDone, Events, send, handle, handle_all, drain,
  IsActive,
}

module _ {D O C W : Type 0} (event : Events D O C W) where
  module _ {P : QueuedMachine D O C W → Type 0} (active : IsActive event P) where
    sends-queued :
        (rs : List C) (m : QueuedMachine D O C W)
        → P m
        → for_each (send event) rs m ≡ done tt (with_pending m (pending_of m ++ rs))
    unfolding for_each
    sends-queued [] m p =
        ap (λ calls. done tt (with_pending m calls)) (sym (append-nil (pending_of m)))
    sends-queued (r ∷ rs) m p =
        rw
          (
            active.sends r m m p refl,
            sends-queued rs (with_pending m (pending_of m ++ r ∷ []))
                (active.requeues m (pending_of m ++ r ∷ []) p),
          )
          (ap (λ calls. done tt (with_pending m calls)) (append_assoc (pending_of m) (r ∷ []) rs))

    -- What remains of the calls after the first is the same, whether they are queued or not.
    rest-queued :
        (rs : List C)
        → ((m : QueuedMachine D O C W) (calls : List C)
            → P m
            → requeue [] (handle_all event rs (with_pending m calls))
              ≡ requeue [] (for_each (handle event) rs m))
        → (o : Outcome (QueuedMachine D O C W) (Unit {0})) → IfDone P o
        → requeue [] (and_then (requeue rs o) (λ _. handle_all event rs))
          ≡ requeue [] (and_then o (λ _. for_each (handle event) rs))
    rest-queued rs same (done a m) p = same m rs p
    rest-queued rs same (faulted e m) p = refl
    rest-queued rs same unfinished p = refl

    handle_all-for_each :
        (rs : List C) (m : QueuedMachine D O C W) (calls : List C)
        → P m
        → requeue [] (handle_all event rs (with_pending m calls))
          ≡ requeue [] (for_each (handle event) rs m)
    unfolding for_each handle_all
    handle_all-for_each [] m calls p = refl
    handle_all-for_each (r ∷ rs) m calls p =
        rw (active.handles r m rs p)
          (rest-queued rs (handle_all-for_each rs) (handle event r m) (active.keeps r m p))

    -- Calls that other threads send to a machine with no call pending, and that its thread then takes,
    -- come to what they come to if the machine's thread makes them itself, one after the other.
    pub sends-drain :
        (rs : List C) (m : QueuedMachine D O C W)
        → P m
        → pending_of m ≡ []
        → requeue [] (and_then (for_each (send event) rs m) (λ _. drain event))
          ≡ requeue [] (for_each (handle event) rs m)
    sends-drain rs m p e = rw (sends-queued rs m p) (
        subst
          (λ calls.
            requeue [] (handle_all event (calls ++ rs) (with_pending m (calls ++ rs)))
            ≡ requeue [] (for_each (handle event) rs m))
          (sym e) (handle_all-for_each rs m rs p))
