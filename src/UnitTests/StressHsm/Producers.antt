-- ===== src/UnitTests/StressHsm/Producers.antt =====
-- The asynchronous tests of `StressHSM` in unit-tests/StateMachineHSMTests.cpp: threads that send
-- events, the thread of the machine that handles the calls it was handed, and the observers that count
-- transitions, and entries and exits of `ST_PARENT`.
use active_fsm.Base.{
  ℕ, suc, ◌+◌, ◌<◌, false, some, [], ◌∷◌, ◌++◌, ◌≡◌, refl, sym, ap, ◌∙◌, subst, arith, ◌==◌,
  if◌then◌else◌,
}
use active_fsm.Outcome.{done}
use active_fsm.StateMachine.Events.{is_on_state_machine_thread}
use active_fsm.StateMachine.Observed.{Signal, transition, entered, exited}
use active_fsm.StateMachine.Object.{resting}
use active_fsm.StateMachine.ActiveObject.{
  Queued, QueuedMachine, Events, with_pending, with_thread, pending_of, enqueue, handling, requeue,
  send, handle, drain, IfDone, IsOneOf, IsActive, family-IsActive, on_queue, last_target,
}
use active_fsm.StateMachine.ActiveObject.Reach.{Reachable, Reachable-P, Reachable-drains}
use active_fsm.UnitTests.{EventData}
use active_fsm.UnitTests.StressHsm.{
  StressCall, activate_call, deactivate_call, stress_hsm, request, activate, deactivate, st_idle,
  st_parent, st_child, st_max_states, target,
}

pub record Counts : Type 0 where
  pub trans_count : ℕ
  pub entry_parent : ℕ
  pub exit_parent : ℕ

abbrev pub no_counts : Counts
no_counts = record { trans_count = 0; entry_parent = 0; exit_parent = 0 }

-- The observers of the tests
abbrev pub count : Signal → Counts → Counts
count (transition f t) u = record u { trans_count = suc u.trans_count }
count (entered s) u = if s == st_parent then record u { entry_parent = suc u.entry_parent } else u
count (exited s) u = if s == st_parent then record u { exit_parent = suc u.exit_parent } else u
count _ u = u

-- Is the machine inside `ST_PARENT`?
abbrev pub inside : ℕ → ℕ
inside s = if s == st_child then 1 else 0

pub record AreBalanced (state : ℕ) (u : Counts) : Type 0 where
  pub entries : u.entry_parent ≡ u.exit_parent + inside state
  pub transitions : u.trans_count ≡ u.entry_parent + u.exit_parent

abbrev pub Shared : Type 0
Shared = QueuedMachine EventData (Unit {0}) StressCall Counts

abbrev pub stress_events : Events EventData (Unit {0}) StressCall Counts
stress_events threads hand_over = request (on_queue count) threads hand_over

-- A new machine with the thread, no call handed to it, and nothing counted
abbrev pub IsNew : ℕ → Shared → Type 0
IsNew thread m =
    stress_hsm (on_queue count) handling enqueue thread (record { seen = no_counts; pending = [] })
    ≡ done tt m

-- What a call after another adds to the counts, and what it leaves in `m_newState`
abbrev counted : StressCall → StressCall → Counts → Counts
counted deactivate_call activate_call u = record u {
  trans_count = suc u.trans_count;
  entry_parent = suc u.entry_parent;
}
counted activate_call deactivate_call u = record u {
  trans_count = suc u.trans_count;
  exit_parent = suc u.exit_parent;
}
counted _ _ u = u

abbrev left_by : StressCall → StressCall → ℕ → ℕ
left_by deactivate_call activate_call n = st_child
left_by activate_call deactivate_call n = st_idle
left_by _ _ n = n

counted-AreBalanced :
    (q r : StressCall) (u : Counts)
    → AreBalanced (target q) u
    → AreBalanced (target r) (counted q r u)
counted-AreBalanced activate_call activate_call u h = h
counted-AreBalanced activate_call deactivate_call u h = ground arith
counted-AreBalanced deactivate_call activate_call u h = ground arith
counted-AreBalanced deactivate_call deactivate_call u h = h

abbrev counting : StressCall → StressCall → Queued StressCall Counts → Queued StressCall Counts
counting q r w = record w { seen = counted q r w.seen }

module _ (thread : ℕ) where
  abbrev rests : ℕ → StressCall → Queued StressCall Counts → Shared
  rests n q w = resting n (some thread) (target q) tt w

  handle_lem :
      (r q : StressCall) (n : ℕ) (w : Queued StressCall Counts)
      → handle stress_events r (rests n q w) ≡ done tt (rests (left_by q r n) r (counting q r w))
  unfolding activate deactivate is_on_state_machine_thread
  handle_lem activate_call activate_call n w = refl
  handle_lem activate_call deactivate_call n w = refl
  handle_lem deactivate_call activate_call n w = refl
  handle_lem deactivate_call deactivate_call n w = refl

  -- A machine between two calls, after one or none, with counts that fit its state
  record Resting : Type 0 where
    left : ℕ
    call : StressCall
    queued : Queued StressCall Counts
    balanced : AreBalanced (target call) queued.seen

  abbrev at : Resting → Shared
  at i = rests i.left i.call i.queued

  stress-sends :
      (r : StressCall) (k : Shared)
      → send stress_events r (with_thread k thread)
        ≡ done tt (with_pending (with_thread k thread) (pending_of k ++ r ∷ []))
  unfolding activate deactivate is_on_state_machine_thread
  stress-sends activate_call k = refl
  stress-sends deactivate_call k = refl

  stress-keeps :
      (r : StressCall) (i : Resting) → IfDone (IsOneOf at) (handle stress_events r (at i))
  stress-keeps r i = rw (handle_lem r i.call i.left i.queued) (
    record {
      left = left_by i.call r i.left;
      call = r;
      queued = counting i.call r i.queued;
      balanced = counted-AreBalanced i.call r i.queued.seen i.balanced;
    },
    refl,
  )

  stress-IsActive : IsActive stress_events (IsOneOf at)
  stress-IsActive =
      family-IsActive stress_events thread at (λ i. refl) stress-sends
        (λ r i calls.
          handle_lem r i.call i.left (record i.queued { pending = calls })
          ∙ ap (requeue calls) (sym (handle_lem r i.call i.left i.queued)))
        stress-keeps (λ i calls. (record i { queued = record i.queued { pending = calls } }, refl))

  IsNew-at : (m : Shared) → IsNew thread m → IsOneOf at m
  unfolding stress_hsm
  IsNew-at m e = (
    record {
      left = 0;
      call = deactivate_call;
      queued = record { seen = no_counts; pending = [] };
      balanced = ground arith;
    },
    cc,
  )

  target-lt : (r : StressCall) → target r < st_max_states
  target-lt activate_call = omega arith
  target-lt deactivate_call = omega arith

  module _ {start m : Shared} (new : IsNew thread start)
      (reachable : Reachable stress_events start m) where
    -- However the sends of other threads to a new `StressHSM` and the handling of their calls follow on
    -- each other, in whatever order the machine's thread takes the calls, sends in the midst of a call
    -- included: when no call is being handled, no event is pending, the state is below the number of states, `ST_PARENT` was entered as often as it was left, and once more if
    -- the machine is inside it, and each transition entered or left it.
    pub Reachable-AreBalanced :
        (m.event_generated ≡ false)
        × (m.current_state < st_max_states)
        × AreBalanced m.current_state m.object.seen.seen
    Reachable-AreBalanced =
        let (i, e) = Reachable-P stress_events stress-IsActive (IsNew-at start new) reachable in
        subst
          (λ k.
            (k.event_generated ≡ false)
            × (k.current_state < st_max_states)
            × AreBalanced k.current_state k.object.seen.seen)
          (sym e) (refl, target-lt i.call, i.balanced)

    -- From there the machine's thread can always make the calls that are pending, in their order, without
    -- an assertion; then none is pending, the machine is in the state of the last of them, or the one it
    -- was in if there was none, and the threads could have come to that.
    pub Reachable-settles :
        (m' : Shared) × (drain stress_events m ≡ done tt m')
        × Reachable stress_events start m'
        × (pending_of m' ≡ [])
        × (m'.current_state ≡ last_target target m.current_state (pending_of m))
    Reachable-settles =
        Reachable-drains stress_events stress-IsActive (IsNew-at start new) target
          (λ r k p.
            let (i, e) = p in
            (
              rests (left_by i.call r i.left) r (counting i.call r i.queued),
              ap (handle stress_events r) e ∙ handle_lem r i.call i.left i.queued,
              refl,
            ))
          (pending_of m) reachable refl
