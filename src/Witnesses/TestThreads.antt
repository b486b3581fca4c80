-- ===== src/Witnesses/TestThreads.antt =====
-- Instances for the threads of a centrifuge test: a `Start` is sent and handled, then a `Cancel` is sent.
use active_fsm.Base.{◌+◌, ◌≤◌, ℕ, suc, some, none, pos, true, false, List, [], ◌∷◌, ◌++◌, ◌≡◌, refl}
use active_fsm.Outcome.{done}
use active_fsm.StateMachine.Events.{is_on_state_machine_thread}
use active_fsm.StateMachine.Observed.{Signal, transition}
use active_fsm.StateMachine.Object.{resting}
use active_fsm.StateMachine.ActiveObject.{on_queue, with_pending, pending_of, drain}
use active_fsm.StateMachine.ActiveObject.Reach.{IsSeen, calls_of, new, sent, handled}
use active_fsm.Examples.Table.{IsResting}
use active_fsm.Examples.SelfTest.{st_idle, st_failed}
use active_fsm.Examples.CentrifugeTest.{
  CentrifugeTest, TestCall, start_call, cancel_call, start, cancel, centrifuge_test,
  st_acceleration,
}
use active_fsm.Examples.CentrifugeTest.Laws.{Phase, state_of}
use active_fsm.Examples.CentrifugeTest.Promise.{IsMembers}
use active_fsm.Examples.CentrifugeTest.Async.{
  TestMessage, call, event_impl, Shared, AreMessages, IsMessage, send_call, test_events,
  handle_message, ReachedTest, IsNew,
}
use active_fsm.Examples.CentrifugeTest.Async.Completions.{
  running, asked, weight, total, ReachedTest-completions,
}
use active_fsm.Examples.CentrifugeTest.Async.Promise.{
  settled, ReachedTest-IsMembers, ReachedTest-settles,
}

abbrev count : Signal → ℕ → ℕ
count (transition f t) n = suc n
count _ n = n

abbrev new_machine : List TestMessage → Shared ℕ
new_machine messages =
    resting 0 (some 7) st_idle (record { speed = pos 0; polling = false; completions = 0 })
      (record { seen = 0; pending = messages })

abbrev running_machine : List TestMessage → Shared ℕ
running_machine messages =
    resting st_acceleration (some 7) st_acceleration
      (record { speed = pos 0; polling = true; completions = 0 })
      (record { seen = 2; pending = messages })

abbrev cancelled : Shared ℕ
cancelled = running_machine (event_impl st_failed none ∷ [])

new_machine-IsNew : IsNew count 7 0 (new_machine [])
unfolding centrifuge_test
new_machine-IsNew = refl

cancelled-Reached : ReachedTest count (new_machine []) cancelled
unfolding start cancel is_on_state_machine_thread
cancelled-Reached =
    sent {m = running_machine []} (running_machine []) cancel_call (event_impl st_failed none ∷ [])
      (handled {m = new_machine (call start_call ∷ [])} [] [] (call start_call)
        (sent {m = new_machine []} (new_machine []) start_call (call start_call ∷ []) new
          (record { same_thread = refl; same_pending = refl }) refl refl)
        refl refl)
      (record { same_thread = refl; same_pending = refl }) refl refl

ReachedTest-IsMembers_example :
    (phase : Phase) × (o : CentrifugeTest) × IsResting
      (on_queue count)
      state_of
      (some 7)
      phase
      o
      cancelled
    × IsMembers phase o
    × AreMessages (pending_of cancelled)
    × ((r : TestCall) (k : Shared ℕ)
        → IsSeen cancelled k
        → (c : TestMessage) × IsMessage c
          × (send_call count r k ≡ done tt (with_pending k (pending_of cancelled ++ c ∷ []))))
    × ((before after : List TestMessage) (c : TestMessage)
        → pending_of cancelled ≡ before ++ c ∷ after
        → (m' : Shared ℕ) × (handle_message count c (with_pending cancelled (before ++ after))
            ≡ done tt m'))
ReachedTest-IsMembers_example = ReachedTest-IsMembers count 7 0 new_machine-IsNew cancelled-Reached

ReachedTest-settles_example :
    (phase : Phase) × (o : CentrifugeTest) × IsResting
      (on_queue count)
      state_of
      (some 7)
      phase
      o
      cancelled
    × ((m' : Shared ℕ) × (drain (test_events count) cancelled ≡ done tt m')
        × ReachedTest count (new_machine []) m'
        × (pending_of m' ≡ [])
        × IsResting
            (on_queue count)
            state_of
            (some 7)
            (settled phase o (pending_of cancelled)).0
            (settled phase o (pending_of cancelled)).1
            m')
ReachedTest-settles_example = ReachedTest-settles count 7 0 new_machine-IsNew cancelled-Reached

ReachedTest-completions_example :
    (phase : Phase) × (o : CentrifugeTest) × IsResting
      (on_queue count)
      state_of
      (some 7)
      phase
      o
      cancelled
    × (o.completions + running phase + total weight (pending_of cancelled)
        ≤ total asked (calls_of (send_call count) (handle_message count) cancelled-Reached))
ReachedTest-completions_example =
    ReachedTest-completions count 7 0 new_machine-IsNew cancelled-Reached
