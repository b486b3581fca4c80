-- ===== src/Examples/CentrifugeTest/Races.antt =====
-- `Cancel` of examples/SelfTest.cpp from a thread that is not the machine's: `PARENT_TRANSITION`
-- stands before `BEGIN_TRANSITION_MAP`, so the state is looked at on the caller's thread.
use active_fsm.Base.{ℕ, true, false, suc, none, some, ◌≡◌, refl}
use active_fsm.Outcome.{M, done}
use active_fsm.StateMachine.Events.{external_event_impl, is_on_state_machine_thread}
use active_fsm.StateMachine.Observed.{Signal, Threads}
use active_fsm.StateMachine.Object.{Object, resting}
use active_fsm.Examples.SelfTest.{st_idle, st_failed}
use active_fsm.Examples.CentrifugeTest.{
  EventData, CentrifugeTest, TestCall, TestMachine, test_context, test_engine, cancel,
}
use active_fsm.Examples.CentrifugeTest.Laws.{Phase, is_idle, state_of}
use active_fsm.Examples.CentrifugeTest.Promise.{is_active}

module _ {W : Type 0} (observe : Signal → W → W)
    (threads : Threads EventData (Object CentrifugeTest W))
    (hand_over : TestCall → ℕ → M (TestMachine W) (Unit {0})) where
  cancel-posts :
      (n thread : ℕ) (phase : Phase) (o : CentrifugeTest) (w : W)
      → is_active phase ≡ true
      → threads.is_current_thread thread ≡ false
      → let m = resting n (some thread) (state_of phase) o w in
        cancel observe threads hand_over m ≡ threads.post thread st_failed none m
  unfolding cancel is_on_state_machine_thread
  cancel-posts n thread is_idle o w a off = cc
  cancel-posts n thread _ o w a off = rw off

  -- During a test, a `Cancel` from another thread hands over the event `ST_FAILED`, and not the call.
  -- If the machine is idle when it handles that event, it still goes through `ST_FAILED` and completes
  -- once more, though `Cancel` is an event that `ST_IDLE` ignores.
  pub cancel-late :
      (n n' thread : ℕ) (phase : Phase) (o o' : CentrifugeTest) (w w' : W)
      → is_active phase ≡ true
      → threads.is_current_thread thread ≡ false
      → let m = resting n (some thread) (state_of phase) o w in
        let idle_machine = resting n' (some thread) st_idle o' w' in
        (cancel observe threads hand_over m ≡ threads.post thread st_failed none m)
        × ((w'' : W) × (external_event_impl
                (test_context observe threads hand_over)
                (test_engine observe threads hand_over)
                st_failed
                none
                idle_machine
              ≡ done tt (
                  resting st_idle
                    (some thread)
                    st_idle
                    (record o' { polling = false; completions = suc o'.completions })
                    w'')))
  unfolding test_engine external_event_impl
  cancel-late n n' thread phase o o' w w' a off = (cancel-posts n thread phase o w a off, (_, refl))
