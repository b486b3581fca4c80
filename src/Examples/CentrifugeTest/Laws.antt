-- ===== src/Examples/CentrifugeTest/Laws.antt =====
-- What each event of examples/CentrifugeTest.cpp comes to in each state: the state, the members of
-- the test, and the signals, in order.
use active_fsm.Base.{
  ℕ, true, false, suc, increment, decrement, is_zero, at_least, Option, none, some, List, [], ◌∷◌,
  ◌++◌, ◌≡◌, if◌then◌else◌, Bool-cases, inl, inr,
}
use active_fsm.Outcome.{M, done}
use active_fsm.StateMachine.Events.{is_on_state_machine_thread}
use active_fsm.StateMachine.Observed.{Signal, Threads, transition}
use active_fsm.StateMachine.Object.{Object}
use active_fsm.Examples.Table.{Row, moving, answered}
use active_fsm.Examples.SelfTest.{st_idle, st_completed, st_failed}
use active_fsm.Examples.CentrifugeTest.{
  EventData, CentrifugeTest, TestCall, start_call, poll_call, cancel_call, TestMachine,
  test_context, st_start_test, st_acceleration, st_wait_for_acceleration, st_deceleration,
  st_wait_for_deceleration, start, poll, cancel,
}

-- The states that the test rests in
pub data Phase : Type 0 where
  is_idle is_accelerating is_waiting_up is_decelerating is_waiting_down : Phase

abbrev pub state_of : Phase → ℕ
state_of is_idle = st_idle
state_of is_accelerating = st_acceleration
state_of is_waiting_up = st_wait_for_acceleration
state_of is_decelerating = st_deceleration
state_of is_waiting_down = st_wait_for_deceleration

abbrev vetoed : CentrifugeTest → Row Phase CentrifugeTest
vetoed o = record { phase = is_idle; left = st_start_test; own = o; signals = [] }

abbrev begun : CentrifugeTest → Row Phase CentrifugeTest
begun o = record {
  phase = is_accelerating;
  left = st_acceleration;
  own = record o { polling = true };
  signals = moving st_idle st_start_test (moving st_start_test st_acceleration []);
}

-- `ending s o` follows the signals before it.
abbrev pub ending : ℕ → CentrifugeTest → ℕ → List Signal → Row Phase CentrifugeTest
ending s o by before = record {
  phase = is_idle;
  left = st_idle;
  own = record o { polling = false; completions = suc o.completions };
  signals = before ++ moving s by (moving by st_idle []);
}

abbrev faster : CentrifugeTest → CentrifugeTest
faster o = record o { speed = increment o.speed }

abbrev slower : CentrifugeTest → CentrifugeTest
slower o = record o { speed = decrement o.speed }

-- The signals of a poll in state `s`, for which the wait is state `t`
abbrev polled : CentrifugeTest → Phase → List Signal → Row Phase CentrifugeTest
polled o phase signals = record { phase = phase; left = state_of phase; own = o; signals = signals }

abbrev poll_up : List Signal → CentrifugeTest → Row Phase CentrifugeTest
poll_up before o =
    if at_least 5 (increment o.speed)
    then polled (record (faster o) { polling = true }) is_decelerating
        (before ++ moving st_wait_for_acceleration st_deceleration [])
    else polled (faster o) is_waiting_up before

abbrev poll_down : List Signal → CentrifugeTest → Row Phase CentrifugeTest
poll_down before o =
    if is_zero o.speed
    then ending st_wait_for_deceleration (slower o) st_completed before
    else polled (slower o) is_waiting_down before

-- The table of the test; `none` is an event that is ignored.
abbrev pub answer : Phase → TestCall → CentrifugeTest → Option (Row Phase CentrifugeTest)
answer is_idle start_call o = some (if is_zero o.speed then begun o else vetoed o)
answer is_accelerating poll_call o =
    some (poll_up (moving st_acceleration st_wait_for_acceleration []) o)
answer is_waiting_up poll_call o =
    some (poll_up (transition st_wait_for_acceleration st_wait_for_acceleration ∷ []) o)
answer is_decelerating poll_call o =
    some (poll_down (moving st_deceleration st_wait_for_deceleration []) o)
answer is_waiting_down poll_call o =
    some (poll_down (transition st_wait_for_deceleration st_wait_for_deceleration ∷ []) o)
answer is_accelerating cancel_call o = some (ending st_acceleration o st_failed [])
answer is_waiting_up cancel_call o = some (ending st_wait_for_acceleration o st_failed [])
answer is_decelerating cancel_call o = some (ending st_deceleration o st_failed [])
answer is_waiting_down cancel_call o = some (ending st_wait_for_deceleration o st_failed [])
answer _ _ _ = none

module _ {W : Type 0} (observe : Signal → W → W)
    (threads : Threads EventData (Object CentrifugeTest W))
    (hand_over : TestCall → ℕ → M (TestMachine W) (Unit {0})) where
  abbrev pub OnThread : Option ℕ → Type 0
  OnThread thread =
      is_on_state_machine_thread (test_context observe threads hand_over) thread ≡ true

  abbrev pub request : TestCall → M (TestMachine W) (Unit {0})
  request start_call = start observe threads hand_over
  request poll_call = poll observe threads hand_over
  request cancel_call = cancel observe threads hand_over

  -- On the thread of the machine, each event in each state does what the table has.
  pub test-answer :
      (n : ℕ) (thread : Option ℕ) (phase : Phase) (r : TestCall) (o : CentrifugeTest) (w : W)
      → OnThread thread
      → request r (answered observe state_of n thread phase o w none)
        ≡ done tt (answered observe state_of n thread phase o w (answer phase r o))
  unfolding start poll cancel
  test-answer n thread is_idle start_call o w on = elim (Bool-cases (is_zero o.speed)) [
    | inl e ↦ rw (on, on, e)
    | inr e ↦ rw (on, on, e)
  ]
  test-answer n thread is_accelerating poll_call o w on =
      elim (Bool-cases (at_least 5 (increment o.speed))) [
        | inl e ↦ rw (on, on, e)
        | inr e ↦ rw (on, on, e)
      ]
  test-answer n thread is_waiting_up poll_call o w on =
      elim (Bool-cases (at_least 5 (increment o.speed))) [
        | inl e ↦ rw (on, on, e)
        | inr e ↦ rw (on, on, e)
      ]
  test-answer n thread is_decelerating poll_call o w on = elim (Bool-cases (is_zero o.speed)) [
    | inl e ↦ rw (on, on, e)
    | inr e ↦ rw (on, on, e)
  ]
  test-answer n thread is_waiting_down poll_call o w on = elim (Bool-cases (is_zero o.speed)) [
    | inl e ↦ rw (on, on, e)
    | inr e ↦ rw (on, on, e)
  ]
  test-answer n thread is_accelerating cancel_call o w on = rw on
  test-answer n thread is_waiting_up cancel_call o w on = rw on
  test-answer n thread is_decelerating cancel_call o w on = rw on
  test-answer n thread is_waiting_down cancel_call o w on = rw on
  test-answer n thread _ _ o w on = rw on
