-- ===== src/Examples/CentrifugeTest/Async.antt =====
-- examples/CentrifugeTest.cpp as an active object: other threads call `Start` and `Cancel`, the thread of
-- the poll timer calls `Poll`, and the thread of the machine handles what it is handed.
pub mod Steps
pub mod Moves
pub mod Promise
pub mod Completions
use active_fsm.Base.{ℕ, true, none, Option, some, List, [], ◌∷◌, ◌++◌, ◌≡◌}
use active_fsm.Outcome.{M, done}
use active_fsm.StateMachine.Events.{external_event_impl}
use active_fsm.StateMachine.Observed.{Signal}
use active_fsm.StateMachine.Object.{resting}
use active_fsm.StateMachine.ActiveObject.{
  Queued, QueuedMachine, Events, enqueue, handling, send, handle, on_queue,
}
use active_fsm.StateMachine.ActiveObject.Reach.{Reached}
use active_fsm.Examples.Table.{Row}
use active_fsm.Examples.SelfTest.{st_failed}
use active_fsm.Examples.CentrifugeTest.{
  EventData, CentrifugeTest, TestCall, test_context, test_engine, centrifuge_test,
}
use active_fsm.Examples.CentrifugeTest.Laws.{Phase, state_of, ending, answer, request}
use active_fsm.Examples.CentrifugeTest.Promise.{IsMembers}

-- What the thread is handed: a call of a member, from `BEGIN_TRANSITION_MAP`, or one of
-- `ExternalEventImpl`, from `ExternalEvent`
pub data TestMessage : Type 0 where
  call : TestCall → TestMessage
  event_impl : ℕ → Option EventData → TestMessage

abbrev pub Shared : Type 0 → Type 0
Shared W = QueuedMachine EventData CentrifugeTest TestMessage W

-- The messages that a test can be handed
abbrev pub IsMessage : TestMessage → Type 0
IsMessage (call r) = Unit {0}
IsMessage (event_impl s d) = (s ≡ st_failed) × (d ≡ none)

abbrev pub AreMessages : List TestMessage → Type 0
AreMessages [] = Unit {0}
AreMessages (c ∷ cs) = IsMessage c × AreMessages cs

-- The table of the test for messages: `ST_FAILED` is left in no state.
abbrev pub respond : Phase → TestMessage → CentrifugeTest → Option (Row Phase CentrifugeTest)
respond phase (call r) o = answer phase r o
respond phase (event_impl s d) o = some (ending (state_of phase) o st_failed [])

module _ {W : Type 0} (observe : Signal → W → W) where
  abbrev pub test_events : Events EventData CentrifugeTest TestMessage W
  test_events threads hand_over (call r) =
      request (on_queue observe)
        (record threads { post = λ thread s d. hand_over (event_impl s d) thread })
        (λ q. hand_over (call q)) r
  test_events threads hand_over (event_impl s d) =
      external_event_impl (test_context (on_queue observe) threads (λ q. hand_over (call q)))
        (test_engine (on_queue observe) threads (λ q. hand_over (call q))) s d

  -- A call from another thread, and a message that the machine's thread takes
  abbrev pub send_call : TestCall → M (Shared W) (Unit {0})
  send_call r = send test_events (call r)

  abbrev pub handle_message : TestMessage → M (Shared W) (Unit {0})
  handle_message = handle test_events

  abbrev pub ReachedTest : Shared W → Shared W → Type 0
  ReachedTest = Reached send_call handle_message

  -- A new test with the thread, and nothing handed to it
  abbrev pub IsNew : ℕ → W → Shared W → Type 0
  IsNew thread seen m =
      centrifuge_test (on_queue observe) handling (λ q. enqueue (call q)) thread
        (record { seen = seen; pending = [] })
      ≡ done tt m

-- A test between two messages, with members that fit its phase and messages that it can be handed
pub record Resting (W : Type 0) : Type 0 where
  pub left : ℕ
  pub phase : Phase
  pub own : CentrifugeTest
  pub queued : Queued TestMessage W
  pub fits : IsMembers phase own
  pub messages : AreMessages queued.pending

abbrev pub at : {W : Type 0} → ℕ → Resting W → Shared W
at thread i = resting i.left (some thread) (state_of i.phase) i.own i.queued
