-- ===== src/Main.antt =====
-- main.cpp: what the demonstration does with each example machine, in the order of `main`. Its observers
-- print the states that a signal carries, so what is printed is the list of signals, newest first. The
-- thread that runs the timers, `sleep_for` and the headings are left out.
mod Runs
use active_fsm.Base.{
  ℕ, zero, suc, Bool, true, false, pos, some, List, [], ◌∷◌, ◌≡◌, refl, if◌then◌else◌,
}
use active_fsm.Outcome.{
  M, Outcome, done, unfinished, and_then, for_each, pure, get, modify, ◌>>=◌, ◌>>◌,
}
use active_fsm.StateMachine.{Machine}
use active_fsm.StateMachine.Events.{construct, set_thread, is_on_state_machine_thread}
use active_fsm.StateMachine.Observed.{Signal, transition, entered, exited, Threads}
use active_fsm.StateMachine.Object.{Object}
use active_fsm.StateMachine.ActiveObject.{
  Queued, QueuedMachine, Events, on_queue, sending, handling, enqueue, send, handle, drain,
  handle_all,
}
use active_fsm.Examples.Motor.{
  MotorMachine, motor_data, set_speed_call, halt_call, motor, set_speed, halt,
}
use active_fsm.Examples.Motor.Async.{QueuedMotor, motor_events, async_motor}
use active_fsm.Examples.Player
use active_fsm.Examples.CentrifugeTest
use active_fsm.Examples.CentrifugeTest.Async.{Shared, call, test_events, send_call}
use active_fsm.Examples.TcpConnection
use active_fsm.Examples.TcpConnection.Async.{QueuedTcp, tcp_events}
use active_fsm.Examples.AlarmPanel

-- An observer that prints every signal, one that prints transitions, and none
abbrev pub printing : Signal → List Signal → List Signal
printing x xs = x ∷ xs

abbrev pub printing_transitions : Signal → List Signal → List Signal
printing_transitions (transition f t) xs = transition f t ∷ xs
printing_transitions _ xs = xs

abbrev pub silent : Signal → Unit {0} → Unit {0}
silent x u = u

-- The machines of the synchronous parts have no thread.
abbrev pub no_threads : {D U : Type 0} → Threads D U
no_threads = record { is_current_thread = λ _. false; post = λ _ _ _. pure tt }

abbrev pub no_hand_over : {C S : Type 0} → C → ℕ → M S (Unit {0})
no_hand_over r thread = pure tt

-- Synchronous Motor
abbrev pub speed : ℕ → M (MotorMachine (List Signal)) (Unit {0})
speed v = set_speed printing no_threads no_hand_over (some (motor_data (pos v)))

pub synchronous_motor : Outcome (MotorMachine (List Signal)) (Unit {0})
synchronous_motor = and_then (motor printing no_threads no_hand_over []) (λ _. do
  speed 100
  speed 200
  halt printing no_threads no_hand_over
  halt printing no_threads no_hand_over)

-- Asynchronous Motor: `ExitThread` returns when the calls that were posted have been made.
abbrev pub posted_speed : ℕ → M (QueuedMotor (List Signal)) (Unit {0})
posted_speed v =
    send (motor_events printing_transitions) (set_speed_call (some (motor_data (pos v))))

pub asynchronous_motor : Outcome (QueuedMotor (List Signal)) (Unit {0})
unfolding async_motor
asynchronous_motor = and_then (async_motor printing_transitions 1 []) (λ _. do
  posted_speed 100
  posted_speed 200
  send (motor_events printing_transitions) halt_call
  send (motor_events printing_transitions) halt_call
  drain (motor_events printing_transitions))

-- Player
abbrev pub on_player :
    ((Signal → Unit {0} → Unit {0})
      → Threads Player.EventData (Object Player.Player (Unit {0}))
      → (Player.PlayerCall → ℕ → M (Player.PlayerMachine (Unit {0})) (Unit {0}))
      → M (Player.PlayerMachine (Unit {0})) (Unit {0}))
    → M (Player.PlayerMachine (Unit {0})) (Unit {0})
on_player event = event silent no_threads no_hand_over

pub player_part : Outcome (Player.PlayerMachine (Unit {0})) (Unit {0})
player_part = and_then (Player.player silent no_threads no_hand_over tt) (λ _. do
  on_player Player.open_close
  on_player Player.open_close
  on_player Player.play
  on_player Player.pause
  on_player Player.end_pause
  on_player Player.stop
  on_player Player.play
  on_player Player.play
  on_player Player.open_close)

-- CentrifugeTest, which has its own thread: `Cancel` of an idle test, `Start`, and what the poll timer
-- sends until `OnComplete` tells `main` that the test is done. `polls` bounds the number of polls.
abbrev pub QueuedTest : Type 0
QueuedTest = Shared (Unit {0})

pub wait_for_test : ℕ → M QueuedTest (Unit {0})
wait_for_test zero m = elim m.object.own.polling [ true ↦ unfinished | false ↦ done tt m ]
wait_for_test (suc polls) m = elim m.object.own.polling [
  | true ↦
      (do
        send_call silent CentrifugeTest.poll_call
        drain (test_events silent)
        wait_for_test polls)
        m
  | false ↦ done tt m
]

pub centrifuge_part : Outcome QueuedTest (Unit {0})
unfolding wait_for_test
centrifuge_part =
    and_then
      (CentrifugeTest.centrifuge_test (on_queue silent) handling (λ q. enqueue (call q)) 1
        (record { seen = tt; pending = [] }))
      (λ _. do
        send_call silent CentrifugeTest.cancel_call
        send_call silent CentrifugeTest.start_call
        drain (test_events silent)
        wait_for_test 11)

-- TcpConnection, which has its own thread; the sleep at the end is longer than its calls take.
abbrev pub packet : (syn ack fin : Bool) → M (QueuedTcp (List Signal)) (Unit {0})
packet syn ack fin = send (tcp_events printing_transitions) (
    TcpConnection.handle_packet_call
      (some (record { syn = syn; ack = ack; fin = fin; rst = false })))

pub tcp_part : Outcome (QueuedTcp (List Signal)) (Unit {0})
tcp_part =
    and_then
      (TcpConnection.tcp_connection (on_queue printing_transitions) handling enqueue 1
        (record { seen = []; pending = [] }))
      (λ _. do
        send (tcp_events printing_transitions) TcpConnection.active_open_call
        packet true true false
        send (tcp_events printing_transitions) TcpConnection.close_call
        packet false false true
        packet false true false
        drain (tcp_events printing_transitions))

-- AlarmPanel
abbrev pub on_panel :
    ((Signal → Unit {0} → Unit {0})
      → Threads AlarmPanel.TriggerData (Object AlarmPanel.AlarmPanel (Unit {0}))
      → (AlarmPanel.PanelCall → ℕ → M (AlarmPanel.PanelMachine (Unit {0})) (Unit {0}))
      → M (AlarmPanel.PanelMachine (Unit {0})) (Unit {0}))
    → M (AlarmPanel.PanelMachine (Unit {0})) (Unit {0})
on_panel event = event silent no_threads no_hand_over

pub alarm_part : Outcome (AlarmPanel.PanelMachine (Unit {0})) (Unit {0})
alarm_part = and_then (AlarmPanel.alarm_panel silent no_threads no_hand_over tt) (λ _. do
  on_panel AlarmPanel.arm_home
  on_panel AlarmPanel.toggle
  on_panel AlarmPanel.toggle
  AlarmPanel.trigger silent no_threads no_hand_over (some (AlarmPanel.trigger_data (pos 3)))
  on_panel AlarmPanel.disarm
  on_panel AlarmPanel.arm_away
  on_panel AlarmPanel.disarm)
