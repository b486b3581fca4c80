-- ===== src/Main/Runs.antt =====
-- What main.cpp comes to, part by part: each part runs to its end, with what its machine prints.
use active_fsm.Base.{pos, List, [], ◌∷◌, ◌≡◌, refl}
use active_fsm.Outcome.{done}
use active_fsm.StateMachine.Events.{construct, is_on_state_machine_thread}
use active_fsm.StateMachine.Observed.{Signal, transition, entered, exited}
use active_fsm.StateMachine.ActiveObject.{handle_all}
use active_fsm.Examples.Motor.{MotorMachine, motor, set_speed, halt}
use active_fsm.Examples.Motor.Async.{QueuedMotor, async_motor}
use active_fsm.Examples.Player
use active_fsm.Examples.CentrifugeTest
use active_fsm.Examples.TcpConnection
use active_fsm.Examples.TcpConnection.Async.{QueuedTcp}
use active_fsm.Examples.AlarmPanel
use active_fsm.Main.{
  synchronous_motor, asynchronous_motor, player_part, centrifuge_part, tcp_part, alarm_part,
  wait_for_test, QueuedTest,
}

-- What `main` prints of the synchronous motor: each change of state is left, entered and told.
synchronous_motor_prints :
    (m : MotorMachine (List Signal)) × (synchronous_motor ≡ done tt m)
    × (m.object.seen
        ≡ transition 1 0
          ∷ entered 0
          ∷ exited 1
          ∷ transition 3 1
          ∷ entered 1
          ∷ exited 3
          ∷ transition 2 3
          ∷ entered 3
          ∷ exited 2
          ∷ transition 0 2
          ∷ entered 2
          ∷ exited 0
          ∷ [])
unfolding synchronous_motor motor construct set_speed halt is_on_state_machine_thread
synchronous_motor_prints = (_, refl, refl)

asynchronous_motor_prints :
    (m : QueuedMotor (List Signal)) × (asynchronous_motor ≡ done tt m)
    × (m.object.seen.seen ≡ transition 1 0 ∷ transition 3 1 ∷ transition 2 3 ∷ transition 0 2 ∷ [])
unfolding asynchronous_motor async_motor set_speed halt handle_all is_on_state_machine_thread
asynchronous_motor_prints = (_, refl, refl)

-- The player ends with an open tray.
player_part_ends :
    (m : Player.PlayerMachine (Unit {0})) × (player_part ≡ done tt m)
    × (m.current_state ≡ Player.st_open)
unfolding player_part Player.player Player.open_close Player.play Player.pause Player.end_pause
    Player.stop is_on_state_machine_thread
player_part_ends = (_, refl, refl)

-- The test completes, once.
centrifuge_part_ends :
    (m : QueuedTest) × (centrifuge_part ≡ done tt m) × (m.object.own.completions ≡ 1)
unfolding centrifuge_part wait_for_test CentrifugeTest.centrifuge_test CentrifugeTest.cancel
    CentrifugeTest.start CentrifugeTest.poll handle_all is_on_state_machine_thread
centrifuge_part_ends = (_, refl, refl)

tcp_part_prints :
    (m : QueuedTcp (List Signal)) × (tcp_part ≡ done tt m)
    × (m.object.seen.seen
        ≡ transition 10 0
          ∷ transition 8 10
          ∷ transition 5 8
          ∷ transition 4 5
          ∷ transition 2 4
          ∷ transition 0 2
          ∷ [])
unfolding tcp_part TcpConnection.tcp_connection TcpConnection.active_open TcpConnection.close
    TcpConnection.handle_packet handle_all is_on_state_machine_thread
tcp_part_prints = (_, refl, refl)

-- The panel prints the lines of its own functions, newest first.
alarm_part_prints :
    (m : AlarmPanel.PanelMachine (Unit {0})) × (alarm_part ≡ done tt m)
    × (m.object.own.printed
        ≡ AlarmPanel.system_disarmed
          ∷ AlarmPanel.deactivating_sensors
          ∷ AlarmPanel.armed_away
          ∷ AlarmPanel.full_coverage_enabled
          ∷ AlarmPanel.activating_sensors
          ∷ AlarmPanel.system_disarmed
          ∷ AlarmPanel.alarm (pos 3)
          ∷ AlarmPanel.deactivating_sensors
          ∷ AlarmPanel.armed_home
          ∷ AlarmPanel.interior_motion_disabled
          ∷ AlarmPanel.armed_away
          ∷ AlarmPanel.full_coverage_enabled
          ∷ AlarmPanel.armed_home
          ∷ AlarmPanel.interior_motion_disabled
          ∷ AlarmPanel.activating_sensors
          ∷ [])
unfolding alarm_part AlarmPanel.alarm_panel AlarmPanel.arm_home AlarmPanel.arm_away
    AlarmPanel.disarm AlarmPanel.toggle AlarmPanel.trigger is_on_state_machine_thread
alarm_part_prints = (_, refl, refl)
