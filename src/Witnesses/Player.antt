-- ===== src/Witnesses/Player.antt =====
-- Instances for examples/Player.cpp.
use active_fsm.Base.{none, some, List, [], ◌∷◌, ◌≡◌, refl}
use active_fsm.Outcome.{done, pure, and_then, for_each}
use active_fsm.StateMachine.Events.{is_on_state_machine_thread}
use active_fsm.StateMachine.Observed.{Signal}
use active_fsm.Examples.Table.{IsResting, answered}
use active_fsm.Examples.Player.{
  PlayerCall, open_close_call, play_call, stop_call, pause_call, end_pause_call, PlayerMachine,
  player,
}
use active_fsm.Examples.Player.Laws.{
  is_empty, is_open, answer, OnThread, request, state_of, player-answer,
}
use active_fsm.Examples.Player.Promise.{IsDisc, history, new_player, player-requests}
use active_fsm.Witnesses.{keep, thread_7}

abbrev requests : List PlayerCall
requests =
    open_close_call ∷ open_close_call ∷ play_call ∷ pause_call ∷ end_pause_call ∷ stop_call ∷ []

player-requests_example :
    (m' : PlayerMachine (List Signal)) × (and_then
        (player keep thread_7 (λ _ _. pure tt) [])
        (λ _. for_each (request keep thread_7 (λ _ _. pure tt)) requests)
      ≡ done tt m')
    × IsResting keep state_of none
        (history is_empty new_player requests).0
        (history is_empty new_player requests).1
        m'
    × IsDisc (history is_empty new_player requests).0 (history is_empty new_player requests).1
player-requests_example = player-requests keep thread_7 (λ _ _. pure tt) [] requests

thread_7_runs : OnThread keep thread_7 (λ _ _. pure tt) (some 7)
unfolding is_on_state_machine_thread
thread_7_runs = refl

player-answer_example :
    request keep thread_7
      (λ _ _. pure tt)
      open_close_call
      (answered keep state_of 1 (some 7) is_open new_player [] none)
    ≡ done tt (
        answered keep state_of 1
          (some 7)
          is_open
          new_player
          []
          (answer is_open open_close_call new_player))
player-answer_example =
    player-answer keep thread_7 (λ _ _. pure tt) 1 (some 7) is_open open_close_call new_player []
      thread_7_runs
