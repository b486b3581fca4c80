-- ===== src/Examples/Player/Promise.antt =====
-- examples/Player.cpp over any history of events: its state, and the disc that it has detected.
use active_fsm.Base.{ℕ, true, false, none, List, inl, inr, ◌≡◌, refl, Bool-cases}
use active_fsm.Outcome.{M, done, and_then, for_each}
use active_fsm.StateMachine.Events.{is_on_state_machine_thread}
use active_fsm.StateMachine.Observed.{Signal, Threads}
use active_fsm.StateMachine.Object.{Object}
use active_fsm.Examples.Table.{IsResting, phase_after, own_after}
use active_fsm.Examples.Table.Follow.{led_to, led_to-keeps, requests-led_to}
use active_fsm.Examples.Player.{
  EventData, Player, PlayerCall, open_close_call, play_call, stop_call, pause_call, end_pause_call,
  PlayerMachine, player,
}
use active_fsm.Examples.Player.Laws.{
  Phase, is_empty, is_open, is_stopped, is_paused, is_playing, answer, request, player-answer,
  state_of,
}

-- Whether a disc is in, where the state says so
abbrev pub IsDisc : Phase → Player → Type 0
IsDisc is_empty o = o.cd_detected_toggle ≡ false
IsDisc is_open o = Unit {0}
IsDisc _ o = o.cd_detected_toggle ≡ true

answer-IsDisc :
    (phase : Phase) (r : PlayerCall) (o : Player)
    → IsDisc phase o
    → IsDisc (phase_after phase (answer phase r o)) (own_after o (answer phase r o))
answer-IsDisc is_open open_close_call o h = elim (Bool-cases o.cd_detected_toggle) [
  | inl e ↦ rw e refl
  | inr e ↦ rw e refl
]
answer-IsDisc is_empty open_close_call o h = tt
answer-IsDisc is_stopped open_close_call o h = tt
answer-IsDisc is_paused open_close_call o h = tt
answer-IsDisc is_playing open_close_call o h = tt
answer-IsDisc is_stopped play_call o h = h
answer-IsDisc is_stopped stop_call o h = h
answer-IsDisc is_paused stop_call o h = h
answer-IsDisc is_playing stop_call o h = h
answer-IsDisc is_playing pause_call o h = h
answer-IsDisc is_paused end_pause_call o h = h
answer-IsDisc _ _ o h = h

-- Where the table leads
abbrev pub history : Phase → Player → List PlayerCall → Phase × Player
history = led_to answer

abbrev pub new_player : Player
new_player = record { cd_detected_toggle = false }

module _ {W : Type 0} (observe : Signal → W → W) (threads : Threads EventData (Object Player W))
    (hand_over : PlayerCall → ℕ → M (PlayerMachine W) (Unit {0})) where
  -- In synchronous mode any number of events on a new player is done without an assertion, and leaves
  -- it in the state that the table has. It is stopped, paused or playing only if the last closing of
  -- the tray detected a disc, and empty only if it did not.
  pub player-requests :
      (seen : W) (rs : List PlayerCall)
      → (m' : PlayerMachine W) × (and_then
            (player observe threads hand_over seen)
            (λ _. for_each (request observe threads hand_over) rs)
          ≡ done tt m')
        × IsResting observe state_of none
            (history is_empty new_player rs).0
            (history is_empty new_player rs).1
            m'
        × IsDisc (history is_empty new_player rs).0 (history is_empty new_player rs).1
  unfolding player is_on_state_machine_thread
  player-requests seen rs =
      let (m', e, h) =
        requests-led_to answer observe state_of none (request observe threads hand_over)
          (λ n p r o w. player-answer observe threads hand_over n none p r o w refl) is_empty
          new_player rs _ (0, seen, refl) in
      (m', e, h, led_to-keeps answer IsDisc answer-IsDisc is_empty new_player rs refl)
