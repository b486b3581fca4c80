-- ===== src/Examples/Player/Laws.antt =====
-- What each event of examples/Player.cpp comes to in each state: the state, whether a disc was
-- detected, and the signals, in order.
use active_fsm.Base.{
  ℕ, true, false, Option, none, some, [], ◌∷◌, ◌≡◌, if◌then◌else◌, Bool-cases, inl, inr,
}
use active_fsm.Outcome.{M, done}
use active_fsm.StateMachine.Events.{is_on_state_machine_thread}
use active_fsm.StateMachine.Observed.{Signal, Threads, transition}
use active_fsm.StateMachine.Object.{Object}
use active_fsm.Examples.Table.{Row, moving, answered}
use active_fsm.Examples.Player.{
  EventData, Player, PlayerCall, open_close_call, play_call, stop_call, pause_call, end_pause_call,
  PlayerMachine, player_context, st_empty, st_open, st_stopped, st_paused, st_playing, open_close,
  play, stop, pause, end_pause,
}

pub data Phase : Type 0 where
  is_empty is_open is_stopped is_paused is_playing : Phase

abbrev pub state_of : Phase → ℕ
state_of is_empty = st_empty
state_of is_open = st_open
state_of is_stopped = st_stopped
state_of is_paused = st_paused
state_of is_playing = st_playing

abbrev going : Player → Phase → Phase → Option (Row Phase Player)
going o from to = some (record {
  phase = to;
  left = state_of to;
  own = o;
  signals = moving (state_of from) (state_of to) [];
})

-- The tray is closed: the player finds a disc every second time.
abbrev closed : Player → Row Phase Player
closed o =
    if o.cd_detected_toggle
    then record {
      phase = is_empty;
      left = st_empty;
      own = record { cd_detected_toggle = false };
      signals = moving st_open st_empty [];
    }
    else record {
      phase = is_stopped;
      left = st_stopped;
      own = record { cd_detected_toggle = true };
      signals = moving st_open st_empty (moving st_empty st_stopped []);
    }

-- The table of the player; `none` is an event that is ignored.
abbrev pub answer : Phase → PlayerCall → Player → Option (Row Phase Player)
answer is_open open_close_call o = some (closed o)
answer is_empty open_close_call o = going o is_empty is_open
answer is_stopped open_close_call o = going o is_stopped is_open
answer is_paused open_close_call o = going o is_paused is_open
answer is_playing open_close_call o = going o is_playing is_open
answer is_stopped play_call o = going o is_stopped is_playing
answer is_stopped stop_call o = some (record {
  phase = is_stopped;
  left = st_stopped;
  own = o;
  signals = transition st_stopped st_stopped ∷ [];
})
answer is_paused stop_call o = going o is_paused is_stopped
answer is_playing stop_call o = going o is_playing is_stopped
answer is_playing pause_call o = going o is_playing is_paused
answer is_paused end_pause_call o = going o is_paused is_playing
answer _ _ _ = none

module _ {W : Type 0} (observe : Signal → W → W) (threads : Threads EventData (Object Player W))
    (hand_over : PlayerCall → ℕ → M (PlayerMachine W) (Unit {0})) where
  abbrev pub OnThread : Option ℕ → Type 0
  OnThread thread =
      is_on_state_machine_thread (player_context observe threads hand_over) thread ≡ true

  abbrev pub request : PlayerCall → M (PlayerMachine W) (Unit {0})
  request open_close_call = open_close observe threads hand_over
  request play_call = play observe threads hand_over
  request stop_call = stop observe threads hand_over
  request pause_call = pause observe threads hand_over
  request end_pause_call = end_pause observe threads hand_over

  -- On the thread of the machine, each event in each state does what the table has.
  pub player-answer :
      (n : ℕ) (thread : Option ℕ) (phase : Phase) (r : PlayerCall) (o : Player) (w : W)
      → OnThread thread
      → request r (answered observe state_of n thread phase o w none)
        ≡ done tt (answered observe state_of n thread phase o w (answer phase r o))
  unfolding open_close play stop pause end_pause
  player-answer n thread is_open open_close_call o w on = elim (Bool-cases o.cd_detected_toggle) [
    | inl e ↦ rw (on, on, e)
    | inr e ↦ rw (on, on, e)
  ]
  player-answer n thread is_empty open_close_call o w on = rw (on, on)
  player-answer n thread is_stopped open_close_call o w on = rw (on, on)
  player-answer n thread is_paused open_close_call o w on = rw (on, on)
  player-answer n thread is_playing open_close_call o w on = rw (on, on)
  player-answer n thread is_stopped play_call o w on = rw (on, on)
  player-answer n thread is_stopped stop_call o w on = rw (on, on)
  player-answer n thread is_paused stop_call o w on = rw (on, on)
  player-answer n thread is_playing stop_call o w on = rw (on, on)
  player-answer n thread is_playing pause_call o w on = rw (on, on)
  player-answer n thread is_paused end_pause_call o w on = rw (on, on)
  player-answer n thread _ _ o w on = rw on
