-- ===== src/Examples/TcpConnection/Laws.antt =====
-- What each event of examples/TcpConnection.cpp comes to in each state: the state and the signals,
-- in order, or the assertion.
use active_fsm.Base.{ℕ, Bool, true, false, Option, some, [], ◌≡◌}
use active_fsm.Outcome.{M, Outcome, done, faulted, cannot_happen_event}
use active_fsm.StateMachine.Events.{is_on_state_machine_thread}
use active_fsm.StateMachine.Observed.{Signal, Threads, could_not_happen}
use active_fsm.StateMachine.Object.{Object, resting}
use active_fsm.Examples.Table.{Row, moving, answered}
use active_fsm.Examples.TcpConnection.{
  EventData, TcpCall, TcpMachine, tcp_context, st_closed, st_listen, st_syn_sent, st_syn_rcvd,
  st_established, st_fin_wait_1, st_fin_wait_2, st_close_wait, st_closing, st_last_ack,
  st_time_wait, active_open, passive_open, send, close, handle_packet,
}

-- The states that a connection rests in; it passes through `ST_TIME_WAIT`.
pub data Phase : Type 0 where
  is_closed is_listen is_syn_sent is_syn_rcvd is_established : Phase
  is_fin_wait_1 is_fin_wait_2 is_close_wait is_closing is_last_ack : Phase

abbrev pub state_of : Phase → ℕ
state_of is_closed = st_closed
state_of is_listen = st_listen
state_of is_syn_sent = st_syn_sent
state_of is_syn_rcvd = st_syn_rcvd
state_of is_established = st_established
state_of is_fin_wait_1 = st_fin_wait_1
state_of is_fin_wait_2 = st_fin_wait_2
state_of is_close_wait = st_close_wait
state_of is_closing = st_closing
state_of is_last_ack = st_last_ack

pub data Request : Type 0 where
  to_open to_listen to_send to_close : Request
  to_packet : (syn ack fin rst : Bool) → Request

-- `forbidden`: the event cannot happen.
pub data Verdict : Type 0 where
  ignored forbidden : Verdict
  moved : Row Phase (Unit {0}) → Verdict

abbrev going : Phase → Phase → Verdict
going from to = moved (record {
  phase = to;
  left = state_of to;
  own = tt;
  signals = moving (state_of from) (state_of to) [];
})

abbrev finished : Phase → Verdict
finished from = moved (record {
  phase = is_closed;
  left = st_closed;
  own = tt;
  signals = moving (state_of from) st_time_wait (moving st_time_wait st_closed []);
})

-- The table of the connection
abbrev pub answer : Phase → Request → Verdict
answer is_closed to_open = going is_closed is_syn_sent
answer is_closed to_listen = going is_closed is_listen
answer is_closed to_send = forbidden
answer is_listen to_send = going is_listen is_syn_sent
answer is_fin_wait_1 to_send = forbidden
answer is_fin_wait_2 to_send = forbidden
answer is_close_wait to_send = forbidden
answer is_closing to_send = forbidden
answer is_last_ack to_send = forbidden
answer is_listen to_close = going is_listen is_closed
answer is_syn_sent to_close = going is_syn_sent is_closed
answer is_syn_rcvd to_close = going is_syn_rcvd is_fin_wait_1
answer is_established to_close = going is_established is_fin_wait_1
answer is_close_wait to_close = going is_close_wait is_last_ack
answer is_listen (to_packet true ack fin rst) = going is_listen is_syn_rcvd
answer is_syn_sent (to_packet true true fin rst) = going is_syn_sent is_established
answer is_syn_sent (to_packet true false fin rst) = going is_syn_sent is_syn_rcvd
answer is_syn_rcvd (to_packet syn true fin rst) = going is_syn_rcvd is_established
answer is_established (to_packet syn ack true rst) = going is_established is_close_wait
answer is_fin_wait_1 (to_packet syn true true rst) = finished is_fin_wait_1
answer is_fin_wait_1 (to_packet syn false true rst) = going is_fin_wait_1 is_closing
answer is_fin_wait_1 (to_packet syn true false rst) = going is_fin_wait_1 is_fin_wait_2
answer is_fin_wait_2 (to_packet syn ack true rst) = finished is_fin_wait_2
answer is_closing (to_packet syn true fin rst) = finished is_closing
answer is_last_ack (to_packet syn true fin rst) = going is_last_ack is_closed
answer _ _ = ignored

module _ {W : Type 0} (observe : Signal → W → W) where
  -- What an event comes to, by its verdict
  abbrev pub came_to : ℕ → Option ℕ → Phase → W → Verdict → Outcome (TcpMachine W) (Unit {0})
  came_to n thread p w ignored = done tt (resting n thread (state_of p) tt w)
  came_to n thread p w forbidden =
      faulted cannot_happen_event
        (resting n thread (state_of p) tt (observe (could_not_happen (state_of p)) w))
  came_to n thread p w (moved row) = done tt (answered observe state_of n thread p tt w (some row))

  module _ (threads : Threads EventData (Object (Unit {0}) W))
      (hand_over : TcpCall → ℕ → M (TcpMachine W) (Unit {0})) where
    abbrev pub OnThread : Option ℕ → Type 0
    OnThread thread =
        is_on_state_machine_thread (tcp_context observe threads hand_over) thread ≡ true

    abbrev pub request : Request → M (TcpMachine W) (Unit {0})
    request to_open = active_open observe threads hand_over
    request to_listen = passive_open observe threads hand_over
    request to_send = send observe threads hand_over
    request to_close = close observe threads hand_over
    request (to_packet syn ack fin rst) =
        handle_packet observe threads hand_over
          (some (record { syn = syn; ack = ack; fin = fin; rst = rst }))

    -- On the thread of the machine, each event in each state does what the table has.
    pub tcp-answer :
        (n : ℕ) (thread : Option ℕ) (phase : Phase) (r : Request) (w : W)
        → OnThread thread
        → request r (resting n thread (state_of phase) tt w)
          ≡ came_to n thread phase w (answer phase r)
    unfolding active_open passive_open send close handle_packet
    tcp-answer n thread is_closed to_open w on = rw (on, on)
    tcp-answer n thread is_closed to_listen w on = rw (on, on)
    tcp-answer n thread is_listen to_send w on = rw (on, on)
    tcp-answer n thread is_listen to_close w on = rw (on, on)
    tcp-answer n thread is_syn_sent to_close w on = rw (on, on)
    tcp-answer n thread is_syn_rcvd to_close w on = rw (on, on)
    tcp-answer n thread is_established to_close w on = rw (on, on)
    tcp-answer n thread is_close_wait to_close w on = rw (on, on)
    tcp-answer n thread is_listen (to_packet true ack fin rst) w on = rw (on, on)
    tcp-answer n thread is_syn_sent (to_packet true true fin rst) w on = rw (on, on)
    tcp-answer n thread is_syn_sent (to_packet true false fin rst) w on = rw (on, on)
    tcp-answer n thread is_syn_rcvd (to_packet syn true fin rst) w on = rw (on, on)
    tcp-answer n thread is_established (to_packet syn ack true rst) w on = rw (on, on)
    tcp-answer n thread is_fin_wait_1 (to_packet syn true true rst) w on = rw (on, on)
    tcp-answer n thread is_fin_wait_1 (to_packet syn false true rst) w on = rw (on, on)
    tcp-answer n thread is_fin_wait_1 (to_packet syn true false rst) w on = rw (on, on)
    tcp-answer n thread is_fin_wait_2 (to_packet syn ack true rst) w on = rw (on, on)
    tcp-answer n thread is_closing (to_packet syn true fin rst) w on = rw (on, on)
    tcp-answer n thread is_last_ack (to_packet syn true fin rst) w on = rw (on, on)
    tcp-answer n thread _ _ w on = rw on
