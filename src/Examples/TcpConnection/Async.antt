-- ===== src/Examples/TcpConnection/Async.antt =====
-- examples/TcpConnection.cpp as an active object: other threads open, use and close the connection and
-- hand it packets, and its thread makes the calls that it was handed.
pub mod Packets
pub mod Handshake
use active_fsm.Base.{
  ℕ, Bool, true, false, ◌||◌, Bool-cases, inl, inr, Option, none, some, List, [], ◌∷◌, ◌++◌, ◌≡◌,
  refl, sym, ap, ◌∙◌, subst, if◌then◌else◌, ◌⊎◌,
}
use active_fsm.Outcome.{Outcome, done, faulted, undefined}
use active_fsm.StateMachine.Events.{is_on_state_machine_thread}
use active_fsm.StateMachine.Observed.{Signal}
use active_fsm.StateMachine.Object.{resting}
use active_fsm.StateMachine.ActiveObject.{
  Queued, QueuedMachine, Events, on_queue, with_pending, with_thread, pending_of, enqueue, handling,
  send, handle,
}
use active_fsm.StateMachine.ActiveObject.Reach.{
  Reachable, new, sent, handled, calls_of, send-seen, same-pending,
}
use active_fsm.Examples.Table.{IsResting, observe_all}
use active_fsm.Examples.Table.Queue.{observe_all-pending}
use active_fsm.Examples.TcpConnection
use active_fsm.Examples.TcpConnection.{
  EventData, TcpCall, active_open_call, passive_open_call, send_call, close_call,
  handle_packet_call, active_open, passive_open, close, handle_packet, tcp_connection,
  reads_no_packet,
}
use active_fsm.Examples.TcpConnection.Laws.{
  Phase, is_closed, is_listen, is_syn_sent, is_syn_rcvd, is_established, is_fin_wait_1,
  is_fin_wait_2, is_close_wait, is_closing, is_last_ack, Request, to_open, to_listen, to_send,
  to_close, to_packet, Verdict, ignored, forbidden, moved, answer, came_to, request, tcp-answer,
  state_of,
}
use active_fsm.Examples.TcpConnection.Promise.{after, IsSilent, allowed}

abbrev pub QueuedTcp : Type 0 → Type 0
QueuedTcp W = QueuedMachine EventData (Unit {0}) TcpCall W

abbrev pub call_of : Request → TcpCall
call_of to_open = active_open_call
call_of to_listen = passive_open_call
call_of to_send = send_call
call_of to_close = close_call
call_of (to_packet syn ack fin rst) =
    handle_packet_call (some (record { syn = syn; ack = ack; fin = fin; rst = rst }))

-- A call is one of the table, or has a null pointer.
pub call_cases : (c : TcpCall) → ((r : Request) × (c ≡ call_of r)) ⊎ (c ≡ handle_packet_call none)
call_cases active_open_call = inl (to_open, refl)
call_cases passive_open_call = inl (to_listen, refl)
call_cases send_call = inl (to_send, refl)
call_cases close_call = inl (to_close, refl)
call_cases (handle_packet_call none) = inr refl
call_cases (handle_packet_call (some p)) = inl (to_packet p.syn p.ack p.fin p.rst, refl)

-- A call that is not `Send` and has no null pointer
abbrev pub IsSafe : TcpCall → Type 0
IsSafe send_call = ⊥
IsSafe (handle_packet_call none) = ⊥
IsSafe _ = Unit {0}

module _ {W : Type 0} (observe : Signal → W → W) where
  abbrev pub tcp_events : Events EventData (Unit {0}) TcpCall W
  tcp_events threads hand_over active_open_call = active_open (on_queue observe) threads hand_over
  tcp_events threads hand_over passive_open_call = passive_open (on_queue observe) threads hand_over
  tcp_events threads hand_over send_call = TcpConnection.send (on_queue observe) threads hand_over
  tcp_events threads hand_over close_call = close (on_queue observe) threads hand_over
  tcp_events threads hand_over (handle_packet_call d) =
      handle_packet (on_queue observe) threads hand_over d

  -- A new connection with the thread, and no call handed to it
  abbrev pub IsNew : ℕ → W → QueuedTcp W → Type 0
  IsNew thread seen m =
      tcp_connection (on_queue observe) handling enqueue thread
        (record { seen = seen; pending = [] })
      ≡ done tt m

  module _ (thread : ℕ) where
    abbrev pub rests : ℕ → Phase → Queued TcpCall W → QueuedTcp W
    rests n p w = resting n (some thread) (state_of p) tt w

    pub tcp-sends :
        (c : TcpCall) (k : QueuedTcp W)
        → send tcp_events c (with_thread k thread)
          ≡ done tt (with_pending (with_thread k thread) (pending_of k ++ c ∷ []))
    unfolding active_open passive_open TcpConnection.send close handle_packet
        is_on_state_machine_thread
    tcp-sends active_open_call k = refl
    tcp-sends passive_open_call k = refl
    tcp-sends send_call k = refl
    tcp-sends close_call k = refl
    tcp-sends (handle_packet_call d) k = refl

    null_lem :
        (n : ℕ) (p : Phase) (w : Queued TcpCall W)
        → handle tcp_events (handle_packet_call none) (rests n p w) ≡ (
            if reads_no_packet (state_of p)
            then done tt (rests n p w)
            else faulted undefined (rests n p w))
    unfolding handle_packet is_on_state_machine_thread
    null_lem n is_closed w = refl
    null_lem n is_listen w = refl
    null_lem n is_syn_sent w = refl
    null_lem n is_syn_rcvd w = refl
    null_lem n is_established w = refl
    null_lem n is_fin_wait_1 w = refl
    null_lem n is_fin_wait_2 w = refl
    null_lem n is_close_wait w = refl
    null_lem n is_closing w = refl
    null_lem n is_last_ack w = refl

    pub handle_lem :
        (n : ℕ) (p : Phase) (w : Queued TcpCall W) (r : Request)
        → handle tcp_events (call_of r) (rests n p w)
          ≡ came_to (on_queue observe) n (some thread) p w (answer p r)
    unfolding is_on_state_machine_thread
    handle_lem n p w to_open =
        tcp-answer (on_queue observe) handling enqueue n (some thread) p to_open w refl
    handle_lem n p w to_listen =
        tcp-answer (on_queue observe) handling enqueue n (some thread) p to_listen w refl
    handle_lem n p w to_send =
        tcp-answer (on_queue observe) handling enqueue n (some thread) p to_send w refl
    handle_lem n p w to_close =
        tcp-answer (on_queue observe) handling enqueue n (some thread) p to_close w refl
    handle_lem n p w (to_packet syn ack fin rst) =
        tcp-answer (on_queue observe) handling enqueue n (some thread) p (to_packet syn ack fin rst)
          w refl

    -- A connection after a call, with `calls` pending
    abbrev pub RestsIn : Option Phase → List TcpCall → QueuedTcp W → Type 0
    RestsIn q calls m =
        (n : ℕ) × (p : Phase) × (w : Queued TcpCall W) × (m ≡ rests n p w)
        × (q ≡ some p)
        × (w.pending ≡ calls)

    pub came_to-done :
        (n : ℕ) (p : Phase) (w : Queued TcpCall W) (v : Verdict) (m' : QueuedTcp W)
        → came_to (on_queue observe) n (some thread) p w v ≡ done tt m'
        → RestsIn (after p v) w.pending m'
    came_to-done n p w ignored m' e = (n, p, w, cc, refl, refl)
    came_to-done n p w forbidden m' e = cc
    came_to-done n p w (moved row) m' e = (
      row.left,
      row.phase,
      observe_all (on_queue observe) row.signals w,
      cc,
      refl,
      observe_all-pending observe row.signals w,
    )

    pub null-done :
        (n : ℕ) (p : Phase) (w : Queued TcpCall W) (m' : QueuedTcp W)
        → handle tcp_events (handle_packet_call none) (rests n p w) ≡ done tt m'
        → RestsIn (some p) w.pending m'
    null-done n p w m' e = elim (Bool-cases (reads_no_packet (state_of p))) [
      | inl b ↦ let f = null_lem n p w in let g = rw b at f in (n, p, w, cc, refl, refl)
      | inr b ↦ let f = null_lem n p w in let g = rw b at f in cc
    ]
