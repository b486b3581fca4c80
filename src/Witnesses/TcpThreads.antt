-- ===== src/Witnesses/TcpThreads.antt =====
-- An instance for the threads of a connection: it is opened for a packet with syn, and the packet comes.
use active_fsm.Base.{ℕ, suc, true, false, some, List, [], ◌∷◌, ◌++◌, ◌≡◌, refl}
use active_fsm.Outcome.{done}
use active_fsm.StateMachine.Events.{is_on_state_machine_thread}
use active_fsm.StateMachine.Observed.{Signal, transition}
use active_fsm.StateMachine.Object.{resting}
use active_fsm.StateMachine.ActiveObject.{on_queue, with_pending, pending_of, handle}
use active_fsm.StateMachine.ActiveObject.Reach.{Reachable, new, sent, handled}
use active_fsm.Examples.Table.{IsResting}
use active_fsm.Examples.TcpConnection.{
  TcpCall, passive_open_call, handle_packet_call, passive_open, handle_packet, tcp_connection,
  st_closed, st_listen, st_syn_rcvd,
}
use active_fsm.Examples.TcpConnection.Laws.{Phase, state_of}
use active_fsm.Examples.TcpConnection.Async.{QueuedTcp, tcp_events, IsNew, IsSafe}
use active_fsm.Examples.TcpConnection.Async.Packets.{has_syn, has_ack, Shaken}
use active_fsm.Examples.TcpConnection.Async.Handshake.{told, Reachable-Shaken}

abbrev count : Signal → ℕ → ℕ
count (transition f t) n = suc n
count _ n = n

abbrev first_packet : TcpCall
first_packet =
    handle_packet_call (some (record { syn = true; ack = false; fin = false; rst = false }))

abbrev in_state : ℕ → ℕ → ℕ → List TcpCall → QueuedTcp ℕ
in_state left s seen calls = resting left (some 7) s tt (record { seen = seen; pending = calls })

in_state-IsNew : IsNew count 7 0 (in_state 0 st_closed 0 [])
unfolding tcp_connection
in_state-IsNew = refl

called-Reachable :
    Reachable (tcp_events count) (in_state 0 st_closed 0 []) (in_state st_syn_rcvd st_syn_rcvd 2 [])
unfolding passive_open handle_packet is_on_state_machine_thread
called-Reachable =
    handled {m = in_state st_listen st_listen 1 (first_packet ∷ [])} [] [] first_packet
      (handled {m = in_state 0 st_closed 0 (passive_open_call ∷ first_packet ∷ [])} []
        (first_packet ∷ []) passive_open_call
        (sent {m = in_state 0 st_closed 0 (passive_open_call ∷ [])}
          (in_state 0 st_closed 0 (passive_open_call ∷ [])) first_packet
          (passive_open_call ∷ first_packet ∷ [])
          (sent {m = in_state 0 st_closed 0 []} (in_state 0 st_closed 0 []) passive_open_call
            (passive_open_call ∷ []) new (record { same_thread = refl; same_pending = refl }) refl
            refl)
          (record { same_thread = refl; same_pending = refl }) refl refl)
        refl refl)
      refl refl

Reachable-Shaken_example :
    (phase : Phase) × IsResting
      (on_queue count)
      state_of
      (some 7)
      phase
      tt
      (in_state st_syn_rcvd st_syn_rcvd 2 [])
    × Shaken phase
        (told count 7 0 in_state-IsNew has_syn called-Reachable)
        (told count 7 0 in_state-IsNew has_ack called-Reachable)
    × ((before after : List TcpCall) (c : TcpCall)
        → pending_of (in_state st_syn_rcvd st_syn_rcvd 2 []) ≡ before ++ c ∷ after
        → IsSafe c
        → (m' : QueuedTcp ℕ) × (handle
              (tcp_events count)
              c
              (with_pending (in_state st_syn_rcvd st_syn_rcvd 2 []) (before ++ after))
            ≡ done tt m'))
Reachable-Shaken_example = Reachable-Shaken count 7 0 in_state-IsNew called-Reachable
