-- ===== src/Examples/TcpConnection/Promise.antt =====
-- examples/TcpConnection.cpp over any history of events: which of them end in an assertion.
use active_fsm.Base.{ℕ, true, false, Option, none, some, List, [], ◌∷◌, ◌≡◌, refl}
use active_fsm.Outcome.{M, Outcome, done, faulted, cannot_happen_event, and_then, for_each}
use active_fsm.StateMachine.Events.{is_on_state_machine_thread}
use active_fsm.StateMachine.Observed.{Signal, Threads}
use active_fsm.StateMachine.Object.{Object, resting}
use active_fsm.Examples.Table.{IsResting, observe_all}
use active_fsm.Examples.TcpConnection.{EventData, TcpCall, TcpMachine, tcp_connection}
use active_fsm.Examples.TcpConnection.Laws.{
  Phase, is_closed, is_listen, is_syn_sent, is_syn_rcvd, is_established, is_fin_wait_1,
  is_fin_wait_2, is_close_wait, is_closing, is_last_ack, Request, to_open, to_listen, to_send,
  to_close, to_packet, Verdict, ignored, forbidden, moved, answer, came_to, OnThread, request,
  tcp-answer, state_of,
}

-- Where a verdict leads; `none` is an assertion.
abbrev pub after : Phase → Verdict → Option Phase
after p ignored = some p
after p forbidden = none
after p (moved row) = some row.phase

abbrev pub chain : Option Phase → (Phase → Option Phase) → Option Phase
chain none f = none
chain (some p) f = f p

unfoldable pub history : Phase → List Request → Option Phase
history p [] = some p
history p (r ∷ rs) = chain (after p (answer p r)) (λ q. history q rs)

-- No event of the list is `Send`.
abbrev pub IsSilent : List Request → Type 0
IsSilent [] = Unit {0}
IsSilent (to_send ∷ rs) = ⊥
IsSilent (_ ∷ rs) = IsSilent rs

-- The table forbids only `Send`.
pub allowed :
    (p : Phase) (r : Request) → IsSilent (r ∷ []) → (q : Phase) × (after p (answer p r) ≡ some q)
allowed is_closed to_open h = (_, refl)
allowed is_closed to_listen h = (_, refl)
allowed is_listen to_close h = (_, refl)
allowed is_syn_sent to_close h = (_, refl)
allowed is_syn_rcvd to_close h = (_, refl)
allowed is_established to_close h = (_, refl)
allowed is_close_wait to_close h = (_, refl)
allowed is_listen (to_packet true ack fin rst) h = (_, refl)
allowed is_syn_sent (to_packet true true fin rst) h = (_, refl)
allowed is_syn_sent (to_packet true false fin rst) h = (_, refl)
allowed is_syn_rcvd (to_packet syn true fin rst) h = (_, refl)
allowed is_established (to_packet syn ack true rst) h = (_, refl)
allowed is_fin_wait_1 (to_packet syn true true rst) h = (_, refl)
allowed is_fin_wait_1 (to_packet syn false true rst) h = (_, refl)
allowed is_fin_wait_1 (to_packet syn true false rst) h = (_, refl)
allowed is_fin_wait_2 (to_packet syn ack true rst) h = (_, refl)
allowed is_closing (to_packet syn true fin rst) h = (_, refl)
allowed is_last_ack (to_packet syn true fin rst) h = (_, refl)
allowed _ to_send h = absurd h
allowed _ _ h = (_, refl)

IsSilent-first :
    (r : Request) (rs : List Request) → IsSilent (r ∷ rs) → IsSilent (r ∷ []) × IsSilent rs
IsSilent-first to_open rs h = (tt, h)
IsSilent-first to_listen rs h = (tt, h)
IsSilent-first to_send rs h = absurd h
IsSilent-first to_close rs h = (tt, h)
IsSilent-first (to_packet syn ack fin rst) rs h = (tt, h)

silent_history :
    (p : Phase) (rs : List Request) → IsSilent rs → (q : Phase) × (history p rs ≡ some q)
unfolding history
silent_history p [] h = (p, refl)
silent_history p (r ∷ rs) h =
    let (one, others) = IsSilent-first r rs h in
    let (q, e) = allowed p r one in rw e (silent_history q rs others)

module _ {W : Type 0} (observe : Signal → W → W) where
  -- The outcome that goes with the end of a history
  abbrev pub IsEnd : Option ℕ → Option Phase → Outcome (TcpMachine W) (Unit {0}) → Type 0
  IsEnd thread none o = (m : TcpMachine W) × (o ≡ faulted cannot_happen_event m)
  IsEnd thread (some p) o =
      (m : TcpMachine W) × (o ≡ done tt m) × IsResting observe state_of thread p tt m

  module _ (threads : Threads EventData (Object (Unit {0}) W))
      (hand_over : TcpCall → ℕ → M (TcpMachine W) (Unit {0})) where
    abbrev rest : List Request → M (TcpMachine W) (Unit {0})
    rest rs = for_each (request observe threads hand_over) rs

    verdict-IsEnd :
        (n : ℕ) (thread : Option ℕ) (p : Phase) (w : W) (v : Verdict) (rs : List Request)
        → ((n : ℕ) (q : Phase) (w : W)
            → IsEnd thread (history q rs) (rest rs (resting n thread (state_of q) tt w)))
        → IsEnd thread
            (chain (after p v) (λ q. history q rs))
            (and_then (came_to observe n thread p w v) (λ _. rest rs))
    verdict-IsEnd n thread p w ignored rs next = next n p w
    verdict-IsEnd n thread p w forbidden rs next = (_, refl)
    verdict-IsEnd n thread p w (moved row) rs next =
        next row.left row.phase (observe_all observe row.signals w)

    requests-IsEnd :
        (n : ℕ) (thread : Option ℕ) (p : Phase) (w : W) (rs : List Request)
        → OnThread observe threads hand_over thread
        → IsEnd thread (history p rs) (rest rs (resting n thread (state_of p) tt w))
    unfolding for_each history
    requests-IsEnd n thread p w [] on = (_, refl, (n, w, refl))
    requests-IsEnd n thread p w (r ∷ rs) on =
        rw (tcp-answer observe threads hand_over n thread p r w on) (
          verdict-IsEnd n thread p w (answer p r) rs
            (λ n' q w'. requests-IsEnd n' thread q w' rs on))

    module _ (thread : ℕ) (on : threads.is_current_thread thread ≡ true) where
      -- The calls `rs` on a new connection, whose thread is the one that runs
      abbrev pub run_connection : W → List Request → Outcome (TcpMachine W) (Unit {0})
      run_connection seen rs =
          and_then (tcp_connection observe threads hand_over thread seen)
            (λ _. for_each (request observe threads hand_over) rs)

      -- On the machine's own thread the calls and packets `rs` on a new connection, none of them a
      -- null pointer, come to the phase that the table has, or to the assertion of `CANNOT_HAPPEN`
      -- if the table forbids one of them in its phase.
      pub tcp-requests :
          (seen : W) (rs : List Request)
          → IsEnd (some thread) (history is_closed rs) (run_connection seen rs)
      unfolding tcp_connection is_on_state_machine_thread
      tcp-requests seen rs = requests-IsEnd 0 (some thread) is_closed seen rs on

      -- On the machine's own thread any calls but `Send`, and any packets, on a new connection, none of
      -- them a null pointer, are done without an assertion.
      pub tcp-silent :
          (seen : W) (rs : List Request)
          → IsSilent rs
          → (m : TcpMachine W) × (run_connection seen rs ≡ done tt m)
      tcp-silent seen rs h =
          let (q, e) = silent_history is_closed rs h in
          let (m, d, _) = rw e at (tcp-requests seen rs) in (m, d)
