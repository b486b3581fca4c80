-- ===== src/Examples/TcpConnection/Handshake.antt =====
-- examples/TcpConnection.cpp: the packets that a connection must have got before it counts as
-- established.
use active_fsm.Base.{
  ℕ, Bool, true, false, ◌||◌, ◌==◌, Option, none, some, List, [], ◌∷◌, ◌≡◌, refl, ap, sym, subst,
  Option-cases, inl, inr, ◌∙◌,
}
use active_fsm.Outcome.{M, Outcome, done}
use active_fsm.StateMachine.Observed.{Signal, Threads}
use active_fsm.StateMachine.Object.{Object}
use active_fsm.Examples.TcpConnection.{
  EventData, TcpCall, TcpMachine, st_established, st_close_wait, st_last_ack,
}
use active_fsm.Examples.TcpConnection.Laws.{
  Phase, is_closed, is_listen, is_syn_sent, is_syn_rcvd, is_established, is_fin_wait_1,
  is_fin_wait_2, is_close_wait, is_closing, is_last_ack, Request, to_open, to_listen, to_send,
  to_close, to_packet, answer, state_of,
}
use active_fsm.Examples.TcpConnection.Promise.{after, chain, history, run_connection, tcp-requests}

-- Has a packet with `ack` come?
abbrev pub acknowledged : List Request → Bool
acknowledged [] = false
acknowledged (to_packet syn ack fin rst ∷ rs) = ack || acknowledged rs
acknowledged (_ ∷ rs) = acknowledged rs

-- Has a packet with `syn` come, and, with it or later, one with `ack`?
abbrev pub shaken : List Request → Bool
shaken [] = false
shaken (to_packet true ack fin rst ∷ rs) = ack || acknowledged rs
shaken (_ ∷ rs) = shaken rs

-- The states of a connection that has been established and that it has not closed itself
abbrev pub is_connected : ℕ → Bool
is_connected s = (s == st_established) || (s == st_close_wait) || (s == st_last_ack)

-- What must still come before a connection in that phase is established
abbrev needed : Phase → List Request → Bool
needed is_syn_rcvd rs = acknowledged rs
needed is_established rs = true
needed is_close_wait rs = true
needed is_last_ack rs = true
needed _ rs = shaken rs

shaken-acknowledged : (rs : List Request) → shaken rs ≡ true → acknowledged rs ≡ true
shaken-acknowledged [] h = h
shaken-acknowledged (to_open ∷ rs) h = shaken-acknowledged rs h
shaken-acknowledged (to_listen ∷ rs) h = shaken-acknowledged rs h
shaken-acknowledged (to_send ∷ rs) h = shaken-acknowledged rs h
shaken-acknowledged (to_close ∷ rs) h = shaken-acknowledged rs h
shaken-acknowledged (to_packet true ack fin rst ∷ rs) h = h
shaken-acknowledged (to_packet false true fin rst ∷ rs) h = refl
shaken-acknowledged (to_packet false false fin rst ∷ rs) h = shaken-acknowledged rs h

or_later : (b : Bool) {c : Bool} → c ≡ true → (b || c) ≡ true
or_later true h = refl
or_later false h = h

acknowledged-later :
    (r : Request) (rs : List Request) → acknowledged rs ≡ true → acknowledged (r ∷ rs) ≡ true
acknowledged-later (to_packet syn ack fin rst) rs h = or_later ack h
acknowledged-later to_open rs h = h
acknowledged-later _ rs h = h

shaken-later : (r : Request) (rs : List Request) → shaken rs ≡ true → shaken (r ∷ rs) ≡ true
shaken-later (to_packet true ack fin rst) rs h = or_later ack (shaken-acknowledged rs h)
shaken-later (to_packet false ack fin rst) rs h = h
shaken-later _ rs h = h

abbrev needed_then : Option Phase → List Request → Bool
needed_then none rs = false
needed_then (some p) rs = needed p rs

done_state :
    {S : Type 0} {m m' : S} → ◌≡◌ {A = Outcome S (Unit {0})} (done tt m) (done tt m') → m ≡ m'
done_state e = cc

no_end : ¬ (false ≡ true)
no_end h = cc

-- What must still come after an event, and that event, are what had to come before it.
needed_step :
    (p : Phase) (r : Request) (rs : List Request)
    → needed_then (after p (answer p r)) rs ≡ true
    → needed p (r ∷ rs) ≡ true
needed_step is_established r rs h = refl
needed_step is_close_wait r rs h = refl
needed_step is_last_ack r rs h = refl
needed_step is_listen (to_packet true ack fin rst) rs h = or_later ack h
needed_step is_syn_sent (to_packet true true fin rst) rs h = refl
needed_step is_syn_sent (to_packet true false fin rst) rs h = h
needed_step is_syn_rcvd (to_packet syn true fin rst) rs h = refl
needed_step is_syn_rcvd to_close rs h = shaken-acknowledged rs h
needed_step is_syn_rcvd r rs h = acknowledged-later r rs h
needed_step is_fin_wait_1 (to_packet syn true true rst) rs h =
    shaken-later (to_packet syn true true rst) rs h
needed_step is_fin_wait_1 (to_packet syn false true rst) rs h =
    shaken-later (to_packet syn false true rst) rs h
needed_step is_fin_wait_1 (to_packet syn true false rst) rs h =
    shaken-later (to_packet syn true false rst) rs h
needed_step is_fin_wait_2 (to_packet syn ack true rst) rs h =
    shaken-later (to_packet syn ack true rst) rs h
needed_step is_closing (to_packet syn true fin rst) rs h =
    shaken-later (to_packet syn true fin rst) rs h
needed_step is_closed to_send rs h = absurd (no_end h)
needed_step is_fin_wait_1 to_send rs h = absurd (no_end h)
needed_step is_fin_wait_2 to_send rs h = absurd (no_end h)
needed_step is_closing to_send rs h = absurd (no_end h)
needed_step _ r rs h = shaken-later r rs h

connected_needed :
    (p : Phase) (rs : List Request) → is_connected (state_of p) ≡ true → needed p rs ≡ true
connected_needed is_established rs h = refl
connected_needed is_close_wait rs h = refl
connected_needed is_last_ack rs h = refl
connected_needed _ rs h = absurd (no_end h)

chain-needed :
    (o : Option Phase) (rs : List Request) {q : Phase}
    → ((k : Phase) → history k rs ≡ some q → needed k rs ≡ true)
    → chain o (λ k. history k rs) ≡ some q
    → needed_then o rs ≡ true
chain-needed none rs next e = absurd (cc)
chain-needed (some k) rs next e = next k e

history-needed :
    (p : Phase) (rs : List Request) {q : Phase}
    → history p rs ≡ some q
    → is_connected (state_of q) ≡ true
    → needed p rs ≡ true
unfolding history
history-needed p [] {q} e h =
    connected_needed p [] (subst (λ k. is_connected (state_of k) ≡ true) {x = q} {y = p} (cc) h)
history-needed p (r ∷ rs) e h =
    needed_step p r rs (chain-needed (after p (answer p r)) rs (λ k f. history-needed k rs f h) e)

module _ {W : Type 0} (observe : Signal → W → W) (threads : Threads EventData (Object (Unit {0}) W))
    (hand_over : TcpCall → ℕ → M (TcpMachine W) (Unit {0})) (thread : ℕ)
    (on : threads.is_current_thread thread ≡ true) where
  -- On the machine's own thread, if any calls and packets on a new connection, none of them a null
  -- pointer, are done and leave it in `ST_ESTABLISHED`, `ST_CLOSE_WAIT` or `ST_LAST_ACK`, then a packet
  -- with `syn` has come, and, with it or later, one with `ack`.
  pub tcp-shaken :
      (seen : W) (rs : List Request) (m : TcpMachine W)
      → run_connection observe threads hand_over thread on seen rs ≡ done tt m
      → is_connected m.current_state ≡ true
      → shaken rs ≡ true
  tcp-shaken seen rs m d h = elim (Option-cases (history is_closed rs)) [
    | inl e ↦
        let (m', f) = rw e at (tcp-requests observe threads hand_over thread on seen rs) in
        absurd (cc)
    | inr (q, e) ↦
        let (m', f, (n, w, r)) =
          rw e at (tcp-requests observe threads hand_over thread on seen rs) in
        history-needed is_closed rs e (
          subst (λ k. is_connected k ≡ true)
            (ap (λ (k : TcpMachine W). k.current_state) (done_state (sym d ∙ f) ∙ r)) h)
  ]
