-- ===== src/Examples/TcpConnection/Async/Handshake.antt =====
-- What threads can bring a connection to (examples/TcpConnection.cpp), by the packets that they handed
-- to it, in whatever order its thread takes them.
use active_fsm.Base.{
  ℕ, Bool, true, inl, inr, none, some, List, [], ◌∷◌, ◌++◌, ◌≡◌, refl, sym, ap, ◌∙◌, subst,
}
use active_fsm.Outcome.{done}
use active_fsm.StateMachine.Observed.{Signal}
use active_fsm.StateMachine.ActiveObject.{Queued, on_queue, with_pending, pending_of, send, handle}
use active_fsm.StateMachine.ActiveObject.Reach.{
  Reachable, new, sent, handled, calls_of, send-seen, same-pending,
}
use active_fsm.Examples.Table.{IsResting}
use active_fsm.Examples.TcpConnection.{
  TcpCall, active_open_call, passive_open_call, send_call, close_call, handle_packet_call,
  tcp_connection,
}
use active_fsm.Examples.TcpConnection.Laws.{
  Phase, is_closed, Request, to_open, to_listen, to_close, to_packet, Verdict, ignored, forbidden,
  moved, answer, came_to, state_of,
}
use active_fsm.Examples.TcpConnection.Promise.{after, allowed, IsSilent}
use active_fsm.Examples.TcpConnection.Async.{
  QueuedTcp, tcp_events, IsNew, IsSafe, call_of, call_cases, rests, tcp-sends, handle_lem,
  came_to-done, null-done,
}
use active_fsm.Examples.TcpConnection.Async.Packets.{
  has_syn, has_ack, any, Shaken, ||-right, Shaken-more, answer-ShakenAfter, after-Shaken, IsTold,
  sent-IsTold, handled-IsTold,
}

module _ {W : Type 0} (observe : Signal → W → W) (thread : ℕ) (seen : W) {start : QueuedTcp W}
    (is_new : IsNew observe thread seen start) where
  -- Was a packet with the flag `f` sent?
  abbrev pub told :
      {m : QueuedTcp W} → (TcpCall → Bool) → Reachable (tcp_events observe) start m → Bool
  told f h = any f (calls_of (send (tcp_events observe)) (handle (tcp_events observe)) h)

  record Holds {m : QueuedTcp W} (h : Reachable (tcp_events observe) start m) : Type 0 where
    left : ℕ
    phase : Phase
    queued : Queued TcpCall W
    at_rest : m ≡ rests observe thread left phase queued
    shaken : Shaken phase (told has_syn h) (told has_ack h)
    syn_told : IsTold has_syn queued.pending (told has_syn h)
    ack_told : IsTold has_ack queued.pending (told has_ack h)

  call-done :
      (n : ℕ) (p : Phase) (w : Queued TcpCall W) (c : TcpCall) (m' : QueuedTcp W) (s a : Bool)
      → (has_syn c ≡ true → s ≡ true)
      → (has_ack c ≡ true → a ≡ true)
      → Shaken p s a
      → handle (tcp_events observe) c (rests observe thread n p w) ≡ done tt m'
      → (n' : ℕ) × (q : Phase) × (w' : Queued TcpCall W) × (m' ≡ rests observe thread n' q w')
        × Shaken q s a
        × (w'.pending ≡ w.pending)
  call-done n p w c m' s a f g h e = elim (call_cases c) [
    | inl (r, k) ↦
        let (n', q, w', e', b, same) = came_to-done observe thread n p w (answer p r) m' (
          sym (handle_lem observe thread n p w r)
          ∙ ap (λ x. handle (tcp_events observe) x (rests observe thread n p w)) (sym k)
          ∙ e) in
        (
          n',
          q,
          w',
          e',
          after-Shaken p q (answer p r) s a b (
              answer-ShakenAfter p r s a (subst (λ x. has_syn x ≡ true → s ≡ true) k f)
                (subst (λ x. has_ack x ≡ true → a ≡ true) k g) h),
          same,
        )
    | inr k ↦
        let (n', q, w', e', b, same) =
          null-done observe thread n p w m'
            (ap (λ x. handle (tcp_events observe) x (rests observe thread n p w)) (sym k) ∙ e) in
        let same_phase : p ≡ q = cc in (n', q, w', e', subst (λ x. Shaken x s a) same_phase h, same)
  ]

  reached-Holds : {m : QueuedTcp W} (h : Reachable (tcp_events observe) start m) → Holds h
  unfolding calls_of tcp_connection
  reached-Holds new = record {
    left = 0;
    phase = is_closed;
    queued = record { seen = seen; pending = [] };
    at_rest = cc;
    shaken = tt;
    syn_told = λ e. e;
    ack_told = λ e. e;
  }
  reached-Holds (sent {m = m} k r calls h s e f) =
      let i = reached-Holds h in
      let q =
        same-pending k (send (tcp_events observe) r k) calls _ e (
          send-seen (send (tcp_events observe) r) r thread m k (ap (λ x. x.thread) i.at_rest) s
            (tcp-sends observe thread r k))
        ∙ ap (λ x. pending_of x ++ r ∷ []) i.at_rest in
      record {
        left = i.left;
        phase = i.phase;
        queued = record i.queued { pending = calls };
        at_rest = f ∙ ap (λ x. with_pending x calls) i.at_rest;
        shaken =
            Shaken-more i.phase (told has_syn h) _ (told has_ack h) _
              (||-right (has_syn r) (told has_syn h)) (||-right (has_ack r) (told has_ack h))
              i.shaken;
        syn_told = rw q (sent-IsTold has_syn i.queued.pending r (told has_syn h) i.syn_told);
        ack_told = rw q (sent-IsTold has_ack i.queued.pending r (told has_ack h) i.ack_told);
      }
  reached-Holds (handled {m = m} {m' = m'} before after c h q e) =
      let i = reached-Holds h in
      let order = sym (ap pending_of i.at_rest) ∙ q in
      let (f, s) =
        handled-IsTold has_syn before c after (told has_syn h)
          (subst (λ x. IsTold has_syn x (told has_syn h)) order i.syn_told) in
      let (g, a) =
        handled-IsTold has_ack before c after (told has_ack h)
          (subst (λ x. IsTold has_ack x (told has_ack h)) order i.ack_told) in
      let (n', p, w', e', k, same) =
        call-done i.left i.phase (record i.queued { pending = before ++ after }) c m'
          (told has_syn h) (told has_ack h) f g i.shaken
          (sym
              (ap (λ x. handle (tcp_events observe) c (with_pending x (before ++ after))) i.at_rest)
            ∙ e) in
      record {
        left = n';
        phase = p;
        queued = w';
        at_rest = e';
        shaken = k;
        syn_told = rw same s;
        ack_told = rw same a;
      }

  verdict-done :
      (n : ℕ) (p q : Phase) (w : Queued TcpCall W) (v : Verdict)
      → after p v ≡ some q
      → (m' : QueuedTcp W) × (came_to (on_queue observe) n (some thread) p w v ≡ done tt m')
  verdict-done n p q w ignored e = (_, refl)
  verdict-done n p q w forbidden e = cc
  verdict-done n p q w (moved row) e = (_, refl)

  request-done :
      (n : ℕ) (p : Phase) (w : Queued TcpCall W) (r : Request)
      → IsSilent (r ∷ [])
      → (m' : QueuedTcp W) × (handle (tcp_events observe) (call_of r) (rests observe thread n p w)
          ≡ done tt m')
  request-done n p w r h =
      let (q, e) = allowed p r h in
      let (m', f) = verdict-done n p q w (answer p r) e in
      (m', handle_lem observe thread n p w r ∙ f)

  safe-done :
      (n : ℕ) (p : Phase) (w : Queued TcpCall W) (c : TcpCall)
      → IsSafe c
      → (m' : QueuedTcp W) × (handle (tcp_events observe) c (rests observe thread n p w)
          ≡ done tt m')
  safe-done n p w active_open_call h = request-done n p w to_open tt
  safe-done n p w passive_open_call h = request-done n p w to_listen tt
  safe-done n p w send_call h = absurd h
  safe-done n p w close_call h = request-done n p w to_close tt
  safe-done n p w (handle_packet_call none) h = absurd h
  safe-done n p w (handle_packet_call (some d)) h =
      request-done n p w (to_packet d.syn d.ack d.fin d.rst) tt

  -- However the calls and packets of other threads to a new connection and the handling of them follow
  -- on each other, in whatever order the connection's thread takes them, calls in the midst of that
  -- included: when nothing is being handled, the connection rests in a state other than `ST_TIME_WAIT`;
  -- in any but `ST_CLOSED`, `ST_LISTEN` and `ST_SYN_SENT` a packet with syn was sent, and in
  -- `ST_ESTABLISHED`, `ST_CLOSE_WAIT` and `ST_LAST_ACK` one with ack too; and of what is pending,
  -- all but `Send` and null pointers can be handled without an assertion.
  pub Reachable-Shaken :
      {m : QueuedTcp W} (h : Reachable (tcp_events observe) start m)
      → (phase : Phase) × IsResting (on_queue observe) state_of (some thread) phase tt m
        × Shaken phase (told has_syn h) (told has_ack h)
        × ((before after : List TcpCall) (c : TcpCall)
            → pending_of m ≡ before ++ c ∷ after
            → IsSafe c
            → (m' : QueuedTcp W) × (handle (tcp_events observe) c (with_pending m (before ++ after))
                ≡ done tt m'))
  Reachable-Shaken h =
      let i = reached-Holds h in
      (
        i.phase,
        (i.left, i.queued, i.at_rest),
        i.shaken,
        λ before after c q safe.
            let (m', f) =
              safe-done i.left i.phase (record i.queued { pending = before ++ after }) c safe in
            (
              m',
              ap (λ x. handle (tcp_events observe) c (with_pending x (before ++ after))) i.at_rest
                  ∙ f,
            ),
      )
