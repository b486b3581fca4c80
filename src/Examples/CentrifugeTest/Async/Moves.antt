-- ===== src/Examples/CentrifugeTest/Async/Moves.antt =====
-- A test between two messages (examples/CentrifugeTest.cpp), and the two steps of its threads: a call
-- from another thread, and a message that the machine's thread takes.
use active_fsm.Base.{
  ℕ, none, Option, some, List, [], ◌∷◌, ◌++◌, ◌≡◌, refl, sym, ap, ◌∙◌, subst, inr, arith,
}
use active_fsm.Outcome.{done}
use active_fsm.StateMachine.Observed.{Signal}
use active_fsm.StateMachine.ActiveObject.{Queued, with_pending, pending_of, IsOneOf, on_queue}
use active_fsm.StateMachine.ActiveObject.Reach.{IsSeen, send-seen, same-pending}
use active_fsm.Examples.Table.{Row, observe_all, answered, phase_after, own_after}
use active_fsm.Examples.Table.Queue.{observe_all-pending}
use active_fsm.Examples.CentrifugeTest.{TestCall, CentrifugeTest, centrifuge_test}
use active_fsm.Examples.CentrifugeTest.Laws.{Phase, is_idle, state_of}
use active_fsm.Examples.CentrifugeTest.Promise.{IsMembers, new_test}
use active_fsm.Examples.CentrifugeTest.Async.{
  TestMessage, Shared, IsMessage, AreMessages, respond, send_call, handle_message, IsNew, Resting,
  at,
}
use active_fsm.Examples.CentrifugeTest.Async.Steps.{
  append-AreMessages, middle-IsMessage, message_of, message_of-IsMessage, respond-IsMembers,
  send_call_lem, handle_message_lem,
}

module _ {W : Type 0} (observe : Signal → W → W) (thread : ℕ) where
  -- The test after a message, as the table has it
  abbrev pub Answered :
      Phase
      → CentrifugeTest
      → Option (Row Phase CentrifugeTest)
      → List TestMessage
      → Shared W
      → Type 0
  Answered phase o a calls m =
      (i : Resting W) × (m ≡ at thread i)
      × (i.phase ≡ phase_after phase a)
      × (i.own ≡ own_after o a)
      × (i.queued.pending ≡ calls)

  answered-Answered :
      (n : ℕ) (phase : Phase) (o : CentrifugeTest) (w : Queued TestMessage W)
      (a : Option (Row Phase CentrifugeTest))
      → AreMessages w.pending
      → IsMembers (phase_after phase a) (own_after o a)
      → Answered phase o a w.pending
          (answered (on_queue observe) state_of n (some thread) phase o w a)
  answered-Answered n phase o w none h k = (
    record { left = n; phase = phase; own = o; queued = w; fits = k; messages = h },
    refl,
    refl,
    refl,
    refl,
  )
  answered-Answered n phase o w (some a) h k =
      let same = observe_all-pending observe a.signals w in
      (
        record {
          left = a.left;
          phase = a.phase;
          own = a.own;
          queued = observe_all (on_queue observe) a.signals w;
          fits = k;
          messages = rw same h;
        },
        refl,
        refl,
        refl,
        same,
      )

  -- The machine's thread takes a message, and `calls` remain.
  pub take_message :
      (i : Resting W) (c : TestMessage) (calls : List TestMessage)
      → IsMessage c
      → AreMessages calls
      → (m' : Shared W) × (handle_message observe c (with_pending (at thread i) calls) ≡ done tt m')
        × Answered i.phase i.own (respond i.phase c i.own) calls m'
  take_message i c calls h hs = (
    _,
    handle_message_lem observe thread i.phase c i.left i.own (record i.queued { pending = calls })
        h,
    answered-Answered i.left i.phase i.own (record i.queued { pending = calls })
        (respond i.phase c i.own) hs (respond-IsMembers i.phase c i.own i.fits),
  )

  -- A call from another thread, that may see the test in the midst of a message
  pub test-seen :
      (r : TestCall) (m k : Shared W)
      → IsOneOf (at thread) m
      → IsSeen m k
      → send_call observe r k
        ≡ done tt (with_pending k (pending_of m ++ message_of k.current_state r ∷ []))
  test-seen r m k (i, e) s =
      send-seen (send_call observe r) (message_of k.current_state r) thread m k
        (ap (λ x. x.thread) e) s (send_call_lem observe thread r k)

  pub send_message :
      (r : TestCall) (m k : Shared W) (calls : List TestMessage) (i : Resting W)
      → m ≡ at thread i
      → IsSeen m k
      → send_call observe r k ≡ done tt (with_pending k calls)
      → (j : Resting W) × (with_pending m calls ≡ at thread j)
        × (j.phase ≡ i.phase)
        × (j.own ≡ i.own)
        × (j.queued.pending ≡ i.queued.pending ++ message_of k.current_state r ∷ [])
  send_message r m k calls i f s e =
      let c = message_of k.current_state r in
      let q =
        same-pending k (send_call observe r k) calls _ e (test-seen r m k (i, f) s)
        ∙ ap (λ x. pending_of x ++ c ∷ []) f in
      (
        record i {
          queued = record i.queued { pending = calls };
          messages = rw q (
              append-AreMessages i.queued.pending (c ∷ []) i.messages
                (message_of-IsMessage k.current_state r, tt));
        },
        ap (λ x. with_pending x calls) f,
        refl,
        refl,
        q,
      )

  pub take_pending :
      (before after : List TestMessage) (c : TestMessage) (m : Shared W) (i : Resting W)
      → m ≡ at thread i
      → pending_of m ≡ before ++ c ∷ after
      → (m' : Shared W) × (handle_message observe c (with_pending m (before ++ after)) ≡ done tt m')
        × Answered i.phase i.own (respond i.phase c i.own) (before ++ after) m'
  take_pending before after c m i e q =
      let (h, hs) =
        middle-IsMessage before c after
          (subst AreMessages (sym (ap pending_of e) ∙ q) i.messages) in
      let (m', f, answered) = take_message i c (before ++ after) h hs in
      (m', ap (λ k. handle_message observe c (with_pending k (before ++ after))) e ∙ f, answered)

  abbrev pub new_resting : W → Resting W
  new_resting seen = record {
    left = 0;
    phase = is_idle;
    own = new_test;
    queued = record { seen = seen; pending = [] };
    fits = (refl, inr (0, refl, omega arith));
    messages = tt;
  }

  pub IsNew-at :
      (seen : W) (m : Shared W) → IsNew observe thread seen m → m ≡ at thread (new_resting seen)
  unfolding centrifuge_test
  IsNew-at seen m e = cc
