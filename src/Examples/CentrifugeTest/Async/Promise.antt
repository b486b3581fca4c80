-- ===== src/Examples/CentrifugeTest/Async/Promise.antt =====
-- examples/CentrifugeTest.cpp, however the calls of other threads, the polls of the timer's thread and
-- the handling of what they hand over follow on each other.
use active_fsm.Base.{ℕ, some, List, [], ◌∷◌, ◌++◌, ◌≡◌, refl, sym, ap, ◌∙◌, subst}
use active_fsm.Outcome.{done}
use active_fsm.StateMachine.Observed.{Signal}
use active_fsm.StateMachine.ActiveObject.{
  with_pending, pending_of, handle_all, drain, IsOneOf, on_queue,
}
use active_fsm.StateMachine.ActiveObject.Reach.{IsSeen, handled, IsKept, Reached-P}
use active_fsm.Examples.Table.{IsResting}
use active_fsm.Examples.Table.Follow.{led_to}
use active_fsm.Examples.CentrifugeTest.{TestCall, CentrifugeTest}
use active_fsm.Examples.CentrifugeTest.Laws.{Phase, state_of}
use active_fsm.Examples.CentrifugeTest.Promise.{IsMembers}
use active_fsm.Examples.CentrifugeTest.Async.{
  TestMessage, Shared, IsMessage, AreMessages, respond, test_events, send_call, handle_message,
  ReachedTest, IsNew, Resting, at,
}
use active_fsm.Examples.CentrifugeTest.Async.Moves.{
  take_message, test-seen, send_message, take_pending, new_resting, IsNew-at,
}
use active_fsm.Examples.CentrifugeTest.Async.Steps.{message_of-IsMessage}

-- Where the table leads from a phase and members
abbrev pub settled : Phase → CentrifugeTest → List TestMessage → Phase × CentrifugeTest
settled = led_to respond

module _ {W : Type 0} (observe : Signal → W → W) (thread : ℕ) where
  test-IsKept : IsKept (send_call observe) (handle_message observe) (IsOneOf (at {W = W} thread))
  test-IsKept = record {
    sends = λ r m k calls p s e.
        let (j, f, same_phase, same_own, left) =
          send_message observe thread r m k calls p.0 p.1 s e in
        (j, f);
    handles = λ before after c m p q.
        let (m', f, (j, g, same_phase, same_own, left)) =
          take_pending observe thread before after c m p.0 p.1 q in
        rw f (j, g);
  }

  -- Whatever the threads do, the test is between two messages when none is being handled.
  Reached-at :
      (seen : W) {start m : Shared W}
      → IsNew observe thread seen start
      → ReachedTest observe start m
      → IsOneOf (at thread) m
  Reached-at seen {start} is_new reached =
      Reached-P (send_call observe) (handle_message observe) test-IsKept
        (new_resting observe thread seen, IsNew-at observe thread seen start is_new) reached

  settle :
      {start : Shared W} (cs : List TestMessage) (i : Resting W)
      → ReachedTest observe start (at thread i)
      → i.queued.pending ≡ cs
      → (j : Resting W) × (handle_all (test_events observe) cs (at thread i)
          ≡ done tt (at thread j))
        × ReachedTest observe start (at thread j)
        × (j.queued.pending ≡ [])
        × ((j.phase, j.own) ≡ settled i.phase i.own cs)
  unfolding handle_all led_to
  settle [] i h e = (i, refl, h, e, refl)
  settle (c ∷ cs) i h e =
      let (k, ks) = subst AreMessages e i.messages in
      let (m₁, f, (i₁, g, p, o, q)) = take_message observe thread i c cs k ks in
      let (j, l, h', none_left, s) = settle cs i₁ (handled [] cs c h e (f ∙ ap (done tt) g)) q in
      (j, rw (f ∙ ap (done tt) g) l, h', none_left, s ∙ rw (p, o) refl)

  module _ (seen : W) {start m : Shared W} (is_new : IsNew observe thread seen start)
      (reached : ReachedTest observe start m) where
    -- However the calls of `Start` and `Cancel` on a new test from other threads, the polls of the timer's
    -- thread and the handling of what they hand over follow on each other, in whatever order the
    -- machine's thread takes it, calls in the midst of that included: when nothing is being handled, the
    -- test rests in one of its five states, with members that fit it, so that the poll timer is enabled
    -- just while a test runs and the speed is from -1 to 5; what is pending are calls and events for
    -- `ST_FAILED`; the next call, also from a thread that sees the test in the midst of a message, hands
    -- over one of these and does no more; and any that is pending can be handled without an assertion.
    pub ReachedTest-IsMembers :
        (phase : Phase) × (o : CentrifugeTest) × IsResting
          (on_queue observe)
          state_of
          (some thread)
          phase
          o
          m
        × IsMembers phase o
        × AreMessages (pending_of m)
        × ((r : TestCall) (k : Shared W)
            → IsSeen m k
            → (c : TestMessage) × IsMessage c
              × (send_call observe r k ≡ done tt (with_pending k (pending_of m ++ c ∷ []))))
        × ((before after : List TestMessage) (c : TestMessage)
            → pending_of m ≡ before ++ c ∷ after
            → (m' : Shared W) × (handle_message observe c (with_pending m (before ++ after))
                ≡ done tt m'))
    ReachedTest-IsMembers =
        let (i, e) = Reached-at seen is_new reached in
        (
          i.phase,
          i.own,
          (i.left, i.queued, e),
          i.fits,
          subst AreMessages (sym (ap pending_of e)) i.messages,
          λ r k s.
              (_, message_of-IsMessage k.current_state r, test-seen observe thread r m k (i, e) s),
          λ before after c q.
              let (m', f, rest) = take_pending observe thread before after c m i e q in (m', f),
        )

    -- From there the machine's thread can handle what is pending, in its order, without an assertion;
    -- then nothing is pending, and the test is in the phase and with the members that the table has.
    pub ReachedTest-settles :
        (phase : Phase) × (o : CentrifugeTest) × IsResting
          (on_queue observe)
          state_of
          (some thread)
          phase
          o
          m
        × ((m' : Shared W) × (drain (test_events observe) m ≡ done tt m')
            × ReachedTest observe start m'
            × (pending_of m' ≡ [])
            × IsResting
                (on_queue observe)
                state_of
                (some thread)
                (settled phase o (pending_of m)).0
                (settled phase o (pending_of m)).1
                m')
    ReachedTest-settles =
        let (i, e) = Reached-at seen is_new reached in
        let (j, f, h, none_left, s) =
          settle (pending_of m) i (subst (ReachedTest observe start) e reached)
            (ap pending_of (sym e)) in
        (
          i.phase,
          i.own,
          (i.left, i.queued, e),
          (
            at thread j,
            ap (handle_all (test_events observe) (pending_of m)) e ∙ f,
            h,
            none_left,
            subst (λ p. IsResting (on_queue observe) state_of (some thread) p.0 p.1 (at thread j)) s
                (j.left, j.queued, refl),
          ),
        )
