-- ===== src/Examples/CentrifugeTest/Async/Completions.antt =====
-- How often `OnComplete` of examples/CentrifugeTest.cpp fires, against the calls that were made.
use active_fsm.Base.{
  ℕ, ◌+◌, ◌≤◌, is_zero, at_least, increment, Bool-cases, inl, inr, some, List, [], ◌∷◌, ◌++◌, ◌≡◌,
  refl, sym, ap, ◌∙◌, subst, arith, leb, ltb, ◌&&◌,
}
use active_fsm.StateMachine.Observed.{Signal}
use active_fsm.StateMachine.ActiveObject.{pending_of, on_queue}
use active_fsm.StateMachine.ActiveObject.Reach.{new, sent, handled, calls_of}
use active_fsm.Examples.Table.{IsResting, phase_after, own_after}
use active_fsm.Examples.SelfTest
use active_fsm.Examples.CentrifugeTest.{
  CentrifugeTest, TestCall, start_call, poll_call, cancel_call, st_max_states,
}
use active_fsm.Examples.CentrifugeTest.Laws.{
  Phase, is_idle, is_accelerating, is_waiting_up, is_decelerating, is_waiting_down, state_of,
}
use active_fsm.Examples.CentrifugeTest.Async.{
  TestMessage, call, event_impl, Shared, respond, send_call, handle_message, ReachedTest, IsNew,
  Resting, at,
}
use active_fsm.Examples.CentrifugeTest.Async.Steps.{message_of}
use active_fsm.Examples.CentrifugeTest.Async.Moves.{
  send_message, take_pending, new_resting, IsNew-at,
}

-- What may still complete: a test that runs, a message that is pending, a call that was made
abbrev pub running : Phase → ℕ
running is_idle = 0
running _ = 1

abbrev pub asked : TestCall → ℕ
asked poll_call = 0
asked _ = 1

abbrev pub weight : TestMessage → ℕ
weight (call r) = asked r
weight (event_impl s d) = 1

abbrev pub total : {C : Type 0} → (C → ℕ) → List C → ℕ
total f [] = 0
total f (c ∷ cs) = f c + total f cs

total-++ : {C : Type 0} (f : C → ℕ) (cs ds : List C) → total f (cs ++ ds) ≡ total f cs + total f ds
total-++ f [] ds = omega arith
total-++ f (c ∷ cs) ds = rw (total-++ f cs ds) (omega arith)

total-middle :
    {C : Type 0} (f : C → ℕ) (cs : List C) (c : C) (ds : List C)
    → total f (cs ++ c ∷ ds) ≡ f c + total f (cs ++ ds)
total-middle f [] c ds = refl
total-middle f (b ∷ cs) c ds = rw (total-middle f cs c ds) (omega arith)

weight-message_of : (s : ℕ) (r : TestCall) → weight (message_of s r) ≤ asked r
weight-message_of s start_call = omega arith
weight-message_of s poll_call = omega arith
weight-message_of s cancel_call =
    elim (Bool-cases (leb SelfTest.st_max_states s && ltb s st_max_states)) [
      | inl e ↦ rw e (omega arith)
      | inr e ↦ rw e (omega arith)
    ]

abbrev Pays : Phase → TestMessage → CentrifugeTest → Type 0
Pays phase c o =
    (own_after o (respond phase c o)).completions + running (phase_after phase (respond phase c o))
    ≤ o.completions + running phase + weight c

-- A message completes a test, or starts one, at most once, and a poll just if a test runs.
respond-Pays : (phase : Phase) (c : TestMessage) (o : CentrifugeTest) → Pays phase c o
respond-Pays is_idle (call start_call) o = elim (Bool-cases (is_zero o.speed)) [
  | inl e ↦ rw e (omega arith)
  | inr e ↦ rw e (omega arith)
]
respond-Pays is_accelerating (call poll_call) o =
    elim (Bool-cases (at_least 5 (increment o.speed))) [
      | inl e ↦ rw e (omega arith)
      | inr e ↦ rw e (omega arith)
    ]
respond-Pays is_waiting_up (call poll_call) o = elim (Bool-cases (at_least 5 (increment o.speed))) [
  | inl e ↦ rw e (omega arith)
  | inr e ↦ rw e (omega arith)
]
respond-Pays is_decelerating (call poll_call) o = elim (Bool-cases (is_zero o.speed)) [
  | inl e ↦ rw e (omega arith)
  | inr e ↦ rw e (omega arith)
]
respond-Pays is_waiting_down (call poll_call) o = elim (Bool-cases (is_zero o.speed)) [
  | inl e ↦ rw e (omega arith)
  | inr e ↦ rw e (omega arith)
]
respond-Pays is_accelerating (call cancel_call) o = omega arith
respond-Pays is_waiting_up (call cancel_call) o = omega arith
respond-Pays is_decelerating (call cancel_call) o = omega arith
respond-Pays is_waiting_down (call cancel_call) o = omega arith
respond-Pays is_idle (event_impl s d) o = omega arith
respond-Pays is_accelerating (event_impl s d) o = omega arith
respond-Pays is_waiting_up (event_impl s d) o = omega arith
respond-Pays is_decelerating (event_impl s d) o = omega arith
respond-Pays is_waiting_down (event_impl s d) o = omega arith
respond-Pays _ (call r) o = omega arith

module _ {W : Type 0} (observe : Signal → W → W) (thread : ℕ) (seen : W) {start : Shared W}
    (is_new : IsNew observe thread seen start) where
  abbrev owed : Resting W → ℕ
  owed i = i.own.completions + running i.phase + total weight i.queued.pending

  abbrev pub made : {m : Shared W} → ReachedTest observe start m → ℕ
  made h = total asked (calls_of (send_call observe) (handle_message observe) h)

  owed-made :
      {m : Shared W} (h : ReachedTest observe start m)
      → (i : Resting W) × (m ≡ at thread i) × (owed i ≤ made h)
  unfolding calls_of
  owed-made new =
      (new_resting observe thread seen, IsNew-at observe thread seen start is_new, omega arith)
  owed-made (sent {m = m} k r calls h s e f) =
      let (i, g, l) = owed-made h in
      let (j, g', p, o, q) = send_message observe thread r m k calls i g s e in
      let c = message_of k.current_state r in
      let w = weight-message_of k.current_state r in
      let t = total-++ weight i.queued.pending (c ∷ []) in
      (j, f ∙ g', rw (o, p, q, t) (omega arith))
  owed-made (handled {m = m} {m' = m'} before after c h q e) =
      let (i, g, l) = owed-made h in
      let (m₁, f, (j, g', p, o, left)) = take_pending observe thread before after c m i g q in
      let same : m' ≡ m₁ = cc in
      let pays = respond-Pays i.phase c i.own in
      let t = ap (total weight) (sym (ap pending_of g) ∙ q) ∙ total-middle weight before c after in
      (j, same ∙ g', rw (o, p, left) (omega arith))

  -- However the threads of a new test follow on each other: when nothing is being handled, the times that
  -- `OnComplete` has fired, and the tests that run or may yet complete by what is pending, are no more
  -- than the calls of `Start` and `Cancel` that were made. So each of these completes at most once,
  -- and `Poll` alone completes nothing.
  pub ReachedTest-completions :
      {m : Shared W} (h : ReachedTest observe start m)
      → (phase : Phase) × (o : CentrifugeTest) × IsResting
          (on_queue observe)
          state_of
          (some thread)
          phase
          o
          m
        × (o.completions + running phase + total weight (pending_of m) ≤ made h)
  ReachedTest-completions h =
      let (i, e, l) = owed-made h in
      (
        i.phase,
        i.own,
        (i.left, i.queued, e),
        subst (λ calls. i.own.completions + running i.phase + total weight calls ≤ made h)
            (sym (ap pending_of e)) l,
      )
