-- ===== src/StateMachineHsm/Spec.antt =====
-- What a turn of a hierarchical machine promises (state-machine/StateMachineHSM.h), over states and
-- objects alone: a guard may veto; else the states up to the least common ancestor are left, those
-- down to the new state are entered, the new state acts, and observers are told.
use active_fsm.Base.{ℕ, none, some, List, [], ◌∷◌, ◌==◌, if◌then◌else◌}
use active_fsm.StateMachine.Observed.{Signal, transition, entered, exited, Actions}
use active_fsm.StateMachine.Spec.{Config, guarded, entering, exiting}
use active_fsm.StateMachineHsm.Lca.{first_common}
use active_fsm.StateMachineHsm.Walks.{below}

module _ {D U : Type 0} (rows : ℕ → Actions D U) (observe : Signal → U → U) where
  -- From the first state of the list on
  abbrev pub left_all : List ℕ → U → U
  left_all [] u = u
  left_all (s ∷ ss) u = left_all ss (observe (exited s) (exiting (rows s).exit u))

  -- From the last state of the list on
  abbrev pub entered_all : List ℕ → D → U → U
  entered_all [] d u = u
  entered_all (s ∷ ss) d u = observe (entered s) (entering (rows s).entry d (entered_all ss d u))

  -- From `s`, with the chain `xs` of ancestors, to `t` with the chain `ys`
  abbrev pub moved_hsm : ℕ → ℕ → List ℕ → List ℕ → D → U → U
  moved_hsm s t xs ys d u =
      let l = first_common xs ys in
      if t == s then u else entered_all (below l ys) d (left_all (below l xs) u)

  abbrev pub acted_hsm : ℕ → ℕ → List ℕ → List ℕ → D → U → Config D U
  acted_hsm s t xs ys d u =
      let (u', event) = (rows t).act (some d) (moved_hsm s t xs ys d u) in
      record { state = t; object = observe (transition s t) u'; event = event }

  -- One event: in state `s`, with target `t`.
  unfoldable pub respond_hsm : ℕ → ℕ → List ℕ → List ℕ → D → U → Config D U
  respond_hsm s t xs ys d u =
      let (passed, u') = guarded (rows t).guard d u in
      if passed then acted_hsm s t xs ys d u' else record { state = s; object = u'; event = none }
