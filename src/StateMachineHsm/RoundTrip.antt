-- ===== src/StateMachineHsm/RoundTrip.antt =====
-- A change of state of state-machine/StateMachineHSM.cpp, and the change back.
use active_fsm.Base.{
  ℕ, ◌≤◌, ◌<◌, Option, some, List, [], ◌∷◌, ◌≡◌, refl, ap, subst, ◌∙◌, length, get_elem?,
}
use active_fsm.Outcome.{done}
use active_fsm.StateMachine.{Context}
use active_fsm.StateMachine.Observed.{Signal, entered, exited, Threads, observed, Actions}
use active_fsm.StateMachine.Spec.{entering, exiting}
use active_fsm.StateMachine.Rounds.{at_rest}
use active_fsm.StateMachineHsm.{StateMapRowHsm, max_hsm_depth}
use active_fsm.StateMachineHsm.Engine.{change_state_hsm}
use active_fsm.StateMachineHsm.Chain.{Chain}
use active_fsm.StateMachineHsm.Lca.{first_common}
use active_fsm.StateMachineHsm.Walks.{below}
use active_fsm.StateMachineHsm.Transition.{first_common_comm}
use active_fsm.StateMachineHsm.Spec.{left_all, entered_all}
use active_fsm.StateMachineHsm.Refinement.{AreBelow, below-AreBelow, row_of_hsm, change_state_lem}

module _ {D U : Type 0} (rows : ℕ → Actions D U) (observe : Signal → U → U) where
  -- What the exit of a state does to the object, with its signal, and what its entry does
  abbrev pub left_state : ℕ → U → U
  left_state s u = observe (exited s) (exiting (rows s).exit u)

  abbrev pub entered_state : D → ℕ → U → U
  entered_state d s u = observe (entered s) (entering (rows s).entry d u)

  module _ (max_states : ℕ) (d : D) where
    left_all-entered_all :
        (ss : List ℕ) (u : U)
        → AreBelow max_states ss
        → ((s : ℕ) (u : U) → s < max_states → left_state s (entered_state d s u) ≡ u)
        → left_all rows observe ss (entered_all rows observe ss d u) ≡ u
    left_all-entered_all [] u h undo = refl
    left_all-entered_all (s ∷ ss) u (k, h) undo =
        ap (left_all rows observe ss) (undo s (entered_all rows observe ss d u) k)
        ∙ left_all-entered_all ss u h undo

    entered_all-left_all :
        (ss : List ℕ) (u : U)
        → AreBelow max_states ss
        → ((s : ℕ) (u : U) → s < max_states → entered_state d s (left_state s u) ≡ u)
        → entered_all rows observe ss d (left_all rows observe ss u) ≡ u
    entered_all-left_all [] u h undo = refl
    entered_all-left_all (s ∷ ss) u (k, h) undo =
        ap (entered_state d s) (entered_all-left_all ss (left_state s u) h undo) ∙ undo s u k

module _ {D U : Type 0} (max_states : ℕ) (no_data : D) (observe : Signal → U → U)
    (threads : Threads D U) (rows : ℕ → Actions D U) (parents : ℕ → ℕ)
    (state_map : List (StateMapRowHsm D U))
    (filled : (s : ℕ)
      → s < max_states
      → get_elem? state_map s
        ≡ some (row_of_hsm (observed max_states no_data observe threads) rows parents s)) where
  abbrev c : Context D U
  c = observed max_states no_data observe threads

  -- On a map whose rows call functions of the object alone, and in which for each state exit undoes
  -- entry and entry undoes exit, signals included, whatever event data the two changes carry: a change
  -- between two states with no more than 32 ancestors, and the change back, restore the object, however
  -- far apart the states are.
  pub change_state_hsm-back :
      (thread : Option ℕ) (d d' : D) (u : U) {s t : ℕ} {xs ys : List ℕ}
      → Chain max_states state_map s xs
      → Chain max_states state_map t ys
      → length xs ≤ max_hsm_depth
      → length ys ≤ max_hsm_depth
      → ((x : ℕ) (v : U)
          → x < max_states
          → left_state rows observe x (entered_state rows observe d x v) ≡ v)
      → ((x : ℕ) (v : U)
          → x < max_states
          → entered_state rows observe d' x (left_state rows observe x v) ≡ v)
      → (u' : U) × (change_state_hsm c state_map s t (some d) (at_rest t thread s u)
          ≡ done tt (at_rest t thread t u'))
        × (change_state_hsm c state_map t s (some d') (at_rest s thread t u')
            ≡ done tt (at_rest s thread s u))
  change_state_hsm-back thread d d' u {s} {t} {xs} {ys} p q k l out back =
      let a = below (first_common xs ys) xs in
      let b = below (first_common xs ys) ys in
      let v = left_all rows observe a u in
      let restored =
        subst
          (λ m.
            entered_all rows observe (below m xs) d'
              (left_all rows observe (below m ys) (entered_all rows observe b d v))
            ≡ u)
          (first_common_comm p q)
          (ap (entered_all rows observe a d') (
              left_all-entered_all rows observe max_states d b v
                (below-AreBelow (first_common xs ys) q) out)
            ∙ entered_all-left_all rows observe max_states d' a u
                (below-AreBelow (first_common xs ys) p) back) in
      (
        entered_all rows observe b d v,
        change_state_lem max_states no_data observe threads rows parents state_map filled p q k l
            thread d u,
        change_state_lem max_states no_data observe threads rows parents state_map filled q p l k
              thread d' (entered_all rows observe b d v)
            ∙ ap (λ v'. done tt (at_rest s thread s v')) restored,
      )
