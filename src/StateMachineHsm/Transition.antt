-- ===== src/StateMachineHsm/Transition.antt =====
-- What a change of state of state-machine/StateMachineHSM.cpp amounts to: functions to leave, the
-- new state, functions to enter, in that order.
use active_fsm.Base.{
  fun_ext, ℕ, not, ◌&&◌, ◌≤◌, ◌<◌, ◌≡◌, refl, sym, ap, ◌∙◌, subst, fun_ext, ◌⊎◌, inl, inr, Option,
  List, [], ◌∷◌, ◌++◌, ◌==◌, reverse, length, arith, Bool-cases,
}
use active_fsm.Outcome.{M, event_from_entry_or_exit, ◌>>=◌, ◌>>◌, get, assert, for_each}
use active_fsm.StateMachine.{Machine, Context}
use active_fsm.StateMachine.Engine.{set_current_state}
use active_fsm.StateMachineHsm.{StateMapRowHsm, no_parent, max_hsm_depth}
use active_fsm.StateMachineHsm.Engine.{leave, enter, change_state_hsm}
use active_fsm.StateMachineHsm.Chain.{elem, Chain, length-Chain}
use active_fsm.StateMachineHsm.Lca.{first_common, first_common-IsLca, IsLca, find_lca-first_common}
use active_fsm.StateMachineHsm.Walks.{below, entry_chain_lem, exit_up_lem, elem-below-first_common}

-- `below` cuts a chain in two.
below-IsPrefix : (l : ℕ) (xs : List ℕ) → (rest : List ℕ) × (xs ≡ below l xs ++ rest)
below-IsPrefix l [] = ([], refl)
below-IsPrefix l (x ∷ xs) = elim (Bool-cases (x == l)) [
  | inl e ↦ rw e (x ∷ xs, refl)
  | inr e ↦ rw e (let (rest, q) = below-IsPrefix l xs in (rest, ap (◌∷◌ x) q))
]

module _ {D U : Type 0} {max_states : ℕ} {state_map : List (StateMapRowHsm D U)} where
  common_is_one :
      (xs ys : List ℕ) {l k : ℕ}
      → IsLca max_states state_map xs ys l
      → IsLca max_states state_map ys xs k
      → l ≡ k
  common_is_one xs ys (inl (e, _)) (inl (f, _)) = e ∙ sym f
  common_is_one xs ys {k = k} (inl (_, h)) (inr (_, _, m, n, _)) = let f = h k n in cc
  common_is_one xs ys {l = l} (inr (_, _, m, n, _)) (inl (_, h)) = let f = h l n in cc
  common_is_one xs ys {l = l} {k = k} (inr (zs, c, m, n, h)) (inr (ws, d, p, q, g)) =
      same (length-Chain c (h k q p) d) (length-Chain d (g l n m) c)
    where
      same : (k ≡ l) ⊎ (length ws < length zs) → (l ≡ k) ⊎ (length zs < length ws) → l ≡ k
      same (inl e) _ = sym e
      same (inr _) (inl e) = e
      same (inr a) (inr b) = absurd (omega arith)

  -- The order of the two states does not matter.
  pub first_common_comm :
      {a b : ℕ} {xs ys : List ℕ}
      → Chain max_states state_map a xs
      → Chain max_states state_map b ys
      → first_common xs ys ≡ first_common ys xs
  first_common_comm {xs = xs} {ys = ys} c d =
      common_is_one xs ys (first_common-IsLca ys c) (first_common-IsLca xs d)

-- What a change of state does, given the states to leave and those to enter, each leaf first.
abbrev pub planned :
    {D U : Type 0}
    → Context D U
    → List (StateMapRowHsm D U)
    → List ℕ
    → List ℕ
    → ℕ
    → Option D
    → M (Machine D U) (Unit {0})
planned c state_map exits entries new_state d = do
  for_each (leave c state_map) exits
  set_current_state new_state
  for_each (enter c state_map d) (reverse entries)
  after ← get
  assert (not after.event_generated) event_from_entry_or_exit

module _ {D U : Type 0} (c : Context D U) {state_map : List (StateMapRowHsm D U)} where
  pub change_state_hsm-planned :
      (d : Option D) {a b : ℕ} {xs ys : List ℕ}
      → Chain c.max_states state_map a xs
      → Chain c.max_states state_map b ys
      → length xs ≤ max_hsm_depth
      → length ys ≤ max_hsm_depth
      → let l = first_common xs ys in
        change_state_hsm c state_map a b d ≡ planned c state_map (below l xs) (below l ys) b d
  unfolding change_state_hsm
  change_state_hsm-planned d {xs = xs} {ys = ys} p q k l = rw (find_lca-first_common p q k l) (
      fun_ext λ m. rw (
        exit_up_lem c max_hsm_depth (first_common xs ys) p k,
        entry_chain_lem max_hsm_depth (first_common xs ys) q l,
      ))

-- A change of state between two states no deeper than the bound, on a map with at most 253 states:
-- it runs the exit functions of `exits`, sets the new state, and runs the entry functions of
-- `entries` in reverse. `exits` is the start of the old state's chain and holds the states of that
-- chain that are not in the new state's; `entries` likewise, the other way round.
pub change_state_hsm_lem :
    {D U : Type 0} (c : Context D U) {state_map : List (StateMapRowHsm D U)} (d : Option D)
    {a b : ℕ} {xs ys : List ℕ}
    → c.max_states ≤ no_parent
    → Chain c.max_states state_map a xs
    → Chain c.max_states state_map b ys
    → length xs ≤ max_hsm_depth
    → length ys ≤ max_hsm_depth
    → (exits : List ℕ) × (entries : List ℕ) × (change_state_hsm c state_map a b d
        ≡ planned c state_map exits entries b d)
      × ((rest : List ℕ) × (xs ≡ exits ++ rest))
      × ((rest : List ℕ) × (ys ≡ entries ++ rest))
      × ((s : ℕ) → elem s exits ≡ (elem s xs && not (elem s ys)))
      × ((s : ℕ) → elem s entries ≡ (elem s ys && not (elem s xs)))
change_state_hsm_lem c d {xs = xs} {ys = ys} m p q k l = (
  below (first_common xs ys) xs,
  below (first_common xs ys) ys,
  change_state_hsm-planned c d p q k l,
  below-IsPrefix _ xs,
  below-IsPrefix _ ys,
  λ s. elem-below-first_common s m p q,
  λ s.
      subst (λ j. elem s (below j ys) ≡ (elem s ys && not (elem s xs)))
        (sym (first_common_comm p q)) (elem-below-first_common s m q p),
)
