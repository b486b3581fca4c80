-- ===== src/StateMachineHsm/Handlers.antt =====
-- Which transition an event of a hierarchical machine takes: the loop of `END_TRANSITION_MAP_HSM`
-- (state-machine/StateMachineHSM.h), against the chain of the current state.
use active_fsm.Base.{
  ℕ, zero, suc, ◌≤◌, ◌<◌, ◌≡◌, ◌≢◌, refl, inl, inr, Option, none, some, List, [], ◌∷◌, ◌==◌, length,
  get_elem?, get_elem?-lt, arith, Bool-cases, lt_cases, lt→leb, le→leb, lt→ltb, if◌then◌else◌,
}
use active_fsm.Outcome.{M, done, unfinished}
use active_fsm.StateMachine.{Machine, Context, event_ignored}
use active_fsm.StateMachine.Events.{external_event}
use active_fsm.StateMachineHsm.{StateMapRowHsm, propagate_to_parent}
use active_fsm.StateMachineHsm.Propagation.{resolve_from, resolve, end_transition_map_hsm}
use active_fsm.StateMachineHsm.Chain.{Chain, top, up}

-- The entry of a transition map that is there; past the end it does not matter.
abbrev pub entry_of : Option ℕ → ℕ
entry_of none = event_ignored
entry_of (some t) = t

-- The first entry along a chain that does not propagate, and "ignored" above a top-level state
abbrev pub handler : List ℕ → List ℕ → ℕ
handler transitions [] = event_ignored
handler transitions (s ∷ ss) =
    let next = handler transitions ss in
    let t = entry_of (get_elem? transitions s) in if t == propagate_to_parent then next else t

-- A handler is a state, or one of the two codes of a flat machine.
pub handler-ne-propagate :
    (transitions chain : List ℕ) → handler transitions chain ≢ propagate_to_parent
handler-ne-propagate transitions [] = omega arith
handler-ne-propagate transitions (s ∷ ss) = ground (arith, handler-ne-propagate transitions ss)

Chain-top :
    {D U : Type 0} {max_states : ℕ} {state_map : List (StateMapRowHsm D U)} {s : ℕ} {xs : List ℕ}
    → Chain max_states state_map s xs
    → max_states ≤ s
    → xs ≡ []
Chain-top (top h) k = refl
Chain-top (up h r c) k = absurd (omega arith)

module _ {D U : Type 0} (state_map : List (StateMapRowHsm D U)) (transitions : List ℕ)
    (st_max_states : ℕ) (complete : length transitions ≡ st_max_states) where
  resolve_from_lem :
      (fuel : ℕ) {s : ℕ} (t : ℕ) {xs : List ℕ} (m : Machine D U)
      → Chain st_max_states state_map s xs
      → s < st_max_states
      → get_elem? transitions s ≡ some t
      → length xs ≤ fuel
      → resolve_from state_map transitions st_max_states fuel s t m
        ≡ done (handler transitions xs) m
  unfolding resolve_from
  resolve_from_lem fuel t m (top h) k e l = absurd (omega arith)
  resolve_from_lem zero t m (up h r c) k e l = absurd (omega arith)
  resolve_from_lem (suc fuel) t m (up {s = s} {row = row} {xs = xs} h r c) k e l =
      elim (Bool-cases (t == propagate_to_parent)) [
        | inl climbs ↦
            rw (climbs, r, e, climbs)
              (elim (lt_cases row.parent_state st_max_states) [
                | inl inside ↦
                    let (t', e') = get_elem?-lt transitions row.parent_state (omega arith) in
                    rw (lt→leb row.parent_state st_max_states inside, e')
                      (resolve_from_lem fuel t' m c inside e' (omega arith))
                | inr outside ↦
                    rw (le→leb row.parent_state st_max_states outside, Chain-top c outside)
              ])
        | inr stays ↦ rw (stays, e, stays)
      ]

-- With as much fuel as the chain of ancestors is long, the loop of `END_TRANSITION_MAP_HSM` ends, and
-- it has found the first entry along the chain that does not propagate.
resolve-handler :
    {D U : Type 0} (state_map : List (StateMapRowHsm D U)) (transitions : List ℕ) {s : ℕ}
    {xs : List ℕ} (fuel : ℕ) (m : Machine D U)
    → Chain (length transitions) state_map s xs
    → s < length transitions
    → length xs ≤ fuel
    → resolve state_map transitions (length transitions) fuel s m ≡ done (handler transitions xs) m
unfolding resolve
resolve-handler state_map transitions {s = s} fuel m c k l =
    let (t, e) = get_elem?-lt transitions s k in
    rw e (resolve_from_lem state_map transitions (length transitions) refl fuel t m c k e l)

-- In a state of a transition map that is complete, whose chain of ancestors is no longer than the
-- fuel, `END_TRANSITION_MAP_HSM` is `ExternalEvent` on the first entry along the chain that does not
-- propagate, and on `EVENT_IGNORED` if all do.
pub end_transition_map_hsm-handler :
    {D U : Type 0} (c : Context D U) (engine : M (Machine D U) (Unit {0}))
    (state_map : List (StateMapRowHsm D U)) (fuel : ℕ) (transitions : List ℕ) (d : Option D)
    (m : Machine D U) {xs : List ℕ}
    → Chain (length transitions) state_map m.current_state xs
    → m.current_state < length transitions
    → length xs ≤ fuel
    → end_transition_map_hsm c engine state_map fuel transitions (length transitions) d m
      ≡ external_event c engine (handler transitions xs) d m
unfolding end_transition_map_hsm
end_transition_map_hsm-handler c engine state_map fuel transitions d m ch k l = rw (
  lt→ltb m.current_state (length transitions) k,
  resolve-handler state_map transitions fuel m ch k l,
)

-- States among which the parents go round, and that all propagate the event
pub record IsLoop {D U : Type 0} (state_map : List (StateMapRowHsm D U)) (transitions : List ℕ)
    (P : ℕ → Type 0) : Type 0 where
  pub propagates : (s : ℕ) → P s → get_elem? transitions s ≡ some propagate_to_parent
  pub parent :
      (s : ℕ)
      → P s
      → (row : StateMapRowHsm D U) × (get_elem? state_map s ≡ some row)
        × (row.parent_state < length transitions)
        × P row.parent_state

resolve_from-unfinished :
    {D U : Type 0} (state_map : List (StateMapRowHsm D U)) (transitions : List ℕ) (P : ℕ → Type 0)
    (fuel s : ℕ) (m : Machine D U)
    → IsLoop state_map transitions P
    → P s
    → resolve_from state_map transitions (length transitions) fuel s propagate_to_parent m
      ≡ unfinished
unfolding resolve_from
resolve_from-unfinished state_map transitions P zero s m loop p = refl
resolve_from-unfinished state_map transitions P (suc fuel) s m loop p =
    let (row, e, inside, p') = loop.parent s p in
    rw (e, lt→leb row.parent_state (length transitions) inside, loop.propagates row.parent_state p')
      (resolve_from-unfinished state_map transitions P fuel row.parent_state m loop p')

-- In such a state the loop of `END_TRANSITION_MAP_HSM`, which has no bound on its rounds, never
-- ends: no fuel is enough.
pub resolve-unfinished :
    {D U : Type 0} (state_map : List (StateMapRowHsm D U)) (transitions : List ℕ) (P : ℕ → Type 0)
    (fuel s : ℕ) (m : Machine D U)
    → IsLoop state_map transitions P
    → P s
    → resolve state_map transitions (length transitions) fuel s m ≡ unfinished
unfolding resolve
resolve-unfinished state_map transitions P fuel s m loop p =
    rw (loop.propagates s p) (resolve_from-unfinished state_map transitions P fuel s m loop p)
