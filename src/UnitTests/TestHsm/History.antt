-- ===== src/UnitTests/TestHsm/History.antt =====
-- `TestHSM` over any history of events: what its log says.
use active_fsm.Base.{ℕ, Bool, true, false, none, List, [], ◌∷◌, ◌++◌, ◌≡◌, refl, ap, ◌∙◌}
use active_fsm.Outcome.{M, done, and_then, for_each, ◌>>◌}
use active_fsm.StateMachine.Events.{is_on_state_machine_thread}
use active_fsm.StateMachine.Observed.{Signal, Threads}
use active_fsm.StateMachine.Object.{Object, modify_own, resting}
use active_fsm.UnitTests.{EventData}
use active_fsm.UnitTests.TestHsm.{
  Note, st_top_note, st_child1_note, st_child2_note, en_parent, ex_parent, en_child1, ex_child1,
  en_child2, TestHsm, st_top, st_child1, st_child2, HsmMachine, HsmCall, go_child1_call,
  go_child2_call, go_top_call, toggle_call, test_hsm, go_child1, go_child2, go_top, toggle,
}

-- The states that the machine rests in
pub data Phase : Type 0 where
  is_top is_child1 is_child2 : Phase

abbrev pub state_of : Phase → ℕ
state_of is_top = st_top
state_of is_child1 = st_child1
state_of is_child2 = st_child2

-- The next state and the notes, newest first, by whether the guard allows `ST_CHILD2`
abbrev pub answer : Phase → HsmCall → Bool → Phase × List Note
answer is_top go_child1_call g = (is_child1, st_child1_note ∷ en_child1 ∷ en_parent ∷ [])
answer is_top go_child2_call true = (is_child2, st_child2_note ∷ en_child2 ∷ en_parent ∷ [])
answer is_child1 go_child1_call g = (is_child1, st_child1_note ∷ [])
answer is_child1 go_child2_call true = (is_child2, st_child2_note ∷ en_child2 ∷ ex_child1 ∷ [])
answer is_child1 toggle_call true = (is_child2, st_child2_note ∷ en_child2 ∷ ex_child1 ∷ [])
answer is_child1 go_top_call g = (is_top, st_top_note ∷ ex_parent ∷ ex_child1 ∷ [])
answer is_child2 go_child1_call g = (is_child1, st_child1_note ∷ en_child1 ∷ [])
answer is_child2 toggle_call g = (is_child1, st_child1_note ∷ en_child1 ∷ [])
answer is_child2 go_child2_call true = (is_child2, st_child2_note ∷ [])
answer is_child2 go_top_call g = (is_top, st_top_note ∷ ex_parent ∷ [])
answer p _ _ = (p, [])

abbrev pub phase_after : Phase → List (HsmCall × Bool) → Phase
phase_after p [] = p
phase_after p ((r, g) ∷ rs) = phase_after (answer p r g).0 rs

-- Is the machine inside `ST_PARENT`, by the last entry or exit of it?
abbrev pub inside : List Note → Bool
inside [] = false
inside (en_parent ∷ ns) = true
inside (ex_parent ∷ ns) = false
inside (_ ∷ ns) = inside ns

-- The phase, by the last state function
abbrev pub last_phase : List Note → Phase
last_phase [] = is_top
last_phase (st_top_note ∷ ns) = is_top
last_phase (st_child1_note ∷ ns) = is_child1
last_phase (st_child2_note ∷ ns) = is_child2
last_phase (_ ∷ ns) = last_phase ns

abbrev pub is_inside : Phase → Bool
is_inside is_top = false
is_inside _ = true

abbrev pub IsLog : Phase → List Note → Type 0
IsLog p log = (inside log ≡ is_inside p) × (last_phase log ≡ p)

answer-IsLog :
    (p : Phase) (r : HsmCall) (g : Bool) (log : List Note)
    → IsLog p log
    → IsLog (answer p r g).0 ((answer p r g).1 ++ log)
answer-IsLog is_top go_child1_call g log h = (refl, refl)
answer-IsLog is_top go_child2_call true log h = (refl, refl)
answer-IsLog is_child1 go_child1_call g log h = (h.0, refl)
answer-IsLog is_child1 go_child2_call true log h = (h.0, refl)
answer-IsLog is_child1 toggle_call true log h = (h.0, refl)
answer-IsLog is_child1 go_top_call g log h = (refl, refl)
answer-IsLog is_child2 go_child1_call g log h = (h.0, refl)
answer-IsLog is_child2 toggle_call g log h = (h.0, refl)
answer-IsLog is_child2 go_child2_call true log h = (h.0, refl)
answer-IsLog is_child2 go_top_call g log h = (refl, refl)
answer-IsLog p _ _ log h = h

module _ {W : Type 0} (observe : Signal → W → W) (threads : Threads EventData (Object TestHsm W))
    (hand_over : HsmCall → ℕ → M (HsmMachine W) (Unit {0})) where
  abbrev pub request : HsmCall → M (HsmMachine W) (Unit {0})
  request go_child1_call = go_child1 observe threads hand_over
  request go_child2_call = go_child2 observe threads hand_over
  request go_top_call = go_top observe threads hand_over
  request toggle_call = toggle observe threads hand_over

  -- The guard is set, and the event sent.
  abbrev pub attempt : HsmCall × Bool → M (HsmMachine W) (Unit {0})
  attempt (r, g) = (modify_own λ o. record o { guard_allow = g }) >> request r

  abbrev pub IsAt : Phase → List Note → HsmMachine W → Type 0
  IsAt p log m =
      (n : ℕ) × (g : Bool) × (w : W) × (m
        ≡ resting n none (state_of p) (record { log = log; guard_allow = g }) w)

  attempt-IsAt :
      (p : Phase) (r : HsmCall) (g : Bool) (n : ℕ) (log : List Note) (b : Bool) (w : W)
      → (m' : HsmMachine W) × (attempt
            (r, g)
            (resting n none (state_of p) (record { log = log; guard_allow = b }) w)
          ≡ done tt m')
        × IsAt (answer p r g).0 ((answer p r g).1 ++ log) m'
  unfolding go_child1 go_child2 go_top toggle is_on_state_machine_thread
  attempt-IsAt is_top go_child1_call g n log b w = (_, refl, (_, _, _, refl))
  attempt-IsAt is_top go_child2_call true n log b w = (_, refl, (_, _, _, refl))
  attempt-IsAt is_top go_child2_call false n log b w = (_, refl, (_, _, _, refl))
  attempt-IsAt is_top go_top_call g n log b w = (_, refl, (_, _, _, refl))
  attempt-IsAt is_top toggle_call g n log b w = (_, refl, (_, _, _, refl))
  attempt-IsAt is_child1 go_child1_call g n log b w = (_, refl, (_, _, _, refl))
  attempt-IsAt is_child1 go_child2_call true n log b w = (_, refl, (_, _, _, refl))
  attempt-IsAt is_child1 go_child2_call false n log b w = (_, refl, (_, _, _, refl))
  attempt-IsAt is_child1 toggle_call true n log b w = (_, refl, (_, _, _, refl))
  attempt-IsAt is_child1 toggle_call false n log b w = (_, refl, (_, _, _, refl))
  attempt-IsAt is_child1 go_top_call g n log b w = (_, refl, (_, _, _, refl))
  attempt-IsAt is_child2 go_child1_call g n log b w = (_, refl, (_, _, _, refl))
  attempt-IsAt is_child2 toggle_call g n log b w = (_, refl, (_, _, _, refl))
  attempt-IsAt is_child2 go_child2_call true n log b w = (_, refl, (_, _, _, refl))
  attempt-IsAt is_child2 go_child2_call false n log b w = (_, refl, (_, _, _, refl))
  attempt-IsAt is_child2 go_top_call g n log b w = (_, refl, (_, _, _, refl))

  attempts-IsAt :
      (p : Phase) (log : List Note) (rs : List (HsmCall × Bool)) (m : HsmMachine W)
      → IsLog p log
      → IsAt p log m
      → (m' : HsmMachine W) × (log' : List Note) × (for_each attempt rs m ≡ done tt m')
        × IsAt (phase_after p rs) log' m'
        × IsLog (phase_after p rs) log'
  unfolding for_each
  attempts-IsAt p log [] m v h = (m, log, refl, h, v)
  attempts-IsAt p log ((r, g) ∷ rs) m v (n, b, w, e) =
      let (m₁, e₁, h₁) = attempt-IsAt p r g n log b w in
      let (m', log', e', h', v') =
        attempts-IsAt (answer p r g).0 ((answer p r g).1 ++ log) rs m₁ (answer-IsLog p r g log v)
          h₁ in
      (m', log', rw (ap (attempt (r, g)) e ∙ e₁) e', h', v')

  -- In synchronous mode any number of events on a new `TestHSM`, with the guard set before each, is
  -- done without an assertion and leaves it in the state that the table has. By the last entry or exit
  -- of `ST_PARENT` in the log, the machine is inside that state just if it is in one of its children,
  -- and the last state function in the log is that of its state.
  pub test_hsm-IsLog :
      (seen : W) (rs : List (HsmCall × Bool))
      → (m' : HsmMachine W) × (log' : List Note) × (and_then
            (test_hsm observe threads hand_over seen)
            (λ _. for_each attempt rs)
          ≡ done tt m')
        × IsAt (phase_after is_top rs) log' m'
        × IsLog (phase_after is_top rs) log'
  unfolding test_hsm
  test_hsm-IsLog seen rs = attempts-IsAt is_top [] rs _ (refl, refl) (0, true, seen, refl)
