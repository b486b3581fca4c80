-- ===== src/UnitTests/TestSm.antt =====
-- `TestSM` of unit-tests/StateMachineTests.cpp: two states, a guard, an entry and an exit function. Its
-- counts are of type `int`, and start at 0.
use active_fsm.Base.{
  ℕ, suc, Bool, true, false, none, some, List, [], ◌∷◌, ◌⊎◌, inl, inr, zero, ◌≡◌, refl, ap, ◌∙◌,
}
use active_fsm.Outcome.{M, Outcome, done, and_then, for_each, ◌>>=◌, ◌>>◌, pure, get}
use active_fsm.StateMachine.{
  Machine, StateFunction, GuardFunction, EntryFunction, ExitFunction, StateMapRowEx, Context,
}
use active_fsm.StateMachine.Engine.{
  state_engine, run_events, turn_ex, take_transition, change_state, invoke_state_action,
  invoke_guard_condition, invoke_entry_action, invoke_exit_action,
}
use active_fsm.StateMachine.Events.{
  construct, internal_event, begin_transition_map, end_transition_map, external_event,
  external_event_impl, is_on_state_machine_thread,
}
use active_fsm.StateMachine.Observed.{Signal, Threads, transition, entered, exited}
use active_fsm.StateMachine.Object.{Object, modify_own, context, resting}
use active_fsm.UnitTests.{EventData, no_event_data}

pub record TestSm : Type 0 where
  pub guard_allow : Bool
  pub action_a_count : ℕ
  pub action_b_count : ℕ
  pub entry_b_count : ℕ
  pub exit_a_count : ℕ

abbrev pub st_a : ℕ
st_a = 0

abbrev pub st_b : ℕ
st_b = 1

abbrev st_max_states : ℕ
st_max_states = 2

-- No function posts an event.
abbrev fuel : ℕ
fuel = 1

abbrev pub SmMachine : Type 0 → Type 0
SmMachine W = Machine EventData (Object TestSm W)

abbrev new_sm : TestSm
new_sm = record {
  guard_allow = true;
  action_a_count = 0;
  action_b_count = 0;
  entry_b_count = 0;
  exit_a_count = 0;
}

module _ {W : Type 0} where
  state_a : StateFunction EventData (Object TestSm W)
  state_a d = modify_own λ o. record o { action_a_count = suc o.action_a_count }

  state_b : StateFunction EventData (Object TestSm W)
  state_b d = modify_own λ o. record o { action_b_count = suc o.action_b_count }

  entry_b : EntryFunction EventData (Object TestSm W)
  entry_b d = modify_own λ o. record o { entry_b_count = suc o.entry_b_count }

  exit_a : ExitFunction EventData (Object TestSm W)
  exit_a = modify_own λ o. record o { exit_a_count = suc o.exit_a_count }

  guard : GuardFunction EventData (Object TestSm W)
  guard d = do m ← get; pure m.object.own.guard_allow

  abbrev state_map : List (StateMapRowEx EventData (Object TestSm W))
  state_map =
      record { state = some state_a; guard = none; entry = none; exit = some exit_a }
      ∷ record { state = some state_b; guard = some guard; entry = some entry_b; exit = none }
      ∷ []

module _ {W : Type 0} (observe : Signal → W → W) (threads : Threads EventData (Object TestSm W))
    (hand_over : ℕ → M (SmMachine W) (Unit {0})) where
  abbrev sm_context : Context EventData (Object TestSm W)
  sm_context = context st_max_states no_event_data observe threads

  sm_engine : M (SmMachine W) (Unit {0})
  unfolding state_engine run_events turn_ex take_transition change_state invoke_state_action
      invoke_guard_condition invoke_entry_action invoke_exit_action state_a state_b entry_b exit_a
      guard internal_event
  sm_engine = state_engine sm_context none (some state_map) fuel

  unfoldable pub test_sm : W → Outcome (SmMachine W) (Unit {0})
  unfolding construct
  test_sm seen = construct sm_context st_a (record { own = new_sm; seen = seen })

  unfoldable pub go_b : M (SmMachine W) (Unit {0})
  unfolding sm_engine begin_transition_map end_transition_map external_event external_event_impl
  go_b =
      begin_transition_map sm_context hand_over
        (end_transition_map sm_context sm_engine (st_b ∷ st_b ∷ []) st_max_states none)

  go_b-vetoed :
      (n s : ℕ) (o : TestSm) (w : W)
      → (s ≡ st_a) ⊎ (s ≡ st_b)
      → o.guard_allow ≡ false
      → go_b (resting n none s o w) ≡ done tt (resting st_b none s o w)
  unfolding go_b is_on_state_machine_thread
  go_b-vetoed n s o w (inl e) h = rw (e, h)
  go_b-vetoed n s o w (inr e) h = rw (e, h)

  -- Exit and entry functions run only on the way from `ST_A` to `ST_B`.
  go_b-changes :
      (n : ℕ) (o : TestSm) (w : W)
      → o.guard_allow ≡ true
      → go_b (resting n none st_a o w)
        ≡ done tt (
            resting st_b none st_b
              (record o {
                action_b_count = suc o.action_b_count;
                entry_b_count = suc o.entry_b_count;
                exit_a_count = suc o.exit_a_count;
              })
              (observe (transition st_a st_b) (observe (entered st_b) (observe (exited st_a) w))))
  unfolding go_b is_on_state_machine_thread
  go_b-changes n o w h = rw h

  go_b-stays :
      (n : ℕ) (o : TestSm) (w : W)
      → o.guard_allow ≡ true
      → go_b (resting n none st_b o w)
        ≡ done tt (
            resting st_b none st_b
              (record o { action_b_count = suc o.action_b_count })
              (observe (transition st_b st_b) w))
  unfolding go_b is_on_state_machine_thread
  go_b-stays n o w h = rw h

  -- The guard is set, and the event sent.
  abbrev pub attempt : Bool → M (SmMachine W) (Unit {0})
  attempt allow = (modify_own λ o. record o { guard_allow = allow }) >> go_b

-- How often the guard has passed, after one attempt and after several
abbrev pub counted : Bool → ℕ → ℕ
counted true k = suc k
counted false k = k

abbrev pub passes : ℕ → List Bool → ℕ
passes k [] = k
passes k (b ∷ bs) = passes (counted b k) bs

-- What holds after attempts of which so many passed
abbrev pub IsAfter : {W : Type 0} → ℕ → SmMachine W → Type 0
IsAfter {W} zero m =
    (n : ℕ) × (w : W) × (allow : Bool) × (m
      ≡ resting n none st_a (record new_sm { guard_allow = allow }) w)
IsAfter {W} (suc k) m =
    (n : ℕ) × (w : W) × (allow : Bool) × (m
      ≡ resting n none st_b
          (record {
            guard_allow = allow;
            action_a_count = 0;
            action_b_count = suc k;
            entry_b_count = 1;
            exit_a_count = 1;
          })
          w)

module _ {W : Type 0} (observe : Signal → W → W) (threads : Threads EventData (Object TestSm W))
    (hand_over : ℕ → M (SmMachine W) (Unit {0})) where
  attempt-IsAfter :
      (allow : Bool) (k : ℕ) (m : SmMachine W)
      → IsAfter k m
      → (m' : SmMachine W) × (attempt observe threads hand_over allow m ≡ done tt m')
        × IsAfter (counted allow k) m'
  attempt-IsAfter false zero m (n, w, b, e) = (
    _,
    ap (attempt observe threads hand_over false) e
        ∙ go_b-vetoed observe threads hand_over n st_a (record new_sm { guard_allow = false }) w
            (inl refl) refl,
    (_, _, _, refl),
  )
  attempt-IsAfter false (suc k) m (n, w, b, e) = (
    _,
    ap (attempt observe threads hand_over false) e
        ∙ go_b-vetoed observe threads hand_over n st_b _ w (inr refl) refl,
    (_, _, _, refl),
  )
  attempt-IsAfter true zero m (n, w, b, e) = (
    _,
    ap (attempt observe threads hand_over true) e
        ∙ go_b-changes observe threads hand_over n (record new_sm { guard_allow = true }) w refl,
    (_, _, _, refl),
  )
  attempt-IsAfter true (suc k) m (n, w, b, e) = (
    _,
    ap (attempt observe threads hand_over true) e ∙ go_b-stays observe threads hand_over n _ w refl,
    (_, _, _, refl),
  )

  attempts-IsAfter :
      (k : ℕ) (bs : List Bool) (m : SmMachine W)
      → IsAfter k m
      → (m' : SmMachine W) × (for_each (attempt observe threads hand_over) bs m ≡ done tt m')
        × IsAfter (passes k bs) m'
  unfolding for_each
  attempts-IsAfter k [] m h = (m, refl, h)
  attempts-IsAfter k (b ∷ bs) m h =
      let (m₁, e, h₁) = attempt-IsAfter b k m h in
      let (m', e', h') = attempts-IsAfter (counted b k) bs m₁ h₁ in (m', rw e e', h')

  -- In synchronous mode any number of `GoB` on a new `TestSM`, with the guard set before each, is done.
  -- If the guard never passed the machine is in `ST_A` and no function has run; else it is in `ST_B`,
  -- its state function has run as often as the guard passed, and entry and exit functions just once.
  pub test_sm-IsAfter :
      (seen : W) (bs : List Bool)
      → (m' : SmMachine W) × (and_then
            (test_sm observe threads hand_over seen)
            (λ _. for_each (attempt observe threads hand_over) bs)
          ≡ done tt m')
        × IsAfter (passes 0 bs) m'
  unfolding test_sm
  test_sm-IsAfter seen bs = attempts-IsAfter 0 bs _ (0, seen, true, refl)
