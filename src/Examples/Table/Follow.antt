-- ===== src/Examples/Table/Follow.antt =====
-- A class of examples/ that follows a table: any number of its events, one after the other.
use active_fsm.Base.{ℕ, Option, none, List, [], ◌∷◌, ◌≡◌, refl, ap, ◌∙◌}
use active_fsm.Outcome.{M, done, for_each}
use active_fsm.StateMachine.{Machine}
use active_fsm.StateMachine.Observed.{Signal}
use active_fsm.StateMachine.Object.{Object}
use active_fsm.Examples.Table.{Row, phase_after, own_after, answered, IsResting, answered-IsResting}

module _ {P R O : Type 0} (answer : P → R → O → Option (Row P O)) where
  -- Where the table leads from a phase and members
  unfoldable pub led_to : P → O → List R → P × O
  led_to p o [] = (p, o)
  led_to p o (r ∷ rs) = led_to (phase_after p (answer p r o)) (own_after o (answer p r o)) rs

  -- What each row keeps is kept.
  pub led_to-keeps :
      (Holds : P → O → Type 0)
      → ((p : P) (r : R) (o : O)
          → Holds p o
          → Holds (phase_after p (answer p r o)) (own_after o (answer p r o)))
      → (p : P) (o : O) (rs : List R) → Holds p o
      → Holds (led_to p o rs).0 (led_to p o rs).1
  unfolding led_to
  led_to-keeps Holds keeps p o [] h = h
  led_to-keeps Holds keeps p o (r ∷ rs) h =
      led_to-keeps Holds keeps (phase_after p (answer p r o)) (own_after o (answer p r o)) rs
        (keeps p r o h)

  module _ {D W : Type 0} (observe : Signal → W → W) (state_of : P → ℕ) (thread : Option ℕ)
      (request : R → M (Machine D (Object O W)) (Unit {0})) where
    -- In each phase each event does what the table has.
    abbrev pub Follows : Type 0
    Follows =
        (n : ℕ) (p : P) (r : R) (o : O) (w : W)
        → request r (answered observe state_of n thread p o w none)
          ≡ done tt (answered observe state_of n thread p o w (answer p r o))

    -- Then any number of events is done, and leads where the table does.
    pub requests-led_to :
        Follows
        → (p : P) (o : O) (rs : List R) (m : Machine D (Object O W))
        → IsResting observe state_of thread p o m
        → (m' : Machine D (Object O W)) × (for_each request rs m ≡ done tt m')
          × IsResting observe state_of thread (led_to p o rs).0 (led_to p o rs).1 m'
    unfolding for_each led_to
    requests-led_to follows p o [] m h = (m, refl, h)
    requests-led_to follows p o (r ∷ rs) m (n, w, e) =
        let e₁ = ap (request r) e ∙ follows n p r o w in
        let (m', e', h') =
          requests-led_to follows (phase_after p (answer p r o)) (own_after o (answer p r o)) rs _
            (answered-IsResting observe state_of n thread p o w (answer p r o)) in
        (m', rw e₁ e', h')
