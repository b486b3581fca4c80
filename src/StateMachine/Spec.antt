-- ===== src/StateMachine/Spec.antt =====
-- What a flat machine promises (README.md, "State engine"): a guard may veto; else the old state is
-- left and the new one entered, if they differ; the new state acts; observers are told; and the
-- event that it posts, if any, comes next. Here it is over states and objects alone, with no
-- flags, pointers and assertions.
use active_fsm.Base.{zero, suc, ℕ, Bool, true, Option, none, some, ◌==◌, if◌then◌else◌}
use active_fsm.StateMachine.Observed.{Signal, transition, entered, exited, Actions}

-- A state, the object, and the event that is to come.
pub record Config (D U : Type 0) : Type 0 where
  pub state : ℕ
  pub object : U
  pub event : Option (ℕ × Option D)

module _ {D U : Type 0} where
  abbrev pub guarded : Option (D → U → Bool × U) → D → U → Bool × U
  guarded none d u = (true, u)
  guarded (some g) d u = g d u

  abbrev pub entering : Option (D → U → U) → D → U → U
  entering none d u = u
  entering (some f) d u = f d u

abbrev pub exiting : {U : Type 0} → Option (U → U) → U → U
exiting none u = u
exiting (some f) u = f u

module _ {D U : Type 0} (rows : ℕ → Actions D U) (observe : Signal → U → U) where
  abbrev pub moved : ℕ → ℕ → D → U → U
  moved s t d u =
      if t == s
      then u
      else observe (entered t)
          (entering (rows t).entry d (observe (exited s) (exiting (rows s).exit u)))

  abbrev pub acted : ℕ → ℕ → D → U → Config D U
  acted s t d u =
      let (u', event) = (rows t).act (some d) (moved s t d u) in
      record { state = t; object = observe (transition s t) u'; event = event }

  -- One event: in state `s`, with target `t`.
  unfoldable pub respond : ℕ → ℕ → D → U → Config D U
  respond s t d u =
      let (passed, u') = guarded (rows t).guard d u in
      if passed then acted s t d u' else record { state = s; object = u'; event = none }

abbrev pub data_of : {D : Type 0} → D → Option D → D
data_of no_event_data none = no_event_data
data_of no_event_data (some d) = d

module _ {D U : Type 0} (no_event_data : D) (respond : ℕ → ℕ → D → U → Config D U) where
  -- Events until none is posted, with the target of the last; `none` if that takes more than `fuel`.
  -- `respond` is what one event comes to.
  unfoldable pub respond_all : ℕ → ℕ → Config D U → Option (ℕ × Config D U)
  respond_all zero n k = elim k.event [ none ↦ some (n, k) | some _ ↦ none ]
  respond_all (suc fuel) n k = elim k.event [
    | none ↦ some (n, k)
    | some (t, d) ↦ respond_all fuel t (respond k.state t (data_of no_event_data d) k.object)
  ]

-- A machine with a plain state map: the new state acts, and observers are told of the transition.
unfoldable pub respond_plain :
    {D U : Type 0}
    → (ℕ → Option D → U → U × Option (ℕ × Option D))
    → (Signal → U → U)
    → ℕ
    → ℕ
    → D
    → U
    → Config D U
respond_plain acts observe s t d u =
    let (u', event) = acts t (some d) u in
    record { state = t; object = observe (transition s t) u'; event = event }
