-- ===== src/StateMachineHsm/Chain.antt =====
-- The chain of a state in the hierarchy of state-machine/StateMachineHSM.h: the state, its parent,
-- and so on to a top-level state. A state map in which a state is its own ancestor gives it none.
use active_fsm.Base.{
  ℕ, Bool, true, false, ◌||◌, ◌≤◌, ◌<◌, ◌≡◌, refl, sym, ap, ap₂, ◌∙◌, subst, ◌⊎◌, inl, inr, some,
  List, [], ◌∷◌, ◌==◌, length, get_elem?, arith,
}
use active_fsm.StateMachineHsm.{StateMapRowHsm}

-- Is `c` in the list?
abbrev pub elem : ℕ → List ℕ → Bool
elem c [] = false
elem c (x ∷ xs) = c == x || elem c xs

module _ {D U : Type 0} (max_states : ℕ) (state_map : List (StateMapRowHsm D U)) where
  pub data Chain : ℕ → List ℕ → Type 0 where
    top : {s : ℕ} → max_states ≤ s → Chain s []
    up :
        {s : ℕ} {row : StateMapRowHsm D U} {xs : List ℕ}
        → s < max_states
        → get_elem? state_map s ≡ some row
        → Chain row.parent_state xs
        → Chain s (s ∷ xs)

some_row :
    {D U : Type 0} (m : List (StateMapRowHsm D U)) (s t : ℕ) {r q : StateMapRowHsm D U}
    → s ≡ t
    → get_elem? m s ≡ some r
    → get_elem? m t ≡ some q
    → r.parent_state ≡ q.parent_state
some_row m s t e f g = parents (sym f ∙ ap (get_elem? m) e ∙ g)
  where
    parents :
        {D U : Type 0} {r q : StateMapRowHsm D U}
        → some r ≡ some q
        → r.parent_state ≡ q.parent_state
    parents h = ground arith

pub elem-cons : (c s : ℕ) (xs : List ℕ) → elem c (s ∷ xs) ≡ true → (c ≡ s) ⊎ (elem c xs ≡ true)
elem-cons c s xs h = ground arith

pub elem_self : (c s : ℕ) (xs : List ℕ) → c ≡ s → elem c (s ∷ xs) ≡ true
elem_self c s xs h = ground arith

pub elem-later : (c s : ℕ) (xs : List ℕ) → elem c xs ≡ true → elem c (s ∷ xs) ≡ true
elem-later c s xs h = ground arith

module _ {D U : Type 0} {max_states : ℕ} {state_map : List (StateMapRowHsm D U)} where
  -- A state has at most one chain.
  pub Chain-unique :
      {s t : ℕ} {xs ys : List ℕ}
      → Chain max_states state_map s xs
      → Chain max_states state_map t ys
      → s ≡ t
      → xs ≡ ys
  Chain-unique (top h) (top k) e = refl
  Chain-unique (top h) (up k r c) e = absurd (omega arith)
  Chain-unique (up h r c) (top k) e = absurd (omega arith)
  Chain-unique (up {s = s} h r c) (up {s = t} k q d) e =
      ap₂ ◌∷◌ e (Chain-unique c d (some_row state_map s t e r q))

  -- The chain of an ancestor is a part of the chain: what is in it is in the whole.
  pub elem-Chain :
      {s t : ℕ} {xs zs : List ℕ} (c : ℕ)
      → Chain max_states state_map s xs
      → elem t xs ≡ true
      → Chain max_states state_map t zs
      → elem c zs ≡ true
      → elem c xs ≡ true
  elem-Chain c (top h) m d n = cc
  elem-Chain {t = t} c (up {s = s} {xs = xs} h r ch) m d n = elim (elem-cons t s xs m) [
    | inl e ↦ subst (λ l. elem c l ≡ true) (Chain-unique d (up h r ch) e) n
    | inr e ↦ elem-later c s xs (elem-Chain c ch e d n)
  ]

  -- It is shorter, if the ancestor is another state.
  pub length-Chain :
      {s t : ℕ} {xs zs : List ℕ}
      → Chain max_states state_map s xs
      → elem t xs ≡ true
      → Chain max_states state_map t zs
      → (t ≡ s) ⊎ (length zs < length xs)
  length-Chain (top h) m d = cc
  length-Chain {t = t} {zs = zs} (up {s = s} {row = row} {xs = xs} h r ch) m d =
      elim (elem-cons t s xs m) [ inl e ↦ inl e | inr e ↦ inr (shorter (length-Chain ch e d)) ]
    where
      shorter : (t ≡ row.parent_state) ⊎ (length zs < length xs) → length zs < length (s ∷ xs)
      shorter (inl e) = omega (arith, ap length (Chain-unique d ch e))
      shorter (inr l) = omega arith
