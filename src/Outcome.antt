-- ===== src/Outcome.antt =====
-- What a call of the framework comes to. A fault ends the program (`FaultHandler` of
-- delegate-mq/extras/util/Fault.h does not return); it keeps the state in which it was raised.
use active_fsm.Base.{
  Bool, true, false, Option, none, some, List, [], ◌∷◌, ◌++◌, ◌≡◌, ◌≢◌, refl, sym, fun_ext,
  get_elem?, ℕ,
}

-- The assertions of the framework, and `undefined`: the program's behaviour is undefined
-- (a read past the end of a table, a cast to the wrong class, a null dereference).
pub data Fault : Type 0 where
  max_states_too_large : Fault
  cannot_happen_event : Fault
  no_state_map : Fault
  invalid_new_state : Fault
  invalid_current_state : Fault
  null_state : Fault
  null_event_data : Fault
  event_from_entry_or_exit : Fault
  hierarchy_too_deep : Fault
  test_failed : Fault
  undefined : Fault

-- `unfinished`: the fuel of a loop ran out.
pub data Outcome (S A : Type 0) : Type 0 where
  done : A → S → Outcome S A
  faulted : Fault → S → Outcome S A
  unfinished : Outcome S A

-- Code that reads and changes a state `S`, and may fault.
abbrev pub M : Type 0 → Type 0 → Type 0
M S A = S → Outcome S A

abbrev pub and_then : {S A B : Type 0} → Outcome S A → (A → M S B) → Outcome S B
and_then (done a s) f = f a s
and_then (faulted e s) f = faulted e s
and_then unfinished f = unfinished

infixl 5 ◌>>=◌ ◌>>◌
abbrev pub ◌>>=◌ : {S A B : Type 0} → M S A → (A → M S B) → M S B
◌>>=◌ m f s = and_then (m s) f

abbrev pub ◌>>◌ : {S B : Type 0} → M S (Unit {0}) → M S B → M S B
m >> k = m >>= λ _. k

abbrev pub pure : {S A : Type 0} → A → M S A
pure a s = done a s

abbrev pub get : {S : Type 0} → M S S
get s = done s s

abbrev pub modify : {S : Type 0} → (S → S) → M S (Unit {0})
modify f s = done tt (f s)

abbrev pub fault : {S A : Type 0} → Fault → M S A
fault e s = faulted e s

-- `DMQ_ASSERT_TRUE`
abbrev pub assert : {S : Type 0} → Bool → Fault → M S (Unit {0})
assert true e = pure tt
assert false e = fault e

abbrev pub or_fault : {S A : Type 0} → Option A → Fault → M S A
or_fault none e = fault e
or_fault (some a) e = pure a

-- `table[i]`: a read past the end is undefined.
abbrev pub read : {S A : Type 0} → List A → ℕ → M S A
read table i = or_fault (get_elem? table i) undefined

-- What code that reads constant tables comes to.
pub data Result (A : Type 0) : Type 0 where
  ok : A → Result A
  err : Fault → Result A

abbrev pub bind : {A B : Type 0} → Result A → (A → Result B) → Result B
bind (ok a) f = f a
bind (err e) f = err e

abbrev pub lift : {S A : Type 0} → Result A → M S A
lift (ok a) = pure a
lift (err e) = fault e

-- A call in turn on each item of a list.
unfoldable pub for_each : {S A : Type 0} → (A → M S (Unit {0})) → List A → M S (Unit {0})
for_each f [] = pure tt
for_each f (x ∷ xs) = f x >> for_each f xs

-- Sequencing is associative, at a state.
pub and_then_assoc :
    {S A B C : Type 0} (o : Outcome S A) (f : A → M S B) (g : B → M S C)
    → and_then (and_then o f) g ≡ and_then o (λ a s. and_then (f a s) g)
and_then_assoc (done a s) f g = refl
and_then_assoc (faulted e s) f g = refl
and_then_assoc unfinished f g = refl

pub and_then_cong :
    {S A B : Type 0} (o : Outcome S A) {f g : A → M S B}
    → ((a : A) (s : S) → f a s ≡ g a s)
    → and_then o f ≡ and_then o g
and_then_cong (done a s) h = h a s
and_then_cong (faulted e s) h = refl
and_then_cong unfinished h = refl

-- A list in two parts is run part by part.
pub for_each-append :
    {S A : Type 0} (f : A → M S (Unit {0})) (xs ys : List A) (s : S)
    → for_each f (xs ++ ys) s ≡ and_then (for_each f xs s) (λ _. for_each f ys)
unfolding for_each
for_each-append f [] ys s = refl
for_each-append f (x ∷ xs) ys s =
    rw (fun_ext (for_each-append f xs ys)) (sym (and_then_assoc (f x s) _ _))

-- A sequence that is done has a first part that is done, and a rest that is.
pub and_then-done :
    {S A B : Type 0} (o : Outcome S A) (f : A → M S B) {b : B} {t : S}
    → and_then o f ≡ done b t
    → (a : A) × (s : S) × (o ≡ done a s) × (f a s ≡ done b t)
and_then-done (done a s) f h = (a, s, refl, h)
and_then-done (faulted e s) f h = cc
and_then-done unfinished f h = cc

-- What runs into a fault does not come to a result.
pub and_then-fault :
    {S A B C : Type 0} (o : Outcome S A) (e : Fault) (f : B → M S C) {b : C} {t : S}
    → and_then (and_then o (λ _. fault e)) f ≢ done b t
and_then-fault (done a s) e f h = cc
and_then-fault (faulted _ s) e f h = cc
and_then-fault unfinished e f h = cc
