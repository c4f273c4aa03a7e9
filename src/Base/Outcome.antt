-- ===== src/Base/Outcome.antt =====
-- How a call ends. `fault` is an access outside an object, which C leaves undefined; `blocked` is
-- a wait that no other task of the model ends.
use mathlib.Core.Path.{◌≡◌, refl, subst}

pub data Outcome {ℓ} (A : Type ℓ) : Type ℓ where
  done : A → Outcome A
  fault : Outcome A
  blocked : Outcome A

-- The C result of a call that returns 0 or -1.
pub data Status : Type 0 where
  ok err : Status

-- One call after another.
abbrev pub and_then {ℓ κ} : {A : Type ℓ} {B : Type κ} → Outcome A → (A → Outcome B) → Outcome B
and_then (done a) f = f a
and_then fault f = fault
and_then blocked f = blocked

-- A call on a state of type S.
abbrev pub Action : Type 0 → Type 0 → Type 0
Action S A = S → Outcome (A × S)

module _ {S : Type 0} where
  abbrev pub pure : {A : Type 0} → A → Action S A
  pure a s = done (a, s)

  abbrev pub modify : (S → S) → Action S (Unit {0})
  modify f s = done (tt, f s)

  infixl 5 ◌>>=◌ ◌>>◌
  abbrev pub ◌>>=◌ : {A B : Type 0} → Action S A → (A → Action S B) → Action S B
  ◌>>=◌ m f s = elim (m s) [ done (a, s') ↦ f a s' | fault ↦ fault | blocked ↦ blocked ]

  abbrev pub ◌>>◌ : {A B : Type 0} → Action S A → Action S B → Action S B
  m >> k = m >>= λ _. k

pub >>=-eq-done :
    {S A B : Type 0} (m : Action S A) (f : A → Action S B) (s : S) {a : A} {s' : S}
    → m s ≡ done (a, s')
    → (m >>= f) s ≡ f a s'
>>=-eq-done m f s h = rw (h, ◌>>=◌)

-- The result, if there is one, is good.
abbrev pub Ends {ℓ} : {A : Type ℓ} → (A → Type 0) → Outcome A → Type 0
Ends is_good (done a) = is_good a
Ends is_good fault = Unit
Ends is_good blocked = Unit

pub Ends-and_then {ℓ κ} :
    {A : Type ℓ} {B : Type κ} (is_good : B → Type 0) (o : Outcome A) (f : A → Outcome B)
    → ((a : A) → Ends is_good (f a))
    → Ends is_good (and_then o f)
Ends-and_then is_good (done a) f h = h a
Ends-and_then is_good fault f h = tt
Ends-and_then is_good blocked f h = tt

-- What is known of the first result carries over.
pub Ends-bind {ℓ κ} :
    {A : Type ℓ} {B : Type κ} (is_first : A → Type 0) (is_good : B → Type 0) (o : Outcome A)
    (f : A → Outcome B)
    → Ends is_first o
    → ((a : A) → is_first a → Ends is_good (f a))
    → Ends is_good (and_then o f)
Ends-bind is_first is_good (done a) f k h = h a k
Ends-bind is_first is_good fault f k h = tt
Ends-bind is_first is_good blocked f k h = tt

-- A call that never waits for ever: it returns a good result, or it faults, where that may be.
abbrev pub Returns {ℓ} : {A : Type ℓ} → Type 0 → (A → Type 0) → Outcome A → Type 0
Returns may_fault is_good (done a) = is_good a
Returns may_fault is_good fault = may_fault
Returns may_fault is_good blocked = ⊥

pub Returns-and_then {ℓ κ} :
    {A : Type ℓ} {B : Type κ} (may_fault : Type 0) (is_first : A → Type 0) (is_good : B → Type 0)
    (o : Outcome A) (f : A → Outcome B)
    → Returns may_fault is_first o
    → ((a : A) → is_first a → Returns may_fault is_good (f a))
    → Returns may_fault is_good (and_then o f)
Returns-and_then may_fault is_first is_good (done a) f k h = h a k
Returns-and_then may_fault is_first is_good fault f k h = k
Returns-and_then may_fault is_first is_good blocked f k h = k

pub Returns-bind :
    {S A B : Type 0} (may_fault : Type 0) (is_first : A × S → Type 0) (is_good : B → Type 0)
    (o : Outcome (A × S)) (f : A → S → Outcome B)
    → Returns may_fault is_first o
    → ((a : A) (s : S) → is_first (a, s) → Returns may_fault is_good (f a s))
    → Returns may_fault is_good (elim o [ done (a, s) ↦ f a s | fault ↦ fault | blocked ↦ blocked ])
Returns-bind may_fault is_first is_good (done (a, s)) f k h = h a s k
Returns-bind may_fault is_first is_good fault f k h = k
Returns-bind may_fault is_first is_good blocked f k h = k

-- A call that ends, in whatever way.
abbrev pub NeverWaits {ℓ} : {A : Type ℓ} → Outcome A → Type 0
NeverWaits o = Returns (Unit {0}) (λ a. Unit {0}) o

pub and_then-NeverWaits {ℓ κ} :
    {A : Type ℓ} {B : Type κ} (o : Outcome A) (f : A → Outcome B)
    → NeverWaits o
    → ((a : A) → NeverWaits (f a))
    → NeverWaits (and_then o f)
and_then-NeverWaits o f k h =
    Returns-and_then (Unit {0}) (λ a. Unit {0}) (λ b. Unit {0}) o f k (λ a t. h a)

pub Returns-not_blocked {ℓ} :
    {A : Type ℓ} (may_fault : Type 0) (is_good : A → Type 0) (o : Outcome A)
    → Returns may_fault is_good o
    → ¬ (o ≡ blocked)
Returns-not_blocked may_fault is_good o h e = subst (Returns may_fault is_good) e h

pub Returns-done {ℓ} :
    {A : Type ℓ} (is_good : A → Type 0) (o : Outcome A)
    → Returns ⊥ is_good o
    → (a : A) × (o ≡ done a) × is_good a
Returns-done is_good (done a) h = (a, refl, h)
Returns-done is_good fault h = absurd h
Returns-done is_good blocked h = absurd h
