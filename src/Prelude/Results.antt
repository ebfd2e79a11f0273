-- ===== src/Prelude/Results.antt =====
-- What a Rust call comes to: a value, an error value, a panic, or fuel that did not suffice.
use mathlib.Core.Path.{◌≡◌, refl}
use mathlib.Core.Bool.{Bool, true, false}

-- `panic` is a failed index, slice, assertion or checked subtraction. `out_of_fuel` stands for a
-- loop that the model did not see end.
pub data Outcome {ℓ κ} (E : Type ℓ) (A : Type κ) : Type (ℓ ⊔ κ) where
  ok : A → Outcome E A
  err : E → Outcome E A
  panic : Outcome E A
  out_of_fuel : Outcome E A

module _ {ℓ} {E : Type ℓ} where
  infixl 5 ◌>>=◌ ◌>>◌
  abbrev pub ◌>>=◌ {κ ι} : {A : Type κ} {B : Type ι} → Outcome E A → (A → Outcome E B) → Outcome E B
  ok a >>= f = f a
  err e >>= f = err e
  panic >>= f = panic
  out_of_fuel >>= f = out_of_fuel

  abbrev pub ◌>>◌ {κ} : {B : Type κ} → Outcome E (Unit {0}) → Outcome E B → Outcome E B
  m >> k = m >>= λ _. k

  -- `ensure!(b, e)`
  abbrev pub ensure : Bool → E → Outcome E (Unit {0})
  ensure true e = ok tt
  ensure false e = err e

  -- `assert!(b)`
  abbrev pub assert : Bool → Outcome E (Unit {0})
  assert true = ok tt
  assert false = panic

  -- The call returns; `P` holds of its value, and `Q` of its error.
  abbrev pub Ends {κ} : {A : Type κ} → (E → Type 0) → (A → Type 0) → Outcome E A → Type 0
  Ends Q P (ok a) = P a
  Ends Q P (err e) = Q e
  Ends Q P panic = ⊥
  Ends Q P out_of_fuel = ⊥

  pub Ends-bind {κ ι} :
      {A : Type κ} {B : Type ι} (Q : E → Type 0) (P : A → Type 0) (R : B → Type 0) (m : Outcome E A)
      (f : A → Outcome E B)
      → Ends Q P m
      → ((a : A) → P a → Ends Q R (f a))
      → Ends Q R (m >>= f)
  Ends-bind Q P R (ok a) f h k = k a h
  Ends-bind Q P R (err e) f h k = h
  Ends-bind Q P R panic f h k = absurd h
  Ends-bind Q P R out_of_fuel f h k = absurd h

  -- What a sequence that succeeds ran through.
  pub >>=-eq-ok {κ ι} :
      {X : Type κ} {Y : Type ι} (first : Outcome E X) (next : X → Outcome E Y) {y : Y}
      → (first >>= next) ≡ ok y
      → (x : X) × (first ≡ ok x) × (next x ≡ ok y)
  >>=-eq-ok panic next h = cc
  >>=-eq-ok out_of_fuel next h = cc
  >>=-eq-ok (err e) next h = cc
  >>=-eq-ok (ok x) next h = (x, refl, h)

  -- The rest of a sequence behind a call that succeeds.
  pub >>=-ok {κ ι} :
      {A : Type κ} {B : Type ι} {m : Outcome E A} {a : A} (f : A → Outcome E B) {r : Outcome E B}
      → m ≡ ok a
      → f a ≡ r
      → (m >>= f) ≡ r
  >>=-ok f h k = rw h k

  -- What holds of a call that returns, and what is known of each value, at once.
  pub Ends-with {κ} :
      {A : Type κ} (Q : E → Type 0) (P R : A → Type 0) (m : Outcome E A)
      → Ends Q P m
      → ((a : A) → m ≡ ok a → R a)
      → Ends Q R m
  Ends-with Q P R (ok a) h k = k a refl
  Ends-with Q P R (err e) h k = h
  Ends-with Q P R panic h k = absurd h
  Ends-with Q P R out_of_fuel h k = absurd h

  pub Ends-mono {κ} :
      {A : Type κ} (Q : E → Type 0) (P R : A → Type 0) (m : Outcome E A)
      → Ends Q P m
      → ((a : A) → P a → R a)
      → Ends Q R m
  Ends-mono Q P R (ok a) h k = k a h
  Ends-mono Q P R (err e) h k = h
  Ends-mono Q P R panic h k = absurd h
  Ends-mono Q P R out_of_fuel h k = absurd h

  -- The call does not panic, and `P` holds of its value where it returns one. It may run on.
  abbrev pub Safe {κ} : {A : Type κ} → (A → Type 0) → Outcome E A → Type 0
  Safe P (ok a) = P a
  Safe P (err e) = Unit
  Safe P panic = ⊥
  Safe P out_of_fuel = Unit

  pub Safe-bind {κ ι} :
      {A : Type κ} {B : Type ι} (P : A → Type 0) (R : B → Type 0) (m : Outcome E A)
      (f : A → Outcome E B)
      → Safe P m
      → ((a : A) → P a → Safe R (f a))
      → Safe R (m >>= f)
  Safe-bind P R (ok a) f h k = k a h
  Safe-bind P R (err e) f h k = tt
  Safe-bind P R panic f h k = absurd h
  Safe-bind P R out_of_fuel f h k = tt

  pub Ends-Safe {κ} : {A : Type κ} (P : A → Type 0) (m : Outcome E A) → Ends (λ _. ⊥) P m → Safe P m
  Ends-Safe P (ok a) h = h
  Ends-Safe P (err e) h = tt
  Ends-Safe P panic h = h
  Ends-Safe P out_of_fuel h = tt

  pub Safe-mono {κ} :
      {A : Type κ} (P R : A → Type 0) (m : Outcome E A)
      → Safe P m
      → ((a : A) → P a → R a)
      → Safe R m
  Safe-mono P R (ok a) h k = k a h
  Safe-mono P R (err e) h k = tt
  Safe-mono P R panic h k = absurd h
  Safe-mono P R out_of_fuel h k = tt

  pub ensure-eq-ok : (b : Bool) (e : E) {u : Unit {0}} → ensure b e ≡ ok u → b ≡ true
  ensure-eq-ok true e h = refl
  ensure-eq-ok false e h = cc

  pub ensure-ok : {b : Bool} (e : E) → b ≡ true → ensure b e ≡ ok tt
  ensure-ok e h = rw h refl

module _ {ℓ κ} {E : Type ℓ} {F : Type κ} where
  -- `.map_err(f)`
  abbrev pub map_err {ι} : {A : Type ι} → (E → F) → Outcome E A → Outcome F A
  map_err f (ok a) = ok a
  map_err f (err e) = err (f e)
  map_err f panic = panic
  map_err f out_of_fuel = out_of_fuel

  pub Ends-map_err {ι} :
      {A : Type ι} (Q : E → Type 0) (R : F → Type 0) (P : A → Type 0) (f : E → F) (m : Outcome E A)
      → Ends Q P m
      → ((e : E) → Q e → R (f e))
      → Ends R P (map_err f m)
  Ends-map_err Q R P f (ok a) h k = h
  Ends-map_err Q R P f (err e) h k = k e h
  Ends-map_err Q R P f panic h k = absurd h
  Ends-map_err Q R P f out_of_fuel h k = absurd h

  pub Safe-map_err {ι} :
      {A : Type ι} (P : A → Type 0) (f : E → F) (m : Outcome E A) → Safe P m → Safe P (map_err f m)
  Safe-map_err P f (ok a) h = h
  Safe-map_err P f (err e) h = tt
  Safe-map_err P f panic h = absurd h
  Safe-map_err P f out_of_fuel h = tt
