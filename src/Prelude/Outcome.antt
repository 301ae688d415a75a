-- ===== src/Prelude/Outcome.antt =====
-- Outcomes: of a call that may return an error pointer, and of a routine that may leave the bounds
-- of an array, wait for a lock that nobody gives back, or stop the kernel.
use Prim.Native.Nat.{ℕ}
use mathlib.Core.Path.{◌≡◌, refl}

-- A pointer, or `ERR_PTR(-e)`.
pub data Result {ℓ} (A : Type ℓ) : Type ℓ where
  value : A → Result A
  error : ℕ → Result A

-- `out_of_bounds`: an array is indexed outside its bounds, or an error pointer is followed.
-- `blocked`: the caller waits for a lock that is held. `bug`: the kernel stops by `BUG()`.
-- `out_of_fuel`: a loop of the model has used up its rounds.
pub data Run {ℓ} (A : Type ℓ) : Type ℓ where
  done : A → Run A
  out_of_bounds : Run A
  blocked : Run A
  bug : Run A
  out_of_fuel : Run A

infixl 5 ◌>>=◌
abbrev pub ◌>>=◌ {ℓ κ} : {A : Type ℓ} {B : Type κ} → Run A → (A → Run B) → Run B
done a >>= f = f a
out_of_bounds >>= f = out_of_bounds
blocked >>= f = blocked
bug >>= f = bug
out_of_fuel >>= f = out_of_fuel

-- The run ends with a value that satisfies `P`.
abbrev pub Returns {ℓ} : {A : Type ℓ} → (A → Type 0) → Run A → Type 0
Returns P (done a) = P a
Returns P out_of_bounds = ⊥
Returns P blocked = ⊥
Returns P bug = ⊥
Returns P out_of_fuel = ⊥

pub Returns-mono {ℓ} :
    {A : Type ℓ} {P Q : A → Type 0} (r : Run A) → Returns P r → ((a : A) → P a → Q a) → Returns Q r
Returns-mono (done a) h weaken = weaken a h
Returns-mono out_of_bounds h weaken = h
Returns-mono blocked h weaken = h
Returns-mono bug h weaken = h
Returns-mono out_of_fuel h weaken = h

pub Returns-bind {ℓ κ} :
    {A : Type ℓ} {B : Type κ} {P : A → Type 0} (Q : B → Type 0) (r : Run A) (f : A → Run B)
    → Returns P r
    → ((a : A) → P a → Returns Q (f a))
    → Returns Q (r >>= f)
Returns-bind Q (done a) f h next = next a h
Returns-bind Q out_of_bounds f h next = h
Returns-bind Q blocked f h next = h
Returns-bind Q bug f h next = h
Returns-bind Q out_of_fuel f h next = h

pub Returns-both {ℓ} :
    {A : Type ℓ} (P Q : A → Type 0) (r : Run A)
    → Returns P r
    → Returns Q r
    → Returns (λ a. P a × Q a) r
Returns-both P Q (done a) p q = (p, q)
Returns-both P Q out_of_bounds p q = p
Returns-both P Q blocked p q = p
Returns-both P Q bug p q = p
Returns-both P Q out_of_fuel p q = p

-- The value of a run that ends.
abbrev pub returned {ℓ} : {A : Type ℓ} (P : A → Type 0) (r : Run A) → Returns P r → A
returned P (done a) h = a
returned P out_of_bounds h = absurd h
returned P blocked h = absurd h
returned P bug h = absurd h
returned P out_of_fuel h = absurd h

pub returned-holds {ℓ} :
    {A : Type ℓ} (P : A → Type 0) (r : Run A) (h : Returns P r) → P (returned P r h)
returned-holds P (done a) h = h
returned-holds P out_of_bounds h = absurd h
returned-holds P blocked h = absurd h
returned-holds P bug h = absurd h
returned-holds P out_of_fuel h = absurd h

-- A run that returns is `done`.
pub Returns-done {ℓ} :
    {A : Type ℓ} (P : A → Type 0) (r : Run A) → Returns P r → (a : A) × (r ≡ done a) × P a
Returns-done P (done a) h = (a, refl, h)
Returns-done P out_of_bounds h = absurd h
Returns-done P blocked h = absurd h
Returns-done P bug h = absurd h
Returns-done P out_of_fuel h = absurd h
