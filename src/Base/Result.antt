-- ===== src/Base/Result.antt =====
-- What a Python call does: it returns, or it raises one of the built-in exceptions.
use mathlib.Core.Path.{◌≡◌, refl, ap}

pub data Exc : Type 0 where
  key_error type_error value_error overflow_error attribute_error index_error : Exc
  runtime_error lookup_error not_implemented : Exc

pub data Result (A : Type 0) : Type 0 where
  ok : A → Result A
  err : Exc → Result A

module _ {A B : Type 0} where
  infixl 5 ◌>>=◌
  abbrev pub ◌>>=◌ : Result A → (A → Result B) → Result B
  ◌>>=◌ (err raised) next = err raised
  ◌>>=◌ (ok value) next = next value

  -- A chain that returned: what its first call returned, and the rest from there.
  pub >>=-eq-ok :
      (call : Result A) (next : A → Result B) {b : B}
      → (call >>= next) ≡ ok b
      → (value : A) × (call ≡ ok value) × (next value ≡ ok b)
  >>=-eq-ok (err raised) next returned = cc
  >>=-eq-ok (ok value) next returned = (value, refl, returned)

-- The first two calls of a chain whose result is known.
pub >>=-step :
    {A B C : Type 0} (m : Result A) (f : A → Result B) (g : B → Result C) {b : B}
    → (m >>= f) ≡ ok b
    → (m >>= λ a. f a >>= g) ≡ g b
>>=-step {B} (ok a) f g h = ap (λ (r : Result B). r >>= g) h
>>=-step (err e) f g h = cc
