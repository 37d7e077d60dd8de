-- ===== src/Common/Outcome.antt =====
-- The ways in which a C++ call of this program ends, and their sequencing.
use mathlib.Core.Path.{◌≡◌, refl}

-- `undefined` is undefined behaviour: an access outside an array or through a dangling or null
-- pointer, a read of an indeterminate value, a `delete[]` of what `new[]` did not return.
-- `malformed_varint`, `buffer_overflow` and `length_error` are thrown exceptions.
-- `terminated` is a call of `std::terminate`, `blocked` a `join` of a thread that never ends, and
-- `system_error` the exception of a `join` of no thread.
-- `no_fuel` is no outcome of the program: a loop of the model used up its rounds.
pub data Error : Type 0 where
  undefined malformed_varint buffer_overflow length_error no_fuel : Error
  terminated blocked system_error : Error

pub data Result {ℓ} (A : Type ℓ) : Type ℓ where
  err : Error → Result A
  ok : A → Result A

infixl 5 ◌>>=◌
abbrev pub ◌>>=◌ {ℓ κ} : {A : Type ℓ} {B : Type κ} → Result A → (A → Result B) → Result B
err cause >>= next = err cause
ok value >>= next = next value

pub >>=-eq-ok {ℓ κ} :
    {A : Type ℓ} {B : Type κ} (call : Result A) (next : A → Result B) {b : B}
    → (call >>= next) ≡ ok b
    → (a : A) × (call ≡ ok a) × (next a ≡ ok b)
>>=-eq-ok (ok a) f h = (a, refl, h)
>>=-eq-ok (err e) f h = cc

pub >>=_assoc {ℓ κ μ} :
    {A : Type ℓ} {B : Type κ} {C : Type μ} (m : Result A) (f : A → Result B) (g : B → Result C)
    → (m >>= f >>= g) ≡ (m >>= λ a. f a >>= g)
>>=_assoc (ok a) f g = refl
>>=_assoc (err e) f g = refl

pub >>=_ok {ℓ} : {A : Type ℓ} (m : Result A) → (m >>= λ a. ok a) ≡ m
>>=_ok (ok a) = refl
>>=_ok (err e) = refl

pub ok_injective {ℓ} : {A : Type ℓ} {a b : A} → ok a ≡ ok b → a ≡ b
ok_injective h = cc
