-- ===== src/Prelude/Results.antt =====
-- How a call of the modelled C++ code can end, and the two monads that chain such calls.
use mathlib.Core.Path.{◌≡◌, refl, ap, fun_ext}
use mathlib.Core.Option.{Option, none, some}

-- `done`: it returned. `faults`: it read or wrote memory that is not its own.
-- `throws`: a C++ exception left it. `out_of_fuel`: the fuel of a loop was used up.
pub data Outcome {ℓ} (A : Type ℓ) : Type ℓ where
  done : A → Outcome A
  faults throws out_of_fuel : Outcome A

infixl 5 ◌>>=◌
abbrev pub ◌>>=◌ {ℓ κ} : {A : Type ℓ} {B : Type κ} → Outcome A → (A → Outcome B) → Outcome B
done a >>= f = f a
faults >>= f = faults
throws >>= f = throws
out_of_fuel >>= f = out_of_fuel

-- `none` is a read or write out of bounds.
abbrev pub or_fault {ℓ} : {A : Type ℓ} → Option A → Outcome A
or_fault none = faults
or_fault (some a) = done a

pub >>=-eq-done {ℓ κ} :
    {A : Type ℓ} {B : Type κ} (m : Outcome A) (f : A → Outcome B) {b : B}
    → (m >>= f) ≡ done b
    → (a : A) × (m ≡ done a) × (f a ≡ done b)
>>=-eq-done (done a) f h = (a, refl, h)
>>=-eq-done faults f h = cc
>>=-eq-done throws f h = cc
>>=-eq-done out_of_fuel f h = cc

-- A postcondition: it holds of the value, where the call returns one.
abbrev pub Ensures {ℓ κ} : {A : Type ℓ} → (A → Type κ) → Outcome A → Type κ
Ensures P (done a) = P a
Ensures P faults = Unit
Ensures P throws = Unit
Ensures P out_of_fuel = Unit

pub Ensures-bind {ℓ κ μ ν} :
    {A : Type ℓ} {B : Type κ} (P : A → Type μ) (Q : B → Type ν) (m : Outcome A) (f : A → Outcome B)
    → Ensures P m
    → ((a : A) → P a → Ensures Q (f a))
    → Ensures Q (m >>= f)
Ensures-bind P Q (done a) f h k = k a h
Ensures-bind P Q faults f h k = tt
Ensures-bind P Q throws f h k = tt
Ensures-bind P Q out_of_fuel f h k = tt

pub Ensures-mono {ℓ κ μ} :
    {A : Type ℓ} (P : A → Type κ) (Q : A → Type μ) (m : Outcome A)
    → Ensures P m
    → ((a : A) → P a → Q a)
    → Ensures Q m
Ensures-mono P Q (done a) h k = k a h
Ensures-mono P Q faults h k = tt
Ensures-mono P Q throws h k = tt
Ensures-mono P Q out_of_fuel h k = tt

pub >>=_assoc {ℓ κ μ} :
    {A : Type ℓ} {B : Type κ} {C : Type μ} (m : Outcome A) (f : A → Outcome B) (g : B → Outcome C)
    → (m >>= f >>= g) ≡ (m >>= λ a. f a >>= g)
>>=_assoc (done a) f g = refl
>>=_assoc faults f g = refl
>>=_assoc throws f g = refl
>>=_assoc out_of_fuel f g = refl

pub >>=_ext {ℓ κ} :
    {A : Type ℓ} {B : Type κ} (m : Outcome A) (f g : A → Outcome B)
    → ((a : A) → f a ≡ g a)
    → (m >>= f) ≡ (m >>= g)
>>=_ext m f g h = ap (λ k. m >>= k) (fun_ext h)
