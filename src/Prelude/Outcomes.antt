-- ===== src/Prelude/Outcomes.antt =====
-- The outcome of a run of C++ code.
use mathlib.Core.Path.{◌≡◌, refl}

-- `die` is `Die` after a failed CHECK. `undefined` is undefined behaviour, such as a read of an
-- indeterminate pointer. `spent` says that the fuel of a loop ran out.
pub data Outcome {ℓ} (A : Type ℓ) : Type ℓ where
  ok : A → Outcome A
  die : Outcome A
  undefined : Outcome A
  spent : Outcome A

abbrev pub then_do {ℓ κ} : {A : Type ℓ} {B : Type κ} → Outcome A → (A → Outcome B) → Outcome B
then_do (ok a) f = f a
then_do die f = die
then_do undefined f = undefined
then_do spent f = spent

pub then_do-eq-ok {ℓ κ} :
    {A : Type ℓ} {B : Type κ} (m : Outcome A) (f : A → Outcome B) {b : B}
    → then_do m f ≡ ok b
    → (a : A) × (m ≡ ok a) × (f a ≡ ok b)
then_do-eq-ok (ok a) f h = (a, refl, h)
then_do-eq-ok die f h = cc
then_do-eq-ok undefined f h = cc
then_do-eq-ok spent f h = cc
