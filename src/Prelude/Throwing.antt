-- ===== src/Prelude/Throwing.antt =====
-- A value or what was thrown. `Error` is the type of the exceptions of the component at hand.
use mathlib.Core.Path.{◌≡◌, refl}
use mathlib.Core.Bool.{Bool, true, false}
use mathlib.Core.Logic.{◌⊎◌, inl, inr}

pub data Result {ℓ} (Error : Type 0) (A : Type ℓ) : Type ℓ where
  err : Error → Result Error A
  ok : A → Result Error A

-- `if (bad) throw e;`
abbrev pub throw_if : {Error : Type 0} → Bool → Error → Result Error (Unit {0})
throw_if false e = ok tt
throw_if true e = err e

-- What follows in a block is skipped once something was thrown.
infixl 5 ◌>>=◌ ◌>>◌
abbrev pub ◌>>=◌ {ℓ κ} :
    {Error : Type 0} {A : Type ℓ} {B : Type κ}
    → Result Error A
    → (A → Result Error B)
    → Result Error B
◌>>=◌ (err e) next = err e
◌>>=◌ (ok a) next = next a

abbrev pub ◌>>◌ {ℓ} :
    {Error : Type 0} {B : Type ℓ} → Result Error (Unit {0}) → Result Error B → Result Error B
◌>>◌ first next = first >>= λ _. next

-- A chain that gave a value had one from its first part, and its rest gave the value from that.
pub >>=-eq-ok {ℓ κ} :
    {Error : Type 0} {A : Type ℓ} {B : Type κ} {result : B} (first : Result Error A)
    → (next : A → Result Error B) → (first >>= next) ≡ ok result
    → (x : A) × (first ≡ ok x) × (next x ≡ ok result)
>>=-eq-ok (err thrown) next gave = cc
>>=-eq-ok (ok x) next gave = (x, refl, gave)

pub throw_if-eq-ok :
    {Error : Type 0} (bad : Bool) (e : Error) {u : Unit {0}} → throw_if bad e ≡ ok u → bad ≡ false
throw_if-eq-ok true e h = cc
throw_if-eq-ok false e h = refl

pub Result-cases {ℓ} :
    {Error : Type 0} {A : Type ℓ} (m : Result Error A)
    → ((a : A) × (m ≡ ok a)) ⊎ ((e : Error) × (m ≡ err e))
Result-cases (ok a) = inl (a, refl)
Result-cases (err e) = inr (e, refl)
