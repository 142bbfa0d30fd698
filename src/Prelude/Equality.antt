-- ===== src/Prelude/Equality.antt =====
-- Equality tests as an interface, with instances for numbers, texts and optional values.
use Prim.Native.Nat.{ℕ}
use Prim.Native.String.{String}
use mathlib.Core.Path.{◌≡◌, refl, ap}
use mathlib.Core.Logic.{◌↔◌}
use mathlib.Core.Bool.{Bool, true, false}
use mathlib.Core.Option.{Option, none, some}
use text.Mathlib.Text.{◌==◌ as str_eq}
use text.Mathlib.TextEquality.{eq_iff}
use vibefy.Prelude.Tests.{nat_beq, nat_beq_iff}

-- What `===` answers on the values of a type, and that it answers right.
pub record Eq {ℓ} (A : Type ℓ) : Type ℓ where
  pub same : A → A → Bool
  pub test_iff : (x y : A) → (same x y ≡ true) ↔ (x ≡ y)

infix 50 ◌==◌
abbrev pub ◌==◌ {ℓ} : {A : Type ℓ} ⦃e : Eq A⦄ → A → A → Bool
◌==◌ ⦃e⦄ x y = e.same x y

-- A test in an enumeration, by the position of each constructor.
abbrev pub enum_eq {ℓ} : {A : Type ℓ} (rank : A → ℕ) → ((a b : A) → rank a ≡ rank b → a ≡ b) → Eq A
enum_eq rank injective = record {
  same = λ a b. nat_beq (rank a) (rank b);
  test_iff = λ a b. (
    λ h. injective a b ((nat_beq_iff (rank a) (rank b)).0 h),
    λ h. (nat_beq_iff (rank a) (rank b)).1 (ap rank h),
  );
}

-- Texts and numbers are compared by what they are.
instance abbrev pub text_eq : Eq String
text_eq = record { same = str_eq; test_iff = eq_iff }

instance abbrev pub number_eq : Eq ℕ
number_eq = record { same = nat_beq; test_iff = nat_beq_iff }

module _ {ℓ} {A : Type ℓ} ⦃e : Eq A⦄ where
  pub eq_refl : (a : A) → (a == a) ≡ true
  eq_refl a = (e.test_iff a a).1 refl

  -- The constructor `some` compared with a plain value; `undefined` equals no value.
  abbrev pub is_some_of : Option A → A → Bool
  is_some_of none a = false
  is_some_of (some b) a = b == a

  -- The test as a fact that `ground` can use in both directions.
  pub eq_sound : (a b : A) → (a == b) ≡ true → a ≡ b
  eq_sound a b h = (e.test_iff a b).0 h
