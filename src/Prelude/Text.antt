-- ===== src/Prelude/Text.antt =====
-- Text as the list of its code points, for the code that looks inside it.
use Prim.Native.Nat.{ℕ}
use Prim.Native.Char.{code}
use Prim.Native.String.{String}
use mathlib.Core.Path.{◌≡◌, refl}
use mathlib.Core.Bool.{Bool, true, false, ◌&&◌}
use mathlib.Core.Logic.{◌↔◌}
use mathlib.Core.Option.{Option, none, some}
use mathlib.Core.List.{List, [], ◌∷◌, ◌++◌}
use native.Mathlib.Omega.{arith}
use vibefy.Prelude.Tests.{if◌then◌else◌, nat_beq}
use vibefy.Prelude.Equality.{Eq}

abbrev pub Text : Type 0
Text = List ℕ

abbrev pub codes : String → Text
codes String.[] = []
codes (String.◌∷◌ c s) = code c ∷ codes s

-- What follows a text that must stand in front.
unfoldable pub expect : Text → Text → Option Text
expect [] s = some s
expect (c ∷ cs) [] = none
expect (c ∷ cs) (d ∷ s) = let rest = expect cs s in if nat_beq c d then rest else none

pub expect-append : (p s : Text) → expect p (p ++ s) ≡ some s
unfolding expect
expect-append [] s = refl
expect-append (c ∷ cs) s = ground (arith, expect-append cs s)

unfoldable pub same_text : Text → Text → Bool
same_text [] [] = true
same_text (c ∷ s) (d ∷ t) = nat_beq c d && same_text s t
same_text _ _ = false

pub same_text_iff : (s t : Text) → (same_text s t ≡ true) ↔ (s ≡ t)
unfolding same_text
same_text_iff (c ∷ s) (d ∷ t) = ground (arith, same_text_iff s t)
same_text_iff _ _ = ground arith

instance abbrev pub codes_eq : Eq Text
codes_eq = record { same = same_text; test_iff = same_text_iff }
