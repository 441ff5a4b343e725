-- ===== src/Base/Text.antt =====
-- Texts as the numbers of their characters, which are their bytes where they are ASCII.
use Prim.Native.Char.{code}
use Prim.Native.String.{String}
use Prim.Native.Nat.{ℕ}
use mathlib.Core.List.{List, [], ◌∷◌}
use mathlib.Core.Bool.{Bool, true, false, ◌&&◌}
use mathlib.Core.Path.{◌≡◌, refl}
use mathlib.Core.Logic.{◌↔◌}
use native.Mathlib.Omega.{arith}
use valve_infra.Base.Tests.{◌==◌, ltb, if◌then◌else◌}

abbrev pub codes : String → List ℕ
codes String.[] = []
codes (String.◌∷◌ c s) = code c ∷ codes s

-- Equality of two texts.
infix 50 ◌=b◌
abbrev pub ◌=b◌ : List ℕ → List ℕ → Bool
[] =b [] = true
[] =b (d ∷ t) = false
(c ∷ s) =b [] = false
(c ∷ s) =b (d ∷ t) = (c == d) && s =b t

pub =b_iff : (s t : List ℕ) → ((s =b t) ≡ true) ↔ (s ≡ t)
=b_iff [] [] = ground arith
=b_iff [] (d ∷ t) = ground arith
=b_iff (c ∷ s) [] = ground arith
=b_iff (c ∷ s) (d ∷ t) = ground (arith, =b_iff s t)

-- The order of texts.
abbrev pub precedes : List ℕ → List ℕ → Bool
precedes s [] = false
precedes [] (d ∷ t) = true
precedes (c ∷ s) (d ∷ t) =
    let rest = precedes s t in if ltb c d then true else if c == d then rest else false

pub precedes_irrefl : (s : List ℕ) → precedes s s ≡ false
precedes_irrefl [] = refl
precedes_irrefl (c ∷ s) = ground (arith, precedes_irrefl s)
