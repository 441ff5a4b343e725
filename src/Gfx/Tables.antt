-- ===== src/Gfx/Tables.antt =====
-- The tables of amdgpu.py belong together.
use text.Mathlib.TextEquality.{eq_iff}
use valve_infra.Base.{
  String, Bool, true, false, ◌&&◌, not, ◌≡◌, refl, Option, none, some, [], ◌∷◌, arith, is_some,
  Bool-cases, inl, inr, get_or,
}
use valve_infra.Base.Dict.{Dict, lookup, has, lookup-has}
use valve_infra.Gfx.{
  codename, codenames, family, families, architecture, architectures, versions, gfx_version,
  version_of,
}

-- Whether all keys of one dictionary are keys of the other, and whether all its values are.
abbrev covers : {A B : Type 0} → Dict A → Dict B → Bool
covers [] e = true
covers ((k, a) ∷ d) e = has k e && covers d e

abbrev values_in : {B : Type 0} → Dict String → Dict B → Bool
values_in [] e = true
values_in ((k, v) ∷ d) e = has v e && values_in d e

has_some : {A : Type 0} (k : String) (d : Dict A) → has k d ≡ is_some (lookup k d)
unfolding lookup
has_some k [] = refl
has_some k ((j, a) ∷ d) = ground (arith, has_some k d)

covers_lem :
    {A B : Type 0} (e : Dict B) (k : String) (d : Dict A)
    → covers d e ≡ true
    → has k d ≡ true
    → has k e ≡ true
covers_lem e k [] c h = cc
covers_lem e k ((j, a) ∷ d) c h = ground (arith, eq_iff j k, covers_lem e k d)

values_in_lem :
    {B : Type 0} (e : Dict B) (k : String) (d : Dict String) (v : String)
    → values_in d e ≡ true
    → lookup k d ≡ some v
    → has v e ≡ true
unfolding lookup
values_in_lem e k [] v c h = cc
values_in_lem e k ((j, w) ∷ d) v c h = ground (arith, values_in_lem e k d v)

-- No value of the dictionary is a key of the other.
abbrev values_out : {B : Type 0} → Dict String → Dict B → Bool
values_out [] e = true
values_out ((k, v) ∷ d) e = not (has v e) && values_out d e

values_out_lem :
    {B : Type 0} (e : Dict B) (k : String) (d : Dict String) (v : String)
    → values_out d e ≡ true
    → lookup k d ≡ some v
    → has v e ≡ false
unfolding lookup
values_out_lem e k [] v c h = cc
values_out_lem e k ((j, w) ∷ d) v c h = ground (arith, values_out_lem e k d v)

same_keys :
    {A B : Type 0} (d : Dict A) (e : Dict B) (k : String)
    → covers d e ≡ true
    → covers e d ≡ true
    → is_some (lookup k d) ≡ is_some (lookup k e)
same_keys d e k there back = elim (Bool-cases (has k d)) [
  | inl h ↦ ground (arith, has_some k d, has_some k e, covers_lem e k d there h)
  | inr h ↦ ground (arith, has_some k d, has_some k e, covers_lem d k e back)
]

version_known :
    (k : String) (o : Option String)
    → lookup k architectures ≡ o
    → is_some (version_of o) ≡ is_some o
version_known k none h = refl
version_known k (some a) h =
    ground (arith, has_some a versions, values_in_lem versions k architectures a refl h)

codename_twice :
    (c : String) (o : Option String)
    → lookup c codenames ≡ o
    → get_or (lookup (get_or o c) codenames) (get_or o c) ≡ get_or o c
codename_twice c none h = rw h refl
codename_twice c (some v) h =
    rw (lookup-has v codenames (values_out_lem codenames c codenames v refl h)) refl

-- A chip has a family exactly if it has an architecture, and exactly then a version of GFX; and the
-- code name of a code name is itself.
pub tables_lem :
    (c : String)
    → (is_some (family c) ≡ is_some (architecture c))
      × (is_some (gfx_version c) ≡ is_some (architecture c))
      × (codename (codename c) ≡ codename c)
unfolding family architecture gfx_version codename
tables_lem c = (
  same_keys families architectures (codename c) refl refl,
  version_known (codename c) (architecture c) refl,
  codename_twice c (lookup c codenames) refl,
)
