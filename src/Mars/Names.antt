-- ===== src/Mars/Names.antt =====
-- mars.py: `ConfigDUT.full_name`, which numbers the machines of one base name.
use text.Mathlib.Text.{◌==◌}
use text.Mathlib.TextPositions.{eq_refl}
use valve_infra.Base.{
  inr, ◌⊎◌, ap, inl, ℕ, ◌+◌, ◌≤◌, ◌<◌, String, ◌≡◌, ◌≢◌, ◌&&◌, List, [], ◌∷◌, arith, ltb,
  if◌then◌else◌,
}
use valve_infra.Mars.{Dut}

-- A full name, in the parts that the farm's name, the base name and the number are.
pub record FullName : Type 0 where
  pub farm : String
  pub base : String
  pub idx : ℕ

-- The loop of `full_name`, over the machines of the database.
unfoldable count_before : List Dut → Dut → ℕ
count_before [] d = 0
count_before (dut ∷ duts) d =
    let rest = count_before duts d in
    if (dut.base_name == d.base_name) && ltb dut.first_seen d.first_seen then rest + 1 else rest

-- `full_name`
unfoldable pub full_name : String → List Dut → Dut → FullName
unfolding count_before
full_name farm duts d = record { farm = farm; base = d.base_name; idx = count_before duts d + 1 }

count_before_mono :
    (duts : List Dut) (c d : Dut)
    → c.base_name ≡ d.base_name
    → c.first_seen ≤ d.first_seen
    → count_before duts c ≤ count_before duts d
unfolding count_before
count_before_mono [] c d base le = omega arith
count_before_mono (dut ∷ duts) c d base le =
    ground (arith, base, le, count_before_mono duts c d base le)

-- A machine is in the database.
abbrev IsIn : Dut → List Dut → Type 0
IsIn d [] = ⊥
IsIn d (e ∷ duts) = (d ≡ e) ⊎ IsIn d duts

count_before_strict :
    (duts : List Dut) (c d : Dut)
    → IsIn c duts
    → c.base_name ≡ d.base_name
    → c.first_seen < d.first_seen
    → count_before duts c < count_before duts d
unfolding count_before
count_before_strict [] c d here base lt = absurd here
count_before_strict (dut ∷ duts) c d (inl same) base lt =
    ground
      (arith, same, base, lt, count_before_mono duts c d base (omega arith), eq_refl d.base_name)
count_before_strict (dut ∷ duts) c d (inr more) base lt =
    ground (arith, base, lt, count_before_strict duts c d more base lt)

-- Of two machines of the database with one base name, the one that was seen first has the lower
-- number, so that their full names differ; two that were first seen at the same instant have one
-- name.
pub full_name_order :
    (farm : String) (duts : List Dut) (c d : Dut)
    → IsIn c duts
    → c.base_name ≡ d.base_name
    → c.first_seen < d.first_seen
    → ((full_name farm duts c).idx < (full_name farm duts d).idx)
      × (full_name farm duts c ≢ full_name farm duts d)
unfolding full_name
full_name_order farm duts c d here base lt =
    let less = count_before_strict duts c d here base lt in
    (omega (arith, less), λ same. omega (arith, less, ap (λ n. n.idx) same))
