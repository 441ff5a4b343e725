-- ===== src/Gfx/Database/Parsed.antt =====
-- amdgpu.py: the GPU of an identifier is the one that the list of the driver has for it.
use text.Mathlib.Text.{◌==◌}
use valve_infra.Base.{
  ap, sym, ◌∙◌, ℕ, ◌<◌, String, true, false, ◌&&◌, ◌≡◌, refl, Option, none, some, List, [], ◌∷◌,
  ◌++◌, ◌==◌ as ◌=n◌, arith, All, if◌then◌else◌, or_else,
}
use valve_infra.Gfx.Database.{
  AmdGpuDrvDev, Devices, insert, lookup, enter, key, generate_key, first_line, last_line,
  parse_lines, parse_amdgpu_drv, from_pciid, gpu_of,
}

lookup-insert :
    {A : Type 0} (k j : ℕ) (a : A) (d : List (ℕ × A))
    → lookup j (insert k a d) ≡ (if k =n j then some a else lookup j d)
unfolding lookup insert
lookup-insert k j a [] = refl
lookup-insert k j a ((i, b) ∷ d) = ground (arith, lookup-insert k j a d)

abbrev pub if_same : ℕ → ℕ → Option AmdGpuDrvDev → Option AmdGpuDrvDev
if_same vendor_id product_id none = none
if_same vendor_id product_id (some dev) =
    if (dev.vendor_id =n vendor_id) && (dev.product_id =n product_id) then some dev else none

-- The products of a line have 16 bits.
abbrev pub Has16Bits : Option AmdGpuDrvDev → Type 0
Has16Bits none = Unit
Has16Bits (some dev) = dev.product_id < 65536

same_key :
    (v p w q : ℕ)
    → p < 65536
    → q < 65536
    → (generate_key v p =n generate_key w q) ≡ ((v =n w) && (p =n q))
same_key v p w q hp hq = ground arith

or_else_assoc : (o p q : Option AmdGpuDrvDev) → or_else (or_else o p) q ≡ or_else o (or_else p q)
or_else_assoc none p q = refl
or_else_assoc (some dev) p q = refl

or_else-none : (o : Option AmdGpuDrvDev) → or_else o none ≡ o
or_else-none none = refl
or_else-none (some dev) = refl

module _ (comp : String → Option AmdGpuDrvDev) (vendor_id product_id : ℕ) where
  -- The last line that has the device.
  abbrev pub last_of : List String → Option AmdGpuDrvDev
  last_of [] = none
  last_of (line ∷ lines) = or_else (last_of lines) (if_same vendor_id product_id (comp line))

  entered :
      (o : Option AmdGpuDrvDev) (d : Devices)
      → product_id < 65536
      → Has16Bits o
      → lookup (generate_key vendor_id product_id) (enter o d)
        ≡ or_else (if_same vendor_id product_id o) (lookup (generate_key vendor_id product_id) d)
  entered none d hp h = refl
  entered (some dev) d hp h =
      rw
        (
          lookup-insert (key dev) (generate_key vendor_id product_id) dev d,
          same_key dev.vendor_id dev.product_id vendor_id product_id h hp,
        )
        (ground arith)

  block_lem :
      (block after : List String) (d : Devices)
      → product_id < 65536
      → All (λ line. ((line == last_line) ≡ false) × Has16Bits (comp line)) block
      → lookup
          (generate_key vendor_id product_id)
          (parse_lines comp true (block ++ last_line ∷ after) d)
        ≡ or_else (last_of block) (lookup (generate_key vendor_id product_id) d)
  unfolding parse_lines
  block_lem [] after d hp h = refl
  block_lem (line ∷ block) after d hp ((other, bits), hs) =
      rw (other, block_lem block after (enter (comp line) d) hp hs, entered (comp line) d hp bits)
        (sym (or_else_assoc (last_of block) _ _))

  before_lem :
      (before rest : List String) (d : Devices)
      → All (λ line. (line == first_line) ≡ false) before
      → parse_lines comp false (before ++ first_line ∷ rest) d ≡ parse_lines comp true rest d
  unfolding parse_lines
  before_lem [] rest d h = refl
  before_lem (line ∷ before) rest d (other, hs) =
      ap (λ b. parse_lines comp b (before ++ first_line ∷ rest) d) other
      ∙ before_lem before rest d hs

  -- The GPU of a PCI identifier is made from the last line with that identifier between the two
  -- lines that enclose the list, as long as products have 16 bits; what stands before and behind the
  -- list is not read, and without such a line there is no GPU.
  pub from_pciid_lem :
      (before block after : List String)
      → product_id < 65536
      → All (λ line. (line == first_line) ≡ false) before
      → All (λ line. ((line == last_line) ≡ false) × Has16Bits (comp line)) block
      → from_pciid
          (parse_amdgpu_drv comp (before ++ first_line ∷ (block ++ last_line ∷ after)))
          vendor_id
          product_id
        ≡ gpu_of (last_of block) vendor_id product_id
  unfolding from_pciid parse_amdgpu_drv lookup
  from_pciid_lem before block after hp hb hs =
      rw (before_lem before (block ++ last_line ∷ after) [] hb, block_lem block after [] hp hs)
        (ap (λ o. gpu_of o vendor_id product_id) (or_else-none (last_of block)))
