-- ===== src/Gfx/Database.antt =====
-- amdgpu.py: `AMDGPU` and `AmdGpuDeviceDB`. A line of a file is read by `comp`, which stands for the
-- regular expression and the numbers in it; a key of a dictionary that is a number or a pair is one
-- here too.
pub mod Parsed
use text.Mathlib.Text.{◌==◌}
use valve_infra.Base.{
  ℕ, ◌+◌, ◌*◌, ◌^◌, String, Bool, true, false, ◌&&◌, ◌||◌, not, Option, none, some, List, [], ◌∷◌,
  ◌++◌, ◌==◌ as ◌=n◌, if◌then◌else◌,
}
use valve_infra.Base.Result.{Result, ok, err, attribute_error, ◌>>=◌, ◌>>◌}
use valve_infra.Base.Text.{codes}
use valve_infra.Gfx

-- A flag, without the spaces around it, by how it starts.
pub data Flag : Type 0 where
  chip : String → Flag
  apu mobility experimental unknown_flag : Flag

-- `AmdGpuDrvDev`; its flags are split at their bars.
pub record AmdGpuDrvDev : Type 0 where
  pub vendor_id : ℕ
  pub product_id : ℕ
  pub flags : Option (List Flag)

-- `vendor_id << 16 | product_id`, of a product of 16 bits.
abbrev pub generate_key : ℕ → ℕ → ℕ
generate_key vendor_id product_id = vendor_id * 2 ^ 16 + product_id

abbrev pub key : AmdGpuDrvDev → ℕ
key dev = generate_key dev.vendor_id dev.product_id

-- `d[k] = v` and `d.get(k)`, of a dictionary with numbers for keys.
unfoldable pub insert : {A : Type 0} → ℕ → A → List (ℕ × A) → List (ℕ × A)
insert k a [] = (k, a) ∷ []
insert k a ((j, b) ∷ d) = if j =n k then (k, a) ∷ d else (j, b) ∷ insert k a d

unfoldable pub lookup : {A : Type 0} → ℕ → List (ℕ × A) → Option A
lookup k [] = none
lookup k ((j, a) ∷ d) = if j =n k then some a else lookup k d

abbrev pub Devices : Type 0
Devices = List (ℕ × AmdGpuDrvDev)

abbrev pub enter : Option AmdGpuDrvDev → Devices → Devices
enter none d = d
enter (some dev) d = insert (key dev) dev d

abbrev pub first_line : String
first_line = "static const struct pci_device_id pciidlist[] = {"

abbrev pub last_line : String
last_line = "\t{0, 0, 0}"

-- The loop of `_parse_amdgpu_drv`.
unfoldable pub parse_lines : (String → Option AmdGpuDrvDev) → Bool → List String → Devices → Devices
unfolding insert
parse_lines comp started [] d = d
parse_lines comp false (line ∷ lines) d = parse_lines comp (line == first_line) lines d
parse_lines comp true (line ∷ lines) d =
    let rest = parse_lines comp true lines (enter (comp line) d) in
    if line == last_line then d else rest

-- `_parse_amdgpu_drv`
unfoldable pub parse_amdgpu_drv : (String → Option AmdGpuDrvDev) → List String → Devices
unfolding parse_lines
parse_amdgpu_drv comp lines = parse_lines comp false lines []

-- `AMDGPU`; its code name is missing until a flag gives it.
pub record AmdGpu : Type 0 where
  pub vendor_id : ℕ
  pub product_id : ℕ
  pub amdgpu_codename : Option String
  pub is_apu : Bool
  pub is_mobility : Bool
  pub has_experimental_support : Bool

-- The body of the loop of `__post_init__`.
abbrev pub apply_flag : Flag → AmdGpu → AmdGpu
apply_flag (chip name) gpu = record gpu { amdgpu_codename = some name }
apply_flag apu gpu = record gpu { is_apu = true }
apply_flag mobility gpu = record gpu { is_mobility = true }
apply_flag experimental gpu = record gpu { has_experimental_support = true }
apply_flag unknown_flag gpu = gpu

unfoldable pub apply_flags : List Flag → AmdGpu → AmdGpu
apply_flags [] gpu = gpu
apply_flags (flag ∷ flags) gpu = apply_flags flags (apply_flag flag gpu)

abbrev pub named : AmdGpu → Option String → Result AmdGpu
named gpu none = err attribute_error
named gpu (some name) = ok gpu

abbrev pub with_flags : Option (List Flag) → AmdGpu → Result AmdGpu
with_flags none gpu = err attribute_error
with_flags (some flags) gpu = let gpu' = apply_flags flags gpu in named gpu' gpu'.amdgpu_codename

-- `AMDGPU.__init__` and `__post_init__`, which asks for the architecture of the code name.
unfoldable pub init : ℕ → ℕ → Option (List Flag) → Result AmdGpu
unfolding apply_flags
init vendor_id product_id flags = with_flags flags (record {
  vendor_id = vendor_id;
  product_id = product_id;
  amdgpu_codename = none;
  is_apu = false;
  is_mobility = false;
  has_experimental_support = false;
})

abbrev pub gpu_of : Option AmdGpuDrvDev → ℕ → ℕ → Result (Option AmdGpu)
gpu_of none vendor_id product_id = ok none
gpu_of (some dev) vendor_id product_id = do gpu ← init vendor_id product_id dev.flags; ok (some gpu)

-- `from_pciid`, without the marketing name.
unfoldable pub from_pciid : Devices → ℕ → ℕ → Result (Option AmdGpu)
unfolding lookup init
from_pciid amdgpu_drv_devs vendor_id product_id =
    gpu_of (lookup (generate_key vendor_id product_id) amdgpu_drv_devs) vendor_id product_id
