-- ===== src/Traces/Drivers.antt =====
-- `GpuDriver`, and which driver a trace was run with, by its log and by what gfxinfo and glxinfo say
-- of the machine. What the regular expressions find in a line of the log is the line.
pub mod Logged
use valve_infra.Base.{
  ℕ, Bool, true, false, ◌&&◌, ◌||◌, not, Option, none, some, List, [], ◌∷◌, ◌++◌, if◌then◌else◌,
}
use valve_infra.Base.Text.{codes, ◌=b◌}
use valve_infra.Base.Result.{Result, ok, err, type_error, attribute_error}
use valve_infra.Message.Framing.{Bytes}
use valve_infra.Boots.{split_at}

pub record GpuDriver : Type 0 where
  pub name : Option Bytes
  pub version : Option Bytes
  pub branch : Option Bytes
  pub commit : Option Bytes

abbrev pub is_empty : Bytes → Bool
is_empty [] = true
is_empty (c ∷ s) = false

-- `a == b`
abbrev pub same : Option Bytes → Option Bytes → Bool
same none none = true
same none (some b) = false
same (some a) none = false
same (some a) (some b) = a =b b

abbrev pub merge_texts : Bytes → Bytes → Option Bytes
merge_texts a b =
    if not (is_empty a) && is_empty b
    then some a
    else if is_empty a && not (is_empty b)
    then some b
    else some a

abbrev pub merge_other : Option Bytes → Option Bytes → Option Bytes
merge_other none none = none
merge_other none (some b) = some b
merge_other (some a) none = some a
merge_other (some a) (some b) = merge_texts a b

-- `_merge_field`
unfoldable pub merge_field : Option Bytes → Option Bytes → Option Bytes
merge_field a b = if same a b then a else merge_other a b

-- `merge`
unfoldable pub merge : GpuDriver → GpuDriver → GpuDriver
unfolding merge_field
merge d other = record {
  name = merge_field d.name other.name;
  version = merge_field d.version other.version;
  branch = merge_field d.branch other.branch;
  commit = merge_field d.commit other.commit;
}

abbrev pub branch_of : List Bytes → Option Bytes
branch_of (major ∷ minor ∷ patch ∷ []) =
    if minor =b codes "99"
    then some (codes "main")
    else some (codes "v" ++ major ++ codes "." ++ minor ++ codes ".y")
branch_of _ = none

-- `radv_branch_from_version`
unfoldable pub radv_branch_from_version : Bytes → Option Bytes
unfolding split_at
radv_branch_from_version version = branch_of (split_at 46 version)

-- The fields of `GfxInfo` that name the driver; a version of Mesa that is there.
pub record GfxInfo : Type 0 where
  pub driver_name : Option Bytes
  pub driver_info : Option Bytes
  pub mesa_version : Option Bytes
  pub mesa_git_version : Option Bytes

abbrev pub short_name : Option Bytes → Option Bytes
short_name none = none
short_name (some name) =
    if name =b codes "AMD open-source driver"
    then some (codes "amdvlk")
    else if name =b codes "AMD proprietary driver"
    then some (codes "amdgpu-pro")
    else some name

abbrev pub driver_of : Option Bytes → GfxInfo → GpuDriver
driver_of none i = record {
  name = short_name i.driver_name;
  version = i.driver_info;
  branch = none;
  commit = none;
}
driver_of (some version) i = record {
  name = short_name i.driver_name;
  version = some version;
  branch = radv_branch_from_version version;
  commit = i.mesa_git_version;
}

-- `vk_driver`
unfoldable pub vk_driver : GfxInfo → GpuDriver
unfolding radv_branch_from_version
vk_driver i = driver_of i.mesa_version i

-- What a line of the log names: a device, a version of its driver, a library of libGL.
pub record Line : Type 0 where
  pub device_name : Option Bytes
  pub driver_version : Option Bytes
  pub libgl : Option Bytes

abbrev pub starts_with : Bytes → Bytes → Bool
starts_with [] s = true
starts_with (p ∷ ps) [] = false
starts_with (p ∷ ps) (c ∷ s) = (p ∷ []) =b (c ∷ []) && starts_with ps s

abbrev pub ends_with : Bytes → Bytes → Bool
ends_with p [] = p =b []
ends_with p (c ∷ s) = p =b (c ∷ s) || ends_with p s

abbrev pub name_by : Option Bytes → Option Bytes → Option Bytes
name_by none name = name
name_by (some device) name =
    if starts_with (codes "AMD RADV") device
    then some (codes "radv")
    else if ends_with (codes "AMD GPU") device
    then some (codes "amdvlk/gpu-pro")
    else name

abbrev pub version_by : Option Bytes → GpuDriver → GpuDriver
version_by none d = d
version_by (some version) d = record d {
  version = some version;
  branch =
      if same d.name (some (codes "radv"))
      then radv_branch_from_version version
      else some (codes "main");
}

-- The loop of `dxvk_reported_gpu_driver`.
unfoldable pub read_lines : List Line → GpuDriver → GpuDriver
unfolding radv_branch_from_version
read_lines [] d = d
read_lines (l ∷ ls) d =
    read_lines ls (version_by l.driver_version (record d { name = name_by l.device_name d.name }))

-- `dxvk_reported_gpu_driver`: none only where there is no log.
unfoldable pub dxvk_reported_gpu_driver : Option (List Line) → Option GpuDriver
unfolding read_lines
dxvk_reported_gpu_driver none = none
dxvk_reported_gpu_driver (some lines) =
    some (read_lines lines (record { name = none; version = none; branch = none; commit = none }))

abbrev pub first_some : Option Bytes → Option Bytes → Option Bytes
first_some none rest = rest
first_some (some a) rest = some a

unfoldable pub find_libgl : List Line → Option Bytes
find_libgl [] = none
find_libgl (l ∷ ls) = first_some l.libgl (find_libgl ls)

-- `libgl_driver`
unfoldable pub libgl_driver : Option (List Line) → Option Bytes
unfolding find_libgl
libgl_driver none = none
libgl_driver (some lines) = find_libgl lines

-- `GpuDriver(name=self.libgl_driver, version="UNK")` is short of a branch.
abbrev pub from_opengl : Bytes → Option GpuDriver → Result (Option GpuDriver)
from_opengl libgl none = err attribute_error
from_opengl libgl (some glxinfo) =
    if same (some libgl) glxinfo.name then ok (some glxinfo) else err type_error

abbrev pub from_dxvk :
    Option GpuDriver → Bool → Option GpuDriver → GfxInfo → Result (Option GpuDriver)
from_dxvk (some dxvk) is_opengl glxinfo i = ok (some (merge (vk_driver i) dxvk))
from_dxvk none is_opengl glxinfo i = if is_opengl then ok glxinfo else ok (some (vk_driver i))

abbrev pub from_libgl :
    Option Bytes → Option GpuDriver → Bool → Option GpuDriver → GfxInfo → Result (Option GpuDriver)
from_libgl none dxvk is_opengl glxinfo i = from_dxvk dxvk is_opengl glxinfo i
from_libgl (some libgl) dxvk is_opengl glxinfo i = from_opengl libgl glxinfo

-- `gpu_driver`: `is_opengl` is whether the trace's API is OpenGL.
unfoldable pub gpu_driver :
    Option (List Line) → Bool → Option GpuDriver → GfxInfo → Result (Option GpuDriver)
unfolding libgl_driver dxvk_reported_gpu_driver merge vk_driver
gpu_driver log is_opengl glxinfo i =
    from_libgl (libgl_driver log) (dxvk_reported_gpu_driver log) is_opengl glxinfo i
