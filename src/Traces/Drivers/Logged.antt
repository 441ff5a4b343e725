-- ===== src/Traces/Drivers/Logged.antt =====
-- Which driver is reported of a trace that has a log.
use valve_infra.Base.{
  Bool, true, false, ◌&&◌, not, ◌≡◌, refl, Option, none, some, List, [], ◌∷◌, arith, if◌then◌else◌,
  or_else,
}
use valve_infra.Base.Result.{err, type_error}
use valve_infra.Message.Framing.{Bytes}
use valve_infra.Traces.Drivers.{
  GpuDriver, GfxInfo, Line, merge, merge_field, same, is_empty, read_lines, find_libgl,
  libgl_driver, dxvk_reported_gpu_driver, gpu_driver, from_libgl,
}

-- Whether a field says anything.
abbrev pub says : Option Bytes → Bool
says none = false
says (some s) = not (is_empty s)

-- A field of the first driver counts, unless only the second says anything.
pub merge_field_lem :
    (a b : Option Bytes) → merge_field a b ≡ (if not (says a) && says b then b else or_else a b)
unfolding merge_field
merge_field_lem none none = refl
merge_field_lem none (some []) = refl
merge_field_lem none (some (c ∷ b)) = refl
merge_field_lem (some []) none = refl
merge_field_lem (some (c ∷ a)) none = refl
merge_field_lem (some []) (some []) = refl
merge_field_lem (some []) (some (d ∷ b)) = refl
merge_field_lem (some (c ∷ a)) (some []) = refl
merge_field_lem (some (c ∷ a)) (some (d ∷ b)) = ground arith

abbrev pub pick : Option Bytes → Option Bytes → Option Bytes
pick a b = if not (says a) && says b then b else or_else a b

-- Merging two drivers takes each field of the first, unless only the second says anything there.
pub merge_lem :
    (d e : GpuDriver)
    → merge d e ≡ record {
      name = pick d.name e.name;
      version = pick d.version e.version;
      branch = pick d.branch e.branch;
      commit = pick d.commit e.commit;
    }
unfolding merge
merge_lem d e =
    rw
      (
        merge_field_lem d.name e.name,
        merge_field_lem d.version e.version,
        merge_field_lem d.branch e.branch,
        merge_field_lem d.commit e.commit,
      )
      refl

same_api :
    (o : Option Bytes) (dxvk : GpuDriver) (glxinfo : Option GpuDriver) (i : GfxInfo)
    → from_libgl o (some dxvk) true glxinfo i ≡ from_libgl o (some dxvk) false glxinfo i
same_api none dxvk glxinfo i = refl
same_api (some l) dxvk glxinfo i = refl

-- Of a trace with a log, the reported driver does not depend on whether the trace is one of OpenGL;
-- and where the log names another library of libGL than glxinfo's driver, asking for the driver
-- raises TypeError.
pub gpu_driver_logged :
    (lines : List Line) (glxinfo : GpuDriver) (i : GfxInfo)
    → (gpu_driver (some lines) true (some glxinfo) i
        ≡ gpu_driver (some lines) false (some glxinfo) i)
      × ((libgl : Bytes) (is_opengl : Bool)
          → find_libgl lines ≡ some libgl
          → same (some libgl) glxinfo.name ≡ false
          → gpu_driver (some lines) is_opengl (some glxinfo) i ≡ err type_error)
unfolding gpu_driver libgl_driver dxvk_reported_gpu_driver
gpu_driver_logged lines glxinfo i = (
  same_api (find_libgl lines) (read_lines lines _) (some glxinfo) i,
  λ libgl is_opengl found other. rw (found, other) refl,
)
