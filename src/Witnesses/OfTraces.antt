-- ===== src/Witnesses/OfTraces.antt =====
-- Traces and GPUs: runs of the theorems.
use text.Mathlib.Text.{◌==◌}
use valve_infra.Base.{
  ℕ, ◌+◌, ◌≤◌, ◌<◌, String, Bool, true, false, ◌≡◌, refl, Option, none, some, List, [], ◌∷◌, arith,
  ◌==◌ as ◌=n◌, All, length, if◌then◌else◌,
}
use valve_infra.Traces.{Trace, traces_under_gb}
use valve_infra.Traces.Most.{total, picked, traces_under_gb_lem}
use valve_infra.Traces.Compat.{GitRepo, TraceCompatibility}
use valve_infra.Traces.Report.{TraceExec, generate_junit_result, is_success}
use valve_infra.Traces.Report.Junit.{
  IsCounted, all_failures, failed_executions, generate_junit_result_lem,
}
use valve_infra.Gfx.Database.{
  AmdGpuDrvDev, chip, apu, first_line, last_line, from_pciid, gpu_of, parse_amdgpu_drv,
}
use valve_infra.Gfx.Database.Parsed.{last_of, from_pciid_lem}

abbrev trace : ℕ → Trace
trace size = record {
  id = size;
  filename = "game";
  frames_to_capture = "7" ∷ [];
  graphics_api = some "Vulkan";
  file_size = size;
}

abbrev traces : List Trace
traces = trace 30 ∷ trace 10 ∷ trace 20 ∷ []

traces_under_gb_example :
    (total (traces_under_gb traces 35) < 35)
    × ((pick : Trace → Bool)
        → total (picked pick traces) < 35
        → length (picked pick traces) ≤ length (traces_under_gb traces 35))
traces_under_gb_example = traces_under_gb_lem traces 35 (omega arith)

abbrev repo : GitRepo
repo = record { head = "c3"; walk = λ hidden. ("c2" ∷ []) ∷ ("c1" ∷ []) ∷ [] }

abbrev works : TraceCompatibility
works = record { project = "Mesa"; commit = "c1"; is_working = true; agreement_count = 21 }

abbrev of_other : TraceCompatibility
of_other = record works { project = "DXVK"; is_working = false }

abbrev execution : TraceExec
execution = record {
  trace = trace 30;
  retcode = some 0;
  found_frames = ("7", "7.png") ∷ [];
  upload_report = none;
  reports = works ∷ [];
}

generate_junit_result_example :
    let file = generate_junit_result (execution ∷ []) in
    All IsCounted file.suites
    × (all_failures file.suites ≡ file.failures + failed_executions (execution ∷ []))
    × (is_success (execution ∷ []) ≡ (all_failures file.suites =n 0))
generate_junit_result_example = generate_junit_result_lem (execution ∷ [])

abbrev renoir : AmdGpuDrvDev
renoir = record { vendor_id = 4098; product_id = 5686; flags = some (chip "RENOIR" ∷ apu ∷ []) }

abbrev comp : String → Option AmdGpuDrvDev
comp line = if line == "renoir" then some renoir else none

from_pciid_example :
    from_pciid
      (parse_amdgpu_drv comp ("#include" ∷ first_line ∷ "renoir" ∷ last_line ∷ []))
      4098
      5686
    ≡ gpu_of (last_of comp 4098 5686 ("renoir" ∷ [])) 4098 5686
from_pciid_example =
    from_pciid_lem comp 4098 5686 ("#include" ∷ []) ("renoir" ∷ []) [] (omega arith) (refl, tt)
      ((refl, omega arith), tt)
