-- ===== src/Traces/Report.antt =====
-- `Report` and its `TraceExec`: the frames of an execution, whether it was a success, and the JUnit
-- file. The reports of an execution are its cached `applicable_compatibility_reports`.
pub mod Junit
use valve_infra.Base.{
  ℕ, ◌+◌, String, Bool, true, false, ◌&&◌, ◌||◌, not, Option, none, some, List, [], ◌∷◌, ◌++◌, ◌==◌,
  if◌then◌else◌, length,
}
use valve_infra.Base.Dict.{Dict, lookup}
use valve_infra.Traces.{Trace, is_in}
use valve_infra.Traces.Frames.{
  FrameOutput, Reason, acceptability, missing_from_upload, not_uploaded, missing, not_expected,
}
use valve_infra.Traces.Compat.{TraceCompatibility, expected_to_work, keys}

-- `Report.TraceExec`
pub record TraceExec : Type 0 where
  pub trace : Trace
  pub retcode : Option ℕ
  pub found_frames : Dict String
  pub upload_report : Option (Dict FrameOutput)
  pub reports : List TraceCompatibility

pub record Frame : Type 0 where
  pub frame_id : String
  pub file_path : Option String
  pub verdict : Bool × Reason

abbrev pub uploaded : Option FrameOutput → Bool × Reason
uploaded none = (false, missing_from_upload)
uploaded (some f) = acceptability f

abbrev pub check_upload : String → Option (Dict FrameOutput) → Bool × Reason
check_upload id none = (false, not_uploaded)
check_upload id (some trace_frames) = uploaded (lookup id trace_frames)

abbrev pub check_frame : String → Option String → Bool → Option (Dict FrameOutput) → Bool × Reason
check_frame id (some path) expected report = check_upload id report
check_frame id none expected report = if expected then (false, missing) else (true, not_expected)

abbrev pub frame_of : TraceExec → String → Frame
frame_of e id = record {
  frame_id = id;
  file_path = lookup id e.found_frames;
  verdict = check_frame id (lookup id e.found_frames) (expected_to_work e.reports) e.upload_report;
}

unfoldable pub frames_of : TraceExec → List String → List Frame
unfolding expected_to_work acceptability
frames_of e [] = []
frames_of e (id ∷ ids) = frame_of e id ∷ frames_of e ids

-- `frames`
unfoldable pub frames : TraceExec → List Frame
unfolding frames_of
frames e = frames_of e e.trace.frames_to_capture

unfoldable pub all_in : List String → List String → Bool
unfolding is_in
all_in [] ys = true
all_in (x ∷ xs) ys = is_in x ys && all_in xs ys

-- `generated_all_wanted_frames`, an equation of sets.
unfoldable pub generated_all_wanted_frames : TraceExec → Bool
unfolding all_in keys
generated_all_wanted_frames e =
    all_in e.trace.frames_to_capture (keys e.found_frames)
    && all_in (keys e.found_frames) e.trace.frames_to_capture

abbrev pub is_zero : Option ℕ → Bool
is_zero none = false
is_zero (some n) = n == 0

-- `had_successful_execution`
unfoldable pub had_successful_execution : TraceExec → Bool
unfolding generated_all_wanted_frames
had_successful_execution e = is_zero e.retcode && generated_all_wanted_frames e

unfoldable pub all_acceptable : List Frame → Bool
all_acceptable [] = true
all_acceptable (f ∷ fs) = let rest = all_acceptable fs in if f.verdict.0 then rest else false

-- `all_frames_acceptable`
unfoldable pub all_frames_acceptable : TraceExec → Bool
unfolding all_acceptable frames
all_frames_acceptable e = all_acceptable (frames e)

-- `TraceExec.is_success`
unfoldable pub exec_is_success : TraceExec → Bool
unfolding had_successful_execution expected_to_work
exec_is_success e = had_successful_execution e || not (expected_to_work e.reports)

-- `Report.is_success`
unfoldable pub is_success : List TraceExec → Bool
unfolding had_successful_execution expected_to_work all_frames_acceptable
is_success [] = true
is_success (e ∷ es) =
    let rest = is_success es in
    if not (had_successful_execution e) && expected_to_work e.reports
    then false
    else if not (all_frames_acceptable e)
    then false
    else rest

-- A `testcase`, with whether it has a `failure`.
pub record Case : Type 0 where
  pub name : String
  pub failure : Bool

-- A `testsuite`.
pub record Suite : Type 0 where
  pub tests : ℕ
  pub failures : ℕ
  pub cases : List Case

-- The `testsuites`.
pub record Suites : Type 0 where
  pub tests : ℕ
  pub failures : ℕ
  pub suites : List Suite

-- `[f for f in frames if not f.is_acceptable]`
unfoldable pub unacceptable : List Frame → List Frame
unacceptable [] = []
unacceptable (f ∷ fs) = let rest = unacceptable fs in if not f.verdict.0 then f ∷ rest else rest

unfoldable pub cases_of : List Frame → List Case
cases_of [] = []
cases_of (f ∷ fs) = record { name = f.frame_id; failure = not f.verdict.0 } ∷ cases_of fs

abbrev pub execution_case : TraceExec → Case
execution_case e = record {
  name = "execution";
  failure = if not (had_successful_execution e) then expected_to_work e.reports else false;
}

-- The `testsuite` of an execution.
unfoldable pub suite_of : TraceExec → Suite
unfolding frames unacceptable cases_of exec_is_success had_successful_execution expected_to_work
suite_of e = record {
  tests = 1 + length (frames e);
  failures = (if exec_is_success e then 0 else 1) + length (unacceptable (frames e));
  cases = execution_case e ∷ cases_of (frames e);
}

-- `all_frames`
unfoldable pub all_frames : List TraceExec → List Frame
unfolding frames
all_frames [] = []
all_frames (e ∷ es) = frames e ++ all_frames es

unfoldable pub suites_of : List TraceExec → List Suite
unfolding suite_of
suites_of [] = []
suites_of (e ∷ es) = suite_of e ∷ suites_of es

-- `generate_junit_result`
unfoldable pub generate_junit_result : List TraceExec → Suites
unfolding all_frames unacceptable suites_of
generate_junit_result es = record {
  tests = length (all_frames es);
  failures = length (unacceptable (all_frames es));
  suites = suites_of es;
}
