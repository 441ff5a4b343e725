-- ===== src/Traces/Report/Junit.antt =====
-- The JUnit file agrees with itself and with whether the report is a success.
use valve_infra.Base.{
  ℕ, ◌+◌, ◌≡◌, refl, List, [], ◌∷◌, ◌++◌, arith, ◌==◌, All, length, if◌then◌else◌,
}
use valve_infra.Traces.Report.{
  TraceExec, Frame, Case, Suite, exec_is_success, all_acceptable, all_frames_acceptable, is_success,
  unacceptable, cases_of, suite_of, suites_of, all_frames, frames, generate_junit_result,
}

-- The cases that have a failure.
abbrev pub failed : List Case → ℕ
failed [] = 0
failed (c ∷ cs) = (if c.failure then 1 else 0) + failed cs

abbrev pub all_failures : List Suite → ℕ
all_failures [] = 0
all_failures (s ∷ ss) = s.failures + all_failures ss

-- The executions that failed although they were expected to work.
abbrev pub failed_executions : List TraceExec → ℕ
failed_executions [] = 0
failed_executions (e ∷ es) = (if exec_is_success e then 0 else 1) + failed_executions es

-- The numbers of a suite are those of its cases.
abbrev pub IsCounted : Suite → Type 0
IsCounted s = (s.tests ≡ length s.cases) × (s.failures ≡ failed s.cases)

cases_of-counted :
    (fs : List Frame)
    → (length (cases_of fs) ≡ length fs) × (failed (cases_of fs) ≡ length (unacceptable fs))
unfolding cases_of unacceptable
cases_of-counted [] = (refl, refl)
cases_of-counted (f ∷ fs) =
    let (number, failures) = cases_of-counted fs in (ground arith, ground arith)

all_acceptable_lem : (fs : List Frame) → all_acceptable fs ≡ (length (unacceptable fs) == 0)
unfolding all_acceptable unacceptable
all_acceptable_lem [] = refl
all_acceptable_lem (f ∷ fs) = ground (arith, all_acceptable_lem fs)

suite_of-IsCounted : (e : TraceExec) → IsCounted (suite_of e)
unfolding suite_of exec_is_success
suite_of-IsCounted e =
    let (number, failures) = cases_of-counted (frames e) in (ground arith, ground arith)

unacceptable-append :
    (fs gs : List Frame)
    → length (unacceptable (fs ++ gs)) ≡ length (unacceptable fs) + length (unacceptable gs)
unfolding unacceptable
unacceptable-append [] gs = omega arith
unacceptable-append (f ∷ fs) gs = ground (arith, unacceptable-append fs gs)

suites_of-IsCounted : (es : List TraceExec) → All IsCounted (suites_of es)
unfolding suites_of
suites_of-IsCounted [] = tt
suites_of-IsCounted (e ∷ es) = (suite_of-IsCounted e, suites_of-IsCounted es)

all_failures_lem :
    (es : List TraceExec)
    → all_failures (suites_of es) ≡ length (unacceptable (all_frames es)) + failed_executions es
unfolding suites_of suite_of all_frames unacceptable
all_failures_lem [] = refl
all_failures_lem (e ∷ es) =
    let more = all_failures_lem es in
    let both = unacceptable-append (frames e) (all_frames es) in omega arith

is_success_lem : (es : List TraceExec) → is_success es ≡ (all_failures (suites_of es) == 0)
unfolding is_success suites_of suite_of exec_is_success all_frames_acceptable
is_success_lem [] = refl
is_success_lem (e ∷ es) = ground (arith, is_success_lem es, all_acceptable_lem (frames e))

-- Every suite of the JUnit file counts its cases and its failures right; the file as a whole has as
-- many failures as its suites, less the executions that failed although they were expected to work,
-- which its total leaves out; and the report is a success exactly if no suite has a failure.
pub generate_junit_result_lem :
    (es : List TraceExec)
    → let file = generate_junit_result es in
      All IsCounted file.suites
      × (all_failures file.suites ≡ file.failures + failed_executions es)
      × (is_success es ≡ (all_failures file.suites == 0))
unfolding generate_junit_result
generate_junit_result_lem es = (suites_of-IsCounted es, all_failures_lem es, is_success_lem es)
