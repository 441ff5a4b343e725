-- ===== src/Job/Patterns.antt =====
-- job.py: `Pattern`, `Watchdog` and `ConsoleState`, what a job looks for on the serial console.
--
-- A compiled regular expression is kept as the test that `regex.search` makes on a line.
pub mod Status
pub mod Seen
pub mod Watchdogs
use text.Mathlib.Text.{◌==◌}
use valve_infra.Base.{
  ℕ, String, Bool, true, false, ◌&&◌, ◌||◌, Option, none, some, List, [], ◌∷◌, ◌++◌, map,
  if◌then◌else◌,
}
use valve_infra.Base.Dict.{Dict, lookup, insert, has}
use valve_infra.Base.Result.{Result, ok, err, value_error}
use valve_infra.Message.Framing.{Bytes}
use valve_infra.Job.Timeout
use valve_infra.Job.Timeout.{Timeout}

pub record Pattern : Type 0 where
  pub source : String
  pub search : Bytes → Bool

-- `Watchdog`. Its `timeout` is the object that the job's timeouts hold under the same name, so it
-- is looked up there: `none` is a watchdog that no timeout belongs to.
pub record Watchdog : Type 0 where
  pub start_pattern : Pattern
  pub reset_pattern : Pattern
  pub stop_pattern : Pattern

pub data Tag : Type 0 where
  start reset stop : Tag

-- `Watchdog.process_line`
unfoldable pub watch : ℕ → Bytes → Watchdog → Option Timeout → Option Timeout × Option Tag
watch now line wd none = (none, none)
watch now line wd (some t) =
    if Timeout.is_started t
    then (if wd.reset_pattern.search line
        then (some (Timeout.reset none now t), some reset)
        else if wd.stop_pattern.search line
        then (some (Timeout.stop t), some stop)
        else (some t, none))
    else if wd.start_pattern.search line
    then (some (Timeout.start now t), some start)
    else (some t, none)

-- A set of names. Python prints it, tests whether it is empty and asks for members.
abbrev pub Names : Type 0
Names = List String

abbrev pub mem : String → Names → Bool
mem n [] = false
mem n (m ∷ ms) = m == n || mem n ms

-- `s.add(n)`
unfoldable pub add : String → Names → Names
add n s = if mem n s then s else n ∷ s

-- `s.update(names)`
unfoldable pub update : Names → Names → Names
unfolding add
update s [] = s
update s (n ∷ ns) = update (add n s) ns

-- `s.discard(n)`
unfoldable pub discard : String → Names → Names
discard n [] = []
discard n (m ∷ ms) = let rest = discard n ms in if m == n then rest else m ∷ rest

pub record ConsoleState : Type 0 where
  pub session_end : Pattern
  pub session_reboot : Option Pattern
  pub job_success : Option Pattern
  pub job_warn : Option Pattern
  pub machine_unfit_for_service : Option Pattern
  pub watchdogs : Dict Watchdog
  pub patterns : Dict Pattern
  pub matched : Names

-- `if pattern is not None: self._patterns[name] = pattern.regex`
unfoldable pub with_pattern : String → Option Pattern → Dict Pattern → Dict Pattern
with_pattern name none d = d
with_pattern name (some p) d = insert name p d

-- The part of `ConsoleState.__init__` that fills `_patterns`.
unfoldable pub named_patterns :
    Pattern → Option Pattern → Option Pattern → Option Pattern → Option Pattern → Dict Pattern
unfolding with_pattern
named_patterns session_end session_reboot job_success job_warn unfit =
    with_pattern "machine_unfit_for_service" unfit (
      with_pattern "job_warn" job_warn (
        with_pattern "job_success" job_success
          (with_pattern "session_reboot" session_reboot (("session_end", session_end) ∷ []))))

abbrev watchdogs_or_none : Option (Dict Watchdog) → Dict Watchdog
watchdogs_or_none none = []
watchdogs_or_none (some wds) = wds

-- `ConsoleState.__init__`
unfoldable pub init :
    Pattern
    → Option Pattern
    → Option Pattern
    → Option Pattern
    → Option Pattern
    → Option (Dict Watchdog)
    → ConsoleState
unfolding named_patterns
init session_end session_reboot job_success job_warn unfit watchdogs = record {
  session_end = session_end;
  session_reboot = session_reboot;
  job_success = job_success;
  job_warn = job_warn;
  machine_unfit_for_service = unfit;
  watchdogs = watchdogs_or_none watchdogs;
  patterns = named_patterns session_end session_reboot job_success job_warn unfit;
  matched = [];
}

-- `for name, regex in self._patterns.items(): if regex.search(line): matched.add(name)`
unfoldable pub match_patterns : Bytes → Dict Pattern → Names
match_patterns line [] = []
match_patterns line ((name, p) ∷ ps) =
    let rest = match_patterns line ps in if p.search line then name ∷ rest else rest

abbrev tag_name : Tag → String
tag_name start = "start"
tag_name reset = "reset"
tag_name stop = "stop"

-- What one watchdog did in `process_line`, of which the log shows the name and the tag.
abbrev Fired : Type 0
Fired = List (String × Tag)

abbrev fired : String → Option Tag → Fired → Fired
fired name none rest = rest
fired name (some t) rest = (name, t) ∷ rest

abbrev pub put : String → Option Timeout → Dict Timeout → Dict Timeout
put name none d = d
put name (some t) d = insert name t d

-- `for name, wd in self.watchdogs.items(): wd.process_line(line)`, on the timeouts that the
-- watchdogs share with the job.
unfoldable pub watch_all : ℕ → Bytes → Dict Watchdog → Dict Timeout → Dict Timeout × Fired
unfolding watch
watch_all now line [] timeouts = (timeouts, [])
watch_all now line ((name, wd) ∷ wds) timeouts =
    let (t, tag) = watch now line wd (lookup name timeouts) in
    let (timeouts', rest) = watch_all now line wds (put name t timeouts) in
    (timeouts', fired name tag rest)

pub record Processed : Type 0 where
  pub console : ConsoleState
  pub timeouts : Dict Timeout
  pub names : Names
  pub tags : Fired

-- `ConsoleState.process_line`
unfoldable pub process_line : ℕ → Bytes → Dict Timeout → ConsoleState → Processed
unfolding match_patterns update
process_line now line timeouts c =
    let names = match_patterns line c.patterns in
    let (timeouts', tags) = watch_all now line c.watchdogs timeouts in
    record {
      console = record c { matched = update c.matched names };
      timeouts = timeouts';
      names = names;
      tags = tags;
    }

unfoldable pub reset_per_boot_state : ConsoleState → ConsoleState
unfolding discard
reset_per_boot_state c = record c { matched = discard "session_reboot" c.matched }

unfoldable pub session_has_ended : ConsoleState → Bool
session_has_ended c = mem "session_end" c.matched || mem "unfit_for_service" c.matched

unfoldable pub needs_reboot : ConsoleState → Bool
needs_reboot c = mem "session_reboot" c.matched

unfoldable pub machine_is_unfit_for_service : ConsoleState → Bool
machine_is_unfit_for_service c = mem "machine_unfit_for_service" c.matched

unfoldable pub job_status : ConsoleState → String
job_status c =
    if mem "session_end" c.matched
    then (if has "job_success" c.patterns
        then (if mem "job_success" c.matched
            then (if mem "job_warn" c.matched then "WARN" else "PASS")
            else "FAIL")
        else "COMPLETE")
    else "INCOMPLETE"
