-- ===== src/Message/Status.antt =====
-- `JobStatus` of message.py.
use text.Mathlib.Text.{◌==◌}
use valve_infra.Base.{ℕ, String, ◌≡◌, refl, if◌then◌else◌}

pub data JobStatus : Type 0 where
  pass warn complete fail incomplete unknown setup_fail : JobStatus

-- `status.name`
unfoldable pub name : JobStatus → String
name pass = "PASS"
name warn = "WARN"
name complete = "COMPLETE"
name fail = "FAIL"
name incomplete = "INCOMPLETE"
name unknown = "UNKNOWN"
name setup_fail = "SETUP_FAIL"

abbrev pub status_code : JobStatus → ℕ
status_code pass = 0
status_code warn = 1
status_code complete = 2
status_code fail = 3
status_code incomplete = 4
status_code unknown = 5
status_code setup_fail = 6

-- `getattr(cls, status, cls.UNKNOWN)`, on the names of the members.
unfoldable pub from_str : String → JobStatus
from_str s =
    if s == "PASS"
    then pass
    else if s == "WARN"
    then warn
    else if s == "COMPLETE"
    then complete
    else if s == "FAIL"
    then fail
    else if s == "INCOMPLETE"
    then incomplete
    else if s == "SETUP_FAIL"
    then setup_fail
    else unknown

from_str-name : (s : JobStatus) → from_str (name s) ≡ s
unfolding from_str name
from_str-name pass = refl
from_str-name warn = refl
from_str-name complete = refl
from_str-name fail = refl
from_str-name incomplete = refl
from_str-name unknown = refl
from_str-name setup_fail = refl
