-- ===== src/Client/Queue.antt =====
-- client.py: `_parse_response`, `queue_job` and `run`.
pub mod Success
use valve_infra.Base.{
  ℕ, String, Bool, true, false, ◌&&◌, not, Option, none, some, List, [], ◌∷◌, ◌==◌, if◌then◌else◌,
  get_or,
}
use valve_infra.Base.Result.{Result, ok, err, value_error, type_error, Exception}
use valve_infra.Message.Framing.{Bytes}
use valve_infra.Message.Status.{JobStatus, unknown, setup_fail}
use valve_infra.Client.{Proxy, Event, forward}

-- `Response`
pub record Response : Type 0 where
  pub version : ℕ
  pub error_msg : Option String

-- The body of an answer: no JSON, or an object; whether an object of version 1 has other fields
-- than a `Response`.
pub data Reply : Type 0 where
  not_json : String → Reply
  object : Option ℕ → Option String → Option String → Bool → Reply

-- `_parse_response`
unfoldable pub parse_response : Reply → Result Response
parse_response (not_json text) = ok (record { version = 0; error_msg = some text })
parse_response (object version reason error_msg extra) =
    let v = get_or version 0 in
    if v == 0
    then ok (record { version = 0; error_msg = reason })
    else if v == 1
    then if extra then err type_error else ok (record { version = 1; error_msg = error_msg })
    else err value_error

-- Whether the job was queued.
pub data Queued : Type 0 where
  queued refused : Response → Queued
  waiting unreachable : Queued

abbrev pub on_response : ℕ → Bool → Result Response → Result Queued → Result Queued
on_response code wait (err e) rest = err e
on_response code wait (ok r) rest =
    if code == 200 then ok (queued r) else if (code == 409) && wait then rest else ok (refused r)

-- `queue_job`, over the answers to its requests; none where the server cannot be reached.
unfoldable pub queue_job : Bool → List (Option (ℕ × Reply)) → Result Queued
unfolding parse_response
queue_job wait [] = ok waiting
queue_job wait (none ∷ replies) = ok unreachable
queue_job wait (some (code, reply) ∷ replies) =
    on_response code wait (parse_response reply) (queue_job wait replies)

abbrev pub start : Proxy
start = record { control_char_pressed = false; final_lines = []; shown = []; typed = [] }

abbrev pub status_or_unknown : Result (Option JobStatus) → Option JobStatus
status_or_unknown (ok s) = s
status_or_unknown (err e) = some unknown

module _ (decode : Bytes → String) where
  abbrev pub proxied : Bool → Response → Bool → List Event → Option JobStatus
  proxied accepted r has_mcli events =
      if accepted
      then if not (r.version == 0) && not has_mcli
        then some setup_fail
        else status_or_unknown (forward decode events start).0
      else some unknown

  abbrev pub connected : Result Queued → Bool → Bool → List Event → Option JobStatus
  connected (err e) accepted has_mcli events = some unknown
  connected (ok waiting) accepted has_mcli events = none
  connected (ok unreachable) accepted has_mcli events = some setup_fail
  connected (ok (refused r)) accepted has_mcli events = some setup_fail
  connected (ok (queued r)) accepted has_mcli events = proxied accepted r has_mcli events

  -- `run`: `accepted` is whether it connected back in time. Its status
  -- is `none` while it waits or forwards.
  unfoldable pub run :
      Bool → List (Option (ℕ × Reply)) → Bool → Bool → List Event → Option JobStatus
  unfolding queue_job forward
  run wait replies accepted has_mcli events =
      connected (queue_job wait replies) accepted has_mcli events
