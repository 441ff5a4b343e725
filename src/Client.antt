-- ===== src/Client.antt =====
-- executor/client/src/valve_gfx_ci/executor/client/client.py: the client that queues a job and
-- connects the user's terminal to it. What the client itself prints or logs is left out.
--
-- The input is a script: what the server answers to the requests, and then what `select` finds,
-- in order. Whether the socket gives messages or lines is decided by the version of the answer, and
-- is the same for all of a script. `decode` is the decoding of a status, which is ASCII.
pub mod Session
pub mod Queue
pub use valve_infra.Base.Action.{Action, pure, raise, ◌>>=◌, ◌>>◌}
use valve_infra.Base.{
  or_else, ℕ, String, Bool, true, false, ◌&&◌, ◌||◌, not, Option, none, some, List, [], ◌∷◌, ◌++◌,
  ◌==◌, leb, if◌then◌else◌,
}
use valve_infra.Base.Text.{codes, ◌=b◌}
use valve_infra.Base.Result.{Result, ok, err, Exception}
use valve_infra.Message.Framing.{Bytes}
use valve_infra.Message.Status.{JobStatus, incomplete, unknown, setup_fail, from_str}

-- What the server sends, as the client reads it.
pub data Received : Type 0 where
  control : Bytes → Received
  job_io : Bytes → Received
  session_end : JobStatus → Received

pub record Proxy : Type 0 where
  pub control_char_pressed : Bool
  pub final_lines : Bytes
  pub shown : Bytes
  pub typed : List Bytes

abbrev pub Call : Type 0 → Type 0
Call = Action Proxy

abbrev pub show : Bytes → Call (Unit {0})
show buf p = (ok tt, record p { shown = p.shown ++ buf })

-- `msg.send(job_socket)` of a `JobIOMessage`.
abbrev pub send : Bytes → Result (Unit {0}) → Call (Unit {0})
send buf (ok _) p = (ok tt, record p { typed = p.typed ++ buf ∷ [] })
send buf (err e) p = (err e, p)

-- What came of the download of the job bucket decides whether the status is passed on: an exception
-- is caught together with those of the socket.
abbrev pub end_status : JobStatus → Result (Unit {0}) → JobStatus
end_status s (ok _) = s
end_status s (err e) = incomplete

-- `_read_executor_message_v1`
unfoldable pub read_v1 : Result Received → Result (Unit {0}) → Call (Option JobStatus)
read_v1 (ok (control text)) download = do show text; pure none
read_v1 (ok (job_io buf)) download = do show buf; pure none
read_v1 (ok (session_end s)) download = pure (some (end_status s download))
read_v1 (err e) download = pure (some incomplete)

-- `\w`
abbrev pub is_word : ℕ → Bool
is_word c = (leb 48 c && leb c 57) || (leb 65 c && leb c 90) || (c == 95) || (leb 97 c && leb c 122)

abbrev pub put : ℕ → Bytes × Bytes → Bytes × Bytes
put c (w, s) = (c ∷ w, s)

-- `\w*`, and what is behind it.
unfoldable pub word : Bytes → Bytes × Bytes
word [] = ([], [])
word (c ∷ s) = let rest = word s in if is_word c then put c rest else ([], c ∷ s)

unfoldable pub behind : Bytes → Bytes → Option Bytes
behind [] s = some s
behind (p ∷ ps) [] = none
behind (p ∷ ps) (c ∷ s) = let rest = behind ps s in if p == c then rest else none

abbrev pub ended : Bytes → Option Bytes → Option Bytes
ended w none = none
ended [] (some s) = none
ended (c ∷ w) (some s) = some (c ∷ w)

abbrev pub status_at : Option Bytes → Option Bytes
status_at none = none
status_at (some s) = let (w, t) = word s in ended w (behind (codes " -->") t)

-- `re.search(b'<-- End of the session: (?P<status>\w+) -->', final_lines)`
unfoldable pub find_status : Bytes → Option Bytes
unfolding behind word
find_status [] = none
find_status (c ∷ s) =
    or_else (status_at (behind (codes "<-- End of the session: ") (c ∷ s))) (find_status s)

-- What stands for the end of the input in version 0. Where the lines have no status, reading goes
-- on.
abbrev pub status_of : (Bytes → String) → Option Bytes → Option JobStatus
status_of decode none = none
status_of decode (some w) = some (from_str (decode w))

-- `_read_executor_message_v0`. The lines that it cuts to the last 100 bytes are a copy.
unfoldable pub read_v0 : (Bytes → String) → Result Bytes → Call (Option JobStatus)
unfolding find_status from_str
read_v0 decode (err e) p = (err e, p)
read_v0 decode (ok []) p = (ok (status_of decode (find_status p.final_lines)), p)
read_v0 decode (ok (b ∷ buf)) p =
    (ok none, record p { shown = p.shown ++ b ∷ buf; final_lines = p.final_lines ++ b ∷ buf })

pub data Event : Type 0 where
  key : Bytes → Result (Unit {0}) → Event
  message : Result Received → Result (Unit {0}) → Event
  lines : Result Bytes → Event
  interrupt : Result (Unit {0}) → Event

-- CTRL+A
abbrev pub control_char : Bytes
control_char = 1 ∷ []

-- A key of the terminal.
abbrev pub on_key : Bytes → Result (Unit {0}) → Call (Unit {0})
on_key buf sends p =
    if buf =b control_char
    then if p.control_char_pressed
      then send buf sends p
      else (ok tt, record p { control_char_pressed = true })
    else send buf sends (record p { control_char_pressed = false })

module _ (decode : Bytes → String) where
  -- The body of the loop of `_forward_inputs_and_outputs`, for one event.
  unfoldable pub handle : Event → Call (Option JobStatus)
  unfolding read_v1 read_v0
  handle (key buf sends) p = (do on_key buf sends; pure none) p
  handle (message m download) p = read_v1 m download p
  handle (lines buf) p = read_v0 decode buf p
  handle (interrupt sends) p =
      if p.control_char_pressed
      then (ok (some incomplete), p)
      else (do send (3 ∷ []) sends; pure none) p

  abbrev pub next : Result (Option JobStatus) → Call (Option JobStatus) → Call (Option JobStatus)
  next (ok none) rest = rest
  next (ok (some s)) rest = pure (some s)
  next (err e) rest = raise e

  -- The loop: `none` if it goes on behind these events.
  unfoldable pub forward : List Event → Call (Option JobStatus)
  unfolding handle
  forward [] p = (ok none, p)
  forward (e ∷ es) p = let (r, p') = handle e p in next r (forward es) p'
