-- ===== src/Salad/Console.antt =====
-- salad/src/valve_gfx_ci/salad/console.py: the streams that a machine's console comes in on.
--
-- `decode` is what the bytes of a machine's name decode to. `writes` is what the device answers
-- to writes during a call.
pub mod Pieces
pub mod Wedged
use valve_infra.Base.{
  not, ℕ, String, Bool, true, false, ◌&&◌, ◌||◌, ◌≡◌, Option, none, some, List, [], ◌∷◌, ◌++◌, ◌==◌,
  if◌then◌else◌, or_else,
}
use valve_infra.Base.Text.{codes}
use valve_infra.Base.Result.{Result, ok, err}
use valve_infra.Base.Action.{Action, pure, raise, ◌>>=◌, ◌>>◌}
use valve_infra.Message.Framing.{Bytes}

pub record Stream : Type 0 where
  pub machine_id : Option String
  pub line_buffer : Bytes
  pub written : List Bytes

abbrev pub Call : Type 0 → Type 0
Call = Action Stream

-- `\s`
abbrev is_space : ℕ → Bool
is_space c = (c == 32) || (c == 9) || (c == 10) || (c == 11) || (c == 12) || (c == 13)

-- `\S+`, where it matches.
word : Bytes → Bytes
word [] = []
word (c ∷ s) = let rest = word s in if is_space c then [] else c ∷ rest

-- What is behind a text at the start of `s`. A point of the expression stands for any byte but the
-- end of a line.
behind : Bytes → Bytes → Option Bytes
behind [] s = some s
behind (p ∷ ps) [] = none
behind (p ∷ ps) (c ∷ s) =
    let rest = behind ps s in if (p == c) || ((p == 46) && not (c == 10)) then rest else none

abbrev nonempty : Bytes → Option Bytes
nonempty [] = none
nonempty (c ∷ s) = some (c ∷ s)

abbrev word_of : Option Bytes → Option Bytes
word_of none = none
word_of (some s) = nonempty (word s)

-- `SALAD.machine_id=(?P<machine_id>\S+)`
id_here : Bytes → Option Bytes
unfolding behind word
id_here s = word_of (behind (codes "SALAD.machine_id=") s)

-- `.*` in front: the last place in the first line where it matches.
unfoldable pub find_id : Bytes → Option Bytes
unfolding id_here
find_id [] = none
find_id (c ∷ s) = let later = if c == 10 then none else find_id s in or_else later (id_here (c ∷ s))

-- `$` after the text.
abbrev is_end : Bytes → Bool
is_end [] = true
is_end (c ∷ []) = c == 10
is_end (c ∷ d ∷ s) = false

-- `\n$`
abbrev is_newline_end : Bytes → Bool
is_newline_end [] = false
is_newline_end (c ∷ s) = (c == 10) && is_end s

-- `\r?\n$`
abbrev pub is_serial_end : Bytes → Bool
is_serial_end [] = false
is_serial_end (c ∷ s) = if c == 13 then is_newline_end s else is_newline_end (c ∷ s)

abbrev pub is_tcp_end : Bytes → Bool
is_tcp_end s = is_end s

abbrev ends_well : (Bytes → Bool) → Option Bytes → Bool
ends_well ends none = false
ends_well ends (some s) = ends s

-- `ping_re.search(line)`: `SALAD.ping`, and what a kind of stream wants behind it.
unfoldable pub pings : (Bytes → Bool) → Bytes → Bool
unfolding behind
pings ends [] = false
pings ends (c ∷ s) = ends_well ends (behind (codes "SALAD.ping") (c ∷ s)) || pings ends s

-- `send`
unfoldable pub send : Bytes → Result (Unit {0}) → Call (Unit {0})
send buf (ok _) s = (ok tt, record s { written = s.written ++ buf ∷ [] })
send buf (err e) s = (err e, s)

abbrev pub reply : {A : Type 0} → Result A → Call A
reply r s = (r, s)

module _ (decode : Bytes → Result String) (ends : Bytes → Bool) (writes : Result (Unit {0})) where
  abbrev pub own : Option Bytes → Call (Unit {0})
  own none = pure tt
  own (some name) = do
    new_machine_id ← reply (decode name)
    λ s. (ok tt, record s { machine_id = some new_machine_id })

  -- `process_input_line`
  unfoldable pub process_input_line : Bytes → Call (Unit {0})
  unfolding find_id pings send
  process_input_line line = do
    own (find_id line)
    if pings ends line then send (codes "SALAD.pong" ++ 10 ∷ []) writes else pure tt

  -- The end of the body of the loop of `SerialConsoleStream.recv`.
  abbrev pub end_byte : ℕ → Call (Unit {0})
  end_byte b s =
      if b == 10
      then (do process_input_line s.line_buffer; λ s'. (ok tt, record s' { line_buffer = [] })) s
      else (ok tt, s)

  -- `SerialConsoleStream.recv`, over the bytes that the device has and what it answers behind them:
  -- nothing, or an exception.
  unfoldable pub serial_recv : Bytes → Result (Unit {0}) → Call Bytes
  unfolding process_input_line
  serial_recv [] last = do reply last; pure []
  serial_recv (b ∷ buf) last = do
    λ s. (ok tt, record s { line_buffer = s.line_buffer ++ b ∷ [] })
    end_byte b
    r_buf ← serial_recv buf last
    pure (b ∷ r_buf)

  -- `for line in lines: self.process_input_line(line)`
  unfoldable pub process_lines : List Bytes → Call (Unit {0})
  unfolding process_input_line
  process_lines [] = pure tt
  process_lines (line ∷ lines) = do process_input_line line; process_lines lines

-- What is between the ends of lines, and what is behind the last.
pub record Split : Type 0 where
  pub lines : List Bytes
  pub rest : Bytes

abbrev pub push : ℕ → Split → Split
push b s = elim s.lines [
  | [] ↦ record s { rest = b ∷ s.rest }
  | l ∷ ls ↦ record s { lines = (b ∷ l) ∷ ls }
]

abbrev pub at_newline : Bytes → Bool
at_newline [] = false
at_newline (c ∷ s) = c == 10

-- `re.split(rb'\r?\n', buf)`, with the last piece taken off.
unfoldable pub split : Bytes → Split
split [] = record { lines = []; rest = [] }
split (b ∷ bs) =
    let s = split bs in
    if b == 10
    then record s { lines = [] ∷ s.lines }
    else if (b == 13) && at_newline bs
    then s
    else push b s

module _ (decode : Bytes → Result String) (writes : Result (Unit {0})) where
  abbrev pub take_in : Bytes → Call Bytes
  take_in buf s =
      let cut = split (s.line_buffer ++ buf) in
      (do process_lines decode is_tcp_end writes cut.lines; pure buf)
        (record s { line_buffer = cut.rest })

  -- `TCPConsoleStream.recv`
  unfoldable pub tcp_recv : Result Bytes → Call Bytes
  unfolding process_lines split
  tcp_recv (err e) = raise e
  tcp_recv (ok buf) = take_in buf
