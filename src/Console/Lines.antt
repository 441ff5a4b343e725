-- ===== src/Console/Lines.antt =====
-- executor.py: `JobConsole.match_console_patterns`, which cuts what SALAD sends into lines.
use valve_infra.Base.{
  inr, inl, Bool-cases, ◌∙◌, ap, ℕ, ◌≡◌, refl, Bool, true, false, List, [], ◌∷◌, ◌++◌, ◌==◌,
  if◌then◌else◌, All,
}
use valve_infra.Base.Result.{ok}
use valve_infra.Base.Action.{Action, pure, ◌>>◌}
use valve_infra.Base.Dict.{Dict}
use valve_infra.Message.{info}
use valve_infra.Message.Framing.{Bytes}
use valve_infra.Job.Timeout.{Timeout}
use valve_infra.Job.Patterns.{ConsoleState, Names, process_line, update, needs_reboot}
use valve_infra.Console.{JobConsole, Step, log}

-- A line feed.
abbrev pub newline : ℕ
newline = 10

-- The complete lines of a buffer, each with its line feed, and what is left after the last one.
pub record Split : Type 0 where
  pub lines : List Bytes
  pub rest : Bytes

abbrev push : ℕ → Split → Split
push b s = elim s.lines [
  | [] ↦ record s { rest = b ∷ s.rest }
  | l ∷ ls ↦ record s { lines = (b ∷ l) ∷ ls }
]

-- The loop over `to_process.find(b'\n', cur)`.
unfoldable pub split_lines : Bytes → Split
split_lines [] = record { lines = []; rest = [] }
split_lines (b ∷ bs) =
    let s = split_lines bs in
    if b == newline then record s { lines = (b ∷ []) ∷ s.lines } else push b s

pub record Matched : Type 0 where
  pub console : ConsoleState
  pub timeouts : Dict Timeout
  pub names : Names

-- The lines given to `process_line`, one after the other. The present is taken to be one instant.
unfoldable pub match_lines : ℕ → List Bytes → Matched → Matched
unfolding process_line update
match_lines now [] m = m
match_lines now (l ∷ ls) m =
    let p = process_line now l m.timeouts m.console in
    match_lines now ls
      (record { console = p.console; timeouts = p.timeouts; names = update m.names p.names })

abbrev pub nonempty : Names → Bool
nonempty [] = false
nonempty (n ∷ ns) = true

-- The console with the timeouts of the job, which the watchdogs share.
pub record Watched : Type 0 where
  pub job_console : JobConsole
  pub watchdogs : Dict Timeout

-- A step of the console alone.
unfoldable pub on_console : Step → Action Watched (Unit {0})
on_console s w = let (r, c) = s w.job_console in (r, record w { job_console = c })

-- The state after the loop over the lines.
unfoldable pub matched_by : ℕ → Bytes → Watched → Matched
unfolding split_lines match_lines
matched_by now buf w =
    match_lines now (split_lines (w.job_console.line_buffer ++ buf)).lines
      (record { console = w.job_console.console_patterns; timeouts = w.watchdogs; names = [] })

-- The loop's effect, and what is left of the buffer.
unfoldable pub store_matches : ℕ → Bytes → Action Watched (Unit {0})
unfolding matched_by
store_matches now buf w =
    let m = matched_by now buf w in
    (
      ok tt,
      record w {
        watchdogs = m.timeouts;
        job_console = record w.job_console {
          console_patterns = m.console;
          line_buffer = (split_lines (w.job_console.line_buffer ++ buf)).rest;
        };
      },
    )

-- "Tell the user what happened"
unfoldable pub tell_matches : Names → Action Watched (Unit {0})
unfolding on_console log
tell_matches names = if nonempty names then on_console (log info) else pure tt

-- `self.needs_reboot = self.console_patterns.needs_reboot`
unfoldable pub copy_needs_reboot : Step
copy_needs_reboot c = (ok tt, record c { needs_reboot = needs_reboot c.console_patterns })

-- `match_console_patterns`
unfoldable pub match_console_patterns : ℕ → Bytes → Action Watched (Unit {0})
unfolding store_matches tell_matches copy_needs_reboot
match_console_patterns now buf w =
    (do
      store_matches now buf
      tell_matches (matched_by now buf w).names
      on_console copy_needs_reboot)
      w

-- The lines and the rest of two buffers, one after the other.
abbrev pub joined : Split → Split → Split
joined s t = record { lines = s.lines ++ t.lines; rest = t.rest }

abbrev split : List Bytes → Bytes → Split
split ls r = record { lines = ls; rest = r }

push-joined :
    (b : ℕ) (ls : List Bytes) (r buf : Bytes)
    → (b == newline) ≡ false
    → push b (joined (split ls r) (split_lines (r ++ buf)))
      ≡ joined (push b (split ls r)) (split_lines ((push b (split ls r)).rest ++ buf))
unfolding split_lines
push-joined b [] r buf plain = rw (plain)
push-joined b (l ∷ ls) r buf plain = refl

-- Lines and rest do not depend on how the bytes were cut into buffers.
pub split_lines-append :
    (xs ys : Bytes)
    → split_lines (xs ++ ys) ≡ joined (split_lines xs) (split_lines ((split_lines xs).rest ++ ys))
unfolding split_lines
split_lines-append [] ys = refl
split_lines-append (x ∷ xs) ys =
    let s = split_lines xs in
    let rec = split_lines-append xs ys in
    elim (Bool-cases (x == newline)) [
      | inl e ↦ rw (e, rec)
      | inr e ↦ rw (e, rec) (push-joined x s.lines s.rest ys e)
    ]

-- No byte is lost or added.
abbrev pub concat : List Bytes → Bytes
concat [] = []
concat (l ∷ ls) = l ++ concat ls

concat-push :
    (b : ℕ) (ls : List Bytes) (r : Bytes)
    → concat (push b (split ls r)).lines ++ (push b (split ls r)).rest ≡ b ∷ (concat ls ++ r)
concat-push b [] r = refl
concat-push b (l ∷ ls) r = refl

-- A line: bytes other than a line feed, then one.
abbrev IsLine : Bytes → Type 0
IsLine [] = ⊥
IsLine (b ∷ []) = (b == newline) ≡ true
IsLine (b ∷ c ∷ bs) = ((b == newline) ≡ false) × IsLine (c ∷ bs)

push-IsLine :
    (b : ℕ) (ls : List Bytes) (r : Bytes)
    → (b == newline) ≡ false
    → All IsLine ls
    → All IsLine (push b (split ls r)).lines
push-IsLine b [] r plain h = tt
push-IsLine b ([] ∷ ls) r plain h = absurd h.0
push-IsLine b ((c ∷ l) ∷ ls) r plain h = ((plain, h.0), h.1)

-- The bytes of a buffer are those of its lines, in order, then the rest.
pub concat-split_lines : (xs : Bytes) → concat (split_lines xs).lines ++ (split_lines xs).rest ≡ xs
unfolding split_lines
concat-split_lines [] = refl
concat-split_lines (x ∷ xs) =
    let s = split_lines xs in
    let rec = ap (λ l. x ∷ l) (concat-split_lines xs) in
    elim (Bool-cases (x == newline)) [
      | inl e ↦ rw (e) rec
      | inr e ↦ rw (e) (concat-push x s.lines s.rest ∙ rec)
    ]

split_lines-IsLine : (xs : Bytes) → All IsLine (split_lines xs).lines
unfolding split_lines
split_lines-IsLine [] = tt
split_lines-IsLine (x ∷ xs) =
    let s = split_lines xs in
    let rec = split_lines-IsLine xs in
    elim (Bool-cases (x == newline)) [
      | inl e ↦ rw (e) (e, rec)
      | inr e ↦ rw (e) (push-IsLine x s.lines s.rest e rec)
    ]
