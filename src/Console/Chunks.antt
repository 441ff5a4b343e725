-- ===== src/Console/Chunks.antt =====
-- executor.py: `JobConsole.match_console_patterns` over the buffers that a socket happens to give.
use valve_infra.Base.{◌∙◌, sym, ap, ℕ, ◌≡◌, refl, List, [], ◌∷◌, ◌++◌, arith, append_assoc}
use valve_infra.Message.Framing.{Bytes}
use valve_infra.Console.{log, put}
use valve_infra.Console.Lines.{
  copy_needs_reboot, tell_matches, store_matches, split_lines, split_lines-append, Matched,
  match_lines, Watched, on_console, matched_by, match_console_patterns,
}

-- Where two states of the loop agree, but for the names that it will print.
record Agree (m n : Matched) : Type 0 where
  console : m.console ≡ n.console
  timeouts : m.timeouts ≡ n.timeouts

match_lines-Agree :
    (now : ℕ) (ls : List Bytes) (m n : Matched)
    → Agree m n
    → Agree (match_lines now ls m) (match_lines now ls n)
unfolding match_lines
match_lines-Agree now [] m n h = h
match_lines-Agree now (l ∷ ls) m n h =
    match_lines-Agree now ls _ _ (record { console = cc; timeouts = cc })

match_lines-append :
    (now : ℕ) (ls ks : List Bytes) (m : Matched)
    → match_lines now (ls ++ ks) m ≡ match_lines now ks (match_lines now ls m)
unfolding match_lines
match_lines-append now [] ks m = refl
match_lines-append now (l ∷ ls) ks m = match_lines-append now ls ks _

-- What a buffer leaves, whether or not the message on the matched patterns could be sent.
left_by :
    (now : ℕ) (buf : Bytes) (w : Watched)
    → let w' = (match_console_patterns now buf w).1 in
      (w'.job_console.console_patterns ≡ (matched_by now buf w).console)
      × (w'.watchdogs ≡ (matched_by now buf w).timeouts)
      × (w'.job_console.line_buffer ≡ (split_lines (w.job_console.line_buffer ++ buf)).rest)
unfolding match_console_patterns store_matches tell_matches copy_needs_reboot log on_console put
left_by now buf w = ground arith

second_buffer :
    (now : ℕ) (xs ys : Bytes) (w : Watched)
    → Agree (matched_by now ys (match_console_patterns now xs w).1) (matched_by now (xs ++ ys) w)
unfolding matched_by
second_buffer now xs ys w =
    let (console, timeouts, rest) = left_by now xs w in
    let buf = w.job_console.line_buffer in
    let first = (match_console_patterns now xs w).1 in
    rw
      (
        sym (append_assoc buf xs ys),
        split_lines-append (buf ++ xs) ys,
        match_lines-append now (split_lines (buf ++ xs)).lines _ _,
        rest,
      )
      (match_lines-Agree now (split_lines ((split_lines (buf ++ xs)).rest ++ ys)).lines
        (record {
          console = first.job_console.console_patterns;
          timeouts = first.watchdogs;
          names = [];
        })
        (matched_by now xs w) (record { console = console; timeouts = timeouts }))

-- Two buffers match what the one buffer of their bytes does, and leave the same line unfinished.
pub match_console_patterns-append :
    (now : ℕ) (xs ys : Bytes) (w : Watched)
    → let once = (match_console_patterns now (xs ++ ys) w).1 in
      let first = (match_console_patterns now xs w).1 in
      let twice = (match_console_patterns now ys first).1 in
      (twice.job_console.console_patterns ≡ once.job_console.console_patterns)
      × (twice.watchdogs ≡ once.watchdogs)
      × (twice.job_console.line_buffer ≡ once.job_console.line_buffer)
match_console_patterns-append now xs ys w =
    let (console, timeouts, rest) = left_by now ys (match_console_patterns now xs w).1 in
    let (console', timeouts', rest') = left_by now (xs ++ ys) w in
    let (_, _, first) = left_by now xs w in
    let agree = second_buffer now xs ys w in
    let buf = w.job_console.line_buffer in
    (
      console ∙ agree.console ∙ sym console',
      timeouts ∙ agree.timeouts ∙ sym timeouts',
      rest
          ∙ ap (λ b. (split_lines (b ++ ys)).rest) first
          ∙ sym (ap (λ s. s.rest) (split_lines-append (buf ++ xs) ys))
          ∙ ap (λ b. (split_lines b).rest) (append_assoc buf xs ys)
          ∙ sym rest',
    )
