-- ===== src/Console/History.antt =====
-- executor.py: what holds of a `JobConsole` however its thread, the executor and the HTTP server
-- interleave their calls.
use valve_infra.Base.{
  ◌∙◌, ap, ℕ, ◌≡◌, refl, Bool, true, false, List, [], ◌∷◌, ◌++◌, arith, ltb, if◌then◌else◌,
  Bool-cases, inl, inr,
}
use valve_infra.Base.Result.{Result, ok, err, Exception}
use valve_infra.Base.Action.{Action, pure, raise, continue, ◌>>◌, try_except, caught_by}
use valve_infra.Message.{LogLevel, info}
use valve_infra.Message.Framing.{Bytes}
use valve_infra.Job.Timeouts.Spend.{left_in, left_in-watch_all}
use valve_infra.Job.Patterns.{process_line, Names, session_has_ended}
use valve_infra.Console.{
  JobConsole, JobConsoleState, dut_done, tear_down, over, state_value, job_io, Step, log, set_state,
  close,
}
use valve_infra.Console.States.{
  ends, ends-append, torn, Advance, Advance-refl, Advance-trans, log-Quiet, set_state-Advance,
}
use valve_infra.Console.Lines.{
  Matched, match_lines, split_lines, store_matches, copy_needs_reboot, tell_matches, Watched,
  on_console, match_console_patterns, matched_by,
}
use valve_infra.Console.Loop.{
  Ready, from_salad, from_client, other_message, salad_raises, client_raises, forward,
  machine_was_active, relay_machine, type_in, client_left, client_was_active, relay, handle,
  is_empty, everything, is_os_error, is_eof_error, not_os,
}

-- The console moved forward, and the watchdogs have the retries that they had.
pub record Progress (w w' : Watched) : Type 0 where
  pub console : Advance w.job_console w'.job_console
  pub budget : left_in w'.watchdogs ≡ left_in w.watchdogs

pub Progress-refl : (w : Watched) → Progress w w
Progress-refl w = record { console = Advance-refl w.job_console; budget = refl }

pub Progress-trans : {w w' w'' : Watched} → Progress w w' → Progress w' w'' → Progress w w''
Progress-trans h k = record {
  console = Advance-trans h.console k.console;
  budget = k.budget ∙ h.budget;
}

-- A call that, however it ends, makes progress.
abbrev Forward : Action Watched (Unit {0}) → Type 0
Forward m = (w : Watched) → Progress w (m w).1

pure-Forward : Forward (pure tt)
pure-Forward w = Progress-refl w

continue-Forward :
    (r : Result (Unit {0})) (n : Action Watched (Unit {0}))
    → Forward n
    → (w : Watched) → Progress w (continue r (λ _. n) w).1
continue-Forward (ok a) n h w = h w
continue-Forward (err e) n h w = Progress-refl w

>>-Forward : (m n : Action Watched (Unit {0})) → Forward m → Forward n → Forward (m >> n)
>>-Forward m n h k w = Progress-trans (h w) (continue-Forward (m w).0 n k (m w).1)

caught_by-Forward :
    (p : Exception → Bool) (n : Action Watched (Unit {0})) (r : Result (Unit {0}))
    → Forward n
    → (w : Watched) → Progress w (caught_by p n r w).1
caught_by-Forward p n (ok a) h w = Progress-refl w
caught_by-Forward p n (err e) h w = elim (Bool-cases (p e)) [
  | inl y ↦ rw (y) (h w)
  | inr y ↦ rw (y) (Progress-refl w)
]

try_except-Forward :
    (m : Action Watched (Unit {0})) (p : Exception → Bool) (n : Action Watched (Unit {0}))
    → Forward m
    → Forward n
    → Forward (try_except m p n)
try_except-Forward m p n h k w = Progress-trans (h w) (caught_by-Forward p n (m w).0 k (m w).1)

-- A call with the proof.
abbrev Sure : Type 0
Sure = (m : Action Watched (Unit {0})) × Forward m

infixr 4 ◌then◌
abbrev ◌then◌ : Sure → Sure → Sure
s then t = (s.0 >> t.0, >>-Forward s.0 t.0 s.1 t.1)

abbrev guarded : Sure → (Exception → Bool) → Sure → Sure
guarded s p t = (try_except s.0 p t.0, try_except-Forward s.0 p t.0 s.1 t.1)

on_console-Forward : (s : Step) → ((c : JobConsole) → Advance c (s c).1) → Forward (on_console s)
unfolding on_console
on_console-Forward s h w = record { console = h w.job_console; budget = refl }

pub quiet_Advance :
    {c c' : JobConsole} → c'.state ≡ c.state → ends c'.sent ≡ ends c.sent → Advance c c'
quiet_Advance s e = record {
  forward = omega (arith, ap state_value s);
  told = omega (arith, e, ap torn s);
}

pub log-Forward : (l : LogLevel) → Forward (on_console (log l))
log-Forward l =
    on_console-Forward (log l) (λ c. let q = log-Quiet l c in quiet_Advance q.state q.sent)

pub set_state-Forward : (now : ℕ) (s : JobConsoleState) → Forward (on_console (set_state now s))
set_state-Forward now s = on_console-Forward (set_state now s) (set_state-Advance now s)

close-Forward : (now : ℕ) → Forward (on_console (close now))
unfolding close
close-Forward now = set_state-Forward now over

matched-left_in :
    (now : ℕ) (ls : List Bytes) (m : Matched)
    → left_in (match_lines now ls m).timeouts ≡ left_in m.timeouts
unfolding match_lines process_line
matched-left_in now [] m = refl
matched-left_in now (l ∷ ls) m =
    matched-left_in now ls _ ∙ left_in-watch_all now l m.console.watchdogs m.timeouts

store-Forward : (now : ℕ) (buf : Bytes) → Forward (store_matches now buf)
unfolding store_matches
store-Forward now buf w = record {
  console = quiet_Advance refl refl;
  budget = matched-left_in now (split_lines (w.job_console.line_buffer ++ buf)).lines _;
}

tell-Forward : (names : Names) → Forward (tell_matches names)
unfolding tell_matches
tell-Forward [] = pure-Forward
tell-Forward (n ∷ names) = log-Forward info

copy-Advance : (c : JobConsole) → Advance c (copy_needs_reboot c).1
unfolding copy_needs_reboot
copy-Advance c = quiet_Advance refl refl

match-Forward : (now : ℕ) (buf : Bytes) → Forward (match_console_patterns now buf)
unfolding match_console_patterns
match-Forward now buf w =
    let names = (matched_by now buf w).names in
    let all : Sure =
      (store_matches now buf, store-Forward now buf)
      then (tell_matches names, tell-Forward names)
      then (on_console copy_needs_reboot, on_console-Forward copy_needs_reboot copy-Advance) in
    all.1 w

forward-Advance : (buf : Bytes) (c : JobConsole) → Advance c (forward buf c).1
unfolding forward
forward-Advance buf c =
    quiet_Advance (ground arith) (ground (arith, ends-append c.sent (job_io buf ∷ [])))

active-Advance :
    (now : ℕ) (buf : Bytes) (c : JobConsole) → Advance c (machine_was_active now buf c).1
unfolding machine_was_active
active-Advance now buf c = quiet_Advance (ground arith) (ground arith)

type_in-Advance : (buf : Bytes) (c : JobConsole) → Advance c (type_in buf c).1
unfolding type_in
type_in-Advance buf c = quiet_Advance (ground arith) (ground arith)

noted-Forward : (now : ℕ) → Forward (on_console (client_was_active now))
unfolding client_was_active
noted-Forward now = on_console-Forward (client_was_active now) (λ c. quiet_Advance refl refl)

ended-Advance :
    (now : ℕ) (b : Bool) (c : JobConsole)
    → Advance c (if b then set_state now dut_done c else (ok tt, c)).1
ended-Advance now true c = set_state-Advance now dut_done c
ended-Advance now false c = Advance-refl c

eof-Forward :
    (now : ℕ) (b : Bool) → Forward (if b then on_console (set_state now dut_done) else pure tt)
eof-Forward now true = set_state-Forward now dut_done
eof-Forward now false = pure-Forward

abbrev logs : Sure
logs = (on_console (log info), log-Forward info)

abbrev closes : ℕ → Sure
closes now = (on_console (close now), close-Forward now)

abbrev matches : ℕ → Bytes → Sure
matches now buf = (match_console_patterns now buf, match-Forward now buf)

abbrev console_step : (s : Step) → ((c : JobConsole) → Advance c (s c).1) → Sure
console_step s h = (on_console s, on_console-Forward s h)

relay_machine-Forward : (now : ℕ) (buf : Bytes) → Forward (relay_machine now buf)
unfolding relay_machine
relay_machine-Forward now buf =
    let all : Sure =
      (_, eof-Forward now (is_empty buf))
      then guarded (matches now buf) everything logs
      then console_step (machine_was_active now buf) (active-Advance now buf)
      then console_step (forward buf) (forward-Advance buf)
      then console_step
          (λ c.
            if session_has_ended c.console_patterns then set_state now dut_done c else (ok tt, c))
          (λ c. ended-Advance now (session_has_ended c.console_patterns) c) in
    all.1

early-Advance : (b : Bool) (c : JobConsole) → Advance c (if b then log info c else (ok tt, c)).1
unfolding on_console
early-Advance true c = (log-Forward info (record { job_console = c; watchdogs = [] })).console
early-Advance false c = Advance-refl c

left-Forward : (now : ℕ) → Forward (client_left now)
unfolding client_left
left-Forward now =
    let all : Sure =
      console_step
        (λ c. if ltb (state_value c.state) (state_value tear_down) then log info c else (ok tt, c))
        (λ c. early-Advance (ltb (state_value c.state) (state_value tear_down)) c)
      then logs
      then closes now in
    all.1

relay-Forward : (now : ℕ) (r : Ready) → Forward (relay now r)
unfolding relay
relay-Forward now (from_salad buf) = relay_machine-Forward now buf
relay-Forward now (salad_raises e) = λ w. Progress-refl w
relay-Forward now (from_client buf) =
    let all : Sure =
      guarded (console_step (type_in buf) (type_in-Advance buf)) is_eof_error
        (client_left now, left-Forward now)
      then (on_console (client_was_active now), noted-Forward now) in
    all.1
relay-Forward now other_message = noted-Forward now
relay-Forward now (client_raises e) =
    let all : Sure =
      guarded (raise e, λ w. Progress-refl w) is_eof_error (client_left now, left-Forward now)
      then (on_console (client_was_active now), noted-Forward now) in
    all.1

pub handle-Forward : (now : ℕ) (r : Ready) → Forward (handle now r)
unfolding handle
handle-Forward now r =
    let all : Sure =
      guarded (guarded (relay now r, relay-Forward now r) not_os (pure tt, pure-Forward))
        is_os_error (logs then closes now) in
    all.1
