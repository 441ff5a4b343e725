-- ===== src/Console/Transparent.antt =====
-- executor.py: the relay of `JobConsole.run` from the machine to its client, buffer by buffer.
use valve_infra.Base.{
  lt→ltb, append-nil, ◌∙◌, sym, ap, ℕ, ◌≡◌, refl, Bool, true, false, List, [], ◌∷◌, ◌++◌, arith,
  if◌then◌else◌, Bool-cases, inl, inr, append_assoc,
}
use valve_infra.Base.Result.{ok, Exception}
use valve_infra.Base.Action.{Action, pure, ◌>>◌, try_except}
use valve_infra.Message.{info}
use valve_infra.Message.Framing.{Bytes}
use valve_infra.Job.Patterns.{Names, session_has_ended}
use valve_infra.Console.{JobConsole, dut_done, state_value, Step, log, set_state}
use valve_infra.Console.Lines.{
  Watched, on_console, match_console_patterns, store_matches, tell_matches, copy_needs_reboot,
  matched_by, concat,
}
use valve_infra.Console.Loop.{
  from_salad, forward, machine_was_active, relay_machine, relay, handle, handle_all, Pass, run_loop,
  is_empty, everything, is_os_error, not_os,
}
use valve_infra.Console.Relay.{
  IsRelaying, payload, Relays, idle-Relays, log-Relays, forward-Relays, active-Relays, done-Relays,
}

-- As `Relays`, on the console with its timeouts.
record Passes (m : Action Watched (Unit {0})) (bytes : Bytes) (w : Watched) : Type 0 where
  after : Watched
  runs : m w ≡ (ok tt, after)
  still : IsRelaying after.job_console
  sent : payload after.job_console.sent ≡ payload w.job_console.sent ++ bytes

abbrev Passing : Action Watched (Unit {0}) → Bytes → Type 0
Passing m bytes = (w : Watched) → IsRelaying w.job_console → Passes m bytes w

on_console-Passing :
    (s : Step) (bytes : Bytes)
    → ((c : JobConsole) → IsRelaying c → Relays s bytes c)
    → Passing (on_console s) bytes
unfolding on_console
on_console-Passing s bytes h w r =
    let k = h w.job_console r in
    record {
      after = record w { job_console = k.after };
      runs = rw (k.runs) refl;
      still = k.still;
      sent = k.sent;
    }

>>-Passing :
    (m n : Action Watched (Unit {0})) (xs ys : Bytes)
    → Passing m xs
    → Passing n ys
    → Passing (m >> n) (xs ++ ys)
>>-Passing m n xs ys h k w r =
    let first = h w r in
    let second = k first.after first.still in
    record {
      after = second.after;
      runs = rw (first.runs) second.runs;
      still = second.still;
      sent =
          second.sent
          ∙ ap (λ b. b ++ ys) first.sent
          ∙ append_assoc (payload w.job_console.sent) xs ys;
    }

try_except-Passing :
    (m : Action Watched (Unit {0})) (p : Exception → Bool) (n : Action Watched (Unit {0}))
    (xs : Bytes)
    → Passing m xs
    → Passing (try_except m p n) xs
try_except-Passing m p n xs h w r =
    let k = h w r in
    record { after = k.after; runs = rw (k.runs) refl; still = k.still; sent = k.sent }

-- A call with the bytes that it passes on, and the proof.
abbrev Passed : Type 0
Passed = (m : Action Watched (Unit {0})) × (bytes : Bytes) × Passing m bytes

infixr 4 ◌then◌
abbrev ◌then◌ : Passed → Passed → Passed
s then t = (s.0 >> t.0, s.1 ++ t.1, >>-Passing s.0 t.0 s.1 t.1 s.2 t.2)

quiet-Passes :
    (w w' : Watched)
    → IsRelaying w'.job_console
    → w'.job_console.sent ≡ w.job_console.sent
    → payload w'.job_console.sent ≡ payload w.job_console.sent ++ []
quiet-Passes w w' r e = ap payload e ∙ sym (append-nil (payload w.job_console.sent))

store-Passing : (now : ℕ) (buf : Bytes) → Passing (store_matches now buf) []
unfolding store_matches
store-Passing now buf w r = record {
  after = (store_matches now buf w).1;
  runs = refl;
  still = record { version = r.version; client = r.client; early = r.early };
  sent = sym (append-nil (payload w.job_console.sent));
}

idle-Passing : Passing (pure tt) []
idle-Passing w r = record {
  after = w;
  runs = refl;
  still = r;
  sent = sym (append-nil (payload w.job_console.sent));
}

tell-Passing : (names : Names) → Passing (tell_matches names) []
unfolding tell_matches
tell-Passing [] = idle-Passing
tell-Passing (n ∷ names) = on_console-Passing (log info) [] (log-Relays info)

copy-Relays : (c : JobConsole) → IsRelaying c → Relays copy_needs_reboot [] c
unfolding copy_needs_reboot
copy-Relays c r = record {
  after = (copy_needs_reboot c).1;
  runs = refl;
  still = record { version = r.version; client = r.client; early = r.early };
  sent = sym (append-nil (payload c.sent));
}

match-Passing : (now : ℕ) (buf : Bytes) → Passing (match_console_patterns now buf) []
unfolding match_console_patterns
match-Passing now buf w r =
    let names = (matched_by now buf w).names in
    let all : Passed =
      (store_matches now buf, [], store-Passing now buf)
      then (tell_matches names, [], tell-Passing names)
      then (
        on_console copy_needs_reboot,
        [],
        on_console-Passing copy_needs_reboot [] copy-Relays,
      ) in
    let p = all.2 w r in record { after = p.after; runs = p.runs; still = p.still; sent = p.sent }

eof-Passing :
    (now : ℕ) (b : Bool) → Passing (if b then on_console (set_state now dut_done) else pure tt) []
eof-Passing now true = on_console-Passing (set_state now dut_done) [] (done-Relays now)
eof-Passing now false = idle-Passing

ended-Relays :
    (now : ℕ) (c : JobConsole)
    → IsRelaying c
    → Relays
        (λ c. if session_has_ended c.console_patterns then set_state now dut_done c else (ok tt, c))
        []
        c
ended-Relays now c r = elim (Bool-cases (session_has_ended c.console_patterns)) [
  | inl y ↦
      let k = done-Relays now c r in
      record { after = k.after; runs = rw (y) k.runs; still = k.still; sent = k.sent }
  | inr n ↦
      let k = idle-Relays c r in
      record { after = k.after; runs = rw (n) k.runs; still = k.still; sent = k.sent }
]

relay_machine-Passing : (now : ℕ) (buf : Bytes) → Passing (relay_machine now buf) buf
unfolding relay_machine
relay_machine-Passing now buf w r =
    let matches = match_console_patterns now buf in
    let all : Passed =
      (_, [], eof-Passing now (is_empty buf))
      then (
        try_except matches everything (on_console (log info)),
        [],
        try_except-Passing matches everything (on_console (log info)) [] (match-Passing now buf),
      )
      then (_, [], on_console-Passing (machine_was_active now buf) [] (active-Relays now buf))
      then (_, buf, on_console-Passing (forward buf) buf (forward-Relays buf))
      then (_, [], on_console-Passing _ [] (ended-Relays now)) in
    let p = all.2 w r in
    record {
      after = p.after;
      runs = p.runs;
      still = p.still;
      sent = p.sent ∙ ap (λ b. payload w.job_console.sent ++ b) (append-nil buf);
    }

handle-Passing : (now : ℕ) (buf : Bytes) → Passing (handle now (from_salad buf)) buf
unfolding handle relay
handle-Passing now buf =
    let first = try_except (relay_machine now buf) not_os (pure tt) in
    try_except-Passing first is_os_error _ buf (
      try_except-Passing (relay_machine now buf) not_os (pure tt) buf
        (relay_machine-Passing now buf))

-- The passes of the loop in which only SALAD has something, one buffer each.
abbrev pub from_machine : List (ℕ × Bytes) → List Pass
from_machine [] = []
from_machine ((now, buf) ∷ bufs) =
    record { now = now; ready = from_salad buf ∷ [] } ∷ from_machine bufs

abbrev pub buffers : List (ℕ × Bytes) → List Bytes
buffers [] = []
buffers ((now, buf) ∷ bufs) = buf ∷ buffers bufs

-- A client of version 1 that is connected gets the bytes of the machine's console, all of them, in
-- order and nothing else between them, whatever the buffers, the log level and the patterns: the
-- loop neither raises nor stops, also when the console patterns end the session.
pub run_loop-payload :
    (bufs : List (ℕ × Bytes)) (w : Watched)
    → IsRelaying w.job_console
    → (w' : Watched) × (run_loop (from_machine bufs) w ≡ (ok tt, w'))
      × IsRelaying w'.job_console
      × (payload w'.job_console.sent ≡ payload w.job_console.sent ++ concat (buffers bufs))
unfolding run_loop handle_all
run_loop-payload [] w r = (w, refl, r, sym (append-nil (payload w.job_console.sent)))
run_loop-payload ((now, buf) ∷ bufs) w r =
    let p = handle-Passing now buf w r in
    let (w', runs, still, sent) = run_loop-payload bufs p.after p.still in
    (
      w',
      rw (lt→ltb (state_value w.job_console.state) 4 (omega (arith, r.early)), p.runs) runs,
      still,
      sent
          ∙ ap (λ b. b ++ concat (buffers bufs)) p.sent
          ∙ append_assoc (payload w.job_console.sent) buf (concat (buffers bufs)),
    )
