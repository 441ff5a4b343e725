-- ===== src/Job/Patterns/Seen.antt =====
-- job.py: what the lines that the console has shown leave in `ConsoleState`.
use text.Mathlib.Text.{◌==◌}
use text.Mathlib.TextEquality.{eq_iff}
use valve_infra.Base.{
  ℕ, String, ◌≡◌, refl, ◌∙◌, Bool, false, ◌||◌, Option, none, some, List, [], ◌∷◌, arith, is_some,
  or_else, if◌then◌else◌,
}
use valve_infra.Base.Dict.{Dict, IsDict, lookup, has, lookup-insert, insert-IsDict}
use valve_infra.Message.Framing.{Bytes}
use valve_infra.Job.Timeout.{Timeout}
use valve_infra.Job.Patterns.{
  Pattern, Names, mem, add, update, discard, ConsoleState, with_pattern, named_patterns,
  match_patterns, process_line, reset_per_boot_state,
}

-- What happens to a console during a job: a line arrives, or the machine is booted again.
pub data Event : Type 0 where
  line : ℕ → Bytes → Event
  boot : Event

abbrev pub step : Event → ConsoleState × Dict Timeout → ConsoleState × Dict Timeout
step (line now l) (c, ts) = let p = process_line now l ts c in (p.console, p.timeouts)
step boot (c, ts) = (reset_per_boot_state c, ts)

-- The events, oldest first.
pub run : List Event → ConsoleState × Dict Timeout → ConsoleState × Dict Timeout
run [] s = s
run (e ∷ es) s = run es (step e s)

-- The pattern is set and some line of the job matched it.
abbrev hit : Option Pattern → Bytes → Bool
hit none l = false
hit (some p) l = p.search l

abbrev pub seen : Option Pattern → List Event → Bool
seen p [] = false
seen p (line now l ∷ es) = hit p l || seen p es
seen p (boot ∷ es) = seen p es

-- The same, for the lines since the last boot.
abbrev pub seen_since_boot : Bool → Option Pattern → List Event → Bool
seen_since_boot before p [] = before
seen_since_boot before p (line now l ∷ es) = seen_since_boot (before || hit p l) p es
seen_since_boot before p (boot ∷ es) = seen_since_boot false p es

mem-add : (n m : String) (s : Names) → mem n (add m s) ≡ (mem n s || (m == n))
unfolding add
mem-add n m s = ground (arith, eq_iff m n)

mem-update : (n : String) (s ns : Names) → mem n (update s ns) ≡ (mem n s || mem n ns)
unfolding update
mem-update n s [] = ground arith
mem-update n s (m ∷ ns) = ground (arith, mem-update n (add m s) ns, mem-add n m s)

mem-discard : (n k : String) (s : Names) → mem n (discard k s) ≡ (if k == n then false else mem n s)
unfolding discard
mem-discard n k [] = ground arith
mem-discard n k (m ∷ s) = ground (arith, mem-discard n k s, eq_iff m k, eq_iff m n, eq_iff k n)

mem-match_patterns-has :
    (n : String) (l : Bytes) (d : Dict Pattern)
    → has n d ≡ false
    → mem n (match_patterns l d) ≡ false
unfolding match_patterns
mem-match_patterns-has n l [] h = refl
mem-match_patterns-has n l ((k, p) ∷ d) h = ground (arith, mem-match_patterns-has n l d)

mem-match_patterns :
    (n : String) (l : Bytes) (d : Dict Pattern)
    → IsDict d
    → mem n (match_patterns l d) ≡ hit (lookup n d) l
unfolding match_patterns lookup
mem-match_patterns n l [] h = refl
mem-match_patterns n l ((k, p) ∷ d) h =
    ground (arith, mem-match_patterns n l d h.1, mem-match_patterns-has n l d, eq_iff k n)

pub has-lookup : (n : String) (d : Dict Pattern) → has n d ≡ is_some (lookup n d)
unfolding lookup
has-lookup n [] = refl
has-lookup n ((k, p) ∷ d) = ground (arith, has-lookup n d)

lookup-with_pattern :
    (j k : String) (p : Option Pattern) (d : Dict Pattern)
    → lookup j (with_pattern k p d) ≡ (if k == j then or_else p (lookup j d) else lookup j d)
unfolding with_pattern
lookup-with_pattern j k none d = ground arith
lookup-with_pattern j k (some p) d = ground (arith, lookup-insert k j p d)

with_pattern-IsDict :
    (k : String) (p : Option Pattern) (d : Dict Pattern) → IsDict d → IsDict (with_pattern k p d)
unfolding with_pattern
with_pattern-IsDict k none d h = h
with_pattern-IsDict k (some p) d h = insert-IsDict k p d h

or_else-none {ℓ} : {A : Type ℓ} (o : Option A) → or_else o none ≡ o
or_else-none none = refl
or_else-none (some a) = refl

-- What a name of a pattern stands for, in a state whose patterns were filled by `__init__`.
module _ (e : Pattern) (reboot success warn unfit : Option Pattern) where
  abbrev pub set_up : Dict Pattern
  set_up = named_patterns e reboot success warn unfit

  pub set_up-IsDict : IsDict set_up
  unfolding named_patterns
  set_up-IsDict = with_pattern-IsDict _ unfit _ (
      with_pattern-IsDict _ warn _
        (with_pattern-IsDict _ success _ (with_pattern-IsDict _ reboot _ (refl, tt))))

  pub lookup_end : lookup "session_end" set_up ≡ some e
  unfolding named_patterns lookup
  lookup_end = simp lookup-with_pattern

  pub lookup_reboot : lookup "session_reboot" set_up ≡ reboot
  unfolding named_patterns lookup
  lookup_reboot = simp (lookup-with_pattern, or_else-none)

  pub lookup_success : lookup "job_success" set_up ≡ success
  unfolding named_patterns lookup
  lookup_success = simp (lookup-with_pattern, or_else-none)

  pub lookup_warn : lookup "job_warn" set_up ≡ warn
  unfolding named_patterns lookup
  lookup_warn = simp (lookup-with_pattern, or_else-none)

  pub lookup_unfit : lookup "machine_unfit_for_service" set_up ≡ unfit
  unfolding named_patterns lookup
  lookup_unfit = simp (lookup-with_pattern, or_else-none)

  -- No pattern has the name for which `session_has_ended` asks besides `session_end`.
  pub lookup_other : lookup "unfit_for_service" set_up ≡ none
  unfolding named_patterns lookup
  lookup_other = simp lookup-with_pattern

pub run-patterns :
    (es : List Event) (c : ConsoleState) (ts : Dict Timeout)
    → (run es (c, ts)).0.patterns ≡ c.patterns
unfolding run process_line reset_per_boot_state
run-patterns [] c ts = refl
run-patterns (line now l ∷ es) c ts =
    let p = process_line now l ts c in run-patterns es p.console p.timeouts
run-patterns (boot ∷ es) c ts = run-patterns es (reset_per_boot_state c) ts

pub mem-run :
    (n : String) (es : List Event) (c : ConsoleState) (ts : Dict Timeout)
    → ("session_reboot" == n) ≡ false
    → IsDict c.patterns
    → mem n (run es (c, ts)).0.matched ≡ (mem n c.matched || seen (lookup n c.patterns) es)
unfolding run process_line reset_per_boot_state
mem-run n [] c ts h d = ground arith
mem-run n (line now l ∷ es) c ts h d =
    let p = process_line now l ts c in
    ground (
      arith,
      mem-run n es p.console p.timeouts h d,
      mem-update n c.matched (match_patterns l c.patterns),
      mem-match_patterns n l c.patterns d,
    )
mem-run n (boot ∷ es) c ts h d =
    ground (
      arith,
      mem-run n es (reset_per_boot_state c) ts h d,
      mem-discard n "session_reboot" c.matched,
    )

pub mem-run_reboot :
    (es : List Event) (c : ConsoleState) (ts : Dict Timeout)
    → IsDict c.patterns
    → mem "session_reboot" (run es (c, ts)).0.matched
      ≡ seen_since_boot (mem "session_reboot" c.matched) (lookup "session_reboot" c.patterns) es
unfolding run process_line reset_per_boot_state
mem-run_reboot [] c ts d = refl
mem-run_reboot (line now l ∷ es) c ts d =
    let p = process_line now l ts c in
    mem-run_reboot es p.console p.timeouts d
    ∙ rw (
      mem-update "session_reboot" c.matched (match_patterns l c.patterns),
      mem-match_patterns "session_reboot" l c.patterns d,
    )
mem-run_reboot (boot ∷ es) c ts d =
    mem-run_reboot es (reset_per_boot_state c) ts d
    ∙ rw (mem-discard "session_reboot" "session_reboot" c.matched)
