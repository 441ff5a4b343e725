-- ===== src/Console/Closing.antt =====
-- executor.py: `JobConsole.close`, on a console that is not over yet.
use valve_infra.Base.{
  List, ℕ, ◌<◌, ◌≡◌, sym, subst, Bool, true, false, ◌&&◌, not, arith, ltb, if◌then◌else◌,
}
use valve_infra.Base.Result.{Result, ok, err, attribute_error}
use valve_infra.Base.Action.{◌>>◌, continue}
use valve_infra.Message.{level_value}
use valve_infra.Console.{
  Sent, JobConsole, over, state_value, Socket, absent, hung_up, truthy, is_version_1, put, log,
  close, close_salad, close_client, Step, info, set_state, enter, enter_over,
}

abbrev is_absent : Socket → Bool
is_absent absent = true
is_absent s = false

-- A client that was never connected to.
abbrev pub unconnected : JobConsole → Bool
unconnected c = truthy c.client_version && is_absent c.client_sock

-- The log already trips over it.
abbrev pub trips : JobConsole → Bool
trips c = unconnected c && is_version_1 c.client_version && not (ltb 1 (level_value c.log_level))

abbrev shut_down : Step
unfolding close_salad close_client
shut_down = close_salad >> close_client

log_info :
    (c : JobConsole)
    → log info c
      ≡ (if trips c then err attribute_error else ok tt, record c { sent = (log info c).1.sent })
unfolding log put level_value
log_info c = ground arith

-- What a close leaves behind, in the terms of the console that it began with.
abbrev Closed : JobConsole → Result (Unit {0}) × JobConsole → Type 0
Closed c (r, c') =
    (r ≡ (if unconnected c then err attribute_error else ok tt))
    × (c'.state ≡ over)
    × (c'.salad_sock ≡ (if trips c then c.salad_sock else hung_up))
    × (c'.client_sock ≡ (
        if unconnected c
        then absent
        else if truthy c.client_version
        then hung_up
        else c.client_sock))

-- After the log, by whether it tripped.
shut_down-Closed :
    (c : JobConsole) (sent : List Sent)
    → Closed c (
        continue
          (if trips c then err attribute_error else ok tt)
          (λ _. shut_down)
          (record c { state = over; sent = sent }))
unfolding shut_down close_salad close_client level_value
shut_down-Closed c sent = (ground arith, ground arith, ground arith, ground arith)

-- A console that is not over yet is made so.
close-enter_over : (now : ℕ) (c : JobConsole) → state_value c.state < 4 → close now c ≡ enter_over c
unfolding close set_state enter
close-enter_over now c live = ground (arith, live)

enter_over-Closed : (c : JobConsole) → Closed c (enter_over c)
unfolding enter_over
enter_over-Closed c =
    let at_over : JobConsole = record c { state = over } in
    subst (λ p. Closed c (continue p.0 (λ _. shut_down) p.1)) (sym (log_info at_over))
      (shut_down-Closed c (log info at_over).1.sent)

-- Closing ends a console in every case, with its sockets hung up, unless the console has a client
-- that was never connected to: then the call raises `AttributeError`, and, if the client is of
-- version 1 and the level lets the change of state be logged, the socket to SALAD is left alone.
pub close_lem :
    (now : ℕ) (c : JobConsole)
    → state_value c.state < 4
    → let (r, c') = close now c in
      (r ≡ (if unconnected c then err attribute_error else ok tt))
      × (c'.state ≡ over)
      × (c'.salad_sock ≡ (if trips c then c.salad_sock else hung_up))
      × (c'.client_sock ≡ (
          if unconnected c
          then absent
          else if truthy c.client_version
          then hung_up
          else c.client_sock))
close_lem now c live = subst (Closed c) (sym (close-enter_over now c live)) (enter_over-Closed c)
