-- ===== src/Console/States.antt =====
-- executor.py: what `JobConsole.set_state` promises to the client and to the executor.
use valve_infra.Base.{
  inr, inl, Bool-cases, ℕ, suc, ◌+◌, ◌≤◌, ◌<◌, ◌≡◌, List, [], ◌∷◌, ◌++◌, arith, ltb, ◌==◌,
}
use valve_infra.Message.{LogLevel}
use valve_infra.Console.{
  job_status, from_str, close_client, shut_client, info, close_salad, JobConsole, JobConsoleState,
  created, active, dut_done, tear_down, over, state_value, Sent, control, job_io, session_end, put,
  log, set_state, enter_dut_done, enter_tear_down, enter_over, enter_active, enter,
}

-- How many times the client was told that the session ended.
abbrev pub ends : List Sent → ℕ
ends [] = 0
ends (session_end s ∷ ms) = suc (ends ms)
ends (m ∷ ms) = ends ms

pub ends-append : (ms ns : List Sent) → ends (ms ++ ns) ≡ ends ms + ends ns
ends-append [] ns = omega arith
ends-append (session_end s ∷ ms) ns = omega (arith, ends-append ms ns)
ends-append (control l ∷ ms) ns = ends-append ms ns
ends-append (job_io b ∷ ms) ns = ends-append ms ns

-- Whether the tear down was reached.
abbrev pub torn : JobConsoleState → ℕ
torn created = 0
torn active = 0
torn dut_done = 0
torn tear_down = 1
torn over = 1

-- The state moved forward if at all, and the end was only told on the way into the tear down.
pub record Advance (c c' : JobConsole) : Type 0 where
  pub forward : state_value c.state ≤ state_value c'.state
  pub told : ends c'.sent + torn c.state ≤ ends c.sent + torn c'.state

pub Advance-refl : (c : JobConsole) → Advance c c
Advance-refl c = record { forward = omega arith; told = omega arith }

pub Advance-trans : {c c' c'' : JobConsole} → Advance c c' → Advance c' c'' → Advance c c''
Advance-trans h k = record {
  forward = omega (arith, h.forward, k.forward);
  told = omega (arith, h.told, k.told);
}

-- Steps that leave the state alone and do not say that the session ended.
pub record Quiet (c c' : JobConsole) : Type 0 where
  pub state : c'.state ≡ c.state
  pub sent : ends c'.sent ≡ ends c.sent

pub log-Quiet : (l : LogLevel) (c : JobConsole) → Quiet c (log l c).1
unfolding log put
log-Quiet l c = record {
  state = ground arith;
  sent = ground (arith, ends-append c.sent (control l ∷ []));
}

to_over :
    (c : JobConsole) → ((enter_over c).1.state ≡ over) × (ends (enter_over c).1.sent ≡ ends c.sent)
unfolding enter_over log put close_salad close_client
to_over c = (ground arith, ground (arith, ends-append c.sent (control info ∷ [])))

to_active :
    (now : ℕ) (c : JobConsole)
    → ((enter_active now c).1.state ≡ active) × (ends (enter_active now c).1.sent ≡ ends c.sent)
unfolding enter_active log put
to_active now c = (ground arith, ground (arith, ends-append c.sent (control info ∷ [])))

to_tear_down :
    (c : JobConsole)
    → ((enter_tear_down c).1.state ≡ tear_down)
      × (ends (enter_tear_down c).1.sent ≤ ends c.sent + 1)
unfolding enter_tear_down log put close_salad shut_client
to_tear_down c =
    let told = session_end (from_str (job_status c.console_patterns)) ∷ [] in
    let noted = control info ∷ [] in
    (
      ground arith,
      ground (
        arith,
        ends-append c.sent noted,
        ends-append (c.sent ++ noted) told,
        ends-append c.sent told,
      ),
    )

pub to_dut_done :
    (c : JobConsole)
    → let c' = (enter_dut_done c).1 in
      (state_value dut_done ≤ state_value c'.state) × (ends c'.sent ≡ ends c.sent)
unfolding enter_dut_done log put
to_dut_done c =
    let noted = record c { state = dut_done; sent = c.sent ++ control info ∷ [] } in
    let quiet = record c { state = dut_done } in
    let append = ends-append c.sent (control info ∷ []) in
    let (o, e) = to_over noted in
    let (o', e') = to_over quiet in (ground (arith, o, o'), ground (arith, append, e, e'))

entered-Advance :
    (now : ℕ) (s : JobConsoleState) (c : JobConsole)
    → state_value c.state < state_value s
    → Advance c (enter now s c).1
unfolding enter
entered-Advance now created c lt = absurd (omega (arith, lt))
entered-Advance now active c lt =
    let (s, e) = to_active now c in
    record { forward = ground (arith, s); told = ground (arith, s, e) }
entered-Advance now dut_done c lt =
    let (s, e) = to_dut_done c in
    record { forward = ground (arith, s); told = ground (arith, s, e) }
entered-Advance now tear_down c lt =
    let (s, e) = to_tear_down c in
    record { forward = ground (arith, s); told = ground (arith, s, e) }
entered-Advance now over c lt =
    let (s, e) = to_over c in record { forward = ground (arith, s); told = ground (arith, s, e) }

-- However a call of `set_state` ends, the state did not move back.
pub set_state-Advance :
    (now : ℕ) (s : JobConsoleState) (c : JobConsole) → Advance c (set_state now s c).1
unfolding set_state
set_state-Advance now s c = elim (Bool-cases (ltb (state_value s) (state_value c.state))) [
  | inl lt ↦ rw (lt) (Advance-refl c)
  | inr ge ↦ elim (Bool-cases (state_value s == state_value c.state)) [
    | inl e ↦ rw (ge, e) (Advance-refl c)
    | inr ne ↦ rw (ge, ne) (entered-Advance now s c (ground (arith, ge, ne)))
  ]
]
