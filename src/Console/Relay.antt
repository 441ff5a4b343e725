-- ===== src/Console/Relay.antt =====
-- executor.py: what a client of version 1 gets of the machine's serial console.
use valve_infra.Base.{
  append-nil, ◌∙◌, sym, ap, ℕ, ◌≤◌, ◌≡◌, refl, some, List, [], ◌∷◌, ◌++◌, arith, ltb, ◌==◌,
  Bool-cases, inl, inr, append_assoc,
}
use valve_infra.Base.Result.{ok}
use valve_infra.Message.{LogLevel, info}
use valve_infra.Message.Framing.{Bytes}
use valve_infra.Console.{
  level_value, JobConsole, Sent, control, job_io, session_end, connected, dut_done, state_value,
  Step, log, put, set_state, enter, enter_dut_done,
}
use valve_infra.Console.Loop.{forward, machine_was_active}

-- The bytes of the machine among what was sent.
abbrev pub payload : List Sent → Bytes
payload [] = []
payload (job_io buf ∷ ms) = buf ++ payload ms
payload (control l ∷ ms) = payload ms
payload (session_end s ∷ ms) = payload ms

payload-append : (ms ns : List Sent) → payload (ms ++ ns) ≡ payload ms ++ payload ns
payload-append [] ns = refl
payload-append (job_io buf ∷ ms) ns =
    ap (λ b. buf ++ b) (payload-append ms ns) ∙ sym (append_assoc buf (payload ms) (payload ns))
payload-append (control l ∷ ms) ns = payload-append ms ns
payload-append (session_end s ∷ ms) ns = payload-append ms ns

-- A client of version 1 is connected, and the tear down has not begun.
pub record IsRelaying (c : JobConsole) : Type 0 where
  pub version : c.client_version ≡ some 1
  pub client : c.client_sock ≡ connected
  pub early : state_value c.state ≤ 2

-- A step does not raise, keeps on relaying, and has sent exactly these bytes of the machine.
pub record Relays (s : Step) (bytes : Bytes) (c : JobConsole) : Type 0 where
  pub after : JobConsole
  pub runs : s c ≡ (ok tt, after)
  pub still : IsRelaying after
  pub sent : payload after.sent ≡ payload c.sent ++ bytes

-- A step that leaves the console as it is.
pub idle-Relays : (c : JobConsole) → IsRelaying c → Relays (λ c. (ok tt, c)) [] c
idle-Relays c h = record {
  after = c;
  runs = refl;
  still = h;
  sent = sym (append-nil (payload c.sent));
}

pub log-Relays : (l : LogLevel) (c : JobConsole) → IsRelaying c → Relays (log l) [] c
unfolding log put
log-Relays l c h = elim (Bool-cases (ltb (level_value l) (level_value c.log_level))) [
  | inl low ↦ record {
    after = c;
    runs = rw (low) refl;
    still = h;
    sent = sym (append-nil (payload c.sent));
  }
  | inr high ↦ record {
    after = record c { sent = c.sent ++ control l ∷ [] };
    runs = ground (arith, high, h.version, h.client);
    still = record { version = h.version; client = h.client; early = h.early };
    sent = payload-append c.sent (control l ∷ []);
  }
]

pub forward-Relays : (buf : Bytes) (c : JobConsole) → IsRelaying c → Relays (forward buf) buf c
unfolding forward
forward-Relays buf c h = record {
  after = record c { sent = c.sent ++ job_io buf ∷ [] };
  runs = ground (arith, h.version, h.client);
  still = record { version = h.version; client = h.client; early = h.early };
  sent = payload-append c.sent (job_io buf ∷ []) ∙ ap (λ b. payload c.sent ++ b) (append-nil buf);
}

pub active-Relays :
    (now : ℕ) (buf : Bytes) (c : JobConsole)
    → IsRelaying c
    → Relays (machine_was_active now buf) [] c
unfolding machine_was_active
active-Relays now buf c h = record {
  after = (machine_was_active now buf c).1;
  runs = ground arith;
  still = record {
    version = ground (arith, h.version);
    client = ground (arith, h.client);
    early = ground (arith, h.early);
  };
  sent = ground (arith, append-nil (payload c.sent));
}

-- The entry into DUT_DONE, with a client.
enter_done :
    (c : JobConsole) → IsRelaying c → enter_dut_done c ≡ log info (record c { state = dut_done })
unfolding enter_dut_done log put
enter_done c h = ground (arith, h.version, h.client)

pub done-Relays : (now : ℕ) (c : JobConsole) → IsRelaying c → Relays (set_state now dut_done) [] c
unfolding set_state enter
done-Relays now c h =
    let done : JobConsole = record c { state = dut_done } in
    let r =
      log-Relays info done
        (record { version = h.version; client = h.client; early = omega arith }) in
    elim (Bool-cases (2 == state_value c.state)) [
      | inl same ↦ record {
        after = c;
        runs = ground (arith, same, h.early);
        still = h;
        sent = sym (append-nil (payload c.sent));
      }
      | inr other ↦ record {
        after = r.after;
        runs = ground (arith, other, h.early, enter_done c h ∙ r.runs);
        still = r.still;
        sent = r.sent;
      }
    ]
