-- ===== src/Pdu/Port.antt =====
-- pdu/__init__.py: `PDUPort`. Times are whole microseconds; `sleep` advances the clock.
use valve_infra.Base.{ℕ, ◌-◌, String, ◌&&◌, Option, ltb, if◌then◌else◌}
use valve_infra.Base.Result.{ok}
use valve_infra.Pdu.{PduState, off, on, ◌=s◌, Action, pure, ◌>>=◌, ◌>>◌, World, sleep, Driver}

pub record Port : Type 0 where
  pub port_id : ℕ
  pub label : Option String
  pub min_off_time : ℕ
  pub last_shutdown : ℕ

-- `PDUPort.__init__`, at the time `now`.
unfoldable pub init : ℕ → Option String → ℕ → ℕ → Port
init port_id label min_off_time now = record {
  port_id = port_id;
  label = label;
  min_off_time = min_off_time;
  last_shutdown = now;
}

module _ {D : Type 0} where
  -- Enforce a minimum amount of time between state changes.
  unfoldable pub wait : Port → Action (World D) (Unit {0})
  wait p w =
      let spent_off : ℕ = w.clock - p.last_shutdown in
      if ltb spent_off p.min_off_time then sleep (p.min_off_time - spent_off) w else (ok tt, w)

module _ {D : Type 0} (d : Driver D) where
  -- the property `state`
  unfoldable pub state : Port → Action (World D) PduState
  state p = d.get_port_state p.port_id

  -- What `set` does after it has read another state than the wanted one. The port comes back
  -- with its new `last_shutdown`.
  unfoldable pub change : PduState → PduState → Port → Action (World D) Port
  unfolding wait
  change cur wanted p = do
    if cur =s off && wanted =s on then wait p else pure tt
    d.set_port_state p.port_id wanted
    λ w. (ok (if wanted =s off then record p { last_shutdown = w.clock } else p), w)

  -- `PDUPort.set`
  unfoldable pub set : PduState → Port → Action (World D) Port
  unfolding state change
  set wanted p = do cur ← state p; if cur =s wanted then pure p else change cur wanted p
