-- ===== src/Pdu.antt =====
-- executor/server/src/valve_gfx_ci/executor/server/pdu/__init__.py: `PDUState`, `PDUPort` and the
-- interface of a PDU driver; the drivers are in the modules below.
pub mod Port
pub mod Contract
pub mod Dummy
pub mod Vpdu
pub mod Virtual
pub mod Snmp
pub use valve_infra.Base.Action.{Action, pure, raise, continue, ◌>>=◌, ◌>>◌}
use valve_infra.Base.{◌+◌, ℕ, Bool, true, false, List, [], ◌∷◌, ltb}
use valve_infra.Base.Result.{Result, ok, err, Exception}

-- `PDUState`, an `IntEnum`.
pub data PduState : Type 0 where
  unknown off on reboot : PduState

unfoldable pub state_value : PduState → ℕ
state_value unknown = 0
state_value off = 1
state_value on = 2
state_value reboot = 3

infix 50 ◌=s◌
abbrev pub ◌=s◌ : PduState → PduState → Bool
unknown =s unknown = true
off =s off = true
on =s on = true
reboot =s reboot = true
_ =s _ = false

-- The world of a driver: what its device holds, and the clock in microseconds.
pub record World (D : Type 0) : Type 0 where
  pub device : D
  pub clock : ℕ

-- `time.sleep(t)`
abbrev pub sleep : {D : Type 0} → ℕ → Action (World D) (Unit {0})
sleep t w = (ok tt, record w { clock = w.clock + t })

-- What a subclass of `PDU` implements.
pub record Driver (D : Type 0) : Type 0 where
  pub set_port_state : ℕ → PduState → Action (World D) (Unit {0})
  pub get_port_state : ℕ → Action (World D) PduState
