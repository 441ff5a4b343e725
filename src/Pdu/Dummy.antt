-- ===== src/Pdu/Dummy.antt =====
-- pdu/drivers/dummy.py: a PDU whose ports are kept in memory.
use mathlib.Core.List.{map}
use valve_infra.Base.{ℕ, refl, String, Option, none, some, List, arith}
use valve_infra.Base.Lists.{get_elem?, set, get_elem?-set}
use valve_infra.Base.Result.{ok, err, index_error}
use valve_infra.Pdu.{PduState, on, Action, World, Driver}
use valve_infra.Pdu.Contract.{Contract}

-- The `_state` of each port, in the order of the ports. A port's number is its place.
abbrev pub Device : Type 0
Device = List PduState

-- `DummyPDU.__init__`: every port of the configuration starts ON.
unfoldable pub init : List String → Device
init labels = map (λ l. on) labels

abbrev pub answer : Option PduState → Action (World Device) PduState
answer none w = (err index_error, w)
answer (some s) w = (ok s, w)

abbrev store : Option PduState → ℕ → PduState → Action (World Device) (Unit {0})
store none p s w = (err index_error, w)
store (some _) p s w = (ok tt, record w { device = set w.device p s })

-- `DummyPDU.get_port_state`
unfoldable pub get_port_state : ℕ → Action (World Device) PduState
get_port_state p w = answer (get_elem? w.device p) w

-- `DummyPDU.set_port_state`
unfoldable pub set_port_state : ℕ → PduState → Action (World Device) (Unit {0})
set_port_state p s w = store (get_elem? w.device p) p s w

unfoldable pub driver : Driver Device
unfolding get_port_state set_port_state
driver = record { set_port_state = set_port_state; get_port_state = get_port_state }

-- The dummy PDU meets the contract, and a port keeps whatever it is given, REBOOT too.
pub dummy-Contract : Contract driver get_elem? (λ s. s)
unfolding driver
dummy-Contract = record {
  settled_on = refl;
  settled_off = refl;
  get_lem = λ w p s h. (w, rw h, refl, omega arith);
  set_lem = λ w p s wanted h known. (
    record w { device = set w.device p wanted },
    rw h,
    λ q. get_elem?-set w.device p q wanted s h,
    omega arith,
  );
}
