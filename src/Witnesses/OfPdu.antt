-- ===== src/Witnesses/OfPdu.antt =====
-- PDUs: runs of the theorems.
use valve_infra.Base.{◌≡◌, refl, ℕ, ◌≤◌, none, some, List, [], ◌∷◌, arith, ◌==◌, if◌then◌else◌}
use valve_infra.Base.Lists.{get_elem?}
use valve_infra.Base.Result.{Result, ok, err, null_error}
use valve_infra.Pdu.{off, on, ◌=s◌, World}
use valve_infra.Pdu.Port.{Port, set}
use valve_infra.Pdu.Contract.{Contract, set_reaches}
use valve_infra.Pdu.Dummy.{Device, driver, dummy-Contract}
use valve_infra.Pdu.Virtual.{driver as virtual_driver}
use valve_infra.Pdu.Virtual.View.{view}
use valve_infra.Pdu.Virtual.Protocol.{settled, virtual-Contract}

abbrev port : Port
port = record { port_id = 1; label = none; min_off_time = 30; last_shutdown = 5 }

abbrev world : World Device
world = record { device = on ∷ off ∷ []; clock = 10 }

set_reaches_example :
    (p' : Port) × (w' : World Device) × (set driver on port world ≡ (ok p', w'))
    × ((q : ℕ)
        → get_elem? w'.device q ≡ (
            if 1 == q then (if off =s on then some off else some on) else get_elem? world.device q))
    × (p'.last_shutdown ≡ (if on =s off then (if off =s off then 5 else w'.clock) else 5))
    × (p'.min_off_time ≡ 30)
    × (p'.port_id ≡ 1)
    × (10 ≤ w'.clock)
set_reaches_example =
    set_reaches dummy-Contract port world off on refl (λ e. ground (arith, e)) (omega arith)

virtual-Contract_example : Contract (virtual_driver 5) view settled
virtual-Contract_example = virtual-Contract 5

abbrev flaky : World (List (Result ℕ))
flaky = record { device = err null_error ∷ ok 2 ∷ []; clock = 0 }
