-- ===== src/Salad/Hub/Routes.antt =====
-- salad.py: what comes from a console goes to the client of its machine, and who has that place
-- keeps it.
use valve_infra.Base.{String, Bool, false, ◌≡◌, some}
use valve_infra.Base.Dict.{lookup}
use valve_infra.Base.Result.{Result}
use valve_infra.Base.Action.{Action}
use valve_infra.Salad.{Server}
use valve_infra.Salad.Clients.{breaks, leaves, Held}
use valve_infra.Salad.Hub.{
  Salad, Ready, serial_ready, netconsole_ready, machine_connects, netconsole_connects, client_ready,
}

-- No machine is forgotten, and each server of one is held.
abbrev pub Kept : Bool → Salad → Salad → Type 0
Kept hung_up s s' =
    (q : String) (m : Server)
    → lookup q s.machines ≡ some m
    → (m' : Server) × (lookup q s'.machines ≡ some m') × Held hung_up m m'

-- Whether the client of a machine may be hung up: a send to it fails, or a read from it fails or is at
-- the end of its input.
abbrev pub hangs_up : Ready → Bool
hangs_up (serial_ready name buf last writes a) = breaks a.sends
hangs_up (netconsole_ready name reads reset writes a) = breaks a.sends
hangs_up (machine_connects id sock a) = false
hangs_up (netconsole_connects name) = false
hangs_up (client_ready id reads writes a) = leaves reads
