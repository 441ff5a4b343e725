-- ===== src/Api/Registration.antt =====
-- app.py: `machine_add_or_update`; mars.py: `add_or_update_machine`.
pub mod Registered
use text.Mathlib.Text.{◌==◌}
use valve_infra.Base.{
  get_or, zero, suc, ℕ, ◌-◌, ◌*◌, String, Bool, true, false, ◌&&◌, ◌||◌, not, Option, none, some,
  List, [], ◌∷◌, leb, if◌then◌else◌, or_else, is_some,
}
use valve_infra.Base.Dict.{Dict, lookup, insert, values}
use valve_infra.Base.Result.{Result, ok, err, Exception, value_error, key_error, type_error}
use valve_infra.Base.Action.{Action, pure, raise, ◌>>=◌, ◌>>◌}
use valve_infra.Pdu.{PduState, on, ◌=s◌, World, Driver}
use valve_infra.Pdu.Port
use valve_infra.Pdu.Port.{Port}
use valve_infra.Mars.{Dut}
use valve_infra.Mars.Sync.{Mars, machine_update_or_create}
use valve_infra.Api.Discovery.{Site, Discovery, discover_data, refuse_if, reply, seconds}

-- The fields of a machine in a request; `invalid` is whether there is one that cannot be set.
pub record Fields : Type 0 where
  pub invalid : Bool
  pub mac_address : Option String
  pub base_name : Option String
  pub tags : Option (List String)
  pub ip_address : Option String
  pub pdu : Option String
  pub pdu_port_id : Option String

-- A discovery that is running gives the machine its port.
abbrev pub with_discovery : Option Discovery → Fields → Fields
with_discovery none f = f
with_discovery (some d) f = record f { pdu = some d.pdu; pdu_port_id = some d.port_id }

-- `ConfigDUT(**fields)`
unfoldable pub new_dut :
    ℕ → Option String → Option (List String) → Option String → Fields → Result Dut
new_dut now (some base_name) (some tags) (some ip_address) f = ok (record {
  base_name = base_name;
  tags = tags;
  ip_address = ip_address;
  pdu = f.pdu;
  pdu_port_id = f.pdu_port_id;
  pdu_off_delay = seconds 30;
  ready_for_service = false;
  is_retired = false;
  first_seen = now;
})
new_dut now _ _ _ f = err type_error

-- `ConfigDUT(**(cur_state | fields))`
unfoldable pub updated_dut : Fields → Dut → Dut
updated_dut f d = record d {
  base_name = get_or f.base_name d.base_name;
  tags = get_or f.tags d.tags;
  ip_address = get_or f.ip_address d.ip_address;
  pdu = or_else f.pdu d.pdu;
  pdu_port_id = or_else f.pdu_port_id d.pdu_port_id;
}

unfoldable pub make_dut : ℕ → Fields → Option Dut → Result Dut
unfolding new_dut updated_dut
make_dut now f none = new_dut now f.base_name f.tags f.ip_address f
make_dut now f (some d) = ok (updated_dut f d)

abbrev pub key_or_error : Option String → Result String
key_or_error none = err key_error
key_or_error (some k) = ok k

-- `is_ip` is whether `IPv4Address` accepts an address, `port` what the driver of a machine's PDU
-- answers, `boots` what `write_network_config` does.
module _ {D : Type 0} (is_ip : String → Bool) (port : Dut → Result (Option ℕ))
    (boots : String → Dut → Result (Unit {0})) where
  abbrev pub on_mars : {A : Type 0} → Action Mars A → Action (Site D) A
  on_mars call s = let (r, m) = call s.mars in (r, record s { mars = m })

  -- `add_or_update_machine`
  unfoldable pub add_or_update_machine : ℕ → Fields → Action (Site D) ℕ
  unfolding make_dut machine_update_or_create
  add_or_update_machine now f s =
      (do
        mac_address ← reply (key_or_error f.mac_address)
        dut ← reply (make_dut now f (lookup mac_address s.duts))
        refuse_if (not (is_ip dut.ip_address))
        on_mars (machine_update_or_create port boots mac_address dut)
        λ s'. (ok 200, record s' { duts = insert mac_address dut s'.duts }))
        s

  -- `machine_add_or_update`
  unfoldable pub machine_add_or_update : ℕ → Fields → Action (Site D) ℕ
  unfolding discover_data add_or_update_machine
  machine_add_or_update now f = do
    refuse_if f.invalid
    d ← discover_data
    λ s. (ok tt, record s { discover_data = none })
    add_or_update_machine now (with_discovery d f)
