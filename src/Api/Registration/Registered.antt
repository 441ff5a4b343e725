-- ===== src/Api/Registration/Registered.antt =====
-- app.py and mars.py: the machine that registers while a discovery runs gets its port.
use text.Mathlib.Text.{◌==◌}
use valve_infra.Base.{
  ℕ, String, Bool, true, false, ◌≡◌, refl, Option, none, some, List, arith, if◌then◌else◌, ◌∙◌,
}
use valve_infra.Base.Dict.{lookup, insert, lookup-insert}
use valve_infra.Base.Result.{Result, ok}
use valve_infra.Base.Action.{◌>>=◌, ◌>>◌}
use valve_infra.Mars.{Dut}
use valve_infra.Mars.Sync.{
  Mars, Machine, machine_update_or_create, create, update_config, create_or_update,
}
use valve_infra.Api.Discovery.{refuse_if, Discovery, Site, unexpired, discover_data}
use valve_infra.Api.Registration.{
  Fields, machine_add_or_update, add_or_update_machine, make_dut, new_dut, updated_dut,
  with_discovery,
}

new_dut-port :
    (now : ℕ) (base : Option String) (tags : Option (List String)) (ip : Option String) (f : Fields)
    (dut : Dut)
    → new_dut now base tags ip f ≡ ok dut
    → (dut.pdu ≡ f.pdu) × (dut.pdu_port_id ≡ f.pdu_port_id)
unfolding new_dut
new_dut-port now none tags ip f dut made = cc
new_dut-port now (some b) none ip f dut made = cc
new_dut-port now (some b) (some t) none f dut made = cc
new_dut-port now (some b) (some t) (some i) f dut made = (cc, cc)

make_dut-port :
    (now : ℕ) (f : Fields) (o : Option Dut) (d : Discovery) (dut : Dut)
    → make_dut now (with_discovery (some d) f) o ≡ ok dut
    → (dut.pdu ≡ some d.pdu) × (dut.pdu_port_id ≡ some d.port_id)
unfolding make_dut updated_dut
make_dut-port now f none d dut made = new_dut-port now f.base_name f.tags f.ip_address _ dut made
make_dut-port now f (some old) d dut made = (cc, cc)

accepted_as :
    (port : Dut → Result (Option ℕ)) (boots : String → Dut → Result (Unit {0})) (id : String)
    (dut : Dut) (m : Mars) (n : Option ℕ) (o : Option Machine)
    → port dut ≡ ok n
    → boots id dut ≡ ok tt
    → (create_or_update port boots id dut o m).0 ≡ ok tt
unfolding create update_config
accepted_as port boots id dut m n none answers served = ground (arith, answers, served)
accepted_as port boots id dut m n (some x) answers served = ground (arith, answers, served)

accepted :
    (port : Dut → Result (Option ℕ)) (boots : String → Dut → Result (Unit {0})) (id : String)
    (dut : Dut) (m : Mars) (n : Option ℕ)
    → port dut ≡ ok n
    → boots id dut ≡ ok tt
    → (machine_update_or_create port boots id dut m).0 ≡ ok tt
unfolding machine_update_or_create
accepted port boots id dut m n answers served =
    accepted_as port boots id dut m n (lookup id m.machines) answers served

module _ {D : Type 0} (is_ip : String → Bool) (port : Dut → Result (Option ℕ))
    (boots : String → Dut → Result (Unit {0})) (now : ℕ) where
  given_port :
      (b : Bool) (f : Fields) (s : Site D) (d : Discovery)
      → b ≡ false
      → unexpired s.world.clock s.discover_data ≡ some d
      → (do
        refuse_if b
        d ← discover_data
        λ s. (ok tt, record s { discover_data = none })
        add_or_update_machine is_ip port boots now (with_discovery d f))
          s
        ≡ add_or_update_machine is_ip port boots now
            (with_discovery (some d) f)
            (record s { discover_data = none })
  unfolding discover_data
  given_port b f s d valid running = rw (valid, running) refl

  stored :
      (f : Fields) (s : Site D) (mac : String) (dut : Dut) {n : Option ℕ}
      → f.mac_address ≡ some mac
      → make_dut now f (lookup mac s.duts) ≡ ok dut
      → is_ip dut.ip_address ≡ true
      → port dut ≡ ok n
      → boots mac dut ≡ ok tt
      → add_or_update_machine is_ip port boots now f s ≡ (
        ok 200,
        record s {
          mars = (machine_update_or_create port boots mac dut s.mars).1;
          duts = insert mac dut s.duts;
        },
      )
  unfolding add_or_update_machine
  stored f s mac dut has_mac made good answers served =
      simp (has_mac, made, good, accepted port boots mac dut s.mars _ answers served)

-- A machine that registers while a discovery runs, with fields that are valid, a port that its PDU
-- has, and a network that can be configured, takes the port of the discovery, whether it was known before or not; every other machine of the database keeps its
-- data, and the discovery is over.
pub machine_add_or_update_lem :
    {D : Type 0} (is_ip : String → Bool) (port : Dut → Result (Option ℕ))
    (boots : String → Dut → Result (Unit {0})) (now : ℕ) (f : Fields) (s : Site D) (d : Discovery)
    (mac : String) (dut : Dut) {n : Option ℕ}
    → f.invalid ≡ false
    → f.mac_address ≡ some mac
    → unexpired s.world.clock s.discover_data ≡ some d
    → make_dut now (with_discovery (some d) f) (lookup mac s.duts) ≡ ok dut
    → is_ip dut.ip_address ≡ true
    → port dut ≡ ok n
    → boots mac dut ≡ ok tt
    → (s' : Site D) × (machine_add_or_update is_ip port boots now f s ≡ (ok 200, s'))
      × (s'.discover_data ≡ none)
      × ((k : String) → lookup k s'.duts ≡ (if mac == k then some dut else lookup k s.duts))
      × (dut.pdu ≡ some d.pdu)
      × (dut.pdu_port_id ≡ some d.port_id)
unfolding machine_add_or_update discover_data add_or_update_machine
machine_add_or_update_lem is_ip port boots now f s d mac dut valid has_mac running made good answers
      served =
    let m = machine_update_or_create port boots mac dut s.mars in
    let (pdu, port_id) = make_dut-port now f (lookup mac s.duts) d dut made in
    (
      record s { discover_data = none; mars = m.1; duts = insert mac dut s.duts },
      given_port is_ip port boots now f.invalid f s d valid running
          ∙ stored is_ip port boots now (with_discovery (some d) f)
              (record s { discover_data = none }) mac dut has_mac made good answers served,
      refl,
      λ k. lookup-insert mac k dut s.duts,
      pdu,
      port_id,
    )
