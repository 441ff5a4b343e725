-- ===== src/Mars/Sync.antt =====
-- mars.py: `Machine`, and the part of `Mars` that keeps one for each machine of the database.
--
-- `port` is what the driver of a machine's PDU answers: its port, none if the machine has no PDU,
-- or the exception that it raises; `boots` is what `write_network_config` does with the address of a
-- machine and its data, which raises where an address or the hosts file cannot be read.
use valve_infra.Base.{◌+◌, ℕ, String, Option, none, some, List, [], ◌∷◌, if◌then◌else◌}
use valve_infra.Base.Dict.{Dict, lookup, insert, erase, has}
use valve_infra.Base.Result.{Result, ok, err}
use valve_infra.Base.Action.{Action, pure, ◌>>◌}
use valve_infra.Mars.{Dut}

-- `Machine`. Its executor is the thread that was started with it.
pub record Machine : Type 0 where
  pub db_dut : Dut
  pub pdu_port : Option ℕ
  pub executor : ℕ

-- The machines that are known, the machines whose executor was stopped, and the next thread.
pub record Mars : Type 0 where
  pub machines : Dict Machine
  pub removed : List Machine
  pub next_thread : ℕ

module _ (port : Dut → Result (Option ℕ)) (boots : String → Dut → Result (Unit {0})) where
  -- `Machine.__init__`, and its entry into the known machines. The executor is there before the
  -- network is configured.
  unfoldable pub create : String → Dut → Action Mars (Unit {0})
  create id dut m = elim (port dut) [
    | err e ↦ (err e, m)
    | ok p ↦
        let m' : Mars = record m { next_thread = m.next_thread + 1 } in
        let new : Machine = record { db_dut = dut; pdu_port = p; executor = m.next_thread } in
        elim (boots id dut) [
          | err e ↦ (err e, m')
          | ok _ ↦ (ok tt, record m' { machines = insert id new m.machines })
        ]
  ]

  -- `Machine.update_config`, which keeps the old port if the driver raises.
  unfoldable pub update_config : String → Dut → Machine → Action Mars (Unit {0})
  update_config id dut machine m = elim (port dut) [
    | err e ↦
        (err e, record m { machines = insert id (record machine { db_dut = dut }) m.machines })
    | ok p ↦ (
      boots id dut,
      record m { machines = insert id (record machine { db_dut = dut; pdu_port = p }) m.machines },
    )
  ]

  abbrev pub create_or_update : String → Dut → Option Machine → Action Mars (Unit {0})
  create_or_update id dut none = create id dut
  create_or_update id dut (some machine) = update_config id dut machine

  -- `_machine_update_or_create`
  unfoldable pub machine_update_or_create : String → Dut → Action Mars (Unit {0})
  unfolding create update_config
  machine_update_or_create id dut m = create_or_update id dut (lookup id m.machines) m

  -- The first loop of `sync_machines`.
  unfoldable pub update_all : Dict Dut → Action Mars (Unit {0})
  unfolding machine_update_or_create
  update_all [] = pure tt
  update_all ((id, dut) ∷ duts) = do machine_update_or_create id dut; update_all duts

-- `self._machines[machine.id].remove()` and the deletion of the entry.
abbrev pub remove_machine : String → Option Machine → Mars → Mars
remove_machine id none m = m
remove_machine id (some machine) m = record m {
  machines = erase id m.machines;
  removed = machine ∷ m.removed;
}

-- The machines that are not in the database are removed: `known` are those that were known.
unfoldable pub remove_local_only : Dict Dut → Dict Machine → Mars → Mars
remove_local_only duts [] m = m
remove_local_only duts ((id, _) ∷ known) m =
    remove_local_only duts known
      (if has id duts then m else remove_machine id (lookup id m.machines) m)

-- `sync_machines`, as far as the machines go.
unfoldable pub sync_machines :
    (Dut → Result (Option ℕ))
    → (String → Dut → Result (Unit {0}))
    → Dict Dut
    → Action Mars (Unit {0})
unfolding update_all remove_local_only
sync_machines port boots duts m =
    (do update_all port boots duts; λ m'. (ok tt, remove_local_only duts m.machines m')) m
