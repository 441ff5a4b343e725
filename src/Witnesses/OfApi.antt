-- ===== src/Witnesses/OfApi.antt =====
-- The HTTP API: runs of the theorems.
use text.Mathlib.Text.{◌==◌}
use valve_infra.Base.{
  ℕ, String, ◌≤◌, ◌≡◌, refl, ◌⊎◌, true, false, none, some, [], ◌∷◌, arith, ◌==◌ as ◌=n◌,
  if◌then◌else◌, get_or,
}
use valve_infra.Base.Lists.{get_elem?}
use valve_infra.Base.Dict.{lookup, insert}
use valve_infra.Base.Result.{ok}
use valve_infra.Pdu.{off, on, World}
use valve_infra.Pdu.Port.{Port}
use valve_infra.Pdu.Dummy.{Device, driver, dummy-Contract}
use valve_infra.Executor.{idle}
use valve_infra.Executor.Session.{start_job}
use valve_infra.Job.Schema.{Target}
use valve_infra.Api.{Machine, Machines}
use valve_infra.Api.Choice.{after, find_suitable_machine}
use valve_infra.Api.Chosen.{IsSound, Suits, started, find_suitable_machine_lem}
use valve_infra.Api.Requests.{Body, Credentials, JobRequest, Minio, form, parse, post_job}
use valve_infra.Api.Permitted.{Permits, post_job_lem}
use valve_infra.Api.Discovery.{
  Discovery, Site, discover_post, find_pdu_port, is_assigned, timeout_of,
}
use valve_infra.Api.Registration.{Fields, machine_add_or_update, make_dut, new_dut}
use valve_infra.Api.Discovery.Attached.{discover_post_lem}
use valve_infra.Api.Registration.Registered.{machine_add_or_update_lem}
use valve_infra.Mars.{Dut}
use valve_infra.Witnesses.{executor, request}

abbrev machine : Machine
machine = record {
  tags = "amdgpu" ∷ [];
  is_retired = false;
  executor = record executor { state = idle };
}

abbrev known : Machines
known = ("aa", record machine { is_retired = true }) ∷ ("bb", machine) ∷ []

abbrev target : Target
target = record { id = none; tags = "amdgpu" ∷ [] }

find_suitable_machine_example :
    IsSound target.tags known (find_suitable_machine target known)
    × ((id : String) (m : Machine)
        → target.id ≡ none
        → lookup id known ≡ some m
        → Suits target.tags m
        → (find_suitable_machine target known).code ≡ 200)
find_suitable_machine_example = find_suitable_machine_lem target known (refl, (refl, tt))

-- A user of one group.
abbrev minio : Minio
minio = record { login = λ c. ok tt; groups_user_is_in = λ c. ok ("ci" ∷ []) }

abbrev credentials : Credentials
credentials = record { access_key = some "user"; secret_key = some "secret" }

abbrev posted : Body
posted = form (record {
  metadata = some (
    true,
    ok (record {
      version = some (some 1);
      target = none;
      callback_host = none;
      callback_port = some (some 8000);
      job_id = none;
      credentials = credentials;
      groups = some (some ("ci" ∷ []));
    }),
  );
  job = some (true, ok target);
  tarball = none;
})

post_job_example :
    ((post_job minio "10.42.0.9" posted request known).1 ≡ known)
    ⊎ ((r : JobRequest) × (id : String) × (m : Machine) × (parse "10.42.0.9" posted ≡ ok r)
        × Permits minio r.credentials (get_or r.groups [])
        × (lookup id known ≡ some m)
        × Suits r.target.tags m
        × (let q = record request { version = some r.version } in
            post_job minio "10.42.0.9" posted request known
            ≡ (after (start_job q m.executor).0 200, insert id (started q m) known)))
post_job_example = post_job_lem minio "10.42.0.9" posted request known (refl, (refl, tt))

abbrev port : Port
port = record { port_id = 1; label = none; min_off_time = 30; last_shutdown = 5 }

abbrev site : Site Device
site = record {
  discover_data = none;
  pdus = ("rack", ok (("1", port) ∷ [])) ∷ [];
  duts = [];
  mars = record { machines = []; removed = []; next_thread = 0 };
  world = record { device = on ∷ off ∷ []; clock = 10 };
}

discover_post_example :
    (w : World Device) × (discover_post driver
        (record { invalid = false; pdu = some "rack"; port_id = some "1"; timeout = none })
        site
      ≡ (
        ok 200,
        record site {
          discover_data = some (record {
            pdu = "rack";
            port_id = "1";
            timeout = timeout_of none;
            started_at = w.clock;
          });
          world = w;
        },
      ))
    × ((q : ℕ) → get_elem? w.device q ≡ (if 1 =n q then some on else get_elem? site.world.device q))
    × (10 ≤ w.clock)
unfolding find_pdu_port lookup is_assigned
discover_post_example =
    discover_post_lem dummy-Contract site
      (record { invalid = false; pdu = some "rack"; port_id = some "1"; timeout = none }) "rack" "1"
      port refl refl refl refl refl refl refl (omega arith)

abbrev running : Discovery
running = record { pdu = "rack"; port_id = "1"; timeout = 150; started_at = 3 }

abbrev fields : Fields
fields = record {
  invalid = false;
  mac_address = some "a0:a0:a0:a0:a0:cc";
  base_name = some "navi10";
  tags = some [];
  ip_address = some "10.42.0.3";
  pdu = none;
  pdu_port_id = none;
}

abbrev registered : Dut
registered = record {
  base_name = "navi10";
  tags = [];
  ip_address = "10.42.0.3";
  pdu = some "rack";
  pdu_port_id = some "1";
  pdu_off_delay = 30000000;
  ready_for_service = false;
  is_retired = false;
  first_seen = 12;
}

abbrev discovering : Site Device
discovering = record site { discover_data = some running }

machine_add_or_update_example :
    (s' : Site Device) × (machine_add_or_update
        (λ ip. true)
        (λ d. ok none)
        (λ id d. ok tt)
        12
        fields
        discovering
      ≡ (ok 200, s'))
    × (s'.discover_data ≡ none)
    × ((k : String)
        → lookup k s'.duts ≡ (if "a0:a0:a0:a0:a0:cc" == k then some registered else lookup k []))
    × (registered.pdu ≡ some "rack")
    × (registered.pdu_port_id ≡ some "1")
unfolding make_dut new_dut lookup
machine_add_or_update_example =
    machine_add_or_update_lem (λ ip. true) (λ d. ok none) (λ id d. ok tt) 12 fields discovering
      running "a0:a0:a0:a0:a0:cc" registered refl refl refl refl refl refl refl
