-- ===== src/Witnesses/OfFarm.antt =====
-- The farm's machines and buckets: runs of the theorems.
use Prim.Native.String.{String}
use text.Mathlib.Text.{◌==◌}
use valve_infra.Base.{
  Bool, ℕ, ◌≡◌, refl, ◌≤◌, true, false, ◌&&◌, ◌||◌, none, some, List, [], ◌∷◌, if◌then◌else◌, any,
  All, length, ltb,
}
use valve_infra.Base.Dict.{lookup}
use valve_infra.Base.Result.{ok, err, runtime_error}
use valve_infra.Mars.{Dut}
use valve_infra.Mars.Runners.{invalid_default, token, Runner, Gitlab, ConfigGitlab}
use valve_infra.Mars.Known.{synced, sync_machines-known}
use valve_infra.Mars.Sync.{Mars, Machine, sync_machines}
use valve_infra.Minio.BucketName.{
  create_valid_bucket_name, valid_name, is_valid, is_dash_or_dot, first, last,
  create_valid_bucket_name_lem,
}
use valve_infra.Minio.Policy.{
  generate_policy, owner_statements, permits, is_nonempty, owner_permits,
}
use valve_infra.Minio.Credentials.{JobBucket, Answers}

abbrev dut : ℕ → Dut
dut seen = record {
  base_name = "navi10";
  tags = [];
  ip_address = "10.42.0.2";
  pdu = none;
  pdu_port_id = none;
  pdu_off_delay = 30;
  ready_for_service = true;
  is_retired = false;
  first_seen = seen;
}

abbrev duts : List Dut
duts = dut 5 ∷ dut 9 ∷ []

-- A server that knows no token but the one that it gives.
abbrev forge : Gitlab
forge = record {
  verify_runner_token = λ t. ok (elim t [ invalid_default ↦ false | token s ↦ s == "new" ]);
  unregister_runner = λ s. ok true;
  register_runner = ok (some "new");
}

abbrev server : ConfigGitlab
server = record { registration_token = some 20; expose_runners = true }

abbrev runner : Runner
runner = record { token = token "old"; exposed = true }

abbrev machine : Machine
machine = record { db_dut = dut 5; pdu_port = none; executor = 3 }

abbrev farm : Mars
farm = record { machines = ("aa", machine) ∷ ("bb", machine) ∷ []; removed = []; next_thread = 7 }

sync_machines-known_example :
    let r = sync_machines (λ d. ok (some 2)) (λ id d. ok tt) (("aa", dut 9) ∷ []) farm in
    (r.0 ≡ ok tt)
    × (lookup "aa" r.1.machines ≡ synced (λ d. some 2) machine (lookup "aa" (("aa", dut 9) ∷ [])))
unfolding lookup
sync_machines-known_example =
    sync_machines-known (λ d. ok (some 2)) (λ d. some 2) (λ d. refl) (λ id d. ok tt)
      (("aa", dut 9) ∷ []) farm "aa" machine (refl, tt) (refl, tt) refl

create_valid_bucket_name_example :
    let n = valid_name (λ n. false) (45 ∷ 74 ∷ []) in
    (create_valid_bucket_name (λ n. ok tt) (λ n. false) (45 ∷ 74 ∷ []) ≡ ok n)
    × All (λ c. is_valid c ≡ true) n
    × (3 ≤ length n)
    × (length n ≤ 63)
    × (is_dash_or_dot (first n) ≡ false)
    × ((is_dash_or_dot (last n) && ltb (length n) 63) ≡ false)
create_valid_bucket_name_example =
    create_valid_bucket_name_lem (λ n. ok tt) (λ n. false) (45 ∷ 74 ∷ [])

abbrev same : String → String → Bool
same x y = x == y

owner_permits_example :
    permits same same same
      (generate_policy (owner_statements "job" ("10.42.0.2/32" ∷ [])))
      "s3:*"
      "arn:aws:s3:::job"
      "10.42.0.2/32"
    ≡ same "s3:*" "s3:*"
      && (same "arn:aws:s3:::job" "arn:aws:s3:::job"
          || same "arn:aws:s3:::job" "arn:aws:s3:::job/*")
      && (if is_nonempty ("10.42.0.2/32" ∷ [])
          then any (same "10.42.0.2/32") ("10.42.0.2/32" ∷ [])
          else true)
owner_permits_example =
    owner_permits same same same "job" "s3:*" "arn:aws:s3:::job" "10.42.0.2/32"
      ("10.42.0.2/32" ∷ [])

abbrev bucket : JobBucket
bucket = record { name = "job"; credentials = []; users = []; policies = [] }

-- MinIO, where no group takes a user.
abbrev no_groups : Answers
no_groups = record {
  add_user = ok tt;
  apply_user_policy = ok tt;
  add_user_to_group = λ g. err runtime_error;
}

-- MinIO, which does what it is asked.
