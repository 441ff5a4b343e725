-- ===== src/Api/Requests.antt =====
-- app.py: the requests of `post_job`, the check of their MinIO credentials, and `post_job` as a
-- whole. The parts of a form, JSON and YAML are decoded; what `Job.from_job` makes of the job is
-- the target that it names.
use valve_infra.Base.{
  ℕ, ◌==◌ as ◌=n◌, String, Bool, true, false, ◌&&◌, Option, none, some, List, [], ◌∷◌, get_or,
}
use valve_infra.Base.Result.{Result, ok, err, Exception, value_error, key_error, guard, ◌>>=◌, ◌>>◌}
use valve_infra.Job.Schema.{Target}
use valve_infra.Executor.Session.{Request}
use valve_infra.Api.{Call}
use valve_infra.Api.Choice.{is_in, dispatch}

-- A value of a JSON object: the key can be missing, and the value can be null.
abbrev pub Field : Type 0 → Type 0
Field A = Option (Option A)

-- `d.get(key, default)`
abbrev pub get : {A : Type 0} → Field A → Option A → Option A
get f default = get_or f default

abbrev pub given : {A : Type 0} → Field A → Option A
given f = get_or f none

pub record Credentials : Type 0 where
  pub access_key : Option String
  pub secret_key : Option String

pub record Metadata : Type 0 where
  pub version : Field ℕ
  pub target : Option (Field String × Field (List String))
  pub callback_host : Field String
  pub callback_port : Field ℕ
  pub job_id : Field String
  pub credentials : Credentials
  pub groups : Field (List String)

-- The body of a request in JSON.
pub record Json : Type 0 where
  pub metadata : Option (Field String × Field ℕ)
  pub job : Option (Result Target)

-- A form: the metadata, with whether they are marked as JSON, the job, with whether it is marked as
-- YAML, and whether the tarball, if there is one, has the right type.
pub record Form : Type 0 where
  pub metadata : Option (Bool × Result Metadata)
  pub job : Option (Bool × Result Target)
  pub tarball : Option Bool

pub data Body : Type 0 where
  json : Json → Body
  form : Form → Body
  other : Body

-- `JobRequest`. A job without an identifier gets one from the time.
pub record JobRequest : Type 0 where
  pub version : ℕ
  pub target : Target
  pub host : String
  pub port : ℕ
  pub job_id : Option String
  pub credentials : Option Credentials
  pub groups : Option (List String)

abbrev pub present : {A : Type 0} → Exception → Option A → Result A
present e none = err e
present e (some a) = ok a

-- `Target(target.get('id'), target.get('tags', []))`, or the target of the job.
abbrev pub target_of : Option (Field String × Field (List String)) → Target → Target
target_of none target = target
target_of (some (id, tags)) target = record { id = given id; tags = get_or (given tags) [] }

-- `JSONJobRequest`
unfoldable pub parse_json : String → Json → Result JobRequest
parse_json remote_addr r = do
  (callback_host, callback_port) ← present key_error r.metadata
  job ← present key_error r.job
  target ← job
  host ← present value_error (get callback_host (some remote_addr))
  port ← present value_error (given callback_port)
  ok (record {
    version = 0;
    target = target;
    host = host;
    port = port;
    job_id = none;
    credentials = none;
    groups = none;
  })

-- `MultipartJobRequest.parse_v1`. A form without a job is answered with code 400 as well.
unfoldable pub parse_v1 : String → Form → Metadata → Result JobRequest
parse_v1 remote_addr r metadata = do
  (is_yaml, job) ← present value_error r.job
  guard is_yaml value_error
  guard (get_or r.tarball true) value_error
  target ← job
  host ← present value_error (get metadata.callback_host (some remote_addr))
  port ← present value_error (given metadata.callback_port)
  ok (record {
    version = 1;
    target = target_of metadata.target target;
    host = host;
    port = port;
    job_id = given metadata.job_id;
    credentials = some metadata.credentials;
    groups = get metadata.groups (some []);
  })

abbrev pub is_one : Option ℕ → Bool
is_one none = false
is_one (some n) = n =n 1

-- `MultipartJobRequest`
unfoldable pub parse_form : String → Form → Result JobRequest
unfolding parse_v1
parse_form remote_addr r = do
  (is_json, read) ← present value_error r.metadata
  guard is_json value_error
  metadata ← read
  guard (is_one (given metadata.version)) value_error
  parse_v1 remote_addr r metadata

-- `JobRequest.parse`
unfoldable pub parse : String → Body → Result JobRequest
unfolding parse_json parse_form
parse remote_addr (json r) = parse_json remote_addr r
parse remote_addr (form r) = parse_form remote_addr r
parse remote_addr other = err value_error

-- What MinIO answers to credentials: whether they are good, and the groups of their user.
pub record Minio : Type 0 where
  pub login : Credentials → Result (Unit {0})
  pub groups_user_is_in : Credentials → Result (List String)

-- `except ValueError`
abbrev pub or_refused : Result Bool → Result Bool
or_refused (ok b) = ok b
or_refused (err value_error) = ok false
or_refused (err e) = err e

-- The loop over the requested groups.
unfoldable pub all_in : List String → List String → Bool
all_in [] user_groups = true
all_in (group ∷ groups) user_groups = is_in group user_groups && all_in groups user_groups

abbrev pub check_groups : Minio → Option Credentials → List String → Result Bool
check_groups minio credentials [] = ok true
check_groups minio none (g ∷ groups) = ok false
check_groups minio (some c) (g ∷ groups) = or_refused (do
  minio.login c
  user_groups ← minio.groups_user_is_in c
  ok (all_in (g ∷ groups) user_groups))

-- `check_minio_credentials`; to remove the alias is taken to succeed.
unfoldable pub check_minio_credentials : Minio → JobRequest → Result Bool
unfolding all_in
check_minio_credentials minio r = check_groups minio r.credentials (get_or r.groups [])

abbrev pub post_parsed : Minio → Request → Result JobRequest → Call ℕ
post_parsed minio req (err e) ms = (err e, ms)
post_parsed minio req (ok r) ms =
    dispatch (check_minio_credentials minio r) r.target (record req { version = some r.version }) ms

-- `post_job`; `req` is what the job bucket, the rendering of the job and SALAD answer to it.
unfoldable pub post_job : Minio → String → Body → Request → Call ℕ
unfolding parse check_minio_credentials dispatch
post_job minio remote_addr body req = post_parsed minio req (parse remote_addr body)
