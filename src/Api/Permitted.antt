-- ===== src/Api/Permitted.antt =====
-- app.py: what it takes for a job to reach a machine.
use valve_infra.Base.{
  String, Bool, true, false, ◌≡◌, refl, ◌⊎◌, inl, inr, Option, none, some, List, [], ◌∷◌, get_or,
}
use valve_infra.Base.Dict.{lookup, insert, IsDict}
use valve_infra.Base.Result.{◌>>=◌, ◌>>◌, Result, ok, err, value_error}
use valve_infra.Executor.Session.{Request, start_job}
use valve_infra.Api.{Machine, Machines}
use valve_infra.Api.Choice.{dispatch, after}
use valve_infra.Api.Chosen.{Suits, started, dispatch_lem}
use valve_infra.Api.Requests.{
  JobRequest, Minio, Credentials, Body, post_job, post_parsed, parse, check_minio_credentials,
  check_groups, all_in, or_refused,
}

-- Every group that a request asks for is one of the user's whose credentials it gives.
abbrev pub Permits : Minio → Option Credentials → List String → Type 0
Permits minio credentials groups =
    (groups ≡ [])
    ⊎ ((c : Credentials) × (user_groups : List String) × (credentials ≡ some c)
        × (minio.login c ≡ ok tt)
        × (minio.groups_user_is_in c ≡ ok user_groups)
        × (all_in groups user_groups ≡ true))

not_refused : (r : Result Bool) → or_refused r ≡ ok true → r ≡ ok true
not_refused (ok b) h = h
not_refused (err value_error) h = cc
not_refused (err e) h = cc

checked :
    (minio : Minio) (c : Credentials) (groups : List String) (login : Result (Unit {0}))
    (r : Result (List String))
    → minio.login c ≡ login
    → minio.groups_user_is_in c ≡ r
    → (do login; user_groups ← r; ok (all_in groups user_groups)) ≡ ok true
    → Permits minio (some c) groups
checked minio c groups (ok _) (ok gs) logs answers h = inr (c, gs, refl, logs, answers, cc)
checked minio c groups (ok _) (err e) logs answers h = cc
checked minio c groups (err e) r logs answers h = cc

check_groups-Permits :
    (minio : Minio) (o : Option Credentials) (groups : List String)
    → check_groups minio o groups ≡ ok true
    → Permits minio o groups
check_groups-Permits minio o [] h = inl refl
check_groups-Permits minio none (g ∷ groups) h = cc
check_groups-Permits minio (some c) (g ∷ groups) h =
    checked minio c (g ∷ groups) (minio.login c) (minio.groups_user_is_in c) refl refl
      (not_refused _ h)

permitted :
    (minio : Minio) (r : JobRequest) (req : Request) (ms : Machines) (answer : Result Bool)
    → IsDict ms
    → check_minio_credentials minio r ≡ answer
    → ((dispatch answer r.target req ms).1 ≡ ms)
      ⊎ ((id : String) × (m : Machine) × Permits minio r.credentials (get_or r.groups [])
          × (lookup id ms ≡ some m)
          × Suits r.target.tags m
          × (dispatch answer r.target req ms
              ≡ (after (start_job req m.executor).0 200, insert id (started req m) ms)))
unfolding dispatch check_minio_credentials
permitted minio r req ms (err e) u answers = inl refl
permitted minio r req ms (ok false) u answers = inl refl
permitted minio r req ms (ok true) u answers = elim (dispatch_lem r.target req ms u) [
  | inl none_changed ↦ inl none_changed
  | inr (id, m, here, suits, runs) ↦ inr (
    id,
    m,
    check_groups-Permits minio r.credentials (get_or r.groups []) answers,
    here,
    suits,
    runs,
  )
]

parsed :
    (minio : Minio) (req : Request) (ms : Machines) (answer : Result JobRequest)
    (remote_addr : String) (body : Body)
    → IsDict ms
    → parse remote_addr body ≡ answer
    → ((post_parsed minio req answer ms).1 ≡ ms)
      ⊎ ((r : JobRequest) × (id : String) × (m : Machine) × (parse remote_addr body ≡ ok r)
          × Permits minio r.credentials (get_or r.groups [])
          × (lookup id ms ≡ some m)
          × Suits r.target.tags m
          × (let q = record req { version = some r.version } in
              post_parsed minio req answer ms
              ≡ (after (start_job q m.executor).0 200, insert id (started q m) ms)))
parsed minio req ms (err e) remote_addr body u reads = inl refl
parsed minio req ms (ok r) remote_addr body u reads =
    elim (permitted minio r (record req { version = some r.version }) ms
      (check_minio_credentials minio r) u refl) [
        | inl unchanged ↦ inl unchanged
        | inr (id, m, may, here, suits, runs) ↦ inr (r, id, m, reads, may, here, suits, runs)
      ]

-- A request changes no machine unless it can be read, MinIO accepts its credentials for every group
-- that it asks for, and it is handed to a machine that is known, has its tags, is not retired and
-- is idle. Then only that machine's executor changes, as `start_job` has it, and the answer is 200
-- if `start_job` raises nothing.
pub post_job_lem :
    (minio : Minio) (remote_addr : String) (body : Body) (req : Request) (ms : Machines)
    → IsDict ms
    → ((post_job minio remote_addr body req ms).1 ≡ ms)
      ⊎ ((r : JobRequest) × (id : String) × (m : Machine) × (parse remote_addr body ≡ ok r)
          × Permits minio r.credentials (get_or r.groups [])
          × (lookup id ms ≡ some m)
          × Suits r.target.tags m
          × (let q = record req { version = some r.version } in
              post_job minio remote_addr body req ms
              ≡ (after (start_job q m.executor).0 200, insert id (started q m) ms)))
unfolding post_job
post_job_lem minio remote_addr body req ms u =
    parsed minio req ms (parse remote_addr body) remote_addr body u refl
