-- ===== src/Executor/Artifacts.antt =====
-- executor.py: which URLs of a job the machine is told to boot from.
use valve_infra.Base.{String, ◌≡◌, Option, some, List, [], ◌∷◌, if◌then◌else◌}
use valve_infra.Base.Result.{Result, ok}
use valve_infra.Job.Deployment.{Deployment}
use valve_infra.Executor.Cache.{Cache, is_local_url, object_name, local_url}

module _ (minio_url machine_id : String) (download : Option String → Result (Unit {0}))
    (up : (url : Option String) → download url ≡ ok tt) where
  -- Where the machine finds an artifact: where it is, if MinIO hosts it, or else its copy.
  abbrev pub served : String → String → String
  served name url =
      if is_local_url minio_url machine_id download url
      then url
      else local_url minio_url machine_id download name "start"

  -- What is downloaded for it.
  abbrev pub downloaded : String → String → List (String × Option String)
  downloaded name url =
      if is_local_url minio_url machine_id download url
      then []
      else (object_name minio_url machine_id download name "start", some url) ∷ []
