-- ===== src/Executor/Cache.antt =====
-- executor.py: `_cache_remote_artifact` and `_cache_remote_artifacts`.
--
-- `download` is what requests and MinIO answer to `save_boot_artifact` for a URL.
use Prim.Native.String
use text.Mathlib.Text.{starts_with}
use valve_infra.Base.{String, Bool, Option, none, some, List, ◌∷◌, if◌then◌else◌}
use valve_infra.Base.Result.{Result, ok, err, attribute_error}
use valve_infra.Base.Action.{Action, pure, raise, ◌>>◌}
use valve_infra.Job.Deployment.{Deployment}
use valve_infra.Executor.{◌=u◌}

-- `remote_url_to_local_cache_mapping`, as what `get` gives: `None` also for an absent key.
abbrev pub Mapping : Type 0
Mapping = Option String → Option String

abbrev pub assign : Option String → Option String → Mapping → Mapping
assign k v m q = if q =u k then v else m q

-- The mapping, and the artifacts that MinIO holds: the URL that each object was fetched from.
pub record Cache : Type 0 where
  pub mapping : Mapping
  pub saved : List (String × Option String)

module _ (minio_url machine_id : String) (download : Option String → Result (Unit {0})) where
  -- `MinioClient.is_local_url`
  unfoldable pub is_local_url : String → Bool
  is_local_url url = starts_with url (String.◌++◌ minio_url "/")

  -- `f"{artifact_name}-{self.machine.id}"`
  unfoldable artifact_prefix : String → String
  artifact_prefix name = String.◌++◌ name (String.◌++◌ "-" machine_id)

  unfoldable pub object_name : String → String → String
  unfolding artifact_prefix
  object_name name suffix = String.◌++◌ (artifact_prefix name) (String.◌++◌ "-" suffix)

  -- `f"{config.MINIO_URL}/boot/{artifact_prefix}-{suffix}"`
  unfoldable pub local_url : String → String → String
  unfolding object_name
  local_url name suffix = String.◌++◌ minio_url (String.◌++◌ "/boot/" (object_name name suffix))

  -- `self.minio.save_boot_artifact(url, object)`
  unfoldable pub save_boot_artifact : Option String → String → Action Cache (Unit {0})
  save_boot_artifact url object c = elim (download url) [
    | ok _ ↦ (ok tt, record c { saved = (object, url) ∷ c.saved })
    | err e ↦ (err e, c)
  ]

  -- `cache_it`, which saves `start_url`, whatever the URL and the suffix.
  unfoldable pub cache_it :
      String → Option String → Option String → String → Action Cache (Unit {0})
  unfolding is_local_url local_url object_name save_boot_artifact
  cache_it name start_url none suffix = raise attribute_error
  cache_it name start_url (some url) suffix = if is_local_url url then pure tt else (do
    λ c. (ok tt, record c { mapping = assign (some url) (some (local_url name suffix)) c.mapping })
    save_boot_artifact start_url (object_name name "start"))

  -- `_cache_remote_artifact`
  unfoldable pub cache_remote_artifact :
      String → Option String → Option String → Action Cache (Unit {0})
  unfolding cache_it
  cache_remote_artifact name start_url continue_url = do
    λ c. (
      ok tt,
      record c {
        mapping = assign continue_url continue_url (assign start_url start_url c.mapping);
      },
    )
    cache_it name start_url start_url "start"
    if start_url =u continue_url then pure tt else cache_it name start_url continue_url "continue"

  -- `_cache_remote_artifacts`, but for the job bucket. Both deployments are the start deployment.
  unfoldable pub cache_remote_artifacts : Deployment → Action Cache (Unit {0})
  unfolding cache_remote_artifact
  cache_remote_artifacts deployment_start =
      let deploy_strt = deployment_start in
      let deploy_cnt = deployment_start in
      (do
        cache_remote_artifact "kernel" deploy_strt.kernel_url deploy_cnt.kernel_url
        cache_remote_artifact "initramfs" deploy_strt.initramfs_url deploy_cnt.initramfs_url)
