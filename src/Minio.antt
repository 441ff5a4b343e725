-- ===== src/Minio.antt =====
-- executor/server/src/valve_gfx_ci/executor/server/minioclient.py: the names of buckets and the
-- policies of their users. (`is_local_url` and `save_boot_artifact` are in `Executor.Cache`.)
pub mod BucketName
pub mod Policy
pub mod Credentials
pub mod Removal
pub mod Request
