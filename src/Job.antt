-- ===== src/Job.antt =====
-- executor/server/src/valve_gfx_ci/executor/server/job.py: what a job asks for, and the state that
-- its timeouts and console patterns keep while it runs.
pub mod Timeout
pub mod Timeouts
pub mod Patterns
pub mod Deployment
pub mod Schema
