-- ===== src/Lib.antt =====
-- Valve CI infrastructure: the server that runs jobs on the test machines of a farm.
--
-- A farm's gateway runs the executor (executor/server/src/valve_gfx_ci/executor/server). MaRS keeps
-- a `Machine` for each machine of its database, with an `Executor` thread. The HTTP API hands a job
-- to `start_job`; the thread picks it up in `session_init`, caches its kernel and initramfs in
-- MinIO, and boots the machine through its PDU until the job is done. A `JobConsole` thread relays
-- the serial console, which SALAD provides, to the client of the job as framed messages, follows
-- the console patterns and watchdogs of the job, and tells the client how it ended. A machine that
-- is not in service is trained by `SergentHartman` first.
-- SALAD reads the serial and the network consoles, finds out which machine each belongs to, and
-- serves them, one client per machine. The executor's client queues a job and connects the user's
-- terminal to it; valvetraces is a user of the farm, which runs traces of games in a job and reports
-- on them with what gfxinfo says of the machine.
--
-- Base: what the modules share; lists over native numbers, dictionaries, exceptions, and calls
--   that may raise in a state that they change.
-- Message: message.py, of which executor/client has an identical copy. Framing is `recv`, `send`
--   and `next_message` on the bytes; Fragments and Frames are its theorems; Base85 is the payload of
--   `JobIOMessage`; Status is `JobStatus`.
-- Job: job.py. Timeout and Timeouts are the classes of these names, Patterns is `Pattern`,
--   `Watchdog` and `ConsoleState`, Deployment and Schema are what a job's data becomes.
-- Pdu: pdu/__init__.py and pdu/drivers. Port is `PDUPort`, Contract what it needs of a driver,
--   Dummy, Snmp and Virtual the drivers, Vpdu the server of ansible/roles/vpdu/files/vpdu.py.
-- Sergent: `SergentHartman` of executor.py.
-- Console: `JobConsole` of executor.py. Lines is `match_console_patterns`, Loop is `run`; the
--   other modules are theorems.
-- Executor: `Executor` of executor.py. Cache is `_cache_remote_artifacts`, Waiting and Boots the
--   loops of `execute_job`, TearDown what follows it, Session `start_job`, `session_init` and
--   `session_end`, Iteration the loop of `run` around them.
-- Mars: mars.py. Names is `full_name`, Runners the tokens of the GitLab runners, Sync
--   `sync_machines`, Known its theorem.
-- Minio: minioclient.py and `JobBucket` of executor.py. BucketName and Policy are of the first,
--   Credentials, Removal and Request (`from_job_request`) of the second.
-- Api: app.py. This file has retiring and cancelling, Choice `find_suitable_machine`, Requests the
--   requests of `post_job` and `post_job` itself, Discovery `discover_machine`, with `discover_data`
--   of mars.py, Registration `machine_add_or_update`, with `add_or_update_machine` of mars.py.
-- Boots: boots.py. This file has `split_mac_addr`, Hosts `parse_dhcp_hosts`, the template of the
--   hosts file and `add_static_address`, Ipxe the script that a machine boots from.
-- Client: client.py of executor/client. This file has the loop that connects the terminal to the
--   job, Queue the queueing of the job and `run`.
-- Traces: valvetraces/src/valve_gfx_ci/valvetraces/__init__.py. This file has `traces_under_gb`, Frames
--   the acceptability of frames, Compat the compatibility reports, Drivers `gpu_driver`, Report the
--   executions, the JUnit file and `is_success`.
-- Gfx: gfxinfo/src/valve_gfx_ci/gfxinfo/amdgpu.py. This file has the tables, Database `from_pciid`.
-- Salad: salad/src/valve_gfx_ci/salad. This file is tcpserver.py, Console is console.py and Hub
--   salad.py.
-- Witnesses: a small job and the theorems on it.
-- A module that is not named here holds theorems on the one that it stands below.
--
-- Exceptions are values of `Exception`. State is passed explicitly, and what a call wrote before it
-- raised stays written. Times are whole microseconds. What sockets, clocks and other threads do is
-- the input of the loops: a script of readings, buffers or boots. A loop over a script is by
-- recursion on the script and says where it stopped, so that no fuel is chosen; that a loop ends
-- is a theorem about how long a script can be.
--
-- Not modelled: the regular expressions of a job, of amdgpu.py and of valvetraces, which are kept
-- as tests on a line (those of boots.py, client.py and console.py are written out); JSON, YAML and
-- the schemas' own validation; the routing of Flask and the handlers that only list; the uploads of
-- valvetraces; GPUs of other vendors, the registration of machines and the dashboard; dnsmasq,
-- QEMU, SNMP, MinIO, GitLab, git and the service of traces, whose answers are parameters.
pub mod Api
pub mod Base
pub mod Boots
pub mod Client
pub mod Traces
pub mod Gfx
pub mod Console
pub mod Job
pub mod Message
pub mod Minio
pub mod Pdu
pub mod Sergent
pub mod Executor
pub mod Mars
pub mod Salad
pub mod Witnesses
