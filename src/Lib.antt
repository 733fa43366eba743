-- ===== src/Lib.antt =====
-- HackBento orchestrator: the part of the service that decides who may see and run a project, and
-- that starts, extends and stops the virtual machines of the users.
--
-- The parts and their files:
--   Model       orchestrator/models.py and the limits of orchestrator/config.py: the tables as lists of
--               records in one `Db`; a `datetime` is a number of microseconds.
--   Base        lists, texts as code points, and `Reply`: what a handler answers, a value or the
--               status code of an `HTTPException`.
--   Numeral, Address
--               numerals and IPv4 addresses as orchestrator/services/network.py prints and reads them,
--               and `ip_to_mac`.
--   Access      orchestrator/routers/images.py (`_can_see`, `can_edit`, `update_visibility`, the check of
--               `update_image`) and the collaborators of orchestrator/routers/users.py.
--   Pool        `_ip_pool` and `allocate_ip` of orchestrator/services/network.py; `allocate_ip` takes the
--               caller's `flush_record` as an argument, as the code does.
--   Watchdog    orchestrator/services/watchdog.py: the claim of an environment, its destruction, and
--               one round of `run_watchdog` over a `World` of tables and virtual machines.
--   Envs        orchestrator/routers/envs.py: `start_env` as its three transactions `reserve`, `record_vm`
--               and `confirm`, with the endings `start_failed` and `commit_failed`; `extend_env` and
--               `stop_env`.
--   Attack      orchestrator/routers/attack_machine.py, on the operations of Pool, Envs and Watchdog.
--   Names       orchestrator/reserved.py and the rules for usernames of orchestrator/routers/users.py and
--               orchestrator/services/auth_oauth.py.
--   Accounts    orchestrator/services/auth_local.py, auth_ldap.py and auth_oauth.py, `login` of
--               orchestrator/routers/auth.py, and the username and the password of
--               orchestrator/routers/users.py.
--   Queue       the three workers that share the waiting rows of `default_rootfs_assets` and `images`:
--               orchestrator/services/rootfs_convert.py, docker_base_assets.py and bundle_build.py, with
--               what `update_image` writes for a new archive; Queue/Workers has the steps.
--   Projects    `delete_image` of orchestrator/routers/images.py and its loop over the environments.
--   Boot        `_sanitize_extra_boot_args` of orchestrator/services/smolvm.py.
--   Directory   `search_users`, `check_username` and `check_username_for_setup` of orchestrator/routers/users.py.
--   Extract     `_resolve_within` of orchestrator/services/rootfs_tar.py, over any answers of the file system.
--   Options     `parse_timeout_options` and `parse_attack_machine_timeout` of orchestrator/config.py.
--   Host        what the virtual machines leave on the host: files, TAP devices, nft tables, control
--               groups and processes, with `_fc_pids` and `_fc_rootfs_paths`; its children are the
--               functions of orchestrator/services/smolvm.py (Disk, Processes) and of
--               orchestrator/services/network.py (Network) that change it.
--   Vm          `_start_firecracker`, `_stop_firecracker` and, in Orphans, `cleanup_orphaned_vms` of
--               orchestrator/services/smolvm.py. `Answers` says how each call of the operating system
--               and of Firecracker ends, by its place in the code; a call that raises has no effect,
--               except that a copy may leave a part of the file, and a signal acts at once.
--   Builder     docker/docker-base-builder/server.py: the requests, the tasks and the clean-up of its
--               containers; `_jobs` maps an identifier to the number of an object, which a task keeps.
--               Builder/Wait is `run_builder_job` of orchestrator/services/rootfs_tar.py; its fuel is the
--               number of rounds within the timeout and one more, in which the timeout is exceeded.
--   Bundle      `_validate_bundle_tar` of orchestrator/services/bundle_build.py: the entries of an uploaded
--               archive, by name, kind, link and size, on the `normpath` of Extract. Bundle/Compose is
--               `_validate_compose`, on the configuration as it is read from the JSON.
--   Occupancy, System
--               the invariant of the table of environments, the step relation in which requests, the
--               watchdog and the processes interleave, and what holds in every reachable state.
--   Samples     the data of the tests, which stand in the Tests module of each part.
--
-- A write transaction begins with BEGIN IMMEDIATE (orchestrator/database.py), so each one is a single
-- step on the tables. Arguments stand for what lies outside: the clock (`now`), the neighbours of the
-- bridge, whether `vm_is_alive`, and for which virtual machine `stop_vm` raises. `refreshes` says whether
-- a `select` re-reads a row that the session already holds: the session of the code does not, and the
-- steps of System and the theorems of Envs are about that case; `verify`, `hash` and `bound` are passlib's and
-- the directory's answers. Two other definitions run on fuel: `print_digits`, whose fuel is one more than the
-- number and bounds its digits, and `unique_from`, whose fuel is one more than the number of users, so
-- that one of its candidates is free.
--
-- Not modelled: the tokens and cookies, the HTTP over the socket of Firecracker, the checks of the
-- bridge, the conversions and builds themselves, uploads, pages and administration, and external tools
-- and services.
pub mod Base
pub mod Model
pub mod Numeral
pub mod Address
pub mod Access
pub mod Pool
pub mod Watchdog
pub mod Envs
pub mod Attack
pub mod Occupancy
pub mod System
pub mod Names
pub mod Queue
pub mod Options
pub mod Extract
pub mod Directory
pub mod Host
pub mod Vm
pub mod Builder
pub mod Bundle
pub mod Boot
pub mod Projects
pub mod Accounts
pub mod Samples
