-- ===== src/System.antt =====
-- The requests, the watchdog and the processes together: each transaction is one step, and the steps
-- of different requests and of the watchdog come in any order. A step is possible for every row and
-- every VM. What the relation leaves out is a confirmation, with the object that the session holds,
-- of an environment that something has ended in the meantime: see Envs/Confirm.
pub mod Updates
pub mod Ended
pub mod Requests
pub mod Safe
pub mod Tests
use hack_bento.Base.{ℕ, ◌≡◌, Bool, true, false, List, [], ◌∷◌, some, Text, where_is, Reply, ok}
use hack_bento.Model.{User, Environment, Settings, Db, is_admin, is_starting}
use hack_bento.Watchdog.{World, stop_vm, reap}
use hack_bento.Envs.{reserve, start_failed, record_vm, confirm, commit_failed}
use hack_bento.Envs.Confirm.{row_of}
use hack_bento.Projects.{stop_quietly}
use hack_bento.Host.{Host}
use hack_bento.Vm.Orphans.{SweepAnswers, cleanup_orphaned_vms}
use hack_bento.Envs.Manage.{extend_env, stop_env}
use hack_bento.Attack.{reserve_attack, extend_attack, stop_attack}

abbrev pub with_db : World → Db → World
with_db w db = record w { db = db }

-- `admins` has every user who is an administrator at some time; the role is read in each request.
pub data Step (cfg : Settings) (admins : ℕ → Bool) (w : World) : World → Type 0 where
  -- the first transaction of `start_env`
  reserved :
      (neighbours : List Text) (now image_id : ℕ) (u : User) (env : Environment) (db : Db)
      → (is_admin u.role ≡ true → admins u.id ≡ true)
      → reserve cfg neighbours now image_id u w.db ≡ ok (env, db)
      → Step cfg admins w (with_db w db)
  -- the first transaction of `start_attack_machine`
  machine_reserved :
      (built : Bool) (neighbours : List Text) (now : ℕ) (u : User) (env : Environment) (db : Db)
      → (is_admin u.role ≡ true → admins u.id ≡ true)
      → reserve_attack cfg built neighbours now u w.db ≡ ok (env, db)
      → Step cfg admins w (with_db w db)
  -- `start_vm` returns, or raises
  booted : (vm : Text) → Step cfg admins w (record w { vms = vm ∷ w.vms })
  boot_failed : (env : Environment) → Step cfg admins w (start_failed env w).1
  -- the second and the third transaction; the session hands back the object that it holds, and
  -- nothing has ended the environment in the meantime, unless its row is gone
  vm_recorded :
      (env : Environment) (vm : Text) → Step cfg admins w (with_db w (record_vm env vm w.db))
  confirmed :
      (raises : Text → Bool) (now timeout : ℕ) (env : Environment) (vm : Text)
      → is_starting env.status ≡ true
      → ((row : Environment) → row_of env w ≡ some row → is_starting row.status ≡ true)
      → Step cfg admins w (confirm false raises now timeout env vm w).1
  not_committed : (vm : Text) → Step cfg admins w (commit_failed vm w).1
  extended :
      (now env_id : ℕ) (u : User) (more : ℕ) (db : Db)
      → extend_env cfg now env_id u w.db ≡ ok (more, db)
      → Step cfg admins w (with_db w db)
  machine_extended :
      (now : ℕ) (u : User) (more : ℕ) (db : Db)
      → extend_attack cfg now u w.db ≡ ok (more, db)
      → Step cfg admins w (with_db w db)
  stopped :
      (raises : Text → Bool) (env_id : ℕ) (u : User)
      → Step cfg admins w (stop_env raises env_id u w).1
  machine_stopped : (raises : Text → Bool) (u : User) → Step cfg admins w (stop_attack raises u w).1
  -- one claim of the watchdog, for whatever row
  reaped : (raises : Text → Bool) (env_id : ℕ) → Step cfg admins w (reap raises env_id w)
  -- a turn of the loops in `delete_image`, `update_image` and `delete_user` that end environments
  ended : (raises : Text → Bool) (env_id : ℕ) → Step cfg admins w (stop_quietly raises env_id w)
  -- `delete_user` deletes rows: those of the user, and those of the user's projects
  rows_deleted :
      (kept : Environment → Bool)
      → Step cfg admins w
          (with_db w (record w.db { environments = where_is kept w.db.environments }))
  -- whatever a handler or a worker does to the other tables: users and their roles, projects,
  -- collaborators, assets
  others_changed :
      (db : Db) → db.environments ≡ w.db.environments → Step cfg admins w (with_db w db)
  -- the orchestrator starts anew
  restarted :
      (ans : SweepAnswers) (h : Host) (vms : List Text)
      → Step cfg admins w (record { db = (cleanup_orphaned_vms ans w.db h).0; vms = vms })
  -- a guest powers off, or its process dies
  died : (vm : Text) → Step cfg admins w (record w { vms = stop_vm vm w.vms })

pub data Reach (cfg : Settings) (admins : ℕ → Bool) (w : World) : World → Type 0 where
  start : Reach cfg admins w w
  next : {v v' : World} → Reach cfg admins w v → Step cfg admins v v' → Reach cfg admins w v'
