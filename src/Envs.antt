-- ===== src/Envs.antt =====
-- orchestrator/routers/envs.py: starting, extending and stopping an environment.
--
-- `start_env` is three transactions with `start_vm` between the first and the second: `reserve`,
-- `record_vm` and `confirm`. Other requests and the watchdog run in between. Its other endings are
-- `start_failed` and `commit_failed`.
pub mod Reserve
pub mod Manage
pub mod Confirm
pub mod Limits
pub mod Tests
use hack_bento.Base.{
  ℕ, zero, suc, ◌+◌, ◌-◌, ◌*◌, ◌/◌, Bool, true, false, ◌&&◌, ◌||◌, not, List, [], ◌∷◌, ◌++◌, Option,
  none, some, Text, if◌then◌else◌, ltb, leb, ◌==◌, count_where, find_first, is_some, or_default,
  length, map, Reply, ok, http, ◌>>=◌, ◌>>◌, reject, or_404,
}
use hack_bento.Model.{
  User, Image, Environment, EnvStatus, RootfsConversionStatus, Settings, Db, is_admin, seconds,
  minutes, is_starting, is_running, is_stoppable, is_occupying,
}
use hack_bento.Access.{can_see, find_image, require_username_set}
use hack_bento.Pool.{ip_pool, or_500, allocate_ip}
use hack_bento.Watchdog.{World, stop_vm, update_env, set_status, claim_env_for_stop, destroy_env}

abbrev pub conversion_ready : RootfsConversionStatus → Bool
conversion_ready RootfsConversionStatus.ready = true
conversion_ready _ = false

-- The rows that count against the limits.
abbrev pub occupies : Environment → Bool
occupies e = is_occupying e.status

abbrev pub occupied_by : ℕ → Environment → Bool
occupied_by user_id e = e.user_id == user_id && is_occupying e.status

unfoldable pub user_count : ℕ → Db → ℕ
user_count user_id db = count_where (occupied_by user_id) db.environments

unfoldable pub total_count : Db → ℕ
total_count db = count_where occupies db.environments

-- The checks of `_reserve`, from which an administrator is exempt.
unfoldable pub within_limits : Settings → User → Db → Reply (Unit {0})
unfolding user_count total_count
within_limits cfg u db = do
  reject (not (is_admin u.role) && leb cfg.max_envs_per_user (user_count u.id db)) 429
  reject (not (is_admin u.role) && leb cfg.max_envs_total (total_count db)) 503

-- The primary key that SQLite gives a new row: one more than the largest.
unfoldable pub next_id : List Environment → ℕ
next_id [] = 1
next_id (e ∷ rows) = let rest = next_id rows in if ltb e.id rest then rest else e.id + 1

-- The row that `_reserve` adds.
unfoldable pub new_env : ℕ → User → ℕ → ℕ → Bool → Text → Db → Environment
unfolding next_id
new_env now u image_id timeout unlimited ip db = record {
  id = next_id db.environments;
  user_id = u.id;
  image_id = image_id;
  vm_id = none;
  ip_address = some ip;
  status = EnvStatus.starting;
  started_at = now;
  expires_at = now + minutes timeout;
  extended_count = 0;
  is_unlimited = unlimited;
}

abbrev pub add_env : Environment → Db → Db
add_env e db = record db { environments = db.environments ++ (e ∷ []) }

-- `_reserve`
unfoldable pub reserve_row :
    Settings → ℕ → User → ℕ → ℕ → Bool → Text → Db → Reply (Environment × Db)
unfolding within_limits new_env
reserve_row cfg now u image_id timeout unlimited ip db = do
  within_limits cfg u db
  let env = new_env now u image_id timeout unlimited ip db
  ok (env, add_env env db)

-- `if not ip or env is None: raise HTTPException(503)`
abbrev pub or_503 {ℓ} : {A : Type ℓ} → Option A × Db → Reply (A × Db)
or_503 (none, db) = http 503
or_503 (some a, db) = ok (a, db)

abbrev pub timeout_of : ℕ → Image → ℕ
timeout_of default image = or_default image.timeout_minutes default

-- The minutes until `expires_at`: an unlimited environment gets a placeholder.
abbrev pub placeholder_minutes : Settings → ℕ → ℕ
placeholder_minutes cfg timeout = if timeout == 0 then cfg.default_timeout_minutes else timeout

-- The first transaction of `start_env`, up to the commit in `allocate_ip`.
unfoldable pub reserve : Settings → List Text → ℕ → ℕ → User → Db → Reply (Environment × Db)
unfolding find_image can_see allocate_ip reserve_row
reserve cfg neighbours now image_id u db = do
  require_username_set u
  image ← or_404 (find_image image_id db)
  reject (not (can_see image (some u) db.collaborators)) 404
  reject (not (conversion_ready image.rootfs_conversion_status)) 409
  let timeout = timeout_of cfg.default_timeout_minutes image
  r ←
      allocate_ip cfg neighbours db
        (reserve_row cfg now u image.id (placeholder_minutes cfg timeout) (timeout == 0))
  or_503 r

-- The branch where `start_vm` raises: `destroy_env` of a row without a VM, and the commit.
unfoldable pub start_failed : Environment → World → Reply Environment × World
start_failed env w =
    (http 500, record w { db = update_env env.id (set_status EnvStatus.stopped) w.db })

abbrev pub set_vm : Text → Environment → Environment
set_vm vm e = record e { vm_id = some vm }

-- The second transaction: the VM's identifier is committed on its own.
unfoldable pub record_vm : Environment → Text → Db → Db
record_vm env vm db = update_env env.id (set_vm vm) db

abbrev pub set_running : ℕ → Environment → Environment
set_running expires e = record e { status = EnvStatus.running; expires_at = expires }

-- The status that the locking `select` of the third transaction shows. With `refreshes` it is the
-- one in the table; otherwise the session hands back the object that it holds, as it was.
abbrev pub seen_status : Bool → Environment → Environment → EnvStatus
seen_status true held row = row.status
seen_status false held row = held.status

-- A commit of the second or the third transaction raises: the VM is stopped, and the row stays.
unfoldable pub commit_failed : Text → World → Reply Environment × World
commit_failed vm w = (http 500, record w { vms = stop_vm vm w.vms })

unfoldable pub confirm_row :
    Bool
    → (Text → Bool)
    → ℕ
    → ℕ
    → Environment
    → Text
    → World
    → Option Environment
    → Reply Environment × World
confirm_row refreshes raises now timeout held vm w none = commit_failed vm w
confirm_row refreshes raises now timeout held vm w (some row) =
    if is_starting (seen_status refreshes held row)
    then (
      ok (set_running (now + minutes timeout) row),
      record w { db = update_env held.id (set_running (now + minutes timeout)) w.db },
    )
    else (http (if raises vm then 500 else 409), record w { vms = stop_vm vm w.vms })

-- The third transaction: the environment becomes running and its time begins, unless it was stopped
-- in the meantime; then its VM is stopped. `raises` says for which VM `stop_vm` raises.
unfoldable pub confirm :
    Bool → (Text → Bool) → ℕ → ℕ → Environment → Text → World → Reply Environment × World
unfolding confirm_row commit_failed
confirm refreshes raises now timeout held vm w =
    confirm_row refreshes raises now timeout held vm w
      (find_first (λ e. e.id == held.id) w.db.environments)
