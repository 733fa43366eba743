-- ===== src/Envs/Manage.antt =====
-- orchestrator/routers/envs.py: `extend_env`, `stop_env`, `list_my_envs` and `_to_response`.
use hack_bento.Base.{
  ℕ, ◌+◌, ◌-◌, ◌*◌, ◌/◌, Bool, false, ◌&&◌, not, List, Option, none, some, Text, if◌then◌else◌, ltb,
  leb, ◌==◌, find_first, where_is, or_default, length, Reply, ok, http, ◌>>=◌, ◌>>◌, reject, or_404,
  ◌≡◌, refl,
}
use hack_bento.Model.{
  User, Image, Environment, EnvStatus, Settings, Db, is_admin, minutes, is_starting, is_stoppable,
}
use hack_bento.Pool.{ip_pool, or_500}
use hack_bento.Watchdog.{
  World, update_env, set_status, claim_env_for_stop, destroy_env, after_claim, settle, reap,
}
use hack_bento.Envs.{occupied_by}
use hack_bento.Access.{require_username_set}

-- `env.image`, whether or not the project is still active.
pub image_of : Environment → Db → Option Image
image_of env db = find_first (λ i. i.id == env.image_id) db.images

-- `img_timeout if img_timeout else default`: 0 and no value both give the default.
abbrev pub truthy_or : Option ℕ → ℕ → ℕ
truthy_or none default = default
truthy_or (some n) default = if n == 0 then default else n

image_timeout : Option Image → Option ℕ
image_timeout none = none
image_timeout (some i) = i.timeout_minutes

-- The minutes that `extend_env` grants.
unfoldable pub extend_minutes : Settings → Environment → Db → ℕ
unfolding image_of image_timeout
extend_minutes cfg env db = truthy_or (image_timeout (image_of env db)) cfg.default_timeout_minutes

abbrev pub owns : User → Environment → Bool
owns u env = env.user_id == u.id

abbrev pub stoppable_row : ℕ → Environment → Bool
stoppable_row env_id e = e.id == env_id && is_stoppable e.status

abbrev pub extended : ℕ → Environment → Environment
extended expires e = record e { expires_at = expires; extended_count = e.extended_count + 1 }

-- `extend_env`: the minutes of its answer, and the tables.
unfoldable pub extend_env : Settings → ℕ → ℕ → User → Db → Reply (ℕ × Db)
unfolding extend_minutes
extend_env cfg now env_id u db = do
  require_username_set u
  env ← or_404 (find_first (stoppable_row env_id) db.environments)
  reject (not (owns u env) && not (is_admin u.role)) 403
  pool ← or_500 (ip_pool cfg)
  reject (not (is_admin u.role) && leb (length pool) env.extended_count) 429
  reject env.is_unlimited 400
  let more = extend_minutes cfg env db
  ok (more, update_env env.id (extended (now + minutes more)) db)

-- The checks of `stop_env`, made before anything is claimed.
unfoldable pub stop_allowed : ℕ → User → Db → Reply Environment
stop_allowed env_id u db = do
  require_username_set u
  env ← or_404 (find_first (stoppable_row env_id) db.environments)
  reject (not (owns u env) && not (is_admin u.role)) 403
  reject (is_starting env.status) 409
  ok env

unfoldable pub stop_settled : ℕ → Db → Db → Bool × List Text → Reply (Unit {0}) × World
stop_settled env_id before claimed (done, vms) = (
  if done then ok tt else http 500,
  record {
    db = if done then update_env env_id (set_status EnvStatus.stopped) claimed else before;
    vms = vms;
  },
)

unfoldable pub stop_claimed :
    (Text → Bool) → ℕ → World → Option (Environment × Db) → Reply (Unit {0}) × World
unfolding stop_settled
stop_claimed raises env_id w none = (http 404, w)
stop_claimed raises env_id w (some (env, db)) =
    stop_settled env_id w.db db (destroy_env raises env w.vms)

unfoldable pub stop_if : (Text → Bool) → ℕ → World → Reply Environment → Reply (Unit {0}) × World
stop_if raises env_id w (http code) = (http code, w)
stop_if raises env_id w (ok env) = stop_claimed raises env_id w (claim_env_for_stop env_id w.db)

-- `stop_env`; where `stop_vm` raises, the answer is 500 and the claim is rolled back.
unfoldable pub stop_env : (Text → Bool) → ℕ → User → World → Reply (Unit {0}) × World
unfolding stop_allowed stop_if stop_claimed stop_settled
stop_env raises env_id u w = stop_if raises env_id w (stop_allowed env_id u w.db)

-- `list_my_envs`, before the sort by `started_at`.
unfoldable pub list_my_envs : User → Db → List Environment
list_my_envs u db = where_is (occupied_by u.id) db.environments

-- The computed fields of `EnvResponse`.
pub record EnvResponse : Type 0 where
  pub id : ℕ
  pub status : EnvStatus
  pub ip_address : Option Text
  pub seconds_remaining : ℕ
  pub timeout_minutes : ℕ
  pub is_unlimited : Bool
  pub warning : Bool
  pub is_attack_machine : Bool

image_flag : Option Image → Bool
image_flag none = false
image_flag (some i) = i.is_attack_machine

-- `_to_response`. `max(0, int((expires_at - now).total_seconds()))` on ℕ needs no `max`.
unfoldable pub to_response : Settings → ℕ → Db → Environment → EnvResponse
unfolding image_of image_timeout image_flag
to_response cfg now db env =
    let remaining = (env.expires_at - now) / 1000000 in
    record {
      id = env.id;
      status = env.status;
      ip_address = env.ip_address;
      seconds_remaining = remaining;
      timeout_minutes = or_default (image_timeout (image_of env db)) cfg.default_timeout_minutes;
      is_unlimited = env.is_unlimited;
      warning = not env.is_unlimited && ltb remaining (cfg.timeout_warning_minutes * 60);
      is_attack_machine = image_flag (image_of env db);
    }

stop_claimed-after_claim :
    (raises : Text → Bool) (env_id : ℕ) (w : World) (o : Option (Environment × Db))
    → (stop_claimed raises env_id w o).1 ≡ after_claim raises env_id w o
unfolding stop_claimed after_claim settle
stop_claimed-after_claim raises env_id w none = refl
stop_claimed-after_claim raises env_id w (some (env, db)) = refl

-- A user's stop changes the tables and the VMs as a stop by the watchdog does.
pub stop_claimed-reap :
    (raises : Text → Bool) (env_id : ℕ) (w : World)
    → (stop_claimed raises env_id w (claim_env_for_stop env_id w.db)).1 ≡ reap raises env_id w
unfolding reap
stop_claimed-reap raises env_id w =
    stop_claimed-after_claim raises env_id w (claim_env_for_stop env_id w.db)
