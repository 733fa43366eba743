-- ===== src/Attack.antt =====
-- orchestrator/routers/attack_machine.py: the personal Attack Machine of each user. The transactions
-- after `start_vm` are those of `Envs` (`record_vm`, `confirm`), without the handler around them.
pub mod Laws
pub mod Tests
use hack_bento.Base.{
  ℕ, ◌+◌, Bool, ◌&&◌, not, List, Option, none, some, Text, if◌then◌else◌, leb, ◌==◌, find_first,
  any, length, truthy, Reply, ok, http, ◌>>=◌, ◌>>◌, reject, or_404, one_or_none, where_is, is_some,
}
use hack_bento.Model.{
  User, Image, Environment, EnvStatus, Settings, Db, is_admin, minutes, is_starting, is_running,
  is_stoppable, is_occupying,
}
use hack_bento.Pool.{ip_pool, or_500, allocate_ip}
use hack_bento.Watchdog.{World, update_env, claim_env_for_stop}
use hack_bento.Envs.{reserve_row, or_503, timeout_of, placeholder_minutes}
use hack_bento.Envs.Manage.{extended, truthy_or, stop_claimed}
use hack_bento.Access.{require_username_set}

abbrev attack_row : Image → Bool
attack_row i = i.is_attack_machine && i.is_active

abbrev image_or_503 : Option Image → Reply Image
image_or_503 none = http 503
image_or_503 (some i) = ok i

-- `_get_attack_image`
unfoldable pub get_attack_image : Db → Reply Image
get_attack_image db = do image ← one_or_none (where_is attack_row db.images); image_or_503 image

-- The user's rows of the Attack Machine's project with a status among `among`.
abbrev pub machine_row : (EnvStatus → Bool) → ℕ → ℕ → Environment → Bool
machine_row among user_id image_id e =
    e.user_id == user_id && (e.image_id == image_id && among e.status)

-- The user's machine, for the handlers that answer 404 where there is none.
abbrev pub the_machine : (EnvStatus → Bool) → User → Image → Db → Reply Environment
the_machine among u image db = do
  env ← one_or_none (where_is (machine_row among u.id image.id) db.environments)
  or_404 env

-- `_reserve`: the check for a machine that is there, then the limits and the row of `Envs`.
unfoldable pub reserve_machine :
    Settings → ℕ → User → ℕ → ℕ → Bool → Text → Db → Reply (Environment × Db)
unfolding reserve_row
reserve_machine cfg now u image_id timeout unlimited ip db = do
  existing ← one_or_none (where_is (machine_row is_occupying u.id image_id) db.environments)
  reject (is_some existing) 409
  reserve_row cfg now u image_id timeout unlimited ip db

-- The first transaction of `start_attack_machine`. `built` is `attack_rootfs_build_status == "ready"`.
unfoldable pub reserve_attack :
    Settings → Bool → List Text → ℕ → User → Db → Reply (Environment × Db)
unfolding get_attack_image allocate_ip reserve_machine
reserve_attack cfg built neighbours now u db = do
  require_username_set u
  image ← get_attack_image db
  reject (not built) 503
  let timeout = timeout_of cfg.attack_machine_timeout_minutes image
  r ←
      allocate_ip cfg neighbours db
        (reserve_machine cfg now u image.id (placeholder_minutes cfg timeout) (timeout == 0))
  or_503 r

-- `extend_attack_machine`
unfoldable pub extend_attack : Settings → ℕ → User → Db → Reply (ℕ × Db)
unfolding get_attack_image
extend_attack cfg now u db = do
  require_username_set u
  image ← get_attack_image db
  env ← the_machine is_stoppable u image db
  pool ← or_500 (ip_pool cfg)
  reject (not (is_admin u.role) && leb (length pool) env.extended_count) 429
  reject env.is_unlimited 400
  let more = truthy_or image.timeout_minutes cfg.attack_machine_timeout_minutes
  ok (more, update_env env.id (extended (now + minutes more)) db)

-- The checks of `stop_attack_machine`.
unfoldable pub stop_attack_allowed : User → Db → Reply Environment
unfolding get_attack_image
stop_attack_allowed u db = do
  require_username_set u
  image ← get_attack_image db
  env ← the_machine is_stoppable u image db
  reject (is_starting env.status) 409
  ok env

unfoldable pub stop_attack_if : (Text → Bool) → World → Reply Environment → Reply (Unit {0}) × World
stop_attack_if raises w (http code) = (http code, w)
stop_attack_if raises w (ok env) = stop_claimed raises env.id w (claim_env_for_stop env.id w.db)

-- `stop_attack_machine`
unfoldable pub stop_attack : (Text → Bool) → User → World → Reply (Unit {0}) × World
unfolding stop_attack_allowed stop_attack_if
stop_attack raises u w = stop_attack_if raises w (stop_attack_allowed u w.db)

abbrev address_or_404 : Environment → Reply Text
address_or_404 e = or_404 (if truthy e.ip_address then e.ip_address else none)

-- `connect_attack_machine`, up to the request to Guacamole: the address that the console is opened to.
unfoldable pub connect_attack : User → Db → Reply Text
unfolding get_attack_image
connect_attack u db = do
  require_username_set u
  image ← get_attack_image db
  env ← the_machine is_running u image db
  address_or_404 env
