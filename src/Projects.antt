-- ===== src/Projects.antt =====
-- orchestrator/routers/images.py: `delete_image`, and the loop with which it and `update_image` stop
-- the environments of a project.
pub mod Stopped
pub mod Tests
use hack_bento.Base.{
  ℕ, Bool, true, false, not, ◌&&◌, List, [], ◌∷◌, Option, none, some, Text, if◌then◌else◌, ◌==◌,
  map, Reply, ok, http, ◌>>=◌, ◌>>◌, reject, or_404,
}
use hack_bento.Model.{User, Image, Environment, EnvStatus, Db, is_stoppable}
use hack_bento.Access.{require_username_set, find_image, owner_or_admin}
use hack_bento.Watchdog.{World, update_env, set_status, claim_env_for_stop, destroy_env, ids_where}

stopped_quietly : ℕ → Db → Bool × List Text → World
stopped_quietly env_id claimed (done, vms) = record {
  db = if done then update_env env_id (set_status EnvStatus.stopped) claimed else claimed;
  vms = vms;
}

claimed_quietly : (Text → Bool) → ℕ → World → Option (Environment × Db) → World
unfolding stopped_quietly
claimed_quietly raises env_id w none = w
claimed_quietly raises env_id w (some (env, db)) =
    stopped_quietly env_id db (destroy_env raises env w.vms)

-- The body of the loop. An exception of `stop_vm` is dropped, and the claim stays.
unfoldable pub stop_quietly : (Text → Bool) → ℕ → World → World
unfolding claimed_quietly
stop_quietly raises env_id w = claimed_quietly raises env_id w (claim_env_for_stop env_id w.db)

unfoldable pub stop_each : (Text → Bool) → List ℕ → World → World
stop_each raises [] w = w
stop_each raises (env_id ∷ ids) w = stop_each raises ids (stop_quietly raises env_id w)

-- The environments that the loop runs over.
abbrev pub runs_project : ℕ → Environment → Bool
runs_project image_id e = e.image_id == image_id && is_stoppable e.status

unfoldable pub stop_project : (Text → Bool) → ℕ → World → World
unfolding stop_each
stop_project raises image_id w =
    stop_each raises (ids_where (runs_project image_id) w.db.environments) w

abbrev pub hide : ℕ → Image → Image
hide image_id i = if i.id == image_id then record i { is_active = false } else i

-- The rights that `delete_image` asks for.
unfoldable pub may_delete : ℕ → User → Db → Reply Image
may_delete image_id u db = do
  require_username_set u
  found ← or_404 (find_image image_id db)
  reject (not (owner_or_admin u found)) 403
  ok found

deleted : (Text → Bool) → ℕ → World → Reply Image → Reply (Unit {0}) × World
unfolding stop_project
deleted raises image_id w (http code) = (http code, w)
deleted raises image_id w (ok found) =
    let stopped = stop_project raises image_id w in
    (
      ok tt,
      record stopped { db = record stopped.db { images = map (hide image_id) stopped.db.images } },
    )

-- `delete_image`
unfoldable pub delete_image : (Text → Bool) → ℕ → User → World → Reply (Unit {0}) × World
unfolding deleted may_delete
delete_image raises image_id u w = deleted raises image_id w (may_delete image_id u w.db)
