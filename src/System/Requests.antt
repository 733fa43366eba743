-- ===== src/System/Requests.antt =====
-- The invariant of Occupancy for the handlers of Envs and Attack.
use hack_bento.Base.{
  ℕ, ◌≡◌, refl, ap, subst, Bool, true, not, List, some, Text, find_first, Reply, ok, http, ◌>>=◌,
  or_404, >>=-eq-ok, reject-eq-ok, ok-injective, one_or_none, where_is, is_some,
}
use hack_bento.Model.{User, Environment, Settings, Db, is_admin, is_occupying, is_stoppable}
use hack_bento.Watchdog.{World}
use hack_bento.Occupancy.{IsSound, Shrinks}
use hack_bento.Occupancy.Added.{reserve_row-IsSound}
use hack_bento.Envs.{reserve, reserve_row, or_503, conversion_ready}
use hack_bento.Envs.Reserve.{allocate_ip-ok}
use hack_bento.Envs.Manage.{extend_env, extended, stop_env, stop_if, stoppable_row, stop_allowed}
use hack_bento.Attack.{
  reserve_attack, extend_attack, stop_attack, get_attack_image, machine_row, reserve_machine,
  stop_attack_allowed, stop_attack_if, the_machine,
}
use hack_bento.Access.{find_image, can_see}
use hack_bento.Pool.{allocate_ip, ip_pool, or_500}
use hack_bento.System.Updates.{update_env-IsSound, stop_claimed-IsSound}

-- The reservation for a free address, whatever else the handler has checked.
allocated-IsSound :
    {free : ℕ → Bool} (cfg : Settings) (neighbours : List Text) (u : User) (db : Db)
    (flush_record : Text → Db → Reply (Environment × Db)) (env : Environment) (db' : Db)
    (now image_id timeout : ℕ) (unlimited : Bool)
    → (is_admin u.role ≡ true → free u.id ≡ true)
    → ((ip : Text)
        → flush_record ip db ≡ ok (env, db')
        → reserve_row cfg now u image_id timeout unlimited ip db ≡ ok (env, db'))
    → (allocate_ip cfg neighbours db flush_record >>= or_503) ≡ ok (env, db')
    → IsSound free cfg.max_envs_per_user db.environments
    → IsSound free cfg.max_envs_per_user db'.environments
allocated-IsSound cfg neighbours u db flush_record env db' now image_id timeout unlimited role inner
      h inv =
    let (pool, ip, _, found, h1) = allocate_ip-ok flush_record db cfg neighbours h in
    reserve_row-IsSound cfg neighbours pool now u image_id timeout unlimited ip db env db' role
      found (inner ip h1) inv

pub reserve-IsSound :
    {free : ℕ → Bool} (cfg : Settings) (neighbours : List Text) (now image_id : ℕ) (u : User)
    (db : Db) (env : Environment) (db' : Db)
    → (is_admin u.role ≡ true → free u.id ≡ true)
    → reserve cfg neighbours now image_id u db ≡ ok (env, db')
    → IsSound free cfg.max_envs_per_user db.environments
    → IsSound free cfg.max_envs_per_user db'.environments
unfolding reserve
reserve-IsSound cfg neighbours now image_id u db env db' role h inv =
    let (_, h1) = reject-eq-ok u.needs_username_setup 403 _ h in
    let (image, _, h2) = >>=-eq-ok (or_404 (find_image image_id db)) _ h1 in
    let (_, h3) = reject-eq-ok (not (can_see image (some u) db.collaborators)) 404 _ h2 in
    let (_, h4) = reject-eq-ok (not (conversion_ready image.rootfs_conversion_status)) 409 _ h3 in
    allocated-IsSound cfg neighbours u db _ env db' now image.id _ _ role (λ ip k. k) h4 inv

pub reserve_attack-IsSound :
    {free : ℕ → Bool} (cfg : Settings) (built : Bool) (neighbours : List Text) (now : ℕ) (u : User)
    (db : Db) (env : Environment) (db' : Db)
    → (is_admin u.role ≡ true → free u.id ≡ true)
    → reserve_attack cfg built neighbours now u db ≡ ok (env, db')
    → IsSound free cfg.max_envs_per_user db.environments
    → IsSound free cfg.max_envs_per_user db'.environments
unfolding reserve_attack reserve_machine
reserve_attack-IsSound cfg built neighbours now u db env db' role h inv =
    let (_, h1) = reject-eq-ok u.needs_username_setup 403 _ h in
    let (image, _, h2) = >>=-eq-ok (get_attack_image db) _ h1 in
    let (_, h3) = reject-eq-ok (not built) 503 _ h2 in
    allocated-IsSound cfg neighbours u db _ env db' now image.id _ _ role
      (λ ip k.
        let (existing, _, k1) =
          >>=-eq-ok
            (one_or_none (where_is (machine_row is_occupying u.id image.id) db.environments)) _ k in
        (reject-eq-ok (is_some existing) 409 _ k1).1)
      h3 inv

extended-Shrinks : (expires : ℕ) (e : Environment) → Shrinks (extended expires) e
extended-Shrinks expires e = record {
  same_id = refl;
  same_user = refl;
  same_ip = refl;
  occupying = λ o. o;
}

pub extend_env-IsSound :
    {free : ℕ → Bool} {limit : ℕ} (cfg : Settings) (now env_id : ℕ) (u : User) (db : Db) (more : ℕ)
    (db' : Db)
    → extend_env cfg now env_id u db ≡ ok (more, db')
    → IsSound free limit db.environments
    → IsSound free limit db'.environments
unfolding extend_env
extend_env-IsSound {free} {limit} cfg now env_id u db more db' h inv =
    let (_, h1) = reject-eq-ok u.needs_username_setup 403 _ h in
    let (env, _, h2) =
      >>=-eq-ok (or_404 (find_first (stoppable_row env_id) db.environments)) _ h1 in
    let (_, h3) = reject-eq-ok _ 403 _ h2 in
    let (pool, _, h4) = >>=-eq-ok (or_500 (ip_pool cfg)) _ h3 in
    let (_, h5) = reject-eq-ok _ 429 _ h4 in
    let (_, h6) = reject-eq-ok env.is_unlimited 400 _ h5 in
    subst (λ (d : Db). IsSound free limit d.environments) (ap (λ r. r.1) (ok-injective h6))
      (update_env-IsSound env.id (extended _) db (extended-Shrinks _) inv)

pub extend_attack-IsSound :
    {free : ℕ → Bool} {limit : ℕ} (cfg : Settings) (now : ℕ) (u : User) (db : Db) (more : ℕ)
    (db' : Db)
    → extend_attack cfg now u db ≡ ok (more, db')
    → IsSound free limit db.environments
    → IsSound free limit db'.environments
unfolding extend_attack
extend_attack-IsSound {free} {limit} cfg now u db more db' h inv =
    let (_, h1) = reject-eq-ok u.needs_username_setup 403 _ h in
    let (image, _, h2) = >>=-eq-ok (get_attack_image db) _ h1 in
    let (env, _, h3) = >>=-eq-ok (the_machine is_stoppable u image db) _ h2 in
    let (pool, _, h4) = >>=-eq-ok (or_500 (ip_pool cfg)) _ h3 in
    let (_, h5) = reject-eq-ok _ 429 _ h4 in
    let (_, h6) = reject-eq-ok env.is_unlimited 400 _ h5 in
    subst (λ (d : Db). IsSound free limit d.environments) (ap (λ r. r.1) (ok-injective h6))
      (update_env-IsSound env.id (extended _) db (extended-Shrinks _) inv)

pub stop_env-IsSound :
    {free : ℕ → Bool} {limit : ℕ} (raises : Text → Bool) (env_id : ℕ) (u : User) (w : World)
    → IsSound free limit w.db.environments
    → IsSound free limit (stop_env raises env_id u w).1.db.environments
unfolding stop_env
stop_env-IsSound {free} {limit} raises env_id u w inv = by_answer (stop_allowed env_id u w.db)
  where
    by_answer :
        (r : Reply Environment) → IsSound free limit (stop_if raises env_id w r).1.db.environments
    by_answer (ok env) = stop_claimed-IsSound raises env_id w inv
    by_answer (http code) = inv

pub stop_attack-IsSound :
    {free : ℕ → Bool} {limit : ℕ} (raises : Text → Bool) (u : User) (w : World)
    → IsSound free limit w.db.environments
    → IsSound free limit (stop_attack raises u w).1.db.environments
unfolding stop_attack
stop_attack-IsSound {free} {limit} raises u w inv = by_answer (stop_attack_allowed u w.db)
  where
    by_answer :
        (r : Reply Environment) → IsSound free limit (stop_attack_if raises w r).1.db.environments
    by_answer (ok env) = stop_claimed-IsSound raises env.id w inv
    by_answer (http code) = inv
