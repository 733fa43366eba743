-- ===== src/Envs/Limits.antt =====
-- `reserve` of Envs by its successful answers, and `confirm` after it.
use hack_bento.Base.{
  ℕ, ◌+◌, ◌≤◌, ◌<◌, ◌≡◌, refl, sym, ap, subst, ◌∙◌, true, false, not, List, [], ◌∷◌, ◌++◌, some,
  Text, contains, All, find_first, map, arith, ◌==◌, ==_refl, ok, or_404, >>=-eq-ok, reject-eq-ok,
  or_404-eq-ok, Bool,
}
use hack_bento.Model.{User, Image, Environment, Settings, Db, is_admin, minutes, is_starting}
use hack_bento.Access.{can_see, find_image}
use hack_bento.Pool.{ip_pool}
use hack_bento.Pool.Laws.{active_ips, first_free-is_free}
use hack_bento.Watchdog.{World, set_row}
use hack_bento.Occupancy.Added.{next_id-above, count-append}
use hack_bento.Envs.{
  conversion_ready, user_count, total_count, new_env, add_env, timeout_of, placeholder_minutes,
  reserve, set_vm, set_running, record_vm, confirm,
}
use hack_bento.Envs.Reserve.{allocate_ip-ok, reserve_row-ok}

user_count-add_env :
    (user_id : ℕ) (e : Environment) (db : Db)
    → user_count user_id (add_env e db) ≤ user_count user_id db + 1
unfolding user_count
user_count-add_env user_id e db = rw count-append (ground arith)

total_count-add_env : (e : Environment) (db : Db) → total_count (add_env e db) ≤ total_count db + 1
unfolding total_count
total_count-add_env e db = rw count-append (ground arith)

-- A successful reservation: the user can see the project and its rootfs is ready; the new row is
-- `starting`, for this user and project, with no VM, and is the only change of the tables; its
-- address is in the pool, is occupied by no other row and is not in use on the bridge.
pub reserve-ok :
    (cfg : Settings) (neighbours : List Text) (now image_id : ℕ) (u : User) (db : Db)
    (env : Environment) (db' : Db)
    → reserve cfg neighbours now image_id u db ≡ ok (env, db')
    → (image : Image) × (pool : List Text) × (ip : Text) × (find_image image_id db ≡ some image)
      × (can_see image (some u) db.collaborators ≡ true)
      × (conversion_ready image.rootfs_conversion_status ≡ true)
      × (ip_pool cfg ≡ some pool)
      × (contains pool ip ≡ true)
      × (contains (active_ips db.environments) ip ≡ false)
      × (contains neighbours ip ≡ false)
      × (let timeout = timeout_of cfg.default_timeout_minutes image in
          env ≡ new_env now u image.id (placeholder_minutes cfg timeout) (timeout == 0) ip db)
      × (db' ≡ add_env env db)
unfolding reserve
reserve-ok cfg neighbours now image_id u db env db' h =
    let (_, h1) = reject-eq-ok u.needs_username_setup 403 _ h in
    let (image, known, h2) = >>=-eq-ok (or_404 (find_image image_id db)) _ h1 in
    let (visible, h3) = reject-eq-ok (not (can_see image (some u) db.collaborators)) 404 _ h2 in
    let (ready, h4) =
      reject-eq-ok (not (conversion_ready image.rootfs_conversion_status)) 409 _ h3 in
    let timeout = timeout_of cfg.default_timeout_minutes image in
    let (pool, ip, pooled, found, h5) = allocate_ip-ok _ db cfg neighbours h4 in
    let (room, row, table) =
      reserve_row-ok cfg now u image.id (placeholder_minutes cfg timeout) (timeout == 0) ip db env
        db' h5 in
    let (inside, free, quiet) = first_free-is_free pool db.environments neighbours ip found in
    (
      image,
      pool,
      ip,
      or_404-eq-ok _ known,
      ground arith,
      ground arith,
      pooled,
      inside,
      free,
      quiet,
      row,
      table ∙ ap (λ e. add_env e db) (sym row),
    )

-- After a successful reservation by a user who is not an administrator, the environments that are
-- starting, running or stopping, the new one included, are within both limits: the user's, and the
-- total.
pub reserve-limits :
    (cfg : Settings) (neighbours : List Text) (now image_id : ℕ) (u : User) (db : Db)
    (env : Environment) (db' : Db)
    → is_admin u.role ≡ false
    → reserve cfg neighbours now image_id u db ≡ ok (env, db')
    → (user_count u.id db' ≤ cfg.max_envs_per_user) × (total_count db' ≤ cfg.max_envs_total)
unfolding reserve
reserve-limits cfg neighbours now image_id u db env db' plain h =
    let (_, h1) = reject-eq-ok u.needs_username_setup 403 _ h in
    let (image, known, h2) = >>=-eq-ok (or_404 (find_image image_id db)) _ h1 in
    let (visible, h3) = reject-eq-ok (not (can_see image (some u) db.collaborators)) 404 _ h2 in
    let (ready, h4) =
      reject-eq-ok (not (conversion_ready image.rootfs_conversion_status)) 409 _ h3 in
    let timeout = timeout_of cfg.default_timeout_minutes image in
    let (pool, ip, pooled, found, h5) = allocate_ip-ok _ db cfg neighbours h4 in
    let (room, row, table) =
      reserve_row-ok cfg now u image.id (placeholder_minutes cfg timeout) (timeout == 0) ip db env
        db' h5 in
    subst (λ d. (user_count u.id d ≤ cfg.max_envs_per_user) × (total_count d ≤ cfg.max_envs_total))
      (sym table)
      (
        omega (arith, user_count-add_env u.id _ db, (room plain).0),
        omega (arith, total_count-add_env _ db, (room plain).1),
      )

-- The row of the new key is the one that was added.
find_first-added :
    (rows : List Environment) (env : Environment)
    → All (λ e. e.id < env.id) rows
    → find_first (λ e. e.id == env.id) (rows ++ (env ∷ [])) ≡ some env
find_first-added [] env h = rw ==_refl
find_first-added (e ∷ rows) env h = ground (arith, h.0, find_first-added rows env h.1)

-- An update of the row that was added.
map-set_row-added :
    (f : Environment → Environment) (rows : List Environment) (env : Environment)
    → All (λ e. e.id < env.id) rows
    → map (set_row env.id f) (rows ++ (env ∷ [])) ≡ rows ++ (f env ∷ [])
map-set_row-added f [] env h = rw (==_refl env.id) refl
map-set_row-added f (e ∷ rows) env h =
    let other : (e.id == env.id) ≡ false = ground (arith, h.0) in
    rw other (ap (λ (l : List Environment). e ∷ l) (map-set_row-added f rows env h.1))

-- The environment as it runs.
abbrev pub started : ℕ → Text → Environment → Environment
started expires vm env = set_running expires (set_vm vm env)

-- A start of a project that nothing interferes with: after the reservation, the boot of `vm` and
-- the record of its identifier, the confirmation answers with the environment of the reservation,
-- running under that VM, for the minutes that the project allows from then on, or the default ones
-- as a placeholder where it is not limited. That row is all that the start has added to the tables.
pub confirm-reserve :
    (raises : Text → Bool) (cfg : Settings) (neighbours : List Text) (now later image_id : ℕ)
    (image : Image) (u : User) (db : Db) (env : Environment) (db' : Db) (vm : Text)
    (vms : List Text)
    → find_image image_id db ≡ some image
    → reserve cfg neighbours now image_id u db ≡ ok (env, db')
    → let timeout = timeout_of cfg.default_timeout_minutes image in
      let minutes_left = placeholder_minutes cfg timeout in
      let booted : World = record { db = record_vm env vm db'; vms = vms } in
      confirm false raises later minutes_left env vm booted ≡ (
        ok (started (later + minutes minutes_left) vm env),
        record { db = add_env (started (later + minutes minutes_left) vm env) db; vms = vms },
      )
unfolding confirm record_vm
confirm-reserve raises cfg neighbours now later image_id image u db env db' vm vms known h =
    let left = placeholder_minutes cfg (timeout_of cfg.default_timeout_minutes image) in
    let r = reserve-ok cfg neighbours now image_id u db env db' h in
    let above : All (λ e. e.id < env.id) db.environments =
      subst (λ (n : Environment). All (λ e. e.id < n.id) db.environments) (sym r.10)
        (unfold new_env in next_id-above db.environments) in
    let starts : is_starting env.status ≡ true =
      ap (λ e. is_starting e.status) r.10 ∙ (unfold new_env in refl) in
    subst
      (λ (d : Db).
        confirm false raises later left env vm (record { db = record_vm env vm d; vms = vms }) ≡ (
          ok (started (later + minutes left) vm env),
          record { db = add_env (started (later + minutes left) vm env) db; vms = vms },
        ))
      (sym r.11)
      (rw (map-set_row-added (set_vm vm) db.environments env above) (
        rw (find_first-added db.environments (set_vm vm env) above) (
          rw starts (
            rw
              (map-set_row-added (set_running (later + minutes left)) db.environments
                (set_vm vm env) above)
              refl))))
