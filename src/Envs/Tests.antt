-- ===== src/Envs/Tests.antt =====
-- Starting, extending and stopping environments on the sample tables.
use hack_bento.Base.{
  ◌≡◌, refl, ◌≤◌, true, false, List, [], ◌∷◌, some, Text, codes, contains, split_on, ok, http, ◌==◌,
  ◌+◌,
}
use hack_bento.Model.{Environment, EnvStatus, Image, minutes}
use hack_bento.Samples.{lab, cfg, alice, bob, root, empty_db, env_a, env_b, with_envs, idle}
use hack_bento.Access.{find_image, can_see, is_collaborator}
use hack_bento.Numeral.{str, int_of}
use hack_bento.Address.{ip_str, ip_int}
use hack_bento.Pool.{ip_pool, range_from}
use hack_bento.Pool.Laws.{active_ips, Distinct}
use hack_bento.Watchdog.{World, set_status}
use hack_bento.Envs.{
  reserve, new_env, add_env, conversion_ready, user_count, total_count, confirm, record_vm,
  timeout_of, placeholder_minutes,
}
use hack_bento.Envs.Manage.{extend_env, extended, stop_env}
use hack_bento.Envs.Limits.{started, reserve-ok, reserve-limits, confirm-reserve}
use hack_bento.Envs.Confirm.{row_of, confirm-stale}

reserve_first : reserve cfg [] 1000 5 alice empty_db ≡ ok (env_a, with_envs (env_a ∷ []))
unfolding reserve ip_int split_on int_of range_from ip_str str
reserve_first = refl

reserve-ok_example :
    (image : Image) × (pool : List Text) × (ip : Text) × (find_image 5 empty_db ≡ some image)
    × (can_see image (some alice) [] ≡ true)
    × (conversion_ready image.rootfs_conversion_status ≡ true)
    × (ip_pool cfg ≡ some pool)
    × (contains pool ip ≡ true)
    × (contains (active_ips []) ip ≡ false)
    × (contains [] ip ≡ false)
    × (let timeout = timeout_of 60 image in
        env_a
        ≡ new_env 1000 alice image.id (placeholder_minutes cfg timeout) (timeout == 0) ip empty_db)
    × (with_envs (env_a ∷ []) ≡ add_env env_a empty_db)
reserve-ok_example =
    reserve-ok cfg [] 1000 5 alice empty_db env_a (with_envs (env_a ∷ [])) reserve_first

reserve-limits_example :
    (user_count 1 (with_envs (env_a ∷ [])) ≤ 2) × (total_count (with_envs (env_a ∷ [])) ≤ 3)
reserve-limits_example =
    reserve-limits cfg [] 1000 5 alice empty_db env_a (with_envs (env_a ∷ [])) refl reserve_first

-- At the limit, another project is refused; an administrator is not.
reserve_limit : reserve cfg [] 1000 6 alice (with_envs (env_a ∷ env_b ∷ [])) ≡ http 429
unfolding reserve ip_int split_on int_of range_from ip_str str
reserve_limit = refl

-- Someone else's private project is not found.
reserve_private : reserve cfg [] 1000 5 bob empty_db ≡ http 404
unfolding reserve is_collaborator
reserve_private = refl

-- No address is left.
reserve_full :
    reserve cfg (codes "10.0.0.255" ∷ codes "10.0.1.0" ∷ []) 1000 5 root (with_envs (env_a ∷ []))
    ≡ http 503
unfolding reserve ip_int split_on int_of range_from ip_str str
reserve_full = refl

abbrev a_running : Environment
a_running = started (9000 + minutes 30) (codes "vm-1") env_a

confirm-reserve_example :
    confirm false
      (λ _. false)
      9000
      (placeholder_minutes cfg (timeout_of 60 lab))
      env_a
      (codes "vm-1")
      (record {
        db = record_vm env_a (codes "vm-1") (with_envs (env_a ∷ []));
        vms = codes "vm-1" ∷ [];
      })
    ≡ (ok a_running, record { db = add_env a_running empty_db; vms = codes "vm-1" ∷ [] })
unfolding find_image
confirm-reserve_example =
    confirm-reserve (λ _. false) cfg [] 1000 9000 5 lab alice empty_db env_a
      (with_envs (env_a ∷ [])) (codes "vm-1") (codes "vm-1" ∷ []) refl reserve_first

-- The environment was stopped, and its address was given to the next one.
abbrev reused : World
reused = record idle {
  db = with_envs (
      set_status EnvStatus.stopped env_a
      ∷ record env_b { ip_address = some (codes "10.0.0.254") }
      ∷ []);
}

abbrev revived : Environment
revived = record env_a { status = EnvStatus.running; expires_at = 9000 + minutes 30 }

confirm-stale_example :
    (row_of env_a (confirm false (λ _. false) 9000 30 env_a (codes "vm-1") reused).1 ≡ some revived)
    × ((confirm false (λ _. false) 9000 30 env_a (codes "vm-1") reused).0 ≡ ok revived)
    × (¬ Distinct (
        active_ips
          (confirm false (λ _. false) 9000 30 env_a (codes "vm-1") reused).1.db.environments))
confirm-stale_example =
    confirm-stale (λ _. false) 9000 30 env_a (set_status EnvStatus.stopped env_a) (codes "vm-1")
      (codes "10.0.0.254") reused ((refl, tt), (tt, tt)) refl refl refl (refl, refl) refl

extend_twice :
    extend_env cfg 5000 1 alice (with_envs (env_a ∷ env_b ∷ []))
    ≡ ok (30, with_envs (extended (5000 + minutes 30) env_a ∷ env_b ∷ []))
unfolding extend_env ip_pool ip_int split_on int_of range_from ip_str str
extend_twice = refl

-- A starting environment cannot be stopped by its user, and nobody stops someone else's.
stop_starting : (stop_env (λ _. false) 1 alice reused).0 ≡ http 404
unfolding stop_env
stop_starting = refl

stop_early : (stop_env (λ _. false) 2 alice reused).0 ≡ http 409
unfolding stop_env
stop_early = refl

stop_foreign : (stop_env (λ _. false) 2 bob reused).0 ≡ http 403
unfolding stop_env
stop_foreign = refl
