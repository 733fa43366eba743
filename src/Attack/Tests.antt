-- ===== src/Attack/Tests.antt =====
-- Starting, extending and stopping the Attack Machine on the sample tables.
use hack_bento.Base.{◌≡◌, refl, true, false, [], ◌∷◌, split_on, ok, http, count_where, ◌+◌}
use hack_bento.Model.{Image, Environment, is_occupying, minutes}
use hack_bento.Numeral.{str, int_of}
use hack_bento.Address.{ip_str, ip_int}
use hack_bento.Pool.{range_from}
use hack_bento.Envs.{add_env}
use hack_bento.Attack.{machine_row, get_attack_image, reserve_attack, extend_attack, connect_attack}
use hack_bento.Attack.Laws.{reserve_attack-alone}
use hack_bento.Samples.{cfg, alice, root, empty_db, env_a, with_envs}

abbrev own : Environment
own = record env_a { image_id = 7; expires_at = 1000 + minutes 30 }

started : reserve_attack cfg true [] 1000 alice empty_db ≡ ok (own, with_envs (own ∷ []))
unfolding reserve_attack ip_int split_on int_of range_from ip_str str
started = refl

reserve_attack-alone_example :
    (image : Image) × (get_attack_image empty_db ≡ ok image)
    × (true ≡ true)
    × (machine_row is_occupying 1 image.id own ≡ true)
    × (with_envs (own ∷ []) ≡ add_env own empty_db)
    × (count_where (machine_row is_occupying 1 image.id) (own ∷ []) ≡ 1)
reserve_attack-alone_example =
    reserve_attack-alone cfg true [] 1000 alice empty_db own (with_envs (own ∷ [])) started

started_twice : reserve_attack cfg true [] 1000 alice (with_envs (own ∷ [])) ≡ http 409
unfolding reserve_attack ip_int split_on int_of range_from ip_str str
started_twice = refl

not_built : reserve_attack cfg false [] 1000 alice empty_db ≡ http 503
unfolding reserve_attack
not_built = refl

-- An administrator may start the project of the Attack Machine as any other; with two rows the
-- handlers for it fail.
two_machines :
    extend_attack cfg 5000 root
      (with_envs (record own { user_id = 3 } ∷ record own { id = 2; user_id = 3 } ∷ []))
    ≡ http 500
unfolding extend_attack
two_machines = refl

not_running : connect_attack alice (with_envs (own ∷ [])) ≡ http 404
unfolding connect_attack
not_running = refl
