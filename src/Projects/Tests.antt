-- ===== src/Projects/Tests.antt =====
-- Deleting the sample project.
use hack_bento.Base.{◌≡◌, refl, [], ◌∷◌, some, text_eq, codes, http, map, if◌then◌else◌}
use hack_bento.Model.{Environment, EnvStatus}
use hack_bento.Access.{find_image}
use hack_bento.Watchdog.{World}
use hack_bento.Projects.{runs_project, hide, may_delete, delete_image}
use hack_bento.Projects.Stopped.{end_row, delete_image-ok}
use hack_bento.Samples.{alice, bob, lab, env_a, env_b, empty_db, with_envs}

abbrev runs_v1 : Environment
runs_v1 = record env_b { status = EnvStatus.running; vm_id = some (codes "v1") }

abbrev before : World
before = record { db = with_envs (env_a ∷ runs_v1 ∷ []); vms = codes "v1" ∷ [] }

delete_image-ok_example :
    (delete_image (text_eq (codes "v1")) 5 alice before).1.db ≡ record empty_db {
      images = map (hide 5) empty_db.images;
      environments =
          map
            (λ e. if runs_project 5 e then end_row (text_eq (codes "v1")) e else e)
            (env_a ∷ runs_v1 ∷ []);
    }
unfolding may_delete find_image
delete_image-ok_example =
    delete_image-ok (text_eq (codes "v1")) 5 alice before lab ((refl, tt), (tt, tt)) refl

not_owner : (delete_image (text_eq (codes "v1")) 5 bob before).0 ≡ http 403
unfolding delete_image find_image
not_owner = refl
