-- ===== src/Attack/Laws.antt =====
-- `reserve_attack` of Attack and the user's rows.
use hack_bento.Base.{
  ℕ, ◌≡◌, ◌++◌, refl, sym, ap, subst, ◌∙◌, Bool, true, false, not, List, [], ◌∷◌, Option, Text,
  where_is, is_some, count_where, arith, ok, one_or_none, >>=-eq-ok, reject-eq-ok, ok-injective,
  ==_refl, ◌==◌,
}
use hack_bento.Model.{User, Image, Environment, Settings, Db, is_occupying}
use hack_bento.Occupancy.Added.{count-append}
use hack_bento.Envs.{timeout_of, placeholder_minutes, add_env, new_env}
use hack_bento.Envs.Reserve.{allocate_ip-ok, reserve_row-ok}
use hack_bento.Attack.{machine_row, get_attack_image, reserve_machine, reserve_attack}

count-where_is :
    (p : Environment → Bool) (rows : List Environment)
    → where_is p rows ≡ []
    → count_where p rows ≡ 0
count-where_is p [] h = refl
count-where_is p (e ∷ rows) h = ground (arith, count-where_is p rows)

no_row :
    (rows : List Environment) (existing : Option Environment)
    → one_or_none rows ≡ ok existing
    → is_some existing ≡ false
    → rows ≡ []
no_row [] existing h k = refl
no_row (e ∷ []) existing h k =
    subst (λ o. is_some o ≡ false → (e ∷ []) ≡ []) (ok-injective h) (λ c. cc) k
no_row (e ∷ f ∷ rows) existing h k = cc

count-added :
    (p : Environment → Bool) (rows : List Environment) (e : Environment)
    → where_is p rows ≡ []
    → p e ≡ true
    → count_where p (rows ++ (e ∷ [])) ≡ 1
count-added p rows e none_yet own =
    count-append p rows e ∙ ground (arith, own, count-where_is p rows none_yet)

new_env-mine :
    (now : ℕ) (u : User) (image_id timeout : ℕ) (unlimited : Bool) (ip : Text) (db : Db)
    → machine_row is_occupying u.id image_id (new_env now u image_id timeout unlimited ip db) ≡ true
unfolding new_env
new_env-mine now u image_id timeout unlimited ip db = ground (arith, ==_refl u.id, ==_refl image_id)

-- A successful start of the Attack Machine leaves the user with exactly one environment of its
-- project that is starting, running or stopping: the new row, and it is the only change of the tables.
pub reserve_attack-alone :
    (cfg : Settings) (built : Bool) (neighbours : List Text) (now : ℕ) (u : User) (db : Db)
    (env : Environment) (db' : Db)
    → reserve_attack cfg built neighbours now u db ≡ ok (env, db')
    → (image : Image) × (get_attack_image db ≡ ok image)
      × (built ≡ true)
      × (machine_row is_occupying u.id image.id env ≡ true)
      × (db' ≡ add_env env db)
      × (count_where (machine_row is_occupying u.id image.id) db'.environments ≡ 1)
unfolding reserve_attack reserve_machine
reserve_attack-alone cfg built neighbours now u db env db' h =
    let (_, h1) = reject-eq-ok u.needs_username_setup 403 _ h in
    let (image, found, h2) = >>=-eq-ok (get_attack_image db) _ h1 in
    let (ready, h3) = reject-eq-ok (not built) 503 _ h2 in
    let (pool, ip, _, _, h4) = allocate_ip-ok _ db cfg neighbours h3 in
    let mine = machine_row is_occupying u.id image.id in
    let (existing, looked, h5) = >>=-eq-ok (one_or_none (where_is mine db.environments)) _ h4 in
    let (absent, h6) = reject-eq-ok (is_some existing) 409 _ h5 in
    let timeout = timeout_of cfg.attack_machine_timeout_minutes image in
    let (_, row, table) =
      reserve_row-ok cfg now u image.id (placeholder_minutes cfg timeout) (timeout == 0) ip db env
        db' h6 in
    let added : db' ≡ add_env env db = table ∙ ap (λ e. add_env e db) (sym row) in
    let own : mine env ≡ true =
      ap mine row
      ∙ new_env-mine now u image.id (placeholder_minutes cfg timeout) (timeout == 0) ip db in
    (
      image,
      found,
      ground arith,
      own,
      added,
      ap (λ (d : Db). count_where mine d.environments) added
          ∙ count-added mine db.environments env (no_row _ existing looked absent) own,
    )
