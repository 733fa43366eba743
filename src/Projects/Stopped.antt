-- ===== src/Projects/Stopped.antt =====
-- The loop of Projects over the environments of a project, as an update of the rows.
use hack_bento.Base.{
  ℕ, ◌≡◌, refl, sym, ap, subst, ◌∙◌, Bool, true, false, ◌&&◌, ◌||◌, List, [], ◌∷◌, none, some, Text,
  if◌then◌else◌, ◌==◌, All, find_first, map, arith, Bool-cases, Option-cases, inl, inr, ok,
}
use hack_bento.Model.{User, Image, Environment, EnvStatus, Db, is_stoppable}
use hack_bento.Watchdog.{
  World, set_row, update_env, set_status, vm_of, claim_env_for_stop, destroy_env, ids_where,
}
use hack_bento.Watchdog.Rows.{
  UniqueIds, HasNo, HasNo-of_fresh, map-set_row-HasNo, find_first-HasNo, claimable, fails,
}
use hack_bento.Watchdog.Round.{mem_id, map-UniqueIds, ids_where-chosen}
use hack_bento.Projects.{
  stopped_quietly, stop_quietly, stop_each, runs_project, stop_project, hide, may_delete,
  delete_image,
}

-- A row that is chosen and can be stopped ends as stopped, or stays in `stopping` if its VM raises.
abbrev pub end_row : (Text → Bool) → Environment → Environment
end_row raises e = set_status (if fails raises e then EnvStatus.stopping else EnvStatus.stopped) e

abbrev pub stop_row : (Text → Bool) → (ℕ → Bool) → Environment → Environment
stop_row raises chosen e = if chosen e.id && is_stoppable e.status then end_row raises e else e

map-stop_row-HasNo :
    (raises : Text → Bool) (id : ℕ) (rows : List Environment)
    → HasNo id rows
    → map (stop_row raises (λ k. k == id)) rows ≡ rows
map-stop_row-HasNo raises id [] h = refl
map-stop_row-HasNo raises id (e ∷ rows) h =
    rw h.0 (ap (λ l. e ∷ l) (map-stop_row-HasNo raises id rows h.1))

map-stop_row-none :
    (raises : Text → Bool) (id : ℕ) (rows : List Environment)
    → find_first (claimable id) rows ≡ none
    → map (stop_row raises (λ k. k == id)) rows ≡ rows
map-stop_row-none raises id [] h = refl
map-stop_row-none raises id (e ∷ rows) h = elim (Bool-cases (claimable id e)) [
  | inl c ↦ ground arith
  | inr c ↦ ground (arith, map-stop_row-none raises id rows)
]

abbrev marked_stopping : ℕ → List Environment → List Environment
marked_stopping id rows = map (set_row id (set_status EnvStatus.stopping)) rows

map-stop_row-fails :
    (raises : Text → Bool) (id : ℕ) (rows : List Environment) (env : Environment)
    → UniqueIds rows
    → find_first (claimable id) rows ≡ some env
    → fails raises env ≡ true
    → marked_stopping id rows ≡ map (stop_row raises (λ k. k == id)) rows
map-stop_row-fails raises id [] env u h bad = refl
map-stop_row-fails raises id (e ∷ rows) env u h bad = elim (Bool-cases (e.id == id)) [
  | inl same ↦
      let alone = HasNo-of_fresh e id rows same u.0 in
      let none_left = find_first-HasNo id rows alone in
      rw (map-set_row-HasNo id (set_status EnvStatus.stopping) rows alone)
        (rw (map-stop_row-HasNo raises id rows alone) (ground arith))
  | inr other ↦ ground (arith, map-stop_row-fails raises id rows env u.1)
]

map-stop_row-stops :
    (raises : Text → Bool) (id : ℕ) (rows : List Environment) (env : Environment)
    → UniqueIds rows
    → find_first (claimable id) rows ≡ some env
    → fails raises env ≡ false
    → map (set_row id (set_status EnvStatus.stopped)) (marked_stopping id rows)
      ≡ map (stop_row raises (λ k. k == id)) rows
map-stop_row-stops raises id [] env u h good = refl
map-stop_row-stops raises id (e ∷ rows) env u h good = elim (Bool-cases (e.id == id)) [
  | inl same ↦
      let alone = HasNo-of_fresh e id rows same u.0 in
      let none_left = find_first-HasNo id rows alone in
      rw (map-set_row-HasNo id (set_status EnvStatus.stopping) rows alone) (
        rw (map-set_row-HasNo id (set_status EnvStatus.stopped) rows alone)
          (rw (map-stop_row-HasNo raises id rows alone) (ground arith)))
  | inr other ↦ ground (arith, map-stop_row-stops raises id rows env u.1)
]

abbrev at_rows : Db → List Environment → Db
at_rows db rows = record db { environments = rows }

stop_quietly-found :
    (raises : Text → Bool) (id : ℕ) (w : World) (env : Environment)
    → UniqueIds w.db.environments
    → find_first (claimable id) w.db.environments ≡ some env
    → (stopped_quietly id
        (update_env id (set_status EnvStatus.stopping) w.db)
        (destroy_env raises (set_status EnvStatus.stopping env) w.vms)).db
      ≡ at_rows w.db (map (stop_row raises (λ k. k == id)) w.db.environments)
unfolding stopped_quietly destroy_env
stop_quietly-found raises id w env u found = elim (Option-cases (vm_of env)) [
  | inl bare ↦
      rw bare
        (ap (at_rows w.db) (map-stop_row-stops raises id w.db.environments env u found (rw bare)))
  | inr (vm, own) ↦ elim (Bool-cases (raises vm)) [
    | inl bad ↦ rw own (
        rw bad (
          ap (at_rows w.db)
            (map-stop_row-fails raises id w.db.environments env u found (rw own bad))))
    | inr good ↦ rw own (
        rw good (
          ap (at_rows w.db)
            (map-stop_row-stops raises id w.db.environments env u found (rw own good))))
  ]
]

pub stop_quietly-map :
    (raises : Text → Bool) (id : ℕ) (w : World)
    → UniqueIds w.db.environments
    → (stop_quietly raises id w).db
      ≡ at_rows w.db (map (stop_row raises (λ k. k == id)) w.db.environments)
unfolding stop_quietly claim_env_for_stop
stop_quietly-map raises id w u = elim (Option-cases (find_first (claimable id) w.db.environments)) [
  | inl nothing ↦
      rw nothing (ap (at_rows w.db) (sym (map-stop_row-none raises id w.db.environments nothing)))
  | inr (env, found) ↦ rw found (stop_quietly-found raises id w env u found)
]

map-stop_row-twice :
    (raises : Text → Bool) (first later both : ℕ → Bool) (rows : List Environment)
    → ((k : ℕ) → both k ≡ (first k || later k))
    → map (stop_row raises later) (map (stop_row raises first) rows)
      ≡ map (stop_row raises both) rows
map-stop_row-twice raises first later both [] h = refl
map-stop_row-twice raises first later both (e ∷ rows) h =
    ground (arith, h e.id, map-stop_row-twice raises first later both rows h)

map-stop_row-nobody :
    (raises : Text → Bool) (rows : List Environment) → map (stop_row raises (mem_id [])) rows ≡ rows
unfolding mem_id
map-stop_row-nobody raises [] = refl
map-stop_row-nobody raises (e ∷ rows) = ap (λ l. e ∷ l) (map-stop_row-nobody raises rows)

stop_each-map :
    (raises : Text → Bool) (ids : List ℕ) (w : World)
    → UniqueIds w.db.environments
    → (stop_each raises ids w).db
      ≡ at_rows w.db (map (stop_row raises (mem_id ids)) w.db.environments)
unfolding stop_each
stop_each-map raises [] w u = ap (at_rows w.db) (sym (map-stop_row-nobody raises w.db.environments))
stop_each-map raises (id ∷ ids) w u =
    let step = stop_quietly-map raises id w u in
    let unique : UniqueIds (stop_quietly raises id w).db.environments =
      subst (λ (d : Db). UniqueIds d.environments) (sym step)
        (map-UniqueIds (stop_row raises (λ k. k == id)) w.db.environments (λ e. ground arith) u) in
    stop_each-map raises ids (stop_quietly raises id w) unique
    ∙ ap (λ (d : Db). at_rows d (map (stop_row raises (mem_id ids)) d.environments)) step
    ∙ ap (at_rows w.db) (
        map-stop_row-twice raises (λ k. k == id) (mem_id ids) (mem_id (id ∷ ids)) w.db.environments
          (λ k. unfold mem_id in refl))

map-stop_chosen :
    (raises : Text → Bool) (p : Environment → Bool) (chosen : ℕ → Bool) (rows : List Environment)
    → ((e : Environment) → p e ≡ true → is_stoppable e.status ≡ true)
    → All (λ e. chosen e.id ≡ p e) rows
    → map (stop_row raises chosen) rows ≡ map (λ e. if p e then end_row raises e else e) rows
map-stop_chosen raises p chosen [] stoppable h = refl
map-stop_chosen raises p chosen (e ∷ rows) stoppable h =
    ground (arith, h.0, stoppable e, map-stop_chosen raises p chosen rows stoppable h.1)

-- A user who may delete a project and does so, in a table of environments with unique keys: the
-- project is no longer active; its environments that were starting or running are stopped, but
-- one for whose VM `stop_vm` raises stays `stopping`, and nothing else of the tables changes.
pub delete_image-ok :
    (raises : Text → Bool) (image_id : ℕ) (u : User) (w : World) (found : Image)
    → UniqueIds w.db.environments
    → may_delete image_id u w.db ≡ ok found
    → (delete_image raises image_id u w).1.db ≡ record w.db {
      images = map (hide image_id) w.db.images;
      environments =
          map (λ e. if runs_project image_id e then end_row raises e else e) w.db.environments;
    }
unfolding delete_image stop_project
delete_image-ok raises image_id u w found unique h = rw h (
    ap (λ (d : Db). record d { images = map (hide image_id) d.images })
      (stop_each-map raises (ids_where (runs_project image_id) w.db.environments) w unique
        ∙ ap (at_rows w.db) (
            map-stop_chosen raises (runs_project image_id) _ w.db.environments (λ e k. ground arith)
              (ids_where-chosen (runs_project image_id) w.db.environments unique))))
