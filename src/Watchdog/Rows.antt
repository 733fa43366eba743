-- ===== src/Watchdog/Rows.antt =====
-- A claim with its destruction, and a loop of them, as an update of the rows.
use hack_bento.Base.{
  ℕ, ◌≡◌, refl, sym, ap, Bool, true, false, ◌&&◌, not, List, [], ◌∷◌, Option, none, some, Text,
  if◌then◌else◌, ◌==◌, All, find_first, map, arith, Bool-cases, inl, inr, Option-cases,
}
use hack_bento.Model.{Environment, EnvStatus, Db, is_stoppable}
use hack_bento.Watchdog.{World, set_row, update_env, set_status, vm_of, destroy_env, settle, reap}

-- The primary keys differ.
abbrev pub UniqueIds : List Environment → Type 0
UniqueIds [] = Unit
UniqueIds (e ∷ rows) = All (λ f. (e.id == f.id) ≡ false) rows × UniqueIds rows

-- `stop_vm` raises for the environment's VM.
abbrev pub fails_on : (Text → Bool) → Option Text → Bool
fails_on raises none = false
fails_on raises (some vm) = raises vm

abbrev pub fails : (Text → Bool) → Environment → Bool
fails raises e = fails_on raises (vm_of e)

-- A row whose key is chosen ends as stopped, if it can be stopped and its VM lets it.
abbrev pub reap_row : (Text → Bool) → (ℕ → Bool) → Environment → Environment
reap_row raises chosen e =
    if chosen e.id && (is_stoppable e.status && not (fails raises e))
    then set_status EnvStatus.stopped e
    else e

abbrev pub HasNo : ℕ → List Environment → Type 0
HasNo id rows = All (λ f. (f.id == id) ≡ false) rows

pub HasNo-of_fresh :
    (e : Environment) (id : ℕ) (rows : List Environment)
    → (e.id == id) ≡ true
    → All (λ f. (e.id == f.id) ≡ false) rows
    → HasNo id rows
HasNo-of_fresh e id [] same h = tt
HasNo-of_fresh e id (f ∷ rows) same h = (ground arith, HasNo-of_fresh e id rows same h.1)

pub map-set_row-HasNo :
    (id : ℕ) (f : Environment → Environment) (rows : List Environment)
    → HasNo id rows
    → map (set_row id f) rows ≡ rows
map-set_row-HasNo id f [] h = refl
map-set_row-HasNo id f (e ∷ rows) h = rw h.0 (ap (λ l. e ∷ l) (map-set_row-HasNo id f rows h.1))

map-reap_row-HasNo :
    (raises : Text → Bool) (id : ℕ) (rows : List Environment)
    → HasNo id rows
    → map (reap_row raises (λ k. k == id)) rows ≡ rows
map-reap_row-HasNo raises id [] h = refl
map-reap_row-HasNo raises id (e ∷ rows) h =
    rw h.0 (ap (λ l. e ∷ l) (map-reap_row-HasNo raises id rows h.1))

abbrev pub claimable : ℕ → Environment → Bool
claimable id e = e.id == id && is_stoppable e.status

-- Without a row to claim nothing is reaped.
map-reap_row-none :
    (raises : Text → Bool) (id : ℕ) (rows : List Environment)
    → find_first (claimable id) rows ≡ none
    → map (reap_row raises (λ k. k == id)) rows ≡ rows
map-reap_row-none raises id [] h = refl
map-reap_row-none raises id (e ∷ rows) h = elim (Bool-cases (claimable id e)) [
  | inl c ↦ ground arith
  | inr c ↦ ground (arith, map-reap_row-none raises id rows)
]

pub find_first-HasNo :
    (id : ℕ) (rows : List Environment) → HasNo id rows → find_first (claimable id) rows ≡ none
find_first-HasNo id [] h = refl
find_first-HasNo id (e ∷ rows) h = rw h.0 (find_first-HasNo id rows h.1)

-- A claimed row whose VM raises: the rollback leaves the rows, and so does `reap_row`.
map-reap_row-fails :
    (raises : Text → Bool) (id : ℕ) (rows : List Environment) (env : Environment)
    → UniqueIds rows
    → find_first (claimable id) rows ≡ some env
    → fails raises env ≡ true
    → map (reap_row raises (λ k. k == id)) rows ≡ rows
map-reap_row-fails raises id [] env u h bad = refl
map-reap_row-fails raises id (e ∷ rows) env u h bad = elim (Bool-cases (e.id == id)) [
  | inl same ↦
      let rest = map-reap_row-HasNo raises id rows (HasNo-of_fresh e id rows same u.0) in
      let none_left = find_first-HasNo id rows (HasNo-of_fresh e id rows same u.0) in ground arith
  | inr other ↦ ground (arith, map-reap_row-fails raises id rows env u.1)
]

map-reap_row-claimed :
    (raises : Text → Bool) (id : ℕ) (rows : List Environment) (env : Environment)
    → UniqueIds rows
    → find_first (claimable id) rows ≡ some env
    → fails raises env ≡ false
    → map
        (set_row id (set_status EnvStatus.stopped))
        (map (set_row id (set_status EnvStatus.stopping)) rows)
      ≡ map (reap_row raises (λ k. k == id)) rows
map-reap_row-claimed raises id [] env u h good = refl
map-reap_row-claimed raises id (e ∷ rows) env u h good = elim (Bool-cases (e.id == id)) [
  | inl same ↦
      let alone = HasNo-of_fresh e id rows same u.0 in
      let none_left = find_first-HasNo id rows alone in
      rw (map-set_row-HasNo id (set_status EnvStatus.stopping) rows alone) (
        rw (map-set_row-HasNo id (set_status EnvStatus.stopped) rows alone)
          (rw (map-reap_row-HasNo raises id rows alone) (ground arith)))
  | inr other ↦ ground (arith, map-reap_row-claimed raises id rows env u.1)
]

with_rows : Db → List Environment → Db
with_rows db rows = record db { environments = rows }

-- The end of `reap` for a claimed row.
settle_lem :
    (raises : Text → Bool) (id : ℕ) (w : World) (env : Environment)
    → UniqueIds w.db.environments
    → find_first (claimable id) w.db.environments ≡ some env
    → (settle id w.db
        (update_env id (set_status EnvStatus.stopping) w.db)
        (destroy_env raises (set_status EnvStatus.stopping env) w.vms)).db
      ≡ with_rows w.db (map (reap_row raises (λ k. k == id)) w.db.environments)
unfolding settle destroy_env with_rows
settle_lem raises id w env u found = elim (Option-cases (vm_of env)) [
  | inl bare ↦
      rw bare (
        ap (with_rows w.db)
          (map-reap_row-claimed raises id w.db.environments env u found (rw bare)))
  | inr (vm, own) ↦ elim (Bool-cases (raises vm)) [
    | inl bad ↦ rw own (
        rw bad (
          ap (with_rows w.db)
            (sym (map-reap_row-fails raises id w.db.environments env u found (rw own bad)))))
    | inr good ↦ rw own (
        rw good (
          ap (with_rows w.db)
            (map-reap_row-claimed raises id w.db.environments env u found (rw own good))))
  ]
]

-- A claim with its destruction and its commit or rollback is one update of the rows.
pub reap-map :
    (raises : Text → Bool) (id : ℕ) (w : World)
    → UniqueIds w.db.environments
    → (reap raises id w).db
      ≡ record w.db { environments = map (reap_row raises (λ k. k == id)) w.db.environments }
unfolding reap with_rows
reap-map raises id w u = elim (Option-cases (find_first (claimable id) w.db.environments)) [
  | inl nothing ↦
      rw nothing (ap (with_rows w.db) (sym (map-reap_row-none raises id w.db.environments nothing)))
  | inr (env, found) ↦ rw found (settle_lem raises id w env u found)
]
