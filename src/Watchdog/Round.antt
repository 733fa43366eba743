-- ===== src/Watchdog/Round.antt =====
-- One round of the watchdog as one update of the table.
use hack_bento.Base.{
  ℕ, ◌≡◌, refl, sym, ap, ◌∙◌, Bool, true, false, ◌&&◌, ◌||◌, not, List, [], ◌∷◌, Text,
  if◌then◌else◌, ◌==◌, ==_refl, All, map, arith, Bool-cases, inl, inr, subst,
}
use hack_bento.Model.{Environment, EnvStatus, Db, is_stoppable}
use hack_bento.Watchdog.{
  World, set_status, reap, reap_all, ids_where, is_expired, is_stuck, is_crashed, watchdog_round,
}
use hack_bento.Watchdog.Rows.{UniqueIds, fails, reap_row, reap-map}

unfoldable pub mem_id : List ℕ → ℕ → Bool
mem_id [] k = false
mem_id (i ∷ ids) k = k == i || mem_id ids k

map-keeps_ids :
    (f : Environment → Environment) (i : ℕ) (rows : List Environment)
    → ((e : Environment) → (f e).id ≡ e.id)
    → All (λ e. (i == e.id) ≡ false) rows
    → All (λ e. (i == e.id) ≡ false) (map f rows)
map-keeps_ids f i [] keeps h = tt
map-keeps_ids f i (e ∷ rows) keeps h = (rw (keeps e) h.0, map-keeps_ids f i rows keeps h.1)

-- An update that leaves the primary keys alone keeps them unique.
pub map-UniqueIds :
    (f : Environment → Environment) (rows : List Environment)
    → ((e : Environment) → (f e).id ≡ e.id)
    → UniqueIds rows
    → UniqueIds (map f rows)
map-UniqueIds f [] keeps u = tt
map-UniqueIds f (e ∷ rows) keeps u =
    (rw (keeps e) (map-keeps_ids f e.id rows keeps u.0), map-UniqueIds f rows keeps u.1)

-- Two rounds of reaping reap what either chooses.
map-reap_row-twice :
    (raises : Text → Bool) (first then_ both : ℕ → Bool) (rows : List Environment)
    → ((k : ℕ) → both k ≡ (first k || then_ k))
    → map (reap_row raises then_) (map (reap_row raises first) rows)
      ≡ map (reap_row raises both) rows
map-reap_row-twice raises first then_ both [] h = refl
map-reap_row-twice raises first then_ both (e ∷ rows) h =
    ground (arith, h e.id, map-reap_row-twice raises first then_ both rows h)

map-reap_row-nobody :
    (raises : Text → Bool) (rows : List Environment) → map (reap_row raises (mem_id [])) rows ≡ rows
unfolding mem_id
map-reap_row-nobody raises [] = refl
map-reap_row-nobody raises (e ∷ rows) = ap (λ l. e ∷ l) (map-reap_row-nobody raises rows)

abbrev at_rows : Db → List Environment → Db
at_rows db rows = record db { environments = rows }

-- A loop of claims, by the identifiers that it runs over.
reap_all-map :
    (raises : Text → Bool) (ids : List ℕ) (w : World)
    → UniqueIds w.db.environments
    → (reap_all raises ids w).db
      ≡ at_rows w.db (map (reap_row raises (mem_id ids)) w.db.environments)
unfolding reap_all
reap_all-map raises [] w u = ap (at_rows w.db) (sym (map-reap_row-nobody raises w.db.environments))
reap_all-map raises (id ∷ ids) w u =
    let step = reap-map raises id w u in
    let unique : UniqueIds (reap raises id w).db.environments =
      subst (λ (d : Db). UniqueIds d.environments) (sym step)
        (map-UniqueIds (reap_row raises (λ k. k == id)) w.db.environments (λ e. ground arith) u) in
    reap_all-map raises ids (reap raises id w) unique
    ∙ ap (λ (d : Db). at_rows d (map (reap_row raises (mem_id ids)) d.environments)) step
    ∙ ap (at_rows w.db) (
        map-reap_row-twice raises (λ k. k == id) (mem_id ids) (mem_id (id ∷ ids)) w.db.environments
          (λ k. unfold mem_id in refl))

mem_id-fresh :
    (p : Environment → Bool) (i : ℕ) (rows : List Environment)
    → All (λ f. (i == f.id) ≡ false) rows
    → mem_id (ids_where p rows) i ≡ false
unfolding mem_id
mem_id-fresh p i [] h = refl
mem_id-fresh p i (e ∷ rows) h = ground (arith, mem_id-fresh p i rows h.1)

-- With unique keys, the identifiers that a query returns choose exactly the rows that meet it.
-- `suffix` are the rows still to be looked at, `mem` the keys chosen among all.
map-chosen :
    (raises : Text → Bool) (p : Environment → Bool) (chosen : ℕ → Bool) (rows : List Environment)
    → ((e : Environment) → p e ≡ true → is_stoppable e.status ≡ true)
    → All (λ e. chosen e.id ≡ p e) rows
    → map (reap_row raises chosen) rows
      ≡ map (λ e. if p e && not (fails raises e) then set_status EnvStatus.stopped e else e) rows
map-chosen raises p chosen [] stoppable h = refl
map-chosen raises p chosen (e ∷ rows) stoppable h =
    ground (arith, h.0, stoppable e, map-chosen raises p chosen rows stoppable h.1)

All-cons_chosen :
    (p : Environment → Bool) (e : Environment) (ids : List ℕ) (rows : List Environment)
    → All (λ f. (e.id == f.id) ≡ false) rows
    → All (λ f. mem_id ids f.id ≡ p f) rows
    → All (λ f. mem_id (if p e then e.id ∷ ids else ids) f.id ≡ p f) rows
unfolding mem_id
All-cons_chosen p e ids [] u h = tt
All-cons_chosen p e ids (f ∷ rows) u h = (
  elim (Bool-cases (p e)) [ inl c ↦ rw c (ground (arith, h.0, u.0)) | inr c ↦ rw c h.0 ],
  All-cons_chosen p e ids rows u.1 h.1,
)

pub ids_where-chosen :
    (p : Environment → Bool) (rows : List Environment)
    → UniqueIds rows
    → All (λ e. mem_id (ids_where p rows) e.id ≡ p e) rows
ids_where-chosen p [] u = tt
ids_where-chosen p (e ∷ rows) u = (
  elim (Bool-cases (p e)) [
    | inl c ↦ rw c (unfold mem_id in ground (arith, ==_refl e.id))
    | inr c ↦ rw c (mem_id-fresh p e.id rows u.0)
  ],
  All-cons_chosen p e (ids_where p rows) rows u.0 (ids_where-chosen p rows u.1),
)

-- The rows after a sweep of the rows that meet `p`.
abbrev pub swept : (Text → Bool) → (Environment → Bool) → List Environment → List Environment
swept raises p rows =
    map (λ e. if p e && not (fails raises e) then set_status EnvStatus.stopped e else e) rows

-- The loop over the result of a query stops exactly the rows that meet the query.
pub reap_all-swept :
    (raises : Text → Bool) (p : Environment → Bool) (w : World)
    → ((e : Environment) → p e ≡ true → is_stoppable e.status ≡ true)
    → UniqueIds w.db.environments
    → (reap_all raises (ids_where p w.db.environments) w).db
      ≡ at_rows w.db (swept raises p w.db.environments)
reap_all-swept raises p w stoppable u =
    reap_all-map raises (ids_where p w.db.environments) w u
    ∙ ap (at_rows w.db)
        (map-chosen raises p _ w.db.environments stoppable (ids_where-chosen p w.db.environments u))

-- The rows that one round stops: a running environment that is not unlimited and whose time is
-- over, one that has been starting for five minutes, and one that has been running for twenty
-- seconds or more and whose process is gone.
pub is_due : (Text → Bool) → ℕ → Environment → Bool
unfolding is_expired is_stuck is_crashed
is_due alive now e = is_expired now e || (is_stuck now e || is_crashed alive now e)

swept-due :
    (raises alive : Text → Bool) (now : ℕ) (rows : List Environment)
    → swept raises
        (is_crashed alive now)
        (swept raises (is_stuck now) (swept raises (is_expired now) rows))
      ≡ swept raises (is_due alive now) rows
unfolding is_due
swept-due raises alive now [] = refl
swept-due raises alive now (e ∷ rows) = ground (arith, swept-due raises alive now rows)

sweep :
    (raises : Text → Bool) (p : Environment → Bool) (w : World) (rows : List Environment)
    → ((e : Environment) → p e ≡ true → is_stoppable e.status ≡ true)
    → w.db.environments ≡ rows
    → UniqueIds rows
    → ((reap_all raises (ids_where p w.db.environments) w).db.environments ≡ swept raises p rows)
      × UniqueIds (swept raises p rows)
sweep raises p w rows stoppable e u = (
  ap (λ (d : Db). d.environments) (reap_all-swept raises p w stoppable (subst UniqueIds (sym e) u))
      ∙ ap (swept raises p) e,
  map-UniqueIds _ rows (λ r. ground arith) u,
)

-- One round of the watchdog over a table with unique keys: exactly the rows that are due become
-- stopped, unless `stop_vm` raises for their VM, and then they keep their status; nothing else
-- of the table of environments changes.
pub watchdog_round-due :
    (raises alive : Text → Bool) (now : ℕ) (w : World)
    → UniqueIds w.db.environments
    → (watchdog_round raises alive now w).db.environments
      ≡ map
          (λ e.
            if is_due alive now e && not (fails raises e)
            then set_status EnvStatus.stopped e
            else e)
          w.db.environments
unfolding watchdog_round
watchdog_round-due raises alive now w u =
    let (e1, u1) = sweep raises (is_expired now) w w.db.environments expired_stoppable refl u in
    let (e2, u2) = sweep raises (is_stuck now) _ _ stuck_stoppable e1 u1 in
    let (e3, _) = sweep raises (is_crashed alive now) _ _ crashed_stoppable e2 u2 in
    e3 ∙ swept-due raises alive now w.db.environments
  where
    expired_stoppable : (e : Environment) → is_expired now e ≡ true → is_stoppable e.status ≡ true
    expired_stoppable e h = unfold is_expired in ground arith

    stuck_stoppable : (e : Environment) → is_stuck now e ≡ true → is_stoppable e.status ≡ true
    stuck_stoppable e h = unfold is_stuck in ground arith

    crashed_stoppable :
        (e : Environment) → is_crashed alive now e ≡ true → is_stoppable e.status ≡ true
    crashed_stoppable e h = unfold is_crashed in ground arith
