-- ===== src/Envs/Confirm.antt =====
-- The end of `start_env`: what the third transaction does with an environment that another request
-- or the watchdog has stopped in the meantime.
use hack_bento.Base.{
  ℕ, suc, ◌+◌, ◌≤◌, ◌≡◌, refl, sym, ap, subst, true, false, List, [], ◌∷◌, Option, some,
  some-injective, Text, text_eq, text_eq_sound, text_eq_refl, contains, truthy, if◌then◌else◌, ◌==◌,
  find_first, map, arith, Bool-cases, Option-cases, inl, inr, ok, Bool,
}
use hack_bento.Model.{Environment, EnvStatus, minutes, is_starting, is_occupying}
use hack_bento.Pool.{occupied}
use hack_bento.Pool.Laws.{Distinct, active_ips}
use hack_bento.Watchdog.{World, set_row}
use hack_bento.Watchdog.Rows.{UniqueIds, HasNo-of_fresh, map-set_row-HasNo}
use hack_bento.Envs.{set_running, confirm}

abbrev pub row_of : Environment → World → Option Environment
row_of held w = find_first (λ e. e.id == held.id) w.db.environments

find_first-set_running :
    (id expires : ℕ) (rows : List Environment) (env : Environment)
    → find_first (λ e. e.id == id) rows ≡ some env
    → find_first (λ e. e.id == id) (map (set_row id (set_running expires)) rows)
      ≡ some (set_running expires env)
find_first-set_running id expires [] env h = cc
find_first-set_running id expires (e ∷ rows) env h = elim (Bool-cases (e.id == id)) [
  | inl same ↦
      let first : e ≡ env = some-injective e env (rw same at h) in
      rw same (rw same (ap (λ r. some (set_running expires r)) first))
  | inr other ↦ rw other (rw other (find_first-set_running id expires rows env (rw other at h)))
]

occurrences : Text → List Text → ℕ
occurrences t [] = 0
occurrences t (u ∷ ts) = (if text_eq u t then 1 else 0) + occurrences t ts

occurrences-absent : (t : Text) (ts : List Text) → contains ts t ≡ false → occurrences t ts ≡ 0
unfolding occurrences
occurrences-absent t [] h = refl
occurrences-absent t (u ∷ ts) h = ground (arith, occurrences-absent t ts)

occurrences-present : (t : Text) (ts : List Text) → contains ts t ≡ true → 1 ≤ occurrences t ts
unfolding occurrences
occurrences-present t [] h = cc
occurrences-present t (u ∷ ts) h = ground (arith, occurrences-present t ts)

occurrences-Distinct : (t : Text) (ts : List Text) → Distinct ts → occurrences t ts ≤ 1
unfolding occurrences
occurrences-Distinct t [] d = omega arith
occurrences-Distinct t (u ∷ ts) d = elim (Bool-cases (text_eq u t)) [
  | inl same ↦ rw same (
      omega (
        arith,
        occurrences-absent t ts (subst (λ v. contains ts v ≡ false) (text_eq_sound u t same) d.0),
      ))
  | inr other ↦ rw other (omega (arith, occurrences-Distinct t ts d.1))
]

-- A stopped row that becomes running occupies its address once more.
occurrences-revived :
    (id expires : ℕ) (ip : Text) (row : Environment) (rows : List Environment)
    → UniqueIds rows
    → find_first (λ e. e.id == id) rows ≡ some row
    → is_occupying row.status ≡ false
    → (truthy row.ip_address ≡ true) × (row.ip_address ≡ some ip)
    → occurrences ip (active_ips (map (set_row id (set_running expires)) rows))
      ≡ suc (occurrences ip (active_ips rows))
unfolding occurrences
occurrences-revived id expires ip row [] u found gone own = cc
occurrences-revived id expires ip row (e ∷ rows) u found gone own = elim (Bool-cases (e.id == id)) [
  | inl same ↦
      let first : row ≡ e = sym (some-injective e row (rw same at found)) in
      let idle = subst (λ (r : Environment). is_occupying r.status ≡ false) first gone in
      let real = subst (λ (r : Environment). truthy r.ip_address ≡ true) first own.0 in
      let held = subst (λ (r : Environment). r.ip_address ≡ some ip) first own.1 in
      rw (map-set_row-HasNo id (set_running expires) rows (HasNo-of_fresh e id rows same u.0))
        (rw same (rw idle (rw real (rw held (rw (text_eq_refl ip) (omega arith))))))
  | inr other ↦ rw other (elim (Option-cases (occupied e)) [
    | inl free ↦
        rw free (occurrences-revived id expires ip row rows u.1 (rw other at found) gone own)
    | inr (a, taken) ↦
        rw taken (
          omega
            (arith, occurrences-revived id expires ip row rows u.1 (rw other at found) gone own))
  ])
]

-- With a session that hands back the object it holds, `starting` as it was, and a table with
-- unique keys: where the row has been stopped in the meantime and its address is occupied by
-- another environment, the confirmation makes the stopped environment running again, with its old
-- address, and the occupied addresses are no longer distinct.
pub confirm-stale :
    (raises : Text → Bool) (now timeout : ℕ) (held row : Environment) (vm ip : Text) (w : World)
    → UniqueIds w.db.environments
    → row_of held w ≡ some row
    → is_starting held.status ≡ true
    → is_occupying row.status ≡ false
    → (truthy row.ip_address ≡ true) × (row.ip_address ≡ some ip)
    → contains (active_ips w.db.environments) ip ≡ true
    → (row_of held (confirm false raises now timeout held vm w).1
        ≡ some (record row { status = EnvStatus.running; expires_at = now + minutes timeout }))
      × ((confirm false raises now timeout held vm w).0
          ≡ ok (record row { status = EnvStatus.running; expires_at = now + minutes timeout }))
      × (¬ Distinct (active_ips (confirm false raises now timeout held vm w).1.db.environments))
unfolding confirm
confirm-stale raises now timeout held row vm ip w u found old gone own taken =
    let expires = now + minutes timeout in
    rw (found, old)
      (
        find_first-set_running held.id expires w.db.environments row found,
        refl,
        λ d. absurd (
            omega (
              arith,
              occurrences-Distinct ip
                  (active_ips (map (set_row held.id (set_running expires)) w.db.environments)) d,
              occurrences-revived held.id expires ip row w.db.environments u found gone own,
              occurrences-present ip (active_ips w.db.environments) taken,
            )),
      )
