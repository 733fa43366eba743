-- ===== src/System/Updates.antt =====
-- The invariant of Occupancy for updates of one row, for the claims of Watchdog, and for `confirm`.
use hack_bento.Base.{
  ℕ, ◌+◌, ◌≡◌, sym, ap, subst, Bool, true, false, List, [], ◌∷◌, some, Text, ◌==◌, find_first,
  arith, Bool-cases, Option-cases, inl, inr, some-injective,
}
use hack_bento.Model.{Environment, Db, minutes, is_starting, is_occupying}
use hack_bento.Watchdog.{World, set_row, update_env, claim_env_for_stop, reap}
use hack_bento.Occupancy.{IsSound, Shrinks, AllShrink, map-IsSound}
use hack_bento.Envs.{confirm, set_running}
use hack_bento.Envs.Manage.{stop_claimed, stop_claimed-reap}
use hack_bento.Watchdog.Rows.{UniqueIds, reap_row, reap-map, HasNo, HasNo-of_fresh}

set_row-Shrinks :
    (id : ℕ) (f : Environment → Environment) (e : Environment)
    → Shrinks f e
    → Shrinks (set_row id f) e
set_row-Shrinks id f e s = record {
  same_id = ground (arith, s.same_id);
  same_user = ground (arith, s.same_user);
  same_ip = ground (arith, s.same_ip);
  occupying = ground (arith, s.occupying);
}

pub AllShrink-every :
    (f : Environment → Environment) (rows : List Environment)
    → ((e : Environment) → Shrinks f e)
    → AllShrink f rows
AllShrink-every f [] s = tt
AllShrink-every f (e ∷ rows) s = (s e, AllShrink-every f rows s)

-- A row that stays as it is.
Shrinks-same : (f : Environment → Environment) (e : Environment) → f e ≡ e → Shrinks f e
Shrinks-same f e h = record {
  same_id = ap (λ r. r.id) h;
  same_user = ap (λ r. r.user_id) h;
  same_ip = ap (λ r. r.ip_address) h;
  occupying = λ o. subst (λ r. is_occupying r.status ≡ true) h o;
}

HasNo-AllShrink :
    (id : ℕ) (f : Environment → Environment) (rows : List Environment)
    → HasNo id rows
    → AllShrink (set_row id f) rows
HasNo-AllShrink id f [] h = tt
HasNo-AllShrink id f (e ∷ rows) h =
    (Shrinks-same (set_row id f) e (rw h.0), HasNo-AllShrink id f rows h.1)

-- With unique keys, the found row is the only one that becomes running.
set_running-AllShrink :
    (id expires : ℕ) (row : Environment) (rows : List Environment)
    → UniqueIds rows
    → find_first (λ e. e.id == id) rows ≡ some row
    → is_starting row.status ≡ true
    → AllShrink (set_row id (set_running expires)) rows
set_running-AllShrink id expires row [] u found h = tt
set_running-AllShrink id expires row (e ∷ rows) u found h = elim (Bool-cases (e.id == id)) [
  | inl same ↦
      let first : e ≡ row = some-injective e row (rw same at found) in
      let starts = subst (λ (r : Environment). is_starting r.status ≡ true) (sym first) h in
      (
        record {
          same_id = ground arith;
          same_user = ground arith;
          same_ip = ground arith;
          occupying = λ _. ground arith;
        },
        HasNo-AllShrink id _ rows (HasNo-of_fresh e id rows same u.0),
      )
  | inr other ↦ (
    Shrinks-same (set_row id (set_running expires)) e (rw other),
    set_running-AllShrink id expires row rows u.1 (rw other at found) h,
  )
]

module _ {free : ℕ → Bool} {limit : ℕ} where
  -- An update of one row that keeps what identifies it and occupies nothing new.
  pub update_env-IsSound :
      (id : ℕ) (f : Environment → Environment) (db : Db)
      → ((e : Environment) → Shrinks f e)
      → IsSound free limit db.environments
      → IsSound free limit (update_env id f db).environments
  update_env-IsSound id f db shrinks =
      map-IsSound (set_row id f) db.environments
        (AllShrink-every (set_row id f) db.environments (λ e. set_row-Shrinks id f e (shrinks e)))

  pub reap-IsSound :
      (raises : Text → Bool) (id : ℕ) (w : World)
      → IsSound free limit w.db.environments
      → IsSound free limit (reap raises id w).db.environments
  reap-IsSound raises id w inv =
      subst (λ (d : Db). IsSound free limit d.environments) (sym (reap-map raises id w inv.unique))
        (map-IsSound (reap_row raises (λ k. k == id)) w.db.environments
          (AllShrink-every _ w.db.environments (λ e. record {
            same_id = ground arith;
            same_user = ground arith;
            same_ip = ground arith;
            occupying = ground arith;
          }))
          inv)

  pub confirm-IsSound :
      (raises : Text → Bool) (now timeout : ℕ) (held : Environment) (vm : Text) (w : World)
      → is_starting held.status ≡ true
      → ((row : Environment)
          → find_first (λ e. e.id == held.id) w.db.environments ≡ some row
          → is_starting row.status ≡ true)
      → IsSound free limit w.db.environments
      → IsSound free limit (confirm false raises now timeout held vm w).1.db.environments
  unfolding confirm
  confirm-IsSound raises now timeout held vm w old still inv =
      elim (Option-cases (find_first (λ e. e.id == held.id) w.db.environments)) [
        | inl none_left ↦ rw none_left inv
        | inr (row, found) ↦ rw found (
            rw old (
              map-IsSound _ w.db.environments
                (set_running-AllShrink held.id (now + minutes timeout) row w.db.environments
                  inv.unique found (still row found))
                inv))
      ]

  pub stop_claimed-IsSound :
      (raises : Text → Bool) (id : ℕ) (w : World)
      → IsSound free limit w.db.environments
      → IsSound free limit (stop_claimed raises id w (claim_env_for_stop id w.db)).1.db.environments
  stop_claimed-IsSound raises id w inv =
      subst (λ (v : World). IsSound free limit v.db.environments)
        (sym (stop_claimed-reap raises id w)) (reap-IsSound raises id w inv)
