-- ===== src/Occupancy/Added.antt =====
-- The invariant of Occupancy for the row that `_reserve` of orchestrator/routers/envs.py adds.
use hack_bento.Base.{
  ℕ, ◌+◌, ◌≤◌, ◌<◌, ◌≡◌, refl, sym, ap, subst, Bool, true, false, List, [], ◌∷◌, ◌++◌, none, some,
  Text, text_eq, text_eq_sound, text_eq_refl, contains, if◌then◌else◌, ◌==◌, All, count_where,
  where_is, arith, Bool-cases, Option-cases, inl, inr, ok, ◌⊎◌, ==_iff,
}
use hack_bento.Model.{User, Environment, Settings, Db, is_admin}
use hack_bento.Pool.{occupied, db_used, first_free}
use hack_bento.Pool.Laws.{Distinct, active_ips, first_free-is_free}
use hack_bento.Watchdog.Rows.{UniqueIds}
use hack_bento.Envs.{occupied_by, next_id, new_env, reserve_row, user_count}
use hack_bento.Envs.Reserve.{reserve_row-ok}
use hack_bento.Occupancy.{IsSound}

-- The new primary key is larger than every key of the table.
pub next_id-above : (rows : List Environment) → All (λ e. e.id < next_id rows) rows
unfolding next_id
next_id-above [] = tt
next_id-above (e ∷ rows) = (ground arith, weaken rows (next_id-above rows))
  where
    weaken :
        (l : List Environment)
        → All (λ f. f.id < next_id rows) l
        → All (λ f. f.id < next_id (e ∷ rows)) l
    weaken [] h = tt
    weaken (f ∷ l) h = (ground (arith, h.0), weaken l h.1)

UniqueIds-append :
    (rows : List Environment) (new : Environment)
    → UniqueIds rows
    → All (λ e. e.id < new.id) rows
    → UniqueIds (rows ++ (new ∷ []))
UniqueIds-append [] new u h = (tt, tt)
UniqueIds-append (e ∷ rows) new u h = (keys rows u.0, UniqueIds-append rows new u.1 h.1)
  where
    keys :
        (l : List Environment)
        → All (λ f. (e.id == f.id) ≡ false) l
        → All (λ f. (e.id == f.id) ≡ false) (l ++ (new ∷ []))
    keys [] k = (ground (arith, h.0), tt)
    keys (f ∷ l) k = (k.0, keys l k.1)

pub count-append :
    (p : Environment → Bool) (rows : List Environment) (new : Environment)
    → count_where p (rows ++ (new ∷ [])) ≡ count_where p rows + (if p new then 1 else 0)
count-append p [] new = omega arith
count-append p (e ∷ rows) new = omega (arith, count-append p rows new)

contains-append :
    (ips : List Text) (ip t : Text)
    → contains ips t ≡ false
    → text_eq ip t ≡ false
    → contains (ips ++ (ip ∷ [])) t ≡ false
contains-append [] ip t h k = ground arith
contains-append (a ∷ ips) ip t h k = ground (arith, contains-append ips ip t)

Distinct-append :
    (ips : List Text) (ip : Text)
    → Distinct ips
    → contains ips ip ≡ false
    → Distinct (ips ++ (ip ∷ []))
Distinct-append [] ip d h = (refl, tt)
Distinct-append (a ∷ ips) ip d h = (
  contains-append ips ip a d.0 (elim (Bool-cases (text_eq ip a)) [
    | inl same ↦ cc (ap (λ t. text_eq t ip) (text_eq_sound ip a same), text_eq_refl ip, h)
    | inr other ↦ other
  ]),
  Distinct-append ips ip d.1 (ground arith),
)

active_ips-append :
    (rows : List Environment) (new : Environment) (ip : Text)
    → occupied new ≡ some ip
    → active_ips (rows ++ (new ∷ [])) ≡ active_ips rows ++ (ip ∷ [])
active_ips-append [] new ip h = rw h
active_ips-append (e ∷ rows) new ip h = elim (Option-cases (occupied e)) [
  | inl free ↦ rw free (active_ips-append rows new ip h)
  | inr (own, taken) ↦ rw taken (ap (λ l. own ∷ l) (active_ips-append rows new ip h))
]

active_ips-bare :
    (rows : List Environment) (new : Environment)
    → occupied new ≡ none
    → active_ips (rows ++ (new ∷ [])) ≡ active_ips rows
active_ips-bare [] new h = rw h
active_ips-bare (e ∷ rows) new h = elim (Option-cases (occupied e)) [
  | inl free ↦ rw free (active_ips-bare rows new h)
  | inr (own, taken) ↦ rw taken (ap (λ l. own ∷ l) (active_ips-bare rows new h))
]

-- A row for an address that is not occupied, of a user below the limit.
append-IsSound :
    {free : ℕ → Bool} {limit : ℕ} (rows : List Environment) (new : Environment) (ip : Text)
    → IsSound free limit rows
    → All (λ e. e.id < new.id) rows
    → contains (active_ips rows) ip ≡ false
    → (occupied new ≡ none) ⊎ (occupied new ≡ some ip)
    → (free new.user_id ≡ false → count_where (occupied_by new.user_id) rows < limit)
    → IsSound free limit (rows ++ (new ∷ []))
append-IsSound {free} {limit} rows new ip inv above fresh own room = record {
  unique = UniqueIds-append rows new inv.unique above;
  exclusive = addresses own;
  quota = λ u h. rw count-append (elim (Bool-cases (new.user_id == u)) [
    | inl same ↦
        subst (λ k. count_where (occupied_by k) rows + (if occupied_by k new then 1 else 0) ≤ limit)
          ((==_iff new.user_id u).0 same)
          (ground
            (arith, room (subst (λ k. free k ≡ false) (sym ((==_iff new.user_id u).0 same)) h)))
    | inr other ↦ ground (arith, inv.quota u h)
  ]);
}
  where
    addresses :
        (occupied new ≡ none) ⊎ (occupied new ≡ some ip)
        → Distinct (active_ips (rows ++ (new ∷ [])))
    addresses (inl bare) = rw (active_ips-bare rows new bare) inv.exclusive
    addresses (inr taken) =
        rw (active_ips-append rows new ip taken)
          (Distinct-append (active_ips rows) ip inv.exclusive fresh)

new_env-occupied :
    (now : ℕ) (u : User) (image_id timeout : ℕ) (unlimited : Bool) (ip : Text) (db : Db)
    → (occupied (new_env now u image_id timeout unlimited ip db) ≡ none)
      ⊎ (occupied (new_env now u image_id timeout unlimited ip db) ≡ some ip)
unfolding new_env
new_env-occupied now u image_id timeout unlimited [] db = inl refl
new_env-occupied now u image_id timeout unlimited (c ∷ ip) db = inr refl

-- `_reserve` for an address that `allocate_ip` found keeps the table sound.
pub reserve_row-IsSound :
    {free : ℕ → Bool} (cfg : Settings) (neighbours pool : List Text) (now : ℕ) (u : User)
    (image_id timeout : ℕ) (unlimited : Bool) (ip : Text) (db : Db) (env : Environment) (db' : Db)
    → (is_admin u.role ≡ true → free u.id ≡ true)
    → first_free pool (db_used pool db.environments) (where_is (contains pool) neighbours) ≡ some ip
    → reserve_row cfg now u image_id timeout unlimited ip db ≡ ok (env, db')
    → IsSound free cfg.max_envs_per_user db.environments
    → IsSound free cfg.max_envs_per_user db'.environments
unfolding new_env user_count
reserve_row-IsSound {free} cfg neighbours pool now u image_id timeout unlimited ip db env db' role
      found h inv =
    let added = reserve_row-ok cfg now u image_id timeout unlimited ip db env db' h in
    subst (λ (d : Db). IsSound free cfg.max_envs_per_user d.environments) (sym added.2)
      (append-IsSound db.environments (new_env now u image_id timeout unlimited ip db) ip inv
        (next_id-above db.environments)
        (first_free-is_free pool db.environments neighbours ip found).1
        (new_env-occupied now u image_id timeout unlimited ip db)
        (λ plain. (added.0 (plain_user role plain)).0))
  where
    plain_user :
        (is_admin u.role ≡ true → free u.id ≡ true) → free u.id ≡ false → is_admin u.role ≡ false
    plain_user r plain = elim (Bool-cases (is_admin u.role)) [ inl e ↦ cc (r e, plain) | inr e ↦ e ]
