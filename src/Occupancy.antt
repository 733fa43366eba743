-- ===== src/Occupancy.antt =====
-- The invariant of the table `environments` of orchestrator/models.py: unique keys, distinct occupied
-- addresses, and the limit of each user; with the updates of rows that occupy nothing new.
pub mod Added
use hack_bento.Base.{
  ℕ, zero, suc, ◌+◌, ◌≤◌, ◌<◌, ◌≡◌, refl, sym, ap, ◌∙◌, Bool, true, false, ◌&&◌, ◌||◌, not, List,
  [], ◌∷◌, ◌++◌, Option, none, some, Text, text_eq, text_eq_sound, contains, truthy, if◌then◌else◌,
  leb, ltb, ◌==◌, All, count_where, find_first, map, arith, Bool-cases, Option-cases, inl, inr,
  some-injective, subst,
}
use hack_bento.Model.{Environment, EnvStatus, Settings, is_occupying}
use hack_bento.Pool.{occupied}
use hack_bento.Pool.Laws.{Distinct, active_ips, add_ip}
use hack_bento.Watchdog.{set_row}
use hack_bento.Watchdog.Rows.{UniqueIds}
use hack_bento.Watchdog.Round.{map-UniqueIds}
use hack_bento.Envs.{occupied_by, next_id}

-- An update that occupies nothing that was not occupied: it keeps the key, the user and the address.
pub record Shrinks (f : Environment → Environment) (e : Environment) : Type 0 where
  pub same_id : (f e).id ≡ e.id
  pub same_user : (f e).user_id ≡ e.user_id
  pub same_ip : (f e).ip_address ≡ e.ip_address
  pub occupying : is_occupying (f e).status ≡ true → is_occupying e.status ≡ true

abbrev pub AllShrink : (Environment → Environment) → List Environment → Type 0
AllShrink f rows = All (Shrinks f) rows

occupied-Shrinks :
    (f : Environment → Environment) (e : Environment) (ip : Text)
    → Shrinks f e
    → occupied (f e) ≡ some ip
    → occupied e ≡ some ip
occupied-Shrinks f e ip s h = elim (Bool-cases (is_occupying (f e).status)) [
  | inl still ↦ rw (s.occupying still) (rw still at (rw s.same_ip at h))
  | inr gone ↦ cc (rw gone at h)
]

pub contains-add_ip :
    (o o' : Option Text) (ips ips' : List Text) (ip : Text)
    → ((own : Text) → o' ≡ some own → o ≡ some own)
    → (contains ips ip ≡ false → contains ips' ip ≡ false)
    → contains (add_ip o ips) ip ≡ false
    → contains (add_ip o' ips') ip ≡ false
contains-add_ip none none ips ips' ip from rest h = rest h
contains-add_ip (some a) none ips ips' ip from rest h = rest (ground arith)
contains-add_ip none (some b) ips ips' ip from rest h = cc (from b refl)
contains-add_ip (some a) (some b) ips ips' ip from rest h =
    ground (arith, from b refl, ap (λ t. text_eq t ip) (some-injective a b (from b refl)))

contains-Shrinks :
    (f : Environment → Environment) (rows : List Environment) (ip : Text)
    → AllShrink f rows
    → contains (active_ips rows) ip ≡ false
    → contains (active_ips (map f rows)) ip ≡ false
contains-Shrinks f [] ip s h = refl
contains-Shrinks f (e ∷ rows) ip s h =
    contains-add_ip (occupied e) (occupied (f e)) (active_ips rows) (active_ips (map f rows)) ip
      (λ own o. occupied-Shrinks f e own s.0 o) (contains-Shrinks f rows ip s.1) h

pub Distinct-add_ip :
    (o o' : Option Text) (ips ips' : List Text)
    → ((own : Text) → o' ≡ some own → o ≡ some own)
    → ((ip : Text) → contains ips ip ≡ false → contains ips' ip ≡ false)
    → (Distinct ips → Distinct ips')
    → Distinct (add_ip o ips)
    → Distinct (add_ip o' ips')
Distinct-add_ip none none ips ips' from fewer rest d = rest d
Distinct-add_ip (some a) none ips ips' from fewer rest d = rest d.1
Distinct-add_ip none (some b) ips ips' from fewer rest d = cc (from b refl)
Distinct-add_ip (some a) (some b) ips ips' from fewer rest d =
    (fewer b (subst (λ t. contains ips t ≡ false) (some-injective a b (from b refl)) d.0), rest d.1)

-- An update that only shrinks what is occupied leaves the occupied addresses distinct.
pub active_ips-Shrinks :
    (f : Environment → Environment) (rows : List Environment)
    → AllShrink f rows
    → Distinct (active_ips rows)
    → Distinct (active_ips (map f rows))
active_ips-Shrinks f [] s d = tt
active_ips-Shrinks f (e ∷ rows) s d =
    Distinct-add_ip (occupied e) (occupied (f e)) (active_ips rows) (active_ips (map f rows))
      (λ own o. occupied-Shrinks f e own s.0 o) (λ ip. contains-Shrinks f rows ip s.1)
      (active_ips-Shrinks f rows s.1) d

-- … and no user's count grows.
pub count-Shrinks :
    (f : Environment → Environment) (u : ℕ) (rows : List Environment)
    → AllShrink f rows
    → count_where (occupied_by u) (map f rows) ≤ count_where (occupied_by u) rows
count-Shrinks f u [] s = omega arith
count-Shrinks f u (e ∷ rows) s = ground (
  arith,
  count-Shrinks f u rows s.1,
  s.0.same_user,
  s.0.occupying,
  ap (λ k. k == u) s.0.same_user,
)

-- The rows keep all limits: `free` says which users have none, the administrators.
pub record IsSound (free : ℕ → Bool) (limit : ℕ) (rows : List Environment) : Type 0 where
  pub unique : UniqueIds rows
  pub exclusive : Distinct (active_ips rows)
  pub quota : (u : ℕ) → free u ≡ false → count_where (occupied_by u) rows ≤ limit

map-UniqueIds-Shrinks :
    (f : Environment → Environment) (rows : List Environment)
    → AllShrink f rows
    → UniqueIds rows
    → UniqueIds (map f rows)
map-UniqueIds-Shrinks f [] s u = tt
map-UniqueIds-Shrinks f (e ∷ rows) s u =
    (rw s.0.same_id (keys rows s.1 u.0), map-UniqueIds-Shrinks f rows s.1 u.1)
  where
    keys :
        (l : List Environment)
        → AllShrink f l
        → All (λ g. (e.id == g.id) ≡ false) l
        → All (λ g. (e.id == g.id) ≡ false) (map f l)
    keys [] t h = tt
    keys (g ∷ l) t h = (rw t.0.same_id h.0, keys l t.1 h.1)

pub map-IsSound :
    {free : ℕ → Bool} {limit : ℕ} (f : Environment → Environment) (rows : List Environment)
    → AllShrink f rows
    → IsSound free limit rows
    → IsSound free limit (map f rows)
map-IsSound f rows s inv = record {
  unique = map-UniqueIds-Shrinks f rows s inv.unique;
  exclusive = active_ips-Shrinks f rows s inv.exclusive;
  quota = λ u h. omega (arith, count-Shrinks f u rows s, inv.quota u h);
}
