-- ===== src/Pool/Laws.antt =====
-- The members of the pool, and the address that the loop of `allocate_ip` takes.
use hack_bento.Base.{
  ℕ, zero, suc, ◌+◌, ◌-◌, ◌^◌, ◌≤◌, ◌<◌, ◌≡◌, refl, sym, ap, ◌∙◌, Bool, true, false, ◌&&◌, List, [],
  ◌∷◌, Option, none, some, some-injective, Text, contains, text_eq, text_eq_sound, text_eq_refl,
  find_first, find_first-satisfies, map, arith, length, Bool-cases, inl, inr, leb, ltb, ◌==◌,
  ==_iff, Option-cases, where_is,
}
use native.Mathlib.Decide.{dec_le}
use hack_bento.Model.{Environment, Settings}
use hack_bento.Address.{ip_str, ip_int}
use hack_bento.Address.Roundtrip.{ip_int-ip_str}
use hack_bento.Pool.{range_from, pool_between, ip_pool, occupied, db_used, first_free}

-- No text occurs twice.
abbrev pub Distinct : List Text → Type 0
Distinct [] = Unit
Distinct (t ∷ ts) = (contains ts t ≡ false) × Distinct ts

ip_str-injective : (i j : ℕ) → i < 2 ^ 32 → j < 2 ^ 32 → ip_str i ≡ ip_str j → i ≡ j
ip_str-injective i j hi hj e =
    some-injective i j (sym (ip_int-ip_str i hi) ∙ ap ip_int e ∙ ip_int-ip_str j hj)

text_eq-ip_str : (i j : ℕ) → i < 2 ^ 32 → j < 2 ^ 32 → text_eq (ip_str i) (ip_str j) ≡ (i == j)
text_eq-ip_str i j hi hj = elim (Bool-cases (text_eq (ip_str i) (ip_str j))) [
  | inl e ↦ ground (arith, e, ip_str-injective i j hi hj (text_eq_sound _ _ e))
  | inr e ↦ elim (Bool-cases (i == j)) [
    | inl same ↦
        cc (text_eq_refl (ip_str i), ap (λ k. text_eq (ip_str i) (ip_str k)) ((==_iff i j).0 same))
    | inr differ ↦ e ∙ sym differ
  ]
]

-- An address is in the printed range exactly if it lies between the ends.
contains-range :
    (start count i : ℕ)
    → start + count ≤ 2 ^ 32
    → i < 2 ^ 32
    → contains (map ip_str (range_from start count)) (ip_str i)
      ≡ (leb start i && ltb i (start + count))
unfolding range_from
contains-range start zero i h hi = ground arith
contains-range start (suc count) i h hi = ground (
  arith,
  text_eq-ip_str start i (omega arith) hi,
  contains-range (start + 1) count i (omega arith) hi,
)

range-Distinct :
    (start count : ℕ) → start + count ≤ 2 ^ 32 → Distinct (map ip_str (range_from start count))
unfolding range_from
range-Distinct start zero h = tt
range-Distinct start (suc zero) h = (refl, tt)
range-Distinct start (suc (suc count)) h = (
  contains-range (start + 1) (suc count) start (omega arith) (omega arith) ∙ ground arith,
  range-Distinct (start + 1) (suc count) (omega arith),
)

length-range : (start count : ℕ) → length (map ip_str (range_from start count)) ≡ count
unfolding range_from
length-range start zero = refl
length-range start (suc count) = ap suc (length-range (start + 1) count)

-- With a pool from `lo` to `hi`, `_ip_pool` lists each address of the range exactly once and nothing
-- else: there are `hi + 1 - lo` of them, no two are equal, and an address is in the list exactly if
-- it lies between the ends.
pub ip_pool-range :
    (cfg : Settings) (lo hi : ℕ)
    → ip_int cfg.ip_pool_start ≡ some lo
    → ip_int cfg.ip_pool_end ≡ some hi
    → lo < 2 ^ 32
    → hi < 2 ^ 32
    → (pool : List Text) × (ip_pool cfg ≡ some pool)
      × (length pool ≡ hi + 1 - lo)
      × Distinct pool
      × ((i : ℕ) → i < 2 ^ 32 → contains pool (ip_str i) ≡ (leb lo i && leb i hi))
unfolding ip_pool pool_between
ip_pool-range cfg lo hi e f hlo hhi = (
  map ip_str (range_from lo (hi + 1 - lo)),
  rw e (rw f),
  length-range lo (hi + 1 - lo),
  elim (dec_le lo (hi + 1)) [
    | yes le ↦ range-Distinct lo (hi + 1 - lo) (omega arith)
    | no gt ↦ rw (empty gt) (unfold range_from in tt)
  ],
  λ i h. elim (dec_le lo (hi + 1)) [
    | yes le ↦ contains-range lo (hi + 1 - lo) i (omega arith) h ∙ ground arith
    | no gt ↦ rw (empty gt) (unfold range_from in ground arith)
  ],
)
  where
    empty : ¬ (lo ≤ hi + 1) → hi + 1 - lo ≡ 0
    empty gt = omega arith

abbrev pub add_ip : Option Text → List Text → List Text
add_ip none ips = ips
add_ip (some ip) ips = ip ∷ ips

-- The addresses that rows of the table occupy.
abbrev pub active_ips : List Environment → List Text
active_ips [] = []
active_ips (e ∷ rows) = add_ip (occupied e) (active_ips rows)

contains_cong : (ts : List Text) (s t : Text) → text_eq s t ≡ true → contains ts s ≡ contains ts t
contains_cong ts s t h = ap (contains ts) (text_eq_sound s t h)

contains-db_used :
    (pool : List Text) (rows : List Environment) (ip : Text)
    → contains (db_used pool rows) ip ≡ (contains pool ip && contains (active_ips rows) ip)
unfolding db_used
contains-db_used pool [] ip = ground arith
contains-db_used pool (e ∷ rows) ip = elim (Option-cases (occupied e)) [
  | inl free ↦ rw free (contains-db_used pool rows ip)
  | inr (own, taken) ↦ rw taken (elim (Bool-cases (text_eq own ip)) [
    | inl same ↦ ground (arith, contains_cong pool own ip same, contains-db_used pool rows ip)
    | inr other ↦ ground (arith, contains-db_used pool rows ip)
  ])
]

contains-where_is :
    (p : Text → Bool) (ts : List Text) (t : Text)
    → contains (where_is p ts) t ≡ (contains ts t && p t)
contains-where_is p [] t = ground arith
contains-where_is p (u ∷ ts) t = elim (Bool-cases (text_eq u t)) [
  | inl same ↦ ground (arith, ap p (text_eq_sound u t same), contains-where_is p ts t)
  | inr other ↦ ground (arith, contains-where_is p ts t)
]

find_first-contains :
    (p : Text → Bool) (ts : List Text) (t : Text) → find_first p ts ≡ some t → contains ts t ≡ true
find_first-contains p [] t h = cc
find_first-contains p (u ∷ ts) t h = elim (Bool-cases (p u)) [
  | inl e ↦ ground (arith, text_eq_refl u)
  | inr e ↦ ground (arith, find_first-contains p ts t)
]

-- An address that the loop of `allocate_ip` takes is in the pool, is no neighbour of the bridge,
-- and is occupied by no row of the table, whether or not the addresses of the rows are in the pool.
pub first_free-is_free :
    (pool : List Text) (rows : List Environment) (neighbours : List Text) (ip : Text)
    → first_free pool (db_used pool rows) (where_is (contains pool) neighbours) ≡ some ip
    → (contains pool ip ≡ true)
      × (contains (active_ips rows) ip ≡ false)
      × (contains neighbours ip ≡ false)
unfolding first_free
first_free-is_free pool rows neighbours ip h =
    let inside = find_first-contains _ pool ip h in
    let free = find_first-satisfies _ pool ip h in
    let used = contains-db_used pool rows ip in
    let near = contains-where_is (contains pool) neighbours ip in
    (inside, ground arith, ground arith)
