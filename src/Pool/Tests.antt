-- ===== src/Pool/Tests.antt =====
-- The sample pool, and the theorems on it.
use hack_bento.Base.{
  ℕ, ◌≡◌, refl, ◌<◌, ◌^◌, ◌+◌, ◌-◌, false, ◌&&◌, List, [], ◌∷◌, some, Text, codes, contains,
  split_on, leb, length, arith, where_is,
}
use hack_bento.Numeral.{str, int_of}
use hack_bento.Address.{ip_str, ip_int}
use hack_bento.Pool.{ip_pool, range_from, first_free, db_used, validate_ip}
use hack_bento.Pool.Laws.{Distinct, ip_pool-range}
use hack_bento.Samples.{cfg, env_a}

abbrev pool : List Text
pool = codes "10.0.0.254" ∷ codes "10.0.0.255" ∷ codes "10.0.1.0" ∷ []

sample_pool : ip_pool cfg ≡ some pool
unfolding ip_pool ip_int split_on int_of range_from ip_str str
sample_pool = refl

outside : validate_ip cfg (codes "10.0.1.1") ≡ false
unfolding validate_ip ip_int split_on int_of range_from ip_str str
outside = refl

ip_pool-range_example :
    (p : List Text) × (ip_pool cfg ≡ some p)
    × (length p ≡ 167772416 + 1 - 167772414)
    × Distinct p
    × ((i : ℕ) → i < 2 ^ 32 → contains p (ip_str i) ≡ (leb 167772414 i && leb i 167772416))
unfolding ip_int split_on int_of
ip_pool-range_example = ip_pool-range cfg 167772414 167772416 refl refl (omega arith) (omega arith)

second_free :
    first_free pool (db_used pool (env_a ∷ [])) (where_is (contains pool) [])
    ≡ some (codes "10.0.0.255")
unfolding first_free db_used
second_free = refl
