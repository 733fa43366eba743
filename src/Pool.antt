-- ===== src/Pool.antt =====
-- The address pool of orchestrator/services/network.py: `_ip_pool` and `allocate_ip`, with the
-- check `_validate_ip` of orchestrator/services/smolvm.py.
pub mod Laws
pub mod Tests
use hack_bento.Base.{
  ℕ, zero, suc, ◌+◌, ◌-◌, Bool, true, false, ◌&&◌, ◌||◌, not, List, [], ◌∷◌, Option, none, some,
  Text, contains, if◌then◌else◌, where_is, find_first, truthy, map, Reply, ok, http, ◌>>=◌, ◌>>◌,
  reject,
}
use hack_bento.Model.{Environment, Settings, Db, is_occupying}
use hack_bento.Address.{ip_str, ip_int}

-- `range(start, start + count)`
unfoldable pub range_from : ℕ → ℕ → List ℕ
range_from start zero = []
range_from start (suc count) = start ∷ range_from (start + 1) count

pool_between : Option ℕ → Option ℕ → Option (List Text)
pool_between (some start) (some end) = some (map ip_str (range_from start (end + 1 - start)))
pool_between _ _ = none

-- `_ip_pool()`; `none` is `AddressValueError`.
unfoldable pub ip_pool : Settings → Option (List Text)
unfolding pool_between
ip_pool cfg = pool_between (ip_int cfg.ip_pool_start) (ip_int cfg.ip_pool_end)

-- An unhandled exception of a handler is answered with 500.
abbrev pub or_500 {ℓ} : {A : Type ℓ} → Option A → Reply A
or_500 none = http 500
or_500 (some a) = ok a

-- The address that a row occupies, if its status is occupying and it has one.
abbrev pub occupied : Environment → Option Text
occupied e = if is_occupying e.status && truthy e.ip_address then e.ip_address else none

abbrev pub add_pooled : List Text → Option Text → List Text → List Text
add_pooled pool none rest = rest
add_pooled pool (some ip) rest = if contains pool ip then ip ∷ rest else rest

-- `row[0] for row in … if row[0] and row[0] in pool_set`, over the occupying rows.
unfoldable pub db_used : List Text → List Environment → List Text
db_used pool [] = []
db_used pool (e ∷ rows) = add_pooled pool (occupied e) (db_used pool rows)

-- The loop over the pool: the first address that is in neither set.
unfoldable pub first_free : List Text → List Text → List Text → Option Text
first_free pool db_ips real_ips =
    find_first (λ ip. not (contains db_ips ip || contains real_ips ip)) pool

-- The end of the loop. With no free address `flush_record` is not called.
unfoldable pub allocated :
    {A : Type 0} → Option Text → Db → (Text → Db → Reply (A × Db)) → Reply (Option A × Db)
allocated none db flush_record = ok (none, db)
allocated (some ip) db flush_record = do (a, db') ← flush_record ip db; ok (some a, db')

-- `allocate_ip`. `neighbours` is what `_get_bridge_used_ips` returns; `flush_record` inserts the row
-- for the address, or raises, and then nothing of the transaction is kept.
unfoldable pub allocate_ip :
    {A : Type 0} → Settings → List Text → Db → (Text → Db → Reply (A × Db)) → Reply (Option A × Db)
unfolding ip_pool db_used first_free allocated
allocate_ip cfg neighbours db flush_record = do
  pool ← or_500 (ip_pool cfg)
  allocated (first_free pool (db_used pool db.environments) (where_is (contains pool) neighbours))
      db flush_record

-- `_validate_ip`; `false` is `ValueError`.
unfoldable pub validate_ip : Settings → Text → Bool
unfolding ip_pool
validate_ip cfg ip = elim (ip_int ip) [
  | none ↦ false
  | some n ↦ elim (ip_pool cfg) [ none ↦ false | some pool ↦ contains pool ip ]
]
