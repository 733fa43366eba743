-- ===== src/Envs/Reserve.antt =====
-- `allocate_ip` of Pool with `_reserve` of Envs, by its successful answers.
use hack_bento.Base.{
  ℕ, ◌<◌, ◌≡◌, refl, sym, ap, Bool, false, not, ◌&&◌, List, Option, none, some, Text, contains,
  where_is, arith, leb, Reply, ok, http, ◌>>=◌, >>=-eq-ok, reject-eq-ok, reject-ok, ok-injective,
}
use hack_bento.Model.{User, Environment, Settings, Db, is_admin}
use hack_bento.Pool.{ip_pool, or_500, db_used, first_free, allocated, allocate_ip}
use hack_bento.Envs.{user_count, total_count, within_limits, new_env, add_env, reserve_row, or_503}

module _ {A : Type 0} (flush_record : Text → Db → Reply (A × Db)) (db : Db) {a : A} {db' : Db} where
  flushed :
      (m : Reply (A × Db))
      → ((m >>= λ (b, d). ok (some b, d)) >>= or_503) ≡ ok (a, db')
      → m ≡ ok (a, db')
  flushed (ok (b, d)) h = h
  flushed (http c) h = cc

  allocated_ok :
      (o : Option Text)
      → (allocated o db flush_record >>= or_503) ≡ ok (a, db')
      → (ip : Text) × (o ≡ some ip) × (flush_record ip db ≡ ok (a, db'))
  unfolding allocated
  allocated_ok none h = cc
  allocated_ok (some ip) h = (ip, refl, flushed (flush_record ip db) h)

  pool_ok :
      (o : Option (List Text)) (k : List Text → Reply (Option A × Db))
      → ((or_500 o >>= k) >>= or_503) ≡ ok (a, db')
      → (pool : List Text) × (o ≡ some pool) × ((k pool >>= or_503) ≡ ok (a, db'))
  pool_ok none k h = cc
  pool_ok (some pool) k h = (pool, refl, h)

  -- A successful allocation has called `flush_record` for the first free address.
  pub allocate_ip-ok :
      (cfg : Settings) (neighbours : List Text)
      → (allocate_ip cfg neighbours db flush_record >>= or_503) ≡ ok (a, db')
      → (pool : List Text) × (ip : Text) × (ip_pool cfg ≡ some pool)
        × (first_free pool (db_used pool db.environments) (where_is (contains pool) neighbours)
            ≡ some ip)
        × (flush_record ip db ≡ ok (a, db'))
  unfolding allocate_ip
  allocate_ip-ok cfg neighbours h =
      let (pool, known, h1) = pool_ok (ip_pool cfg) _ h in
      let (ip, free, h2) = allocated_ok _ h1 in (pool, ip, known, free, h2)

-- The row is added within the limits.
pub reserve_row-ok :
    (cfg : Settings) (now : ℕ) (u : User) (image_id timeout : ℕ) (unlimited : Bool) (ip : Text)
    (db : Db) (env : Environment) (db' : Db)
    → reserve_row cfg now u image_id timeout unlimited ip db ≡ ok (env, db')
    → ((is_admin u.role ≡ false)
        → (user_count u.id db < cfg.max_envs_per_user) × (total_count db < cfg.max_envs_total))
      × (env ≡ new_env now u image_id timeout unlimited ip db)
      × (db' ≡ add_env (new_env now u image_id timeout unlimited ip db) db)
unfolding reserve_row within_limits
reserve_row-ok cfg now u image_id timeout unlimited ip db env db' h =
    let (_, within, h1) = >>=-eq-ok (within_limits cfg u db) _ h in
    let (own, rest) =
      reject-eq-ok (not (is_admin u.role) && leb cfg.max_envs_per_user (user_count u.id db)) 429 _
        within in
    let all =
      reject-ok (not (is_admin u.role) && leb cfg.max_envs_total (total_count db)) 503 rest in
    let row = ok-injective h1 in
    (λ plain. (ground arith, ground arith), sym (ap (λ r. r.0) row), sym (ap (λ r. r.1) row))
