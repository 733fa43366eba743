-- ===== src/Watchdog.antt =====
-- orchestrator/services/watchdog.py: claiming an environment for a stop, destroying it, and one
-- round of the loop of `run_watchdog`.
--
-- Every write transaction begins with BEGIN IMMEDIATE (orchestrator/database.py), so a claim, the
-- destruction and the commit that ends them are one step on the tables.
pub mod Rows
pub mod Round
pub mod Tests
use hack_bento.Base.{
  ℕ, ◌+◌, Bool, true, false, ◌&&◌, not, List, [], ◌∷◌, Option, none, some, Text, text_eq, truthy,
  if◌then◌else◌, leb, ◌==◌, where_is, find_first, map,
}
use hack_bento.Model.{
  Environment, EnvStatus, Db, seconds, minutes, is_starting, is_running, is_stoppable,
}

-- The tables, and the VMs whose Firecracker process is there.
pub record World : Type 0 where
  pub db : Db
  pub vms : List Text

-- `stop_vm`, as the processes show it: the VM is gone, also where the removal of its TAP device,
-- which comes last, raises.
abbrev pub stop_vm : Text → List Text → List Text
stop_vm vm vms = where_is (λ v. not (text_eq v vm)) vms

-- An UPDATE of the row with primary key `id`.
abbrev pub set_row : ℕ → (Environment → Environment) → Environment → Environment
set_row id f e = if e.id == id then f e else e

abbrev pub update_env : ℕ → (Environment → Environment) → Db → Db
update_env id f db = record db { environments = map (set_row id f) db.environments }

abbrev pub set_status : EnvStatus → Environment → Environment
set_status s e = record e { status = s }

claimed : ℕ → Db → Option Environment → Option (Environment × Db)
claimed env_id db none = none
claimed env_id db (some env) =
    some (set_status EnvStatus.stopping env, update_env env_id (set_status EnvStatus.stopping) db)

-- `claim_env_for_stop`
unfoldable pub claim_env_for_stop : ℕ → Db → Option (Environment × Db)
unfolding claimed
claim_env_for_stop env_id db =
    claimed env_id db (find_first (λ e. e.id == env_id && is_stoppable e.status) db.environments)

-- The VM of an environment, if `env.vm_id` is true.
abbrev pub vm_of : Environment → Option Text
vm_of e = if truthy e.vm_id then e.vm_id else none

destroy_vm : (Text → Bool) → Option Text → List Text → Bool × List Text
destroy_vm raises none vms = (true, vms)
destroy_vm raises (some vm) vms = (not (raises vm), stop_vm vm vms)

-- `destroy_env`, up to the assignment of `stopped`: whether it is reached, and the VMs that are
-- left. `raises` says for which VM `stop_vm` raises. `release_ip` does nothing.
unfoldable pub destroy_env : (Text → Bool) → Environment → List Text → Bool × List Text
unfolding destroy_vm
destroy_env raises env vms = destroy_vm raises (vm_of env) vms

-- The commit, or the rollback to the tables before the claim.
unfoldable pub settle : ℕ → Db → Db → Bool × List Text → World
settle env_id before claimed (done, vms) = record {
  db = if done then update_env env_id (set_status EnvStatus.stopped) claimed else before;
  vms = vms;
}

unfoldable pub after_claim : (Text → Bool) → ℕ → World → Option (Environment × Db) → World
after_claim raises env_id w none = w
after_claim raises env_id w (some (env, db)) = settle env_id w.db db (destroy_env raises env w.vms)

-- The body of the three loops: claim, destroy, commit; an exception rolls the tables back.
unfoldable pub reap : (Text → Bool) → ℕ → World → World
unfolding claim_env_for_stop destroy_env settle after_claim
reap raises env_id w = after_claim raises env_id w (claim_env_for_stop env_id w.db)

unfoldable pub reap_all : (Text → Bool) → List ℕ → World → World
reap_all raises [] w = w
reap_all raises (env_id ∷ ids) w = reap_all raises ids (reap raises env_id w)

-- `_STARTING_TIMEOUT_MINUTES` and `_CRASH_GRACE_SECONDS`
abbrev pub starting_timeout_minutes : ℕ
starting_timeout_minutes = 5

abbrev pub crash_grace_seconds : ℕ
crash_grace_seconds = 20

-- The conditions of the three queries.
unfoldable pub is_expired : ℕ → Environment → Bool
is_expired now e = is_running e.status && (not e.is_unlimited && leb e.expires_at now)

unfoldable pub is_stuck : ℕ → Environment → Bool
is_stuck now e = is_starting e.status && leb (e.started_at + minutes starting_timeout_minutes) now

unfoldable pub past_grace : ℕ → Environment → Bool
past_grace now e = is_running e.status && leb (e.started_at + seconds crash_grace_seconds) now

-- `not (not vm_id or vm_is_alive(vm_id))`
has_crashed : (Text → Bool) → Option Text → Bool
has_crashed alive none = false
has_crashed alive (some vm) = not (alive vm)

unfoldable pub is_crashed : (Text → Bool) → ℕ → Environment → Bool
unfolding past_grace has_crashed
is_crashed alive now e = past_grace now e && has_crashed alive (vm_of e)

abbrev pub ids_where : (Environment → Bool) → List Environment → List ℕ
ids_where p [] = []
ids_where p (e ∷ rows) = if p e then e.id ∷ ids_where p rows else ids_where p rows

-- One round of `run_watchdog`. `alive` is what `vm_is_alive` answers in this round.
unfoldable pub watchdog_round : (Text → Bool) → (Text → Bool) → ℕ → World → World
unfolding reap_all
watchdog_round raises alive now w =
    let w1 = reap_all raises (ids_where (is_expired now) w.db.environments) w in
    let w2 = reap_all raises (ids_where (is_stuck now) w1.db.environments) w1 in
    reap_all raises (ids_where (is_crashed alive now) w2.db.environments) w2
