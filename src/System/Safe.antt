-- ===== src/System/Safe.antt =====
-- The invariant of Occupancy along the steps of System.
use hack_bento.Base.{ℕ, ◌≤◌, ◌≡◌, refl, sym, subst, Bool, false, [], Text, count_where, arith}
use hack_bento.Model.{Environment, EnvStatus, Settings}
use hack_bento.Pool.Laws.{Distinct, active_ips}
use hack_bento.Watchdog.{World, set_status}
use hack_bento.Occupancy.{IsSound, Shrinks}
use hack_bento.Envs.{occupied_by, set_vm, start_failed, record_vm, commit_failed}
use hack_bento.System.{
  Step, Reach, reserved, machine_reserved, booted, boot_failed, vm_recorded, confirmed,
  not_committed, extended, machine_extended, stopped, machine_stopped, reaped, ended, rows_deleted,
  others_changed, restarted, died, start, next,
}
use hack_bento.System.Ended.{stop_quietly-IsSound, where_is-IsSound, cleanup_orphaned_vms-IsSound}
use hack_bento.System.Updates.{update_env-IsSound, reap-IsSound, confirm-IsSound}
use hack_bento.System.Requests.{
  reserve-IsSound, reserve_attack-IsSound, extend_env-IsSound, extend_attack-IsSound,
  stop_env-IsSound, stop_attack-IsSound,
}

set_stopped-Shrinks : (e : Environment) → Shrinks (set_status EnvStatus.stopped) e
set_stopped-Shrinks e = record {
  same_id = refl;
  same_user = refl;
  same_ip = refl;
  occupying = λ o. cc;
}

set_vm-Shrinks : (vm : Text) (e : Environment) → Shrinks (set_vm vm) e
set_vm-Shrinks vm e = record {
  same_id = refl;
  same_user = refl;
  same_ip = refl;
  occupying = λ o. o;
}

-- Every step of a request, of the watchdog or of a process keeps the table sound.
pub Step-IsSound :
    {cfg : Settings} {admins : ℕ → Bool} {w w' : World}
    → Step cfg admins w w'
    → IsSound admins cfg.max_envs_per_user w.db.environments
    → IsSound admins cfg.max_envs_per_user w'.db.environments
unfolding start_failed record_vm commit_failed
Step-IsSound {cfg} {w = w} (reserved neighbours now image_id u env db role h) inv =
    reserve-IsSound cfg neighbours now image_id u w.db env db role h inv
Step-IsSound {cfg} {w = w} (machine_reserved built neighbours now u env db role h) inv =
    reserve_attack-IsSound cfg built neighbours now u w.db env db role h inv
Step-IsSound (booted vm) inv = inv
Step-IsSound {w = w} (boot_failed env) inv =
    update_env-IsSound env.id _ w.db set_stopped-Shrinks inv
Step-IsSound {w = w} (vm_recorded env vm) inv =
    update_env-IsSound env.id _ w.db (set_vm-Shrinks vm) inv
Step-IsSound {w = w} (confirmed raises now timeout env vm old still) inv =
    confirm-IsSound raises now timeout env vm w old still inv
Step-IsSound (not_committed vm) inv = inv
Step-IsSound {cfg} {w = w} (extended now env_id u more db h) inv =
    extend_env-IsSound cfg now env_id u w.db more db h inv
Step-IsSound {cfg} {w = w} (machine_extended now u more db h) inv =
    extend_attack-IsSound cfg now u w.db more db h inv
Step-IsSound {w = w} (stopped raises env_id u) inv = stop_env-IsSound raises env_id u w inv
Step-IsSound {w = w} (machine_stopped raises u) inv = stop_attack-IsSound raises u w inv
Step-IsSound {w = w} (reaped raises env_id) inv = reap-IsSound raises env_id w inv
Step-IsSound {w = w} (ended raises env_id) inv = stop_quietly-IsSound raises env_id w inv
Step-IsSound {w = w} (rows_deleted kept) inv = where_is-IsSound kept w.db.environments inv
Step-IsSound {cfg} {admins} (others_changed db same) inv =
    subst (IsSound admins cfg.max_envs_per_user) (sym same) inv
Step-IsSound {w = w} (restarted ans h vms) inv = cleanup_orphaned_vms-IsSound ans w.db h inv
Step-IsSound (died vm) inv = inv

Reach-IsSound :
    {cfg : Settings} {admins : ℕ → Bool} {w w' : World}
    → IsSound admins cfg.max_envs_per_user w.db.environments
    → Reach cfg admins w w'
    → IsSound admins cfg.max_envs_per_user w'.db.environments
Reach-IsSound inv start = inv
Reach-IsSound inv (next r s) = Step-IsSound s (Reach-IsSound inv r)

module _ {cfg : Settings} {admins : ℕ → Bool} (w : World) {w' : World} where
  empty-IsSound :
      w.db.environments ≡ []
      → Reach cfg admins w w'
      → IsSound admins cfg.max_envs_per_user w'.db.environments
  empty-IsSound empty r =
      Reach-IsSound (rw empty (record { unique = tt; exclusive = tt; quota = λ u h. omega arith }))
        r

  -- From a table without environments, after any interleaving of requests, watchdog claims,
  -- restarts and processes in which nothing ends an environment between its reservation and its
  -- confirmation: no two environments that are starting, running or stopping have one address.
  pub Reach-Distinct :
      w.db.environments ≡ [] → Reach cfg admins w w' → Distinct (active_ips w'.db.environments)
  Reach-Distinct empty r = (empty-IsSound empty r).exclusive

  -- From a table without environments, after any interleaving of requests, watchdog claims,
  -- restarts and processes in which nothing ends an environment between its reservation and its
  -- confirmation: a user who has at no time been an administrator has at most
  -- `MAX_ENVS_PER_USER` environments that are starting, running or stopping.
  pub Reach-quota :
      (u : ℕ)
      → w.db.environments ≡ []
      → Reach cfg admins w w'
      → admins u ≡ false
      → count_where (occupied_by u) w'.db.environments ≤ cfg.max_envs_per_user
  Reach-quota u empty r plain = (empty-IsSound empty r).quota u plain
