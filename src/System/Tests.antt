-- ===== src/System/Tests.antt =====
-- A run of two requests and the watchdog, and the theorems on runs for it.
use hack_bento.Base.{
  ◌≡◌, subst, some, some-injective, true, false, codes, ◌+◌, ℕ, refl, ◌≤◌, Bool, [], ◌∷◌, split_on,
  ◌==◌, count_where,
}
use hack_bento.Numeral.{str, int_of}
use hack_bento.Address.{ip_str, ip_int}
use hack_bento.Pool.{range_from}
use hack_bento.Pool.Laws.{Distinct, active_ips}
use hack_bento.Model.{Environment, minutes, is_starting}
use hack_bento.Watchdog.{World}
use hack_bento.Envs.{reserve, occupied_by, set_running, confirm}
use hack_bento.System.{Step, Reach, reserved, confirmed, start, next, with_db}
use hack_bento.System.Safe.{Reach-Distinct, Reach-quota}
use hack_bento.Samples.{cfg, alice, env_a, env_b, with_envs, idle}

abbrev admins : ℕ → Bool
admins u = u == 3

first : Step cfg admins idle (with_db idle (with_envs (env_a ∷ [])))
unfolding reserve ip_int split_on int_of range_from ip_str str
first = reserved [] 1000 5 alice env_a (with_envs (env_a ∷ [])) (λ e. e) refl

second :
    Step cfg admins
      (with_db idle (with_envs (env_a ∷ [])))
      (with_db idle (with_envs (env_a ∷ env_b ∷ [])))
unfolding reserve ip_int split_on int_of range_from ip_str str
second = reserved [] 1000 5 alice env_b (with_envs (env_a ∷ env_b ∷ [])) (λ e. e) refl

-- The first environment runs.
abbrev both : World
both = record {
  db = with_envs (set_running (9000 + minutes 30) env_a ∷ env_b ∷ []);
  vms = idle.vms;
}

starting : (row : Environment) → some env_a ≡ some row → is_starting row.status ≡ true
starting row h =
    subst (λ (e : Environment). is_starting e.status ≡ true) (some-injective env_a row h) refl

third : Step cfg admins (with_db idle (with_envs (env_a ∷ env_b ∷ []))) both
unfolding confirm
third = confirmed (λ _. false) 9000 30 env_a (codes "vm-1") refl starting

two_starts : Reach cfg admins idle both
two_starts = next (next (next start first) second) third

Reach-Distinct_example : Distinct (active_ips both.db.environments)
Reach-Distinct_example = Reach-Distinct idle refl two_starts

Reach-quota_example : count_where (occupied_by 1) both.db.environments ≤ 2
Reach-quota_example = Reach-quota idle 1 refl two_starts refl
