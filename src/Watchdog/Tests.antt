-- ===== src/Watchdog/Tests.antt =====
-- One round of the watchdog over an expired, a stuck and a crashed environment, and one with time left.
use hack_bento.Base.{
  ℕ, ◌≡◌, refl, Bool, false, not, ◌&&◌, List, [], ◌∷◌, some, Text, text_eq, codes, map,
  if◌then◌else◌,
}
use hack_bento.Model.{Environment, EnvStatus}
use hack_bento.Samples.{booked, with_envs}
use hack_bento.Watchdog.{
  World, set_status, claim_env_for_stop, destroy_env, settle, reap, reap_all, is_expired, is_stuck,
  is_crashed, watchdog_round,
}
use hack_bento.Watchdog.Rows.{fails}
use hack_bento.Watchdog.Round.{is_due, watchdog_round-due}

abbrev runs : ℕ → Text → ℕ → Environment
runs id vm expires = record (booked id (codes "10.0.0.254")) {
  status = EnvStatus.running;
  vm_id = some vm;
  expires_at = expires;
}

abbrev rows : List Environment
rows =
    runs 1 (codes "v1") 2000
    ∷ runs 2 (codes "v2") 900000000
    ∷ runs 3 (codes "v3") 900000000
    ∷ booked 4 (codes "10.0.0.255")
    ∷ []

abbrev before : World
before = record { db = with_envs rows; vms = codes "v1" ∷ codes "v2" ∷ [] }

abbrev alive : Text → Bool
alive vm = not (text_eq vm (codes "v3"))

-- Ten minutes later, and one in which only the twenty seconds of grace are over.
watchdog_round-due_example :
    (watchdog_round (λ _. false) alive 600001000 before).db.environments
    ≡ map
        (λ e.
          if is_due alive 600001000 e && not (fails (λ _. false) e)
          then set_status EnvStatus.stopped e
          else e)
        rows
watchdog_round-due_example =
    watchdog_round-due (λ _. false) alive 600001000 before
      ((refl, (refl, (refl, tt))), ((refl, (refl, tt)), ((refl, tt), (tt, tt))))

one_round : watchdog_round (λ _. false) alive 20001000 before ≡ record {
  db = with_envs (
      set_status EnvStatus.stopped (runs 1 (codes "v1") 2000)
      ∷ runs 2 (codes "v2") 900000000
      ∷ set_status EnvStatus.stopped (runs 3 (codes "v3") 900000000)
      ∷ booked 4 (codes "10.0.0.255")
      ∷ []);
  vms = codes "v2" ∷ [];
}
unfolding watchdog_round reap_all reap claim_env_for_stop destroy_env settle is_expired is_stuck
    is_crashed
one_round = refl
