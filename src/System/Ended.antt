-- ===== src/System/Ended.antt =====
-- The invariant of Occupancy where environments are ended by the loops of
-- orchestrator/routers/images.py and orchestrator/routers/admin.py, deleted, or found at the start.
use hack_bento.Base.{
  ℕ, ◌≤◌, ◌≡◌, refl, sym, subst, Bool, true, false, List, [], ◌∷◌, Option, none, some, Text, ◌==◌,
  contains, All, count_where, where_is, arith, Bool-cases, inl, inr,
}
use hack_bento.Model.{Environment, Db}
use hack_bento.Pool.{occupied}
use hack_bento.Pool.Laws.{Distinct, active_ips}
use hack_bento.Watchdog.{World}
use hack_bento.Watchdog.Rows.{UniqueIds}
use hack_bento.Envs.{occupied_by}
use hack_bento.Occupancy.{IsSound, map-IsSound, contains-add_ip, Distinct-add_ip}
use hack_bento.Projects.{stop_quietly}
use hack_bento.Projects.Stopped.{stop_row, stop_quietly-map}
use hack_bento.Host.{Host, Answers}
use hack_bento.Vm.Orphans.{
  SweepAnswers, clean_rows, stale_rows, sweep, stopped_if_stale, commit_stopped, after_sweep,
  cleanup_orphaned_vms,
}
use hack_bento.System.Updates.{AllShrink-every}

same_own : (o : Option Text) (own : Text) → o ≡ some own → o ≡ some own
same_own o own h = h

contains-where_is :
    (kept : Environment → Bool) (rows : List Environment) (ip : Text)
    → contains (active_ips rows) ip ≡ false
    → contains (active_ips (where_is kept rows)) ip ≡ false
contains-where_is kept [] ip h = refl
contains-where_is kept (e ∷ rows) ip h =
    let rest = contains-where_is kept rows ip in
    elim (Bool-cases (kept e)) [
      | inl k ↦ rw k (
          contains-add_ip (occupied e) (occupied e) (active_ips rows)
            (active_ips (where_is kept rows)) ip (same_own (occupied e)) rest h)
      | inr k ↦ rw k (
          contains-add_ip (occupied e) none (active_ips rows) (active_ips (where_is kept rows)) ip
            (λ own (o : none ≡ some own). cc) rest h)
    ]

Distinct-where_is :
    (kept : Environment → Bool) (rows : List Environment)
    → Distinct (active_ips rows)
    → Distinct (active_ips (where_is kept rows))
Distinct-where_is kept [] d = tt
Distinct-where_is kept (e ∷ rows) d =
    let fewer = λ (ip : Text). contains-where_is kept rows ip in
    let rest = Distinct-where_is kept rows in
    elim (Bool-cases (kept e)) [
      | inl k ↦ rw k (
          Distinct-add_ip (occupied e) (occupied e) (active_ips rows)
            (active_ips (where_is kept rows)) (same_own (occupied e)) fewer rest d)
      | inr k ↦ rw k (
          Distinct-add_ip (occupied e) none (active_ips rows) (active_ips (where_is kept rows))
            (λ own (o : none ≡ some own). cc) fewer rest d)
    ]

keys-where_is :
    (kept : Environment → Bool) (id : ℕ) (rows : List Environment)
    → All (λ (g : Environment). (id == g.id) ≡ false) rows
    → All (λ (g : Environment). (id == g.id) ≡ false) (where_is kept rows)
keys-where_is kept id [] h = tt
keys-where_is kept id (e ∷ rows) h = elim (Bool-cases (kept e)) [
  | inl k ↦ rw k (h.0, keys-where_is kept id rows h.1)
  | inr k ↦ rw k (keys-where_is kept id rows h.1)
]

UniqueIds-where_is :
    (kept : Environment → Bool) (rows : List Environment)
    → UniqueIds rows
    → UniqueIds (where_is kept rows)
UniqueIds-where_is kept [] u = tt
UniqueIds-where_is kept (e ∷ rows) u = elim (Bool-cases (kept e)) [
  | inl k ↦ rw k (keys-where_is kept e.id rows u.0, UniqueIds-where_is kept rows u.1)
  | inr k ↦ rw k (UniqueIds-where_is kept rows u.1)
]

count-where_is :
    (p kept : Environment → Bool) (rows : List Environment)
    → count_where p (where_is kept rows) ≤ count_where p rows
count-where_is p kept [] = omega arith
count-where_is p kept (e ∷ rows) = ground (arith, count-where_is p kept rows)

module _ {free : ℕ → Bool} {limit : ℕ} where
  -- Rows that are deleted occupy nothing.
  pub where_is-IsSound :
      (kept : Environment → Bool) (rows : List Environment)
      → IsSound free limit rows
      → IsSound free limit (where_is kept rows)
  where_is-IsSound kept rows inv = record {
    unique = UniqueIds-where_is kept rows inv.unique;
    exclusive = Distinct-where_is kept rows inv.exclusive;
    quota = λ u h. omega (arith, count-where_is (occupied_by u) kept rows, inv.quota u h);
  }

  pub stop_quietly-IsSound :
      (raises : Text → Bool) (id : ℕ) (w : World)
      → IsSound free limit w.db.environments
      → IsSound free limit (stop_quietly raises id w).db.environments
  stop_quietly-IsSound raises id w inv =
      subst (λ (d : Db). IsSound free limit d.environments)
        (sym (stop_quietly-map raises id w inv.unique))
        (map-IsSound (stop_row raises (λ k. k == id)) w.db.environments
          (AllShrink-every _ w.db.environments (λ e. record {
            same_id = ground arith;
            same_user = ground arith;
            same_ip = ground arith;
            occupying = ground arith;
          }))
          inv)

  commit_stopped-IsSound :
      (fine : Bool) (db : Db)
      → IsSound free limit db.environments
      → IsSound free limit (commit_stopped fine db).environments
  unfolding commit_stopped
  commit_stopped-IsSound false db inv = inv
  commit_stopped-IsSound true db inv =
      map-IsSound stopped_if_stale db.environments
        (AllShrink-every _ db.environments (λ e. record {
          same_id = ground arith;
          same_user = ground arith;
          same_ip = ground arith;
          occupying = ground arith;
        }))
        inv

  after_sweep-IsSound :
      (about : Text → Answers) (db : Db) (swept : Bool × Host)
      → IsSound free limit db.environments
      → IsSound free limit (after_sweep about db swept).0.environments
  unfolding after_sweep
  after_sweep-IsSound about db (false, h) inv = inv
  after_sweep-IsSound about db (true, h) inv =
      commit_stopped-IsSound (clean_rows about (stale_rows db) h).0 db inv

  pub cleanup_orphaned_vms-IsSound :
      (ans : SweepAnswers) (db : Db) (h : Host)
      → IsSound free limit db.environments
      → IsSound free limit (cleanup_orphaned_vms ans db h).0.environments
  unfolding cleanup_orphaned_vms
  cleanup_orphaned_vms-IsSound ans db h inv = after_sweep-IsSound ans.about db (sweep ans h) inv
