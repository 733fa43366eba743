-- ===== src/Vm/Orphans/Laws.antt =====
-- orchestrator/services/smolvm.py: what `cleanup_orphaned_vms` leaves.
use hack_bento.Base.{
  ◌≡◌, ◌≢◌, refl, arith, ap, sym, subst, ◌∙◌, ℕ, Bool, true, false, not, List, [], ◌∷◌, Option,
  none, some, Text, text_eq, text_eq_sound, Bool-cases, Option-cases, inl, inr, any, where_is,
  find_first, All, map,
}
use hack_bento.Model.{Environment, Db, is_occupying}
use hack_bento.Watchdog
use hack_bento.Watchdog.{set_status, vm_of}
use hack_bento.Host.{Host, Answers, Call, Command, Exit, Process, Resource, name}
use hack_bento.Host.Network.{
  is_stale_table, delete_stale, delete_tables, cleanup_orphaned_antispoof,
}
use hack_bento.Host.Network.Laws.{delete_tap-fine}
use hack_bento.Host.Processes.{find_orphan_fc_pid, cleanup_stale_vm_cgroups, pid_of}
use hack_bento.Vm.{others, remove_leftovers}
use hack_bento.Vm.Undo.{IsPidOf}
use hack_bento.Vm.Ended.{end_found, found_none, others-IsPidOf}
use hack_bento.Vm.Stopped.{vm_ids, vm_ids-others, remove_leftovers-processes}
use hack_bento.Vm.Orphans.{
  SweepAnswers, end_orphan, clean_vm, clean_rows, stale_rows, stopped_if_stale, commit_stopped,
  sweep, after_sweep, cleanup_orphaned_vms,
}

-- Each process has a PID of its own, and no VM has two.
abbrev pub IsPaired : List Process → Type 0
IsPaired ps = All (λ (q : Process). IsPidOf q.pid q.vm ps) ps

paired_found :
    (vm : Text) (ps qs : List Process) (pid : ℕ)
    → All (λ (q : Process). IsPidOf q.pid q.vm qs) ps
    → pid_of (find_first (λ (p : Process). text_eq p.vm vm) ps) ≡ some pid
    → IsPidOf pid vm qs
paired_found vm [] qs pid a e = cc
paired_found vm (p ∷ ps) qs pid a e = elim (Bool-cases (text_eq p.vm vm)) [
  | inl own ↦
      let same_pid : some p.pid ≡ some pid = rw own at e in
      subst (λ (v : Text). IsPidOf pid v qs) (text_eq_sound p.vm vm own)
        (subst (λ (n : ℕ). IsPidOf n p.vm qs) (unwrapped same_pid) a.0)
  | inr other ↦ paired_found vm ps qs pid a.1 (rw other at e)
]
  where
    unwrapped : {m n : ℕ} → some m ≡ some n → m ≡ n
    unwrapped h = cc

others_within :
    (vm : Text) (ps qs : List Process)
    → All (λ (q : Process). IsPidOf q.pid q.vm qs) ps
    → All (λ (q : Process). IsPidOf q.pid q.vm (others vm qs)) (others vm ps)
others_within vm [] qs a = tt
others_within vm (p ∷ ps) qs a = elim (Bool-cases (text_eq p.vm vm)) [
  | inl e ↦ rw e (others_within vm ps qs a.1)
  | inr e ↦ rw e (others-IsPidOf p.pid p.vm vm qs a.0, others_within vm ps qs a.1)
]

-- The processes without those of the VM, if there is one.
abbrev pub without_vm : Option Text → List Process → List Process
without_vm none ps = ps
without_vm (some vm) ps = others vm ps

end_orphan-processes :
    (ans : Answers) (vm : Text) (h : Host)
    → ans.raises Call.send_kill ≡ false
    → IsPaired h.processes
    → (end_orphan ans vm h).processes ≡ others vm h.processes
unfolding end_orphan
end_orphan-processes ans vm h works pairs =
    end_found ans vm (find_orphan_fc_pid vm h) h works
      (λ pid e. paired_found vm h.processes h.processes pid pairs (unfold find_orphan_fc_pid in e))
      (found_none vm h)

-- The processes that are left after the VMs of these rows.
abbrev pub spared : List Environment → List Process → List Process
spared [] ps = ps
spared (e ∷ rows) ps = spared rows (without_vm (vm_of e) ps)

clean_vm-processes :
    (about : Text → Answers) (vm : Option Text) (h : Host)
    → ((t : Text) → (about t).raises Call.send_kill ≡ false)
    → IsPaired h.processes
    → ((clean_vm about vm h).1.processes ≡ without_vm vm h.processes)
      × IsPaired (clean_vm about vm h).1.processes
unfolding clean_vm
clean_vm-processes about none h works pairs = (refl, pairs)
clean_vm-processes about (some vm) h works pairs =
    let left =
      remove_leftovers-processes (about vm) vm (end_orphan (about vm) vm h)
      ∙ end_orphan-processes (about vm) vm h (works vm) pairs in
    (left, subst IsPaired (sym left) (others_within vm h.processes h.processes pairs))

clean_rows-processes :
    (about : Text → Answers) (rows : List Environment) (h : Host)
    → ((t : Text) → (about t).raises Call.send_kill ≡ false)
    → IsPaired h.processes
    → (clean_rows about rows h).0 ≡ true
    → (clean_rows about rows h).1.processes ≡ spared rows h.processes
unfolding clean_rows
clean_rows-processes about [] h works pairs ok = refl
clean_rows-processes about (e ∷ rows) h works pairs ok =
    let one = clean_vm-processes about (vm_of e) h works pairs in
    elim (Bool-cases (clean_vm about (vm_of e) h).0) [
      | inl fine ↦ rw fine (
          clean_rows-processes about rows (clean_vm about (vm_of e) h).1 works one.1 (rw fine at ok)
          ∙ ap (spared rows) one.0)
      | inr bad ↦ let wrong : false ≡ true = rw bad at ok in cc
    ]

abbrev pub and_vm : Option Text → List Text → List Text
and_vm none vs = vs
and_vm (some vm) vs = vm ∷ vs

-- The VMs of these rows.
abbrev pub vms_of : List Environment → List Text
vms_of [] = []
vms_of (e ∷ rows) = and_vm (vm_of e) (vms_of rows)

-- The VMs that are not in the list.
abbrev pub unlisted : List Text → List Text → List Text
unlisted vs ids = where_is (λ v. not (any (text_eq v) vs)) ids

unlisted-nil : (ids : List Text) → unlisted [] ids ≡ ids
unlisted-nil [] = refl
unlisted-nil (v ∷ ids) = ap (λ (t : List Text). v ∷ t) (unlisted-nil ids)

unlisted-stop_vm :
    (vm : Text) (vs ids : List Text)
    → unlisted vs (Watchdog.stop_vm vm ids) ≡ unlisted (vm ∷ vs) ids
unlisted-stop_vm vm vs [] = refl
unlisted-stop_vm vm vs (v ∷ ids) = elim (Bool-cases (text_eq v vm)) [
  | inl e ↦ rw e (unlisted-stop_vm vm vs ids)
  | inr e ↦ elim (Bool-cases (any (text_eq v) vs)) [
    | inl f ↦ rw e (rw f (unlisted-stop_vm vm vs ids))
    | inr f ↦ rw e (rw f (ap (λ (t : List Text). v ∷ t) (unlisted-stop_vm vm vs ids)))
  ]
]

spared-vm_ids :
    (rows : List Environment) (ps : List Process)
    → vm_ids (spared rows ps) ≡ unlisted (vms_of rows) (vm_ids ps)
spared-vm_ids [] ps = sym (unlisted-nil (vm_ids ps))
spared-vm_ids (e ∷ rows) ps = elim (Option-cases (vm_of e)) [
  | inl f ↦ rw f (spared-vm_ids rows ps)
  | inr (vm, f) ↦ rw f (
      spared-vm_ids rows (others vm ps)
      ∙ (ap (unlisted (vms_of rows)) (vm_ids-others vm ps)
          ∙ unlisted-stop_vm vm (vms_of rows) (vm_ids ps)))
]

-- The two commands of `delete_tap` end, with any exit code.
pub record TapEnds (ans : Answers) : Type 0 where
  pub nft : ans.command Command.nft_delete ≢ Exit.raised
  pub link : ans.command Command.link_delete ≢ Exit.raised

clean_vm-fine :
    (about : Text → Answers) (vm : Option Text) (h : Host)
    → ((t : Text) → TapEnds (about t))
    → (clean_vm about vm h).0 ≡ true
unfolding clean_vm remove_leftovers
clean_vm-fine about none h ends = refl
clean_vm-fine about (some vm) h ends = delete_tap-fine (about vm) vm _ (ends vm).nft (ends vm).link

clean_rows-fine :
    (about : Text → Answers) (rows : List Environment) (h : Host)
    → ((t : Text) → TapEnds (about t))
    → (clean_rows about rows h).0 ≡ true
unfolding clean_rows
clean_rows-fine about [] h ends = refl
clean_rows-fine about (e ∷ rows) h ends =
    rw (clean_vm-fine about (vm_of e) h ends)
      (clean_rows-fine about rows (clean_vm about (vm_of e) h).1 ends)

stopped_if_stale-free :
    (rows : List Environment) → All (λ e. is_occupying e.status ≡ false) (map stopped_if_stale rows)
stopped_if_stale-free [] = tt
stopped_if_stale-free (e ∷ rows) = elim (Bool-cases (is_occupying e.status)) [
  | inl f ↦ (rw f refl, stopped_if_stale-free rows)
  | inr f ↦ (rw f f, stopped_if_stale-free rows)
]

-- The commands that delete the tables end, with any exit code.
AllEnd : (Text → Exit) → Type 0
AllEnd deletes = (t : Text) → deletes t ≢ Exit.raised

delete_stale-ends :
    (ends : Exit) (stale : Bool) (r : Resource) (h : Host)
    → ends ≢ Exit.raised
    → ((delete_stale ends stale r h).0 ≡ true)
      × ((delete_stale ends stale r h).1.processes ≡ h.processes)
unfolding delete_stale
delete_stale-ends Exit.done true r h e = (refl, refl)
delete_stale-ends Exit.nonzero true r h e = (refl, refl)
delete_stale-ends Exit.raised true r h e = absurd (e refl)
delete_stale-ends ends false r h e = (refl, refl)

delete_tables-ends :
    (deletes : Text → Exit) (active : List Text) (tables : List Resource) (h : Host)
    → AllEnd deletes
    → ((delete_tables deletes active tables h).0 ≡ true)
      × ((delete_tables deletes active tables h).1.processes ≡ h.processes)
unfolding delete_tables AllEnd
delete_tables-ends deletes active [] h all_end = (refl, refl)
delete_tables-ends deletes active (r ∷ tables) h all_end =
    let one =
      delete_stale-ends (deletes (name r)) (is_stale_table active r) r h (all_end (name r)) in
    let h1 = (delete_stale (deletes (name r)) (is_stale_table active r) r h).1 in
    let rest = delete_tables-ends deletes active tables h1 all_end in
    rw (one.0) (rest.0, rest.1 ∙ one.1)

cleanup_orphaned_antispoof-ends :
    (lists : Exit) (deletes : Text → Exit) (active : List Text) (h : Host)
    → lists ≢ Exit.raised
    → AllEnd deletes
    → ((cleanup_orphaned_antispoof lists deletes active h).0 ≡ true)
      × ((cleanup_orphaned_antispoof lists deletes active h).1.processes ≡ h.processes)
unfolding cleanup_orphaned_antispoof
cleanup_orphaned_antispoof-ends Exit.done deletes active h e all_end =
    delete_tables-ends deletes active h.held h all_end
cleanup_orphaned_antispoof-ends Exit.nonzero deletes active h e all_end = (refl, refl)
cleanup_orphaned_antispoof-ends Exit.raised deletes active h e all_end = absurd (e refl)

cgroups-processes :
    (ans : Answers) (stays : Text → Bool) (h : Host)
    → (cleanup_stale_vm_cgroups ans stays h).processes ≡ h.processes
unfolding cleanup_stale_vm_cgroups
cgroups-processes ans stays h = ground arith

sweep-ends :
    (ans : SweepAnswers) (h : Host)
    → ans.lists_tables ≢ Exit.raised
    → AllEnd ans.deletes_table
    → ((sweep ans h).0 ≡ true) × ((sweep ans h).1.processes ≡ h.processes)
unfolding sweep
sweep-ends ans h lists deletes =
    let h1 = cleanup_stale_vm_cgroups ans.general ans.leaf_stays h in
    let end =
      cleanup_orphaned_antispoof-ends ans.lists_tables ans.deletes_table [] h1 lists deletes in
    (end.0, end.1 ∙ cgroups-processes ans.general ans.leaf_stays h)

module _ (about : Text → Answers) (db : Db)
    (works : (t : Text) → (about t).raises Call.send_kill ≡ false)
    (ends : (t : Text) → TapEnds (about t)) where
  after_sweep-ends :
      (swept : Bool × Host) (ps : List Process)
      → (swept.0 ≡ true) × (swept.1.processes ≡ ps)
      → IsPaired ps
      → All (λ e. is_occupying e.status ≡ false) (after_sweep about db swept).0.environments
        × (vm_ids (after_sweep about db swept).1.processes
            ≡ unlisted (vms_of (stale_rows db)) (vm_ids ps))
  unfolding after_sweep commit_stopped
  after_sweep-ends (false, h) ps end pairs = cc (end.0)
  after_sweep-ends (true, h) ps end pairs =
      let fine = clean_rows-fine about (stale_rows db) h ends in
      let paired = subst IsPaired (sym (end.1)) pairs in
      (
        rw fine (stopped_if_stale-free db.environments),
        ap vm_ids (
              clean_rows-processes about (stale_rows db) h works paired fine
              ∙ ap (spared (stale_rows db)) (end.1))
            ∙ spared-vm_ids (stale_rows db) ps,
      )

module _ (ans : SweepAnswers) (db : Db) (h : Host) where
  -- The clean-up at the start of the orchestrator, where SIGKILL can be sent, the commands of
  -- `delete_tap` and of the sweep of the tables end with whatever code, no two processes share a
  -- PID and no two are of one VM: no row occupies an address or a place afterwards, and a VM has a
  -- process if and only if it had one and no row that was starting, running or stopping names it.
  pub cleanup_orphaned_vms-ends :
      ((t : Text) → (ans.about t).raises Call.send_kill ≡ false)
      → ((t : Text) → TapEnds (ans.about t))
      → ans.lists_tables ≢ Exit.raised
      → ((t : Text) → ans.deletes_table t ≢ Exit.raised)
      → IsPaired h.processes
      → All (λ e. is_occupying e.status ≡ false) (cleanup_orphaned_vms ans db h).0.environments
        × (vm_ids (cleanup_orphaned_vms ans db h).1.processes
            ≡ unlisted (vms_of (stale_rows db)) (vm_ids h.processes))
  unfolding cleanup_orphaned_vms AllEnd
  cleanup_orphaned_vms-ends works ends lists deletes pairs =
      after_sweep-ends ans.about db works ends (sweep ans h) h.processes
        (sweep-ends ans h lists deletes) pairs
