-- ===== src/Vm/Undo.antt =====
-- orchestrator/services/smolvm.py: the `except` block of `_start_firecracker`.
use hack_bento.Base.{
  ◌≡◌, refl, arith, ap, ◌∙◌, ℕ, Bool, false, not, ◌&&◌, List, [], Option, none, some, Text, inl,
  inr, ◌⊎◌, any, where_is, ◌==◌, All, text_eq,
}
use hack_bento.Host.{
  Host, Answers, Call, Command, Exit, Content, Resource, Process, same, held_as, drop, forget, get,
  remove_if_there, tap_name, nft_table_name,
}
use hack_bento.Host.Sets.{held_as-drop, drop-absent, remove_if_there-absent, remove_if_there-rest}
use hack_bento.Host.Quiet.{IsQuiet, refl-IsQuiet, trans-IsQuiet, remove_if_there-IsQuiet}
use hack_bento.Host.Disk.{cleanup_writable_rootfs, remove_vm_cgroup, in_leaf}
use hack_bento.Host.Disk.Laws.{remove_vm_cgroup-IsQuiet}
use hack_bento.Host.Disk.Ends.{
  cleanup-IsQuiet, remove_vm_cgroup-absent, cleanup_writable_rootfs-absent, remove_vm_cgroup-paths,
  cleanup_writable_rootfs-paths,
}
use hack_bento.Host.Network.Laws.{delete_tap-IsQuiet, delete_tap-done}
use hack_bento.Host.Processes.{pid_alive}
use hack_bento.Vm.{Start, kill_proc, kill_recorded, delete_tap_if, killed, clean_up}

-- The calls that remove what a start has made do so.
pub record UndoWorks (ans : Answers) : Type 0 where
  pub drop_tmp : ans.raises Call.drop_tmp ≡ false
  pub drop_copy : ans.raises Call.drop_copy ≡ false
  pub remove_socket : ans.raises Call.remove_socket ≡ false
  pub kill : ans.raises Call.kill ≡ false
  pub remove_cgroup : ans.raises Call.remove_cgroup ≡ false
  pub undo_cgroup : ans.raises Call.undo_cgroup ≡ false
  pub nft_delete : ans.command Command.nft_delete ≡ Exit.done
  pub link_delete : ans.command Command.link_delete ≡ Exit.done

-- The two hosts differ at most in their processes.
pub record SameFiles (h h' : Host) : Type 0 where
  pub held : h'.held ≡ h.held
  pub fc_pids : h'.fc_pids ≡ h.fc_pids
  pub fc_rootfs_paths : h'.fc_rootfs_paths ≡ h.fc_rootfs_paths

kill_proc-SameFiles : (ans : Answers) (p : Option ℕ) (h : Host) → SameFiles h (kill_proc ans p h)
kill_proc-SameFiles ans none h = record { held = refl; fc_pids = refl; fc_rootfs_paths = refl }
kill_proc-SameFiles ans (some p) h = ground arith

kill_recorded-SameFiles :
    (ans : Answers) (p : Option ℕ) (h : Host) → SameFiles h (kill_recorded ans p h)
kill_recorded-SameFiles ans none h = record { held = refl; fc_pids = refl; fc_rootfs_paths = refl }
kill_recorded-SameFiles ans (some p) h = ground arith

-- The host after the socket is removed.
abbrev no_socket : Answers → Text → Start → Host
no_socket ans vm s =
    (remove_if_there ans Call.remove_socket (Resource.socket vm)
      (record s.host { fc_pids = forget vm s.host.fc_pids })).1

pub killed-SameFiles :
    (ans : Answers) (vm : Text) (s : Start) → SameFiles (no_socket ans vm s) (killed ans vm s)
unfolding killed
killed-SameFiles ans vm s =
    let h = no_socket ans vm s in
    let a = kill_proc-SameFiles ans s.fc_proc h in
    let b = kill_recorded-SameFiles ans (get vm s.host.fc_pids) (kill_proc ans s.fc_proc h) in
    record {
      held = b.held ∙ a.held;
      fc_pids = b.fc_pids ∙ a.fc_pids;
      fc_rootfs_paths = b.fc_rootfs_paths ∙ a.fc_rootfs_paths;
    }

-- The PID is the one of each process of the VM, and of no other.
abbrev pub IsPidOf : ℕ → Text → List Process → Type 0
IsPidOf pid vm ps = All (λ (p : Process). (p.pid == pid) ≡ text_eq p.vm vm) ps

-- A process in the leaf of the VM is one of the VM.
abbrev pub IsLeafOf : Text → List Process → Type 0
IsLeafOf vm ps = All (λ (p : Process). (in_leaf vm p.leaf && not (text_eq p.vm vm)) ≡ false) ps

-- Where the processes and the PIDs of a start that raises stand.
pub record IsOwnPid (new : ℕ) (ps : List Process) (proc pid : Option ℕ) (now : List Process)
    : Type 0 where
  pub rest : where_is (λ (p : Process). not (p.pid == new)) now ≡ ps
  pub proc_cases : ((proc ≡ none) × (now ≡ ps)) ⊎ (proc ≡ some new)
  pub pid_cases : (pid ≡ none) ⊎ (pid ≡ some new)

kill_proc-rest :
    (ans : Answers) (new : ℕ) (proc : Option ℕ) (h : Host) (ps : List Process)
    → ans.raises Call.kill ≡ false
    → where_is (λ (p : Process). not (p.pid == new)) h.processes ≡ ps
    → ((proc ≡ none) × (h.processes ≡ ps)) ⊎ (proc ≡ some new)
    → (kill_proc ans proc h).processes ≡ ps
kill_proc-rest ans new none h ps works rest (inl e) = e.1
kill_proc-rest ans new none h ps works rest (inr e) = cc
kill_proc-rest ans new (some pid) h ps works rest (inl e) = cc
kill_proc-rest ans new (some pid) h ps works rest (inr e) =
    let same_pid : pid ≡ new = cc in rw works (rw same_pid rest)

kill_recorded-rest :
    (ans : Answers) (new : ℕ) (pid : Option ℕ) (h : Host) (ps : List Process)
    → any (λ (p : Process). p.pid == new) ps ≡ false
    → (pid ≡ none) ⊎ (pid ≡ some new)
    → h.processes ≡ ps
    → (kill_recorded ans pid h).processes ≡ ps
unfolding pid_alive
kill_recorded-rest ans new none h ps fresh cases e = e
kill_recorded-rest ans new (some pid) h ps fresh (inl c) e = cc
kill_recorded-rest ans new (some pid) h ps fresh (inr c) e =
    let same_pid : pid ≡ new = cc in
    let dead : any (λ (p : Process). p.pid == pid) h.processes ≡ false =
      ap (any (λ (p : Process). p.pid == pid)) e
      ∙ ap (λ (n : ℕ). any (λ (p : Process). p.pid == n) ps) same_pid
      ∙ fresh in
    rw dead e

pub killed-processes :
    (ans : Answers) (vm : Text) (s : Start) (ps : List Process)
    → ans.raises Call.kill ≡ false
    → any (λ (p : Process). p.pid == ans.new_pid) ps ≡ false
    → IsOwnPid ans.new_pid ps s.fc_proc (get vm s.host.fc_pids) s.host.processes
    → (killed ans vm s).processes ≡ ps
unfolding killed
killed-processes ans vm s ps works fresh own =
    let h = no_socket ans vm s in
    let q : h.processes ≡ s.host.processes = ground arith in
    kill_recorded-rest ans ans.new_pid (get vm s.host.fc_pids) (kill_proc ans s.fc_proc h) ps fresh
      own.pid_cases
      (kill_proc-rest ans ans.new_pid s.fc_proc h ps works
        (ap (where_is (λ (p : Process). not (p.pid == ans.new_pid))) q ∙ own.rest)
        (elim own.proc_cases [ inl c ↦ inl (c.0, q ∙ c.1) | inr c ↦ inr c ]))

-- The resources of the VM that `clean_up` removes in any case.
pub record IsApart (vm : Text) (r : Resource) : Type 0 where
  pub copy : same r (Resource.rootfs_copy Content.clean vm) ≡ false
  pub socket : same r (Resource.socket vm) ≡ false
  pub leaf : same r (Resource.cgroup none vm) ≡ false

-- Those of its TAP device.
pub record IsOffline (vm : Text) (r : Resource) : Type 0 where
  pub tap : same r (Resource.tap (tap_name vm)) ≡ false
  pub table : same r (Resource.table (nft_table_name vm) [] [] []) ≡ false

delete_tap_if-IsQuiet :
    (ans : Answers) (vm : Text) (r : Resource) (tap : Option Text) (h : Host)
    → IsOffline vm r ⊎ (tap ≡ none)
    → IsQuiet vm r h (delete_tap_if ans vm tap h)
delete_tap_if-IsQuiet ans vm r none h off = refl-IsQuiet vm r h
delete_tap_if-IsQuiet ans vm r (some dev) h (inl off) =
    delete_tap-IsQuiet vm r off.tap off.table ans h
delete_tap_if-IsQuiet ans vm r (some dev) h (inr e) = cc

delete_tap_if-paths :
    (ans : Answers) (vm : Text) (tap : Option Text) (h : Host)
    → UndoWorks ans
    → (delete_tap_if ans vm tap h).fc_rootfs_paths ≡ h.fc_rootfs_paths
delete_tap_if-paths ans vm none h works = refl
delete_tap_if-paths ans vm (some dev) h works =
    ap (λ (b : Bool × Host). b.1.fc_rootfs_paths)
      (delete_tap-done ans vm h works.nft_delete works.link_delete)

delete_tap_if-absent :
    (ans : Answers) (vm dev : Text) (tap : Option Text) (h : Host)
    → UndoWorks ans
    → tap ≡ some dev
    → (held_as (Resource.tap (tap_name vm)) (delete_tap_if ans vm tap h).held ≡ none)
      × (held_as (Resource.table (nft_table_name vm) [] [] []) (delete_tap_if ans vm tap h).held
          ≡ none)
delete_tap_if-absent ans vm dev none h works e = cc
delete_tap_if-absent ans vm dev (some dev') h works e =
    let table = Resource.table (nft_table_name vm) [] [] [] in
    let end = delete_tap-done ans vm h works.nft_delete works.link_delete in
    (
      ap (λ (b : Bool × Host). held_as (Resource.tap (tap_name vm)) b.1.held) end
          ∙ drop-absent (Resource.tap (tap_name vm)) (drop table h),
      ap (λ (b : Bool × Host). held_as table b.1.held) end
          ∙ (held_as-drop table (Resource.tap (tap_name vm)) (drop table h) ∙ drop-absent table h),
    )

module _ (ans : Answers) (vm : Text) (works : UndoWorks ans) (s : Start)
    (path : get vm s.host.fc_rootfs_paths ≡ some (Resource.rootfs_copy Content.clean vm))
    (empty : any (λ (p : Process). in_leaf vm p.leaf) (killed ans vm s).processes ≡ false) where
  abbrev after_leaf : Host
  after_leaf = remove_vm_cgroup ans vm (killed ans vm s)

  leaf_paths : after_leaf.fc_rootfs_paths ≡ s.host.fc_rootfs_paths
  leaf_paths =
      remove_vm_cgroup-paths ans vm (killed ans vm s)
      ∙ ((killed-SameFiles ans vm s).fc_rootfs_paths
          ∙ (remove_if_there-rest ans Call.remove_socket (Resource.socket vm)
              (record s.host { fc_pids = forget vm s.host.fc_pids })).2)

  path_kept : get vm after_leaf.fc_rootfs_paths ≡ some (Resource.rootfs_copy Content.clean vm)
  path_kept = ap (get vm) leaf_paths ∙ path

  -- Up to the removal of the TAP device.
  leaf_on :
      (r : Resource)
      → same r (Resource.rootfs_copy Content.clean vm) ≡ false
      → IsOffline vm r ⊎ (s.tap ≡ none)
      → IsQuiet vm r after_leaf (clean_up ans vm s)
  unfolding clean_up
  leaf_on r copy off =
      trans-IsQuiet vm r (cleanup-IsQuiet vm r copy ans after_leaf Content.clean path_kept)
        (delete_tap_if-IsQuiet ans vm r s.tap (cleanup_writable_rootfs ans vm after_leaf) off)

  killed_on :
      (r : Resource)
      → same r (Resource.rootfs_copy Content.clean vm) ≡ false
      → same r (Resource.cgroup none vm) ≡ false
      → IsOffline vm r ⊎ (s.tap ≡ none)
      → IsQuiet vm r (killed ans vm s) (clean_up ans vm s)
  killed_on r copy leaf off =
      trans-IsQuiet vm r (remove_vm_cgroup-IsQuiet vm r leaf ans (killed ans vm s))
        (leaf_on r copy off)

  -- Everything else.
  pub clean_up-other :
      (r : Resource)
      → IsApart vm r
      → IsOffline vm r ⊎ (s.tap ≡ none)
      → held_as r (clean_up ans vm s).held ≡ held_as r s.host.held
  clean_up-other r a off =
      (killed_on r a.copy a.leaf off).resource
      ∙ (ap (held_as r) (killed-SameFiles ans vm s).held
          ∙ (remove_if_there-IsQuiet vm r ans Call.remove_socket (Resource.socket vm)
              (record s.host { fc_pids = forget vm s.host.fc_pids }) a.socket).resource)

  pub clean_up-socket : held_as (Resource.socket vm) (clean_up ans vm s).held ≡ none
  clean_up-socket =
      let after =
        killed_on (Resource.socket vm) refl refl (inl (record { tap = refl; table = refl })) in
      after.resource
      ∙ (ap (held_as (Resource.socket vm)) (killed-SameFiles ans vm s).held
          ∙ remove_if_there-absent ans Call.remove_socket (Resource.socket vm)
              (record s.host { fc_pids = forget vm s.host.fc_pids }) works.remove_socket)

  pub clean_up-leaf : held_as (Resource.cgroup none vm) (clean_up ans vm s).held ≡ none
  clean_up-leaf =
      let after =
        leaf_on (Resource.cgroup none vm) refl (inl (record { tap = refl; table = refl })) in
      after.resource ∙ remove_vm_cgroup-absent ans vm (killed ans vm s) works.remove_cgroup empty

  pub clean_up-copy :
      held_as (Resource.rootfs_copy Content.clean vm) (clean_up ans vm s).held ≡ none
  unfolding clean_up
  clean_up-copy =
      let after =
        delete_tap_if-IsQuiet ans vm (Resource.rootfs_copy Content.clean vm) s.tap
          (cleanup_writable_rootfs ans vm after_leaf) (inl (record { tap = refl; table = refl })) in
      after.resource
      ∙ cleanup_writable_rootfs-absent ans vm after_leaf Content.clean works.drop_copy path_kept

  pub clean_up-processes : (clean_up ans vm s).processes ≡ (killed ans vm s).processes
  clean_up-processes =
      let quiet =
        killed_on (Resource.old_copy []) refl refl (inl (record { tap = refl; table = refl })) in
      quiet.processes

  pub clean_up-fc_pids : (clean_up ans vm s).fc_pids ≡ forget vm s.host.fc_pids
  clean_up-fc_pids =
      let quiet =
        killed_on (Resource.old_copy []) refl refl (inl (record { tap = refl; table = refl })) in
      quiet.fc_pids
      ∙ ((killed-SameFiles ans vm s).fc_pids
          ∙ (remove_if_there-rest ans Call.remove_socket (Resource.socket vm)
              (record s.host { fc_pids = forget vm s.host.fc_pids })).1)

  pub clean_up-paths : (clean_up ans vm s).fc_rootfs_paths ≡ forget vm s.host.fc_rootfs_paths
  unfolding clean_up
  clean_up-paths =
      delete_tap_if-paths ans vm s.tap (cleanup_writable_rootfs ans vm after_leaf) works
      ∙ (cleanup_writable_rootfs-paths ans vm after_leaf ∙ ap (forget vm) leaf_paths)

  -- Where a TAP device was made.
  pub clean_up-tap :
      (dev : Text)
      → s.tap ≡ some dev
      → (held_as (Resource.tap (tap_name vm)) (clean_up ans vm s).held ≡ none)
        × (held_as (Resource.table (nft_table_name vm) [] [] []) (clean_up ans vm s).held ≡ none)
  unfolding clean_up
  clean_up-tap dev e =
      delete_tap_if-absent ans vm dev s.tap (cleanup_writable_rootfs ans vm after_leaf) works e
