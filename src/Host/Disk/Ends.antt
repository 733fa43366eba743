-- ===== src/Host/Disk/Ends.antt =====
-- orchestrator/services/smolvm.py: how the rootfs copy and the control group of a VM go.
use hack_bento.Base.{
  ◌≡◌, refl, arith, ℕ, false, ◌||◌, Option, none, some, Text, Bool-cases, inl, inr, ◌⊎◌, any, ◌∙◌,
}
use hack_bento.Host.{
  Host, Answers, Call, Content, Resource, Process, same, held_as, forget, get, remove_if_there,
}
use hack_bento.Host.Sets.{drop-absent, remove_if_there-absent}
use hack_bento.Host.Quiet.{IsQuiet, trans-IsQuiet, remove_if_there-IsQuiet}
use hack_bento.Host.Disk.{
  cleanup_writable_rootfs, create_vm_cgroup, remove_vm_cgroup, remove_copies, in_leaf,
}
use hack_bento.Host.Disk.Laws.{forget-IsQuiet}

pub remove_vm_cgroup-absent :
    (ans : Answers) (vm : Text) (h : Host)
    → ans.raises Call.remove_cgroup ≡ false
    → any (λ (p : Process). in_leaf vm p.leaf) h.processes ≡ false
    → held_as (Resource.cgroup none vm) (remove_vm_cgroup ans vm h).held ≡ none
unfolding remove_vm_cgroup
remove_vm_cgroup-absent ans vm h works empty =
    rw empty (rw works (drop-absent (Resource.cgroup none vm) h))

pub cleanup_writable_rootfs-absent :
    (ans : Answers) (vm : Text) (h : Host) (c : Content)
    → ans.raises Call.drop_copy ≡ false
    → get vm h.fc_rootfs_paths ≡ some (Resource.rootfs_copy c vm)
    → held_as (Resource.rootfs_copy c vm) (cleanup_writable_rootfs ans vm h).held ≡ none
unfolding cleanup_writable_rootfs remove_copies
cleanup_writable_rootfs-absent ans vm h c works e = rw e (
    remove_if_there-absent ans Call.drop_copy (Resource.rootfs_copy c vm)
      (record h { fc_rootfs_paths = forget vm h.fc_rootfs_paths }) works)

pub remove_vm_cgroup-paths :
    (ans : Answers) (vm : Text) (h : Host)
    → (remove_vm_cgroup ans vm h).fc_rootfs_paths ≡ h.fc_rootfs_paths
unfolding remove_vm_cgroup
remove_vm_cgroup-paths ans vm h =
    elim (Bool-cases
      (any (λ (p : Process). in_leaf vm p.leaf) h.processes || ans.raises Call.remove_cgroup)) [
        | inl e ↦ rw e refl
        | inr e ↦ rw e refl
      ]

remove_copies-paths :
    (ans : Answers) (vm : Text) (path : Option Resource) (h : Host)
    → (remove_copies ans vm path h).fc_rootfs_paths ≡ h.fc_rootfs_paths
unfolding remove_copies
remove_copies-paths ans vm (some path) h = ground arith
remove_copies-paths ans vm none h = ground arith

pub cleanup_writable_rootfs-paths :
    (ans : Answers) (vm : Text) (h : Host)
    → (cleanup_writable_rootfs ans vm h).fc_rootfs_paths ≡ forget vm h.fc_rootfs_paths
unfolding cleanup_writable_rootfs
cleanup_writable_rootfs-paths ans vm h =
    remove_copies-paths ans vm (get vm h.fc_rootfs_paths)
      (record h { fc_rootfs_paths = forget vm h.fc_rootfs_paths })

pub create_vm_cgroup-paths :
    (ans : Answers) (pids : ℕ) (vm : Text) (cpu memory : ℕ) (h : Host)
    → (create_vm_cgroup ans pids vm cpu memory h).fc_rootfs_paths ≡ h.fc_rootfs_paths
unfolding create_vm_cgroup
create_vm_cgroup-paths ans pids vm cpu memory h = ground arith

-- Where the path of the copy is known, only the copy is removed.
pub cleanup-IsQuiet :
    (vm : Text) (r : Resource)
    → same r (Resource.rootfs_copy Content.clean vm) ≡ false
    → (ans : Answers) (h : Host) (c : Content)
    → get vm h.fc_rootfs_paths ≡ some (Resource.rootfs_copy c vm)
    → IsQuiet vm r h (cleanup_writable_rootfs ans vm h)
unfolding cleanup_writable_rootfs remove_copies
cleanup-IsQuiet vm r no_copy ans h c e = rw e (
    trans-IsQuiet vm r (forget-IsQuiet vm r h) (
      remove_if_there-IsQuiet vm r ans Call.drop_copy (Resource.rootfs_copy c vm)
        (record h { fc_rootfs_paths = forget vm h.fc_rootfs_paths }) no_copy))

remove_copies-processes :
    (ans : Answers) (vm : Text) (path : Option Resource) (h : Host)
    → (remove_copies ans vm path h).processes ≡ h.processes
unfolding remove_copies
remove_copies-processes ans vm (some path) h = ground arith
remove_copies-processes ans vm none h = ground arith

pub cleanup-processes :
    (ans : Answers) (vm : Text) (h : Host)
    → (cleanup_writable_rootfs ans vm h).processes ≡ h.processes
unfolding cleanup_writable_rootfs
cleanup-processes ans vm h =
    remove_copies-processes ans vm (get vm h.fc_rootfs_paths)
      (record h { fc_rootfs_paths = forget vm h.fc_rootfs_paths })

-- The path of the copy is recorded, or none is.
abbrev pub IsRecorded : Text → Option Resource → Type 0
IsRecorded vm path = (path ≡ none) ⊎ (path ≡ some (Resource.rootfs_copy Content.clean vm))

module _ (ans : Answers) (vm : Text) (h : Host) where
  remove_copies-gone :
      (path : Option Resource)
      → IsRecorded vm path
      → ans.raises Call.drop_copy ≡ false
      → held_as (Resource.rootfs_copy Content.clean vm) (remove_copies ans vm path h).held ≡ none
  unfolding remove_copies
  remove_copies-gone none p works =
      let copy = Resource.rootfs_copy Content.clean vm in
      let h1 = (remove_if_there ans Call.drop_copy copy h).1 in
      let quiet =
        remove_if_there-IsQuiet vm copy ans Call.drop_old (Resource.old_copy vm) h1 refl in
      quiet.resource ∙ remove_if_there-absent ans Call.drop_copy copy h works
  remove_copies-gone (some path) (inl e) works = cc
  remove_copies-gone (some path) (inr e) works =
      let found : path ≡ Resource.rootfs_copy Content.clean vm = cc in
      rw found
        (remove_if_there-absent ans Call.drop_copy (Resource.rootfs_copy Content.clean vm) h works)

  remove_copies-IsQuiet :
      (r : Resource) (path : Option Resource)
      → IsRecorded vm path
      → same r (Resource.rootfs_copy Content.clean vm) ≡ false
      → same r (Resource.old_copy vm) ≡ false
      → IsQuiet vm r h (remove_copies ans vm path h)
  unfolding remove_copies
  remove_copies-IsQuiet r none p copy old =
      trans-IsQuiet vm r
        (remove_if_there-IsQuiet vm r ans Call.drop_copy (Resource.rootfs_copy Content.clean vm) h
          copy)
        (remove_if_there-IsQuiet vm r ans Call.drop_old (Resource.old_copy vm) _ old)
  remove_copies-IsQuiet r (some path) (inl e) copy old = cc
  remove_copies-IsQuiet r (some path) (inr e) copy old =
      let found : path ≡ Resource.rootfs_copy Content.clean vm = cc in
      rw found (
        remove_if_there-IsQuiet vm r ans Call.drop_copy (Resource.rootfs_copy Content.clean vm) h
          copy)

pub cleanup-gone :
    (ans : Answers) (vm : Text) (h : Host)
    → IsRecorded vm (get vm h.fc_rootfs_paths)
    → ans.raises Call.drop_copy ≡ false
    → held_as (Resource.rootfs_copy Content.clean vm) (cleanup_writable_rootfs ans vm h).held ≡ none
unfolding cleanup_writable_rootfs
cleanup-gone ans vm h =
    remove_copies-gone ans vm (record h { fc_rootfs_paths = forget vm h.fc_rootfs_paths })
      (get vm h.fc_rootfs_paths)

pub cleanup_any-IsQuiet :
    (ans : Answers) (vm : Text) (h : Host) (r : Resource)
    → IsRecorded vm (get vm h.fc_rootfs_paths)
    → same r (Resource.rootfs_copy Content.clean vm) ≡ false
    → same r (Resource.old_copy vm) ≡ false
    → IsQuiet vm r h (cleanup_writable_rootfs ans vm h)
unfolding cleanup_writable_rootfs
cleanup_any-IsQuiet ans vm h r p copy old = trans-IsQuiet vm r (forget-IsQuiet vm r h) (
    remove_copies-IsQuiet ans vm (record h { fc_rootfs_paths = forget vm h.fc_rootfs_paths }) r
      (get vm h.fc_rootfs_paths) p copy old)
