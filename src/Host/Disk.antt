-- ===== src/Host/Disk.antt =====
-- orchestrator/services/smolvm.py: the writable rootfs of a VM and its control group.
pub mod Laws
pub mod Ends
pub mod Copies
use hack_bento.Base.{
  ℕ, ◌+◌, ◌*◌, Bool, true, false, not, ◌||◌, List, [], ◌∷◌, Option, none, some, Text, text_eq,
  if◌then◌else◌, leb, any,
}
use hack_bento.Host.{
  Host, Process, Answers, Call, Content, Injection, Limits, Resource, has, place, drop, forget, get,
  assign, attempt, remove_if_there,
}

abbrev pub mebibyte : ℕ
mebibyte = 1048576

enough : Option ℕ → ℕ → Bool
enough none need = true
enough (some free) need = leb (need + 512 * mebibyte) free

-- `_select_rootfs_copy_dir`; `false`: it raises.
unfoldable pub select_rootfs_copy_dir : Answers → Bool
unfolding enough
select_rootfs_copy_dir ans = elim ans.size [
  | none ↦ true
  | some need ↦ if ans.raises Call.make_copy_dir then false else enough ans.free need
]

-- `shutil.copy2` to the temporary path, and `os.replace` to the runtime path.
copy_image : Answers → Call → Call → Text → Host → Bool × Host
copy_image ans copying moving vm h =
    if ans.raises copying
    then (false, if ans.leaves_part then place (Resource.rootfs_tmp vm) h else h)
    else if ans.raises moving
    then (false, place (Resource.rootfs_tmp vm) h)
    else (true, place (Resource.rootfs_copy Content.clean vm) (drop (Resource.rootfs_tmp vm) h))

remember : Text → Host → Bool × Host
remember vm h = (
  true,
  record h {
    fc_rootfs_paths = assign vm (Resource.rootfs_copy Content.clean vm) h.fc_rootfs_paths;
  },
)

-- The second copy, after an injection that failed.
rebuild : Answers → Text → Host → Bool × Host
unfolding attempt copy_image
rebuild ans vm = attempt (
    remove_if_there ans Call.clear_tmp_again (Resource.rootfs_tmp vm)
    ∷ copy_image ans Call.copy_again Call.move_again vm
    ∷ [])

-- The inner `try`: inject, or build a clean copy again.
inject : Answers → Text → Injection → Host → Bool × Host
unfolding rebuild
inject ans vm Injection.skipped h = (true, h)
inject ans vm Injection.written h = (true, place (Resource.rootfs_copy Content.injected vm) h)
inject ans vm Injection.failed h = rebuild ans vm (place (Resource.rootfs_copy Content.torn vm) h)

-- The `except`: the record and both files go; a file that cannot be removed stays.
drop_copies : Answers → Text → Host → Host
drop_copies ans vm h =
    let h1 = record h { fc_rootfs_paths = forget vm h.fc_rootfs_paths } in
    let h2 = (remove_if_there ans Call.drop_tmp (Resource.rootfs_tmp vm) h1).1 in
    (remove_if_there ans Call.drop_copy (Resource.rootfs_copy Content.clean vm) h2).1

or_drop : Answers → Text → Bool × Host → Bool × Host
unfolding drop_copies
or_drop ans vm (fine, h) = if fine then (true, h) else (false, drop_copies ans vm h)

make_copy : Answers → Text → Host → Bool × Host
unfolding attempt copy_image remember inject
make_copy ans vm = attempt (
    remove_if_there ans Call.clear_tmp (Resource.rootfs_tmp vm)
    ∷ remove_if_there ans Call.clear_copy (Resource.rootfs_copy Content.clean vm)
    ∷ copy_image ans Call.copy Call.move vm
    ∷ remember vm
    ∷ inject ans vm ans.injection
    ∷ [])

-- `_prepare_writable_rootfs`
unfoldable pub prepare_writable_rootfs : Answers → Text → Host → Bool × Host
unfolding select_rootfs_copy_dir make_copy or_drop
prepare_writable_rootfs ans vm h =
    if not (select_rootfs_copy_dir ans) || ans.raises Call.make_copy_dir
    then (false, h)
    else or_drop ans vm (make_copy ans vm h)

remove_copies : Answers → Text → Option Resource → Host → Host
remove_copies ans vm (some path) h = (remove_if_there ans Call.drop_copy path h).1
remove_copies ans vm none h =
    let h1 = (remove_if_there ans Call.drop_copy (Resource.rootfs_copy Content.clean vm) h).1 in
    (remove_if_there ans Call.drop_old (Resource.old_copy vm) h1).1

-- `_cleanup_writable_rootfs`
unfoldable pub cleanup_writable_rootfs : Answers → Text → Host → Host
unfolding remove_copies
cleanup_writable_rootfs ans vm h =
    remove_copies ans vm (get vm h.fc_rootfs_paths)
      (record h { fc_rootfs_paths = forget vm h.fc_rootfs_paths })

-- What `_create_vm_cgroup` writes to memory.max, pids.max and cpu.max.
unfoldable pub vm_limits : ℕ → ℕ → ℕ → Limits
vm_limits pids_limit cpu memory_mb = record {
  memory_max = (memory_mb + 128) * 1024 * 1024;
  pids_max = pids_limit;
  cpu_quota = 100000 * cpu;
  cpu_period = 100000;
}

-- `_create_vm_cgroup`
unfoldable pub create_vm_cgroup : Answers → ℕ → Text → ℕ → ℕ → Host → Host
unfolding vm_limits
create_vm_cgroup ans pids_limit vm cpu memory_mb h =
    if not ans.has_cgroup_root || ans.raises Call.make_cgroup
    then h
    else if ans.raises Call.set_limits
    then if ans.raises Call.undo_cgroup
      then place (Resource.cgroup none vm) h
      else drop (Resource.cgroup none vm) h
    else place (Resource.cgroup (some (vm_limits pids_limit cpu memory_mb)) vm) h

-- The process is in the leaf of the VM.
unfoldable pub in_leaf : Text → Option Text → Bool
in_leaf vm none = false
in_leaf vm (some leaf) = text_eq leaf vm

-- `_remove_vm_cgroup`: a leaf with a process cannot be removed.
unfoldable pub remove_vm_cgroup : Answers → Text → Host → Host
unfolding in_leaf
remove_vm_cgroup ans vm h =
    if any (λ (p : Process). in_leaf vm p.leaf) h.processes || ans.raises Call.remove_cgroup
    then h
    else drop (Resource.cgroup none vm) h
