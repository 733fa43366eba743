-- ===== src/Host/Disk/Laws.antt =====
-- orchestrator/services/smolvm.py: the rootfs copy and the control group of a VM, as seen from
-- what is not of this VM.
use hack_bento.Base.{
  ◌≡◌, refl, ℕ, Bool, true, false, not, ◌||◌, [], ◌∷◌, Option, none, some, Text, Bool-cases, inl,
  inr, any,
}
use hack_bento.Host.{
  Host, Answers, Call, Content, Injection, Resource, Limits, Process, same, place, drop, forget,
  remove_if_there,
}
use hack_bento.Host.Sets.{forget-assign, where_is_twice}
use hack_bento.Host.Quiet.{
  IsQuiet, attempt-IsQuiet, refl-IsQuiet, trans-IsQuiet, place-IsQuiet, drop-IsQuiet, if-IsQuiet,
  remove_if_there-IsQuiet,
}
use hack_bento.Host.Disk.{
  select_rootfs_copy_dir, prepare_writable_rootfs, create_vm_cgroup, remove_vm_cgroup, copy_image,
  remember, inject, drop_copies, or_drop, make_copy, rebuild, in_leaf, vm_limits,
}

pub forget-IsQuiet :
    (vm : Text) (r : Resource) (h : Host)
    → IsQuiet vm r h (record h { fc_rootfs_paths = forget vm h.fc_rootfs_paths })
forget-IsQuiet vm r h = record {
  resource = refl;
  processes = refl;
  fc_pids = refl;
  paths = where_is_twice _ h.fc_rootfs_paths;
}

module _ (vm : Text) (r : Resource) (no_tmp : same r (Resource.rootfs_tmp vm) ≡ false)
    (no_copy : same r (Resource.rootfs_copy Content.clean vm) ≡ false) (ans : Answers) where
  copy_image-IsQuiet :
      (copying moving : Call) (h : Host) → IsQuiet vm r h (copy_image ans copying moving vm h).1
  unfolding copy_image
  copy_image-IsQuiet copying moving h =
      let tmp = place-IsQuiet vm r (Resource.rootfs_tmp vm) h no_tmp in
      elim (Bool-cases (ans.raises copying)) [
        | inl e ↦ rw e (if-IsQuiet vm r ans.leaves_part tmp (refl-IsQuiet vm r h))
        | inr e ↦ rw e (elim (Bool-cases (ans.raises moving)) [
          | inl e' ↦ rw e' tmp
          | inr e' ↦ rw e' (
              trans-IsQuiet vm r (drop-IsQuiet vm r (Resource.rootfs_tmp vm) h no_tmp) (
                place-IsQuiet vm r (Resource.rootfs_copy Content.clean vm)
                  (drop (Resource.rootfs_tmp vm) h) no_copy))
        ])
      ]

  remember-IsQuiet : (h : Host) → IsQuiet vm r h (remember vm h).1
  unfolding remember
  remember-IsQuiet h = record {
    resource = refl;
    processes = refl;
    fc_pids = refl;
    paths = forget-assign vm (Resource.rootfs_copy Content.clean vm) h.fc_rootfs_paths;
  }

  rebuild-IsQuiet : (h : Host) → IsQuiet vm r h (rebuild ans vm h).1
  unfolding rebuild
  rebuild-IsQuiet h =
      attempt-IsQuiet vm r
        (remove_if_there ans Call.clear_tmp_again (Resource.rootfs_tmp vm)
          ∷ copy_image ans Call.copy_again Call.move_again vm
          ∷ [])
        (
          λ s.
              remove_if_there-IsQuiet vm r ans Call.clear_tmp_again (Resource.rootfs_tmp vm) s
                no_tmp,
          (λ s. copy_image-IsQuiet Call.copy_again Call.move_again s, tt),
        )
        h

  rootfs-IsQuiet : (c : Content) (h : Host) → IsQuiet vm r h (place (Resource.rootfs_copy c vm) h)
  rootfs-IsQuiet c h = place-IsQuiet vm r (Resource.rootfs_copy c vm) h no_copy

  inject-IsQuiet : (i : Injection) (h : Host) → IsQuiet vm r h (inject ans vm i h).1
  unfolding inject
  inject-IsQuiet Injection.skipped h = refl-IsQuiet vm r h
  inject-IsQuiet Injection.written h = rootfs-IsQuiet Content.injected h
  inject-IsQuiet Injection.failed h =
      trans-IsQuiet vm r (rootfs-IsQuiet Content.torn h)
        (rebuild-IsQuiet (place (Resource.rootfs_copy Content.torn vm) h))

  make_copy-IsQuiet : (h : Host) → IsQuiet vm r h (make_copy ans vm h).1
  unfolding make_copy
  make_copy-IsQuiet h =
      attempt-IsQuiet vm r
        (remove_if_there ans Call.clear_tmp (Resource.rootfs_tmp vm)
          ∷ remove_if_there ans Call.clear_copy (Resource.rootfs_copy Content.clean vm)
          ∷ copy_image ans Call.copy Call.move vm
          ∷ remember vm
          ∷ inject ans vm ans.injection
          ∷ [])
        (
          λ s. remove_if_there-IsQuiet vm r ans Call.clear_tmp (Resource.rootfs_tmp vm) s no_tmp,
          (
            λ s.
                remove_if_there-IsQuiet vm r ans Call.clear_copy
                  (Resource.rootfs_copy Content.clean vm) s no_copy,
            (
              λ s. copy_image-IsQuiet Call.copy Call.move s,
              (λ s. remember-IsQuiet s, (λ s. inject-IsQuiet ans.injection s, tt)),
            ),
          ),
        )
        h

  drop_copies-IsQuiet : (h : Host) → IsQuiet vm r h (drop_copies ans vm h)
  unfolding drop_copies
  drop_copies-IsQuiet h = trans-IsQuiet vm r (forget-IsQuiet vm r h) (
      trans-IsQuiet vm r
        (remove_if_there-IsQuiet vm r ans Call.drop_tmp (Resource.rootfs_tmp vm) _ no_tmp)
        (remove_if_there-IsQuiet vm r ans Call.drop_copy (Resource.rootfs_copy Content.clean vm) _
          no_copy))

  or_drop-IsQuiet :
      (h : Host) (b : Bool × Host) → IsQuiet vm r h b.1 → IsQuiet vm r h (or_drop ans vm b).1
  unfolding or_drop
  or_drop-IsQuiet h (true, s) q = q
  or_drop-IsQuiet h (false, s) q = trans-IsQuiet vm r q (drop_copies-IsQuiet s)

  pub prepare-IsQuiet : (h : Host) → IsQuiet vm r h (prepare_writable_rootfs ans vm h).1
  unfolding prepare_writable_rootfs
  prepare-IsQuiet h =
      elim (Bool-cases (not (select_rootfs_copy_dir ans) || ans.raises Call.make_copy_dir)) [
        | inl e ↦ rw e (refl-IsQuiet vm r h)
        | inr e ↦ rw e (or_drop-IsQuiet h (make_copy ans vm h) (make_copy-IsQuiet h))
      ]

module _ (vm : Text) (r : Resource) (no_leaf : same r (Resource.cgroup none vm) ≡ false)
    (ans : Answers) where
  cgroup-IsQuiet :
      (l : Option Limits) (h : Host)
      → IsQuiet vm r h (place (Resource.cgroup l vm) h)
        × IsQuiet vm r h (drop (Resource.cgroup l vm) h)
  cgroup-IsQuiet l h = (
    place-IsQuiet vm r (Resource.cgroup l vm) h no_leaf,
    drop-IsQuiet vm r (Resource.cgroup l vm) h no_leaf,
  )

  pub create_vm_cgroup-IsQuiet :
      (pids cpu memory : ℕ) (h : Host) → IsQuiet vm r h (create_vm_cgroup ans pids vm cpu memory h)
  unfolding create_vm_cgroup
  create_vm_cgroup-IsQuiet pids cpu memory h =
      if-IsQuiet vm r (not ans.has_cgroup_root || ans.raises Call.make_cgroup) (refl-IsQuiet vm r h)
        (if-IsQuiet vm r (ans.raises Call.set_limits)
          (if-IsQuiet vm r (ans.raises Call.undo_cgroup) (cgroup-IsQuiet none h).0
            (cgroup-IsQuiet none h).1)
          (cgroup-IsQuiet (some (vm_limits pids cpu memory)) h).0)

  pub remove_vm_cgroup-IsQuiet : (h : Host) → IsQuiet vm r h (remove_vm_cgroup ans vm h)
  unfolding remove_vm_cgroup
  remove_vm_cgroup-IsQuiet h =
      if-IsQuiet vm r
        (any (λ (p : Process). in_leaf vm p.leaf) h.processes || ans.raises Call.remove_cgroup)
        (refl-IsQuiet vm r h) (cgroup-IsQuiet none h).1
