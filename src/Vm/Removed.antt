-- ===== src/Vm/Removed.antt =====
-- orchestrator/services/smolvm.py: what `_stop_firecracker` removes beside the process.
use hack_bento.Base.{◌≡◌, refl, arith, ap, ◌∙◌, Bool, false, List, [], ◌∷◌, none, some, Text, any}
use hack_bento.Host.{
  Host, Answers, Call, Command, Exit, Content, Resource, Process, same, held_as, drop, forget, get,
  remove_if_there, tap_name, nft_table_name, short,
}
use hack_bento.Host.Sets.{held_as-drop, drop-absent, remove_if_there-absent, remove_if_there-rest}
use hack_bento.Host.Quiet.{IsQuiet, trans-IsQuiet, remove_if_there-IsQuiet}
use hack_bento.Host.Disk.{cleanup_writable_rootfs, remove_vm_cgroup, in_leaf}
use hack_bento.Host.Disk.Laws.{remove_vm_cgroup-IsQuiet}
use hack_bento.Host.Disk.Ends.{
  remove_vm_cgroup-absent, remove_vm_cgroup-paths, cleanup_writable_rootfs-paths, cleanup-IsQuiet,
  cleanup_writable_rootfs-absent,
}
use hack_bento.Host.Network.Laws.{delete_tap-IsQuiet, delete_tap-done}
use hack_bento.Vm.{others, remove_leftovers}
use hack_bento.Vm.Undo.{IsLeafOf}

-- The calls of `_stop_firecracker` that remove something do so.
pub record StopWorks (ans : Answers) : Type 0 where
  pub send_kill : ans.raises Call.send_kill ≡ false
  pub drop_copy : ans.raises Call.drop_copy ≡ false
  pub remove_socket : ans.raises Call.remove_socket ≡ false
  pub remove_log : ans.raises Call.remove_log ≡ false
  pub remove_cgroup : ans.raises Call.remove_cgroup ≡ false
  pub nft_delete : ans.command Command.nft_delete ≡ Exit.done
  pub link_delete : ans.command Command.link_delete ≡ Exit.done

pub others_leave :
    (vm : Text) (ps : List Process)
    → IsLeafOf vm ps
    → any (λ (p : Process). in_leaf vm p.leaf) (others vm ps) ≡ false
others_leave vm [] l = refl
others_leave vm (p ∷ ps) l = ground (arith, l.0, others_leave vm ps l.1)

module _ (ans : Answers) (vm : Text) (works : StopWorks ans) (h : Host)
    (recorded : get vm h.fc_rootfs_paths ≡ some (Resource.rootfs_copy Content.clean vm))
    (empty : any (λ (p : Process). in_leaf vm p.leaf) h.processes ≡ false) where
  abbrev no_leaf : Host
  no_leaf = remove_vm_cgroup ans vm h

  abbrev no_copy : Host
  no_copy = cleanup_writable_rootfs ans vm no_leaf

  abbrev no_socket : Host
  no_socket = (remove_if_there ans Call.remove_socket (Resource.socket vm) no_copy).1

  abbrev no_log : Host
  no_log = (remove_if_there ans Call.remove_log (Resource.log (short vm)) no_socket).1

  recorded' : get vm no_leaf.fc_rootfs_paths ≡ some (Resource.rootfs_copy Content.clean vm)
  recorded' = ap (get vm) (remove_vm_cgroup-paths ans vm h) ∙ recorded

  -- The last three calls.
  log_on :
      (r : Resource)
      → same r (Resource.tap (tap_name vm)) ≡ false
      → same r (Resource.table (nft_table_name vm) [] [] []) ≡ false
      → IsQuiet vm r no_log (remove_leftovers ans vm h).1
  unfolding remove_leftovers
  log_on r tap table = delete_tap-IsQuiet vm r tap table ans no_log

  socket_on :
      (r : Resource)
      → same r (Resource.log (short vm)) ≡ false
      → same r (Resource.tap (tap_name vm)) ≡ false
      → same r (Resource.table (nft_table_name vm) [] [] []) ≡ false
      → IsQuiet vm r no_socket (remove_leftovers ans vm h).1
  socket_on r log tap table =
      trans-IsQuiet vm r
        (remove_if_there-IsQuiet vm r ans Call.remove_log (Resource.log (short vm)) no_socket log)
        (log_on r tap table)

  copy_on :
      (r : Resource)
      → same r (Resource.socket vm) ≡ false
      → same r (Resource.log (short vm)) ≡ false
      → same r (Resource.tap (tap_name vm)) ≡ false
      → same r (Resource.table (nft_table_name vm) [] [] []) ≡ false
      → IsQuiet vm r no_copy (remove_leftovers ans vm h).1
  copy_on r socket log tap table =
      trans-IsQuiet vm r
        (remove_if_there-IsQuiet vm r ans Call.remove_socket (Resource.socket vm) no_copy socket)
        (socket_on r log tap table)

  leaf_on :
      (r : Resource)
      → same r (Resource.rootfs_copy Content.clean vm) ≡ false
      → same r (Resource.socket vm) ≡ false
      → same r (Resource.log (short vm)) ≡ false
      → same r (Resource.tap (tap_name vm)) ≡ false
      → same r (Resource.table (nft_table_name vm) [] [] []) ≡ false
      → IsQuiet vm r no_leaf (remove_leftovers ans vm h).1
  leaf_on r copy socket log tap table =
      trans-IsQuiet vm r (cleanup-IsQuiet vm r copy ans no_leaf Content.clean recorded')
        (copy_on r socket log tap table)

  -- What is not of the VM stays.
  pub leftovers_other :
      (r : Resource)
      → same r (Resource.cgroup none vm) ≡ false
      → same r (Resource.rootfs_copy Content.clean vm) ≡ false
      → same r (Resource.socket vm) ≡ false
      → same r (Resource.log (short vm)) ≡ false
      → same r (Resource.tap (tap_name vm)) ≡ false
      → same r (Resource.table (nft_table_name vm) [] [] []) ≡ false
      → IsQuiet vm r h (remove_leftovers ans vm h).1
  leftovers_other r leaf copy socket log tap table =
      trans-IsQuiet vm r (remove_vm_cgroup-IsQuiet vm r leaf ans h)
        (leaf_on r copy socket log tap table)

  -- What is of the VM goes.
  pub leftovers_leaf : held_as (Resource.cgroup none vm) (remove_leftovers ans vm h).1.held ≡ none
  leftovers_leaf =
      IsQuiet.resource (leaf_on (Resource.cgroup none vm) refl refl refl refl refl)
      ∙ remove_vm_cgroup-absent ans vm h works.remove_cgroup empty

  pub leftovers_copy :
      held_as (Resource.rootfs_copy Content.clean vm) (remove_leftovers ans vm h).1.held ≡ none
  leftovers_copy =
      IsQuiet.resource (copy_on (Resource.rootfs_copy Content.clean vm) refl refl refl refl)
      ∙ cleanup_writable_rootfs-absent ans vm no_leaf Content.clean works.drop_copy recorded'

  pub leftovers_socket : held_as (Resource.socket vm) (remove_leftovers ans vm h).1.held ≡ none
  leftovers_socket =
      IsQuiet.resource (socket_on (Resource.socket vm) refl refl refl)
      ∙ remove_if_there-absent ans Call.remove_socket (Resource.socket vm) no_copy
          works.remove_socket

  pub leftovers_log : held_as (Resource.log (short vm)) (remove_leftovers ans vm h).1.held ≡ none
  leftovers_log =
      IsQuiet.resource (log_on (Resource.log (short vm)) refl refl)
      ∙ remove_if_there-absent ans Call.remove_log (Resource.log (short vm)) no_socket
          works.remove_log

  pub leftovers_tap :
      (held_as (Resource.tap (tap_name vm)) (remove_leftovers ans vm h).1.held ≡ none)
      × (held_as (Resource.table (nft_table_name vm) [] [] []) (remove_leftovers ans vm h).1.held
          ≡ none)
  unfolding remove_leftovers
  leftovers_tap =
      let tap = Resource.tap (tap_name vm) in
      let table = Resource.table (nft_table_name vm) [] [] [] in
      let end = delete_tap-done ans vm no_log works.nft_delete works.link_delete in
      (
        ap (λ (b : Bool × Host). held_as tap b.1.held) end ∙ drop-absent tap (drop table no_log),
        ap (λ (b : Bool × Host). held_as table b.1.held) end
            ∙ (held_as-drop table tap (drop table no_log) ∙ drop-absent table no_log),
      )

  pub leftovers_paths : (remove_leftovers ans vm h).1.fc_rootfs_paths ≡ forget vm h.fc_rootfs_paths
  unfolding remove_leftovers
  leftovers_paths =
      ap (λ (b : Bool × Host). b.1.fc_rootfs_paths)
        (delete_tap-done ans vm no_log works.nft_delete works.link_delete)
      ∙ ((remove_if_there-rest ans Call.remove_log (Resource.log (short vm)) no_socket).2
          ∙ ((remove_if_there-rest ans Call.remove_socket (Resource.socket vm) no_copy).2
              ∙ (cleanup_writable_rootfs-paths ans vm no_leaf
                  ∙ ap (forget vm) (remove_vm_cgroup-paths ans vm h))))
