-- ===== src/Vm/Stopped.antt =====
-- orchestrator/services/smolvm.py: `_stop_firecracker` and `stop_vm`, what they leave.
use hack_bento.Base.{
  ◌≡◌, refl, ap, ◌∙◌, ℕ, Bool, false, List, [], ◌∷◌, Text, text_eq, Bool-cases, inl, inr, any,
  find_first, map, is_some, ◌==◌, ◌||◌, contains, Option-cases,
}
use hack_bento.Host.{Host, Answers, Call, Resource, Process, get, remove_if_there, short}
use hack_bento.Host.Sets.{remove_if_there-rest}
use hack_bento.Host.Disk.{cleanup_writable_rootfs, remove_vm_cgroup}
use hack_bento.Host.Disk.Laws.{remove_vm_cgroup-IsQuiet}
use hack_bento.Host.Disk.Ends.{cleanup-processes}
use hack_bento.Host.Processes.{vm_is_alive, alive_by, find_orphan_fc_pid, pid_alive, pid_of}
use hack_bento.Vm.Undo.{IsPidOf}
use hack_bento.Host.Network.Laws.{delete_tap-IsQuiet}
use hack_bento.Vm.{others, shut_down, end_vm, remove_leftovers, stop_firecracker, stop_vm}
use hack_bento.Vm.Ended.{IsTracked, ended-processes}
use hack_bento.Watchdog

-- What the watchdog sees of a host: the VMs that have a Firecracker process.
abbrev pub vm_ids : List Process → List Text
vm_ids ps = map (λ (p : Process). p.vm) ps

pub vm_ids-others :
    (vm : Text) (ps : List Process) → vm_ids (others vm ps) ≡ Watchdog.stop_vm vm (vm_ids ps)
vm_ids-others vm [] = refl
vm_ids-others vm (p ∷ ps) = elim (Bool-cases (text_eq p.vm vm)) [
  | inl e ↦ rw e (vm_ids-others vm ps)
  | inr e ↦ rw e (ap (λ (t : List Text). p.vm ∷ t) (vm_ids-others vm ps))
]

pub remove_leftovers-processes :
    (ans : Answers) (vm : Text) (h : Host) → (remove_leftovers ans vm h).1.processes ≡ h.processes
unfolding remove_leftovers
remove_leftovers-processes ans vm h =
    let h0 = remove_vm_cgroup ans vm h in
    let h1 = cleanup_writable_rootfs ans vm h0 in
    let h2 = (remove_if_there ans Call.remove_socket (Resource.socket vm) h1).1 in
    let h3 = (remove_if_there ans Call.remove_log (Resource.log (short vm)) h2).1 in
    let last = delete_tap-IsQuiet vm (Resource.old_copy []) refl refl ans h3 in
    let first = remove_vm_cgroup-IsQuiet vm (Resource.old_copy []) refl ans h in
    last.processes
    ∙ ((remove_if_there-rest ans Call.remove_log (Resource.log (short vm)) h2).0
        ∙ ((remove_if_there-rest ans Call.remove_socket (Resource.socket vm) h1).0
            ∙ (cleanup-processes ans vm h0 ∙ first.processes)))

stop_firecracker-processes :
    (ans : Answers) (vm : Text) (h : Host)
    → ans.raises Call.send_kill ≡ false
    → IsTracked vm h
    → (stop_firecracker ans vm h).1.processes ≡ others vm h.processes
unfolding stop_firecracker
stop_firecracker-processes ans vm h works t =
    remove_leftovers-processes ans vm (end_vm ans vm (shut_down ans vm h))
    ∙ ended-processes ans vm h works t

-- Where SIGKILL can be sent, and the PID that the orchestrator has or finds is the one of the VM's
-- processes, `stop_vm` is the `stop_vm` of the watchdog's model on the VMs that have a process,
-- whatever else fails in it and whether or not it raises.
pub stop_vm-refines :
    (ans : Answers) (vm : Text) (h : Host)
    → ans.raises Call.send_kill ≡ false
    → IsTracked vm h
    → vm_ids (stop_vm ans vm h).1.processes ≡ Watchdog.stop_vm vm (vm_ids h.processes)
unfolding stop_vm
stop_vm-refines ans vm h works t =
    ap vm_ids (stop_firecracker-processes ans vm h works t) ∙ vm_ids-others vm h.processes

alive_any :
    (pid : ℕ) (vm : Text) (ps : List Process)
    → IsPidOf pid vm ps
    → any (λ (p : Process). p.pid == pid) ps ≡ contains (vm_ids ps) vm
alive_any pid vm [] a = refl
alive_any pid vm (p ∷ ps) a =
    rw a.0 (ap (λ (b : Bool). text_eq p.vm vm || b) (alive_any pid vm ps a.1))

found_any :
    (vm : Text) (ps : List Process)
    → is_some (pid_of (find_first (λ (p : Process). text_eq p.vm vm) ps)) ≡ contains (vm_ids ps) vm
found_any vm [] = refl
found_any vm (p ∷ ps) = elim (Bool-cases (text_eq p.vm vm)) [
  | inl e ↦ rw e refl
  | inr e ↦ rw e (found_any vm ps)
]

-- Where the PID that the orchestrator has or finds is the one of the VM's processes and of no
-- other, `vm_is_alive` says whether the VM is among those that have a process.
pub vm_is_alive-contains :
    (vm : Text) (h : Host) → IsTracked vm h → vm_is_alive vm h ≡ contains (vm_ids h.processes) vm
unfolding vm_is_alive alive_by find_orphan_fc_pid pid_alive
vm_is_alive-contains vm h t = elim (Option-cases (get vm h.fc_pids)) [
  | inl e ↦ rw e (found_any vm h.processes)
  | inr (n, e) ↦ rw e (alive_any n vm h.processes (t.known n e))
]
