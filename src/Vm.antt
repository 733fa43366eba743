-- ===== src/Vm.antt =====
-- orchestrator/services/smolvm.py: the life of a virtual machine, `start_vm` and `stop_vm`, on the
-- host of Host.antt.
pub mod Arguments
pub mod Undo
pub mod Launched
pub mod Raised
pub mod Restored
pub mod Ended
pub mod Stopped
pub mod Removed
pub mod Roundtrip
pub mod Running
pub mod Orphans
pub mod Tests
use hack_bento.Base.{
  ℕ, Bool, true, false, not, ◌&&◌, List, [], ◌∷◌, ◌++◌, Option, none, some, Text, codes,
  if◌then◌else◌, where_is, text_eq,
}
use hack_bento.Model.{Settings}
use hack_bento.Address.{ip_to_mac}
use hack_bento.Pool.{validate_ip}
use hack_bento.Boot.{sanitize_extra_boot_args, blank}
use hack_bento.Host.{
  Host, Process, Answers, Call, Content, Resource, place, forget, get, assign, attempt,
  remove_if_there, tap_name, short,
}
use hack_bento.Host.Disk.{
  prepare_writable_rootfs, cleanup_writable_rootfs, create_vm_cgroup, remove_vm_cgroup,
}
use hack_bento.Host.Network.{create_tap, delete_tap}
use hack_bento.Host.Processes.{
  end_pid, pid_alive, find_orphan_fc_pid, terminate_pid, attach_pid_to_cgroup,
}

-- The arguments of `_start_firecracker`, the settings that it reads and the netmask of the bridge.
pub record VmSpec : Type 0 where
  pub kernel_path : Text
  pub ip : Text
  pub cpu : ℕ
  pub memory_mb : ℕ
  pub extra_boot_args : Option Text
  pub fc_guest_gateway : Text
  pub guest_netmask : Text
  pub vm_pids_limit : ℕ

-- The bodies of the requests to the API of Firecracker. The drive is the rootfs copy of the VM.
pub data Request : Type 0 where
  boot_source : Text → Text → Request
  root_drive : Text → Request
  network_interface : Text → Text → Request
  machine_config : ℕ → ℕ → Request
  instance_start : Request

-- The host and the variables of `_start_firecracker`, with the requests that were sent.
pub record Start : Type 0 where
  pub host : Host
  pub tap : Option Text
  pub fc_proc : Option ℕ
  pub sent : List Request

unfoldable pub with_extra : Text → Text → Text
with_extra args [] = args
with_extra args (c ∷ extra) = args ++ (blank ∷ c ∷ extra)

-- `boot_args`
unfoldable pub boot_args : VmSpec → Text
unfolding with_extra
boot_args spec =
    with_extra
      (codes "console=ttyS0 reboot=k panic=1 pci=off ip="
        ++ (spec.ip
            ++ (codes "::"
                ++ (spec.fc_guest_gateway
                    ++ (codes ":" ++ (spec.guest_netmask ++ codes "::eth0:off rw"))))))
      (sanitize_extra_boot_args spec.extra_boot_args)

unfoldable pub assign_tap : Text → Start → Bool × Host → Bool × Start
assign_tap vm s (fine, h) =
    if fine
    then (true, record s { host = h; tap = some (tap_name vm) })
    else (false, record s { host = h })

make_tap : Answers → Text → VmSpec → Start → Bool × Start
unfolding assign_tap
make_tap ans vm spec s = assign_tap vm s (create_tap ans vm spec.ip s.host)

make_leaf : Answers → Text → VmSpec → Start → Bool × Start
make_leaf ans vm spec s = (
  true,
  record s { host = create_vm_cgroup ans spec.vm_pids_limit vm spec.cpu spec.memory_mb s.host },
)

abbrev pub place_if : Bool → Resource → Host → Host
place_if b r h = if b then place r h else h

-- The new process is in the control group of the orchestrator.
abbrev pub begin_process : Answers → Text → Host → Host
begin_process ans vm h = place_if ans.makes_socket (Resource.socket vm) (
    place_if ans.makes_log (Resource.log (short vm))
      (record h { processes = record { pid = ans.new_pid; vm = vm; leaf = none } ∷ h.processes }))

spawn : Answers → Text → Start → Bool × Start
spawn ans vm s =
    if ans.raises Call.spawn
    then (false, s)
    else (true, record s { host = begin_process ans vm s.host; fc_proc = some ans.new_pid })

-- `_fc_pids[vm_id] = fc_proc.pid`
record_pid : Answers → Text → Start → Bool × Start
record_pid ans vm s = (
  true,
  record s {
    host =
        attach_pid_to_cgroup ans vm ans.new_pid
          (record s.host { fc_pids = assign vm ans.new_pid s.host.fc_pids });
  },
)

-- A call that changes nothing on the host.
wait_for : Answers → Call → Start → Bool × Start
wait_for ans call s = (not (ans.raises call), s)

put : Answers → Call → Request → Start → Bool × Start
put ans call body s =
    if ans.raises call then (false, s) else (true, record s { sent = s.sent ++ (body ∷ []) })

abbrev pub or_empty : Option Text → Text
or_empty none = []
or_empty (some t) = t

put_mac : Answers → Option Text → Start → Bool × Start
unfolding put
put_mac ans none s = (false, s)
put_mac ans (some mac) s =
    put ans Call.put_network (Request.network_interface mac (or_empty s.tap)) s

put_interface : Answers → VmSpec → Start → Bool × Start
unfolding put_mac
put_interface ans spec s = put_mac ans (ip_to_mac spec.ip) s

-- The `try` block of `_start_firecracker` behind the call of `create_tap`.
abbrev after_tap : Answers → Text → VmSpec → List (Start → Bool × Start)
after_tap ans vm spec =
    make_leaf ans vm spec
    ∷ spawn ans vm
    ∷ record_pid ans vm
    ∷ wait_for ans Call.wait_socket
    ∷ put ans Call.put_boot_source (Request.boot_source spec.kernel_path (boot_args spec))
    ∷ put ans Call.put_drive (Request.root_drive vm)
    ∷ put_interface ans spec
    ∷ put ans Call.put_machine_config (Request.machine_config spec.cpu spec.memory_mb)
    ∷ put ans Call.start_instance Request.instance_start
    ∷ []

-- The `try` block of `_start_firecracker`.
unfoldable pub launch : Answers → Text → VmSpec → Start → Bool × Start
unfolding attempt make_tap make_leaf spawn record_pid wait_for put_interface put
launch ans vm spec = attempt (make_tap ans vm spec ∷ after_tap ans vm spec)

-- `fc_proc.kill()` and `fc_proc.wait()`
abbrev pub kill_proc : Answers → Option ℕ → Host → Host
kill_proc ans none h = h
kill_proc ans (some pid) h = if ans.raises Call.kill then h else end_pid pid h

abbrev pub kill_recorded : Answers → Option ℕ → Host → Host
kill_recorded ans none h = h
kill_recorded ans (some pid) h =
    if pid_alive pid h && not (ans.raises Call.send_kill) then end_pid pid h else h

abbrev pub delete_tap_if : Answers → Text → Option Text → Host → Host
delete_tap_if ans vm none h = h
delete_tap_if ans vm (some dev) h = (delete_tap ans vm h).1

-- The first part of the `except` block: the socket and the process.
unfoldable pub killed : Answers → Text → Start → Host
killed ans vm s =
    let h1 = record s.host { fc_pids = forget vm s.host.fc_pids } in
    let h2 = (remove_if_there ans Call.remove_socket (Resource.socket vm) h1).1 in
    kill_recorded ans (get vm s.host.fc_pids) (kill_proc ans s.fc_proc h2)

-- The `except` block; it raises in each case.
unfoldable pub clean_up : Answers → Text → Start → Host
unfolding killed
clean_up ans vm s =
    delete_tap_if ans vm s.tap
      (cleanup_writable_rootfs ans vm (remove_vm_cgroup ans vm (killed ans vm s)))

-- What `_start_firecracker` returns, or that it raises, with the host after it.
unfoldable pub end_start : Answers → Text → Bool × Start → Option (List Request) × Host
unfolding clean_up
end_start ans vm (fine, s) = if fine then (some s.sent, s.host) else (none, clean_up ans vm s)

enter : Answers → Text → VmSpec → Bool × Host → Option (List Request) × Host
unfolding launch end_start
enter ans vm spec (fine, h) =
    if fine
    then end_start ans vm
        (launch ans vm spec (record { host = h; tap = none; fc_proc = none; sent = [] }))
    else (none, h)

-- `_start_firecracker`, with the new `vm_id` as an argument.
unfoldable pub start_firecracker :
    Answers → Settings → Text → VmSpec → Host → Option (List Request) × Host
unfolding enter
start_firecracker ans cfg vm spec h =
    if validate_ip cfg spec.ip
      && (ans.kernel_there
          && (ans.rootfs_there && (ans.kvm_there && not (ans.raises Call.make_socket_dir))))
    then enter ans vm spec (prepare_writable_rootfs ans vm h)
    else (none, h)

-- The processes of the other VMs.
abbrev pub others : Text → List Process → List Process
others vm ps = where_is (λ (p : Process). not (text_eq p.vm vm)) ps

-- SendCtrlAltDel; a guest that obeys ends its process.
unfoldable pub shut_down : Answers → Text → Host → Host
shut_down ans vm h =
    if not (ans.raises Call.send_ctrl_alt_del) && ans.shuts_down
    then record h { processes = others vm h.processes }
    else h

-- The PID in `_fc_pids`, or else the one that /proc shows.
abbrev pub pid_or_found : Host → Text → Option ℕ → Option ℕ
pid_or_found h vm (some pid) = some pid
pid_or_found h vm none = find_orphan_fc_pid vm h

-- `_terminate_pid` with the PID that `_stop_firecracker` finds.
unfoldable pub end_vm : Answers → Text → Host → Host
end_vm ans vm h =
    let h1 = record h { fc_pids = forget vm h.fc_pids } in
    terminate_pid ans (pid_or_found h1 vm (get vm h.fc_pids)) h1

-- What `_stop_firecracker` and `cleanup_orphaned_vms` remove after the process.
unfoldable pub remove_leftovers : Answers → Text → Host → Bool × Host
remove_leftovers ans vm h =
    let h1 = cleanup_writable_rootfs ans vm (remove_vm_cgroup ans vm h) in
    let h2 = (remove_if_there ans Call.remove_socket (Resource.socket vm) h1).1 in
    let h3 = (remove_if_there ans Call.remove_log (Resource.log (short vm)) h2).1 in
    delete_tap ans vm h3

-- `_stop_firecracker`; `false`: it raises, which only its last call can.
unfoldable pub stop_firecracker : Answers → Text → Host → Bool × Host
unfolding shut_down end_vm remove_leftovers
stop_firecracker ans vm h = remove_leftovers ans vm (end_vm ans vm (shut_down ans vm h))

-- `stop_vm`
unfoldable pub stop_vm : Answers → Text → Host → Bool × Host
unfolding stop_firecracker
stop_vm ans vm h = stop_firecracker ans vm h
