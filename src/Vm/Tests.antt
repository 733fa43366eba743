-- ===== src/Vm/Tests.antt =====
-- Runs of `start_vm` and `stop_vm`, and of `cleanup_orphaned_vms`.
use hack_bento.Base.{
  ◌≡◌, refl, ℕ, Bool, true, false, List, [], ◌∷◌, none, some, Text, codes, split_on, contains,
  subst, All,
}
use hack_bento.Model.{Db, EnvStatus, is_occupying}
use hack_bento.Numeral.{int_of, str, format_02x}
use hack_bento.Address.{ip_to_mac, ip_int, ip_str}
use hack_bento.Pool.{validate_ip, ip_pool, range_from}
use hack_bento.Host.{
  Host, Answers, Call, Content, Exit, get, Injection, Resource, tap_name, nft_table_name,
}
use hack_bento.Host.Disk.{prepare_writable_rootfs, in_leaf}
use hack_bento.Host.Network.{create_tap}
use hack_bento.Host.Disk.Copies.{IsCopied, prepare-IsCopied}
use hack_bento.Host.Processes.{vm_is_alive, find_orphan_fc_pid}
use hack_bento.Vm.{boot_args}
use hack_bento.Vm.{
  VmSpec, Request, boot_args, start_firecracker, stop_firecracker, stop_vm, launch, end_start,
}
use hack_bento.Vm.Undo.{UndoWorks, IsPidOf}
use hack_bento.Vm.Raised.{IsUnused, IsRestored}
use hack_bento.Vm.Restored.{start_firecracker-IsRestored}
use hack_bento.Vm.Running.{requests, IsStarted, start_firecracker-IsStarted}
use hack_bento.Vm.Ended.{IsTracked}
use hack_bento.Vm.Stopped.{vm_ids, stop_vm-refines, vm_is_alive-contains}
use hack_bento.Vm.Removed.{StopWorks}
use hack_bento.Vm.Roundtrip.{IsReset, stop_firecracker-start_firecracker}
use hack_bento.Vm.Orphans.{SweepAnswers, stale_rows, cleanup_orphaned_vms}
use hack_bento.Vm.Orphans.Laws.{TapEnds, unlisted, vms_of, cleanup_orphaned_vms-ends}
use hack_bento.Watchdog
use hack_bento.Samples.{cfg, booked, with_envs}

abbrev spec : VmSpec
spec = record {
  kernel_path = codes "k";
  ip = codes "10.0.0.254";
  cpu = 1;
  memory_mb = 512;
  extra_boot_args = some (codes "nokaslr");
  fc_guest_gateway = codes "10.0.0.1";
  guest_netmask = codes "255.255.240.0";
  vm_pids_limit = 100;
}

-- Nothing goes wrong.
abbrev fine : Answers
fine = record {
  command = λ c. Exit.done;
  raises = λ c. false;
  kernel_there = true;
  rootfs_there = true;
  kvm_there = true;
  size = some 1000;
  free = none;
  leaves_part = false;
  injection = Injection.written;
  has_cgroup_root = true;
  new_pid = 7;
  makes_socket = true;
  makes_log = true;
  shuts_down = false;
  exits_on_term = true;
}

abbrev vm : Text
vm = codes "1a2b3c4d-55"

abbrev other_vm : Text
other_vm = codes "9f8e7d6c-77"

-- A host on which another VM runs.
abbrev busy_host : Host
busy_host = record {
  held =
      Resource.rootfs_copy Content.injected other_vm
      ∷ Resource.tap (codes "tap-9f8e7d6c")
      ∷ Resource.cgroup none other_vm
      ∷ [];
  processes = record { pid = 5; vm = other_vm; leaf = some other_vm } ∷ [];
  fc_pids = (other_vm, 5) ∷ [];
  fc_rootfs_paths = (other_vm, Resource.rootfs_copy Content.clean other_vm) ∷ [];
}

abbrev is_machine_config : Call → Bool
is_machine_config Call.put_machine_config = true
is_machine_config _ = false

-- Firecracker refuses the machine configuration.
abbrev refused : Answers
refused = record fine { raises = is_machine_config }

refused_raises : (start_firecracker refused cfg vm spec busy_host).0 ≡ none
unfolding start_firecracker validate_ip ip_pool range_from ip_int ip_str int_of str
    prepare_writable_rootfs create_tap launch end_start ip_to_mac split_on tap_name
refused_raises = refl

unused : (raises : Call → Bool) → IsUnused (record fine { raises = raises }) vm busy_host
unfolding in_leaf tap_name nft_table_name
unused raises = record {
  copy = refl;
  tmp = refl;
  socket = refl;
  leaf = refl;
  alone = λ e. refl;
  no_pid = (refl, tt);
  no_path = (refl, tt);
  new_pid = refl;
  no_process = (refl, tt);
  empty = refl;
}

undo_works : UndoWorks refused
undo_works = record {
  drop_tmp = refl;
  drop_copy = refl;
  remove_socket = refl;
  kill = refl;
  remove_cgroup = refl;
  undo_cgroup = refl;
  nft_delete = refl;
  link_delete = refl;
}

start_firecracker-IsRestored_example :
    IsRestored vm busy_host (start_firecracker refused cfg vm spec busy_host).1
start_firecracker-IsRestored_example =
    start_firecracker-IsRestored refused cfg vm spec undo_works busy_host (unused is_machine_config)
      refused_raises

abbrev sent : List Request
sent = requests vm spec (codes "06:00:0a:00:00:fe")

fine_returns : (start_firecracker fine cfg vm spec busy_host).0 ≡ some sent
unfolding start_firecracker validate_ip ip_pool range_from ip_int ip_str int_of str
    prepare_writable_rootfs create_tap launch end_start ip_to_mac split_on tap_name boot_args
    format_02x
fine_returns = refl

start_firecracker-IsStarted_example :
    (validate_ip cfg spec.ip ≡ true)
    × IsStarted fine cfg vm spec busy_host sent (start_firecracker fine cfg vm spec busy_host).1
start_firecracker-IsStarted_example =
    start_firecracker-IsStarted fine cfg vm spec busy_host sent fine_returns

-- The guest does not obey, the process ignores SIGTERM, and the API cannot be called.
abbrev is_ctrl_alt_del : Call → Bool
is_ctrl_alt_del Call.send_ctrl_alt_del = true
is_ctrl_alt_del _ = false

abbrev stubborn : Answers
stubborn = record fine { raises = is_ctrl_alt_del; exits_on_term = false }

stop_works : StopWorks stubborn
stop_works = record {
  send_kill = refl;
  drop_copy = refl;
  remove_socket = refl;
  remove_log = refl;
  remove_cgroup = refl;
  nft_delete = refl;
  link_delete = refl;
}

stop_firecracker-start_firecracker_example :
    IsReset busy_host
      (stop_firecracker stubborn vm (start_firecracker fine cfg vm spec busy_host).1).1
stop_firecracker-start_firecracker_example =
    stop_firecracker-start_firecracker fine cfg vm spec stubborn busy_host sent stop_works
      (unused (λ c. false)) refl fine_returns

known_pid : (pid : ℕ) → some 5 ≡ some pid → 5 ≡ pid
known_pid pid e = cc

tracked : IsTracked other_vm busy_host
unfolding find_orphan_fc_pid
tracked = record {
  known = λ pid e.
      subst (λ (n : ℕ). IsPidOf n other_vm busy_host.processes) (known_pid pid e) (refl, tt);
  found = λ pid e.
      subst (λ (n : ℕ). IsPidOf n other_vm busy_host.processes) (known_pid pid e) (refl, tt);
}

stop_vm-refines_example :
    vm_ids (stop_vm stubborn other_vm busy_host).1.processes
    ≡ Watchdog.stop_vm other_vm (other_vm ∷ [])
stop_vm-refines_example = stop_vm-refines stubborn other_vm busy_host refl tracked

vm_is_alive-contains_example : vm_is_alive other_vm busy_host ≡ contains (other_vm ∷ []) other_vm
vm_is_alive-contains_example = vm_is_alive-contains other_vm busy_host tracked

-- debugfs hangs.
abbrev hung : Answers
hung = record fine { injection = Injection.failed }

hung_copied : (prepare_writable_rootfs hung vm busy_host).0 ≡ true
unfolding prepare_writable_rootfs
hung_copied = refl

prepare-IsCopied_example :
    IsCopied vm Content.clean (prepare_writable_rootfs hung vm busy_host).1
    × (get vm (prepare_writable_rootfs hung vm busy_host).1.fc_rootfs_paths
        ≡ some (Resource.rootfs_copy Content.clean vm))
prepare-IsCopied_example = prepare-IsCopied hung vm busy_host hung_copied

abbrev sweeping : SweepAnswers
sweeping = record {
  about = λ t. stubborn;
  general = fine;
  leaf_stays = λ t. false;
  lists_tables = Exit.done;
  deletes_table = λ t. Exit.done;
}

-- A row that a former orchestrator has left in `stopping`.
abbrev left_behind : Db
left_behind = with_envs (
    record (booked 1 (codes "10.0.0.2")) { vm_id = some other_vm; status = EnvStatus.stopping }
    ∷ [])

ends : (t : Text) → TapEnds stubborn
ends t = record { nft = λ e. cc; link = λ e. cc }

cleanup_orphaned_vms-ends_example :
    All
      (λ e. is_occupying e.status ≡ false)
      (cleanup_orphaned_vms sweeping left_behind busy_host).0.environments
    × (vm_ids (cleanup_orphaned_vms sweeping left_behind busy_host).1.processes
        ≡ unlisted (vms_of (stale_rows left_behind)) (vm_ids busy_host.processes))
cleanup_orphaned_vms-ends_example =
    cleanup_orphaned_vms-ends sweeping left_behind busy_host (λ t. refl) ends (λ e. cc) (λ t e. cc)
      ((refl, tt), tt)

abbrev greedy : VmSpec
greedy = record spec { extra_boot_args = some (codes "init=/x nokaslr rootwait") }
