-- ===== src/Host.antt =====
-- The host of the virtual machines, as orchestrator/services/smolvm.py and
-- orchestrator/services/network.py leave it: files, devices, tables, control groups and processes,
-- with the maps `_fc_pids` and `_fc_rootfs_paths` that the orchestrator keeps in memory.
--
-- What the operating system and Firecracker answer to one call of the code is an argument.
pub mod Sets
pub mod Quiet
pub mod Disk
pub mod Network
pub mod Processes
use hack_bento.Base.{
  ℕ, zero, suc, Bool, true, false, not, ◌&&◌, List, [], ◌∷◌, ◌++◌, Option, none, some, Text, codes,
  text_eq, if◌then◌else◌, ◌==◌, any, where_is, find_first,
}
use hack_bento.Names.{take}

-- What the rootfs copy of a VM holds: the bytes of the image, those with the `resolv.conf` that
-- was injected, or what an injection that failed has left.
pub data Content : Type 0 where
  clean injected torn : Content

-- The files of a control group that `_create_vm_cgroup` writes.
pub record Limits : Type 0 where
  pub memory_max : ℕ
  pub pids_max : ℕ
  pub cpu_quota : ℕ
  pub cpu_period : ℕ

-- What can exist on the host, by the part of its path or name that differs between VMs. A table
-- of nft has its name, and the TAP device, MAC and IP address of its rules.
pub data Resource : Type 0 where
  rootfs_copy : Content → Text → Resource
  rootfs_tmp : Text → Resource
  old_copy : Text → Resource
  socket : Text → Resource
  log : Text → Resource
  tap : Text → Resource
  table : Text → Text → Text → Text → Resource
  cgroup : Option Limits → Text → Resource

abbrev pub tag : Resource → ℕ
tag (rootfs_copy _ _) = 0
tag (rootfs_tmp _) = 1
tag (old_copy _) = 2
tag (socket _) = 3
tag (log _) = 4
tag (tap _) = 5
tag (table _ _ _ _) = 6
tag (cgroup _ _) = 7

abbrev pub name : Resource → Text
name (rootfs_copy _ n) = n
name (rootfs_tmp n) = n
name (old_copy n) = n
name (socket n) = n
name (log n) = n
name (tap n) = n
name (table n _ _ _) = n
name (cgroup _ n) = n

-- The two have the same path or name.
abbrev pub same : Resource → Resource → Bool
same r s = tag r == tag s && text_eq (name r) (name s)

abbrev pub has : Resource → List Resource → Bool
has r xs = any (same r) xs

-- The one of that path or name, with what it holds.
abbrev pub held_as : Resource → List Resource → Option Resource
held_as r xs = find_first (same r) xs

abbrev pub without : Resource → List Resource → List Resource
without r xs = where_is (λ s. not (same s r)) xs

-- A Firecracker process: its PID, the VM of its `--api-sock`, and the leaf control group it is in.
pub record Process : Type 0 where
  pub pid : ℕ
  pub vm : Text
  pub leaf : Option Text

pub record Host : Type 0 where
  pub held : List Resource
  pub processes : List Process
  pub fc_pids : List (Text × ℕ)
  pub fc_rootfs_paths : List (Text × Resource)

abbrev pub place : Resource → Host → Host
place r h = record h { held = r ∷ without r h.held }

abbrev pub drop : Resource → Host → Host
drop r h = record h { held = without r h.held }

module _ {ℓ} {V : Type ℓ} where
  -- `d.pop(key, None)`: what is left, and what was there.
  abbrev pub forget : Text → List (Text × V) → List (Text × V)
  forget key d = where_is (λ e. not (text_eq e.0 key)) d

  abbrev pub entry : Option (Text × V) → Option V
  entry none = none
  entry (some e) = some e.1

  -- `d.get(key)`
  abbrev pub get : Text → List (Text × V) → Option V
  get key d = entry (find_first (λ e. text_eq e.0 key) d)

  -- `d[key] = value`
  abbrev pub assign : Text → V → List (Text × V) → List (Text × V)
  assign key value d = (key, value) ∷ forget key d

-- How a command of `_run` ends; `raised`: it cannot be run, or does not end in time. A command
-- that does not end with `done` has no effect.
pub data Exit : Type 0 where
  done nonzero raised : Exit

pub data Command : Type 0 where
  tuntap_add set_master set_up nft_load nft_delete link_delete : Command

-- The calls that can raise, by the place they have in the code.
pub data Call : Type 0 where
  make_copy_dir clear_tmp clear_copy copy move : Call
  clear_tmp_again copy_again move_again drop_tmp drop_copy drop_old : Call
  make_cgroup set_limits undo_cgroup attach remove_cgroup : Call
  make_socket_dir spawn wait_socket put_boot_source put_drive put_network put_machine_config : Call
  start_instance send_ctrl_alt_del remove_socket remove_log kill send_term send_kill : Call

-- `_write_resolv_conf`: it writes, it skips (no name server, no debugfs), or it raises.
pub data Injection : Type 0 where
  written skipped failed : Injection

-- What the host answers: how commands end and which calls raise; whether the files of the image
-- and /dev/kvm are there; the size of the rootfs and the free bytes (`none`: `OSError`); whether a
-- failed copy leaves a part; whether there is a delegated cgroup tree; the PID of a new process
-- and whether it makes its socket and its log; whether a guest obeys SendCtrlAltDel and a process
-- exits on SIGTERM in the time of grace.
pub record Answers : Type 0 where
  pub command : Command → Exit
  pub raises : Call → Bool
  pub kernel_there : Bool
  pub rootfs_there : Bool
  pub kvm_there : Bool
  pub size : Option ℕ
  pub free : Option ℕ
  pub leaves_part : Bool
  pub injection : Injection
  pub has_cgroup_root : Bool
  pub new_pid : ℕ
  pub makes_socket : Bool
  pub makes_log : Bool
  pub shuts_down : Bool
  pub exits_on_term : Bool

-- `vm_id[:8]`
unfoldable pub short : Text → Text
unfolding take
short vm = take 8 vm

-- `tap_name` and `_nft_table_name`
unfoldable pub tap_name : Text → Text
unfolding short
tap_name vm = codes "tap-" ++ short vm

unfoldable pub nft_table_name : Text → Text
unfolding short
nft_table_name vm = codes "hb_" ++ short vm

-- The statements of a `try` block in order, up to the first that raises; `false`: it has raised.
unfoldable pub attempt {ℓ} : {S : Type ℓ} → List (S → Bool × S) → S → Bool × S
attempt [] s = (true, s)
attempt (step ∷ steps) s = let (fine, s') = step s in if fine then attempt steps s' else (false, s')

-- `if os.path.exists(p): os.remove(p)`
abbrev pub remove_if_there : Answers → Call → Resource → Host → Bool × Host
remove_if_there ans call r h =
    if has r h.held then if ans.raises call then (false, h) else (true, drop r h) else (true, h)
