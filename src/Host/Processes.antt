-- ===== src/Host/Processes.antt =====
-- orchestrator/services/smolvm.py: the Firecracker processes, how they are found and ended.
use hack_bento.Base.{
  ℕ, Bool, false, not, ◌&&◌, List, Option, none, some, Text, text_eq, if◌then◌else◌, ◌==◌, any,
  where_is, find_first, map, is_some,
}
use hack_bento.Host.{Host, Process, Answers, Call, Resource, has, get}
use hack_bento.Host.Disk.{in_leaf}

-- `_pid_alive`
unfoldable pub pid_alive : ℕ → Host → Bool
pid_alive pid h = any (λ (p : Process). p.pid == pid) h.processes

abbrev pub pid_of : Option Process → Option ℕ
pid_of none = none
pid_of (some p) = some p.pid

-- `_find_orphan_fc_pid`
unfoldable pub find_orphan_fc_pid : Text → Host → Option ℕ
find_orphan_fc_pid vm h = pid_of (find_first (λ (p : Process). text_eq p.vm vm) h.processes)

unfoldable pub alive_by : Host → Text → Option ℕ → Bool
unfolding pid_alive find_orphan_fc_pid
alive_by h vm (some pid) = pid_alive pid h
alive_by h vm none = is_some (find_orphan_fc_pid vm h)

-- `vm_is_alive`
unfoldable pub vm_is_alive : Text → Host → Bool
unfolding alive_by
vm_is_alive vm h = alive_by h vm (get vm h.fc_pids)

-- A process that has ended.
abbrev pub end_pid : ℕ → Host → Host
end_pid pid h = record h { processes = where_is (λ (p : Process). not (p.pid == pid)) h.processes }

-- SIGTERM and the time of grace, then SIGKILL.
unfoldable pub signal_twice : Answers → ℕ → Host → Host
unfolding pid_alive
signal_twice ans pid h =
    let h1 = if not (ans.raises Call.send_term) && ans.exits_on_term then end_pid pid h else h in
    if pid_alive pid h1 && not (ans.raises Call.send_kill) then end_pid pid h1 else h1

-- `_terminate_pid`
unfoldable pub terminate_pid : Answers → Option ℕ → Host → Host
unfolding pid_alive signal_twice
terminate_pid ans none h = h
terminate_pid ans (some pid) h = if pid_alive pid h then signal_twice ans pid h else h

unfoldable pub moved : ℕ → Text → Process → Process
moved pid vm p = if p.pid == pid then record p { leaf = some vm } else p

-- `_attach_pid_to_cgroup`
unfoldable pub attach_pid_to_cgroup : Answers → Text → ℕ → Host → Host
unfolding moved
attach_pid_to_cgroup ans vm pid h =
    if has (Resource.cgroup none vm) h.held && not (ans.raises Call.attach)
    then record h { processes = map (moved pid vm) h.processes }
    else h

-- The leaves that `_cleanup_stale_vm_cgroups` removes; `stays` says for which `rmdir` fails.
is_empty_leaf : List Process → (Text → Bool) → Resource → Bool
is_empty_leaf ps stays (Resource.cgroup _ n) =
    not (any (λ (p : Process). in_leaf n p.leaf) ps) && not (stays n)
is_empty_leaf ps stays _ = false

-- `_cleanup_stale_vm_cgroups`
unfoldable pub cleanup_stale_vm_cgroups : Answers → (Text → Bool) → Host → Host
unfolding is_empty_leaf
cleanup_stale_vm_cgroups ans stays h =
    if ans.has_cgroup_root
    then record h { held = where_is (λ r. not (is_empty_leaf h.processes stays r)) h.held }
    else h
