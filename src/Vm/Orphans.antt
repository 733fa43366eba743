-- ===== src/Vm/Orphans.antt =====
-- orchestrator/services/smolvm.py: `cleanup_orphaned_vms`, at the start of the orchestrator.
--
-- The working directories of builds, which it also removes, are no part of the host here.
pub mod Laws
use hack_bento.Base.{
  Bool, true, false, not, ◌&&◌, List, [], ◌∷◌, Option, none, some, Text, if◌then◌else◌, where_is,
  map,
}
use hack_bento.Model.{Environment, EnvStatus, Db, is_occupying}
use hack_bento.Watchdog.{set_status, vm_of}
use hack_bento.Host.{Host, Answers, Exit, forget}
use hack_bento.Host.Network.{cleanup_orphaned_antispoof}
use hack_bento.Host.Processes.{find_orphan_fc_pid, terminate_pid, cleanup_stale_vm_cgroups}
use hack_bento.Vm.{remove_leftovers}

-- What the host answers in the clean-up: for the calls about each VM, and for the two sweeps.
pub record SweepAnswers : Type 0 where
  pub about : Text → Answers
  pub general : Answers
  pub leaf_stays : Text → Bool
  pub lists_tables : Exit
  pub deletes_table : Text → Exit

-- The process of a VM that a former orchestrator has started.
unfoldable pub end_orphan : Answers → Text → Host → Host
end_orphan ans vm h =
    let h1 = terminate_pid ans (find_orphan_fc_pid vm h) h in
    record h1 { fc_pids = forget vm h1.fc_pids }

unfoldable pub clean_vm : (Text → Answers) → Option Text → Host → Bool × Host
unfolding end_orphan
clean_vm about none h = (true, h)
clean_vm about (some vm) h = remove_leftovers (about vm) vm (end_orphan (about vm) vm h)

-- The loop over the rows; `false`: `delete_tap` has raised.
unfoldable pub clean_rows : (Text → Answers) → List Environment → Host → Bool × Host
unfolding clean_vm
clean_rows about [] h = (true, h)
clean_rows about (e ∷ rows) h =
    let (fine, h') = clean_vm about (vm_of e) h in
    if fine then clean_rows about rows h' else (false, h')

-- The rows of the query.
abbrev pub stale_rows : Db → List Environment
stale_rows db = where_is (λ e. is_occupying e.status) db.environments

abbrev pub stopped_if_stale : Environment → Environment
stopped_if_stale e = if is_occupying e.status then set_status EnvStatus.stopped e else e

-- The commit, which an exception before it skips.
unfoldable pub commit_stopped : Bool → Db → Db
commit_stopped fine db =
    if fine then record db { environments = map stopped_if_stale db.environments } else db

-- The two sweeps that come first; `false`: the second has raised. No VM counts as active.
unfoldable pub sweep : SweepAnswers → Host → Bool × Host
sweep ans h =
    cleanup_orphaned_antispoof ans.lists_tables ans.deletes_table []
      (cleanup_stale_vm_cgroups ans.general ans.leaf_stays h)

unfoldable pub after_sweep : (Text → Answers) → Db → Bool × Host → Db × Host
unfolding clean_rows commit_stopped
after_sweep about db (false, h) = (db, h)
after_sweep about db (true, h) =
    let (fine, h') = clean_rows about (stale_rows db) h in (commit_stopped fine db, h')

-- `cleanup_orphaned_vms`; an exception of the sweeps ends it before the rows are read.
unfoldable pub cleanup_orphaned_vms : SweepAnswers → Db → Host → Db × Host
unfolding after_sweep sweep
cleanup_orphaned_vms ans db h = after_sweep ans.about db (sweep ans h)
