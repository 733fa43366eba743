-- ===== src/Vm/Roundtrip.antt =====
-- orchestrator/services/smolvm.py: `_start_firecracker` and then `_stop_firecracker`.
use hack_bento.Base.{
  ◌≡◌, refl, arith, ap, sym, subst, ◌∙◌, ℕ, Bool, true, false, not, ◌&&◌, List, [], ◌∷◌, none, some,
  Text, text_eq, Bool-cases, inl, inr, ◌⊎◌, any, find_first,
}
use hack_bento.Model.{Settings}
use hack_bento.Pool.{validate_ip}
use hack_bento.Host.{
  Host, Answers, Call, Content, Resource, Process, same, held_as, forget, get, attempt, tap_name,
  nft_table_name, short,
}
use hack_bento.Host.Sets.{held_as-same, forget_unused}
use hack_bento.Host.Quiet.{IsQuiet}
use hack_bento.Host.Disk.{prepare_writable_rootfs, in_leaf}
use hack_bento.Host.Disk.Laws.{prepare-IsQuiet}
use hack_bento.Host.Disk.Copies.{IsCopied, prepare-IsCopied}
use hack_bento.Host.Network.Laws.{create_tap-IsQuiet}
use hack_bento.Host.Network.Ends.{create_tap-ok, create_tap-paths}
use hack_bento.Host.Processes.{find_orphan_fc_pid, pid_of}
use hack_bento.Vm.{
  VmSpec, Request, Start, others, make_tap, assign_tap, launch, end_start, enter, start_firecracker,
  shut_down, end_vm, remove_leftovers, stop_firecracker,
}
use hack_bento.Vm.Undo.{IsPidOf}
use hack_bento.Vm.Launched.{IsKept, IsMine}
use hack_bento.Vm.Raised.{
  IsUnused, IsPrepared, tap_call, raised_at, resumed, kept, untouched-IsKept, processes_at_tap,
  pids_at_tap, before_try, tap_after,
}
use hack_bento.Vm.Ended.{IsTracked, ended-processes, ended-rest, without_pid}
use hack_bento.Vm.Stopped.{remove_leftovers-processes}
use hack_bento.Vm.Removed.{
  StopWorks, others_leave, leftovers_other, leftovers_leaf, leftovers_copy, leftovers_socket,
  leftovers_log, leftovers_tap, leftovers_paths,
}

-- Everything is as it was, with what it holds.
pub record IsReset (h h' : Host) : Type 0 where
  pub resources : (r : Resource) → held_as r h'.held ≡ held_as r h.held
  pub processes : h'.processes ≡ h.processes
  pub fc_pids : h'.fc_pids ≡ h.fc_pids
  pub fc_rootfs_paths : h'.fc_rootfs_paths ≡ h.fc_rootfs_paths

pid_of_found :
    (new : ℕ) (vm : Text) (ps : List Process) (pid : ℕ)
    → IsPidOf new vm ps
    → pid_of (find_first (λ (p : Process). text_eq p.vm vm) ps) ≡ some pid
    → new ≡ pid
pid_of_found new vm [] pid a e = cc
pid_of_found new vm (p ∷ ps) pid a e = elim (Bool-cases (text_eq p.vm vm)) [
  | inl own ↦ ground (arith, a.0)
  | inr other ↦ pid_of_found new vm ps pid a.1 (rw other at e)
]

mine-IsTracked :
    (new : ℕ) (vm : Text) (h : Host)
    → IsMine new vm h.processes
    → (get vm h.fc_pids ≡ none) ⊎ (get vm h.fc_pids ≡ some new)
    → IsTracked vm h
unfolding find_orphan_fc_pid
mine-IsTracked new vm h m cases = record {
  known = λ pid e. subst (λ (n : ℕ). IsPidOf n vm h.processes) (same_pid pid e cases) m.agree;
  found = λ pid e.
      subst (λ (n : ℕ). IsPidOf n vm h.processes) (pid_of_found new vm h.processes pid m.agree e)
        m.agree;
}
  where
    same_pid :
        (pid : ℕ)
        → get vm h.fc_pids ≡ some pid
        → (get vm h.fc_pids ≡ none) ⊎ (get vm h.fc_pids ≡ some new)
        → new ≡ pid
    same_pid pid e (inl c) = cc
    same_pid pid e (inr c) = cc

module _ (ans : Answers) (vm : Text) (spec : VmSpec) (stopping : Answers)
    (works : StopWorks stopping) (h g : Host) (unused : IsUnused ans vm h)
    (unlogged : held_as (Resource.log (short vm)) h.held ≡ none) (prepared : IsPrepared vm h g)
    (tapped : (tap_call ans vm spec g).0 ≡ true) where
  abbrev running : Host
  running = (raised_at ans vm spec g).host

  abbrev ended : Host
  ended = end_vm stopping vm (shut_down stopping vm running)

  abbrev after : Host
  after = (remove_leftovers stopping vm ended).1

  any-IsKept :
      IsKept ans vm
        (Resource.old_copy [])
        (tap_call ans vm spec g).1
        (tap_after vm (tap_call ans vm spec g).0)
        (raised_at ans vm spec g)
  any-IsKept = untouched-IsKept ans vm spec h g unused prepared

  tracked : IsTracked vm running
  tracked = mine-IsTracked ans.new_pid vm running any-IsKept.mine any-IsKept.own.pid_cases

  ended_processes : ended.processes ≡ others vm running.processes
  ended_processes = ended-processes stopping vm running works.send_kill tracked

  processes_reset : after.processes ≡ h.processes
  processes_reset =
      remove_leftovers-processes stopping vm ended
      ∙ (ended_processes
          ∙ (sym (without_pid ans.new_pid vm running.processes any-IsKept.mine.agree)
              ∙ (any-IsKept.own.rest ∙ processes_at_tap ans vm spec h g unused prepared)))

  recorded : get vm ended.fc_rootfs_paths ≡ some (Resource.rootfs_copy Content.clean vm)
  recorded =
      ap (get vm) (
        (ended-rest stopping vm running).2 ∙ (any-IsKept.paths ∙ create_tap-paths ans vm spec.ip g))
      ∙ prepared.recorded

  empty : any (λ (p : Process). in_leaf vm p.leaf) ended.processes ≡ false
  empty =
      ap (any (λ (p : Process). in_leaf vm p.leaf)) ended_processes
      ∙ others_leave vm running.processes any-IsKept.mine.leaves

  untapped :
      (held_as (Resource.tap (tap_name vm)) h.held ≡ none)
      × (held_as (Resource.table (nft_table_name vm) [] [] []) h.held ≡ none)
  untapped =
      let no_tap =
        sym (IsQuiet.resource (prepared.quiet (Resource.tap (tap_name vm)) refl refl))
        ∙ create_tap-ok ans vm spec.ip g tapped in
      (no_tap, unused.alone no_tap)

  reset_as :
      (r s : Resource)
      → held_as s after.held ≡ none
      → held_as s h.held ≡ none
      → same r s ≡ true
      → held_as r after.held ≡ held_as r h.held
  reset_as r s gone none_before e =
      held_as-same r s after.held e ∙ (gone ∙ sym (held_as-same r s h.held e ∙ none_before))

  reset_running :
      (r : Resource)
      → same r (Resource.cgroup none vm) ≡ false
      → same r (Resource.rootfs_copy Content.clean vm) ≡ false
      → same r (Resource.socket vm) ≡ false
      → same r (Resource.log (short vm)) ≡ false
      → same r (Resource.tap (tap_name vm)) ≡ false
      → same r (Resource.table (nft_table_name vm) [] [] []) ≡ false
      → held_as r after.held ≡ held_as r g.held
  reset_running r leaf copy socket log tap table =
      IsQuiet.resource
        (leftovers_other stopping vm works ended recorded empty r leaf copy socket log tap table)
      ∙ (ap (held_as r) (ended-rest stopping vm running).0
          ∙ ((kept ans vm spec h g unused prepared r leaf socket log).resource
              ∙ IsQuiet.resource (create_tap-IsQuiet vm r tap table ans spec.ip g)))

  reset_tmp : held_as (Resource.rootfs_tmp vm) after.held ≡ none
  reset_tmp = reset_running (Resource.rootfs_tmp vm) refl refl refl refl refl refl ∙ prepared.no_tmp

  reset_resource : (r : Resource) → held_as r after.held ≡ held_as r h.held
  reset_resource r =
      let tap = Resource.tap (tap_name vm) in
      let table = Resource.table (nft_table_name vm) [] [] [] in
      let copy = Resource.rootfs_copy Content.clean vm in
      let tmp = Resource.rootfs_tmp vm in
      let net = leftovers_tap stopping vm works ended recorded empty in
      elim (Bool-cases (same r copy)) [
        | inl e ↦
            reset_as r copy (leftovers_copy stopping vm works ended recorded empty) unused.copy e
        | inr no_copy ↦ elim (Bool-cases (same r tmp)) [
          | inl e ↦ reset_as r tmp reset_tmp unused.tmp e
          | inr no_tmp ↦ elim (Bool-cases (same r (Resource.socket vm))) [
            | inl e ↦
                reset_as r (Resource.socket vm)
                  (leftovers_socket stopping vm works ended recorded empty) unused.socket e
            | inr no_socket ↦ elim (Bool-cases (same r (Resource.cgroup none vm))) [
              | inl e ↦
                  reset_as r (Resource.cgroup none vm)
                    (leftovers_leaf stopping vm works ended recorded empty) unused.leaf e
              | inr no_leaf ↦ elim (Bool-cases (same r tap)) [
                | inl e ↦ reset_as r tap net.0 untapped.0 e
                | inr no_tap ↦ elim (Bool-cases (same r table)) [
                  | inl e ↦ reset_as r table net.1 untapped.1 e
                  | inr no_table ↦ elim (Bool-cases (same r (Resource.log (short vm)))) [
                    | inl e ↦
                        reset_as r (Resource.log (short vm))
                          (leftovers_log stopping vm works ended recorded empty) unlogged e
                    | inr no_log ↦
                        reset_running r no_leaf no_copy no_socket no_log no_tap no_table
                        ∙ IsQuiet.resource (prepared.quiet r no_tmp no_copy)
                  ]
                ]
              ]
            ]
          ]
        ]
      ]

  after-IsReset : IsReset h after
  after-IsReset = record {
    resources = reset_resource;
    processes = processes_reset;
    fc_pids =
        IsQuiet.fc_pids (
          leftovers_other stopping vm works ended recorded empty (Resource.old_copy []) refl refl
            refl refl refl refl)
        ∙ ((ended-rest stopping vm running).1
            ∙ (any-IsKept.forgotten
                ∙ (ap (forget vm) (pids_at_tap ans vm spec h g unused prepared)
                    ∙ forget_unused vm h.fc_pids unused.no_pid)));
    fc_rootfs_paths =
        leftovers_paths stopping vm works ended recorded empty
        ∙ (ap (forget vm) (
              (ended-rest stopping vm running).2
              ∙ (any-IsKept.paths ∙ create_tap-paths ans vm spec.ip g))
            ∙ (IsQuiet.paths (before_try ans vm spec h g unused prepared)
                ∙ forget_unused vm h.fc_rootfs_paths unused.no_path));
  }

end_start-ok :
    (ans : Answers) (vm : Text) (b : Bool × Start) (sent : List Request)
    → (end_start ans vm b).0 ≡ some sent
    → (b.0 ≡ true) × ((end_start ans vm b).1 ≡ b.1.host)
unfolding end_start
end_start-ok ans vm (true, s) sent e = (refl, refl)
end_start-ok ans vm (false, s) sent e = (absurd (bad e), absurd (bad e))
  where
    bad : none ≡ some sent → ⊥
    bad e = cc

resumed-ok :
    (ans : Answers) (vm : Text) (spec : VmSpec) (g : Host) (b : Bool × Host)
    → (resumed ans vm spec g b).0 ≡ true
    → b.0 ≡ true
unfolding assign_tap
resumed-ok ans vm spec g (true, x) e = refl
resumed-ok ans vm spec g (false, x) e = e

module _ (ans : Answers) (cfg : Settings) (vm : Text) (spec : VmSpec) (stopping : Answers)
    (h : Host) (sent : List Request) (works : StopWorks stopping) (unused : IsUnused ans vm h)
    (unlogged : held_as (Resource.log (short vm)) h.held ≡ none) where
  abbrev copying : Bool × Host
  copying = prepare_writable_rootfs ans vm h

  stop-enter :
      (enter ans vm spec copying).0 ≡ some sent
      → IsReset h (stop_firecracker stopping vm (enter ans vm spec copying).1).1
  unfolding enter launch attempt make_tap stop_firecracker
  stop-enter e = elim (Bool-cases copying.0) [
    | inl ok ↦
        let made = prepare-IsCopied ans vm h ok in
        let end = resumed ans vm spec copying.1 (tap_call ans vm spec copying.1) in
        let done = end_start-ok ans vm end sent (rw ok at e) in
        rw ok (
          rw (done.1) (
            after-IsReset ans vm spec stopping works h copying.1 unused unlogged
              (record {
                quiet = λ r tmp copy. prepare-IsQuiet vm r tmp copy ans h;
                no_tmp = IsCopied.tmp made.0;
                recorded = made.1;
              })
              (resumed-ok ans vm spec copying.1 (tap_call ans vm spec copying.1) done.0)))
    | inr bad ↦ let wrong : none ≡ some sent = rw bad at e in cc
  ]

  -- A start that returns, for an identifier and a PID that nothing on the host has, and then a stop
  -- whose removing calls do what they should, leave every file, device, table and control group,
  -- with what it holds, each process and both maps of the orchestrator as they were before the
  -- start, the log included, whatever else fails on the way.
  pub stop_firecracker-start_firecracker :
      (start_firecracker ans cfg vm spec h).0 ≡ some sent
      → IsReset h (stop_firecracker stopping vm (start_firecracker ans cfg vm spec h).1).1
  unfolding start_firecracker
  stop_firecracker-start_firecracker e =
      elim (Bool-cases (
        validate_ip cfg spec.ip
        && (ans.kernel_there
            && (ans.rootfs_there && (ans.kvm_there && not (ans.raises Call.make_socket_dir)))))) [
              | inl ok ↦ rw ok (stop-enter (rw ok at e))
              | inr bad ↦ let wrong : none ≡ some sent = rw bad at e in cc
            ]
