-- ===== src/Vm/Raised.antt =====
-- orchestrator/services/smolvm.py: `_start_firecracker` where it raises.
use hack_bento.Base.{
  ◌≡◌, refl, arith, ap, sym, subst, ◌∙◌, ℕ, Bool, true, false, not, List, [], ◌∷◌, Option, none,
  some, Text, text_eq, if◌then◌else◌, Bool-cases, inl, inr, any, where_is, ◌==◌, All,
}
use hack_bento.Host.{
  Host, Answers, Content, Resource, Process, same, held_as, get, attempt, tap_name, nft_table_name,
  short,
}
use hack_bento.Host.Sets.{get_unused}
use hack_bento.Host.Quiet.{IsQuiet}
use hack_bento.Host.Disk.{in_leaf}
use hack_bento.Host.Network.{create_tap}
use hack_bento.Host.Network.Laws.{create_tap-IsQuiet}
use hack_bento.Host.Network.Ends.{create_tap-paths}
use hack_bento.Vm.{VmSpec, Start, assign_tap, after_tap, killed, clean_up}
use hack_bento.Vm.Undo.{UndoWorks, IsPidOf, IsLeafOf, killed-processes}
use hack_bento.Vm.Launched.{IsKept, configure-IsKept}

-- Nothing on the host bears the new identifier, no process has the new PID, and there is no table
-- of the VM's name without the device.
pub record IsUnused (ans : Answers) (vm : Text) (h : Host) : Type 0 where
  pub copy : held_as (Resource.rootfs_copy Content.clean vm) h.held ≡ none
  pub tmp : held_as (Resource.rootfs_tmp vm) h.held ≡ none
  pub socket : held_as (Resource.socket vm) h.held ≡ none
  pub leaf : held_as (Resource.cgroup none vm) h.held ≡ none
  pub alone :
      held_as (Resource.tap (tap_name vm)) h.held ≡ none
      → held_as (Resource.table (nft_table_name vm) [] [] []) h.held ≡ none
  pub no_pid : All (λ (e : Text × ℕ). text_eq e.0 vm ≡ false) h.fc_pids
  pub no_path : All (λ (e : Text × Resource). text_eq e.0 vm ≡ false) h.fc_rootfs_paths
  pub new_pid : any (λ (p : Process). p.pid == ans.new_pid) h.processes ≡ false
  pub no_process : All (λ (p : Process). text_eq p.vm vm ≡ false) h.processes
  pub empty : any (λ (p : Process). in_leaf vm p.leaf) h.processes ≡ false

-- The host is as before, with what everything on it holds, but for the log of the VM.
pub record IsRestored (vm : Text) (h h' : Host) : Type 0 where
  pub resources :
      (r : Resource)
      → same r (Resource.log (short vm)) ≡ false
      → held_as r h'.held ≡ held_as r h.held
  pub processes : h'.processes ≡ h.processes
  pub fc_pids : h'.fc_pids ≡ h.fc_pids
  pub fc_rootfs_paths : h'.fc_rootfs_paths ≡ h.fc_rootfs_paths

unused-agree :
    (new : ℕ) (vm : Text) (ps : List Process)
    → any (λ (p : Process). p.pid == new) ps ≡ false
    → All (λ (p : Process). text_eq p.vm vm ≡ false) ps
    → IsPidOf new vm ps
unused-agree new vm [] a b = tt
unused-agree new vm (p ∷ ps) a b = elim (Bool-cases (p.pid == new)) [
  | inl e ↦ absurd (ground arith)
  | inr e ↦ (e ∙ sym b.0, unused-agree new vm ps (ground arith) b.1)
]

unused-leaves :
    (vm : Text) (ps : List Process)
    → any (λ (p : Process). in_leaf vm p.leaf) ps ≡ false
    → IsLeafOf vm ps
unused-leaves vm [] a = tt
unused-leaves vm (p ∷ ps) a = elim (Bool-cases (in_leaf vm p.leaf)) [
  | inl e ↦ absurd (ground arith)
  | inr e ↦ (rw e refl, unused-leaves vm ps (ground arith))
]

-- Nothing of the new VM is among the processes.
abbrev pub IsAlone : ℕ → Text → List Process → Type 0
IsAlone new vm ps =
    (any (λ (p : Process). p.pid == new) ps ≡ false)
    × (All (λ (p : Process). text_eq p.vm vm ≡ false) ps)
    × (any (λ (p : Process). in_leaf vm p.leaf) ps ≡ false)

others_fresh :
    (n : ℕ) (ps : List Process)
    → any (λ (p : Process). p.pid == n) ps ≡ false
    → where_is (λ (p : Process). not (p.pid == n)) ps ≡ ps
others_fresh n [] h = refl
others_fresh n (p ∷ ps) h = elim (Bool-cases (p.pid == n)) [
  | inl e ↦ absurd (ground arith)
  | inr e ↦ rw e (ap (λ (t : List Process). p ∷ t) (others_fresh n ps (ground arith)))
]

-- The host and the variables at the start of the `try` block, or after its first call.
abbrev pub at_try : Host → Option Text → Start
at_try x tap = record { host = x; tap = tap; fc_proc = none; sent = [] }

-- The rest of the `try` block, behind the call of `create_tap`, whose end is given.
abbrev pub resumed : Answers → Text → VmSpec → Host → Bool × Host → Bool × Start
resumed ans vm spec g b =
    let (fine, s) = assign_tap vm (at_try g none) b in
    if fine then attempt (after_tap ans vm spec) s else (false, s)

-- How that call ended, as the variable `tap` shows it.
abbrev pub tap_after : Text → Bool → Option Text
tap_after vm fine = if fine then some (tap_name vm) else none

module _ (ans : Answers) (vm : Text) (r : Resource) where
  at_try-IsKept :
      (x : Host) (tap : Option Text)
      → IsAlone ans.new_pid vm x.processes
      → get vm x.fc_pids ≡ none
      → IsKept ans vm r x tap (at_try x tap)
  at_try-IsKept x tap fresh no_pid = record {
    own = record {
      rest = others_fresh ans.new_pid x.processes fresh.0;
      proc_cases = inl (refl, refl);
      pid_cases = inl no_pid;
    };
    forgotten = refl;
    paths = refl;
    dev = refl;
    mine = record {
      agree = unused-agree ans.new_pid vm x.processes fresh.0 fresh.1;
      leaves = unused-leaves vm x.processes fresh.2;
    };
    resource = refl;
  }

  resumed-IsKept :
      (spec : VmSpec) (g : Host) (b : Bool × Host)
      → same r (Resource.cgroup none vm) ≡ false
      → same r (Resource.socket vm) ≡ false
      → same r (Resource.log (short vm)) ≡ false
      → IsAlone ans.new_pid vm b.1.processes
      → get vm b.1.fc_pids ≡ none
      → IsKept ans vm r b.1 (tap_after vm b.0) (resumed ans vm spec g b).1
  unfolding assign_tap
  resumed-IsKept spec g (true, x) leaf socket log fresh no_pid =
      configure-IsKept ans vm r x (some (tap_name vm)) leaf socket log fresh.0 spec
        (at_try x (some (tap_name vm))) (at_try-IsKept x (some (tap_name vm)) fresh no_pid)
  resumed-IsKept spec g (false, x) leaf socket log fresh no_pid = at_try-IsKept x none fresh no_pid

-- The host `g` after `_prepare_writable_rootfs` has returned, for a start from the host `h`.
pub record IsPrepared (vm : Text) (h g : Host) : Type 0 where
  pub quiet :
      (r : Resource)
      → same r (Resource.rootfs_tmp vm) ≡ false
      → same r (Resource.rootfs_copy Content.clean vm) ≡ false
      → IsQuiet vm r h g
  pub no_tmp : held_as (Resource.rootfs_tmp vm) g.held ≡ none
  pub recorded : get vm g.fc_rootfs_paths ≡ some (Resource.rootfs_copy Content.clean vm)

-- The call of `create_tap`, the state in which the `try` block ends, and the host after `except`.
abbrev pub tap_call : Answers → Text → VmSpec → Host → Bool × Host
tap_call ans vm spec g = create_tap ans vm spec.ip g

abbrev pub raised_at : Answers → Text → VmSpec → Host → Start
raised_at ans vm spec g = (resumed ans vm spec g (tap_call ans vm spec g)).1

abbrev pub after : Answers → Text → VmSpec → Host → Host
after ans vm spec g = clean_up ans vm (raised_at ans vm spec g)

-- A start from the host `h` whose `try` block, on the host `g`, raises.
module _ (ans : Answers) (vm : Text) (spec : VmSpec) (h g : Host) (unused : IsUnused ans vm h)
    (prepared : IsPrepared vm h g) where
  -- A resource that none of the calls is about.
  pub before_try : IsQuiet vm (Resource.old_copy []) h g
  before_try = prepared.quiet (Resource.old_copy []) refl refl

  tap-IsQuiet : IsQuiet vm (Resource.old_copy []) g (tap_call ans vm spec g).1
  tap-IsQuiet = create_tap-IsQuiet vm (Resource.old_copy []) refl refl ans spec.ip g

  pub processes_at_tap : (tap_call ans vm spec g).1.processes ≡ h.processes
  processes_at_tap = tap-IsQuiet.processes ∙ before_try.processes

  pub pids_at_tap : (tap_call ans vm spec g).1.fc_pids ≡ h.fc_pids
  pids_at_tap = tap-IsQuiet.fc_pids ∙ before_try.fc_pids

  pub kept :
      (r : Resource)
      → same r (Resource.cgroup none vm) ≡ false
      → same r (Resource.socket vm) ≡ false
      → same r (Resource.log (short vm)) ≡ false
      → IsKept ans vm r
          (tap_call ans vm spec g).1
          (tap_after vm (tap_call ans vm spec g).0)
          (raised_at ans vm spec g)
  kept r leaf socket log =
      resumed-IsKept ans vm r spec g (tap_call ans vm spec g) leaf socket log
        (subst (IsAlone ans.new_pid vm) (sym processes_at_tap)
          (unused.new_pid, unused.no_process, unused.empty))
        (ap (get vm) pids_at_tap ∙ get_unused vm h.fc_pids unused.no_pid)

  pub untouched-IsKept :
      IsKept ans vm
        (Resource.old_copy [])
        (tap_call ans vm spec g).1
        (tap_after vm (tap_call ans vm spec g).0)
        (raised_at ans vm spec g)
  untouched-IsKept = kept (Resource.old_copy []) refl refl refl

  pub path_at_raise :
      get vm (raised_at ans vm spec g).host.fc_rootfs_paths
      ≡ some (Resource.rootfs_copy Content.clean vm)
  path_at_raise =
      ap (get vm) (untouched-IsKept.paths ∙ create_tap-paths ans vm spec.ip g) ∙ prepared.recorded

module _ (ans : Answers) (vm : Text) (spec : VmSpec) (works : UndoWorks ans) (h g : Host)
    (unused : IsUnused ans vm h) (prepared : IsPrepared vm h g) where
  pub processes_killed : (killed ans vm (raised_at ans vm spec g)).processes ≡ h.processes
  processes_killed =
      killed-processes ans vm (raised_at ans vm spec g) (tap_call ans vm spec g).1.processes
        works.kill
        (ap (any (λ (p : Process). p.pid == ans.new_pid))
            (processes_at_tap ans vm spec h g unused prepared)
          ∙ unused.new_pid)
        (untouched-IsKept ans vm spec h g unused prepared).own
      ∙ processes_at_tap ans vm spec h g unused prepared

  pub leaf_empty :
      any (λ (p : Process). in_leaf vm p.leaf) (killed ans vm (raised_at ans vm spec g)).processes
      ≡ false
  leaf_empty = ap (any (λ (p : Process). in_leaf vm p.leaf)) processes_killed ∙ unused.empty
