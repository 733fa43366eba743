-- ===== src/Vm/Launched.antt =====
-- orchestrator/services/smolvm.py: the `try` block of `_start_firecracker`, after its first call.
use hack_bento.Base.{
  ◌≡◌, refl, arith, ap, sym, subst, ◌∙◌, ℕ, Bool, true, false, not, ◌&&◌, List, [], ◌∷◌, Option,
  none, some, Text, Bool-cases, inl, inr, any, where_is, ◌==◌, ==_refl, map, text_eq_refl,
}
use hack_bento.Address.{ip_to_mac}
use hack_bento.Host.{
  Host, Answers, Call, Resource, Process, same, has, held_as, forget, get, assign, attempt, short,
}
use hack_bento.Host.Sets.{get-assign, forget-assign}
use hack_bento.Host.Quiet.{attempt-keeps, place-IsQuiet}
use hack_bento.Host.Disk.{in_leaf}
use hack_bento.Host.Disk.Laws.{create_vm_cgroup-IsQuiet}
use hack_bento.Host.Disk.Ends.{create_vm_cgroup-paths}
use hack_bento.Host.Processes.{attach_pid_to_cgroup, moved}
use hack_bento.Vm.{
  VmSpec, Request, Start, make_leaf, place_if, begin_process, spawn, record_pid, wait_for, put,
  put_interface, put_mac, after_tap, or_empty,
}
use hack_bento.Vm.Undo.{IsOwnPid, IsPidOf, IsLeafOf}

moved-rest :
    (new : ℕ) (vm : Text) (ps : List Process)
    → where_is (λ (p : Process). not (p.pid == new)) (map (moved new vm) ps)
      ≡ where_is (λ (p : Process). not (p.pid == new)) ps
unfolding moved
moved-rest new vm [] = refl
moved-rest new vm (p ∷ ps) = elim (Bool-cases (p.pid == new)) [
  | inl e ↦ rw e (rw e (moved-rest new vm ps))
  | inr e ↦ rw e (rw e (ap (λ (t : List Process). p ∷ t) (moved-rest new vm ps)))
]

moved-fresh :
    (new : ℕ) (vm : Text) (ps : List Process)
    → any (λ (p : Process). p.pid == new) ps ≡ false
    → map (moved new vm) ps ≡ ps
unfolding moved
moved-fresh new vm [] h = refl
moved-fresh new vm (p ∷ ps) h = elim (Bool-cases (p.pid == new)) [
  | inl e ↦ absurd (ground arith)
  | inr e ↦ rw e (ap (λ (t : List Process). p ∷ t) (moved-fresh new vm ps (ground arith)))
]

module _ (new : ℕ) (ps : List Process) where
  own_spawn :
      (vm : Text) (proc pid : Option ℕ) (now : List Process)
      → IsOwnPid new ps proc pid now
      → IsOwnPid new ps (some new) pid (record { pid = new; vm = vm; leaf = none } ∷ now)
  own_spawn vm proc pid now own = record {
    rest = rw (==_refl new) own.rest;
    proc_cases = inr refl;
    pid_cases = own.pid_cases;
  }

  own_joined :
      (vm : Text) (proc pid : Option ℕ) (now : List Process)
      → any (λ (p : Process). p.pid == new) ps ≡ false
      → IsOwnPid new ps proc pid now
      → IsOwnPid new ps proc pid (map (moved new vm) now)
  own_joined vm proc pid now fresh own = record {
    rest = moved-rest new vm now ∙ own.rest;
    proc_cases = elim own.proc_cases [
      | inl c ↦ inl (c.0, ap (map (moved new vm)) c.1 ∙ moved-fresh new vm ps fresh)
      | inr c ↦ inr c
    ];
    pid_cases = own.pid_cases;
  }

  own_recorded :
      (proc pid : Option ℕ) (now : List Process)
      → IsOwnPid new ps proc pid now
      → IsOwnPid new ps proc (some new) now
  own_recorded proc pid now own = record {
    rest = own.rest;
    proc_cases = own.proc_cases;
    pid_cases = inr refl;
  }

-- The new PID is the one of the VM, and its leaf is its own.
pub record IsMine (new : ℕ) (vm : Text) (ps : List Process) : Type 0 where
  pub agree : IsPidOf new vm ps
  pub leaves : IsLeafOf vm ps

spawn-IsMine :
    (new : ℕ) (vm : Text) (ps : List Process)
    → IsMine new vm ps
    → IsMine new vm (record { pid = new; vm = vm; leaf = none } ∷ ps)
unfolding in_leaf
spawn-IsMine new vm ps m = record {
  agree = (==_refl new ∙ sym (text_eq_refl vm), m.agree);
  leaves = (refl, m.leaves);
}

moved-agree :
    (new : ℕ) (vm : Text) (ps : List Process)
    → IsPidOf new vm ps
    → IsPidOf new vm (map (moved new vm) ps)
unfolding moved
moved-agree new vm [] a = tt
moved-agree new vm (p ∷ ps) a = elim (Bool-cases (p.pid == new)) [
  | inl e ↦ rw e (a.0, moved-agree new vm ps a.1)
  | inr e ↦ rw e (a.0, moved-agree new vm ps a.1)
]

moved-leaves :
    (new : ℕ) (vm : Text) (ps : List Process)
    → IsPidOf new vm ps
    → IsLeafOf vm ps
    → IsLeafOf vm (map (moved new vm) ps)
unfolding moved in_leaf
moved-leaves new vm [] a l = tt
moved-leaves new vm (p ∷ ps) a l = elim (Bool-cases (p.pid == new)) [
  | inl e ↦ rw e (ground (arith, a.0), moved-leaves new vm ps a.1 l.1)
  | inr e ↦ rw e (l.0, moved-leaves new vm ps a.1 l.1)
]

own_moved :
    (new : ℕ) (ps : List Process) (proc : Option ℕ) {pid pid' : Option ℕ} {now now' : List Process}
    → pid' ≡ pid
    → now' ≡ now
    → IsOwnPid new ps proc pid now
    → IsOwnPid new ps proc pid' now'
own_moved new ps proc {now' = now'} e f own =
    subst (λ (p : Option ℕ). IsOwnPid new ps proc p now') (sym e)
      (subst (IsOwnPid new ps proc _) (sym f) own)

-- What the block keeps of a start: the processes and PIDs are those of before and its own, and a
-- resource `r` is as it was.
pub record IsKept (ans : Answers) (vm : Text) (r : Resource) (h : Host) (tap : Option Text)
    (s : Start) : Type 0 where
  pub own : IsOwnPid ans.new_pid h.processes s.fc_proc (get vm s.host.fc_pids) s.host.processes
  pub forgotten : forget vm s.host.fc_pids ≡ forget vm h.fc_pids
  pub paths : s.host.fc_rootfs_paths ≡ h.fc_rootfs_paths
  pub dev : s.tap ≡ tap
  pub mine : IsMine ans.new_pid vm s.host.processes
  pub resource : held_as r s.host.held ≡ held_as r h.held

module _ (ans : Answers) (vm : Text) (r : Resource) (h : Host) (tap : Option Text)
    (no_leaf : same r (Resource.cgroup none vm) ≡ false)
    (no_socket : same r (Resource.socket vm) ≡ false)
    (no_log : same r (Resource.log (short vm)) ≡ false)
    (fresh : any (λ (p : Process). p.pid == ans.new_pid) h.processes ≡ false) where
  make_leaf-IsKept :
      (spec : VmSpec) (s : Start)
      → IsKept ans vm r h tap s
      → IsKept ans vm r h tap (make_leaf ans vm spec s).1
  unfolding make_leaf
  make_leaf-IsKept spec s k =
      let q =
        create_vm_cgroup-IsQuiet vm r no_leaf ans spec.vm_pids_limit spec.cpu spec.memory_mb
          s.host in
      record {
        own = own_moved ans.new_pid h.processes s.fc_proc (ap (get vm) q.fc_pids) q.processes k.own;
        forgotten = ap (forget vm) q.fc_pids ∙ k.forgotten;
        paths =
            create_vm_cgroup-paths ans spec.vm_pids_limit vm spec.cpu spec.memory_mb s.host
            ∙ k.paths;
        dev = k.dev;
        mine = subst (IsMine ans.new_pid vm) (sym q.processes) k.mine;
        resource = q.resource ∙ k.resource;
      }

  place_if-rest :
      (b : Bool) (x : Resource) (g : Host)
      → same r x ≡ false
      → ((place_if b x g).processes ≡ g.processes)
        × ((place_if b x g).fc_pids ≡ g.fc_pids)
        × ((place_if b x g).fc_rootfs_paths ≡ g.fc_rootfs_paths)
        × (held_as r (place_if b x g).held ≡ held_as r g.held)
  place_if-rest true x g d = let q = place-IsQuiet [] r x g d in (refl, refl, refl, q.resource)
  place_if-rest false x g d = (refl, refl, refl, refl)

  -- What the new process makes beside itself.
  begin_process-rest :
      (g : Host)
      → ((begin_process ans vm g).processes
          ≡ record { pid = ans.new_pid; vm = vm; leaf = none } ∷ g.processes)
        × ((begin_process ans vm g).fc_pids ≡ g.fc_pids)
        × ((begin_process ans vm g).fc_rootfs_paths ≡ g.fc_rootfs_paths)
        × (held_as r (begin_process ans vm g).held ≡ held_as r g.held)
  begin_process-rest g =
      let g1 = record g {
        processes = record { pid = ans.new_pid; vm = vm; leaf = none } ∷ g.processes;
      } in
      let g2 = place_if ans.makes_log (Resource.log (short vm)) g1 in
      let a = place_if-rest ans.makes_log (Resource.log (short vm)) g1 no_log in
      let b = place_if-rest ans.makes_socket (Resource.socket vm) g2 no_socket in
      (b.0 ∙ a.0, b.1 ∙ a.1, b.2 ∙ a.2, b.3 ∙ a.3)

  spawn-IsKept : (s : Start) → IsKept ans vm r h tap s → IsKept ans vm r h tap (spawn ans vm s).1
  unfolding spawn
  spawn-IsKept s k =
      let q = begin_process-rest s.host in
      elim (Bool-cases (ans.raises Call.spawn)) [
        | inl e ↦ rw e k
        | inr e ↦ rw e (record {
          own = own_moved ans.new_pid h.processes (some ans.new_pid) (ap (get vm) q.1) q.0 (
              own_spawn ans.new_pid h.processes vm s.fc_proc (get vm s.host.fc_pids)
                s.host.processes k.own);
          forgotten = ap (forget vm) q.1 ∙ k.forgotten;
          paths = q.2 ∙ k.paths;
          dev = k.dev;
          mine =
              subst (IsMine ans.new_pid vm) (sym q.0)
                (spawn-IsMine ans.new_pid vm s.host.processes k.mine);
          resource = q.3 ∙ k.resource;
        })
      ]

  attach-rest :
      (g : Host)
      → ((attach_pid_to_cgroup ans vm ans.new_pid g).held ≡ g.held)
        × ((attach_pid_to_cgroup ans vm ans.new_pid g).fc_pids ≡ g.fc_pids)
        × ((attach_pid_to_cgroup ans vm ans.new_pid g).fc_rootfs_paths ≡ g.fc_rootfs_paths)
  unfolding attach_pid_to_cgroup
  attach-rest g = ground arith

  own_attach :
      (g : Host) (proc pid : Option ℕ)
      → IsOwnPid ans.new_pid h.processes proc pid g.processes
      → IsOwnPid ans.new_pid h.processes proc pid
          (attach_pid_to_cgroup ans vm ans.new_pid g).processes
  unfolding attach_pid_to_cgroup
  own_attach g proc pid own =
      elim (Bool-cases (has (Resource.cgroup none vm) g.held && not (ans.raises Call.attach))) [
        | inl e ↦ rw e (own_joined ans.new_pid h.processes vm proc pid g.processes fresh own)
        | inr e ↦ rw e own
      ]

  attach-IsMine :
      (g : Host)
      → IsMine ans.new_pid vm g.processes
      → IsMine ans.new_pid vm (attach_pid_to_cgroup ans vm ans.new_pid g).processes
  unfolding attach_pid_to_cgroup
  attach-IsMine g m =
      elim (Bool-cases (has (Resource.cgroup none vm) g.held && not (ans.raises Call.attach))) [
        | inl e ↦ rw e (record {
          agree = moved-agree ans.new_pid vm g.processes m.agree;
          leaves = moved-leaves ans.new_pid vm g.processes m.agree m.leaves;
        })
        | inr e ↦ rw e m
      ]

  record_pid-IsKept :
      (s : Start) → IsKept ans vm r h tap s → IsKept ans vm r h tap (record_pid ans vm s).1
  unfolding record_pid
  record_pid-IsKept s k =
      let g = record s.host { fc_pids = assign vm ans.new_pid s.host.fc_pids } in
      let q = attach-rest g in
      let noted =
        own_recorded ans.new_pid h.processes s.fc_proc (get vm s.host.fc_pids) s.host.processes
          k.own in
      record {
        own =
            own_moved ans.new_pid h.processes s.fc_proc
              (ap (get vm) q.1 ∙ get-assign vm ans.new_pid s.host.fc_pids) refl
              (own_attach g s.fc_proc (some ans.new_pid) noted);
        forgotten =
            ap (forget vm) q.1 ∙ (forget-assign vm ans.new_pid s.host.fc_pids ∙ k.forgotten);
        paths = q.2 ∙ k.paths;
        dev = k.dev;
        mine = attach-IsMine g k.mine;
        resource = ap (held_as r) q.0 ∙ k.resource;
      }

  put-IsKept :
      (call : Call) (body : Request) (s : Start)
      → IsKept ans vm r h tap s
      → IsKept ans vm r h tap (put ans call body s).1
  unfolding put
  put-IsKept call body s k = elim (Bool-cases (ans.raises call)) [
    | inl e ↦ rw e k
    | inr e ↦ rw e (record {
      own = k.own;
      forgotten = k.forgotten;
      paths = k.paths;
      dev = k.dev;
      mine = k.mine;
      resource = k.resource;
    })
  ]

  put_mac-IsKept :
      (mac : Option Text) (s : Start)
      → IsKept ans vm r h tap s
      → IsKept ans vm r h tap (put_mac ans mac s).1
  unfolding put_mac
  put_mac-IsKept none s k = k
  put_mac-IsKept (some mac) s k =
      put-IsKept Call.put_network (Request.network_interface mac (or_empty s.tap)) s k

  pub configure-IsKept :
      (spec : VmSpec) (s : Start)
      → IsKept ans vm r h tap s
      → IsKept ans vm r h tap (attempt (after_tap ans vm spec) s).1
  unfolding wait_for put_interface
  configure-IsKept spec = attempt-keeps (IsKept ans vm r h tap) (after_tap ans vm spec) (
    make_leaf-IsKept spec,
    (
      spawn-IsKept,
      (
        record_pid-IsKept,
        (
          (λ s k. k),
          (
            put-IsKept Call.put_boot_source _,
            (
              put-IsKept Call.put_drive _,
              (
                put_mac-IsKept (ip_to_mac spec.ip),
                (put-IsKept Call.put_machine_config _, (put-IsKept Call.start_instance _, tt)),
              ),
            ),
          ),
        ),
      ),
    ),
  )
