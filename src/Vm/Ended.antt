-- ===== src/Vm/Ended.antt =====
-- orchestrator/services/smolvm.py: how `_stop_firecracker` ends the process of a VM.
use hack_bento.Base.{
  ◌≡◌, refl, arith, ap, sym, ◌∙◌, ℕ, true, false, not, ◌&&◌, List, [], ◌∷◌, Option, none, some,
  Text, text_eq, Bool-cases, Option-cases, inl, inr, ◌⊎◌, any, where_is, find_first, ◌==◌,
}
use hack_bento.Host.{Host, Answers, Call, Process, get, forget}
use hack_bento.Host.Sets.{where_is_twice}
use hack_bento.Host.Processes.{pid_alive, find_orphan_fc_pid, pid_of, signal_twice, terminate_pid}
use hack_bento.Vm.{others, shut_down, pid_or_found, end_vm}
use hack_bento.Vm.Undo.{IsPidOf}

-- What the orchestrator knows, or finds, of the process of the VM is right.
pub record IsTracked (vm : Text) (h : Host) : Type 0 where
  pub known : (pid : ℕ) → get vm h.fc_pids ≡ some pid → IsPidOf pid vm h.processes
  pub found : (pid : ℕ) → find_orphan_fc_pid vm h ≡ some pid → IsPidOf pid vm h.processes

pub without_pid :
    (pid : ℕ) (vm : Text) (ps : List Process)
    → IsPidOf pid vm ps
    → where_is (λ (p : Process). not (p.pid == pid)) ps ≡ others vm ps
without_pid pid vm [] a = refl
without_pid pid vm (p ∷ ps) a = ground (arith, without_pid pid vm ps a.1, a.0)

dead_after :
    (pid : ℕ) (ps : List Process)
    → any (λ (p : Process). p.pid == pid) (where_is (λ (p : Process). not (p.pid == pid)) ps)
      ≡ false
dead_after pid [] = refl
dead_after pid (p ∷ ps) = ground (arith, dead_after pid ps)

dead_others :
    (pid : ℕ) (ps : List Process)
    → any (λ (p : Process). p.pid == pid) ps ≡ false
    → where_is (λ (p : Process). not (p.pid == pid)) ps ≡ ps
dead_others pid [] h = refl
dead_others pid (p ∷ ps) h = elim (Bool-cases (p.pid == pid)) [
  | inl e ↦ absurd (ground arith)
  | inr e ↦ rw e (ap (λ (t : List Process). p ∷ t) (dead_others pid ps (ground arith)))
]

absent_others :
    (vm : Text) (ps : List Process)
    → find_first (λ (p : Process). text_eq p.vm vm) ps ≡ none
    → others vm ps ≡ ps
absent_others vm [] h = refl
absent_others vm (p ∷ ps) h = elim (Bool-cases (text_eq p.vm vm)) [
  | inl e ↦ absurd (ground arith)
  | inr e ↦ rw e (ap (λ (t : List Process). p ∷ t) (absent_others vm ps (ground arith)))
]

signal_twice-processes :
    (ans : Answers) (pid : ℕ) (h : Host)
    → ans.raises Call.send_kill ≡ false
    → pid_alive pid h ≡ true
    → (signal_twice ans pid h).processes
      ≡ where_is (λ (p : Process). not (p.pid == pid)) h.processes
unfolding signal_twice pid_alive
signal_twice-processes ans pid h works alive =
    elim (Bool-cases (not (ans.raises Call.send_term) && ans.exits_on_term)) [
      | inl e ↦ rw e (rw (dead_after pid h.processes) refl)
      | inr e ↦ rw e (rw alive (rw works refl))
    ]

terminate_pid-processes :
    (ans : Answers) (pid : ℕ) (h : Host)
    → ans.raises Call.send_kill ≡ false
    → (terminate_pid ans (some pid) h).processes
      ≡ where_is (λ (p : Process). not (p.pid == pid)) h.processes
unfolding terminate_pid
terminate_pid-processes ans pid h works = elim (Bool-cases (pid_alive pid h)) [
  | inl e ↦ rw e (signal_twice-processes ans pid h works e)
  | inr e ↦ rw e (sym (dead_others pid h.processes (unfold pid_alive in e)))
]

pub end_found :
    (ans : Answers) (vm : Text) (pid : Option ℕ) (h : Host)
    → ans.raises Call.send_kill ≡ false
    → ((n : ℕ) → pid ≡ some n → IsPidOf n vm h.processes)
    → (pid ≡ none → others vm h.processes ≡ h.processes)
    → (terminate_pid ans pid h).processes ≡ others vm h.processes
unfolding terminate_pid
end_found ans vm none h works own gone = sym (gone refl)
end_found ans vm (some n) h works own gone =
    terminate_pid-processes ans n h works ∙ without_pid n vm h.processes (own n refl)

-- A record without an entry is no help, and /proc shows no process: there is none.
pub found_none :
    (vm : Text) (h : Host) → find_orphan_fc_pid vm h ≡ none → others vm h.processes ≡ h.processes
unfolding find_orphan_fc_pid
found_none vm h e =
    absent_others vm h.processes
      (pid_of_none (find_first (λ (p : Process). text_eq p.vm vm) h.processes) e)
  where
    pid_of_none : (o : Option Process) → pid_of o ≡ none → o ≡ none
    pid_of_none none h = refl
    pid_of_none (some p) h = cc

end_vm-processes :
    (ans : Answers) (vm : Text) (h : Host)
    → ans.raises Call.send_kill ≡ false
    → IsTracked vm h
    → (end_vm ans vm h).processes ≡ others vm h.processes
unfolding end_vm find_orphan_fc_pid
end_vm-processes ans vm h works t =
    let h1 = record h { fc_pids = forget vm h.fc_pids } in
    elim (Option-cases (get vm h.fc_pids)) [
      | inl e ↦ rw e (end_found ans vm (find_orphan_fc_pid vm h) h1 works t.found (found_none vm h))
      | inr (n, e) ↦
          rw e (end_found ans vm (some n) h1 works (λ m same. t.known m (e ∙ same)) (λ bad. cc))
    ]

pub others-IsPidOf :
    (pid : ℕ) (vm out : Text) (ps : List Process)
    → IsPidOf pid vm ps
    → IsPidOf pid vm (others out ps)
others-IsPidOf pid vm out [] a = tt
others-IsPidOf pid vm out (p ∷ ps) a = elim (Bool-cases (text_eq p.vm out)) [
  | inl e ↦ rw e (others-IsPidOf pid vm out ps a.1)
  | inr e ↦ rw e (a.0, others-IsPidOf pid vm out ps a.1)
]

others_gone :
    (vm : Text) (ps : List Process)
    → find_first (λ (p : Process). text_eq p.vm vm) (others vm ps) ≡ none
others_gone vm [] = refl
others_gone vm (p ∷ ps) = elim (Bool-cases (text_eq p.vm vm)) [
  | inl e ↦ rw e (others_gone vm ps)
  | inr e ↦ rw e (rw e (others_gone vm ps))
]

shut_down-cases :
    (ans : Answers) (vm : Text) (h : Host)
    → (shut_down ans vm h ≡ h)
      ⊎ (shut_down ans vm h ≡ record h { processes = others vm h.processes })
unfolding shut_down
shut_down-cases ans vm h =
    elim (Bool-cases (not (ans.raises Call.send_ctrl_alt_del) && ans.shuts_down)) [
      | inl e ↦ inr (rw e refl)
      | inr e ↦ inl (rw e refl)
    ]

others-IsTracked :
    (vm : Text) (h : Host)
    → IsTracked vm h
    → IsTracked vm (record h { processes = others vm h.processes })
unfolding find_orphan_fc_pid
others-IsTracked vm h t = record {
  known = λ pid e. others-IsPidOf pid vm vm h.processes (t.known pid e);
  found = λ pid e.
      let gone : none ≡ some pid = rw (others_gone vm h.processes) at e in absurd (no_pid pid gone);
}
  where
    no_pid : (pid : ℕ) → none ≡ some pid → ⊥
    no_pid pid e = cc

-- Whether the guest obeys or not, the processes of the VM end, and those of the others stay.
pub ended-processes :
    (ans : Answers) (vm : Text) (h : Host)
    → ans.raises Call.send_kill ≡ false
    → IsTracked vm h
    → (end_vm ans vm (shut_down ans vm h)).processes ≡ others vm h.processes
ended-processes ans vm h works t = elim (shut_down-cases ans vm h) [
  | inl e ↦ rw e (end_vm-processes ans vm h works t)
  | inr e ↦ rw e (
      end_vm-processes ans vm (record h { processes = others vm h.processes }) works
        (others-IsTracked vm h t)
      ∙ where_is_twice (λ (p : Process). not (text_eq p.vm vm)) h.processes)
]

terminate_pid-rest :
    (ans : Answers) (pid : Option ℕ) (h : Host)
    → ((terminate_pid ans pid h).held ≡ h.held)
      × ((terminate_pid ans pid h).fc_pids ≡ h.fc_pids)
      × ((terminate_pid ans pid h).fc_rootfs_paths ≡ h.fc_rootfs_paths)
unfolding terminate_pid signal_twice
terminate_pid-rest ans none h = (refl, refl, refl)
terminate_pid-rest ans (some pid) h = ground arith

-- Nothing else changes by this but the record of the PID.
pub ended-rest :
    (ans : Answers) (vm : Text) (h : Host)
    → ((end_vm ans vm (shut_down ans vm h)).held ≡ h.held)
      × ((end_vm ans vm (shut_down ans vm h)).fc_pids ≡ forget vm h.fc_pids)
      × ((end_vm ans vm (shut_down ans vm h)).fc_rootfs_paths ≡ h.fc_rootfs_paths)
unfolding end_vm
ended-rest ans vm h =
    let h1 = shut_down ans vm h in
    let h2 = record h1 { fc_pids = forget vm h1.fc_pids } in
    let q = terminate_pid-rest ans (pid_or_found h2 vm (get vm h1.fc_pids)) h2 in
    elim (shut_down-cases ans vm h) [ inl e ↦ rw e (rw e at q) | inr e ↦ rw e (rw e at q) ]
