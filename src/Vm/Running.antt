-- ===== src/Vm/Running.antt =====
-- orchestrator/services/smolvm.py: `_start_firecracker` where it returns.
use hack_bento.Base.{
  ◌≡◌, refl, arith, ap, sym, subst, ◌∙◌, ℕ, Bool, true, false, not, ◌&&◌, List, [], ◌∷◌, ◌++◌,
  Option, none, some, Text, Bool-cases, inl, inr, any, ◌==◌, ==_refl, map,
}
use hack_bento.Model.{Settings}
use hack_bento.Address.{ip_to_mac}
use hack_bento.Pool.{validate_ip}
use hack_bento.Host.{Host, Answers, Call, Resource, Process, has, get, assign, attempt, tap_name}
use hack_bento.Host.Sets.{get-assign}
use hack_bento.Host.Quiet.{attempt-ok}
use hack_bento.Host.Disk.{prepare_writable_rootfs}
use hack_bento.Host.Network.{create_tap}
use hack_bento.Host.Processes.{attach_pid_to_cgroup, moved, pid_alive, vm_is_alive, alive_by}
use hack_bento.Vm.{
  VmSpec, Request, Start, boot_args, make_tap, assign_tap, make_leaf, spawn, record_pid, wait_for,
  put, put_mac, put_interface, or_empty, after_tap, launch, end_start, enter, start_firecracker,
}
use hack_bento.Vm.Raised.{resumed, at_try}

-- The requests that configure and start a VM of this specification, in their order.
abbrev pub requests : Text → VmSpec → Text → List Request
requests vm spec mac =
    Request.boot_source spec.kernel_path (boot_args spec)
    ∷ Request.root_drive vm
    ∷ Request.network_interface mac (tap_name vm)
    ∷ Request.machine_config spec.cpu spec.memory_mb
    ∷ Request.instance_start
    ∷ []

alive_joined :
    (new : ℕ) (vm : Text) (ps : List Process)
    → any (λ (p : Process). p.pid == new) (map (moved new vm) ps)
      ≡ any (λ (p : Process). p.pid == new) ps
unfolding moved
alive_joined new vm [] = refl
alive_joined new vm (p ∷ ps) = elim (Bool-cases (p.pid == new)) [
  | inl e ↦ rw e (rw e refl)
  | inr e ↦ rw e (rw e (alive_joined new vm ps))
]

module _ (ans : Answers) (vm : Text) where
  -- The process of the VM is there, under the PID that is recorded.
  record IsUp (h : Host) : Type 0 where
    pub known : get vm h.fc_pids ≡ some ans.new_pid
    pub alive : pid_alive ans.new_pid h ≡ true

  spawn-ok :
      (s : Start)
      → (spawn ans vm s).0 ≡ true
      → (pid_alive ans.new_pid (spawn ans vm s).1.host ≡ true)
        × ((spawn ans vm s).1.sent ≡ s.sent)
        × ((spawn ans vm s).1.tap ≡ s.tap)
  unfolding spawn pid_alive
  spawn-ok s e = ground (arith, ==_refl ans.new_pid)

  record_pid-IsUp :
      (s : Start) → pid_alive ans.new_pid s.host ≡ true → IsUp (record_pid ans vm s).1.host
  unfolding record_pid attach_pid_to_cgroup pid_alive
  record_pid-IsUp s e =
      let g = record s.host { fc_pids = assign vm ans.new_pid s.host.fc_pids } in
      elim (Bool-cases (has (Resource.cgroup none vm) g.held && not (ans.raises Call.attach))) [
        | inl b ↦ rw b (record {
          known = get-assign vm ans.new_pid s.host.fc_pids;
          alive = alive_joined ans.new_pid vm s.host.processes ∙ e;
        })
        | inr b ↦ rw b (record { known = get-assign vm ans.new_pid s.host.fc_pids; alive = e })
      ]

  put-ok :
      (call : Call) (body : Request) (s : Start)
      → (put ans call body s).0 ≡ true
      → (put ans call body s).1 ≡ record s { sent = s.sent ++ (body ∷ []) }
  unfolding put
  put-ok call body s e = elim (Bool-cases (ans.raises call)) [
    | inl b ↦ let wrong : false ≡ true = rw b at e in cc
    | inr b ↦ rw b refl
  ]

  put_mac-ok :
      (mac : Option Text) (s : Start)
      → (put_mac ans mac s).0 ≡ true
      → (m : Text) × (mac ≡ some m)
        × ((put_mac ans mac s).1
            ≡ record s { sent = s.sent ++ (Request.network_interface m (or_empty s.tap) ∷ []) })
  unfolding put_mac
  put_mac-ok none s e = cc
  put_mac-ok (some m) s e = (m, refl, put-ok Call.put_network _ s e)

  sent_chain :
      (l2 l5 l6 l7 l8 l9 : List Request) (mac : Text) (spec : VmSpec) (dev : Option Text)
      → l2 ≡ []
      → dev ≡ some (tap_name vm)
      → l5 ≡ l2 ++ (Request.boot_source spec.kernel_path (boot_args spec) ∷ [])
      → l6 ≡ l5 ++ (Request.root_drive vm ∷ [])
      → l7 ≡ l6 ++ (Request.network_interface mac (or_empty dev) ∷ [])
      → l8 ≡ l7 ++ (Request.machine_config spec.cpu spec.memory_mb ∷ [])
      → l9 ≡ l8 ++ (Request.instance_start ∷ [])
      → l9 ≡ requests vm spec mac
  sent_chain l2 l5 l6 l7 l8 l9 mac spec dev e2 d e5 e6 e7 e8 e9 =
      rw (e9, e8, e7, e6, e5, e2, d) refl

  after_tap-ok :
      (spec : VmSpec) (x : Host)
      → (attempt (after_tap ans vm spec) (at_try x (some (tap_name vm)))).0 ≡ true
      → (m : Text) × (ip_to_mac spec.ip ≡ some m)
        × ((attempt (after_tap ans vm spec) (at_try x (some (tap_name vm)))).1.sent
            ≡ requests vm spec m)
        × IsUp (attempt (after_tap ans vm spec) (at_try x (some (tap_name vm)))).1.host
  unfolding make_leaf wait_for put_interface record_pid attempt
  after_tap-ok spec x ok =
      let boot = Request.boot_source spec.kernel_path (boot_args spec) in
      let drive = Request.root_drive vm in
      let machine = Request.machine_config spec.cpu spec.memory_mb in
      let f2 = spawn ans vm in
      let f3 = record_pid ans vm in
      let f4 = wait_for ans Call.wait_socket in
      let f5 = put ans Call.put_boot_source boot in
      let f6 = put ans Call.put_drive drive in
      let f7 = put_interface ans spec in
      let f8 = put ans Call.put_machine_config machine in
      let f9 = put ans Call.start_instance Request.instance_start in
      let s0 = at_try x (some (tap_name vm)) in
      let s1 = (make_leaf ans vm spec s0).1 in
      let p1 =
        attempt-ok (make_leaf ans vm spec) (f2 ∷ f3 ∷ f4 ∷ f5 ∷ f6 ∷ f7 ∷ f8 ∷ f9 ∷ []) s0 ok in
      let p2 = attempt-ok f2 (f3 ∷ f4 ∷ f5 ∷ f6 ∷ f7 ∷ f8 ∷ f9 ∷ []) s1 p1.1 in
      let s2 = (f2 s1).1 in
      let p3 = attempt-ok f3 (f4 ∷ f5 ∷ f6 ∷ f7 ∷ f8 ∷ f9 ∷ []) s2 p2.1 in
      let s3 = (f3 s2).1 in
      let p4 = attempt-ok f4 (f5 ∷ f6 ∷ f7 ∷ f8 ∷ f9 ∷ []) s3 p3.1 in
      let p5 = attempt-ok f5 (f6 ∷ f7 ∷ f8 ∷ f9 ∷ []) s3 p4.1 in
      let s5 = (f5 s3).1 in
      let p6 = attempt-ok f6 (f7 ∷ f8 ∷ f9 ∷ []) s5 p5.1 in
      let s6 = (f6 s5).1 in
      let p7 = attempt-ok f7 (f8 ∷ f9 ∷ []) s6 p6.1 in
      let s7 = (f7 s6).1 in
      let p8 = attempt-ok f8 (f9 ∷ []) s7 p7.1 in
      let s8 = (f8 s7).1 in
      let p9 = attempt-ok f9 [] s8 p8.1 in
      let spawned = spawn-ok s1 p2.0 in
      let q5 = put-ok Call.put_boot_source boot s3 p5.0 in
      let q6 = put-ok Call.put_drive drive s5 p6.0 in
      let q7 = put_mac-ok (ip_to_mac spec.ip) s6 p7.0 in
      let q8 = put-ok Call.put_machine_config machine s7 p8.0 in
      let q9 = put-ok Call.start_instance Request.instance_start s8 p9.0 in
      let end = p1.2 ∙ (p2.2 ∙ (p3.2 ∙ (p4.2 ∙ (p5.2 ∙ (p6.2 ∙ (p7.2 ∙ (p8.2 ∙ p9.2))))))) in
      let sent : Start → List Request = λ (s : Start). s.sent in
      let host : Start → Host = λ (s : Start). s.host in
      let dev : s6.tap ≡ some (tap_name vm) =
        ap (λ (s : Start). s.tap) q6 ∙ (ap (λ (s : Start). s.tap) q5 ∙ spawned.2) in
      (
        q7.0,
        q7.1,
        ap sent end
            ∙ sent_chain s2.sent s5.sent s6.sent s7.sent s8.sent (f9 s8).1.sent q7.0 spec s6.tap
                spawned.1 dev (ap sent q5) (ap sent q6) (ap sent q7.2) (ap sent q8) (ap sent q9),
        subst IsUp
            (sym (
              ap host end
              ∙ (ap host q9 ∙ (ap host q8 ∙ (ap host q7.2 ∙ (ap host q6 ∙ ap host q5))))))
            (record_pid-IsUp s2 spawned.0),
      )

resumed-requests :
    (ans : Answers) (vm : Text) (spec : VmSpec) (g : Host) (b : Bool × Host)
    → (resumed ans vm spec g b).0 ≡ true
    → (m : Text) × (ip_to_mac spec.ip ≡ some m)
      × ((resumed ans vm spec g b).1.sent ≡ requests vm spec m)
      × IsUp ans vm (resumed ans vm spec g b).1.host
unfolding assign_tap
resumed-requests ans vm spec g (true, x) ok = after_tap-ok ans vm spec x ok
resumed-requests ans vm spec g (false, x) ok = cc

IsUp-alive : (ans : Answers) (vm : Text) (h : Host) → IsUp ans vm h → vm_is_alive vm h ≡ true
unfolding vm_is_alive alive_by
IsUp-alive ans vm h u = ap (alive_by h vm) u.known ∙ u.alive

module _ (ans : Answers) (cfg : Settings) (vm : Text) (spec : VmSpec) (h : Host)
    (sent : List Request) where
  end_start-requests :
      (b : Bool × Start)
      → (end_start ans vm b).0 ≡ some sent
      → (b.0 ≡ true) × (b.1.sent ≡ sent) × ((end_start ans vm b).1 ≡ b.1.host)
  unfolding end_start
  end_start-requests (true, s) e = (refl, (cc), refl)
  end_start-requests (false, s) e = cc

  -- What a start that returned has done.
  pub record IsStarted (h' : Host) : Type 0 where
    pub mac : Text
    pub of_ip : ip_to_mac spec.ip ≡ some mac
    pub configured : sent ≡ requests vm spec mac
    pub alive : vm_is_alive vm h' ≡ true

  enter-IsStarted :
      (b : Bool × Host) → (enter ans vm spec b).0 ≡ some sent → IsStarted (enter ans vm spec b).1
  unfolding enter launch attempt make_tap
  enter-IsStarted (false, g) e = cc
  enter-IsStarted (true, g) e =
      let end = resumed ans vm spec g (create_tap ans vm spec.ip g) in
      let done = end_start-requests end e in
      let made = resumed-requests ans vm spec g (create_tap ans vm spec.ip g) done.0 in
      record {
        mac = made.0;
        of_ip = made.1;
        configured = sym done.1 ∙ made.2;
        alive = ap (vm_is_alive vm) done.2 ∙ IsUp-alive ans vm end.1.host made.3;
      }

  -- A start that returns has a valid address and a live process, to which it has sent, in this
  -- order, the kernel with its arguments, the VM's own copy of the rootfs, the interface on the
  -- VM's TAP device with the MAC that belongs to the address, the CPUs and the memory, and the
  -- start of the instance, and nothing else.
  pub start_firecracker-IsStarted :
      (start_firecracker ans cfg vm spec h).0 ≡ some sent
      → (validate_ip cfg spec.ip ≡ true) × IsStarted (start_firecracker ans cfg vm spec h).1
  unfolding start_firecracker
  start_firecracker-IsStarted e = elim (Bool-cases (validate_ip cfg spec.ip)) [
    | inr bad ↦ let wrong : none ≡ some sent = rw bad at e in cc
    | inl valid ↦
        elim (Bool-cases (
          ans.kernel_there
          && (ans.rootfs_there && (ans.kvm_there && not (ans.raises Call.make_socket_dir))))) [
            | inl ok ↦ (
              valid,
              rw valid (
                  rw ok (
                    enter-IsStarted (prepare_writable_rootfs ans vm h) (rw ok at (rw valid at e)))),
            )
            | inr bad ↦ let wrong : none ≡ some sent = rw bad at (rw valid at e) in cc
          ]
  ]
