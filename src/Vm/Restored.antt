-- ===== src/Vm/Restored.antt =====
-- orchestrator/services/smolvm.py: `_start_firecracker` where it raises: the host after it.
use hack_bento.Base.{
  ◌≡◌, refl, ap, sym, ◌∙◌, Bool, true, false, not, ◌&&◌, [], none, some, Text, Bool-cases, inl, inr,
  ◌⊎◌, any,
}
use hack_bento.Model.{Settings}
use hack_bento.Pool.{validate_ip}
use hack_bento.Host.{
  Host, Answers, Call, Content, Resource, Process, same, held_as, forget, get, attempt, tap_name,
  nft_table_name, short,
}
use hack_bento.Host.Sets.{held_as-same, forget_unused}
use hack_bento.Host.Quiet.{IsQuiet}
use hack_bento.Host.Disk.{prepare_writable_rootfs, in_leaf}
use hack_bento.Host.Disk.Laws.{prepare-IsQuiet}
use hack_bento.Host.Disk.Copies.{IsDropped, IsCopied, prepare-IsDropped, prepare-IsCopied}
use hack_bento.Host.Network.{create_tap}
use hack_bento.Host.Network.Laws.{create_tap-IsQuiet}
use hack_bento.Host.Network.Ends.{create_tap-IsUntapped, create_tap-ok, create_tap-paths}
use hack_bento.Vm.{
  VmSpec, Start, make_tap, launch, killed, clean_up, end_start, enter, start_firecracker,
}
use hack_bento.Vm.Undo.{
  UndoWorks, IsApart, IsOffline, clean_up-other, clean_up-socket, clean_up-leaf, clean_up-copy,
  clean_up-tap, clean_up-processes, clean_up-fc_pids, clean_up-paths,
}
use hack_bento.Vm.Launched.{IsKept}
use hack_bento.Vm.Raised.{
  IsUnused, IsRestored, IsPrepared, tap_call, raised_at, after, resumed, tap_after, kept,
  untouched-IsKept, processes_killed, path_at_raise, leaf_empty, before_try, pids_at_tap,
}

module _ (ans : Answers) (vm : Text) (spec : VmSpec) (works : UndoWorks ans) (h g : Host)
    (unused : IsUnused ans vm h) (prepared : IsPrepared vm h g) where
  abbrev end : Host
  end = after ans vm spec g

  abbrev raised : Start
  raised = raised_at ans vm spec g

  abbrev created : Bool × Host
  created = tap_call ans vm spec g

  path : get vm raised.host.fc_rootfs_paths ≡ some (Resource.rootfs_copy Content.clean vm)
  path = path_at_raise ans vm spec h g unused prepared

  empty : any (λ (p : Process). in_leaf vm p.leaf) (killed ans vm raised).processes ≡ false
  empty = leaf_empty ans vm spec works h g unused prepared

  any-IsKept : IsKept ans vm (Resource.old_copy []) created.1 (tap_after vm created.0) raised
  any-IsKept = untouched-IsKept ans vm spec h g unused prepared

  restored_copy : held_as (Resource.rootfs_copy Content.clean vm) end.held ≡ none
  restored_copy = clean_up-copy ans vm works raised path empty

  restored_socket : held_as (Resource.socket vm) end.held ≡ none
  restored_socket = clean_up-socket ans vm works raised path empty

  restored_leaf : held_as (Resource.cgroup none vm) end.held ≡ none
  restored_leaf = clean_up-leaf ans vm works raised path empty

  -- A resource of another name or kind.
  restored_other :
      (r : Resource)
      → IsApart vm r
      → same r (Resource.log (short vm)) ≡ false
      → IsOffline vm r ⊎ (raised.tap ≡ none)
      → held_as r created.1.held ≡ held_as r g.held
      → held_as r end.held ≡ held_as r g.held
  restored_other r a log off tap =
      clean_up-other ans vm works raised path empty r a off
      ∙ ((kept ans vm spec h g unused prepared r a.leaf a.socket log).resource ∙ tap)

  restored_tmp : held_as (Resource.rootfs_tmp vm) end.held ≡ none
  restored_tmp =
      restored_other (Resource.rootfs_tmp vm) (record { copy = refl; socket = refl; leaf = refl })
        refl (inl (record { tap = refl; table = refl }))
        (IsQuiet.resource (create_tap-IsQuiet vm (Resource.rootfs_tmp vm) refl refl ans spec.ip g))
      ∙ prepared.no_tmp

  -- The device and the table of the VM, by how `create_tap` ended.
  restored_tap :
      (fine : Bool)
      → created.0 ≡ fine
      → (held_as (Resource.tap (tap_name vm)) end.held
          ≡ held_as (Resource.tap (tap_name vm)) h.held)
        × (held_as (Resource.table (nft_table_name vm) [] [] []) end.held
            ≡ held_as (Resource.table (nft_table_name vm) [] [] []) h.held)
  restored_tap true e =
      let dev : raised.tap ≡ some (tap_name vm) = any-IsKept.dev ∙ ap (tap_after vm) e in
      let gone = clean_up-tap ans vm works raised path empty (tap_name vm) dev in
      let no_tap =
        sym (IsQuiet.resource (prepared.quiet (Resource.tap (tap_name vm)) refl refl))
        ∙ create_tap-ok ans vm spec.ip g e in
      (gone.0 ∙ sym no_tap, gone.1 ∙ sym (unused.alone no_tap))
  restored_tap false e =
      let tap = Resource.tap (tap_name vm) in
      let table = Resource.table (nft_table_name vm) [] [] [] in
      let was_tap = IsQuiet.resource (prepared.quiet tap refl refl) in
      let was_table = IsQuiet.resource (prepared.quiet table refl refl) in
      let same_net =
        create_tap-IsUntapped ans vm works.nft_delete works.link_delete spec.ip g
          (λ no_tap. was_table ∙ unused.alone (sym was_tap ∙ no_tap)) e in
      let dev : raised.tap ≡ none = any-IsKept.dev ∙ ap (tap_after vm) e in
      (
        restored_other tap (record { copy = refl; socket = refl; leaf = refl }) refl (inr dev)
              same_net.tap
            ∙ was_tap,
        restored_other table (record { copy = refl; socket = refl; leaf = refl }) refl (inr dev)
              same_net.table
            ∙ was_table,
      )

  -- A resource that is not of the VM.
  restored_rest :
      (r : Resource)
      → IsApart vm r
      → IsOffline vm r
      → same r (Resource.rootfs_tmp vm) ≡ false
      → same r (Resource.log (short vm)) ≡ false
      → held_as r end.held ≡ held_as r h.held
  restored_rest r a off tmp log =
      restored_other r a log (inl off)
        (IsQuiet.resource (create_tap-IsQuiet vm r off.tap off.table ans spec.ip g))
      ∙ IsQuiet.resource (prepared.quiet r tmp a.copy)

  -- A resource of the name of one that is as it was.
  restored_as :
      (r s : Resource)
      → held_as s end.held ≡ held_as s h.held
      → same r s ≡ true
      → held_as r end.held ≡ held_as r h.held
  restored_as r s e same_name =
      held_as-same r s end.held same_name ∙ (e ∙ sym (held_as-same r s h.held same_name))

  restored_resource :
      (r : Resource)
      → same r (Resource.log (short vm)) ≡ false
      → held_as r end.held ≡ held_as r h.held
  restored_resource r log =
      let net = restored_tap created.0 refl in
      let tap = Resource.tap (tap_name vm) in
      let table = Resource.table (nft_table_name vm) [] [] [] in
      let copy = Resource.rootfs_copy Content.clean vm in
      elim (Bool-cases (same r copy)) [
        | inl e ↦ restored_as r copy (restored_copy ∙ sym unused.copy) e
        | inr no_copy ↦ elim (Bool-cases (same r (Resource.rootfs_tmp vm))) [
          | inl e ↦ restored_as r (Resource.rootfs_tmp vm) (restored_tmp ∙ sym unused.tmp) e
          | inr no_tmp ↦ elim (Bool-cases (same r (Resource.socket vm))) [
            | inl e ↦ restored_as r (Resource.socket vm) (restored_socket ∙ sym unused.socket) e
            | inr no_socket ↦ elim (Bool-cases (same r (Resource.cgroup none vm))) [
              | inl e ↦ restored_as r (Resource.cgroup none vm) (restored_leaf ∙ sym unused.leaf) e
              | inr no_leaf ↦ elim (Bool-cases (same r tap)) [
                | inl e ↦ restored_as r tap net.0 e
                | inr no_tap ↦ elim (Bool-cases (same r table)) [
                  | inl e ↦ restored_as r table net.1 e
                  | inr no_table ↦
                      restored_rest r
                        (record { copy = no_copy; socket = no_socket; leaf = no_leaf })
                        (record { tap = no_tap; table = no_table }) no_tmp log
                ]
              ]
            ]
          ]
        ]
      ]

  after-IsRestored : IsRestored vm h end
  after-IsRestored = record {
    resources = restored_resource;
    processes =
        clean_up-processes ans vm works raised path empty
        ∙ processes_killed ans vm spec works h g unused prepared;
    fc_pids =
        clean_up-fc_pids ans vm works raised path empty
        ∙ (any-IsKept.forgotten
            ∙ (ap (forget vm) (pids_at_tap ans vm spec h g unused prepared)
                ∙ forget_unused vm h.fc_pids unused.no_pid));
    fc_rootfs_paths =
        clean_up-paths ans vm works raised path empty
        ∙ (ap (forget vm) (any-IsKept.paths ∙ create_tap-paths ans vm spec.ip g)
            ∙ (IsQuiet.paths (before_try ans vm spec h g unused prepared)
                ∙ forget_unused vm h.fc_rootfs_paths unused.no_path));
  }

unchanged-IsRestored : (vm : Text) (h : Host) → IsRestored vm h h
unchanged-IsRestored vm h = record {
  resources = λ r log. refl;
  processes = refl;
  fc_pids = refl;
  fc_rootfs_paths = refl;
}

module _ (ans : Answers) (cfg : Settings) (vm : Text) (spec : VmSpec) (works : UndoWorks ans)
    (h : Host) (unused : IsUnused ans vm h) where
  abbrev copying : Bool × Host
  copying = prepare_writable_rootfs ans vm h

  copying-IsQuiet :
      (r : Resource)
      → same r (Resource.rootfs_tmp vm) ≡ false
      → same r (Resource.rootfs_copy Content.clean vm) ≡ false
      → IsQuiet vm r h copying.1
  copying-IsQuiet r tmp copy = prepare-IsQuiet vm r tmp copy ans h

  dropped-IsRestored : IsDropped vm copying.1 → IsRestored vm h copying.1
  dropped-IsRestored d =
      let tmp = Resource.rootfs_tmp vm in
      let copy = Resource.rootfs_copy Content.clean vm in
      let quiet = copying-IsQuiet (Resource.old_copy []) refl refl in
      record {
        resources = λ r log. elim (Bool-cases (same r tmp)) [
          | inl e ↦
              held_as-same r tmp copying.1.held e
              ∙ (d.tmp ∙ sym (held_as-same r tmp h.held e ∙ unused.tmp))
          | inr no_tmp ↦ elim (Bool-cases (same r copy)) [
            | inl e ↦
                held_as-same r copy copying.1.held e
                ∙ (d.copy ∙ sym (held_as-same r copy h.held e ∙ unused.copy))
            | inr no_copy ↦ IsQuiet.resource (copying-IsQuiet r no_tmp no_copy)
          ]
        ];
        processes = quiet.processes;
        fc_pids = quiet.fc_pids;
        fc_rootfs_paths =
            sym d.forgotten ∙ (quiet.paths ∙ forget_unused vm h.fc_rootfs_paths unused.no_path);
      }

  end_start-IsRestored :
      (b : Bool × Start)
      → IsRestored vm h (clean_up ans vm b.1)
      → (end_start ans vm b).0 ≡ none
      → IsRestored vm h (end_start ans vm b).1
  unfolding end_start
  end_start-IsRestored (true, s) r e = cc
  end_start-IsRestored (false, s) r e = r

  copying-IsPrepared : copying.0 ≡ true → IsPrepared vm h copying.1
  copying-IsPrepared ok =
      let made = prepare-IsCopied ans vm h ok in
      record { quiet = copying-IsQuiet; no_tmp = IsCopied.tmp made.0; recorded = made.1 }

  enter-IsRestored :
      (enter ans vm spec copying).0 ≡ none → IsRestored vm h (enter ans vm spec copying).1
  unfolding enter launch attempt make_tap
  enter-IsRestored e = elim (Bool-cases copying.0) [
    | inl ok ↦ rw ok (
        end_start-IsRestored (resumed ans vm spec copying.1 (create_tap ans vm spec.ip copying.1))
          (after-IsRestored ans vm spec works h copying.1 unused (copying-IsPrepared ok))
          (rw ok at e))
    | inr bad ↦ rw bad (
        dropped-IsRestored (
          prepare-IsDropped ans vm h works.drop_tmp works.drop_copy
            (record {
              tmp = unused.tmp;
              copy = unused.copy;
              forgotten = forget_unused vm h.fc_rootfs_paths unused.no_path;
            })
            bad))
  ]

  -- A start that raises, for an identifier and a PID that nothing on the host has, and where the
  -- calls that remove what it has made do so, leaves every file, device, table and control group,
  -- with what it holds, each process and both maps of the orchestrator as they were; only the log
  -- of the VM may be new.
  pub start_firecracker-IsRestored :
      (start_firecracker ans cfg vm spec h).0 ≡ none
      → IsRestored vm h (start_firecracker ans cfg vm spec h).1
  unfolding start_firecracker
  start_firecracker-IsRestored e =
      elim (Bool-cases (
        validate_ip cfg spec.ip
        && (ans.kernel_there
            && (ans.rootfs_there && (ans.kvm_there && not (ans.raises Call.make_socket_dir)))))) [
              | inl ok ↦ rw ok (enter-IsRestored (rw ok at e))
              | inr bad ↦ rw bad (unchanged-IsRestored vm h)
            ]
