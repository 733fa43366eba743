-- ===== src/Host/Network/Laws.antt =====
-- orchestrator/services/network.py: the TAP device of a VM, as seen from what is not of this VM.
use hack_bento.Base.{
  ◌≡◌, ◌≢◌, refl, arith, Bool, true, false, [], ◌∷◌, Option, none, some, Text, Bool-cases, inl, inr,
}
use hack_bento.Address.{ip_to_mac}
use hack_bento.Host.{
  Host, Answers, Command, Exit, Resource, same, has, place, drop, attempt, tap_name, nft_table_name,
}
use hack_bento.Host.Quiet.{
  IsQuiet, attempt-IsQuiet, refl-IsQuiet, trans-IsQuiet, place-IsQuiet, drop-IsQuiet,
}
use hack_bento.Host.Network.{
  must_run, may_run, load_table, enable_tap, apply_tap_antispoof, remove_tap_antispoof, delete_tap,
  create_tap, undo_tap, add_device, delete_link,
}

module _ (vm : Text) (r : Resource) (no_tap : same r (Resource.tap (tap_name vm)) ≡ false)
    (no_table : same r (Resource.table (nft_table_name vm) [] [] []) ≡ false) where
  must_run-IsQuiet :
      (e : Exit) (effect : Host → Host) (h : Host)
      → IsQuiet vm r h (effect h)
      → IsQuiet vm r h (must_run e effect h).1
  must_run-IsQuiet Exit.done effect h q = q
  must_run-IsQuiet Exit.nonzero effect h q = refl-IsQuiet vm r h
  must_run-IsQuiet Exit.raised effect h q = refl-IsQuiet vm r h

  may_run-IsQuiet :
      (e : Exit) (effect : Host → Host) (h : Host)
      → IsQuiet vm r h (effect h)
      → IsQuiet vm r h (may_run e effect h).1
  may_run-IsQuiet Exit.done effect h q = q
  may_run-IsQuiet Exit.nonzero effect h q = refl-IsQuiet vm r h
  may_run-IsQuiet Exit.raised effect h q = refl-IsQuiet vm r h

  load_table-IsQuiet :
      (ans : Answers) (dev ip : Text) (mac : Option Text) (h : Host)
      → IsQuiet vm r h (load_table ans vm dev ip mac h).1
  unfolding load_table
  load_table-IsQuiet ans dev ip none h = refl-IsQuiet vm r h
  load_table-IsQuiet ans dev ip (some mac) h =
      may_run-IsQuiet (ans.command Command.nft_load)
        (place (Resource.table (nft_table_name vm) dev mac ip)) h
        (place-IsQuiet vm r (Resource.table (nft_table_name vm) dev mac ip) h no_table)

  pub delete_tap-IsQuiet : (ans : Answers) (h : Host) → IsQuiet vm r h (delete_tap ans vm h).1
  unfolding delete_tap remove_tap_antispoof
  delete_tap-IsQuiet ans h =
      attempt-IsQuiet vm r (remove_tap_antispoof ans vm ∷ delete_link ans (tap_name vm) ∷ [])
        (
          λ s.
              may_run-IsQuiet (ans.command Command.nft_delete)
                (drop (Resource.table (nft_table_name vm) [] [] [])) s
                (drop-IsQuiet vm r (Resource.table (nft_table_name vm) [] [] []) s no_table),
          (
            λ s.
                may_run-IsQuiet (ans.command Command.link_delete)
                  (drop (Resource.tap (tap_name vm))) s
                  (drop-IsQuiet vm r (Resource.tap (tap_name vm)) s no_tap),
            tt,
          ),
        )
        h

  add_device-IsQuiet :
      (ans : Answers) (h : Host) → IsQuiet vm r h (add_device ans (tap_name vm) h).1
  unfolding add_device
  add_device-IsQuiet ans h = elim (Bool-cases (has (Resource.tap (tap_name vm)) h.held)) [
    | inl e ↦ rw e (refl-IsQuiet vm r h)
    | inr e ↦ rw e (
        must_run-IsQuiet (ans.command Command.tuntap_add) (place (Resource.tap (tap_name vm))) h
          (place-IsQuiet vm r (Resource.tap (tap_name vm)) h no_tap))
  ]

  undo_tap-IsQuiet :
      (ans : Answers) (h : Host) (b : Bool × Host)
      → IsQuiet vm r h b.1
      → IsQuiet vm r h (undo_tap ans vm b).1
  unfolding undo_tap
  undo_tap-IsQuiet ans h (true, s) q = q
  undo_tap-IsQuiet ans h (false, s) q = trans-IsQuiet vm r q (delete_tap-IsQuiet ans s)

  enable_tap-IsQuiet :
      (ans : Answers) (ip : Text) (h : Host) → IsQuiet vm r h (enable_tap ans vm ip h).1
  unfolding enable_tap apply_tap_antispoof
  enable_tap-IsQuiet ans ip h =
      attempt-IsQuiet vm r
        (must_run (ans.command Command.set_master) (λ x. x)
          ∷ must_run (ans.command Command.set_up) (λ x. x)
          ∷ apply_tap_antispoof ans vm (tap_name vm) ip
          ∷ [])
        (
          λ s. must_run-IsQuiet (ans.command Command.set_master) (λ x. x) s (refl-IsQuiet vm r s),
          (
            λ s. must_run-IsQuiet (ans.command Command.set_up) (λ x. x) s (refl-IsQuiet vm r s),
            (λ s. load_table-IsQuiet ans (tap_name vm) ip (ip_to_mac ip) s, tt),
          ),
        )
        h

  pub create_tap-IsQuiet :
      (ans : Answers) (ip : Text) (h : Host) → IsQuiet vm r h (create_tap ans vm ip h).1
  unfolding create_tap
  create_tap-IsQuiet ans ip h = elim (Bool-cases (add_device ans (tap_name vm) h).0) [
    | inr e ↦ rw e (add_device-IsQuiet ans h)
    | inl e ↦ rw e (
        undo_tap-IsQuiet ans h (enable_tap ans vm ip (add_device ans (tap_name vm) h).1) (
          trans-IsQuiet vm r (add_device-IsQuiet ans h)
            (enable_tap-IsQuiet ans ip (add_device ans (tap_name vm) h).1)))
  ]

pub delete_tap-done :
    (ans : Answers) (vm : Text) (h : Host)
    → ans.command Command.nft_delete ≡ Exit.done
    → ans.command Command.link_delete ≡ Exit.done
    → delete_tap ans vm h ≡ (
      true,
      drop (Resource.tap (tap_name vm)) (drop (Resource.table (nft_table_name vm) [] [] []) h),
    )
unfolding delete_tap remove_tap_antispoof attempt
delete_tap-done ans vm h t l = rw t (rw l refl)

-- Only a command that cannot be run, or that does not end, makes `delete_tap` raise.
pub delete_tap-fine :
    (ans : Answers) (vm : Text) (h : Host)
    → ans.command Command.nft_delete ≢ Exit.raised
    → ans.command Command.link_delete ≢ Exit.raised
    → (delete_tap ans vm h).0 ≡ true
unfolding delete_tap remove_tap_antispoof attempt
delete_tap-fine ans vm h t l = ground arith
