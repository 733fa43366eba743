-- ===== src/Host/Network/Ends.antt =====
-- orchestrator/services/network.py: the ends of `create_tap` and `delete_tap`.
use hack_bento.Base.{
  ◌≡◌, refl, arith, ap, sym, ◌∙◌, Bool, true, false, [], Option, none, some, Text, Bool-cases, inl,
  inr, ◌⊎◌,
}
use hack_bento.Address.{ip_to_mac}
use hack_bento.Host.{
  Host, Answers, Command, Exit, Resource, has, held_as, place, drop, attempt, tap_name,
  nft_table_name,
}
use hack_bento.Host.Sets.{held_as-none, held_as-drop, drop-absent}
use hack_bento.Host.Network.Laws.{delete_tap-done}
use hack_bento.Host.Network.{
  must_run, load_table, enable_tap, apply_tap_antispoof, remove_tap_antispoof, delete_tap,
  create_tap, undo_tap, add_device,
}

delete_tap-paths :
    (ans : Answers) (vm : Text) (h : Host)
    → (delete_tap ans vm h).1.fc_rootfs_paths ≡ h.fc_rootfs_paths
unfolding delete_tap remove_tap_antispoof attempt
delete_tap-paths ans vm h = ground arith

load_table-paths :
    (ans : Answers) (vm dev ip : Text) (mac : Option Text) (h : Host)
    → (load_table ans vm dev ip mac h).1.fc_rootfs_paths ≡ h.fc_rootfs_paths
unfolding load_table
load_table-paths ans vm dev ip none h = refl
load_table-paths ans vm dev ip (some mac) h = ground arith

enable_tap-paths :
    (ans : Answers) (vm ip : Text) (h : Host)
    → (enable_tap ans vm ip h).1.fc_rootfs_paths ≡ h.fc_rootfs_paths
unfolding enable_tap attempt apply_tap_antispoof
enable_tap-paths ans vm ip h =
    ground (arith, load_table-paths ans vm (tap_name vm) ip (ip_to_mac ip) h)

undo_tap-paths :
    (ans : Answers) (vm : Text) (b : Bool × Host)
    → (undo_tap ans vm b).1.fc_rootfs_paths ≡ b.1.fc_rootfs_paths
unfolding undo_tap
undo_tap-paths ans vm (true, h) = refl
undo_tap-paths ans vm (false, h) = delete_tap-paths ans vm h

add_device-paths :
    (ans : Answers) (dev : Text) (h : Host)
    → (add_device ans dev h).1.fc_rootfs_paths ≡ h.fc_rootfs_paths
unfolding add_device
add_device-paths ans dev h = ground arith

pub create_tap-paths :
    (ans : Answers) (vm ip : Text) (h : Host)
    → (create_tap ans vm ip h).1.fc_rootfs_paths ≡ h.fc_rootfs_paths
unfolding create_tap
create_tap-paths ans vm ip h =
    let h1 = (add_device ans (tap_name vm) h).1 in
    let a = add_device-paths ans (tap_name vm) h in
    elim (Bool-cases (add_device ans (tap_name vm) h).0) [
      | inl e ↦
          rw e
            (undo_tap-paths ans vm (enable_tap ans vm ip h1) ∙ (enable_tap-paths ans vm ip h1 ∙ a))
      | inr e ↦ rw e a
    ]

must_run_cases :
    (e : Exit) (effect : Host → Host) (h : Host)
    → (must_run e effect h ≡ (false, h)) ⊎ ((must_run e effect h).0 ≡ true)
must_run_cases Exit.done effect h = inr refl
must_run_cases Exit.nonzero effect h = inl refl
must_run_cases Exit.raised effect h = inl refl

-- A device of the name that is there, or a command that fails, leaves the host as it is.
add_device-cases :
    (ans : Answers) (dev : Text) (h : Host)
    → (add_device ans dev h ≡ (false, h))
      ⊎ (((add_device ans dev h).0 ≡ true) × (held_as (Resource.tap dev) h.held ≡ none))
unfolding add_device
add_device-cases ans dev h = elim (Bool-cases (has (Resource.tap dev) h.held)) [
  | inl e ↦ inl (rw e refl)
  | inr e ↦
      rw e (elim (must_run_cases (ans.command Command.tuntap_add) (place (Resource.tap dev)) h) [
        | inl c ↦ inl c
        | inr c ↦ inr (c, held_as-none (Resource.tap dev) h.held e)
      ])
]

-- The device and the table are as they were.
pub record IsUntapped (vm : Text) (h g : Host) : Type 0 where
  pub tap :
      held_as (Resource.tap (tap_name vm)) g.held ≡ held_as (Resource.tap (tap_name vm)) h.held
  pub table :
      held_as (Resource.table (nft_table_name vm) [] [] []) g.held
      ≡ held_as (Resource.table (nft_table_name vm) [] [] []) h.held

module _ (ans : Answers) (vm : Text) where
  abbrev own_tap : Resource
  own_tap = Resource.tap (tap_name vm)

  abbrev own_table : Resource
  own_table = Resource.table (nft_table_name vm) [] [] []

  module _ (t : ans.command Command.nft_delete ≡ Exit.done)
      (l : ans.command Command.link_delete ≡ Exit.done) where
    undo_tap-IsUntapped :
        (h : Host) (b : Bool × Host)
        → held_as own_tap h.held ≡ none
        → held_as own_table h.held ≡ none
        → (undo_tap ans vm b).0 ≡ false
        → IsUntapped vm h (undo_tap ans vm b).1
    unfolding undo_tap
    undo_tap-IsUntapped h (true, g) tap table e = cc
    undo_tap-IsUntapped h (false, g) tap table e =
        let end = delete_tap-done ans vm g t l in
        record {
          tap =
              ap (λ (b : Bool × Host). held_as own_tap b.1.held) end
              ∙ (drop-absent own_tap (drop own_table g) ∙ sym tap);
          table =
              ap (λ (b : Bool × Host). held_as own_table b.1.held) end
              ∙ (held_as-drop own_table own_tap (drop own_table g)
                  ∙ (drop-absent own_table g ∙ sym table));
        }

    pub create_tap-IsUntapped :
        (ip : Text) (h : Host)
        → (held_as own_tap h.held ≡ none → held_as own_table h.held ≡ none)
        → (create_tap ans vm ip h).0 ≡ false
        → IsUntapped vm h (create_tap ans vm ip h).1
    unfolding create_tap
    create_tap-IsUntapped ip h alone e = elim (add_device-cases ans (tap_name vm) h) [
      | inl c ↦ rw c (record { tap = refl; table = refl })
      | inr c ↦ rw (c.0) (
          undo_tap-IsUntapped h (enable_tap ans vm ip (add_device ans (tap_name vm) h).1) c.1
            (alone c.1) (rw (c.0) at e))
    ]

  pub create_tap-ok :
      (ip : Text) (h : Host) → (create_tap ans vm ip h).0 ≡ true → held_as own_tap h.held ≡ none
  unfolding create_tap
  create_tap-ok ip h e = elim (add_device-cases ans (tap_name vm) h) [
    | inl c ↦ let bad : false ≡ true = rw c at e in cc
    | inr c ↦ c.1
  ]
