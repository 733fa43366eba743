-- ===== src/Host/Network.antt =====
-- orchestrator/services/network.py: the TAP device of a VM and the nft table that limits it.
pub mod Laws
pub mod Ends
use hack_bento.Base.{
  Bool, true, false, not, ◌&&◌, List, [], ◌∷◌, Option, none, some, Text, codes, contains,
  starts_with, if◌then◌else◌, map, where_is,
}
use hack_bento.Address.{ip_to_mac}
use hack_bento.Host.{
  Host, Answers, Command, Exit, Resource, place, drop, attempt, tap_name, nft_table_name, has, name,
}

-- A command that must end with 0 (`check=True`).
abbrev pub must_run : Exit → (Host → Host) → Host → Bool × Host
must_run Exit.done effect h = (true, effect h)
must_run Exit.nonzero effect h = (false, h)
must_run Exit.raised effect h = (false, h)

-- A command that may end otherwise (`check=False`).
abbrev pub may_run : Exit → (Host → Host) → Host → Bool × Host
may_run Exit.done effect h = (true, effect h)
may_run Exit.nonzero effect h = (true, h)
may_run Exit.raised effect h = (false, h)

load_table : Answers → Text → Text → Text → Option Text → Host → Bool × Host
load_table ans vm dev ip none h = (false, h)
load_table ans vm dev ip (some mac) h =
    may_run (ans.command Command.nft_load) (place (Resource.table (nft_table_name vm) dev mac ip)) h

-- `_apply_tap_antispoof`; on a text that is no address `ip_to_mac` raises.
unfoldable pub apply_tap_antispoof : Answers → Text → Text → Text → Host → Bool × Host
unfolding load_table
apply_tap_antispoof ans vm dev ip h = load_table ans vm dev ip (ip_to_mac ip) h

-- `_remove_tap_antispoof`
unfoldable pub remove_tap_antispoof : Answers → Text → Host → Bool × Host
remove_tap_antispoof ans vm h =
    may_run (ans.command Command.nft_delete) (drop (Resource.table (nft_table_name vm) [] [] [])) h

-- `ip link del`
abbrev pub delete_link : Answers → Text → Host → Bool × Host
delete_link ans dev = may_run (ans.command Command.link_delete) (drop (Resource.tap dev))

-- `delete_tap`
unfoldable pub delete_tap : Answers → Text → Host → Bool × Host
unfolding attempt remove_tap_antispoof
delete_tap ans vm = attempt (remove_tap_antispoof ans vm ∷ delete_link ans (tap_name vm) ∷ [])

-- The `except` of `create_tap`; it raises in each case.
undo_tap : Answers → Text → Bool × Host → Bool × Host
unfolding delete_tap
undo_tap ans vm (fine, h) = if fine then (true, h) else (false, (delete_tap ans vm h).1)

add_device : Answers → Text → Host → Bool × Host
add_device ans dev h =
    if has (Resource.tap dev) h.held
    then (false, h)
    else must_run (ans.command Command.tuntap_add) (place (Resource.tap dev)) h

-- The `try` block of `create_tap`.
enable_tap : Answers → Text → Text → Host → Bool × Host
unfolding attempt apply_tap_antispoof
enable_tap ans vm ip = attempt (
    must_run (ans.command Command.set_master) (λ x. x)
    ∷ must_run (ans.command Command.set_up) (λ x. x)
    ∷ apply_tap_antispoof ans vm (tap_name vm) ip
    ∷ [])

-- `create_tap`. A device of that name that is there makes `ip tuntap add` fail.
unfoldable pub create_tap : Answers → Text → Text → Host → Bool × Host
unfolding undo_tap add_device enable_tap
create_tap ans vm ip h =
    let (fine, h1) = add_device ans (tap_name vm) h in
    if fine then undo_tap ans vm (enable_tap ans vm ip h1) else (false, h1)

-- `cleanup_orphaned_antispoof`: the tables `hb_…` of no VM in the set go.
unfoldable pub is_stale_table : List Text → Resource → Bool
is_stale_table active (Resource.table n _ _ _) =
    starts_with n (codes "hb_") && not (contains (map nft_table_name active) n)
is_stale_table active _ = false

-- `nft delete table`, if the table is to go.
unfoldable pub delete_stale : Exit → Bool → Resource → Host → Bool × Host
delete_stale ends true r h = may_run ends (drop r) h
delete_stale ends false r h = (true, h)

-- The loop over the tables that are listed; `false`: a command has raised.
unfoldable pub delete_tables : (Text → Exit) → List Text → List Resource → Host → Bool × Host
unfolding is_stale_table delete_stale
delete_tables deletes active [] h = (true, h)
delete_tables deletes active (r ∷ tables) h =
    let (fine, h') = delete_stale (deletes (name r)) (is_stale_table active r) r h in
    if fine then delete_tables deletes active tables h' else (false, h')

-- `lists` says how `nft list tables` ends, `deletes` how `nft delete table` does for each table.
-- Also with `check=False` a command that cannot be run raises, here as in `may_run`.
unfoldable pub cleanup_orphaned_antispoof : Exit → (Text → Exit) → List Text → Host → Bool × Host
unfolding delete_tables
cleanup_orphaned_antispoof Exit.done deletes active h = delete_tables deletes active h.held h
cleanup_orphaned_antispoof Exit.nonzero deletes active h = (true, h)
cleanup_orphaned_antispoof Exit.raised deletes active h = (false, h)
