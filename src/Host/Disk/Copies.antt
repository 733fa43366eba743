-- ===== src/Host/Disk/Copies.antt =====
-- orchestrator/services/smolvm.py: what `_prepare_writable_rootfs` leaves of its own.
use hack_bento.Base.{
  ◌≡◌, refl, arith, ap, sym, subst, ◌∙◌, Bool, true, false, not, ◌||◌, [], ◌∷◌, Option, none, some,
  Text, Bool-cases, inl, inr, find_first,
}
use hack_bento.Host.{
  Host, Answers, Call, Content, Injection, Resource, same, held_as, place, drop, forget, get,
  attempt, remove_if_there,
}
use hack_bento.Host.Sets.{
  held_as-place, drop-absent, remove_if_there-absent, remove_if_there-rest, get-assign, same_refl,
  where_is_twice,
}
use hack_bento.Host.Quiet.{attempt-ok, remove_if_there-IsQuiet}
use hack_bento.Host.Disk.{
  select_rootfs_copy_dir, prepare_writable_rootfs, copy_image, remember, inject, rebuild,
  drop_copies, or_drop, make_copy,
}

-- The copy of the VM that is there.
abbrev pub copy_of : Text → Host → Option Resource
copy_of vm h = find_first (same (Resource.rootfs_copy Content.clean vm)) h.held

-- The VM has a rootfs copy of this content, and no half of one.
pub record IsCopied (vm : Text) (c : Content) (h : Host) : Type 0 where
  pub copy : copy_of vm h ≡ some (Resource.rootfs_copy c vm)
  pub tmp : held_as (Resource.rootfs_tmp vm) h.held ≡ none

-- The content of the copy, by how the injection ends.
abbrev pub content_after : Injection → Content
content_after Injection.written = Content.injected
content_after Injection.skipped = Content.clean
content_after Injection.failed = Content.clean

-- After a raise: no copy, no half of one, no record.
pub record IsDropped (vm : Text) (h : Host) : Type 0 where
  pub tmp : held_as (Resource.rootfs_tmp vm) h.held ≡ none
  pub copy : held_as (Resource.rootfs_copy Content.clean vm) h.held ≡ none
  pub forgotten : forget vm h.fc_rootfs_paths ≡ h.fc_rootfs_paths

placed-IsCopied :
    (vm : Text) (c : Content) (h : Host)
    → held_as (Resource.rootfs_tmp vm) h.held ≡ none
    → IsCopied vm c (place (Resource.rootfs_copy c vm) h)
placed-IsCopied vm c h e = record {
  copy = rw (same_refl (Resource.rootfs_copy c vm)) refl;
  tmp = held_as-place (Resource.rootfs_tmp vm) (Resource.rootfs_copy c vm) h ∙ e;
}

module _ (ans : Answers) (vm : Text) where
  copy_image-IsCopied :
      (copying moving : Call) (h : Host)
      → (copy_image ans copying moving vm h).0 ≡ true
      → IsCopied vm Content.clean (copy_image ans copying moving vm h).1
  unfolding copy_image
  copy_image-IsCopied copying moving h ok = elim (Bool-cases (ans.raises copying)) [
    | inl e ↦ absurd (ground arith)
    | inr e ↦ rw e (elim (Bool-cases (ans.raises moving)) [
      | inl e' ↦ absurd (ground arith)
      | inr e' ↦ rw e' (
          placed-IsCopied vm Content.clean (drop (Resource.rootfs_tmp vm) h)
            (drop-absent (Resource.rootfs_tmp vm) h))
    ])
  ]

  copy_image-paths :
      (copying moving : Call) (h : Host)
      → (copy_image ans copying moving vm h).1.fc_rootfs_paths ≡ h.fc_rootfs_paths
  unfolding copy_image
  copy_image-paths copying moving h = ground arith

  rebuild-IsCopied :
      (h : Host)
      → (rebuild ans vm h).0 ≡ true
      → IsCopied vm Content.clean (rebuild ans vm h).1
        × ((rebuild ans vm h).1.fc_rootfs_paths ≡ h.fc_rootfs_paths)
  unfolding rebuild attempt
  rebuild-IsCopied h ok =
      let clear = remove_if_there ans Call.clear_tmp_again (Resource.rootfs_tmp vm) in
      let again = copy_image ans Call.copy_again Call.move_again vm in
      let first = attempt-ok clear (again ∷ []) h ok in
      let second = attempt-ok again [] (clear h).1 first.1 in
      let end = first.2 ∙ second.2 in
      (
        subst (IsCopied vm Content.clean) (sym end)
            (copy_image-IsCopied Call.copy_again Call.move_again (clear h).1 second.0),
        ap (λ (x : Host). x.fc_rootfs_paths) end
            ∙ (copy_image-paths Call.copy_again Call.move_again (clear h).1
                ∙ (remove_if_there-rest ans Call.clear_tmp_again (Resource.rootfs_tmp vm) h).2),
      )

  inject-IsCopied :
      (i : Injection) (h : Host)
      → IsCopied vm Content.clean h
      → (inject ans vm i h).0 ≡ true
      → IsCopied vm (content_after i) (inject ans vm i h).1
        × ((inject ans vm i h).1.fc_rootfs_paths ≡ h.fc_rootfs_paths)
  unfolding inject
  inject-IsCopied Injection.skipped h c ok = (c, refl)
  inject-IsCopied Injection.written h c ok = (placed-IsCopied vm Content.injected h c.tmp, refl)
  inject-IsCopied Injection.failed h c ok =
      rebuild-IsCopied (place (Resource.rootfs_copy Content.torn vm) h) ok

  remember-IsCopied :
      (h : Host) → IsCopied vm Content.clean h → IsCopied vm Content.clean (remember vm h).1
  unfolding remember
  remember-IsCopied h c = record { copy = c.copy; tmp = c.tmp }

  remember-get :
      (h : Host)
      → get vm (remember vm h).1.fc_rootfs_paths ≡ some (Resource.rootfs_copy Content.clean vm)
  unfolding remember
  remember-get h = get-assign vm (Resource.rootfs_copy Content.clean vm) h.fc_rootfs_paths

  make_copy-IsCopied :
      (h : Host)
      → (make_copy ans vm h).0 ≡ true
      → IsCopied vm (content_after ans.injection) (make_copy ans vm h).1
        × (get vm (make_copy ans vm h).1.fc_rootfs_paths
            ≡ some (Resource.rootfs_copy Content.clean vm))
  unfolding make_copy
  make_copy-IsCopied h ok =
      let s1 = remove_if_there ans Call.clear_tmp (Resource.rootfs_tmp vm) in
      let s2 = remove_if_there ans Call.clear_copy (Resource.rootfs_copy Content.clean vm) in
      let s3 = copy_image ans Call.copy Call.move vm in
      let s4 = remember vm in
      let s5 = inject ans vm ans.injection in
      let p1 = attempt-ok s1 (s2 ∷ s3 ∷ s4 ∷ s5 ∷ []) h ok in
      let h1 = (s1 h).1 in
      let p2 = attempt-ok s2 (s3 ∷ s4 ∷ s5 ∷ []) h1 p1.1 in
      let h2 = (s2 h1).1 in
      let p3 = attempt-ok s3 (s4 ∷ s5 ∷ []) h2 p2.1 in
      let h3 = (s3 h2).1 in
      let p4 = attempt-ok s4 (s5 ∷ []) h3 p3.1 in
      let h4 = (s4 h3).1 in
      let p5 = attempt-ok s5 [] h4 p4.1 in
      let end = p1.2 ∙ (p2.2 ∙ (p3.2 ∙ (p4.2 ∙ p5.2))) in
      let copied = remember-IsCopied h3 (copy_image-IsCopied Call.copy Call.move h2 p3.0) in
      let injected = inject-IsCopied ans.injection h4 copied p5.0 in
      (
        subst (IsCopied vm (content_after ans.injection)) (sym end) injected.0,
        ap (λ (x : Host). get vm x.fc_rootfs_paths) end
            ∙ (ap (get vm) injected.1 ∙ remember-get h3),
      )

  drop_copies-IsDropped :
      (h : Host)
      → ans.raises Call.drop_tmp ≡ false
      → ans.raises Call.drop_copy ≡ false
      → IsDropped vm (drop_copies ans vm h)
  unfolding drop_copies
  drop_copies-IsDropped h tmp copy =
      let h1 = record h { fc_rootfs_paths = forget vm h.fc_rootfs_paths } in
      let h2 = (remove_if_there ans Call.drop_tmp (Resource.rootfs_tmp vm) h1).1 in
      let clean = Resource.rootfs_copy Content.clean vm in
      let quiet =
        remove_if_there-IsQuiet vm (Resource.rootfs_tmp vm) ans Call.drop_copy clean h2 refl in
      let paths =
        (remove_if_there-rest ans Call.drop_copy clean h2).2
        ∙ (remove_if_there-rest ans Call.drop_tmp (Resource.rootfs_tmp vm) h1).2 in
      record {
        tmp =
            quiet.resource
            ∙ remove_if_there-absent ans Call.drop_tmp (Resource.rootfs_tmp vm) h1 tmp;
        copy = remove_if_there-absent ans Call.drop_copy clean h2 copy;
        forgotten = ap (forget vm) paths ∙ (where_is_twice _ h.fc_rootfs_paths ∙ sym paths);
      }

  or_drop-IsDropped :
      (b : Bool × Host)
      → ans.raises Call.drop_tmp ≡ false
      → ans.raises Call.drop_copy ≡ false
      → (or_drop ans vm b).0 ≡ false
      → IsDropped vm (or_drop ans vm b).1
  unfolding or_drop
  or_drop-IsDropped (true, h) tmp copy e = cc
  or_drop-IsDropped (false, h) tmp copy e = drop_copies-IsDropped h tmp copy

  -- `_prepare_writable_rootfs` raises.
  pub prepare-IsDropped :
      (h : Host)
      → ans.raises Call.drop_tmp ≡ false
      → ans.raises Call.drop_copy ≡ false
      → IsDropped vm h
      → (prepare_writable_rootfs ans vm h).0 ≡ false
      → IsDropped vm (prepare_writable_rootfs ans vm h).1
  unfolding prepare_writable_rootfs
  prepare-IsDropped h tmp copy before e =
      elim (Bool-cases (not (select_rootfs_copy_dir ans) || ans.raises Call.make_copy_dir)) [
        | inl b ↦ rw b before
        | inr b ↦ rw b (or_drop-IsDropped (make_copy ans vm h) tmp copy (rw b at e))
      ]

  or_drop-ok :
      (b : Bool × Host) → (or_drop ans vm b).0 ≡ true → (b.0 ≡ true) × (or_drop ans vm b ≡ b)
  unfolding or_drop
  or_drop-ok (true, h) e = (refl, refl)
  or_drop-ok (false, h) e = cc

  -- Where `_prepare_writable_rootfs` returns, the copy of the VM is the bytes of the image, with the
  -- injected resolv.conf if the injection has written it, and never what a failed injection left;
  -- there is no temporary file of the VM, and the path of the copy is recorded.
  pub prepare-IsCopied :
      (h : Host)
      → (prepare_writable_rootfs ans vm h).0 ≡ true
      → IsCopied vm (content_after ans.injection) (prepare_writable_rootfs ans vm h).1
        × (get vm (prepare_writable_rootfs ans vm h).1.fc_rootfs_paths
            ≡ some (Resource.rootfs_copy Content.clean vm))
  unfolding prepare_writable_rootfs
  prepare-IsCopied h ok =
      elim (Bool-cases (not (select_rootfs_copy_dir ans) || ans.raises Call.make_copy_dir)) [
        | inl b ↦ let bad : false ≡ true = rw b at ok in cc
        | inr b ↦
            let kept = or_drop-ok (make_copy ans vm h) (rw b at ok) in
            let made = make_copy-IsCopied h kept.0 in
            rw b (
              subst
                (λ (x : Bool × Host).
                  IsCopied vm (content_after ans.injection) x.1
                  × (get vm x.1.fc_rootfs_paths ≡ some (Resource.rootfs_copy Content.clean vm)))
                (sym kept.1) made)
      ]
