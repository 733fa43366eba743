-- ===== src/Bundle/Safe.antt =====
-- The entries of a Compose bundle that `_validate_bundle_tar` accepts.
use hack_bento.Base.{
  ◌≡◌, refl, arith, ℕ, ◌+◌, ◌≤◌, Bool, true, false, not, ◌||◌, List, [], ◌∷◌, none, some, Text,
  codes, starts_with, ltb, All, Bool-cases, Option-cases, inl, inr,
}
use hack_bento.Extract.{isabs, join_path, normpath}
use hack_bento.Bundle.{
  Member, Upload, BundleInfo, max_bundle_file_bytes, max_bundle_extracted_bytes, dirname, cleaned,
  goes_up, is_bad_path, is_device, is_link, link_path, is_bad_link, is_protected, is_bad_member,
  check_members, has_parts, with_names, validate_bundle_tar,
}
use hack_bento.Bundle.Paths.{
  StaysBelow, components, normpath-StaysBelow, isabs-join_path, isabs-dirname,
}

-- `sum(m.size for m in members)`
abbrev pub total_size : List Member → ℕ
total_size [] = 0
total_size (m ∷ members) = m.size + total_size members

-- An entry that stays below the directory of the archive, and its link with it.
pub record IsSafe (m : Member) : Type 0 where
  pub relative : isabs m.name ≡ false
  pub below : StaysBelow (components m.name)
  pub no_device : is_device m.kind ≡ false
  pub link :
      is_link m.kind ≡ true
      → (isabs m.linkname ≡ false)
        × StaysBelow (components (join_path (dirname (normpath m.name)) m.linkname))
  pub allowed : is_protected (cleaned m.name) ≡ false

isabs-starts_with : (s : Text) → starts_with s (codes "/") ≡ false → isabs s ≡ false
isabs-starts_with [] h = refl
isabs-starts_with (c ∷ []) h = ground arith
isabs-starts_with (c ∷ d ∷ s) h = ground arith

parts_false : (a b : Bool) → (a || b) ≡ false → (a ≡ false) × (b ≡ false)
parts_false a b h = ground arith

link_safe :
    (m : Member)
    → isabs (normpath m.name) ≡ false
    → is_bad_link m ≡ false
    → is_link m.kind ≡ true
    → (isabs m.linkname ≡ false)
      × StaysBelow (components (join_path (dirname (normpath m.name)) m.linkname))
unfolding is_bad_link link_path
link_safe m rel h k =
    let both =
      parts_false (starts_with m.linkname (codes "/")) (goes_up (link_path m)) (ground arith) in
    let away = isabs-starts_with m.linkname both.0 in
    (
      away,
      normpath-StaysBelow (join_path (dirname (normpath m.name)) m.linkname)
          (isabs-join_path (dirname (normpath m.name)) m.linkname
            (isabs-dirname (normpath m.name) rel) away)
          both.1,
    )

is_bad_member-IsSafe : (m : Member) → is_bad_member m ≡ false → IsSafe m
unfolding is_bad_member is_bad_path
is_bad_member-IsSafe m h =
    let c1 = parts_false (is_bad_path m.name || is_device m.kind || is_bad_link m) _ h in
    let c2 = parts_false (is_bad_path m.name || is_device m.kind) _ c1.0 in
    let c3 = parts_false (is_bad_path m.name) _ c2.0 in
    let p1 = parts_false (starts_with m.name (codes "/") || goes_up (normpath m.name)) _ c3.0 in
    let p2 = parts_false (starts_with m.name (codes "/")) _ p1.0 in
    let rel = isabs-starts_with m.name p2.0 in
    record {
      relative = rel;
      below = normpath-StaysBelow m.name rel p2.1;
      no_device = c3.1;
      link = link_safe m p1.1 c2.1;
      allowed = c1.1;
    }

check_members-IsSafe :
    (members : List Member) (names : List Text) (total : ℕ) (end : List Text)
    → total ≤ max_bundle_extracted_bytes
    → check_members members names total ≡ some end
    → All IsSafe members × (total + total_size members ≤ max_bundle_extracted_bytes)
unfolding check_members
check_members-IsSafe [] names total end low h = (tt, omega arith)
check_members-IsSafe (m ∷ members) names total end low h =
    elim (Bool-cases (is_bad_member m || ltb max_bundle_extracted_bytes (total + m.size))) [
      | inl e ↦ absurd (refused (rw e at h))
      | inr e ↦
          let parts = parts_false (is_bad_member m) _ e in
          let rest =
            check_members-IsSafe members (cleaned m.name ∷ names) (total + m.size) end
              (ground (arith, parts.1)) (rw e at h) in
          ((is_bad_member-IsSafe m parts.0, rest.0), omega (arith, rest.1))
    ]
  where
    refused : none ≡ some end → ⊥
    refused bad = cc

-- What an accepted bundle is.
pub record IsAccepted (up : Upload) : Type 0 where
  pub there : up.exists ≡ true
  pub a_tar : up.is_tar ≡ true
  pub small : up.size ≤ max_bundle_file_bytes
  pub members : All IsSafe up.members
  pub extracted : total_size up.members ≤ max_bundle_extracted_bytes
  pub names : (ns : List Text) × (check_members up.members [] 0 ≡ some ns) × (has_parts ns ≡ true)

with_names-has_parts :
    (up : Upload) (ns : List Text) (info : BundleInfo)
    → with_names up (some ns) ≡ some info
    → has_parts ns ≡ true
unfolding with_names
with_names-has_parts up ns info h = elim (Bool-cases (has_parts ns)) [
  | inl e ↦ e
  | inr e ↦ absurd (refused (rw e at h))
]
  where
    refused : none ≡ some info → ⊥
    refused bad = cc

-- A bundle that is accepted is a tar file within its limit, whose entries together are within
-- theirs. No entry is a device, none has an absolute name, none has a `..` among the components of
-- its normal form, and none has the name of a protected path of the overlay; a link has a relative
-- target, which from the entry's directory has no `..` in its normal form either. The manifest,
-- images.tar and an application are among the names.
pub validate_bundle_tar-IsAccepted :
    (up : Upload) (info : BundleInfo) → validate_bundle_tar up ≡ some info → IsAccepted up
unfolding validate_bundle_tar with_names
validate_bundle_tar-IsAccepted up info h =
    elim (Bool-cases (not up.exists || ltb max_bundle_file_bytes up.size || not up.is_tar)) [
      | inl e ↦ absurd (refused (rw e at h))
      | inr e ↦ elim (Option-cases (check_members up.members [] 0)) [
        | inl gone ↦ absurd (refused (rw (e, gone) at h))
        | inr found ↦
            let safe = check_members-IsSafe up.members [] 0 found.0 (omega arith) found.1 in
            record {
              there = ground arith;
              a_tar = ground arith;
              small = ground arith;
              members = safe.0;
              extracted = omega (arith, safe.1);
              names =
                  (found.0, found.1, with_names-has_parts up found.0 info (rw (e, found.1) at h));
            }
      ]
    ]
  where
    refused : none ≡ some info → ⊥
    refused bad = cc
