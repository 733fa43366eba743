-- ===== src/Bundle.antt =====
-- The check of an uploaded Compose bundle: `_validate_bundle_tar` of
-- orchestrator/services/bundle_build.py, on the entries of the archive.
pub mod Compose
pub mod Paths
pub mod Safe
pub mod Tests
use hack_bento.Base.{
  ℕ, ◌+◌, ◌*◌, ◌^◌, Bool, true, false, not, ◌&&◌, ◌||◌, List, [], ◌∷◌, ◌++◌, Option, none, some,
  Text, codes, text_eq, truthy, contains, starts_with, lacks, if◌then◌else◌, ltb, ◌==◌, any,
}
use hack_bento.Extract.{slash, isabs, join_path, normpath}
use hack_bento.Options.{lstrip_space, rstrip_space}

pub data MemberKind : Type 0 where
  file directory symlink hardlink device : MemberKind

-- What reading an entry as the manifest gives: no file, a link without a target (`KeyError`), a
-- text that raises something else, or the two values.
pub data Manifest : Type 0 where
  no_file no_target broken : Manifest
  read : ℕ → Text → Manifest

-- `TarInfo`, with the content as far as it is read; `size` is `max(m.size, 0)`.
pub record Member : Type 0 where
  pub name : Text
  pub kind : MemberKind
  pub linkname : Text
  pub size : ℕ
  pub content : Manifest

pub record Upload : Type 0 where
  pub exists : Bool
  pub size : ℕ
  pub is_tar : Bool
  pub members : List Member

pub record BundleInfo : Type 0 where
  pub project_name : Text
  pub has_overlay : Bool

abbrev pub max_bundle_file_bytes : ℕ
max_bundle_file_bytes = 8 * 1024 ^ 3

abbrev pub max_bundle_extracted_bytes : ℕ
max_bundle_extracted_bytes = 12 * 1024 ^ 3

abbrev pub protected_overlay_paths : List Text
protected_overlay_paths = codes "sbin/init" ∷ codes "etc/docker/daemon.json" ∷ []

-- `p[:p.rfind("/") + 1]`
abbrev pub head_dir : Text → Text
head_dir [] = []
head_dir (c ∷ s) =
    let rest = head_dir s in if c == slash || not (lacks slash s) then c ∷ rest else []

abbrev pub unless_last : ℕ → Text → Text
unless_last c [] = if c == slash then [] else c ∷ []
unless_last c (d ∷ s) = c ∷ d ∷ s

-- `head.rstrip("/")`
abbrev pub rstrip_slash : Text → Text
rstrip_slash [] = []
rstrip_slash (c ∷ s) = unless_last c (rstrip_slash s)

-- A head that is all slashes is kept.
abbrev pub or_head : Text → Text → Text
or_head head [] = head
or_head head (c ∷ s) = c ∷ s

-- `os.path.dirname`
unfoldable pub dirname : Text → Text
dirname p = or_head (head_dir p) (rstrip_slash (head_dir p))

-- `norm.lstrip("./")`
unfoldable pub lstrip_dots : Text → Text
lstrip_dots [] = []
lstrip_dots (c ∷ s) = let rest = lstrip_dots s in if c == slash || c == b'.' then rest else c ∷ s

unfoldable pub cleaned : Text → Text
unfolding lstrip_dots
cleaned name = lstrip_dots (normpath name)

abbrev pub goes_up : Text → Bool
goes_up p = starts_with p (codes "..")

unfoldable pub is_bad_path : Text → Bool
is_bad_path name = starts_with name (codes "/") || goes_up (normpath name) || isabs (normpath name)

abbrev pub is_device : MemberKind → Bool
is_device MemberKind.device = true
is_device kind = false

abbrev pub is_link : MemberKind → Bool
is_link MemberKind.symlink = true
is_link MemberKind.hardlink = true
is_link kind = false

-- Where the check takes a link to lead.
unfoldable pub link_path : Member → Text
unfolding dirname
link_path m = normpath (join_path (dirname (normpath m.name)) m.linkname)

unfoldable pub is_bad_link : Member → Bool
unfolding link_path
is_bad_link m = is_link m.kind && (starts_with m.linkname (codes "/") || goes_up (link_path m))

-- The path below `overlay/` is one of the protected ones.
unfoldable pub is_protected : Text → Bool
is_protected s = any (λ p. text_eq s (codes "overlay/" ++ p)) protected_overlay_paths

unfoldable pub is_bad_member : Member → Bool
unfolding is_bad_path is_bad_link is_protected cleaned
is_bad_member m =
    is_bad_path m.name || is_device m.kind || is_bad_link m || is_protected (cleaned m.name)

-- The loop over the entries: the names, the last one first; `none` is `BundleError`.
unfoldable pub check_members : List Member → List Text → ℕ → Option (List Text)
unfolding is_bad_member cleaned
check_members [] names total = some names
check_members (m ∷ members) names total =
    let rest = check_members members (cleaned m.name ∷ names) (total + m.size) in
    if is_bad_member m || ltb max_bundle_extracted_bytes (total + m.size) then none else rest

abbrev pub in_folder : Text → List Text → Bool
in_folder folder names = any (λ n. starts_with n folder) names

unfoldable pub has_parts : List Text → Bool
has_parts names =
    contains names (codes "hackbento-bundle.json")
    && contains names (codes "images.tar")
    && (contains names (codes "app") || in_folder (codes "app/") names)

-- `tf.extractfile(name)`: the last entry of just that name; `none` is `KeyError`.
unfoldable pub extractfile : Text → List Member → Option Manifest
extractfile name [] = none
extractfile name (m ∷ members) = elim (extractfile name members) [
  | none ↦ if text_eq m.name name then some m.content else none
  | some content ↦ some content
]

-- The name of the project; `none` is an exception that ends the check.
abbrev pub or_app : Text → Text
or_app [] = codes "app"
or_app (c ∷ s) = c ∷ s

unfoldable pub read_manifest : Option Manifest → Option Text
read_manifest none = some (codes "app")
read_manifest (some Manifest.no_file) = some (codes "app")
read_manifest (some Manifest.no_target) = some (codes "app")
read_manifest (some Manifest.broken) = none
read_manifest (some (Manifest.read format pn)) =
    if format == 1 then some (or_app (rstrip_space (lstrip_space pn))) else none

-- `a or b` of the two calls: the second one is made where the first one gives no file.
abbrev pub or_extract : Option Manifest → Option Manifest → Option Manifest
or_extract (some Manifest.no_file) second = second
or_extract first second = first

unfoldable pub project_of : List Member → Option Text
unfolding extractfile read_manifest
project_of members = read_manifest (
    or_extract (extractfile (codes "hackbento-bundle.json") members)
      (extractfile (codes "./hackbento-bundle.json") members))

abbrev pub with_name : Bool → Option Text → Option BundleInfo
with_name overlay none = none
with_name overlay (some pn) = some (record { project_name = pn; has_overlay = overlay })

abbrev pub with_names : Upload → Option (List Text) → Option BundleInfo
unfolding has_parts
with_names up none = none
with_names up (some names) =
    if has_parts names
    then with_name (in_folder (codes "overlay/") names) (project_of up.members)
    else none

-- `_validate_bundle_tar`
unfoldable pub validate_bundle_tar : Upload → Option BundleInfo
unfolding check_members project_of
validate_bundle_tar up =
    if not up.exists || ltb max_bundle_file_bytes up.size || not up.is_tar
    then none
    else with_names up (check_members up.members [] 0)
