-- ===== src/Queue.antt =====
-- The queues of rootfs conversions: orchestrator/services/rootfs_convert.py, the build worker of
-- orchestrator/services/docker_base_assets.py, the claim and the end of a build of
-- orchestrator/services/bundle_build.py, and what `update_image` of orchestrator/routers/images.py
-- writes for a new archive.
--
-- Three workers share the tables `default_rootfs_assets` and `images`. The conversion itself is an
-- argument: the status and the error it ends with.
pub mod Workers
pub mod Safe
pub mod Share
pub mod Lost
pub mod Tests
use hack_bento.Base.{
  ℕ, Bool, true, false, not, ◌&&◌, ◌||◌, List, [], ◌∷◌, Option, none, some, Text, text_eq, codes,
  if◌then◌else◌, ◌==◌, any, find_first, is_some, map, where_is, or_default,
}
use hack_bento.Model.{RootfsConversionStatus, ready, pending, converting, failed}

-- `_TARGETS`
pub data Target : Type 0 where
  asset image : Target

abbrev pub same_target : Target → Target → Bool
same_target asset asset = true
same_target image image = true
same_target _ _ = false

pub data BundlePhase : Type 0 where
  validating preparing building inspecting : BundlePhase

-- The columns of a conversion, for both tables: `kind` is `kind` and `rootfs_kind`, `source_archive_path`
-- and `file_path` are the columns that `_TARGETS` names; a row of the assets has no phase, one of the
-- projects no `base_image`.
pub record ConversionRow : Type 0 where
  pub id : ℕ
  pub kind : Text
  pub base_image : Option Text
  pub status : RootfsConversionStatus
  pub error : Option Text
  pub build_phase : Option BundlePhase
  pub source_archive_path : Option Text
  pub file_path : Option Text

pub record Tables : Type 0 where
  pub assets : List ConversionRow
  pub images : List ConversionRow

abbrev pub rows_of : Target → Tables → List ConversionRow
rows_of asset q = q.assets
rows_of image q = q.images

abbrev pub with_rows : Target → Tables → List ConversionRow → Tables
with_rows asset q rows = record q { assets = rows }
with_rows image q rows = record q { images = rows }

abbrev pub is_pending : RootfsConversionStatus → Bool
is_pending RootfsConversionStatus.pending = true
is_pending _ = false

abbrev pub is_converting : RootfsConversionStatus → Bool
is_converting RootfsConversionStatus.converting = true
is_converting _ = false

-- What each worker selects.
unfoldable pub can_convert : Target → ConversionRow → Bool
can_convert asset r = is_pending r.status && not (text_eq r.kind (codes "docker-base"))
can_convert image r = is_pending r.status && not (text_eq r.kind (codes "compose"))

unfoldable pub can_build_base : ConversionRow → Bool
can_build_base r =
    text_eq r.kind (codes "docker-base") && (is_pending r.status && is_some r.base_image)

unfoldable pub can_build_bundle : ConversionRow → Bool
can_build_bundle r = is_pending r.status && text_eq r.kind (codes "compose")

abbrev pub set_row : ℕ → (ConversionRow → ConversionRow) → ConversionRow → ConversionRow
set_row id f r = if r.id == id then f r else r

abbrev pub update_row : Target → ℕ → (ConversionRow → ConversionRow) → Tables → Tables
update_row t id f q = with_rows t q (map (set_row id f) (rows_of t q))

abbrev pub set_status : RootfsConversionStatus → ConversionRow → ConversionRow
set_status s r = record r { status = s }

-- The row that a `select … with_for_update().limit(1)` finds is marked, in one transaction.
marked :
    Target
    → (ConversionRow → ConversionRow)
    → Tables
    → Option ConversionRow
    → Option (ConversionRow × Tables)
marked t f q none = none
marked t f q (some r) = some (r, update_row t r.id f q)

unfoldable pub claim :
    Target
    → (ConversionRow → Bool)
    → (ConversionRow → ConversionRow)
    → Tables
    → Option (ConversionRow × Tables)
unfolding marked
claim t p f q = marked t f q (find_first p (rows_of t q))

with_target : Target → Option (ConversionRow × Tables) → Option (Target × ConversionRow × Tables)
with_target t none = none
with_target t (some (r, q)) = some (t, r, q)

first_of :
    Option (Target × ConversionRow × Tables)
    → Option (Target × ConversionRow × Tables)
    → Option (Target × ConversionRow × Tables)
first_of none o = o
first_of (some c) o = some c

-- `_claim_pending` of rootfs_convert.py: the assets, then the projects.
unfoldable pub claim_pending : Tables → Option (Target × ConversionRow × Tables)
unfolding claim with_target first_of
claim_pending q =
    first_of
      (with_target asset
        (claim asset (can_convert asset) (set_status RootfsConversionStatus.converting) q))
      (with_target image
        (claim image (can_convert image) (set_status RootfsConversionStatus.converting) q))

-- `_claim_pending_docker_base`
unfoldable pub claim_docker_base : Tables → Option (ConversionRow × Tables)
unfolding claim
claim_docker_base q = claim asset can_build_base (set_status RootfsConversionStatus.converting) q

-- `_claim_pending` of bundle_build.py
abbrev pub start_bundle : ConversionRow → ConversionRow
start_bundle r = record r {
  status = RootfsConversionStatus.converting;
  build_phase = some BundlePhase.validating;
}

unfoldable pub claim_bundle : Tables → Option (ConversionRow × Tables)
unfolding claim
claim_bundle q = claim image can_build_bundle start_bundle q

-- How a conversion ends: `ready`, or `failed` with the message.
pub data Outcome : Type 0 where
  done : Outcome
  broken : Text → Outcome

abbrev pub end_status : Outcome → RootfsConversionStatus
end_status done = RootfsConversionStatus.ready
end_status (broken m) = RootfsConversionStatus.failed

abbrev pub end_error : Outcome → Option Text
end_error done = none
end_error (broken m) = some m

-- `_finish` of rootfs_convert.py
abbrev pub finished_row : Outcome → ConversionRow → ConversionRow
finished_row o r = record r {
  status = end_status o;
  error = end_error o;
  source_archive_path = none;
}

unfoldable pub finish : Target → ℕ → Outcome → Tables → Tables
finish t id o q = update_row t id (finished_row o) q

-- `_finish_docker_base`
abbrev pub finished_base_row : Outcome → ConversionRow → ConversionRow
finished_base_row o r = record r { status = end_status o; error = end_error o }

unfoldable pub finish_docker_base : ℕ → Outcome → Tables → Tables
finish_docker_base id o q = update_row asset id (finished_base_row o) q

-- `_finish` of bundle_build.py; a success writes the path that was read before the build.
abbrev path_after : Outcome → Option Text → Option Text → Option Text
path_after done dest now = dest
path_after (broken m) dest now = now

abbrev pub finished_bundle_row : Outcome → Option Text → ConversionRow → ConversionRow
finished_bundle_row o dest r = record r {
  status = end_status o;
  error = end_error o;
  build_phase = none;
  source_archive_path = none;
  file_path = path_after o dest r.file_path;
}

unfoldable pub finish_bundle : ℕ → Outcome → Option Text → Tables → Tables
finish_bundle id o dest q = update_row image id (finished_bundle_row o dest) q

-- `_set_phase`
unfoldable pub set_phase : ℕ → BundlePhase → Tables → Tables
set_phase id phase q = update_row image id (λ r. record r { build_phase = some phase }) q

-- `reset_stuck_conversions`
abbrev pub reset_row : ConversionRow → ConversionRow
reset_row r =
    if is_converting r.status
    then record r { status = RootfsConversionStatus.pending; build_phase = none }
    else r

unfoldable pub reset_stuck_conversions : Tables → Tables
reset_stuck_conversions q = record {
  assets = map reset_row q.assets;
  images = map reset_row q.images;
}

-- `update_image` with a new archive to convert: the row waits again, for a new path.
unfoldable pub resubmit : ℕ → Text → Text → Tables → Tables
resubmit id archive path q =
    update_row image id
      (λ r. record r {
        status = RootfsConversionStatus.pending;
        error = none;
        source_archive_path = some archive;
        file_path = some path;
      })
      q
