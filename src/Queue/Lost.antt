-- ===== src/Queue/Lost.antt =====
-- `resubmit` of Queue for a project that a worker is busy with: `update_image` of
-- orchestrator/routers/images.py does not look at the status.
use hack_bento.Base.{
  ℕ, ◌≡◌, refl, true, List, [], ◌∷◌, Option, none, some, Text, ◌==◌, find_first, map,
  some-injective, ap, Bool-cases, inl, inr, ◌∙◌,
}
use hack_bento.Model.{RootfsConversionStatus}
use hack_bento.Queue.{image, ConversionRow, Tables, set_row, done, finish, finish_bundle, resubmit}

-- The row with a key, after an update of that row.
find_first-set_row :
    (id : ℕ) (f : ConversionRow → ConversionRow) (rows : List ConversionRow) (r : ConversionRow)
    → ((x : ConversionRow) → (f x).id ≡ x.id)
    → find_first (λ x. x.id == id) rows ≡ some r
    → find_first (λ x. x.id == id) (map (set_row id f) rows) ≡ some (f r)
find_first-set_row id f [] r keeps h = cc
find_first-set_row id f (x ∷ rows) r keeps h = elim (Bool-cases (x.id == id)) [
  | inl same ↦
      let first : x ≡ r = some-injective x r (rw same at h) in
      let hit : ((f x).id == id) ≡ true = ap (λ k. k == id) (keeps x) ∙ same in
      rw same (rw hit (ap (λ y. some (f y)) first))
  | inr other ↦ rw other (rw other (find_first-set_row id f rows r keeps (rw other at h)))
]

abbrev pub project : ℕ → Tables → Option ConversionRow
project id q = find_first (λ r. r.id == id) q.images

-- A project gets a new archive while the worker converts the old one: when the worker is done,
-- the row is `ready` and names no archive that waits, though its rootfs is the path where the
-- new one was to be put.
pub finish-resubmit :
    (id : ℕ) (archive path : Text) (q : Tables) (r : ConversionRow)
    → project id q ≡ some r
    → project id (finish image id done (resubmit id archive path q))
      ≡ some (record r {
        status = RootfsConversionStatus.ready;
        error = none;
        source_archive_path = none;
        file_path = some path;
      })
unfolding finish resubmit
finish-resubmit id archive path q r h =
    find_first-set_row id _ _ _ (λ x. refl) (find_first-set_row id _ q.images r (λ x. refl) h)

-- A project gets a new Compose bundle while the worker builds the old one: when the worker is
-- done, the row is `ready` and names no archive that waits, and its rootfs is the path of the
-- old build.
pub finish_bundle-resubmit :
    (id : ℕ) (archive path : Text) (dest : Option Text) (q : Tables) (r : ConversionRow)
    → project id q ≡ some r
    → project id (finish_bundle id done dest (resubmit id archive path q))
      ≡ some (record r {
        status = RootfsConversionStatus.ready;
        error = none;
        build_phase = none;
        source_archive_path = none;
        file_path = dest;
      })
unfolding finish_bundle resubmit
finish_bundle-resubmit id archive path dest q r h =
    find_first-set_row id _ _ _ (λ x. refl) (find_first-set_row id _ q.images r (λ x. refl) h)
