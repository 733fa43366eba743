-- ===== src/Queue/Tests.antt =====
-- A run of the queues.
use hack_bento.Base.{◌≡◌, refl, false, [], ◌∷◌, none, some, codes, All}
use hack_bento.Model.{RootfsConversionStatus}
use hack_bento.Queue.{
  Target, asset, image, ConversionRow, Tables, rows_of, is_pending, is_converting, can_convert,
  can_build_base, can_build_bundle, claim_pending, claim_docker_base, claim_bundle, done, broken,
  finish, resubmit, reset_stuck_conversions, set_status, finished_row,
}
use hack_bento.Queue.Workers.{Line, Reach, converts, start, next, IsTracked}
use hack_bento.Queue.Safe.{Reach-IsTracked}
use hack_bento.Queue.Lost.{project, finish-resubmit}
use hack_bento.Queue.Share.{waits, claim_pending-none}

abbrev base : ConversionRow
base = record {
  id = 1;
  kind = codes "docker-base";
  base_image = some (codes "ubuntu:24.04");
  status = RootfsConversionStatus.pending;
  error = none;
  build_phase = none;
  source_archive_path = none;
  file_path = some (codes "/base.ext4");
}

abbrev lab_row : ConversionRow
lab_row = record base {
  id = 5;
  kind = codes "os";
  base_image = none;
  source_archive_path = some (codes "/old.tar");
  file_path = some (codes "/old.ext4");
}

abbrev tables : Tables
tables = record { assets = base ∷ []; images = lab_row ∷ [] }

abbrev busy : ConversionRow
busy = set_status RootfsConversionStatus.converting lab_row

abbrev busy_tables : Tables
busy_tables = record tables { images = busy ∷ [] }

claimed : claim_pending tables ≡ some (image, lab_row, busy_tables)
unfolding claim_pending can_convert
claimed = refl

abbrev first_line : Line
first_line = record { tables = tables; jobs = [] }

one_job :
    Reach first_line
      (record { tables = busy_tables; jobs = record { target = image; row = 5 } ∷ [] })
one_job = next start (converts image lab_row busy_tables claimed)

quiet : (t : Target) → All (λ r. is_converting r.status ≡ false) (rows_of t tables)
quiet asset = (refl, tt)
quiet image = (refl, tt)

Reach-IsTracked_example :
    IsTracked (record { tables = busy_tables; jobs = record { target = image; row = 5 } ∷ [] })
Reach-IsTracked_example = Reach-IsTracked tables quiet one_job

-- After a restart the row waits again.
requeued : reset_stuck_conversions busy_tables ≡ tables
unfolding reset_stuck_conversions
requeued = refl

finish-resubmit_example :
    project 5 (finish image 5 done (resubmit 5 (codes "/new.tar") (codes "/new.ext4") busy_tables))
    ≡ some (record busy {
      status = RootfsConversionStatus.ready;
      error = none;
      source_archive_path = none;
      file_path = some (codes "/new.ext4");
    })
finish-resubmit_example =
    finish-resubmit 5 (codes "/new.tar") (codes "/new.ext4") busy_tables busy refl

abbrev done_tables : Tables
done_tables = record {
  assets = record base { base_image = none } ∷ [];
  images = finished_row (broken (codes "x")) busy ∷ [];
}

claim_pending-none_example :
    All (λ r. waits r ≡ false) done_tables.assets
    × All (λ r. is_pending r.status ≡ false) done_tables.images
unfolding claim_pending claim_docker_base claim_bundle can_convert can_build_base can_build_bundle
claim_pending-none_example = claim_pending-none done_tables refl refl refl
