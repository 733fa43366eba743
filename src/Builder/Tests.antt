-- ===== src/Builder/Tests.antt =====
-- docker/docker-base-builder/server.py: the jobs on concrete requests.
use hack_bento.Base.{
  Text, List, ◌≡◌, refl, arith, ℕ, Bool, true, false, [], ◌∷◌, none, some, codes, contains, text_eq,
  ◌||◌, if◌then◌else◌, split_on, ◌==◌, ok, http,
}
use hack_bento.Builder.{
  JobStatus, Output, Builder, JobRequest, DockerCall, DockerAnswers, allowed_export_base_images,
  is_bad_filename, start_export_tar, do_export_tar, do_build,
}
use hack_bento.Builder.Orphans.{cleanup_orphan_containers-ends}
use hack_bento.Builder.{is_orphan, export_container, build_container, cleanup_orphan_containers}
use hack_bento.Builder.Requests.{IsBegun, start_export_tar-IsBegun}
use hack_bento.Builder.Ends.{IsOver, do_export_tar-IsOver, do_build-IsOver}
use hack_bento.Builder.Wait.{Polled, Waited, Explains, run_builder_job, run_builder_job-ends}

abbrev busy : Builder
busy = record {
  jobs = (codes "job-0", 0) ∷ [];
  objects = JobStatus.running ∷ [];
  containers = [];
  outputs = (codes "/output/kali.tar", Output.whole (codes "job-old")) ∷ [];
}

abbrev kali : JobRequest
kali = record {
  job_id = codes "job-1";
  base_image = codes "kalilinux/kali-rolling";
  dest_filename = codes "kali.tar";
  method = codes "export";
  cp_src_path = none;
}

abbrev begun : Builder
begun = record busy {
  jobs = (codes "job-1", 1) ∷ (codes "job-0", 0) ∷ [];
  objects = JobStatus.running ∷ JobStatus.running ∷ [];
}

accepted : start_export_tar kali busy ≡ ok (1, codes "/output/kali.tar", begun)
unfolding start_export_tar split_on
accepted = refl

-- A path in another directory, and a second request with the same identifier.
elsewhere : start_export_tar (record kali { dest_filename = codes "../kali.tar" }) busy ≡ http 400
unfolding start_export_tar split_on
elsewhere = refl

twice : start_export_tar kali begun ≡ http 409
unfolding start_export_tar split_on
twice = refl

-- The parent directory itself is one part of a path, and is accepted.
parent : is_bad_filename (codes "..") ≡ false
unfolding is_bad_filename split_on
parent = refl

start_export_tar-IsBegun_example :
    (contains allowed_export_base_images kali.base_image ≡ true)
    × ((text_eq kali.method (codes "export") || text_eq kali.method (codes "cp")) ≡ true)
    × IsBegun kali (codes "/output/kali.tar") busy begun
start_export_tar-IsBegun_example =
    start_export_tar-IsBegun kali busy 1 (codes "/output/kali.tar") begun (omega arith, tt) accepted

is_export : DockerCall → Bool
is_export DockerCall.export = true
is_export DockerCall.make_ext4 = true
is_export c = false

-- `docker export` and `mkfs.ext4` fail.
abbrev disk_full : DockerAnswers
disk_full = record { raises = is_export; leaves_container = false; leaves_part = true }

do_export_tar-IsOver_example :
    IsOver 1
      (codes "/output/kali.tar")
      kali.job_id
      none
      (do_export_tar disk_full 1 kali (codes "/output/kali.tar") begun)
unfolding is_export
do_export_tar-IsOver_example =
    do_export_tar-IsOver disk_full 1 JobStatus.running kali (codes "/output/kali.tar") begun refl
      refl

do_build-IsOver_example :
    (disk_full.raises DockerCall.make_tmpdir ≡ true
      → do_build disk_full 1 kali (codes "/output/kali.tar") begun ≡ begun)
    × (disk_full.raises DockerCall.make_tmpdir ≡ false
        → IsOver 1
            (codes "/output/kali.tar")
            kali.job_id
            (some (Output.whole (codes "job-old")))
            (do_build disk_full 1 kali (codes "/output/kali.tar") begun))
do_build-IsOver_example =
    do_build-IsOver disk_full 1 JobStatus.running kali (codes "/output/kali.tar") begun refl

-- The third answer is `ready`.
abbrev third : ℕ → Polled
third n = if n == 3 then Polled.ready else Polled.running

run_builder_job-ends_example :
    (w : Waited) × ((run_builder_job true third 1800).0 ≡ some w)
    × Explains third 1800 0 w
    × ((run_builder_job true third 1800).1 ≡ true)
run_builder_job-ends_example = run_builder_job-ends third 1800

-- A container that a stopped service has left, and one of somebody else.
abbrev littered : Builder
littered = record busy { containers = codes "hackbento-export-build-job-1" ∷ codes "registry" ∷ [] }

registry_kept : is_orphan (codes "registry") ≡ false
unfolding is_orphan
registry_kept = refl

cleanup_orphan_containers-ends_example :
    let after : List Text = (cleanup_orphan_containers true (λ n. true) littered).containers in
    (contains after (export_container (codes "job-1")) ≡ false)
    × (contains after (build_container (codes "job-1")) ≡ false)
    × (contains after (codes "registry") ≡ contains littered.containers (codes "registry"))
cleanup_orphan_containers-ends_example =
    cleanup_orphan_containers-ends (λ n. true) littered (codes "job-1") (codes "registry") refl refl
      registry_kept
