-- ===== src/Builder.antt =====
-- docker/docker-base-builder/server.py: the jobs of the service that runs Docker, one at a time, and
-- `run_builder_job` of orchestrator/services/rootfs_tar.py, which asks for one and waits for its end.
--
-- A job is an object that `_jobs` names; its task keeps the object, also where the name is gone. The
-- semaphore lets one task at a time behind it, so the body of a task is one step here. The working
-- directories of the tasks, and the scripts that run in the containers, are no part of the state.
pub mod Paths
pub mod Requests
pub mod Ends
pub mod Orphans
pub mod Wait
pub mod Tests
use hack_bento.Base.{
  ℕ, zero, suc, ◌+◌, Bool, true, false, not, ◌&&◌, ◌||◌, List, [], ◌∷◌, ◌++◌, Option, none, some,
  Text, codes, text_eq, truthy, contains, starts_with, split_on, if◌then◌else◌, length, where_is,
  Reply, ok, http, ◌>>=◌, ◌>>◌, reject, any,
}
use hack_bento.Host.{attempt, forget, get, assign}

pub data JobStatus : Type 0 where
  running ready failed : JobStatus

-- What a path of the output directory holds: what this job has written, or a part of something.
pub data Output : Type 0 where
  whole : Text → Output
  part : Output

pub record Builder : Type 0 where
  pub jobs : List (Text × ℕ)
  pub objects : List JobStatus
  pub containers : List Text
  pub outputs : List (Text × Output)

-- `ExportTarRequest` and `BuildRequest`, without what only the container sees.
pub record JobRequest : Type 0 where
  pub job_id : Text
  pub base_image : Text
  pub dest_filename : Text
  pub method : Text
  pub cp_src_path : Option Text

-- The calls that can raise, by their place in the code.
pub data DockerCall : Type 0 where
  make_tmpdir rm_before run cp open_output export tar_out make_ext4 replace remove_output rm_after :
      DockerCall

-- What Docker and the file system answer: which calls raise, whether a `docker run` or a command
-- that raises leaves its container or a part of its file.
pub record DockerAnswers : Type 0 where
  pub raises : DockerCall → Bool
  pub leaves_container : Bool
  pub leaves_part : Bool

-- `ALLOWED_BASE_IMAGES` and `ALLOWED_EXPORT_BASE_IMAGES`
unfoldable pub allowed_base_images : List Text
allowed_base_images = codes "debian:bookworm-slim" ∷ []

unfoldable pub allowed_export_base_images : List Text
allowed_export_base_images = codes "alpine:3.19" ∷ codes "kalilinux/kali-rolling" ∷ []

abbrev pub last_of : List Text → Text
last_of [] = []
last_of (p ∷ []) = p
last_of (p ∷ q ∷ ps) = last_of (q ∷ ps)

-- `os.path.basename`
unfoldable pub basename : Text → Text
basename s = last_of (split_on b'/' s)

-- `not dest_filename or dest_filename != req.dest_filename`
unfoldable pub is_bad_filename : Text → Bool
unfolding basename
is_bad_filename s = not (truthy (some (basename s))) || not (text_eq (basename s) s)

-- `os.path.join(OUTPUT_DIR, name)`
unfoldable pub output_path : Text → Text
output_path s = codes "/output/" ++ s

abbrev pub is_some_job : Text → Builder → Bool
is_some_job id b = any (λ (e : Text × ℕ). text_eq e.0 id) b.jobs

-- The new job, and the number of its object.
unfoldable pub add_job : Text → Builder → ℕ × Builder
add_job id b = (
  length b.objects,
  record b {
    jobs = assign id (length b.objects) b.jobs;
    objects = b.objects ++ (JobStatus.running ∷ []);
  },
)

-- `start_export_tar`, up to the new task: its object and its path.
unfoldable pub start_export_tar : JobRequest → Builder → Reply (ℕ × Text × Builder)
unfolding allowed_export_base_images is_bad_filename output_path add_job
start_export_tar req b = do
  reject (not (contains allowed_export_base_images req.base_image)) 400
  reject (is_bad_filename req.dest_filename) 400
  reject (not (text_eq req.method (codes "export") || text_eq req.method (codes "cp"))) 400
  reject (is_some_job req.job_id b) 409
  let new = add_job req.job_id b
  ok (new.0, output_path req.dest_filename, new.1)

-- `start_build`
unfoldable pub start_build : JobRequest → Builder → Reply (ℕ × Text × Builder)
unfolding allowed_base_images is_bad_filename output_path add_job
start_build req b = do
  reject (not (contains allowed_base_images req.base_image)) 400
  reject (is_bad_filename req.dest_filename) 400
  reject (is_some_job req.job_id b) 409
  let new = add_job req.job_id b
  ok (new.0, output_path req.dest_filename, new.1)

abbrev pub status_at : ℕ → List JobStatus → Option JobStatus
status_at n [] = none
status_at zero (s ∷ objects) = some s
status_at (suc n) (s ∷ objects) = status_at n objects

-- `job["status"] = s`
abbrev pub set_job_status : ℕ → JobStatus → List JobStatus → List JobStatus
set_job_status n s [] = []
set_job_status zero s (x ∷ objects) = s ∷ objects
set_job_status (suc n) s (x ∷ objects) = x ∷ set_job_status n s objects

abbrev pub known : Option JobStatus → Reply JobStatus
known none = http 404
known (some s) = ok s

abbrev pub status_of : Option ℕ → Builder → Reply JobStatus
status_of none b = http 404
status_of (some n) b = known (status_at n b.objects)

-- `get_build_status`
unfoldable pub get_build_status : Text → Builder → Reply JobStatus
get_build_status id b = status_of (get id b.jobs) b

-- `delete_build_job`
unfoldable pub delete_build_job : Text → Builder → Builder
delete_build_job id b = record b { jobs = forget id b.jobs }

abbrev pub remove_name : Text → List Text → List Text
remove_name c names = where_is (λ n. not (text_eq n c)) names

-- `docker rm -f`, whose exception is caught.
unfoldable pub docker_rm : DockerAnswers → DockerCall → Text → Builder → Builder
docker_rm ans call c b =
    if ans.raises call then b else record b { containers = remove_name c b.containers }

abbrev pub with_container : Text → Builder → Builder
with_container c b = record b { containers = c ∷ remove_name c b.containers }

-- `docker run`
unfoldable pub docker_run : DockerAnswers → Text → Builder → Bool × Builder
docker_run ans c b =
    if ans.raises DockerCall.run
    then (false, if ans.leaves_container then with_container c b else b)
    else (true, with_container c b)

abbrev pub write : Text → Output → Builder → Builder
write path o b = record b { outputs = assign path o b.outputs }

abbrev pub remove_path : Text → Builder → Builder
remove_path path b = record b { outputs = forget path b.outputs }

-- `docker cp` to the path
unfoldable pub copy_out : DockerAnswers → Text → Text → Builder → Bool × Builder
copy_out ans id path b =
    if ans.raises DockerCall.cp
    then (false, if ans.leaves_part then write path Output.part b else b)
    else (true, write path (Output.whole id) b)

-- `_run_to_file`: the file is opened, and so cut to nothing, before the command runs.
unfoldable pub run_to_file : DockerAnswers → Text → Text → Builder → Bool × Builder
run_to_file ans id path b =
    if ans.raises DockerCall.open_output
    then (false, b)
    else if ans.raises DockerCall.export
    then (false, write path Output.part b)
    else (true, write path (Output.whole id) b)

-- By `method`; `docker cp` wants a path in the container.
unfoldable pub take_out : DockerAnswers → Text → JobRequest → Text → Builder → Bool × Builder
unfolding copy_out run_to_file
take_out ans id req path b =
    if text_eq req.method (codes "cp")
    then if truthy req.cp_src_path then copy_out ans id path b else (false, b)
    else run_to_file ans id path b

unfoldable pub export_container : Text → Text
export_container id = codes "hackbento-export-build-" ++ id

unfoldable pub build_container : Text → Text
build_container id = codes "hackbento-docker-base-build-" ++ id

-- `os.path.exists(dest_path)` and `os.remove(dest_path)`
unfoldable pub drop_output : DockerAnswers → Text → Builder → Builder
drop_output ans path b = if ans.raises DockerCall.remove_output then b else remove_path path b

abbrev pub mark : ℕ → JobStatus → Builder → Builder
mark n s b = record b { objects = set_job_status n s b.objects }

-- The end of `_do_export_tar`, by whether its body went through.
unfoldable pub end_export : DockerAnswers → ℕ → Text → Text → Bool × Builder → Builder
unfolding drop_output docker_rm
end_export ans n c path (fine, b) =
    docker_rm ans DockerCall.rm_after c
      (if fine then mark n JobStatus.ready b else drop_output ans path (mark n JobStatus.failed b))

-- `_do_export_tar`, for the object `n`
unfoldable pub do_export_tar : DockerAnswers → ℕ → JobRequest → Text → Builder → Builder
unfolding attempt docker_run take_out end_export docker_rm
do_export_tar ans n req path b =
    let c = export_container req.job_id in
    end_export ans n c path (
      attempt (docker_run ans c ∷ take_out ans req.job_id req path ∷ [])
        (docker_rm ans DockerCall.rm_before c b))

unfoldable pub image_tmp : Text → Text
image_tmp path = path ++ codes ".tmp"

-- `_run_convert_to_ext4`: the image is made beside its path, and put there at the end.
unfoldable pub convert_to_ext4 : DockerAnswers → Text → Text → Builder → Bool × Builder
convert_to_ext4 ans id path b =
    if ans.raises DockerCall.tar_out
    then (false, b)
    else if ans.raises DockerCall.make_ext4
    then (
      false,
      if ans.leaves_part
          then write (image_tmp path) Output.part (remove_path (image_tmp path) b)
          else remove_path (image_tmp path) b,
    )
    else if ans.raises DockerCall.replace
    then (false, write (image_tmp path) (Output.whole id) b)
    else (true, write path (Output.whole id) (remove_path (image_tmp path) b))

-- `docker export` into the working directory
abbrev pub export_tar : DockerAnswers → Builder → Bool × Builder
export_tar ans b = (not (ans.raises DockerCall.open_output || ans.raises DockerCall.export), b)

unfoldable pub end_build : DockerAnswers → ℕ → Text → Bool × Builder → Builder
unfolding docker_rm
end_build ans n c (fine, b) =
    docker_rm ans DockerCall.rm_after c
      (if fine then mark n JobStatus.ready b else mark n JobStatus.failed b)

build_body : DockerAnswers → JobRequest → Text → Builder → Bool × Builder
unfolding attempt docker_run convert_to_ext4
build_body ans req path = attempt (
    docker_run ans (build_container req.job_id)
    ∷ export_tar ans
    ∷ convert_to_ext4 ans req.job_id path
    ∷ [])

-- `_do_build`, for the object `n`. The working directory is made before the `try` block.
unfoldable pub do_build : DockerAnswers → ℕ → JobRequest → Text → Builder → Builder
unfolding build_body end_build docker_rm
do_build ans n req path b =
    let c = build_container req.job_id in
    if ans.raises DockerCall.make_tmpdir
    then b
    else end_build ans n c (build_body ans req path (docker_rm ans DockerCall.rm_before c b))

-- `_ORPHAN_CONTAINER_PREFIXES`
unfoldable pub is_orphan : Text → Bool
is_orphan n =
    starts_with n (codes "hackbento-docker-base-build-")
    || starts_with n (codes "hackbento-export-build-")

-- `_cleanup_orphan_containers`, where the containers can be listed; `removes` says for which one
-- `docker rm -f` succeeds.
unfoldable pub cleanup_orphan_containers : Bool → (Text → Bool) → Builder → Builder
unfolding is_orphan
cleanup_orphan_containers listed removes b =
    if listed
    then record b { containers = where_is (λ n. not (is_orphan n && removes n)) b.containers }
    else b
