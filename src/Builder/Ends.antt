-- ===== src/Builder/Ends.antt =====
-- docker/docker-base-builder/server.py: how `_do_export_tar` and `_do_build` end.
use hack_bento.Base.{
  ◌≡◌, refl, arith, ap, sym, ◌∙◌, ℕ, zero, suc, Bool, true, false, ◌||◌, List, [], ◌∷◌, ◌++◌,
  Option, none, some, Text, codes, text_eq, contains, Bool-cases, inl, inr, ◌⊎◌,
}
use hack_bento.Host.{attempt, forget, get}
use hack_bento.Host.Sets.{get-assign, get-forget, get-forget_ne, get-assign_ne}
use hack_bento.Builder.{
  JobStatus, Output, Builder, JobRequest, DockerCall, DockerAnswers, status_at, set_job_status,
  mark, remove_name, docker_rm, docker_run, copy_out, run_to_file, take_out, export_container,
  build_container, drop_output, end_export, do_export_tar, image_tmp, convert_to_ext4, export_tar,
  end_build, build_body, do_build,
}

contains-remove_name : (c : Text) (names : List Text) → contains (remove_name c names) c ≡ false
contains-remove_name c [] = refl
contains-remove_name c (n ∷ names) = elim (Bool-cases (text_eq n c)) [
  | inl e ↦ rw e (contains-remove_name c names)
  | inr e ↦ rw e (rw e (contains-remove_name c names))
]

status_at-set_job_status :
    (n : ℕ) (s old : JobStatus) (objects : List JobStatus)
    → status_at n objects ≡ some old
    → status_at n (set_job_status n s objects) ≡ some s
status_at-set_job_status n s old [] h = cc
status_at-set_job_status zero s old (x ∷ objects) h = refl
status_at-set_job_status (suc n) s old (x ∷ objects) h = status_at-set_job_status n s old objects h

-- What a task leaves: its job is ready or has failed, and the state of its path goes with that.
pub record IsOver (n : ℕ) (path id : Text) (left : Option Output) (b : Builder) : Type 0 where
  pub end :
      ((status_at n b.objects ≡ some JobStatus.ready)
        × (get path b.outputs ≡ some (Output.whole id)))
      ⊎ ((status_at n b.objects ≡ some JobStatus.failed) × (get path b.outputs ≡ left))

docker_rm-IsOver :
    (ans : DockerAnswers) (call : DockerCall) (c : Text) (n : ℕ) (path id : Text)
    (left : Option Output) (b : Builder)
    → IsOver n path id left b
    → IsOver n path id left (docker_rm ans call c b)
unfolding docker_rm
docker_rm-IsOver ans call c n path id left b o = elim (Bool-cases (ans.raises call)) [
  | inl e ↦ rw e o
  | inr e ↦ rw e (record { end = o.end })
]

module _ (ans : DockerAnswers) (n : ℕ) (old : JobStatus) (path id c : Text) where
  end_export-IsOver :
      (b : Bool × Builder)
      → ans.raises DockerCall.remove_output ≡ false
      → status_at n b.1.objects ≡ some old
      → (b.0 ≡ true → get path b.1.outputs ≡ some (Output.whole id))
      → IsOver n path id none (end_export ans n c path b)
  unfolding end_export drop_output
  end_export-IsOver (true, b) works there written =
      docker_rm-IsOver ans DockerCall.rm_after c n path id none (mark n JobStatus.ready b) (record {
        end = inl (status_at-set_job_status n JobStatus.ready old b.objects there, written refl);
      })
  end_export-IsOver (false, b) works there written =
      docker_rm-IsOver ans DockerCall.rm_after c n path id none
        (drop_output ans path (mark n JobStatus.failed b))
        (rw works (record {
          end = inr (
            status_at-set_job_status n JobStatus.failed old b.objects there,
            get-forget path b.outputs,
          );
        }))

  end_build-IsOver :
      (left : Option Output) (b : Bool × Builder)
      → status_at n b.1.objects ≡ some old
      → (b.0 ≡ true → get path b.1.outputs ≡ some (Output.whole id))
      → (b.0 ≡ false → get path b.1.outputs ≡ left)
      → IsOver n path id left (end_build ans n c b)
  unfolding end_build
  end_build-IsOver left (true, b) there written kept =
      docker_rm-IsOver ans DockerCall.rm_after c n path id left (mark n JobStatus.ready b) (record {
        end = inl (status_at-set_job_status n JobStatus.ready old b.objects there, written refl);
      })
  end_build-IsOver left (false, b) there written kept =
      docker_rm-IsOver ans DockerCall.rm_after c n path id left (mark n JobStatus.failed b)
        (record {
          end = inr (status_at-set_job_status n JobStatus.failed old b.objects there, kept refl);
        })

docker_rm-rest :
    (ans : DockerAnswers) (call : DockerCall) (c : Text) (b : Builder)
    → ((docker_rm ans call c b).objects ≡ b.objects)
      × ((docker_rm ans call c b).outputs ≡ b.outputs)
unfolding docker_rm
docker_rm-rest ans call c b = ground arith

docker_run-rest :
    (ans : DockerAnswers) (c : Text) (b : Builder)
    → ((docker_run ans c b).1.objects ≡ b.objects) × ((docker_run ans c b).1.outputs ≡ b.outputs)
unfolding docker_run
docker_run-rest ans c b = ground arith

take_out-objects :
    (ans : DockerAnswers) (id : Text) (req : JobRequest) (path : Text) (b : Builder)
    → (take_out ans id req path b).1.objects ≡ b.objects
unfolding take_out copy_out run_to_file
take_out-objects ans id req path b = ground arith

take_out-whole :
    (ans : DockerAnswers) (id : Text) (req : JobRequest) (path : Text) (b : Builder)
    → (take_out ans id req path b).0 ≡ true
    → get path (take_out ans id req path b).1.outputs ≡ some (Output.whole id)
unfolding take_out copy_out run_to_file
take_out-whole ans id req path b = ground (arith, get-assign path (Output.whole id) b.outputs)

convert_to_ext4-objects :
    (ans : DockerAnswers) (id path : Text) (b : Builder)
    → (convert_to_ext4 ans id path b).1.objects ≡ b.objects
unfolding convert_to_ext4
convert_to_ext4-objects ans id path b = ground arith

convert_to_ext4-whole :
    (ans : DockerAnswers) (id path : Text) (b : Builder)
    → (convert_to_ext4 ans id path b).0 ≡ true
    → get path (convert_to_ext4 ans id path b).1.outputs ≡ some (Output.whole id)
unfolding convert_to_ext4
convert_to_ext4-whole ans id path b ok =
    ground (arith, get-assign path (Output.whole id) (forget (image_tmp path) b.outputs))

longer : (s t : Text) (c : ℕ) → text_eq (s ++ (c ∷ t)) s ≡ false
longer [] t c = refl
longer (x ∷ s) t c = ground (arith, longer s t c)

tmp_differs : (path : Text) → text_eq (image_tmp path) path ≡ false
unfolding image_tmp
tmp_differs path = longer path (codes "tmp") b'.'

-- Where the conversion raises, the image of before is still at its path.
convert_to_ext4-kept :
    (ans : DockerAnswers) (id path : Text) (b : Builder)
    → (convert_to_ext4 ans id path b).0 ≡ false
    → get path (convert_to_ext4 ans id path b).1.outputs ≡ get path b.outputs
unfolding convert_to_ext4
convert_to_ext4-kept ans id path b raised =
    let tmp = image_tmp path in
    ground (
      arith,
      get-forget_ne tmp path b.outputs (tmp_differs path),
      get-assign_ne tmp path Output.part (forget tmp b.outputs) (tmp_differs path),
      get-assign_ne tmp path (Output.whole id) b.outputs (tmp_differs path),
    )

never : false ≡ true → ⊥
never h = cc

-- Two steps in a row, with what the first leaves alone.
do_export_tar-body :
    (ans : DockerAnswers) (req : JobRequest) (path c : Text) (b : Builder)
    → let end : Bool × Builder =
        attempt (docker_run ans c ∷ take_out ans req.job_id req path ∷ []) b in
      (end.1.objects ≡ b.objects)
      × (end.0 ≡ true → get path end.1.outputs ≡ some (Output.whole req.job_id))
unfolding attempt
do_export_tar-body ans req path c b =
    let first = docker_run-rest ans c b in
    let b1 = (docker_run ans c b).1 in
    let second = take_out-objects ans req.job_id req path b1 in
    elim (Bool-cases (docker_run ans c b).0) [
      | inr e ↦ rw e (first.0, λ (bad : false ≡ true). absurd (never bad))
      | inl e ↦ elim (Bool-cases (take_out ans req.job_id req path b1).0) [
        | inl f ↦ rw e (rw f (second ∙ first.0, λ ok. take_out-whole ans req.job_id req path b1 f))
        | inr f ↦ rw e (rw f (second ∙ first.0, λ (bad : false ≡ true). absurd (never bad)))
      ]
    ]

-- A task of `/export-tar` whose object is there ends, whatever Docker answers: its job is ready and
-- its path holds what it has written, or its job has failed and its path is gone, if the file can
-- be removed.
pub do_export_tar-IsOver :
    (ans : DockerAnswers) (n : ℕ) (old : JobStatus) (req : JobRequest) (path : Text) (b : Builder)
    → ans.raises DockerCall.remove_output ≡ false
    → status_at n b.objects ≡ some old
    → IsOver n path req.job_id none (do_export_tar ans n req path b)
unfolding do_export_tar
do_export_tar-IsOver ans n old req path b works there =
    let c = export_container req.job_id in
    let b0 = docker_rm ans DockerCall.rm_before c b in
    let body = do_export_tar-body ans req path c b0 in
    end_export-IsOver ans n old path req.job_id c
      (attempt (docker_run ans c ∷ take_out ans req.job_id req path ∷ []) b0) works
      (ap (status_at n) (body.0 ∙ (docker_rm-rest ans DockerCall.rm_before c b).0) ∙ there) body.1

do_build-body :
    (ans : DockerAnswers) (id path c : Text) (b : Builder)
    → let end : Bool × Builder =
        attempt (docker_run ans c ∷ export_tar ans ∷ convert_to_ext4 ans id path ∷ []) b in
      (end.1.objects ≡ b.objects)
      × (end.0 ≡ true → get path end.1.outputs ≡ some (Output.whole id))
      × (end.0 ≡ false → get path end.1.outputs ≡ get path b.outputs)
unfolding attempt
do_build-body ans id path c b =
    let first = docker_run-rest ans c b in
    let b1 = (docker_run ans c b).1 in
    let second = convert_to_ext4-objects ans id path b1 in
    elim (Bool-cases (docker_run ans c b).0) [
      | inr e ↦
          rw e
            (first.0, λ (bad : false ≡ true). absurd (never bad), λ raised. ap (get path) first.1)
      | inl e ↦
          elim (Bool-cases (ans.raises DockerCall.open_output || ans.raises DockerCall.export)) [
            | inl x ↦ rw e (
                rw x (
                  first.0,
                  λ (bad : false ≡ true). absurd (never bad),
                  λ raised. ap (get path) first.1,
                ))
            | inr x ↦ elim (Bool-cases (convert_to_ext4 ans id path b1).0) [
              | inl f ↦ rw e (
                  rw x (
                    rw f (
                      second ∙ first.0,
                      λ ok. convert_to_ext4-whole ans id path b1 f,
                      λ (bad : true ≡ false). absurd (never (sym bad)),
                    )))
              | inr f ↦ rw e (
                  rw x (
                    rw f (
                      second ∙ first.0,
                      λ (bad : false ≡ true). absurd (never bad),
                      λ raised. convert_to_ext4-kept ans id path b1 f ∙ ap (get path) first.1,
                    )))
            ]
          ]
    ]

-- A task of `/build` whose object is there: where its working directory cannot be made, it does
-- nothing, and the job stays as it is, running, for good. Otherwise the task ends, whatever Docker
-- answers: its job is ready and its path holds the image that it has made, or its job has failed
-- and its path is as it was before, never with a part of an image.
pub do_build-IsOver :
    (ans : DockerAnswers) (n : ℕ) (old : JobStatus) (req : JobRequest) (path : Text) (b : Builder)
    → status_at n b.objects ≡ some old
    → (ans.raises DockerCall.make_tmpdir ≡ true → do_build ans n req path b ≡ b)
      × (ans.raises DockerCall.make_tmpdir ≡ false
          → IsOver n path req.job_id (get path b.outputs) (do_build ans n req path b))
unfolding do_build build_body
do_build-IsOver ans n old req path b there =
    let c = build_container req.job_id in
    let b0 = docker_rm ans DockerCall.rm_before c b in
    let rest = docker_rm-rest ans DockerCall.rm_before c b in
    let body = do_build-body ans req.job_id path c b0 in
    (
      λ (raised : ans.raises DockerCall.make_tmpdir ≡ true). rw raised refl,
      λ (made : ans.raises DockerCall.make_tmpdir ≡ false). rw made (
          end_build-IsOver ans n old path req.job_id c (get path b.outputs)
            (attempt (docker_run ans c ∷ export_tar ans ∷ convert_to_ext4 ans req.job_id path ∷ [])
              b0)
            (ap (status_at n) (body.0 ∙ rest.0) ∙ there) body.1
            (λ raised. body.2 raised ∙ ap (get path) rest.1)),
    )
