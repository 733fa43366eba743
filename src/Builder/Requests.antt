-- ===== src/Builder/Requests.antt =====
-- docker/docker-base-builder/server.py: which requests begin a job, and what the others see of it.
use hack_bento.Base.{
  ◌≡◌, refl, arith, ap, sym, subst, ◌∙◌, ℕ, zero, suc, ◌<◌, Bool, true, false, not, ◌||◌, List, [],
  ◌∷◌, ◌++◌, Option, none, some, Text, codes, text_eq, text_eq_sound, contains, split_on, prepend,
  lacks, length, any, All, Bool-cases, inl, inr, Reply, ok, http, reject-eq-ok, ok-injective, ◌==◌,
  split_on-lacks,
}
use hack_bento.Host.{get}
use hack_bento.Host.Sets.{get-assign, get-assign_ne}
use hack_bento.Extract.{normpath}
use hack_bento.Builder.Paths.{normpath-output_path, good_filename-nonempty}
use hack_bento.Builder.{
  JobStatus, Builder, JobRequest, allowed_export_base_images, allowed_base_images, basename,
  last_of, is_bad_filename, output_path, is_some_job, add_job, start_export_tar, start_build,
  status_at, known, status_of, get_build_status,
}

-- Two parts or more, the last of which is shorter than the text.
record IsCut (s : Text) (parts : List Text) : Type 0 where
  pub first : Text
  pub second : Text
  pub rest : List Text
  pub form : parts ≡ first ∷ (second ∷ rest)
  pub shorter : length (last_of parts) < length s

empty_part-IsCut :
    (x : ℕ) (s : Text) (parts : List Text) → IsCut s parts → IsCut (x ∷ s) ([] ∷ parts)
empty_part-IsCut x s [] cut = absurd (no_parts cut.form)
  where
    no_parts : {f : Text} {r : List Text} → [] ≡ f ∷ r → ⊥
    no_parts h = cc
empty_part-IsCut x s (p ∷ parts) cut = record {
  first = [];
  second = p;
  rest = parts;
  form = refl;
  shorter = omega (arith, cut.shorter);
}

prepend-IsCut :
    (x : ℕ) (s : Text) (parts : List Text) → IsCut s parts → IsCut (x ∷ s) (prepend x parts)
unfolding prepend
prepend-IsCut x s parts cut = rw cut.form (record {
  first = x ∷ cut.first;
  second = cut.second;
  rest = cut.rest;
  form = refl;
  shorter =
      omega
        (arith, subst (λ (ps : List Text). length (last_of ps) < length s) cut.form cut.shorter);
})

split_on-IsCut : (c : ℕ) (s : Text) → lacks c s ≡ false → IsCut s (split_on c s)
unfolding split_on prepend
split_on-IsCut c [] h = cc
split_on-IsCut c (x ∷ s) h = elim (Bool-cases (x == c)) [
  | inl e ↦ elim (Bool-cases (lacks c s)) [
    | inl none_left ↦ rw e (
        subst (λ (ps : List Text). IsCut (x ∷ s) ([] ∷ ps)) (sym (split_on-lacks c s none_left))
          (record { first = []; second = s; rest = []; form = refl; shorter = omega arith }))
    | inr more ↦ let ih = split_on-IsCut c s more in rw e (empty_part-IsCut x s (split_on c s) ih)
  ]
  | inr e ↦ let ih = split_on-IsCut c s (ground arith) in rw e (prepend-IsCut x s (split_on c s) ih)
]

negated : (b : Bool) → not b ≡ false → b ≡ true
negated true h = refl
negated false h = cc

-- A file name that is accepted is one part of a path.
good_filename : (s : Text) → is_bad_filename s ≡ false → lacks b'/' s ≡ true
unfolding is_bad_filename basename
good_filename s h = elim (Bool-cases (lacks b'/' s)) [
  | inl e ↦ e
  | inr e ↦
      let cut = split_on-IsCut b'/' s e in
      let same : last_of (split_on b'/' s) ≡ s =
        text_eq_sound (last_of (split_on b'/' s)) s (ground arith) in
      absurd (omega (arith, cut.shorter, ap (length {A = ℕ}) same))
]

-- Every name of `_jobs` has an object.
abbrev pub AreKept : Builder → Type 0
AreKept b = All (λ (e : Text × ℕ). e.1 < length b.objects) b.jobs

status_at-append :
    (n : ℕ) (objects : List JobStatus) (s : JobStatus)
    → n < length objects
    → status_at n (objects ++ (s ∷ [])) ≡ status_at n objects
status_at-append n [] s h = absurd (omega arith)
status_at-append zero (x ∷ objects) s h = refl
status_at-append (suc n) (x ∷ objects) s h = status_at-append n objects s (omega arith)

status_at-last :
    (objects : List JobStatus) (s : JobStatus)
    → status_at (length objects) (objects ++ (s ∷ [])) ≡ some s
status_at-last [] s = refl
status_at-last (x ∷ objects) s = status_at-last objects s

get-none :
    (id : Text) (jobs : List (Text × ℕ))
    → any (λ (e : Text × ℕ). text_eq e.0 id) jobs ≡ false
    → get id jobs ≡ none
get-none id [] h = refl
get-none id (e ∷ jobs) h = elim (Bool-cases (text_eq e.0 id)) [
  | inl f ↦ absurd (ground arith)
  | inr f ↦ rw f (get-none id jobs (ground arith))
]

get-All :
    (k : ℕ) (id : Text) (jobs : List (Text × ℕ)) (n : ℕ)
    → All (λ (e : Text × ℕ). e.1 < k) jobs
    → get id jobs ≡ some n
    → n < k
get-All k id [] n a h = cc
get-All k id (e ∷ jobs) n a h = elim (Bool-cases (text_eq e.0 id)) [
  | inl f ↦
      let same : some e.1 ≡ some n = rw f at h in
      let eq : e.1 ≡ n = cc in subst (λ (m : ℕ). m < k) eq a.0
  | inr f ↦ get-All k id jobs n a.1 (rw f at h)
]

-- What the service answers for an identifier, by the object that it names.
status_of-kept :
    (o : Option ℕ) (b b' : Builder)
    → ((n : ℕ) → o ≡ some n → status_at n b'.objects ≡ status_at n b.objects)
    → status_of o b' ≡ status_of o b
status_of-kept none b b' h = refl
status_of-kept (some n) b b' h = ap known (h n refl)

-- What an accepted request has done, and what the other jobs see of it.
pub record IsBegun (req : JobRequest) (path : Text) (b b' : Builder) : Type 0 where
  pub one_part : lacks b'/' req.dest_filename ≡ true
  pub named : path ≡ codes "/output/" ++ req.dest_filename
  pub inside :
      text_eq req.dest_filename (codes ".") ≡ false
      → text_eq req.dest_filename (codes "..") ≡ false
      → normpath path ≡ path
  pub unknown : get_build_status req.job_id b ≡ http 404
  pub running : get_build_status req.job_id b' ≡ ok JobStatus.running
  pub others :
      (other : Text)
      → text_eq req.job_id other ≡ false
      → get_build_status other b' ≡ get_build_status other b
  pub containers : b'.containers ≡ b.containers
  pub outputs : b'.outputs ≡ b.outputs

begun :
    (req : JobRequest) (b : Builder)
    → AreKept b
    → is_bad_filename req.dest_filename ≡ false
    → is_some_job req.job_id b ≡ false
    → IsBegun req (output_path req.dest_filename) b (add_job req.job_id b).1
unfolding output_path add_job get_build_status
begun req b kept name free = record {
  one_part = good_filename req.dest_filename name;
  named = refl;
  inside = λ here up.
      normpath-output_path req.dest_filename (good_filename req.dest_filename name)
        (good_filename-nonempty req.dest_filename name) here up;
  unknown = rw (get-none req.job_id b.jobs free) refl;
  running =
      ap (λ (o : Option ℕ). status_of o (add_job req.job_id b).1)
        (get-assign req.job_id (length b.objects) b.jobs)
      ∙ ap known (status_at-last b.objects JobStatus.running);
  others = λ other ne.
      ap (λ (o : Option ℕ). status_of o (add_job req.job_id b).1)
        (get-assign_ne req.job_id other (length b.objects) b.jobs ne)
      ∙ status_of-kept (get other b.jobs) b (add_job req.job_id b).1 (λ n e.
        status_at-append n b.objects JobStatus.running
          (get-All (length b.objects) other b.jobs n kept e));
  containers = refl;
  outputs = refl;
}

module _ (req : JobRequest) (b : Builder) (n : ℕ) (path : Text) (b' : Builder)
    (kept : AreKept b) where
  ends_ok :
      ◌≡◌ {A = Reply (ℕ × Text × Builder)}
        (ok ((add_job req.job_id b).0, output_path req.dest_filename, (add_job req.job_id b).1))
        (ok (n, path, b'))
      → is_bad_filename req.dest_filename ≡ false
      → is_some_job req.job_id b ≡ false
      → IsBegun req path b b'
  ends_ok e name free =
      let whole = ok-injective e in
      subst (λ (r : ℕ × Text × Builder). IsBegun req r.1 b r.2) whole (begun req b kept name free)

  -- A request to `/export-tar` that is accepted names an allowed image, a known method, and a file
  -- name without a slash. Its path is `/output/` and that name, and is its own normal form unless
  -- the name is `.` or `..`, which are accepted too. Its identifier was unknown and is now that of
  -- a running job, where each name of a job has an object; for every other identifier the service
  -- answers as before, and no container and no file has changed.
  pub start_export_tar-IsBegun :
      start_export_tar req b ≡ ok (n, path, b')
      → (contains allowed_export_base_images req.base_image ≡ true)
        × ((text_eq req.method (codes "export") || text_eq req.method (codes "cp")) ≡ true)
        × IsBegun req path b b'
  unfolding start_export_tar
  start_export_tar-IsBegun e =
      let s1 = reject-eq-ok (not (contains allowed_export_base_images req.base_image)) 400 _ e in
      let s2 = reject-eq-ok (is_bad_filename req.dest_filename) 400 _ s1.1 in
      let s3 =
        reject-eq-ok (not (text_eq req.method (codes "export") || text_eq req.method (codes "cp")))
          400 _ s2.1 in
      let s4 = reject-eq-ok (is_some_job req.job_id b) 409 _ s3.1 in
      (negated _ s1.0, negated _ s3.0, ends_ok s4.1 s2.0 s4.0)

  -- A request to `/build` that is accepted names an allowed image and a file name without a slash;
  -- its path and its job are as those of `/export-tar`.
  pub start_build-IsBegun :
      start_build req b ≡ ok (n, path, b')
      → (contains allowed_base_images req.base_image ≡ true) × IsBegun req path b b'
  unfolding start_build
  start_build-IsBegun e =
      let s1 = reject-eq-ok (not (contains allowed_base_images req.base_image)) 400 _ e in
      let s2 = reject-eq-ok (is_bad_filename req.dest_filename) 400 _ s1.1 in
      let s3 = reject-eq-ok (is_some_job req.job_id b) 409 _ s2.1 in
      (negated _ s1.0, ends_ok s3.1 s2.0 s3.0)
