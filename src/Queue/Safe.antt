-- ===== src/Queue/Safe.antt =====
-- The invariant of Queue/Workers: each step of orchestrator/services/rootfs_convert.py and its two
-- sibling workers, and the states that they reach.
use hack_bento.Base.{
  ℕ, ◌≡◌, refl, sym, ap, subst, ◌∙◌, ◌⊎◌, inl, inr, Bool, true, false, ◌&&◌, List, [], ◌∷◌, Option,
  none, some, ◌==◌, ==_refl, any, find_first, find_first-satisfies, map, All, arith, Bool-cases,
  some-injective,
}
use hack_bento.Queue.{
  Target, asset, image, same_target, ConversionRow, Tables, Outcome, done, broken, end_status,
  rows_of, with_rows, is_pending, is_converting, can_convert, can_build_base, can_build_bundle,
  set_row, update_row, set_status, marked, claim, with_target, first_of, claim_pending,
  claim_docker_base, claim_bundle, start_bundle, finish, finish_docker_base, finish_bundle,
  reset_row, reset_stuck_conversions, resubmit,
}
use hack_bento.Model.{RootfsConversionStatus}
use hack_bento.Queue.Workers.{
  Job, is_job, without, Line, Step, Reach, converts, builds_base, builds_bundle, converted,
  base_built, bundle_built, resubmitted, restarted, start, next, Agrees, Once, IsTracked,
  same_target_refl, map-Agrees, All-Agrees, set_row-Agrees, any-without,
}

target-cases : (t s : Target) → (t ≡ s) ⊎ (same_target t s ≡ false)
target-cases asset asset = inl refl
target-cases asset image = inr refl
target-cases image asset = inr refl
target-cases image image = inl refl

rows_of-same :
    (t : Target) (q : Tables) (rows : List ConversionRow) → rows_of t (with_rows t q rows) ≡ rows
rows_of-same asset q rows = refl
rows_of-same image q rows = refl

rows_of-other :
    (t s : Target) (q : Tables) (rows : List ConversionRow)
    → same_target t s ≡ false
    → rows_of s (with_rows t q rows) ≡ rows_of s q
rows_of-other asset asset q rows h = cc
rows_of-other asset image q rows h = refl
rows_of-other image asset q rows h = refl
rows_of-other image image q rows h = cc

abbrev AllAgree : List Job → Tables → Type 0
AllAgree jobs q = (s : Target) → All (Agrees s jobs) (rows_of s q)

-- An update of one row and of its job.
update_row-Agrees :
    (t : Target) (id : ℕ) (busy : Bool) (f : ConversionRow → ConversionRow) (jobs jobs' : List Job)
    (q : Tables)
    → ((r : ConversionRow) → ((f r).id ≡ r.id) × (is_converting (f r).status ≡ busy))
    → any (is_job t id) jobs' ≡ busy
    → ((s : Target) (k : ℕ)
        → (same_target t s && k == id) ≡ false
        → any (is_job s k) jobs ≡ any (is_job s k) jobs')
    → AllAgree jobs q
    → AllAgree jobs' (update_row t id f q)
update_row-Agrees t id busy f jobs jobs' q marks own rest a s = elim (target-cases t s) [
  | inl same ↦
      subst (λ u. All (Agrees u jobs') (rows_of u (update_row t id f q))) same
        (subst (All (Agrees t jobs')) (sym (rows_of-same t q _)) (
          map-Agrees t jobs jobs' (set_row id f) (rows_of t q)
            (set_row-Agrees t jobs jobs' id busy f marks own
              (λ k other. rest t k (ground (arith, other))))
            (a t)))
  | inr other ↦
      subst (All (Agrees s jobs')) (sym (rows_of-other t s q _ other))
        (All-Agrees s jobs jobs' (rows_of s q) (λ k. rest s k (ground (arith, other))) (a s))
]

All-found :
    (t : Target) (jobs : List Job) (p : ConversionRow → Bool) (rows : List ConversionRow)
    (r : ConversionRow)
    → All (Agrees t jobs) rows
    → find_first p rows ≡ some r
    → Agrees t jobs r
All-found t jobs p [] r a h = cc
All-found t jobs p (x ∷ rows) r a h = elim (Bool-cases (p x)) [
  | inl e ↦ subst (Agrees t jobs) (some-injective x r (rw e at h)) a.0
  | inr e ↦ All-found t jobs p rows r a.1 (rw e at h)
]

marked-some :
    (t : Target) (f : ConversionRow → ConversionRow) (q q' : Tables) (o : Option ConversionRow)
    (r : ConversionRow)
    → marked t f q o ≡ some (r, q')
    → (o ≡ some r) × (update_row t r.id f q ≡ q')
unfolding marked
marked-some t f q q' none r h = cc
marked-some t f q q' (some x) r h =
    let pair = some-injective (x, update_row t x.id f q) (r, q') h in
    let same : x ≡ r = ap (λ p. p.0) pair in
    (
      ap some same,
      subst (λ (y : ConversionRow). update_row t y.id f q ≡ q') same (ap (λ p. p.1) pair),
    )

pending-waits : (s : RootfsConversionStatus) → is_pending s ≡ true → is_converting s ≡ false
pending-waits s h = ground arith

-- A claim takes a row that no worker is busy with.
claim-IsTracked :
    (t : Target) (p : ConversionRow → Bool) (f : ConversionRow → ConversionRow) (l : Line)
    (r : ConversionRow) (q : Tables)
    → ((x : ConversionRow) → p x ≡ true → is_pending x.status ≡ true)
    → ((x : ConversionRow) → ((f x).id ≡ x.id) × (is_converting (f x).status ≡ true))
    → claim t p f l.tables ≡ some (r, q)
    → IsTracked l
    → IsTracked (record { tables = q; jobs = record { target = t; row = r.id } ∷ l.jobs })
unfolding claim
claim-IsTracked t p f l r q waits marks h inv =
    let (found, table) = marked-some t f l.tables q _ r h in
    let own = All-found t l.jobs p _ r (inv.tracked t) found in
    let pending = waits r (find_first-satisfies p _ r found) in
    let idle : any (is_job t r.id) l.jobs ≡ false = sym own ∙ pending-waits r.status pending in
    record {
      tracked = subst (AllAgree (record { target = t; row = r.id } ∷ l.jobs)) table (
          update_row-Agrees t r.id true f l.jobs (record { target = t; row = r.id } ∷ l.jobs)
            l.tables marks (rw (same_target_refl t) (rw ==_refl refl))
            (λ s k other. ground (arith, other)) inv.tracked);
      distinct = (idle, inv.distinct);
    }

Once-without : (t : Target) (id : ℕ) (jobs : List Job) → Once jobs → Once (without t id jobs)
Once-without t id [] h = tt
Once-without t id (j ∷ jobs) h = elim (Bool-cases (is_job t id j)) [
  | inl gone ↦ rw gone (Once-without t id jobs h.1)
  | inr kept ↦
      rw kept
        (any-without t j.target id j.row jobs ∙ ground (arith, h.0), Once-without t id jobs h.1)
]

-- The end of a job.
end-IsTracked :
    (t : Target) (id : ℕ) (f : ConversionRow → ConversionRow) (l : Line)
    → ((r : ConversionRow) → ((f r).id ≡ r.id) × (is_converting (f r).status ≡ false))
    → IsTracked l
    → IsTracked (record { tables = update_row t id f l.tables; jobs = without t id l.jobs })
end-IsTracked t id f l marks inv = record {
  tracked =
      update_row-Agrees t id false f l.jobs (without t id l.jobs) l.tables marks
        (any-without t t id id l.jobs ∙ rw (same_target_refl t) (rw ==_refl refl))
        (λ s k other. ground (arith, any-without t s id k l.jobs, other)) inv.tracked;
  distinct = Once-without t id l.jobs inv.distinct;
}

end_status-rests : (o : Outcome) → is_converting (end_status o) ≡ false
end_status-rests done = refl
end_status-rests (broken m) = refl

first_of-some :
    (a b : Option (ConversionRow × Tables)) (t : Target) (r : ConversionRow) (q : Tables)
    → first_of (with_target asset a) (with_target image b) ≡ some (t, r, q)
    → ((asset ≡ t) × (a ≡ some (r, q))) ⊎ ((image ≡ t) × (b ≡ some (r, q)))
unfolding first_of with_target
first_of-some (some (x, p)) b t r q h =
    let all = some-injective (asset, x, p) (t, r, q) h in
    inl (ap (λ c. c.0) all, ap (λ c. some (c.1, c.2)) all)
first_of-some none (some (x, p)) t r q h =
    let all = some-injective (image, x, p) (t, r, q) h in
    inr (ap (λ c. c.0) all, ap (λ c. some (c.1, c.2)) all)
first_of-some none none t r q h = cc

convert-IsTracked :
    (t s : Target) (l : Line) (r : ConversionRow) (q : Tables)
    → s ≡ t
    → claim s (can_convert s) (set_status RootfsConversionStatus.converting) l.tables ≡ some (r, q)
    → IsTracked l
    → IsTracked (record { tables = q; jobs = record { target = t; row = r.id } ∷ l.jobs })
convert-IsTracked t s l r q same h inv =
    subst
      (λ u. IsTracked (record { tables = q; jobs = record { target = u; row = r.id } ∷ l.jobs }))
      same (claim-IsTracked s (can_convert s) _ l r q (waits s) (λ x. (refl, refl)) h inv)
  where
    waits : (u : Target) (x : ConversionRow) → can_convert u x ≡ true → is_pending x.status ≡ true
    waits asset x k = unfold can_convert in ground arith
    waits image x k = unfold can_convert in ground arith

pub Step-IsTracked : {l m : Line} → Step l m → IsTracked l → IsTracked m
unfolding claim_pending claim_docker_base claim_bundle finish finish_docker_base finish_bundle
    resubmit reset_stuck_conversions
Step-IsTracked {l} (converts t r q h) inv = elim (first_of-some _ _ t r q h) [
  | inl (same, k) ↦ convert-IsTracked t asset l r q same k inv
  | inr (same, k) ↦ convert-IsTracked t image l r q same k inv
]
Step-IsTracked {l} (builds_base r q h) inv =
    claim-IsTracked asset can_build_base _ l r q (λ x k. unfold can_build_base in ground arith)
      (λ x. (refl, refl)) h inv
Step-IsTracked {l} (builds_bundle r q h) inv =
    claim-IsTracked image can_build_bundle start_bundle l r q
      (λ x k. unfold can_build_bundle in ground arith) (λ x. (refl, refl)) h inv
Step-IsTracked {l} (converted t id o) inv =
    end-IsTracked t id _ l (λ r. (refl, end_status-rests o)) inv
Step-IsTracked {l} (base_built id o) inv =
    end-IsTracked asset id _ l (λ r. (refl, end_status-rests o)) inv
Step-IsTracked {l} (bundle_built id o dest) inv =
    end-IsTracked image id _ l (λ r. (refl, end_status-rests o)) inv
Step-IsTracked {l} (resubmitted id archive path idle) inv = record {
  tracked =
      update_row-Agrees image id false _ l.jobs l.jobs l.tables (λ r. (refl, refl)) idle
        (λ s k other. refl) inv.tracked;
  distinct = inv.distinct;
}
Step-IsTracked {l} restarted inv = record { tracked = waiting; distinct = tt }
  where
    rests : (t : Target) (r : ConversionRow) → Agrees t l.jobs r → Agrees t [] (reset_row r)
    rests t r a = ground arith

    waiting :
        AllAgree [] (record {
          assets = map reset_row l.tables.assets;
          images = map reset_row l.tables.images;
        })
    waiting asset =
        map-Agrees asset l.jobs [] reset_row l.tables.assets (rests asset) (inv.tracked asset)
    waiting image =
        map-Agrees image l.jobs [] reset_row l.tables.images (rests image) (inv.tracked image)

-- From tables in which no row is `converting`, after any interleaving of the three workers, of
-- restarts of the process, and of new archives for projects that no worker is busy with: no two
-- jobs are for one row, and a row is `converting` exactly while there is a job for it.
pub Reach-IsTracked :
    (q : Tables) {m : Line}
    → ((t : Target) → All (λ r. is_converting r.status ≡ false) (rows_of t q))
    → Reach (record { tables = q; jobs = [] }) m
    → IsTracked m
Reach-IsTracked q quiet start = record { tracked = λ t. at_first t; distinct = tt }
  where
    idle :
        (t : Target) (rows : List ConversionRow)
        → All (λ r. is_converting r.status ≡ false) rows
        → All (Agrees t []) rows
    idle t [] h = tt
    idle t (r ∷ rows) h = (h.0, idle t rows h.1)

    at_first : AllAgree [] q
    at_first t = idle t (rows_of t q) (quiet t)
Reach-IsTracked q quiet (next r s) = Step-IsTracked s (Reach-IsTracked q quiet r)
