-- ===== src/Queue/Workers.antt =====
-- The step relation of the three workers of Queue, new archives and restarts, and its invariant.
use hack_bento.Base.{
  ℕ, ◌≡◌, refl, sym, ap, subst, ◌∙◌, Bool, true, false, not, ◌&&◌, List, [], ◌∷◌, Option, some,
  Text, ◌==◌, ==_iff, any, where_is, map, All, arith, Bool-cases, inl, inr,
}
use hack_bento.Queue.{
  Target, asset, image, same_target, ConversionRow, Tables, Outcome, rows_of, is_converting,
  set_row, claim_pending, claim_docker_base, claim_bundle, finish, finish_docker_base,
  finish_bundle, reset_stuck_conversions, resubmit,
}

-- A conversion that a worker is busy with.
pub record Job : Type 0 where
  pub target : Target
  pub row : ℕ

abbrev pub is_job : Target → ℕ → Job → Bool
is_job t id j = same_target j.target t && j.row == id

abbrev pub without : Target → ℕ → List Job → List Job
without t id jobs = where_is (λ j. not (is_job t id j)) jobs

-- The tables, and the workers' jobs, which a restart of the process forgets.
pub record Line : Type 0 where
  pub tables : Tables
  pub jobs : List Job

pub data Step (l : Line) : Line → Type 0 where
  converts :
      (t : Target) (r : ConversionRow) (q : Tables)
      → claim_pending l.tables ≡ some (t, r, q)
      → Step l (record { tables = q; jobs = record { target = t; row = r.id } ∷ l.jobs })
  builds_base :
      (r : ConversionRow) (q : Tables)
      → claim_docker_base l.tables ≡ some (r, q)
      → Step l (record { tables = q; jobs = record { target = asset; row = r.id } ∷ l.jobs })
  builds_bundle :
      (r : ConversionRow) (q : Tables)
      → claim_bundle l.tables ≡ some (r, q)
      → Step l (record { tables = q; jobs = record { target = image; row = r.id } ∷ l.jobs })
  converted :
      (t : Target) (id : ℕ) (o : Outcome)
      → Step l (record { tables = finish t id o l.tables; jobs = without t id l.jobs })
  base_built :
      (id : ℕ) (o : Outcome)
      → Step l
          (record { tables = finish_docker_base id o l.tables; jobs = without asset id l.jobs })
  bundle_built :
      (id : ℕ) (o : Outcome) (dest : Option Text)
      → Step l
          (record { tables = finish_bundle id o dest l.tables; jobs = without image id l.jobs })
  resubmitted :
      (id : ℕ) (archive path : Text)
      → any (is_job image id) l.jobs ≡ false
      → Step l (record l { tables = resubmit id archive path l.tables })
  restarted : Step l (record { tables = reset_stuck_conversions l.tables; jobs = [] })

pub data Reach (l : Line) : Line → Type 0 where
  start : Reach l l
  next : {m n : Line} → Reach l m → Step m n → Reach l n

-- A row is `converting` exactly while a worker is busy with it.
abbrev pub Agrees : Target → List Job → ConversionRow → Type 0
Agrees t jobs r = is_converting r.status ≡ any (is_job t r.id) jobs

abbrev pub Once : List Job → Type 0
Once [] = Unit
Once (j ∷ jobs) = (any (is_job j.target j.row) jobs ≡ false) × Once jobs

pub record IsTracked (l : Line) : Type 0 where
  pub tracked : (t : Target) → All (Agrees t l.jobs) (rows_of t l.tables)
  pub distinct : Once l.jobs

pub same_target_refl : (t : Target) → same_target t t ≡ true
same_target_refl asset = refl
same_target_refl image = refl

pub map-Agrees :
    (t : Target) (jobs jobs' : List Job) (g : ConversionRow → ConversionRow)
    (rows : List ConversionRow)
    → ((r : ConversionRow) → Agrees t jobs r → Agrees t jobs' (g r))
    → All (Agrees t jobs) rows
    → All (Agrees t jobs') (map g rows)
map-Agrees t jobs jobs' g [] h a = tt
map-Agrees t jobs jobs' g (r ∷ rows) h a = (h r a.0, map-Agrees t jobs jobs' g rows h a.1)

pub All-Agrees :
    (t : Target) (jobs jobs' : List Job) (rows : List ConversionRow)
    → ((id : ℕ) → any (is_job t id) jobs ≡ any (is_job t id) jobs')
    → All (Agrees t jobs) rows
    → All (Agrees t jobs') rows
All-Agrees t jobs jobs' [] h a = tt
All-Agrees t jobs jobs' (r ∷ rows) h a = (a.0 ∙ h r.id, All-Agrees t jobs jobs' rows h a.1)

-- An update of one row: the jobs of the other rows stay, and `busy` is what becomes of this one.
pub set_row-Agrees :
    (t : Target) (jobs jobs' : List Job) (id : ℕ) (busy : Bool) (f : ConversionRow → ConversionRow)
    → ((r : ConversionRow) → ((f r).id ≡ r.id) × (is_converting (f r).status ≡ busy))
    → any (is_job t id) jobs' ≡ busy
    → ((k : ℕ) → (k == id) ≡ false → any (is_job t k) jobs ≡ any (is_job t k) jobs')
    → (r : ConversionRow) → Agrees t jobs r
    → Agrees t jobs' (set_row id f r)
set_row-Agrees t jobs jobs' id busy f marks own rest r a = elim (Bool-cases (r.id == id)) [
  | inl same ↦
      let here : f r ≡ set_row id f r = rw same refl in
      subst (Agrees t jobs') here (
        (marks r).1
        ∙ sym own
        ∙ ap (λ k. any (is_job t k) jobs') (sym ((==_iff r.id id).0 same) ∙ sym (marks r).0))
  | inr other ↦
      let here : r ≡ set_row id f r = rw other refl in
      subst (Agrees t jobs') here (a ∙ rest r.id other)
]

pub any-without :
    (t s : Target) (id k : ℕ) (jobs : List Job)
    → any (is_job s k) (without t id jobs)
      ≡ (not (same_target t s && id == k) && any (is_job s k) jobs)
any-without t s id k [] = ground arith
any-without t s id k (j ∷ jobs) = ground (arith, any-without t s id k jobs, targets j.target)
  where
    targets :
        (u : Target) → (same_target u t && same_target u s) ≡ (same_target u t && same_target t s)
    targets asset = by_target t
      where
        by_target :
            (v : Target)
            → (same_target asset v && same_target asset s)
              ≡ (same_target asset v && same_target v s)
        by_target asset = refl
        by_target image = refl
    targets image = by_target t
      where
        by_target :
            (v : Target)
            → (same_target image v && same_target image s)
              ≡ (same_target image v && same_target v s)
        by_target asset = refl
        by_target image = refl
