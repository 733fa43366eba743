-- ===== src/Builder/Wait.antt =====
-- orchestrator/services/rootfs_tar.py: `run_builder_job`, which waits for a job of the builder.
use hack_bento.Base.{
  ◌≡◌, refl, arith, ℕ, zero, suc, ◌+◌, ◌*◌, ◌/◌, ◌<◌, ◌≤◌, Bool, true, false, Option, none, some,
  if◌then◌else◌, ltb, ltb→lt, Bool-cases, ◌==◌, ==_iff, ap, ◌∙◌, inl, inr, ◌⊎◌,
}

-- The answer to a GET of the job, by its status; `unknown`: any status but the three of the builder;
-- `refused`: an HTTP error, no answer, or one without a status.
pub data Polled : Type 0 where
  running ready failed unknown refused : Polled

-- How the call ends. It raises in the last two cases.
pub data Waited : Type 0 where
  done timed_out raised : Waited

abbrev pub poll_interval_s : ℕ
poll_interval_s = 5

-- The `while` loop from its round on, where `elapsed` is the number of rounds times the interval;
-- `none`: the fuel has run out.
unfoldable pub wait_rounds : (ℕ → Polled) → ℕ → ℕ → ℕ → Option Waited
wait_rounds answer timeout zero round = none
wait_rounds answer timeout (suc fuel) round =
    let rest = wait_rounds answer timeout fuel (round + 1) in
    if ltb timeout (poll_interval_s * (round + 1))
    then some Waited.timed_out
    else elim (answer (round + 1)) [
      | Polled.running ↦ rest
      | Polled.ready ↦ some Waited.done
      | Polled.unknown ↦ some Waited.done
      | Polled.failed ↦ some Waited.raised
      | Polled.refused ↦ some Waited.raised
    ]

-- The rounds that a timeout allows, and the one that exceeds it.
abbrev pub enough_rounds : ℕ → ℕ
enough_rounds timeout = timeout / poll_interval_s + 1

-- `run_builder_job`: how it ends, and whether the job was asked to be deleted. `posts`: the POST
-- that begins the job is answered with success.
unfoldable pub run_builder_job : Bool → (ℕ → Polled) → ℕ → Option Waited × Bool
unfolding wait_rounds
run_builder_job posts answer timeout =
    if posts
    then (wait_rounds answer timeout (enough_rounds timeout) 0, true)
    else (some Waited.raised, false)

-- The first answer that is not `running`, after so many rounds, is this one.
pub record FirstAnswer (answer : ℕ → Polled) (from : ℕ) (last : ℕ) (a : Polled) : Type 0 where
  pub later : from < last
  pub at_last : answer last ≡ a
  pub before : (m : ℕ) → from < m → m < last → answer m ≡ Polled.running

-- What the end says about the answers.
abbrev pub Explains : (ℕ → Polled) → ℕ → ℕ → Waited → Type 0
Explains answer timeout round Waited.done =
    (last : ℕ) × (FirstAnswer answer round last Polled.ready
      ⊎ FirstAnswer answer round last Polled.unknown)
    × (poll_interval_s * last ≤ timeout)
Explains answer timeout round Waited.raised =
    (last : ℕ) × (FirstAnswer answer round last Polled.failed
      ⊎ FirstAnswer answer round last Polled.refused)
    × (poll_interval_s * last ≤ timeout)
Explains answer timeout round Waited.timed_out =
    (m : ℕ) → round < m → poll_interval_s * m ≤ timeout → answer m ≡ Polled.running

Polled-cases :
    (a : Polled)
    → (a ≡ Polled.running)
      ⊎ (a ≡ Polled.ready)
      ⊎ (a ≡ Polled.failed)
      ⊎ (a ≡ Polled.refused)
      ⊎ (a ≡ Polled.unknown)
Polled-cases Polled.running = inl refl
Polled-cases Polled.ready = inr (inl refl)
Polled-cases Polled.failed = inr (inr (inl refl))
Polled-cases Polled.refused = inr (inr (inr (inl refl)))
Polled-cases Polled.unknown = inr (inr (inr (inr refl)))

module _ (answer : ℕ → Polled) (timeout : ℕ) where
  at_once :
      (round : ℕ) (a : Polled) → answer (round + 1) ≡ a → FirstAnswer answer round (round + 1) a
  at_once round a e = record {
    later = omega arith;
    at_last = e;
    before = λ m low high. absurd (omega arith);
  }

  earlier :
      (round m : ℕ)
      → answer (round + 1) ≡ Polled.running
      → round < m
      → (round + 1 < m → answer m ≡ Polled.running)
      → answer m ≡ Polled.running
  earlier round m e low above = elim (Bool-cases (m == round + 1)) [
    | inl same ↦ ap answer ((==_iff m (round + 1)).0 same) ∙ e
    | inr other ↦ above (ground arith)
  ]

  one_later :
      (round last : ℕ) (a : Polled)
      → answer (round + 1) ≡ Polled.running
      → FirstAnswer answer (round + 1) last a
      → FirstAnswer answer round last a
  one_later round last a e f = record {
    later = omega (arith, f.later);
    at_last = f.at_last;
    before = λ m low high. earlier round m e low (λ above. f.before m above high);
  }

  explained_later :
      (round : ℕ) (w : Waited)
      → answer (round + 1) ≡ Polled.running
      → Explains answer timeout (round + 1) w
      → Explains answer timeout round w
  explained_later round Waited.done e x = (
    x.0,
    elim (x.1) [
      | inl f ↦ inl (one_later round x.0 Polled.ready e f)
      | inr f ↦ inr (one_later round x.0 Polled.unknown e f)
    ],
    x.2,
  )
  explained_later round Waited.raised e x = (
    x.0,
    elim (x.1) [
      | inl f ↦ inl (one_later round x.0 Polled.failed e f)
      | inr f ↦ inr (one_later round x.0 Polled.refused e f)
    ],
    x.2,
  )
  explained_later round Waited.timed_out e x =
      λ m low within. earlier round m e low (λ above. x m above within)

  wait_rounds-ends :
      (fuel round : ℕ)
      → poll_interval_s * round ≤ timeout
      → timeout < poll_interval_s * (round + fuel)
      → (w : Waited) × (wait_rounds answer timeout fuel round ≡ some w)
        × Explains answer timeout round w
  unfolding wait_rounds
  wait_rounds-ends zero round low high = absurd (omega arith)
  wait_rounds-ends (suc fuel) round low high =
      elim (Bool-cases (ltb timeout (poll_interval_s * (round + 1)))) [
        | inl late ↦ (
          Waited.timed_out,
          rw late refl,
          λ m after within.
              absurd (omega (arith, ltb→lt timeout (poll_interval_s * (round + 1)) late)),
        )
        | inr early ↦
            let within : poll_interval_s * (round + 1) ≤ timeout = ground arith in
            elim (Polled-cases (answer (round + 1))) [
              | inl e ↦
                  let rest = wait_rounds-ends fuel (round + 1) within (omega arith) in
                  (rest.0, rw early (rw e (rest.1)), explained_later round rest.0 e rest.2)
              | inr (inl e) ↦ (
                Waited.done,
                rw early (rw e refl),
                (round + 1, inl (at_once round Polled.ready e), within),
              )
              | inr (inr (inl e)) ↦ (
                Waited.raised,
                rw early (rw e refl),
                (round + 1, inl (at_once round Polled.failed e), within),
              )
              | inr (inr (inr (inl e))) ↦ (
                Waited.raised,
                rw early (rw e refl),
                (round + 1, inr (at_once round Polled.refused e), within),
              )
              | inr (inr (inr (inr e))) ↦ (
                Waited.done,
                rw early (rw e refl),
                (round + 1, inr (at_once round Polled.unknown e), within),
              )
            ]
      ]

  -- Once the builder has taken the job, `run_builder_job` ends, whatever the builder answers, and
  -- asks for the job to be deleted. It returns only after the answer `ready`, or a status that the
  -- builder does not have, and raises only after `failed` or no proper answer, where each answer
  -- before was `running` and the timeout was not exceeded, or after the timeout, where each answer
  -- in time was `running`.
  pub run_builder_job-ends :
      (w : Waited) × ((run_builder_job true answer timeout).0 ≡ some w)
      × Explains answer timeout 0 w
      × ((run_builder_job true answer timeout).1 ≡ true)
  unfolding run_builder_job
  run_builder_job-ends =
      let end = wait_rounds-ends (enough_rounds timeout) 0 (omega arith) (omega arith) in
      (end.0, end.1, end.2, refl)
