-- ===== src/Host/Quiet.antt =====
-- What the calls for one VM leave alone on the host of Host.antt.
use hack_bento.Base.{
  ◌≡◌, refl, Bool, true, false, List, [], ◌∷◌, Text, if◌then◌else◌, Bool-cases, inl, inr, ◌∙◌, All,
}
use hack_bento.Host.{
  Host, Answers, Call, Resource, same, has, held_as, place, drop, forget, attempt, remove_if_there,
}
use hack_bento.Host.Sets.{held_as-place, held_as-drop}

-- An invariant of the steps of a `try` block holds where the block ends or raises.
pub attempt-keeps {ℓ κ} :
    {S : Type ℓ} (P : S → Type κ) (steps : List (S → Bool × S))
    → All (λ step. (s : S) → P s → P (step s).1) steps
    → (s : S) → P s
    → P (attempt steps s).1
unfolding attempt
attempt-keeps P [] keep s h = h
attempt-keeps P (step ∷ steps) keep s h = elim (Bool-cases (step s).0) [
  | inl e ↦ rw e (attempt-keeps P steps keep.1 (step s).1 (keep.0 s h))
  | inr e ↦ rw e (keep.0 s h)
]

false-ne : false ≡ true → ⊥
false-ne h = cc

-- A `try` block that goes through has gone through its first step, and then through the rest.
pub attempt-ok {ℓ} :
    {S : Type ℓ} (step : S → Bool × S) (steps : List (S → Bool × S)) (s : S)
    → (attempt (step ∷ steps) s).0 ≡ true
    → ((step s).0 ≡ true)
      × ((attempt steps (step s).1).0 ≡ true)
      × ((attempt (step ∷ steps) s).1 ≡ (attempt steps (step s).1).1)
unfolding attempt
attempt-ok step steps s h = elim (Bool-cases (step s).0) [
  | inl e ↦ (e, rw e at h, rw e refl)
  | inr e ↦
      (absurd (false-ne (rw e at h)), absurd (false-ne (rw e at h)), absurd (false-ne (rw e at h)))
]

-- The resource `r`, the processes and the PIDs are as before, and so are the rootfs paths of the
-- other VMs.
pub record IsQuiet (vm : Text) (r : Resource) (h h' : Host) : Type 0 where
  pub resource : held_as r h'.held ≡ held_as r h.held
  pub processes : h'.processes ≡ h.processes
  pub fc_pids : h'.fc_pids ≡ h.fc_pids
  pub paths : forget vm h'.fc_rootfs_paths ≡ forget vm h.fc_rootfs_paths

module _ (vm : Text) (r : Resource) where
  pub refl-IsQuiet : (h : Host) → IsQuiet vm r h h
  refl-IsQuiet h = record { resource = refl; processes = refl; fc_pids = refl; paths = refl }

  pub trans-IsQuiet : {a b c : Host} → IsQuiet vm r a b → IsQuiet vm r b c → IsQuiet vm r a c
  trans-IsQuiet p q = record {
    resource = q.resource ∙ p.resource;
    processes = q.processes ∙ p.processes;
    fc_pids = q.fc_pids ∙ p.fc_pids;
    paths = q.paths ∙ p.paths;
  }

  pub if-IsQuiet :
      (b : Bool) {h x y : Host}
      → IsQuiet vm r h x
      → IsQuiet vm r h y
      → IsQuiet vm r h (if b then x else y)
  if-IsQuiet true p q = p
  if-IsQuiet false p q = q

  pub place-IsQuiet : (s : Resource) (h : Host) → same r s ≡ false → IsQuiet vm r h (place s h)
  place-IsQuiet s h d = record {
    resource = held_as-place r s h ∙ rw d refl;
    processes = refl;
    fc_pids = refl;
    paths = refl;
  }

  pub drop-IsQuiet : (s : Resource) (h : Host) → same r s ≡ false → IsQuiet vm r h (drop s h)
  drop-IsQuiet s h d = record {
    resource = held_as-drop r s h ∙ rw d refl;
    processes = refl;
    fc_pids = refl;
    paths = refl;
  }

  pub remove_if_there-IsQuiet :
      (ans : Answers) (call : Call) (s : Resource) (h : Host)
      → same r s ≡ false
      → IsQuiet vm r h (remove_if_there ans call s h).1
  remove_if_there-IsQuiet ans call s h d = elim (Bool-cases (has s h.held)) [
    | inl e ↦ rw e (elim (Bool-cases (ans.raises call)) [
      | inl b ↦ rw b (refl-IsQuiet h)
      | inr b ↦ rw b (drop-IsQuiet s h d)
    ])
    | inr e ↦ rw e (refl-IsQuiet h)
  ]

  -- A `try` block of such steps, wherever it ends.
  pub attempt-IsQuiet :
      (steps : List (Host → Bool × Host))
      → All (λ step. (s : Host) → IsQuiet vm r s (step s).1) steps
      → (h : Host) → IsQuiet vm r h (attempt steps h).1
  unfolding attempt
  attempt-IsQuiet [] each h = refl-IsQuiet h
  attempt-IsQuiet (step ∷ steps) each h = elim (Bool-cases (step h).0) [
    | inl e ↦ rw e (trans-IsQuiet (each.0 h) (attempt-IsQuiet steps each.1 (step h).1))
    | inr e ↦ rw e (each.0 h)
  ]
