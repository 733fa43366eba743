-- ===== src/Host/Sets.antt =====
-- What `place` and `drop` do to the resources of the host, and the dictionaries of the
-- orchestrator.
use hack_bento.Base.{
  ◌≡◌, refl, arith, ap, ℕ, Bool, true, false, not, ◌&&◌, List, [], ◌∷◌, none, some, Text,
  text_eq_sound, text_eq_refl, text_eq, if◌then◌else◌, ==_refl, ==_iff, ◌==◌, where_is, Bool-cases,
  inl, inr, &&-eq-true, sym, ◌∙◌, All,
}
use hack_bento.Host.{
  Host, Resource, tag, name, same, has, held_as, without, place, drop, forget, get, assign, Answers,
  Call, remove_if_there,
}

same_parts : (r s : Resource) → same r s ≡ true → (tag r ≡ tag s) × (name r ≡ name s)
same_parts r s h =
    let parts = &&-eq-true (tag r == tag s) (text_eq (name r) (name s)) h in
    ((==_iff (tag r) (tag s)).0 parts.0, text_eq_sound (name r) (name s) parts.1)

pub same_refl : (r : Resource) → same r r ≡ true
same_refl r = ground (arith, ==_refl (tag r), text_eq_refl (name r))

same_left : (r x s : Resource) → same r x ≡ true → same x s ≡ same r s
same_left r x s h =
    let parts = same_parts r x h in
    ap (λ (t : ℕ). t == tag s && text_eq (name x) (name s)) (sym parts.0)
    ∙ ap (λ (n : Text). tag r == tag s && text_eq n (name s)) (sym parts.1)

pub held_as-none : (r : Resource) (xs : List Resource) → has r xs ≡ false → held_as r xs ≡ none
held_as-none r [] h = refl
held_as-none r (x ∷ xs) h = ground (arith, held_as-none r xs)

pub held_as-without :
    (r s : Resource) (xs : List Resource)
    → held_as r (without s xs) ≡ (if same r s then none else held_as r xs)
held_as-without r s [] = ground arith
held_as-without r s (x ∷ xs) = elim (Bool-cases (same r x)) [
  | inl e ↦ ground (arith, same_left r x s e, held_as-without r s xs)
  | inr e ↦ ground (arith, held_as-without r s xs)
]

pub held_as-place :
    (r s : Resource) (h : Host)
    → held_as r (place s h).held ≡ (if same r s then some s else held_as r h.held)
held_as-place r s h = ground (arith, held_as-without r s h.held)

pub held_as-drop :
    (r s : Resource) (h : Host)
    → held_as r (drop s h).held ≡ (if same r s then none else held_as r h.held)
held_as-drop r s h = held_as-without r s h.held

module _ {ℓ} {A : Type ℓ} (p : A → Bool) where
  pub where_is_twice : (xs : List A) → where_is p (where_is p xs) ≡ where_is p xs
  where_is_twice [] = refl
  where_is_twice (x ∷ xs) = ground (arith, where_is_twice xs)

  pub where_is_all : (xs : List A) → All (λ x. p x ≡ true) xs → where_is p xs ≡ xs
  where_is_all [] h = refl
  where_is_all (x ∷ xs) h = rw h.0 (ap (λ (t : List A). x ∷ t) (where_is_all xs h.1))

module _ {ℓ} {V : Type ℓ} (key : Text) (value : V) (d : List (Text × V)) where
  pub get-assign : get key (assign key value d) ≡ some value
  get-assign = rw (text_eq_refl key)

  pub forget-assign : forget key (assign key value d) ≡ forget key d
  forget-assign = rw (text_eq_refl key) (where_is_twice (λ (e : Text × V). not (text_eq e.0 key)) d)

pub held_as-same :
    (r s : Resource) (xs : List Resource) → same r s ≡ true → held_as r xs ≡ held_as s xs
held_as-same r s [] h = refl
held_as-same r s (x ∷ xs) h =
    let parts = same_parts r s h in
    let heads : same r x ≡ same s x =
      ap (λ (t : ℕ). t == tag x && text_eq (name r) (name x)) parts.0
      ∙ ap (λ (n : Text). tag s == tag x && text_eq n (name x)) parts.1 in
    ground (arith, heads, held_as-same r s xs h)

pub drop-absent : (s : Resource) (h : Host) → held_as s (drop s h).held ≡ none
drop-absent s h = held_as-drop s s h ∙ rw (same_refl s) refl

pub remove_if_there-absent :
    (ans : Answers) (call : Call) (s : Resource) (h : Host)
    → ans.raises call ≡ false
    → held_as s (remove_if_there ans call s h).1.held ≡ none
remove_if_there-absent ans call s h works = elim (Bool-cases (has s h.held)) [
  | inl e ↦ rw e (rw works (drop-absent s h))
  | inr e ↦ rw e (held_as-none s h.held e)
]

module _ {ℓ} {V : Type ℓ} (key : Text) where
  -- A dictionary without the key.
  pub forget_unused :
      (d : List (Text × V)) → All (λ e. text_eq e.0 key ≡ false) d → forget key d ≡ d
  forget_unused [] h = refl
  forget_unused (e ∷ d) h = rw h.0 (ap (λ (t : List (Text × V)). e ∷ t) (forget_unused d h.1))

  pub get_unused : (d : List (Text × V)) → All (λ e. text_eq e.0 key ≡ false) d → get key d ≡ none
  get_unused [] h = refl
  get_unused (e ∷ d) h = rw h.0 (get_unused d h.1)

pub remove_if_there-rest :
    (ans : Answers) (call : Call) (r : Resource) (h : Host)
    → ((remove_if_there ans call r h).1.processes ≡ h.processes)
      × ((remove_if_there ans call r h).1.fc_pids ≡ h.fc_pids)
      × ((remove_if_there ans call r h).1.fc_rootfs_paths ≡ h.fc_rootfs_paths)
remove_if_there-rest ans call r h = ground arith

module _ {ℓ} {V : Type ℓ} where
  pub get-forget : (key : Text) (d : List (Text × V)) → get key (forget key d) ≡ none
  get-forget key [] = refl
  get-forget key (e ∷ d) = elim (Bool-cases (text_eq e.0 key)) [
    | inl f ↦ rw f (get-forget key d)
    | inr f ↦ rw f (rw f (get-forget key d))
  ]

  pub get-forget_ne :
      (key other : Text) (d : List (Text × V))
      → text_eq key other ≡ false
      → get other (forget key d) ≡ get other d
  get-forget_ne key other [] ne = refl
  get-forget_ne key other (e ∷ d) ne = elim (Bool-cases (text_eq e.0 key)) [
    | inl f ↦
        let differs : text_eq e.0 other ≡ false =
          ap (λ (t : Text). text_eq t other) (text_eq_sound e.0 key f) ∙ ne in
        rw f (rw differs (get-forget_ne key other d ne))
    | inr f ↦ elim (Bool-cases (text_eq e.0 other)) [
      | inl g ↦ rw f (rw g refl)
      | inr g ↦ rw f (rw g (get-forget_ne key other d ne))
    ]
  ]

  pub get-assign_ne :
      (key other : Text) (o : V) (d : List (Text × V))
      → text_eq key other ≡ false
      → get other (assign key o d) ≡ get other d
  get-assign_ne key other o d ne = rw ne (get-forget_ne key other d ne)
