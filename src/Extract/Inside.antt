-- ===== src/Extract/Inside.antt =====
-- `_resolve_within` of Extract and the destination.
use hack_bento.Base.{
  codes, ◌≡◌, refl, sym, subst, Bool, true, false, List, [], ◌∷◌, ◌++◌, Option, none, some,
  some-injective, Text, text_eq, text_eq_sound, text_eq_refl, prepend, starts_with, if◌then◌else◌,
  ◌==◌, ==_refl, where_is, split_on, All, arith, Bool-cases, Option-cases, inl, inr,
}
use hack_bento.Extract.{
  slash, isabs, ends_in_slash, glued, join_path, is_part, normpath, Files, is_inside, link_end,
  followed, resolve_part, resolve_parts, resolve_within,
}

starts_with-append : (s t p : Text) → starts_with s p ≡ true → starts_with (s ++ t) p ≡ true
starts_with-append s t [] h = start s
  where
    start : (r : Text) → starts_with (r ++ t) [] ≡ true
    start [] = nothing t
      where
        nothing : (v : Text) → starts_with v [] ≡ true
        nothing [] = refl
        nothing (c ∷ v) = refl
    start (c ∷ r) = refl
starts_with-append [] t (c ∷ p) h = cc
starts_with-append (x ∷ s) t (c ∷ p) h = ground (arith, starts_with-append s t p)

starts_with-below :
    (dest part : Text) → starts_with (dest ++ (slash ∷ part)) (dest ++ (slash ∷ [])) ≡ true
starts_with-below [] [] = refl
starts_with-below [] (c ∷ part) = refl
starts_with-below (c ∷ dest) part = ground (arith, ==_refl c, starts_with-below dest part)

below-is_inside :
    (dest p : Text) → starts_with p (dest ++ (slash ∷ [])) ≡ true → is_inside dest p ≡ true
below-is_inside dest p h = ground (arith, h)

-- A component below a path that is below the destination.
glued-below :
    (base current part : Text)
    → starts_with current (base ++ (slash ∷ [])) ≡ true
    → starts_with (glued current part) (base ++ (slash ∷ [])) ≡ true
glued-below [] [] part h = cc
glued-below (b ∷ base) [] part h = cc
glued-below base (c ∷ a) part h = elim (Bool-cases (ends_in_slash (c ∷ a))) [
  | inl ends ↦ rw ends (starts_with-append (c ∷ a) part (base ++ (slash ∷ [])) h)
  | inr open_ ↦ rw open_ (starts_with-append (c ∷ a) (slash ∷ part) (base ++ (slash ∷ [])) h)
]

-- A component below the destination itself.
glued-destination :
    (dest part : Text)
    → isabs dest ≡ true
    → ends_in_slash dest ≡ false
    → glued dest part ≡ dest ++ (slash ∷ part)
glued-destination [] part h k = cc
glued-destination (c ∷ dest) part h k = rw k refl

join_path-is_inside :
    (dest current part : Text)
    → isabs dest ≡ true
    → ends_in_slash dest ≡ false
    → isabs part ≡ false
    → is_inside dest current ≡ true
    → is_inside dest (join_path current part) ≡ true
unfolding join_path
join_path-is_inside dest current part h k relative inside =
    rw relative (elim (Bool-cases (text_eq current dest)) [
      | inl same ↦ below-is_inside dest (glued current part) (
          subst (λ t. starts_with (glued t part) (dest ++ (slash ∷ [])) ≡ true)
            (sym (text_eq_sound current dest same))
            (subst (λ t. starts_with t (dest ++ (slash ∷ [])) ≡ true)
              (sym (glued-destination dest part h k)) (starts_with-below dest part)))
      | inr other ↦
          below-is_inside dest (glued current part)
            (glued-below dest current part (ground (arith, inside, other)))
    ])

followed-is_inside :
    (fs : Files) (dest current candidate reached : Text) (o : Option Text)
    → is_inside dest candidate ≡ true
    → followed fs dest current candidate o ≡ some reached
    → is_inside dest reached ≡ true
unfolding followed
followed-is_inside fs dest current candidate reached none inside h =
    subst (λ t. is_inside dest t ≡ true) (some-injective candidate reached h) inside
followed-is_inside fs dest current candidate reached (some target) inside h =
    tested (is_inside dest (link_end fs current target)) (link_end fs current target) refl h
  where
    tested :
        (b : Bool) (e : Text)
        → is_inside dest e ≡ b
        → (if b then some e else none) ≡ some reached
        → is_inside dest reached ≡ true
    tested true e i k = subst (λ t. is_inside dest t ≡ true) (some-injective e reached k) i
    tested false e i k = cc

-- The components of a path are no absolute paths.
split_on-relative : (s : Text) → All (λ p. isabs p ≡ false) (split_on slash s)
unfolding split_on
split_on-relative [] = (refl, tt)
split_on-relative (x ∷ s) = by_parts (x == slash) refl (split_on slash s) (split_on-relative s)
  where
    by_parts :
        (b : Bool)
        → (x == slash) ≡ b
        → (parts : List Text) → All (λ p. isabs p ≡ false) parts
        → All (λ p. isabs p ≡ false) (if b then [] ∷ parts else prepend x parts)
    by_parts true e parts a = (refl, a)
    by_parts false e [] a = (e, tt)
    by_parts false e (part ∷ parts) a = (e, a.1)

where_is-relative :
    (p : Text → Bool) (parts : List Text)
    → All (λ t. isabs t ≡ false) parts
    → All (λ t. isabs t ≡ false) (where_is p parts)
where_is-relative p [] a = tt
where_is-relative p (t ∷ parts) a = elim (Bool-cases (p t)) [
  | inl kept ↦ rw kept (a.0, where_is-relative p parts a.1)
  | inr dropped ↦ rw dropped (where_is-relative p parts a.1)
]

resolve_parts-is_inside :
    (fs : Files) (dest current : Text) (parts : List Text) (reached : Text)
    → isabs dest ≡ true
    → ends_in_slash dest ≡ false
    → All (λ t. isabs t ≡ false) parts
    → is_inside dest current ≡ true
    → resolve_parts fs dest current parts ≡ some reached
    → is_inside dest reached ≡ true
unfolding resolve_parts resolve_part
resolve_parts-is_inside fs dest current [] reached h k a inside r =
    subst (λ t. is_inside dest t ≡ true) (some-injective current reached r) inside
resolve_parts-is_inside fs dest current (part ∷ parts) reached h k a inside r =
    elim (Option-cases (resolve_part fs dest current part)) [
      | inl refused ↦ cc (rw (resolve_parts, refused) at r)
      | inr (there, e) ↦
          resolve_parts-is_inside fs dest there parts reached h k a.1
            (followed-is_inside fs dest current (join_path current part) there _
              (join_path-is_inside dest current part h k a.0 inside) e)
            (rw (resolve_parts, e) at r)
    ]

-- For an absolute destination, whatever links the archive has made: a path that `_resolve_within`
-- returns is the destination itself or begins with it and a slash.
pub resolve_within-is_inside :
    (fs : Files) (dest norm reached : Text)
    → isabs dest ≡ true
    → ends_in_slash dest ≡ false
    → resolve_within fs dest norm ≡ some reached
    → is_inside dest reached ≡ true
unfolding resolve_within
resolve_within-is_inside fs dest norm reached h k r =
    resolve_parts-is_inside fs dest dest (where_is is_part (split_on slash norm)) reached h k
      (where_is-relative is_part (split_on slash norm) (split_on-relative norm))
      (rw (text_eq_refl dest) refl) r

abbrev pub is_up : Text → Bool
is_up p = text_eq p (codes "..")

-- A path below `dest` none of whose components is a symbolic link, or leads up: what is written
-- there is written below `dest`.
pub data Walk (fs : Files) (dest : Text) : Text → Type 0 where
  here : Walk fs dest dest
  step :
      {current : Text}
      → Walk fs dest current
      → (part : Text) → isabs part ≡ false
      → is_up part ≡ false
      → fs.link (join_path current part) ≡ none
      → Walk fs dest (join_path current part)

-- Where a link in the directory `current` leads by its text.
abbrev pub link_path : Text → Text → Text
link_path current target = normpath (if isabs target then target else join_path current target)

-- `os.path.realpath` answers with a path without links, and each link leads to something.
pub record IsSettled (fs : Files) (dest : Text) : Type 0 where
  pub real :
      (p : Text)
      → fs.exists p ≡ true
      → is_inside dest (fs.realpath p) ≡ true
      → Walk fs dest (fs.realpath p)
  pub leads :
      (current part target : Text)
      → fs.link (join_path current part) ≡ some target
      → fs.exists (link_path current target) ≡ true
