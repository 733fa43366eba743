-- ===== src/Bundle/Paths.antt =====
-- `os.path.normpath` on a relative path: what its result says of the components.
use hack_bento.Base.{
  ◌≡◌, refl, arith, ap, ◌∙◌, ℕ, Bool, true, false, not, ◌&&◌, ◌||◌, List, [], ◌∷◌, ◌++◌, subst,
  Text, codes, text_eq, text_eq_sound, ◌==◌, where_is, split_on, All, Bool-cases, inl, inr,
}
use hack_bento.Extract.{
  slash, isabs, ends_in_slash, join_path, is_part, norm_step, norm_parts, joined, leading, or_dot,
  normpath,
}
use hack_bento.Bundle.{goes_up, head_dir, unless_last, rstrip_slash, or_head, dirname}

abbrev pub is_up : Text → Bool
is_up p = text_eq p (codes "..")

-- On the stack, whose top comes first, `..` stands on `..` only.
abbrev IsOrdered : List Text → Type 0
IsOrdered [] = Unit
IsOrdered (p ∷ []) = Unit
IsOrdered (p ∷ q ∷ stack) = (is_up p ≡ true → is_up q ≡ true) × IsOrdered (q ∷ stack)

IsOrdered-rest : (p : Text) (stack : List Text) → IsOrdered (p ∷ stack) → IsOrdered stack
IsOrdered-rest p [] o = tt
IsOrdered-rest p (q ∷ stack) o = o.1

norm_step-IsOrdered :
    (stack : List Text) (comp : Text) → IsOrdered stack → IsOrdered (norm_step false stack comp)
unfolding norm_step
norm_step-IsOrdered [] comp o = elim (Bool-cases (text_eq comp (codes "..") && false)) [
  | inl e ↦ rw e tt
  | inr e ↦ rw e tt
]
norm_step-IsOrdered (last ∷ rest) comp o =
    elim (Bool-cases (not (text_eq comp (codes "..")) || text_eq last (codes ".."))) [
      | inl e ↦ rw e ((λ up. ground arith), o)
      | inr e ↦ rw e (IsOrdered-rest last rest o)
    ]

norm_parts-IsOrdered :
    (comps stack : List Text) → IsOrdered stack → IsOrdered (norm_parts false stack comps)
unfolding norm_parts
norm_parts-IsOrdered [] stack o = o
norm_parts-IsOrdered (comp ∷ comps) stack o =
    norm_parts-IsOrdered comps (norm_step false stack comp) (norm_step-IsOrdered stack comp o)

goes_up-append : (p tail : Text) → is_up p ≡ true → goes_up (p ++ tail) ≡ true
goes_up-append p tail h = rw (text_eq_sound p (codes "..") h) (starts tail)
  where
    starts : (t : Text) → goes_up (codes ".." ++ t) ≡ true
    starts [] = refl
    starts (c ∷ t) = refl

-- A stack with `..` on top is printed with `..` in front.
joined-up :
    (p : Text) (stack : List Text) (tail : Text)
    → IsOrdered (p ∷ stack)
    → is_up p ≡ true
    → goes_up (joined (p ∷ stack) tail) ≡ true
unfolding joined
joined-up p [] tail o h = goes_up-append p tail h
joined-up p (q ∷ stack) tail o h = joined-up q stack (slash ∷ (p ++ tail)) o.1 (o.0 h)

abbrev pub StaysBelow : List Text → Type 0
StaysBelow parts = All (λ (p : Text). is_up p ≡ false) parts

not_up :
    (p : Text) (stack : List Text) (tail : Text)
    → IsOrdered (p ∷ stack)
    → goes_up (joined (p ∷ stack) tail) ≡ false
    → is_up p ≡ false
not_up p stack tail o h = elim (Bool-cases (is_up p)) [
  | inl up ↦ absurd (clash (joined-up p stack tail o up) h)
  | inr low ↦ low
]
  where
    clash : {b : Bool} → b ≡ true → b ≡ false → ⊥
    clash t f = cc

joined-StaysBelow :
    (stack : List Text) (tail : Text)
    → IsOrdered stack
    → goes_up (joined stack tail) ≡ false
    → StaysBelow stack
unfolding joined
joined-StaysBelow [] tail o h = tt
joined-StaysBelow (p ∷ []) tail o h = (not_up p [] tail o h, tt)
joined-StaysBelow (p ∷ q ∷ stack) tail o h =
    (not_up p (q ∷ stack) tail o h, joined-StaysBelow (q ∷ stack) (slash ∷ (p ++ tail)) o.1 h)

goes_up-or_dot : (s : Text) → goes_up (or_dot s) ≡ false → goes_up s ≡ false
goes_up-or_dot [] h = refl
goes_up-or_dot (c ∷ s) h = h

leading-relative : (s : Text) → isabs s ≡ false → leading s ≡ []
leading-relative [] h = refl
leading-relative (c ∷ s) h = ground arith

-- The components of the normal form, the last one first.
abbrev pub components : Text → List Text
components s = norm_parts false [] (where_is is_part (split_on slash s))

joined-relative :
    (s : Text)
    → isabs s ≡ false
    → leading s ++ joined (norm_parts (isabs s) [] (where_is is_part (split_on slash s))) []
      ≡ joined (components s) []
joined-relative s rel =
    ap
      (λ (front : Text).
        front ++ joined (norm_parts (isabs s) [] (where_is is_part (split_on slash s))) [])
      (leading-relative s rel)
    ∙ ap (λ (rooted : Bool). joined (norm_parts rooted [] (where_is is_part (split_on slash s))) [])
        rel

pub normpath-StaysBelow :
    (s : Text) → isabs s ≡ false → goes_up (normpath s) ≡ false → StaysBelow (components s)
unfolding normpath
normpath-StaysBelow s rel h =
    joined-StaysBelow (components s) []
      (norm_parts-IsOrdered (where_is is_part (split_on slash s)) [] tt)
      (goes_up-or_dot (joined (components s) [])
        (subst (λ (t : Text). goes_up (or_dot t) ≡ false) (joined-relative s rel) h))

isabs-append : (a b : Text) → isabs a ≡ false → isabs b ≡ false → isabs (a ++ b) ≡ false
isabs-append [] b h k = k
isabs-append (c ∷ a) b h k = h

pub isabs-join_path :
    (a b : Text) → isabs a ≡ false → isabs b ≡ false → isabs (join_path a b) ≡ false
unfolding join_path
isabs-join_path [] b h k = rw k k
isabs-join_path (c ∷ a) b h k = elim (Bool-cases (ends_in_slash (c ∷ a))) [
  | inl e ↦ rw k (rw e h)
  | inr e ↦ rw k (rw e h)
]

isabs-head_dir : (p : Text) → isabs p ≡ false → isabs (head_dir p) ≡ false
isabs-head_dir [] h = refl
isabs-head_dir (c ∷ s) h = ground arith

isabs-unless_last : (c : ℕ) (s : Text) → (c == slash) ≡ false → isabs (unless_last c s) ≡ false
isabs-unless_last c [] h = ground arith
isabs-unless_last c (d ∷ s) h = h

isabs-rstrip_slash : (p : Text) → isabs p ≡ false → isabs (rstrip_slash p) ≡ false
isabs-rstrip_slash [] h = refl
isabs-rstrip_slash (c ∷ s) h = isabs-unless_last c (rstrip_slash s) h

isabs-or_head :
    (head s : Text) → isabs head ≡ false → isabs s ≡ false → isabs (or_head head s) ≡ false
isabs-or_head head [] h k = h
isabs-or_head head (c ∷ s) h k = k

pub isabs-dirname : (p : Text) → isabs p ≡ false → isabs (dirname p) ≡ false
unfolding dirname
isabs-dirname p h =
    isabs-or_head (head_dir p) (rstrip_slash (head_dir p)) (isabs-head_dir p h)
      (isabs-rstrip_slash (head_dir p) (isabs-head_dir p h))
