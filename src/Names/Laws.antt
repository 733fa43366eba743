-- ===== src/Names/Laws.antt =====
-- `_sanitize_username` against `_VALID_USERNAME`, both of Names.
use hack_bento.Base.{
  ℕ, zero, suc, ◌≤◌, ◌≡◌, refl, true, [], ◌∷◌, Text, codes, ◌==◌, all, length, map, arith,
  Bool-cases, inl, inr, ap,
}
use hack_bento.Names.{
  dash, is_name_char, drop_newline, valid_username, clean_char, take, lstrip, rstrip,
  unless_trailing, strip, or_text, sanitize_username,
}

-- Between one and 64 characters of the class.
abbrev IsShort : Text → Type 0
IsShort s = (all is_name_char s ≡ true) × (length s ≤ 64)

clean_char-is_name_char : (c : ℕ) → is_name_char (clean_char c) ≡ true
clean_char-is_name_char c = elim (Bool-cases (is_name_char c)) [
  | inl fits ↦ rw fits fits
  | inr other ↦ rw other (unfold is_name_char in refl)
]

cleaned-all : (raw : Text) → all is_name_char (map clean_char raw) ≡ true
cleaned-all [] = refl
cleaned-all (c ∷ raw) = rw (clean_char-is_name_char c) (cleaned-all raw)

take-IsShort :
    (n : ℕ) (s : Text)
    → all is_name_char s ≡ true
    → (all is_name_char (take n s) ≡ true) × (length (take n s) ≤ n)
unfolding take
take-IsShort zero s h = (refl, omega arith)
take-IsShort (suc n) [] h = (refl, omega arith)
take-IsShort (suc n) (c ∷ s) h = (
  ground (arith, (take-IsShort n s (ground arith)).0),
  omega (arith, (take-IsShort n s (ground arith)).1),
)

lstrip-IsShort : (c : ℕ) (s : Text) → IsShort s → IsShort (lstrip c s)
unfolding lstrip
lstrip-IsShort c [] h = h
lstrip-IsShort c (x ∷ s) h = elim (Bool-cases (x == c)) [
  | inl same ↦ rw same (lstrip-IsShort c s (ground (arith, h.0), omega (arith, h.1)))
  | inr other ↦ rw other h
]

unless_trailing-all :
    (c x : ℕ) (s : Text)
    → is_name_char x ≡ true
    → all is_name_char s ≡ true
    → (all is_name_char (unless_trailing c x s) ≡ true)
      × (length (unless_trailing c x s) ≤ suc (length s))
unless_trailing-all c x [] h k = (ground arith, ground arith)
unless_trailing-all c x (y ∷ s) h k = (ground arith, omega arith)

rstrip-IsShort :
    (c : ℕ) (s : Text)
    → all is_name_char s ≡ true
    → (all is_name_char (rstrip c s) ≡ true) × (length (rstrip c s) ≤ length s)
unfolding rstrip
rstrip-IsShort c [] h = (refl, omega arith)
rstrip-IsShort c (x ∷ s) h =
    let (chars, size) = rstrip-IsShort c s (ground arith) in
    let (chars', size') = unless_trailing-all c x (rstrip c s) (ground arith) chars in
    (chars', omega arith)

-- A text of the class does not end in a newline.
drop_newline-same : (s : Text) → all is_name_char s ≡ true → drop_newline s ≡ s
unfolding drop_newline is_name_char
drop_newline-same [] h = refl
drop_newline-same (c ∷ []) h = ground arith
drop_newline-same (c ∷ d ∷ s) h = ap (λ t. c ∷ t) (drop_newline-same (d ∷ s) (ground arith))

user-valid : valid_username (codes "user") ≡ true
unfolding valid_username drop_newline is_name_char
user-valid = refl

or_text-valid : (s : Text) → IsShort s → valid_username (or_text s (codes "user")) ≡ true
unfolding valid_username
or_text-valid [] h = user-valid
or_text-valid (c ∷ s) h = rw (drop_newline-same (c ∷ s) h.0) (ground (arith, h.0, h.1))

-- Whatever the local part of an address is, the name made from it is one that the pattern
-- `_VALID_USERNAME` accepts.
pub sanitize_username-valid : (raw : Text) → valid_username (sanitize_username raw) ≡ true
unfolding sanitize_username
sanitize_username-valid raw =
    let (chars, size) =
      lstrip-IsShort dash _ (take-IsShort 64 (map clean_char raw) (cleaned-all raw)) in
    let (chars', size') = rstrip-IsShort dash _ chars in
    or_text-valid (strip dash (take 64 (map clean_char raw))) (chars', omega arith)
