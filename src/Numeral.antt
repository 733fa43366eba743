-- ===== src/Numeral.antt =====
-- `str(n)`, `"{:02x}".format(n)` and `int(s)`: numbers as texts, and the reading of a numeral.
use hack_bento.Base.{
  ℕ, zero, suc, ◌+◌, ◌-◌, ◌*◌, ◌/◌, ◌%◌, ◌<◌, ◌≡◌, refl, sym, ap, ◌∙◌, Bool, ◌&&◌, [], ◌∷◌, ◌++◌,
  Option, none, some, arith, Text, if◌then◌else◌, ltb, leb, Bool-cases, inl, inr, all,
}

-- '0' … '9', 'a' … 'f'
abbrev digit_char : ℕ → ℕ
digit_char d = if ltb d 10 then 48 + d else 87 + d

-- The digits of `n`, the last one by `n % base`. The fuel bounds the number of digits.
print_digits : ℕ → ℕ → ℕ → Text
print_digits base zero n = []
print_digits base (suc fuel) n =
    let front = print_digits base fuel (n / base) in
    if ltb n base then digit_char n ∷ [] else front ++ (digit_char (n % base) ∷ [])

-- `str(n)`
unfoldable pub str : ℕ → Text
unfolding print_digits
str n = print_digits 10 (suc n) n

-- `"{:02x}".format(n)`
unfoldable pub format_02x : ℕ → Text
unfolding print_digits
format_02x n = if ltb n 16 then 48 ∷ print_digits 16 (suc n) n else print_digits 16 (suc n) n

abbrev pub is_digit : ℕ → Bool
is_digit c = leb 48 c && leb c 57

unfoldable pub read_digits : ℕ → Text → ℕ
read_digits n [] = n
read_digits n (c ∷ s) = read_digits (n * 10 + (c - 48)) s

-- `int(s)` of a text of ASCII digits; `none` is `ValueError`. The signs, blanks and underscores
-- that `int` also takes are refused here.
unfoldable pub int_of : Text → Option ℕ
unfolding read_digits
int_of [] = none
int_of (c ∷ s) = if all is_digit (c ∷ s) then some (read_digits 0 (c ∷ s)) else none

read_digits-append :
    (n : ℕ) (s : Text) (d : ℕ) → read_digits n (s ++ (d ∷ [])) ≡ read_digits n s * 10 + (d - 48)
unfolding read_digits
read_digits-append n [] d = refl
read_digits-append n (c ∷ s) d = read_digits-append (n * 10 + (c - 48)) s d

read_digits-print_digits : (fuel n : ℕ) → n < fuel → read_digits 0 (print_digits 10 fuel n) ≡ n
unfolding print_digits read_digits
read_digits-print_digits zero n h = absurd (omega arith)
read_digits-print_digits (suc fuel) n h = elim (Bool-cases (ltb n 10)) [
  | inl e ↦ rw e (ground arith)
  | inr e ↦ rw e (rw read_digits-append (ground (arith, read_digits-print_digits fuel (n / 10))))
]

-- Reading the decimal numeral of a number gives the number back.
pub read_digits-str : (n : ℕ) → read_digits 0 (str n) ≡ n
unfolding str
read_digits-str n = read_digits-print_digits (suc n) n (omega arith)

-- Two numbers with one numeral are equal.
pub str-injective : (n m : ℕ) → str n ≡ str m → n ≡ m
str-injective n m e = sym (read_digits-str n) ∙ ap (read_digits 0) e ∙ read_digits-str m
