-- ===== src/Options.antt =====
-- The settings for timeouts: `parse_timeout_options` and `parse_attack_machine_timeout` of
-- orchestrator/config.py.
--
-- `int` reads ASCII digits here, with the blanks, the sign and the underscores that it allows.
pub mod Laws
pub mod Tests
use hack_bento.Base.{
  ℕ, zero, suc, Bool, true, false, not, ◌&&◌, ◌||◌, List, [], ◌∷◌, Option, none, some, Text,
  if◌then◌else◌, ltb, ◌==◌, all, or_default, split_on, where_is,
}
use hack_bento.Numeral.{is_digit, int_of}
use hack_bento.Boot.{is_space}

-- `s.strip()`
unfoldable pub lstrip_space : Text → Text
lstrip_space [] = []
lstrip_space (c ∷ s) = let rest = lstrip_space s in if is_space c then rest else c ∷ s

abbrev pub unless_space : ℕ → Text → Text
unless_space c [] = if is_space c then [] else c ∷ []
unless_space c (d ∷ s) = c ∷ d ∷ s

unfoldable pub rstrip_space : Text → Text
rstrip_space [] = []
rstrip_space (c ∷ s) = unless_space c (rstrip_space s)

-- Underscores stand between digits only.
unfoldable pub grouped : Text → Bool
grouped [] = false
grouped (c ∷ []) = is_digit c
grouped (c ∷ d ∷ s) =
    let rest = grouped (d ∷ s) in (is_digit c || (c == b'_' && is_digit d)) && rest

abbrev digits_only : Text → Text
digits_only s = where_is (λ c. not (c == b'_')) s

starts_with_digit : Text → Bool
starts_with_digit [] = false
starts_with_digit (c ∷ s) = is_digit c

abbrev magnitude : Text → Option ℕ
magnitude s = if grouped s && starts_with_digit s then int_of (digits_only s) else none

-- `none` for a negative number.
negated : Option ℕ → Option ℕ
negated none = none
negated (some zero) = some zero
negated (some (suc n)) = none

unfoldable pub signed : Text → Option ℕ
unfolding grouped starts_with_digit negated
signed [] = none
signed (c ∷ s) =
    if c == b'+'
    then magnitude s
    else if c == b'-'
    then negated (magnitude s)
    else magnitude (c ∷ s)

-- `int(str(item).strip())`; `none` is an error or a negative number, which the validators treat alike.
unfoldable pub minutes_of : Text → Option ℕ
unfolding lstrip_space rstrip_space signed
minutes_of item = signed (rstrip_space (lstrip_space item))

-- A set that is kept sorted.
unfoldable pub insert_option : ℕ → List ℕ → List ℕ
insert_option n [] = n ∷ []
insert_option n (m ∷ options) =
    let rest = insert_option n options in
    if ltb n m then n ∷ m ∷ options else if n == m then m ∷ options else m ∷ rest

abbrev pub add_option : Option ℕ → List ℕ → List ℕ
add_option none options = options
add_option (some n) options = insert_option n options

-- `sorted(options)` after the loop
unfoldable pub collected : List Text → List ℕ
unfolding insert_option minutes_of
collected [] = []
collected (item ∷ items) = add_option (minutes_of item) (collected items)

abbrev pub default_options : List ℕ
default_options = 15 ∷ 30 ∷ 45 ∷ 60 ∷ 75 ∷ 90 ∷ 105 ∷ 120 ∷ []

abbrev pub or_options : List ℕ → List ℕ
or_options [] = default_options
or_options (n ∷ options) = n ∷ options

-- `parse_timeout_options`, for the text of the environment variable
unfoldable pub parse_timeout_options : Text → List ℕ
unfolding collected
parse_timeout_options v = or_options (collected (split_on b',' v))

-- `parse_attack_machine_timeout`
unfoldable pub parse_attack_machine_timeout : Text → ℕ
unfolding minutes_of
parse_attack_machine_timeout v = or_default (minutes_of v) 60
