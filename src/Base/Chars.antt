-- ===== src/Base/Chars.antt =====
-- Python's `str` as the list of its code points, and the string methods that the source calls.
use Prim.Native.Nat.{ℕ}
use Prim.Native.Char.{code}
use Prim.Native.String.{String}
use mathlib.Core.Path.{◌≡◌, refl}
use mathlib.Core.Bool.{Bool, true, false, not, ◌&&◌, ◌||◌}
use mathlib.Core.Option.{Option, none, some}
use mathlib.Core.List.{List, [], ◌∷◌, ◌++◌}
use native.Mathlib.Omega.{arith}
use hack_bento.Base.Tests.{◌==◌, if◌then◌else◌}

abbrev pub Text : Type 0
Text = List ℕ

abbrev pub codes : String → Text
codes String.[] = []
codes (String.◌∷◌ c s) = code c ∷ codes s

abbrev pub text_eq : Text → Text → Bool
text_eq [] [] = true
text_eq [] (y ∷ t) = false
text_eq (x ∷ s) [] = false
text_eq (x ∷ s) (y ∷ t) = x == y && text_eq s t

pub text_eq_sound : (s t : Text) → text_eq s t ≡ true → s ≡ t
text_eq_sound [] [] h = refl
text_eq_sound [] (y ∷ t) h = ground arith
text_eq_sound (x ∷ s) [] h = ground arith
text_eq_sound (x ∷ s) (y ∷ t) h = ground (arith, text_eq_sound s t)

pub text_eq_refl : (s : Text) → text_eq s s ≡ true
text_eq_refl [] = refl
text_eq_refl (x ∷ s) = ground (arith, text_eq_refl s)

-- `t in ts`
abbrev pub contains : List Text → Text → Bool
contains [] t = false
contains (u ∷ ts) t = text_eq u t || contains ts t

-- `s.startswith(p)`
abbrev pub starts_with : Text → Text → Bool
starts_with s [] = true
starts_with [] (c ∷ p) = false
starts_with (x ∷ s) (c ∷ p) = x == c && starts_with s p

-- Python's truth value of an optional string: it is there and not empty.
abbrev pub truthy : Option Text → Bool
truthy none = false
truthy (some []) = false
truthy (some (c ∷ s)) = true

unfoldable pub prepend : ℕ → List Text → List Text
prepend x [] = (x ∷ []) ∷ []
prepend x (part ∷ parts) = (x ∷ part) ∷ parts

-- `s.split(sep)` for a separator of one character
unfoldable pub split_on : ℕ → Text → List Text
unfolding prepend
split_on sep [] = [] ∷ []
split_on sep (x ∷ s) =
    let parts = split_on sep s in if x == sep then [] ∷ parts else prepend x parts

-- `c not in s`
abbrev pub lacks : ℕ → Text → Bool
lacks c [] = true
lacks c (x ∷ s) = not (x == c) && lacks c s

pub split_on-lacks : (c : ℕ) (s : Text) → lacks c s ≡ true → split_on c s ≡ s ∷ []
unfolding split_on
split_on-lacks c [] h = refl
split_on-lacks c (x ∷ s) h = ground (arith, split_on-lacks c s)

-- A part without the separator is cut off at the first separator.
pub split_on-append :
    (c : ℕ) (s rest : Text) → lacks c s ≡ true → split_on c (s ++ (c ∷ rest)) ≡ s ∷ split_on c rest
unfolding split_on
split_on-append c [] rest h = ground arith
split_on-append c (x ∷ s) rest h = ground (arith, split_on-append c s rest)
