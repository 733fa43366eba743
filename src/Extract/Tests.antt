-- ===== src/Extract/Tests.antt =====
-- Paths in an archive whose links are `y`, to a directory outside, and `x`, to a new directory there.
use hack_bento.Base.{◌≡◌, refl, Option, none, some, Text, text_eq, codes, split_on, if◌then◌else◌}
use hack_bento.Extract.{Files, normpath, resolve_within}

abbrev links : Text → Option Text
links p =
    if text_eq p (codes "/d/y")
    then some (codes "/etc")
    else if text_eq p (codes "/d/x")
    then some (codes "y/new")
    else none

abbrev disk : Files
disk = record { link = links; exists = λ p. text_eq p (codes "/etc"); realpath = λ p. p }

norm : normpath (codes "/a/./b//../c") ≡ codes "/a/c"
unfolding normpath split_on
norm = refl

plain : resolve_within disk (codes "/d") (codes "usr/./bin") ≡ some (codes "/d/usr/bin")
unfolding resolve_within split_on
plain = refl

refused : resolve_within disk (codes "/d") (codes "y/passwd") ≡ none
unfolding resolve_within split_on
refused = refl

-- The end of `x` does not exist, so that it is not looked at more closely, but a directory on its
-- way is the link `y`: what is written there is written outside.
dangling : resolve_within disk (codes "/d") (codes "x") ≡ some (codes "/d/y/new")
unfolding resolve_within split_on
dangling = refl

-- A disk whose only link is `bin`, to the directory `usr`.
abbrev usr : Text
usr = codes "/d/usr"

only_bin : Text → Option Text
only_bin p = if text_eq p (codes "/d/bin") then some usr else none

abbrev tidy : Files
tidy = record { link = only_bin; exists = λ p. text_eq p usr; realpath = λ p. p }
