-- ===== src/Boot.antt =====
-- The kernel arguments of a project: `_sanitize_extra_boot_args` of orchestrator/services/smolvm.py.
pub mod Laws
pub mod Tests
use hack_bento.Base.{
  ℕ, Bool, true, false, not, ◌||◌, ◌&&◌, List, [], ◌∷◌, ◌++◌, Option, none, some, Text, codes,
  if◌then◌else◌, leb, ◌==◌, any, where_is, starts_with, text_eq, truthy,
}

abbrev pub blank : ℕ
blank = 32

-- `c.isspace()`
unfoldable pub is_space : ℕ → Bool
is_space c =
    (leb 9 c && leb c 13)
    || ((leb 28 c && leb c 32)
        || (c == 133
            || (c == 160
                || (c == 5760
                    || ((leb 8192 c && leb c 8202)
                        || (c == 8232
                            || (c == 8233 || (c == 8239 || (c == 8287 || c == 12288)))))))))

-- The text begins with a character of a word.
abbrev pub in_word : Text → Bool
in_word [] = false
in_word (c ∷ s) = not (is_space c)

abbrev pub attach : ℕ → List Text → List Text
attach c [] = (c ∷ []) ∷ []
attach c (w ∷ ws) = (c ∷ w) ∷ ws

-- `s.split()`
unfoldable pub split_words : Text → List Text
split_words [] = []
split_words (c ∷ s) =
    let rest = split_words s in
    if is_space c then rest else if in_word s then attach c rest else (c ∷ []) ∷ rest

-- `" ".join(ws)`
unfoldable pub join_words : List Text → Text
join_words [] = []
join_words (w ∷ []) = w
join_words (w ∷ v ∷ ws) = w ++ (blank ∷ join_words (v ∷ ws))

-- `_MANAGED_BOOT_ARG_PREFIXES`
unfoldable pub managed_prefixes : List Text
managed_prefixes =
    codes "ip="
    ∷ codes "init="
    ∷ codes "console="
    ∷ codes "root="
    ∷ codes "reboot="
    ∷ codes "panic="
    ∷ codes "rw"
    ∷ codes "ro"
    ∷ []

unfoldable pub is_managed : Text → Bool
unfolding managed_prefixes
is_managed tok = any (λ p. text_eq tok p || starts_with tok p) managed_prefixes

-- `_sanitize_extra_boot_args`
unfoldable pub sanitize_extra_boot_args : Option Text → Text
unfolding split_words join_words is_managed
sanitize_extra_boot_args none = []
sanitize_extra_boot_args (some extra) =
    join_words (where_is (λ tok. not (is_managed tok)) (split_words extra))
