-- ===== src/Names.antt =====
-- Usernames: orchestrator/reserved.py, `_VALID_USERNAME` of orchestrator/routers/users.py, and
-- `_sanitize_username` of orchestrator/services/auth_oauth.py.
--
-- `is_reserved` lowers ASCII letters only: the code calls it on texts of ASCII characters.
pub mod Laws
use hack_bento.Base.{
  ℕ, zero, suc, ◌+◌, Bool, true, false, ◌&&◌, ◌||◌, List, [], ◌∷◌, Text, codes, contains,
  if◌then◌else◌, leb, ◌==◌, all, length, map,
}

abbrev pub dash : ℕ
dash = b'-'

abbrev pub newline : ℕ
newline = 10

unfoldable pub reserved_usernames : List Text
reserved_usernames =
    codes "health"
    ∷ codes "login"
    ∷ codes "logout"
    ∷ codes "explore"
    ∷ codes "new"
    ∷ codes "admin"
    ∷ codes "user"
    ∷ codes "setup-username"
    ∷ codes "setup_username"
    ∷ codes "api"
    ∷ codes "static"
    ∷ codes "root"
    ∷ codes "system"
    ∷ codes "hackbento"
    ∷ codes "support"
    ∷ codes "help"
    ∷ []

abbrev pub lower_char : ℕ → ℕ
lower_char c = if leb 65 c && leb c 90 then c + 32 else c

unfoldable pub is_reserved : Text → Bool
unfolding reserved_usernames
is_reserved username = contains reserved_usernames (map lower_char username)

-- `[a-zA-Z0-9_-]`
unfoldable pub is_name_char : ℕ → Bool
is_name_char c =
    (leb 97 c && leb c 122)
    || ((leb 65 c && leb c 90) || ((leb 48 c && leb c 57) || (c == 95 || c == dash)))

-- `$` also matches before a newline that ends the text.
unfoldable pub drop_newline : Text → Text
drop_newline [] = []
drop_newline (c ∷ []) = if c == newline then [] else c ∷ []
drop_newline (c ∷ d ∷ s) = c ∷ drop_newline (d ∷ s)

-- `_VALID_USERNAME.match(v)`, for the pattern `^[a-zA-Z0-9_-]{1,64}$`
unfoldable pub valid_username : Text → Bool
unfolding drop_newline
valid_username v =
    let name = drop_newline v in
    all is_name_char name && (leb 1 (length name) && leb (length name) 64)

abbrev pub clean_char : ℕ → ℕ
clean_char c = if is_name_char c then c else dash

-- `s[:n]`
unfoldable pub take : ℕ → Text → Text
take zero s = []
take (suc n) [] = []
take (suc n) (c ∷ s) = c ∷ take n s

-- `s.lstrip(c)`, `s.rstrip(c)` and `s.strip(c)`, for one character
unfoldable pub lstrip : ℕ → Text → Text
lstrip c [] = []
lstrip c (x ∷ s) = let rest = lstrip c s in if x == c then rest else x ∷ s

abbrev pub unless_trailing : ℕ → ℕ → Text → Text
unless_trailing c x [] = if x == c then [] else x ∷ []
unless_trailing c x (y ∷ s) = x ∷ y ∷ s

unfoldable pub rstrip : ℕ → Text → Text
rstrip c [] = []
rstrip c (x ∷ s) = unless_trailing c x (rstrip c s)

abbrev pub strip : ℕ → Text → Text
strip c s = rstrip c (lstrip c s)

-- `s or d`
abbrev pub or_text : Text → Text → Text
or_text [] d = d
or_text (c ∷ s) d = c ∷ s

-- `_sanitize_username`
unfoldable pub sanitize_username : Text → Text
unfolding take lstrip rstrip
sanitize_username raw = or_text (strip dash (take 64 (map clean_char raw))) (codes "user")
