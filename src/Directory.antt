-- ===== src/Directory.antt =====
-- The lookups of usernames in orchestrator/routers/users.py: `search_users`, `check_username` and
-- `check_username_for_setup`.
pub mod Laws
pub mod Tests
use hack_bento.Base.{
  ℕ, zero, suc, Bool, true, false, not, ◌&&◌, ◌||◌, List, [], ◌∷◌, none, some, Text, text_eq,
  starts_with, if◌then◌else◌, leb, ltb, ◌==◌, any, is_some, where_is, length, map,
}
use hack_bento.Model.{User, Db}
use hack_bento.Names.{lower_char, is_reserved, valid_username}
use hack_bento.Access.{user_named}

-- `available`
unfoldable pub check_username : Text → Db → Bool
check_username username db =
    valid_username username
    && (not (is_reserved username) && not (is_some (user_named username db)))

abbrev pub named_other : Text → User → User → Bool
named_other username u v = text_eq v.username username && not (v.id == u.id)

unfoldable pub check_username_for_setup : Text → User → Db → Bool
check_username_for_setup username u db =
    valid_username username
    && (not (is_reserved username) && not (any (named_other username u) db.users))

abbrev pub lower : Text → Text
lower s = map lower_char s

-- The conditions of the query. With `%` and `_` escaped, `ilike` compares a prefix; SQLite's
-- `lower` changes ASCII letters only.
abbrev pub suggested : Text → User → User → Bool
suggested q u v =
    starts_with (lower v.username) (lower q)
    && (not (v.id == u.id) && (v.is_active && not v.needs_username_setup))

-- `.limit(n)`
unfoldable pub limit : ℕ → List User → List User
limit zero users = []
limit (suc n) [] = []
limit (suc n) (u ∷ users) = u ∷ limit n users

unfoldable pub search_users : Text → User → Db → List Text
unfolding limit
search_users q u db =
    if ltb (length q) 1 || ltb 64 (length q)
    then []
    else map (λ v. v.username) (limit 8 (where_is (suggested q u) db.users))
