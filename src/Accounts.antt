-- ===== src/Accounts.antt =====
-- Logins: orchestrator/services/auth_local.py, auth_ldap.py and auth_oauth.py, `login` of
-- orchestrator/routers/auth.py, and the username and the password of orchestrator/routers/users.py.
--
-- `verify` and `hash` are passlib's, `bound` is the answer of the directory to `_authenticate_sync`.
pub mod Unique
pub mod Keys
pub mod Logins
pub mod Tests
use hack_bento.Base.{
  ℕ, zero, suc, ◌+◌, Bool, true, false, ◌&&◌, ◌||◌, not, List, [], ◌∷◌, ◌++◌, Option, none, some,
  Text, text_eq, codes, contains, truthy, if◌then◌else◌, ltb, ◌==◌, any, find_first, is_some,
  length, map, split_on, Reply, ok, http, ◌>>=◌, ◌>>◌, reject,
}
use hack_bento.Model.{User, UserRole, AuthProvider, Db}
use hack_bento.Numeral.{str}
use hack_bento.Names.{dash, is_reserved, valid_username, sanitize_username}
use hack_bento.Access.{user_named, require_username_set}

abbrev pub is_local : AuthProvider → Bool
is_local AuthProvider.local = true
is_local _ = false

abbrev pub is_ldap : AuthProvider → Bool
is_ldap AuthProvider.ldap = true
is_ldap _ = false

abbrev pub is_oauth : AuthProvider → Bool
is_oauth AuthProvider.oauth = true
is_oauth _ = false

-- `column == value`, for a column that may be NULL
abbrev pub has_text : Option Text → Text → Bool
has_text none t = false
has_text (some s) t = text_eq s t

-- A row of the query, if it is active.
abbrev pub if_active : User → Option User
if_active u = if u.is_active then some u else none

abbrev verified : (Text → Text → Bool) → Text → Option Text → Bool
verified verify password none = false
verified verify password (some h) = truthy (some h) && verify password h

abbrev pub local_row : Text → User → Bool
local_row username u = text_eq u.username username && (is_local u.auth_provider && u.is_active)

checked : (Text → Text → Bool) → Text → Option User → Option User
checked verify password none = none
checked verify password (some u) =
    if verified verify password u.hashed_password then some u else none

-- `auth_local.authenticate`
unfoldable pub authenticate_local : (Text → Text → Bool) → Text → Text → Db → Option User
unfolding checked
authenticate_local verify username password db =
    checked verify password (find_first (local_row username) db.users)

-- The loops of `_unique_username` and of `get_or_create_oauth_user`: while the candidate is taken,
-- the next one is made from the suffix. The fuel is one more than the number of users.
unfoldable pub unique_from : (ℕ → Text) → ℕ → Text → ℕ → Db → Option Text
unique_from render zero candidate suffix db = none
unique_from render (suc fuel) candidate suffix db =
    let rest = unique_from render fuel (render suffix) (suffix + 1) db in
    if is_some (user_named candidate db) then rest else some candidate

-- `f"{base}{suffix}"` and `f"{base}-{suffix}"`
abbrev pub numbered : Text → ℕ → Text
numbered base suffix = base ++ str suffix

abbrev pub dashed : Text → ℕ → Text
dashed base suffix = base ++ (dash ∷ str suffix)

-- `_unique_username`
unfoldable pub unique_username : Text → Db → Option Text
unfolding unique_from
unique_username base db = unique_from (numbered base) (suc (length db.users)) base 2 db

-- The base of an OAuth username, and the loop after it.
unfoldable pub oauth_base : Text → Text
oauth_base base = if is_reserved base then base ++ codes "-u" else base

unfoldable pub oauth_username : Text → Db → Option Text
unfolding unique_from oauth_base
oauth_username base db =
    unique_from (dashed (oauth_base base)) (suc (length db.users)) (oauth_base base) 1 db

-- The key that SQLite gives a new row.
unfoldable pub next_user_id : List User → ℕ
next_user_id [] = 1
next_user_id (u ∷ users) = let rest = next_user_id users in if ltb u.id rest then rest else u.id + 1

-- The rows that `get_or_create_oauth_user` and `auth_ldap.authenticate` add.
unfoldable pub new_user : AuthProvider → Text → Text → Option Text → Db → User
unfolding next_user_id
new_user provider username email display_name db = record {
  id = next_user_id db.users;
  username = username;
  display_name = display_name;
  needs_username_setup = true;
  email = some email;
  hashed_password = none;
  role = UserRole.user;
  auth_provider = provider;
  is_active = true;
  last_login = none;
}

-- The commit of a new row: `none` is `IntegrityError`, from the unique columns.
unfoldable pub insert_user : User → Text → Db → Option (User × Db)
insert_user u email db =
    if is_some (user_named u.username db) || any (λ v. has_text v.email email) db.users
    then none
    else some (u, record db { users = db.users ++ (u ∷ []) })

created : AuthProvider → Option Text → Text → Option Text → Db → Option (User × Db)
unfolding new_user insert_user
created provider none email display_name db = none
created provider (some name) email display_name db =
    insert_user (new_user provider name email display_name db) email db

-- The row for the address, or a new one.
unfoldable pub found_or_created :
    AuthProvider → Option User → Option Text → Text → Option Text → Db → Option (User × Db)
unfolding created
found_or_created provider (some u) name email display_name db = some (u, db)
found_or_created provider none name email display_name db =
    created provider name email display_name db

settled : Db → Option (User × Db) → Option User × Db
settled db none = (none, db)
settled db (some (u, db')) = (if_active u, db')

abbrev pub ldap_email : Text → Text
ldap_email username = username ++ codes "@ldap"

-- `auth_ldap.authenticate`; every exception is answered with None.
unfoldable pub authenticate_ldap : Bool → Bool → Text → Db → Option User × Db
unfolding unique_username found_or_created settled
authenticate_ldap enabled bound username db =
    if enabled && bound
    then settled db (
        found_or_created AuthProvider.ldap
          (find_first (λ u. has_text u.email (ldap_email username) && is_ldap u.auth_provider)
            db.users)
          (unique_username username db) (ldap_email username) none db)
    else (none, db)

-- `parts[-1]`
abbrev pub last_part : List Text → Text
last_part [] = []
last_part (p ∷ []) = p
last_part (p ∷ q ∷ parts) = last_part (q ∷ parts)

abbrev pub first_part : List Text → Text
first_part [] = []
first_part (p ∷ parts) = p

-- The domain check; an empty list of domains allows all.
unfoldable pub domain_allowed : List Text → Text → Bool
domain_allowed [] email = true
domain_allowed (d ∷ domains) email = contains (d ∷ domains) (last_part (split_on b'@' email))

abbrev given_name : Text → Option Text
given_name name = if truthy (some name) then some name else none

-- `get_or_create_oauth_user`; an exception is answered with 500.
answered : Option (User × Db) → Reply (Option User × Db)
answered none = http 500
answered (some (u, db)) = ok (if_active u, db)

unfoldable pub get_or_create_oauth_user : List Text → Text → Text → Db → Reply (Option User × Db)
unfolding domain_allowed oauth_username found_or_created answered
get_or_create_oauth_user domains email name db =
    if domain_allowed domains email
    then answered (
        found_or_created AuthProvider.oauth
          (find_first (λ u. has_text u.email email && is_oauth u.auth_provider) db.users)
          (oauth_username (sanitize_username (first_part (split_on b'@' email))) db) email
          (given_name name) db)
    else ok (none, db)

abbrev pub update_user : ℕ → (User → User) → Db → Db
update_user id f db = record db { users = map (λ u. if u.id == id then f u else u) db.users }

-- `last_login = now`
abbrev pub logged_in : ℕ → User → User
logged_in now u = record u { last_login = some now }

answer_login : ℕ → Option User × Db → Reply (User × Db)
answer_login now (none, db) = http 401
answer_login now (some u, db) = ok (u, update_user u.id (logged_in now) db)

or_ldap : Bool → Bool → Text → Db → Option User → Option User × Db
unfolding authenticate_ldap
or_ldap enabled bound username db none =
    if enabled then authenticate_ldap enabled bound username db else (none, db)
or_ldap enabled bound username db (some u) = (some u, db)

-- `login`: the user for whom the token is made, and the tables.
unfoldable pub login : (Text → Text → Bool) → Bool → Bool → ℕ → Text → Text → Db → Reply (User × Db)
unfolding authenticate_local or_ldap answer_login
login verify enabled bound now username password db =
    answer_login now
      (or_ldap enabled bound username db (authenticate_local verify username password db))

-- `setup_username`, with the validator of its request.
unfoldable pub setup_username : Text → User → Db → Reply Db
setup_username username u db = do
  reject (not (valid_username username)) 422
  reject (is_reserved username) 422
  reject (not u.needs_username_setup) 403
  reject (any (λ v. text_eq v.username username && not (v.id == u.id)) db.users) 409
  ok (update_user u.id (λ v. record v { username = username; needs_username_setup = false }) db)

-- `change_password`
unfoldable pub change_password :
    (Text → Text → Bool) → (Text → Text) → Text → Text → Text → User → Db → Reply Db
change_password verify hash current new confirmation u db = do
  require_username_set u
  reject (not (is_local u.auth_provider)) 403
  reject (not (verified verify current u.hashed_password)) 400
  reject (not (text_eq new confirmation)) 400
  reject (ltb (length new) 8) 400
  ok (update_user u.id (λ v. record v { hashed_password = some (hash new) }) db)
