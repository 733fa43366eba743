-- ===== src/Accounts/Tests.antt =====
-- Logins on the sample users, and the theorems on them.
use hack_bento.Base.{
  ◌≡◌, refl, ◌⊎◌, true, false, [], ◌∷◌, ◌++◌, none, some, Text, text_eq, codes, split_on, ok, http,
}
use hack_bento.Model.{User, AuthProvider, Db}
use hack_bento.Numeral.{str}
use hack_bento.Names.{is_reserved, valid_username, sanitize_username, is_name_char}
use hack_bento.Names.Laws.{sanitize_username-valid}
use hack_bento.Pool.Laws.{Distinct}
use hack_bento.Access.{user_named}
use hack_bento.Accounts.{
  local_row, unique_username, oauth_username, get_or_create_oauth_user, login, setup_username,
  change_password, logged_in,
}
use hack_bento.Accounts.Unique.{usernames, unique_username-some}
use hack_bento.Accounts.Keys.{setup_username-ok}
use hack_bento.Accounts.Logins.{with_user, login-ok}
use hack_bento.Samples.{alice, bob, empty_db}

third :
    unique_username
      (codes "alice")
      (with_user (record alice { id = 4; username = codes "alice2" }) empty_db)
    ≡ some (codes "alice3")
unfolding unique_username user_named str
third = refl

unique_username-some_example :
    (name : Text) × (unique_username (codes "alice") empty_db ≡ some name)
    × (user_named name empty_db ≡ none)
unique_username-some_example = unique_username-some (codes "alice") empty_db

-- A reserved local part.
support_name : oauth_username (codes "Support") empty_db ≡ some (codes "Support-u")
unfolding oauth_username is_reserved user_named
support_name = refl

sanitize_username-valid_example : valid_username (sanitize_username (codes "-a.b+c@")) ≡ true
sanitize_username-valid_example = sanitize_username-valid (codes "-a.b+c@")

sanitized : sanitize_username (codes "-a.b+c@") ≡ codes "a-b-c"
unfolding sanitize_username is_name_char
sanitized = refl

abbrev ldap_alice : User
ldap_alice = record alice { email = some (codes "alice@ldap") }

-- The address of a user of the directory, or of a local one, cannot log in through Google.
other_provider :
    get_or_create_oauth_user []
      (codes "alice@ldap")
      []
      (record empty_db { users = ldap_alice ∷ [] })
    ≡ http 500
unfolding get_or_create_oauth_user oauth_username split_on sanitize_username is_name_char
    is_reserved user_named str
other_provider = refl

abbrev local_bob : User
local_bob = record bob {
  auth_provider = AuthProvider.local;
  hashed_password = some (codes "secret");
}

abbrev local_db : Db
local_db = record empty_db { users = local_bob ∷ [] }

bob_login :
    login text_eq false false 7 (codes "bob") (codes "secret") local_db
    ≡ ok (local_bob, record empty_db { users = logged_in 7 local_bob ∷ [] })
unfolding login
bob_login = refl

wrong_password : login text_eq true false 7 (codes "bob") (codes "guess") local_db ≡ http 401
unfolding login
wrong_password = refl

login-ok_example :
    (true ≡ true)
    × (((local_row (codes "bob") local_bob ≡ true)
          × (hash : Text) × (some (codes "secret") ≡ some hash)
          × (text_eq (codes "secret") hash ≡ true))
        ⊎ ((false ≡ true) × (false ≡ true)))
login-ok_example =
    login-ok text_eq false false 7 (codes "bob") (codes "secret") local_db local_bob
      (record empty_db { users = logged_in 7 local_bob ∷ [] }) bob_login

abbrev new_alice : User
new_alice = record alice { needs_username_setup = true }

abbrev new_db : Db
new_db = record empty_db { users = new_alice ∷ bob ∷ [] }

renamed :
    setup_username (codes "al_1") new_alice new_db
    ≡ ok (record empty_db { users = record alice { username = codes "al_1" } ∷ bob ∷ [] })
unfolding setup_username valid_username is_name_char is_reserved
renamed = refl

setup_username-ok_example :
    (valid_username (codes "al_1") ≡ true)
    × (is_reserved (codes "al_1") ≡ false)
    × (true ≡ true)
    × Distinct (usernames (record alice { username = codes "al_1" } ∷ bob ∷ []))
setup_username-ok_example =
    setup_username-ok (codes "al_1") new_alice new_db
      (record empty_db { users = record alice { username = codes "al_1" } ∷ bob ∷ [] })
      ((refl, tt), (tt, tt)) (refl, (refl, tt)) renamed

taken : setup_username (codes "bob") new_alice new_db ≡ http 409
unfolding setup_username valid_username is_name_char is_reserved
taken = refl

-- `$` of the pattern lets a newline at the end pass, and the name is then not a reserved one.
abbrev admin_line : Text
admin_line = codes "admin" ++ (10 ∷ [])

reserved_with_newline :
    setup_username admin_line new_alice new_db
    ≡ ok (record empty_db { users = record alice { username = admin_line } ∷ bob ∷ [] })
unfolding setup_username valid_username is_name_char is_reserved
reserved_with_newline = refl

short_password :
    change_password text_eq
      (λ p. p)
      (codes "secret")
      (codes "short")
      (codes "short")
      local_bob
      local_db
    ≡ http 400
unfolding change_password
short_password = refl
