-- ===== src/Accounts/Logins.antt =====
-- `login` of Accounts, and a user's first login through Google or the directory.
use hack_bento.Base.{
  ℕ, ◌≡◌, refl, sym, ap, ◌∙◌, ◌⊎◌, inl, inr, Bool, true, false, ◌&&◌, List, [], ◌∷◌, ◌++◌, Option,
  none, some, Text, any, if◌then◌else◌, find_first, find_first-satisfies, arith, ok, split_on,
  some-injective, ok-injective,
}
use hack_bento.Model.{User, AuthProvider, Db}
use hack_bento.Access.{user_named}
use hack_bento.Names.{sanitize_username}
use hack_bento.Accounts.{
  has_text, is_ldap, is_oauth, local_row, checked, verified, authenticate_local, new_user,
  insert_user, created, found_or_created, settled, authenticate_ldap, ldap_email,
  get_or_create_oauth_user, domain_allowed, first_part, given_name, answered, login, or_ldap,
  answer_login,
}
use hack_bento.Accounts.Unique.{unique_username-some, oauth_username-some}

-- No row for the address means no row of the provider for it.
no_row :
    (email : Text) (p : User → Bool) (users : List User)
    → any (λ v. has_text v.email email) users ≡ false
    → find_first (λ v. has_text v.email email && p v) users ≡ none
no_row email p [] h = refl
no_row email p (v ∷ users) h = ground (arith, no_row email p users)

abbrev pub with_user : User → Db → Db
with_user u db = record db { users = db.users ++ (u ∷ []) }

created_first :
    (provider : AuthProvider) (name email : Text) (display_name : Option Text) (db : Db)
    → user_named name db ≡ none
    → any (λ v. has_text v.email email) db.users ≡ false
    → created provider (some name) email display_name db
      ≡ some (
        new_user provider name email display_name db,
        with_user (new_user provider name email display_name db) db,
      )
unfolding created insert_user new_user
created_first provider name email display_name db free fresh = rw free (rw fresh refl)

-- A first login through Google, from an allowed domain and with an address that no row has: the
-- user is added, active, with a username that was free and that is still to be confirmed.
pub get_or_create_oauth_user-first :
    (domains : List Text) (email name : Text) (db : Db)
    → domain_allowed domains email ≡ true
    → any (λ v. has_text v.email email) db.users ≡ false
    → (username : Text) × (user_named username db ≡ none)
      × (let u = new_user AuthProvider.oauth username email (given_name name) db in
          get_or_create_oauth_user domains email name db ≡ ok (some u, with_user u db))
unfolding get_or_create_oauth_user found_or_created answered
get_or_create_oauth_user-first domains email name db allowed fresh =
    let (username, e, free) =
      oauth_username-some (sanitize_username (first_part (split_on b'@' email))) db in
    (
      username,
      free,
      rw allowed (
          rw (no_row email (λ v. is_oauth v.auth_provider) db.users fresh) (
            rw e (
              rw (created_first AuthProvider.oauth username email (given_name name) db free fresh)
                (unfold new_user in refl)))),
    )

-- A first login whose credentials the directory accepts, and whose address `<username>@ldap` no
-- row has: the user is added, active, with a username that was free and that is still to be
-- confirmed.
pub authenticate_ldap-first :
    (username : Text) (db : Db)
    → any (λ v. has_text v.email (ldap_email username)) db.users ≡ false
    → (name : Text) × (user_named name db ≡ none)
      × (let u = new_user AuthProvider.ldap name (ldap_email username) none db in
          authenticate_ldap true true username db ≡ (some u, with_user u db))
unfolding authenticate_ldap found_or_created settled
authenticate_ldap-first username db fresh =
    let (name, e, free) = unique_username-some username db in
    (
      name,
      free,
      rw (no_row (ldap_email username) (λ v. is_ldap v.auth_provider) db.users fresh) (
          rw e (
            rw (created_first AuthProvider.ldap name (ldap_email username) none db free fresh)
              (unfold new_user in refl))),
    )

if-some : (b : Bool) (v u : User) → (if b then some v else none) ≡ some u → (b ≡ true) × (v ≡ u)
if-some true v u h = (refl, some-injective v u h)
if-some false v u h = cc

verified-hash :
    (verify : Text → Text → Bool) (password : Text) (o : Option Text)
    → verified verify password o ≡ true
    → (hash : Text) × (o ≡ some hash) × (verify password hash ≡ true)
verified-hash verify password none h = cc
verified-hash verify password (some hash) h = (hash, refl, ground arith)

checked-some :
    (verify : Text → Text → Bool) (password : Text) (o : Option User) (u : User)
    → checked verify password o ≡ some u
    → (o ≡ some u) × (hash : Text) × (u.hashed_password ≡ some hash) × (verify password hash ≡ true)
unfolding checked
checked-some verify password none u h = cc
checked-some verify password (some v) u h =
    let (good, same) = if-some (verified verify password v.hashed_password) v u h in
    let (hash, set, fits) = verified-hash verify password v.hashed_password good in
    (ap some same, hash, sym (ap (λ (w : User). w.hashed_password) same) ∙ set, fits)

settled-active :
    (db : Db) (r : Option (User × Db)) (u : User) → (settled db r).0 ≡ some u → u.is_active ≡ true
unfolding settled
settled-active db none u h = cc
settled-active db (some (v, d)) u h =
    let (active, same) = if-some v.is_active v u h in
    ap (λ (w : User). w.is_active) (sym same) ∙ active

ldap_active :
    (enabled bound : Bool) (username : Text) (db : Db) (u : User)
    → (authenticate_ldap enabled bound username db).0 ≡ some u
    → (enabled ≡ true) × (bound ≡ true) × (u.is_active ≡ true)
unfolding authenticate_ldap
ldap_active true true username db u h = (refl, refl, settled-active db _ u h)
ldap_active true false username db u h = cc
ldap_active false bound username db u h = cc

answered-user :
    (now : ℕ) (r : Option User × Db) (u : User) (db' : Db)
    → answer_login now r ≡ ok (u, db')
    → r.0 ≡ some u
unfolding answer_login
answered-user now (none, db) u db' h = cc
answered-user now (some v, db) u db' h = ap (λ (p : User × Db). some p.0) (ok-injective h)

-- A successful login is of an active user: either the row with that username is a local one and
-- the password fits its hash, or the directory is in use and has accepted the credentials.
pub login-ok :
    (verify : Text → Text → Bool) (enabled bound : Bool) (now : ℕ) (username password : Text)
    (db : Db) (u : User) (db' : Db)
    → login verify enabled bound now username password db ≡ ok (u, db')
    → (u.is_active ≡ true)
      × (((local_row username u ≡ true)
            × (hash : Text) × (u.hashed_password ≡ some hash)
            × (verify password hash ≡ true))
          ⊎ ((enabled ≡ true) × (bound ≡ true)))
unfolding login authenticate_local or_ldap
login-ok verify enabled bound now username password db u db' h =
    by_local (authenticate_local verify username password db) refl (answered-user now _ u db' h)
  where
    by_local :
        (o : Option User)
        → authenticate_local verify username password db ≡ o
        → (or_ldap enabled bound username db o).0 ≡ some u
        → (u.is_active ≡ true)
          × (((local_row username u ≡ true)
                × (hash : Text) × (u.hashed_password ≡ some hash)
                × (verify password hash ≡ true))
              ⊎ ((enabled ≡ true) × (bound ≡ true)))
    by_local none e k =
        let (on, accepted, active) =
          ldap_active enabled bound username db u (if_enabled enabled k) in
        (active, inr (on, accepted))
      where
        if_enabled :
            (on : Bool)
            → (if on then authenticate_ldap enabled bound username db else (none, db)).0 ≡ some u
            → (authenticate_ldap enabled bound username db).0 ≡ some u
        if_enabled true l = l
        if_enabled false l = cc
    by_local (some v) e k =
        let (row, hash, set, good) = checked-some verify password _ u (e ∙ k) in
        let fits = find_first-satisfies (local_row username) db.users u row in
        (ground arith, inl (fits, hash, set, good))
