-- ===== src/Directory/Tests.antt =====
-- Names looked up among the sample users.
use hack_bento.Base.{◌≡◌, ◌↔◌, refl, true, false, [], ◌∷◌, codes, ok}
use hack_bento.Model.{User, Db}
use hack_bento.Names.{valid_username, is_name_char, is_reserved}
use hack_bento.Access.{user_named}
use hack_bento.Accounts.{setup_username}
use hack_bento.Directory.{check_username, check_username_for_setup, search_users}
use hack_bento.Directory.Laws.{check_username_for_setup-iff-setup_username}
use hack_bento.Samples.{alice, empty_db}

abbrev new_alice : User
new_alice = record alice { needs_username_setup = true }

check_username_for_setup-iff-setup_username_example :
    (check_username_for_setup (codes "alice") new_alice empty_db ≡ true)
    ↔ ((db' : Db) × (setup_username (codes "alice") new_alice empty_db ≡ ok db'))
check_username_for_setup-iff-setup_username_example =
    check_username_for_setup-iff-setup_username (codes "alice") new_alice empty_db refl

-- One's own name is available in the form, but not elsewhere.
own_name : check_username_for_setup (codes "alice") new_alice empty_db ≡ true
unfolding check_username_for_setup valid_username is_name_char is_reserved
own_name = refl

used_name : check_username (codes "alice") empty_db ≡ false
unfolding check_username valid_username is_name_char is_reserved user_named
used_name = refl

found_bob : search_users (codes "B") alice empty_db ≡ codes "bob" ∷ []
unfolding search_users
found_bob = refl
