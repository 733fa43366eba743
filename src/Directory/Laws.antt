-- ===== src/Directory/Laws.antt =====
-- The lookups of Directory, with `setup_username` of Accounts.
use hack_bento.Base.{
  ℕ, zero, suc, ◌≤◌, ◌≡◌, ◌↔◌, refl, Bool, true, false, not, ◌&&◌, ◌||◌, List, [], ◌∷◌, Text,
  text_eq, text_eq_refl, ap, if◌then◌else◌, ltb, any, where_is, length, map, arith, ok, reject,
  ◌>>◌, reject-eq-ok, Bool-cases, inl, inr, All,
}
use hack_bento.Model.{User, Db}
use hack_bento.Names.{is_reserved, valid_username}
use hack_bento.Accounts.{update_user, setup_username}
use hack_bento.Directory.{named_other, check_username_for_setup, suggested, limit, search_users}

-- For a user who has still to choose a name, `check_username_for_setup` says that a name is
-- available exactly if `setup_username` accepts it.
pub check_username_for_setup-iff-setup_username :
    (username : Text) (u : User) (db : Db)
    → u.needs_username_setup ≡ true
    → (check_username_for_setup username u db ≡ true)
      ↔ ((db' : Db) × (setup_username username u db ≡ ok db'))
unfolding check_username_for_setup setup_username
check_username_for_setup-iff-setup_username username u db open_ = (
  λ h. (
    update_user u.id (λ v. record v { username = username; needs_username_setup = false }) db,
    rw open_ (
        by_tests (valid_username username) (is_reserved username)
          (any (named_other username u) db.users) h),
  ),
  λ (db', h).
      let (valid, h1) = reject-eq-ok (not (valid_username username)) 422 _ h in
      let (plain, h2) = reject-eq-ok (is_reserved username) 422 _ h1 in
      let (unset, h3) = reject-eq-ok (not u.needs_username_setup) 403 _ h2 in
      let (free, h4) = reject-eq-ok (any (named_other username u) db.users) 409 _ h3 in
      ground arith,
)
  where
    by_tests :
        (valid reserved taken : Bool) {A : Type 0} {a : A}
        → (valid && (not reserved && not taken)) ≡ true
        → (reject (not valid) 422
            >> (reject reserved 422 >> (reject false 403 >> (reject taken 409 >> ok a))))
          ≡ ok a
    by_tests true false false h = refl
    by_tests true false true h = cc
    by_tests true true taken h = cc
    by_tests false reserved taken h = cc

length-limit : (n : ℕ) (users : List User) → length (limit n users) ≤ n
unfolding limit
length-limit zero users = omega arith
length-limit (suc n) [] = omega arith
length-limit (suc n) (u ∷ users) = omega (arith, length-limit n users)

length-names : (users : List User) → length (map (λ v. v.username) users) ≡ length users
length-names [] = refl
length-names (u ∷ users) = ap suc (length-names users)

-- Some user with this name is one that may be suggested.
abbrev pub suggests : Text → User → List User → Text → Bool
suggests q u users name = any (λ v. suggested q u v && text_eq v.username name) users

-- Every listed user is suggested by the whole table.
abbrev AllSuggested : Text → User → List User → List User → Type 0
AllSuggested q u users vs = All (λ v. suggests q u users v.username ≡ true) vs

AllSuggested-cons :
    (q : Text) (u x : User) (users vs : List User)
    → AllSuggested q u users vs
    → AllSuggested q u (x ∷ users) vs
AllSuggested-cons q u x users [] h = tt
AllSuggested-cons q u x users (v ∷ vs) h =
    (rw h.0 (ground arith), AllSuggested-cons q u x users vs h.1)

AllSuggested-if :
    (q : Text) (u : User) (users : List User) (fits : Bool) (x : User) (rest : List User)
    → (fits ≡ true → suggests q u users x.username ≡ true)
    → AllSuggested q u users rest
    → AllSuggested q u users (if fits then x ∷ rest else rest)
AllSuggested-if q u users true x rest own h = (own refl, h)
AllSuggested-if q u users false x rest own h = h

where_is-AllSuggested :
    (q : Text) (u : User) (users : List User)
    → AllSuggested q u users (where_is (suggested q u) users)
where_is-AllSuggested q u [] = tt
where_is-AllSuggested q u (x ∷ users) =
    AllSuggested-if q u (x ∷ users) (suggested q u x) x (where_is (suggested q u) users)
      (λ fits. rw fits (rw (text_eq_refl x.username) refl))
      (AllSuggested-cons q u x users (where_is (suggested q u) users)
        (where_is-AllSuggested q u users))

limit-AllSuggested :
    (q : Text) (u : User) (users : List User) (n : ℕ) (vs : List User)
    → AllSuggested q u users vs
    → All (λ name. suggests q u users name ≡ true) (map (λ v. v.username) (limit n vs))
unfolding limit
limit-AllSuggested q u users zero vs h = tt
limit-AllSuggested q u users (suc n) [] h = tt
limit-AllSuggested q u users (suc n) (v ∷ vs) h = (h.0, limit-AllSuggested q u users n vs h.1)

-- The suggestions are at most eight, and each is the name of an active user other than the one who
-- asks, who has chosen it and whose name begins with the query, whatever its case.
pub search_users-ok :
    (q : Text) (u : User) (db : Db)
    → (length (search_users q u db) ≤ 8)
      × All (λ name. suggests q u db.users name ≡ true) (search_users q u db)
unfolding search_users
search_users-ok q u db = elim (Bool-cases (ltb (length q) 1 || ltb 64 (length q))) [
  | inl refused ↦ rw refused (omega arith, tt)
  | inr answered ↦ rw answered (
    omega (
      arith,
      length-names (limit 8 (where_is (suggested q u) db.users)),
      length-limit 8 (where_is (suggested q u) db.users),
    ),
    limit-AllSuggested q u db.users 8 _ (where_is-AllSuggested q u db.users),
  )
]
