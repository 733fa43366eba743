-- ===== src/Accounts/Keys.antt =====
-- `setup_username` of Accounts and the usernames of the other users.
use hack_bento.Base.{
  ℕ, ◌≡◌, refl, ap, subst, ◌∙◌, Bool, true, false, not, ◌&&◌, List, [], ◌∷◌, Text, text_eq,
  contains, any, if◌then◌else◌, map, All, arith, ◌==◌, Bool-cases, inl, inr, ok, reject-eq-ok,
  ok-injective,
}
use hack_bento.Model.{User, Db}
use hack_bento.Names.{valid_username, is_reserved}
use hack_bento.Pool.Laws.{Distinct}
use hack_bento.Accounts.{setup_username}
use hack_bento.Accounts.Unique.{usernames, text_eq_sym}

-- No two rows have one key.
abbrev pub UniqueUsers : List User → Type 0
UniqueUsers [] = Unit
UniqueUsers (u ∷ users) = All (λ v. (v.id == u.id) ≡ false) users × UniqueUsers users

-- `UPDATE users SET username = … WHERE id = …`
abbrev named : ℕ → Text → User → User
named id name u =
    if u.id == id then record u { username = name; needs_username_setup = false } else u

named-others :
    (id : ℕ) (name : Text) (users : List User)
    → All (λ v. (v.id == id) ≡ false) users
    → map (named id name) users ≡ users
named-others id name [] h = refl
named-others id name (u ∷ users) h = rw h.0 (ap (λ l. u ∷ l) (named-others id name users h.1))

abbrev taken_by_other : ℕ → Text → User → Bool
taken_by_other id name v = text_eq v.username name && not (v.id == id)

-- A name that no other row has is in none of them.
free_of :
    (id : ℕ) (name : Text) (users : List User)
    → any (taken_by_other id name) users ≡ false
    → All (λ v. (v.id == id) ≡ false) users
    → contains (usernames users) name ≡ false
free_of id name [] h k = refl
free_of id name (u ∷ users) h k = ground (arith, h, k.0, free_of id name users (ground arith) k.1)

contains-named :
    (id : ℕ) (name t : Text) (users : List User)
    → text_eq name t ≡ false
    → contains (usernames users) t ≡ false
    → contains (usernames (map (named id name) users)) t ≡ false
contains-named id name t [] h k = refl
contains-named id name t (u ∷ users) h k = elim (Bool-cases (u.id == id)) [
  | inl same ↦ rw same (ground (arith, h, k, contains-named id name t users))
  | inr other ↦ rw other (ground (arith, h, k, contains-named id name t users))
]

same_ids :
    (id k : ℕ) (users : List User)
    → (k == id) ≡ true
    → All (λ v. (v.id == k) ≡ false) users
    → All (λ v. (v.id == id) ≡ false) users
same_ids id k [] e h = tt
same_ids id k (v ∷ users) e h = (ground (arith, h.0), same_ids id k users e h.1)

usernames-named :
    (id : ℕ) (name : Text) (users : List User)
    → UniqueUsers users
    → any (taken_by_other id name) users ≡ false
    → Distinct (usernames users)
    → Distinct (usernames (map (named id name) users))
usernames-named id name [] u h d = tt
usernames-named id name (v ∷ users) u h d = elim (Bool-cases (v.id == id)) [
  | inl same ↦
      let none_left = same_ids id v.id users same u.0 in
      rw (named-others id name users none_left)
        (rw same (free_of id name users (ground arith) none_left, d.1))
  | inr other ↦ rw other (
    contains-named id name v.username users (text_eq_sym name v.username ∙ ground (arith, h, other))
        d.0,
    usernames-named id name users u.1 (ground arith) d.1,
  )
]

-- A successful `setup_username`, in a table of users with unique keys and usernames: the name is
-- valid and not reserved, the user had not chosen one before, and no two users have one username
-- afterwards.
pub setup_username-ok :
    (username : Text) (u : User) (db db' : Db)
    → UniqueUsers db.users
    → Distinct (usernames db.users)
    → setup_username username u db ≡ ok db'
    → (valid_username username ≡ true)
      × (is_reserved username ≡ false)
      × (u.needs_username_setup ≡ true)
      × Distinct (usernames db'.users)
unfolding setup_username
setup_username-ok username u db db' unique d h =
    let (valid, h1) = reject-eq-ok (not (valid_username username)) 422 _ h in
    let (plain, h2) = reject-eq-ok (is_reserved username) 422 _ h1 in
    let (unset, h3) = reject-eq-ok (not u.needs_username_setup) 403 _ h2 in
    let (free, h4) = reject-eq-ok (any (taken_by_other u.id username) db.users) 409 _ h3 in
    (
      ground arith,
      plain,
      ground arith,
      subst (λ (d : Db). Distinct (usernames d.users)) (ok-injective h4)
          (usernames-named u.id username db.users unique free d),
    )
