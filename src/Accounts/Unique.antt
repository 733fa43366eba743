-- ===== src/Accounts/Unique.antt =====
-- The loops of Accounts that look for a username that is not taken.
use hack_bento.Base.{
  ℕ, zero, suc, ◌+◌, ◌≤◌, ◌≡◌, refl, sym, ap, subst, ◌∙◌, true, false, List, [], ◌∷◌, ◌++◌, none,
  some, Text, text_eq, text_eq_sound, contains, if◌then◌else◌, find_first, is_some, length, map,
  All, arith, Bool-cases, Option-cases, inl, inr,
}
use hack_bento.Model.{User, Db}
use hack_bento.Numeral.{str, read_digits, read_digits-str, str-injective}
use hack_bento.Names.{dash}
use hack_bento.Pool.Laws.{Distinct}
use hack_bento.Access.{user_named}
use hack_bento.Accounts.{unique_from, numbered, dashed, unique_username, oauth_base, oauth_username}

remove_text : Text → List Text → List Text
remove_text t [] = []
remove_text t (u ∷ ts) = if text_eq u t then ts else u ∷ remove_text t ts

length-remove_text :
    (t : Text) (ts : List Text) → contains ts t ≡ true → length ts ≡ suc (length (remove_text t ts))
unfolding remove_text
length-remove_text t [] h = cc
length-remove_text t (u ∷ ts) h = elim (Bool-cases (text_eq u t)) [
  | inl same ↦ rw same refl
  | inr other ↦ rw other (ap suc (length-remove_text t ts (rw other at h)))
]

pub text_eq_sym : (s t : Text) → text_eq s t ≡ text_eq t s
text_eq_sym s t = elim (Bool-cases (text_eq s t)) [
  | inl e ↦ subst (λ u. text_eq s u ≡ text_eq u s) (text_eq_sound s t e) refl
  | inr e ↦ elim (Bool-cases (text_eq t s)) [
    | inl f ↦ subst (λ u. text_eq u t ≡ text_eq t u) (text_eq_sound t s f) refl
    | inr f ↦ e ∙ sym f
  ]
]

contains-remove_text :
    (t d : Text) (ts : List Text)
    → contains ts d ≡ true
    → text_eq t d ≡ false
    → contains (remove_text t ts) d ≡ true
unfolding remove_text
contains-remove_text t d [] h k = h
contains-remove_text t d (u ∷ ts) h k = elim (Bool-cases (text_eq u t)) [
  | inl same ↦ rw same (ground (arith, h, k, ap (λ v. text_eq v d) (text_eq_sound u t same)))
  | inr other ↦ rw other (ground (arith, h, contains-remove_text t d ts))
]

others :
    (t : Text) (cs ts : List Text)
    → contains cs t ≡ false
    → All (λ c. contains ts c ≡ true) cs
    → All (λ c. contains (remove_text t ts) c ≡ true) cs
others t [] ts fresh h = tt
others t (c ∷ cs) ts fresh h = (
  contains-remove_text t c ts h.0 (text_eq_sym t c ∙ ground arith),
  others t cs ts (ground arith) h.1,
)

-- Different texts that all occur in a list are not more than its elements.
length-Distinct :
    (cs ts : List Text) → Distinct cs → All (λ c. contains ts c ≡ true) cs → length cs ≤ length ts
length-Distinct [] ts d h = omega arith
length-Distinct (c ∷ cs) ts d h = omega (
  arith,
  length-remove_text c ts h.0,
  length-Distinct cs (remove_text c ts) d.1 (others c cs ts d.0 h.1),
)

abbrev pub usernames : List User → List Text
usernames users = map (λ u. u.username) users

user_named-usernames :
    (name : Text) (users : List User)
    → is_some (find_first (λ u. text_eq u.username name) users) ≡ contains (usernames users) name
user_named-usernames name [] = refl
user_named-usernames name (u ∷ users) = ground (arith, user_named-usernames name users)

length-usernames : (users : List User) → length (usernames users) ≡ length users
length-usernames [] = refl
length-usernames (u ∷ users) = ap suc (length-usernames users)

-- The next candidate is none of those that were tried.
fresh_render :
    (render : ℕ → Text) (tried : List Text) (suffix k : ℕ)
    → ((i j : ℕ) → render i ≡ render j → i ≡ j)
    → suffix + 1 ≤ k
    → contains tried (render k) ≡ false
    → contains (render suffix ∷ tried) (render k) ≡ false
fresh_render render tried suffix k injective later fresh =
    elim (Bool-cases (text_eq (render suffix) (render k))) [
      | inl e ↦ absurd (omega (arith, injective suffix k (text_eq_sound _ _ e)))
      | inr e ↦ ground arith
    ]

search_ends :
    (render : ℕ → Text) (fuel : ℕ) (candidate : Text) (suffix : ℕ) (db : Db) (tried : List Text)
    → ((i j : ℕ) → render i ≡ render j → i ≡ j)
    → ((k : ℕ) → suffix ≤ k → contains (candidate ∷ tried) (render k) ≡ false)
    → Distinct (candidate ∷ tried)
    → All (λ c. contains (usernames db.users) c ≡ true) tried
    → length tried + fuel ≡ suc (length db.users)
    → (name : Text) × (unique_from render fuel candidate suffix db ≡ some name)
      × (user_named name db ≡ none)
unfolding unique_from user_named
search_ends render zero candidate suffix db tried injective fresh d taken size =
    absurd (
      omega
        (arith, length-Distinct tried (usernames db.users) d.1 taken, length-usernames db.users))
search_ends render (suc fuel) candidate suffix db tried injective fresh d taken size =
    elim (Option-cases (find_first (λ u. text_eq u.username candidate) db.users)) [
      | inl free ↦ (candidate, rw free refl, free)
      | inr (u, found) ↦
          let (name, e, f) =
            search_ends render fuel (render suffix) (suffix + 1) db (candidate ∷ tried) injective
              (λ k later.
                fresh_render render (candidate ∷ tried) suffix k injective later
                  (fresh k (omega arith)))
              (fresh suffix (omega arith), d)
              (sym (user_named-usernames candidate db.users) ∙ rw found refl, taken)
              (omega arith) in
          (name, rw found e, f)
    ]

append_injective : (base s t : Text) → base ++ s ≡ base ++ t → s ≡ t
append_injective [] s t h = h
append_injective (c ∷ base) s t h = append_injective base s t (cc)

-- A base is not the base with something after it.
longer : (base : Text) (c : ℕ) (s : Text) → text_eq base (base ++ (c ∷ s)) ≡ false
longer [] c s = refl
longer (x ∷ base) c s = ground (arith, longer base c s)

str-nonempty : (n : ℕ) → 1 ≤ n → (c : ℕ) × (s : Text) × (str n ≡ c ∷ s)
str-nonempty n positive = by_text (str n) refl
  where
    by_text : (s : Text) → str n ≡ s → (c : ℕ) × (t : Text) × (str n ≡ c ∷ t)
    by_text (c ∷ s) h = (c, s, h)
    by_text [] h =
        let nothing : read_digits 0 [] ≡ 0 = unfold read_digits in refl in
        absurd (omega (arith, sym (read_digits-str n) ∙ ap (read_digits 0) h ∙ nothing))

numbered-fresh : (base : Text) (k : ℕ) → 2 ≤ k → contains (base ∷ []) (numbered base k) ≡ false
numbered-fresh base k h =
    let (c, s, e) = str-nonempty k (omega arith) in rw e (rw (longer base c s) refl)

-- The username that a first LDAP login is given always exists, and no user has it.
pub unique_username-some :
    (base : Text) (db : Db)
    → (name : Text) × (unique_username base db ≡ some name) × (user_named name db ≡ none)
unfolding unique_username
unique_username-some base db =
    search_ends (numbered base) (suc (length db.users)) base 2 db []
      (λ i j e. str-injective i j (append_injective base (str i) (str j) e)) (numbered-fresh base)
      (refl, tt) tt (omega arith)

-- The username that a first OAuth login is given always exists, and no user has it.
pub oauth_username-some :
    (base : Text) (db : Db)
    → (name : Text) × (oauth_username base db ≡ some name) × (user_named name db ≡ none)
unfolding oauth_username
oauth_username-some base db =
    search_ends (dashed (oauth_base base)) (suc (length db.users)) (oauth_base base) 1 db []
      (λ i j e.
        str-injective i j (cc (append_injective (oauth_base base) (dash ∷ str i) (dash ∷ str j) e)))
      (λ k h. rw (longer (oauth_base base) dash (str k)) refl) (refl, tt) tt (omega arith)
