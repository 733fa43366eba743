-- ===== src/Access/Laws.antt =====
-- The rights of viewers, editors and collaborators of Access, compared with one another.
use hack_bento.Base.{
  refl, Reply, Bool, ◌>>=◌, ◌>>◌, reject, ℕ, ◌≡◌, sym, ap, subst, ◌∙◌, ◌↔◌, true, false, not, ◌&&◌,
  ◌||◌, List, [], ◌∷◌, ◌++◌, none, some, Text, arith, where_is, find_first-satisfies, Option-cases,
  inl, inr, ◌==◌, ok, or_404, >>=-eq-ok, reject-eq-ok, or_404-eq-ok, ok-injective,
}
use hack_bento.Model.{User, Image, ImageCollaborator, CollaboratorRole, Db}
use hack_bento.Access.{
  owned_by, collab_row, is_collaborator, is_writer, can_see, active_image, find_image,
  authorise_edit, owner_or_admin, can_edit, user_named, parse_role, role_or_422,
  get_image_as_owner_or_admin, add_collaborator, remove_collaborator,
}

-- A collaborator with write access is a collaborator.
is_writer-is_collaborator :
    (cs : List ImageCollaborator) (i u : ℕ)
    → is_writer cs i u ≡ true
    → is_collaborator cs i u ≡ true
unfolding is_writer is_collaborator
is_writer-is_collaborator [] i u h = ground arith
is_writer-is_collaborator (c ∷ cs) i u h = ground (arith, is_writer-is_collaborator cs i u)

reject-pass :
    {A : Type 0} (bad : Bool) (code : ℕ) (rest : Reply A)
    → bad ≡ false
    → (reject bad code >> rest) ≡ rest
reject-pass true code rest h = cc
reject-pass false code rest h = refl

rights : ℕ → User → Db → Reply Image
unfolding find_image
rights image_id u db = do
  image ← or_404 (find_image image_id db)
  reject (not (owner_or_admin u image) && not (is_writer db.collaborators image_id u.id)) 403
  ok image

can_edit-iff-rights :
    (image_id : ℕ) (u : User) (db : Db)
    → (can_edit image_id u db ≡ true) ↔ ((image : Image) × (rights image_id u db ≡ ok image))
unfolding can_edit rights
can_edit-iff-rights image_id u db = elim (Option-cases (find_image image_id db)) [
  | inl e ↦ rw e (λ h. cc, λ h. cc (h.1))
  | inr (image, e) ↦ rw e (λ h. (image, ground arith), λ h. ground (arith, h.1))
]

-- `update_image` lets a user through exactly where the answer of `can-edit` is yes and the user has
-- no name still to choose.
pub can_edit-iff-authorise_edit :
    (image_id : ℕ) (u : User) (db : Db)
    → ((can_edit image_id u db ≡ true) × (u.needs_username_setup ≡ false))
      ↔ ((image : Image) × (authorise_edit image_id u db ≡ ok image))
unfolding authorise_edit rights
can_edit-iff-authorise_edit image_id u db =
    let inner = can_edit-iff-rights image_id u db in
    (
      λ h.
          let r = inner.0 h.0 in
          (r.0, reject-pass u.needs_username_setup 403 (rights image_id u db) h.1 ∙ r.1),
      λ h.
          let s = reject-eq-ok u.needs_username_setup 403 (rights image_id u db) h.1 in
          (inner.1 (h.0, s.1), s.0),
    )

-- Whoever may edit an active project may see it, whatever its visibility.
pub can_edit-can_see :
    (image_id : ℕ) (u : User) (db : Db) (image : Image)
    → find_image image_id db ≡ some image
    → can_edit image_id u db ≡ true
    → can_see image (some u) db.collaborators ≡ true
unfolding can_edit can_see
can_edit-can_see image_id u db image found h = ground (
  arith,
  find_first-satisfies (active_image image_id) db.images image (unfold find_image in found),
  is_writer-is_collaborator db.collaborators image_id u.id,
)

-- Logging in takes no project away: what anyone may see, every user may see.
pub can_see_anonymous :
    (image : Image) (u : User) (cs : List ImageCollaborator)
    → can_see image none cs ≡ true
    → can_see image (some u) cs ≡ true
unfolding can_see
can_see_anonymous image u cs h = ground arith

is_collaborator-append :
    (cs : List ImageCollaborator) (c : ImageCollaborator) (i u : ℕ)
    → is_collaborator (cs ++ (c ∷ [])) i u ≡ (is_collaborator cs i u || collab_row i u c)
unfolding is_collaborator
is_collaborator-append [] c i u = ground arith
is_collaborator-append (d ∷ cs) c i u = ground (arith, is_collaborator-append cs c i u)

is_collaborator-remove :
    (cs : List ImageCollaborator) (i u j v : ℕ)
    → is_collaborator (where_is (λ c. not (collab_row i u c)) cs) j v
      ≡ (not (i == j && u == v) && is_collaborator cs j v)
unfolding is_collaborator
is_collaborator-remove [] i u j v = ground arith
is_collaborator-remove (c ∷ cs) i u j v = ground (arith, is_collaborator-remove cs i u j v)

-- What a successful `add_collaborator` has done: the named user had no row for the project and
-- is not its owner; now the user has one, and every other pair of a project and a user keeps its answer.
pub add_collaborator-ok :
    (owner slug username role : Text) (u : User) (db db' : Db)
    → add_collaborator owner slug username role u db ≡ ok db'
    → (image : Image) × (target : User) × (get_image_as_owner_or_admin owner slug u db ≡ ok image)
      × (user_named username db ≡ some target)
      × (owned_by image.owner_id target.id ≡ false)
      × (is_collaborator db.collaborators image.id target.id ≡ false)
      × ((i v : ℕ)
          → is_collaborator db'.collaborators i v
            ≡ (is_collaborator db.collaborators i v || (image.id == i && target.id == v)))
unfolding add_collaborator
add_collaborator-ok owner slug username role u db db' h =
    let (set, h0) = reject-eq-ok u.needs_username_setup 403 _ h in
    let (image, found, h1) = >>=-eq-ok (get_image_as_owner_or_admin owner slug u db) _ h0 in
    let (target, named, h2) = >>=-eq-ok (or_404 (user_named username db)) _ h1 in
    let (other, h3) = reject-eq-ok (owned_by image.owner_id target.id) 400 _ h2 in
    let (fresh, h4) = reject-eq-ok (is_collaborator db.collaborators image.id target.id) 409 _ h3 in
    let (r, parsed, h5) = >>=-eq-ok (role_or_422 (parse_role role)) _ h4 in
    (
      image,
      target,
      found,
      or_404-eq-ok _ named,
      other,
      fresh,
      λ i v.
          ap (λ (d : Db). is_collaborator d.collaborators i v) (sym (ok-injective h5))
          ∙ is_collaborator-append db.collaborators _ i v,
    )

-- What a successful `remove_collaborator` has done: the named user had a row for the project and
-- has none now, and every other pair of a project and a user keeps its answer.
pub remove_collaborator-ok :
    (owner slug username : Text) (u : User) (db db' : Db)
    → remove_collaborator owner slug username u db ≡ ok db'
    → (image : Image) × (target : User) × (get_image_as_owner_or_admin owner slug u db ≡ ok image)
      × (user_named username db ≡ some target)
      × (is_collaborator db.collaborators image.id target.id ≡ true)
      × ((i v : ℕ)
          → is_collaborator db'.collaborators i v
            ≡ (not (image.id == i && target.id == v) && is_collaborator db.collaborators i v))
unfolding remove_collaborator
remove_collaborator-ok owner slug username u db db' h =
    let (set, h0) = reject-eq-ok u.needs_username_setup 403 _ h in
    let (image, found, h1) = >>=-eq-ok (get_image_as_owner_or_admin owner slug u db) _ h0 in
    let (target, named, h2) = >>=-eq-ok (or_404 (user_named username db)) _ h1 in
    let (member, h3) =
      reject-eq-ok (not (is_collaborator db.collaborators image.id target.id)) 404 _ h2 in
    (
      image,
      target,
      found,
      or_404-eq-ok _ named,
      ground arith,
      λ i v.
          ap (λ (d : Db). is_collaborator d.collaborators i v) (sym (ok-injective h3))
          ∙ is_collaborator-remove db.collaborators image.id target.id i v,
    )

where_is-fresh :
    (cs : List ImageCollaborator) (i u : ℕ) (c : ImageCollaborator)
    → is_collaborator cs i u ≡ false
    → collab_row i u c ≡ true
    → where_is (λ d. not (collab_row i u d)) (cs ++ (c ∷ [])) ≡ cs
unfolding is_collaborator
where_is-fresh [] i u c h k = ground arith
where_is-fresh (d ∷ cs) i u c h k = ground (arith, where_is-fresh cs i u c)

-- `remove_collaborator` once its lookups are known.
remove_collaborator-found :
    (owner slug username : Text) (u : User) (db : Db) (image : Image) (target : User)
    → u.needs_username_setup ≡ false
    → get_image_as_owner_or_admin owner slug u db ≡ ok image
    → user_named username db ≡ some target
    → is_collaborator db.collaborators image.id target.id ≡ true
    → remove_collaborator owner slug username u db
      ≡ ok (record db {
        collaborators = where_is (λ c. not (collab_row image.id target.id c)) db.collaborators;
      })
unfolding remove_collaborator
remove_collaborator-found owner slug username u db image target set found named member =
    rw set (rw found (rw named (rw member)))

abbrev joined : Db → Image → User → CollaboratorRole → Db
joined db image target r = record db {
  collaborators =
      db.collaborators ++ (record { image_id = image.id; user_id = target.id; role = r } ∷ []);
}

remove_collaborator-joined :
    (owner slug username : Text) (u : User) (db : Db) (image : Image) (target : User)
    (r : CollaboratorRole)
    → u.needs_username_setup ≡ false
    → get_image_as_owner_or_admin owner slug u db ≡ ok image
    → user_named username db ≡ some target
    → is_collaborator db.collaborators image.id target.id ≡ false
    → remove_collaborator owner slug username u (joined db image target r) ≡ ok db
unfolding get_image_as_owner_or_admin user_named
remove_collaborator-joined owner slug username u db image target r set found named fresh =
    remove_collaborator-found owner slug username u (joined db image target r) image target set
      found named (rw is_collaborator-append (ground arith))
    ∙ ap (λ cs. ok (record db { collaborators = cs }))
        (where_is-fresh db.collaborators image.id target.id _ fresh (ground arith))

-- Removing the collaborator who was just added restores the database.
pub remove_collaborator-add_collaborator :
    (owner slug username role : Text) (u : User) (db db' : Db)
    → add_collaborator owner slug username role u db ≡ ok db'
    → remove_collaborator owner slug username u db' ≡ ok db
unfolding add_collaborator
remove_collaborator-add_collaborator owner slug username role u db db' h =
    let (set, h0) = reject-eq-ok u.needs_username_setup 403 _ h in
    let (image, found, h1) = >>=-eq-ok (get_image_as_owner_or_admin owner slug u db) _ h0 in
    let (target, named, h2) = >>=-eq-ok (or_404 (user_named username db)) _ h1 in
    let (other, h3) = reject-eq-ok (owned_by image.owner_id target.id) 400 _ h2 in
    let (fresh, h4) = reject-eq-ok (is_collaborator db.collaborators image.id target.id) 409 _ h3 in
    let (r, parsed, h5) = >>=-eq-ok (role_or_422 (parse_role role)) _ h4 in
    subst (λ d. remove_collaborator owner slug username u d ≡ ok db) (ok-injective h5)
      (remove_collaborator-joined owner slug username u db image target r set found
        (or_404-eq-ok _ named) fresh)
