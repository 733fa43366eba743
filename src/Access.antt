-- ===== src/Access.antt =====
-- Who may see and who may edit a project: `_can_see`, `list_images`, `can_edit`, the check at the
-- head of `update_image`, `update_visibility` and `delete_image` of orchestrator/routers/images.py,
-- and the collaborators and the visibility of orchestrator/routers/users.py.
pub mod Laws
pub mod Tests
use hack_bento.Base.{
  ℕ, Bool, true, false, ◌&&◌, ◌||◌, not, List, [], ◌∷◌, ◌++◌, Option, none, some, Text, text_eq,
  codes, if◌then◌else◌, ◌==◌, any, where_is, find_first, is_some, map, Reply, ok, http, ◌>>=◌, ◌>>◌,
  reject, or_404,
}
use hack_bento.Model.{User, Image, ImageCollaborator, CollaboratorRole, Visibility, Db, is_admin}

-- `require_username_set` of orchestrator/deps.py, for a user who is logged in.
abbrev pub require_username_set : User → Reply (Unit {0})
require_username_set u = reject u.needs_username_setup 403

-- `image.owner_id == user.id`
abbrev pub owned_by : Option ℕ → ℕ → Bool
owned_by none u = false
owned_by (some o) u = o == u

abbrev pub collab_row : ℕ → ℕ → ImageCollaborator → Bool
collab_row image_id user_id c = c.image_id == image_id && c.user_id == user_id

abbrev pub may_write : CollaboratorRole → Bool
may_write CollaboratorRole.read = false
may_write CollaboratorRole.read_write = true

-- `select(ImageCollaborator).where(image_id, user_id)` finds a row.
unfoldable pub is_collaborator : List ImageCollaborator → ℕ → ℕ → Bool
is_collaborator collabs image_id user_id = any (collab_row image_id user_id) collabs

-- The same with `role == CollaboratorRole.read_write`.
pub is_writer : List ImageCollaborator → ℕ → ℕ → Bool
is_writer collabs image_id user_id =
    any (λ c. collab_row image_id user_id c && may_write c.role) collabs

-- The branches of `_can_see` for a user who is logged in, by the visibility.
see_as : Visibility → Image → User → List ImageCollaborator → Bool
see_as Visibility.public image u collabs = true
see_as Visibility.protected image u collabs = true
see_as Visibility.private image u collabs =
    if is_admin u.role
    then true
    else if owned_by image.owner_id u.id
    then true
    else is_collaborator collabs image.id u.id

see_anonymous : Visibility → Bool
see_anonymous Visibility.public = true
see_anonymous _ = false

-- `_can_see`; the administrator's branch comes before the one of `protected`, with the same answer.
unfoldable pub can_see : Image → Option User → List ImageCollaborator → Bool
unfolding see_as see_anonymous
can_see image none collabs = see_anonymous image.visibility
can_see image (some u) collabs = see_as image.visibility image u collabs

-- `list_images`, before the rows are written out as responses and sorted by name.
pub list_images : Option User → Db → List Image
list_images viewer db =
    where_is (λ i. can_see i viewer db.collaborators)
      (where_is (λ i. i.is_active && not i.is_attack_machine) db.images)

-- `select(Image).where(Image.id == image_id, Image.is_active == True)`
abbrev pub active_image : ℕ → Image → Bool
active_image image_id i = i.id == image_id && i.is_active

unfoldable pub find_image : ℕ → Db → Option Image
find_image image_id db = find_first (active_image image_id) db.images

-- `is_owner` of `update_image`, and the check of the handlers that only the owner may call.
abbrev pub owner_or_admin : User → Image → Bool
owner_or_admin u image = is_admin u.role || owned_by image.owner_id u.id

-- The rights that `update_image` asks for before it changes anything.
pub authorise_edit : ℕ → User → Db → Reply Image
unfolding find_image
authorise_edit image_id u db = do
  require_username_set u
  image ← or_404 (find_image image_id db)
  reject (not (owner_or_admin u image) && not (is_writer db.collaborators image_id u.id)) 403
  ok image

-- `can_edit`
pub can_edit : ℕ → User → Db → Bool
unfolding find_image
can_edit image_id u db = elim (find_image image_id db) [
  | none ↦ false
  | some image ↦ if owner_or_admin u image then true else is_writer db.collaborators image_id u.id
]

abbrev set_image : ℕ → (Image → Image) → Image → Image
set_image image_id f i = if i.id == image_id then f i else i

-- `update_visibility` of routers/images.py
pub update_visibility : ℕ → Visibility → User → Db → Reply Db
unfolding find_image
update_visibility image_id v u db = do
  require_username_set u
  image ← or_404 (find_image image_id db)
  reject (not (owner_or_admin u image)) 403
  ok (record db { images = map (set_image image_id (λ i. record i { visibility = v })) db.images })

-- `select(User).where(User.username == name)`
unfoldable pub user_named : Text → Db → Option User
user_named name db = find_first (λ u. text_eq u.username name) db.users

-- `_get_image_as_owner_or_admin` of routers/users.py
pub get_image_as_owner_or_admin : Text → Text → User → Db → Reply Image
unfolding user_named
get_image_as_owner_or_admin owner slug u db = do
  o ← or_404 (user_named owner db)
  image ←
      or_404
        (find_first (λ i. owned_by i.owner_id o.id && text_eq i.slug slug && i.is_active) db.images)
  reject (not (is_admin u.role) && not (owned_by image.owner_id u.id)) 403
  ok image

-- `role_map.get(body.role)`
pub parse_role : Text → Option CollaboratorRole
parse_role r =
    if text_eq r (codes "read")
    then some CollaboratorRole.read
    else if text_eq r (codes "read_write")
    then some CollaboratorRole.read_write
    else none

abbrev role_or_422 : Option CollaboratorRole → Reply CollaboratorRole
role_or_422 none = http 422
role_or_422 (some r) = ok r

-- `add_collaborator`
pub add_collaborator : Text → Text → Text → Text → User → Db → Reply Db
unfolding get_image_as_owner_or_admin user_named parse_role is_collaborator
add_collaborator owner slug username role u db = do
  require_username_set u
  image ← get_image_as_owner_or_admin owner slug u db
  target ← or_404 (user_named username db)
  reject (owned_by image.owner_id target.id) 400
  reject (is_collaborator db.collaborators image.id target.id) 409
  r ← role_or_422 (parse_role role)
  ok (record db {
    collaborators =
        db.collaborators ++ (record { image_id = image.id; user_id = target.id; role = r } ∷ []);
  })

-- `remove_collaborator`
pub remove_collaborator : Text → Text → Text → User → Db → Reply Db
unfolding get_image_as_owner_or_admin user_named is_collaborator
remove_collaborator owner slug username u db = do
  require_username_set u
  image ← get_image_as_owner_or_admin owner slug u db
  target ← or_404 (user_named username db)
  reject (not (is_collaborator db.collaborators image.id target.id)) 404
  ok (record db {
    collaborators = where_is (λ c. not (collab_row image.id target.id c)) db.collaborators;
  })

-- `update_visibility` of routers/users.py
pub update_visibility_by_slug : Text → Text → Visibility → User → Db → Reply Db
unfolding get_image_as_owner_or_admin
update_visibility_by_slug owner slug v u db = do
  require_username_set u
  image ← get_image_as_owner_or_admin owner slug u db
  ok (record db { images = map (set_image image.id (λ i. record i { visibility = v })) db.images })
