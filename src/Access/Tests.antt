-- ===== src/Access/Tests.antt =====
-- Collaborators of the sample project, and the theorems on access for them.
use hack_bento.Base.{
  ℕ, ◌≡◌, refl, ◌↔◌, true, false, ◌||◌, ◌&&◌, [], ◌∷◌, some, codes, ok, http, ◌==◌,
}
use hack_bento.Model.{User, Image, ImageCollaborator, CollaboratorRole, Visibility, Db}
use hack_bento.Samples.{alice, bob, root, empty_db}
use hack_bento.Access.{
  owned_by, is_collaborator, is_writer, authorise_edit, can_edit, user_named,
  get_image_as_owner_or_admin, add_collaborator, remove_collaborator, update_visibility,
}
use hack_bento.Access.Laws.{
  can_edit-iff-authorise_edit, add_collaborator-ok, remove_collaborator-add_collaborator,
}

abbrev bob_row : ImageCollaborator
bob_row = record { image_id = 5; user_id = 2; role = CollaboratorRole.read_write }

abbrev shared_db : Db
shared_db = record empty_db { collaborators = bob_row ∷ [] }

added :
    add_collaborator (codes "alice") (codes "lab") (codes "bob") (codes "read_write") alice empty_db
    ≡ ok shared_db
unfolding add_collaborator
added = refl

removed :
    remove_collaborator (codes "alice") (codes "lab") (codes "bob") alice shared_db ≡ ok empty_db
unfolding remove_collaborator
removed = refl

-- A second row, the owner and a role that is not known are refused, each with its own code.
add_twice :
    add_collaborator (codes "alice") (codes "lab") (codes "bob") (codes "read") alice shared_db
    ≡ http 409
unfolding add_collaborator
add_twice = refl

add_owner :
    add_collaborator (codes "alice") (codes "lab") (codes "alice") (codes "read") root empty_db
    ≡ http 400
unfolding add_collaborator
add_owner = refl

add_role :
    add_collaborator (codes "alice") (codes "lab") (codes "bob") (codes "owner") alice empty_db
    ≡ http 422
unfolding add_collaborator
add_role = refl

bob_edits : can_edit 5 bob shared_db ≡ true
unfolding can_edit is_writer
bob_edits = refl

bob_only_edits : update_visibility 5 Visibility.public bob shared_db ≡ http 403
unfolding update_visibility
bob_only_edits = refl

can_edit-iff-authorise_edit_example :
    ((can_edit 5 bob shared_db ≡ true) × (bob.needs_username_setup ≡ false))
    ↔ ((image : Image) × (authorise_edit 5 bob shared_db ≡ ok image))
can_edit-iff-authorise_edit_example = can_edit-iff-authorise_edit 5 bob shared_db

add_collaborator-ok_example :
    (image : Image) × (target : User) × (get_image_as_owner_or_admin
        (codes "alice")
        (codes "lab")
        alice
        empty_db
      ≡ ok image)
    × (user_named (codes "bob") empty_db ≡ some target)
    × (owned_by image.owner_id target.id ≡ false)
    × (is_collaborator [] image.id target.id ≡ false)
    × ((i v : ℕ)
        → is_collaborator (bob_row ∷ []) i v
          ≡ (is_collaborator [] i v || (image.id == i && target.id == v)))
add_collaborator-ok_example =
    add_collaborator-ok (codes "alice") (codes "lab") (codes "bob") (codes "read_write") alice
      empty_db shared_db added

remove_collaborator-add_collaborator_example :
    remove_collaborator (codes "alice") (codes "lab") (codes "bob") alice shared_db ≡ ok empty_db
remove_collaborator-add_collaborator_example =
    remove_collaborator-add_collaborator (codes "alice") (codes "lab") (codes "bob")
      (codes "read_write") alice empty_db shared_db added
