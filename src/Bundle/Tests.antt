-- ===== src/Bundle/Tests.antt =====
-- `_validate_bundle_tar` on concrete archives.
use hack_bento.Base.{
  contains, ◌≡◌, refl, true, false, List, [], ◌∷◌, none, some, Text, codes, split_on, any, map, All,
}
use hack_bento.Extract.{normpath, join_path}
use hack_bento.Bundle.{
  MemberKind, Manifest, Member, Upload, BundleInfo, validate_bundle_tar, with_names,
}
use hack_bento.Options.{rstrip_space, lstrip_space}
use hack_bento.Boot.{is_space}
use hack_bento.Bundle.Compose.{
  ServiceConfig, ComposeConfig, ComposeSummary, ComposeAnswer, image_for_check, summary_of,
  published, insert_port, validate_compose,
}
use hack_bento.Bundle.Compose.Laws.{IsLocal, IsAllowed, validate_compose-accepted}
use hack_bento.Bundle.Safe.{IsAccepted, validate_bundle_tar-IsAccepted}

abbrev entry : Text → Manifest → Member
entry name content = record {
  name = name;
  kind = MemberKind.file;
  linkname = [];
  size = 1000;
  content = content;
}

abbrev archive : List Member → Upload
archive members = record { exists = true; size = 4000; is_tar = true; members = members }

abbrev plain : List Member
plain =
    entry (codes "hackbento-bundle.json") (Manifest.read 1 (codes " shop "))
    ∷ entry (codes "images.tar") Manifest.broken
    ∷ entry (codes "app/compose.yml") Manifest.broken
    ∷ []

abbrev shop : BundleInfo
shop = record { project_name = codes "shop"; has_overlay = false }

accepted : validate_bundle_tar (archive plain) ≡ some shop
unfolding validate_bundle_tar split_on with_names normpath join_path rstrip_space lstrip_space
    is_space
accepted = refl

validate_bundle_tar-IsAccepted_example : IsAccepted (archive plain)
validate_bundle_tar-IsAccepted_example =
    validate_bundle_tar-IsAccepted (archive plain) shop accepted

abbrev init : List Member
init = entry (codes "./overlay//sbin/init") Manifest.broken ∷ plain

init_refused : validate_bundle_tar (archive init) ≡ none
unfolding validate_bundle_tar split_on with_names normpath join_path rstrip_space lstrip_space
    is_space
init_refused = refl

climbing : List Member
climbing = entry (codes "app/../../etc/passwd") Manifest.broken ∷ plain

climbing_refused : validate_bundle_tar (archive climbing) ≡ none
unfolding validate_bundle_tar split_on climbing with_names normpath join_path rstrip_space
    lstrip_space is_space
climbing_refused = refl

-- A link to a protected directory, and the protected path by way of the link.
abbrev around : List Member
around =
    record (entry (codes "overlay/bin") Manifest.broken) {
      kind = MemberKind.symlink;
      linkname = codes "sbin";
    }
    ∷ entry (codes "overlay/bin/init") Manifest.broken
    ∷ plain

around_accepted : validate_bundle_tar (archive around) ≡ some (record shop { has_overlay = true })
unfolding validate_bundle_tar split_on with_names normpath join_path rstrip_space lstrip_space
    is_space
around_accepted = refl

-- As `tar -C dir -c .` names the entries: the format of the manifest is not looked at.
abbrev dotted : List Member
dotted =
    entry (codes "./hackbento-bundle.json") (Manifest.read 7 (codes "shop"))
    ∷ entry (codes "./images.tar") Manifest.broken
    ∷ entry (codes "./app/compose.yml") Manifest.broken
    ∷ []

dotted_accepted :
    validate_bundle_tar (archive dotted) ≡ some (record shop { project_name = codes "app" })
unfolding validate_bundle_tar split_on with_names normpath join_path rstrip_space lstrip_space
    is_space
dotted_accepted = refl

abbrev web : ServiceConfig
web = record {
  name = codes "web";
  networks = record { ipv4_address = none; ipv6_address = none } ∷ [];
  image = some (codes "web");
  ports = some (codes "8080") ∷ none ∷ some (codes "80") ∷ [];
}

abbrev compose : ComposeConfig
compose = record {
  project = some (codes "shop");
  networks =
      record { name = codes "default"; driver = some (codes "bridge"); external = false } ∷ [];
  services = web ∷ record web { name = codes "admin" } ∷ [];
}

abbrev loaded : List Text
loaded = codes "web:latest" ∷ []

abbrev summary : ComposeSummary
summary = record {
  project = some (codes "shop");
  services = summary_of web ∷ summary_of (record web { name = codes "admin" }) ∷ [];
  published_ports = codes "80" ∷ codes "8080" ∷ [];
}

accepted_shop : validate_compose loaded (some compose) ≡ ComposeAnswer.accepted summary
unfolding validate_compose split_on insert_port
accepted_shop = refl

-- A registry with a port, and no tag.
registry : image_for_check (codes "hub:5000/web") ≡ codes "hub:5000/web:latest"
unfolding image_for_check split_on
registry = refl

validate_compose-accepted_example :
    All IsLocal compose.networks
    × All (IsAllowed loaded) compose.services
    × (summary.services ≡ map summary_of compose.services)
    × ((p : Text)
        → contains summary.published_ports p
          ≡ any (λ (v : ServiceConfig). contains (published v.ports) p) compose.services)
validate_compose-accepted_example = validate_compose-accepted loaded compose summary accepted_shop
