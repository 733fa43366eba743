-- ===== src/Bundle/Compose.antt =====
-- `_validate_compose` of orchestrator/services/bundle_build.py: the rules for the configuration that
-- the build VM has normalised. The JSON is read here, `none` where it cannot be.
pub mod Laws
use hack_bento.Base.{
  ◌≡◌, refl, arith, ap, sym, ◌∙◌, ℕ, Bool, true, false, not, ◌&&◌, ◌||◌, List, [], ◌∷◌, ◌++◌,
  Option, none, some, Text, codes, text_eq, text_eq_sound, truthy, contains, lacks, split_on,
  if◌then◌else◌, ltb, length, any, map, All, Bool-cases, Option-cases, inl, inr, ◌==◌,
}
use hack_bento.Builder.{last_of}

pub record NetworkConfig : Type 0 where
  pub name : Text
  pub driver : Option Text
  pub external : Bool

-- The two fixed addresses that a service can ask for in a network.
pub record ServiceNetwork : Type 0 where
  pub ipv4_address : Option Text
  pub ipv6_address : Option Text

-- A port is `str(p["published"])`, where there is one.
pub record ServiceConfig : Type 0 where
  pub name : Text
  pub networks : List ServiceNetwork
  pub image : Option Text
  pub ports : List (Option Text)

pub record ComposeConfig : Type 0 where
  pub project : Option Text
  pub networks : List NetworkConfig
  pub services : List ServiceConfig

pub data ComposeError : Type 0 where
  unreadable : ComposeError
  forbidden_driver external_network fixed_ip no_image not_loaded : Text → ComposeError

pub record ServiceSummary : Type 0 where
  pub name : Text
  pub image : Option Text
  pub ports : List Text

pub record ComposeSummary : Type 0 where
  pub project : Option Text
  pub services : List ServiceSummary
  pub published_ports : List Text

pub data ComposeAnswer : Type 0 where
  refused : ComposeError → ComposeAnswer
  accepted : ComposeSummary → ComposeAnswer

abbrev pub is_text : Text → Option Text → Bool
is_text t none = false
is_text t (some s) = text_eq s t

unfoldable pub network_error : NetworkConfig → Option ComposeError
network_error n =
    if is_text (codes "macvlan") n.driver || is_text (codes "ipvlan") n.driver
    then some (ComposeError.forbidden_driver n.name)
    else if n.external
    then some (ComposeError.external_network n.name)
    else none

abbrev pub has_fixed_ip : ServiceNetwork → Bool
has_fixed_ip n = truthy n.ipv4_address || truthy n.ipv6_address

-- An image without a tag or a digest is compared as `:latest`.
unfoldable pub image_for_check : Text → Text
image_for_check image =
    if not (lacks b'@' image) || not (lacks b':' (last_of (split_on b'/' image)))
    then image
    else image ++ codes ":latest"

abbrev pub is_nonempty : List Text → Bool
is_nonempty [] = false
is_nonempty (t ∷ ts) = true

unfoldable pub image_error : List Text → Text → Option Text → Option ComposeError
unfolding image_for_check
image_error loaded name none = some (ComposeError.no_image name)
image_error loaded name (some []) = some (ComposeError.no_image name)
image_error loaded name (some (c ∷ image)) =
    if is_nonempty loaded && not (contains loaded (image_for_check (c ∷ image)))
    then some (ComposeError.not_loaded name)
    else none

unfoldable pub service_error : List Text → ServiceConfig → Option ComposeError
unfolding image_error
service_error loaded s =
    if any has_fixed_ip s.networks
    then some (ComposeError.fixed_ip s.name)
    else image_error loaded s.name s.image

abbrev pub or_later : Option ComposeError → Option ComposeError → Option ComposeError
or_later none later = later
or_later (some e) later = some e

-- The loops return at the first error.
abbrev pub first_error {ℓ} : {A : Type ℓ} → (A → Option ComposeError) → List A → Option ComposeError
first_error error [] = none
first_error error (a ∷ rest) = or_later (error a) (first_error error rest)

abbrev pub published : List (Option Text) → List Text
published [] = []
published (none ∷ ports) = published ports
published (some [] ∷ ports) = published ports
published (some (c ∷ p) ∷ ports) = (c ∷ p) ∷ published ports

abbrev pub summary_of : ServiceConfig → ServiceSummary
summary_of s = record { name = s.name; image = s.image; ports = published s.ports }

-- `<` on texts, by code points
abbrev pub text_before : Text → Text → Bool
text_before s [] = false
text_before [] (d ∷ t) = true
text_before (c ∷ s) (d ∷ t) = ltb c d || ((c == d) && text_before s t)

-- The key `(len(x), x)`
abbrev pub port_before : Text → Text → Bool
port_before s t = ltb (length s) (length t) || ((length s == length t) && text_before s t)

unfoldable pub insert_port : Text → List Text → List Text
insert_port p [] = p ∷ []
insert_port p (q ∷ ports) =
    let rest = insert_port p ports in
    if text_eq q p then q ∷ ports else if port_before p q then p ∷ q ∷ ports else q ∷ rest

-- `sorted(set(ports), key=…)`
abbrev pub sorted_ports : List Text → List Text
sorted_ports [] = []
sorted_ports (p ∷ ports) = insert_port p (sorted_ports ports)

abbrev pub all_ports : List ServiceConfig → List Text
all_ports [] = []
all_ports (s ∷ services) = published s.ports ++ all_ports services

abbrev pub answer_of : ComposeConfig → Option ComposeError → ComposeAnswer
answer_of data_ (some e) = ComposeAnswer.refused e
answer_of data_ none = ComposeAnswer.accepted (record {
  project = data_.project;
  services = map summary_of data_.services;
  published_ports = sorted_ports (all_ports data_.services);
})

-- `_validate_compose`; `loaded`: the names in the list of images, without blanks around them.
unfoldable pub validate_compose : List Text → Option ComposeConfig → ComposeAnswer
unfolding network_error service_error
validate_compose loaded none = ComposeAnswer.refused ComposeError.unreadable
validate_compose loaded (some data_) = answer_of data_ (
    or_later (first_error network_error data_.networks)
      (first_error (service_error loaded) data_.services))
