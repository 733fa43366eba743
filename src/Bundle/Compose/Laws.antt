-- ===== src/Bundle/Compose/Laws.antt =====
-- What `_validate_compose` of orchestrator/services/bundle_build.py accepts.
use hack_bento.Base.{
  ◌≡◌, refl, arith, ap, sym, ◌∙◌, Bool, false, not, ◌&&◌, ◌||◌, List, [], ◌∷◌, ◌++◌, Option, none,
  some, Text, codes, text_eq, text_eq_sound, contains, any, map, All, Bool-cases, Option-cases, inl,
  inr,
}
use hack_bento.Bundle.Compose.{
  NetworkConfig, ServiceConfig, ComposeConfig, ComposeError, ComposeSummary, ComposeAnswer, is_text,
  network_error, has_fixed_ip, image_for_check, is_nonempty, image_error, service_error, or_later,
  first_error, published, summary_of, port_before, insert_port, sorted_ports, all_ports, answer_of,
  validate_compose,
}

first_error-none {ℓ} :
    {A : Type ℓ} (error : A → Option ComposeError) (xs : List A)
    → first_error error xs ≡ none
    → All (λ (a : A). error a ≡ none) xs
first_error-none error [] h = tt
first_error-none error (a ∷ xs) h = elim (Option-cases (error a)) [
  | inl e ↦ (e, first_error-none error xs (rw e at h))
  | inr e ↦ absurd (clash (rw (e.1) at h))
]
  where
    clash : {e : ComposeError} → some e ≡ none → ⊥
    clash bad = cc

contains-insert_port :
    (p : Text) (ports : List Text) (q : Text)
    → contains (insert_port p ports) q ≡ (text_eq p q || contains ports q)
unfolding insert_port
contains-insert_port p [] q = refl
contains-insert_port p (r ∷ ports) q = elim (Bool-cases (text_eq r p)) [
  | inl same ↦
      let heads : text_eq r q ≡ text_eq p q =
        ap (λ (t : Text). text_eq t q) (text_eq_sound r p same) in
      rw same (ground (arith, heads))
  | inr other ↦ elim (Bool-cases (port_before p r)) [
    | inl e ↦ rw other (rw e (ground arith))
    | inr e ↦ rw other (rw e (ground (arith, contains-insert_port p ports q)))
  ]
]

contains-sorted_ports :
    (ports : List Text) (q : Text) → contains (sorted_ports ports) q ≡ contains ports q
contains-sorted_ports [] q = refl
contains-sorted_ports (p ∷ ports) q =
    contains-insert_port p (sorted_ports ports) q
    ∙ ap (λ (b : Bool). text_eq p q || b) (contains-sorted_ports ports q)

contains-append :
    (xs bs : List Text) (q : Text) → contains (xs ++ bs) q ≡ (contains xs q || contains bs q)
contains-append [] bs q = refl
contains-append (a ∷ xs) bs q = ground (arith, contains-append xs bs q)

contains-all_ports :
    (services : List ServiceConfig) (q : Text)
    → contains (all_ports services) q
      ≡ any (λ (s : ServiceConfig). contains (published s.ports) q) services
contains-all_ports [] q = refl
contains-all_ports (s ∷ services) q =
    contains-append (published s.ports) (all_ports services) q
    ∙ ap (λ (b : Bool). contains (published s.ports) q || b) (contains-all_ports services q)

pub record IsAllowed (loaded : List Text) (s : ServiceConfig) : Type 0 where
  pub no_fixed_ip : any has_fixed_ip s.networks ≡ false
  pub image :
      (i : Text) × (s.image ≡ some i)
      × ((is_nonempty loaded && not (contains loaded (image_for_check i))) ≡ false)

module _ (loaded : List Text) where
  image_error-none :
      (name : Text) (image : Option Text)
      → image_error loaded name image ≡ none
      → (i : Text) × (image ≡ some i)
        × ((is_nonempty loaded && not (contains loaded (image_for_check i))) ≡ false)
  unfolding image_error
  image_error-none name none h = cc
  image_error-none name (some []) h = cc
  image_error-none name (some (c ∷ i)) h =
      elim (Bool-cases (is_nonempty loaded && not (contains loaded (image_for_check (c ∷ i))))) [
        | inl e ↦ absurd (clash (rw e at h))
        | inr e ↦ (c ∷ i, refl, e)
      ]
    where
      clash : {e : ComposeError} → some e ≡ none → ⊥
      clash bad = cc

  service_error-none : (s : ServiceConfig) → service_error loaded s ≡ none → IsAllowed loaded s
  unfolding service_error
  service_error-none s h = elim (Bool-cases (any has_fixed_ip s.networks)) [
    | inl e ↦ absurd (clash (rw e at h))
    | inr e ↦ record { no_fixed_ip = e; image = image_error-none s.name s.image (rw e at h) }
  ]
    where
      clash : {e : ComposeError} → some e ≡ none → ⊥
      clash bad = cc

  All-map :
      (xs : List ServiceConfig)
      → All (λ (s : ServiceConfig). service_error loaded s ≡ none) xs
      → All (IsAllowed loaded) xs
  All-map [] h = tt
  All-map (s ∷ xs) h = (service_error-none s h.0, All-map xs h.1)

abbrev pub IsLocal : NetworkConfig → Type 0
IsLocal n =
    (is_text (codes "macvlan") n.driver ≡ false)
    × (is_text (codes "ipvlan") n.driver ≡ false)
    × (n.external ≡ false)

network_error-none : (n : NetworkConfig) → network_error n ≡ none → IsLocal n
unfolding network_error
network_error-none n h = ground arith

All-IsLocal :
    (xs : List NetworkConfig)
    → All (λ (n : NetworkConfig). network_error n ≡ none) xs
    → All IsLocal xs
All-IsLocal [] h = tt
All-IsLocal (n ∷ xs) h = (network_error-none n h.0, All-IsLocal xs h.1)

or_later-none : (a b : Option ComposeError) → or_later a b ≡ none → (a ≡ none) × (b ≡ none)
or_later-none none b h = (refl, h)
or_later-none (some e) b h = cc

answer_of-accepted :
    (c : ComposeConfig) (o : Option ComposeError) (s : ComposeSummary)
    → answer_of c o ≡ ComposeAnswer.accepted s
    → (o ≡ none) × (answer_of c none ≡ ComposeAnswer.accepted s)
answer_of-accepted c none s h = (refl, h)
answer_of-accepted c (some e) s h = cc

accepted-injective :
    {s t : ComposeSummary} → ComposeAnswer.accepted s ≡ ComposeAnswer.accepted t → s ≡ t
accepted-injective h = cc

-- A configuration that is accepted has no network of the drivers macvlan and ipvlan and no external
-- one; no service asks for a fixed address, and each has an image that, with `:latest` where it has
-- no tag and no digest, is among the loaded ones, if there are any. The summary has the services in
-- their order, and its published ports are exactly those of the services.
pub validate_compose-accepted :
    (loaded : List Text) (c : ComposeConfig) (s : ComposeSummary)
    → validate_compose loaded (some c) ≡ ComposeAnswer.accepted s
    → All IsLocal c.networks
      × All (IsAllowed loaded) c.services
      × (s.services ≡ map summary_of c.services)
      × ((p : Text)
          → contains s.published_ports p
            ≡ any (λ (v : ServiceConfig). contains (published v.ports) p) c.services)
unfolding validate_compose
validate_compose-accepted loaded c s h =
    let whole = answer_of-accepted c _ s h in
    let parts =
      or_later-none (first_error network_error c.networks)
        (first_error (service_error loaded) c.services) whole.0 in
    let same = accepted-injective whole.1 in
    (
      All-IsLocal c.networks (first_error-none network_error c.networks parts.0),
      All-map loaded c.services (first_error-none (service_error loaded) c.services parts.1),
      ap (λ (t : ComposeSummary). t.services) (sym same),
      λ p.
          ap (λ (t : ComposeSummary). contains t.published_ports p) (sym same)
          ∙ contains-sorted_ports (all_ports c.services) p
          ∙ contains-all_ports c.services p,
    )
