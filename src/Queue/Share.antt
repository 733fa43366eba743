-- ===== src/Queue/Share.antt =====
-- The queries of the three workers of Queue, side by side.
use hack_bento.Base.{
  ◌≡◌, refl, Bool, false, not, ◌&&◌, ◌||◌, List, [], ◌∷◌, Option, none, some, text_eq, codes,
  find_first, is_some, All, arith, Bool-cases, inl, inr,
}
use hack_bento.Queue.{
  Target, asset, image, ConversionRow, Tables, rows_of, is_pending, can_convert, can_build_base,
  can_build_bundle, marked, claim, with_target, first_of, claim_pending, claim_docker_base,
  claim_bundle,
}

-- A row of the assets that waits and that a worker is there for: one that is to be built from a
-- container needs the name of that container.
abbrev pub waits : ConversionRow → Bool
waits r =
    is_pending r.status && (not (text_eq r.kind (codes "docker-base")) || is_some r.base_image)

-- Each waiting row is for one worker: of the two that look at a table, exactly one selects it, and
-- neither selects any other row.
pub can_build-share :
    (r : ConversionRow)
    → ((can_convert asset r && can_build_base r) ≡ false)
      × ((can_convert asset r || can_build_base r) ≡ waits r)
      × ((can_convert image r && can_build_bundle r) ≡ false)
      × ((can_convert image r || can_build_bundle r) ≡ is_pending r.status)
unfolding can_convert can_build_base can_build_bundle
can_build-share r = (ground arith, ground arith, ground arith, ground arith)

nothing_found :
    (p : ConversionRow → Bool) (rows : List ConversionRow)
    → find_first p rows ≡ none
    → All (λ r. p r ≡ false) rows
nothing_found p [] h = tt
nothing_found p (r ∷ rows) h = elim (Bool-cases (p r)) [
  | inl e ↦ cc (rw e at h)
  | inr e ↦ (e, nothing_found p rows (rw e at h))
]

marked-none :
    (t : Target) (f : ConversionRow → ConversionRow) (q : Tables) (o : Option ConversionRow)
    → marked t f q o ≡ none
    → o ≡ none
unfolding marked
marked-none t f q none h = refl
marked-none t f q (some r) h = cc

claim-none :
    (t : Target) (p : ConversionRow → Bool) (f : ConversionRow → ConversionRow) (q : Tables)
    → claim t p f q ≡ none
    → All (λ r. p r ≡ false) (rows_of t q)
unfolding claim
claim-none t p f q h = nothing_found p (rows_of t q) (marked-none t f q _ h)

first_of-none :
    (a b : Option (ConversionRow × Tables))
    → first_of (with_target asset a) (with_target image b) ≡ none
    → (a ≡ none) × (b ≡ none)
unfolding first_of with_target
first_of-none none none h = (refl, refl)
first_of-none none (some (r, q)) h = cc
first_of-none (some (r, q)) b h = cc

together :
    (p r s : ConversionRow → Bool) (rows : List ConversionRow)
    → ((x : ConversionRow) → (p x || r x) ≡ s x)
    → All (λ x. p x ≡ false) rows
    → All (λ x. r x ≡ false) rows
    → All (λ x. s x ≡ false) rows
together p r s [] h a b = tt
together p r s (x ∷ rows) h a b = (ground (arith, h x, a.0, b.0), together p r s rows h a.1 b.1)

-- No waiting row is overlooked: when none of the three workers claims a row, no project waits, and
-- no asset that a worker is there for.
pub claim_pending-none :
    (q : Tables)
    → claim_pending q ≡ none
    → claim_docker_base q ≡ none
    → claim_bundle q ≡ none
    → All (λ r. waits r ≡ false) q.assets × All (λ r. is_pending r.status ≡ false) q.images
unfolding claim_pending claim_docker_base claim_bundle
claim_pending-none q h k l =
    let (no_asset, no_image) = first_of-none _ _ h in
    (
      together (can_convert asset) can_build_base waits q.assets (λ r. (can_build-share r).1)
          (claim-none asset (can_convert asset) _ q no_asset)
          (claim-none asset can_build_base _ q k),
      together (can_convert image) can_build_bundle (λ r. is_pending r.status) q.images
          (λ r. (can_build-share r).3) (claim-none image (can_convert image) _ q no_image)
          (claim-none image can_build_bundle _ q l),
    )
