-- ===== src/Builder/Orphans.antt =====
-- docker/docker-base-builder/server.py: what the next start of the service removes.
use hack_bento.Base.{
  ◌≡◌, refl, arith, ap, ◌∙◌, Bool, true, false, not, ◌&&◌, List, [], ◌∷◌, ◌++◌, Text, codes,
  text_eq, text_eq_sound, contains, starts_with, if◌then◌else◌, Bool-cases, inl, inr, where_is,
}
use hack_bento.Builder.{
  Builder, export_container, build_container, is_orphan, cleanup_orphan_containers,
}

starts_with-append : (s t : Text) → starts_with (s ++ t) s ≡ true
starts_with-append [] [] = refl
starts_with-append [] (c ∷ t) = refl
starts_with-append (c ∷ s) t = ground (arith, starts_with-append s t)

swept_same :
    (goes : Text → Bool) (m n : Text) (names : List Text)
    → text_eq m n ≡ true
    → contains (where_is (λ x. not (goes x)) names) n ≡ (if goes n then false else contains names n)
    → contains (where_is (λ x. not (goes x)) (m ∷ names)) n
      ≡ (if goes n then false else contains (m ∷ names) n)
swept_same goes m n names same rest =
    let heads : goes m ≡ goes n = ap goes (text_eq_sound m n same) in
    elim (Bool-cases (goes n)) [
      | inl e ↦ rw e (rw (heads ∙ e) (rw e at rest))
      | inr e ↦ rw e (rw (heads ∙ e) (rw same refl))
    ]

contains-swept :
    (goes : Text → Bool) (names : List Text) (n : Text)
    → contains (where_is (λ m. not (goes m)) names) n ≡ (if goes n then false else contains names n)
contains-swept goes [] n = ground arith
contains-swept goes (m ∷ names) n = elim (Bool-cases (text_eq m n)) [
  | inl same ↦ swept_same goes m n names same (contains-swept goes names n)
  | inr other ↦ elim (Bool-cases (goes m)) [
    | inl e ↦ rw e (rw other (contains-swept goes names n))
    | inr e ↦ rw e (rw other (contains-swept goes names n))
  ]
]

if_true : (b : Bool) → b ≡ true → (x : Bool) → (if b then false else x) ≡ false
if_true b h x = ground arith

if_false : (b : Bool) → b ≡ false → (x : Bool) → (if b then false else x) ≡ x
if_false b h x = ground arith

module _ (removes : Text → Bool) (b : Builder) where
  -- The next start of the service, where Docker lists the containers: a container of a job, which
  -- a task has left because the service was stopped or `docker rm` failed, is gone if it can be
  -- removed now, and a container whose name begins with neither prefix stays.
  pub cleanup_orphan_containers-ends :
      (id other : Text)
      → removes (export_container id) ≡ true
      → removes (build_container id) ≡ true
      → is_orphan other ≡ false
      → let after : List Text = (cleanup_orphan_containers true removes b).containers in
        (contains after (export_container id) ≡ false)
        × (contains after (build_container id) ≡ false)
        × (contains after other ≡ contains b.containers other)
  unfolding cleanup_orphan_containers is_orphan export_container build_container
  cleanup_orphan_containers-ends id other export build kept =
      let goes : Text → Bool = λ (n : Text). is_orphan n && removes n in
      let by_export = starts_with-append (codes "hackbento-export-build-") id in
      let by_build = starts_with-append (codes "hackbento-docker-base-build-") id in
      (
        contains-swept goes b.containers (export_container id)
            ∙ if_true (goes (export_container id)) (ground (arith, by_export))
                (contains b.containers (export_container id)),
        contains-swept goes b.containers (build_container id)
            ∙ if_true (goes (build_container id)) (ground (arith, by_build))
                (contains b.containers (build_container id)),
        contains-swept goes b.containers other
            ∙ if_false (goes other) (ground arith) (contains b.containers other),
      )
