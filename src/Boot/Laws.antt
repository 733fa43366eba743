-- ===== src/Boot/Laws.antt =====
-- `_sanitize_extra_boot_args` of Boot, by the words of its result.
use hack_bento.Base.{
  ℕ, ◌≡◌, refl, sym, ap, ◌∙◌, Bool, true, false, not, List, [], ◌∷◌, ◌++◌, some, Text, where_is,
  all, All, arith, Bool-cases, inl, inr,
}
use hack_bento.Boot.{
  blank, is_space, in_word, attach, split_words, join_words, is_managed, sanitize_extra_boot_args,
}

-- One character or more, and no white space.
abbrev pub is_word : Text → Bool
is_word [] = false
is_word (c ∷ s) = all (λ d. not (is_space d)) (c ∷ s)

abbrev pub AreWords : List Text → Type 0
AreWords ws = All (λ w. is_word w ≡ true) ws

attach-AreWords :
    (c : ℕ) (ws : List Text) → is_space c ≡ false → AreWords ws → AreWords (attach c ws)
attach-AreWords c [] h a = (rw h refl, tt)
attach-AreWords c ([] ∷ ws) h a = cc
attach-AreWords c ((d ∷ w) ∷ ws) h a = (rw h a.0, a.1)

split_words-AreWords : (s : Text) → AreWords (split_words s)
unfolding split_words
split_words-AreWords [] = tt
split_words-AreWords (c ∷ s) = elim (Bool-cases (is_space c)) [
  | inl space ↦ rw space (split_words-AreWords s)
  | inr letter ↦ rw letter (elim (Bool-cases (in_word s)) [
    | inl inside ↦ rw inside (attach-AreWords c (split_words s) letter (split_words-AreWords s))
    | inr last ↦ rw last (rw letter refl, split_words-AreWords s)
  ])
]

-- A word with a blank after it is cut off there.
pub split_words-cut :
    (w t : Text) → is_word w ≡ true → split_words (w ++ (blank ∷ t)) ≡ w ∷ split_words t
unfolding split_words is_space
split_words-cut [] t h = cc
split_words-cut (c ∷ []) t h = ground arith
split_words-cut (c ∷ d ∷ w) t h = ground (arith, split_words-cut (d ∷ w) t)

split_words-word : (w : Text) → is_word w ≡ true → split_words w ≡ w ∷ []
unfolding split_words is_space
split_words-word [] h = cc
split_words-word (c ∷ []) h = ground arith
split_words-word (c ∷ d ∷ w) h = ground (arith, split_words-word (d ∷ w))

pub split_words-join_words : (ws : List Text) → AreWords ws → split_words (join_words ws) ≡ ws
unfolding join_words
split_words-join_words [] a = unfold split_words in refl
split_words-join_words (w ∷ []) a = split_words-word w a.0
split_words-join_words (w ∷ v ∷ ws) a =
    split_words-cut w (join_words (v ∷ ws)) a.0
    ∙ ap (λ l. w ∷ l) (split_words-join_words (v ∷ ws) a.1)

where_is-AreWords : (p : Text → Bool) (ws : List Text) → AreWords ws → AreWords (where_is p ws)
where_is-AreWords p [] a = tt
where_is-AreWords p (w ∷ ws) a = elim (Bool-cases (p w)) [
  | inl kept ↦ rw kept (a.0, where_is-AreWords p ws a.1)
  | inr dropped ↦ rw dropped (where_is-AreWords p ws a.1)
]

-- The arguments that are left, split at white space, are exactly the project's arguments that
-- HackBento does not manage, in their order.
pub split_words-sanitize_extra_boot_args :
    (extra : Text)
    → split_words (sanitize_extra_boot_args (some extra))
      ≡ where_is (λ tok. not (is_managed tok)) (split_words extra)
unfolding sanitize_extra_boot_args
split_words-sanitize_extra_boot_args extra =
    split_words-join_words (where_is (λ tok. not (is_managed tok)) (split_words extra)) (
      where_is-AreWords (λ tok. not (is_managed tok)) (split_words extra)
        (split_words-AreWords extra))

where_is-twice : (p : Text → Bool) (ws : List Text) → where_is p (where_is p ws) ≡ where_is p ws
where_is-twice p [] = refl
where_is-twice p (w ∷ ws) = ground (arith, where_is-twice p ws)

-- Sanitising the arguments of a project twice leaves what sanitising them once leaves.
pub sanitize_extra_boot_args-twice :
    (extra : Text)
    → sanitize_extra_boot_args (some (sanitize_extra_boot_args (some extra)))
      ≡ sanitize_extra_boot_args (some extra)
sanitize_extra_boot_args-twice extra =
    rejoined (sanitize_extra_boot_args (some extra))
    ∙ ap (λ ws. join_words (where_is (λ tok. not (is_managed tok)) ws))
        (split_words-sanitize_extra_boot_args extra)
    ∙ ap join_words (where_is-twice (λ tok. not (is_managed tok)) (split_words extra))
    ∙ sym (rejoined extra)
  where
    rejoined :
        (s : Text)
        → sanitize_extra_boot_args (some s)
          ≡ join_words (where_is (λ tok. not (is_managed tok)) (split_words s))
    rejoined s = unfold sanitize_extra_boot_args in refl
