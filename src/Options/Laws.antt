-- ===== src/Options/Laws.antt =====
-- The list of timeouts that `parse_timeout_options` of Options makes.
use hack_bento.Base.{
  ℕ, ◌<◌, ◌≡◌, refl, ap, ◌∙◌, Bool, true, false, ◌||◌, List, [], ◌∷◌, Option, none, some, Text,
  if◌then◌else◌, ltb, ◌==◌, any, is_some, split_on, arith, Bool-cases, inl, inr, ltb→lt,
}
use hack_bento.Options.{
  minutes_of, insert_option, add_option, collected, default_options, or_options,
  parse_timeout_options,
}

abbrev pub has_option : ℕ → List ℕ → Bool
has_option n options = any (λ m. m == n) options

-- The first option is larger than `low`, and each one than the one before it.
abbrev Above : ℕ → List ℕ → Type 0
Above low [] = Unit
Above low (n ∷ options) = (low < n) × Above n options

-- Strictly increasing.
abbrev pub Increasing : List ℕ → Type 0
Increasing [] = Unit
Increasing (n ∷ options) = Above n options

insert_option-Above :
    (low n : ℕ) (options : List ℕ)
    → low < n
    → Above low options
    → Above low (insert_option n options)
unfolding insert_option
insert_option-Above low n [] h a = (h, tt)
insert_option-Above low n (m ∷ options) h a = elim (Bool-cases (ltb n m)) [
  | inl below ↦ rw below (h, (ltb→lt n m below, a.1))
  | inr over ↦ rw over (elim (Bool-cases (n == m)) [
    | inl same ↦ rw same a
    | inr other ↦ rw other (a.0, insert_option-Above m n options (ground arith) a.1)
  ])
]

insert_option-Increasing :
    (n : ℕ) (options : List ℕ) → Increasing options → Increasing (insert_option n options)
unfolding insert_option
insert_option-Increasing n [] a = tt
insert_option-Increasing n (m ∷ options) a = elim (Bool-cases (ltb n m)) [
  | inl below ↦ rw below (ltb→lt n m below, a)
  | inr over ↦ rw over (elim (Bool-cases (n == m)) [
    | inl same ↦ rw same a
    | inr other ↦ rw other (insert_option-Above m n options (ground arith) a)
  ])
]

has_option-insert_option :
    (k n : ℕ) (options : List ℕ)
    → has_option k (insert_option n options) ≡ (n == k || has_option k options)
unfolding insert_option
has_option-insert_option k n [] = ground arith
has_option-insert_option k n (m ∷ options) = ground (arith, has_option-insert_option k n options)

add_option-Increasing :
    (o : Option ℕ) (options : List ℕ) → Increasing options → Increasing (add_option o options)
add_option-Increasing none options a = a
add_option-Increasing (some n) options a = insert_option-Increasing n options a

collected-Increasing : (items : List Text) → Increasing (collected items)
unfolding collected
collected-Increasing [] = tt
collected-Increasing (item ∷ items) =
    add_option-Increasing (minutes_of item) (collected items) (collected-Increasing items)

-- The item is a number of minutes, namely `n`.
abbrev means : ℕ → Option ℕ → Bool
means n none = false
means n (some m) = m == n

abbrev pub gives : ℕ → Text → Bool
gives n item = means n (minutes_of item)

has_option-add_option :
    (k : ℕ) (o : Option ℕ) (options : List ℕ)
    → has_option k (add_option o options) ≡ (means k o || has_option k options)
has_option-add_option k none options = ground arith
has_option-add_option k (some n) options = has_option-insert_option k n options

has_option-collected :
    (k : ℕ) (items : List Text) → has_option k (collected items) ≡ any (gives k) items
unfolding collected
has_option-collected k [] = refl
has_option-collected k (item ∷ items) =
    has_option-add_option k (minutes_of item) (collected items)
    ∙ ap (λ b. means k (minutes_of item) || b) (has_option-collected k items)

nonempty-insert_option :
    (n : ℕ) (options : List ℕ) → or_options (insert_option n options) ≡ insert_option n options
unfolding insert_option
nonempty-insert_option n [] = refl
nonempty-insert_option n (m ∷ options) = ground arith

-- No item at all gives the defaults, and otherwise the list is what the items give.
or_options-collected :
    (items : List Text)
    → or_options (collected items)
      ≡ (if any (λ i. is_some (minutes_of i)) items then collected items else default_options)
unfolding collected
or_options-collected [] = refl
or_options-collected (item ∷ items) = by_item (minutes_of item) (or_options-collected items)
  where
    by_item :
        (o : Option ℕ)
        → or_options (collected items)
          ≡ (if any (λ i. is_some (minutes_of i)) items then collected items else default_options)
        → or_options (add_option o (collected items)) ≡ (
            if is_some o || any (λ i. is_some (minutes_of i)) items
            then add_option o (collected items)
            else default_options)
    by_item none h = h
    by_item (some n) h = nonempty-insert_option n (collected items)

-- The list of timeouts is strictly increasing. It holds exactly the numbers that the parts of the
-- setting between the commas give, those that are no number or negative left out, or the defaults
-- if no part gives one.
pub parse_timeout_options-Increasing :
    (v : Text)
    → Increasing (parse_timeout_options v)
      × ((n : ℕ)
          → has_option n (parse_timeout_options v) ≡ (
              if any (λ i. is_some (minutes_of i)) (split_on b',' v)
              then any (gives n) (split_on b',' v)
              else has_option n default_options))
unfolding parse_timeout_options
parse_timeout_options-Increasing v = (
  rw (or_options-collected (split_on b',' v))
      (increasing (any (λ i. is_some (minutes_of i)) (split_on b',' v))),
  λ n.
      rw (or_options-collected (split_on b',' v))
        (options n (any (λ i. is_some (minutes_of i)) (split_on b',' v))),
)
  where
    increasing :
        (b : Bool) → Increasing (if b then collected (split_on b',' v) else default_options)
    increasing true = collected-Increasing (split_on b',' v)
    increasing false = (
      omega arith,
      (omega arith, (omega arith, (omega arith, (omega arith, (omega arith, (omega arith, tt)))))),
    )

    options :
        (n : ℕ) (b : Bool)
        → has_option n (if b then collected (split_on b',' v) else default_options)
          ≡ (if b then any (gives n) (split_on b',' v) else has_option n default_options)
    options n true = has_option-collected n (split_on b',' v)
    options n false = refl
