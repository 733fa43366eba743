-- ===== src/Address/Roundtrip.antt =====
-- `ip_int` of Address on what `ip_str` prints.
use hack_bento.Base.{
  ℕ, zero, suc, ◌+◌, ◌*◌, ◌/◌, ◌%◌, ◌^◌, ◌<◌, ◌≡◌, refl, ap, Bool, true, false, ◌&&◌, [], ◌∷◌,
  Option, none, some, arith, ◌==◌, &&-eq-true, lacks, split_on, split_on-lacks, split_on-append,
}
use hack_bento.Numeral.{str, int_of}
use hack_bento.Address.{dot, octets, ip_str, parse_octet, join_octets, ip_int}

unfoldable pub all_below : ℕ → (ℕ → Bool) → Bool
all_below zero holds = true
all_below (suc last) holds = all_below last holds && holds last

pub all_below_sound :
    (bound : ℕ) (holds : ℕ → Bool) (x : ℕ)
    → x < bound
    → all_below bound holds ≡ true
    → holds x ≡ true
unfolding all_below
all_below_sound zero holds x inside table = absurd (omega arith)
all_below_sound (suc last) holds x inside table = ground (arith, all_below_sound last holds x)

abbrev pub holds : Option ℕ → ℕ → Bool
holds none x = false
holds (some y) x = y == x

pub holds_sound : (o : Option ℕ) (x : ℕ) → holds o x ≡ true → o ≡ some x
holds_sound none x h = ground arith
holds_sound (some y) x h = ground arith

-- Every octet, checked by evaluation.
octet_table :
    all_below 256
      (λ x. holds (parse_octet (str x)) x && (holds (int_of (str x)) x && lacks dot (str x)))
    ≡ true
unfolding all_below parse_octet str int_of
octet_table = refl

pub octet_facts :
    (x : ℕ)
    → x < 256
    → (parse_octet (str x) ≡ some x) × (int_of (str x) ≡ some x) × (lacks dot (str x) ≡ true)
octet_facts x h =
    let p =
      &&-eq-true (holds (parse_octet (str x)) x) (holds (int_of (str x)) x && lacks dot (str x))
        (all_below_sound 256 _ x h octet_table) in
    let q = &&-eq-true (holds (int_of (str x)) x) (lacks dot (str x)) p.1 in
    (holds_sound _ x p.0, holds_sound _ x q.0, q.1)

-- The four octets come apart at the dots.
pub split_on-octets :
    (a b c d : ℕ)
    → a < 256
    → b < 256
    → c < 256
    → d < 256
    → split_on dot (octets a b c d) ≡ str a ∷ str b ∷ str c ∷ str d ∷ []
unfolding octets
split_on-octets a b c d ha hb hc hd = simp (
  split_on-append dot (str a) _ (octet_facts a ha).2,
  split_on-append dot (str b) _ (octet_facts b hb).2,
  split_on-append dot (str c) _ (octet_facts c hc).2,
  split_on-lacks dot (str d) (octet_facts d hd).2,
)

pub byte_lt : (i k : ℕ) → i / 2 ^ k % 256 < 256
byte_lt i k = omega arith

pub last_lt : (i : ℕ) → i % 256 < 256
last_lt i = omega arith

-- An address that is printed and read again is the same address.
pub ip_int-ip_str : (i : ℕ) → i < 2 ^ 32 → ip_int (ip_str i) ≡ some i
unfolding ip_int ip_str join_octets
ip_int-ip_str i h =
    simp
      (
        split_on-octets _ _ _ _ (byte_lt i 24) (byte_lt i 16) (byte_lt i 8) (last_lt i),
        (octet_facts _ (byte_lt i 24)).0,
        (octet_facts _ (byte_lt i 16)).0,
        (octet_facts _ (byte_lt i 8)).0,
        (octet_facts _ (last_lt i)).0,
      )
      (ap some whole)
  where
    whole :
        i / 2 ^ 24 % 256 * 2 ^ 24 + i / 2 ^ 16 % 256 * 2 ^ 16 + i / 2 ^ 8 % 256 * 2 ^ 8 + i % 256
        ≡ i
    whole = omega arith
