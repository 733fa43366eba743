-- ===== src/Address/Mac.antt =====
-- `ip_to_mac` on the addresses of a pool.
use hack_bento.Base.{
  ℕ, ◌+◌, ◌/◌, ◌%◌, ◌^◌, ◌<◌, ◌≡◌, refl, sym, ◌∙◌, true, [], ◌∷◌, ◌++◌, Option, some, arith, Text,
  if◌then◌else◌, ltb, text_eq, text_eq_sound, codes,
}
use hack_bento.Numeral.{format_02x}
use hack_bento.Address.{colon, ip_str, mac_text, ip_to_mac}
use hack_bento.Address.Roundtrip.{
  all_below, all_below_sound, octet_facts, split_on-octets, byte_lt, last_lt,
}

hex_char : ℕ → ℕ
hex_char d = if ltb d 10 then 48 + d else 87 + d

hex_table :
    all_below 256 (λ x. text_eq (format_02x x) (hex_char (x / 16) ∷ hex_char (x % 16) ∷ [])) ≡ true
unfolding all_below format_02x hex_char
hex_table = refl

format_02x-byte : (x : ℕ) → x < 256 → format_02x x ≡ hex_char (x / 16) ∷ hex_char (x % 16) ∷ []
format_02x-byte x h = text_eq_sound _ _ (all_below_sound 256 _ x h hex_table)

-- A byte is determined by its two digits.
hex_char-injective :
    (x y : ℕ)
    → x < 256
    → y < 256
    → hex_char (x / 16) ≡ hex_char (y / 16)
    → hex_char (x % 16) ≡ hex_char (y % 16)
    → x ≡ y
unfolding hex_char
hex_char-injective x y hx hy p q = ground arith

-- The text of a MAC address by its digits.
abbrev mac_digits : ℕ → ℕ → ℕ → ℕ → Text
mac_digits a b c d =
    codes "06:00:"
    ++ (hex_char (a / 16)
        ∷ hex_char (a % 16)
        ∷ colon
        ∷ hex_char (b / 16)
        ∷ hex_char (b % 16)
        ∷ colon
        ∷ hex_char (c / 16)
        ∷ hex_char (c % 16)
        ∷ colon
        ∷ hex_char (d / 16)
        ∷ hex_char (d % 16)
        ∷ [])

ip_to_mac-ip_str :
    (i : ℕ)
    → ip_to_mac (ip_str i)
      ≡ some (mac_digits (i / 2 ^ 24 % 256) (i / 2 ^ 16 % 256) (i / 2 ^ 8 % 256) (i % 256))
unfolding ip_to_mac ip_str mac_text
ip_to_mac-ip_str i = simp (
  split_on-octets _ _ _ _ (byte_lt i 24) (byte_lt i 16) (byte_lt i 8) (last_lt i),
  (octet_facts _ (byte_lt i 24)).1,
  (octet_facts _ (byte_lt i 16)).1,
  (octet_facts _ (byte_lt i 8)).1,
  (octet_facts _ (last_lt i)).1,
  format_02x-byte _ (byte_lt i 24),
  format_02x-byte _ (byte_lt i 16),
  format_02x-byte _ (byte_lt i 8),
  format_02x-byte _ (last_lt i),
)

mac_digits-injective :
    (a b c d a' b' c' d' : ℕ)
    → (a < 256) × (b < 256) × (c < 256) × (d < 256)
    → (a' < 256) × (b' < 256) × (c' < 256) × (d' < 256)
    → ◌≡◌ {A = Option Text} (some (mac_digits a b c d)) (some (mac_digits a' b' c' d'))
    → (a ≡ a') × (b ≡ b') × (c ≡ c') × (d ≡ d')
mac_digits-injective a b c d a' b' c' d' h k e = (
  hex_char-injective a a' h.0 k.0 (cc) (cc),
  hex_char-injective b b' h.1 k.1 (cc) (cc),
  hex_char-injective c c' h.2 k.2 (cc) (cc),
  hex_char-injective d d' h.3 k.3 (cc) (cc),
)

-- Two IPv4 addresses with one MAC address are one address.
pub ip_to_mac-injective :
    (i j : ℕ) → i < 2 ^ 32 → j < 2 ^ 32 → ip_to_mac (ip_str i) ≡ ip_to_mac (ip_str j) → i ≡ j
ip_to_mac-injective i j hi hj e =
    let same =
      mac_digits-injective _ _ _ _ _ _ _ _ (byte_lt i 24, byte_lt i 16, byte_lt i 8, last_lt i)
        (byte_lt j 24, byte_lt j 16, byte_lt j 8, last_lt j)
        (sym (ip_to_mac-ip_str i) ∙ e ∙ ip_to_mac-ip_str j) in
    omega (arith, same.0, same.1, same.2, same.3)
