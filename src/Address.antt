-- ===== src/Address.antt =====
-- IPv4 addresses as orchestrator/services/network.py uses them: `ipaddress.IPv4Address` both ways,
-- and the MAC address that `ip_to_mac` (and its copy `smolvm._ip_to_mac`) derives.
pub mod Roundtrip
pub mod Mac
pub mod Tests
use hack_bento.Base.{
  ℕ, ◌+◌, ◌*◌, ◌/◌, ◌%◌, ◌^◌, Bool, true, false, not, ◌&&◌, ◌||◌, List, [], ◌∷◌, ◌++◌, Option, none,
  some, Text, codes, if◌then◌else◌, ltb, leb, ◌==◌, length, split_on,
}
use hack_bento.Numeral.{str, format_02x, int_of}

abbrev pub dot : ℕ
dot = b'.'

abbrev pub colon : ℕ
colon = b':'

unfoldable pub octets : ℕ → ℕ → ℕ → ℕ → Text
octets a b c d = str a ++ (dot ∷ (str b ++ (dot ∷ (str c ++ (dot ∷ str d)))))

-- `str(ipaddress.IPv4Address(i))`
unfoldable pub ip_str : ℕ → Text
unfolding octets
ip_str i = octets (i / 2 ^ 24 % 256) (i / 2 ^ 16 % 256) (i / 2 ^ 8 % 256) (i % 256)

-- An octet of `ipaddress.IPv4Address`: one to three digits, no leading zero, at most 255.
unfoldable pub parse_octet : Text → Option ℕ
parse_octet s = elim (int_of s) [
  | none ↦ none
  | some n ↦ if leb (length s) 3 && ltb n 256 && not (leading_zero s) then some n else none
]
  where
    leading_zero : Text → Bool
    leading_zero (c ∷ d ∷ s) = c == 48
    leading_zero _ = false

join_octets : Option ℕ → Option ℕ → Option ℕ → Option ℕ → Option ℕ
join_octets (some a) (some b) (some c) (some d) = some (a * 2 ^ 24 + b * 2 ^ 16 + c * 2 ^ 8 + d)
join_octets _ _ _ _ = none

parse_parts : List Text → Option ℕ
unfolding join_octets parse_octet
parse_parts (a ∷ b ∷ c ∷ d ∷ []) =
    join_octets (parse_octet a) (parse_octet b) (parse_octet c) (parse_octet d)
parse_parts _ = none

-- `int(ipaddress.IPv4Address(s))`; `none` is `AddressValueError`.
unfoldable pub ip_int : Text → Option ℕ
unfolding parse_parts
ip_int s = parse_parts (split_on dot s)

mac_text : Option ℕ → Option ℕ → Option ℕ → Option ℕ → Option Text
mac_text (some a) (some b) (some c) (some d) = some (
    codes "06:00:"
    ++ (format_02x a
        ++ (colon ∷ (format_02x b ++ (colon ∷ (format_02x c ++ (colon ∷ format_02x d)))))))
mac_text _ _ _ _ = none

mac_of_parts : List Text → Option Text
unfolding mac_text
mac_of_parts (a ∷ b ∷ c ∷ d ∷ rest) = mac_text (int_of a) (int_of b) (int_of c) (int_of d)
mac_of_parts _ = none

-- `ip_to_mac`; `none` is the exception of `int` or of `format`, on a text that is no address.
unfoldable pub ip_to_mac : Text → Option Text
unfolding mac_of_parts
ip_to_mac ip = mac_of_parts (split_on dot ip)
