-- ===== src/Address/Tests.antt =====
-- Printed addresses and their MAC addresses.
use hack_bento.Base.{ℕ, ◌≡◌, refl, some, none, codes, split_on, arith}
use hack_bento.Numeral.{int_of, format_02x}
use hack_bento.Address.{ip_int, ip_to_mac}
use hack_bento.Address.Mac.{ip_to_mac-injective}

sample_mac : ip_to_mac (codes "192.168.181.200") ≡ some (codes "06:00:c0:a8:b5:c8")
unfolding ip_to_mac split_on int_of format_02x
sample_mac = refl

leading_zero : ip_int (codes "10.0.0.01") ≡ none
unfolding ip_int split_on int_of
leading_zero = refl

abbrev sample : ℕ
sample = 3232281032

ip_to_mac-injective_example : sample ≡ sample
ip_to_mac-injective_example = ip_to_mac-injective sample sample (omega arith) (omega arith) refl
