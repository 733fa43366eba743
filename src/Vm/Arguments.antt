-- ===== src/Vm/Arguments.antt =====
-- orchestrator/services/smolvm.py: the words of the kernel arguments that a VM is started with.
use hack_bento.Base.{
  Bool, not, List, [], ◌∷◌, ◌++◌, Option, none, some, Text, codes, starts_with, where_is, all, any,
}
use hack_bento.Boot.{is_space, split_words, is_managed}
use hack_bento.Vm.{VmSpec}

abbrev pub unspaced : Text → Bool
unspaced s = all (λ d. not (is_space d)) s

-- The argument of the network.
abbrev pub ip_word : VmSpec → Text
ip_word spec =
    codes "ip="
    ++ (spec.ip
        ++ (codes "::"
            ++ (spec.fc_guest_gateway
                ++ (codes ":" ++ (spec.guest_netmask ++ codes "::eth0:off")))))

-- The arguments that HackBento sets.
abbrev pub own_words : VmSpec → List Text
own_words spec =
    codes "console=ttyS0"
    ∷ codes "reboot=k"
    ∷ codes "panic=1"
    ∷ codes "pci=off"
    ∷ ip_word spec
    ∷ codes "rw"
    ∷ []

-- What a project may not set, and what it may.
abbrev pub own_prefixes : List Text
own_prefixes =
    codes "ip="
    ∷ codes "init="
    ∷ codes "console="
    ∷ codes "root="
    ∷ codes "reboot="
    ∷ codes "panic="
    ∷ codes "rw"
    ∷ codes "ro"
    ∷ []

abbrev pub begins : Text → Text → Bool
begins p w = starts_with w p

abbrev pub is_free : Text → Bool
is_free w = not (any (starts_with w) own_prefixes)

abbrev pub extra_words : Option Text → List Text
extra_words none = []
extra_words (some extra) = split_words extra

abbrev kept_words : Option Text → List Text
kept_words extra = where_is (λ tok. not (is_managed tok)) (extra_words extra)
