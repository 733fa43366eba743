-- ===== src/Boot/Tests.antt =====
-- Arguments that are kept and dropped.
use hack_bento.Base.{◌≡◌, refl, some, codes}
use hack_bento.Boot.{is_space, sanitize_extra_boot_args}

kept :
    sanitize_extra_boot_args (some (codes " nokaslr  ip=1 nosmep init=/x")) ≡ codes "nokaslr nosmep"
unfolding sanitize_extra_boot_args is_space
kept = refl

-- `rodata=off` only begins like `ro`.
dropped : sanitize_extra_boot_args (some (codes "rodata=off kpti=0")) ≡ codes "kpti=0"
unfolding sanitize_extra_boot_args is_space
dropped = refl
