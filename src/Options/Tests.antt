-- ===== src/Options/Tests.antt =====
-- Settings with blanks, signs and errors in them.
use hack_bento.Base.{ℕ, ◌≡◌, refl, [], ◌∷◌, codes, split_on, any, is_some, if◌then◌else◌}
use hack_bento.Numeral.{int_of}
use hack_bento.Boot.{is_space}
use hack_bento.Options.{
  default_options, minutes_of, parse_timeout_options, parse_attack_machine_timeout,
}
use hack_bento.Options.Laws.{Increasing, has_option, gives, parse_timeout_options-Increasing}

sorted_options : parse_timeout_options (codes "90, 0,x,+15,-5,9_0,1__0") ≡ 0 ∷ 15 ∷ 90 ∷ []
unfolding parse_timeout_options split_on is_space int_of
sorted_options = refl

no_options : parse_timeout_options (codes "x,-1") ≡ default_options
unfolding parse_timeout_options split_on is_space int_of
no_options = refl

negative_timeout : parse_attack_machine_timeout (codes "-3") ≡ 60
unfolding parse_attack_machine_timeout is_space int_of
negative_timeout = refl

parse_timeout_options-Increasing_example :
    Increasing (parse_timeout_options (codes "90,0"))
    × ((n : ℕ)
        → has_option n (parse_timeout_options (codes "90,0")) ≡ (
            if any (λ i. is_some (minutes_of i)) (split_on b',' (codes "90,0"))
            then any (gives n) (split_on b',' (codes "90,0"))
            else has_option n default_options))
parse_timeout_options-Increasing_example = parse_timeout_options-Increasing (codes "90,0")
