-- ===== src/Cli/LogLevel/Tests.antt =====
-- Log levels at concrete inputs, after the unit tests of src/cli.rs.
use oxiduct.Base.{◌≡◌, ◌↔◌, refl, Bool, true, false, List, [], ◌∷◌, Option, none, some, ite, All}
use oxiduct.Text.{Text, codes, Text-discrete}
use oxiduct.Cli.LogLevel.{
  contains_char, accepted, unknown_level, parse_log_level, IsKnown, parse_log_level_iff,
}

-- Two of the levels, and a filter that takes every text but one.
abbrev is_level : Text → Bool
is_level s =
    ite (Text-discrete s (codes "info")) true (ite (Text-discrete s (codes "warn")) true false)

abbrev try_new : Text → Option Text
try_new s = ite (Text-discrete s (codes "a=loud")) (some (codes "invalid filter")) none

parses :
    (parse_log_level is_level try_new (codes "info,a=warn,") ≡ accepted (codes "info,a=warn,"))
    × (parse_log_level is_level try_new (codes "warn,verbose") ≡ unknown_level (codes "verbose"))
    × (parse_log_level is_level try_new [] ≡ accepted [])
unfolding parse_log_level Text-discrete
parses = (refl, refl, refl)

abbrev directives : List Text
directives = codes "info" ∷ codes "a=warn" ∷ []

parse_log_level_iff_example :
    (parse_log_level is_level try_new (codes "info,a=warn") ≡ accepted (codes "info,a=warn"))
    ↔ (All (IsKnown is_level try_new) directives × (try_new (codes "info,a=warn") ≡ none))
unfolding contains_char
parse_log_level_iff_example =
    parse_log_level_iff is_level try_new directives (λ e. cc) (refl, (refl, tt))
