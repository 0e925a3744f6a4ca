-- ===== src/Tests/Views.antt =====
-- The composed texts and the picture of a fingerprint, at concrete inputs.
use shyake.Base.{◌≡◌, refl, Bytes, ◌++◌, some, codes, replicate, arith}
use shyake.Config.{trim_left, trim_right}
use shyake.Compose.Scissors.{scissors, with_scissors, after_scissors}
use shyake.Compose.Scissors.Cutting.{after-with_scissors}
use shyake.Compose.Template.{compose_template, parse_compose_buffer}
use shyake.Compose.Template.Reading.{IsValue, parse-compose_template}
use shyake.Display.Randomart.{walked}
use shyake.Display.Randomart.Walking.{IsInGrid, walked-IsInGrid}

abbrev quoted_mail : Bytes
quoted_mail = codes "one\n" ++ (scissors ++ codes "\ntwo")

abbrev reply : Bytes
reply = codes "yes\n"

after-with_scissors_example : after_scissors (with_scissors reply quoted_mail) ≡ some reply
after-with_scissors_example = after-with_scissors reply quoted_mail

bob-IsValue : IsValue (codes "bob")
unfolding trim_left trim_right
bob-IsValue = record { one_line = omega arith; left = refl; right = refl }

hi-IsValue : IsValue (codes "hi")
unfolding trim_left trim_right
hi-IsValue = record { one_line = omega arith; left = refl; right = refl }

parse-compose_template_example :
    parse_compose_buffer (compose_template (codes "bob") (codes "hi") (codes "---\n"))
    ≡ some (record { to = some (codes "bob"); subject = some (codes "hi"); body = codes "---\n" })
parse-compose_template_example =
    parse-compose_template (codes "bob") (codes "hi") (codes "---\n") bob-IsValue hi-IsValue

walked-IsInGrid_example : IsInGrid 128 (walked (replicate 32 228))
walked-IsInGrid_example = walked-IsInGrid (replicate 32 228) refl
