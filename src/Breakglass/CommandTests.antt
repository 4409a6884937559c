-- ===== src/Breakglass/CommandTests.antt =====
-- Runs of internal/core/breakglass/command.go on small inputs, and the theorem at one.
use reeve.Prelude.{◌≡◌, refl, true, [], ◌∷◌}
use reeve.Breakglass.Command.{
  Command, accepted, refused, unsupported_verb, empty_justification, trailing_input, replace_crlf,
  cut_token, cut_any, fields_from, parse_command,
}
use reeve.Breakglass.Written.{written, parse_command-written}

abbrev urgent : Command
urgent = record { justification = "prod is down"; force = true }

from_a_phone :
    parse_command "/reeve breakglass “prod is down” apply force\r\nthanks" ≡ accepted urgent
unfolding parse_command replace_crlf cut_token cut_any fields_from
from_a_phone = refl

other_verb :
    parse_command "/reeve breakglass \"prod is down\" plan" ≡ refused (unsupported_verb "plan")
unfolding parse_command replace_crlf cut_token cut_any fields_from
other_verb = refl

said_nothing : parse_command "/reeve  breakglass \"  \" apply" ≡ refused empty_justification
unfolding parse_command replace_crlf cut_token cut_any fields_from
said_nothing = refl

said_more :
    parse_command "/reeve breakglass \"x\" apply now please"
    ≡ refused (trailing_input ("now" ∷ "please" ∷ []))
unfolding parse_command replace_crlf cut_token cut_any fields_from
said_more = refl

parse_command-written_example : parse_command (written urgent) ≡ accepted urgent
parse_command-written_example = parse_command-written urgent refl refl refl refl
