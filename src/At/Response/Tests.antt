-- ===== src/At/Response/Tests.antt =====
-- The theorem on `AtResponse` of common/src/at/response.rs at a concrete reply.
use yaroc.Prelude.{◌==◌, ◌≡◌, ◌↔◌, none, some, [], ◌∷◌}
use yaroc.Prelude.Text.{codes, slice, text_eq}
use yaroc.Prelude.Result.{ok}
use yaroc.Prelude.Numbers.{parse_unsigned, parse_text}
use yaroc.At.Types.{CommandResponse, FromModem, AtResponse}
use yaroc.At.Values.Tests.{clock_answer, clock_command, clock_values, clock_picked}
use yaroc.At.Response.{
  response, response_loop, selects, passes, pick_response_values, parse_value, parse1,
}
use yaroc.At.Response.Selection.{IsFirst, response_iff}

abbrev registered : CommandResponse
registered = record { line = codes "+CGACT: 1,1"; prefix = record { start = 1; end = 6 } }

abbrev reply : AtResponse
reply = record {
  lines = FromModem.command_response registered ∷ FromModem.ok ∷ [];
  command = codes "+CGACT";
}

response_iff_example :
    (response (parse_unsigned 10 256) ◌==◌ reply (some (1, 0)) ≡ ok registered)
    ↔ IsFirst
        (parse_unsigned 10 256)
        ◌==◌
        (codes "+CGACT")
        (some (1, 0))
        (FromModem.command_response registered ∷ FromModem.ok ∷ [])
        registered
response_iff_example = response_iff (parse_unsigned 10 256) ◌==◌ reply (some (1, 0)) registered

abbrev pub clock_reply : AtResponse
clock_reply = record {
  lines = FromModem.command_response clock_answer ∷ FromModem.ok ∷ [];
  command = codes "+QLTS";
}

pub clock_parsed :
    parse1 (parse_text 25) text_eq clock_reply 0 none ≡ ok (codes "2024/11/25,22:12:11+04,0")
unfolding parse1 pick_response_values response response_loop selects passes parse_value slice
    text_eq
clock_parsed = rw (clock_command, clock_values, clock_picked)
