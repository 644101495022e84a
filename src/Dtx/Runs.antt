-- ===== src/Dtx/Runs.antt =====
-- Runs of the DTX headers and of the fragmenter.
use appium_ios_remotexpc.Prelude.Int.{negsuc}
use appium_ios_remotexpc.Prelude.{◌≡◌, [], ◌∷◌, ◌++◌, if◌then◌else◌}
use appium_ios_remotexpc.Prelude.Result.{ok, err, ◌>>=◌}
use appium_ios_remotexpc.Dtx.Header.{
  MessageHeader, build_message_header, parse_message_header, header_fits, out_of_range,
  parse_message_header-build,
}
use appium_ios_remotexpc.Dtx.Fragmenter.{
  Fragmenter, add_all, fragments, complete_with, add_all-fragments,
}

-- The second of three fragments of an answer on channel -1.
abbrev answer : MessageHeader
answer = record {
  magic = 0x1f3d5b79;
  cb = 32;
  fragment_id = 1;
  fragment_count = 3;
  size = 1000;
  identifier = 7;
  conversation_index = 1;
  channel_code = negsuc 0;
  expects_reply = 0;
}

parse_message_header-build_example :
    (build_message_header answer >>= λ b. parse_message_header (b ++ (9 ∷ [])))
    ≡ (if header_fits answer then ok answer else err out_of_range)
parse_message_header-build_example = parse_message_header-build answer (9 ∷ [])

abbrev half_full : Fragmenter
half_full = record { messages = (1 ∷ []) ∷ []; packet_data = 4 ∷ []; stream_packet_data = [] }

add_all-fragments_example :
    add_all half_full (fragments answer 0 2 ((5 ∷ []) ∷ (6 ∷ 7 ∷ []) ∷ []))
    ≡ record half_full { messages = (1 ∷ []) ∷ (5 ∷ 6 ∷ 7 ∷ []) ∷ [] }
unfolding complete_with
add_all-fragments_example = add_all-fragments half_full answer (5 ∷ []) ((6 ∷ 7 ∷ []) ∷ [])
