-- ===== src/Http/Runs.antt =====
-- Runs of the frames and their parser.
use appium_ios_remotexpc.Prelude.{◌≡◌, refl, ◌≢◌, List, [], ◌∷◌, ◌++◌, arith, take, drop}
use appium_ios_remotexpc.Prelude.Result.{ok, stuck}
use appium_ios_remotexpc.Prelude.Bytes.{Bytes}
use appium_ios_remotexpc.Http.Frames.{
  Frame, end_stream, padded, data_body, settings_body, serialize, serialize_body,
  serialize_settings, serialize_padding_data, pack, pack_values, has, same_flag,
}
use appium_ios_remotexpc.Http.Parser.{append}
use appium_ios_remotexpc.Http.ReadBack.{IsSent}
use appium_ios_remotexpc.Http.Stream.{
  append_all, append_all-serialize, parsed_frames, append-ne-stuck,
}

-- Settings, and three bytes of data on stream 1 with two of padding.
abbrev settings : Frame
settings = record { stream_id = 0; flags = []; body = settings_body ((3, 100) ∷ []) }

abbrev padded_data : Frame
padded_data = record {
  stream_id = 1;
  flags = end_stream ∷ padded ∷ [];
  body = data_body (7 ∷ 8 ∷ 9 ∷ []) 2;
}

abbrev settings_bytes : Bytes
settings_bytes = 0 ∷ 0 ∷ 6 ∷ 4 ∷ 0 ∷ 0 ∷ 0 ∷ 0 ∷ 0 ∷ 0 ∷ 3 ∷ 0 ∷ 0 ∷ 0 ∷ 100 ∷ []

abbrev data_bytes : Bytes
data_bytes = 0 ∷ 0 ∷ 6 ∷ 0 ∷ 9 ∷ 0 ∷ 0 ∷ 0 ∷ 1 ∷ 2 ∷ 7 ∷ 8 ∷ 9 ∷ 0 ∷ 0 ∷ []

settings-IsSent : IsSent settings settings_bytes
unfolding serialize serialize_body serialize_settings pack pack_values has
settings-IsSent = record { serialized = refl; countable = omega arith }

padded_data-IsSent : IsSent padded_data data_bytes
unfolding serialize serialize_body serialize_padding_data pack pack_values has same_flag
padded_data-IsSent = record { serialized = refl; countable = omega arith }

abbrev sent : List (Frame × Bytes)
sent = (settings, settings_bytes) ∷ (padded_data, data_bytes) ∷ []

append_all-serialize_example :
    append_all
      (take 20 (settings_bytes ++ data_bytes) ∷ drop 20 (settings_bytes ++ data_bytes) ∷ [])
    ≡ ok (parsed_frames sent, [])
append_all-serialize_example =
    append_all-serialize sent (take 20 (settings_bytes ++ data_bytes))
      (drop 20 (settings_bytes ++ data_bytes) ∷ []) (settings-IsSent, (padded_data-IsSent, tt)) refl

append-ne-stuck_example : append (take 4 data_bytes) (drop 4 data_bytes) ≢ stuck
append-ne-stuck_example = append-ne-stuck (take 4 data_bytes) (drop 4 data_bytes)
