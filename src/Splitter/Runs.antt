-- ===== src/Splitter/Runs.antt =====
-- Runs of the splitter, and its theorems at these inputs.
use appium_ios_remotexpc.Prelude.{◌≡◌, refl, ◌≢◌, false, List, [], ◌∷◌, arith}
use appium_ios_remotexpc.Prelude.Result.{ok, stuck}
use appium_ios_remotexpc.Prelude.Bytes.{Bytes}
use appium_ios_remotexpc.Splitter.Process.{
  default_options, next_action, process_loop, process_binary_data, read_length, read_uint, adjust,
  other_order, plausible_length, take_action, feed, transform,
}
use appium_ios_remotexpc.Splitter.Rounds.{process_binary_data-ne-stuck}
use appium_ios_remotexpc.Splitter.Chunks.{feed-eq-process}
use appium_ios_remotexpc.Splitter.Frames.{IsPlain, frames, feed-frames}

abbrev stream : Bytes
stream = 0 ∷ 0 ∷ 0 ∷ 2 ∷ 7 ∷ 8 ∷ 0 ∷ 0 ∷ 0 ∷ 1 ∷ 9 ∷ []

-- Cut inside the first length field and inside the second payload.
abbrev pieces : List Bytes
pieces = (0 ∷ 0 ∷ 2 ∷ 7 ∷ 8 ∷ 0 ∷ 0 ∷ 0 ∷ []) ∷ (1 ∷ 9 ∷ []) ∷ []

feed-pieces :
    feed default_options [] ((0 ∷ []) ∷ pieces)
    ≡ ok ((0 ∷ 0 ∷ 0 ∷ 2 ∷ 7 ∷ 8 ∷ []) ∷ (0 ∷ 0 ∷ 0 ∷ 1 ∷ 9 ∷ []) ∷ [], [])
unfolding feed transform process_binary_data process_loop next_action take_action plausible_length
    other_order adjust read_length read_uint
feed-pieces = refl

-- A length above the limit in both byte orders costs one byte.
skip_garbage :
    process_binary_data default_options (0xff ∷ 0xff ∷ 0xff ∷ 0xff ∷ [])
    ≡ ok ([], 0xff ∷ 0xff ∷ 0xff ∷ [])
unfolding process_binary_data process_loop next_action take_action plausible_length other_order
    adjust read_length read_uint
skip_garbage = refl

default_options-IsPlain : IsPlain default_options
default_options-IsPlain = record {
  at_start = refl;
  four = refl;
  unadjusted = refl;
  bounded = omega arith;
}

process_binary_data-ne-stuck_example : process_binary_data default_options stream ≢ stuck
process_binary_data-ne-stuck_example = process_binary_data-ne-stuck default_options stream

feed-eq-process_example :
    feed default_options [] ((0 ∷ []) ∷ pieces) ≡ process_binary_data default_options stream
feed-eq-process_example = feed-eq-process default_options [] (0 ∷ []) pieces

feed-frames_example :
    feed default_options [] ((0 ∷ []) ∷ pieces)
    ≡ ok (frames false ((7 ∷ 8 ∷ []) ∷ (9 ∷ []) ∷ []), [])
feed-frames_example =
    feed-frames default_options ((7 ∷ 8 ∷ []) ∷ (9 ∷ []) ∷ []) (0 ∷ []) pieces
      default_options-IsPlain (omega arith) refl
