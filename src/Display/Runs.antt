-- ===== src/Display/Runs.antt =====
-- Runs of the media streams, and their theorems at these inputs.
use appium_ios_remotexpc.Prelude.{◌*◌}
use appium_ios_remotexpc.Prelude.Bytes.{byte_at}
use appium_ios_remotexpc.Prelude.Result.{ok}
use appium_ios_remotexpc.Display.HevcConfig.{
  strip_emulation, hevc_rbsp, SpsFields, sps_fields, config_array, config_constants,
  build_hevc_decoder_configuration_record,
}
use appium_ios_remotexpc.Display.Rbsp.{no_zero, prevent, hevc_rbsp-prevent}
use appium_ios_remotexpc.Display.CodecFields.{sps_fields-record}
use appium_ios_remotexpc.Prelude.{
  ℕ, ◌+◌, ◌≡◌, refl, inr, Bool, true, false, Option, none, some, List, [], ◌∷◌, ◌++◌, arith, length,
}
use appium_ios_remotexpc.Prelude.Bytes.{Bytes, read_be}
use appium_ios_remotexpc.Display.Rtp.{
  RtpPacket, parse_rtp_packet, Extension, extension, lay_out, IsRtp, is_next_sequence,
  parse_rtp_packet-lay_out,
}
use appium_ios_remotexpc.Display.Closing.{TakeTurns, answered, and_shut, closed_answers}
use appium_ios_remotexpc.Display.Receiver.{
  opened, Event, message, request, shut, step, run, IsValid, delivered, received, run_keeps,
  opened-IsValid, head_or_end,
}
use appium_ios_remotexpc.Display.Rtcp.{
  StreamIdentity, started, observe_all, build_receiver_report, build_receiver_report_fields,
  observe_all_exact,
}
use appium_ios_remotexpc.Display.Absorb.{usable, any_key}
use appium_ios_remotexpc.Display.Hevc
use appium_ios_remotexpc.Display.Hevc.{Depacketizer, idle, strip_trailer, reset}
use appium_ios_remotexpc.Display.HevcLaws.{
  aggregate, fragment, later_fragments, push-aggregate, push_all_fragments,
}
use appium_ios_remotexpc.Display.Assembler
use appium_ios_remotexpc.Display.Assembler.{new_assembler}
use appium_ios_remotexpc.Display.Pictures.{
  contiguous, payloads, unit_of, picture_intact, picture_broken,
}

abbrev packet : ℕ → Bool → Bytes → RtpPacket
packet sequence marker payload = record {
  payload_type = 100;
  marker = marker;
  sequence = sequence;
  timestamp = 9000;
  ssrc = 0xdead_beef;
  payload = payload;
}

abbrev with_extension : Extension
with_extension = extension 0xbede 1 (1 ∷ 2 ∷ 3 ∷ 4 ∷ [])

packet-IsRtp : IsRtp (packet 7 true (5 ∷ 6 ∷ []))
packet-IsRtp = record {
  type_range = omega arith;
  no_rtcp = inr (omega arith);
  sequence_range = omega arith;
  timestamp_range = omega arith;
  ssrc_range = omega arith;
}

parse_rtp_packet-lay_out_example :
    parse_rtp_packet (lay_out (packet 7 true (5 ∷ 6 ∷ [])) 1 (0 ∷ 0 ∷ 0 ∷ 9 ∷ []) with_extension)
    ≡ some (packet 7 true (5 ∷ 6 ∷ []))
parse_rtp_packet-lay_out_example =
    parse_rtp_packet-lay_out (packet 7 true (5 ∷ 6 ∷ [])) 1 (0 ∷ 0 ∷ 0 ∷ 9 ∷ []) with_extension
      packet-IsRtp (omega arith) refl (omega arith)

parse_short : parse_rtp_packet (0x80 ∷ 100 ∷ []) ≡ none
unfolding parse_rtp_packet
parse_short = refl

abbrev events : List Event
events =
    message (1 ∷ [])
    ∷ request 1
    ∷ request 1
    ∷ message (2 ∷ [])
    ∷ message (3 ∷ [])
    ∷ shut
    ∷ request 1
    ∷ request 2
    ∷ []

run-events :
    (run opened events).1
    ≡ (1, some (1 ∷ [])) ∷ (1, some (2 ∷ [])) ∷ (1, some (3 ∷ [])) ∷ (2, none) ∷ []
unfolding run step
run-events = refl

-- A consumer that asks while another waits takes its place: when the receiver is closed only the
-- second is answered.
run-overwritten : (run opened (request 1 ∷ request 2 ∷ shut ∷ [])).1 ≡ (2, none) ∷ []
unfolding run step
run-overwritten = refl

run_keeps_example :
    IsValid (run opened events).0
    × (delivered (run opened events).1 ++ (run opened events).0.queue ≡ received events)
run_keeps_example = run_keeps opened events opened-IsValid

-- A consumer gets a datagram, then waits until the receiver is closed; another asks afterwards.
abbrev turns : List Event
turns = message (1 ∷ []) ∷ request 1 ∷ request 1 ∷ []

turns-TakeTurns : TakeTurns opened turns
unfolding TakeTurns step
turns-TakeTurns = (tt, (refl, (refl, tt)))

closed_answers_example :
    (answered (run opened (and_shut turns (request 2 ∷ []))).1 ≡ 1 ∷ 1 ∷ 2 ∷ [])
    × ((run opened (and_shut turns (request 2 ∷ []))).0.pending ≡ none)
    × ((step (run opened (and_shut turns (request 2 ∷ []))).0 (request 3)).1
        ≡ (3, head_or_end (run opened (and_shut turns (request 2 ∷ []))).0.queue) ∷ [])
closed_answers_example =
    closed_answers opened turns (request 2 ∷ []) 3 opened-IsValid turns-TakeTurns

abbrev identity : StreamIdentity
identity = record { local_ssrc = 0x1122_3344; remote_ssrc = 0x5566_7788 }

build_receiver_report_fields_example :
    let report = build_receiver_report identity 70000 in
    (length report ≡ 44)
    × (parse_rtp_packet report ≡ none)
    × (read_be 4 report 4 ≡ 0x1122_3344)
    × (read_be 4 report 8 ≡ 0x5566_7788)
    × (read_be 4 report 16 ≡ 70000)
    × (read_be 4 report 36 ≡ 0x1122_3344)
build_receiver_report_fields_example =
    build_receiver_report_fields identity 70000 (omega arith) (omega arith) (omega arith)

-- Six packets over a wrap of the 16-bit number.
observe_all_exact_example : (observe_all started 65533 6).extended_highest ≡ 65538
observe_all_exact_example = observe_all_exact 65533 5 (omega arith) (omega arith)

push-aggregate_example :
    Hevc.push idle (0x60 ∷ 1 ∷ aggregate ((0x40 ∷ 1 ∷ 9 ∷ []) ∷ (0x42 ∷ 1 ∷ []) ∷ []))
    ≡ (idle, (0x40 ∷ 1 ∷ 9 ∷ []) ∷ (0x42 ∷ 1 ∷ []) ∷ [])
push-aggregate_example =
    push-aggregate idle 0x60 1 ((0x40 ∷ 1 ∷ 9 ∷ []) ∷ (0x42 ∷ 1 ∷ []) ∷ []) refl (omega arith)

push_all_fragments_example :
    Hevc.push_all idle
      (fragment 0x26 1 128 (7 ∷ []) ∷ later_fragments 0x26 1 ((8 ∷ []) ∷ []) (9 ∷ []))
    ≡ (idle, strip_trailer (0x26 ∷ 1 ∷ 7 ∷ 8 ∷ 9 ∷ []) ∷ [])
push_all_fragments_example =
    push_all_fragments idle 0x26 1 (7 ∷ []) (9 ∷ []) ((8 ∷ []) ∷ []) (omega arith)

abbrev half_done : Depacketizer
half_done = record { fu_buffer = (0x26 ∷ 1 ∷ []) ∷ []; fu_active = true }

-- A parser of parameter sets that always fails.
abbrev no_codec : Bytes → Option Bytes
no_codec sps = none

-- A key frame in two packets, over a wrap; and the same with the second one missing.
abbrev key_frame : List RtpPacket
key_frame = packet 65535 false (0x26 ∷ 1 ∷ 5 ∷ []) ∷ packet 0 true (0x26 ∷ 1 ∷ 6 ∷ []) ∷ []

abbrev cut_frame : List RtpPacket
cut_frame = packet 65535 false (0x26 ∷ 1 ∷ 5 ∷ []) ∷ packet 1 true (0x26 ∷ 1 ∷ 6 ∷ []) ∷ []

picture_intact_example :
    let nals = usable (Hevc.push_all idle (payloads key_frame)).1 in
    (Assembler.push_all no_codec new_assembler key_frame).1 ≡ unit_of nals (any_key nals) 9000
picture_intact_example =
    picture_intact no_codec new_assembler key_frame (refl, refl)
      (unfold contiguous Assembler.is_gap is_next_sequence in refl) refl refl refl

picture_broken_example :
    ((Assembler.push_all no_codec new_assembler cut_frame).1 ≡ [])
    × ((Assembler.push_all no_codec new_assembler cut_frame).0.stats.access_units_dropped ≡ 0 + 1)
picture_broken_example =
    picture_broken no_codec new_assembler cut_frame (refl, refl)
      (unfold contiguous Assembler.is_gap is_next_sequence in refl)

-- Parameter sets; the SPS has three bytes of emulation prevention.
abbrev vps : Bytes
vps = 64 ∷ 1 ∷ 12 ∷ []

abbrev sps : Bytes
sps = 66 ∷ 1 ∷ 1 ∷ 1 ∷ 96 ∷ 0 ∷ 0 ∷ 3 ∷ 0 ∷ 176 ∷ 0 ∷ 0 ∷ 3 ∷ 0 ∷ 0 ∷ 3 ∷ 0 ∷ 93 ∷ 160 ∷ []

abbrev pps : Bytes
pps = 68 ∷ 1 ∷ []

abbrev configuration : Bytes
configuration =
    (1 ∷ 1 ∷ 96 ∷ 0 ∷ 0 ∷ 0 ∷ 176 ∷ 0 ∷ 0 ∷ 0 ∷ 0 ∷ 0 ∷ 93 ∷ config_constants)
    ++ ((32 ∷ 0 ∷ 1 ∷ 0 ∷ 3 ∷ vps) ++ ((33 ∷ 0 ∷ 1 ∷ 0 ∷ 19 ∷ sps) ++ (34 ∷ 0 ∷ 1 ∷ 0 ∷ 2 ∷ pps)))

build-configuration : build_hevc_decoder_configuration_record vps sps pps ≡ ok configuration
unfolding build_hevc_decoder_configuration_record hevc_rbsp strip_emulation config_array
build-configuration = refl

sps_fields-record_example :
    (f : SpsFields) × (sps_fields sps ≡ ok f)
    × (byte_at configuration 1 ≡ f.profile_space * 64 + f.tier_flag * 32 + f.profile_idc)
    × (read_be 4 configuration 2 ≡ f.profile_compatibility_flags)
    × (read_be 6 configuration 6 ≡ f.constraint_indicator_flags)
    × (byte_at configuration 12 ≡ f.level_idc)
sps_fields-record_example =
    sps_fields-record vps sps pps configuration
      (
        omega arith,
        (
          omega arith,
          (
            omega arith,
            (
              omega arith,
              (
                omega arith,
                (
                  omega arith,
                  (
                    omega arith,
                    (
                      omega arith,
                      (
                        omega arith,
                        (
                          omega arith,
                          (
                            omega arith,
                            (
                              omega arith,
                              (
                                omega arith,
                                (
                                  omega arith,
                                  (
                                    omega arith,
                                    (omega arith, (omega arith, (omega arith, (omega arith, tt)))),
                                  ),
                                ),
                              ),
                            ),
                          ),
                        ),
                      ),
                    ),
                  ),
                ),
              ),
            ),
          ),
        ),
      )
      build-configuration

hevc_rbsp-prevent_example :
    hevc_rbsp (66 ∷ 1 ∷ prevent no_zero (1 ∷ 0 ∷ 0 ∷ 0 ∷ 0 ∷ 5 ∷ [])) ≡ 1 ∷ 0 ∷ 0 ∷ 0 ∷ 0 ∷ 5 ∷ []
hevc_rbsp-prevent_example = hevc_rbsp-prevent 66 1 (1 ∷ 0 ∷ 0 ∷ 0 ∷ 0 ∷ 5 ∷ [])
