-- ===== src/Http/ReadBack.antt =====
-- What the parser reads of one frame that was serialised.
use appium_ios_remotexpc.Prelude.{length-replicate}
use appium_ios_remotexpc.Prelude.{
  ℕ, suc, ◌+◌, ◌-◌, ◌/◌, ◌%◌, ◌^◌, ◌≤◌, ◌<◌, ◌≡◌, refl, ap, ◌∙◌, ◌≢◌, Bool, true, false, List, [],
  ◌∷◌, ◌++◌, arith, ltb, ◌==◌, if◌then◌else◌, lt→ltb, ltb→lt, gt→leb, ne→==, length, replicate,
  length-append, take-length, take_all,
}
use appium_ios_remotexpc.Prelude.Result.{Result, ok, err, stuck, ◌>>=◌}
use appium_ios_remotexpc.Prelude.Bytes.{Bytes, be_bytes, of_be, of_be-be_bytes, byte_at-append}
use appium_ios_remotexpc.Framing.{IsFraming}
use appium_ios_remotexpc.Http.Frames.{
  Error, out_of_range, Flag, padded, Frame, Body, settings_body, data_body, headers_body,
  window_update_body, frame_type, flags_value, bit, serialize_body, serialize_padding_data,
  serialize, pack, pack_values, has, h_type, b_type, l_type,
}
use appium_ios_remotexpc.Http.Parser.{
  ParsedFrame, data_parsed, other, frame_length, strip_data_frame_padding, parse_frame,
  http_framing,
}

-- The header of a frame.
abbrev pub header_bytes : (size type flags id : ℕ) → Bytes
header_bytes size type flags id =
    be_bytes 2 (size / 256 % 65536)
    ++ (be_bytes 1 (size % 256)
        ++ (be_bytes 1 type ++ (be_bytes 1 flags ++ be_bytes 4 (id % 2 ^ 31))))

frame_type-range : (body : Body) → frame_type body < 256
frame_type-range (settings_body settings) = omega arith
frame_type-range (data_body d pad) = omega arith
frame_type-range (headers_body d pad depends weight exclusive) = omega arith
frame_type-range (window_update_body increment) = omega arith

bit-range : (flags : List Flag) (f : Flag) (v : ℕ) → bit flags f v ≤ v
bit-range flags f v = ground arith

flags_value-range : (body : Body) (flags : List Flag) → flags_value body flags < 256
flags_value-range (settings_body settings) flags = ground arith
flags_value-range (data_body d pad) flags = ground arith
flags_value-range (headers_body d pad depends weight exclusive) flags = ground arith
flags_value-range (window_update_body increment) flags = omega arith

pack-header :
    (size type flags id : ℕ)
    → type < 256
    → flags < 256
    → pack
        (h_type ∷ b_type ∷ b_type ∷ b_type ∷ l_type ∷ [])
        (size / 256 % 65536 ∷ size % 256 ∷ type ∷ flags ∷ id % 2 ^ 31 ∷ [])
      ≡ ok (header_bytes size type flags id)
unfolding pack pack_values
pack-header size type flags id t f = rw (
  lt→ltb (size / 256 % 65536) 65536 (omega arith),
  lt→ltb (size % 256) 256 (omega arith),
  lt→ltb type 256 t,
  lt→ltb flags 256 f,
  lt→ltb (id % 2 ^ 31) (2 ^ 32) (omega arith),
)

pub serialize-body :
    (f : Frame) (body : Bytes)
    → serialize_body f.body f.flags ≡ ok body
    → serialize f
      ≡ ok (
          header_bytes (length body) (frame_type f.body) (flags_value f.body f.flags) f.stream_id
          ++ body)
unfolding serialize
serialize-body f body e = rw (
  e,
  pack-header (length body) (frame_type f.body) (flags_value f.body f.flags) f.stream_id
      (frame_type-range f.body) (flags_value-range f.body f.flags),
)

frame_length-header :
    (size type flags id : ℕ) (rest : Bytes)
    → size < 2 ^ 24
    → frame_length (header_bytes size type flags id ++ rest) ≡ size
unfolding frame_length
frame_length-header size type flags id rest s = omega arith

-- What is read of a frame: the data of a data frame, with what stands behind it where that is not
-- announced as padding, or that it is another frame.
unfoldable pub parsed_body : Body → List Flag → ℕ → ParsedFrame
parsed_body (data_body d pad) flags id =
    if has flags padded
    then data_parsed (id % 2 ^ 31) d (1 + length d + pad)
    else data_parsed (id % 2 ^ 31) (d ++ replicate pad 0) (length d + pad)
parsed_body (settings_body settings) flags id = other
parsed_body (headers_body d pad depends weight exclusive) flags id = other
parsed_body (window_update_body increment) flags id = other

parse_frame-ne-stuck : (x : Bytes) → parse_frame x ≢ stuck
unfolding parse_frame strip_data_frame_padding
parse_frame-ne-stuck x = ground arith

pub http_framing-IsFraming : IsFraming http_framing
unfolding http_framing frame_length
http_framing-IsFraming = record {
  total_size-append = λ x y k. rw (
    byte_at-append x y 0 (omega arith),
    byte_at-append x y 1 (omega arith),
    byte_at-append x y 2 (omega arith),
  );
  some_bytes = λ x y e. omega arith;
  read-ne-stuck = parse_frame-ne-stuck;
}

not_empty : (n : ℕ) → (suc n == 0) ≡ false
not_empty n = ne→== (suc n) 0 (λ e. absurd (omega arith))

-- Padding off: the body of a padded frame.
strip-padded :
    (pad flags : ℕ) (d : Bytes)
    → pad < 256
    → flags / 8 % 2 ≡ 1
    → strip_data_frame_padding (pad ∷ (d ++ replicate pad 0)) flags ≡ ok d
unfolding strip_data_frame_padding
strip-padded pad flags d p f = rw (
  f,
  not_empty (length (d ++ replicate pad 0)),
  gt→leb (suc (length (d ++ replicate pad 0))) pad long,
  take-length (suc (length (d ++ replicate pad 0)) - pad - 1) d (replicate pad 0) kept,
)
  where
    size : length (d ++ replicate pad 0) ≡ length d + pad
    size = length-append d (replicate pad 0) ∙ ap (λ n. length d + n) (length-replicate pad 0)

    long : pad < suc (length (d ++ replicate pad 0))
    long = omega (arith, size)

    kept : suc (length (d ++ replicate pad 0)) - pad - 1 ≡ length d
    kept = omega (arith, size)

strip-plain : (flags : ℕ) (d : Bytes) → flags / 8 % 2 ≡ 0 → strip_data_frame_padding d flags ≡ ok d
unfolding strip_data_frame_padding
strip-plain flags d f = rw f

parse_frame-other :
    (size type flags id : ℕ) (body : Bytes)
    → 0 < type
    → type < 256
    → parse_frame (header_bytes size type flags id ++ body) ≡ ok other
unfolding parse_frame
parse_frame-other size type flags id body t k =
    rw (ne→== (type % 256) 0 (λ e. absurd (omega arith)))

parse_frame-data :
    (flags id : ℕ) (body d : Bytes)
    → length body < 2 ^ 24
    → flags < 256
    → strip_data_frame_padding body flags ≡ ok d
    → parse_frame (header_bytes (length body) 0 flags id ++ body)
      ≡ ok (data_parsed (id % 2 ^ 31) d (length body))
unfolding parse_frame
parse_frame-data flags id body d s f e =
    rw
      (
        frame_length-header (length body) 0 flags id body s,
        take_all (length body) body (omega arith),
        small,
        e,
      )
      (ap (λ n. ok (data_parsed n d (length body))) stream)
  where
    small : flags % 256 ≡ flags
    small = omega arith

    stream : of_be (be_bytes 4 (id % 2 ^ 31)) % 2 ^ 31 ≡ id % 2 ^ 31
    stream = ap (λ n. n % 2 ^ 31) (of_be-be_bytes 4 (id % 2 ^ 31) (omega arith)) ∙ omega arith

serialize_padding_data-padded :
    (flags : List Flag) (pad : ℕ) (d body : Bytes)
    → has flags padded ≡ true
    → (serialize_padding_data flags pad >>= λ p. ok (p ++ d)) ≡ ok body
    → (pad < 256) × (body ≡ pad ∷ d)
unfolding serialize_padding_data pack pack_values
serialize_padding_data-padded flags pad d body k e = go (ltb pad 256) refl (rw k at e)
  where
    go :
        (c : Bool)
        → ltb pad 256 ≡ c
        → (pack (b_type ∷ []) (pad ∷ []) >>= λ p. ok (p ++ d)) ≡ ok body
        → (pad < 256) × (body ≡ pad ∷ d)
    go true t e =
        let small : pad < 256 = ltb→lt pad 256 t in
        let packed : (pack (b_type ∷ []) (pad ∷ []) >>= λ p. ok (p ++ d)) ≡ ok (pad % 256 ∷ d) =
          rw t in
        let shape : body ≡ pad % 256 ∷ d = cc in (small, shape ∙ ap (λ n. n ∷ d) (omega arith))
    go false t e =
        let packed : (pack (b_type ∷ []) (pad ∷ []) >>= λ p. ok (p ++ d)) ≡ err out_of_range =
          rw t in
        cc

serialize_padding_data-plain :
    (flags : List Flag) (pad : ℕ) (d body : Bytes)
    → has flags padded ≡ false
    → (serialize_padding_data flags pad >>= λ p. ok (p ++ d)) ≡ ok body
    → body ≡ d
unfolding serialize_padding_data
serialize_padding_data-plain flags pad d body k e =
    let plain : (serialize_padding_data flags pad >>= λ p. ok (p ++ d)) ≡ ok d = rw k in cc

parse_frame-body :
    (bd : Body) (flags : List Flag) (id : ℕ) (body : Bytes)
    → serialize_body bd flags ≡ ok body
    → length body < 2 ^ 24
    → parse_frame (header_bytes (length body) (frame_type bd) (flags_value bd flags) id ++ body)
      ≡ ok (parsed_body bd flags id)
unfolding parsed_body serialize_body
parse_frame-body (settings_body settings) flags id body e s =
    parse_frame-other (length body) 4 (flags_value (settings_body settings) flags) id body
      (omega arith) (omega arith)
parse_frame-body (headers_body d pad depends weight exclusive) flags id body e s =
    parse_frame-other (length body) 1
      (flags_value (headers_body d pad depends weight exclusive) flags) id body (omega arith)
      (omega arith)
parse_frame-body (window_update_body increment) flags id body e s =
    parse_frame-other (length body) 8 0 id body (omega arith) (omega arith)
parse_frame-body (data_body d pad) flags id body e s = go (has flags padded) refl
  where
    value : ℕ
    value = flags_value (data_body d pad) flags

    size : length (d ++ replicate pad 0) ≡ length d + pad
    size = length-append d (replicate pad 0) ∙ ap (λ n. length d + n) (length-replicate pad 0)

    go :
        (c : Bool)
        → has flags padded ≡ c
        → parse_frame (header_bytes (length body) 0 value id ++ body)
          ≡ ok (
              if has flags padded
              then data_parsed (id % 2 ^ 31) d (1 + length d + pad)
              else data_parsed (id % 2 ^ 31) (d ++ replicate pad 0) (length d + pad))
    go true k =
        let shape = serialize_padding_data-padded flags pad (d ++ replicate pad 0) body k e in
        parse_frame-data value id body d s (flags_value-range (data_body d pad) flags)
          (rw (shape.1) (strip-padded pad value d shape.0 (ground arith)))
        ∙ rw k
            (ap (λ n. ok (data_parsed (id % 2 ^ 31) d n)) (omega (arith, ap length shape.1, size)))
    go false k =
        let shape : body ≡ d ++ replicate pad 0 =
          serialize_padding_data-plain flags pad (d ++ replicate pad 0) body k e in
        parse_frame-data value id body (d ++ replicate pad 0) s
          (flags_value-range (data_body d pad) flags)
          (rw (shape) (strip-plain value (d ++ replicate pad 0) (ground arith)))
        ∙ rw k (
            ap (λ n. ok (data_parsed (id % 2 ^ 31) (d ++ replicate pad 0) n))
              (ap length shape ∙ size))

-- A frame's bytes: its serialisation, with a body that the length field can count.
pub record IsSent (f : Frame) (bytes : Bytes) : Type 0 where
  pub serialized : serialize f ≡ ok bytes
  pub countable : length bytes < 9 + 2 ^ 24

-- The bytes of a frame taken apart.
record Layout (f : Frame) (bytes : Bytes) : Type 0 where
  body : Bytes
  encoded : serialize_body f.body f.flags ≡ ok body
  laid_out :
      bytes
      ≡ header_bytes (length body) (frame_type f.body) (flags_value f.body f.flags) f.stream_id
        ++ body

serialize-Layout : (f : Frame) (bytes : Bytes) → serialize f ≡ ok bytes → Layout f bytes
unfolding serialize
serialize-Layout f bytes e = go (serialize_body f.body f.flags) refl
  where
    go : (r : Result Error Bytes) → serialize_body f.body f.flags ≡ r → Layout f bytes
    go (ok body) k = record { body = body; encoded = k; laid_out = cc (serialize-body f body k, e) }
    go (err x) k = let failed : serialize f ≡ err x = rw k in cc e
    go stuck k = let failed : serialize f ≡ stuck = rw k in cc e

pub parse_frame-serialize :
    (f : Frame) (bytes : Bytes)
    → IsSent f bytes
    → parse_frame bytes ≡ ok (parsed_body f.body f.flags f.stream_id)
parse_frame-serialize f bytes v =
    let y = serialize-Layout f bytes v.serialized in
    let short : length y.body < 2 ^ 24 = omega (arith, v.countable, ap length y.laid_out) in
    rw (y.laid_out) (parse_frame-body f.body f.flags f.stream_id y.body y.encoded short)

pub http_total :
    (f : Frame) (bytes : Bytes)
    → IsSent f bytes
    → (9 ≤ length bytes) × (9 + frame_length bytes ≡ length bytes)
http_total f bytes v =
    let y = serialize-Layout f bytes v.serialized in
    let size = ap length y.laid_out in
    let short : length y.body < 2 ^ 24 = omega (arith, v.countable, size) in
    let found =
      ap frame_length y.laid_out
      ∙ frame_length-header (length y.body) (frame_type f.body) (flags_value f.body f.flags)
          f.stream_id y.body short in
    (omega (arith, size), omega (arith, size, found))
