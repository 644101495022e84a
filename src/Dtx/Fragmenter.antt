-- ===== src/Dtx/Fragmenter.antt =====
-- `ChannelFragmenter` of src/services/ios/dvt/channel-fragmenter.ts.
use appium_ios_remotexpc.Prelude.Int.{ℤ, pos, negsuc}
use appium_ios_remotexpc.Prelude.{
  ℕ, suc, ◌+◌, ◌≡◌, sym, ap, ◌∙◌, inl, inr, Bool, true, false, Option, none, some, List, [], ◌∷◌,
  ◌++◌, append-nil, append_assoc, arith, ◌==◌, if◌then◌else◌, ==-refl, ne→==, Bool-cases, length,
  concat,
}
use appium_ios_remotexpc.Prelude.Bytes.{Bytes}
use appium_ios_remotexpc.Dtx.Header.{MessageHeader}

-- The complete messages not yet taken, and what has come of the next one on either side.
pub record Fragmenter : Type 0 where
  pub messages : List Bytes
  pub packet_data : Bytes
  pub stream_packet_data : Bytes

-- `get`: `none` for null.
unfoldable pub get : Fragmenter → Fragmenter × Option Bytes
get f = elim f.messages [
  | [] ↦ (f, none)
  | message ∷ messages ↦ (record f { messages = messages }, some message)
]

-- `header.channelCode >= 0`
abbrev pub is_regular : ℤ → Bool
is_regular (pos n) = true
is_regular (negsuc n) = false

-- `header.fragmentId === header.fragmentCount - 1`, where a count of 0 gives -1.
unfoldable pub is_last : MessageHeader → Bool
is_last h = h.fragment_id + 1 == h.fragment_count

-- `addFragment`
unfoldable pub add_fragment : Fragmenter → MessageHeader → Bytes → Fragmenter
unfolding is_last
add_fragment f h chunk =
    let packet = f.packet_data ++ chunk in
    let stream = f.stream_packet_data ++ chunk in
    if is_regular h.channel_code
    then (if is_last h
        then record f { messages = f.messages ++ (packet ∷ []); packet_data = [] }
        else record f { packet_data = packet })
    else if is_last h
    then record f { messages = f.messages ++ (stream ∷ []); stream_packet_data = [] }
    else record f { stream_packet_data = stream }

unfoldable pub add_all : Fragmenter → List (MessageHeader × Bytes) → Fragmenter
add_all f [] = f
add_all f ((h, chunk) ∷ fragments) = add_all (add_fragment f h chunk) fragments

-- The fragments of a message from number `id` on, one for each piece.
abbrev pub fragments : MessageHeader → ℕ → ℕ → List Bytes → List (MessageHeader × Bytes)
fragments h id count [] = []
fragments h id count (piece ∷ pieces) =
    (record h { fragment_id = id; fragment_count = count }, piece)
    ∷ fragments h (id + 1) count pieces

-- The fragmenter once a message has come in on a side.
unfoldable pub complete_with : Bool → Fragmenter → Bytes → Fragmenter
complete_with true f b = record f {
  messages = f.messages ++ ((f.packet_data ++ b) ∷ []);
  packet_data = [];
}
complete_with false f b = record f {
  messages = f.messages ++ ((f.stream_packet_data ++ b) ∷ []);
  stream_packet_data = [];
}

unfoldable pub hold : Bool → Fragmenter → Bytes → Fragmenter
hold true f b = record f { packet_data = f.packet_data ++ b }
hold false f b = record f { stream_packet_data = f.stream_packet_data ++ b }

add_fragment-last :
    (f : Fragmenter) (h : MessageHeader) (b : Bytes)
    → is_last h ≡ true
    → add_fragment f h b ≡ complete_with (is_regular h.channel_code) f b
unfolding add_fragment complete_with
add_fragment-last f h b e = elim (Bool-cases (is_regular h.channel_code)) [
  | inl k ↦ rw (k, e)
  | inr k ↦ rw (k, e)
]

add_fragment-more :
    (f : Fragmenter) (h : MessageHeader) (b : Bytes)
    → is_last h ≡ false
    → add_fragment f h b ≡ hold (is_regular h.channel_code) f b
unfolding add_fragment hold
add_fragment-more f h b e = elim (Bool-cases (is_regular h.channel_code)) [
  | inl k ↦ rw (k, e)
  | inr k ↦ rw (k, e)
]

complete_with-hold :
    (side : Bool) (f : Fragmenter) (a b : Bytes)
    → complete_with side (hold side f a) b ≡ complete_with side f (a ++ b)
unfolding complete_with hold
complete_with-hold true f a b = rw (append_assoc f.packet_data a b)
complete_with-hold false f a b = rw (append_assoc f.stream_packet_data a b)

is_last-numbered :
    (h : MessageHeader) (id : ℕ)
    → is_last (record h { fragment_id = id; fragment_count = id + 1 }) ≡ true
unfolding is_last
is_last-numbered h id = ==-refl (id + 1)

is_last-earlier :
    (h : MessageHeader) (id n : ℕ)
    → is_last (record h { fragment_id = id; fragment_count = id + suc (suc n) }) ≡ false
unfolding is_last
is_last-earlier h id n = ne→== (id + 1) (id + suc (suc n)) (λ e. absurd (omega arith))

add_all-fragments_from :
    (f : Fragmenter) (h : MessageHeader) (id count : ℕ) (piece : Bytes) (pieces : List Bytes)
    → count ≡ id + suc (length pieces)
    → add_all f (fragments h id count (piece ∷ pieces))
      ≡ complete_with (is_regular h.channel_code) f (concat (piece ∷ pieces))
unfolding add_all
add_all-fragments_from f h id count piece [] e =
    add_fragment-last f (record h { fragment_id = id; fragment_count = count }) piece last
    ∙ ap (complete_with (is_regular h.channel_code) f) (sym (append-nil piece))
  where
    last : is_last (record h { fragment_id = id; fragment_count = count }) ≡ true
    last = rw (e, is_last-numbered h id)
add_all-fragments_from f h id count piece (next ∷ pieces) e =
    ap (λ g. add_all g (fragments h (id + 1) count (next ∷ pieces)))
      (add_fragment-more f (record h { fragment_id = id; fragment_count = count }) piece more)
    ∙ add_all-fragments_from (hold side f piece) h (id + 1) count next pieces (omega arith)
    ∙ complete_with-hold side f piece (next ++ concat pieces)
  where
    side : Bool
    side = is_regular h.channel_code

    more : is_last (record h { fragment_id = id; fragment_count = count }) ≡ false
    more = rw (e, is_last-earlier h id (length pieces))

-- The fragments of a message, one or more and numbered from 0, give one message behind those not yet
-- taken: the pieces joined in order, behind what had come on the same side. That side is empty again
-- and what has come on the other side is kept.
pub add_all-fragments :
    (f : Fragmenter) (h : MessageHeader) (piece : Bytes) (pieces : List Bytes)
    → add_all f (fragments h 0 (suc (length pieces)) (piece ∷ pieces))
      ≡ complete_with (is_regular h.channel_code) f (concat (piece ∷ pieces))
add_all-fragments f h piece pieces =
    add_all-fragments_from f h 0 (suc (length pieces)) piece pieces (omega arith)
