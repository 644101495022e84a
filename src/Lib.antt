-- ===== src/Lib.antt =====
-- A verification library for appium-ios-remotexpc: the codecs and the stream machinery that carry
-- RemoteXPC, pairing and display traffic between a host and an iOS device.
--
-- Parts of the program and the modules that model them. The functions keep the names of the source
-- in snake_case, so `encodeTLV8` is `encode_tlv8`.
--
-- - Tlv: src/lib/apple-tv/tlv/encoder.ts and decoder.ts, the type-length-value items of pairing
--   messages. Encode and Decode have the functions.
-- - Opack: src/lib/apple-tv/encryption/opack2.ts, the serialisation of the pairing data. Value has
--   the values, Encode `dumps` and Decode `loads`.
-- - Splitter: src/lib/plist/length-based-splitter.ts, which cuts the byte stream of a service into
--   length-prefixed messages. Process has one round of the loop (`next_action`), the loop and
--   `_transform`; the state is the buffer, which is passed explicitly.
-- - Display: src/services/ios/display. Datagrams arrive at a UdpMediaReceiver (transport/rtp.ts,
--   modules Receiver and Closing), are parsed as RTP (module Rtp), acknowledged by RTCP reports
--   (transport/rtcp.ts, module Rtcp), and become pictures: the HEVC depacketizer (video/hevc.ts,
--   module Hevc) turns payloads into NAL units (HevcConfig has the parameter sets of the same file:
--   the emulation prevention, the bit reader and the decoder configuration record), and the access
--   unit assembler (video/access-unit-assembler.ts, module Assembler) groups these by the marker
--   bit.
-- - Framing: the loop that the HTTP/2 parser and the usbmux decoder have in common, as an interface:
--   a stream is given by the size of its header, the size of a frame and how a frame is read, and
--   the laws of these (`IsFraming`) are what the theorems on streams need.
-- - Http: src/lib/remote-xpc. Frames has the frames of handshake-frames.ts and Parser has
--   `Http2FrameParser` of http2-frame-parser.ts.
-- - Xpc: src/lib/remote-xpc/xpc-protocol.ts, the objects and messages of RemoteXPC. Value has the
--   objects, Bits the Writer and the Reader, Encode `encodeMessage` and Decode `decodeMessage`; Seen
--   says what an object looks like on the other side, and Small is a platform for tests.
-- - Transport: src/lib/remote-xpc/remote-xpc-framed-transport.ts, which composes Http and Xpc: the
--   chunks of the socket are cut into frames, and their data into messages. Receive has the model,
--   Prefix and Drain show that only the bytes matter, and Stream sends messages through all of it.
-- - Usbmux: src/lib/usbmux/usbmux-encoder.ts and usbmux-decoder.ts.
-- - Dtx: src/services/ios/dvt. Header has the headers of dtx-message.ts, Fragmenter has
--   channel-fragmenter.ts.
-- - Afc: src/services/ios/afc/codec.ts. Packets has the packets and how a response is read from the
--   bytes of a stream; Reads has the state of a socket's buffered reader, where a chunk that
--   arrives and a call of `readExact` are the events, and what `fatalizeAfcSocket` does. Demux has
--   `AfcPacketDemux` of demux.ts: what happens between two awaits is one event, and timers,
--   promises and the send lock are part of the state. AsyncLock, of which only this is used, holds
--   the lock until the promise of its callback is settled, which here follows the waiter.
-- - Mdns: src/lib/discovery/mdns-protocol.ts. Names has names, their compression, and queries.
-- - Prelude: lists, results and bytes that the parts share.
--
-- A Buffer is a list of numbers, of which each is below 256 where a theorem needs it; an offset into
-- a buffer is the rest of the buffer from there. A thrown error is `err` of the module's own type of
-- errors. An object is a record, a method a function from the record to the record and its result.
-- An asynchronous queue is its state and a function on events, so that every order of events is a
-- list of them. Bit operations on unsigned numbers are divisions and remainders by powers of two.
--
-- Loops without a structural measure run on fuel, and running out is the result `stuck`. The fuel is
-- the length of the buffer, or one more: each round takes a byte at least, so it is enough, and a
-- theorem of each loop says so. `Transport.Receive.drain` keeps its buffer when the fuel is used up,
-- and `drain-fuel` shows that any fuel above the length gives the same. The loop of `decodeName` has
-- a bound of 128 rounds of its own, which is kept.
--
-- Parameters: JavaScript's strings and numbers in OPACK2 values and XPC objects (UTF-8, floats and
-- integers) are the records `Opack.Value.Platform` and `Xpc.Value.Platform`, with the documented
-- behaviour as `IsPlatform`; the codec string of an SPS is an argument of the assembler; the
-- functions `createPlist` and `parsePlist` of src/lib/plist, which are not modelled, are any two
-- functions in the record `Usbmux.Codec.Plists`, of which nothing is assumed; the strings of DNS
-- names, and how they are cut at dots and joined, are the record `Mdns.Names.Strings`. An object in
-- OPACK2 or XPC is the list of its entries in the order in which JavaScript gives them; that
-- integer-like keys come first in it, and what `__proto__` does, is not modelled.
--
-- Not modelled: sockets, timers other than those of the AFC demultiplexer, logging, host times,
-- cryptography and SRP, the XML part of the splitter (which nothing calls), property lists, the AFC
-- client, the channels of Instruments, the resource records of mDNS, lockdown, tunnels and the
-- remaining services.
pub mod Prelude
pub mod Tlv
pub mod Splitter
pub mod Opack
pub mod Display
pub mod Dtx
pub mod Framing
pub mod Http
pub mod Usbmux
pub mod Afc
pub mod Xpc
pub mod Transport
pub mod Mdns
