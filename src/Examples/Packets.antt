-- ===== src/Examples/Packets.antt =====
-- crates/openlive-protocol/src/media.rs at a concrete packet. Identifiers are written little-endian
-- in sixteen bytes.
use openlive.Common.{ℕ, ◌≡◌, ◌≢◌, Option, none, some, [], ◌∷◌, drop, arith}
use openlive.Common.Float.{milli}
use openlive.Common.Result.{ok}
use openlive.Protocol.Media.{input_audio, MediaPacket, Uuids, le64, read_u64, encode, decode}
use openlive.Protocol.Media.Wire.{IsPacket, decode-encode}
use openlive.Protocol.Media.Accepted.{IsAccepted, decode_sound}

abbrev small_ids : Uuids
small_ids = record {
  nil = 0;
  as_bytes = λ n. le64 n (le64 0 []);
  from_slice = λ bytes. some (read_u64 bytes 0);
}

abbrev packet : MediaPacket milli
packet = record {
  kind = input_audio;
  sequence = 3;
  media_time_us = 70000;
  generation_id = some 12;
  audio = record {
    pcm = 1 ∷ 2 ∷ [];
    sample_rate = 16000;
    channels = 1;
    frame_duration_ms = 20;
    client_speech_probability = some 900;
    client_output_level = none;
    client_echo_probability = some 0;
  };
}

packet-IsPacket : IsPacket milli small_ids packet
unfolding read_u64
packet-IsPacket = ground arith

decode-encode_example : decode milli small_ids (encode milli small_ids packet) ≡ ok packet
decode-encode_example = decode-encode milli small_ids packet packet-IsPacket

decode_sound_example :
    IsAccepted milli small_ids (drop 60 (encode milli small_ids packet)) packet.audio
    × ◌≢◌ {A = Option ℕ} (some 12) (some 0)
decode_sound_example =
    decode_sound milli small_ids (encode milli small_ids packet) packet
      (decode-encode milli small_ids packet packet-IsPacket)
