-- ===== src/Protocol/Media.antt =====
-- crates/openlive-protocol/src/media.rs: the binary packet that carries PCM audio. Bytes are numbers
-- below 256, identifiers 128-bit numbers; `Uuids` stands for what the code uses of the uuid crate.
pub mod Wire
pub mod Accepted
use openlive.Common.{
  ℕ, ◌+◌, ◌*◌, ◌/◌, ◌%◌, Bool, true, false, not, ◌&&◌, ◌||◌, Option, none, some, List, [], ◌∷◌,
  ◌++◌, ◌==◌, ltb, leb, if◌then◌else◌, length, take, drop, get_or,
}
use openlive.Common.Text.{Text, codes, decimal}
use openlive.Common.Float.{Float}
use openlive.Common.Result.{Result, ok, err, ◌>>=◌}

pub data MediaKind : Type 0 where
  input_audio output_audio : MediaKind

pub record PcmAudioFrame (F : Float) : Type 0 where
  pub pcm : List ℕ
  pub sample_rate : ℕ
  pub channels : ℕ
  pub frame_duration_ms : ℕ
  pub client_speech_probability : Option F.F32
  pub client_output_level : Option F.F32
  pub client_echo_probability : Option F.F32

pub record MediaPacket (F : Float) : Type 0 where
  pub kind : MediaKind
  pub sequence : ℕ
  pub media_time_us : ℕ
  pub generation_id : Option ℕ
  pub audio : PcmAudioFrame F

pub data MediaPacketError : Type 0 where
  truncated invalid_magic : MediaPacketError
  unsupported_version invalid_kind : ℕ → MediaPacketError
  invalid_generation missing_payload invalid_audio_metadata : MediaPacketError

-- `fmt::Display for MediaPacketError`
unfoldable pub display : MediaPacketError → Text
display truncated = codes "media packet header is truncated"
display invalid_magic = codes "media packet magic is invalid"
display (unsupported_version version) = codes "unsupported media packet version " ++ decimal version
display (invalid_kind kind) = codes "invalid media packet kind " ++ decimal kind
display invalid_generation = codes "invalid media generation ID"
display missing_payload = codes "media packet has no PCM payload"
display invalid_audio_metadata = codes "media audio metadata is invalid"

pub record Uuids : Type 0 where
  pub nil : ℕ
  pub as_bytes : ℕ → List ℕ
  pub from_slice : List ℕ → Option ℕ

abbrev pub header_len : ℕ
header_len = 60

abbrev pub wire_version : ℕ
wire_version = 1

abbrev pub kind_byte : MediaKind → ℕ
kind_byte input_audio = 1
kind_byte output_audio = 2

abbrev pub le16 : ℕ → List ℕ → List ℕ
le16 n rest = (n % 256) ∷ (n / 256 % 256) ∷ rest

abbrev pub le32 : ℕ → List ℕ → List ℕ
le32 n rest = le16 (n % 65536) (le16 (n / 65536) rest)

abbrev pub le64 : ℕ → List ℕ → List ℕ
le64 n rest = le32 (n % 4294967296) (le32 (n / 4294967296) rest)

abbrev byte : List ℕ → ℕ → ℕ
byte encoded offset = get_or encoded offset 0

unfoldable pub read_u16 : List ℕ → ℕ → ℕ
read_u16 encoded offset = byte encoded offset + 256 * byte encoded (offset + 1)

unfoldable pub read_u32 : List ℕ → ℕ → ℕ
unfolding read_u16
read_u32 encoded offset = read_u16 encoded offset + 65536 * read_u16 encoded (offset + 2)

unfoldable pub read_u64 : List ℕ → ℕ → ℕ
unfolding read_u32
read_u64 encoded offset = read_u32 encoded offset + 4294967296 * read_u32 encoded (offset + 4)

-- `Option::unwrap_or`
abbrev unwrap_or {ℓ} : {A : Type ℓ} → Option A → A → A
unwrap_or none d = d
unwrap_or (some a) d = a

module _ (F : Float) where
  open F use {F32, nan, is_finite, to_bits, from_bits}

  unfoldable pub read_optional_f32 : List ℕ → ℕ → Option F32
  read_optional_f32 encoded offset =
      let value = from_bits (read_u32 encoded offset) in
      if is_finite value then some value else none

  module _ (U : Uuids) where
    open U use {nil, as_bytes, from_slice}

    -- From byte 40 on: the audio's metadata and the samples.
    unfoldable pub encode_audio : PcmAudioFrame F → List ℕ
    encode_audio a = le32 a.sample_rate (
        le16 a.frame_duration_ms (
          (a.channels % 256)
          ∷ 0
          ∷ le32 (to_bits (unwrap_or a.client_speech_probability nan)) (
              le32 (to_bits (unwrap_or a.client_output_level nan))
                (le32 (to_bits (unwrap_or a.client_echo_probability nan)) a.pcm))))

    unfoldable pub encode : MediaPacket F → List ℕ
    encode p =
        b'O'
        ∷ b'L'
        ∷ b'I'
        ∷ b'V'
        ∷ wire_version
        ∷ kind_byte p.kind
        ∷ le16 0 (
            le64 p.sequence (
              le64 p.media_time_us
                (as_bytes (unwrap_or p.generation_id nil) ++ encode_audio p.audio)))

    abbrev magic_matches : List ℕ → Bool
    magic_matches encoded =
        (byte encoded 0 == b'O' && byte encoded 1 == b'L')
        && (byte encoded 2 == b'I' && byte encoded 3 == b'V')

    unfoldable pub kind_of : ℕ → Result MediaPacketError MediaKind
    kind_of value =
        if value == 1
        then ok input_audio
        else if value == 2
        then ok output_audio
        else err (invalid_kind value)

    abbrev metadata_ok : ℕ → ℕ → ℕ → Bool
    metadata_ok channels sample_rate frame_duration_ms =
        channels == 1
        && ((leb 8000 sample_rate && leb sample_rate 48000)
            && (leb 5 frame_duration_ms && leb frame_duration_ms 100))

    -- The checks of the payload and its metadata, in the source's order, and the frame.
    unfoldable pub frame_of :
        (pcm : List ℕ) (sample_rate frame_duration_ms channels : ℕ)
        → (speech level echo : Option F32) → Result MediaPacketError (PcmAudioFrame F)
    frame_of [] sample_rate frame_duration_ms channels speech level echo = err missing_payload
    frame_of (b ∷ bs) sample_rate frame_duration_ms channels speech level echo =
        if metadata_ok channels sample_rate frame_duration_ms
        then ok (record {
          pcm = b ∷ bs;
          sample_rate = sample_rate;
          channels = channels;
          frame_duration_ms = frame_duration_ms;
          client_speech_probability = speech;
          client_output_level = level;
          client_echo_probability = echo;
        })
        else err invalid_audio_metadata

    unfoldable pub decode_audio : List ℕ → Result MediaPacketError (PcmAudioFrame F)
    decode_audio encoded =
        frame_of (drop header_len encoded) (read_u32 encoded 40) (read_u16 encoded 44)
          (byte encoded 46) (read_optional_f32 encoded 48) (read_optional_f32 encoded 52)
          (read_optional_f32 encoded 56)

    -- `(!generation.is_nil()).then_some(generation)`
    unfoldable pub non_nil : ℕ → Option ℕ
    non_nil generation = if generation == nil then none else some generation

    abbrev or_invalid : Option ℕ → Result MediaPacketError ℕ
    or_invalid none = err invalid_generation
    or_invalid (some g) = ok g

    -- What follows the checks of length, magic and version.
    unfoldable pub decode_body : List ℕ → Result MediaPacketError (MediaPacket F)
    decode_body encoded = do
      kind ← kind_of (byte encoded 5)
      generation ← or_invalid (from_slice (take 16 (drop 24 encoded)))
      audio ← decode_audio encoded
      ok (record {
        kind = kind;
        sequence = read_u64 encoded 8;
        media_time_us = read_u64 encoded 16;
        generation_id = non_nil generation;
        audio = audio;
      })

    unfoldable pub decode : List ℕ → Result MediaPacketError (MediaPacket F)
    decode encoded =
        if ltb (length encoded) header_len
        then err truncated
        else if not (magic_matches encoded)
        then err invalid_magic
        else if not (byte encoded 4 == wire_version)
        then err (unsupported_version (byte encoded 4))
        else decode_body encoded
