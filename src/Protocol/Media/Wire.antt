-- ===== src/Protocol/Media/Wire.antt =====
-- The round trip of the binary packet.
use openlive.Common.{
  ℕ, ◌+◌, ◌%◌, ◌/◌, ◌≤◌, ◌<◌, ◌≡◌, ◌≢◌, refl, ap, ◌∙◌, true, false, Option, none, some, List, [],
  ◌++◌, arith, length, length-append, drop, take, get_or, get_or-drop, get_or-drop_zero, drop-add,
  drop-append, take-append, ltb, u32_mod, u64_mod,
}
use openlive.Common.Float.{Float}
use openlive.Common.Result.{ok}
use openlive.Protocol.Media.{
  MediaKind, input_audio, output_audio, PcmAudioFrame, MediaPacket, Uuids, le16, le32, le64, byte,
  unwrap_or, read_u16, read_u32, read_u64, read_optional_f32, encode_audio, encode, kind_byte,
  kind_of, non_nil, frame_of, decode_audio, decode_body, decode,
}

read_u16_lem :
    (encoded : List ℕ) (i n : ℕ) (rest : List ℕ)
    → n < 65536
    → drop i encoded ≡ le16 n rest
    → read_u16 encoded i ≡ n
unfolding read_u16
read_u16_lem encoded i n rest b h = omega (
  arith,
  get_or-drop_zero i encoded 0,
  get_or-drop i 1 encoded 0,
  ap (λ xs. get_or xs 0 0) h,
  ap (λ xs. get_or xs 1 0) h,
)

drop_after :
    (encoded : List ℕ) (i k : ℕ) (xs ys : List ℕ)
    → drop i encoded ≡ xs
    → drop k xs ≡ ys
    → drop (i + k) encoded ≡ ys
drop_after encoded i k xs ys h e = drop-add i k encoded ∙ ap (drop k) h ∙ e

read_u32_lem :
    (encoded : List ℕ) (i n : ℕ) (rest : List ℕ)
    → n < u32_mod
    → drop i encoded ≡ le32 n rest
    → read_u32 encoded i ≡ n
unfolding read_u32
read_u32_lem encoded i n rest b h = omega (
  arith,
  read_u16_lem encoded i (n % 65536) _ (omega arith) h,
  read_u16_lem encoded (i + 2) (n / 65536) rest (omega arith) (drop_after encoded i 2 _ _ h refl),
)

read_u64_lem :
    (encoded : List ℕ) (i n : ℕ) (rest : List ℕ)
    → n < u64_mod
    → drop i encoded ≡ le64 n rest
    → read_u64 encoded i ≡ n
unfolding read_u64
read_u64_lem encoded i n rest b h = omega (
  arith,
  read_u32_lem encoded i (n % u32_mod) _ (omega arith) h,
  read_u32_lem encoded (i + 4) (n / u32_mod) rest (omega arith) (drop_after encoded i 4 _ _ h refl),
)

module _ (F : Float) where
  open F use {F32, nan, is_finite, to_bits, from_bits}

  -- A present value is finite and comes back from its bits; the bits of NaN read as not finite.
  abbrev pub IsSendable : Option F32 → Type 0
  IsSendable none = (to_bits nan < u32_mod) × (is_finite (from_bits (to_bits nan)) ≡ false)
  IsSendable (some x) = (to_bits x < u32_mod) × (from_bits (to_bits x) ≡ x) × (is_finite x ≡ true)

  -- A mono frame within the limits that `decode` checks.
  pub record IsFrame (a : PcmAudioFrame F) : Type 0 where
    pub mono : a.channels ≡ 1
    pub rate : (8000 ≤ a.sample_rate) × (a.sample_rate ≤ 48000)
    pub duration : (5 ≤ a.frame_duration_ms) × (a.frame_duration_ms ≤ 100)
    pub samples : a.pcm ≢ []
    pub speech : IsSendable a.client_speech_probability
    pub level : IsSendable a.client_output_level
    pub echo : IsSendable a.client_echo_probability

  read_optional_f32_lem :
      (encoded : List ℕ) (i : ℕ) (o : Option F32) (rest : List ℕ)
      → IsSendable o
      → drop i encoded ≡ le32 (to_bits (unwrap_or o nan)) rest
      → read_optional_f32 F encoded i ≡ o
  unfolding read_optional_f32
  read_optional_f32_lem encoded i none rest h e =
      rw (read_u32_lem encoded i (to_bits nan) rest h.0 e, h.1)
  read_optional_f32_lem encoded i (some x) rest h e =
      rw (read_u32_lem encoded i (to_bits x) rest h.0 e, h.1, h.2)

module _ (F : Float) (U : Uuids) where
  open U use {nil, as_bytes, from_slice}

  -- The identifier has sixteen bytes, from which the uuid crate reads it back.
  abbrev pub IsIdentifier : ℕ → Type 0
  IsIdentifier u = (length (as_bytes u) ≡ 16) × (from_slice (as_bytes u) ≡ some u)

  abbrev pub IsGeneration : Option ℕ → Type 0
  IsGeneration none = IsIdentifier nil
  IsGeneration (some g) = IsIdentifier g × (g ≢ nil)

  pub record IsPacket (p : MediaPacket F) : Type 0 where
    pub sequence : p.sequence < u64_mod
    pub media_time : p.media_time_us < u64_mod
    pub generation : IsGeneration p.generation_id
    pub frame : IsFrame F p.audio

  frame_of_lem :
      (a : PcmAudioFrame F)
      → IsFrame F a
      → frame_of F U a.pcm a.sample_rate a.frame_duration_ms a.channels a.client_speech_probability
          a.client_output_level a.client_echo_probability
        ≡ ok a
  unfolding frame_of
  frame_of_lem a f = ground arith

  decode_audio_lem :
      (encoded : List ℕ) (a : PcmAudioFrame F)
      → IsFrame F a
      → drop 40 encoded ≡ encode_audio F U a
      → decode_audio F U encoded ≡ ok a
  unfolding decode_audio encode_audio
  decode_audio_lem encoded a f e =
      let rate = read_u32_lem encoded 40 a.sample_rate _ (omega arith) e in
      let duration =
        read_u16_lem encoded 44 a.frame_duration_ms _ (omega arith)
          (drop_after encoded 40 4 _ _ e refl) in
      let speech =
        read_optional_f32_lem F encoded 48 a.client_speech_probability _ f.speech
          (drop_after encoded 40 8 _ _ e refl) in
      let level =
        read_optional_f32_lem F encoded 52 a.client_output_level _ f.level
          (drop_after encoded 40 12 _ _ e refl) in
      let echo =
        read_optional_f32_lem F encoded 56 a.client_echo_probability _ f.echo
          (drop_after encoded 40 16 _ _ e refl) in
      let channels : byte encoded 46 ≡ a.channels = omega (
        arith,
        get_or-drop_zero 46 encoded 0,
        ap (λ xs. get_or xs 0 0) (drop_after encoded 40 6 _ _ e refl),
        f.mono,
      ) in
      let pcm = drop_after encoded 40 20 _ _ e refl in
      rw (pcm, rate, duration, channels, speech, level, echo) (frame_of_lem a f)

  length-encode_audio : (a : PcmAudioFrame F) → length (encode_audio F U a) ≡ length a.pcm + 20
  unfolding encode_audio
  length-encode_audio a = omega arith

  kind_of-kind_byte : (k : MediaKind) → kind_of F U (kind_byte k) ≡ ok k
  unfolding kind_of
  kind_of-kind_byte input_audio = refl
  kind_of-kind_byte output_audio = refl

  IsIdentifier-unwrap_or : (g : Option ℕ) → IsGeneration g → IsIdentifier (unwrap_or g nil)
  IsIdentifier-unwrap_or none h = h
  IsIdentifier-unwrap_or (some g) h = h.0

  non_nil-unwrap_or : (g : Option ℕ) → IsGeneration g → non_nil F U (unwrap_or g nil) ≡ g
  unfolding non_nil
  non_nil-unwrap_or none h = ground arith
  non_nil-unwrap_or (some g) h = ground (arith, h.1)

  -- Encoding a packet within the limits of the format and decoding the bytes gives the packet
  -- back: the kind, both counters, the generation, the samples and every optional level.
  pub decode-encode : (p : MediaPacket F) → IsPacket p → decode F U (encode F U p) ≡ ok p
  unfolding decode decode_body encode
  decode-encode p w =
      let ids = as_bytes (unwrap_or p.generation_id nil) in
      let id = IsIdentifier-unwrap_or p.generation_id w.generation in
      let tail = encode_audio F U p.audio in
      let long : ltb (length (encode F U p)) 60 ≡ false =
        ground (arith, id.0, length-append ids tail, length-encode_audio p.audio) in
      let slice : take 16 (ids ++ tail) ≡ ids = take-append 16 ids tail id.0 in
      let after : drop 40 (encode F U p) ≡ tail = drop-append 16 ids tail id.0 in
      let sequence = read_u64_lem (encode F U p) 8 p.sequence _ w.sequence refl in
      let media_time = read_u64_lem (encode F U p) 16 p.media_time_us _ w.media_time refl in
      let audio = decode_audio_lem (encode F U p) p.audio w.frame after in
      rw (
        long,
        kind_of-kind_byte p.kind,
        slice,
        id.1,
        audio,
        sequence,
        media_time,
        non_nil-unwrap_or p.generation_id w.generation,
      )
