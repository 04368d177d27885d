-- ===== src/Protocol/Media/Accepted.antt =====
-- What the decoder of the binary packet accepts.
use openlive.Common.{
  ltb, not, ◌==◌, Bool, true, false, if◌then◌else◌, ℕ, ◌≤◌, ◌<◌, ◌≡◌, ◌≢◌, refl, Option, some, List,
  [], ◌∷◌, arith, length, drop, take,
}
use openlive.Common.Float.{Float}
use openlive.Common.Result.{ok, err, ◌>>=◌, Result}
use openlive.Protocol.Media.{
  PcmAudioFrame, MediaPacket, Uuids, truncated, invalid_magic, unsupported_version, wire_version,
  header_len, magic_matches, byte, kind_of, or_invalid, non_nil, frame_of, decode_audio,
  decode_body, decode,
}

module _ {E A B : Type 0} where
  bind-ok :
      (m : Result E A) (f : A → Result E B) {b : B}
      → (m >>= f) ≡ ok b
      → (a : A) × (m ≡ ok a) × (f a ≡ ok b)
  bind-ok (ok a) f h = (a, refl, h)
  bind-ok (err e) f h = cc

module _ {E A : Type 0} where
  -- A guard that did not fail.
  guard-ok :
      (b : Bool) (e : E) (r : Result E A) {a : A} → (if b then err e else r) ≡ ok a → r ≡ ok a
  guard-ok true e r h = cc
  guard-ok false e r h = h

module _ (F : Float) (U : Uuids) where
  -- The limits on a decoded frame.
  pub record IsAccepted (pcm : List ℕ) (a : PcmAudioFrame F) : Type 0 where
    pub payload : a.pcm ≡ pcm
    pub samples : 0 < length pcm
    pub mono : a.channels ≡ 1
    pub rate : (8000 ≤ a.sample_rate) × (a.sample_rate ≤ 48000)
    pub duration : (5 ≤ a.frame_duration_ms) × (a.frame_duration_ms ≤ 100)

  frame_of-IsAccepted :
      (pcm : List ℕ) (rate duration channels : ℕ) (s l e : Option F.F32) (a : PcmAudioFrame F)
      → frame_of F U pcm rate duration channels s l e ≡ ok a
      → IsAccepted pcm a
  unfolding frame_of
  frame_of-IsAccepted [] rate duration channels s l e a h = cc
  frame_of-IsAccepted (b ∷ bs) rate duration channels s l e a h = ground arith

  non_nil-ne : (g : ℕ) → non_nil F U g ≢ some U.nil
  unfolding non_nil
  non_nil-ne g h = ground arith

  decode_body_sound :
      (encoded : List ℕ) (p : MediaPacket F)
      → decode_body F U encoded ≡ ok p
      → IsAccepted (drop 60 encoded) p.audio × (p.generation_id ≢ some U.nil)
  unfolding decode_body decode_audio
  decode_body_sound encoded p h =
      let (k, hk, h₁) = bind-ok (kind_of F U (byte encoded 5)) _ h in
      let (g, hg, h₂) = bind-ok (or_invalid F U (U.from_slice (take 16 (drop 24 encoded)))) _ h₁ in
      let (a, ha, h₃) = bind-ok (decode_audio F U encoded) _ h₂ in
      let accepted = frame_of-IsAccepted (drop 60 encoded) _ _ _ _ _ _ a ha in
      (ground arith, λ e. ground (arith, non_nil-ne g))

  -- Whatever bytes `decode` accepts, there are more than sixty of them, the packet's samples are
  -- the bytes from offset 60 on, the audio is mono with its rate and duration within the limits,
  -- and the generation is never the nil identifier.
  pub decode_sound :
      (encoded : List ℕ) (p : MediaPacket F)
      → decode F U encoded ≡ ok p
      → IsAccepted (drop 60 encoded) p.audio × (p.generation_id ≢ some U.nil)
  unfolding decode
  decode_sound encoded p h =
      let version = not (byte encoded 4 == wire_version) in
      let magic = not (magic_matches F U encoded) in
      let e = unsupported_version (byte encoded 4) in
      let rest = if version then err e else decode_body F U encoded in
      let checked = if magic then err invalid_magic else rest in
      decode_body_sound encoded p (
        guard-ok version e (decode_body F U encoded) (
          guard-ok magic invalid_magic rest
            (guard-ok (ltb (length encoded) header_len) truncated checked h)))
