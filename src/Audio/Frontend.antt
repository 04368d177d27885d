-- ===== src/Audio/Frontend.antt =====
-- crates/openlive-audio/src/lib.rs: the acoustic frontend, which analyses one frame of samples.
-- `D` are the 64-bit floats of the mean square, with their square root and their conversion to `F`.
use openlive.Common.{
  ℕ, ◌+◌, ◌-◌, ◌*◌, ◌/◌, Bool, true, false, not, ◌&&◌, Option, none, some, List, ◌∷◌, ◌++◌, ◌==◌,
  ltb, leb, if◌then◌else◌, length, max,
}
use openlive.Common.Text.{Text, codes, decimal}
use openlive.Common.Float.{Float}
use openlive.Common.Result.{Result, ok, err}
use openlive.Protocol.Media.{PcmAudioFrame}
use openlive.Audio.{AudioAnalysis}

pub record Doubles (F : Float) : Type 1 where
  pub D : Float
  pub sqrt : D.F32 → D.F32
  pub narrow : D.F32 → F.F32

unfoldable pub expected_pcm_bytes : (F : Float) → PcmAudioFrame F → ℕ
expected_pcm_bytes F frame = frame.sample_rate * frame.frame_duration_ms * frame.channels * 2 / 1000

unfoldable pub validate_frame : (F : Float) → PcmAudioFrame F → Result Text Unit
validate_frame F frame =
    if not (frame.channels == 1)
    then err (codes "only mono input is supported")
    else if not (leb 8000 frame.sample_rate && leb frame.sample_rate 48000)
    then err (codes "input sample rate must be between 8 kHz and 48 kHz")
    else if not (leb 5 frame.frame_duration_ms && leb frame.frame_duration_ms 100)
    then err (codes "frame duration must be between 5 ms and 100 ms")
    else ok tt

-- `i16::from_le_bytes` as a 64-bit float.
unfoldable pub sample_of : (D : Float) → ℕ → ℕ → D.F32
sample_of D lo hi =
    let word = lo + 256 * hi in
    if ltb word 32768 then D.of_nat word else D.neg (D.of_nat (65536 - word))

-- The loop over `chunks_exact(2)`: the sum of the squares and the number of samples.
unfoldable pub square_sum : (D : Float) → List ℕ → D.F32 → ℕ → D.F32 × ℕ
square_sum D (lo ∷ (hi ∷ bytes)) sum_squares sample_count =
    let sample = D.div (sample_of D lo hi) (D.lit 32768 0) in
    square_sum D bytes (D.add sum_squares (D.mul sample sample)) (sample_count + 1)
square_sum D _ sum_squares sample_count = (sum_squares, sample_count)

module _ (F : Float) where
  open F use {F32, lit, sub, mul, div, mul_add, fmax, clamp, flt}

  pub record AcousticFrontend : Type 0 where
    pub noise_floor_rms : F32

  abbrev pub default_frontend : AcousticFrontend
  default_frontend = record { noise_floor_rms = lit 6 3 }

  abbrev unwrap_zero : Option F32 → F32
  unwrap_zero none = lit 0 0
  unwrap_zero (some x) = x

  abbrev is_present : Option F32 → Bool
  is_present none = false
  is_present (some x) = true

  unfoldable pub estimate_echo_probability : Bool → F32 → F32 → F32 → F32 → F32
  estimate_echo_probability assistant_playout_active output_level input_rms server client =
      if not assistant_playout_active
      then lit 0 0
      else if flt (lit 0 0) output_level
      then (let output_dominance =
            clamp (div output_level (fmax input_rms (lit 1 3))) (lit 0 0) (lit 1 0) in
          clamp (mul_add output_dominance (lit 75 2) (mul (sub server client) (lit 25 2))) (lit 0 0)
            (lit 95 2))
      else clamp (sub server client) (lit 0 0) (lit 35 2)

  abbrev mixed_echo : Option F32 → F32 → F32
  mixed_echo none server_echo = server_echo
  mixed_echo (some client_echo) server_echo =
      mul_add server_echo (lit 35 2) (mul (clamp client_echo (lit 0 0) (lit 1 0)) (lit 65 2))

  -- The noise floor follows quiet input while the assistant is silent.
  unfoldable pub adapt : AcousticFrontend → Bool → F32 → F32 → AcousticFrontend
  adapt a assistant_playout_active client rms =
      if not assistant_playout_active && flt client (lit 25 2)
      then record { noise_floor_rms = mul_add a.noise_floor_rms (lit 985 3) (mul rms (lit 15 3)) }
      else a

  -- What follows the checks of the frame, from its mean level.
  unfoldable pub analysis_of : AcousticFrontend → PcmAudioFrame F → Bool → F32 → AudioAnalysis F
  analysis_of a frame assistant_playout_active rms =
      let client = clamp (unwrap_zero frame.client_speech_probability) (lit 0 0) (lit 1 0) in
      let output_level = clamp (unwrap_zero frame.client_output_level) (lit 0 0) (lit 1 0) in
      let ratio = div rms (fmax a.noise_floor_rms (lit 1 3)) in
      let server = clamp (div (sub ratio (lit 18 1)) (lit 55 1)) (lit 0 0) (lit 1 0) in
      let raw_speech =
        if is_present frame.client_speech_probability
        then mul_add server (lit 45 2) (mul client (lit 55 2))
        else server in
      let echo =
        mixed_echo frame.client_echo_probability
          (estimate_echo_probability assistant_playout_active output_level rms server client) in
      let speech =
        clamp (mul raw_speech (sub (lit 1 0) (mul echo (lit 72 2)))) (lit 0 0) (lit 1 0) in
      record {
        speech_probability = speech;
        echo_probability = echo;
        target_speaker_probability = clamp (mul speech (sub (lit 1 0) echo)) (lit 0 0) (lit 1 0);
        rms = rms;
      }

  module _ (X : Doubles F) where
    open X use {D, sqrt, narrow}

    unfoldable pub pcm_rms : List ℕ → F32
    pcm_rms bytes =
        let (sum_squares, sample_count) = square_sum D bytes (D.lit 0 0) 0 in
        narrow (sqrt (D.div sum_squares (D.of_nat (max sample_count 1))))

    unfoldable pub analyze :
        AcousticFrontend → PcmAudioFrame F → Bool → AcousticFrontend × Result Text (AudioAnalysis F)
    analyze a frame assistant_playout_active = elim (validate_frame F frame) [
      | err message ↦ (a, err message)
      | ok u ↦
          let expected = expected_pcm_bytes F frame in
          if not (length frame.pcm == expected)
          then (
            a,
            err (
                codes "PCM length mismatch: expected "
                ++ (decimal expected ++ (codes " bytes, received " ++ decimal (length frame.pcm)))),
          )
          else (let rms = pcm_rms frame.pcm in
              let client =
                clamp (unwrap_zero frame.client_speech_probability) (lit 0 0) (lit 1 0) in
              let a' = adapt a assistant_playout_active client rms in
              (a', ok (analysis_of a' frame assistant_playout_active rms)))
    ]
