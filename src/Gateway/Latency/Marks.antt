-- ===== src/Gateway/Latency/Marks.antt =====
-- How often each latency phase of a generation is marked.
use openlive.Common.{
  ℕ, ◌+◌, ◌≡◌, refl, Bool, true, false, ◌||◌, ◌&&◌, not, List, [], ◌∷◌, ◌++◌, arith,
}
use openlive.Common.Float.{Float}
use openlive.Protocol.Event.{
  RealtimeEvent, LatencyPhase, LatencyMark, response_committed, first_provider_event,
  first_text_delta, first_audio_frame, provider_complete, cancel_requested,
}
use openlive.Gateway.Latency.{
  LatencyTracker, new_tracker, mark, mark_if, observe_audio, observe_event, is_text_delta,
  is_complete,
}

-- A call on the tracker, with the clock's reading.
pub data Call (F : Float) (J : Type 0) : Type 0 where
  events : ℕ → RealtimeEvent F J → Call F J
  audio : ℕ → Call F J

abbrev pub bit : Bool → ℕ
bit true = 1
bit false = 0

abbrev is_phase : LatencyPhase → LatencyPhase → Bool
is_phase first_provider_event first_provider_event = true
is_phase first_text_delta first_text_delta = true
is_phase first_audio_frame first_audio_frame = true
is_phase provider_complete provider_complete = true
is_phase response_committed response_committed = true
is_phase cancel_requested cancel_requested = true
is_phase _ _ = false

unfoldable pub count : LatencyPhase → List LatencyMark → ℕ
count p [] = 0
count p (m ∷ ms) = bit (is_phase m.phase p) + count p ms

count-append :
    (p : LatencyPhase) (xs ys : List LatencyMark) → count p (xs ++ ys) ≡ count p xs + count p ys
unfolding count
count-append p [] ys = omega arith
count-append p (x ∷ xs) ys = ground (arith, count-append p xs ys)

count-mark_if :
    (p q : LatencyPhase) (b : Bool) (s : LatencyTracker) (t : ℕ)
    → count p (mark_if b s t q) ≡ bit (b && is_phase q p)
unfolding count mark_if mark
count-mark_if p q true s t = omega arith
count-mark_if p q false s t = refl

count_two :
    (p q r : LatencyPhase) (a b : Bool) (s : LatencyTracker) (t : ℕ) (ms : List LatencyMark)
    → count p ((mark_if a s t q ++ mark_if b s t r) ++ ms)
      ≡ bit (a && is_phase q p) + (bit (b && is_phase r p) + count p ms)
count_two p q r a b s t ms = ground (
  arith,
  count-append p (mark_if a s t q ++ mark_if b s t r) ms,
  count-append p (mark_if a s t q) (mark_if b s t r),
  count-mark_if p q a s t,
  count-mark_if p r b s t,
)

count_three :
    (p q r u : LatencyPhase) (a b c : Bool) (s : LatencyTracker) (t : ℕ) (ms : List LatencyMark)
    → count p ((mark_if a s t q ++ (mark_if b s t r ++ mark_if c s t u)) ++ ms)
      ≡ bit (a && is_phase q p) + (bit (b && is_phase r p) + (bit (c && is_phase u p) + count p ms))
count_three p q r u a b c s t ms = ground (
  arith,
  count-append p (mark_if a s t q ++ (mark_if b s t r ++ mark_if c s t u)) ms,
  count-append p (mark_if a s t q) (mark_if b s t r ++ mark_if c s t u),
  count-append p (mark_if b s t r) (mark_if c s t u),
  count-mark_if p q a s t,
  count-mark_if p r b s t,
  count-mark_if p u c s t,
)

module _ (F : Float) (J : Type 0) where
  -- The tracker after a history of calls, newest first, and all its marks; it was made at `started`.
  unfoldable pub tracked : ℕ → List (Call F J) → LatencyTracker × List LatencyMark
  tracked started [] = (new_tracker started, [])
  tracked started (events t e ∷ h) =
      let (s, ms) = tracked started h in
      let (s', more) = observe_event F J s t e in (s', more ++ ms)
  tracked started (audio t ∷ h) =
      let (s, ms) = tracked started h in let (s', more) = observe_audio s t in (s', more ++ ms)

  abbrev pub any_call : List (Call F J) → Bool
  any_call [] = false
  any_call (c ∷ h) = true

  abbrev pub any_text : List (Call F J) → Bool
  any_text [] = false
  any_text (events t e ∷ h) = any_text h || is_text_delta F J e
  any_text (audio t ∷ h) = any_text h

  abbrev pub any_audio : List (Call F J) → Bool
  any_audio [] = false
  any_audio (events t e ∷ h) = any_audio h
  any_audio (audio t ∷ h) = true

  abbrev pub completions : List (Call F J) → ℕ
  completions [] = 0
  completions (events t e ∷ h) = bit (is_complete F J e) + completions h
  completions (audio t ∷ h) = completions h

  abbrev Counts : LatencyTracker → List LatencyMark → List (Call F J) → Type 0
  Counts s ms h =
      ((s.first_provider_event ≡ any_call h)
        × (s.first_text_delta ≡ any_text h)
        × (s.first_audio_frame ≡ any_audio h))
      × ((count first_provider_event ms ≡ bit (any_call h))
          × (count first_text_delta ms ≡ bit (any_text h))
          × (count first_audio_frame ms ≡ bit (any_audio h))
          × (count provider_complete ms ≡ completions h))

  observe_event-Counts :
      (s : LatencyTracker) (ms : List LatencyMark) (t : ℕ) (e : RealtimeEvent F J)
      (h : List (Call F J))
      → Counts s ms h
      → Counts (observe_event F J s t e).0 ((observe_event F J s t e).1 ++ ms) (events t e ∷ h)
  unfolding observe_event
  observe_event-Counts s ms t e h ((a, b, c), (i, j, k, l)) =
      let at = λ (p : LatencyPhase).
        count_three p first_provider_event first_text_delta provider_complete
          (not s.first_provider_event) (is_text_delta F J e && not s.first_text_delta)
          (is_complete F J e) s t ms in
      (
        (refl, ground (arith, b), c),
        (
          ground (arith, at first_provider_event, a, i),
          ground (arith, at first_text_delta, b, j),
          ground (arith, at first_audio_frame, c, k),
          ground (arith, at provider_complete, l),
        ),
      )

  observe_audio-Counts :
      (s : LatencyTracker) (ms : List LatencyMark) (t : ℕ) (h : List (Call F J))
      → Counts s ms h
      → Counts (observe_audio s t).0 ((observe_audio s t).1 ++ ms) (audio t ∷ h)
  unfolding observe_audio
  observe_audio-Counts s ms t h ((a, b, c), (i, j, k, l)) =
      let at = λ (p : LatencyPhase).
        count_two p first_provider_event first_audio_frame (not s.first_provider_event)
          (not s.first_audio_frame) s t ms in
      (
        (refl, b, refl),
        (
          ground (arith, at first_provider_event, a, i),
          ground (arith, at first_text_delta, b, j),
          ground (arith, at first_audio_frame, c, k),
          ground (arith, at provider_complete, l),
        ),
      )

  tracked-Counts :
      (started : ℕ) (h : List (Call F J)) → Counts (tracked started h).0 (tracked started h).1 h
  unfolding tracked count
  tracked-Counts started [] = ((refl, refl, refl), (refl, refl, refl, refl))
  tracked-Counts started (events t e ∷ h) =
      observe_event-Counts (tracked started h).0 (tracked started h).1 t e h
        (tracked-Counts started h)
  tracked-Counts started (audio t ∷ h) =
      observe_audio-Counts (tracked started h).0 (tracked started h).1 t h
        (tracked-Counts started h)

  -- Over the life of a generation, the first provider event, the first text delta and the first
  -- audio frame are each marked once if there was one and else never, in whatever order events and
  -- audio come; the completion is marked once for each time that the provider reports it.
  pub marks_once :
      (started : ℕ) (h : List (Call F J))
      → (count first_provider_event (tracked started h).1 ≡ bit (any_call h))
        × (count first_text_delta (tracked started h).1 ≡ bit (any_text h))
        × (count first_audio_frame (tracked started h).1 ≡ bit (any_audio h))
        × (count provider_complete (tracked started h).1 ≡ completions h)
  marks_once started h = (tracked-Counts started h).1
