-- ===== src/Runtime/Chronos/Backchannels.antt =====
-- How often Chronos answers with a backchannel while the user speaks.
use openlive.Common.{ℕ, ◌≤◌, ◌≡◌, refl, true, Option, none, some, List, [], ◌∷◌, arith}
use openlive.Common.Float.{Float}
use openlive.Protocol.Interaction.{InteractionProfile, Observation, InteractionAction}
use openlive.Runtime.Chronos.{
  ChronosConfig, ChronosDecision, Chronos, FloorState, listening, user_speaking, user_pause,
  response_pending, assistant_speaking, soft_ducked, yielded, elapsed_ms,
  effective_speech_probability, should_backchannel, new, update_profile, mark_response_started,
  mark_response_complete,
}
use openlive.Runtime.Chronos.Observe.{observe, dispatch}

-- A call on the state machine.
pub data Call (F : Float) : Type 0 where
  observes : (event_id media_time_us : ℕ) → Observation F → Call F
  starts completes : (generation_id : ℕ) → Call F
  profiles : InteractionProfile → Call F

module _ (F : Float) where
  abbrev backchannel_at : ℕ → Option (ChronosDecision F) → List ℕ → List ℕ
  backchannel_at t none ts = ts
  backchannel_at t (some d) ts = elim d.action [ InteractionAction.backchannel ↦ t ∷ ts | _ ↦ ts ]

  -- The state after a history of calls, newest first.
  unfoldable pub after : Chronos F → List (Call F) → Chronos F
  after c [] = c
  after c (observes e t o ∷ h) = (observe F (after c h) e t o).0
  after c (starts g ∷ h) = mark_response_started F (after c h) g
  after c (completes g ∷ h) = mark_response_complete F (after c h) g
  after c (profiles p ∷ h) = update_profile F (after c h) p

  -- The media times of the backchannels that the history brought, newest first.
  unfoldable pub backchannels : Chronos F → List (Call F) → List ℕ
  backchannels c [] = []
  backchannels c (observes e t o ∷ h) =
      backchannel_at t (observe F (after c h) e t o).1 (backchannels c h)
  backchannels c (starts g ∷ h) = backchannels c h
  backchannels c (completes g ∷ h) = backchannels c h
  backchannels c (profiles p ∷ h) = backchannels c h

  -- Each time lies at least `gap` milliseconds after the one before it.
  abbrev pub IsSpaced : ℕ → List ℕ → Type 0
  IsSpaced gap [] = Unit {0}
  IsSpaced gap (t ∷ []) = Unit {0}
  IsSpaced gap (t ∷ (u ∷ ts)) = (gap ≤ elapsed_ms t u) × IsSpaced gap (u ∷ ts)

  abbrev newest : List ℕ → Option ℕ
  newest [] = none
  newest (t ∷ ts) = some t

  record Remembers (config : ChronosConfig F) (c : Chronos F) (ts : List ℕ) : Type 0 where
    same_config : c.config ≡ config
    last : c.last_backchannel_us ≡ newest ts
    spaced : IsSpaced config.backchannel_spacing_ms ts

  IsSpaced-backchannel :
      (config : ChronosConfig F) (c : Chronos F) (t since : ℕ) (ts : List ℕ)
      → Remembers config c ts
      → should_backchannel F c t since ≡ true
      → IsSpaced config.backchannel_spacing_ms (t ∷ ts)
  unfolding should_backchannel
  IsSpaced-backchannel config c t since [] r h = tt
  IsSpaced-backchannel config c t since (u ∷ ts) r h =
      ground (arith, r.same_config, r.last, r.spaced)

  dispatch-Remembers :
      (s : FloorState) (config : ChronosConfig F) (c : Chronos F) (e t : ℕ) (speech : F.F32)
      (o : Observation F) (ts : List ℕ)
      → Remembers config c ts
      → Remembers config
          (dispatch F s c e t speech o).0
          (backchannel_at t (dispatch F s c e t speech o).1 ts)
  unfolding dispatch
  dispatch-Remembers listening config c e t speech o ts r = ground arith
  dispatch-Remembers (user_speaking since) config c e t speech o ts r =
      ground (arith, IsSpaced-backchannel config c t since ts r)
  dispatch-Remembers (user_pause since silence) config c e t speech o ts r = ground arith
  dispatch-Remembers response_pending config c e t speech o ts r = ground arith
  dispatch-Remembers (assistant_speaking g) config c e t speech o ts r = ground arith
  dispatch-Remembers (soft_ducked g since) config c e t speech o ts r = ground arith
  dispatch-Remembers yielded config c e t speech o ts r = ground arith

  after-Remembers :
      (config : ChronosConfig F) (profile : InteractionProfile) (h : List (Call F))
      → Remembers config (after (new F config profile) h) (backchannels (new F config profile) h)
  unfolding after backchannels new observe mark_response_started mark_response_complete
      update_profile
  after-Remembers config profile [] = record { same_config = refl; last = refl; spaced = tt }
  after-Remembers config profile (observes e t o ∷ h) =
      let c = after (new F config profile) h in
      dispatch-Remembers c.state config c e t (effective_speech_probability F o) o
        (backchannels (new F config profile) h) (after-Remembers config profile h)
  after-Remembers config profile (starts g ∷ h) = ground (arith, after-Remembers config profile h)
  after-Remembers config profile (completes g ∷ h) =
      ground (arith, after-Remembers config profile h)
  after-Remembers config profile (profiles p ∷ h) = ground (arith, after-Remembers config profile h)

  -- Whatever is observed, started, completed or reconfigured in between, two backchannels in a row
  -- lie at least `backchannel_spacing_ms` apart.
  pub backchannels-IsSpaced :
      (config : ChronosConfig F) (profile : InteractionProfile) (h : List (Call F))
      → IsSpaced config.backchannel_spacing_ms (backchannels (new F config profile) h)
  backchannels-IsSpaced config profile h = (after-Remembers config profile h).spaced
