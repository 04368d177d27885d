-- ===== src/Runtime/Engine/Timeline.antt =====
-- Which events the engine takes.
use openlive.Common.{
  ℕ, ◌≤◌, ◌<◌, ◌≡◌, ◌⊎◌, inl, inr, refl, Option, none, some, List, [], ◌∷◌, arith, length, u64_mod,
  ◌+◌, ◌==◌, ltb, Bool-cases,
}
use openlive.Common.Text.{Text}
use openlive.Common.Float.{Float}
use openlive.Common.Result.{ok, err}
use openlive.Protocol.Event.{EventEnvelope, RealtimeEvent}
use openlive.Runtime.Chronos.{ChronosDecision}
use openlive.Runtime.Chronos.Observe.{observe}
use openlive.Runtime.Engine.{
  SessionEngine, RuntimeError, session_mismatch, non_monotonic_media_time, decision_envelope,
  publish, consume, process,
}

module _ (F : Float) (J : Type 0) where
  -- What an event needs to be taken.
  abbrev pub IsNext : SessionEngine F → EventEnvelope F J → Type 0
  IsNext s event = (event.session_id ≡ s.session_id) × (s.last_media_time_us ≤ event.media_time_us)

  -- Envelopes of one session, numbered from `n` + 1 upwards.
  abbrev pub Numbered : ℕ → ℕ → List (EventEnvelope F J) → Type 0
  Numbered session n [] = Unit {0}
  Numbered session n (x ∷ xs) =
      (x.session_id ≡ session) × (x.sequence ≡ n + 1) × Numbered session (n + 1) xs

  -- From session `session` at sequence number `n`, an engine came to `s` and gave out `out`.
  pub record Takes (session n : ℕ) (s : SessionEngine F) (out : List (EventEnvelope F J))
      : Type 0 where
    pub same_session : s.session_id ≡ session
    pub counted : s.sequence ≡ n + length out
    pub at_most_one : length out ≤ 1
    pub numbered : Numbered session n out

module _ (F : Float) (J : Type 0) (new_v5 : ℕ → Text → ℕ) (uuid_text : ℕ → Text) where
  publish-Takes :
      (s : SessionEngine F) (envelope : EventEnvelope F J) (d : Option (ChronosDecision F))
      → s.sequence + 1 < u64_mod
      → (out : List (EventEnvelope F J)) × ((publish F J new_v5 uuid_text s envelope d).1 ≡ ok out)
        × Takes F J s.session_id s.sequence (publish F J new_v5 uuid_text s envelope d).0 out
        × ((publish F J new_v5 uuid_text s envelope d).0.last_media_time_us ≡ s.last_media_time_us)
  unfolding publish decision_envelope
  publish-Takes s envelope none b = ([], refl, ground arith, refl)
  publish-Takes s envelope (some d) b = (_, refl, ground arith, refl)

  consume-Takes :
      (s : SessionEngine F) (envelope : EventEnvelope F J) (event : RealtimeEvent F J)
      → s.sequence + 1 < u64_mod
      → (out : List (EventEnvelope F J)) × ((consume F J new_v5 uuid_text s envelope event).1
          ≡ ok out)
        × Takes F J s.session_id s.sequence (consume F J new_v5 uuid_text s envelope event).0 out
        × ((consume F J new_v5 uuid_text s envelope event).0.last_media_time_us
            ≡ s.last_media_time_us)
  unfolding consume
  consume-Takes s envelope (RealtimeEvent.observation o) b =
      let (chronos, d) = observe F s.chronos envelope.event_id envelope.media_time_us o in
      let (out, e, t, l) = publish-Takes (record s { chronos = chronos }) envelope d b in
      (out, e, t, l)
  consume-Takes s envelope _ b = ([], refl, ground arith, refl)

  -- An engine takes an event of its own session that does not go back in time: it moves its clock to
  -- the event, and gives out at most one envelope, of its session and under the next sequence
  -- number. It refuses every other event with an error, and stays as it was.
  pub process_total :
      (s : SessionEngine F) (event : EventEnvelope F J)
      → s.sequence + 1 < u64_mod
      → (IsNext F J s event
          × ((out : List (EventEnvelope F J)) × ((process F J new_v5 uuid_text s event).1 ≡ ok out)
              × Takes F J s.session_id s.sequence (process F J new_v5 uuid_text s event).0 out
              × ((process F J new_v5 uuid_text s event).0.last_media_time_us
                  ≡ event.media_time_us)))
        ⊎ ((¬ IsNext F J s event)
            × ((e : RuntimeError) × (process F J new_v5 uuid_text s event ≡ (s, err e))))
  unfolding process
  process_total s event b = elim (Bool-cases (event.session_id == s.session_id)) [
    | inr other ↦
        inr (λ n. ground arith, (session_mismatch s.session_id event.session_id, rw other))
    | inl same ↦ elim (Bool-cases (ltb event.media_time_us s.last_media_time_us)) [
      | inl back ↦ inr (
        λ n. ground arith,
        (non_monotonic_media_time s.last_media_time_us event.media_time_us, rw (same, back)),
      )
      | inr onward ↦
          let s' = record s { last_media_time_us = event.media_time_us } in
          let (out, e, t, l) = consume-Takes s' event event.event b in
          inl (ground arith, (out, rw (same, onward) e, rw (same, onward) t, rw (same, onward) l))
    ]
  ]
