-- ===== src/Runtime/Engine/Replay.antt =====
-- What the replay of recorded events gives.
use mathlib.Core.List.{append-nil, append_assoc}
use mathlib.Core.Path.{subst, subst₂}
use openlive.Common.{
  ℕ, ◌+◌, ◌≤◌, ◌<◌, ◌≡◌, ◌⊎◌, inl, inr, ◌∙◌, sym, ap, List, [], ◌∷◌, ◌++◌, arith, length,
  length-append, u64_mod,
}
use openlive.Common.Text.{Text}
use openlive.Common.Float.{Float}
use openlive.Common.Result.{ok, err}
use openlive.Protocol.Interaction.{InteractionProfile}
use openlive.Protocol.Event.{EventEnvelope}
use openlive.Runtime.Chronos.{ChronosConfig}
use openlive.Runtime.Engine.{SessionEngine, RuntimeError, new, process, replay_from, replay}
use openlive.Runtime.Engine.Timeline.{Numbered, process_total}

module _ (F : Float) (J : Type 0) where
  -- Events of one session whose media times never fall below `last` nor below an earlier one.
  abbrev pub IsTimeline : ℕ → ℕ → List (EventEnvelope F J) → Type 0
  IsTimeline session last [] = Unit {0}
  IsTimeline session last (x ∷ xs) =
      (x.session_id ≡ session) × (last ≤ x.media_time_us) × IsTimeline session x.media_time_us xs

  Numbered-append :
      (session n m : ℕ) (xs ys : List (EventEnvelope F J))
      → m ≡ n + length xs
      → Numbered F J session n xs
      → Numbered F J session m ys
      → Numbered F J session n (xs ++ ys)
  Numbered-append session n m [] ys e h k = subst (λ i. Numbered F J session i ys) (omega arith) k
  Numbered-append session n m (x ∷ xs) ys e h k =
      (h.0, h.1, Numbered-append session (n + 1) m xs ys (omega arith) h.2 k)

module _ (F : Float) (J : Type 0) (new_v5 : ℕ → Text → ℕ) (uuid_text : ℕ → Text) where
  -- The events of a timeline are all taken, and what they bring is numbered on from the engine's
  -- sequence number; on any other list the replay ends with an error.
  pub replay_from_total :
      (s : SessionEngine F) (out events : List (EventEnvelope F J))
      → s.sequence + length events < u64_mod
      → (IsTimeline F J s.session_id s.last_media_time_us events
          × ((more : List (EventEnvelope F J)) × (replay_from F J new_v5 uuid_text s out events
                ≡ ok (out ++ more))
              × Numbered F J s.session_id s.sequence more
              × (length more ≤ length events)))
        ⊎ ((¬ IsTimeline F J s.session_id s.last_media_time_us events)
            × ((e : RuntimeError) × (replay_from F J new_v5 uuid_text s out events ≡ err e)))
  unfolding replay_from
  replay_from_total s out [] b = inl (tt, ([], ap ok (sym (append-nil out)), tt, omega arith))
  replay_from_total s out (x ∷ xs) b = elim (process_total F J new_v5 uuid_text s x (omega arith)) [
    | inr (stop, (e, eq)) ↦ inr (λ t. stop (t.0, t.1), (e, rw (eq, replay_from)))
    | inl (next, (one, eq, takes, moved)) ↦
        let s' = (process F J new_v5 uuid_text s x).0 in
        elim (replay_from_total s' (out ++ one) xs (omega arith)) [
          | inr (stop, (e, fails)) ↦ inr (
            λ t.
                stop
                  (subst₂ (λ i l. IsTimeline F J i l xs) (sym takes.same_session) (sym moved) t.2),
            (e, rw (eq, replay_from) fails),
          )
          | inl (timeline, (more, gives, numbered, few)) ↦ inl (
            (
              next.0,
              next.1,
              subst₂ (λ i l. IsTimeline F J i l xs) takes.same_session moved timeline,
            ),
            (
              one ++ more,
              rw (eq, replay_from) (gives ∙ ap ok (append_assoc out one more)),
              Numbered-append F J s.session_id s.sequence s'.sequence one more takes.counted
                  takes.numbered
                  (subst (λ i. Numbered F J i s'.sequence more) takes.same_session numbered),
              omega (arith, length-append one more),
            ),
          )
        ]
  ]

  -- A replay succeeds exactly on the timelines of its session: events of that session in
  -- non-decreasing media time. Then its output has at most one envelope for each event, all of the
  -- session and numbered 1, 2, 3 and so on (for fewer than 2^64 events); else it is an error.
  pub replay_total :
      (session_id : ℕ) (config : ChronosConfig F) (profile : InteractionProfile)
      (events : List (EventEnvelope F J))
      → length events < u64_mod
      → (IsTimeline F J session_id 0 events
          × ((out : List (EventEnvelope F J)) × (replay F J new_v5 uuid_text session_id config
                  profile events
                ≡ ok out)
              × Numbered F J session_id 0 out
              × (length out ≤ length events)))
        ⊎ ((¬ IsTimeline F J session_id 0 events)
            × ((e : RuntimeError) × (replay F J new_v5 uuid_text session_id config profile events
                  ≡ err e)))
  unfolding replay new
  replay_total session_id config profile events b =
      replay_from_total (new F session_id config profile) [] events (omega arith)
