-- ===== src/Gateway/Timeline/Ordered.antt =====
-- The order of what a client may report, the spacing of telemetry, and the playout of an answer.
use openlive.Common.{
  ℕ, ◌+◌, ◌≤◌, ◌<◌, ◌≡◌, ◌⊎◌, inl, inr, refl, sym, ap, ◌∙◌, Bool, true, false, Option, none, some,
  List, [], ◌∷◌, arith, ltb, leb, All, Bool-cases, Option-cases,
}
use mathlib.Core.Logic.{if_pos, if_neg, ite, ◌≢◌}
use openlive.Common.Map.{lookup, insert, lookup-insert, lookup-insert_self}
use openlive.Common.Text.{Text, text_discrete}
use openlive.Common.Result.{Result, ok, err}
use openlive.Gateway.Timeline.{
  ClientTimeline, new_timeline, observe_client, moves_backward, TelemetryGate, should_publish,
}

-- What a client reports: its sequence number, a stream and the media time in that stream.
pub record Report : Type 0 where
  pub sequence : ℕ
  pub stream_id : Text
  pub media_time_us : ℕ

-- The timeline after a history of reports, newest first, and the reports that it accepted.
abbrev note :
    ClientTimeline × Result Text Unit → Report → List Report → ClientTimeline × List Report
note (c, ok u) r rs = (c, r ∷ rs)
note (c, err e) r rs = (c, rs)

unfoldable pub accepted : List Report → ClientTimeline × List Report
accepted [] = (new_timeline, [])
accepted (r ∷ h) =
    let (c, rs) = accepted h in note (observe_client c r.sequence r.stream_id r.media_time_us) r rs

abbrev Precedes : Report → Report → Type 0
Precedes q r =
    (q.sequence < r.sequence) × ((q.stream_id ≢ r.stream_id) ⊎ (q.media_time_us ≤ r.media_time_us))

-- Newest first: each report comes after all those behind it.
abbrev pub IsOrdered : List Report → Type 0
IsOrdered [] = Unit {0}
IsOrdered (r ∷ rs) = All (λ q. Precedes q r) rs × IsOrdered rs

abbrev Within : ClientTimeline → Report → Type 0
Within c q =
    (q.sequence ≤ c.last_sequence)
    × ((t : ℕ) × (lookup text_discrete q.stream_id c.stream_media_times ≡ some t)
        × (q.media_time_us ≤ t))

Precedes-new :
    (c : ClientTimeline) (r q : Report)
    → leb r.sequence c.last_sequence ≡ false
    → moves_backward (lookup text_discrete r.stream_id c.stream_media_times) r.media_time_us ≡ false
    → Within c q
    → Precedes q r
Precedes-new c r q h k (a, (t, e, b)) = (
  ground arith,
  elim (text_discrete q.stream_id r.stream_id) [
    | yes s ↦
        inr (ground (arith, sym (ap (λ x. lookup text_discrete x c.stream_media_times) s) ∙ e))
    | no other ↦ inl other
  ],
)

Within-new :
    (c : ClientTimeline) (r q : Report)
    → leb r.sequence c.last_sequence ≡ false
    → moves_backward (lookup text_discrete r.stream_id c.stream_media_times) r.media_time_us ≡ false
    → Within c q
    → Within
        (record {
          last_sequence = r.sequence;
          stream_media_times =
              insert text_discrete r.stream_id r.media_time_us c.stream_media_times;
        })
        q
Within-new c r q h k (a, (t, e, b)) = (
  ground arith,
  elim (text_discrete r.stream_id q.stream_id) [
    | yes same ↦ (
      r.media_time_us,
      lookup-insert text_discrete r.stream_id q.stream_id r.media_time_us c.stream_media_times
          ∙ if_pos (text_discrete r.stream_id q.stream_id) same _ _,
      ground (arith, ap (λ x. lookup text_discrete x c.stream_media_times) same ∙ e),
    )
    | no other ↦ (
      t,
      lookup-insert text_discrete r.stream_id q.stream_id r.media_time_us c.stream_media_times
          ∙ (if_neg (text_discrete r.stream_id q.stream_id) other _ _ ∙ e),
      b,
    )
  ],
)

record Orders (c : ClientTimeline) (rs : List Report) : Type 0 where
  within : All (λ q. Within c q) rs
  ordered : IsOrdered rs

All-map :
    (P Q : Report → Type 0) (rs : List Report) → ((q : Report) → P q → Q q) → All P rs → All Q rs
All-map P Q [] f a = tt
All-map P Q (q ∷ rs) f (p, a) = (f q p, All-map P Q rs f a)

observe_client-Orders :
    (c : ClientTimeline) (r : Report) (rs : List Report)
    → Orders c rs
    → let (c', rs') = note (observe_client c r.sequence r.stream_id r.media_time_us) r rs in
      Orders c' rs'
unfolding observe_client
observe_client-Orders c r rs o = elim (Bool-cases (leb r.sequence c.last_sequence)) [
  | inl late ↦ rw late o
  | inr next ↦
      elim (Bool-cases
        (moves_backward (lookup text_discrete r.stream_id c.stream_media_times) r.media_time_us)) [
          | inl back ↦ rw (next, back) o
          | inr on ↦
              rw (next, on)
                (record {
                  within = (
                    (
                      omega arith,
                      (
                        r.media_time_us,
                        lookup-insert_self text_discrete r.stream_id r.media_time_us
                            c.stream_media_times,
                        omega arith,
                      ),
                    ),
                    All-map _ _ rs (λ q w. Within-new c r q next on w) o.within,
                  );
                  ordered =
                      (All-map _ _ rs (λ q w. Precedes-new c r q next on w) o.within, o.ordered);
                })
        ]
]

accepted-Orders : (h : List Report) → let (c, rs) = accepted h in Orders c rs
unfolding accepted
accepted-Orders [] = record { within = tt; ordered = tt }
accepted-Orders (r ∷ h) =
    let (c, rs) = accepted h in observe_client-Orders c r rs (accepted-Orders h)

-- Whatever a client reports, the reports that a new timeline accepts have strictly increasing
-- sequence numbers, and within each stream their media times never move backward.
pub accepted-IsOrdered : (h : List Report) → IsOrdered (accepted h).1
accepted-IsOrdered h = (accepted-Orders h).ordered

-- A report is refused exactly if its sequence number does not exceed the last one, or the stream's
-- last media time lies after its own; a refused report leaves the timeline as it was.
pub observe_client_refuses :
    (c : ClientTimeline) (sequence : ℕ) (stream_id : Text) (media_time_us : ℕ)
    → let (c', result) = observe_client c sequence stream_id media_time_us in
      (((sequence ≤ c.last_sequence)
          ⊎ ((t : ℕ) × (lookup text_discrete stream_id c.stream_media_times ≡ some t)
              × (media_time_us < t)))
        × ((e : Text) × (result ≡ err e))
        × (c' ≡ c))
      ⊎ ((c.last_sequence < sequence)
          × (result ≡ ok tt)
          × (c'.last_sequence ≡ sequence)
          × ((s : Text)
              → lookup text_discrete s c'.stream_media_times
                ≡ ite
                    (text_discrete stream_id s)
                    (some media_time_us)
                    (lookup text_discrete s c.stream_media_times)))
unfolding observe_client
observe_client_refuses c n s t = elim (Bool-cases (leb n c.last_sequence)) [
  | inl late ↦ rw late (inl (inl (ground arith), (_, refl), refl))
  | inr next ↦ elim (Option-cases (lookup text_discrete s c.stream_media_times)) [
    | inl new ↦
        rw (next, new)
          (inr
            (ground arith, refl, refl, λ x. lookup-insert text_discrete s x t c.stream_media_times))
    | inr (u, last) ↦ elim (Bool-cases (ltb t u)) [
      | inl back ↦ rw (next, last, back) (inl (inr (u, refl, ground arith), (_, refl), refl))
      | inr on ↦
          rw (next, last, on)
            (inr (
              ground arith,
              refl,
              refl,
              λ x. lookup-insert text_discrete s x t c.stream_media_times,
            ))
    ]
  ]
]

-- The gate after a history of telemetry offers, newest first, and the offers that it let through.
-- Each offer has its media time and whether it is forced.
abbrev let_through :
    TelemetryGate × Bool → ℕ × Bool → List (ℕ × Bool) → TelemetryGate × List (ℕ × Bool)
let_through (g, true) o os = (g, o ∷ os)
let_through (g, false) o os = (g, os)

unfoldable pub published : List (ℕ × Bool) → TelemetryGate × List (ℕ × Bool)
published [] = (record { last_media_time_us = none }, [])
published ((t, force) ∷ h) =
    let (g, os) = published h in let_through (should_publish g t force) (t, force) os

-- Newest first: each is forced, or lies at least 100 milliseconds after the one before.
abbrev pub IsSpaced : List (ℕ × Bool) → Type 0
IsSpaced [] = Unit {0}
IsSpaced (o ∷ []) = Unit {0}
IsSpaced ((t, force) ∷ ((u, before) ∷ os)) =
    ((force ≡ true) ⊎ (u + 100000 ≤ t)) × IsSpaced ((u, before) ∷ os)

abbrev newest : List (ℕ × Bool) → Option ℕ
newest [] = none
newest ((t, force) ∷ os) = some t

published_lem :
    (h : List (ℕ × Bool))
    → ((published h).0.last_media_time_us ≡ newest (published h).1) × IsSpaced (published h).1
unfolding published should_publish
published_lem [] = (refl, tt)
published_lem ((t, force) ∷ h) = ground (arith, published_lem h)

-- Whatever is offered, the telemetry that a new gate lets through is forced or lies at least 100
-- milliseconds of media time after the telemetry let through before it.
pub published-IsSpaced : (h : List (ℕ × Bool)) → IsSpaced (published h).1
published-IsSpaced h = (published_lem h).1
