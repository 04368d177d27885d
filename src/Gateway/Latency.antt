-- ===== src/Gateway/Latency.antt =====
-- apps/openlive-gateway/src/session_state.rs, lines 14 to 78: the latency marks of a generation. An
-- `Instant` is nanoseconds of the monotonic clock; its reading is an argument of each call.
pub mod Marks
use openlive.Common.{
  ℕ, ◌-◌, ◌/◌, Bool, true, false, ◌&&◌, ◌||◌, not, List, [], ◌∷◌, ◌++◌, leb, if◌then◌else◌, u64_max,
}
use openlive.Common.Float.{Float}
use openlive.Protocol.Event.{
  RealtimeEvent, LatencyPhase, LatencyMark, ProviderState, complete, first_provider_event,
  first_text_delta, first_audio_frame, provider_complete,
}

pub record LatencyTracker : Type 0 where
  pub started_at : ℕ
  pub first_provider_event : Bool
  pub first_text_delta : Bool
  pub first_audio_frame : Bool

pub record ActiveGeneration : Type 0 where
  pub id : ℕ
  pub base_media_time_us : ℕ
  pub latency : LatencyTracker

abbrev pub new_tracker : ℕ → LatencyTracker
new_tracker now = record {
  started_at = now;
  first_provider_event = false;
  first_text_delta = false;
  first_audio_frame = false;
}

-- `u64::try_from(..).unwrap_or(u64::MAX)` of the microseconds since the tracker was made.
abbrev elapsed_us : LatencyTracker → ℕ → ℕ
elapsed_us t now =
    let micros = (now - t.started_at) / 1000 in if leb micros u64_max then micros else u64_max

unfoldable pub mark : LatencyTracker → ℕ → LatencyPhase → LatencyMark
mark t now phase = record { phase = phase; elapsed_us = elapsed_us t now }

-- The mark of a phase, if it is due.
unfoldable pub mark_if : Bool → LatencyTracker → ℕ → LatencyPhase → List LatencyMark
mark_if true t now phase = mark t now phase ∷ []
mark_if false t now phase = []

unfoldable pub observe_audio : LatencyTracker → ℕ → LatencyTracker × List LatencyMark
unfolding mark_if
observe_audio t now = (
  record t { first_provider_event = true; first_audio_frame = true },
  mark_if (not t.first_provider_event) t now first_provider_event
      ++ mark_if (not t.first_audio_frame) t now first_audio_frame,
)

module _ (F : Float) (J : Type 0) where
  abbrev pub is_text_delta : RealtimeEvent F J → Bool
  is_text_delta (RealtimeEvent.output_text_delta d) = true
  is_text_delta _ = false

  abbrev pub is_complete : RealtimeEvent F J → Bool
  is_complete (RealtimeEvent.provider_state s) = elim s.state [ complete ↦ true | _ ↦ false ]
  is_complete _ = false

  unfoldable pub observe_event :
      LatencyTracker → ℕ → RealtimeEvent F J → LatencyTracker × List LatencyMark
  unfolding mark_if
  observe_event t now event = (
    record t {
      first_provider_event = true;
      first_text_delta = t.first_text_delta || is_text_delta event;
    },
    mark_if (not t.first_provider_event) t now first_provider_event
        ++ (mark_if (is_text_delta event && not t.first_text_delta) t now first_text_delta
            ++ mark_if (is_complete event) t now provider_complete),
  )
